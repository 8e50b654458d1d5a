-- ===== src/Bt/Routing.antt =====
-- Where the messages of bt_spp_server.c go, and when its port comes up.
use dmesh_l.Base.{ℕ, ◌≡◌, ◌⊎◌, ◌↔◌, refl, List, [], ◌∷◌, arith, ◌==◌, if◌then◌else◌}
use dmesh_l.Bt.Port.{
  Port, initial_port, spp_write, PortEvent, spp_init, spp_close, spp_start, cl_init, cong, write,
  other, data_ind, srv_open, bt_send, esp_spp_cb, run_port, BtInit, controller_init,
  controller_enable, bluedroid_init, bluedroid_enable, gap_register, spp_register, spp_initialize,
  set_pin, checked, init_bt,
}

-- The client that is connected after the events: the last one opened since the last close, `none`
-- as 0.
abbrev pub client : (before : ℕ) → List PortEvent → ℕ
client before [] = before
client before (srv_open handle ∷ events) = client handle events
client before (spp_close ∷ events) = client 0 events
client before (e ∷ events) = client before events

run_port-handles :
    (events : List PortEvent) (p : Port)
    → p.cspp_handle ≡ 0
    → ((run_port events p).0.spp_handle ≡ client p.spp_handle events)
      × ((run_port events p).0.cspp_handle ≡ 0)
unfolding run_port esp_spp_cb
run_port-handles [] p h = (refl, h)
run_port-handles (srv_open handle ∷ events) p h =
    run_port-handles events (record p { spp_handle = handle }) h
run_port-handles (spp_close ∷ events) p h =
    run_port-handles events (record p { spp_handle = 0; cspp_handle = 0 }) refl
run_port-handles (spp_init ∷ events) p h = run_port-handles events p h
run_port-handles (spp_start ∷ events) p h = run_port-handles events p h
run_port-handles (cl_init ∷ events) p h = run_port-handles events p h
run_port-handles (cong ∷ events) p h = run_port-handles events p h
run_port-handles (write ∷ events) p h = run_port-handles events p h
run_port-handles (other ∷ events) p h = run_port-handles events p h
run_port-handles (data_ind bytes handle ∷ events) p h = run_port-handles events p h

-- After any events, `btSend` writes the message once, to the last client opened, if there has been
-- no close since then, and otherwise sends nothing.
pub bt_send_lem :
    (events : List PortEvent) (bytes : List ℕ)
    → bt_send bytes (run_port events initial_port).0
      ≡ (if client 0 events == 0 then [] else spp_write (client 0 events) bytes ∷ [])
unfolding bt_send
bt_send_lem events bytes = ground (arith, run_port-handles events initial_port refl)

-- The call stands in the list.
abbrev pub MadeBt : BtInit → List BtInit → Type 0
MadeBt c [] = ⊥
MadeBt c (d ∷ calls) = (c ≡ d) ⊎ MadeBt c calls

-- The PIN is set, and so the port is up, exactly when each of the seven checked calls succeeds.
pub init_bt_lem :
    (code : BtInit → ℕ)
    → MadeBt set_pin (init_bt code) ↔ (
        (code controller_init ≡ 0)
        × (code controller_enable ≡ 0)
        × (code bluedroid_init ≡ 0)
        × (code bluedroid_enable ≡ 0)
        × (code gap_register ≡ 0)
        × (code spp_register ≡ 0)
        × (code spp_initialize ≡ 0))
unfolding init_bt checked
init_bt_lem code = ground arith
