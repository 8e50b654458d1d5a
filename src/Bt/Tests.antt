-- ===== src/Bt/Tests.antt =====
-- The theorems on bt_spp_server.c at concrete inputs.
use dmesh_l.Base.{ℕ, ◌≡◌, [], ◌∷◌}
use dmesh_l.Bt.Port.{
  initial_port, spp_write, spp_init, spp_close, data_ind, srv_open, bt_send, run_port, BtInit,
  spp_register,
}
use dmesh_l.Bt.Routing.{bt_send_lem}

bt_send_lem_example :
    bt_send
      (1 ∷ 2 ∷ [])
      (run_port
        (spp_init ∷ srv_open 7 ∷ spp_close ∷ srv_open 9 ∷ data_ind [] 9 ∷ [])
        initial_port).0
    ≡ spp_write 9 (1 ∷ 2 ∷ []) ∷ []
bt_send_lem_example =
    bt_send_lem (spp_init ∷ srv_open 7 ∷ spp_close ∷ srv_open 9 ∷ data_ind [] 9 ∷ []) (1 ∷ 2 ∷ [])

-- Only the registration of the serial port fails.
abbrev failing : BtInit → ℕ
failing spp_register = 1
failing c = 0
