-- ===== src/Ble/Boot.antt =====
-- When the server of ble_spp_server.c comes up.
use dmesh_l.Base.{ℕ, ◌≡◌, ◌↔◌, ◌⊎◌, Option, none, some, List, [], ◌∷◌, arith, ℤ, pos, negsuc}
use dmesh_l.Ble.Start.{
  InitCall, controller_init, controller_enable, bluedroid_init, bluedroid_enable,
  gatts_register_callback, init_ble_svc, start_ble_server, register_spp_ble,
}

-- The call stands in the list.
abbrev pub Made : InitCall → List InitCall → Type 0
Made c [] = ⊥
Made c (d ∷ calls) = (c ≡ d) ⊎ Made c calls

-- All four steps before the registration succeed.
abbrev pub StackUp : (InitCall → ℕ) → Type 0
StackUp code =
    (code controller_init ≡ 0)
    × (code controller_enable ≡ 0)
    × (code bluedroid_init ≡ 0)
    × (code bluedroid_enable ≡ 0)

start_ble_server_only :
    (code : InitCall → ℕ) → Made gatts_register_callback (start_ble_server code) → StackUp code
unfolding start_ble_server
start_ble_server_only code h = ground arith

start_ble_server_does :
    (code : InitCall → ℕ) → StackUp code → Made gatts_register_callback (start_ble_server code)
unfolding start_ble_server init_ble_svc
start_ble_server_does code h = ground arith

register_spp_ble_only :
    (code : InitCall → ℕ) (wifi sble : Option ℤ)
    → Made gatts_register_callback (register_spp_ble code wifi sble)
    → (sble ≡ some (pos 1)) × ((wifi ≡ none) ⊎ (wifi ≡ some (pos 0))) × StackUp code
unfolding register_spp_ble
register_spp_ble_only code wifi none h = elim h [ ]
register_spp_ble_only code wifi (some (negsuc m)) h = elim h [ ]
register_spp_ble_only code none (some (pos m)) h = ground (arith, start_ble_server_only code)
register_spp_ble_only code (some (pos w)) (some (pos m)) h =
    ground (arith, start_ble_server_only code)
register_spp_ble_only code (some (negsuc w)) (some (pos m)) h =
    ground (arith, start_ble_server_only code)

register_spp_ble_does :
    (code : InitCall → ℕ) (wifi sble : Option ℤ)
    → (sble ≡ some (pos 1)) × ((wifi ≡ none) ⊎ (wifi ≡ some (pos 0))) × StackUp code
    → Made gatts_register_callback (register_spp_ble code wifi sble)
unfolding register_spp_ble
register_spp_ble_does code wifi sble h = ground (arith, start_ble_server_does code h.2)

-- At boot the event handlers are registered exactly when the stored `sble` setting is 1, the `wifi`
-- setting is 0 or cannot be read, and all four steps that bring the stack up succeed.
pub register_spp_ble_lem :
    (code : InitCall → ℕ) (wifi sble : Option ℤ)
    → Made gatts_register_callback (register_spp_ble code wifi sble)
      ↔ ((sble ≡ some (pos 1)) × ((wifi ≡ none) ⊎ (wifi ≡ some (pos 0))) × StackUp code)
register_spp_ble_lem code wifi sble =
    (register_spp_ble_only code wifi sble, register_spp_ble_does code wifi sble)
