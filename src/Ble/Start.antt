-- ===== src/Ble/Start.antt =====
-- Starting and stopping the server of esp32/components/l2-ble-bt/ble_spp_server.c.
use dmesh_l.Base.{
  ℕ, true, Option, none, some, List, [], ◌∷◌, ◌==◌, ◌&&◌, if◌then◌else◌, ℤ, eq_const,
}

-- The calls into the Bluetooth stack, in the order of the source.
pub data InitCall : Type 0 where
  controller_init controller_enable bluedroid_init bluedroid_enable : InitCall
  gap_register_callback gatts_register_callback : InitCall
  gatts_app_register gattc_app_register gattc_register_callback : InitCall
  set_local_mtu : ℕ → InitCall
  bluedroid_disable controller_disable : InitCall

module _ (code : InitCall → ℕ) where
  -- `init_ble_svc`: the calls made, when each returns what `code` says.
  unfoldable pub init_ble_svc : List InitCall
  init_ble_svc =
      gap_register_callback
      ∷ gatts_register_callback
      ∷ gatts_app_register
      ∷ gattc_app_register
      ∷ gattc_register_callback
      ∷ (if code gattc_register_callback == 0 then set_local_mtu 200 ∷ [] else [])

  -- `start_ble_server`: every step but the first needs the one before to succeed.
  unfoldable pub start_ble_server : List InitCall
  start_ble_server =
      controller_init
      ∷ (if code controller_init == 0
          then controller_enable
            ∷ (if code controller_enable == 0
                then bluedroid_init
                  ∷ (if code bluedroid_init == 0
                      then bluedroid_enable
                        ∷ (if code bluedroid_enable == 0 then init_ble_svc else [])
                      else [])
                else [])
          else [])

  -- `ble_cmd`: the exit code and the calls, from the parsed command line.
  unfoldable pub ble_cmd : (nerrors start_count stop_count : ℕ) → ℕ × List InitCall
  ble_cmd nerrors start_count stop_count =
      if nerrors == 0
      then if start_count == 0
        then if stop_count == 0 then (0, []) else (0, bluedroid_disable ∷ controller_disable ∷ [])
        else (0, start_ble_server)
      else (1, [])

  -- `register_spp_ble`, after the command is registered: the stored `wifi` and `sble` settings,
  -- `none` when the read fails (and then `wmode` keeps its initial 0).
  unfoldable pub register_spp_ble : (wifi sble : Option ℤ) → List InitCall
  register_spp_ble wifi none = []
  register_spp_ble wifi (some mode) =
      if eq_const mode 1 && elim wifi [ none ↦ true | some w ↦ eq_const w 0 ]
      then start_ble_server
      else []
