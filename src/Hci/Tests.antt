-- ===== src/Hci/Tests.antt =====
-- The theorem on ble_hci.c at a concrete input.
use dmesh_l.Base.{◌≡◌, true, false, [], ◌∷◌, take}
use dmesh_l.Hci.Commands.{initial_advertiser, ble_advt_task}
use dmesh_l.Hci.Advertising.{script, ble_advt_task_lem}

ble_advt_task_lem_example :
    (ble_advt_task (false ∷ true ∷ false ∷ true ∷ []) initial_advertiser).packets ≡ take 2 script
ble_advt_task_lem_example = ble_advt_task_lem (false ∷ true ∷ false ∷ true ∷ [])
