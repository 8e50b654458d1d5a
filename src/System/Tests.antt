-- ===== src/System/Tests.antt =====
-- The theorem on `light_sleep` of cmd_system.c at a concrete input.
use dmesh_l.Base.{codes, decimal, digits, ◌++◌, ◌≡◌, refl, true, some, [], ◌∷◌, pos}
use dmesh_l.System.Info.{get_version, version_line, feature}
use dmesh_l.System.Sleep.{
  microseconds, enable_timer_wakeup, disable_all_sources, gpio_wakeup_enable, exit, light_sleep,
}
use dmesh_l.System.Waking.{light_sleep_lem}

-- The second level is refused: the first pin stays enabled.
light_sleep_lem_example :
    light_sleep
      (λ io. true)
      (λ calls c. 0)
      0
      0
      0
      (some (pos 5))
      (pos 4 ∷ pos 2 ∷ [])
      (pos 1 ∷ pos 7 ∷ [])
      []
    ≡ some (
      exit 1,
      disable_all_sources ∷ enable_timer_wakeup 5000 ∷ gpio_wakeup_enable (pos 4) true ∷ [],
    )
unfolding microseconds
light_sleep_lem_example =
    light_sleep_lem (λ io. true) (λ calls c. 0) (some (pos 5)) (pos 4 ∷ pos 2 ∷ [])
      (pos 1 ∷ pos 7 ∷ []) [] (λ calls c. refl)

version_text :
    get_version
      (codes "v4.0")
      (record { is_esp32 = true; features = 50; cores = 2; revision = 1; flash_size = 4194304 })
    ≡ codes "IDF Version:v4.0"
      ++ (13 ∷ 10 ∷ codes "Chip info:"
          ++ (13 ∷ 10 ∷ 9 ∷ codes "model:ESP32"
              ++ (13 ∷ 10 ∷ 9 ∷ codes "cores:2"
                  ++ (13 ∷ 10 ∷ 9 ∷ codes "feature:/802.11bgn/BLE/BT/External-Flash:4 MB"
                      ++ (13 ∷ 10 ∷ 9 ∷ codes "revision number:1" ++ 13 ∷ 10 ∷ [])))))
unfolding get_version version_line feature decimal digits
version_text = refl
