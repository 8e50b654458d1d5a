-- ===== src/System/Sleep.antt =====
-- `deep_sleep` and `light_sleep` of cmd_system.c, and `dmesh_enter_deep_sleep` of main.c.
use dmesh_l.Base.{
  ℕ, suc, ◌-◌, ◌*◌, ◌%◌, ◌^◌, Bool, true, false, Option, none, some, List, [], ◌∷◌, ◌++◌, ◌==◌,
  ◌||◌, not, if◌then◌else◌, ℤ, pos, negsuc, eq_const, length, M, ◌>>=◌, ◌>>◌, pure, modify,
}

-- The calls on the sleep modes.
pub data SleepCall : Type 0 where
  bluedroid_disable controller_disable : SleepCall
  enable_timer_wakeup : (microseconds : ℕ) → SleepCall
  enable_ext1_wakeup : (mask : ℕ) (level : ℕ) → SleepCall
  isolate_gpio_12 deep_sleep_start : SleepCall
  disable_all_sources enable_gpio_wakeup uart_threshold enable_uart_wakeup : SleepCall
  gpio_wakeup_enable : (pin : ℤ) (high : Bool) → SleepCall
  light_sleep_start pm_configure dump_locks : SleepCall

-- A command returns an exit code, or the node falls into deep sleep.
pub data Outcome : Type 0 where
  exit : ℕ → Outcome
  sleeps : Outcome

abbrev pub S : Type 0 → Type 0
S A = M (List SleepCall) A

abbrev pub calling : List SleepCall → List SleepCall → List SleepCall
calling cs calls = calls ++ cs

-- `1000ULL * ival`
unfoldable pub microseconds : ℤ → ℕ
microseconds (pos n) = 1000 * n % 2 ^ 64
microseconds (negsuc n) = 2 ^ 64 - 1000 * suc n

-- `1ULL << io_num`, for the pins that are valid.
unfoldable pub pin_mask : ℤ → ℕ
pin_mask (pos n) = 2 ^ n
pin_mask (negsuc n) = 0

abbrev pub is_level : ℤ → Bool
is_level level = eq_const level 0 || eq_const level 1

abbrev pub level_bit : ℤ → ℕ
level_bit level = if eq_const level 0 then 0 else 1

-- `is_rtc` is rtc_gpio_is_valid_gpio, and `code` what a call returns after those before it. none is
-- an abort by ESP_ERROR_CHECK.
module _ (is_rtc : ℤ → Bool) (code : List SleepCall → SleepCall → ℕ) where
  unfoldable pub checked : SleepCall → S (Unit {0})
  checked c calls = if code calls c == 0 then some (tt, calling (c ∷ []) calls) else none

  -- The end of both deep sleeps.
  unfoldable pub fall_asleep : S Outcome
  fall_asleep = modify (calling (isolate_gpio_12 ∷ deep_sleep_start ∷ [])) >> pure sleeps

  -- `dmesh_enter_deep_sleep`, with the interrupt pin of the LoRa driver; exit 0 is its return.
  unfoldable pub dmesh_enter_deep_sleep : (timeout : ℕ) (pin : ℤ) → S Outcome
  dmesh_enter_deep_sleep timeout pin =
      modify (calling (bluedroid_disable ∷ controller_disable ∷ []))
      >> checked (enable_timer_wakeup timeout)
      >> (if is_rtc pin
          then checked (enable_ext1_wakeup (pin_mask pin) 1) >> fall_asleep
          else pure (exit 0))

  -- `--time` of both commands.
  unfoldable pub set_timer : Option ℤ → S (Unit {0})
  set_timer none = pure tt
  set_timer (some ms) = checked (enable_timer_wakeup (microseconds ms))

  -- `--io` and `--io_level` of `deep_sleep`, on a pin that is valid.
  unfoldable pub wake_on_pin : (io : ℤ) (level : Option ℤ) → S Outcome
  wake_on_pin io none = checked (enable_ext1_wakeup (pin_mask io) 0) >> fall_asleep
  wake_on_pin io (some level) =
      if is_level level
      then checked (enable_ext1_wakeup (pin_mask io) (level_bit level)) >> fall_asleep
      else pure (exit 1)

  -- `deep_sleep` behind `--start`.
  unfoldable pub deep_sleep_options : (time io level : Option ℤ) → S Outcome
  deep_sleep_options time none level = set_timer time >> fall_asleep
  deep_sleep_options time (some io) level =
      set_timer time >> (if is_rtc io then wake_on_pin io level else pure (exit 1))

  -- `deep_sleep`
  unfoldable pub deep_sleep : (nerrors : ℕ) (start time io level : Option ℤ) (pin : ℤ) → S Outcome
  deep_sleep nerrors none time io level pin =
      if nerrors == 0 then deep_sleep_options time io level else pure (exit 1)
  deep_sleep nerrors (some ms) time io level pin =
      if nerrors == 0 then dmesh_enter_deep_sleep (microseconds ms) pin else pure (exit 1)

  -- The loop of `light_sleep` over the pins, of which there are as many as levels; false is a level
  -- that is refused.
  unfoldable pub enable_pins : (pins levels : List ℤ) → S Bool
  enable_pins (io ∷ pins) (level ∷ levels) =
      if is_level level
      then checked (gpio_wakeup_enable io (not (eq_const level 0))) >> enable_pins pins levels
      else pure false
  enable_pins _ _ = pure true

  -- What follows the loop. The console is on UART 0.
  unfoldable pub light_sleep_now : (io_count : ℕ) → S Outcome
  light_sleep_now io_count =
      (if io_count == 0 then pure tt else checked enable_gpio_wakeup)
      >> checked uart_threshold
      >> checked enable_uart_wakeup
      >> modify (calling (light_sleep_start ∷ []))
      >> pure (exit 0)

  -- `light_sleep` with wake-up options.
  unfoldable pub light_sleep_options : (time : Option ℤ) (pins levels : List ℤ) → S Outcome
  light_sleep_options time pins levels =
      modify (calling (disable_all_sources ∷ []))
      >> set_timer time
      >> (if length pins == length levels
          then enable_pins pins levels
            >>= (λ accepted. if accepted then light_sleep_now (length pins) else pure (exit 1))
          else pure (exit 1))

  -- `--auto` of `light_sleep`
  unfoldable pub auto_sleep : S Outcome
  auto_sleep =
      checked (gpio_wakeup_enable (pos 26) true)
      >> checked uart_threshold
      >> checked enable_uart_wakeup
      >> checked pm_configure
      >> pure (exit 0)

  -- `light_sleep`, without what it prints of the cause of the wake-up.
  unfoldable pub light_sleep :
      (nerrors locks_count auto_count : ℕ) (time : Option ℤ) (pins levels : List ℤ) → S Outcome
  light_sleep nerrors locks_count auto_count time pins levels =
      if nerrors == 0
      then if locks_count == 0
        then if auto_count == 0 then light_sleep_options time pins levels else auto_sleep
        else modify (calling (dump_locks ∷ [])) >> pure (exit 0)
      else pure (exit 1)
