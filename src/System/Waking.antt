-- ===== src/System/Waking.antt =====
-- What `light_sleep` of cmd_system.c does with its options.
use dmesh_l.Base.{
  ℕ, ◌≡◌, refl, sym, ap, ◌∙◌, Bool, true, false, ◌&&◌, not, Option, none, some, List, [], ◌∷◌, ◌++◌,
  ◌==◌, arith, if◌then◌else◌, ℤ, eq_const, length, append_assoc, append-nil, Bool-cases, inl, inr,
  ◌>>◌, pure, modify, bind-then, seq-then, Yields, seq-Yields, pure-Yields, modify-Yields,
  Yields-eq, yields,
}
use dmesh_l.System.Sleep.{
  SleepCall, S, enable_timer_wakeup, disable_all_sources, enable_gpio_wakeup, uart_threshold,
  enable_uart_wakeup, gpio_wakeup_enable, light_sleep_start, exit, calling, microseconds, is_level,
  checked, set_timer, enable_pins, light_sleep_now, light_sleep_options, light_sleep,
}

abbrev pub timer_calls : Option ℤ → List SleepCall
timer_calls none = []
timer_calls (some ms) = enable_timer_wakeup (microseconds ms) ∷ []

-- The calls for the pins before the first level that is neither 0 nor 1.
abbrev pub pin_calls : (pins levels : List ℤ) → List SleepCall
pin_calls [] levels = []
pin_calls (io ∷ pins) [] = []
pin_calls (io ∷ pins) (level ∷ levels) =
    if is_level level
    then gpio_wakeup_enable io (not (eq_const level 0)) ∷ pin_calls pins levels
    else []

abbrev pub all_levels : List ℤ → Bool
all_levels [] = true
all_levels (level ∷ levels) = is_level level && all_levels levels

-- The calls of a `light_sleep` that has enabled its pins.
abbrev pub start_calls : (io_count : ℕ) → List SleepCall
start_calls io_count =
    (if io_count == 0 then [] else enable_gpio_wakeup ∷ [])
    ++ uart_threshold ∷ enable_uart_wakeup ∷ light_sleep_start ∷ []

-- Whether input on the UART wakes the node after the calls.
abbrev pub uart_wakes : Bool → List SleepCall → Bool
uart_wakes b [] = b
uart_wakes b (disable_all_sources ∷ cs) = uart_wakes false cs
uart_wakes b (enable_uart_wakeup ∷ cs) = uart_wakes true cs
uart_wakes b (c ∷ cs) = uart_wakes b cs

uart_wakes-append :
    (b : Bool) (xs ys : List SleepCall) → uart_wakes b (xs ++ ys) ≡ uart_wakes (uart_wakes b xs) ys
uart_wakes-append b [] ys = refl
uart_wakes-append b (disable_all_sources ∷ xs) ys = uart_wakes-append false xs ys
uart_wakes-append b (enable_uart_wakeup ∷ xs) ys = uart_wakes-append true xs ys
uart_wakes-append b (c ∷ xs) ys = uart_wakes-append b xs ys

uart_wakes-pin_calls : (b : Bool) (pins levels : List ℤ) → uart_wakes b (pin_calls pins levels) ≡ b
uart_wakes-pin_calls b [] levels = refl
uart_wakes-pin_calls b (io ∷ pins) [] = refl
uart_wakes-pin_calls b (io ∷ pins) (level ∷ levels) =
    ground (arith, uart_wakes-pin_calls b pins levels)

uart_wakes-prepared :
    (b : Bool) (calls : List SleepCall) (time : Option ℤ)
    → uart_wakes b (calls ++ disable_all_sources ∷ timer_calls time) ≡ false
uart_wakes-prepared b calls none = uart_wakes-append b calls (disable_all_sources ∷ [])
uart_wakes-prepared b calls (some ms) =
    uart_wakes-append b calls (disable_all_sources ∷ timer_calls (some ms))

module _ (is_rtc : ℤ → Bool) (code : List SleepCall → SleepCall → ℕ) where
  abbrev pub NoneFails : Type 0
  NoneFails = (calls : List SleepCall) (c : SleepCall) → code calls c ≡ 0

  checked-Yields : (c : SleepCall) → Yields NoneFails (checked is_rtc code c) (calling (c ∷ []))
  unfolding checked
  checked-Yields c = record {
    either = λ s. elim (Bool-cases (code s c == 0)) [
      | inl e ↦ inr (rw e)
      | inr e ↦ inl ((λ ok. ground (arith, ok s c)), rw e)
    ];
  }

  set_timer-Yields :
      (time : Option ℤ) → Yields NoneFails (set_timer is_rtc code time) (calling (timer_calls time))
  unfolding set_timer
  set_timer-Yields none = Yields-eq pure-Yields λ calls. sym (append-nil calls)
  set_timer-Yields (some ms) = checked-Yields (enable_timer_wakeup (microseconds ms))

  enable_pins-runs :
      (pins levels : List ℤ) (calls : List SleepCall)
      → NoneFails
      → length pins ≡ length levels
      → enable_pins is_rtc code pins levels calls
        ≡ some (all_levels levels, calls ++ pin_calls pins levels)
  unfolding enable_pins
  enable_pins-runs [] [] calls ok e = ap (λ c. some (true, c)) (sym (append-nil calls))
  enable_pins-runs [] (l ∷ levels) calls ok e = absurd (omega (arith, e))
  enable_pins-runs (io ∷ pins) [] calls ok e = absurd (omega (arith, e))
  enable_pins-runs (io ∷ pins) (level ∷ levels) calls ok e = elim (Bool-cases (is_level level)) [
    | inl good ↦
        let c : SleepCall = gpio_wakeup_enable io (not (eq_const level 0)) in
        rw good (
          seq-then (checked is_rtc code c) (enable_pins is_rtc code pins levels) {s = calls}
            (yields (checked-Yields c) ok calls)
            (enable_pins-runs pins levels (calls ++ c ∷ []) ok (omega (arith, e))
              ∙ ap (λ cs. some (all_levels levels, cs))
                  (append_assoc calls (c ∷ []) (pin_calls pins levels))))
    | inr bad ↦ rw bad (ap (λ c. some (false, c)) (sym (append-nil calls)))
  ]

  gpio-Yields :
      (b : Bool)
      → Yields NoneFails
          (if b then pure tt else checked is_rtc code enable_gpio_wakeup)
          (calling (if b then [] else enable_gpio_wakeup ∷ []))
  gpio-Yields true = Yields-eq pure-Yields λ calls. sym (append-nil calls)
  gpio-Yields false = checked-Yields enable_gpio_wakeup

  light_sleep_now-runs :
      (n : ℕ) (calls : List SleepCall)
      → NoneFails
      → light_sleep_now is_rtc code n calls ≡ some (exit 0, calls ++ start_calls n)
  unfolding light_sleep_now
  light_sleep_now-runs n calls ok =
      let first : S (Unit {0}) =
        (if n == 0 then pure tt else checked is_rtc code enable_gpio_wakeup)
        >> checked is_rtc code uart_threshold
        >> checked is_rtc code enable_uart_wakeup
        >> modify (calling (light_sleep_start ∷ [])) in
      let run =
        yields
          (seq-Yields
            (seq-Yields (seq-Yields (gpio-Yields (n == 0)) (checked-Yields uart_threshold))
              (checked-Yields enable_uart_wakeup))
            (modify-Yields (calling (light_sleep_start ∷ []))))
          ok calls in
      seq-then first (pure (exit 0)) {s = calls} run
        (ap (λ c. some (exit 0, c)) (simp append_assoc))

  -- When no call fails, `light_sleep` with wake-up options first disables all sources and sets the
  -- timer. If there are as many levels as pins, it enables the pins before the first level that is
  -- neither 0 nor 1; if there is none such, it sleeps and exits with 0. In all other cases it exits
  -- with 1, does not sleep, and enables nothing more.
  pub light_sleep_lem :
      (time : Option ℤ) (pins levels : List ℤ) (calls : List SleepCall)
      → NoneFails
      → let even = length pins == length levels in
        let prepared = calls ++ disable_all_sources ∷ timer_calls time in
        light_sleep is_rtc code 0 0 0 time pins levels calls ≡ (
          if even
          then if all_levels levels
            then some (exit 0, prepared ++ (pin_calls pins levels ++ start_calls (length pins)))
            else some (exit 1, prepared ++ pin_calls pins levels)
          else some (exit 1, prepared))
  unfolding light_sleep light_sleep_options
  light_sleep_lem time pins levels calls ok =
      let prepared : List SleepCall = calls ++ disable_all_sources ∷ timer_calls time in
      let start : S (Unit {0}) =
        modify (calling (disable_all_sources ∷ [])) >> set_timer is_rtc code time in
      let run : start calls ≡ some (tt, prepared) =
        yields
          (seq-Yields (modify-Yields (calling (disable_all_sources ∷ []))) (set_timer-Yields time))
          ok calls
        ∙ ap (λ c. some (tt, c))
            (append_assoc calls (disable_all_sources ∷ []) (timer_calls time)) in
      elim (Bool-cases (length pins == length levels)) [
        | inl even ↦ rw even (
            seq-then start _ {s = calls} run (
              bind-then (enable_pins is_rtc code pins levels) _ {s = prepared}
                (enable_pins-runs pins levels prepared ok (ground arith))
                (elim (Bool-cases (all_levels levels)) [
                  | inl good ↦ rw good (
                      light_sleep_now-runs (length pins) (prepared ++ pin_calls pins levels) ok
                      ∙ ap (λ c. some (exit 0, c))
                          (append_assoc prepared (pin_calls pins levels)
                            (start_calls (length pins))))
                  | inr bad ↦ rw bad refl
                ])))
        | inr odd ↦ rw odd (seq-then start (pure (exit 1)) {s = calls} run refl)
      ]

  -- When no call fails and the levels are refused, by their number or their values, the node stays
  -- awake and without its wake-up by the UART, which `app_main` had enabled.
  pub light_sleep_refused :
      (time : Option ℤ) (pins levels : List ℤ) (calls : List SleepCall)
      → NoneFails
      → (length pins == length levels) && all_levels levels ≡ false
      → (calls' : List SleepCall) × (light_sleep is_rtc code 0 0 0 time pins levels calls
          ≡ some (exit 1, calls'))
        × (uart_wakes true calls' ≡ false)
  light_sleep_refused time pins levels calls ok refused =
      let prepared : List SleepCall = calls ++ disable_all_sources ∷ timer_calls time in
      let off : uart_wakes true prepared ≡ false = uart_wakes-prepared true calls time in
      elim (Bool-cases (length pins == length levels)) [
        | inr odd ↦ (prepared, light_sleep_lem time pins levels calls ok ∙ rw odd refl, off)
        | inl even ↦
            let bad : all_levels levels ≡ false = rw even at refused in
            (
              prepared ++ pin_calls pins levels,
              light_sleep_lem time pins levels calls ok ∙ rw (even, bad) refl,
              uart_wakes-append true prepared (pin_calls pins levels)
                  ∙ uart_wakes-pin_calls (uart_wakes true prepared) pins levels
                  ∙ off,
            )
      ]
