-- ===== src/Main/Starting.antt =====
-- What `app_main` of main.c starts.
use dmesh_l.Base.{
  ℕ, ◌≡◌, refl, Bool, true, false, Option, some, List, [], ◌∷◌, arith, ◌==◌, if◌then◌else◌, ℤ, pure,
  append_assoc, append-nil, Bool-cases, inl, inr, Yields, Yields-eq, seq-Yields, modify-Yields,
  pure-Yields, ends-Yields,
}
use dmesh_l.Wifi.Station.{WifiCall}
use dmesh_l.Main.Boot.{
  BootCall, nvs_flash_init, open_storage, open_net80211, event_loop_create, keep_rtc_periph,
  drop_rtc_slow_mem, drop_rtc_fast_mem, pm_lock_create, register_console, gpio_wakeup,
  uart_threshold, uart_wakeup, pm_configure, Machine, made, note_reset, is_positive, require,
  require_all, settle_nvs, initialize_nvs, prepare,
}

-- The calls of `prepare`.
abbrev pub prepare_calls : (lsleep : Option ℤ) → List BootCall
prepare_calls lsleep =
    nvs_flash_init
    ∷ open_storage
    ∷ open_net80211
    ∷ event_loop_create
    ∷ keep_rtc_periph
    ∷ drop_rtc_slow_mem
    ∷ drop_rtc_fast_mem
    ∷ pm_lock_create
    ∷ register_console
    ∷ gpio_wakeup
    ∷ uart_threshold
    ∷ uart_wakeup
    ∷ (if is_positive lsleep then pm_configure ∷ [] else [])

module _ (code : List BootCall → BootCall → ℕ) (wifi_code : List WifiCall → WifiCall → ℕ) where
  abbrev pub BootSucceeds : Type 0
  BootSucceeds = (calls : List BootCall) (c : BootCall) → code calls c ≡ 0

  pub require-Yields :
      (c : BootCall) → Yields BootSucceeds (require code wifi_code c) (made (c ∷ []))
  unfolding require
  require-Yields c = record {
    either = λ m. elim (Bool-cases (code m.calls c == 0)) [
      | inl e ↦ inr (rw e)
      | inr e ↦ inl ((λ ok. ground (arith, ok m.calls c)), rw e)
    ];
  }

  pub require_all-Yields :
      (cs : List BootCall) → Yields BootSucceeds (require_all code wifi_code cs) (made cs)
  unfolding require_all
  require_all-Yields [] = Yields-eq pure-Yields λ m. rw (append-nil m.calls)
  require_all-Yields (c ∷ cs) =
      Yields-eq (seq-Yields (require-Yields c) (require_all-Yields cs))
        λ m. rw (append_assoc m.calls (c ∷ []) cs)

  pub initialize_nvs-runs :
      (m : Machine)
      → BootSucceeds
      → initialize_nvs code wifi_code m ≡ some (tt, made (nvs_flash_init ∷ []) m)
  unfolding initialize_nvs settle_nvs
  initialize_nvs-runs m ok = rw (ok m.calls nvs_flash_init) refl

  pub lsleep-Yields :
      (b : Bool)
      → Yields BootSucceeds
          (if b then require code wifi_code pm_configure else pure tt)
          (made (if b then pm_configure ∷ [] else []))
  lsleep-Yields true = require-Yields pm_configure
  lsleep-Yields false = Yields-eq pure-Yields λ m. rw (append-nil m.calls)

  pub prepare-Yields :
      (now again : ℕ) (lsleep : Option ℤ)
      → BootSucceeds
      → Yields BootSucceeds
          (prepare code wifi_code now again lsleep)
          (λ m. made (prepare_calls lsleep) (note_reset now again m))
  unfolding prepare note_reset
  prepare-Yields now again lsleep ok =
      Yields-eq
        (seq-Yields
          (seq-Yields
            (seq-Yields
              (seq-Yields
                (seq-Yields
                  (seq-Yields
                    (seq-Yields (modify-Yields (note_reset now again))
                      (ends-Yields λ m. initialize_nvs-runs m ok))
                    (require_all-Yields (open_storage ∷ open_net80211 ∷ event_loop_create ∷ [])))
                  (modify-Yields
                    (made (keep_rtc_periph ∷ drop_rtc_slow_mem ∷ drop_rtc_fast_mem ∷ []))))
                (require-Yields pm_lock_create))
              (modify-Yields (made (register_console ∷ []))))
            (require_all-Yields (gpio_wakeup ∷ uart_threshold ∷ uart_wakeup ∷ [])))
          (lsleep-Yields (is_positive lsleep)))
        λ m. simp append_assoc
