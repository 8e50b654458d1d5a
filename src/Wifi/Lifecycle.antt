-- ===== src/Wifi/Lifecycle.antt =====
-- Every operation of wifi_sta_ap.c keeps the balance of the interfaces.
use dmesh_l.Base.{
  seq-none, seq-then, sym, append_assoc, ◌⊎◌, ◌∙◌, ℕ, ◌≡◌, refl, Bool, true, false, Option, none,
  some, List, [], ◌∷◌, arith, ◌==◌, if◌then◌else◌, ℤ, eq_const, Bool-cases, inl, inr, subst, ◌>>◌,
  modify, After, Keeps, bind-Keeps, seq-Keeps, if-Keeps, choose-Keeps, pure-Keeps, fault-Keeps,
  modify-Keeps, seq-Yields, modify-Yields, Yields-Keeps,
}
use dmesh_l.Wifi.Runs.{initialised, sta_calls, check_all-Yields, wifi_sta-Yields}
use dmesh_l.Wifi.Station.{
  WifiEvent, wifi_ready, sta_start, sta_connected, sta_disconnected, got_ip, WifiCall, wifi_connect,
  wifi_stop, wifi_deinit, clear_handlers, Wifi, called, unregistrations, not_init, with_group,
  check_all, event_handler, wifi_sta, tear_down, after_stop, stop, sync_time, deliver,
  wait_connected, wifi_join, init_wifi, initial_wifi,
}
use dmesh_l.Wifi.Command.{
  WifiArgs, cmd_wifi, WifiStep, boots, commanded, notified, WifiReaches, starts, steps,
}
use dmesh_l.Wifi.Interfaces.{
  driver_up, WifiIsValid, called-WifiIsValid, initialised-WifiIsValid, stopped-WifiIsValid,
  bits-WifiIsValid,
}

module _ (code : List WifiCall → WifiCall → ℕ) where
  with_group-Keeps :
      (f : Wifi → Wifi)
      → ((s : Wifi) → WifiIsValid s → WifiIsValid (f s))
      → Keeps WifiIsValid (with_group f)
  unfolding with_group
  with_group-Keeps f h = choose-Keeps (λ s. s.group) (modify-Keeps f h) fault-Keeps

  connected-Keeps :
      (b : Bool) → Keeps WifiIsValid (with_group (λ s. record s { connected_bit = b }))
  connected-Keeps b =
      with_group-Keeps (λ s. record s { connected_bit = b })
        λ s v. bits-WifiIsValid s.group s.start_bit b s v

  started-Keeps : Keeps WifiIsValid (with_group (λ s. record s { start_bit = true }))
  started-Keeps =
      with_group-Keeps (λ s. record s { start_bit = true })
        λ s v. bits-WifiIsValid s.group true s.connected_bit s v

  event_handler-Keeps : (e : WifiEvent) → Keeps WifiIsValid (event_handler code e)
  unfolding event_handler
  event_handler-Keeps wifi_ready = seq-Keeps started-Keeps (pure-Keeps tt)
  event_handler-Keeps sta_start = seq-Keeps started-Keeps (pure-Keeps tt)
  event_handler-Keeps sta_connected = seq-Keeps started-Keeps (pure-Keeps tt)
  event_handler-Keeps sta_disconnected = seq-Keeps started-Keeps (
      seq-Keeps
        (modify-Keeps (called (wifi_connect ∷ []))
          λ s v. called-WifiIsValid (wifi_connect ∷ []) s (refl, refl, refl, refl, λ up. refl) v)
        (connected-Keeps false))
  event_handler-Keeps got_ip = seq-Keeps started-Keeps (connected-Keeps true)

  deliver-Keeps : (es : List WifiEvent) → Keeps WifiIsValid (deliver code es)
  unfolding deliver
  deliver-Keeps [] = pure-Keeps tt
  deliver-Keeps (e ∷ es) = seq-Keeps (event_handler-Keeps e) (deliver-Keeps es)

  wait_connected-Keeps : (es : List WifiEvent) → Keeps WifiIsValid (wait_connected code es)
  unfolding wait_connected
  wait_connected-Keeps [] = record { holds = λ s v. v }
  wait_connected-Keeps (e ∷ es) = record {
    holds = λ s v.
        go s.connected_bit s _ v
          ((seq-Keeps (event_handler-Keeps e) (wait_connected-Keeps es)).holds s v);
  }
    where
      go :
          (b : Bool) (s : Wifi) (rest : Option (Bool × Wifi))
          → WifiIsValid s
          → After WifiIsValid rest
          → After WifiIsValid (if b then some (true, s) else rest)
      go true s rest v h = v
      go false s rest v h = h

  wifi_sta-Keeps :
      (ssid : List ℕ) (pass : Option (List ℕ)) → Keeps WifiIsValid (wifi_sta code ssid pass)
  wifi_sta-Keeps ssid pass = Yields-Keeps (wifi_sta-Yields code ssid pass) λ s v.
      called-WifiIsValid (sta_calls ssid pass) (initialised s) (refl, refl, refl, refl, λ up. refl)
        (initialised-WifiIsValid s v)

  wifi_join-Keeps :
      (ssid : List ℕ) (pass : Option (List ℕ)) (before during : List WifiEvent)
      → Keeps WifiIsValid (wifi_join code ssid pass before during)
  unfolding wifi_join
  wifi_join-Keeps ssid pass before during =
      seq-Keeps
        (seq-Keeps (seq-Keeps (wifi_sta-Keeps ssid pass) (deliver-Keeps before))
          (with_group-Keeps (λ s. s) λ s v. v))
        (wait_connected-Keeps during)

  init_wifi-Keeps :
      (mode : ℤ) (ssid psk : Option (List ℕ)) → Keeps WifiIsValid (init_wifi code mode ssid psk)
  unfolding init_wifi
  init_wifi-Keeps mode none psk =
      seq-Keeps (modify-Keeps _ λ s v. bits-WifiIsValid true false false s v) (pure-Keeps tt)
  init_wifi-Keeps mode (some ssid) psk =
      seq-Keeps (modify-Keeps _ λ s v. bits-WifiIsValid true false false s v)
        (if-Keeps (eq_const mode 1) (wifi_sta-Keeps ssid psk) (pure-Keeps tt))

  -- esp_wifi_stop says so when the driver is not initialised.
  abbrev pub ReportsNotInit : Type 0
  ReportsNotInit =
      (calls : List WifiCall) → driver_up false calls ≡ false → code calls wifi_stop ≡ not_init

  ends-After :
      (s : Wifi)
      → WifiIsValid s
      → s.initialized ≡ true
      → After WifiIsValid (
          (check_all code (wifi_deinit ∷ clear_handlers ∷ []) >> modify tear_down)
            (called (wifi_stop ∷ []) s))
  unfolding tear_down
  ends-After s v up =
      let ends =
        (seq-Yields (check_all-Yields code (wifi_deinit ∷ clear_handlers ∷ []))
            (modify-Yields tear_down)).either
          (called (wifi_stop ∷ []) s) in
      elim ends [
        | inl a ↦ subst (After WifiIsValid) (sym a.1) tt
        | inr e ↦ subst (After WifiIsValid) (sym e) (simp append_assoc (stopped-WifiIsValid s up v))
      ]

  after_stop-After :
      (err : ℕ) (s : Wifi)
      → WifiIsValid s
      → (err ≡ not_init) ⊎ (s.initialized ≡ true)
      → After WifiIsValid (after_stop code err s)
  unfolding after_stop
  after_stop-After err s v h = elim (Bool-cases (err == not_init)) [
    | inl e ↦ rw e (called-WifiIsValid (wifi_stop ∷ []) s (refl, refl, refl, refl, λ up. refl) v)
    | inr e ↦ elim (Bool-cases (err == 0)) [
      | inl z ↦ rw (e, z) (ends-After s v (ground arith))
      | inr z ↦ rw (e, z) tt
    ]
  ]

  stop-Keeps : ReportsNotInit → Keeps WifiIsValid (stop code)
  unfolding stop
  stop-Keeps reports = record {
    holds = λ s v.
        let s' : Wifi = called unregistrations s in
        let v' = called-WifiIsValid unregistrations s (refl, refl, refl, refl, λ up. refl) v in
        let known : (code s'.calls wifi_stop ≡ not_init) ⊎ (s'.initialized ≡ true) =
          elim (Bool-cases s.initialized) [
            | inl up ↦ inr up
            | inr down ↦ inl (reports s'.calls (v'.driver ∙ down))
          ] in
        elim ((check_all-Yields code unregistrations).either s) [
          | inl a ↦
              subst (After WifiIsValid) (sym (seq-none (check_all code unregistrations) _ a.1)) tt
          | inr e ↦
              subst (After WifiIsValid) (sym (seq-then (check_all code unregistrations) _ e refl))
                (after_stop-After (code s'.calls wifi_stop) s' v' known)
        ];
  }

  cmd_wifi-Keeps :
      (args : WifiArgs) (before during : List WifiEvent)
      → ReportsNotInit
      → Keeps WifiIsValid (cmd_wifi code args before during)
  unfolding cmd_wifi sync_time
  cmd_wifi-Keeps args before during reports =
      if-Keeps (args.nerrors == 0)
        (if-Keeps (args.time_count == 0)
          (if-Keeps (args.stop_count == 0)
            (if-Keeps (args.ap_count == 0)
              (bind-Keeps (wifi_join-Keeps args.ssid (some args.password) before during)
                λ c. pure-Keeps (if c then 0 else 1))
              (pure-Keeps 0))
            (seq-Keeps (stop-Keeps reports) (pure-Keeps 0)))
          (seq-Keeps
            (modify-Keeps (called _)
              λ s v. called-WifiIsValid _ s (refl, refl, refl, refl, λ up. refl) v)
            (pure-Keeps 0)))
        (pure-Keeps 1)

  WifiStep-WifiIsValid :
      (s s' : Wifi) → ReportsNotInit → WifiStep code s s' → WifiIsValid s → WifiIsValid s'
  WifiStep-WifiIsValid s s' reports (boots mode ssid psk e) v =
      subst (After WifiIsValid) e ((init_wifi-Keeps mode ssid psk).holds s v)
  WifiStep-WifiIsValid s s' reports (commanded args before during exit e) v =
      subst (After WifiIsValid) e ((cmd_wifi-Keeps args before during reports).holds s v)
  WifiStep-WifiIsValid s s' reports (notified event e) v =
      subst (After WifiIsValid) e ((event_handler-Keeps event).holds s v)

  -- If esp_wifi_stop reports a driver that is not initialised, then whatever commands are given and
  -- events come in, each interface has been created once more than it has been destroyed while the
  -- component is initialised, and as often as it has been destroyed otherwise.
  pub WifiReaches-WifiIsValid :
      (s : Wifi) → ReportsNotInit → WifiReaches code initial_wifi s → WifiIsValid s
  WifiReaches-WifiIsValid s reports starts = record {
    ap_balance = refl;
    sta_balance = refl;
    ap_there = refl;
    sta_there = refl;
    driver = refl;
  }
  WifiReaches-WifiIsValid s reports (steps {t} r step) =
      WifiStep-WifiIsValid t s reports step (WifiReaches-WifiIsValid t reports r)
