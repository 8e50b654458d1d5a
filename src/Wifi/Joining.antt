-- ===== src/Wifi/Joining.antt =====
-- When `wifi_join` of wifi_sta_ap.c says that the station is connected.
use dmesh_l.Base.{
  ℕ, ◌≡◌, refl, ap, ◌∙◌, true, false, ◌||◌, Option, none, some, List, [], ◌∷◌, ◌++◌, arith,
  if◌then◌else◌, M, ◌>>◌, pure, seq-then, seq-none, bind-then, bind-none, seq-Yields, modify-Yields,
  yields, inl, inr,
}
use dmesh_l.Wifi.Runs.{initialised, sta_calls, AllSucceed, check_all-Yields, wifi_sta-Yields}
use dmesh_l.Wifi.Command.{stop_args, join_args, cmd_wifi}
use dmesh_l.Wifi.Station.{
  WifiEvent, wifi_ready, sta_start, sta_connected, sta_disconnected, got_ip, WifiCall, wifi_stop,
  wifi_deinit, clear_handlers, Wifi, called, unregistrations, with_group, check_all, event_handler,
  wifi_sta, tear_down, after_stop, stop, deliver, wait_connected, wifi_join,
}
use dmesh_l.Wifi.Events.{
  settled, attempts, has_ip, attempts_to_ip, with_group-runs, with_group-aborts, assoc-then,
  deliver-Stands, wait_connected-Waits,
}

module _ (code : List WifiCall → WifiCall → ℕ) where
  initialised-group : (s : Wifi) → (initialised s).group ≡ s.group
  initialised-group s = ground arith

  initialised-bit : (s : Wifi) → (initialised s).connected_bit ≡ s.connected_bit
  initialised-bit s = ground arith

  -- If no call fails, and there is an event group, which `init_wifi` creates, `wifi_join` returns: it
  -- configures and connects the station, tries again for each disconnection, and says that the
  -- station is connected exactly when it was at the start of the wait, by the last event about that,
  -- or an address comes in while it waits.
  pub wifi_join_lem :
      (ssid : List ℕ) (pass : Option (List ℕ)) (before during : List WifiEvent) (s : Wifi)
      → AllSucceed code
      → s.group ≡ true
      → let ready = settled s.connected_bit before in
        (t : Wifi) × (wifi_join code ssid pass before during s ≡ some (ready || has_ip during, t))
        × (t.connected_bit ≡ ready || has_ip during)
        × (t.calls
            ≡ (((initialised s).calls ++ sta_calls ssid pass) ++ attempts before)
              ++ (if ready then [] else attempts_to_ip during))
  unfolding wifi_join
  wifi_join_lem ssid pass before during s ok group =
      let s1 : Wifi = called (sta_calls ssid pass) (initialised s) in
      let sta = yields (wifi_sta-Yields code ssid pass) ok s in
      let (s2, told, stands) =
        deliver-Stands code before s.connected_bit s1.calls s1
          (initialised-group s ∙ group, initialised-bit s, refl) in
      let (t, waited, ends) =
        wait_connected-Waits code (settled s.connected_bit before) during _ s2 stands in
      (
        t,
        seq-then (wifi_sta code ssid pass >> deliver code before >> with_group (λ u. u))
            (wait_connected code during) {s = s}
            (seq-then (wifi_sta code ssid pass >> deliver code before) (with_group (λ u. u)) {s = s}
              (seq-then (wifi_sta code ssid pass) (deliver code before) sta told)
              (with_group-runs (λ u. u) s2 stands.0))
            waited,
        ends.1,
        ends.2,
      )

  -- A `stop` that succeeds leaves the connection bit as it is.
  stop-runs :
      (s : Wifi)
      → AllSucceed code
      → (t : Wifi) × (stop code s ≡ some (tt, t))
        × (t.group ≡ s.group)
        × (t.connected_bit ≡ s.connected_bit)
  unfolding stop after_stop tear_down
  stop-runs s ok =
      let s1 : Wifi = called unregistrations s in
      let s2 : Wifi = called (wifi_stop ∷ []) s1 in
      let end =
        yields
          (seq-Yields (check_all-Yields code (wifi_deinit ∷ clear_handlers ∷ []))
            (modify-Yields tear_down))
          ok s2 in
      (
        tear_down (called (wifi_deinit ∷ clear_handlers ∷ []) s2),
        seq-then (check_all code unregistrations) _ {s = s}
            (yields (check_all-Yields code unregistrations) ok s) (rw (ok s1.calls wifi_stop) end),
        refl,
        refl,
      )

  settled-true : (es : List WifiEvent) → attempts es ≡ [] → settled true es ≡ true
  settled-true [] h = refl
  settled-true (sta_disconnected ∷ es) h = cc
  settled-true (got_ip ∷ es) h = settled-true es h
  settled-true (wifi_ready ∷ es) h = settled-true es h
  settled-true (sta_start ∷ es) h = settled-true es h
  settled-true (sta_connected ∷ es) h = settled-true es h

  -- When the station, with its event group, was connected, and is then stopped and told to join any
  -- network, and no call fails, the command reports success at once, if no disconnection comes in before it waits: the
  -- bit of the connection that was stopped is still set.
  pub stale_connection :
      (ssid password : List ℕ) (before during : List WifiEvent) (s : Wifi)
      → AllSucceed code
      → s.group ≡ true
      → s.connected_bit ≡ true
      → attempts before ≡ []
      → (t : Wifi) × (u : Wifi) × (cmd_wifi code stop_args [] [] s ≡ some (0, t))
        × (cmd_wifi code (join_args ssid password) before during t ≡ some (0, u))
  unfolding cmd_wifi
  stale_connection ssid password before during s ok group up quiet =
      let (t, stopped, g, b) = stop-runs s ok in
      let (u, joined, _, _) = wifi_join_lem ssid (some password) before during t ok (g ∙ group) in
      let ready : settled t.connected_bit before ≡ true =
        ap (λ c. settled c before) (b ∙ up) ∙ settled-true before quiet in
      (
        t,
        u,
        seq-then (stop code) (pure 0) {s = s} stopped refl,
        bind-then (wifi_join code ssid (some password) before during) _ {s = t} (rw ready at joined)
            refl,
      )

  deliver-no_group :
      (es : List WifiEvent) (s : Wifi)
      → s.group ≡ false
      → (deliver code es >> with_group (λ u. u)) s ≡ none
  unfolding deliver event_handler
  deliver-no_group [] s g = with_group-aborts (λ u. u) s g
  deliver-no_group (e ∷ es) s g =
      seq-none (event_handler code e >> deliver code es) (with_group (λ u. u)) {s = s} (
        seq-none (event_handler code e) (deliver code es) {s = s} (
          seq-none (with_group (λ u. record u { start_bit = true })) _ {s = s}
            (with_group-aborts _ s g)))

  -- While there is no event group, which `init_wifi` creates, every command that joins a network
  -- ends in an abort, whatever the calls return.
  pub joins_without_group :
      (ssid password : List ℕ) (before during : List WifiEvent) (s : Wifi)
      → s.group ≡ false
      → cmd_wifi code (join_args ssid password) before during s ≡ none
  unfolding cmd_wifi wifi_join
  joins_without_group ssid password before during s g =
      let sta = wifi_sta code ssid (some password) in
      let told = deliver code before in
      let asserted : M Wifi (Unit {0}) = with_group (λ u. u) in
      let reaches : (sta >> told >> asserted) s ≡ none =
        elim ((wifi_sta-Yields code ssid (some password)).either s) [
          | inl a ↦ seq-none (sta >> told) asserted {s = s} (seq-none sta told {s = s} a.1)
          | inr e ↦
              assoc-then sta told asserted e
              ∙ deliver-no_group before (called (sta_calls ssid (some password)) (initialised s))
                  (initialised-group s ∙ g)
        ] in
      bind-none (wifi_join code ssid (some password) before during) _ {s = s}
        (bind-none (sta >> told >> asserted) (λ _. wait_connected code during) {s = s} reaches)
