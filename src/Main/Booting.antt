-- ===== src/Main/Booting.antt =====
-- What `app_main` of main.c makes of the stored settings.
use dmesh_l.Base.{
  ◌↔◌, sym, Bool-cases, ltb, Option-cases, eq_const, seq-fails, ℕ, ◌≤◌, ◌≡◌, refl, ◌∙◌, true,
  Option, none, some, List, [], ◌∷◌, ◌++◌, arith, length, NoZero, if◌then◌else◌, ℤ, pos, codes,
  ◌>>◌, modify, append_assoc, seq-then, seq-none, inl, inr, yields,
}
use dmesh_l.Wifi.Station.{WifiEvent, called, WifiCall, Wifi, initial_wifi, init_wifi}
use dmesh_l.Wifi.Runs.{AllSucceed, set_up, set_up_calls, sta_calls, wifi_sta-Yields}
use dmesh_l.Main.Boot.{
  BootCall, nan_start, set_time_zone, register_lora, Machine, made, powered_on, read_string,
  ssid_size, psk_size, note_reset, mode_of, start_wifi, start_links, prepare, app_main,
}
use dmesh_l.Wifi.Command.{cmd_wifi, join_args}
use dmesh_l.Wifi.Joining.{joins_without_group}
use dmesh_l.Nvs.{HoldsText, Strings}
use dmesh_l.Main.Settings.{read_string_lem}
use dmesh_l.Main.Starting.{prepare_calls, BootSucceeds, prepare-Yields}

module _ (code : List BootCall → BootCall → ℕ) (wifi_code : List WifiCall → WifiCall → ℕ) where
  -- What follows the settings, from the two strings as they are read.
  start_links-reads :
      (strings : Strings) (mode : ℤ) (ssid psk : Option (List ℕ)) (m : Machine)
      → read_string strings ssid_size (codes "ssid") ≡ some ssid
      → read_string strings psk_size (codes "psk") ≡ some psk
      → start_links code wifi_code strings mode m
        ≡ (if eq_const mode 4
              then modify (made (nan_start ∷ []))
              else start_wifi code wifi_code mode ssid psk)
            m
  unfolding start_links
  start_links-reads strings mode ssid psk m rs rp = rw (rs, rp) refl

  start_wifi-runs :
      (mode : ℤ) (ssid psk : Option (List ℕ)) (m : Machine) {w : Wifi}
      → init_wifi wifi_code mode ssid psk m.wifi ≡ some (tt, w)
      → start_wifi code wifi_code mode ssid psk m ≡ some (tt, record m { wifi = w })
  unfolding start_wifi
  start_wifi-runs mode ssid psk m e = rw (e, start_wifi)

  start_links-overruns :
      (strings : Strings) (mode : ℤ)
      → read_string strings psk_size (codes "psk") ≡ none
      → (m : Machine) → start_links code wifi_code strings mode m ≡ none
  unfolding start_links
  start_links-overruns strings mode rp m =
      elim (Option-cases (read_string strings ssid_size (codes "ssid"))) [
        | inl e ↦ rw e
        | inr f ↦ rw (f.1, rp)
      ]

  -- When nothing fails and the `wifi` setting is 1, a stored name of at most 31 bytes and a stored
  -- password of at most 15 bring the station up: `app_main` starts everything in its order, and the
  -- Wi-Fi component is told to connect with just that name and password.
  pub app_main_lem :
      (now again : ℕ) (strings : Strings) (lsleep : Option ℤ) (ssid psk : List ℕ)
      → BootSucceeds code wifi_code
      → AllSucceed wifi_code
      → NoZero ssid
      → NoZero psk
      → HoldsText strings (codes "ssid") ssid
      → HoldsText strings (codes "psk") psk
      → length ssid ≤ 31
      → length psk ≤ 15
      → (m : Machine) × (app_main code wifi_code now again strings lsleep (some (pos 1)) powered_on
          ≡ some (tt, m))
        × (m.wifi.calls ≡ set_up_calls ++ sta_calls ssid (some psk))
        × (m.calls ≡ prepare_calls lsleep ++ set_time_zone ∷ register_lora ∷ [])
  unfolding app_main note_reset start_wifi init_wifi
  app_main_lem now again strings lsleep ssid psk ok wifi_ok zs zp hs hp ls lp =
      let m1 : Machine = made (prepare_calls lsleep) (note_reset now again powered_on) in
      let rs : read_string strings ssid_size (codes "ssid") ≡ some (some ssid) =
        read_string_lem strings ssid_size (codes "ssid") ssid zs hs ∙ ground arith in
      let rp : read_string strings psk_size (codes "psk") ≡ some (some psk) =
        read_string_lem strings psk_size (codes "psk") psk zp hp ∙ ground arith in
      let w0 : Wifi = record initial_wifi { group = true } in
      let sta = yields (wifi_sta-Yields wifi_code ssid (some psk)) wifi_ok w0 in
      (
        made (set_time_zone ∷ register_lora ∷ [])
            (record m1 { wifi = called (sta_calls ssid (some psk)) (set_up w0) }),
        seq-then
            (prepare code wifi_code now again lsleep >> start_links code wifi_code strings (pos 1))
            (modify (made (set_time_zone ∷ register_lora ∷ []))) {s = powered_on}
            (seq-then (prepare code wifi_code now again lsleep)
              (start_links code wifi_code strings (pos 1))
              (yields (prepare-Yields code wifi_code now again lsleep ok) ok powered_on)
              (start_links-reads strings (pos 1) (some ssid) (some psk) m1 rs rp
                ∙ start_wifi-runs (pos 1) (some ssid) (some psk) m1 sta))
            refl,
        refl,
        refl,
      )

  overruns_psk :
      (now again : ℕ) (strings : Strings) (lsleep wifi : Option ℤ) (m : Machine)
      → read_string strings psk_size (codes "psk") ≡ none
      → app_main code wifi_code now again strings lsleep wifi m ≡ none
  unfolding app_main
  overruns_psk now again strings lsleep wifi m rp =
      seq-none
        (prepare code wifi_code now again lsleep
          >> start_links code wifi_code strings (mode_of wifi))
        (modify (made (set_time_zone ∷ register_lora ∷ []))) {s = m}
        (seq-fails (prepare code wifi_code now again lsleep)
          (start_links code wifi_code strings (mode_of wifi)) m
          (start_links-overruns strings (mode_of wifi) rp))

  read_string-none :
      (strings : Strings) (cap : ℕ) (key text : List ℕ)
      → NoZero text
      → HoldsText strings key text
      → (read_string strings cap key ≡ none) ↔ (cap ≤ length text)
  read_string-none strings cap key text z h =
      let e = read_string_lem strings cap key text z h in
      (λ fails. let f = sym e ∙ fails in ground arith, λ long. e ∙ ground arith)

  -- When nothing fails, the `wifi` setting is 1 and the stored name has at most 31 bytes,
  -- `app_main` faults exactly when reading the stored password overruns the array `psk`, and that
  -- is when the password has 16 bytes or more, as WPA2 allows.
  pub app_main_overruns :
      (now again : ℕ) (strings : Strings) (lsleep : Option ℤ) (ssid psk : List ℕ)
      → BootSucceeds code wifi_code
      → AllSucceed wifi_code
      → NoZero ssid
      → NoZero psk
      → HoldsText strings (codes "ssid") ssid
      → HoldsText strings (codes "psk") psk
      → length ssid ≤ 31
      → ((app_main code wifi_code now again strings lsleep (some (pos 1)) powered_on ≡ none)
          ↔ (read_string strings psk_size (codes "psk") ≡ none))
        × ((read_string strings psk_size (codes "psk") ≡ none) ↔ (16 ≤ length psk))
  app_main_overruns now again strings lsleep ssid psk ok wifi_ok zs zp hs hp ls =
      let reads = read_string-none strings psk_size (codes "psk") psk zp hp in
      (
        (
          λ fails. elim (Bool-cases (ltb 15 (length psk))) [
            | inl long ↦ reads.1 (ground arith)
            | inr short ↦
                let (m, runs, wifi_calls, calls) =
                  app_main_lem now again strings lsleep ssid psk ok wifi_ok zs zp hs hp ls
                    (ground arith) in
                let clash : some (tt, m) ≡ none = sym runs ∙ fails in ground arith
          ],
          overruns_psk now again strings lsleep (some (pos 1)) powered_on,
        ),
        reads,
      )

  -- When the `wifi` setting is 4 and nothing fails up to there, `app_main` starts Wi-Fi Aware and
  -- creates no event group: in the state that it leaves, every `wifi` command that joins a network
  -- ends in an abort.
  pub nan_mode_aborts_joins :
      (now again : ℕ) (strings : Strings) (lsleep : Option ℤ) (ssid psk : Option (List ℕ))
      → BootSucceeds code wifi_code
      → read_string strings ssid_size (codes "ssid") ≡ some ssid
      → read_string strings psk_size (codes "psk") ≡ some psk
      → (m : Machine) × (app_main code wifi_code now again strings lsleep (some (pos 4)) powered_on
          ≡ some (tt, m))
        × (m.calls ≡ prepare_calls lsleep ++ nan_start ∷ set_time_zone ∷ register_lora ∷ [])
        × ((name password : List ℕ) (before during : List WifiEvent)
            → cmd_wifi wifi_code (join_args name password) before during m.wifi ≡ none)
  unfolding app_main note_reset
  nan_mode_aborts_joins now again strings lsleep ssid psk ok rs rp =
      let m1 : Machine = made (prepare_calls lsleep) (note_reset now again powered_on) in
      (
        made (nan_start ∷ set_time_zone ∷ register_lora ∷ []) m1,
        seq-then
            (prepare code wifi_code now again lsleep >> start_links code wifi_code strings (pos 4))
            (modify (made (set_time_zone ∷ register_lora ∷ []))) {s = powered_on}
            (seq-then (prepare code wifi_code now again lsleep)
              (start_links code wifi_code strings (pos 4))
              (yields (prepare-Yields code wifi_code now again lsleep ok) ok powered_on)
              (start_links-reads strings (pos 4) ssid psk m1 rs rp))
            (simp append_assoc),
        refl,
        λ name password before during.
            joins_without_group wifi_code name password before during initial_wifi refl,
      )
