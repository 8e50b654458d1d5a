-- ===== src/Wifi/Runs.antt =====
-- How the checked calls of wifi_sta_ap.c end: with an abort, or in one state.
use dmesh_l.Base.{
  modify, Yields-eq, ℕ, ◌≡◌, true, List, [], ◌∷◌, ◌++◌, arith, ◌==◌, Option, ◌>>◌, if◌then◌else◌,
  Bool-cases, inl, inr, append-nil, append_assoc, Yields, seq-Yields, modify-Yields, pure-Yields,
  choose-Yields,
}
use dmesh_l.Wifi.Station.{
  WifiCall, netif_init, create_ap_netif, create_sta_netif, wifi_init, set_storage_ram, set_mode_sta,
  wifi_start, wifi_connect, set_config, Wifi, called, registrations, station_config, check,
  check_all, initialise_wifi, wifi_sta,
}

-- The calls of an `initialise_wifi` that has work to do.
abbrev pub set_up_calls : List WifiCall
set_up_calls =
    netif_init ∷ create_ap_netif ∷ create_sta_netif ∷ wifi_init ∷ registrations
    ++ set_storage_ram ∷ []

abbrev pub set_up : Wifi → Wifi
set_up s = record s {
  ap_netif = true;
  sta_netif = true;
  initialized = true;
  calls = s.calls ++ set_up_calls;
}

abbrev pub initialised : Wifi → Wifi
initialised s = if s.initialized then s else set_up s

-- The calls of `wifi_sta` behind `initialise_wifi`.
abbrev pub sta_calls : (ssid : List ℕ) (pass : Option (List ℕ)) → List WifiCall
sta_calls ssid pass =
    set_mode_sta ∷ set_config (station_config ssid pass) ∷ wifi_start ∷ wifi_connect ∷ []

module _ (code : List WifiCall → WifiCall → ℕ) where
  -- No call fails.
  abbrev pub AllSucceed : Type 0
  AllSucceed = (calls : List WifiCall) (c : WifiCall) → code calls c ≡ 0

  check-Yields : (c : WifiCall) → Yields AllSucceed (check code c) (called (c ∷ []))
  unfolding check
  check-Yields c = record {
    either = λ s. elim (Bool-cases (code s.calls c == 0)) [
      | inl e ↦ inr (rw e)
      | inr e ↦ inl ((λ ok. ground (arith, ok s.calls c)), rw e)
    ];
  }

  pub check_all-Yields : (cs : List WifiCall) → Yields AllSucceed (check_all code cs) (called cs)
  unfolding check_all
  check_all-Yields [] = Yields-eq pure-Yields λ s. rw (append-nil s.calls)
  check_all-Yields (c ∷ cs) =
      Yields-eq (seq-Yields (check-Yields c) (check_all-Yields cs))
        λ s. rw (append_assoc s.calls (c ∷ []) cs)

  set_up-Yields :
      Yields AllSucceed
        (check code netif_init
          >> check code create_ap_netif
          >> modify (λ s. record s { ap_netif = true })
          >> check code create_sta_netif
          >> modify (λ s. record s { sta_netif = true })
          >> check code wifi_init
          >> check_all code registrations
          >> check code set_storage_ram
          >> modify (λ s. record s { initialized = true }))
        set_up
  set_up-Yields =
      Yields-eq
        (seq-Yields
          (seq-Yields
            (seq-Yields
              (seq-Yields
                (seq-Yields
                  (seq-Yields
                    (seq-Yields
                      (seq-Yields (check-Yields netif_init) (check-Yields create_ap_netif))
                      (modify-Yields _))
                    (check-Yields create_sta_netif))
                  (modify-Yields _))
                (check-Yields wifi_init))
              (check_all-Yields registrations))
            (check-Yields set_storage_ram))
          (modify-Yields _))
        λ s. simp append_assoc

  pub initialise_wifi-Yields : Yields AllSucceed (initialise_wifi code) initialised
  unfolding initialise_wifi
  initialise_wifi-Yields = choose-Yields (λ s. s.initialized) pure-Yields set_up-Yields

  pub wifi_sta-Yields :
      (ssid : List ℕ) (pass : Option (List ℕ))
      → Yields AllSucceed
          (wifi_sta code ssid pass)
          (λ s. called (sta_calls ssid pass) (initialised s))
  unfolding wifi_sta
  wifi_sta-Yields ssid pass =
      seq-Yields initialise_wifi-Yields (check_all-Yields (sta_calls ssid pass))
