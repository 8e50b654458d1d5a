-- ===== src/Wifi/Command.antt =====
-- `cmd_wifi` of wifi_sta_ap.c, and the steps of the Wi-Fi component.
use dmesh_l.Base.{
  [], ℕ, ◌≡◌, Option, some, List, ◌==◌, if◌then◌else◌, ℤ, M, ◌>>=◌, ◌>>◌, pure, codes,
}
use dmesh_l.Wifi.Station.{
  Wifi, WifiEvent, WifiCall, event_handler, init_wifi, stop, sync_time, wifi_join,
}

-- The parsed command line: the counts of the options, and the texts, empty where they are missing.
pub record WifiArgs : Type 0 where
  pub nerrors : ℕ
  pub time_count : ℕ
  pub stop_count : ℕ
  pub ap_count : ℕ
  pub ssid : List ℕ
  pub password : List ℕ

-- The command lines that stop the station, and that join a network.
abbrev pub stop_args : WifiArgs
stop_args = record {
  nerrors = 0;
  time_count = 0;
  stop_count = 1;
  ap_count = 0;
  ssid = [];
  password = [];
}

abbrev pub join_args : (ssid password : List ℕ) → WifiArgs
join_args ssid password = record {
  nerrors = 0;
  time_count = 0;
  stop_count = 0;
  ap_count = 0;
  ssid = ssid;
  password = password;
}

module _ (code : List WifiCall → WifiCall → ℕ) where
  -- `cmd_wifi` and its exit code. The timeout is the end of `during`.
  unfoldable pub cmd_wifi : WifiArgs → (before during : List WifiEvent) → M Wifi ℕ
  cmd_wifi args before during =
      if args.nerrors == 0
      then if args.time_count == 0
        then if args.stop_count == 0
          then if args.ap_count == 0
            then (wifi_join code args.ssid (some args.password) before during
                >>= (λ connected. pure (if connected then 0 else 1)))
            else pure 0
          else stop code >> pure 0
        else sync_time code (codes "pool.ntp.org") >> pure 0
      else pure 1

  -- What happens to the component: it is started, a command is given, an event comes in.
  pub data WifiStep (s s' : Wifi) : Type 0 where
    boots :
        (mode : ℤ) (ssid psk : Option (List ℕ))
        → init_wifi code mode ssid psk s ≡ some (tt, s')
        → WifiStep s s'
    commanded :
        (args : WifiArgs) (before during : List WifiEvent) (exit : ℕ)
        → cmd_wifi args before during s ≡ some (exit, s')
        → WifiStep s s'
    notified : (e : WifiEvent) → event_handler code e s ≡ some (tt, s') → WifiStep s s'

  pub data WifiReaches (s : Wifi) : Wifi → Type 0 where
    starts : WifiReaches s s
    steps : {t u : Wifi} → WifiReaches s t → WifiStep t u → WifiReaches s u
