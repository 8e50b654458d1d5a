-- ===== src/Wifi/Tests.antt =====
-- The theorems on wifi_sta_ap.c at concrete inputs.
use dmesh_l.Base.{
  c_string, ℕ, ◌≡◌, refl, true, false, some, none, List, [], ◌∷◌, ◌++◌, ◌≤◌, ◌↔◌, arith, codes,
  length, if◌then◌else◌, ℤ,
}
use dmesh_l.Wifi.Station.{
  WifiCall, wifi_stop, Wifi, initial_wifi, not_init, sta_disconnected, sta_start, got_ip,
  wifi_connect, init_wifi, wifi_join, station_config,
}
use dmesh_l.Wifi.Command.{cmd_wifi, stop_args, join_args, starts, steps, boots}
use dmesh_l.Wifi.Config.{station_config_lem}
use dmesh_l.Wifi.Runs.{sta_calls, set_up_calls}
use dmesh_l.Wifi.Interfaces.{driver_up, WifiIsValid}
use dmesh_l.Wifi.Lifecycle.{WifiReaches-WifiIsValid}
use dmesh_l.Wifi.Joining.{wifi_join_lem, stale_connection}

-- A driver that does all that it is told, and one that is never initialised.
abbrev obliging : List WifiCall → WifiCall → ℕ
obliging calls c = 0

abbrev absent : List WifiCall → WifiCall → ℕ
absent calls wifi_stop = if driver_up false calls then 0 else not_init
absent calls c = 0

-- The group is there, and the station has an address.
abbrev online : Wifi
online = record initial_wifi { group = true; connected_bit = true }

abbrev booted : Wifi
booted = record initial_wifi { group = true }

booting : init_wifi absent (ℤ.pos 2) none none initial_wifi ≡ some (tt, booted)
unfolding init_wifi
booting = refl

WifiReaches-WifiIsValid_example : WifiIsValid booted
WifiReaches-WifiIsValid_example =
    WifiReaches-WifiIsValid absent booted (λ calls down. ground arith)
      (steps {u = booted} starts (boots (ℤ.pos 2) none none booting))

wifi_join_lem_example :
    (t : Wifi) × (wifi_join obliging (codes "net") none [] (sta_disconnected ∷ got_ip ∷ []) booted
      ≡ some (true, t))
    × (t.connected_bit ≡ true)
    × (t.calls ≡ ((set_up_calls ++ sta_calls (codes "net") none) ++ []) ++ wifi_connect ∷ [])
wifi_join_lem_example =
    wifi_join_lem obliging (codes "net") none [] (sta_disconnected ∷ got_ip ∷ []) booted
      (λ calls c. refl) refl

stale_connection_example :
    (t : Wifi) × (u : Wifi) × (cmd_wifi obliging stop_args [] [] online ≡ some (0, t))
    × (cmd_wifi obliging (join_args (codes "other") (codes "secret")) (sta_start ∷ []) [] t
        ≡ some (0, u))
stale_connection_example =
    stale_connection obliging (codes "other") (codes "secret") (sta_start ∷ []) [] online
      (λ calls c. refl) refl refl refl

station_config_lem_example :
    let config = station_config (codes "net") (some (codes "secret")) in
    ((c_string config.ssid ≡ codes "net") ↔ (3 ≤ 31))
    × ((c_string config.password ≡ codes "secret") ↔ (6 ≤ 63))
    × (length config.ssid ≡ 32)
    × (length config.password ≡ 64)
station_config_lem_example =
    station_config_lem (codes "net") (codes "secret") (omega arith) (omega arith)
