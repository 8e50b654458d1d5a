-- ===== src/Main/Tests.antt =====
-- The theorems on main.c at concrete inputs.
use dmesh_l.Base.{
  ◌↔◌, ◌≤◌, bytes_eq, ℕ, ◌≡◌, refl, true, false, some, none, List, [], ◌∷◌, ◌++◌, arith, codes, pos,
  length, if◌then◌else◌, ◌+◌, leb,
}
use dmesh_l.Wifi.Station.{WifiCall, WifiEvent}
use dmesh_l.Wifi.Command.{cmd_wifi, join_args}
use dmesh_l.Wifi.Runs.{set_up_calls, sta_calls}
use dmesh_l.Main.Boot.{
  BootCall, Machine, powered_on, read_string, ssid_size, psk_size, app_main, nan_start,
  set_time_zone, register_lora,
}
use dmesh_l.Main.Starting.{prepare_calls}
use dmesh_l.Nvs.{Strings}
use dmesh_l.Main.Booting.{app_main_lem, app_main_overruns, nan_mode_aborts_joins}

abbrev boot_code : List BootCall → BootCall → ℕ
boot_code calls c = 0

abbrev wifi_code : List WifiCall → WifiCall → ℕ
wifi_code calls c = 0

-- A storage with one text under every key, which checks the length that it is given.
abbrev storage : List ℕ → Strings
storage text key false len = record { err = 0; len = length text + 1; written = [] }
storage text key true len =
    if leb (length text + 1) len
    then record { err = 0; len = length text + 1; written = text ++ 0 ∷ [] }
    else record { err = 0x110c; len = len; written = [] }

-- A storage with no string.
abbrev empty : Strings
empty key buffer len = record { err = 0x1102; len = len; written = [] }

app_main_lem_example :
    (m : Machine) × (app_main boot_code wifi_code 7 9
        (storage (codes "net"))
        (some (pos 1))
        (some (pos 1))
        powered_on
      ≡ some (tt, m))
    × (m.wifi.calls ≡ set_up_calls ++ sta_calls (codes "net") (some (codes "net")))
    × (m.calls ≡ prepare_calls (some (pos 1)) ++ set_time_zone ∷ register_lora ∷ [])
app_main_lem_example =
    app_main_lem boot_code wifi_code 7 9 (storage (codes "net")) (some (pos 1)) (codes "net")
      (codes "net") (λ calls c. refl) (λ calls c. refl) (omega arith) (omega arith) (refl, refl)
      (refl, refl) (omega arith) (omega arith)

-- A storage with the name "net" and the given password.
abbrev home : List ℕ → Strings
home psk key = storage (if bytes_eq key (codes "psk") then psk else codes "net") key

app_main_overruns_example :
    let strings = home (codes "correct horse battery") in
    ((app_main boot_code wifi_code 7 9 strings none (some (pos 1)) powered_on ≡ none)
      ↔ (read_string strings psk_size (codes "psk") ≡ none))
    × ((read_string strings psk_size (codes "psk") ≡ none) ↔ (16 ≤ 21))
app_main_overruns_example =
    app_main_overruns boot_code wifi_code 7 9 (home (codes "correct horse battery")) none
      (codes "net") (codes "correct horse battery") (λ calls c. refl) (λ calls c. refl)
      (omega arith) (omega arith) (unfold bytes_eq in (refl, refl))
      (unfold bytes_eq in (refl, refl)) (omega arith)

no_ssid : read_string empty ssid_size (codes "ssid") ≡ some none
unfolding read_string
no_ssid = refl

no_psk : read_string empty psk_size (codes "psk") ≡ some none
unfolding read_string
no_psk = refl

nan_mode_aborts_joins_example :
    (m : Machine) × (app_main boot_code wifi_code 7 9 empty none (some (pos 4)) powered_on
      ≡ some (tt, m))
    × (m.calls ≡ prepare_calls none ++ nan_start ∷ set_time_zone ∷ register_lora ∷ [])
    × ((name password : List ℕ) (before during : List WifiEvent)
        → cmd_wifi wifi_code (join_args name password) before during m.wifi ≡ none)
nan_mode_aborts_joins_example =
    nan_mode_aborts_joins boot_code wifi_code 7 9 empty none none none (λ calls c. refl) no_ssid
      no_psk
