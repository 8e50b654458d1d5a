-- ===== src/Main/Boot.antt =====
-- `app_main` of main.c: what is started, in which order, and with which stored settings.
use dmesh_l.Base.{
  ℕ, Bool, true, false, Option, none, some, List, [], ◌∷◌, ◌++◌, ◌==◌, ◌||◌, leb, if◌then◌else◌, ℤ,
  eq_const, gt_const, pos, length, codes, c_string, M, ◌>>=◌, ◌>>◌, pure, fault, modify, with_state,
  lift_option,
}
use dmesh_l.Nvs.{Strings}
use dmesh_l.Wifi.Station.{Wifi, WifiCall, initial_wifi, init_wifi}

-- The calls into the system, and those that start the other components.
pub data BootCall : Type 0 where
  nvs_flash_init nvs_flash_erase open_storage open_net80211 event_loop_create : BootCall
  keep_rtc_periph drop_rtc_slow_mem drop_rtc_fast_mem : BootCall
  pm_lock_create register_console gpio_wakeup uart_threshold uart_wakeup pm_configure : BootCall
  nan_start set_time_zone register_lora : BootCall

-- `firstBoot`, which outlives a deep sleep, `resetTime`, the Wi-Fi component, and the calls so far.
pub record Machine : Type 0 where
  pub first_boot : ℕ
  pub reset_time : ℕ
  pub wifi : Wifi
  pub calls : List BootCall

abbrev pub powered_on : Machine
powered_on = record { first_boot = 0; reset_time = 0; wifi = initial_wifi; calls = [] }

abbrev pub made : List BootCall → Machine → Machine
made cs m = record m { calls = m.calls ++ cs }

-- ESP_ERR_NVS_NO_FREE_PAGES and ESP_ERR_NVS_NEW_VERSION_FOUND
abbrev pub no_free_pages : ℕ
no_free_pages = 0x110d

abbrev pub new_version_found : ℕ
new_version_found = 0x1110

-- A string that `app_main` reads, in two calls, into an array of `cap` bytes: NULL where the length
-- stays 0 or the second call fails. A write past the array is none.
unfoldable pub read_string : Strings → (cap : ℕ) (key : List ℕ) → Option (Option (List ℕ))
read_string strings cap key =
    let second = strings key true (strings key false 0).len in
    let value : Option (List ℕ) =
      if (second.err == 0)
      then (if second.len == 0 then none else some (c_string second.written))
      else none in
    if leb (length second.written) cap then some value else none

-- `ssid` and `psk`
abbrev pub ssid_size : ℕ
ssid_size = 32

abbrev pub psk_size : ℕ
psk_size = 16

-- The time is taken at the start, and again for the first boot.
unfoldable pub note_reset : (now again : ℕ) → Machine → Machine
note_reset now again m = record m {
  reset_time = now;
  first_boot = if m.first_boot == 0 then again else m.first_boot;
}

-- `mode` as it is read: 0 where the setting is missing.
abbrev pub mode_of : Option ℤ → ℤ
mode_of none = pos 0
mode_of (some mode) = mode

abbrev pub is_positive : Option ℤ → Bool
is_positive none = false
is_positive (some n) = gt_const n 0

-- `code` and `wifi_code` are what the calls return after those made before them. `none` is an abort,
-- or a write past an array.
module _ (code : List BootCall → BootCall → ℕ) (wifi_code : List WifiCall → WifiCall → ℕ) where
  -- A call under ESP_ERROR_CHECK.
  unfoldable pub require : BootCall → M Machine (Unit {0})
  require c m = if code m.calls c == 0 then some (tt, made (c ∷ []) m) else none

  unfoldable pub require_all : List BootCall → M Machine (Unit {0})
  require_all [] = pure tt
  require_all (c ∷ cs) = require c >> require_all cs

  -- `initialize_nvs` behind the first nvs_flash_init, which returned `err`.
  unfoldable pub settle_nvs : (err : ℕ) → M Machine (Unit {0})
  settle_nvs err =
      if err == no_free_pages || err == new_version_found
      then require_all (nvs_flash_erase ∷ nvs_flash_init ∷ [])
      else if err == 0
      then pure tt
      else fault

  -- `initialize_nvs`
  unfoldable pub initialize_nvs : M Machine (Unit {0})
  initialize_nvs =
      with_state
        λ m. modify (made (nvs_flash_init ∷ [])) >> settle_nvs (code m.calls nvs_flash_init)

  -- init_wifi as a step of the machine.
  unfoldable pub start_wifi : (mode : ℤ) (ssid psk : Option (List ℕ)) → M Machine (Unit {0})
  start_wifi mode ssid psk m = elim (init_wifi wifi_code mode ssid psk m.wifi) [
    | none ↦ none
    | some (_, w) ↦ some (tt, record m { wifi = w })
  ]

  -- What of the links is started, for the stored `wifi` setting.
  unfoldable pub start_links : Strings → (mode : ℤ) → M Machine (Unit {0})
  start_links strings mode = lift_option (read_string strings ssid_size (codes "ssid")) >>= λ ssid.
      lift_option (read_string strings psk_size (codes "psk")) >>= λ psk.
      if eq_const mode 4 then modify (made (nan_start ∷ [])) else start_wifi mode ssid psk

  -- `app_main` up to the settings.
  unfoldable pub prepare : (now again : ℕ) (lsleep : Option ℤ) → M Machine (Unit {0})
  prepare now again lsleep =
      modify (note_reset now again)
      >> initialize_nvs
      >> require_all (open_storage ∷ open_net80211 ∷ event_loop_create ∷ [])
      >> modify (made (keep_rtc_periph ∷ drop_rtc_slow_mem ∷ drop_rtc_fast_mem ∷ []))
      >> require pm_lock_create
      >> modify (made (register_console ∷ []))
      >> require_all (gpio_wakeup ∷ uart_threshold ∷ uart_wakeup ∷ [])
      >> (if is_positive lsleep then require pm_configure else pure tt)

  -- `app_main`, with the settings `lsleep` and `wifi`, none where they cannot be read.
  unfoldable pub app_main :
      (now again : ℕ) → Strings → (lsleep wifi : Option ℤ) → M Machine (Unit {0})
  app_main now again strings lsleep wifi =
      prepare now again lsleep
      >> start_links strings (mode_of wifi)
      >> modify (made (set_time_zone ∷ register_lora ∷ []))
