-- ===== src/Wifi/Station.antt =====
-- The state of wifi_sta_ap.c, its event handler, and starting, joining and stopping the station.
use dmesh_l.Base.{
  ℕ, ◌-◌, Bool, true, false, Option, none, some, List, [], ◌∷◌, ◌++◌, ◌==◌, if◌then◌else◌, ℤ,
  eq_const, take, replicate, length, M, ◌>>◌, pure, fault, modify, choose, with_state,
}

-- The events that the handler is registered for.
pub data WifiEvent : Type 0 where
  wifi_ready sta_start sta_connected sta_disconnected got_ip : WifiEvent

-- `wifi_config.sta`: arrays of 32 and 64 characters.
pub record StationConfig : Type 0 where
  pub ssid : List ℕ
  pub password : List ℕ

-- The calls into the Wi-Fi driver, the network interfaces, the event loop and SNTP.
pub data WifiCall : Type 0 where
  netif_init create_ap_netif create_sta_netif wifi_init set_storage_ram : WifiCall
  handler_register handler_unregister : WifiEvent → WifiCall
  set_mode_sta wifi_start wifi_connect wifi_stop wifi_deinit clear_handlers : WifiCall
  set_config : StationConfig → WifiCall
  destroy_sta_netif destroy_ap_netif : WifiCall
  sntp_mode_poll sntp_init : WifiCall
  sntp_server : List ℕ → WifiCall

-- The static variables: the event group (if it has been created) with its two bits, `initialized`,
-- and whether the two interfaces are there. `calls` are those made so far.
pub record Wifi : Type 0 where
  pub group : Bool
  pub start_bit : Bool
  pub connected_bit : Bool
  pub initialized : Bool
  pub ap_netif : Bool
  pub sta_netif : Bool
  pub calls : List WifiCall

abbrev pub initial_wifi : Wifi
initial_wifi = record {
  group = false;
  start_bit = false;
  connected_bit = false;
  initialized = false;
  ap_netif = false;
  sta_netif = false;
  calls = [];
}

abbrev pub called : List WifiCall → Wifi → Wifi
called cs s = record s { calls = s.calls ++ cs }

-- The five registrations, in the order of the source.
abbrev pub registrations : List WifiCall
registrations =
    handler_register wifi_ready
    ∷ handler_register sta_start
    ∷ handler_register sta_connected
    ∷ handler_register sta_disconnected
    ∷ handler_register got_ip
    ∷ []

abbrev pub unregistrations : List WifiCall
unregistrations =
    handler_unregister sta_disconnected
    ∷ handler_unregister sta_connected
    ∷ handler_unregister sta_start
    ∷ handler_unregister wifi_ready
    ∷ handler_unregister got_ip
    ∷ []

-- ESP_ERR_WIFI_NOT_INIT
abbrev pub not_init : ℕ
not_init = 0x3001

-- `strlcpy` into an array of `size` zeros.
unfoldable pub strlcpy : (size : ℕ) (src : List ℕ) → List ℕ
strlcpy size src = let copied = take (size - 1) src in copied ++ replicate (size - length copied) 0

-- The configuration of `wifi_sta`.
unfoldable pub station_config : (ssid : List ℕ) (pass : Option (List ℕ)) → StationConfig
station_config ssid none = record { ssid = strlcpy 32 ssid; password = replicate 64 0 }
station_config ssid (some pass) = record { ssid = strlcpy 32 ssid; password = strlcpy 64 pass }

-- An access to the event group, which the system asserts to be there.
unfoldable pub with_group : (Wifi → Wifi) → M Wifi (Unit {0})
with_group f = choose (λ s. s.group) (modify f) fault

-- The end of `stop`: the interfaces are destroyed.
unfoldable pub tear_down : Wifi → Wifi
tear_down s = record s {
  sta_netif = false;
  ap_netif = false;
  initialized = false;
  calls = s.calls ++ destroy_sta_netif ∷ destroy_ap_netif ∷ [];
}

-- `code` is what a call returns after the calls made before it; for the creation of an interface, 0
-- is an interface, all else NULL. `none` is an abort, by ESP_ERROR_CHECK or an assertion.
module _ (code : List WifiCall → WifiCall → ℕ) where
  -- ESP_ERROR_CHECK(...), or a call whose result is asserted.
  unfoldable pub check : WifiCall → M Wifi (Unit {0})
  check c s = if code s.calls c == 0 then some (tt, called (c ∷ []) s) else none

  unfoldable pub check_all : List WifiCall → M Wifi (Unit {0})
  check_all [] = pure tt
  check_all (c ∷ cs) = check c >> check_all cs

  -- `event_handler`
  unfoldable pub event_handler : WifiEvent → M Wifi (Unit {0})
  event_handler e = with_group (λ s. record s { start_bit = true }) >> elim e [
    | sta_disconnected ↦
        modify (called (wifi_connect ∷ [])) >> with_group (λ s. record s { connected_bit = false })
    | got_ip ↦ with_group (λ s. record s { connected_bit = true })
    | _ ↦ pure tt
  ]

  -- `initialise_wifi`
  unfoldable pub initialise_wifi : M Wifi (Unit {0})
  initialise_wifi =
      choose (λ s. s.initialized) (pure tt)
        (check netif_init
          >> check create_ap_netif
          >> modify (λ s. record s { ap_netif = true })
          >> check create_sta_netif
          >> modify (λ s. record s { sta_netif = true })
          >> check wifi_init
          >> check_all registrations
          >> check set_storage_ram
          >> modify (λ s. record s { initialized = true }))

  -- `wifi_sta`
  unfoldable pub wifi_sta : (ssid : List ℕ) (pass : Option (List ℕ)) → M Wifi (Unit {0})
  wifi_sta ssid pass =
      initialise_wifi
      >> check_all
          (set_mode_sta ∷ set_config (station_config ssid pass) ∷ wifi_start ∷ wifi_connect ∷ [])

  -- `stop` behind the unregistrations, with the result of esp_wifi_stop.
  unfoldable pub after_stop : (err : ℕ) → M Wifi (Unit {0})
  after_stop err =
      modify (called (wifi_stop ∷ []))
      >> (if err == not_init
          then pure tt
          else if err == 0
          then check_all (wifi_deinit ∷ clear_handlers ∷ []) >> modify tear_down
          else fault)

  -- `stop`
  unfoldable pub stop : M Wifi (Unit {0})
  stop = check_all unregistrations >> with_state (λ s. after_stop (code s.calls wifi_stop))

  -- `syncTime`
  unfoldable pub sync_time : (server : List ℕ) → M Wifi (Unit {0})
  sync_time server = modify (called (sntp_mode_poll ∷ sntp_server server ∷ sntp_init ∷ []))

  unfoldable pub deliver : List WifiEvent → M Wifi (Unit {0})
  deliver [] = pure tt
  deliver (e ∷ es) = event_handler e >> deliver es

  -- `xEventGroupWaitBits` for CONNECTED_BIT, with the events that come before the timeout: it waits
  -- for no event when the bit is set, and does not clear it.
  unfoldable pub wait_connected : List WifiEvent → M Wifi Bool
  wait_connected [] s = some (s.connected_bit, s)
  wait_connected (e ∷ es) s =
      let rest = (event_handler e >> wait_connected es) s in
      if s.connected_bit then some (true, s) else rest

  -- `wifi_join`, with the events that come in before it waits, and while it waits.
  unfoldable pub wifi_join :
      (ssid : List ℕ) (pass : Option (List ℕ)) (before during : List WifiEvent) → M Wifi Bool
  wifi_join ssid pass before during =
      wifi_sta ssid pass >> deliver before >> with_group (λ s. s) >> wait_connected during

  -- `init_wifi`: xEventGroupCreate, which finds memory here, makes a group with no bit set.
  unfoldable pub init_wifi : (mode : ℤ) (ssid psk : Option (List ℕ)) → M Wifi (Unit {0})
  init_wifi mode ssid psk =
      modify (λ s. record s { group = true; start_bit = false; connected_bit = false })
      >> elim ssid [
        | none ↦ pure tt
        | some name ↦ if eq_const mode 1 then wifi_sta name psk else pure tt
      ]
