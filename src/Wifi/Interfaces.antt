-- ===== src/Wifi/Interfaces.antt =====
-- The interfaces of wifi_sta_ap.c: created and destroyed in turn.
use dmesh_l.Base.{
  ◌∙◌, ℕ, ◌+◌, ◌≡◌, refl, Bool, true, false, List, [], ◌∷◌, ◌++◌, arith, if◌then◌else◌, Bool-cases,
  inl, inr, subst,
}
use dmesh_l.Wifi.Runs.{set_up_calls, set_up, initialised}
use dmesh_l.Wifi.Station.{
  WifiCall, create_ap_netif, create_sta_netif, wifi_init, wifi_stop, wifi_deinit, clear_handlers,
  destroy_sta_netif, destroy_ap_netif, Wifi, called,
}

abbrev pub is_create_ap : WifiCall → Bool
is_create_ap create_ap_netif = true
is_create_ap _ = false

abbrev pub is_destroy_ap : WifiCall → Bool
is_destroy_ap destroy_ap_netif = true
is_destroy_ap _ = false

abbrev pub is_create_sta : WifiCall → Bool
is_create_sta create_sta_netif = true
is_create_sta _ = false

abbrev pub is_destroy_sta : WifiCall → Bool
is_destroy_sta destroy_sta_netif = true
is_destroy_sta _ = false

abbrev pub count : (WifiCall → Bool) → List WifiCall → ℕ
count p [] = 0
count p (c ∷ cs) = (if p c then 1 else 0) + count p cs

pub count-append :
    (p : WifiCall → Bool) (xs ys : List WifiCall) → count p (xs ++ ys) ≡ count p xs + count p ys
count-append p [] ys = omega arith
count-append p (x ∷ xs) ys = omega (arith, count-append p xs ys)

abbrev pub bit : Bool → ℕ
bit b = if b then 1 else 0

-- Whether the driver is initialised after the calls: esp_wifi_init is not undone.
abbrev pub driver_up : Bool → List WifiCall → Bool
driver_up up [] = up
driver_up up (wifi_init ∷ cs) = driver_up true cs
driver_up up (wifi_deinit ∷ cs) = driver_up false cs
driver_up up (c ∷ cs) = driver_up up cs

pub driver_up-append :
    (up : Bool) (xs ys : List WifiCall) → driver_up up (xs ++ ys) ≡ driver_up (driver_up up xs) ys
driver_up-append up [] ys = refl
driver_up-append up (wifi_init ∷ xs) ys = driver_up-append true xs ys
driver_up-append up (wifi_deinit ∷ xs) ys = driver_up-append false xs ys
driver_up-append up (c ∷ xs) ys = driver_up-append up xs ys

-- Every interface that was created and not destroyed is the one that its variable holds, and both
-- are there exactly while the component, and with it the driver, is initialised.
pub record WifiIsValid (s : Wifi) : Type 0 where
  pub ap_balance : count is_create_ap s.calls ≡ count is_destroy_ap s.calls + bit s.ap_netif
  pub sta_balance : count is_create_sta s.calls ≡ count is_destroy_sta s.calls + bit s.sta_netif
  pub ap_there : s.ap_netif ≡ s.initialized
  pub sta_there : s.sta_netif ≡ s.initialized
  pub driver : driver_up false s.calls ≡ s.initialized

-- The counts after further calls.
pub counts-append :
    (xs ys : List WifiCall)
    → (count is_create_ap (xs ++ ys) ≡ count is_create_ap xs + count is_create_ap ys)
      × (count is_destroy_ap (xs ++ ys) ≡ count is_destroy_ap xs + count is_destroy_ap ys)
      × (count is_create_sta (xs ++ ys) ≡ count is_create_sta xs + count is_create_sta ys)
      × (count is_destroy_sta (xs ++ ys) ≡ count is_destroy_sta xs + count is_destroy_sta ys)
counts-append xs ys = (
  count-append is_create_ap xs ys,
  count-append is_destroy_ap xs ys,
  count-append is_create_sta xs ys,
  count-append is_destroy_sta xs ys,
)

-- Calls that leave the interfaces and the driver alone.
abbrev pub IsQuiet : List WifiCall → Type 0
IsQuiet cs =
    (count is_create_ap cs ≡ 0)
    × (count is_destroy_ap cs ≡ 0)
    × (count is_create_sta cs ≡ 0)
    × (count is_destroy_sta cs ≡ 0)
    × ((up : Bool) → driver_up up cs ≡ up)

pub called-WifiIsValid :
    (cs : List WifiCall) (s : Wifi) → IsQuiet cs → WifiIsValid s → WifiIsValid (called cs s)
called-WifiIsValid cs s q v = record {
  ap_balance = omega (arith, v.ap_balance, counts-append s.calls cs);
  sta_balance = omega (arith, v.sta_balance, counts-append s.calls cs);
  ap_there = v.ap_there;
  sta_there = v.sta_there;
  driver = driver_up-append false s.calls cs ∙ q.4 (driver_up false s.calls) ∙ v.driver;
}

pub initialised-WifiIsValid : (s : Wifi) → WifiIsValid s → WifiIsValid (initialised s)
initialised-WifiIsValid s v = elim (Bool-cases s.initialized) [
  | inl e ↦ subst WifiIsValid (rw e) v
  | inr e ↦ subst WifiIsValid {x = set_up s} (rw e) (record {
    ap_balance = ground (arith, v.ap_balance, v.ap_there, counts-append s.calls set_up_calls);
    sta_balance = ground (arith, v.sta_balance, v.sta_there, counts-append s.calls set_up_calls);
    ap_there = refl;
    sta_there = refl;
    driver = driver_up-append false s.calls set_up_calls;
  })
]

-- The calls of a `stop` that finds the driver started.
abbrev pub stop_calls : List WifiCall
stop_calls = wifi_stop ∷ wifi_deinit ∷ clear_handlers ∷ destroy_sta_netif ∷ destroy_ap_netif ∷ []

pub stopped-WifiIsValid :
    (s : Wifi)
    → s.initialized ≡ true
    → WifiIsValid s
    → WifiIsValid (record s {
      sta_netif = false;
      ap_netif = false;
      initialized = false;
      calls = s.calls ++ stop_calls;
    })
stopped-WifiIsValid s e v = record {
  ap_balance = ground (arith, v.ap_balance, v.ap_there, counts-append s.calls stop_calls);
  sta_balance = ground (arith, v.sta_balance, v.sta_there, counts-append s.calls stop_calls);
  ap_there = refl;
  sta_there = refl;
  driver = driver_up-append false s.calls stop_calls;
}

-- The three bits that nothing here depends on.
pub bits-WifiIsValid :
    (group start_bit connected_bit : Bool) (s : Wifi)
    → WifiIsValid s
    → WifiIsValid (record s { group = group; start_bit = start_bit; connected_bit = connected_bit })
bits-WifiIsValid group start_bit connected_bit s v = record {
  ap_balance = v.ap_balance;
  sta_balance = v.sta_balance;
  ap_there = v.ap_there;
  sta_there = v.sta_there;
  driver = v.driver;
}
