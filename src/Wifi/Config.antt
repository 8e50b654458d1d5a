-- ===== src/Wifi/Config.antt =====
-- What of a network's name and password reaches the driver in wifi_sta_ap.c.
use dmesh_l.Base.{
  c_string, NoZero, c_string-append, take-NoZero, ℕ, ◌-◌, ◌≤◌, ◌≡◌, ◌↔◌, ap, some, List, arith, sym,
  ◌∙◌, ◌<◌, length, take, replicate, length-append, length-take, length-replicate, take-length,
}
use dmesh_l.Wifi.Station.{strlcpy, station_config}

-- The array keeps its size and holds the first `size - 1` characters.
pub strlcpy_lem :
    (size : ℕ) (src : List ℕ)
    → NoZero src
    → 0 < size
    → (length (strlcpy size src) ≡ size) × (c_string (strlcpy size src) ≡ take (size - 1) src)
unfolding strlcpy
strlcpy_lem size src h pos = (
  omega (
    arith,
    length-append (take (size - 1) src) (replicate (size - length (take (size - 1) src)) 0),
    length-take (size - 1) src,
    length-replicate {A = ℕ} (size - length (take (size - 1) src)) 0,
  ),
  c_string-append (take (size - 1) src) _ (take-NoZero (size - 1) src h),
)

take_all : (n : ℕ) (cs : List ℕ) → take n cs ≡ cs → length cs ≤ n
take_all n cs e = omega (arith, ap length e, length-take n cs)

-- The driver gets the whole name exactly when it has at most 31 bytes, and the whole password
-- exactly when it has at most 63: longer ones are cut, the names of 32 bytes included that networks
-- may have. Both fill their arrays.
pub station_config_lem :
    (ssid pass : List ℕ)
    → NoZero ssid
    → NoZero pass
    → let config = station_config ssid (some pass) in
      ((c_string config.ssid ≡ ssid) ↔ (length ssid ≤ 31))
      × ((c_string config.password ≡ pass) ↔ (length pass ≤ 63))
      × (length config.ssid ≡ 32)
      × (length config.password ≡ 64)
unfolding station_config
station_config_lem ssid pass hs hp =
    let (ns, cs) = strlcpy_lem 32 ssid hs (omega arith) in
    let (np, cp) = strlcpy_lem 64 pass hp (omega arith) in
    (
      ((λ e. take_all 31 ssid (sym cs ∙ e)), (λ h. cs ∙ take-length 31 ssid h)),
      ((λ e. take_all 63 pass (sym cp ∙ e)), (λ h. cp ∙ take-length 63 pass h)),
      ns,
      np,
    )
