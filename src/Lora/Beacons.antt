-- ===== src/Lora/Beacons.antt =====
-- Beacons and received packets of lora.c: the clock they set, and the bands that they step through.
use dmesh_l.Base.{
  ap, ℕ, ◌+◌, ◌*◌, ◌/◌, ◌%◌, ◌^◌, ◌<◌, ◌≡◌, refl, ◌∙◌, true, ◌&&◌, Option, some, List, [], ◌∷◌,
  ◌++◌, arith, ◌==◌, if◌then◌else◌, inc32, get_or,
}
use dmesh_l.Lora.Board.{Board, IsTransceiver}
use dmesh_l.Lora.Radio.{Radio, receive_beacon, downstream}
use dmesh_l.Lora.Config.{settings_of}
use dmesh_l.Lora.Channel.{carrier_word, receive_beacon_lem}
use dmesh_l.Lora.Tasks.{
  App, settimeofday, beacon_size, beacon_time, next_band, count_beacon, try_radio, handle_beacon,
}

-- The time of a beacon whose bytes 5 to 8 are the little-endian digits of `t`.
abbrev pub CarriesTime : List ℕ → ℕ → Type 0
CarriesTime buf t =
    (get_or buf 5 0 ≡ t % 256)
    × (get_or buf 6 0 ≡ t / 256 % 256)
    × (get_or buf 7 0 ≡ t / 65536 % 256)
    × (get_or buf 8 0 ≡ t / 16777216)

-- For a beacon that carries the 32-bit time `t`, the clock is set to `t` + 316008000 seconds,
-- modulo 2^32.
pub beacon_time_lem :
    (buf : List ℕ) (t : ℕ)
    → t < 2 ^ 32
    → CarriesTime buf t
    → beacon_time buf ≡ (t + 316008000) % 2 ^ 32
unfolding beacon_time
beacon_time_lem buf t h c = omega arith

-- 6 January 1980, 00:00 UTC, in seconds from the Unix epoch: ten years with two leap days, and five
-- days.
abbrev pub gps_epoch : ℕ
gps_epoch = (10 * 365 + 2 + 5) * 86400

-- A time counted from 6 January 1980, 00:00 UTC, is set 12 hours late, as long as it fits 32 bits.
pub beacon_time_late :
    (buf : List ℕ) (t : ℕ)
    → t + 316008000 < 2 ^ 32
    → CarriesTime buf t
    → beacon_time buf ≡ gps_epoch + t + 12 * 3600
unfolding beacon_time
beacon_time_late buf t h c = omega arith

-- The bands go round from 0 to 7.
next_band-mod : (n : ℕ) → n < 8 → next_band n ≡ (n + 1) % 8
unfolding next_band
next_band-mod n h = ground arith

-- A routine that succeeds replaces the driver.
pub try_radio-some :
    (b : Board) (f : Radio b → Option (Radio b)) (s : App b) (d : Radio b)
    → f s.radio ≡ some d
    → try_radio b f s ≡ some (tt, record s { radio = d })
try_radio-some b f s d e = rw (e, try_radio)

module _ (b : Board) (t : IsTransceiver b) where
  -- `lora_handle_beacon`, on a band below 8, stays inside the channel table: it counts the beacon,
  -- steps to the next of the eight bands, sets the clock exactly when the first two bytes are 0, and
  -- leaves the transceiver receiving, with an implicit header and the carrier word of the channel of
  -- the new band.
  pub handle_beacon_lem :
      (s : App b)
      → s.radio.lora.beacon_band < 8
      → (s' : App b) × (handle_beacon b s ≡ some (tt, s'))
        × (s'.radio.lora ≡ record s.radio.lora {
          lora_beacons = inc32 s.radio.lora.lora_beacons;
          beacon_band = (s.radio.lora.beacon_band + 1) % 8;
          beacon_receive = true;
        })
        × (s'.calls ≡ (
            if get_or s.lorabuf 0 0 == 0 && get_or s.lorabuf 1 0 == 0
            then s.calls ++ settimeofday (beacon_time s.lorabuf) ∷ []
            else s.calls))
        × ((settings_of b t s'.radio.chip).mode ≡ 0x85)
        × ((settings_of b t s'.radio.chip).implicit ≡ 1)
        × ((settings_of b t s'.radio.chip).carrier
            ≡ carrier_word (get_or downstream ((s.radio.lora.beacon_band + 1) % 8) 0))
  unfolding handle_beacon count_beacon
  handle_beacon_lem s h =
      let start : Radio b = count_beacon b s.radio in
      let round = next_band-mod s.radio.lora.beacon_band h in
      let listening = receive_beacon_lem b t beacon_size start (rw round (omega arith)) in
      (
        record s {
          radio = listening.0;
          calls =
              if get_or s.lorabuf 0 0 == 0 && get_or s.lorabuf 1 0 == 0
              then s.calls ++ settimeofday (beacon_time s.lorabuf) ∷ []
              else s.calls;
        },
        try_radio-some b (receive_beacon b beacon_size) _ listening.0 listening.1,
        listening.3 ∙ rw round,
        refl,
        rw listening.2,
        ap (λ f. f.implicit) listening.2,
        ap (λ f. f.carrier) listening.2 ∙ rw round,
      )
