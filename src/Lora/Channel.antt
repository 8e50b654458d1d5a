-- ===== src/Lora/Channel.antt =====
-- Carrier, header mode and the two receive set-ups of lora_drv.c.
use dmesh_l.Base.{
  ℕ, zero, suc, get_elem?-eq-get_or, ◌+◌, ◌-◌, ◌*◌, ◌/◌, ◌^◌, ◌≤◌, ◌<◌, ◌≡◌, refl, true, false,
  some, arith, u8, leb, if◌then◌else◌, get_or,
}
use dmesh_l.Lora.Board.{Board, IsTransceiver}
use dmesh_l.Lora.Radio.{
  LoraState, Radio, downstream, explicit_header_mode, implicit_header_mode, set_frequency,
  listen_beacon, receive_beacon, receive_upstream,
}
use dmesh_l.Lora.Transfer.{registers-write_reg, registers-modify_reg}
use dmesh_l.Lora.Fields.{clear_zero, set_zero}
use dmesh_l.Lora.Config.{
  settings, settings_of, clamp, set_coding_rate_lem, set_spreading_factor_lem, invert_iq_lem,
  mode_lem,
}

-- The carrier word for a frequency in Hz.
abbrev pub carrier_word : ℕ → ℕ
carrier_word f = f * 2 ^ 19 / 32000000

-- Every channel is below 1024 MHz.
channel_bound : (i : ℕ) → get_or downstream i 0 < 1024000000
channel_bound zero = omega arith
channel_bound (suc zero) = omega arith
channel_bound (suc (suc zero)) = omega arith
channel_bound (suc (suc (suc zero))) = omega arith
channel_bound (suc (suc (suc (suc zero)))) = omega arith
channel_bound (suc (suc (suc (suc (suc zero))))) = omega arith
channel_bound (suc (suc (suc (suc (suc (suc zero)))))) = omega arith
channel_bound (suc (suc (suc (suc (suc (suc (suc zero))))))) = omega arith
channel_bound (suc (suc (suc (suc (suc (suc (suc (suc i)))))))) = omega arith

module _ (b : Board) (t : IsTransceiver b) where
  -- For a frequency below 1024 MHz the three registers hold the carrier word, which is the
  -- frequency in steps of 32 MHz / 2^19, rounded down, and no other setting changes.
  pub set_frequency_lem :
      (f : ℕ) (d : Radio b)
      → f < 1024000000
      → let d' = set_frequency b f d in
        (settings_of b t d'.chip ≡ record (settings_of b t d.chip) { carrier = carrier_word f })
        × (carrier_word f * 32000000 ≤ f * 2 ^ 19)
        × (f * 2 ^ 19 < (carrier_word f + 1) * 32000000)
        × (d'.frequency ≡ f)
        × (d'.lora ≡ d.lora)
        × (d'.implicit_header ≡ d.implicit_header)
  unfolding settings set_frequency
  set_frequency_lem f d h = (
    rw
        (
          registers-write_reg b t 0x08 (omega arith),
          registers-write_reg b t 0x07 (omega arith),
          registers-write_reg b t 0x06 (omega arith),
        )
        (ground arith),
    omega arith,
    omega arith,
    refl,
    refl,
    refl,
  )

  -- The header bit follows the static variable, and the implicit mode sets the payload length.
  pub header_mode_lem :
      (size : ℕ) (d : Radio b)
      → (settings_of b t (explicit_header_mode b d).chip
          ≡ record (settings_of b t d.chip) { implicit = 0 })
        × (settings_of b t (implicit_header_mode b size d).chip
            ≡ record (settings_of b t d.chip) { implicit = 1; payload_length = u8 size })
  unfolding settings explicit_header_mode implicit_header_mode
  header_mode_lem size d = (
    rw (registers-modify_reg b t 0x1d (omega arith) refl)
        (ground (arith, t.byte d.chip 0x1d, clear_zero (t.registers d.chip 0x1d))),
    rw
        (
          registers-write_reg b t 0x22 (omega arith),
          registers-modify_reg b t 0x1d (omega arith) refl,
        )
        (ground (arith, t.byte d.chip 0x1d, set_zero (t.registers d.chip 0x1d))),
  )

  listen_beacon-settings :
      (channel size : ℕ) (d : Radio b)
      → channel < 1024000000
      → settings_of b t (listen_beacon b channel size d).chip ≡ record (settings_of b t d.chip) {
        mode = 0x85;
        carrier = carrier_word channel;
        coding = 1;
        implicit = 1;
        spreading = 12;
        payload_length = u8 size;
        optimize = 0xc3;
        threshold = 0x0a;
        invert = 0x27;
        invert2 = 0x1d;
      }
  unfolding listen_beacon
  listen_beacon-settings channel size d h =
      let start : Radio b = record d { lora = record d.lora { beacon_receive = true } } in
      rw (
        (mode_lem b t _).2,
        set_coding_rate_lem b t 5,
        set_spreading_factor_lem b t 12,
        (header_mode_lem size _).1,
        invert_iq_lem b t false,
        (set_frequency_lem channel start h).0,
      )

  listen_beacon-statics :
      (channel size : ℕ) (d : Radio b)
      → let d' = listen_beacon b channel size d in
        (d'.lora ≡ record d.lora { beacon_receive = true })
        × (d'.implicit_header ≡ true)
        × (d'.frequency ≡ channel)
  unfolding listen_beacon implicit_header_mode set_frequency
  listen_beacon-statics channel size d = (refl, refl, refl)

  -- `lora_receive_beacon`, with a band below 8, does not leave the channel table. It leaves the
  -- transceiver receiving on that band's channel with SF 12, coding rate 4/5, straight IQ and an
  -- implicit header of the given size, and no other setting changes; the driver notes that it
  -- waits for a beacon.
  pub receive_beacon_lem :
      (size : ℕ) (d : Radio b)
      → d.lora.beacon_band < 8
      → (d' : Radio b) × (receive_beacon b size d ≡ some d')
        × (settings_of b t d'.chip ≡ record (settings_of b t d.chip) {
          mode = 0x85;
          carrier = carrier_word (get_or downstream d.lora.beacon_band 0);
          coding = 1;
          implicit = 1;
          spreading = 12;
          payload_length = u8 size;
          optimize = 0xc3;
          threshold = 0x0a;
          invert = 0x27;
          invert2 = 0x1d;
        })
        × (d'.lora ≡ record d.lora { beacon_receive = true })
        × (d'.implicit_header ≡ true)
        × (d'.frequency ≡ get_or downstream d.lora.beacon_band 0)
  unfolding receive_beacon
  receive_beacon_lem size d h =
      let channel : ℕ = get_or downstream d.lora.beacon_band 0 in
      let found = get_elem?-eq-get_or downstream d.lora.beacon_band 0 h in
      let statics = listen_beacon-statics channel size d in
      (
        listen_beacon b channel size d,
        rw (found, receive_beacon),
        listen_beacon-settings channel size d (channel_bound d.lora.beacon_band),
        statics.0,
        statics.1,
        statics.2,
      )

  receive_upstream-settings :
      (d : Radio b)
      → settings_of b t (receive_upstream b d).chip ≡ record (settings_of b t d.chip) {
        mode = 0x85;
        carrier = carrier_word 923300000;
        coding = clamp 5 8 d.lora.cr - 4;
        implicit = 0;
        spreading = clamp 6 12 d.lora.sf;
        optimize = if leb d.lora.sf 6 then 0xc5 else 0xc3;
        threshold = if leb d.lora.sf 6 then 0x0c else 0x0a;
        invert = 0x66;
        invert2 = 0x19;
      }
  unfolding receive_upstream
  receive_upstream-settings d =
      let lora' : LoraState = record d.lora { beacon_receive = false; data_receive = true } in
      let start : Radio b = record d { lora = lora' } in
      rw (
        (mode_lem b t _).2,
        set_coding_rate_lem b t d.lora.cr,
        set_spreading_factor_lem b t d.lora.sf,
        (header_mode_lem 0 _).0,
        invert_iq_lem b t true,
        (set_frequency_lem 923300000 start (omega arith)).0,
      )

  receive_upstream-statics :
      (d : Radio b)
      → let d' = receive_upstream b d in
        (d'.lora ≡ record d.lora { beacon_receive = false; data_receive = true })
        × (d'.implicit_header ≡ false)
        × (d'.frequency ≡ 923300000)
  unfolding receive_upstream explicit_header_mode set_frequency
  receive_upstream-statics d = (refl, refl, refl)

  -- `lora_receive_upstream` leaves the transceiver receiving on 923.3 MHz with inverted IQ, an
  -- explicit header, and the spreading factor and coding rate of the driver's state clamped to
  -- their ranges, and changes no other setting; the driver waits for data, not for a beacon.
  pub receive_upstream_lem :
      (d : Radio b)
      → let d' = receive_upstream b d in
        (settings_of b t d'.chip ≡ record (settings_of b t d.chip) {
          mode = 0x85;
          carrier = carrier_word 923300000;
          coding = clamp 5 8 d.lora.cr - 4;
          implicit = 0;
          spreading = clamp 6 12 d.lora.sf;
          optimize = if leb d.lora.sf 6 then 0xc5 else 0xc3;
          threshold = if leb d.lora.sf 6 then 0x0c else 0x0a;
          invert = 0x66;
          invert2 = 0x19;
        })
        × (d'.lora ≡ record d.lora { beacon_receive = false; data_receive = true })
        × (d'.implicit_header ≡ false)
        × (d'.frequency ≡ 923300000)
  receive_upstream_lem d =
      let statics = receive_upstream-statics d in
      (receive_upstream-settings d, statics.0, statics.1, statics.2)
