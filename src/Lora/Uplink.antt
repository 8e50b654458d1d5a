-- ===== src/Lora/Uplink.antt =====
-- `loraSend` of lora.c: the settings that a message is sent with.
use dmesh_l.Base.{
  ℕ, ◌-◌, ◌≤◌, ◌<◌, ◌≡◌, ap, ◌∙◌, map, true, false, none, some, List, u8, leb, length,
  if◌then◌else◌,
}
use dmesh_l.Lora.Board.{Board, IsTransceiver, window}
use dmesh_l.Lora.Driver.{write_reg, set_spreading_factor, set_coding_rate, invert_iq}
use dmesh_l.Lora.Radio.{Radio, start_packet, explicit_header_mode}
use dmesh_l.Lora.Tasks.{App, lora_send}
use dmesh_l.Lora.Config.{
  Settings, settings_of, clamp, set_coding_rate_lem, set_spreading_factor_lem, invert_iq_lem,
}
use dmesh_l.Lora.Channel.{header_mode_lem}
use dmesh_l.Lora.Sending.{after_polls, is_sent, send_packet_lem}

module _ (b : Board) (t : IsTransceiver b) where
  -- The transceiver when `loraSend` starts to transmit.
  abbrev pub ready : Radio b → b.Chip
  ready d = set_coding_rate b d.lora.cr (
      set_spreading_factor b d.lora.sf
        (explicit_header_mode b (record d { chip = invert_iq b true d.chip })).chip)

  ready-settings :
      (d : Radio b)
      → settings_of b t (ready d) ≡ record (settings_of b t d.chip) {
        coding = clamp 5 8 d.lora.cr - 4;
        implicit = 0;
        spreading = clamp 6 12 d.lora.sf;
        optimize = if leb d.lora.sf 6 then 0xc5 else 0xc3;
        threshold = if leb d.lora.sf 6 then 0x0c else 0x0a;
        invert = 0x66;
        invert2 = 0x19;
      }
  ready-settings d = rw (
    set_coding_rate_lem b t d.lora.cr,
    set_spreading_factor_lem b t d.lora.sf,
    (header_mode_lem b t 0 _).0,
    invert_iq_lem b t true,
  )

  -- If the transceiver reports the end of the transmission after `n` polls, and the driver may poll
  -- more often than that, `loraSend` of at most 256 bytes returns. Before its last access, which
  -- acknowledges the interrupt, the transceiver has the message in its memory from address 0 on, and
  -- its settings are the transmission mode, the length of the message, inverted IQ, an explicit header
  -- and the spreading factor and coding rate of the driver's state clamped to their ranges; the other
  -- settings are unchanged.
  pub lora_send_lem :
      (buf : List ℕ) (n : ℕ) (s : App b)
      → length buf ≤ 256
      → n < s.polls
      → is_sent b t (after_polls b t n (start_packet b buf (ready s.radio))) ≡ true
      → (c' : b.Chip) × (lora_send b buf s
          ≡ some (
            tt,
            record s {
              radio = record s.radio { chip = write_reg b 0x12 0x08 c'; implicit_header = false };
            },
          ))
        × (window (t.memory c') 0 (length buf) ≡ map u8 buf)
        × (settings_of b t c' ≡ record (settings_of b t s.radio.chip) {
          mode = 0x83;
          coding = clamp 5 8 s.radio.lora.cr - 4;
          implicit = 0;
          spreading = clamp 6 12 s.radio.lora.sf;
          payload_length = u8 (length buf);
          optimize = if leb s.radio.lora.sf 6 then 0xc5 else 0xc3;
          threshold = if leb s.radio.lora.sf 6 then 0x0c else 0x0a;
          invert = 0x66;
          invert2 = 0x19;
        })
  unfolding lora_send explicit_header_mode
  lora_send_lem buf n s fits h done =
      let (c', e, held, set) = send_packet_lem b t buf n s.polls (ready s.radio) fits h done in
      (
        c',
        ap
            (λ o. elim o [
              | none ↦ none
              | some c ↦
                  some
                    (tt, record s { radio = record s.radio { chip = c; implicit_header = false } })
            ])
            e,
        held,
        set
            ∙ ap {A = Settings} (λ f. record f { mode = 0x83; payload_length = u8 (length buf) })
                (ready-settings s.radio),
      )
