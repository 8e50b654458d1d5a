-- ===== src/Lora/Link.antt =====
-- Two nodes in data mode: what `register_lora` of lora.c sets up on one, and `loraSend` on another.
use dmesh_l.Base.{
  ℕ, ◌-◌, ◌≤◌, ◌<◌, ◌≡◌, refl, sym, ap, ap₂, ◌∙◌, map, true, false, some, List, [], ◌∷◌, ◌++◌, u8,
  leb, length, if◌then◌else◌, pos, arith,
}
use dmesh_l.Lora.Board.{Board, IsTransceiver, window}
use dmesh_l.Lora.Driver.{write_reg, reset, set_sync_word}
use dmesh_l.Lora.Radio.{start_packet, receive_upstream, init, init_ok}
use dmesh_l.Lora.Tasks.{App, create_read_task, tune, register_lora, lora_send}
use dmesh_l.Lora.Transfer.{registers-write_reg}
use dmesh_l.Lora.Config.{
  Settings, settings, settings_of, clamp, set_bandwidth_lem, set_preamble_length_lem,
  disable_crc_lem,
}
use dmesh_l.Lora.Channel.{carrier_word, receive_upstream_lem}
use dmesh_l.Lora.Sending.{after_polls, is_sent}
use dmesh_l.Lora.Uplink.{ready, lora_send_lem}

-- The settings on which a sender and a receiver have to agree.
pub record Modulation : Type 0 where
  pub carrier : ℕ
  pub bandwidth : ℕ
  pub coding : ℕ
  pub implicit : ℕ
  pub spreading : ℕ
  pub optimize : ℕ
  pub threshold : ℕ
  pub invert : ℕ
  pub invert2 : ℕ
  pub sync_word : ℕ
  pub preamble : ℕ
  pub crc : ℕ

abbrev pub modulation : Settings → Modulation
modulation s = record {
  carrier = s.carrier;
  bandwidth = s.bandwidth;
  coding = s.coding;
  implicit = s.implicit;
  spreading = s.spreading;
  optimize = s.optimize;
  threshold = s.threshold;
  invert = s.invert;
  invert2 = s.invert2;
  sync_word = s.sync_word;
  preamble = s.preamble;
  crc = s.crc;
}

-- 923.3 MHz, 500 kHz, an explicit header, inverted IQ and no CRC.
abbrev pub uplink : (sf cr : ℕ) → Modulation
uplink sf cr = record {
  carrier = carrier_word 923300000;
  bandwidth = 9;
  coding = clamp 5 8 cr - 4;
  implicit = 0;
  spreading = clamp 6 12 sf;
  optimize = if leb sf 6 then 0xc5 else 0xc3;
  threshold = if leb sf 6 then 0x0c else 0x0a;
  invert = 0x66;
  invert2 = 0x19;
  sync_word = 0x34;
  preamble = 8;
  crc = 0;
}

module _ (b : Board) (t : IsTransceiver b) where
  abbrev pub modulation_of : b.Chip → Modulation
  modulation_of c = modulation (settings_of b t c)

  tune-settings :
      (c : b.Chip)
      → settings_of b t (tune b c)
        ≡ record (settings_of b t c) { crc = 0; bandwidth = 9; preamble = 8; sync_word = 0x34 }
  unfolding tune
  tune-settings c =
      let word : settings_of b t (set_sync_word b 0x34 c)
          ≡ record (settings_of b t c) { sync_word = 0x34 } =
        unfold settings set_sync_word in rw (registers-write_reg b t 0x39 (omega arith)) in
      rw (disable_crc_lem b t, set_bandwidth_lem b t 500000, set_preamble_length_lem b t 8, word)

  -- The driver that `register_lora` leaves when `lora_init` succeeds and the stored mode is 2.
  abbrev pub started : (bus_code device_code : ℕ) → App b → App b
  started bus_code device_code s = record s {
    radio =
        receive_upstream b
          (record s.radio { chip = tune b (init b bus_code device_code (reset b s.radio.chip)).1 });
    calls = s.calls ++ create_read_task ∷ [];
  }

  started-modulation :
      (bus_code device_code : ℕ) (s : App b)
      → let c = (started bus_code device_code s).radio.chip in
        (modulation_of c ≡ uplink s.radio.lora.sf s.radio.lora.cr)
        × ((settings_of b t c).mode ≡ 0x85)
  started-modulation bus_code device_code s =
      let c : b.Chip = (init b bus_code device_code (reset b s.radio.chip)).1 in
      let set = (receive_upstream_lem b t (record s.radio { chip = tune b c })).0 in
      (ap modulation set ∙ rw (tune-settings c), ap (λ q. q.mode) set)

  register_lora-started :
      (bus_code device_code : ℕ) (s : App b)
      → (init b bus_code device_code (reset b s.radio.chip)).0 ≡ init_ok
      → register_lora b bus_code device_code (some (pos 2)) s
        ≡ some (init_ok, started bus_code device_code s)
  unfolding register_lora
  register_lora-started bus_code device_code s ok = rw (ok, register_lora)

  started-rates :
      (bus_code device_code : ℕ) (s : App b)
      → let l = (started bus_code device_code s).radio.lora in
        (l.sf ≡ s.radio.lora.sf) × (l.cr ≡ s.radio.lora.cr)
  started-rates bus_code device_code s =
      let c : b.Chip = (init b bus_code device_code (reset b s.radio.chip)).1 in
      let lora = (receive_upstream_lem b t (record s.radio { chip = tune b c })).1 in
      (ap (λ l. l.sf) lora, ap (λ l. l.cr) lora)

  -- A node that waits for data sends with the settings that it receives with.
  sent-modulation :
      (sf cr size : ℕ) (f : Settings)
      → modulation f ≡ uplink sf cr
      → modulation (record f {
        mode = 0x83;
        coding = clamp 5 8 cr - 4;
        implicit = 0;
        spreading = clamp 6 12 sf;
        payload_length = u8 size;
        optimize = if leb sf 6 then 0xc5 else 0xc3;
        threshold = if leb sf 6 then 0x0c else 0x0a;
        invert = 0x66;
        invert2 = 0x19;
      })
        ≡ uplink sf cr
  sent-modulation sf cr size f h =
      ap {A = Modulation}
        (λ q. record q {
          coding = clamp 5 8 cr - 4;
          implicit = 0;
          spreading = clamp 6 12 sf;
          optimize = if leb sf 6 then 0xc5 else 0xc3;
          threshold = if leb sf 6 then 0x0c else 0x0a;
          invert = 0x66;
          invert2 = 0x19;
        })
        h

  -- Two nodes with the same spreading factor and coding rate are started with the stored mode 2, and
  -- find their transceivers. Then the second receives all the time, and when the first sends a message
  -- of at most 255 bytes with `loraSend`, whose end its transceiver reports after `n` polls, fewer
  -- than the driver makes, it transmits as many bytes as the message has, which are in its memory from
  -- address 0 on, with just the settings of carrier, bandwidth, coding, header, spreading, IQ, sync
  -- word, preamble and CRC that the second receives with.
  pub nodes_agree :
      (bus_code device_code bus_code' device_code' n : ℕ) (message : List ℕ) (s r : App b)
      → (init b bus_code device_code (reset b s.radio.chip)).0 ≡ init_ok
      → (init b bus_code' device_code' (reset b r.radio.chip)).0 ≡ init_ok
      → s.radio.lora.sf ≡ r.radio.lora.sf
      → s.radio.lora.cr ≡ r.radio.lora.cr
      → length message ≤ 255
      → n < s.polls
      → is_sent b t (
          after_polls b t n
            (start_packet b message (ready b t (started bus_code device_code s).radio)))
        ≡ true
      → (s1 s2 r1 : App b) × (c : b.Chip) × (register_lora b bus_code device_code (some (pos 2)) s
          ≡ some (init_ok, s1))
        × (lora_send b message s1 ≡ some (tt, s2))
        × (register_lora b bus_code' device_code' (some (pos 2)) r ≡ some (init_ok, r1))
        × (s2.radio.chip ≡ write_reg b 0x12 0x08 c)
        × (window (t.memory c) 0 (length message) ≡ map u8 message)
        × ((settings_of b t c).mode ≡ 0x83)
        × ((settings_of b t c).payload_length ≡ length message)
        × ((settings_of b t r1.radio.chip).mode ≡ 0x85)
        × (modulation_of c ≡ modulation_of r1.radio.chip)
  nodes_agree bus_code device_code bus_code' device_code' n message s r ok ok' sf cr fits h done =
      let s1 : App b = started bus_code device_code s in
      let r1 : App b = started bus_code' device_code' r in
      let rates = started-rates bus_code device_code s in
      let sends = started-modulation bus_code device_code s in
      let hears = started-modulation bus_code' device_code' r in
      let (c, run, held, set) = lora_send_lem b t message n s1 (omega arith) h done in
      let with_rates : modulation_of s1.radio.chip ≡ uplink s1.radio.lora.sf s1.radio.lora.cr =
        sends.0 ∙ sym (ap₂ uplink rates.0 rates.1) in
      let sent : modulation_of c ≡ uplink s1.radio.lora.sf s1.radio.lora.cr =
        ap modulation set
        ∙ sent-modulation s1.radio.lora.sf s1.radio.lora.cr (length message)
            (settings_of b t s1.radio.chip) with_rates in
      (
        s1,
        record s1 {
          radio = record s1.radio { chip = write_reg b 0x12 0x08 c; implicit_header = false };
        },
        r1,
        c,
        register_lora-started bus_code device_code s ok,
        run,
        register_lora-started bus_code' device_code' r ok',
        refl,
        held,
        ap (λ q. q.mode) set,
        ap (λ q. q.payload_length) set ∙ omega arith,
        hears.1,
        sent ∙ ap₂ uplink (rates.0 ∙ sf) (rates.1 ∙ cr) ∙ sym hears.0,
      )
