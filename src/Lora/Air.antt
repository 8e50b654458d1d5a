-- ===== src/Lora/Air.antt =====
-- A message from `loraSend` of one node to `lora_receive_packet` of another.
use dmesh_l.Base.{
  ℕ, ◌≤◌, ◌<◌, ◌≡◌, ◌≢◌, ap, ◌∙◌, map, true, some, List, u8, bit_and, length, min, arith,
}
use dmesh_l.Lora.Board.{Board, IsTransceiver, window}
use dmesh_l.Lora.Driver.{write_reg, read_reg, idle}
use dmesh_l.Lora.Radio.{Radio, start_packet, receive_packet}
use dmesh_l.Lora.Tasks.{App, lora_send}
use dmesh_l.Lora.Transfer.{memory-write_reg}
use dmesh_l.Lora.Config.{settings, settings_of}
use dmesh_l.Lora.Filling.{not_receiving}
use dmesh_l.Lora.Sending.{after_polls, is_sent}
use dmesh_l.Lora.Receiving.{flags, packet_length, receive_packet_lem}
use dmesh_l.Lora.Uplink.{ready, lora_send_lem}

module _ (b : Board) (t : IsTransceiver b) where
  -- The packet in the memory of a transceiver that has received `size` bytes.
  abbrev pub arrived : (size : ℕ) → Radio b → List ℕ
  arrived size e =
      let standby = idle b (packet_length b t e).1 in
      window (t.memory standby) (read_reg b 0x10 standby).0 size

  -- The packet in the memory of a transceiver that has sent `size` bytes.
  abbrev pub departed : (size : ℕ) → App b → List ℕ
  departed size s = window (t.memory s.radio.chip) 0 size

  sent-departed :
      (message : List ℕ) (c : b.Chip)
      → (settings_of b t c).mode ≡ 0x83
      → window (t.memory c) 0 (length message) ≡ map u8 message
      → window (t.memory (write_reg b 0x12 0x08 c)) 0 (length message) ≡ map u8 message
  unfolding settings
  sent-departed message c mode held =
      let still =
        memory-write_reg b t 0x12 (omega arith) (omega arith) 0x08 c
          (not_receiving b t c 0x83 mode (omega arith) (omega arith)) in
      ap (λ m. window m 0 (length message)) still ∙ held

  -- A node sends a message of at most 100 bytes with `loraSend`, whose end its transceiver reports
  -- after `n` polls, fewer than the driver makes. If the bytes that have then left its memory have
  -- arrived at another node's transceiver, which tells their number and no CRC error,
  -- `lora_receive_packet` of that node returns the message, each byte modulo 256.
  pub lora_send-receive_packet :
      (message : List ℕ) (n : ℕ) (s : App b) (e : Radio b)
      → length message ≤ 100
      → n < s.polls
      → is_sent b t (after_polls b t n (start_packet b message (ready b t s.radio))) ≡ true
      → bit_and (flags b t e) 0x40 ≢ 0
      → bit_and (flags b t e) 0x20 ≡ 0
      → (packet_length b t e).0 ≡ length message
      → ((s' : App b)
          → lora_send b message s ≡ some (tt, s')
          → arrived (length message) e ≡ departed (length message) s')
      → (s' : App b) × (lora_send b message s ≡ some (tt, s'))
        × ((receive_packet b 100 e).0 ≡ map u8 message)
  lora_send-receive_packet message n s e fits h done got good size carried =
      let (c, run, held, set) = lora_send_lem b t message n s (omega arith) h done in
      let cut : min (packet_length b t e).0 100 ≡ length message = omega arith in
      (
        _,
        run,
        receive_packet_lem b t 100 e got good
            ∙ ap
                (λ k.
                  window (t.memory (idle b (packet_length b t e).1))
                    (read_reg b 0x10 (idle b (packet_length b t e).1)).0 k)
                cut
            ∙ carried _ run
            ∙ sent-departed message c (ap (λ f. f.mode) set) held,
      )
