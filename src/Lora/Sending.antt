-- ===== src/Lora/Sending.antt =====
-- `lora_send_packet` of lora_drv.c: what reaches the transceiver's memory, and that the call ends.
use dmesh_l.Base.{
  ℕ, zero, suc, ◌≤◌, ◌<◌, ◌≡◌, ◌∙◌, ap, map, Bool, true, false, some, List, arith, u8, ◌==◌,
  if◌then◌else◌, bit_and, length, Bool-cases, inl, inr,
}
use dmesh_l.Lora.Board.{Board, IsTransceiver, window, is_receiving}
use dmesh_l.Lora.Driver.{write_reg, read_reg}
use dmesh_l.Lora.Radio.{wait_sent, start_packet, send_packet}
use dmesh_l.Lora.Transfer.{registers-read_reg, memory-read_reg}
use dmesh_l.Lora.Config.{settings, settings_of}
use dmesh_l.Lora.Filling.{not_receiving, start_packet-window, start_packet-settings}

module _ (b : Board) (t : IsTransceiver b) where
  -- The transceiver after `n` polls that found the transmission unfinished.
  abbrev pub after_polls : ℕ → b.Chip → b.Chip
  after_polls zero c = c
  after_polls (suc n) c = after_polls n (b.task_delay 2 (read_reg b 0x12 c).1)

  abbrev pub is_sent : b.Chip → Bool
  is_sent c = if bit_and (read_reg b 0x12 c).0 0x08 == 0 then false else true

  poll-registers : (c : b.Chip) → t.registers (b.task_delay 2 (read_reg b 0x12 c).1) ≡ t.registers c
  poll-registers c =
      t.registers-delay 2 (read_reg b 0x12 c).1 ∙ registers-read_reg b t 0x12 (omega arith) c

  -- The wait has ended with the transmission's memory and settings as they were.
  abbrev Ended : ℕ → b.Chip → Type 0
  Ended fuel c =
      (c' : b.Chip) × (wait_sent b fuel c ≡ some c')
      × (t.memory c' ≡ t.memory c)
      × (settings_of b t c' ≡ settings_of b t c)

  wait_sent_done :
      (fuel : ℕ) (c : b.Chip)
      → t.registers c 0x01 ≡ 0x83
      → (bit_and (read_reg b 0x12 c).0 0x08 == 0) ≡ false
      → Ended (suc fuel) c
  unfolding wait_sent
  wait_sent_done fuel c m sent = (
    (read_reg b 0x12 c).1,
    rw (sent, wait_sent),
    memory-read_reg b t 0x12 (omega arith) c
        (not_receiving b t c 0x83 m (omega arith) (omega arith)),
    ap settings (registers-read_reg b t 0x12 (omega arith) c),
  )

  wait_sent_busy :
      (fuel : ℕ) (c : b.Chip)
      → t.registers c 0x01 ≡ 0x83
      → (bit_and (read_reg b 0x12 c).0 0x08 == 0) ≡ true
      → Ended fuel (b.task_delay 2 (read_reg b 0x12 c).1)
      → Ended (suc fuel) c
  unfolding wait_sent
  wait_sent_busy fuel c m busy rest =
      let quiet = not_receiving b t c 0x83 m (omega arith) (omega arith) in
      let read_quiet : is_receiving (t.registers (read_reg b 0x12 c).1) ≡ false =
        rw (registers-read_reg b t 0x12 (omega arith) c) quiet in
      (
        rest.0,
        rw (busy, wait_sent) rest.1,
        rest.2
            ∙ t.memory-delay 2 (read_reg b 0x12 c).1 read_quiet
            ∙ memory-read_reg b t 0x12 (omega arith) c quiet,
        rest.3 ∙ ap settings (poll-registers c),
      )

  wait_sent_ends :
      (n fuel : ℕ) (c : b.Chip)
      → n < fuel
      → t.registers c 0x01 ≡ 0x83
      → is_sent (after_polls n c) ≡ true
      → Ended fuel c
  wait_sent_ends n zero c h m done = absurd (omega arith)
  wait_sent_ends zero (suc fuel) c h m done = wait_sent_done fuel c m (ground arith)
  wait_sent_ends (suc n) (suc fuel) c h m done =
      elim (Bool-cases (bit_and (read_reg b 0x12 c).0 0x08 == 0)) [
        | inl busy ↦
            wait_sent_busy fuel c m busy
              (wait_sent_ends n fuel _ (omega arith) (rw (poll-registers c) m) done)
        | inr sent ↦ wait_sent_done fuel c m sent
      ]

  -- If the transceiver reports the end of the transmission of a packet of at most 256 bytes after
  -- `n` polls, and the loop may poll more than `n` times, `lora_send_packet` returns: before its last
  -- access, which acknowledges the interrupt, the memory holds the packet from address 0 on, the mode
  -- is transmission, the payload length is the length of the packet modulo 256, and so 0 for 256
  -- bytes, and the other settings are unchanged.
  pub send_packet_lem :
      (buf : List ℕ) (n fuel : ℕ) (c : b.Chip)
      → length buf ≤ 256
      → n < fuel
      → is_sent (after_polls n (start_packet b buf c)) ≡ true
      → (c' : b.Chip) × (send_packet b fuel buf c ≡ some (write_reg b 0x12 0x08 c'))
        × (window (t.memory c') 0 (length buf) ≡ map u8 buf)
        × (settings_of b t c'
            ≡ record (settings_of b t c) { mode = 0x83; payload_length = u8 (length buf) })
  unfolding send_packet
  send_packet_lem buf n fuel c fits h done =
      let set = start_packet-settings b t buf c in
      let transmits : t.registers (start_packet b buf c) 0x01 ≡ 0x83 =
        unfold settings in ap (λ s. s.mode) set in
      let ended = wait_sent_ends n fuel (start_packet b buf c) h transmits done in
      (
        ended.0,
        rw (ended.1, send_packet),
        ap (λ m. window m 0 (length buf)) ended.2 ∙ start_packet-window b t buf c fits,
        ended.3 ∙ set,
      )
