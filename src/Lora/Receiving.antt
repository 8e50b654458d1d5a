-- ===== src/Lora/Receiving.antt =====
-- `lora_receive_packet` and `lora_init` of lora_drv.c.
use dmesh_l.Base.{
  ℕ, zero, suc, ◌+◌, ◌≤◌, ◌<◌, ◌≡◌, ◌≢◌, ◌⊎◌, refl, ◌∙◌, ap, false, ◌∷◌, arith, u8, ltb, ◌-◌, ◌%◌,
  bit_or, leb, ◌==◌, ==_iff, holds_under, from_table, Bool-cases, inl, inr, true, if◌then◌else◌,
  bit_and, length, min,
}
use dmesh_l.Lora.Board.{Board, IsTransceiver, window, is_receiving}
use dmesh_l.Lora.Driver.{write_reg, read_reg, idle, reset, sleep, set_tx_power}
use dmesh_l.Lora.Radio.{
  Radio, drain_fifo, fetch_packet, receive_packet, probe, init, init_ok, not_found, open_bus,
  configure,
}
use dmesh_l.Lora.Board.{spi_bus_add_device}
use dmesh_l.Lora.Transfer.{
  registers-write_reg, registers-modify_reg, registers-read_reg, memory-write_reg, memory-read_reg,
  value-fifo_read,
}

length-drain_fifo : (b : Board) (count : ℕ) (c : b.Chip) → length (drain_fifo b count c).0 ≡ count
unfolding drain_fifo
length-drain_fifo b zero c = refl
length-drain_fifo b (suc count) c = ap suc (length-drain_fifo b count (read_reg b 0x00 c).1)

if_min : (size len : ℕ) → (if ltb size len then size else len) ≡ min len size
if_min size len = ground arith

length-fetch_packet :
    (b : Board) (len size : ℕ) (c : b.Chip) → length (fetch_packet b len size c).0 ≡ min len size
unfolding fetch_packet
length-fetch_packet b len size c = length-drain_fifo b _ _ ∙ if_min size len

-- `lora_receive_packet` never stores more than the `size` bytes that the buffer has.
pub length-receive_packet-le :
    (b : Board) (size : ℕ) (d : Radio b) → length (receive_packet b size d).0 ≤ size
unfolding receive_packet
length-receive_packet-le b size d =
    let c : b.Chip = write_reg b 0x12 (read_reg b 0x12 d.chip).0 (read_reg b 0x12 d.chip).1 in
    let length_reg : ℕ = if d.implicit_header then 0x22 else 0x13 in
    ground
      (arith, length-fetch_packet b (read_reg b length_reg c).0 size (read_reg b length_reg c).1)

module _ (b : Board) (t : IsTransceiver b) where
  drain_fifo-window :
      (count p : ℕ) (c : b.Chip)
      → t.registers c 0x01 ≡ 0x81
      → t.registers c 0x0d ≡ u8 p
      → (drain_fifo b count c).0 ≡ window (t.memory c) p count
  unfolding drain_fifo
  drain_fifo-window zero p c standby pointer = refl
  drain_fifo-window (suc count) p c standby pointer =
      let quiet : is_receiving (t.registers c) ≡ false = ground arith in
      let regs = registers-read_reg b t 0x00 (omega arith) c in
      let same = memory-read_reg b t 0x00 (omega arith) c quiet in
      let rest =
        drain_fifo-window count (p + 1) (read_reg b 0x00 c).1 (rw regs standby)
          (rw regs (omega arith)) in
      rw (value-fifo_read b t c quiet, pointer) (ap (◌∷◌ (t.memory c (u8 p))) (rest ∙ rw same))

  -- What `lora_receive_packet` fetches: the bytes of the transceiver's memory from the current
  -- packet address on, as many as the packet has and the buffer holds.
  fetch_packet-window :
      (len size : ℕ) (c : b.Chip)
      → let current = (read_reg b 0x10 (idle b c)).0 in
        (fetch_packet b len size c).0 ≡ window (t.memory (idle b c)) current (min len size)
  unfolding fetch_packet
  fetch_packet-window len size c =
      let standby : t.registers (idle b c) 0x01 ≡ 0x81 =
        unfold idle in rw (registers-write_reg b t 0x01 (omega arith)) in
      let quiet : is_receiving (t.registers (idle b c)) ≡ false = ground arith in
      let current : ℕ = (read_reg b 0x10 (idle b c)).0 in
      let c2 : b.Chip = (read_reg b 0x10 (idle b c)).1 in
      let regs = registers-read_reg b t 0x10 (omega arith) (idle b c) in
      let quiet2 : is_receiving (t.registers c2) ≡ false = rw regs quiet in
      let same : t.memory (write_reg b 0x0d current c2) ≡ t.memory (idle b c) =
        memory-write_reg b t 0x0d (omega arith) (omega arith) current c2 quiet2
        ∙ memory-read_reg b t 0x10 (omega arith) (idle b c) quiet in
      rw (if_min size len) (
        drain_fifo-window (min len size) current (write_reg b 0x0d current c2)
          (rw (registers-write_reg b t 0x0d (omega arith), regs) standby)
          (rw (registers-write_reg b t 0x0d (omega arith)))
        ∙ ap (λ m. window m current (min len size)) same)

  -- The interrupt flags that `lora_receive_packet` sees, and the transceiver once they have been
  -- acknowledged.
  abbrev pub flags : Radio b → ℕ
  flags d = (read_reg b 0x12 d.chip).0

  abbrev pub acknowledged : Radio b → b.Chip
  acknowledged d = write_reg b 0x12 (flags d) (read_reg b 0x12 d.chip).1

  -- The length that the transceiver tells, in the register that the header mode says.
  abbrev pub packet_length : Radio b → ℕ × b.Chip
  packet_length d = read_reg b (if d.implicit_header then 0x22 else 0x13) (acknowledged d)

  -- With a received packet and no CRC error, `lora_receive_packet` stores the bytes of the
  -- transceiver's memory from the current packet address on, going round at 256: as many as the
  -- packet has, in the register that the header mode tells, and at most `size`.
  pub receive_packet_lem :
      (size : ℕ) (d : Radio b)
      → bit_and (flags d) 0x40 ≢ 0
      → bit_and (flags d) 0x20 ≡ 0
      → let standby = idle b (packet_length d).1 in
        (receive_packet b size d).0
        ≡ window (t.memory standby) (read_reg b 0x10 standby).0 (min (packet_length d).0 size)
  unfolding receive_packet
  receive_packet_lem size d g h =
      ground (arith, fetch_packet-window (packet_length d).0 size (packet_length d).1)

boost_table : holds_under (λ x. u8 (bit_or x 0x03) % 4 == 3) 256 ≡ true
unfolding holds_under
boost_table = refl

-- The two low bits are set.
lna_boost : {x : ℕ} → x < 256 → u8 (bit_or x 0x03) % 4 ≡ 3
lna_boost {x} h = (==_iff _ 3).0 (from_table (λ y. u8 (bit_or y 0x03) % 4 == 3) 256 boost_table h)

module _ (b : Board) where
  -- The transceiver after `k` looks at the version that found 0.
  abbrev pub after_probes : ℕ → b.Chip → b.Chip
  after_probes zero c = c
  after_probes (suc k) c = after_probes k (b.task_delay 2 (read_reg b 0x42 c).1)

  abbrev pub version : b.Chip → ℕ
  version c = (read_reg b 0x42 c).0

  -- The transceiver when the loop of `lora_init` starts.
  abbrev pub first_look : b.Chip → b.Chip
  first_look c = idle b (reset b (b.setup spi_bus_add_device (open_bus b c)))

  probe-eq :
      (k left i : ℕ) (c : b.Chip)
      → k < left
      → ((j : ℕ) → j < k → version (after_probes j c) ≡ 0)
      → version (after_probes k c) ≢ 0
      → (probe b left i c).0 ≡ i + k + 1
  unfolding probe
  probe-eq k zero i c h silent answers = absurd (omega arith)
  probe-eq zero (suc left) i c h silent answers = ground arith
  probe-eq (suc k) (suc left) i c h silent answers = ground (
    arith,
    silent 0 (omega arith),
    probe-eq k left (i + 1) (b.task_delay 2 (read_reg b 0x42 c).1) (omega arith)
        (λ j g. silent (suc j) (omega arith)) answers,
  )

  -- The transceiver as the end of `lora_init` sets it up: in standby, PA_BOOST at 17 dBm, the signal
  -- of the LNA boosted, both parts of the FIFO from address 0 on, automatic gain, and DIO0 for
  -- received packets.
  abbrev pub IsConfigured : IsTransceiver b → b.Chip → Type 0
  IsConfigured t c =
      (t.registers c 0x01 ≡ 0x81)
      × (t.registers c 0x09 ≡ 0x80 + (17 - 2))
      × (t.registers c 0x0c % 4 ≡ 3)
      × (t.registers c 0x0e ≡ 0)
      × (t.registers c 0x0f ≡ 0)
      × (t.registers c 0x26 ≡ 4)
      × (t.registers c 0x40 ≡ 0)

  configure-IsConfigured : (t : IsTransceiver b) (c : b.Chip) → IsConfigured t (configure b c)
  unfolding configure idle set_tx_power sleep
  configure-IsConfigured t c =
      rw
        (
          registers-write_reg b t 0x01 (omega arith),
          registers-write_reg b t 0x09 (omega arith),
          registers-write_reg b t 0x26 (omega arith),
          registers-modify_reg b t 0x0c (omega arith) refl,
          registers-write_reg b t 0x0e (omega arith),
          registers-write_reg b t 0x0f (omega arith),
          registers-write_reg b t 0x01 (omega arith),
          registers-write_reg b t 0x40 (omega arith),
        )
        (refl, refl, lna_boost (t.byte _ 0x0c), refl, refl, refl, refl)

  -- `lora_init`, when the bus comes up and the transceiver answers with a version at look `k`,
  -- counted from 0, and not before: if `k` is below 99, it succeeds and leaves the transceiver in
  -- standby and configured, with the LNA boosted, both parts of the FIFO from address 0 on, automatic
  -- gain, DIO0 for received packets, and PA_BOOST at 17 dBm; an answer at the last of the 100 looks is
  -- reported as a transceiver not found.
  pub init_lem :
      (t : IsTransceiver b) (k : ℕ) (c : b.Chip)
      → k < 100
      → ((j : ℕ) → j < k → version (after_probes j (first_look c)) ≡ 0)
      → version (after_probes k (first_look c)) ≢ 0
      → ((k < 99) × ((init b 0 0 c).0 ≡ init_ok) × IsConfigured t (init b 0 0 c).1)
        ⊎ ((k ≡ 99) × ((init b 0 0 c).0 ≡ not_found))
  unfolding init
  init_lem t k c h silent answers =
      let last : (probe b 100 0 (first_look c)).0 ≡ 0 + k + 1 =
        probe-eq k 100 0 (first_look c) h silent answers in
      elim (Bool-cases (ltb k 99)) [
        | inl early ↦
            let found : leb 100 (probe b 100 0 (first_look c)).0 ≡ false = ground (arith, last) in
            inl (ground arith, rw (found, init), rw (found, init) (configure-IsConfigured t _))
        | inr late ↦
            let lost : leb 100 (probe b 100 0 (first_look c)).0 ≡ true = ground (arith, last) in
            inr (ground arith, rw (lost, init))
      ]
