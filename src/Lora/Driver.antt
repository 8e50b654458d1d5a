-- ===== src/Lora/Driver.antt =====
-- The register routines of esp32/components/l2lora/lora_drv.c.
use dmesh_l.Base.{
  ℕ, zero, suc, ◌-◌, ◌/◌, Bool, true, false, List, [], ◌∷◌, ltb, leb, ◌==◌, if◌then◌else◌, u8,
  bit_and, bit_or, ◌<<<◌, ◌>>>◌, ℤ, pos, negsuc,
}
use dmesh_l.Lora.Board.{Board, cs_gpio, rst_gpio}

-- `bw` in `lora_set_bandwidth`: the limits are given in kHz in the source, 7.8E3 and so on.
unfoldable pub bandwidth_index : (sbw : ℕ) → ℕ
bandwidth_index sbw =
    if leb sbw 7800
    then 0
    else if leb sbw 10400
    then 1
    else if leb sbw 15600
    then 2
    else if leb sbw 20800
    then 3
    else if leb sbw 31250
    then 4
    else if leb sbw 41700
    then 5
    else if leb sbw 62500
    then 6
    else if leb sbw 125000
    then 7
    else if leb sbw 250000
    then 8
    else 9

module _ (b : Board) where
  -- `lora_write_reg`
  unfoldable pub write_reg : (reg val : ℕ) → b.Chip → b.Chip
  write_reg reg val c =
      b.gpio_set_level cs_gpio 1
        (b.transmit (u8 (bit_or 0x80 reg)) (u8 val) (b.gpio_set_level cs_gpio 0 c)).1

  -- `lora_read_reg`
  unfoldable pub read_reg : (reg : ℕ) → b.Chip → ℕ × b.Chip
  read_reg reg c =
      let (value, c') = b.transmit (u8 reg) 0xff (b.gpio_set_level cs_gpio 0 c) in
      (value, b.gpio_set_level cs_gpio 1 c')

  -- lora_write_reg(reg, f(lora_read_reg(reg)))
  unfoldable pub modify_reg : (reg : ℕ) → (ℕ → ℕ) → b.Chip → b.Chip
  modify_reg reg f c = let (value, c') = read_reg reg c in write_reg reg (f value) c'

  -- `lora_dump_registers`: the values printed, register `0x50 - left` first.
  unfoldable pub dump_from : (left : ℕ) → b.Chip → List ℕ × b.Chip
  dump_from zero c = ([], c)
  dump_from (suc left) c =
      let (value, c') = read_reg (0x50 - suc left) c in
      let (rest, c'') = dump_from left c' in (value ∷ rest, c'')

  unfoldable pub dump_registers : b.Chip → List ℕ × b.Chip
  unfolding dump_from
  dump_registers c = dump_from 0x50 c

  -- `lora_reset`. A tick of the scheduler is a millisecond here.
  unfoldable pub reset : b.Chip → b.Chip
  reset c =
      b.task_delay 20 (b.gpio_set_level rst_gpio 1 (b.task_delay 1 (b.gpio_set_level rst_gpio 0 c)))

  -- `lora_idle`, `lora_sleep`, `lora_receive`: MODE_LONG_RANGE_MODE with a mode.
  unfoldable pub idle : b.Chip → b.Chip
  idle c = write_reg 0x01 0x81 c

  unfoldable pub sleep : b.Chip → b.Chip
  sleep c = write_reg 0x01 0x80 c

  unfoldable pub receive : b.Chip → b.Chip
  receive c = write_reg 0x01 0x85 c

  -- `lora_set_tx_power`. A negative level is clamped to 2, as 0 is.
  unfoldable pub set_tx_power : (level : ℕ) → b.Chip → b.Chip
  set_tx_power level c =
      let clamped = if ltb level 2 then 2 else if ltb 17 level then 17 else level in
      write_reg 0x09 (bit_or 0x80 (clamped - 2)) c

  -- `lora_set_spreading_factor`
  unfoldable pub set_spreading_factor : (sf : ℕ) → b.Chip → b.Chip
  set_spreading_factor sf c =
      let clamped = if ltb sf 6 then 6 else if ltb 12 sf then 12 else sf in
      let c' =
        if clamped == 6
        then write_reg 0x37 0x0c (write_reg 0x31 0xc5 c)
        else write_reg 0x37 0x0a (write_reg 0x31 0xc3 c) in
      modify_reg 0x1e (λ v. bit_or (bit_and v 0x0f) (bit_and (clamped <<< 4) 0xf0)) c'

  -- `lora_set_bandwidth`
  unfoldable pub set_bandwidth : (sbw : ℕ) → b.Chip → b.Chip
  set_bandwidth sbw c = modify_reg 0x1d (λ v. bit_or (bit_and v 0x0f) (bandwidth_index sbw <<< 4)) c

  -- `lora_set_coding_rate`
  unfoldable pub set_coding_rate : (denominator : ℕ) → b.Chip → b.Chip
  set_coding_rate denominator c =
      let clamped = if ltb denominator 5 then 5 else if ltb 8 denominator then 8 else denominator in
      modify_reg 0x1d (λ v. bit_or (bit_and v 0xf1) ((clamped - 4) <<< 1)) c

  -- `lora_set_preamble_length`
  unfoldable pub set_preamble_length : (length : ℕ) → b.Chip → b.Chip
  set_preamble_length length c = write_reg 0x21 (u8 length) (write_reg 0x20 (u8 (length >>> 8)) c)

  -- `lora_set_sync_word`
  unfoldable pub set_sync_word : (sw : ℕ) → b.Chip → b.Chip
  set_sync_word sw c = write_reg 0x39 sw c

  -- `lora_enable_crc`, `lora_disable_crc`
  unfoldable pub enable_crc : b.Chip → b.Chip
  enable_crc c = modify_reg 0x1e (λ v. bit_or v 0x04) c

  unfoldable pub disable_crc : b.Chip → b.Chip
  disable_crc c = modify_reg 0x1e (λ v. bit_and v 0xfb) c

  -- `lora_invert_iq`
  unfoldable pub invert_iq : Bool → b.Chip → b.Chip
  invert_iq inv c =
      if inv
      then write_reg 0x3b 0x19 (write_reg 0x33 0x66 c)
      else write_reg 0x3b 0x1d (write_reg 0x33 0x27 c)

  -- `lora_received`: bit 6 of the interrupt flags.
  unfoldable pub received : b.Chip → Bool × b.Chip
  received c =
      let (irq, c') = read_reg 0x12 c in ((if bit_and irq 0x40 == 0 then false else true), c')

  -- `lora_packet_snr` as it is stored, an `int`: a quarter of the signed byte, cut towards 0.
  unfoldable pub packet_snr : b.Chip → ℤ × b.Chip
  packet_snr c =
      let (value, c') = read_reg 0x19 c in
      (
        (if ltb value 128
            then pos (value / 4)
            else if (256 - value) / 4 == 0
            then pos 0
            else negsuc ((256 - value) / 4 - 1)),
        c',
      )
