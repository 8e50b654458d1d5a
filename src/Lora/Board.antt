-- ===== src/Lora/Board.antt =====
-- What esp32/components/l2lora/lora_drv.c is given: the GPIO, SPI and delay calls of the board, and
-- what the driver relies on of the SX127x transceiver behind them (its data sheet).
use dmesh_l.Base.{
  ℕ, zero, suc, ◌+◌, ◌<◌, ◌≡◌, ◌≢◌, Bool, true, false, ◌==◌, ◌||◌, not, if◌then◌else◌, u8, List, [],
  ◌∷◌,
}

-- The calls of `lora_init` that set the pins and the bus up.
pub data Setup : Type 0 where
  gpio_pad_select_gpio : (pin : ℕ) → Setup
  gpio_set_direction_output : (pin : ℕ) → Setup
  gpio_set_direction_input : (pin : ℕ) → Setup
  spi_bus_initialize : Setup
  spi_bus_add_device : Setup
  gpio_config_posedge : (pin : ℕ) → Setup
  gpio_install_isr_service : Setup
  gpio_isr_handler_add : (pin : ℕ) → Setup

-- `Chip` is the state of the transceiver and of the pins.
pub record Board : Type 1 where
  pub Chip : Type 0
  pub gpio_set_level : (pin level : ℕ) → Chip → Chip
  -- spi_device_transmit of two bytes; the result is the second byte received.
  pub transmit : (first second : ℕ) → Chip → ℕ × Chip
  pub task_delay : (ticks : ℕ) → Chip → Chip
  pub setup : Setup → Chip → Chip

-- The pins of lora_drv.c.
abbrev pub cs_gpio : ℕ
cs_gpio = 18

abbrev pub rst_gpio : ℕ
rst_gpio = 14

abbrev pub dio0_gpio : ℕ
dio0_gpio = 26

-- A register file: what was last written to each register that keeps its value.
abbrev pub Registers : Type 0
Registers = ℕ → ℕ

abbrev pub update : (ℕ → ℕ) → ℕ → ℕ → ℕ → ℕ
update f r v q = if q == r then v else f q

-- The FIFO port, and the registers that the transceiver sets by itself, keep no written value.
abbrev pub is_kept : ℕ → Bool
is_kept r = not (
    r == 0x00
    || r == 0x10
    || r == 0x12
    || r == 0x13
    || r == 0x19
    || r == 0x1a
    || r == 0x2c
    || r == 0x42)

-- Registers that read back what was written: neither the operating mode, which falls back to
-- standby by itself, nor the FIFO pointer.
abbrev pub is_config : ℕ → Bool
is_config r = if r == 0x01 || r == 0x0d then false else is_kept r

-- `count` bytes of the memory from `p` on, going round at 256.
abbrev pub window : (ℕ → ℕ) → (p count : ℕ) → List ℕ
window memory p zero = []
window memory p (suc count) = memory (u8 p) ∷ window memory (p + 1) count

-- An access to the FIFO port moves the FIFO pointer.
abbrev pub bump : Registers → Registers
bump f = update f 0x0d (u8 (f 0x0d + 1))

abbrev pub after_write : ℕ → ℕ → Registers → Registers
after_write r v f = if r == 0x00 then bump f else if is_kept r then update f r v else f

abbrev pub after_read : ℕ → Registers → Registers
after_read r f = if r == 0x00 then bump f else f

-- MODE_RX_CONTINUOUS and MODE_RX_SINGLE, in long range mode.
abbrev pub is_receiving : Registers → Bool
is_receiving f = f 0x01 == 0x85 || f 0x01 == 0x86

-- What the data sheet says of the transceiver, and of its pins: a byte goes to and from a register,
-- bit 7 of the first byte marks a write, and the FIFO port reaches the memory at the pointer. While
-- it receives, the transceiver may write to the memory.
pub record IsTransceiver (b : Board) : Type 0 where
  pub registers : b.Chip → Registers
  pub memory : b.Chip → ℕ → ℕ
  pub byte : (c : b.Chip) (r : ℕ) → registers c r < 256
  pub registers-select :
      (l : ℕ) (c : b.Chip) → registers (b.gpio_set_level cs_gpio l c) ≡ registers c
  pub memory-select : (l : ℕ) (c : b.Chip) → memory (b.gpio_set_level cs_gpio l c) ≡ memory c
  pub registers-delay : (n : ℕ) (c : b.Chip) → registers (b.task_delay n c) ≡ registers c
  pub memory-delay :
      (n : ℕ) (c : b.Chip)
      → is_receiving (registers c) ≡ false
      → memory (b.task_delay n c) ≡ memory c
  pub registers-write :
      (r v : ℕ) (c : b.Chip)
      → r < 128
      → v < 256
      → registers (b.transmit (128 + r) v c).1 ≡ after_write r v (registers c)
  pub registers-read :
      (r : ℕ) (c : b.Chip)
      → r < 128
      → registers (b.transmit r 0xff c).1 ≡ after_read r (registers c)
  pub value-read :
      (r : ℕ) (c : b.Chip) → r < 128 → is_config r ≡ true → (b.transmit r 0xff c).0 ≡ registers c r
  pub value-fifo :
      (c : b.Chip)
      → is_receiving (registers c) ≡ false
      → (b.transmit 0x00 0xff c).0 ≡ memory c (registers c 0x0d)
  pub memory-fifo :
      (v : ℕ) (c : b.Chip)
      → v < 256
      → is_receiving (registers c) ≡ false
      → memory (b.transmit 128 v c).1 ≡ update (memory c) (registers c 0x0d) v
  pub memory-write :
      (r v : ℕ) (c : b.Chip)
      → r < 128
      → r ≢ 0
      → is_receiving (registers c) ≡ false
      → memory (b.transmit (128 + r) v c).1 ≡ memory c
  pub memory-read :
      (r : ℕ) (c : b.Chip)
      → r < 128
      → is_receiving (registers c) ≡ false
      → memory (b.transmit r 0xff c).1 ≡ memory c
