-- ===== src/Lora/Sim.antt =====
-- A transceiver to run the model of lora_drv.c on: 256 registers, a memory, and values that it shows
-- in its interrupt flags and its version after some looks.
use dmesh_l.Base.{ℕ, ◌+◌, ◌-◌, ◌<◌, ◌≡◌, refl, true, false, arith, u8, ltb, ◌==◌, if◌then◌else◌}
use dmesh_l.Lora.Board.{Board, IsTransceiver, Registers, update, after_write, after_read}

pub record Sim : Type 0 where
  pub file : ℕ → ℕ
  pub ram : ℕ → ℕ
  pub irq : ℕ
  -- The looks that still find 0.
  pub looks : ℕ

abbrev pub bytes_of : Sim → Registers
bytes_of c r = u8 (c.file r)

abbrev shown : Sim → ℕ → ℕ
shown c value = if c.looks == 0 then value else 0

abbrev read_value : ℕ → Sim → ℕ
read_value r c =
    if r == 0x00
    then c.ram (bytes_of c 0x0d)
    else if r == 0x12
    then shown c c.irq
    else if r == 0x42
    then shown c 0x12
    else bytes_of c r

abbrev after_look : ℕ → Sim → Sim
after_look r c = record c {
  file = after_read r (bytes_of c);
  looks = if r == 0x12 then c.looks - 1 else if r == 0x42 then c.looks - 1 else c.looks;
}

abbrev after_store : ℕ → ℕ → Sim → Sim
after_store r v c = record c {
  file = after_write r (u8 v) (bytes_of c);
  ram = if r == 0x00 then update c.ram (bytes_of c 0x0d) v else c.ram;
}

abbrev exchange : ℕ → ℕ → Sim → ℕ × Sim
exchange first second c =
    if ltb first 128
    then (read_value first c, after_look first c)
    else (0, after_store (first - 128) second c)

abbrev pub sim_board : Board
sim_board = record {
  Chip = Sim;
  gpio_set_level = λ _ _ c. c;
  transmit = exchange;
  task_delay = λ _ c. c;
  setup = λ _ c. c;
}

minus_128 : (r : ℕ) → 128 + r - 128 ≡ r
minus_128 r = omega arith

is_write : (r : ℕ) → ltb (128 + r) 128 ≡ false
is_write r = ground arith

is_read : (r : ℕ) → r < 128 → ltb r 128 ≡ true
is_read r h = ground arith

u8_again : (n : ℕ) → u8 (u8 n) ≡ u8 n
u8_again n = omega arith

stored :
    (r v : ℕ) (c : Sim) (q : ℕ)
    → v < 256
    → u8 (after_write r (u8 v) (bytes_of c) q) ≡ after_write r v (bytes_of c) q
stored r v c q h = ground arith

looked : (r : ℕ) (c : Sim) (q : ℕ) → u8 (after_read r (bytes_of c) q) ≡ after_read r (bytes_of c) q
looked r c q = ground arith

pub sim_IsTransceiver : IsTransceiver sim_board
sim_IsTransceiver = record {
  registers = bytes_of;
  memory = λ c. c.ram;
  byte = λ c r. omega arith;
  registers-select = λ l c. refl;
  memory-select = λ l c. refl;
  registers-delay = λ n c. refl;
  memory-delay = λ n c h. refl;
  registers-write = λ r v c h g. rw (is_write r, minus_128 r) (λ i q. stored r v c q g i);
  registers-read = λ r c h. rw (is_read r h) (λ i q. looked r c q i);
  value-read = λ r c h kept. rw (is_read r h) (ground arith);
  value-fifo = λ c h. refl;
  memory-fifo = λ v c h g. refl;
  memory-write = λ r v c h apart g. rw (is_write r, minus_128 r) (ground arith);
  memory-read = λ r c h g. rw (is_read r h) refl;
}

-- The memory of this transceiver.
pub sim_memory : (c : Sim) → sim_IsTransceiver.memory c ≡ c.ram
unfolding sim_IsTransceiver
sim_memory c = refl
