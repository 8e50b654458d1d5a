-- ===== src/Lora/Transfer.antt =====
-- What one register access of lora_drv.c does to the transceiver.
use dmesh_l.Base.{
  ℕ, ◌+◌, ◌<◌, ◌≡◌, ◌≢◌, refl, ◌∙◌, ap, true, false, arith, u8, bit_or, ◌==◌, holds_under,
  from_table, ==_iff,
}
use dmesh_l.Lora.Board.{
  Board, IsTransceiver, cs_gpio, update, after_write, after_read, is_config, is_receiving,
}
use dmesh_l.Lora.Driver.{write_reg, read_reg, modify_reg}

write_mark_table : holds_under (λ r. u8 (bit_or 0x80 r) == 128 + r) 128 ≡ true
unfolding holds_under
write_mark_table = refl

-- Bit 7 marks a write, and the address stays.
write_mark : (r : ℕ) → r < 128 → u8 (bit_or 0x80 r) ≡ 128 + r
write_mark r h = (==_iff _ (128 + r)).0 (from_table _ 128 write_mark_table h)

module _ (b : Board) (t : IsTransceiver b) where
  pub registers-write_reg :
      (r : ℕ) (h : r < 128) (v : ℕ) (c : b.Chip)
      → t.registers (write_reg b r v c) ≡ after_write r (u8 v) (t.registers c)
  unfolding write_reg
  registers-write_reg r h v c =
      rw (write_mark r h, write_reg)
        (t.registers-select 1 _
          ∙ t.registers-write r (u8 v) _ h (omega arith)
          ∙ ap (after_write r (u8 v)) (t.registers-select 0 c))

  pub registers-read_reg :
      (r : ℕ) (h : r < 128) (c : b.Chip)
      → t.registers (read_reg b r c).1 ≡ after_read r (t.registers c)
  unfolding read_reg
  registers-read_reg r h c =
      let same : u8 r ≡ r = omega arith in
      rw same (
        t.registers-select 1 _
        ∙ t.registers-read r _ h
        ∙ ap (after_read r) (t.registers-select 0 c))

  pub value-read_reg :
      (r : ℕ) (h : r < 128) (k : is_config r ≡ true) (c : b.Chip)
      → (read_reg b r c).0 ≡ t.registers c r
  unfolding read_reg
  value-read_reg r h k c =
      let same : u8 r ≡ r = omega arith in
      rw same (t.value-read r _ h k ∙ ap (λ f. f r) (t.registers-select 0 c))

  -- A register that reads back, changed through `f`; nothing else changes.
  pub registers-modify_reg :
      (r : ℕ) (h : r < 128) (k : is_config r ≡ true) (f : ℕ → ℕ) (c : b.Chip)
      → t.registers (modify_reg b r f c)
        ≡ after_write r (u8 (f (t.registers c r))) (after_read r (t.registers c))
  unfolding modify_reg
  registers-modify_reg r h k f c =
      rw (registers-write_reg r h (f (read_reg b r c).0) (read_reg b r c).1, value-read_reg r h k c)
        (ap (after_write r (u8 (f (t.registers c r)))) (registers-read_reg r h c))

  receiving-select :
      (l : ℕ) (c : b.Chip)
      → is_receiving (t.registers c) ≡ false
      → is_receiving (t.registers (b.gpio_set_level cs_gpio l c)) ≡ false
  receiving-select l c h = rw (t.registers-select l c) h

  -- Outside the receive modes an access of another register leaves the memory alone.
  pub memory-write_reg :
      (r : ℕ) (h : r < 128) (ne : r ≢ 0) (v : ℕ) (c : b.Chip)
      → is_receiving (t.registers c) ≡ false
      → t.memory (write_reg b r v c) ≡ t.memory c
  unfolding write_reg
  memory-write_reg r h ne v c q =
      rw (write_mark r h, write_reg)
        (t.memory-select 1 _
          ∙ t.memory-write r (u8 v) _ h ne (receiving-select 0 c q)
          ∙ t.memory-select 0 c)

  pub memory-read_reg :
      (r : ℕ) (h : r < 128) (c : b.Chip)
      → is_receiving (t.registers c) ≡ false
      → t.memory (read_reg b r c).1 ≡ t.memory c
  unfolding read_reg
  memory-read_reg r h c q =
      let same : u8 r ≡ r = omega arith in
      rw same
        (t.memory-select 1 _ ∙ t.memory-read r _ h (receiving-select 0 c q) ∙ t.memory-select 0 c)

  -- A write to the FIFO port stores at the pointer.
  pub memory-fifo_write :
      (v : ℕ) (c : b.Chip)
      → is_receiving (t.registers c) ≡ false
      → t.memory (write_reg b 0x00 v c) ≡ update (t.memory c) (t.registers c 0x0d) (u8 v)
  unfolding write_reg
  memory-fifo_write v c q =
      t.memory-select 1 _
      ∙ t.memory-fifo (u8 v) _ (omega arith) (receiving-select 0 c q)
      ∙ rw (t.memory-select 0 c, t.registers-select 0 c)

  -- A read of the FIFO port fetches from the pointer.
  pub value-fifo_read :
      (c : b.Chip)
      → is_receiving (t.registers c) ≡ false
      → (read_reg b 0x00 c).0 ≡ t.memory c (t.registers c 0x0d)
  unfolding read_reg
  value-fifo_read c q =
      t.value-fifo _ (receiving-select 0 c q) ∙ rw (t.memory-select 0 c, t.registers-select 0 c)
