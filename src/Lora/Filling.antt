-- ===== src/Lora/Filling.antt =====
-- What `lora_send_packet` of lora_drv.c puts into the memory and the settings of the transceiver
-- before it waits.
use dmesh_l.Base.{
  ℕ, zero, suc, ◌+◌, ◌≤◌, ◌<◌, ◌≡◌, ◌≢◌, refl, ◌∙◌, ap, ap₂, map, false, some, List, [], ◌∷◌, arith,
  u8, ==_refl, get_elem?, length,
}
use dmesh_l.Lora.Board.{Board, IsTransceiver, update, window, is_receiving}
use dmesh_l.Lora.Driver.{write_reg, idle}
use dmesh_l.Lora.Radio.{fill_fifo, start_packet}
use dmesh_l.Lora.Transfer.{registers-write_reg, memory-write_reg, memory-fifo_write}
use dmesh_l.Lora.Config.{Settings, settings, settings_of}

-- The bytes of a list stand in the memory from `p` on, if the first does and the others follow.
stored_cons :
    (memory : ℕ → ℕ) (x p : ℕ) (buf : List ℕ)
    → memory p ≡ u8 x
    → ((k y : ℕ) → get_elem? buf k ≡ some y → memory (p + 1 + k) ≡ u8 y)
    → (k y : ℕ) → get_elem? (x ∷ buf) k ≡ some y
    → memory (p + k) ≡ u8 y
stored_cons memory x p buf head rest zero y e =
    let same : p + 0 ≡ p = omega arith in rw same (ground arith)
stored_cons memory x p buf head rest (suc k) y e =
    let same : p + suc k ≡ p + 1 + k = omega arith in rw same (rest k y e)

window-map :
    (memory : ℕ → ℕ) (p : ℕ) (buf : List ℕ)
    → p + length buf ≤ 256
    → ((k x : ℕ) → get_elem? buf k ≡ some x → memory (p + k) ≡ u8 x)
    → window memory p (length buf) ≡ map u8 buf
window-map memory p [] fits h = refl
window-map memory p (x ∷ buf) fits h =
    let here : u8 p ≡ p + 0 = omega arith in
    ap₂ ◌∷◌ (ap memory here ∙ h 0 x refl) (
      window-map memory (p + 1) buf (omega arith)
        (λ k y e. let next : p + 1 + k ≡ p + suc k = omega arith in ap memory next ∙ h (suc k) y e))

module _ (b : Board) (t : IsTransceiver b) where
  -- In standby or in transmission the transceiver does not write to its memory.
  pub not_receiving :
      (c : b.Chip) (m : ℕ)
      → t.registers c 0x01 ≡ m
      → m ≢ 0x85
      → m ≢ 0x86
      → is_receiving (t.registers c) ≡ false
  not_receiving c m e h g = ground arith

  fifo_write-registers :
      (x : ℕ) (c : b.Chip)
      → (t.registers (write_reg b 0x00 x c) 0x01 ≡ t.registers c 0x01)
        × (t.registers (write_reg b 0x00 x c) 0x0d ≡ u8 (t.registers c 0x0d + 1))
        × (settings_of b t (write_reg b 0x00 x c) ≡ settings_of b t c)
  unfolding settings
  fifo_write-registers x c = (
    rw (registers-write_reg b t 0x00 (omega arith)),
    rw (registers-write_reg b t 0x00 (omega arith)),
    rw (registers-write_reg b t 0x00 (omega arith)),
  )

  fill_fifo-registers :
      (buf : List ℕ) (c : b.Chip)
      → (t.registers (fill_fifo b buf c) 0x01 ≡ t.registers c 0x01)
        × (settings_of b t (fill_fifo b buf c) ≡ settings_of b t c)
  unfolding fill_fifo
  fill_fifo-registers [] c = (refl, refl)
  fill_fifo-registers (x ∷ buf) c =
      let rest = fill_fifo-registers buf (write_reg b 0x00 x c) in
      let step = fifo_write-registers x c in (rest.0 ∙ step.0, rest.1 ∙ step.2)

  -- From pointer `p` on the bytes are stored one by one; below it nothing changes.
  fill_fifo-memory :
      (buf : List ℕ) (p : ℕ) (c : b.Chip)
      → t.registers c 0x01 ≡ 0x81
      → t.registers c 0x0d ≡ u8 p
      → p + length buf ≤ 256
      → ((i : ℕ) → i < p → t.memory (fill_fifo b buf c) i ≡ t.memory c i)
        × ((k x : ℕ) → get_elem? buf k ≡ some x → t.memory (fill_fifo b buf c) (p + k) ≡ u8 x)
  unfolding fill_fifo
  fill_fifo-memory [] p c standby pointer fits = (λ i h. refl, λ k x e. cc)
  fill_fifo-memory (x ∷ buf) p c standby pointer fits =
      let c' : b.Chip = write_reg b 0x00 x c in
      let step = fifo_write-registers x c in
      let stored : t.memory c' ≡ update (t.memory c) (t.registers c 0x0d) (u8 x) =
        memory-fifo_write b t x c (not_receiving c 0x81 standby (omega arith) (omega arith)) in
      let here : u8 p ≡ p = omega arith in
      let next : t.registers c' 0x0d ≡ u8 (p + 1) = step.1 ∙ omega arith in
      let rest = fill_fifo-memory buf (p + 1) c' (step.0 ∙ standby) next (omega arith) in
      (
        λ i h. rest.0 i (omega arith) ∙ rw (stored, pointer) (ground arith),
        stored_cons (t.memory (fill_fifo b buf c')) x p buf
            (rest.0 p (omega arith) ∙ rw (stored, pointer, here) (rw ==_refl)) rest.1,
      )

  zero_pointer : b.Chip → b.Chip
  zero_pointer c = write_reg b 0x0d 0 (idle b c)

  zero_pointer-registers :
      (c : b.Chip)
      → (t.registers (zero_pointer c) 0x01 ≡ 0x81) × (t.registers (zero_pointer c) 0x0d ≡ 0)
  unfolding zero_pointer idle
  zero_pointer-registers c = (
    rw (registers-write_reg b t 0x0d (omega arith), registers-write_reg b t 0x01 (omega arith)),
    rw (registers-write_reg b t 0x0d (omega arith)),
  )

  start_packet-memory :
      (buf : List ℕ) (c : b.Chip)
      → t.memory (start_packet b buf c) ≡ t.memory (fill_fifo b buf (zero_pointer c))
  unfolding start_packet zero_pointer
  start_packet-memory buf c =
      let start = zero_pointer-registers c in
      let filled : t.registers (fill_fifo b buf (zero_pointer c)) 0x01 ≡ 0x81 =
        (fill_fifo-registers buf (zero_pointer c)).0 ∙ start.0 in
      let sized : t.registers (write_reg b 0x22 (length buf) (fill_fifo b buf (zero_pointer c)))
            0x01
          ≡ 0x81 =
        rw (registers-write_reg b t 0x22 (omega arith)) filled in
      memory-write_reg b t 0x01 (omega arith) (omega arith) 0x83 _
        (not_receiving _ 0x81 sized (omega arith) (omega arith))
      ∙ memory-write_reg b t 0x22 (omega arith) (omega arith) (length buf) _
          (not_receiving _ 0x81 filled (omega arith) (omega arith))

  -- When the transmission starts, the memory holds the packet from address 0 on.
  pub start_packet-window :
      (buf : List ℕ) (c : b.Chip)
      → length buf ≤ 256
      → window (t.memory (start_packet b buf c)) 0 (length buf) ≡ map u8 buf
  start_packet-window buf c fits =
      let start = zero_pointer-registers c in
      let filled = fill_fifo-memory buf 0 (zero_pointer c) start.0 start.1 (omega arith) in
      rw (start_packet-memory buf c)
        (window-map (t.memory (fill_fifo b buf (zero_pointer c))) 0 buf (omega arith) filled.1)

  zero_pointer-settings :
      (c : b.Chip) → settings_of b t (zero_pointer c) ≡ record (settings_of b t c) { mode = 0x81 }
  unfolding settings zero_pointer idle
  zero_pointer-settings c =
      rw (registers-write_reg b t 0x0d (omega arith), registers-write_reg b t 0x01 (omega arith))

  pub start_packet-settings :
      (buf : List ℕ) (c : b.Chip)
      → settings_of b t (start_packet b buf c)
        ≡ record (settings_of b t c) { mode = 0x83; payload_length = u8 (length buf) }
  start_packet-settings buf c =
      let filled : b.Chip = fill_fifo b buf (zero_pointer c) in
      let last : settings_of b t (start_packet b buf c)
          ≡ record (settings_of b t filled) { mode = 0x83; payload_length = u8 (length buf) } =
        unfold settings start_packet zero_pointer in
        rw (
          registers-write_reg b t 0x01 (omega arith),
          registers-write_reg b t 0x22 (omega arith),
        ) in
      last
      ∙ ap {A = Settings} (λ f. record f { mode = 0x83; payload_length = u8 (length buf) })
          ((fill_fifo-registers buf (zero_pointer c)).1 ∙ zero_pointer-settings c)
