-- ===== src/Lora/Config.antt =====
-- The radio settings behind the registers of lora_drv.c, and what each routine does to them.
use dmesh_l.Base.{
  ℕ, ◌+◌, ◌-◌, ◌*◌, ◌/◌, ◌%◌, ◌≤◌, ◌≡◌, refl, Bool, true, false, arith, ltb, leb, Bool-cases, inl,
  inr, List, [], ◌∷◌, ◌==◌, if◌then◌else◌,
}
use dmesh_l.Lora.Board.{Board, IsTransceiver, Registers}
use dmesh_l.Lora.Driver.{
  bandwidth_index, set_tx_power, set_spreading_factor, set_bandwidth, set_coding_rate,
  set_preamble_length, enable_crc, disable_crc, invert_iq, idle, sleep, receive,
}
use dmesh_l.Lora.Transfer.{registers-write_reg, registers-modify_reg}
use dmesh_l.Lora.Fields.{high_half, coding_field, clear_two, set_two, power_field, nibble_mask}

-- What the fields of the configuration registers mean.
pub record Settings : Type 0 where
  pub mode : ℕ
  pub carrier : ℕ
  pub power : ℕ
  pub preamble : ℕ
  pub bandwidth : ℕ
  pub coding : ℕ
  pub implicit : ℕ
  pub spreading : ℕ
  pub continuous : ℕ
  pub crc : ℕ
  pub symbol_timeout : ℕ
  pub payload_length : ℕ
  pub optimize : ℕ
  pub threshold : ℕ
  pub invert : ℕ
  pub invert2 : ℕ
  pub sync_word : ℕ

unfoldable pub settings : Registers → Settings
settings f = record {
  mode = f 0x01;
  carrier = f 0x06 * 65536 + f 0x07 * 256 + f 0x08;
  power = f 0x09;
  preamble = f 0x20 * 256 + f 0x21;
  bandwidth = f 0x1d / 16;
  coding = f 0x1d % 16 / 2;
  implicit = f 0x1d % 2;
  spreading = f 0x1e / 16;
  continuous = f 0x1e % 16 / 8;
  crc = f 0x1e % 8 / 4;
  symbol_timeout = f 0x1e % 4;
  payload_length = f 0x22;
  optimize = f 0x31;
  threshold = f 0x37;
  invert = f 0x33;
  invert2 = f 0x3b;
  sync_word = f 0x39;
}

-- A value forced into a range.
abbrev pub clamp : ℕ → ℕ → ℕ → ℕ
clamp lo hi x = if ltb x lo then lo else if ltb hi x then hi else x

-- The bandwidths of the transceiver in Hz, less the widest.
abbrev pub bandwidths : List ℕ
bandwidths = 7800 ∷ 10400 ∷ 15600 ∷ 20800 ∷ 31250 ∷ 41700 ∷ 62500 ∷ 125000 ∷ 250000 ∷ []

-- How many of them are below `n`.
abbrev pub narrower : ℕ → List ℕ → ℕ
narrower n [] = 0
narrower n (w ∷ ws) = (if ltb w n then 1 else 0) + narrower n ws

bandwidth_index_lem : (n : ℕ) → bandwidth_index n ≡ narrower n bandwidths
unfolding bandwidth_index
bandwidth_index_lem n = ground arith

bandwidth_index-le : (n : ℕ) → bandwidth_index n ≤ 9
unfolding bandwidth_index
bandwidth_index-le n = ground arith

module _ (b : Board) (t : IsTransceiver b) where
  abbrev pub settings_of : b.Chip → Settings
  settings_of c = settings (t.registers c)

  -- The coding rate is stored as the clamped denominator less 4, and no other setting changes.
  pub set_coding_rate_lem :
      (n : ℕ) (c : b.Chip)
      → settings_of (set_coding_rate b n c) ≡ record (settings_of c) { coding = clamp 5 8 n - 4 }
  unfolding settings set_coding_rate
  set_coding_rate_lem n c =
      rw (registers-modify_reg b t 0x1d (omega arith) refl)
        (ground (arith, t.byte c 0x1d, coding_field (t.registers c 0x1d) (clamp 5 8 n - 4)))

  -- The spreading factor is stored clamped to 6 to 12, with the detection settings that go with it,
  -- and no other setting changes.
  pub set_spreading_factor_lem :
      (n : ℕ) (c : b.Chip)
      → settings_of (set_spreading_factor b n c) ≡ record (settings_of c) {
        spreading = clamp 6 12 n;
        optimize = if leb n 6 then 0xc5 else 0xc3;
        threshold = if leb n 6 then 0x0c else 0x0a;
      }
  unfolding settings set_spreading_factor
  set_spreading_factor_lem n c = elim (Bool-cases (leb n 6)) [
    | inl least ↦
        let e : (clamp 6 12 n == 6) ≡ true = ground arith in
        rw
          (
            e,
            set_spreading_factor,
            registers-modify_reg b t 0x1e (omega arith) refl,
            registers-write_reg b t 0x37 (omega arith),
            registers-write_reg b t 0x31 (omega arith),
          )
          (ground (
            arith,
            t.byte c 0x1e,
            nibble_mask (clamp 6 12 n),
            high_half (t.registers c 0x1e) (clamp 6 12 n),
          ))
    | inr more ↦
        let e : (clamp 6 12 n == 6) ≡ false = ground arith in
        rw
          (
            e,
            set_spreading_factor,
            registers-modify_reg b t 0x1e (omega arith) refl,
            registers-write_reg b t 0x37 (omega arith),
            registers-write_reg b t 0x31 (omega arith),
          )
          (ground (
            arith,
            t.byte c 0x1e,
            nibble_mask (clamp 6 12 n),
            high_half (t.registers c 0x1e) (clamp 6 12 n),
          ))
  ]

  -- The bandwidth is stored as the number of the nine bandwidths up to 250 kHz that are narrower
  -- than the one asked for, and no other setting changes.
  pub set_bandwidth_lem :
      (n : ℕ) (c : b.Chip)
      → settings_of (set_bandwidth b n c)
        ≡ record (settings_of c) { bandwidth = narrower n bandwidths }
  unfolding settings set_bandwidth
  set_bandwidth_lem n c = rw (registers-modify_reg b t 0x1d (omega arith) refl) (
      ground (
        arith,
        t.byte c 0x1d,
        bandwidth_index_lem n,
        bandwidth_index-le n,
        high_half (t.registers c 0x1d) (bandwidth_index n),
      ))

  -- The power is stored as PA_BOOST with the clamped level less 2, and no other setting changes.
  pub set_tx_power_lem :
      (n : ℕ) (c : b.Chip)
      → settings_of (set_tx_power b n c)
        ≡ record (settings_of c) { power = 128 + (clamp 2 17 n - 2) }
  unfolding settings set_tx_power
  set_tx_power_lem n c =
      rw (registers-write_reg b t 0x09 (omega arith))
        (ground (arith, power_field (clamp 2 17 n - 2)))

  pub enable_crc_lem :
      (c : b.Chip) → settings_of (enable_crc b c) ≡ record (settings_of c) { crc = 1 }
  unfolding settings enable_crc
  enable_crc_lem c =
      rw (registers-modify_reg b t 0x1e (omega arith) refl)
        (ground (arith, t.byte c 0x1e, set_two (t.registers c 0x1e)))

  pub disable_crc_lem :
      (c : b.Chip) → settings_of (disable_crc b c) ≡ record (settings_of c) { crc = 0 }
  unfolding settings disable_crc
  disable_crc_lem c =
      rw (registers-modify_reg b t 0x1e (omega arith) refl)
        (ground (arith, t.byte c 0x1e, clear_two (t.registers c 0x1e)))

  pub set_preamble_length_lem :
      (n : ℕ) (c : b.Chip)
      → settings_of (set_preamble_length b n c) ≡ record (settings_of c) { preamble = n % 65536 }
  unfolding settings set_preamble_length
  set_preamble_length_lem n c =
      rw (registers-write_reg b t 0x21 (omega arith), registers-write_reg b t 0x20 (omega arith))
        (ground arith)

  pub invert_iq_lem :
      (inv : Bool) (c : b.Chip)
      → settings_of (invert_iq b inv c) ≡ record (settings_of c) {
        invert = if inv then 0x66 else 0x27;
        invert2 = if inv then 0x19 else 0x1d;
      }
  unfolding settings invert_iq
  invert_iq_lem true c =
      rw (registers-write_reg b t 0x3b (omega arith), registers-write_reg b t 0x33 (omega arith))
  invert_iq_lem false c =
      rw (registers-write_reg b t 0x3b (omega arith), registers-write_reg b t 0x33 (omega arith))

  pub mode_lem :
      (c : b.Chip)
      → (settings_of (idle b c) ≡ record (settings_of c) { mode = 0x81 })
        × (settings_of (sleep b c) ≡ record (settings_of c) { mode = 0x80 })
        × (settings_of (receive b c) ≡ record (settings_of c) { mode = 0x85 })
  unfolding settings idle sleep receive
  mode_lem c = (
    rw (registers-write_reg b t 0x01 (omega arith)),
    rw (registers-write_reg b t 0x01 (omega arith)),
    rw (registers-write_reg b t 0x01 (omega arith)),
  )
