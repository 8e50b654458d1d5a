-- ===== src/Lora/Fields.antt =====
-- The bit fields that lora_drv.c reads, masks and writes back, as arithmetic on the register byte.
use dmesh_l.Base.{
  ℕ, ◌+◌, ◌-◌, ◌*◌, ◌/◌, ◌%◌, ◌<◌, ◌≡◌, refl, Bool, true, arith, bit_and, bit_or, ◌==◌, holds_under,
  from_table, ==_iff,
}

-- Every byte, and every value of a four-bit field.
byte_field_sound :
    (p : ℕ → ℕ → Bool) (x k : ℕ)
    → holds_under (λ x. holds_under (p x) 16) 256 ≡ true
    → x < 256
    → k < 16
    → p x k ≡ true
byte_field_sound p x k table hx hk =
    from_table (p x) 16 (from_table (λ x. holds_under (p x) 16) 256 table hx) hk

high_table :
    holds_under (λ x. holds_under (λ k. bit_or (bit_and x 0x0f) (k * 16) == k * 16 + x % 16) 16) 256
    ≡ true
unfolding holds_under
high_table = refl

-- The high half is replaced.
pub high_half : (x k : ℕ) → x < 256 → k < 16 → bit_or (bit_and x 0x0f) (k * 16) ≡ k * 16 + x % 16
high_half x k hx hk = (==_iff _ (k * 16 + x % 16)).0 (byte_field_sound _ x k high_table hx hk)

coding_table :
    holds_under
      (λ x.
        holds_under
          (λ k. bit_or (bit_and x 0xf1) (k % 8 * 2) == x / 16 * 16 + k % 8 * 2 + x % 2)
          16)
      256
    ≡ true
unfolding holds_under
coding_table = refl

-- Bits 1 to 3 are replaced.
pub coding_field :
    (x k : ℕ) → x < 256 → k < 8 → bit_or (bit_and x 0xf1) (k * 2) ≡ x / 16 * 16 + k * 2 + x % 2
coding_field x k hx hk =
    let e : k % 8 ≡ k = omega arith in
    let at_mod : bit_or (bit_and x 0xf1) (k % 8 * 2) ≡ x / 16 * 16 + k % 8 * 2 + x % 2 =
      (==_iff _ (x / 16 * 16 + k % 8 * 2 + x % 2)).0
        (byte_field_sound _ x k coding_table hx (omega arith)) in
    rw e at at_mod

clear_zero_table : holds_under (λ x. bit_and x 0xfe == x - x % 2) 256 ≡ true
unfolding holds_under
clear_zero_table = refl

pub clear_zero : (x : ℕ) → x < 256 → bit_and x 0xfe ≡ x - x % 2
clear_zero x h = (==_iff _ (x - x % 2)).0 (from_table _ 256 clear_zero_table h)

set_zero_table : holds_under (λ x. bit_or x 0x01 == x - x % 2 + 1) 256 ≡ true
unfolding holds_under
set_zero_table = refl

pub set_zero : (x : ℕ) → x < 256 → bit_or x 0x01 ≡ x - x % 2 + 1
set_zero x h = (==_iff _ (x - x % 2 + 1)).0 (from_table _ 256 set_zero_table h)

clear_two_table : holds_under (λ x. bit_and x 0xfb == x - x / 4 % 2 * 4) 256 ≡ true
unfolding holds_under
clear_two_table = refl

pub clear_two : (x : ℕ) → x < 256 → bit_and x 0xfb ≡ x - x / 4 % 2 * 4
clear_two x h = (==_iff _ (x - x / 4 % 2 * 4)).0 (from_table _ 256 clear_two_table h)

set_two_table : holds_under (λ x. bit_or x 0x04 == x - x / 4 % 2 * 4 + 4) 256 ≡ true
unfolding holds_under
set_two_table = refl

pub set_two : (x : ℕ) → x < 256 → bit_or x 0x04 ≡ x - x / 4 % 2 * 4 + 4
set_two x h = (==_iff _ (x - x / 4 % 2 * 4 + 4)).0 (from_table _ 256 set_two_table h)

power_table : holds_under (λ k. bit_or 0x80 k == 128 + k) 16 ≡ true
unfolding holds_under
power_table = refl

pub power_field : (k : ℕ) → k < 16 → bit_or 0x80 k ≡ 128 + k
power_field k h = (==_iff _ (128 + k)).0 (from_table _ 16 power_table h)

nibble_table : holds_under (λ k. bit_and (k * 16) 0xf0 == k * 16) 16 ≡ true
unfolding holds_under
nibble_table = refl

pub nibble_mask : (k : ℕ) → k < 16 → bit_and (k * 16) 0xf0 ≡ k * 16
nibble_mask k h = (==_iff _ (k * 16)).0 (from_table _ 16 nibble_table h)
