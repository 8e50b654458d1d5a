-- ===== src/Base/Int.antt =====
-- Signed `int`s. `negsuc n` is -(n + 1).
use Prim.Native.Nat.{ℕ, ◌-◌}
use mathlib.Core.Bool.{Bool, false}
use dmesh_l.Base.Tests.{leb, ltb, ◌==◌, if◌then◌else◌}

pub data ℤ : Type 0 where
  pos : ℕ → ℤ
  negsuc : ℕ → ℤ

-- a - b, as an integer.
abbrev pub sub_ℕ : ℕ → ℕ → ℤ
sub_ℕ a b = if leb b a then pos (a - b) else negsuc (b - a - 1)

-- `i == n` and `i > n` for a constant n ≥ 0.
abbrev pub eq_const : ℤ → ℕ → Bool
eq_const (pos m) n = m == n
eq_const (negsuc m) n = false

abbrev pub gt_const : ℤ → ℕ → Bool
gt_const (pos m) n = ltb n m
gt_const (negsuc m) n = false
