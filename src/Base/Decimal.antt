-- ===== src/Base/Decimal.antt =====
-- Decimal numerals, as printf writes them.
use Prim.Native.Nat.{ℕ, zero, suc, ◌+◌, ◌-◌, ◌*◌, ◌/◌, ◌%◌, ◌<◌}
use mathlib.Core.Path.{◌≡◌, refl}
use mathlib.Core.Logic.{inl, inr}
use mathlib.Core.List.{List, [], ◌∷◌, ◌++◌}
use native.Mathlib.Omega.{arith}
use dmesh_l.Base.Int.{ℤ, pos, negsuc}
use dmesh_l.Base.Tests.{ltb, if◌then◌else◌, Bool-cases}

-- The digits of `n`, with fuel for at least as many.
unfoldable pub digits : (fuel n : ℕ) → List ℕ
digits zero n = []
digits (suc fuel) n =
    let rest = digits fuel (n / 10) in
    if ltb n 10 then (b'0' + n) ∷ [] else rest ++ (b'0' + n % 10) ∷ []

-- `%u`
unfoldable pub decimal : ℕ → List ℕ
unfolding digits
decimal n = digits (suc n) n

-- The number that a numeral stands for, behind `acc`.
unfoldable pub numeral_value : (acc : ℕ) → List ℕ → ℕ
numeral_value acc [] = acc
numeral_value acc (c ∷ cs) = numeral_value (acc * 10 + (c - b'0')) cs

numeral_value-append :
    (acc : ℕ) (xs : List ℕ) (c : ℕ)
    → numeral_value acc (xs ++ c ∷ []) ≡ numeral_value acc xs * 10 + (c - b'0')
unfolding numeral_value
numeral_value-append acc [] c = refl
numeral_value-append acc (x ∷ xs) c = numeral_value-append (acc * 10 + (x - b'0')) xs c

numeral_value-digits : (fuel n : ℕ) → n < fuel → numeral_value 0 (digits fuel n) ≡ n
unfolding digits numeral_value
numeral_value-digits zero n h = absurd (omega arith)
numeral_value-digits (suc fuel) n h = elim (Bool-cases (ltb n 10)) [
  | inl small ↦ rw small (omega arith)
  | inr large ↦
      let lower : n / 10 < fuel = ground arith in
      rw large (
        omega (
          arith,
          numeral_value-append 0 (digits fuel (n / 10)) (b'0' + n % 10),
          numeral_value-digits fuel (n / 10) lower,
        ))
]

pub numeral_value-decimal : (n : ℕ) → numeral_value 0 (decimal n) ≡ n
unfolding decimal
numeral_value-decimal n = numeral_value-digits (suc n) n (omega arith)

-- `%d` and `%lld` of a signed value.
unfoldable pub signed_text : ℤ → List ℕ
signed_text (pos n) = decimal n
signed_text (negsuc n) = b'-' ∷ decimal (suc n)
