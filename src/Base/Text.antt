-- ===== src/Base/Text.antt =====
-- C strings as their bytes.
use Prim.Native.Nat.{ℕ, zero, suc}
use mathlib.Core.Path.{◌≡◌, refl, ap}
use mathlib.Core.Logic.{◌≢◌}
use dmesh_l.Base.Lists.{take, replicate}
use Prim.Native.Char.{code}
use Prim.Native.String.{String}
use mathlib.Core.List.{List, [], ◌∷◌, ◌++◌}

-- The bytes of an ASCII literal.
abbrev pub codes : String → List ℕ
codes String.[] = []
codes (String.◌∷◌ c s) = code c ∷ codes s

-- The bytes of a C string up to its terminator.
abbrev pub c_string : List ℕ → List ℕ
c_string [] = []
c_string (zero ∷ cs) = []
c_string (suc c ∷ cs) = suc c ∷ c_string cs

-- A C string has no zero inside.
abbrev pub NoZero : List ℕ → Type 0
NoZero [] = Unit {0}
NoZero (c ∷ cs) = (c ≢ 0) × NoZero cs

c_string-zeros : (n : ℕ) → c_string (replicate n 0) ≡ []
c_string-zeros zero = refl
c_string-zeros (suc n) = refl

pub c_string-append : (cs : List ℕ) (n : ℕ) → NoZero cs → c_string (cs ++ replicate n 0) ≡ cs
c_string-append [] n h = c_string-zeros n
c_string-append (zero ∷ cs) n h = absurd (h.0 refl)
c_string-append (suc c ∷ cs) n h = ap (◌∷◌ (suc c)) (c_string-append cs n h.1)

pub take-NoZero : (n : ℕ) (cs : List ℕ) → NoZero cs → NoZero (take n cs)
take-NoZero zero cs h = tt
take-NoZero (suc n) [] h = tt
take-NoZero (suc n) (c ∷ cs) h = (h.0, take-NoZero n cs h.1)
