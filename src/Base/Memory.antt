-- ===== src/Base/Memory.antt =====
-- Computations over a state that may fault: an access outside an array, which C leaves undefined.
use Prim.Native.Nat.{ℕ, ◌+◌}
use mathlib.Core.Bool.{Bool}
use mathlib.Core.List.{List, ◌++◌}
use mathlib.Core.Path.{◌≡◌, refl, ap, ◌∙◌}
use mathlib.Core.Option.{Option, none, some}
use dmesh_l.Base.Tests.{leb, if◌then◌else◌}
use dmesh_l.Base.Lists.{length, take, drop}

-- `none` is the fault.
abbrev pub M : Type 0 → Type 0 → Type 0
M S A = S → Option (A × S)

infixl 5 ◌>>=◌ ◌>>◌
abbrev pub ◌>>=◌ : {S A B : Type 0} → M S A → (A → M S B) → M S B
◌>>=◌ m f s = elim (m s) [ none ↦ none | some (a, t) ↦ f a t ]

abbrev pub ◌>>◌ : {S B : Type 0} → M S (Unit {0}) → M S B → M S B
◌>>◌ m k s = elim (m s) [ none ↦ none | some (a, t) ↦ k t ]

-- A run whose first part is known.
pub bind-then :
    {S A B : Type 0} (m : M S A) (k : A → M S B) {s t : S} {a : A} {r : Option (B × S)}
    → m s ≡ some (a, t)
    → k a t ≡ r
    → (m >>= k) s ≡ r
bind-then m k e rest = ap (λ o. elim o [ none ↦ none | some (a, t) ↦ k a t ]) e ∙ rest

pub seq-then :
    {S B : Type 0} (m : M S (Unit {0})) (k : M S B) {s t : S} {r : Option (B × S)}
    → m s ≡ some (tt, t)
    → k t ≡ r
    → (m >> k) s ≡ r
seq-then m k e rest = ap (λ o. elim o [ none ↦ none | some (a, t) ↦ k t ]) e ∙ rest

-- A run whose first part faults.
pub bind-none :
    {S A B : Type 0} (m : M S A) (k : A → M S B) {s : S} → m s ≡ none → (m >>= k) s ≡ none
bind-none m k e = ap (λ o. elim o [ none ↦ none | some (a, t) ↦ k a t ]) e

pub seq-none :
    {S B : Type 0} (m : M S (Unit {0})) (k : M S B) {s : S} → m s ≡ none → (m >> k) s ≡ none
seq-none m k e = ap (λ o. elim o [ none ↦ none | some (a, t) ↦ k t ]) e

-- A run whose second part faults everywhere.
pub seq-fails :
    {S B : Type 0} (m : M S (Unit {0})) (k : M S B) (s : S)
    → ((t : S) → k t ≡ none)
    → (m >> k) s ≡ none
seq-fails {S} {B} m k s h = go (m s)
  where
    go : (o : Option (Unit {0} × S)) → elim o [ none ↦ none | some (a, t) ↦ k t ] ≡ none
    go none = refl
    go (some (a, t)) = h t

abbrev pub pure : {S A : Type 0} → A → M S A
pure a s = some (a, s)

-- `modify f` is a run of assignments that cannot fault.
abbrev pub modify : {S : Type 0} → (S → S) → M S (Unit {0})
modify f s = some (tt, f s)

abbrev pub fault : {S A : Type 0} → M S A
fault s = none

-- The state after a run, if it does not fault.
abbrev pub final : {S A : Type 0} → Option (A × S) → S → S
final none s = s
final (some (a, t)) s = t

abbrev pub lift_option : {S A : Type 0} → Option A → M S A
lift_option none s = none
lift_option (some a) s = some (a, s)

-- The `n` elements from index `i`, as a `memcpy` reads them; `none` if the array ends before.
abbrev pub slice : {A : Type 0} → List A → ℕ → ℕ → Option (List A)
slice xs i n = if leb (i + n) (length xs) then some (take n (drop i xs)) else none

-- `memcpy(dst + i, src, length src)` inside the array `dst`.
abbrev pub overwrite : {A : Type 0} → List A → ℕ → List A → List A
overwrite dst i src = take i dst ++ (src ++ drop (i + length src) dst)

-- `if (test) m else n`, on the state as it is then.
abbrev pub choose : {S : Type 0} → (S → Bool) → M S (Unit {0}) → M S (Unit {0}) → M S (Unit {0})
choose test m n s = if test s then m s else n s

abbrev pub when : {S : Type 0} → (S → Bool) → M S (Unit {0}) → M S (Unit {0})
when test m = choose test m (pure tt)

-- A run that depends on the state at its start.
abbrev pub with_state : {S A : Type 0} → (S → M S A) → M S A
with_state f s = f s s
