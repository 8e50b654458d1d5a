-- ===== src/Base/Keeping.antt =====
-- Runs over a state that keep a predicate on it, whatever they do else; a fault keeps every predicate.
use mathlib.Core.Bool.{Bool, true, false}
use mathlib.Core.Option.{Option, none, some}
use dmesh_l.Base.Tests.{if◌then◌else◌}
use dmesh_l.Base.Memory.{M, ◌>>=◌, ◌>>◌, pure, fault, modify, choose, with_state, lift_option}

-- What a run leaves.
abbrev pub After : {S A : Type 0} → (S → Type 0) → Option (A × S) → Type 0
After P none = Unit {0}
After P (some (a, s)) = P s

-- The run keeps `P`.
pub record Keeps {S A : Type 0} (P : S → Type 0) (m : M S A) : Type 0 where
  pub holds : (s : S) → P s → After P (m s)

module _ {S : Type 0} {P : S → Type 0} where
  pub bind-Keeps :
      {A B : Type 0} {m : M S A} {k : A → M S B}
      → Keeps P m
      → ((a : A) → Keeps P (k a))
      → Keeps P (m >>= k)
  bind-Keeps {A} {B} {m} {k} h g = record { holds = λ s q. go (m s) (h.holds s q) }
    where
      go : (o : Option (A × S)) → After P o → After P (elim o [ none ↦ none | some (a, t) ↦ k a t ])
      go none r = tt
      go (some (a, t)) r = (g a).holds t r

  pub seq-Keeps :
      {B : Type 0} {m : M S (Unit {0})} {k : M S B} → Keeps P m → Keeps P k → Keeps P (m >> k)
  seq-Keeps {B} {m} {k} h g = record { holds = λ s q. go (m s) (h.holds s q) }
    where
      go :
          (o : Option (Unit {0} × S))
          → After P o
          → After P (elim o [ none ↦ none | some (a, t) ↦ k t ])
      go none r = tt
      go (some (a, t)) r = g.holds t r

  pub if-Keeps :
      {A : Type 0} {m n : M S A} (b : Bool) → Keeps P m → Keeps P n → Keeps P (if b then m else n)
  if-Keeps true h g = h
  if-Keeps false h g = g

  pub choose-Keeps :
      {m n : M S (Unit {0})} (test : S → Bool) → Keeps P m → Keeps P n → Keeps P (choose test m n)
  choose-Keeps {m} {n} test h g = record { holds = λ s q. go (test s) s q }
    where
      go : (b : Bool) (s : S) → P s → After P (if b then m s else n s)
      go true s q = h.holds s q
      go false s q = g.holds s q

  pub state-Keeps :
      {A : Type 0} {f : S → M S A} → ((s : S) → Keeps P (f s)) → Keeps P (with_state f)
  state-Keeps h = record { holds = λ s q. (h s).holds s q }

  pub lift-Keeps : {A : Type 0} (o : Option A) → Keeps P (lift_option o)
  lift-Keeps none = record { holds = λ s q. tt }
  lift-Keeps (some a) = record { holds = λ s q. q }

  pub pure-Keeps : {A : Type 0} (a : A) → Keeps P (pure a)
  pure-Keeps a = record { holds = λ s q. q }

  pub fault-Keeps : {A : Type 0} → Keeps {A = A} P fault
  fault-Keeps = record { holds = λ s q. tt }

  -- An assignment that keeps the predicate.
  pub modify-Keeps : (f : S → S) → ((s : S) → P s → P (f s)) → Keeps P (modify f)
  modify-Keeps f h = record { holds = h }
