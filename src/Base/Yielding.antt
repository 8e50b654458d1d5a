-- ===== src/Base/Yielding.antt =====
-- Runs that can only abort, which `Ok` excludes, or end in a known state.
use mathlib.Core.Path.{◌≡◌, refl, sym, ap, ◌∙◌, subst}
use mathlib.Core.Logic.{◌⊎◌, inl, inr}
use mathlib.Core.Bool.{Bool, true, false}
use mathlib.Core.Option.{none, some}
use dmesh_l.Base.Tests.{if◌then◌else◌}
use dmesh_l.Base.Memory.{M, ◌>>◌, pure, modify, choose}
use dmesh_l.Base.Keeping.{After, Keeps}

pub record Yields {S : Type 0} (Ok : Type 0) (m : M S (Unit {0})) (f : S → S) : Type 0 where
  pub either : (s : S) → ((¬ Ok) × (m s ≡ none)) ⊎ (m s ≡ some (tt, f s))

module _ {S : Type 0} {Ok : Type 0} where
  pub seq-Yields :
      {m k : M S (Unit {0})} {f g : S → S}
      → Yields Ok m f
      → Yields Ok k g
      → Yields Ok (m >> k) (λ s. g (f s))
  seq-Yields {m} {k} {f} {g} hm hk = record {
    either = λ s. elim (hm.either s) [
      | inl h ↦ inl (h.0, ap (λ o. elim o [ none ↦ none | some (a, t) ↦ k t ]) h.1)
      | inr e ↦ elim (hk.either (f s)) [
        | inl h ↦ inl (h.0, ap (λ o. elim o [ none ↦ none | some (a, t) ↦ k t ]) e ∙ h.1)
        | inr e' ↦ inr (ap (λ o. elim o [ none ↦ none | some (a, t) ↦ k t ]) e ∙ e')
      ]
    ];
  }

  -- The same state, written otherwise.
  pub Yields-eq :
      {m : M S (Unit {0})} {f g : S → S} → Yields Ok m f → ((s : S) → f s ≡ g s) → Yields Ok m g
  Yields-eq h same = record {
    either = λ s. elim (h.either s) [
      | inl a ↦ inl a
      | inr e ↦ inr (e ∙ ap (λ t. some (tt, t)) (same s))
    ];
  }

  -- A run that always ends.
  pub ends-Yields :
      {m : M S (Unit {0})} {f : S → S} → ((s : S) → m s ≡ some (tt, f s)) → Yields Ok m f
  ends-Yields h = record { either = λ s. inr (h s) }

  pub modify-Yields : (f : S → S) → Yields Ok (modify f) f
  modify-Yields f = record { either = λ s. inr refl }

  pub pure-Yields : Yields Ok (pure tt) (λ (s : S). s)
  pure-Yields = record { either = λ s. inr refl }

  pub choose-Yields :
      {m k : M S (Unit {0})} {f g : S → S} (test : S → Bool)
      → Yields Ok m f
      → Yields Ok k g
      → Yields Ok (choose test m k) (λ s. if test s then f s else g s)
  choose-Yields {m} {k} {f} {g} test hm hk = record { either = λ s. go (test s) s }
    where
      go :
          (b : Bool) (s : S)
          → ((¬ Ok) × ((if b then m s else k s) ≡ none))
            ⊎ ((if b then m s else k s) ≡ some (tt, (if b then f s else g s)))
      go true s = hm.either s
      go false s = hk.either s

  -- The run ends when nothing makes it abort.
  pub yields :
      {m : M S (Unit {0})} {f : S → S} → Yields Ok m f → Ok → (s : S) → m s ≡ some (tt, f s)
  yields h ok s = elim (h.either s) [ inl a ↦ absurd (a.0 ok) | inr e ↦ e ]

  pub Yields-Keeps :
      {P : S → Type 0} {m : M S (Unit {0})} {f : S → S}
      → Yields Ok m f
      → ((s : S) → P s → P (f s))
      → Keeps P m
  Yields-Keeps {P} h keep = record {
    holds = λ s p. elim (h.either s) [
      | inl a ↦ subst (After P) (sym a.1) tt
      | inr e ↦ subst (After P) (sym e) (keep s p)
    ];
  }
