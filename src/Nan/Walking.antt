-- ===== src/Nan/Walking.antt =====
-- The loop of `handleDAF` ends.
use dmesh_l.Base.{
  ℕ, zero, suc, ◌+◌, ◌-◌, ◌<◌, ◌≡◌, refl, Bool, true, false, ◌||◌, Option, none, some, List, arith,
  ltb, ◌==◌, if◌then◌else◌, sub32, ◌^◌, M, ◌>>=◌,
}
use dmesh_l.Nan.Driver.{Nan, Env}
use dmesh_l.Nan.Receive.{
  Walk, walked, overflow, out_of_fuel, walk_attributes, handle_daf, on_attribute, tag_at, bytes_at,
}

-- The run is not one that ran out of fuel.
abbrev pub Ends : Option (Walk × Nan) → Type 0
Ends none = Unit {0}
Ends (some (walked, s)) = Unit {0}
Ends (some (overflow, s)) = Unit {0}
Ends (some (out_of_fuel, s)) = ⊥

bind-Ends :
    (A : Type 0) (m : M Nan A) (k : A → M Nan Walk) (s : Nan)
    → ((a : A) (t : Nan) → Ends (k a t))
    → Ends ((m >>= k) s)
bind-Ends A m k s h = go (m s)
  where
    go : (o : Option (A × Nan)) → Ends (elim o [ none ↦ none | some (a, t) ↦ k a t ])
    go none = tt
    go (some (a, t)) = h a t

if-Ends :
    (b : Bool) (m n : M Nan Walk) (s : Nan)
    → Ends (m s)
    → ((b ≡ false) → Ends (n s))
    → Ends ((if b then m else n) s)
if-Ends true m n s h k = h
if-Ends false m n s h k = k refl

round-Ends :
    (b : Bool) (s : Nan) (o : Option (Walk × Nan))
    → ((b ≡ true) → Ends o)
    → Ends (elim b [ false ↦ some (walked, s) | true ↦ o ])
round-Ends true s o h = h refl
round-Ends false s o h = tt

module _ (v : Env) where
  -- Every round that goes on moves by at least four bytes and stays inside the frame, so as many
  -- rounds as bytes are left are enough.
  walk_attributes-Ends :
      (fuel len next : ℕ) (frame : List ℕ) (s : Nan)
      → len < 2 ^ 32
      → len - 4 - next < fuel
      → Ends (walk_attributes v fuel len next frame s)
  unfolding walk_attributes
  walk_attributes-Ends zero len next frame s most h = absurd (omega arith)
  walk_attributes-Ends (suc fuel) len next frame s most h =
      round-Ends (ltb next (sub32 len 4)) s _ λ more. bind-Ends _ (tag_at v frame next) _ s λ t u.
        if-Ends (t.1 == 0 || ltb len (next + 3 + t.1)) _ _ u tt λ inside.
          bind-Ends _ (on_attribute v frame t.0 (next + 3)) _ u
            λ frame' w. walk_attributes-Ends fuel len (next + 3 + t.1) frame' w most (ground arith)

  -- `handleDAF` ends for every frame, of every length that 32 bits hold, those below 4 included,
  -- where the test of the loop wraps.
  pub handle_daf-Ends :
      (frame : List ℕ) (len : ℕ) (s : Nan) → len < 2 ^ 32 → Ends (handle_daf v frame len s)
  unfolding handle_daf
  handle_daf-Ends frame len s most =
      bind-Ends _ (bytes_at frame 20 2) _ s
        λ net t. walk_attributes-Ends (suc len) len 30 frame _ most (omega arith)
