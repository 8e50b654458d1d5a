-- ===== src/Main/Settings.antt =====
-- The stored network name and password that main.c reads into arrays of its own.
use dmesh_l.Base.{
  ℕ, suc, ◌+◌, ◌≡◌, refl, ◌∙◌, true, false, none, some, List, [], ◌∷◌, ◌++◌, arith, ◌==◌, leb,
  length, length-append, c_string, c_string-append, NoZero, if◌then◌else◌,
}
use dmesh_l.Nvs.{GetStr, Strings, HoldsText, IsMissing}
use dmesh_l.Main.Boot.{read_string}

module _ (strings : Strings) (cap : ℕ) (key : List ℕ) where
  -- What comes of the second call.
  read_string-eq :
      (n : ℕ) (second : GetStr)
      → (strings key false 0).len ≡ n
      → strings key true n ≡ second
      → read_string strings cap key ≡ (
          if leb (length second.written) cap
          then some (
              if second.err == 0
              then (if second.len == 0 then none else some (c_string second.written))
              else none)
          else none)
  unfolding read_string
  read_string-eq n second e f = rw (e, f)

  -- A stored text is read as it is exactly when it fits the array with its terminator, else the
  -- array is overrun; a missing one is NULL.
  pub read_string_lem :
      (text : List ℕ)
      → NoZero text
      → HoldsText strings key text
      → read_string strings cap key
        ≡ (if leb (suc (length text)) cap then some (some text) else none)
  read_string_lem text h (told, read) =
      read_string-eq (length text + 1) _ told read
      ∙ (let whole : length (text ++ 0 ∷ []) ≡ suc (length text) =
            omega (arith, length-append text (0 ∷ [])) in
          let some_bytes : (length text + 1 == 0) ≡ false = ground arith in
          rw (whole, some_bytes, c_string-append text 1 h) refl)

  pub read_string_missing : IsMissing strings key → read_string strings cap key ≡ some none
  read_string_missing (told, fails, nothing) =
      read_string-eq 0 _ told refl
      ∙ (let failed : ((strings key true 0).err == 0) ≡ false = ground arith in
          rw (nothing, failed) (ground arith))
