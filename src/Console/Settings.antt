-- ===== src/Console/Settings.antt =====
-- What nvs_set stores in console.c, nvs_get prints again.
use dmesh_l.Base.{
  signed_text, ℕ, suc, ◌-◌, ◌^◌, ◌<◌, ◌≡◌, refl, ap, ◌∙◌, Bool, true, false, some, List, [], ◌∷◌,
  ◌++◌, ℤ, pos, negsuc, decimal, append_assoc, numeral_value, numeral_value-decimal,
}
use dmesh_l.Nvs.{Strings}
use dmesh_l.Console.Types.{
  NvsType, type_i8, type_u8, type_u16, type_i16, type_u32, type_i32, type_u64, type_i64, type_str,
  type_blob, type_any,
}
use dmesh_l.Console.Values.{
  Numbers, NvsCall, nvs_commit, nvs_close, nvs_set, nvs_error, SetResult, Store, in_range, at_most,
  set_number, finish, set_typed,
}
use dmesh_l.Console.Storage.{number_after, number_after-set}
use dmesh_l.Console.Reading.{
  unsigned_text, number_text, NumberStore, read, line, get_number, get_typed,
}

-- The conversion that `set_value_in_nvs` uses for the type.
abbrev pub conversion : Numbers → NvsType → List ℕ → ℤ × Bool
conversion n type_i8 t = n.strtol t
conversion n type_u8 t = n.strtoul t
conversion n type_i16 t = n.strtol t
conversion n type_u16 t = n.strtoul t
conversion n type_i32 t = n.strtol t
conversion n type_u32 t = n.strtoul t
conversion n type_i64 t = n.strtoll t
conversion n type_u64 t = n.strtoull t
conversion n type_str t = (pos 0, true)
conversion n type_blob t = (pos 0, true)
conversion n type_any t = (pos 0, true)

-- The values of a type; no negative ones of i16.
abbrev pub is_plain : NvsType → ℤ → Bool
is_plain type_i8 v = in_range 127 127 v
is_plain type_u8 v = at_most 255 v
is_plain type_i16 v = at_most 32767 v
is_plain type_u16 v = at_most 65535 v
is_plain type_i32 v = in_range 2147483647 2147483647 v
is_plain type_u32 v = at_most 4294967295 v
is_plain type_i64 v = in_range 9223372036854775807 9223372036854775807 v
is_plain type_u64 v = at_most 18446744073709551615 v
is_plain type_str v = false
is_plain type_blob v = false
is_plain type_any v = false

number_text-plain :
    (type : NvsType) (v : ℤ) → is_plain type v ≡ true → number_text type v ≡ signed_text v
unfolding number_text signed_text unsigned_text
number_text-plain type_i8 v h = refl
number_text-plain type_i32 v h = refl
number_text-plain type_i64 v h = refl
number_text-plain type_u8 (pos n) h = refl
number_text-plain type_i16 (pos n) h = refl
number_text-plain type_u16 (pos n) h = refl
number_text-plain type_u32 (pos n) h = refl
number_text-plain type_u64 (pos n) h = refl
number_text-plain type_u8 (negsuc n) h = cc
number_text-plain type_i16 (negsuc n) h = cc
number_text-plain type_u16 (negsuc n) h = cc
number_text-plain type_u32 (negsuc n) h = cc
number_text-plain type_u64 (negsuc n) h = cc
number_text-plain type_str v h = cc
number_text-plain type_blob v h = cc
number_text-plain type_any v h = cc

module _ (numbers : Numbers) (code : NvsCall → ℕ) (malloc_ok : Bool) (key : List ℕ) where
  -- The calls and the code of a number that is stored.
  abbrev pub IsStored : NvsType → ℤ → Store → SetResult × Store → Type 0
  IsStored type v s r =
      (r.0 ≡ nvs_error 0)
      × (r.1.calls ≡ s.calls ++ nvs_set key type v ∷ nvs_commit ∷ nvs_close ∷ [])

  finish-IsStored :
      (type : NvsType) (parsed : ℤ × Bool) (fits : ℤ → Bool) (v : ℤ) (s : Store)
      → s.erange ≡ false
      → parsed ≡ (v, false)
      → fits v ≡ true
      → code (nvs_set key type v) ≡ 0
      → code nvs_commit ≡ 0
      → let r = set_number numbers code malloc_ok key type parsed fits s in
        IsStored type v s (finish numbers code malloc_ok key r.0 r.1 r.2)
  unfolding set_number finish
  finish-IsStored type parsed fits v s clean e fit set_ok commit_ok =
      rw (e, fit) (rw clean (rw set_ok (rw commit_ok (refl, simp append_assoc))))

  plain_fits : (v : ℤ) (n : ℕ) → at_most n v ≡ true → in_range n n v ≡ true
  plain_fits (pos m) n h = h
  plain_fits (negsuc m) n h = cc

  set_typed-IsStored :
      (type : NvsType) (v : ℤ) (text : List ℕ) (s : Store)
      → s.erange ≡ false
      → is_plain type v ≡ true
      → conversion numbers type text ≡ (v, false)
      → code (nvs_set key type v) ≡ 0
      → code nvs_commit ≡ 0
      → IsStored type v s (set_typed numbers code malloc_ok key type text s)
  unfolding set_typed
  set_typed-IsStored type_i8 v t s clean plain e a b =
      finish-IsStored type_i8 (numbers.strtol t) (in_range 127 127) v s clean e plain a b
  set_typed-IsStored type_u8 v t s clean plain e a b =
      finish-IsStored type_u8 (numbers.strtoul t) (at_most 255) v s clean e plain a b
  set_typed-IsStored type_i16 v t s clean plain e a b =
      finish-IsStored type_i16 (numbers.strtol t) (in_range 32767 32767) v s clean e
        (plain_fits v 32767 plain) a b
  set_typed-IsStored type_u16 v t s clean plain e a b =
      finish-IsStored type_u16 (numbers.strtoul t) (at_most 65535) v s clean e plain a b
  set_typed-IsStored type_i32 v t s clean plain e a b =
      finish-IsStored type_i32 (numbers.strtol t) (λ _. true) v s clean e refl a b
  set_typed-IsStored type_u32 v t s clean plain e a b =
      finish-IsStored type_u32 (numbers.strtoul t) (λ _. true) v s clean e refl a b
  set_typed-IsStored type_i64 v t s clean plain e a b =
      finish-IsStored type_i64 (numbers.strtoll t) (λ _. true) v s clean e refl a b
  set_typed-IsStored type_u64 v t s clean plain e a b =
      finish-IsStored type_u64 (numbers.strtoull t) (λ _. true) v s clean e refl a b
  set_typed-IsStored type_str v t s clean plain e a b = cc
  set_typed-IsStored type_blob v t s clean plain e a b = cc
  set_typed-IsStored type_any v t s clean plain e a b = cc

module _ (number : NumberStore) (strings blobs : Strings) (buffers : ℕ → Bool) where
  get_number-reads :
      (type : NvsType) (v : ℤ) (key : List ℕ)
      → number type key ≡ (0, v)
      → get_number number strings blobs buffers type key ≡ read 0 (line (number_text type v))
  unfolding get_number
  get_number-reads type v key e = rw e refl

  get_typed-number :
      (type : NvsType) (v : ℤ) (key : List ℕ)
      → is_plain type v ≡ true
      → get_typed number strings blobs buffers type key
        ≡ some (get_number number strings blobs buffers type key)
  unfolding get_typed
  get_typed-number type_i8 v key h = refl
  get_typed-number type_u8 v key h = refl
  get_typed-number type_i16 v key h = refl
  get_typed-number type_u16 v key h = refl
  get_typed-number type_i32 v key h = refl
  get_typed-number type_u32 v key h = refl
  get_typed-number type_i64 v key h = refl
  get_typed-number type_u64 v key h = refl
  get_typed-number type_str v key h = cc
  get_typed-number type_blob v key h = cc
  get_typed-number type_any v key h = cc

  -- A negative i16 that is stored, -(n + 1), is printed as the number 2^32 - (n + 1).
  pub get_i16_negative :
      (n : ℕ) (key : List ℕ)
      → n < 32768
      → number type_i16 key ≡ (0, negsuc n)
      → (text : List ℕ) × (get_typed number strings blobs buffers type_i16 key
          ≡ some (read 0 (line text)))
        × (numeral_value 0 text ≡ 2 ^ 32 - suc n)
  unfolding get_typed number_text unsigned_text
  get_i16_negative n key small has = (
    decimal (2 ^ 32 - suc n),
    ap some (get_number-reads type_i16 (negsuc n) key has),
    numeral_value-decimal (2 ^ 32 - suc n),
  )

-- A number that its type can hold, but no negative one of i16, survives: nvs_set of its decimal text,
-- if the conversion reads it so, `errno` is clean and the storage accepts it, stores the value under
-- the key, commits and closes, and nvs_get of that key and type, whatever was stored before, prints
-- the same text.
pub get_typed-set_typed :
    (before : NumberStore) (strings blobs : Strings) (buffers : ℕ → Bool) (numbers : Numbers)
    (code : NvsCall → ℕ) (malloc_ok : Bool) (type : NvsType) (v : ℤ) (key : List ℕ) (s : Store)
    → s.erange ≡ false
    → is_plain type v ≡ true
    → conversion numbers type (signed_text v) ≡ (v, false)
    → code (nvs_set key type v) ≡ 0
    → code nvs_commit ≡ 0
    → let r = set_typed numbers code malloc_ok key type (signed_text v) s in
      IsStored numbers code malloc_ok key type v s r
      × (get_typed (number_after r.1.calls before) strings blobs buffers type key
          ≡ some (read 0 (line (signed_text v))))
get_typed-set_typed before strings blobs buffers numbers code malloc_ok type v key s clean plain
      reads a b =
    let stored =
      set_typed-IsStored numbers code malloc_ok key type v (signed_text v) s clean plain reads a
        b in
    let after : NumberStore =
      number_after (set_typed numbers code malloc_ok key type (signed_text v) s).1.calls before in
    let has : after type key ≡ (0, v) =
      ap (λ cs. number_after cs before type key) stored.1
      ∙ number_after-set s.calls key type v before in
    (
      stored,
      get_typed-number after strings blobs buffers type v key plain
          ∙ ap some (
              get_number-reads after strings blobs buffers type v key has
              ∙ ap (λ t. read 0 (line t)) (number_text-plain type v plain)),
    )
