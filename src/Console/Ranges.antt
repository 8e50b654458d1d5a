-- ===== src/Console/Ranges.antt =====
-- What `set_value_in_nvs` of console.c makes of ranges, and of an `errno` that is not cleared.
use dmesh_l.Base.{
  ℕ, ◌-◌, ◌%◌, ◌^◌, ◌≡◌, refl, Bool, true, false, List, [], ◌∷◌, ◌++◌, arith, append_assoc,
  if◌then◌else◌, ltb, ◌==◌, ℤ, pos, negsuc,
}
use dmesh_l.Console.Types.{
  NvsType, type_i8, type_u8, type_u16, type_i16, type_u32, type_i32, type_u64, type_i64, type_str,
  type_blob, type_any,
}
use dmesh_l.Console.Blob.{print_blob}
use dmesh_l.Console.Digits.{AllBytes, store_blob-print_blob}
use dmesh_l.Console.Values.{
  Numbers, NvsCall, nvs_commit, nvs_close, nvs_set, nvs_set_str, nvs_set_blob, value_too_long,
  nvs_error, SetResult, Store, in_range, at_most, set_number, finish, finish_blob, set_typed,
}
use dmesh_l.Console.Settings.{conversion}

-- The low bits of an integer, and what they mean as a signed number.
abbrev pub low_bits : (width : ℕ) → ℤ → ℕ
low_bits width (pos n) = n % 2 ^ width
low_bits width (negsuc n) = 2 ^ width - 1 - n % 2 ^ width

abbrev pub signed : (width bits : ℕ) → ℤ
signed width bits = if ltb bits (2 ^ (width - 1)) then pos bits else negsuc (2 ^ width - 1 - bits)

-- A value as it comes out of an int8_t, an uint8_t, an int16_t or an uint16_t.
abbrev pub cast : NvsType → ℤ → ℤ
cast type_i8 v = signed 8 (low_bits 8 v)
cast type_u8 v = pos (low_bits 8 v)
cast type_i16 v = signed 16 (low_bits 16 v)
cast type_u16 v = pos (low_bits 16 v)
cast _ v = v

abbrev pub is_narrow : NvsType → Bool
is_narrow type_i8 = true
is_narrow type_u8 = true
is_narrow type_i16 = true
is_narrow type_u16 = true
is_narrow _ = false

abbrev pub int_eq : ℤ → ℤ → Bool
int_eq (pos m) (pos n) = m == n
int_eq (negsuc m) (negsuc n) = m == n
int_eq _ _ = false

i8_fits : (v : ℤ) → in_range 127 127 v ≡ int_eq (cast type_i8 v) v
i8_fits (pos n) = ground arith
i8_fits (negsuc n) = ground arith

u8_fits : (v : ℤ) → at_most 255 v ≡ int_eq (cast type_u8 v) v
u8_fits (pos n) = ground arith
u8_fits (negsuc n) = ground arith

i16_fits : (v : ℤ) → in_range 32767 32767 v ≡ int_eq (cast type_i16 v) v
i16_fits (pos n) = ground arith
i16_fits (negsuc n) = ground arith

u16_fits : (v : ℤ) → at_most 65535 v ≡ int_eq (cast type_u16 v) v
u16_fits (pos n) = ground arith
u16_fits (negsuc n) = ground arith

-- A value is refused as too long behind the calls `sets`; the storage is closed.
abbrev pub IsRefused : (sets : List NvsCall) → Store → SetResult × Store → Type 0
IsRefused sets s r = (r.0 ≡ value_too_long) × (r.1.calls ≡ s.calls ++ (sets ++ nvs_close ∷ []))

abbrev pub is_number : NvsType → Bool
is_number type_str = false
is_number type_blob = false
is_number type_any = false
is_number _ = true

module _ (numbers : Numbers) (code : NvsCall → ℕ) (malloc_ok : Bool) (key : List ℕ) where
  set_number-ends :
      (type : NvsType) (parsed : ℤ × Bool) (fits : ℤ → Bool) (b : Bool) (s : Store)
      → s.erange ≡ false
      → parsed.1 ≡ false
      → fits parsed.0 ≡ b
      → code (nvs_set key type parsed.0) ≡ 0
      → let n = set_number numbers code malloc_ok key type parsed fits s in
        let r = finish numbers code malloc_ok key n.0 n.1 n.2 in
        (r.0 ≡ (if b then nvs_error (code nvs_commit) else value_too_long))
        × (r.1.calls
            ≡ s.calls
              ++ (if b
                  then nvs_set key type parsed.0 ∷ nvs_commit ∷ nvs_close ∷ []
                  else nvs_close ∷ []))
  unfolding set_number finish
  set_number-ends type parsed fits true s clean read fit ok =
      rw (read, fit) (rw clean (rw ok (refl, simp append_assoc)))
  set_number-ends type parsed fits false s clean read fit ok = rw (read, fit) (refl, refl)

  -- With a clean `errno` and a storage that accepts the value, a value of the types i8, u8, i16 and
  -- u16 that the library can convert is stored under the key, committed and the storage closed just
  -- if it comes out of the C type (int8_t, uint8_t, int16_t or uint16_t) unchanged; else it is
  -- refused as too long, and the storage only closed.
  pub set_narrow_lem :
      (type : NvsType) (text : List ℕ) (s : Store)
      → is_narrow type ≡ true
      → s.erange ≡ false
      → (conversion numbers type text).1 ≡ false
      → code (nvs_set key type (conversion numbers type text).0) ≡ 0
      → let value = (conversion numbers type text).0 in
        let same = int_eq (cast type value) value in
        let r = set_typed numbers code malloc_ok key type text s in
        (r.0 ≡ (if same then nvs_error (code nvs_commit) else value_too_long))
        × (r.1.calls
            ≡ s.calls
              ++ (if same
                  then nvs_set key type value ∷ nvs_commit ∷ nvs_close ∷ []
                  else nvs_close ∷ []))
  unfolding set_typed
  set_narrow_lem type_i8 text s narrow clean read ok =
      set_number-ends type_i8 (numbers.strtol text) (in_range 127 127) _ s clean read
        (i8_fits (numbers.strtol text).0) ok
  set_narrow_lem type_u8 text s narrow clean read ok =
      set_number-ends type_u8 (numbers.strtoul text) (at_most 255) _ s clean read
        (u8_fits (numbers.strtoul text).0) ok
  set_narrow_lem type_i16 text s narrow clean read ok =
      set_number-ends type_i16 (numbers.strtol text) (in_range 32767 32767) _ s clean read
        (i16_fits (numbers.strtol text).0) ok
  set_narrow_lem type_u16 text s narrow clean read ok =
      set_number-ends type_u16 (numbers.strtoul text) (at_most 65535) _ s clean read
        (u16_fits (numbers.strtoul text).0) ok
  set_narrow_lem type_i32 text s narrow clean read ok = cc
  set_narrow_lem type_u32 text s narrow clean read ok = cc
  set_narrow_lem type_i64 text s narrow clean read ok = cc
  set_narrow_lem type_u64 text s narrow clean read ok = cc
  set_narrow_lem type_str text s narrow clean read ok = cc
  set_narrow_lem type_blob text s narrow clean read ok = cc
  set_narrow_lem type_any text s narrow clean read ok = cc

  number_sticks :
      (type : NvsType) (text : List ℕ) (s : Store)
      → is_number type ≡ true
      → s.erange ≡ true
      → IsRefused [] s (set_typed numbers code malloc_ok key type text s)
  unfolding set_typed set_number finish
  number_sticks type_i8 text s n h = ground arith
  number_sticks type_u8 text s n h = ground arith
  number_sticks type_u16 text s n h = ground arith
  number_sticks type_i16 text s n h = ground arith
  number_sticks type_u32 text s n h = ground arith
  number_sticks type_i32 text s n h = ground arith
  number_sticks type_u64 text s n h = ground arith
  number_sticks type_i64 text s n h = ground arith
  number_sticks type_str text s n h = cc
  number_sticks type_blob text s n h = cc
  number_sticks type_any text s n h = cc

  string_sticks :
      (text : List ℕ) (s : Store)
      → s.erange ≡ true
      → IsRefused
          (nvs_set_str key text ∷ [])
          s
          (set_typed numbers code malloc_ok key type_str text s)
  unfolding set_typed finish
  string_sticks text s h = rw h (refl, simp append_assoc)

module _ (numbers : Numbers) (code : NvsCall → ℕ) (key : List ℕ) where
  blob_sticks :
      (blob : List ℕ) (s : Store)
      → s.erange ≡ true
      → AllBytes blob
      → code (nvs_set_blob key blob) ≡ 0
      → IsRefused
          (nvs_set_blob key blob ∷ nvs_commit ∷ [])
          s
          (set_typed numbers code true key type_blob (print_blob blob) s)
  unfolding set_typed finish_blob finish
  blob_sticks blob s h bytes ok =
      rw (store_blob-print_blob blob 0 0 bytes, set_typed)
        (rw
          (
            store_blob-print_blob blob (code (nvs_set_blob key blob)) (code nvs_commit) bytes,
            finish_blob,
          )
          (rw (ok, finish) (rw (h, finish) (refl, simp append_assoc))))

  -- While `errno` is ERANGE, which an earlier command may have left there, a value is refused as too
  -- long: a number is not stored, whatever its type, but a string has been set, and a blob, which
  -- print_blob wrote and the storage accepts, with memory left, has been set and committed.
  pub errno_sticks :
      (type : NvsType) (text blob : List ℕ) (s : Store)
      → s.erange ≡ true
      → is_number type ≡ true
      → AllBytes blob
      → code (nvs_set_blob key blob) ≡ 0
      → IsRefused [] s (set_typed numbers code true key type text s)
        × IsRefused (nvs_set_str key text ∷ []) s (set_typed numbers code true key type_str text s)
        × IsRefused
            (nvs_set_blob key blob ∷ nvs_commit ∷ [])
            s
            (set_typed numbers code true key type_blob (print_blob blob) s)
  errno_sticks type text blob s h number bytes ok = (
    number_sticks numbers code true key type text s number h,
    string_sticks numbers code true key text s h,
    blob_sticks blob s h bytes ok,
  )
