-- ===== src/Console/Values.antt =====
-- `set_value_in_nvs` of console.c.
use dmesh_l.Base.{
  ℕ, Bool, true, false, ◌||◌, not, List, [], ◌∷◌, ◌++◌, leb, ◌==◌, if◌then◌else◌, ℤ, pos, negsuc,
}
use dmesh_l.Console.Types.{
  NvsType, type_i8, type_u8, type_u16, type_i16, type_u32, type_i32, type_u64, type_i64, type_str,
  type_blob, type_any, str_to_type,
}
use dmesh_l.Console.Blob.{Stored, type_mismatch, no_mem, set_blob, store_blob}

-- What the C library's conversions return: the value, and whether it was out of their range, which
-- sets `errno` to ERANGE. None of them clears `errno`.
pub record Numbers : Type 0 where
  pub strtol : List ℕ → ℤ × Bool
  pub strtoul : List ℕ → ℤ × Bool
  pub strtoll : List ℕ → ℤ × Bool
  pub strtoull : List ℕ → ℤ × Bool

-- The calls into the storage.
pub data NvsCall : Type 0 where
  nvs_open nvs_commit nvs_close : NvsCall
  nvs_set : (key : List ℕ) → NvsType → ℤ → NvsCall
  nvs_set_str nvs_set_blob : (key bytes : List ℕ) → NvsCall

-- How the command ends: `nvs_error` passes on the code of a call, 0 included.
pub data SetResult : Type 0 where
  undefined_type value_too_long blob_mismatch blob_no_mem : SetResult
  nvs_error : ℕ → SetResult

-- `errno == ERANGE`, and the calls made so far.
pub record Store : Type 0 where
  pub erange : Bool
  pub calls : List NvsCall

-- -(low + 1) <= value <= high
abbrev pub in_range : (low high : ℕ) → ℤ → Bool
in_range low high (pos n) = leb n high
in_range low high (negsuc n) = leb n low

-- value <= high
abbrev pub at_most : (high : ℕ) → ℤ → Bool
at_most high (pos n) = leb n high
at_most high (negsuc n) = false

abbrev pub call_nvs : NvsCall → Store → Store
call_nvs c s = record s { calls = s.calls ++ c ∷ [] }

module _ (numbers : Numbers) (code : NvsCall → ℕ) (malloc_ok : Bool) (key : List ℕ) where
  -- A branch of a number type: the conversion, the test, and the store. The results are the range
  -- error and the code.
  unfoldable pub set_number : NvsType → (ℤ × Bool) → (fits : ℤ → Bool) → Store → Bool × ℕ × Store
  set_number type parsed fits s =
      let s1 = record s { erange = s.erange || parsed.1 } in
      if not (fits parsed.0) || s1.erange
      then (true, 0, s1)
      else (false, code (nvs_set key type parsed.0), call_nvs (nvs_set key type parsed.0) s1)

  -- The end of the function: a range error closes the storage, all else commits first.
  unfoldable pub finish : (range_error : Bool) (err : ℕ) → Store → SetResult × Store
  finish range_error err s =
      if range_error || s.erange
      then (value_too_long, call_nvs nvs_close s)
      else if err == 0
      then (nvs_error (code nvs_commit), call_nvs nvs_close (call_nvs nvs_commit s))
      else (nvs_error err, call_nvs nvs_close s)

  abbrev pub finish_number : Bool × ℕ × Store → SetResult × Store
  finish_number r = finish r.0 r.1 r.2

  -- The end after `store_blob`, which has committed once by itself.
  unfoldable pub finish_blob : Stored → Store → SetResult × Store
  finish_blob type_mismatch s =
      if s.erange
      then (value_too_long, call_nvs nvs_close s)
      else (blob_mismatch, call_nvs nvs_close s)
  finish_blob no_mem s =
      if s.erange
      then (value_too_long, call_nvs nvs_close s)
      else (blob_no_mem, call_nvs nvs_close s)
  finish_blob (set_blob bytes err) s =
      let stored = call_nvs (nvs_set_blob key bytes) s in
      finish false err
        (if code (nvs_set_blob key bytes) == 0 then call_nvs nvs_commit stored else stored)

  -- The branches of `set_value_in_nvs`, once the storage is open.
  unfoldable pub set_typed : NvsType → (str_value : List ℕ) → Store → SetResult × Store
  set_typed type_i8 t s = finish_number (set_number type_i8 (numbers.strtol t) (in_range 127 127) s)
  set_typed type_u8 t s = finish_number (set_number type_u8 (numbers.strtoul t) (at_most 255) s)
  set_typed type_i16 t s =
      finish_number (set_number type_i16 (numbers.strtol t) (in_range 32767 32767) s)
  set_typed type_u16 t s = finish_number (set_number type_u16 (numbers.strtoul t) (at_most 65535) s)
  set_typed type_i32 t s = finish_number (set_number type_i32 (numbers.strtol t) (λ _. true) s)
  set_typed type_u32 t s = finish_number (set_number type_u32 (numbers.strtoul t) (λ _. true) s)
  set_typed type_i64 t s = finish_number (set_number type_i64 (numbers.strtoll t) (λ _. true) s)
  set_typed type_u64 t s = finish_number (set_number type_u64 (numbers.strtoull t) (λ _. true) s)
  set_typed type_str t s = finish false (code (nvs_set_str key t)) (call_nvs (nvs_set_str key t) s)
  set_typed type_blob t s =
      let decoded = store_blob malloc_ok 0 0 t in
      elim decoded [
        | type_mismatch ↦ finish_blob type_mismatch s
        | no_mem ↦ finish_blob no_mem s
        | set_blob bytes _ ↦
            finish_blob (store_blob malloc_ok (code (nvs_set_blob key bytes)) (code nvs_commit) t) s
      ]
  set_typed type_any t s = (undefined_type, s)

  -- `set_value_in_nvs`
  unfoldable pub set_value_in_nvs : (str_type str_value : List ℕ) → Store → SetResult × Store
  set_value_in_nvs str_type str_value s =
      let type = str_to_type str_type in
      let opened = call_nvs nvs_open s in
      elim type [
        | type_any ↦ (undefined_type, s)
        | t ↦
            if code nvs_open == 0
            then set_typed t str_value opened
            else (nvs_error (code nvs_open), opened)
      ]
