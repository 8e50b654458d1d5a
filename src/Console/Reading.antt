-- ===== src/Console/Reading.antt =====
-- `get_value_from_nvs` of console.c.
use dmesh_l.Base.{
  ℕ, suc, ◌-◌, ◌^◌, Bool, false, Option, none, some, List, [], ◌∷◌, ◌++◌, ◌==◌, if◌then◌else◌, ℤ,
  pos, negsuc, decimal, signed_text, c_string,
}
use dmesh_l.Nvs.{Strings}
use dmesh_l.Console.Types.{
  NvsType, type_i8, type_u8, type_u16, type_i16, type_u32, type_i32, type_u64, type_i64, type_str,
  type_blob, type_any, str_to_type,
}
use dmesh_l.Console.Blob.{print_blob}

-- `%u` of a value that is passed as a 32-bit `int`, and `%llu` of one of 64 bits.
unfoldable pub unsigned_text : (width : ℕ) → ℤ → List ℕ
unsigned_text width (pos n) = decimal n
unsigned_text width (negsuc n) = decimal (2 ^ width - suc n)

-- How `get_value_from_nvs` prints a number of the type.
unfoldable pub number_text : NvsType → ℤ → List ℕ
number_text type_i8 v = signed_text v
number_text type_u8 v = unsigned_text 32 v
number_text type_i16 v = unsigned_text 32 v
number_text type_u16 v = unsigned_text 32 v
number_text type_i32 v = signed_text v
number_text type_u32 v = unsigned_text 32 v
number_text type_i64 v = signed_text v
number_text type_u64 v = unsigned_text 64 v
number_text type_str v = []
number_text type_blob v = []
number_text type_any v = []

-- How the command ends, and what it prints.
pub data Got : Type 0 where
  undefined_type : Got
  open_failed : (err : ℕ) → Got
  read : (err : ℕ) (output : List ℕ) → Got

abbrev pub line : List ℕ → List ℕ
line text = text ++ 10 ∷ []

-- The code and the value of nvs_get_i8 and its like.
abbrev pub NumberStore : Type 0
NumberStore = NvsType → (key : List ℕ) → ℕ × ℤ

-- What is printed behind NULL, where malloc gave no buffer: a string is read, a blob only if it has
-- bytes.
abbrev pub string_at_null : (len : ℕ) → Option (List ℕ)
string_at_null len = none

abbrev pub blob_at_null : (len : ℕ) → Option (List ℕ)
blob_at_null len = if len == 0 then some [] else none

-- The storage's numbers, strings and blobs. `malloc_ok` says whether memory is left for a value of
-- the given length.
module _ (number : NumberStore) (strings blobs : Strings) (malloc_ok : ℕ → Bool) where
  unfoldable pub get_number : NvsType → (key : List ℕ) → Got
  get_number type key =
      let (err, value) = number type key in
      read err (if err == 0 then line (number_text type value) else [])

  -- The branches for a string and a blob: two calls, the second with the buffer that malloc gave,
  -- which is not checked.
  unfoldable pub get_bytes :
      Strings
      → (print : List ℕ → List ℕ) → (at_null : ℕ → Option (List ℕ)) → (key : List ℕ) → Option Got
  get_bytes storage print at_null key =
      let first = storage key false 0 in
      let second = storage key (malloc_ok first.len) first.len in
      if first.err == 0
      then if second.err == 0
        then if malloc_ok first.len
          then some (read 0 (line (print second.written)))
          else elim (at_null second.len) [ none ↦ none | some text ↦ some (read 0 (line text)) ]
        else some (read second.err [])
      else some (read first.err [])

  -- The branches of `get_value_from_nvs`, once the storage is open. none is a read through NULL.
  unfoldable pub get_typed : NvsType → (key : List ℕ) → Option Got
  get_typed type_i8 key = some (get_number type_i8 key)
  get_typed type_u8 key = some (get_number type_u8 key)
  get_typed type_i16 key = some (get_number type_i16 key)
  get_typed type_u16 key = some (get_number type_u16 key)
  get_typed type_i32 key = some (get_number type_i32 key)
  get_typed type_u32 key = some (get_number type_u32 key)
  get_typed type_i64 key = some (get_number type_i64 key)
  get_typed type_u64 key = some (get_number type_u64 key)
  get_typed type_str key = get_bytes strings c_string string_at_null key
  get_typed type_blob key = get_bytes blobs print_blob blob_at_null key
  get_typed type_any key = some undefined_type

  -- `get_value_from_nvs`, where nvs_open returns `open_code`.
  unfoldable pub get_value_from_nvs : (open_code : ℕ) (key str_type : List ℕ) → Option Got
  get_value_from_nvs open_code key str_type = elim (str_to_type str_type) [
    | type_any ↦ some undefined_type
    | t ↦ if open_code == 0 then get_typed t key else some (open_failed open_code)
  ]
