-- ===== src/Console/Types.antt =====
-- The names of the types of stored values in console.c.
use dmesh_l.Base.{
  ℕ, ◌≡◌, ◌≢◌, inl, inr, refl, sym, ◌∙◌, List, [], ◌∷◌, ◌==◌, if◌then◌else◌, bytes_eq, bytes_eq_iff,
  codes, Bool-cases,
}

pub data NvsType : Type 0 where
  type_i8 type_u8 type_u16 type_i16 type_u32 type_i32 type_u64 type_i64 : NvsType
  type_str type_blob type_any : NvsType

-- Equal types have equal numbers.
abbrev pub type_number : NvsType → ℕ
type_number type_i8 = 0
type_number type_u8 = 1
type_number type_u16 = 2
type_number type_i16 = 3
type_number type_u32 = 4
type_number type_i32 = 5
type_number type_u64 = 6
type_number type_i64 = 7
type_number type_str = 8
type_number type_blob = 9
type_number type_any = 10

-- `type_str_pair`
abbrev pub type_str_pair : List (NvsType × List ℕ)
type_str_pair =
    (type_i8, codes "i8")
    ∷ (type_u8, codes "u8")
    ∷ (type_u16, codes "u16")
    ∷ (type_i16, codes "i16")
    ∷ (type_u32, codes "u32")
    ∷ (type_i32, codes "i32")
    ∷ (type_u64, codes "u64")
    ∷ (type_i64, codes "i64")
    ∷ (type_str, codes "str")
    ∷ (type_blob, codes "blob")
    ∷ (type_any, codes "any")
    ∷ []

unfoldable pub find_type : List (NvsType × List ℕ) → (text : List ℕ) → NvsType
find_type [] text = type_any
find_type ((t, name) ∷ pairs) text = if bytes_eq text name then t else find_type pairs text

unfoldable pub find_name : List (NvsType × List ℕ) → NvsType → List ℕ
find_name [] t = codes "Unknown"
find_name ((u, name) ∷ pairs) t = if type_number u == type_number t then name else find_name pairs t

-- `str_to_type`
unfoldable pub str_to_type : List ℕ → NvsType
str_to_type text = find_type type_str_pair text

-- `type_to_str`
unfoldable pub type_to_str : NvsType → List ℕ
type_to_str t = find_name type_str_pair t

-- Every pair is found by its type.
abbrev AllFound : List (NvsType × List ℕ) → Type 0
AllFound [] = Unit {0}
AllFound ((t, name) ∷ pairs) = (type_to_str t ≡ name) × AllFound pairs

find_type-name :
    (pairs : List (NvsType × List ℕ)) (text : List ℕ)
    → AllFound pairs
    → find_type pairs text ≢ type_any
    → type_to_str (find_type pairs text) ≡ text
unfolding find_type
find_type-name [] text all known = absurd (known refl)
find_type-name ((t, name) ∷ pairs) text all known = elim (Bool-cases (bytes_eq text name)) [
  | inl e ↦ rw e (all.0 ∙ sym ((bytes_eq_iff text name).0 e))
  | inr e ↦ rw e (find_type-name pairs text all.1 (rw e at known))
]

table-AllFound : AllFound type_str_pair
unfolding type_to_str find_name
table-AllFound =
    (refl, (refl, (refl, (refl, (refl, (refl, (refl, (refl, (refl, (refl, (refl, tt)))))))))))

-- The printed name of every type is read as that type.
pub str_to_type-type_to_str : (t : NvsType) → str_to_type (type_to_str t) ≡ t
unfolding str_to_type type_to_str find_type find_name bytes_eq
str_to_type-type_to_str type_i8 = refl
str_to_type-type_to_str type_u8 = refl
str_to_type-type_to_str type_u16 = refl
str_to_type-type_to_str type_i16 = refl
str_to_type-type_to_str type_u32 = refl
str_to_type-type_to_str type_i32 = refl
str_to_type-type_to_str type_u64 = refl
str_to_type-type_to_str type_i64 = refl
str_to_type-type_to_str type_str = refl
str_to_type-type_to_str type_blob = refl
str_to_type-type_to_str type_any = refl

-- A text that is read as a type, other than `any`, is the printed name of that type.
pub type_to_str-str_to_type :
    (text : List ℕ) → str_to_type text ≢ type_any → type_to_str (str_to_type text) ≡ text
unfolding str_to_type
type_to_str-str_to_type text known = find_type-name type_str_pair text table-AllFound known
