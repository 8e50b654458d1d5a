-- ===== src/Console/Digits.antt =====
-- Blobs survive printing and storing.
use dmesh_l.Base.{
  codes, ◌||◌, ◌&&◌, ltb, ◌≤◌, holds_under, from_table, Bool-cases, inl, inr, ℕ, ◌/◌, ◌%◌, ◌<◌, ◌≡◌,
  ◌≢◌, ◌⊎◌, ◌↔◌, refl, Bool, true, false, none, some, List, [], ◌∷◌, arith, length, ◌==◌,
  if◌then◌else◌,
}
use dmesh_l.Console.Blob.{
  hex_value, joined, decode, type_mismatch, set_blob, store_blob, hex_digit, print_blob,
}

hex_value-hex_digit : (n : ℕ) → n < 16 → hex_value (hex_digit n) ≡ some n
unfolding hex_value hex_digit
hex_value-hex_digit n h = ground arith

abbrev pub AllBytes : List ℕ → Type 0
AllBytes [] = Unit {0}
AllBytes (x ∷ xs) = (x < 256) × AllBytes xs

decode-print_blob : (blob : List ℕ) → AllBytes blob → decode (print_blob blob) ≡ some blob
unfolding decode print_blob
decode-print_blob [] all = refl
decode-print_blob (x ∷ xs) all =
    let whole : joined (x / 16) (x % 16) ≡ x = omega arith in
    rw
      (
        hex_value-hex_digit (x / 16) (omega arith),
        hex_value-hex_digit (x % 16) (omega arith),
        decode-print_blob xs all.1,
        whole,
      )
      refl

length-print_blob : (blob : List ℕ) → length (print_blob blob) % 2 ≡ 0
unfolding print_blob
length-print_blob [] = refl
length-print_blob (x ∷ xs) = omega (arith, length-print_blob xs)

-- What `print_blob` prints of a blob, `store_blob` stores again, if memory is left: it passes just
-- those bytes on, and returns the code of the first call that fails, or of the last.
pub store_blob-print_blob :
    (blob : List ℕ) (set_code commit_code : ℕ)
    → AllBytes blob
    → store_blob true set_code commit_code (print_blob blob)
      ≡ set_blob blob (if set_code == 0 then commit_code else set_code)
unfolding store_blob
store_blob-print_blob blob set_code commit_code all =
    let even : (length (print_blob blob) % 2 == 0) ≡ true =
      ground (arith, length-print_blob blob) in
    rw (even, decode-print_blob blob all, store_blob)

-- The hexadecimal digits.
abbrev pub hex_digits : List ℕ
hex_digits = codes "0123456789abcdefABCDEF"

unfoldable pub is_among : ℕ → List ℕ → Bool
is_among c [] = false
is_among c (d ∷ ds) = c == d || is_among c ds

abbrev bool_eq : Bool → Bool → Bool
bool_eq true b = b
bool_eq false b = if b then false else true

bool_eq-eq : (a b : Bool) → bool_eq a b ≡ true → a ≡ b
bool_eq-eq true b h = ground arith
bool_eq-eq false b h = ground arith

abbrev has_value : ℕ → Bool
has_value c = elim (hex_value c) [ none ↦ false | some n ↦ true ]

small_table : holds_under (λ c. bool_eq (has_value c) (is_among c hex_digits)) 128 ≡ true
unfolding holds_under hex_value is_among
small_table = refl

has_value-large : (c : ℕ) → 128 ≤ c → has_value c ≡ is_among c hex_digits
unfolding hex_value is_among
has_value-large c h = ground arith

has_value-among : (c : ℕ) → has_value c ≡ is_among c hex_digits
has_value-among c = elim (Bool-cases (ltb c 128)) [
  | inl small ↦ bool_eq-eq (has_value c) (is_among c hex_digits) (
      from_table (λ c. bool_eq (has_value c) (is_among c hex_digits)) 128 small_table
        (ground arith))
  | inr large ↦ has_value-large c (ground arith)
]

-- All characters of the text are hexadecimal digits.
unfoldable pub all_digits : List ℕ → Bool
all_digits [] = true
all_digits (c ∷ cs) = is_among c hex_digits && all_digits cs

decode-none : (text : List ℕ) → length text % 2 ≡ 0 → all_digits text ≡ false → decode text ≡ none
unfolding decode all_digits
decode-none [] even bad = absurd (ground arith)
decode-none (a ∷ []) even bad = absurd (omega arith)
decode-none (a ∷ b ∷ text) even bad =
    ground (arith, decode-none text (omega arith), has_value-among a, has_value-among b)

decode-some : (text : List ℕ) → all_digits text ≡ true → decode text ≢ none
unfolding decode all_digits
decode-some [] good = λ e. ground arith
decode-some (a ∷ []) good = λ e. ground arith
decode-some (a ∷ b ∷ text) good =
    ground (arith, decode-some text, has_value-among a, has_value-among b)

-- If memory is left, `store_blob` refuses just the texts that have an odd length or a character
-- other than the hexadecimal digits 0 to 9, a to f and A to F.
pub store_blob_refuses :
    (set_code commit_code : ℕ) (text : List ℕ)
    → (store_blob true set_code commit_code text ≡ type_mismatch)
      ↔ ((length text % 2 ≡ 1) ⊎ (all_digits text ≡ false))
unfolding store_blob
store_blob_refuses set_code commit_code text = ground (arith, decode-none text, decode-some text)
