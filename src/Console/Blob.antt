-- ===== src/Console/Blob.antt =====
-- `store_blob` and `print_blob` of console.c.
use dmesh_l.Base.{
  ℕ, ◌+◌, ◌-◌, ◌*◌, ◌/◌, ◌%◌, Bool, ◌&&◌, Option, none, some, List, [], ◌∷◌, leb, ltb, ◌==◌,
  if◌then◌else◌, u8, length,
}

infixl 5 ◌>>=◌
abbrev ◌>>=◌ : {A B : Type 0} → Option A → (A → Option B) → Option B
◌>>=◌ none f = none
◌>>=◌ (some a) f = f a

-- The digits of `store_blob`.
unfoldable pub hex_value : (ch : ℕ) → Option ℕ
hex_value ch =
    if leb b'0' ch && leb ch b'9'
    then some (ch - b'0')
    else if leb b'A' ch && leb ch b'F'
    then some (ch - b'A' + 10)
    else if leb b'a' ch && leb ch b'f'
    then some (ch - b'a' + 10)
    else none

-- blob[j] = first << 4; blob[j++] += second
abbrev pub joined : (first second : ℕ) → ℕ
joined first second = u8 (u8 (first * 16) + second)

-- The loop of `store_blob` over the digits, two at a time; `none` is an invalid character, and a
-- text of odd length does not get here.
unfoldable pub decode : List ℕ → Option (List ℕ)
decode (a ∷ b ∷ rest) = do
  first ← hex_value a
  second ← hex_value b
  bytes ← decode rest
  some (joined first second ∷ bytes)
decode _ = some []

-- What `store_blob` returns, and the value that it passes to nvs_set_blob.
pub data Stored : Type 0 where
  type_mismatch no_mem : Stored
  set_blob : (bytes : List ℕ) (err : ℕ) → Stored

-- `store_blob`: the codes are those of nvs_set_blob and nvs_commit.
unfoldable pub store_blob :
    (malloc_ok : Bool) (set_code commit_code : ℕ) (str_values : List ℕ) → Stored
store_blob malloc_ok set_code commit_code str_values =
    let err = if set_code == 0 then commit_code else set_code in
    let done : Stored = elim (decode str_values) [
      | none ↦ type_mismatch
      | some bytes ↦ set_blob bytes err
    ] in
    if length str_values % 2 == 0 then (if malloc_ok then done else no_mem) else type_mismatch

-- A digit of %02x.
unfoldable pub hex_digit : ℕ → ℕ
hex_digit n = if ltb n 10 then b'0' + n else b'a' + (n - 10)

-- `print_blob`, less the end of the line.
unfoldable pub print_blob : List ℕ → List ℕ
print_blob [] = []
print_blob (x ∷ xs) = hex_digit (x / 16) ∷ hex_digit (x % 16) ∷ print_blob xs
