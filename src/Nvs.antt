-- ===== src/Nvs.antt =====
-- What the components see of the flash storage (nvs), which is not part of the repository: its strings
-- and blobs, read in two calls, first for the length and then into a buffer.
use dmesh_l.Base.{ℕ, ◌+◌, ◌≡◌, ◌≢◌, Bool, true, false, List, [], ◌∷◌, ◌++◌, length}

-- What nvs_get_str does: its code, the length that it leaves, and the bytes that it writes.
pub record GetStr : Type 0 where
  pub err : ℕ
  pub len : ℕ
  pub written : List ℕ

-- The storage's strings: for a key, whether there is a buffer, and the length given.
abbrev pub Strings : Type 0
Strings = (key : List ℕ) (buffer : Bool) (len : ℕ) → GetStr

-- The storage holds a text under the key: it tells the length, the terminator included, and writes
-- as many bytes into a buffer that is said to have that length.
abbrev pub HoldsText : Strings → (key text : List ℕ) → Type 0
HoldsText strings key text =
    ((strings key false 0).len ≡ length text + 1)
    × (strings key true (length text + 1)
        ≡ record { err = 0; len = length text + 1; written = text ++ 0 ∷ [] })

-- The key is missing: both calls fail, leave the length and write nothing.
abbrev pub IsMissing : Strings → (key : List ℕ) → Type 0
IsMissing strings key =
    ((strings key false 0).len ≡ 0)
    × ((strings key true 0).err ≢ 0)
    × ((strings key true 0).written ≡ [])
