-- ===== src/Console/Tests.antt =====
-- The theorems on the settings of console.c at concrete inputs.
use dmesh_l.Base.{
  signed_text, suc, some, ℕ, ◌≡◌, ◌↔◌, ◌⊎◌, refl, true, false, [], ◌∷◌, arith, codes,
}
use dmesh_l.Console.Types.{type_i8, type_str, type_blob}
use dmesh_l.Console.Blob.{set_blob, type_mismatch, store_blob, print_blob}
use dmesh_l.Console.Digits.{store_blob-print_blob, all_digits, store_blob_refuses}
use dmesh_l.Console.Values.{
  Numbers, nvs_set_str, nvs_set_blob, nvs_set, nvs_commit, nvs_close, nvs_error, value_too_long,
  set_typed,
}
use dmesh_l.Nvs.{Strings}
use dmesh_l.Console.Values.{Store}
use dmesh_l.Console.Types.{type_u8}
use dmesh_l.Console.Reading.{NumberStore, read, line, get_typed}
use dmesh_l.Console.Storage.{number_after}
use dmesh_l.Console.Settings.{IsStored, get_typed-set_typed}
use dmesh_l.Console.Task.{
  holds_after, initial_console, hooked, console_round, console_rounds, console_lock_lem,
}
use dmesh_l.Console.Ranges.{errno_sticks, set_narrow_lem}
use dmesh_l.Base.{ℤ}

store_blob-print_blob_example :
    store_blob true 0 0 (print_blob (0x1f ∷ 0xa0 ∷ [])) ≡ set_blob (0x1f ∷ 0xa0 ∷ []) 0
store_blob-print_blob_example =
    store_blob-print_blob (0x1f ∷ 0xa0 ∷ []) 0 0 (omega arith, (omega arith, tt))

store_blob_refuses_example :
    (store_blob true 0 0 (codes "1x") ≡ type_mismatch)
    ↔ ((◌≡◌ {A = ℕ} 0 1) ⊎ (all_digits (codes "1x") ≡ false))
store_blob_refuses_example = store_blob_refuses 0 0 (codes "1x")

-- Conversions that read every text as 100 or as 200, and two that are always out of range.
abbrev numbers : Numbers
numbers = record {
  strtol = λ t. (ℤ.pos 100, false);
  strtoul = λ t. (ℤ.pos 200, false);
  strtoll = λ t. (ℤ.pos 0, true);
  strtoull = λ t. (ℤ.pos 0, true);
}

abbrev out_of_range : Store
out_of_range = record { erange = true; calls = [] }

errno_sticks_example :
    let set = set_typed numbers (λ _. 0) true (codes "k") in
    (((set type_i8 (codes "1") out_of_range).0 ≡ value_too_long)
      × ((set type_i8 (codes "1") out_of_range).1.calls ≡ nvs_close ∷ []))
    × (((set type_str (codes "1") out_of_range).0 ≡ value_too_long)
        × ((set type_str (codes "1") out_of_range).1.calls
            ≡ nvs_set_str (codes "k") (codes "1") ∷ nvs_close ∷ []))
    × (((set type_blob (print_blob (7 ∷ [])) out_of_range).0 ≡ value_too_long)
        × ((set type_blob (print_blob (7 ∷ [])) out_of_range).1.calls
            ≡ nvs_set_blob (codes "k") (7 ∷ []) ∷ nvs_commit ∷ nvs_close ∷ []))
errno_sticks_example =
    errno_sticks numbers (λ _. 0) (codes "k") type_i8 (codes "1") (7 ∷ []) out_of_range refl refl
      (omega arith, tt) refl

set_narrow_lem_example :
    let r =
      set_typed numbers
        (λ _. 0)
        true
        (codes "k")
        type_i8
        (codes "100")
        (record { erange = false; calls = [] }) in
    (r.0 ≡ nvs_error 0)
    × (r.1.calls ≡ nvs_set (codes "k") type_i8 (ℤ.pos 100) ∷ nvs_commit ∷ nvs_close ∷ [])
set_narrow_lem_example =
    set_narrow_lem numbers (λ _. 0) true (codes "k") type_i8 (codes "100")
      (record { erange = false; calls = [] }) refl refl refl refl

abbrev nothing_done : Store
nothing_done = record { erange = false; calls = [] }

-- Conversions that read every text as 42, and a storage that has 7 under every key.
abbrev reads_42 : Numbers
reads_42 = record {
  strtol = λ t. (ℤ.pos 42, false);
  strtoul = λ t. (ℤ.pos 42, false);
  strtoll = λ t. (ℤ.pos 42, false);
  strtoull = λ t. (ℤ.pos 42, false);
}

abbrev has_7 : NumberStore
has_7 type key = (0, ℤ.pos 7)

abbrev no_strings : Strings
no_strings key buffer len = record { err = 0x1102; len = len; written = [] }

get_typed-set_typed_example :
    let r =
      set_typed reads_42 (λ _. 0) true (codes "k") type_u8 (signed_text (ℤ.pos 42)) nothing_done in
    IsStored reads_42 (λ _. 0) true (codes "k") type_u8 (ℤ.pos 42) nothing_done r
    × (get_typed
          (number_after r.1.calls has_7)
          no_strings
          no_strings
          (λ _. true)
          type_u8
          (codes "k")
        ≡ some (read 0 (line (signed_text (ℤ.pos 42)))))
get_typed-set_typed_example =
    get_typed-set_typed has_7 no_strings no_strings (λ _. true) reads_42 (λ _. 0) true type_u8
      (ℤ.pos 42) (codes "k") nothing_done refl refl refl refl refl

console_lock_lem_example :
    let c = console_rounds (record { hooks = 0; has_line = true } ∷ []) initial_console in
    ((hooks : ℕ) → holds_after 0 (hooked (suc hooks) c).calls ≡ 1)
    × (holds_after 0 (console_round (record { hooks = 2; has_line = false }) c).calls ≡ 1)
console_lock_lem_example =
    console_lock_lem (record { hooks = 0; has_line = true } ∷ [])
      (record { hooks = 2; has_line = false })
