-- ===== src/Console/Storage.antt =====
-- What a read of the flash storage sees behind the calls that console.c has made.
use dmesh_l.Base.{
  ℕ, ◌≡◌, refl, true, ◌&&◌, List, [], ◌∷◌, ◌++◌, ◌==◌, if◌then◌else◌, ℤ, bytes_eq, bytes_eq_iff,
  ==_refl,
}
use dmesh_l.Console.Types.{NvsType, type_number}
use dmesh_l.Console.Values.{
  NvsCall, nvs_open, nvs_commit, nvs_close, nvs_set, nvs_set_str, nvs_set_blob,
}
use dmesh_l.Console.Reading.{NumberStore}

-- A number put under a key, for its type; all else is as before.
abbrev pub put : (key : List ℕ) → NvsType → ℤ → NumberStore → NumberStore
put key type v n type' key' =
    if bytes_eq key' key && type_number type' == type_number type then (0, v) else n type' key'

-- The numbers that nvs_get_i8 and its like give after the calls: the last one that was set.
abbrev pub number_after : List NvsCall → NumberStore → NumberStore
number_after [] n = n
number_after (nvs_set key type v ∷ cs) n = number_after cs (put key type v n)
number_after (nvs_set_str key bytes ∷ cs) n = number_after cs n
number_after (nvs_set_blob key bytes ∷ cs) n = number_after cs n
number_after (nvs_open ∷ cs) n = number_after cs n
number_after (nvs_commit ∷ cs) n = number_after cs n
number_after (nvs_close ∷ cs) n = number_after cs n

number_after-append :
    (xs ys : List NvsCall) (n : NumberStore)
    → number_after (xs ++ ys) n ≡ number_after ys (number_after xs n)
number_after-append [] ys n = refl
number_after-append (nvs_set key type v ∷ xs) ys n = number_after-append xs ys (put key type v n)
number_after-append (nvs_set_str key bytes ∷ xs) ys n = number_after-append xs ys n
number_after-append (nvs_set_blob key bytes ∷ xs) ys n = number_after-append xs ys n
number_after-append (nvs_open ∷ xs) ys n = number_after-append xs ys n
number_after-append (nvs_commit ∷ xs) ys n = number_after-append xs ys n
number_after-append (nvs_close ∷ xs) ys n = number_after-append xs ys n

-- A number that has just been stored is read under its key.
pub number_after-set :
    (calls : List NvsCall) (key : List ℕ) (type : NvsType) (v : ℤ) (n : NumberStore)
    → number_after (calls ++ nvs_set key type v ∷ nvs_commit ∷ nvs_close ∷ []) n type key ≡ (0, v)
number_after-set calls key type v n =
    let same : bytes_eq key key ≡ true = (bytes_eq_iff key key).1 refl in
    rw (number_after-append calls, same, ==_refl (type_number type)) refl
