-- ===== src/Ble/Reassembly.antt =====
-- Fragments sent by `bleSend` carry the value: a receiver that follows their headers gets it back.
use mathlib.Core.Option
use dmesh_l.Base.{
  ℕ, zero, suc, ◌+◌, ◌-◌, ◌*◌, ◌≤◌, ◌<◌, ◌≡◌, ap, ◌∙◌, true, Option, none, some, List, [], ◌∷◌,
  ◌++◌, append_assoc, arith, ◌==◌, if◌then◌else◌, u8, length, take, drop, length-drop, length-take,
  take-append-drop, drop-drop, take-length, ==_refl,
}
use dmesh_l.Ble.Send.{
  Call, send_indicate, delay, sent, Link, part, round, send_parts, part_count, send_fuel, send_long,
  ble_send,
}

-- A receiver: fragments must come in order from `expected` on, and the one numbered as the total
-- ends the value.
unfoldable pub collect : (expected : ℕ) → List Call → Option (List ℕ)
collect expected [] = none
collect expected (delay ∷ calls) = collect expected calls
collect expected (send_indicate gatts_if conn_id handle (h ∷ g ∷ total ∷ current ∷ bytes) ∷ calls) =
    if current == expected
    then if current == total
      then some bytes
      else Option.map (λ rest. bytes ++ rest) (collect (expected + 1) calls)
    else none
collect expected (send_indicate gatts_if conn_id handle short ∷ calls) = none

-- No notification is longer than `limit`.
abbrev pub AllFit : ℕ → List Call → Type 0
AllFit limit [] = Unit {0}
AllFit limit (delay ∷ calls) = AllFit limit calls
AllFit limit (send_indicate gatts_if conn_id handle value ∷ calls) =
    (length value ≤ limit) × AllFit limit calls

module _ (k : Link) (value : List ℕ) (p total : ℕ) where
  -- The rounds that are left, described on the bytes that are left.
  abbrev parts_from : (left before : ℕ) → List ℕ → List Call
  parts_from zero before rest = []
  parts_from (suc zero) before rest = round k total (suc before) rest
  parts_from (suc (suc n)) before rest =
      round k total (suc before) (take p rest) ++ parts_from (suc n) (suc before) (drop p rest)

  pub part_middle :
      (before : ℕ)
      → suc before < total
      → before * p + p ≤ length value
      → part value p total (suc before) ≡ some (take p (drop (before * p) value))
  unfolding part
  part_middle before h fits = ground arith

  pub part_last :
      (before : ℕ)
      → suc before ≡ total
      → before * p ≤ length value
      → length value ≤ before * p + p
      → part value p total (suc before) ≡ some (drop (before * p) value)
  unfolding part
  part_last before h lo hi = ground (
    arith,
    take-length (length value - before * p) (drop (before * p) value),
    length-drop (before * p) value,
  )

  pub send_parts-step :
      (fuel current : ℕ) (bytes : List ℕ) (out : List Call)
      → current ≤ total
      → part value p total current ≡ some bytes
      → send_parts k value p total (suc fuel) current out
        ≡ send_parts k value p total fuel (u8 (current + 1)) (out ++ round k total current bytes)
  unfolding send_parts
  send_parts-step fuel current bytes out h e = ground arith

  send_parts-end :
      (fuel current : ℕ) (out : List Call)
      → total < current
      → send_parts k value p total (suc fuel) current out ≡ sent out
  unfolding send_parts
  send_parts-end fuel current out h = ground arith

  -- The loop sends the parts that are left, and stops by its test.
  send_parts-eq :
      (n before fuel : ℕ) (out : List Call)
      → suc before + n ≡ total
      → total < 255
      → before * p + n * p < length value
      → length value ≤ before * p + n * p + p
      → suc n < fuel
      → send_parts k value p total fuel (suc before) out
        ≡ sent (out ++ parts_from (suc n) before (drop (before * p) value))
  send_parts-eq n before zero out e small lo hi f = absurd (omega arith)
  send_parts-eq n before (suc zero) out e small lo hi f = absurd (omega arith)
  send_parts-eq zero before (suc (suc fuel)) out e small lo hi f =
      send_parts-step (suc fuel) (suc before) _ out (omega arith)
        (part_last before (omega arith) (omega arith) (omega arith))
      ∙ send_parts-end fuel (u8 (suc before + 1)) _ (omega arith)
  send_parts-eq (suc n) before (suc (suc fuel)) out e small lo hi f =
      let next : u8 (suc before + 1) ≡ suc (suc before) = omega arith in
      let shift : drop p (drop (before * p) value) ≡ drop (suc before * p) value =
        drop-drop (before * p) p value ∙ ap (λ j. drop j value) (omega arith) in
      send_parts-step (suc fuel) (suc before) _ out (omega arith)
        (part_middle before (omega arith) (omega arith))
      ∙ rw (next, shift, ← append_assoc)
          (send_parts-eq n (suc before) (suc fuel) _ (omega arith) small (omega arith) (omega arith)
            (omega arith))

  collect-parts_from :
      (n before : ℕ) (rest : List ℕ)
      → suc before + n ≡ total
      → collect (suc before) (parts_from (suc n) before rest) ≡ some rest
  unfolding collect round
  collect-parts_from zero before rest e = ground (arith, ==_refl (suc before))
  collect-parts_from (suc n) before rest e = ground (
    arith,
    collect-parts_from n (suc before) (drop p rest),
    take-append-drop p rest,
    ==_refl (suc before),
  )

  parts_from-AllFit :
      (n before : ℕ) (rest : List ℕ)
      → length rest ≤ n * p + p
      → AllFit (p + 4) (parts_from (suc n) before rest)
  unfolding round
  parts_from-AllFit zero before rest h = (omega arith, tt)
  parts_from-AllFit (suc n) before rest h = (
    omega (arith, length-take p rest),
    parts_from-AllFit n (suc before) (drop p rest) (omega (arith, length-drop p rest)),
  )

pub part_count_bounds :
    (size p : ℕ)
    → 0 < p
    → 0 < size
    → (0 < part_count size p) × (part_count size p * p < size + p) × (size ≤ part_count size p * p)
unfolding part_count
part_count_bounds size p hp hs = grind arith

part_count-le : (size p n : ℕ) → 0 < p → 0 < size → size ≤ n * p → part_count size p ≤ n
part_count-le size p n hp hs h = grind (arith, part_count_bounds size p hp hs)

pub ble_send_enters :
    (k : Link) (value : List ℕ)
    → k.is_connected ≡ true
    → 8 ≤ k.mtu_size
    → k.mtu_size - 3 < length value
    → ble_send k true value
      ≡ send_parts k value
          (k.mtu_size - 7)
          (u8 (part_count (length value) (k.mtu_size - 7)))
          send_fuel
          1
          []
unfolding ble_send send_long
ble_send_enters k value up mtu long = ground arith

send_parts_all :
    (k : Link) (value : List ℕ) (p n : ℕ)
    → suc n < 255
    → n * p < length value
    → length value ≤ n * p + p
    → send_parts k value p (suc n) send_fuel 1 []
      ≡ sent (parts_from k value p (suc n) (suc n) 0 value)
send_parts_all k value p n small lo hi =
    let start : 0 * p ≡ 0 = omega arith in
    rw start at (
      send_parts-eq k value p (suc n) n 0 send_fuel [] (omega arith) small (omega arith)
        (omega arith) (omega arith))

sends_all :
    (k : Link) (value : List ℕ) (p total : ℕ)
    → p + 4 ≡ k.mtu_size - 3
    → 0 < total
    → total < 255
    → total * p < length value + p
    → length value ≤ total * p
    → (calls : List Call) × (send_parts k value p total send_fuel 1 [] ≡ sent calls)
      × (collect 1 calls ≡ some value)
      × AllFit (k.mtu_size - 3) calls
sends_all k value p zero room some_parts small lo hi = absurd (omega arith)
sends_all k value p (suc n) room some_parts small lo hi = (
  parts_from k value p (suc n) (suc n) 0 value,
  send_parts_all k value p n small (omega arith) (omega arith),
  collect-parts_from k value p (suc n) n 0 value (omega arith),
  rw (← room) (parts_from-AllFit k value p (suc n) n 0 value (omega arith)),
)

-- A value that one notification cannot carry and that needs at most 254 fragments is sent by a
-- connected server with an MTU of at least 8 and room for the buffer: the call returns, a receiver
-- that checks the numbers in the fragment headers gets exactly the value back, and no fragment is
-- longer than MTU - 3.
pub ble_send_reassembles :
    (k : Link) (value : List ℕ)
    → k.is_connected ≡ true
    → 8 ≤ k.mtu_size
    → k.mtu_size - 3 < length value
    → length value ≤ 254 * (k.mtu_size - 7)
    → (calls : List Call) × (ble_send k true value ≡ sent calls)
      × (collect 1 calls ≡ some value)
      × AllFit (k.mtu_size - 3) calls
ble_send_reassembles k value up mtu long short =
    let p : ℕ = k.mtu_size - 7 in
    let total : ℕ = part_count (length value) p in
    let bounds = part_count_bounds (length value) p (omega arith) (omega arith) in
    let small : total ≤ 254 =
      part_count-le (length value) p 254 (omega arith) (omega arith) short in
    let byte : u8 total ≡ total = omega arith in
    rw (ble_send_enters k value up mtu long, byte)
      (sends_all k value p total (omega arith) bounds.0 (omega arith) bounds.1 bounds.2)
