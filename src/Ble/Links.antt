-- ===== src/Ble/Links.antt =====
-- How the events of ble_spp_server.c change the connection that `bleSend` uses.
use dmesh_l.Base.{
  ℕ, zero, suc, ◌-◌, ◌≤◌, ◌<◌, ◌≡◌, refl, ◌^◌, ◌≢◌, ◌⊎◌, take, get_or, ℕ_discrete, Bool, List, [],
  ◌∷◌, ◌++◌, arith, subst₂, inl, inr, Bool-cases, Option-cases, ◌+◌, leb, u8, length,
}
use dmesh_l.Ble.Send.{
  Call, Outcome, sent, bad_access, no_fuel, send_indicate, delay, Link, part, round, send_parts,
  part_count, send_fuel, send_long, ble_send,
}
use dmesh_l.Ble.Server.{
  Server, link, Event, mtu, connect, disconnect, start_service, creat_attr_tab, start_advertising,
  gatts_event_handler, run,
}

-- Neither a connect nor a disconnect.
abbrev pub IsQuiet : Event → Type 0
IsQuiet (connect conn_id bda) = ⊥
IsQuiet disconnect = ⊥
IsQuiet e = Unit {0}

abbrev pub AllQuiet : List (Event × ℕ) → Type 0
AllQuiet [] = Unit {0}
AllQuiet ((e, gatts_if) ∷ history) = IsQuiet e × AllQuiet history

-- The connection fields are those of `t`.
abbrev pub SameConnection : Server → Server → Type 0
SameConnection s t =
    (s.is_connected ≡ t.is_connected) × (s.conn_id ≡ t.conn_id) × (s.gatts_if ≡ t.gatts_if)

handler-SameConnection :
    (e : Event) (gatts_if : ℕ) (s : Server)
    → IsQuiet e
    → SameConnection (gatts_event_handler e gatts_if s).0 s
unfolding gatts_event_handler
handler-SameConnection (connect c b) gatts_if s q = elim q [ ]
handler-SameConnection disconnect gatts_if s q = elim q [ ]
handler-SameConnection e gatts_if s q = ground arith

pub run-SameConnection :
    (history : List (Event × ℕ)) (s : Server)
    → AllQuiet history
    → SameConnection (run history s).0 s
unfolding run
run-SameConnection [] s q = (refl, refl, refl)
run-SameConnection ((e, gatts_if) ∷ history) s q = ground (
  arith,
  handler-SameConnection e gatts_if s q.0,
  run-SameConnection history (gatts_event_handler e gatts_if s).0 q.1,
)

-- Every notification goes to this interface, connection and attribute.
abbrev pub AllTo : (gatts_if conn_id handle : ℕ) → List Call → Type 0
AllTo gi c h [] = Unit {0}
AllTo gi c h (delay ∷ calls) = AllTo gi c h calls
AllTo gi c h (send_indicate gatts_if conn_id handle value ∷ calls) =
    (gatts_if ≡ gi) × (conn_id ≡ c) × (handle ≡ h) × AllTo gi c h calls

AllTo-append :
    (gi c h : ℕ) (xs ys : List Call) → AllTo gi c h xs → AllTo gi c h ys → AllTo gi c h (xs ++ ys)
AllTo-append gi c h [] ys p q = q
AllTo-append gi c h (delay ∷ xs) ys p q = AllTo-append gi c h xs ys p q
AllTo-append gi c h (send_indicate _ _ _ _ ∷ xs) ys p q =
    (p.0, p.1, p.2, AllTo-append gi c h xs ys p.3 q)

module _ (k : Link) (value : List ℕ) (p total : ℕ) where
  round-AllTo :
      (current : ℕ) (bytes : List ℕ)
      → AllTo k.gatts_if k.conn_id k.nty_handle (round k total current bytes)
  unfolding round
  round-AllTo current bytes = (refl, refl, refl, tt)

  send_parts-AllTo :
      (fuel current : ℕ) (out calls : List Call)
      → AllTo k.gatts_if k.conn_id k.nty_handle out
      → send_parts k value p total fuel current out ≡ sent calls
      → AllTo k.gatts_if k.conn_id k.nty_handle calls
  unfolding send_parts
  send_parts-AllTo zero current out calls h e = cc
  send_parts-AllTo (suc fuel) current out calls h e = elim (Bool-cases (leb current total)) [
    | inl more ↦ elim (Option-cases (part value p total current)) [
      | inl bad ↦ absurd (ground arith)
      | inr (bytes, good) ↦
          send_parts-AllTo fuel (u8 (current + 1)) (out ++ round k total current bytes) calls
            (AllTo-append _ _ _ out _ h (round-AllTo current bytes)) (ground arith)
    ]
    | inr over ↦ ground arith
  ]

sent-AllTo :
    (k : Link) (malloc_ok : Bool) (value : List ℕ) (calls : List Call)
    → ble_send k malloc_ok value ≡ sent calls
    → AllTo k.gatts_if k.conn_id k.nty_handle calls
unfolding ble_send send_long
sent-AllTo k malloc_ok value calls e =
    let payload = k.mtu_size - 7 in
    ground (
      arith,
      send_parts-AllTo k value payload (u8 (part_count (length value) payload)) send_fuel 1 [] calls
          tt,
    )

-- The calls of a run that ends.
abbrev pub calls_of : Outcome → List Call
calls_of (sent calls) = calls
calls_of bad_access = []
calls_of no_fuel = []

Outcome-AllTo :
    (gi c h : ℕ) (o : Outcome)
    → ((calls : List Call) → o ≡ sent calls → AllTo gi c h calls)
    → AllTo gi c h (calls_of o)
Outcome-AllTo gi c h (sent calls) f = f calls refl
Outcome-AllTo gi c h bad_access f = tt
Outcome-AllTo gi c h no_fuel f = tt

ble_send-AllTo :
    (k : Link) (malloc_ok : Bool) (value : List ℕ)
    → AllTo k.gatts_if k.conn_id k.nty_handle (calls_of (ble_send k malloc_ok value))
ble_send-AllTo k malloc_ok value =
    Outcome-AllTo _ _ _ (ble_send k malloc_ok value) (sent-AllTo k malloc_ok value)

-- After a client has connected, and until the next connect or disconnect, every notification of
-- `bleSend` goes to that client's connection, on the interface that it came in on; after a
-- disconnect `bleSend` sends nothing, and advertising has been restarted.
pub ble_send_follows_link :
    (s : Server) (quiet : List (Event × ℕ)) (c gi : ℕ) (bda value : List ℕ) (malloc_ok : Bool)
    → AllQuiet quiet
    → (let k = link (run ((connect c bda, gi) ∷ quiet) s).0 in
        AllTo gi c k.nty_handle (calls_of (ble_send k malloc_ok value)))
      × (ble_send (link (run ((disconnect, gi) ∷ quiet) s).0) malloc_ok value ≡ sent [])
      × ((gatts_event_handler disconnect gi s).1 ≡ start_advertising ∷ [])
ble_send_follows_link s quiet c gi bda value malloc_ok q = (connected, closed, restarted)
  where
    restarted : (gatts_event_handler disconnect gi s).1 ≡ start_advertising ∷ []
    restarted = unfold gatts_event_handler in refl

    closed : ble_send (link (run ((disconnect, gi) ∷ quiet) s).0) malloc_ok value ≡ sent []
    closed =
        unfold run gatts_event_handler ble_send in
        ground (arith, run-SameConnection quiet (gatts_event_handler disconnect gi s).0 q)

    connected :
        let k = link (run ((connect c bda, gi) ∷ quiet) s).0 in
        AllTo gi c k.nty_handle (calls_of (ble_send k malloc_ok value))
    connected =
        let k : Link = link (run ((connect c bda, gi) ∷ quiet) s).0 in
        let same = run-SameConnection quiet (gatts_event_handler (connect c bda) gi s).0 q in
        unfold run gatts_event_handler in
        subst₂ (λ a b. AllTo a b k.nty_handle (calls_of (ble_send k malloc_ok value))) same.2 same.1
          (ble_send-AllTo k malloc_ok value)

-- The MTU that one client negotiated outlives its connection: with an MTU of `n` left over, a value
-- longer than the 20 bytes that a new connection carries, and no longer than `n - 3`, goes to the
-- next client as one notification.
pub mtu_outlives_link :
    (s : Server) (n c d gi : ℕ) (bda bda' value : List ℕ) (malloc_ok : Bool)
    → n < 2 ^ 16
    → 20 < length value
    → length value ≤ n - 3
    → let history : List (Event × ℕ) =
        (connect c bda, gi) ∷ (mtu n, gi) ∷ (disconnect, gi) ∷ (connect d bda', gi) ∷ [] in
      let k = link (run history s).0 in
      (k.mtu_size ≡ n)
      × (ble_send k malloc_ok value ≡ sent (send_indicate k.gatts_if d k.nty_handle value ∷ []))
unfolding run gatts_event_handler ble_send
mtu_outlives_link s n c d gi bda bda' value malloc_ok fits long short = ground arith

-- The attribute table is taken over, and the service started on its first handle, exactly when the
-- stack reports success for six attributes; otherwise nothing changes and nothing is called.
pub creat_attr_tab_lem :
    (s : Server) (status n gi : ℕ) (handles : List ℕ)
    → (((status ≡ 0) × (n ≡ 6))
        × (gatts_event_handler (creat_attr_tab status n handles) gi s ≡ (
          record s { handle_table = take 6 handles },
          start_service (get_or handles 0 0) ∷ [],
        )))
      ⊎ (((status ≢ 0) ⊎ (n ≢ 6))
          × (gatts_event_handler (creat_attr_tab status n handles) gi s ≡ (s, [])))
unfolding gatts_event_handler
creat_attr_tab_lem s status n gi handles = elim (ℕ_discrete status 0) [
  | yes e ↦ elim (ℕ_discrete n 6) [
    | yes f ↦ inl ((e, f), ground arith)
    | no f ↦ inr (inr f, ground arith)
  ]
  | no e ↦ inr (inl e, ground arith)
]
