-- ===== src/Wifi/Events.antt =====
-- What events make of the state of wifi_sta_ap.c, and how a wait ends.
use dmesh_l.Base.{
  ℕ, ◌≡◌, refl, sym, ap, ◌∙◌, Bool, true, false, ◌||◌, Option, none, some, List, [], ◌∷◌, ◌++◌,
  if◌then◌else◌, append-nil, append_assoc, M, ◌>>◌, seq-then,
}
use dmesh_l.Wifi.Station.{
  WifiEvent, wifi_ready, sta_start, sta_connected, sta_disconnected, got_ip, WifiCall, wifi_connect,
  Wifi, called, with_group, event_handler, deliver, wait_connected,
}

-- What an event makes of the state.
abbrev pub handled : WifiEvent → Wifi → Wifi
handled sta_disconnected s = record s {
  start_bit = true;
  connected_bit = false;
  calls = s.calls ++ wifi_connect ∷ [];
}
handled got_ip s = record s { start_bit = true; connected_bit = true }
handled wifi_ready s = record s { start_bit = true }
handled sta_start s = record s { start_bit = true }
handled sta_connected s = record s { start_bit = true }

-- What an event makes of the connection, and the attempts to connect that it causes.
abbrev pub connection_after : Bool → WifiEvent → Bool
connection_after b sta_disconnected = false
connection_after b got_ip = true
connection_after b wifi_ready = b
connection_after b sta_start = b
connection_after b sta_connected = b

abbrev pub retries : WifiEvent → List WifiCall
retries sta_disconnected = wifi_connect ∷ []
retries got_ip = []
retries wifi_ready = []
retries sta_start = []
retries sta_connected = []

abbrev pub is_ip : WifiEvent → Bool
is_ip e = connection_after false e

-- The same for the events of a while.
abbrev pub settled : Bool → List WifiEvent → Bool
settled b [] = b
settled b (e ∷ es) = settled (connection_after b e) es

abbrev pub attempts : List WifiEvent → List WifiCall
attempts [] = []
attempts (e ∷ es) = retries e ++ attempts es

-- An address comes in, and the attempts until then.
abbrev pub has_ip : List WifiEvent → Bool
has_ip [] = false
has_ip (e ∷ es) = is_ip e || has_ip es

abbrev pub attempts_to_ip : List WifiEvent → List WifiCall
attempts_to_ip [] = []
attempts_to_ip (e ∷ es) = retries e ++ (if is_ip e then [] else attempts_to_ip es)

-- The group is there, the bit is as said, and the calls are those.
abbrev pub Stands : (connected : Bool) (calls : List WifiCall) → Wifi → Type 0
Stands connected calls s = (s.group ≡ true) × (s.connected_bit ≡ connected) × (s.calls ≡ calls)

pub handled-Stands :
    (e : WifiEvent) (b : Bool) (calls : List WifiCall) (s : Wifi)
    → Stands b calls s
    → Stands (connection_after b e) (calls ++ retries e) (handled e s)
handled-Stands sta_disconnected b calls s h = (h.0, refl, ap (λ l. l ++ wifi_connect ∷ []) h.2)
handled-Stands got_ip b calls s h = (h.0, refl, h.2 ∙ sym (append-nil calls))
handled-Stands wifi_ready b calls s h = (h.0, h.1, h.2 ∙ sym (append-nil calls))
handled-Stands sta_start b calls s h = (h.0, h.1, h.2 ∙ sym (append-nil calls))
handled-Stands sta_connected b calls s h = (h.0, h.1, h.2 ∙ sym (append-nil calls))

pub with_group-runs :
    (f : Wifi → Wifi) (s : Wifi) → s.group ≡ true → with_group f s ≡ some (tt, f s)
unfolding with_group
with_group-runs f s g = ap (λ b. if b then some (tt, f s) else none) g

pub with_group-aborts : (f : Wifi → Wifi) (s : Wifi) → s.group ≡ false → with_group f s ≡ none
unfolding with_group
with_group-aborts f s g = ap (λ b. if b then some (tt, f s) else none) g

-- A run after the first of three parts.
abbrev pub chain : Option (Unit {0} × Wifi) → M Wifi (Unit {0}) → Option (Unit {0} × Wifi)
chain none k = none
chain (some (a, t)) k = k t

pub >>-chain : (m k : M Wifi (Unit {0})) (s : Wifi) → (m >> k) s ≡ chain (m s) k
>>-chain m k s = go (m s)
  where
    go : (o : Option (Unit {0} × Wifi)) → elim o [ none ↦ none | some (a, t) ↦ k t ] ≡ chain o k
    go none = refl
    go (some (a, t)) = refl

pub assoc-then :
    (a b c : M Wifi (Unit {0})) {s t : Wifi} → a s ≡ some (tt, t) → (a >> b >> c) s ≡ (b >> c) t
assoc-then a b c {s} {t} e =
    >>-chain (a >> b) c s
    ∙ ap (λ o. chain o c) (>>-chain a b s ∙ ap (λ o. chain o b) e)
    ∙ sym (>>-chain b c t)

module _ (code : List WifiCall → WifiCall → ℕ) where
  pub event_handler-handled :
      (e : WifiEvent) (s : Wifi) → s.group ≡ true → event_handler code e s ≡ some (tt, handled e s)
  unfolding event_handler
  event_handler-handled wifi_ready s g =
      seq-then (with_group (λ t. record t { start_bit = true })) _ (with_group-runs _ s g) refl
  event_handler-handled sta_start s g =
      seq-then (with_group (λ t. record t { start_bit = true })) _ (with_group-runs _ s g) refl
  event_handler-handled sta_connected s g =
      seq-then (with_group (λ t. record t { start_bit = true })) _ (with_group-runs _ s g) refl
  event_handler-handled sta_disconnected s g =
      seq-then (with_group (λ t. record t { start_bit = true })) _ (with_group-runs _ s g)
        (with_group-runs _ (called (wifi_connect ∷ []) (record s { start_bit = true })) g)
  event_handler-handled got_ip s g =
      seq-then (with_group (λ t. record t { start_bit = true })) _ (with_group-runs _ s g)
        (with_group-runs _ (record s { start_bit = true }) g)

  pub deliver-Stands :
      (es : List WifiEvent) (b : Bool) (calls : List WifiCall) (s : Wifi)
      → Stands b calls s
      → (t : Wifi) × (deliver code es s ≡ some (tt, t))
        × Stands (settled b es) (calls ++ attempts es) t
  unfolding deliver
  deliver-Stands [] b calls s h = (s, refl, (h.0, h.1, h.2 ∙ sym (append-nil calls)))
  deliver-Stands (e ∷ es) b calls s h =
      let (t, run, stands) =
        deliver-Stands es (connection_after b e) (calls ++ retries e) (handled e s)
          (handled-Stands e b calls s h) in
      (
        t,
        seq-then (event_handler code e) _ (event_handler-handled e s h.0) run,
        (stands.0, stands.1, stands.2 ∙ append_assoc calls (retries e) (attempts es)),
      )

  -- A wait that finds the bit set, and one that does not.
  pub wait_connected-at_once :
      (es : List WifiEvent) (s : Wifi)
      → s.connected_bit ≡ true
      → wait_connected code es s ≡ some (true, s)
  unfolding wait_connected
  wait_connected-at_once [] s e = ap (λ b. some (b, s)) e
  wait_connected-at_once (e ∷ es) s up =
      ap (λ b. if b then some (true, s) else (event_handler code e >> wait_connected code es) s) up

  -- How a wait ends from a state with the bit as said.
  abbrev pub Waits :
      (connected : Bool) (es : List WifiEvent) (calls : List WifiCall) → Wifi → Type 0
  Waits connected es calls s =
      (t : Wifi) × (wait_connected code es s ≡ some (connected || has_ip es, t))
      × Stands (connected || has_ip es) (calls ++ (if connected then [] else attempts_to_ip es)) t

  pub wait_connected-Waits :
      (b : Bool) (es : List WifiEvent) (calls : List WifiCall) (s : Wifi)
      → Stands b calls s
      → Waits b es calls s
  unfolding wait_connected
  wait_connected-Waits true es calls s h =
      (s, wait_connected-at_once es s h.1, (h.0, h.1, h.2 ∙ sym (append-nil calls)))
  wait_connected-Waits false [] calls s h =
      (s, ap (λ b. some (b, s)) h.1, (h.0, h.1, h.2 ∙ sym (append-nil calls)))
  wait_connected-Waits false (e ∷ es) calls s h =
      let (t, run, stands) =
        wait_connected-Waits (is_ip e) es (calls ++ retries e) (handled e s)
          (handled-Stands e false calls s h) in
      (
        t,
        ap (λ b. if b then some (true, s) else (event_handler code e >> wait_connected code es) s)
              h.1
            ∙ seq-then (event_handler code e) (wait_connected code es)
                (event_handler-handled e s h.0) run,
        (stands.0, stands.1, stands.2 ∙ append_assoc calls (retries e) _),
      )
