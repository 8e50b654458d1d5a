-- ===== src/Dmesh/Relay.antt =====
-- `onMessage` of dmesh.c over the links of the other components.
use dmesh_l.Base.{ℕ, Bool, Option, none, some, List, [], ◌∷◌, ◌++◌, ◌==◌, if◌then◌else◌}
use dmesh_l.Lora.Board.{Board}
use dmesh_l.Lora.Tasks.{App, lora_send}
use dmesh_l.Ble.Send.{Outcome, ble_send}
use dmesh_l.Ble.Server.{Server, link}
use dmesh_l.Bt.Port.{Port, PortCall, bt_send}

-- The links of a node, and what `bleSend` and `btSend` have done so far.
pub record Node (b : Board) : Type 0 where
  pub lora : App b
  pub server : Server
  pub port : Port
  pub ble_outcomes : List Outcome
  pub port_calls : List PortCall

module _ (b : Board) (malloc_ok : Bool) where
  -- `loraSend` for a message that starts with l.
  unfoldable pub to_lora : (first : ℕ) (message : List ℕ) → App b → Option (Unit {0} × App b)
  to_lora first message a = if first == b'l' then lora_send b message a else some (tt, a)

  -- `onMessage`; `from` is only logged. `none` is a read outside the message, or a LoRa
  -- transmission that does not end.
  unfoldable pub on_message : (c : List ℕ) → Node b → Option (Node b)
  on_message [] n = none
  on_message (first ∷ rest) n = elim (to_lora first (first ∷ rest) n.lora) [
    | none ↦ none
    | some (_, a) ↦ some (record n {
      lora = a;
      ble_outcomes = n.ble_outcomes ++ ble_send (link n.server) malloc_ok (first ∷ rest) ∷ [];
      port_calls = n.port_calls ++ bt_send (first ∷ rest) n.port;
    })
  ]
