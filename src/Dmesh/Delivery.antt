-- ===== src/Dmesh/Delivery.antt =====
-- What reaches the links of a message that dmesh.c relays.
use dmesh_l.Base.{
  ◌∙◌, ℕ, ◌-◌, ◌*◌, ◌≤◌, ◌<◌, ◌≡◌, ◌≢◌, refl, ap, true, some, List, [], ◌∷◌, ◌++◌, arith, length,
  map, u8,
}
use dmesh_l.Lora.Board.{Board, IsTransceiver, window}
use dmesh_l.Lora.Driver.{write_reg}
use dmesh_l.Lora.Radio.{start_packet}
use dmesh_l.Lora.Tasks.{App}
use dmesh_l.Lora.Config.{settings_of}
use dmesh_l.Lora.Sending.{after_polls, is_sent}
use dmesh_l.Lora.Uplink.{ready, lora_send_lem}
use dmesh_l.Ble.Send.{Call, sent, ble_send}
use dmesh_l.Ble.Server.{link}
use dmesh_l.Ble.Reassembly.{collect, AllFit, ble_send_reassembles}
use dmesh_l.Bt.Port.{spp_write, bt_send}
use dmesh_l.Dmesh.Relay.{Node, to_lora, on_message}

module _ (b : Board) where
  -- A Bluetooth client, and a BLE client with an MTU of at least 8 for which the message is too long
  -- for one notification and takes at most 254 fragments.
  pub record HasClients (message : List ℕ) (n : Node b) : Type 0 where
    pub handle : n.port.spp_handle ≢ 0
    pub connected : (link n.server).is_connected ≡ true
    pub mtu : 8 ≤ (link n.server).mtu_size
    pub long : (link n.server).mtu_size - 3 < length message
    pub short : length message ≤ 254 * ((link n.server).mtu_size - 7)

  -- The notifications of the BLE client fit its MTU and add up to the message, and the Bluetooth
  -- client gets it in one write.
  abbrev pub ReachesClients : (message : List ℕ) (n n' : Node b) → Type 0
  ReachesClients message n n' =
      (calls : List Call) × (n'.ble_outcomes ≡ n.ble_outcomes ++ sent calls ∷ [])
      × (collect 1 calls ≡ some message)
      × AllFit ((link n.server).mtu_size - 3) calls
      × (n'.port_calls ≡ n.port_calls ++ spp_write n.port.spp_handle message ∷ [])

  on_message-clients :
      (first : ℕ) (rest : List ℕ) (n : Node b) (a : App b)
      → HasClients (first ∷ rest) n
      → to_lora b true first (first ∷ rest) n.lora ≡ some (tt, a)
      → (n' : Node b) × (on_message b true (first ∷ rest) n ≡ some n')
        × ReachesClients (first ∷ rest) n n'
        × (n'.lora ≡ a)
  unfolding on_message bt_send
  on_message-clients first rest n a h run =
      let (calls, e, whole, fits) =
        ble_send_reassembles (link n.server) (first ∷ rest) h.connected h.mtu h.long h.short in
      let handle = h.handle in
      let writes : bt_send (first ∷ rest) n.port ≡ spp_write n.port.spp_handle (first ∷ rest) ∷ [] =
        ground arith in
      (
        record n {
          lora = a;
          ble_outcomes = n.ble_outcomes ++ ble_send (link n.server) true (first ∷ rest) ∷ [];
          port_calls = n.port_calls ++ bt_send (first ∷ rest) n.port;
        },
        rw (run, on_message),
        (calls, ap (λ o. n.ble_outcomes ++ o ∷ []) e, whole, fits, ap (◌++◌ n.port_calls) writes),
        refl,
      )

  -- If memory is left for the BLE buffer, a message that does not start with l is relayed to a
  -- Bluetooth client and to a BLE client with an MTU of at least 8, if both are connected and the
  -- message needs more than one and at most 254 notifications: those of the BLE client fit its MTU
  -- and add up to the message, the Bluetooth client gets it in one write, and LoRa is left alone.
  pub on_message_lem :
      (first : ℕ) (rest : List ℕ) (n : Node b)
      → first ≢ b'l'
      → HasClients (first ∷ rest) n
      → (n' : Node b) × (on_message b true (first ∷ rest) n ≡ some n')
        × ReachesClients (first ∷ rest) n n'
        × (n'.lora ≡ n.lora)
  unfolding to_lora
  on_message_lem first rest n apart h = on_message-clients first rest n n.lora h (ground arith)

  -- If memory is left for the BLE buffer, a message of at most 255 bytes that starts with l is relayed
  -- to a Bluetooth client and to a BLE client with an MTU of at least 8, if both are connected and the
  -- message needs more than one and at most 254 notifications, and over LoRa, if the transceiver
  -- reports the end of the transmission after `polls` looks and the driver may look more often than
  -- that. The notifications of the BLE client fit its MTU and add up to the message, and the Bluetooth
  -- client gets it in one write. Before the interrupt is acknowledged the transceiver has the message
  -- in its memory from address 0 on, and is set to transmit as many bytes as it has, with an explicit
  -- header and inverted IQ.
  pub on_message_uplink :
      (t : IsTransceiver b) (rest : List ℕ) (polls : ℕ) (n : Node b)
      → let message = b'l' ∷ rest in
        length message ≤ 255
        → polls < n.lora.polls
        → is_sent b t (after_polls b t polls (start_packet b message (ready b t n.lora.radio)))
          ≡ true
        → HasClients message n
        → (n' : Node b) × (c : b.Chip) × (on_message b true message n ≡ some n')
          × ReachesClients message n n'
          × (n'.lora.radio.chip ≡ write_reg b 0x12 0x08 c)
          × (window (t.memory c) 0 (length message) ≡ map u8 message)
          × ((settings_of b t c).mode ≡ 0x83)
          × ((settings_of b t c).payload_length ≡ length message)
          × ((settings_of b t c).implicit ≡ 0)
          × ((settings_of b t c).invert ≡ 0x66)
  unfolding to_lora
  on_message_uplink t rest polls n fits h done clients =
      let (c, run, held, set) = lora_send_lem b t (b'l' ∷ rest) polls n.lora (omega arith) h done in
      let (n', e, reached, radio) = on_message-clients b'l' rest n _ clients run in
      (
        n',
        c,
        e,
        reached,
        ap (λ a. a.radio.chip) radio,
        held,
        ap (λ s. s.mode) set,
        ap (λ s. s.payload_length) set ∙ omega arith,
        ap (λ s. s.implicit) set,
        ap (λ s. s.invert) set,
      )
