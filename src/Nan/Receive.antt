-- ===== src/Nan/Receive.antt =====
-- The receiving side of nan.c: beacons, action frames, and the promiscuous callback.
use dmesh_l.Base.{
  ℕ, zero, suc, ◌+◌, ◌-◌, ◌*◌, Bool, true, false, ◌&&◌, ◌||◌, not, some, List, [], ◌∷◌, ◌++◌, ltb,
  leb, ◌==◌, if◌then◌else◌, sub32, inc32, add32, length, get_elem?, set, bytes_eq, M, ◌>>=◌, ◌>>◌,
  pure, modify, fault, lift_option, slice, overwrite, when, with_state, codes,
}
use dmesh_l.Nan.Frames.{frame_dst, frame_src, frame_ssid, frame_data, nan_action_start}
use dmesh_l.Nan.Driver.{Nan, Env, current_time_micro, send_publish, send_now}

-- frame[i]
abbrev pub byte_at : List ℕ → ℕ → M Nan ℕ
byte_at frame i = lift_option (get_elem? frame i)

abbrev pub bytes_at : List ℕ → (i n : ℕ) → M Nan (List ℕ)
bytes_at frame i n = lift_option (slice frame i n)

-- The assignments between the calls.
abbrev pub note_beacon : (now : ℕ) (net : List ℕ) → Nan → Nan
note_beacon now net s = record s {
  nan_net = net;
  peer = record s.peer { last_seen = now; nan_net = net };
}

abbrev pub drop_message : Nan → Nan
drop_message s = record s { peer = record s.peer { out_queue_len = s.peer.out_queue_len - 1 } }

abbrev pub note_message : Nan → Nan
note_message s = record s { nan_messages_in = inc32 s.nan_messages_in }

abbrev pub note_destination : (dst : List ℕ) → Nan → Nan
note_destination dst s = record s {
  nan_packets_others =
      if bytes_eq dst s.mymac then s.nan_packets_others else inc32 s.nan_packets_others;
}

abbrev pub note_subscribe : Nan → Nan
note_subscribe s = record s { sub_received = inc32 s.sub_received }

abbrev pub note_publish : Nan → Nan
note_publish s = record s { pub_received = inc32 s.pub_received }

abbrev pub note_instance : ℕ → Nan → Nan
note_instance instance_id s = record s { peer = record s.peer { instance_id = instance_id } }

abbrev pub note_mac : List ℕ → Nan → Nan
note_mac src s = record s { peer = record s.peer { mac = src } }

abbrev pub note_network : List ℕ → Nan → Nan
note_network net s = record s { nan_net = net; peer = record s.peer { nan_net = net } }

abbrev pub note_capture : (len : ℕ) → Nan → Nan
note_capture len s = record s {
  captured_since_last = add32 s.captured_since_last len;
  cap_packets = inc32 s.cap_packets;
}

abbrev pub note_packet : Nan → Nan
note_packet s = record s { nan_packets = inc32 s.nan_packets }

-- The four bytes that `resBuf` starts with.
abbrev pub pong : List ℕ
pong = codes "PONG"

abbrev pub ping : List ℕ
ping = codes "PING"

abbrev pub res_buf_size : ℕ
res_buf_size = 64

-- How a walk over the attributes ends: after the last one, at one that is empty or too long, or,
-- in the model only, without fuel.
pub data Walk : Type 0 where
  walked overflow out_of_fuel : Walk

-- How the callback ends.
pub data Sniffed : Type 0 where
  not_management other_bssid beacon not_action not_nan not_sdf : Sniffed
  action : Walk → Sniffed

abbrev pub note_reply : (tail : List ℕ) → Nan → Nan
note_reply tail s = record s { res_buf = overwrite s.res_buf 0 (pong ++ tail) }

module _ (v : Env) where
  -- The first message of the queue, if there is one. The slot is not moved up.
  unfoldable pub send_queued : M Nan (Unit {0})
  send_queued =
      when (λ s. ltb 0 s.peer.out_queue_len)
        (with_state λ s. lift_option (get_elem? s.peer.out_queue 0) >>= λ m.
          send_now v s.peer.mac s.peer.instance_id m.bytes m.len >> modify drop_message)

  -- The sync branch of `handleBeacon`.
  unfoldable pub on_sync_beacon : (now : ℕ) → M Nan (Unit {0})
  on_sync_beacon now s = (send_publish v >> send_queued) (record s {
    nan_s_beacon = inc32 s.nan_s_beacon;
    last_s_beacon = now;
    peer = record s.peer { sync_beacons = inc32 s.peer.sync_beacons };
  })

  -- Its discovery branch.
  unfoldable pub on_discovery_beacon : (now : ℕ) → Nan → Nan
  on_discovery_beacon now s = record s {
    nan_d_beacon = inc32 s.nan_d_beacon;
    last_d_beacon = now;
    peer = record s.peer { discovery_beacons = inc32 s.peer.discovery_beacons };
  }

  -- `handleBeacon`
  unfoldable pub handle_beacon : (frame : List ℕ) → M Nan (Unit {0})
  handle_beacon frame s =
      (current_time_micro v >>= λ now. bytes_at frame (frame_ssid + 4) 2 >>= λ net.
      modify (note_beacon now net) >> byte_at frame (frame_data + 8) >>= λ low.
      if low == 0
      then (byte_at frame (frame_data + 9) >>= λ high.
          if high == 2 then on_sync_beacon now else modify (on_discovery_beacon now))
      else modify (on_discovery_beacon now))
        s

  -- The answer to a message that starts with PING: `tlen` bytes from 4 bytes behind the start of
  -- the message are copied behind the PONG in `resBuf`.
  unfoldable pub answer_ping : (frame : List ℕ) (i tlen : ℕ) → M Nan (Unit {0})
  answer_ping frame i tlen s =
      (bytes_at frame (i + 4) tlen >>= λ tail. bytes_at frame frame_src 6 >>= λ src.
      if v.res_writable && leb (4 + tlen) res_buf_size
      then modify (note_reply tail)
        >> with_state (λ s1. send_now v src s1.peer.instance_id s1.res_buf (tlen + 4))
      else fault)
        s

  -- The last branch for a service descriptor: the frame that is left, with its byte behind the
  -- message set to 0.
  unfoldable pub on_message : (frame : List ℕ) (i tlen : ℕ) → M Nan (List ℕ)
  on_message frame i tlen s =
      (modify note_message >> bytes_at frame i 4 >>= λ start.
      (if bytes_eq ping start then answer_ping frame i tlen else pure tt)
      >> bytes_at frame frame_dst 6
      >>= λ dst. modify (note_destination dst) >> current_time_micro v >>= λ _.
          if ltb (i + tlen) (length frame) then pure (set frame (i + tlen) 0) else fault)
        s

  -- The branch on the service control.
  unfoldable pub on_control : (frame : List ℕ) (control i tlen : ℕ) → M Nan (List ℕ)
  on_control frame control i tlen s =
      if control == 0x11
      then (send_publish v >> modify note_subscribe >> pure frame) s
      else if control == 0x10
      then (bytes_at frame frame_src 6 >>= λ src.
            with_state (λ s1. send_now v src s1.peer.instance_id (codes "PINGp") 5)
            >> send_publish v
            >> modify note_publish
            >> pure frame)
          s
      else on_message frame i tlen s

  -- A service descriptor whose content starts at `i`.
  unfoldable pub on_descriptor : (frame : List ℕ) (i : ℕ) → M Nan (List ℕ)
  on_descriptor frame i s =
      (byte_at frame (i + 6) >>= λ instance_id.
      modify (note_instance instance_id) >> byte_at frame (i + 7) >>= λ _.
      byte_at frame (i + 8) >>= λ control. byte_at frame (i + 9) >>= λ tlen.
      bytes_at frame frame_src 6 >>= λ src.
      modify (note_mac src) >> on_control frame control (i + 10) tlen)
        s

  -- One attribute with content from `i` on.
  unfoldable pub on_attribute : (frame : List ℕ) (tag i : ℕ) → M Nan (List ℕ)
  on_attribute frame tag i s = if tag == 3 then on_descriptor frame i s else some (frame, s)

  -- The tag and the length of an attribute.
  abbrev pub tag_at : (frame : List ℕ) (next : ℕ) → M Nan (ℕ × ℕ)
  tag_at frame next = byte_at frame next >>= λ tag. byte_at frame (next + 1) >>= λ low.
      byte_at frame (next + 2) >>= λ high. pure (tag, 256 * high + low)

  -- The loop of `handleDAF`. `len` is a `uint32_t`, so the test wraps for a `len` below 4.
  unfoldable pub walk_attributes : (fuel : ℕ) (len next : ℕ) (frame : List ℕ) → M Nan Walk
  walk_attributes zero len next frame s = some (out_of_fuel, s)
  walk_attributes (suc fuel) len next frame s = elim (ltb next (sub32 len 4)) [
    | false ↦ some (walked, s)
    | true ↦
        (tag_at frame next >>= λ t.
        if t.1 == 0 || ltb len (next + 3 + t.1)
        then pure overflow
        else on_attribute frame t.0 (next + 3) >>= λ frame'.
            walk_attributes fuel len (next + 3 + t.1) frame')
          s
  ]

  -- `handleDAF`, with fuel for one round more than the frame has bytes.
  unfoldable pub handle_daf : (frame : List ℕ) (len : ℕ) → M Nan Walk
  handle_daf frame len s =
      (bytes_at frame 20 2 >>= λ net.
      modify (note_network net) >> walk_attributes (suc len) len nan_action_start frame)
        s

  -- The tests of `sniffer_cb1` on bytes of the frame, from left to right: whether all have the
  -- given values.
  unfoldable pub matches : (frame : List ℕ) → List (ℕ × ℕ) → M Nan Bool
  matches frame [] s = some (true, s)
  matches frame ((i, value) ∷ tests) s =
      (byte_at frame i >>= λ x. if x == value then matches frame tests else pure false) s

  -- `sniffer_cb1`; `is_mgmt` is `type == WIFI_PKT_MGMT`.
  unfoldable pub sniffer_cb1 : (is_mgmt : Bool) (frame : List ℕ) (len : ℕ) → M Nan Sniffed
  sniffer_cb1 is_mgmt frame len s =
      (current_time_micro v >>= λ now2.
      modify (note_capture len)
      >> (if not is_mgmt
          then pure not_management
          else matches frame ((16, 0x50) ∷ (17, 0x6f) ∷ (18, 0x9a) ∷ []) >>= λ nan.
              if not nan
              then pure other_bssid
              else byte_at frame 0 >>= λ kind.
                  if kind == 0x80
                  then handle_beacon frame >> pure beacon
                  else if not (kind == 0xd0)
                  then pure not_action
                  else matches frame ((24, 4) ∷ (25, 9) ∷ (26, 0x50) ∷ (27, 0x6f) ∷ (28, 0x9a) ∷ [])
                    >>= λ public_action.
                        if not public_action
                        then pure not_nan
                        else modify note_packet >> byte_at frame 29 >>= λ oui_type.
                            if not (oui_type == 19)
                            then pure not_sdf
                            else handle_daf frame len >>= λ w. pure (action w)))
        s
