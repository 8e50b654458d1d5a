-- ===== src/Nan/Driver.antt =====
-- The state of nan.c and nan.h, and the routines that send.
use dmesh_l.Base.{
  ℕ, ◌+◌, Bool, Option, none, some, List, [], ◌∷◌, ◌++◌, ltb, leb, if◌then◌else◌, sub32, length,
  set, M, ◌>>=◌, ◌>>◌, pure, modify, lift_option, slice,
}
use dmesh_l.Nan.Frames.{publish_frame, follow_up_frame, sync_frame}

-- `NanMessage`: the bytes behind `data`, and how many of them to send.
pub record NanMessage : Type 0 where
  pub bytes : List ℕ
  pub len : ℕ

abbrev pub out_queue_size : ℕ
out_queue_size = 5

-- `NanPeer`, the fields that the code uses.
pub record NanPeer : Type 0 where
  pub mac : List ℕ
  pub nan_net : List ℕ
  pub instance_id : ℕ
  pub discovery_beacons : ℕ
  pub sync_beacons : ℕ
  pub last_seen : ℕ
  pub out_queue : List NanMessage
  pub out_queue_len : ℕ

-- `nan_driver`, the fields that the code uses, and the static variables of nan.c. Of the peers only
-- the first is ever used. `sent` and `timers` are the frames and the delays passed to
-- esp_wifi_80211_tx and esp_timer_start_once so far, and `readings` counts the looks at the clock.
pub record Nan : Type 0 where
  pub mymac : List ℕ
  pub peer : NanPeer
  pub nan_net : List ℕ
  pub nan_packets : ℕ
  pub running : Bool
  -- Whether `init` is set, and whether `sta_netif` is not NULL.
  pub initialized : Bool
  pub has_netif : Bool
  pub pub_received : ℕ
  pub sub_received : ℕ
  pub nan_s_beacon : ℕ
  pub nan_d_beacon : ℕ
  pub master_pref : ℕ
  pub master_random : ℕ
  pub last_s_beacon : ℕ
  pub last_sent_s_beacon : ℕ
  pub last_d_beacon : ℕ
  pub nan_messages_in : ℕ
  pub nan_packets_others : ℕ
  pub cap_packets : ℕ
  pub captured_since_last : ℕ
  pub max_post_sync : ℕ
  pub last_stats : ℕ
  pub res_buf : List ℕ
  pub sent : List (List ℕ)
  pub timers : List ℕ
  pub readings : ℕ

-- What the code is given: the value of each look at the clock, in microseconds as a 32-bit
-- `unsigned long`, and whether `resBuf`, which is declared `const` and written, can be written.
pub record Env : Type 0 where
  pub clock : ℕ → ℕ
  pub res_writable : Bool

-- `sizeof sendBuffer`
abbrev pub send_buffer_size : ℕ
send_buffer_size = 512

-- The end of `nanSendPublish`, for a transmission that started at `now`.
abbrev pub note_post_sync : (now : ℕ) → Nan → Nan
note_post_sync now s =
    let stime = sub32 now s.last_s_beacon in
    record s { max_post_sync = if ltb s.max_post_sync stime then stime else s.max_post_sync }

module _ (v : Env) where
  -- `currentTimeMicro`
  abbrev pub current_time_micro : M Nan ℕ
  current_time_micro s = some (v.clock s.readings, record s { readings = s.readings + 1 })

  -- esp_wifi_80211_tx of a frame built in `sendBuffer`; a longer one would have been written past
  -- its end.
  abbrev pub tx : List ℕ → M Nan (Unit {0})
  tx frame s =
      if leb (length frame) send_buffer_size
      then some (tt, record s { sent = s.sent ++ frame ∷ [] })
      else none

  -- `nanSendPublish`, which uses none of its arguments.
  unfoldable pub send_publish : M Nan (Unit {0})
  send_publish s =
      (current_time_micro >>= λ now.
      (λ s1. tx (publish_frame s1.mymac s1.nan_net) s1) >> current_time_micro >>= λ _.
      modify (note_post_sync now))
        s

  -- The bytes that `nanSendNow` copies: `len`, at most 255.
  abbrev pub payload_of : (bytes : List ℕ) (len : ℕ) → Option (List ℕ)
  payload_of bytes len = slice bytes 0 (if ltb 255 len then 255 else len)

  -- `nanSendNow`; a fault if the message ends before `len`.
  unfoldable pub send_now :
      (dst_mac : List ℕ) (instance_id : ℕ) (bytes : List ℕ) (len : ℕ) → M Nan (Unit {0})
  send_now dst_mac instance_id bytes len s =
      (lift_option (payload_of bytes len) >>= λ payload. current_time_micro >>= λ _.
      (λ s1. tx (follow_up_frame dst_mac s1.mymac s1.nan_net instance_id payload) s1)
      >> current_time_micro
      >>= λ _. pure tt)
        s

  -- `nanSendSync` of beacons.c, whose frame is a local array.
  unfoldable pub send_sync : (interval : ℕ) → Nan → Nan
  send_sync interval s = record s {
    sent = s.sent ++ sync_frame s.mymac s.nan_net s.master_pref s.master_random interval ∷ [];
  }

-- `nanQueue`
unfoldable pub nan_queue : (bytes : List ℕ) (len : ℕ) → NanPeer → NanPeer
nan_queue bytes len peer = if leb out_queue_size peer.out_queue_len then peer else record peer {
  out_queue = set peer.out_queue peer.out_queue_len (record { bytes = bytes; len = len });
  out_queue_len = peer.out_queue_len + 1;
}

-- How `cmd_nan` was called: `--stop`, `--start`, `--send`, in the order that the code looks.
pub data NanCommand : Type 0 where
  stop start : NanCommand
  send : (text : List ℕ) → NanCommand
