-- ===== src/Nan/Keeping.antt =====
-- Which routines of nan.c keep the queue of messages valid: those that send, and those for beacons
-- and messages.
use dmesh_l.Base.{
  After, bind-Keeps, seq-Keeps, if-Keeps, choose-Keeps, lift-Keeps, pure-Keeps, modify-Keeps,
  state-Keeps, fault-Keeps, ℕ, ◌+◌, ◌≤◌, ◌≡◌, Bool, true, false, Option, none, some, List, arith,
  length, set, get_elem?, M, ◌>>=◌, ◌>>◌, pure, fault, modify, choose, with_state, bytes_eq, ◌&&◌,
  lift_option, slice, ◌==◌, if◌then◌else◌, ltb, leb,
}
use dmesh_l.Nan.Frames.{publish_frame, follow_up_frame}
use dmesh_l.Nan.Driver.{
  Nan, Env, current_time_micro, tx, note_post_sync, send_publish, send_now, payload_of,
}
use dmesh_l.Nan.Receive.{
  send_queued, on_sync_beacon, on_discovery_beacon, handle_beacon, answer_ping, on_message,
  note_beacon, drop_message, note_message, note_destination, note_reply, ping,
}

-- The queue has its five slots, and no more messages than these.
abbrev pub QueueIsValid : Nan → Type 0
QueueIsValid s = (s.peer.out_queue_len ≤ 5) × (length s.peer.out_queue ≡ 5)

-- The run keeps the queue valid.
abbrev pub Keeps : {A : Type 0} → M Nan A → Type 0
Keeps {A} m = dmesh_l.Base.Keeps QueueIsValid m

module _ (v : Env) where
  pub clock-Keeps : Keeps (current_time_micro v)
  clock-Keeps = record { holds = λ s q. q }

  pub tx-Keeps : (f : Nan → List ℕ) → Keeps (λ s. tx v (f s) s)
  tx-Keeps f = record { holds = λ s q. ground arith }

  pub send_publish-Keeps : Keeps (send_publish v)
  unfolding send_publish
  send_publish-Keeps = bind-Keeps clock-Keeps λ now.
      bind-Keeps (seq-Keeps (tx-Keeps λ s. publish_frame s.mymac s.nan_net) clock-Keeps)
        λ later. modify-Keeps (note_post_sync now) λ s q. q

  pub send_now-Keeps :
      (dst : List ℕ) (i : ℕ) (m : List ℕ) (len : ℕ) → Keeps (send_now v dst i m len)
  unfolding send_now
  send_now-Keeps dst i m len = bind-Keeps (lift-Keeps (payload_of v m len)) λ p.
      bind-Keeps clock-Keeps λ now.
        bind-Keeps (seq-Keeps (tx-Keeps λ s. follow_up_frame dst s.mymac s.nan_net i p) clock-Keeps)
          λ later. pure-Keeps tt

  pub send_queued-Keeps : Keeps (send_queued v)
  unfolding send_queued
  send_queued-Keeps =
      choose-Keeps (λ s. ltb 0 s.peer.out_queue_len)
        (state-Keeps λ s. bind-Keeps (lift-Keeps (get_elem? s.peer.out_queue 0)) λ m.
          seq-Keeps (send_now-Keeps s.peer.mac s.peer.instance_id m.bytes m.len)
            (modify-Keeps drop_message λ t r. (omega arith, r.1)))
        (pure-Keeps tt)

  pub on_sync_beacon-Keeps : (now : ℕ) → Keeps (on_sync_beacon v now)
  unfolding on_sync_beacon
  on_sync_beacon-Keeps now = record {
    holds = λ s q. (seq-Keeps send_publish-Keeps send_queued-Keeps).holds _ q;
  }

  pub discovery-Keeps : (now : ℕ) → Keeps (modify (on_discovery_beacon v now))
  unfolding on_discovery_beacon
  discovery-Keeps now = modify-Keeps (on_discovery_beacon v now) λ s q. q

  pub handle_beacon-Keeps : (frame : List ℕ) → Keeps (handle_beacon v frame)
  unfolding handle_beacon
  handle_beacon-Keeps frame = bind-Keeps clock-Keeps λ now.
      bind-Keeps (lift-Keeps (slice frame 20 2)) λ net.
        bind-Keeps
          (seq-Keeps (modify-Keeps (note_beacon now net) λ s q. q)
            (lift-Keeps (get_elem? frame 32)))
          λ low.
            if-Keeps (low == 0)
              (bind-Keeps (lift-Keeps (get_elem? frame 33))
                λ high. if-Keeps (high == 2) (on_sync_beacon-Keeps now) (discovery-Keeps now))
              (discovery-Keeps now)

  pub answer_ping-Keeps : (frame : List ℕ) (i tlen : ℕ) → Keeps (answer_ping v frame i tlen)
  unfolding answer_ping
  answer_ping-Keeps frame i tlen = bind-Keeps (lift-Keeps (slice frame (i + 4) tlen)) λ tail.
      bind-Keeps (lift-Keeps (slice frame 10 6)) λ src.
        if-Keeps (v.res_writable && leb (4 + tlen) 64)
          (seq-Keeps (modify-Keeps (note_reply tail) λ s q. q)
            (state-Keeps λ s. send_now-Keeps src s.peer.instance_id s.res_buf (tlen + 4)))
          fault-Keeps

  pub on_message-Keeps : (frame : List ℕ) (i tlen : ℕ) → Keeps (on_message v frame i tlen)
  unfolding on_message
  on_message-Keeps frame i tlen =
      bind-Keeps (seq-Keeps (modify-Keeps note_message λ s q. q) (lift-Keeps (slice frame i 4)))
        λ start.
          bind-Keeps
            (seq-Keeps
              (if-Keeps (bytes_eq ping start) (answer_ping-Keeps frame i tlen) (pure-Keeps tt))
              (lift-Keeps (slice frame 4 6)))
            λ dst.
              bind-Keeps (seq-Keeps (modify-Keeps (note_destination dst) λ s q. q) clock-Keeps)
                λ now.
                  if-Keeps (ltb (i + tlen) (length frame)) (pure-Keeps (set frame (i + tlen) 0))
                    fault-Keeps
