-- ===== src/Nan/Limits.antt =====
-- Where nan.c falls short: the queue, the answer to PING, and the timer.
use dmesh_l.Base.{
  ℕ, ◌+◌, ◌-◌, ◌<◌, ◌≡◌, ◌⊎◌, inl, inr, refl, true, false, ◌&&◌, none, some, List, [], ◌∷◌, ◌++◌,
  arith, length, set, get_elem?, slice, ◌>>◌, modify, lift_option, bind-then, bind-none, seq-none,
  seq-then, if◌then◌else◌, ltb, leb, bytes_eq, sub32, add32, ◌^◌, Option-cases,
}
use dmesh_l.Nan.Frames.{follow_up_frame, sync_frame}
use dmesh_l.Nan.Driver.{Nan, NanPeer, NanMessage, Env, send_now, nan_queue, send_sync}
use dmesh_l.Nan.Receive.{
  send_queued, answer_ping, on_message, ping, drop_message, note_message, bytes_at,
}
use dmesh_l.Nan.Sending.{kept, sent_one, send_now_lem}
use dmesh_l.Nan.Timer.{timer_cb, sync_if_needed, stats_if_due, wakeup_delay}

nan_queue-room :
    (m : List ℕ) (p : NanPeer)
    → p.out_queue_len < 5
    → nan_queue m (length m) p ≡ record p {
      out_queue = set p.out_queue p.out_queue_len (record { bytes = m; len = length m });
      out_queue_len = p.out_queue_len + 1;
    }
unfolding nan_queue
nan_queue-room m p h = ground arith

first-set :
    (q : List NanMessage) (x y : NanMessage)
    → 0 < length q
    → get_elem? (set (set q 0 x) 1 y) 0 ≡ some x
first-set (z ∷ q) x y h = refl
first-set [] x y h = absurd (omega arith)

pub queued_two :
    (m n : List ℕ) (p : NanPeer)
    → p.out_queue_len ≡ 0
    → length p.out_queue ≡ 5
    → let q = nan_queue n (length n) (nan_queue m (length m) p) in
      (q.out_queue_len ≡ 2)
      × (get_elem? q.out_queue 0 ≡ some (record { bytes = m; len = length m }))
      × (q.mac ≡ p.mac)
      × (q.instance_id ≡ p.instance_id)
queued_two m n p empty slots =
    let one : NanPeer = record p {
      out_queue = set p.out_queue p.out_queue_len (record { bytes = m; len = length m });
      out_queue_len = p.out_queue_len + 1;
    } in
    rw (nan_queue-room m p (omega arith), nan_queue-room n one (omega arith))
      (omega arith, rw empty (first-set p.out_queue _ _ (omega arith)), refl, refl)

module _ (v : Env) where
  -- The frame for the message in the first slot.
  abbrev pub frame_for : List ℕ → Nan → List ℕ
  frame_for m s =
      follow_up_frame s.peer.mac s.mymac s.nan_net s.peer.instance_id (kept (length m) m)

  pub send_queued-first :
      (m : List ℕ) (s : Nan)
      → length s.peer.mac ≡ 6
      → length s.mymac ≡ 6
      → length s.nan_net ≡ 2
      → 0 < s.peer.out_queue_len
      → get_elem? s.peer.out_queue 0 ≡ some (record { bytes = m; len = length m })
      → send_queued v s ≡ some (tt, drop_message (sent_one v (frame_for m s) s))
  unfolding send_queued
  send_queued-first m s hp hm hn some_left q =
      let more : ltb 0 s.peer.out_queue_len ≡ true = ground arith in
      let sent =
        (send_now_lem v s.peer.mac m s.peer.instance_id (length m) s hp hm hn (omega arith)).0 in
      let message : NanMessage = record { bytes = m; len = length m } in
      rw (more, send_queued)
        (bind-then (lift_option (get_elem? s.peer.out_queue 0)) _ {t = s} {a = message} (rw q refl)
          (seq-then (send_now v s.peer.mac s.peer.instance_id m (length m)) (modify drop_message)
            sent refl))

  answer_ping-none :
      (frame : List ℕ) (i tlen : ℕ) (s : Nan)
      → (60 < tlen) ⊎ (v.res_writable ≡ false)
      → answer_ping v frame i tlen s ≡ none
  unfolding answer_ping
  answer_ping-none frame i tlen s h =
      let bad : (v.res_writable && leb (4 + tlen) 64) ≡ false = ground arith in
      elim (Option-cases (slice frame (i + 4) tlen)) [
        | inl e ↦ rw (e, answer_ping)
        | inr (tail, e) ↦ elim (Option-cases (slice frame 10 6)) [
          | inl f ↦ rw (e, f, answer_ping)
          | inr (src, f) ↦ rw (e, f, bad, answer_ping)
        ]
      ]

  -- An answer to a PING with more than 60 bytes, or any answer if `resBuf` cannot be written, is an
  -- access that C does not define.
  pub ping_overflows :
      (frame : List ℕ) (i tlen : ℕ) (s : Nan)
      → slice frame i 4 ≡ some ping
      → (60 < tlen) ⊎ (v.res_writable ≡ false)
      → on_message v frame i tlen s ≡ none
  unfolding on_message bytes_eq
  ping_overflows frame i tlen s e h =
      bind-then (modify note_message >> bytes_at frame i 4) _ {t = note_message s} {a = ping}
        (rw e refl)
        (bind-none (answer_ping v frame i tlen >> bytes_at frame 4 6) _ (
          seq-none (answer_ping v frame i tlen) (bytes_at frame 4 6)
            (answer_ping-none frame i tlen (note_message s) h)))

  -- While the component runs, every timer interrupt arms the timer exactly once, for a delay
  -- between 1 ms and 524.288 ms, if the clock does not run back between its two looks; it sends a
  -- sync beacon exactly when more than 490 microseconds have passed since the last one.
  pub timer_cb_lem :
      (s : Nan) (gap : ℕ)
      → s.running ≡ true
      → v.clock s.readings < 2 ^ 32
      → v.clock (s.readings + 1) ≡ add32 (v.clock s.readings) gap
      → gap < 2 ^ 31
      → let s' = timer_cb v s in
        (s'.timers ≡ s.timers ++ (if leb gap 523288 then 524288 - gap else 100000) ∷ [])
        × (s'.sent ≡ (
            if ltb 490 (sub32 (v.clock s.readings) s.last_sent_s_beacon)
            then s.sent ++ sync_frame s.mymac s.nan_net s.master_pref s.master_random 512 ∷ []
            else s.sent))
  unfolding timer_cb sync_if_needed stats_if_due send_sync wakeup_delay
  timer_cb_lem s gap runs low next small = ground arith
