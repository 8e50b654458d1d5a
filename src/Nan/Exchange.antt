-- ===== src/Nan/Exchange.antt =====
-- Two nodes that run nan.c and beacons.c: what one sends, the other takes.
use dmesh_l.Base.{
  ℕ, ◌+◌, ◌-◌, ◌≤◌, ◌<◌, ◌≡◌, refl, sym, ap, ◌∙◌, subst, true, false, some, List, [], ◌∷◌, ◌++◌,
  arith, inc32, add32, none, length, get_elem?, ltb, if◌then◌else◌, take, min, bytes_eq, Bool-cases,
  inl, inr, append-nil, append_assoc, u8, slice, take-length,
}
use dmesh_l.Nan.Frames.{follow_up_frame, publish_frame, sync_frame}
use dmesh_l.Nan.Driver.{Nan, Env, send_now, send_publish, note_post_sync}
use dmesh_l.Nan.Receive.{
  walked, action, beacon, sniffer_cb1, matches, ping, handle_beacon, on_sync_beacon, send_queued,
  drop_message,
}
use dmesh_l.Nan.Discovery.{six_bytes, two_bytes, four_bytes, pairs}
use dmesh_l.Nan.Messages.{TookMessage, slice-some, received_follow_up}
use dmesh_l.Nan.Sending.{kept, sent_one, send_now_lem, length-kept}
use dmesh_l.Nan.Limits.{frame_for, send_queued-first}

-- What a reader finds in a frame of `nanSendNow` where the length and the message are.
abbrev pub Carries : (frame p : List ℕ) → Type 0
Carries frame p = (get_elem? frame 42 ≡ some (length p)) × (slice frame 43 (length p) ≡ some p)

follow_up-Carries :
    (dst mac net p : List ℕ) (instance_id : ℕ)
    → length dst ≡ 6
    → length mac ≡ 6
    → length net ≡ 2
    → length p < 256
    → Carries (follow_up_frame dst mac net instance_id p) p
unfolding follow_up_frame
follow_up-Carries dst mac net p instance_id hd hm hn short =
    let (a, b, c, d, e, f, ed) = six_bytes dst hd in
    let (g, h, i, j, k, l, em) = six_bytes mac hm in
    let (n, o, en) = two_bytes net hn in
    let size : u8 (length p) ≡ length p = omega arith in
    subst (λ t. Carries (follow_up_frame t.0 t.1 t.2 instance_id p) p)
      (sym (pairs {s = []} {s' = []} ed em en refl))
      (
        ap some size,
        slice-some
              (follow_up_frame (a ∷ b ∷ c ∷ d ∷ e ∷ f ∷ []) (g ∷ h ∷ i ∷ j ∷ k ∷ l ∷ [])
                (n ∷ o ∷ []) instance_id p)
              43 (length p) (omega arith)
            ∙ ap some (take-length (length p) p (omega arith)),
      )

module _ (v w : Env) where
  -- A message that node `s` sends with `nanSendNow`, and that has as many of its `len` bytes as fit,
  -- goes out as one frame, with the bytes kept of the message behind their number; with any four
  -- bytes for a check sequence behind it, a node `r` takes the frame as a follow-up from `s` for
  -- `dst`, in the network of `s`, if the message with the check sequence behind it does not start
  -- with PING. Addresses have six bytes and networks two.
  pub send_now-received :
      (dst m fcs : List ℕ) (instance_id len : ℕ) (s r : Nan)
      → length dst ≡ 6
      → length s.mymac ≡ 6
      → length s.nan_net ≡ 2
      → length fcs ≡ 4
      → min len 255 ≤ length m
      → bytes_eq ping (take 4 (kept len m ++ fcs)) ≡ false
      → (frame : List ℕ) × (s' r' : Nan) × (send_now v dst instance_id m len s ≡ some (tt, s'))
        × (s'.sent ≡ s.sent ++ frame ∷ [])
        × Carries frame (kept len m)
        × (sniffer_cb1 w true (frame ++ fcs) (length frame + 4) r ≡ some (action walked, r'))
        × TookMessage w dst s.mymac s.nan_net r r'
  send_now-received dst m fcs instance_id len s r hd hm hn hf long quiet =
      let (run, size) = send_now_lem v dst m instance_id len s hd hm hn long in
      let (r', taken, took) =
        received_follow_up w dst s.mymac s.nan_net fcs (kept len m) instance_id r hd hm hn hf
          (omega (arith, length-kept len m)) quiet in
      let frame : List ℕ = follow_up_frame dst s.mymac s.nan_net instance_id (kept len m) in
      let sized : 47 + length (kept len m) ≡ length frame + 4 = omega (arith, size) in
      (
        frame,
        sent_one v frame s,
        r',
        run,
        refl,
        follow_up-Carries dst s.mymac s.nan_net (kept len m) instance_id hd hm hn
            (omega (arith, length-kept len m)),
        subst (λ n. sniffer_cb1 w true (frame ++ fcs) n r ≡ some (action walked, r')) sized taken,
        took,
      )

module _ (v : Env) where
  -- A message in the first slot of the queue, if one is queued.
  abbrev pub IsFirst : List ℕ → Nan → Type 0
  IsFirst m s =
      0 < s.peer.out_queue_len
      → get_elem? s.peer.out_queue 0 ≡ some (record { bytes = m; len = length m })

  -- The addresses, the peer's service instance and the slots of the queue are the same.
  abbrev pub SameQueue : (s s' : Nan) → Type 0
  SameQueue s s' =
      (s'.mymac ≡ s.mymac)
      × (s'.peer.mac ≡ s.peer.mac)
      × (s'.peer.instance_id ≡ s.peer.instance_id)
      × (s'.peer.out_queue ≡ s.peer.out_queue)

  send_queued-sends :
      (m : List ℕ) (s : Nan)
      → length s.peer.mac ≡ 6
      → length s.mymac ≡ 6
      → length s.nan_net ≡ 2
      → IsFirst m s
      → (s' : Nan) × (send_queued v s ≡ some (tt, s'))
        × (s'.sent ≡ s.sent ++ (if ltb 0 s.peer.out_queue_len then frame_for v m s ∷ [] else []))
        × (s'.peer.out_queue_len ≡ s.peer.out_queue_len - 1)
        × (s'.nan_net ≡ s.nan_net)
        × (s'.nan_s_beacon ≡ s.nan_s_beacon)
        × SameQueue s s'
  unfolding send_queued
  send_queued-sends m s hp hm hn first = elim (Bool-cases (ltb 0 s.peer.out_queue_len)) [
    | inl more ↦ (
      drop_message (sent_one v (frame_for v m s) s),
      send_queued-first v m s hp hm hn (ground arith) (first (ground arith)),
      rw more refl,
      refl,
      refl,
      refl,
      (refl, refl, refl, refl),
    )
    | inr none_left ↦ (
      s,
      rw (none_left, send_queued) refl,
      rw none_left (sym (append-nil s.sent)),
      ground arith,
      refl,
      refl,
      (refl, refl, refl, refl),
    )
  ]

  -- A node `s` has answered a sync beacon for the network `net`.
  abbrev pub AnsweredSync : (net m : List ℕ) (s s' : Nan) → Type 0
  AnsweredSync net m s s' =
      (s'.nan_net ≡ net)
      × (s'.nan_s_beacon ≡ inc32 s.nan_s_beacon)
      × (s'.sent
          ≡ s.sent
            ++ publish_frame s.mymac net
              ∷ (if ltb 0 s.peer.out_queue_len
                  then follow_up_frame s.peer.mac s.mymac net s.peer.instance_id (kept (length m) m)
                    ∷ []
                  else []))
      × (s'.peer.out_queue_len ≡ s.peer.out_queue_len - 1)
      × SameQueue s s'

  received_sync_bytes :
      (a b c d e f n o x y z u pref random len : ℕ) (m : List ℕ) (r : Nan) (g h i j k l : ℕ)
      → let s = record r { mymac = g ∷ h ∷ i ∷ j ∷ k ∷ l ∷ [] } in
        let net = n ∷ o ∷ [] in
        let frame = sync_frame (a ∷ b ∷ c ∷ d ∷ e ∷ f ∷ []) net pref random 512 in
        length s.peer.mac ≡ 6
        → IsFirst m s
        → (s' : Nan) × (sniffer_cb1 v true (frame ++ x ∷ y ∷ z ∷ u ∷ []) len s ≡ some (beacon, s'))
          × AnsweredSync net m s s'
  unfolding sync_frame sniffer_cb1 matches handle_beacon on_sync_beacon send_publish publish_frame
  received_sync_bytes a b c d e f n o x y z u pref random len m r g h i j k l hp first =
      let s : Nan = record r { mymac = g ∷ h ∷ i ∷ j ∷ k ∷ l ∷ [] } in
      let published : Nan = note_post_sync (v.clock (r.readings + 1 + 1)) (record s {
        peer = record s.peer {
          nan_net = n ∷ o ∷ [];
          sync_beacons = inc32 s.peer.sync_beacons;
          last_seen = v.clock (r.readings + 1);
        };
        nan_net = n ∷ o ∷ [];
        nan_s_beacon = inc32 s.nan_s_beacon;
        last_s_beacon = v.clock (r.readings + 1);
        cap_packets = inc32 s.cap_packets;
        captured_since_last = add32 s.captured_since_last len;
        sent = s.sent ++ publish_frame s.mymac (n ∷ o ∷ []) ∷ [];
        readings = s.readings + 1 + 1 + 1 + 1;
      }) in
      let (s', run, sent, left, net, beacons, same) =
        send_queued-sends m published hp refl refl first in
      (
        s',
        ap (λ q. elim q [ none ↦ none | some t ↦ some (beacon, t.1) ]) run,
        (net, beacons, sent ∙ append_assoc s.sent _ _, left, same),
      )

  -- A sync beacon that one node sends, with any four bytes for a check sequence behind it, makes
  -- another node join the sender's network, count the beacon, send a publish frame in that network
  -- and, if messages are queued, send the one in the first slot to its peer and shorten the queue by
  -- one; the addresses, the peer's service instance and the slots of the queue stay. The addresses
  -- of both nodes and of the peer have six bytes, and the network two.
  pub received_sync :
      (mac net fcs m : List ℕ) (pref random len : ℕ) (s : Nan)
      → length mac ≡ 6
      → length net ≡ 2
      → length fcs ≡ 4
      → length s.mymac ≡ 6
      → length s.peer.mac ≡ 6
      → IsFirst m s
      → (s' : Nan) × (sniffer_cb1 v true (sync_frame mac net pref random 512 ++ fcs) len s
          ≡ some (beacon, s'))
        × AnsweredSync net m s s'
  received_sync mac net fcs m pref random len s hm hn hf hs hp first =
      let (a, b, c, d, e, f, em) = six_bytes mac hm in
      let (n, o, en) = two_bytes net hn in
      let (x, y, z, u, ef) = four_bytes fcs hf in
      let (g, h, i, j, k, l, es) = six_bytes s.mymac hs in
      subst
        (λ t.
          (s' : Nan) × (sniffer_cb1 v true (sync_frame t.0 t.1 pref random 512 ++ t.2) len
              (record s { mymac = t.3 })
            ≡ some (beacon, s'))
          × AnsweredSync t.1 m (record s { mymac = t.3 }) s')
        (sym (pairs em en ef es))
        (received_sync_bytes a b c d e f n o x y z u pref random len m s g h i j k l hp first)
