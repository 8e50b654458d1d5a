-- ===== src/Nan/Pings.antt =====
-- PING messages of nan.c, and their answers.
use dmesh_l.Base.{
  ℕ, ◌+◌, ◌≤◌, ◌<◌, ◌≡◌, refl, sym, ap, ◌∙◌, subst, true, ◌&&◌, some, List, [], ◌∷◌, ◌++◌, arith,
  inc32, length, bind-then, seq-then, leb, ltb, take, drop, set, slice, bytes_eq, min,
  length-append, take-length, ◌>>◌,
}
use dmesh_l.Nan.Frames.{follow_up_frame}
use dmesh_l.Nan.Driver.{Nan, Env}
use dmesh_l.Nan.Receive.{
  walked, action, sniffer_cb1, on_message, answer_ping, ping, pong, note_reply, note_message,
  bytes_at,
}
use dmesh_l.Nan.Discovery.{six_bytes, two_bytes, four_bytes, pairs}
use dmesh_l.Nan.Messages.{
  follow_up, length-follow_up, slice-follow_up, follow_up-sniffed, heard, counted,
}
use dmesh_l.Nan.Sending.{kept, sent_one, send_now_lem}

take-append : (xs ys : List ℕ) → take (length xs) (xs ++ ys) ≡ xs
take-append [] ys = refl
take-append (x ∷ xs) ys = ap (◌∷◌ x) (take-append xs ys)

-- The bytes of `resBuf` that the answer takes.
kept-reply :
    (tail rest : List ℕ)
    → length tail ≤ 60
    → kept (length tail + 4) (pong ++ (tail ++ rest)) ≡ pong ++ tail
kept-reply tail rest h =
    let cut : min (length tail + 4) 255 ≡ length (pong ++ tail) = omega arith in
    rw cut (take-append (pong ++ tail) rest)

module _ (v : Env) where
  answer_ping-sends :
      (frame tail src : List ℕ) (i : ℕ) (s : Nan)
      → slice frame (i + 4) (length tail) ≡ some tail
      → slice frame 10 6 ≡ some src
      → length src ≡ 6
      → length s.mymac ≡ 6
      → length s.nan_net ≡ 2
      → length tail ≤ 60
      → v.res_writable ≡ true
      → answer_ping v frame i (length tail) s
        ≡ some (
          tt,
          sent_one v
              (follow_up_frame src s.mymac s.nan_net s.peer.instance_id (pong ++ tail))
              (note_reply tail s),
        )
  unfolding answer_ping
  answer_ping-sends frame tail src i s t f hs hm hn short writable =
      let inside : (v.res_writable && leb (4 + length tail) 64) ≡ true = ground arith in
      let s1 : Nan = note_reply tail s in
      let long : min (length tail + 4) 255 ≤ length s1.res_buf =
        rw (length-append (pong ++ tail) (drop (0 + length (pong ++ tail)) s.res_buf))
          (omega arith) in
      let sent =
        (send_now_lem v src s1.res_buf s.peer.instance_id (length tail + 4) s1 hs hm hn long).0 in
      rw (t, f, inside, answer_ping)
        (sent
          ∙ ap
              (λ q.
                some
                  (tt, sent_one v (follow_up_frame src s.mymac s.nan_net s.peer.instance_id q) s1))
              (kept-reply tail (drop (0 + length (pong ++ tail)) s.res_buf) short))

  -- A PING for `dst` from `mac` has been answered.
  abbrev pinged : (dst src tail : List ℕ) → Nan → Nan
  pinged dst src tail s =
      let s1 : Nan = note_reply tail (note_message s) in
      counted v dst
        (record (sent_one v
          (follow_up_frame src s.mymac s.nan_net s.peer.instance_id (pong ++ tail)) s1) {
            nan_messages_in = s.nan_messages_in;
          })

  on_message-ping :
      (frame tail src dst : List ℕ) (i : ℕ) (s : Nan)
      → slice frame i 4 ≡ some ping
      → slice frame (i + 4) (length tail) ≡ some tail
      → slice frame 10 6 ≡ some src
      → slice frame 4 6 ≡ some dst
      → length src ≡ 6
      → length s.mymac ≡ 6
      → length s.nan_net ≡ 2
      → length tail ≤ 60
      → v.res_writable ≡ true
      → i + length tail < length frame
      → on_message v frame i (length tail) s
        ≡ some (set frame (i + length tail) 0, pinged dst src tail s)
  unfolding on_message bytes_eq
  on_message-ping frame tail src dst i s a t f g hs hm hn short writable inside =
      let fits : ltb (i + length tail) (length frame) ≡ true = ground arith in
      let answer =
        answer_ping-sends frame tail src i (note_message s) t f hs hm hn short writable in
      let answered : Nan =
        sent_one v (follow_up_frame src s.mymac s.nan_net s.peer.instance_id (pong ++ tail))
          (note_reply tail (note_message s)) in
      rw (a, on_message)
        (bind-then (answer_ping v frame i (length tail) >> bytes_at frame 4 6) _
          {s = note_message s} {t = answered} {a = dst}
          (seq-then (answer_ping v frame i (length tail)) (bytes_at frame 4 6) answer (rw g refl))
          (rw fits refl))

  -- A node `s` has answered a PING from `mac` with `answer`, and counted it.
  abbrev pub AnsweredPing : (mac net answer : List ℕ) (s s' : Nan) → Type 0
  AnsweredPing mac net answer s s' =
      (s'.sent ≡ s.sent ++ follow_up_frame mac s.mymac net 1 answer ∷ [])
      × (s'.nan_net ≡ net)
      × (s'.peer.mac ≡ mac)
      × (s'.nan_messages_in ≡ inc32 s.nan_messages_in)

  received_ping_bytes :
      (a b c d e f g h i j k l n o x y z w instance_id : ℕ) (q : List ℕ) (s : Nan)
      → let dst = a ∷ b ∷ c ∷ d ∷ e ∷ f ∷ [] in
        let mac = g ∷ h ∷ i ∷ j ∷ k ∷ l ∷ [] in
        let net = n ∷ o ∷ [] in
        let fcs = x ∷ y ∷ z ∷ w ∷ [] in
        length q ≤ 56
        → length s.mymac ≡ 6
        → v.res_writable ≡ true
        → (s' : Nan) × (sniffer_cb1 v true
              (follow_up_frame dst mac net instance_id (ping ++ q) ++ fcs)
              (47 + length (ping ++ q))
              s
            ≡ some (action walked, s'))
          × AnsweredPing mac net (pong ++ (q ++ fcs)) s s'
  unfolding follow_up_frame
  received_ping_bytes a b c d e f g h i j k l n o x y z w instance_id q s short hs writable =
      let p : List ℕ = ping ++ q in
      let dst : List ℕ = a ∷ b ∷ c ∷ d ∷ e ∷ f ∷ [] in
      let mac : List ℕ = g ∷ h ∷ i ∷ j ∷ k ∷ l ∷ [] in
      let tail : List ℕ = q ++ x ∷ y ∷ z ∷ w ∷ [] in
      let frame : List ℕ = follow_up v a b c d e f g h i j k l n o x y z w instance_id p in
      let r : Nan = heard v a b c d e f g h i j k l n o x y z w instance_id p s in
      let same : length tail ≡ length p = rw (length-append q (x ∷ y ∷ z ∷ w ∷ [])) (omega arith) in
      let at = slice-follow_up v a b c d e f g h i j k l n o x y z w instance_id p in
      let all : take (length tail) tail ≡ tail = take-length (length tail) tail (omega arith) in
      let size : 47 + length tail ≤ 47 + length p = omega (arith, same) in
      let rest : slice frame 47 (length tail) ≡ some tail =
        at 47 (length tail) size ∙ ap some all in
      let inside : 43 + length tail < length frame =
        rw (length-follow_up v a b c d e f g h i j k l n o x y z w instance_id p)
          (omega (arith, same)) in
      let taken =
        on_message-ping frame tail mac dst 43 r (at 43 4 (omega arith)) rest (at 10 6 (omega arith))
          (at 4 6 (omega arith)) refl hs refl (omega (arith, same)) writable inside in
      (
        pinged dst mac tail r,
        follow_up-sniffed v a b c d e f g h i j k l n o x y z w instance_id p
            (set frame (43 + length tail) 0) s (pinged dst mac tail r) (omega arith)
            (ap (λ t. on_message v frame 43 t r) (sym same) ∙ taken),
        (refl, refl, refl, refl),
      )

  -- A follow-up whose message is PING and at most 56 bytes more, followed by the four bytes of its
  -- check sequence, makes another node send a follow-up to the sender, in the sender's network, that
  -- carries PONG, the bytes behind PING, and the four bytes of the received check sequence. The node
  -- joins that network, knows the sender and counts the message. Addresses have six bytes and the
  -- network two, and `resBuf` can be written.
  pub received_ping :
      (dst mac net fcs q : List ℕ) (instance_id : ℕ) (s : Nan)
      → length dst ≡ 6
      → length mac ≡ 6
      → length net ≡ 2
      → length fcs ≡ 4
      → length q ≤ 56
      → length s.mymac ≡ 6
      → v.res_writable ≡ true
      → (s' : Nan) × (sniffer_cb1 v true
            (follow_up_frame dst mac net instance_id (ping ++ q) ++ fcs)
            (47 + length (ping ++ q))
            s
          ≡ some (action walked, s'))
        × AnsweredPing mac net (pong ++ (q ++ fcs)) s s'
  received_ping dst mac net fcs q instance_id s hd hm hn hf short hs writable =
      let (a, b, c, d, e, f, ed) = six_bytes dst hd in
      let (g, h, i, j, k, l, em) = six_bytes mac hm in
      let (n, o, en) = two_bytes net hn in
      let (x, y, z, w, ef) = four_bytes fcs hf in
      subst
        (λ t.
          (s' : Nan) × (sniffer_cb1 v true
              (follow_up_frame t.0 t.1 t.2 instance_id (ping ++ q) ++ t.3) (47 + length (ping ++ q))
              s
            ≡ some (action walked, s'))
          × AnsweredPing t.1 t.2 (pong ++ (q ++ t.3)) s s')
        (sym (pairs ed em en ef))
        (received_ping_bytes a b c d e f g h i j k l n o x y z w instance_id q s short hs writable)
