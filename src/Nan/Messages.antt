-- ===== src/Nan/Messages.antt =====
-- Follow-up messages of nan.c: what `nanSendNow` sends, and what a node does with one that it
-- receives.
use dmesh_l.Base.{
  ℕ, zero, suc, ◌+◌, ◌*◌, ◌/◌, ◌%◌, ◌≤◌, ◌<◌, ◌≡◌, ◌≢◌, refl, sym, ap, ◌∙◌, subst, true, false,
  ◌||◌, some, List, [], ◌∷◌, ◌++◌, arith, inc32, add32, length, bind-then, ltb, if◌then◌else◌, ◌==◌,
  u8, take, drop, set, slice, get_elem?, bytes_eq, sub32, length-append, ◌^◌,
}
use dmesh_l.Nan.Frames.{follow_up_frame}
use dmesh_l.Nan.Driver.{Nan, Env}
use dmesh_l.Nan.Receive.{
  walked, action, sniffer_cb1, matches, handle_daf, walk_attributes, on_attribute, on_descriptor,
  on_control, on_message, tag_at, bytes_at, ping,
}
use dmesh_l.Nan.Discovery.{six_bytes, two_bytes, four_bytes, pairs}

pub slice-some :
    (xs : List ℕ) (i n : ℕ) → i + n ≤ length xs → slice xs i n ≡ some (take n (drop i xs))
slice-some xs i n h = ground arith

module _ (v : Env) where
  -- A walk over one attribute that ends where the frame does, less its check sequence.
  walk_one :
      (fuel len next tag tl : ℕ) (frame frame' : List ℕ) (s s' : Nan)
      → 0 < fuel
      → tl ≢ 0
      → next + 3 + tl + 4 ≡ len
      → len < 2 ^ 32
      → tag_at v frame next s ≡ some ((tag, tl), s)
      → on_attribute v frame tag (next + 3) s ≡ some (frame', s')
      → walk_attributes v (suc fuel) len next frame s ≡ some (walked, s')
  unfolding walk_attributes
  walk_one zero len next tag tl frame frame' s s' f nonempty end most t a = absurd (omega arith)
  walk_one (suc fuel) len next tag tl frame frame' s s' f nonempty end most t a =
      let more : ltb next (sub32 len 4) ≡ true = ground arith in
      let inside : (tl == 0 || ltb len (next + 3 + tl)) ≡ false = ground arith in
      let last : ltb (next + 3 + tl) (sub32 len 4) ≡ false = ground arith in
      rw (more, walk_attributes)
        (bind-then (tag_at v frame next) _ t (
          rw inside
            (bind-then (on_attribute v frame tag (next + 3)) _ a (rw (last, walk_attributes)))))

  -- A message that does not start with PING is counted, and so is one for another node; nothing
  -- is sent.
  abbrev pub counted : List ℕ → Nan → Nan
  counted dst s = record s {
    nan_messages_in = inc32 s.nan_messages_in;
    nan_packets_others =
        if bytes_eq dst s.mymac then s.nan_packets_others else inc32 s.nan_packets_others;
    readings = s.readings + 1;
  }

  on_message-quiet :
      (frame start dst : List ℕ) (i tlen : ℕ) (s : Nan)
      → slice frame i 4 ≡ some start
      → bytes_eq ping start ≡ false
      → slice frame 4 6 ≡ some dst
      → i + tlen < length frame
      → on_message v frame i tlen s ≡ some (set frame (i + tlen) 0, counted dst s)
  unfolding on_message
  on_message-quiet frame start dst i tlen s a quiet b inside =
      let fits : ltb (i + tlen) (length frame) ≡ true = ground arith in
      rw (a, quiet, b, fits, on_message)

  on_descriptor-known :
      (frame src : List ℕ) (i instance_id requestor control tlen : ℕ) (s : Nan)
      → get_elem? frame (i + 6) ≡ some instance_id
      → get_elem? frame (i + 7) ≡ some requestor
      → get_elem? frame (i + 8) ≡ some control
      → get_elem? frame (i + 9) ≡ some tlen
      → slice frame 10 6 ≡ some src
      → on_descriptor v frame i s
        ≡ on_control v frame control
            (i + 10)
            tlen
            (record s { peer = record s.peer { instance_id = instance_id; mac = src } })
  unfolding on_descriptor
  on_descriptor-known frame src i instance_id requestor control tlen s a b c d e =
      rw (a, b, c, d, e, on_descriptor)

  -- What the peer's state records of a service descriptor.
  abbrev known : (mac : List ℕ) → Nan → Nan
  known mac s = record s { peer = record s.peer { instance_id = 1; mac = mac } }

  -- A node `s` has taken a follow-up for `dst` from `mac`, in the network `net`, and has sent
  -- nothing.
  abbrev pub TookMessage : (dst mac net : List ℕ) (s s' : Nan) → Type 0
  TookMessage dst mac net s s' =
      (s'.peer.mac ≡ mac)
      × (s'.peer.instance_id ≡ 1)
      × (s'.nan_net ≡ net)
      × (s'.nan_messages_in ≡ inc32 s.nan_messages_in)
      × (s'.nan_packets_others
          ≡ (if bytes_eq dst s.mymac then s.nan_packets_others else inc32 s.nan_packets_others))
      × (s'.sent ≡ s.sent)

  module _ (a b c d e f g h i j k l n o x y z w instance_id : ℕ) (p : List ℕ) where
    abbrev pub dst_bytes : List ℕ
    dst_bytes = a ∷ b ∷ c ∷ d ∷ e ∷ f ∷ []

    abbrev pub mac_bytes : List ℕ
    mac_bytes = g ∷ h ∷ i ∷ j ∷ k ∷ l ∷ []

    abbrev pub fcs_bytes : List ℕ
    fcs_bytes = x ∷ y ∷ z ∷ w ∷ []

    abbrev pub follow_up : List ℕ
    follow_up = follow_up_frame dst_bytes mac_bytes (n ∷ o ∷ []) instance_id p ++ fcs_bytes

    pub length-follow_up : length follow_up ≡ 47 + length p
    unfolding follow_up_frame
    length-follow_up = rw (length-append p fcs_bytes) (omega arith)

    -- The state with which the message in a captured follow-up is looked at.
    abbrev pub heard : Nan → Nan
    heard s = known mac_bytes (record s {
      readings = s.readings + 1;
      captured_since_last = add32 s.captured_since_last (47 + length p);
      cap_packets = inc32 s.cap_packets;
      nan_packets = inc32 s.nan_packets;
      nan_net = n ∷ o ∷ [];
      peer = record s.peer { nan_net = n ∷ o ∷ [] };
    })

    pub slice-follow_up :
        (start count : ℕ)
        → start + count ≤ 47 + length p
        → slice follow_up start count ≡ some (take count (drop start follow_up))
    slice-follow_up start count h =
        slice-some follow_up start count (rw length-follow_up (omega arith))

    follow_up-daf :
        (frame : List ℕ) (r s' : Nan)
        → let s = record r {
          nan_net = n ∷ o ∷ [];
          peer = record r.peer { nan_net = n ∷ o ∷ [] };
        } in
          length p < 256
          → on_message v follow_up 43 (length p) (known mac_bytes s) ≡ some (frame, s')
          → handle_daf v follow_up (47 + length p) r ≡ some (walked, s')
    unfolding handle_daf follow_up_frame on_attribute on_control
    follow_up-daf frame r s' short taken =
        let s : Nan = record r {
          nan_net = n ∷ o ∷ [];
          peer = record r.peer { nan_net = n ∷ o ∷ [] };
        } in
        let small : u8 (length p) ≡ length p = omega arith in
        let net : slice follow_up 20 2 ≡ some (n ∷ o ∷ []) = slice-follow_up 20 2 (omega arith) in
        let from : slice follow_up 10 6 ≡ some mac_bytes = slice-follow_up 10 6 (omega arith) in
        let size : 256 * u8 ((length p + 6 + 4) / 256) + (length p + 6 + 4) % 256 ≡ length p + 10 =
          omega arith in
        bind-then (bytes_at follow_up 20 2) _ {t = r} {a = n ∷ o ∷ []} (rw net refl) (
          walk_one (47 + length p) (47 + length p) 30 3 (length p + 10) follow_up frame s s'
            (omega arith) (omega arith) (omega arith) (omega arith)
            (ap (λ q. some ((3, q), s)) size)
            (on_descriptor-known follow_up mac_bytes 33 1 instance_id 0x12 (u8 (length p)) s refl
                refl refl refl from
              ∙ ap (λ q. on_message v follow_up 43 q (known mac_bytes s)) small
              ∙ taken))

    -- What the callback does with a follow-up is what it does with the message in it.
    pub follow_up-sniffed :
        (frame : List ℕ) (s s' : Nan)
        → length p < 256
        → on_message v follow_up 43 (length p) (heard s) ≡ some (frame, s')
        → sniffer_cb1 v true follow_up (47 + length p) s ≡ some (action walked, s')
    unfolding sniffer_cb1 matches follow_up_frame
    follow_up-sniffed frame s s' short taken =
        bind-then (handle_daf v follow_up (47 + length p)) _ (follow_up-daf frame _ s' short taken)
          refl

    received_follow_up_bytes :
        (s : Nan)
        → length p < 256
        → bytes_eq ping (take 4 (p ++ fcs_bytes)) ≡ false
        → (s' : Nan) × (sniffer_cb1 v true follow_up (47 + length p) s ≡ some (action walked, s'))
          × TookMessage dst_bytes mac_bytes (n ∷ o ∷ []) s s'
    unfolding follow_up_frame
    received_follow_up_bytes s short quiet = (
      counted dst_bytes (heard s),
      follow_up-sniffed _ s _ short (
          on_message-quiet follow_up (take 4 (p ++ fcs_bytes)) dst_bytes 43 (length p) (heard s)
            (slice-follow_up 43 4 (omega arith)) quiet (slice-follow_up 4 6 (omega arith))
            (rw length-follow_up (omega arith))),
      (refl, refl, refl, refl, refl, refl),
    )

  -- A follow-up that one node sends with at most 255 bytes that do not start with PING, followed by
  -- the four bytes of its check sequence, is taken by another node: it joins the sender's network,
  -- knows the sender's address and service instance, counts the message, also as one for others
  -- exactly when the destination is not its own address, and sends nothing. The two addresses have
  -- six bytes and the network two.
  pub received_follow_up :
      (dst mac net fcs p : List ℕ) (instance_id : ℕ) (s : Nan)
      → length dst ≡ 6
      → length mac ≡ 6
      → length net ≡ 2
      → length fcs ≡ 4
      → length p < 256
      → bytes_eq ping (take 4 (p ++ fcs)) ≡ false
      → (s' : Nan) × (sniffer_cb1 v true
            (follow_up_frame dst mac net instance_id p ++ fcs)
            (47 + length p)
            s
          ≡ some (action walked, s'))
        × TookMessage dst mac net s s'
  received_follow_up dst mac net fcs p instance_id s hd hm hn hf short quiet =
      let (a, b, c, d, e, f, ed) = six_bytes dst hd in
      let (g, h, i, j, k, l, em) = six_bytes mac hm in
      let (n, o, en) = two_bytes net hn in
      let (x, y, z, w, ef) = four_bytes fcs hf in
      subst
        (λ t.
          (s' : Nan) × (sniffer_cb1 v true (follow_up_frame t.0 t.1 t.2 instance_id p ++ t.3)
              (47 + length p) s
            ≡ some (action walked, s'))
          × TookMessage t.0 t.1 t.2 s s')
        (sym (pairs ed em en ef))
        (received_follow_up_bytes a b c d e f g h i j k l n o x y z w instance_id p s short
          (ap (λ q. bytes_eq ping (take 4 (p ++ q))) (sym ef) ∙ quiet))
