-- ===== src/Nan/Discovery.antt =====
-- What a node makes of the frames that another node running nan.c and beacons.c has sent.
use dmesh_l.Base.{
  ℕ, ◌≡◌, refl, sym, subst, true, some, List, [], ◌∷◌, ◌++◌, arith, inc32, length, codes,
  append_assoc, final,
}
use dmesh_l.Nan.Frames.{publish_frame, follow_up_frame}
use dmesh_l.Nan.Driver.{Nan, Env, send_publish, send_now}
use dmesh_l.Nan.Receive.{
  walked, action, sniffer_cb1, matches, handle_daf, walk_attributes, on_attribute, on_descriptor,
  on_control,
}

-- The bytes of an address.
pub six_bytes : (l : List ℕ) → length l ≡ 6 → (a b c d e f : ℕ) × (l ≡ a ∷ b ∷ c ∷ d ∷ e ∷ f ∷ [])
six_bytes (a ∷ b ∷ c ∷ d ∷ e ∷ f ∷ []) h = (a, b, c, d, e, f, refl)
six_bytes l h = absurd (ground arith)

pub two_bytes : (l : List ℕ) → length l ≡ 2 → (a b : ℕ) × (l ≡ a ∷ b ∷ [])
two_bytes (a ∷ b ∷ []) h = (a, b, refl)
two_bytes l h = absurd (ground arith)

pub four_bytes : (l : List ℕ) → length l ≡ 4 → (a b c d : ℕ) × (l ≡ a ∷ b ∷ c ∷ d ∷ [])
four_bytes (a ∷ b ∷ c ∷ d ∷ []) h = (a, b, c, d, refl)
four_bytes l h = absurd (ground arith)

pub pairs :
    {p q r s p' q' r' s' : List ℕ}
    → p ≡ p'
    → q ≡ q'
    → r ≡ r'
    → s ≡ s'
    → ◌≡◌ {A = List ℕ × List ℕ × List ℕ × List ℕ} (p, q, r, s) (p', q', r', s')
pairs a b c d i = (a i, b i, c i, d i)

module _ (v : Env) where
  -- A node `s` with an address of six bytes has answered a publish frame from `mac`, in the network
  -- `net`.
  abbrev pub AnsweredPublish : (mac net : List ℕ) (s s' : Nan) → Type 0
  AnsweredPublish mac net s s' =
      (s'.peer.mac ≡ mac)
      × (s'.peer.instance_id ≡ 1)
      × (s'.nan_net ≡ net)
      × (s'.pub_received ≡ inc32 s.pub_received)
      × (s'.sent
          ≡ s.sent
            ++ follow_up_frame mac s.mymac net 1 (codes "PINGp") ∷ publish_frame s.mymac net ∷ [])

  received_publish_bytes :
      (a b c d e f n o x y z w : ℕ) (r : Nan) (g h i j k l : ℕ)
      → let mac = a ∷ b ∷ c ∷ d ∷ e ∷ f ∷ [] in
        let net = n ∷ o ∷ [] in
        let s = record r { mymac = g ∷ h ∷ i ∷ j ∷ k ∷ l ∷ [] } in
        (s' : Nan) × (sniffer_cb1 v true (publish_frame mac net ++ x ∷ y ∷ z ∷ w ∷ []) 112 s
          ≡ some (action walked, s'))
        × AnsweredPublish mac net s s'
  unfolding publish_frame follow_up_frame sniffer_cb1 matches handle_daf walk_attributes
      on_attribute on_descriptor on_control send_now send_publish
  received_publish_bytes a b c d e f n o x y z w r g h i j k l =
      let mac : List ℕ = a ∷ b ∷ c ∷ d ∷ e ∷ f ∷ [] in
      let frame : List ℕ = publish_frame mac (n ∷ o ∷ []) ++ x ∷ y ∷ z ∷ w ∷ [] in
      let s : Nan = record r { mymac = g ∷ h ∷ i ∷ j ∷ k ∷ l ∷ [] } in
      (
        final (sniffer_cb1 v true frame 112 s) s,
        refl,
        (refl, refl, refl, refl, append_assoc r.sent _ _),
      )

  -- A publish frame that one node sends, followed by the four bytes of its check sequence, makes
  -- another one send a PINGp follow-up to the sender's address and service instance, and a publish
  -- frame of its own, both in the sender's network, which it joins. Both nodes' addresses have six
  -- bytes and the network two.
  pub received_publish :
      (mac net fcs : List ℕ) (s : Nan)
      → length mac ≡ 6
      → length net ≡ 2
      → length fcs ≡ 4
      → length s.mymac ≡ 6
      → (s' : Nan) × (sniffer_cb1 v true (publish_frame mac net ++ fcs) 112 s
          ≡ some (action walked, s'))
        × AnsweredPublish mac net s s'
  received_publish mac net fcs s hm hn hf hs =
      let (a, b, c, d, e, f, em) = six_bytes mac hm in
      let (n, o, en) = two_bytes net hn in
      let (x, y, z, w, ef) = four_bytes fcs hf in
      let (g, h, i, j, k, l, es) = six_bytes s.mymac hs in
      subst
        (λ t.
          (s' : Nan) × (sniffer_cb1 v true (publish_frame t.0 t.1 ++ t.2) 112
              (record s { mymac = t.3 })
            ≡ some (action walked, s'))
          × AnsweredPublish t.0 t.1 (record s { mymac = t.3 }) s')
        (sym (pairs em en ef es)) (received_publish_bytes a b c d e f n o x y z w s g h i j k l)
