-- ===== src/Nan/Queue.antt =====
-- The bound of the queue of nan.c, over every sequence of events.
use dmesh_l.Base.{
  After, bind-Keeps, seq-Keeps, if-Keeps, lift-Keeps, pure-Keeps, modify-Keeps, state-Keeps, ℕ,
  zero, suc, ◌+◌, ◌≡◌, Bool, true, false, Option, some, List, [], ◌∷◌, arith, length, get_elem?,
  ◌>>=◌, ◌>>◌, pure, modify, with_state, slice, ◌==◌, length-set, ltb, codes, Bool-cases, inl, inr,
  subst, ◌||◌, ◌*◌, not, sub32,
}
use dmesh_l.Nan.Driver.{
  Nan, Env, send_publish, send_now, nan_queue, NanCommand, stop, start, send, send_sync,
}
use dmesh_l.Nan.Receive.{
  Walk, on_control, on_descriptor, on_attribute, walk_attributes, handle_daf, matches, sniffer_cb1,
  tag_at, bytes_at, note_subscribe, note_publish, note_instance, note_mac, note_network,
  note_capture, note_packet,
}
use dmesh_l.Nan.Timer.{
  timer_cb, sync_if_needed, stats_if_due, cmd_nan, nan_stop, nan_start, nan_start_sniffing,
}
use dmesh_l.Nan.Keeping.{
  QueueIsValid, Keeps, clock-Keeps, send_publish-Keeps, send_now-Keeps, handle_beacon-Keeps,
  on_message-Keeps,
}
use dmesh_l.Nan.Receive.{
  Sniffed, not_management, other_bssid, beacon, not_action, not_nan, not_sdf, action, walked,
  overflow, out_of_fuel,
}

module _ (v : Env) where
  on_control-Keeps :
      (frame : List ℕ) (control i tlen : ℕ) → Keeps (on_control v frame control i tlen)
  unfolding on_control
  on_control-Keeps frame control i tlen = record { holds = λ s q. go s q }
    where
      subscribed : Keeps (send_publish v >> modify note_subscribe >> pure frame)
      subscribed =
          seq-Keeps (seq-Keeps (send_publish-Keeps v) (modify-Keeps note_subscribe λ s q. q))
            (pure-Keeps frame)

      answer :
          (src : List ℕ) (s : Nan) → Keeps (send_now v src s.peer.instance_id (codes "PINGp") 5)
      answer src s = send_now-Keeps v src s.peer.instance_id (codes "PINGp") 5

      published : Keeps (
          bytes_at frame 10 6 >>= λ src.
          with_state (λ s1. send_now v src s1.peer.instance_id (codes "PINGp") 5)
          >> send_publish v
          >> modify note_publish
          >> pure frame)
      published = bind-Keeps (lift-Keeps (slice frame 10 6)) λ src.
          seq-Keeps
            (seq-Keeps (seq-Keeps (state-Keeps (answer src)) (send_publish-Keeps v))
              (modify-Keeps note_publish λ s q. q))
            (pure-Keeps frame)

      go : (s : Nan) → QueueIsValid s → After QueueIsValid (on_control v frame control i tlen s)
      go s q = elim (Bool-cases (control == 0x11)) [
        | inl e ↦ rw (e, on_control) (subscribed.holds s q)
        | inr e ↦ elim (Bool-cases (control == 0x10)) [
          | inl f ↦ rw (e, f, on_control) (published.holds s q)
          | inr f ↦ rw (e, f, on_control) ((on_message-Keeps v frame i tlen).holds s q)
        ]
      ]

  on_descriptor-Keeps : (frame : List ℕ) (i : ℕ) → Keeps (on_descriptor v frame i)
  unfolding on_descriptor
  on_descriptor-Keeps frame i = bind-Keeps (lift-Keeps (get_elem? frame (i + 6))) λ id.
      bind-Keeps
        (seq-Keeps (modify-Keeps (note_instance id) λ s q. q)
          (lift-Keeps (get_elem? frame (i + 7))))
        λ requestor. bind-Keeps (lift-Keeps (get_elem? frame (i + 8))) λ control.
          bind-Keeps (lift-Keeps (get_elem? frame (i + 9))) λ tlen.
            bind-Keeps (lift-Keeps (slice frame 10 6)) λ src.
              seq-Keeps (modify-Keeps (note_mac src) λ s q. q)
                (on_control-Keeps frame control (i + 10) tlen)

  on_attribute-Keeps : (frame : List ℕ) (tag i : ℕ) → Keeps (on_attribute v frame tag i)
  unfolding on_attribute
  on_attribute-Keeps frame tag i = record {
    holds = λ s q. elim (Bool-cases (tag == 3)) [
      | inl e ↦ rw (e, on_attribute) ((on_descriptor-Keeps frame i).holds s q)
      | inr e ↦ rw (e, on_attribute) q
    ];
  }

  tag_at-Keeps : (frame : List ℕ) (next : ℕ) → Keeps (tag_at v frame next)
  tag_at-Keeps frame next = bind-Keeps (lift-Keeps (get_elem? frame next)) λ tag.
      bind-Keeps (lift-Keeps (get_elem? frame (next + 1))) λ low.
        bind-Keeps (lift-Keeps (get_elem? frame (next + 2)))
          λ high. pure-Keeps (tag, 256 * high + low)

  round-After :
      (b : Bool) (s : Nan) (o : Option (Walk × Nan))
      → QueueIsValid s
      → After QueueIsValid o
      → After QueueIsValid (elim b [ false ↦ some (walked, s) | true ↦ o ])
  round-After true s o q h = h
  round-After false s o q h = q

  walk_attributes-Keeps :
      (fuel len next : ℕ) (frame : List ℕ) → Keeps (walk_attributes v fuel len next frame)
  unfolding walk_attributes
  walk_attributes-Keeps zero len next frame = pure-Keeps out_of_fuel
  walk_attributes-Keeps (suc fuel) len next frame = record {
    holds = λ s q. round-After (ltb next (sub32 len 4)) s _ q (
        (bind-Keeps (tag_at-Keeps frame next) λ t.
            if-Keeps (t.1 == 0 || ltb len (next + 3 + t.1)) (pure-Keeps overflow) (
              bind-Keeps (on_attribute-Keeps frame t.0 (next + 3))
                λ frame'. walk_attributes-Keeps fuel len (next + 3 + t.1) frame')).holds
          s q);
  }

  handle_daf-Keeps : (frame : List ℕ) (len : ℕ) → Keeps (handle_daf v frame len)
  unfolding handle_daf
  handle_daf-Keeps frame len = bind-Keeps (lift-Keeps (slice frame 20 2)) λ net.
      seq-Keeps (modify-Keeps (note_network net) λ s q. q)
        (walk_attributes-Keeps (suc len) len 30 frame)

  matches-Keeps : (frame : List ℕ) (tests : List (ℕ × ℕ)) → Keeps (matches v frame tests)
  unfolding matches
  matches-Keeps frame [] = pure-Keeps true
  matches-Keeps frame ((i, value) ∷ tests) =
      bind-Keeps (lift-Keeps (get_elem? frame i))
        λ x. if-Keeps (x == value) (matches-Keeps frame tests) (pure-Keeps false)

  sniffer_cb1-Keeps :
      (is_mgmt : Bool) (frame : List ℕ) (len : ℕ) → Keeps (sniffer_cb1 v is_mgmt frame len)
  unfolding sniffer_cb1
  sniffer_cb1-Keeps is_mgmt frame len = bind-Keeps (clock-Keeps v) λ now.
      seq-Keeps (modify-Keeps (note_capture len) λ s q. q) (
        if-Keeps (not is_mgmt) (pure-Keeps not_management) (
          bind-Keeps (matches-Keeps frame ((16, 0x50) ∷ (17, 0x6f) ∷ (18, 0x9a) ∷ [])) λ nan.
            if-Keeps (not nan) (pure-Keeps other_bssid) (
              bind-Keeps (lift-Keeps (get_elem? frame 0)) λ kind.
                if-Keeps (kind == 0x80)
                  (seq-Keeps (handle_beacon-Keeps v frame) (pure-Keeps beacon))
                  (if-Keeps (not (kind == 0xd0)) (pure-Keeps not_action) (
                    bind-Keeps
                      (matches-Keeps frame
                        ((24, 4) ∷ (25, 9) ∷ (26, 0x50) ∷ (27, 0x6f) ∷ (28, 0x9a) ∷ []))
                      λ public_action. if-Keeps (not public_action) (pure-Keeps not_nan) (
                        bind-Keeps
                          (seq-Keeps (modify-Keeps note_packet λ s q. q)
                            (lift-Keeps (get_elem? frame 29)))
                          λ oui_type. if-Keeps (not (oui_type == 19)) (pure-Keeps not_sdf) (
                            bind-Keeps (handle_daf-Keeps frame len)
                              λ w. pure-Keeps (action w))))))))

-- One event: a frame captured in promiscuous mode, the timer, or a console command.
pub data Step (v : Env) : Nan → Nan → Type 0 where
  captured :
      (is_mgmt : Bool) (frame : List ℕ) (len : ℕ) (result : Sniffed) (s s' : Nan)
      → sniffer_cb1 v is_mgmt frame len s ≡ some (result, s')
      → Step v s s'
  timer : (s : Nan) → Step v s (timer_cb v s)
  command :
      (random : ℕ) (mac : List ℕ) (c : NanCommand) (s : Nan) → Step v s (cmd_nan v random mac c s)

pub data Reaches (v : Env) : Nan → Nan → Type 0 where
  start_here : (s : Nan) → Reaches v s s
  then_step : (s t u : Nan) → Reaches v s t → Step v t u → Reaches v s u

module _ (v : Env) where
  timer_cb-QueueIsValid : (s : Nan) → QueueIsValid s → QueueIsValid (timer_cb v s)
  unfolding timer_cb sync_if_needed stats_if_due send_sync
  timer_cb-QueueIsValid s q = ground (arith, q)

  cmd_nan-QueueIsValid :
      (random : ℕ) (mac : List ℕ) (c : NanCommand) (s : Nan)
      → QueueIsValid s
      → QueueIsValid (cmd_nan v random mac c s)
  unfolding cmd_nan nan_stop nan_start nan_start_sniffing nan_queue
  cmd_nan-QueueIsValid random mac stop s q = q
  cmd_nan-QueueIsValid random mac start s q = q
  cmd_nan-QueueIsValid random mac (send text) s q = ground (
    arith,
    q,
    length-set s.peer.out_queue s.peer.out_queue_len (record { bytes = text; len = length text }),
  )

  Step-QueueIsValid : (s t : Nan) → Step v s t → QueueIsValid s → QueueIsValid t
  Step-QueueIsValid s t (captured is_mgmt frame len result _ _ e) q =
      subst (After QueueIsValid) e ((sniffer_cb1-Keeps v is_mgmt frame len).holds s q)
  Step-QueueIsValid s t (timer _) q = timer_cb-QueueIsValid s q
  Step-QueueIsValid s t (command random mac c _) q = cmd_nan-QueueIsValid random mac c s q

  -- Whatever frames are captured, timers fire and commands are given, the queue never holds more
  -- than its five messages, from a state where it does not on.
  pub Reaches-QueueIsValid : (s t : Nan) → Reaches v s t → QueueIsValid s → QueueIsValid t
  Reaches-QueueIsValid s t (start_here _) q = q
  Reaches-QueueIsValid s u (then_step _ t _ r step) q =
      Step-QueueIsValid t u step (Reaches-QueueIsValid s t r q)
