-- ===== src/Nan/Sending.antt =====
-- `nanSendNow` of nan.c: what it sends.
use dmesh_l.Base.{
  ℕ, ◌+◌, ◌≤◌, ◌≡◌, refl, sym, subst, some, List, [], ◌∷◌, ◌++◌, arith, length, lift_option,
  bind-then, seq-then, ◌>>◌, ltb, if◌then◌else◌, min, take, length-take,
}
use dmesh_l.Nan.Frames.{follow_up_frame}
use dmesh_l.Nan.Driver.{Nan, Env, send_now, payload_of, tx, current_time_micro}
use dmesh_l.Nan.Discovery.{six_bytes, two_bytes, pairs}

-- The bytes that `nanSendNow` copies for a message of `len` bytes.
abbrev pub kept : ℕ → List ℕ → List ℕ
kept len m = take (min len 255) m

payload_of-kept :
    (v : Env) (len : ℕ) (m : List ℕ)
    → min len 255 ≤ length m
    → payload_of v m len ≡ some (kept len m)
payload_of-kept v len m long =
    let cut : (if ltb 255 len then 255 else len) ≡ min len 255 = ground arith in
    rw cut (ground arith)

pub length-kept : (len : ℕ) (m : List ℕ) → length (kept len m) ≤ 255
length-kept len m = rw (length-take (min len 255) m) (omega arith)

module _ (v : Env) where
  tx-sent :
      (frame : List ℕ) (s : Nan)
      → length frame ≤ 512
      → tx v frame s ≡ some (tt, record s { sent = s.sent ++ frame ∷ [] })
  tx-sent frame s h = ground arith

  -- The driver after one more frame and two looks at the clock.
  abbrev pub sent_one : List ℕ → Nan → Nan
  sent_one frame s = record s { sent = s.sent ++ frame ∷ []; readings = s.readings + 1 + 1 }

  send_now_bytes :
      (a b c d e f g h i j k l n o instance_id len : ℕ) (m : List ℕ) (r : Nan)
      → min len 255 ≤ length m
      → let dst = a ∷ b ∷ c ∷ d ∷ e ∷ f ∷ [] in
        let s = record r { mymac = g ∷ h ∷ i ∷ j ∷ k ∷ l ∷ []; nan_net = n ∷ o ∷ [] } in
        let frame = follow_up_frame dst s.mymac s.nan_net instance_id (kept len m) in
        (send_now v dst instance_id m len s ≡ some (tt, sent_one frame s))
        × (length frame ≡ 43 + length (kept len m))
  unfolding send_now follow_up_frame
  send_now_bytes a b c d e f g h i j k l n o instance_id len m r long =
      let s : Nan = record r { mymac = g ∷ h ∷ i ∷ j ∷ k ∷ l ∷ []; nan_net = n ∷ o ∷ [] } in
      let dst : List ℕ = a ∷ b ∷ c ∷ d ∷ e ∷ f ∷ [] in
      let frame : List ℕ = follow_up_frame dst s.mymac s.nan_net instance_id (kept len m) in
      let fits : length frame ≤ 512 = ground (arith, length-kept len m) in
      let s1 : Nan = record s { readings = s.readings + 1 } in
      (
        bind-then (lift_option (payload_of v m len)) _ {t = s} {a = kept len m}
            (rw (payload_of-kept v len m long) refl)
            (bind-then
              ((λ s1. tx v (follow_up_frame dst s1.mymac s1.nan_net instance_id (kept len m)) s1)
                >> current_time_micro v)
              _ {s = s1} {t = sent_one frame s} {a = v.clock s1.readings}
              (seq-then
                (λ s1. tx v (follow_up_frame dst s1.mymac s1.nan_net instance_id (kept len m)) s1)
                (current_time_micro v) {s = s1} (tx-sent frame s1 fits) refl)
              refl),
        omega arith,
      )

  -- For a message that has as many of its `len` bytes as fit, `nanSendNow` sends one frame, which
  -- carries the first 255 bytes at most and fits the buffer, and changes nothing else that the
  -- driver keeps. Both addresses have six bytes and the network two.
  pub send_now_lem :
      (dst m : List ℕ) (instance_id len : ℕ) (s : Nan)
      → length dst ≡ 6
      → length s.mymac ≡ 6
      → length s.nan_net ≡ 2
      → min len 255 ≤ length m
      → let frame = follow_up_frame dst s.mymac s.nan_net instance_id (kept len m) in
        (send_now v dst instance_id m len s ≡ some (tt, sent_one frame s))
        × (length frame ≡ 43 + length (kept len m))
  send_now_lem dst m instance_id len s hd hm hn long =
      let (a, b, c, d, e, f, ed) = six_bytes dst hd in
      let (g, h, i, j, k, l, em) = six_bytes s.mymac hm in
      let (n, o, en) = two_bytes s.nan_net hn in
      subst
        (λ t.
          let r : Nan = record s { mymac = t.1; nan_net = t.2 } in
          let frame = follow_up_frame t.0 t.1 t.2 instance_id (kept len m) in
          (send_now v t.0 instance_id m len r ≡ some (tt, sent_one frame r))
          × (length frame ≡ 43 + length (kept len m)))
        (sym (pairs {s = []} {s' = []} ed em en refl))
        (send_now_bytes a b c d e f g h i j k l n o instance_id len m s long)
