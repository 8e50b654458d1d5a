-- ===== src/Nan/Repeats.antt =====
-- Two sync beacons and the queue of nan.c.
use dmesh_l.Base.{ℕ, List, [], ◌∷◌, length}
use dmesh_l.Nan.Frames.{follow_up_frame, publish_frame}
use dmesh_l.Nan.Driver.{Nan, Env}
use dmesh_l.Nan.Sending.{kept}

module _ (v : Env) where
  -- What a node sends for a sync beacon in the network `net` while `m` is the message in the first
  -- slot of its queue.
  abbrev pub answers : (net m : List ℕ) → Nan → List (List ℕ)
  answers net m s =
      publish_frame s.mymac net
      ∷ follow_up_frame s.peer.mac s.mymac net s.peer.instance_id (kept (length m) m)
      ∷ []
