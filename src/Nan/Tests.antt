-- ===== src/Nan/Tests.antt =====
-- Runs of the model of nan.c, and its theorems at concrete inputs.
use dmesh_l.Base.{
  ◌+◌, ℕ, ◌≡◌, refl, true, some, List, [], ◌∷◌, ◌++◌, arith, length, replicate, codes, bytes_eq,
}
use dmesh_l.Nan.Frames.{publish_frame, follow_up_frame, sync_frame}
use dmesh_l.Nan.Driver.{Nan, send_now}
use dmesh_l.Nan.Receive.{walked, action, beacon, sniffer_cb1, handle_daf}
use dmesh_l.Nan.Discovery.{AnsweredPublish, received_publish}
use dmesh_l.Nan.Messages.{TookMessage}
use dmesh_l.Nan.Walking.{Ends, handle_daf-Ends}
use dmesh_l.Nan.Keeping.{QueueIsValid}
use dmesh_l.Nan.Queue.{start_here, then_step, command, Reaches-QueueIsValid}
use dmesh_l.Nan.Timer.{timer_cb, cmd_nan}
use dmesh_l.Nan.Driver.{send}
use dmesh_l.Nan.Exchange.{Carries, send_now-received, AnsweredSync, received_sync}
use dmesh_l.Nan.Pings.{AnsweredPing, received_ping}
use dmesh_l.Nan.Samples.{env, mac, node}
use dmesh_l.Nan.Limits.{timer_cb_lem}

abbrev fcs : List ℕ
fcs = 1 ∷ 2 ∷ 3 ∷ 4 ∷ []

abbrev net : List ℕ
net = 9 ∷ 4 ∷ []

received_publish_example :
    (s : Nan) × (sniffer_cb1 env true (publish_frame mac net ++ fcs) 112 node
      ≡ some (action walked, s))
    × AnsweredPublish env mac net node s
received_publish_example = received_publish env mac net fcs node refl refl refl refl

send_now-received_example :
    (frame : List ℕ) × (s r : Nan) × (send_now env mac 1 (codes "hello") 5 node ≡ some (tt, s))
    × (s.sent ≡ frame ∷ [])
    × Carries frame (codes "hello")
    × (sniffer_cb1 env true (frame ++ fcs) (length frame + 4) node ≡ some (action walked, r))
    × TookMessage env mac node.mymac node.nan_net node r
send_now-received_example =
    send_now-received env env mac (codes "hello") fcs 1 5 node node refl refl refl refl
      (omega arith) (unfold bytes_eq in refl)

-- A node with a message for the peer with the address `mac`.
abbrev queued_node : Nan
queued_node = record node {
  peer = record node.peer {
    mac = mac;
    out_queue = record { bytes = codes "hi"; len = 2 } ∷ [];
    out_queue_len = 1;
  };
}

received_sync_example :
    (s : Nan) × (sniffer_cb1 env true (sync_frame mac (7 ∷ 1 ∷ []) 129 3 512 ++ fcs) 76 queued_node
      ≡ some (beacon, s))
    × AnsweredSync env (7 ∷ 1 ∷ []) (codes "hi") queued_node s
received_sync_example =
    received_sync env mac (7 ∷ 1 ∷ []) fcs (codes "hi") 129 3 76 queued_node refl refl refl refl
      refl (λ h. refl)

received_ping_example :
    (s : Nan) × (sniffer_cb1 env true
        (follow_up_frame node.mymac mac net 1 (codes "PINGp") ++ fcs)
        52
        node
      ≡ some (action walked, s))
    × AnsweredPing env mac net (codes "PONGp" ++ fcs) node s
received_ping_example =
    received_ping env node.mymac mac net fcs (codes "p") 1 node refl refl refl refl (omega arith)
      refl refl

handle_daf-Ends_example : Ends (handle_daf env (replicate 80 7) 2 node)
handle_daf-Ends_example = handle_daf-Ends env (replicate 80 7) 2 node (omega arith)

Reaches-QueueIsValid_example : QueueIsValid (cmd_nan env 0 mac (send (codes "hi")) node)
Reaches-QueueIsValid_example =
    Reaches-QueueIsValid env node (cmd_nan env 0 mac (send (codes "hi")) node)
      (then_step node node _ (start_here node) (command 0 mac (send (codes "hi")) node))
      (omega arith, refl)

timer_cb_lem_example :
    ((timer_cb env node).timers ≡ 524188 ∷ [])
    × ((timer_cb env node).sent ≡ sync_frame node.mymac node.nan_net 129 3 512 ∷ [])
timer_cb_lem_example = timer_cb_lem env node 100 refl (omega arith) (omega arith) (omega arith)
