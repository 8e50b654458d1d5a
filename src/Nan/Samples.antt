-- ===== src/Nan/Samples.antt =====
-- A concrete environment and node for runs of nan.c.
use dmesh_l.Base.{ℕ, ◌+◌, ◌*◌, true, List, [], ◌∷◌, replicate}
use dmesh_l.Nan.Driver.{Nan, Env}

-- A clock that moves on by 100 microseconds at every look.
abbrev pub env : Env
env = record { clock = λ n. 5000000 + n * 100; res_writable = true }

abbrev pub mac : List ℕ
mac = 2 ∷ 0 ∷ 0 ∷ 0 ∷ 0 ∷ 7 ∷ []

abbrev pub node : Nan
node = record {
  mymac = 2 ∷ 0 ∷ 0 ∷ 0 ∷ 0 ∷ 1 ∷ [];
  peer = record {
    mac = replicate 6 0;
    nan_net = 5 ∷ 1 ∷ [];
    instance_id = 0;
    discovery_beacons = 0;
    sync_beacons = 0;
    last_seen = 0;
    out_queue = replicate 5 (record { bytes = []; len = 0 });
    out_queue_len = 0;
  };
  nan_net = 5 ∷ 1 ∷ [];
  nan_packets = 0;
  running = true;
  initialized = true;
  has_netif = true;
  pub_received = 0;
  sub_received = 0;
  nan_s_beacon = 0;
  nan_d_beacon = 0;
  master_pref = 129;
  master_random = 3;
  last_s_beacon = 0;
  last_sent_s_beacon = 0;
  last_d_beacon = 0;
  nan_messages_in = 0;
  nan_packets_others = 0;
  cap_packets = 0;
  captured_since_last = 0;
  max_post_sync = 0;
  last_stats = 0;
  res_buf = replicate 64 0;
  sent = [];
  timers = [];
  readings = 0;
}
