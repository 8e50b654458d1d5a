-- ===== src/Nan/Timer.antt =====
-- The timer of nan.c, and the calls that start and stop the component.
use dmesh_l.Base.{
  ℕ, ◌+◌, ◌*◌, true, false, ◌&&◌, not, List, [], ◌∷◌, ◌++◌, ltb, if◌then◌else◌, u8, add32, sub32,
  is_nonneg32, length,
}
use dmesh_l.Nan.Driver.{Nan, Env, send_sync, nan_queue, NanCommand, stop, start, send}

module _ (v : Env) where
  -- The sync beacon of `timerCB`: the difference is unsigned.
  unfoldable pub sync_if_needed : (now : ℕ) → Nan → Nan
  sync_if_needed now s =
      if ltb 490 (sub32 now s.last_sent_s_beacon)
      then send_sync v 512 (record s { last_sent_s_beacon = now })
      else s

  -- The statistics of `timerCB`, less the log: the difference is signed.
  unfoldable pub stats_if_due : (now : ℕ) → Nan → Nan
  stats_if_due now s =
      let elapsed = sub32 now s.last_stats in
      if is_nonneg32 elapsed && ltb (10 * 1000 * 1000) elapsed
      then record s { last_stats = now; captured_since_last = 0 }
      else s

  -- The delay of the next wake-up, for the second look at the clock.
  unfoldable pub wakeup_delay : (now later : ℕ) → ℕ
  wakeup_delay now later =
      let delta = sub32 (add32 now (512 * 1024)) later in
      if is_nonneg32 delta && not (ltb delta 1000) then delta else 100 * 1000

  -- `timerCB`
  unfoldable pub timer_cb : Nan → Nan
  timer_cb s =
      let now = v.clock s.readings in
      let s1 = stats_if_due now (sync_if_needed now (record s { readings = s.readings + 1 })) in
      let delay = wakeup_delay now (v.clock s1.readings) in
      if s.running
      then record s1 { timers = s1.timers ++ delay ∷ []; readings = s1.readings + 1 }
      else s

  -- The driver once `nanStartSniffing` has read the address `mac` of the station.
  unfoldable pub nan_start_sniffing : (mac : List ℕ) → Nan → Nan
  nan_start_sniffing mac s = record s {
    mymac = mac;
    running = true;
    timers = s.timers ++ 5 * 1000000 ∷ [];
    readings = s.readings + 1;
  }

  -- `nanStart`, when every call that it checks succeeds; `random` is the value of `rand`.
  unfoldable pub nan_start : (random : ℕ) (mac : List ℕ) → Nan → Nan
  nan_start random mac s = nan_start_sniffing mac (record s {
    initialized = true;
    master_pref = 129;
    master_random = u8 random;
    has_netif = true;
  })

  -- `nanStop`, which leaves `running` as it is.
  unfoldable pub nan_stop : Nan → Nan
  nan_stop s = record s { has_netif = false }

  -- `cmd_nan`, for arguments that parse.
  unfoldable pub cmd_nan : (random : ℕ) (mac : List ℕ) → NanCommand → Nan → Nan
  cmd_nan random mac stop s = nan_stop s
  cmd_nan random mac start s = nan_start random mac s
  cmd_nan random mac (send text) s = record s { peer = nan_queue text (length text) s.peer }
