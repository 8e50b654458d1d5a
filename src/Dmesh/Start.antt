-- ===== src/Dmesh/Start.antt =====
-- The timer of dmesh.c.
use dmesh_l.Base.{ℕ, ◌*◌, Option, none, some, List, [], ◌∷◌, ◌==◌, if◌then◌else◌}

-- The calls on the timer `dmesh_t`.
pub data TimerCall : Type 0 where
  timer_init timer_create timer_stop timer_dump : TimerCall
  timer_start_periodic : (microseconds : ℕ) → TimerCall

-- `timerCB`, whose body is commented out.
unfoldable pub timer_cb : List TimerCall
timer_cb = []

-- `register_dmesh`, with the result of esp_timer_create; none is an abort by ESP_ERROR_CHECK.
unfoldable pub register_dmesh : (create_code : ℕ) → Option (List TimerCall)
register_dmesh create_code =
    if create_code == 0
    then some (
        timer_init
        ∷ timer_create
        ∷ timer_stop
        ∷ timer_start_periodic (5 * 1000000)
        ∷ timer_dump
        ∷ [])
    else none
