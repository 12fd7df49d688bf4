-- ===== src/Tests/Timerpool.antt =====
-- The timer pool of timerpool/timepool.go on a small history.
use vlgo.Shared.{◌≡◌, refl, false, true, List, [], ◌∷◌, none, some, pos}
use vlgo.Timerpool.{Timer, new_timer, get_timer, pool_get, put_timer, expire, fire_tick}
use vlgo.Timerpool.Fresh.{
  PoolEvent, gets, puts, expires_held, sends_held, no_timers, pool_run, pool_step, change_at,
  PutsSent, get_timer-new_timer, put_timer-stale,
}

-- A timer is taken, expires, and goes back with its tick unread.
abbrev history : List PoolEvent
history = gets (pos 200) 0 ∷ expires_held 0 ∷ sends_held 0 ∷ puts 0 ∷ []

pooled :
    (pool_run no_timers history).pool ≡ record { armed = none; firing = 0; ticked = false } ∷ []
unfolding pool_run pool_step get_timer pool_get put_timer
pooled = refl

history-PutsSent : PutsSent no_timers history
unfolding pool_run pool_step get_timer pool_get put_timer
history-PutsSent = (refl, tt)

get_timer-new_timer_example :
    (get_timer (pos 7) 0 (pool_run no_timers history).pool).0 ≡ new_timer (pos 7)
get_timer-new_timer_example = get_timer-new_timer history (pos 7) 0 history-PutsSent

-- A timer that has expired, and whose tick is not sent yet.
abbrev expired : Timer
expired = expire (new_timer (pos 200))

put_timer-stale_example :
    let late = fire_tick (get_timer (pos 7) 0 (put_timer expired [])).0 in
    let early = (get_timer (pos 7) 0 (change_at fire_tick 0 (put_timer expired []))).0 in
    (late.armed ≡ some (pos 7)) × (late.ticked ≡ true) × (early ≡ late)
put_timer-stale_example = put_timer-stale expired 0 (pos 7) [] refl
