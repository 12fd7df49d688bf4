-- ===== src/Timerpool.antt =====
-- timerpool/timepool.go: timers that are pooled between their uses. The timers of the `time` package are those of
-- Go 1.21, which go.mod asks for: `Stop` and `Reset` leave the channel alone, and the runtime takes an expired timer
-- from its list before it sends the tick, so that `Stop` may return false before the tick is in the channel.
pub mod Fresh
use vlgo.Shared.{
  ℕ, zero, suc, ◌+◌, Bool, true, false, List, [], ◌∷◌, Option, none, some, if◌then◌else◌, ℤ,
}

-- The duration that it is armed with, how many ticks of it are expired and not yet sent, and whether its
-- channel, of capacity one, holds a tick.
pub record Timer : Type 0 where
  pub armed : Option ℤ
  pub firing : ℕ
  pub ticked : Bool

-- `time.NewTimer`.
abbrev pub new_timer : ℤ → Timer
new_timer d = record { armed = some d; firing = 0; ticked = false }

-- `t.Reset(d)`.
abbrev pub reset : ℤ → Timer → Timer
reset d t = record t { armed = some d }

abbrev pub is_armed : Option ℤ → Bool
is_armed none = false
is_armed (some d) = true

-- `t.Stop()`, with its result: whether the timer was armed.
abbrev pub stop : Timer → Timer × Bool
stop t = (record t { armed = none }, is_armed t.armed)

-- The runtime takes an armed timer that has expired from its list,
abbrev pub expire : Timer → Timer
expire t = if is_armed t.armed then record t { armed = none; firing = suc t.firing } else t

abbrev send_tick : ℕ → Timer → Timer
send_tick zero t = t
send_tick (suc n) t = record t { firing = n; ticked = true }

-- and later sends its tick, which is dropped if the channel is full.
abbrev pub fire_tick : Timer → Timer
fire_tick t = send_tick t.firing t

-- `<-t.C`, where there is a tick; it also serves as the `select` with a default case.
abbrev pub drain : Timer → Timer
drain t = record t { ticked = false }

-- The pool holds timers. `sync.Pool` may hand out any of them, or none, and may drop any.
abbrev pub Pool : Type 0
Pool = List Timer

-- `Get` at the place that the runtime chooses, and the pool without it.
unfoldable pub pool_get : ℕ → Pool → Option Timer × Pool
pool_get n [] = (none, [])
pool_get zero (t ∷ ts) = (some t, ts)
pool_get (suc n) (t ∷ ts) = let (o, rest) = pool_get n ts in (o, t ∷ rest)

abbrev reset_or_new : ℤ → Option Timer → Timer
reset_or_new d (some t) = reset d t
reset_or_new d none = new_timer d

-- `GetTimer`; `pick` is the runtime's choice, and one past the end is an empty `Get`.
unfoldable pub get_timer : ℤ → ℕ → Pool → Timer × Pool
get_timer d pick pool = let (o, rest) = pool_get pick pool in (reset_or_new d o, rest)

-- `PutTimer`.
unfoldable pub put_timer : Timer → Pool → Pool
put_timer t pool =
    let (stopped, was_armed) = stop t in (if was_armed then stopped else drain stopped) ∷ pool
