-- ===== src/Timerpool/Fresh.antt =====
-- Histories of the timers of timerpool/timepool.go, and what `GetTimer` returns after them.
use vlgo.Shared.{
  ℕ, zero, suc, ◌≡◌, refl, sym, ap, subst, ◌∙◌, inl, inr, Bool, Bool-cases, true, false, ℤ, List,
  [], ◌∷◌, Option, none, some, arith, All,
}
use vlgo.Timerpool.{
  Timer, new_timer, is_armed, reset_or_new, expire, fire_tick, send_tick, drain, Pool, pool_get,
  get_timer, put_timer,
}

-- The pool, and the timers that goroutines hold.
pub record Timers : Type 0 where
  pub pool : Pool
  pub out : List Timer

-- `GetTimer`; `PutTimer` of a held timer; the garbage collector drops a pooled timer; a pooled or a held
-- timer expires, or has its tick sent; a holder receives the tick. Holders do not call `Reset` by themselves.
pub data PoolEvent : Type 0 where
  gets : ℤ → ℕ → PoolEvent
  puts drops expires_pooled expires_held sends_pooled sends_held receives : ℕ → PoolEvent

pub change_at : (Timer → Timer) → ℕ → List Timer → List Timer
change_at f n [] = []
change_at f zero (t ∷ ts) = f t ∷ ts
change_at f (suc n) (t ∷ ts) = t ∷ change_at f n ts

-- `PutTimer` of what has been taken from the held timers.
pub put_held : Option Timer × List Timer → Pool → Timers
put_held (none, rest) pool = record { pool = pool; out = rest }
put_held (some t, rest) pool = record { pool = put_timer t pool; out = rest }

unfoldable pub pool_step : Timers → PoolEvent → Timers
unfolding change_at put_held
pool_step s (gets d n) =
    let (t, rest) = get_timer d n s.pool in record { pool = rest; out = t ∷ s.out }
pool_step s (puts n) = put_held (pool_get n s.out) s.pool
pool_step s (drops n) = record s { pool = (pool_get n s.pool).1 }
pool_step s (expires_pooled n) = record s { pool = change_at expire n s.pool }
pool_step s (expires_held n) = record s { out = change_at expire n s.out }
pool_step s (sends_pooled n) = record s { pool = change_at fire_tick n s.pool }
pool_step s (sends_held n) = record s { out = change_at fire_tick n s.out }
pool_step s (receives n) = record s { out = change_at drain n s.out }

unfoldable pub pool_run : Timers → List PoolEvent → Timers
pool_run s [] = s
pool_run s (e ∷ es) = pool_run (pool_step s e) es

abbrev pub no_timers : Timers
no_timers = record { pool = []; out = [] }

abbrev IsIdle : Timer → Type 0
IsIdle t = (t.armed ≡ none) × (t.firing ≡ 0) × (t.ticked ≡ false)

-- An armed timer has no tick, and none to come but its own.
abbrev IsClean : Timer → Type 0
IsClean t = is_armed t.armed ≡ true → (t.firing ≡ 0) × (t.ticked ≡ false)

-- The tick of an expired timer has been sent.
abbrev pub IsSent : Timer → Type 0
IsSent t = t.firing ≡ 0

abbrev pub AtOption : (Timer → Type 0) → Option Timer → Type 0
AtOption P none = Unit
AtOption P (some t) = P t

module _ (P : Timer → Type 0) where
  pool_get-All :
      (n : ℕ) (ts : List Timer) → All P ts → AtOption P (pool_get n ts).0 × All P (pool_get n ts).1
  unfolding pool_get
  pool_get-All zero [] h = (tt, tt)
  pool_get-All (suc n) [] h = (tt, tt)
  pool_get-All zero (t ∷ ts) h = h
  pool_get-All (suc n) (t ∷ ts) h = let (o, rest) = pool_get-All n ts h.1 in (o, (h.0, rest))

  change_at-All :
      (f : Timer → Timer)
      → ((t : Timer) → P t → P (f t))
      → (n : ℕ) (ts : List Timer) → All P ts
      → All P (change_at f n ts)
  unfolding change_at
  change_at-All f keep zero [] h = tt
  change_at-All f keep (suc n) [] h = tt
  change_at-All f keep zero (t ∷ ts) h = (keep t h.0, h.1)
  change_at-All f keep (suc n) (t ∷ ts) h = (h.0, change_at-All f keep n ts h.1)

record Inv (s : Timers) : Type 0 where
  idle : All IsIdle s.pool
  clean : All IsClean s.out

-- Every timer that is put back has had its tick sent if it has expired.
abbrev pub PutsSent : Timers → List PoolEvent → Type 0
PutsSent s [] = Unit
PutsSent s (puts n ∷ es) = AtOption IsSent (pool_get n s.out).0 × PutsSent (pool_step s (puts n)) es
PutsSent s (e ∷ es) = PutsSent (pool_step s e) es

abbrev PutSent : Timers → PoolEvent → Type 0
PutSent s (puts n) = AtOption IsSent (pool_get n s.out).0
PutSent s e = Unit

reset_or_new-IsIdle :
    (d : ℤ) (o : Option Timer) → AtOption IsIdle o → reset_or_new d o ≡ new_timer d
reset_or_new-IsIdle d none h = refl
reset_or_new-IsIdle d (some t) (off, still, empty) =
    ap (λ (x : ℕ × Bool). record { armed = some d; firing = x.0; ticked = x.1 })
      (ap (λ n. (n, t.ticked)) still ∙ ap (λ b. (0, b)) empty)

get_timer-IsIdle :
    (d : ℤ) (n : ℕ) (pool : Pool) → All IsIdle pool → (get_timer d n pool).0 ≡ new_timer d
unfolding get_timer
get_timer-IsIdle d n pool h = reset_or_new-IsIdle d _ (pool_get-All IsIdle n pool h).0

put_timer-IsIdle :
    (t : Timer) (pool : Pool)
    → IsClean t
    → IsSent t
    → All IsIdle pool
    → All IsIdle (put_timer t pool)
unfolding put_timer
put_timer-IsIdle t pool clean sent idle = elim (Bool-cases (is_armed t.armed)) [
  | inl on ↦ rw on ((refl, sent, (clean on).1), idle)
  | inr off ↦ rw off ((refl, sent, refl), idle)
]

expire-IsClean : (t : Timer) → IsClean t → IsClean (expire t)
expire-IsClean t clean = elim (Bool-cases (is_armed t.armed)) [
  | inl on ↦ rw on (λ armed. absurd (cc))
  | inr off ↦ rw off clean
]

expire-IsIdle : (t : Timer) → IsIdle t → IsIdle (expire t)
expire-IsIdle t idle = rw idle.0 (refl, idle.1, idle.2)

send_tick-same : (t : Timer) → t.firing ≡ 0 → fire_tick t ≡ t
send_tick-same t still = ap (λ n. send_tick n t) still

fire_tick-IsIdle : (t : Timer) → IsIdle t → IsIdle (fire_tick t)
fire_tick-IsIdle t idle = subst IsIdle (sym (send_tick-same t idle.1)) idle

send_tick-IsClean : (n : ℕ) (t : Timer) → t.firing ≡ n → IsClean t → IsClean (send_tick n t)
send_tick-IsClean zero t e clean = clean
send_tick-IsClean (suc n) t e clean =
    λ on. let (still, empty) = clean on in absurd (omega (arith, e, still))

put_held-Inv :
    (end : Option Timer × List Timer) (pool : Pool)
    → AtOption IsSent end.0
    → AtOption IsClean end.0 × All IsClean end.1
    → All IsIdle pool
    → Inv (put_held end pool)
unfolding put_held
put_held-Inv (none, rest) pool sent h k = record { idle = k; clean = h.1 }
put_held-Inv (some t, rest) pool sent h k = record {
  idle = put_timer-IsIdle t pool h.0 sent k;
  clean = h.1;
}

pool_step-Inv : (s : Timers) (e : PoolEvent) → PutSent s e → Inv s → Inv (pool_step s e)
unfolding pool_step
pool_step-Inv s (gets d n) sent h = record {
  idle = unfold get_timer in (pool_get-All IsIdle n s.pool h.idle).1;
  clean = (subst IsClean (sym (get_timer-IsIdle d n s.pool h.idle)) (λ on. (refl, refl)), h.clean);
}
pool_step-Inv s (puts n) sent h =
    put_held-Inv _ s.pool sent (pool_get-All IsClean n s.out h.clean) h.idle
pool_step-Inv s (drops n) sent h = record {
  idle = (pool_get-All IsIdle n s.pool h.idle).1;
  clean = h.clean;
}
pool_step-Inv s (expires_pooled n) sent h = record {
  idle = change_at-All IsIdle expire expire-IsIdle n s.pool h.idle;
  clean = h.clean;
}
pool_step-Inv s (expires_held n) sent h = record {
  idle = h.idle;
  clean = change_at-All IsClean expire expire-IsClean n s.out h.clean;
}
pool_step-Inv s (sends_pooled n) sent h = record {
  idle = change_at-All IsIdle fire_tick fire_tick-IsIdle n s.pool h.idle;
  clean = h.clean;
}
pool_step-Inv s (sends_held n) sent h = record {
  idle = h.idle;
  clean =
      change_at-All IsClean fire_tick (λ t k. send_tick-IsClean t.firing t refl k) n s.out h.clean;
}
pool_step-Inv s (receives n) sent h = record {
  idle = h.idle;
  clean = change_at-All IsClean drain (λ t k on. ((k on).0, refl)) n s.out h.clean;
}

PutsSent-split :
    (s : Timers) (e : PoolEvent) (es : List PoolEvent)
    → PutsSent s (e ∷ es)
    → PutSent s e × PutsSent (pool_step s e) es
PutsSent-split s (gets d n) es h = (tt, h)
PutsSent-split s (puts n) es h = h
PutsSent-split s (drops n) es h = (tt, h)
PutsSent-split s (expires_pooled n) es h = (tt, h)
PutsSent-split s (expires_held n) es h = (tt, h)
PutsSent-split s (sends_pooled n) es h = (tt, h)
PutsSent-split s (sends_held n) es h = (tt, h)
PutsSent-split s (receives n) es h = (tt, h)

pool_run-Inv : (s : Timers) (es : List PoolEvent) → PutsSent s es → Inv s → Inv (pool_run s es)
unfolding pool_run
pool_run-Inv s [] sent h = h
pool_run-Inv s (e ∷ es) sent h =
    let (now, later) = PutsSent-split s e es sent in
    pool_run-Inv (pool_step s e) es later (pool_step-Inv s e now h)

-- After any history of the pool and of the timers that goroutines hold, in which no timer is put back
-- between its expiry and its tick, and whichever timer the runtime picks: `GetTimer` returns one that is armed
-- for the duration asked for, and has no tick of an earlier use, neither in its channel nor still to come.
pub get_timer-new_timer :
    (es : List PoolEvent) (d : ℤ) (pick : ℕ)
    → PutsSent no_timers es
    → (get_timer d pick (pool_run no_timers es).pool).0 ≡ new_timer d
get_timer-new_timer es d pick sent =
    get_timer-IsIdle d pick _
      (pool_run-Inv no_timers es sent (record { idle = tt; clean = tt })).idle

-- A timer that is put back between its expiry and its tick goes into the pool with the tick to come. Whether the
-- tick is then sent before the next `GetTimer`, which picks this timer, or after it: that caller holds a timer
-- that is armed for its own duration, with the tick of the earlier use in its channel.
pub put_timer-stale :
    (t : Timer) (n : ℕ) (d : ℤ) (pool : Pool)
    → t.firing ≡ suc n
    → let late = fire_tick (get_timer d 0 (put_timer t pool)).0 in
      let early = (get_timer d 0 (change_at fire_tick 0 (put_timer t pool))).0 in
      (late.armed ≡ some d) × (late.ticked ≡ true) × (early ≡ late)
unfolding get_timer put_timer pool_get change_at
put_timer-stale t n d pool e = elim (Bool-cases (is_armed t.armed)) [
  | inl on ↦ rw on (rw e (refl, refl, refl))
  | inr off ↦ rw off (rw e (refl, refl, refl))
]
