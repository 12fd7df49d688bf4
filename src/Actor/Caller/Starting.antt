-- ===== src/Actor/Caller/Starting.antt =====
-- `Start` of gen/actor.go: the waiter that an actor registers, and the two ends of its `select`.
use Prim.Native.String.{◌++◌ as str_append}
use vlgo.Waiters.{World, Waiter, ok, fatal, lookup, new_waiter, ◌>>=◌}
use vlgo.Waiters.Registry.{Creates, new_waiter_lem}
use vlgo.Shared.{
  subst, ◌≡◌, refl, ◌⊎◌, inl, inr, Bool, true, false, List, [], ◌++◌, none, some, ℤ, Option-cases,
}
use vlgo.Actor.{Value, nil, ActorCtx, ActorRet, Handler, Actor, Event, handle_ret}
use vlgo.Actor.Loop.{blocks, crashes, loop, enters}
use vlgo.Actor.Caller.{make_chan, mailbox_size, Codes, Started, start, start_results}

module _ {State Msg : Type 0} (h : Handler State Msg) where
  -- The actor that `Start` makes.
  abbrev pub first_actor : ActorCtx → State → ℤ → Actor State Msg
  first_actor ctx state d = record { ctx = ctx; state = state; default_out = d; effects = [] }

  -- The actor behind `Init`.
  abbrev pub inited : ActorCtx → Value Msg → State → ℤ → Actor State Msg
  inited ctx msg state d =
      let r = h.init ctx msg state in
      record { ctx = ctx; state = r.state; default_out = d; effects = [] ++ r.sends }

  abbrev started : Codes → ActorCtx → Value Msg → State → ℤ → Bool → List (Event Msg) → Started h
  started codes ctx msg state d in_time es =
      let (v, e) = start_results h codes in_time (h.init ctx msg state).ret in
      record {
        value = v;
        error = e;
        mailbox = make_chan mailbox_size;
        interrupt_box = make_chan 0;
        is_stopped = false;
        outcome = loop h in_time msg (first_actor ctx state d) es;
      }

  -- The ends of `Start` where the name is free.
  pub data Starts (codes : Codes) (ctx : ActorCtx) (msg : Value Msg) (state : State) (d : ℤ)
      (in_time : Bool) (es : List (Event Msg)) (s : Started h) : Type 0 where
    init_panics :
        (h.init ctx msg state).ret ≡ none
        → s.outcome ≡ crashes (inited ctx msg state d)
        → Starts codes ctx msg state d in_time es s
    init_late :
        (ret : ActorRet Msg)
        → (h.init ctx msg state).ret ≡ some ret
        → in_time ≡ false
        → s.value ≡ nil
        → s.error ≡ codes.err_actor_init_timeout
        → s.outcome ≡ blocks (inited ctx msg state d)
        → Starts codes ctx msg state d in_time es s
    init_answers :
        (ret : ActorRet Msg)
        → (h.init ctx msg state).ret ≡ some ret
        → in_time ≡ true
        → s.value ≡ ret.ret_val
        → s.error ≡ ret.v_err
        → s.mailbox ≡ make_chan mailbox_size
        → s.outcome ≡ enters h (handle_ret h none ret (inited ctx msg state d)) es
        → Starts codes ctx msg state d in_time es s

  started-Starts :
      (codes : Codes) (ctx : ActorCtx) (msg : Value Msg) (state : State) (d : ℤ) (in_time : Bool)
      (es : List (Event Msg))
      → Starts codes ctx msg state d in_time es (started codes ctx msg state d in_time es)
  unfolding loop
  started-Starts codes ctx msg state d in_time es = elim (Option-cases (h.init ctx msg state).ret) [
    | inl bad ↦ init_panics bad (rw bad)
    | inr (ret, good) ↦ answers ret good in_time
  ]
    where
      answers :
          (ret : ActorRet Msg)
          → (h.init ctx msg state).ret ≡ some ret
          → (b : Bool) → Starts codes ctx msg state d b es (started codes ctx msg state d b es)
      answers ret good true = init_answers ret good refl (rw good) (rw good) refl (rw good)
      answers ret good false = init_late ret good refl refl refl (rw good)

  start_made :
      (codes : Codes) (ctx : ActorCtx) (msg : Value Msg) (state : State) (d : ℤ) (in_time : Bool)
      (es : List (Event Msg)) (w w' : World) (v : Waiter)
      → new_waiter (str_append "gen_" ctx.name) w ≡ ok v w'
      → start h codes ctx msg state d in_time es w
        ≡ ok (started codes ctx msg state d in_time es) w'
  unfolding start loop
  start_made codes ctx msg state d in_time es w w' v e = rw (e, ◌>>=◌)

  start_taken :
      (codes : Codes) (ctx : ActorCtx) (msg : Value Msg) (state : State) (d : ℤ) (in_time : Bool)
      (es : List (Event Msg)) (w : World)
      → new_waiter (str_append "gen_" ctx.name) w ≡ fatal
      → start h codes ctx msg state d in_time es w ≡ fatal
  unfolding start loop
  start_taken codes ctx msg state d in_time es w e = rw (e, ◌>>=◌)

  -- `Start` ends the process where the waiter's name is taken. Otherwise it registers one: if `Init`
  -- panics the process ends; if it does not end in time, `Start` returns nil and the timeout, and the
  -- actor's goroutine is blocked for good; and else `Start` returns what `Init` returned, with an
  -- empty mailbox of capacity 1000, and the goroutine goes on with it.
  pub start_lem :
      (codes : Codes) (ctx : ActorCtx) (msg : Value Msg) (state : State) (d : ℤ) (in_time : Bool)
      (es : List (Event Msg)) (w : World)
      → ((v : Waiter) × (lookup (str_append "gen_" ctx.name) w.table ≡ some v)
          × (start h codes ctx msg state d in_time es w ≡ fatal))
        ⊎ ((lookup (str_append "gen_" ctx.name) w.table ≡ none)
            × (s : Started h) × (v : Waiter) × (w' : World) × (start h codes ctx msg state d in_time
                  es w
                ≡ ok s w')
            × Creates (str_append "gen_" ctx.name) w v w'
            × Starts codes ctx msg state d in_time es s)
  start_lem codes ctx msg state d in_time es w =
      let key = str_append "gen_" ctx.name in
      elim (Option-cases (lookup key w.table)) [
        | inl free ↦
            let (v, w', made, c) = (new_waiter_lem key w).1 free in
            inr (
              free,
              started codes ctx msg state d in_time es,
              v,
              w',
              start_made codes ctx msg state d in_time es w w' v made,
              c,
              started-Starts codes ctx msg state d in_time es,
            )
        | inr (v, taken) ↦ inl (
          v,
          taken,
          start_taken codes ctx msg state d in_time es w ((new_waiter_lem key w).0 v taken),
        )
      ]

-- Nothing takes an actor's waiter out of the registry: once an actor has been started, whatever has become
-- of it, a `Start` with its name ends the process.
pub start_again :
    {State Msg State' Msg' : Type 0} (h : Handler State Msg) (h' : Handler State' Msg')
    (codes : Codes) (ctx ctx' : ActorCtx) (msg : Value Msg) (msg' : Value Msg') (state : State)
    (state' : State') (d d' : ℤ) (in_time in_time' : Bool) (es : List (Event Msg))
    (es' : List (Event Msg')) (w w' : World) (s : Started h)
    → start h codes ctx msg state d in_time es w ≡ ok s w'
    → ctx'.name ≡ ctx.name
    → start h' codes ctx' msg' state' d' in_time' es' w' ≡ fatal
start_again h h' codes ctx ctx' msg msg' state state' d d' in_time in_time' es es' w w' s ran same =
    elim (start_lem h codes ctx msg state d in_time es w) [
      | inl (v, taken, dead) ↦ absurd (cc)
      | inr (free, s', v, x, made, c, how) ↦
          let here : x ≡ w' = cc in
          let found : lookup (str_append "gen_" ctx'.name) w'.table ≡ some v =
            subst (λ (y : World). lookup (str_append "gen_" ctx'.name) y.table ≡ some v) here
              (rw same c.registered) in
          start_taken h' codes ctx' msg' state' d' in_time' es' w' ((new_waiter_lem _ w').0 v found)
    ]
