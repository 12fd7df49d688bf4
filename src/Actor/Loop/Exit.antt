-- ===== src/Actor/Loop/Exit.antt =====
-- When the goroutine of an actor leaves its loop: gen/actor.go keeps the first result of `doLoop`,
-- which `handleRet` sets to whether the actor is stopped, as whether to go on.
use vlgo.Shared.{
  ℕ, suc, ◌+◌, ◌≡◌, refl, ap, ◌∙◌, true, false, List, [], ◌∷◌, ◌++◌, Option, none, some, ℤ, arith,
  length, map, All,
}
use vlgo.Actor.{
  ActorRet, Mail, Effect, Handler, Actor, Turn, returns, panics, Next, Event, mail, ticks,
  times_out, interrupt, stops, handle_mail, do_loop,
}
use vlgo.Actor.Loop.{waits, exits, run_events}
use vlgo.Actor.Loop.Turns.{
  disarmed, carries_on, timer_after, settled_turn, stopped_ticker, stopped_actor, do_loop_lem,
  do_loop_interrupt,
}

module _ {State Msg : Type 0} (h : Handler State Msg) where
  run_events_step :
      (ticker out : Option ℤ) (a a' : Actor State Msg) (e : Event Msg) (n : Next)
      (es : List (Event Msg))
      → do_loop h ticker out e a ≡ some (n, a')
      → (n.flag ≡ false → run_events h ticker out a (e ∷ es) ≡ exits a' es)
        × (n.flag ≡ true → run_events h ticker out a (e ∷ es) ≡ run_events h n.ticker n.timer a' es)
  unfolding run_events
  run_events_step ticker out a a' e n es q =
      (λ f. rw (q, run_events) (rw (f, run_events)), λ f. rw (q, run_events) (rw (f, run_events)))

  pub settled_live :
      (ticker : Option ℤ) (a : Actor State Msg) (ret : ActorRet Msg)
      (t : Turn State Msg (ActorRet Msg))
      → t ≡ returns ret a
      → ret.is_stopped ≡ false
      → settled_turn h ticker t ≡ (carries_on ticker (timer_after ret.time a.default_out), a)
  settled_live ticker a ret t e live = rw (e, settled_turn) (rw live)

  settled_stop :
      (ticker : Option ℤ) (a : Actor State Msg) (ret : ActorRet Msg)
      (t : Turn State Msg (ActorRet Msg))
      → t ≡ returns ret a
      → ret.is_stopped ≡ true
      → settled_turn h ticker t ≡ (disarmed, stopped_actor h ticker a)
  settled_stop ticker a ret t e stop = rw (e, settled_turn) (rw stop)

  -- A handler that returns without asking for a stop ends its actor: the goroutine leaves the loop
  -- with all later events unread.
  pub run_events_exits :
      (ticker out : Option ℤ) (a a' : Actor State Msg) (m : Mail Msg) (ret : ActorRet Msg)
      (es : List (Event Msg))
      → handle_mail h m a ≡ returns ret a'
      → ret.is_stopped ≡ false
      → run_events h ticker out a (mail m ∷ es) ≡ exits a' es
  run_events_exits ticker out a a' m ret es e live =
      (run_events_step ticker out a a' (mail m) _ es
          ((do_loop_lem h ticker out a).0 m ∙ ap some (settled_live ticker a' ret _ e live))).0
        refl

  -- A handler that asks for a stop has `Stop` called, and its actor goes on reading its mailbox, with
  -- neither ticker nor timer.
  pub run_events_stops :
      (ticker out : Option ℤ) (a a' : Actor State Msg) (m : Mail Msg) (ret : ActorRet Msg)
      (es : List (Event Msg))
      → handle_mail h m a ≡ returns ret a'
      → ret.is_stopped ≡ true
      → run_events h ticker out a (mail m ∷ es)
        ≡ run_events h none none (stopped_actor h ticker a') es
  run_events_stops ticker out a a' m ret es e stop =
      (run_events_step ticker out a _ (mail m) disarmed es
          ((do_loop_lem h ticker out a).0 m ∙ ap some (settled_stop ticker a' ret _ e stop))).1
        refl

  -- A handler that panics disarms its actor: the goroutine goes on with neither ticker nor timer, so that
  -- a tick or a timeout is no longer read.
  pub run_events_panics :
      (ticker out : Option ℤ) (a a' : Actor State Msg) (m : Mail Msg) (es : List (Event Msg))
      → handle_mail h m a ≡ panics a'
      → (run_events h ticker out a (mail m ∷ es) ≡ run_events h none none a' es)
        × (run_events h none none a' (ticks ∷ es) ≡ run_events h none none a' es)
        × (run_events h none none a' (times_out ∷ es) ≡ run_events h none none a' es)
  unfolding run_events
  run_events_panics ticker out a a' m es e = (
    (run_events_step ticker out a a' (mail m) disarmed es
          ((do_loop_lem h ticker out a).0 m ∙ ap some (ap (settled_turn h ticker) e))).1
        refl,
    rw ((do_loop_lem h none none a').2, run_events),
    rw ((do_loop_lem h none none a').4, run_events),
  )

  -- A request for a ticker, or for its end, ends the actor too.
  pub run_events_interrupt :
      (ticker out : Option ℤ) (a : Actor State Msg) (tm : ℤ) (es : List (Event Msg))
      → run_events h ticker out a (interrupt tm ∷ es)
        ≡ exits (record a { effects = stopped_ticker ticker a.effects }) es
  run_events_interrupt ticker out a tm es =
      (run_events_step ticker out a _ (interrupt tm) _ es (do_loop_interrupt h ticker out a tm)).0
        refl

-- How often `Stop` has been called.
abbrev pub stop_count : {Msg : Type 0} → List (Effect Msg) → ℕ
stop_count [] = 0
stop_count (stops ∷ es) = suc (stop_count es)
stop_count (Effect.replies c r ∷ es) = stop_count es
stop_count (Effect.stops_ticker d ∷ es) = stop_count es
stop_count (Effect.handles v ∷ es) = stop_count es

stop_count-append :
    {Msg : Type 0} (es fs : List (Effect Msg))
    → stop_count (es ++ fs) ≡ stop_count es + stop_count fs
stop_count-append [] fs = omega arith
stop_count-append (stops ∷ es) fs = omega (arith, stop_count-append es fs)
stop_count-append (Effect.replies c r ∷ es) fs = stop_count-append es fs
stop_count-append (Effect.stops_ticker d ∷ es) fs = stop_count-append es fs
stop_count-append (Effect.handles v ∷ es) fs = stop_count-append es fs

stop_count-stopped :
    {State Msg : Type 0} (h : Handler State Msg) (ticker : Option ℤ) (a : Actor State Msg)
    → stop_count (stopped_actor h ticker a).effects ≡ suc (stop_count a.effects)
stop_count-stopped h none a = omega (arith, stop_count-append a.effects (stops ∷ []))
stop_count-stopped h (some d) a = omega (
  arith,
  stop_count-append (a.effects ++ Effect.stops_ticker d ∷ []) (stops ∷ []),
  stop_count-append a.effects (Effect.stops_ticker d ∷ []),
)

-- The handler asks for a stop at this mail, and does not touch the history of `Stop` calls itself.
abbrev pub StopsOn : {State Msg : Type 0} → Handler State Msg → Mail Msg → Type 0
StopsOn {State} {Msg} h m =
    (a : Actor State Msg)
    → (ret : ActorRet Msg) × (a' : Actor State Msg) × (handle_mail h m a ≡ returns ret a')
      × (ret.is_stopped ≡ true)
      × (stop_count a'.effects ≡ stop_count a.effects)

-- An actor whose handler asks for a stop at each of its mails reads all of them, never leaves its loop,
-- and has `Stop` called once for each mail.
pub stop_count-run_events :
    {State Msg : Type 0} (h : Handler State Msg) (ms : List (Mail Msg)) (ticker out : Option ℤ)
    (a : Actor State Msg)
    → All (StopsOn h) ms
    → (t o : Option ℤ) × (b : Actor State Msg) × (run_events h ticker out a (map mail ms)
        ≡ waits t o b)
      × (stop_count b.effects ≡ stop_count a.effects + length ms)
stop_count-run_events h [] ticker out a all =
    (ticker, out, a, unfold run_events in refl, omega arith)
stop_count-run_events h (m ∷ ms) ticker out a all =
    let (ret, a', e, stop, same) = all.0 a in
    let (t, o, b, runs, n) =
      stop_count-run_events h ms none none (stopped_actor h ticker a') all.1 in
    (
      t,
      o,
      b,
      run_events_stops h ticker out a a' m ret (map mail ms) e stop ∙ runs,
      omega (arith, stop_count-stopped h ticker a'),
    )
