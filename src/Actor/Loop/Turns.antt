-- ===== src/Actor/Loop/Turns.antt =====
-- One turn of `doLoop` of gen/actor.go, on each way in which the handler ends.
use vlgo.Shared.{
  ◌≡◌, refl, ap, inl, inr, Bool, true, false, List, [], ◌∷◌, ◌++◌, Option, none, some,
  if◌then◌else◌, ℤ, pos, is_zero, is_positive, Bool-cases,
}
use vlgo.Actor.{
  ActorRet, Mail, Effect, Handler, Actor, Turn, returns, panics, Next, mail, ticks, times_out,
  interrupt, calls, stops_ticker, stops, ends_with, goes_with, handle_ret, handle_interrupt,
  handle_mail, recovers, do_loop,
}

-- The results of a turn that neither stops nor panics, and those of one that does.
abbrev pub carries_on : Option ℤ → Option ℤ → Next
carries_on ticker timer = record { flag = false; ticker = ticker; timer = timer }

abbrev pub disarmed : Next
disarmed = record { flag = true; ticker = none; timer = none }

-- The timer that a turn leaves behind: the handler's, or else the default one, or none.
abbrev pub timer_after : ℤ → ℤ → Option ℤ
timer_after d default_out =
    if is_zero d then if is_zero default_out then none else some default_out else some d

-- The actor behind a handler's stop: its state is the one that `Stop` leaves.
abbrev pub stopped_ticker : {Msg : Type 0} → Option ℤ → List (Effect Msg) → List (Effect Msg)
stopped_ticker none es = es
stopped_ticker (some d) es = es ++ stops_ticker d ∷ []

abbrev pub stopped_actor :
    {State Msg : Type 0} → Handler State Msg → Option ℤ → Actor State Msg → Actor State Msg
stopped_actor h ticker a = record a {
  state = (h.stop a.ctx a.state).0;
  effects = stopped_ticker ticker a.effects ++ stops ∷ [];
}

-- What `handleRet` and the recovery make of a result.
abbrev pub settled :
    {State Msg : Type 0}
    → Handler State Msg
    → Option ℤ
    → ActorRet Msg
    → Actor State Msg
    → Next × Actor State Msg
settled h ticker ret a =
    if ret.is_stopped
    then (disarmed, stopped_actor h ticker a)
    else (carries_on ticker (timer_after ret.time a.default_out), a)

abbrev pub settled_turn :
    {State Msg : Type 0}
    → Handler State Msg
    → Option ℤ
    → Turn State Msg (ActorRet Msg)
    → Next × Actor State Msg
settled_turn h ticker (returns ret a) = settled h ticker ret a
settled_turn h ticker (panics a) = (disarmed, a)

module _ {State Msg : Type 0} (h : Handler State Msg) where
  -- Whether `Stop` returns or panics, the turn ends disarmed.
  stop_recovers :
      (crashed : Bool) (a : Actor State Msg)
      → recovers (elim (if crashed then panics a else returns tt a) as (λ x. Turn State Msg Next) [
        | returns x a' ↦ returns disarmed a'
        | panics a' ↦ panics a'
      ])
        ≡ (disarmed, a)
  stop_recovers true a = refl
  stop_recovers false a = refl

  ends_with_lem :
      (ticker : Option ℤ) (a : Actor State Msg)
      → recovers (ends_with h ticker a) ≡ (disarmed, stopped_actor h ticker a)
  ends_with_lem none a = stop_recovers (h.stop a.ctx a.state).1 (stopped_actor h none a)
  ends_with_lem (some d) a = stop_recovers (h.stop a.ctx a.state).1 (stopped_actor h (some d) a)

  goes_with_lem :
      (ticker : Option ℤ) (d : ℤ) (a : Actor State Msg)
      → goes_with h ticker d a ≡ returns (carries_on ticker (timer_after d a.default_out)) a
  goes_with_lem ticker d a = refl

  settled_lem :
      (ticker : Option ℤ) (t : Turn State Msg (ActorRet Msg))
      → recovers (elim t [ returns ret a ↦ handle_ret h ticker ret a | panics a ↦ panics a ])
        ≡ settled_turn h ticker t
  unfolding handle_ret
  settled_lem ticker (panics a) = refl
  settled_lem ticker (returns ret a) = elim (Bool-cases ret.is_stopped) [
    | inl stop ↦ rw stop (ends_with_lem ticker a)
    | inr go ↦ rw go refl
  ]

-- A turn on an interrupt: the old ticker is stopped, and the actor carries on with the new one.
pub do_loop_interrupt :
    {State Msg : Type 0} (h : Handler State Msg) (ticker out : Option ℤ) (a : Actor State Msg)
    (tm : ℤ)
    → do_loop h ticker out (interrupt tm) a
      ≡ some (
        carries_on (if is_positive tm then some tm else none) (timer_after (pos 0) a.default_out),
        record a { effects = stopped_ticker ticker a.effects },
      )
unfolding do_loop handle_interrupt
do_loop_interrupt h none out a tm = refl
do_loop_interrupt h (some d) out a tm = refl

-- One turn on each event. A tick with no ticker, or a timeout with no timer, has no case in the `select`, and does
-- not happen. A mail, a tick and a timeout go to the handler: where it panics, or asks for a stop, which stops
-- the ticker and calls `Stop`, the turn keeps the loop without ticker and timer; where it returns otherwise, the
-- turn leaves the loop, with the ticker, and the timer that it asked for or the default one. An
-- interrupt never reaches the handler: the ticker is stopped and replaced, and the turn leaves the loop.
pub do_loop_lem :
    {State Msg : Type 0} (h : Handler State Msg) (ticker out : Option ℤ) (a : Actor State Msg)
    → ((m : Mail Msg)
        → do_loop h ticker out (mail m) a ≡ some (settled_turn h ticker (handle_mail h m a)))
      × ((d : ℤ)
          → do_loop h (some d) out ticks a
            ≡ some (settled_turn h (some d) (calls (h.tick a.ctx) a)))
      × (do_loop h none out ticks a ≡ none)
      × ((d : ℤ)
          → do_loop h ticker (some d) times_out a
            ≡ some (settled_turn h ticker (calls (h.timeout a.ctx) a)))
      × (do_loop h ticker none times_out a ≡ none)
      × ((tm : ℤ)
          → do_loop h ticker out (interrupt tm) a
            ≡ some (
              carries_on
                  (if is_positive tm then some tm else none)
                  (timer_after (pos 0) a.default_out),
              record a { effects = stopped_ticker ticker a.effects },
            ))
unfolding do_loop
do_loop_lem h ticker out a = (
  λ m. ap some (settled_lem h ticker (handle_mail h m a)),
  λ d. ap some (settled_lem h (some d) (calls (h.tick a.ctx) a)),
  refl,
  λ d. ap some (settled_lem h ticker (calls (h.timeout a.ctx) a)),
  refl,
  do_loop_interrupt h ticker out a,
)
