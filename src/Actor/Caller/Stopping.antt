-- ===== src/Actor/Caller/Stopping.antt =====
-- `stop` of gen/actor.go, and what is left of an actor behind it.
use vlgo.Shared.{
  [], ◌∷◌, ◌++◌, ◌≡◌, refl, ap, ◌∙◌, inl, inr, Bool, true, false, some, ℤ, if◌then◌else◌,
  Bool-cases,
}
use vlgo.Actor.{
  Value, ActorCaller, ActorRet, actor_call, actor_cast, Handler, Actor, call_stop, stops, Turn,
  returns, panics,
}
use vlgo.Actor.Caller.{
  Life, safe_send_chan, Codes, gets_reply, time_call, call_panics, cast, dropped, safe_send_ticker,
  stop, closes, recovered_send, behind_send,
}
use vlgo.Actor.Caller.Calls.{send_closed}

module _ {State Msg : Type 0} (h : Handler State Msg) (is_nil : State → Bool) where
  -- Both channels of the actor are closed, and its flag is set.
  pub record IsClosed (l : Life State Msg) : Type 0 where
    pub flag : l.is_stopped ≡ true
    pub mailbox : l.mailbox.closed ≡ true
    pub interrupt_box : l.interrupt_box.closed ≡ true

  -- How `stop` ends.
  pub data StopEnds (l : Life State Msg) (r : Life State Msg × Bool) : Type 0 where
    again : l.is_stopped ≡ true → r ≡ (l, is_nil l.actor.state) → StopEnds l r
    crashed :
        l.is_stopped ≡ false
        → (h.stop l.actor.ctx l.actor.state).1 ≡ true
        → r.0.mailbox ≡ l.mailbox
        → r.0.is_stopped ≡ true
        → r.1 ≡ true
        → StopEnds l r
    closed :
        l.is_stopped ≡ false
        → (h.stop l.actor.ctx l.actor.state).1 ≡ false
        → IsClosed r.0
        → r.0.mailbox.items ≡ l.mailbox.items
        → r.1 ≡ is_nil r.0.actor.state
        → StopEnds l r

  stop_again :
      (l : Life State Msg) → l.is_stopped ≡ true → stop h is_nil l ≡ (l, is_nil l.actor.state)
  unfolding stop
  stop_again l e = rw e

  stop_first :
      (l : Life State Msg)
      → l.is_stopped ≡ false
      → stop h is_nil l ≡ closes h is_nil l (call_stop h l.actor)
  unfolding stop
  stop_first l e = rw e

  -- The actor behind `H.Stop`.
  abbrev stopped_actor : Actor State Msg → Bool → Turn State Msg (Unit {0})
  stopped_actor a crash =
      let a' : Actor State Msg = record a {
        state = (h.stop a.ctx a.state).0;
        effects = a.effects ++ stops ∷ [];
      } in
      if crash then panics a' else returns tt a'

  stop_closes :
      (l : Life State Msg) (crash : Bool)
      → l.is_stopped ≡ false
      → (h.stop l.actor.ctx l.actor.state).1 ≡ crash
      → stop h is_nil l ≡ closes h is_nil l (stopped_actor l.actor crash)
  stop_closes l crash first e =
      stop_first l first ∙ ap (λ b. closes h is_nil l (stopped_actor l.actor b)) e

  -- The first `stop` of an actor calls `H.Stop`. If that panics, `stop` panics too, the flag is set and
  -- the channels stay open; otherwise both channels are closed, and the mail that was in the mailbox stays
  -- there. Any later `stop` changes nothing.
  pub stop-StopEnds : (l : Life State Msg) → StopEnds l (stop h is_nil l)
  stop-StopEnds l = elim (Bool-cases l.is_stopped) [
    | inl flag ↦ again flag (stop_again l flag)
    | inr first ↦ elim (Bool-cases (h.stop l.actor.ctx l.actor.state).1) [
      | inl crash ↦ rw (stop_closes l true first crash) (crashed first crash refl refl refl)
      | inr fine ↦ rw (stop_closes l false first fine) (
          closed first fine (record { flag = refl; mailbox = refl; interrupt_box = refl }) refl
            refl)
    ]
  ]

  -- On an actor whose `stop` has closed its channels, another `stop` changes nothing, casts and ticker
  -- requests are dropped, and a call panics in its caller.
  pub stopped_lem :
      (l : Life State Msg) (codes : Codes) (from : ActorCaller) (msg : Value Msg)
      (ret : ActorRet Msg) (tm : ℤ)
      → IsClosed l
      → ((stop h is_nil l).0 ≡ l)
        × (cast (some l.mailbox) msg ≡ dropped)
        × (time_call codes l.mailbox from msg (gets_reply ret) ≡ call_panics)
        × (safe_send_ticker l.is_stopped l.interrupt_box tm ≡ dropped)
  unfolding cast safe_send_chan time_call safe_send_ticker
  stopped_lem l codes from msg ret tm off = (
    ap (λ r. r.0) (stop_again l off.flag),
    ap recovered_send (send_closed l.mailbox (actor_cast msg) off.mailbox),
    ap (behind_send codes (gets_reply ret))
        (send_closed l.mailbox (actor_call from msg) off.mailbox),
    rw (off.flag),
  )
