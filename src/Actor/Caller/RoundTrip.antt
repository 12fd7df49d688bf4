-- ===== src/Actor/Caller/RoundTrip.antt =====
-- A call from end to end: what `TimeCall` puts into the mailbox, what the actor's turn on it does, and
-- what `TimeCall` returns.
use vlgo.Shared.{◌≡◌, ap, ◌∙◌, true, false, Option, some, ℤ}
use vlgo.Actor.{
  plain, ActorCaller, ActorRet, Mail, actor_call, Handler, Actor, mail, do_loop, is_no_reply,
  with_caller,
}
use vlgo.Actor.Loop.Turns.{carries_on, timer_after, do_loop_lem}
use vlgo.Actor.Loop.Exit.{settled_live}
use vlgo.Actor.Loop.Replies.{handled_actor, answered, handle_mail_call}
use vlgo.Actor.Caller.{Chan, has_room, Codes, gets_reply, time_call, call_returns, behind_send}
use vlgo.Actor.Caller.Calls.{pushed, send_room}

-- The call of a named message on an open mailbox with room, whose handler returns a value other than
-- `CallNoRep` and asks for no stop: the mailbox ends with the call; the actor's turn on it ends with one reply
-- to this caller, which carries what the handler returned; and with that reply `TimeCall` returns
-- the handler's value and error.
pub time_call-do_loop :
    {State Msg : Type 0} (h : Handler State Msg) (codes : Codes) (c : Chan (Mail Msg))
    (from : ActorCaller) (m : Msg) (ticker out : Option ℤ) (a : Actor State Msg)
    (ret : ActorRet Msg)
    → c.closed ≡ false
    → has_room c ≡ true
    → (h.handle (with_caller a.ctx from) (plain m) a.state).ret ≡ some ret
    → is_no_reply ret.ret_val ≡ false
    → ret.is_stopped ≡ false
    → let a' = answered h from ret (handled_actor h (plain m) (with_caller a.ctx from) a) in
      (time_call codes c from (plain m) (gets_reply ret)
        ≡ call_returns ret.ret_val ret.v_err (pushed c (actor_call from (plain m))))
      × (do_loop h ticker out (mail (actor_call from (plain m))) a
          ≡ some (carries_on ticker (timer_after ret.time a.default_out), a'))
unfolding time_call
time_call-do_loop h codes c from m ticker out a ret o room good loud live =
    let a' = answered h from ret (handled_actor h (plain m) (with_caller a.ctx from) a) in
    let done = handle_mail_call h from m a (some ret) good in
    (
      ap (behind_send codes (gets_reply ret)) (send_room c (actor_call from (plain m)) o room),
      (do_loop_lem h ticker out a).0 (actor_call from (plain m))
          ∙ ap some (settled_live h ticker a' ret _ (rw loud at done) live),
    )
