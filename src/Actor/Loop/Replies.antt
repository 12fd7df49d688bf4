-- ===== src/Actor/Loop/Replies.antt =====
-- What the mail handler of gen/actor.go does with a call, a cast and anything else.
use vlgo.Shared.{
  ◌≡◌, refl, ap, ◌∙◌, inl, inr, Bool, true, false, [], ◌∷◌, ◌++◌, Option, none, some, ℤ,
  if◌then◌else◌, Bool-cases, Option-cases,
}
use vlgo.Actor.{
  Value, nil, nil_pointer, no_reply, plain, ◌>>◌, reply, ◌>>=◌, pure, ActorCaller, ActorCtx,
  ActorRet, actor_call, actor_cast, other, replies, handles, Handler, Actor, Turn, returns, panics,
  mail, has_type_name, is_no_reply, with_caller, handle_mail, do_loop, returned,
}
use vlgo.Actor.Loop.Turns.{disarmed, settled_turn, do_loop_lem}

module _ {State Msg : Type 0} (h : Handler State Msg) where
  -- The actor behind the handler's work on `v`, before the actor's own reply.
  abbrev pub handled_actor : Value Msg → ActorCtx → Actor State Msg → Actor State Msg
  handled_actor v ctx a =
      let r = h.handle ctx v a.state in
      record a { state = r.state; effects = (a.effects ++ handles v ∷ []) ++ r.sends }

  abbrev pub answered : ActorCaller → ActorRet Msg → Actor State Msg → Actor State Msg
  answered from ret a = record a { effects = a.effects ++ replies from ret ∷ [] }

  -- The ends of a call: the value has no type name and the call is never handled; the handler panics,
  -- and nobody is answered; it returns `CallNoRep`, and answers by itself later; or its result is sent
  -- to the caller, once, behind whatever it sent itself.
  pub data CallEnds (from : ActorCaller) (v : Value Msg) (a : Actor State Msg)
      (t : Turn State Msg (ActorRet Msg)) : Type 0 where
    unnamed : has_type_name v ≡ false → t ≡ panics a → CallEnds from v a t
    crashed :
        has_type_name v ≡ true
        → (h.handle (with_caller a.ctx from) v a.state).ret ≡ none
        → t ≡ panics (handled_actor v (with_caller a.ctx from) a)
        → CallEnds from v a t
    silent :
        (ret : ActorRet Msg)
        → has_type_name v ≡ true
        → (h.handle (with_caller a.ctx from) v a.state).ret ≡ some ret
        → is_no_reply ret.ret_val ≡ true
        → t ≡ returns ret (handled_actor v (with_caller a.ctx from) a)
        → CallEnds from v a t
    replied :
        (ret : ActorRet Msg)
        → has_type_name v ≡ true
        → (h.handle (with_caller a.ctx from) v a.state).ret ≡ some ret
        → is_no_reply ret.ret_val ≡ false
        → t ≡ returns ret (answered from ret (handled_actor v (with_caller a.ctx from) a))
        → CallEnds from v a t

  -- What the caller of a handler's method does with its result.
  abbrev pub after_call :
      ActorCaller → Option (ActorRet Msg) → Actor State Msg → Turn State Msg (ActorRet Msg)
  after_call from none a = panics a
  after_call from (some ret) a =
      if is_no_reply ret.ret_val then returns ret a else returns ret (answered from ret a)

  abbrev after_handler :
      ActorCaller → Actor State Msg → Option (ActorRet Msg) → Turn State Msg (ActorRet Msg)
  after_handler from a o = (returned o >>= λ ret. reply h from ret >> pure ret) a

  replies_lem :
      (quiet : Bool) (from : ActorCaller) (ret : ActorRet Msg) (a : Actor State Msg)
      → is_no_reply ret.ret_val ≡ quiet
      → after_handler from a (some ret)
        ≡ (if quiet then returns ret a else returns ret (answered from ret a))
  replies_lem true from ret a e = rw (e, ◌>>◌, ◌>>=◌)
  replies_lem false from ret a e = rw (e, ◌>>◌, ◌>>=◌)

  pub handle_mail_call :
      (from : ActorCaller) (m : Msg) (a : Actor State Msg) (o : Option (ActorRet Msg))
      → (h.handle (with_caller a.ctx from) (plain m) a.state).ret ≡ o
      → handle_mail h (actor_call from (plain m)) a
        ≡ after_call from o (handled_actor (plain m) (with_caller a.ctx from) a)
  unfolding handle_mail
  handle_mail_call from m a none e = ap (after_handler from _) e
  handle_mail_call from m a (some ret) e =
      ap (after_handler from (handled_actor (plain m) (with_caller a.ctx from) a)) e
      ∙ replies_lem (is_no_reply ret.ret_val) from ret _ refl

  -- Every call ends in one of the four ways.
  pub handle_mail-CallEnds :
      (from : ActorCaller) (v : Value Msg) (a : Actor State Msg)
      → CallEnds from v a (handle_mail h (actor_call from v) a)
  unfolding has_type_name
  handle_mail-CallEnds from nil a = unnamed refl (unfold handle_mail in refl)
  handle_mail-CallEnds from nil_pointer a = unnamed refl (unfold handle_mail in refl)
  handle_mail-CallEnds from no_reply a = unnamed refl (unfold handle_mail in refl)
  handle_mail-CallEnds from (plain m) a =
      elim (Option-cases (h.handle (with_caller a.ctx from) (plain m) a.state).ret) [
        | inl bad ↦ crashed refl bad (handle_mail_call from m a none bad)
        | inr (ret, good) ↦
            let done = handle_mail_call from m a (some ret) good in
            elim (Bool-cases (is_no_reply ret.ret_val)) [
              | inl quiet ↦ silent ret refl good quiet (rw quiet at done)
              | inr loud ↦ replied ret refl good loud (rw loud at done)
            ]
      ]

  unnamed_panics :
      (from : ActorCaller) (v : Value Msg) (a : Actor State Msg)
      → has_type_name v ≡ false
      → (handle_mail h (actor_call from v) a ≡ panics a)
        × (handle_mail h (actor_cast v) a ≡ panics a)
        × (handle_mail h (other v) a ≡ panics a)
  unfolding handle_mail
  unnamed_panics from nil a e = (refl, refl, refl)
  unnamed_panics from nil_pointer a e = (refl, refl, refl)
  unnamed_panics from no_reply a e = (refl, refl, refl)
  unnamed_panics from (plain m) a e = absurd (cc)

  -- A message with no value behind it, nil among them, is not handled and its caller is not answered:
  -- the turn is a recovered panic that changes neither the state nor the history, and disarms the actor.
  pub do_loop_unnamed :
      (ticker out : Option ℤ) (from : ActorCaller) (v : Value Msg) (a : Actor State Msg)
      → has_type_name v ≡ false
      → (do_loop h ticker out (mail (actor_call from v)) a ≡ some (disarmed, a))
        × (do_loop h ticker out (mail (actor_cast v)) a ≡ some (disarmed, a))
        × (do_loop h ticker out (mail (other v)) a ≡ some (disarmed, a))
  do_loop_unnamed ticker out from v a e =
      let (call, cast, rest) = unnamed_panics from v a e in
      let turns = (do_loop_lem h ticker out a).0 in
      (
        turns _ ∙ ap some (ap (settled_turn h ticker) call),
        turns _ ∙ ap some (ap (settled_turn h ticker) cast),
        turns _ ∙ ap some (ap (settled_turn h ticker) rest),
      )
