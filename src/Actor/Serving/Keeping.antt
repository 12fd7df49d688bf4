-- ===== src/Actor/Serving/Keeping.antt =====
-- The turns of an actor whose handler asks for a stop at each message, or panics: both keep the loop.
use vlgo.Shared.{Option, some, ◌≡◌, refl, ap, ◌∙◌, true, [], ◌∷◌, ◌++◌, Option-cases, inl, inr, ℤ}
use vlgo.Actor.{
  Value, nil, nil_pointer, no_reply, plain, ActorCtx, ActorRet, ActorCaller, Mail, actor_call,
  actor_cast, other, handles, Handled, Handler, Actor, Turn, returns, calls, has_type_name,
  handle_mail, with_caller,
}
use vlgo.Actor.Loop.Turns.{settled_turn}
use vlgo.Actor.Loop.Replies.{CallEnds, unnamed, crashed, silent, replied, handle_mail-CallEnds}
use vlgo.Actor.Serving.Bounded.{IsRequest}

-- A method of the handler panics, or asks for a stop.
abbrev pub AsksStop : {State Msg : Type 0} → Handled State Msg → Type 0
AsksStop {State} {Msg} d = (r : ActorRet Msg) → d.ret ≡ some r → r.is_stopped ≡ true

pub record KeepsLoop {State Msg : Type 0} (h : Handler State Msg) : Type 0 where
  pub handle : (ctx : ActorCtx) (v : Value Msg) (s : State) → AsksStop (h.handle ctx v s)

module _ {State Msg : Type 0} (h : Handler State Msg) (keeps : KeepsLoop h) where
  stops_flag :
      (ticker : Option ℤ) (ret : ActorRet Msg) (a : Actor State Msg)
      → ret.is_stopped ≡ true
      → (settled_turn h ticker (returns ret a)).0.flag ≡ true
  stops_flag ticker ret a on = rw on refl

  calls_flag :
      (ticker : Option ℤ) (d : Handled State Msg) (f : State → Handled State Msg)
      (a : Actor State Msg)
      → f a.state ≡ d
      → AsksStop d
      → (settled_turn h ticker (calls f a)).0.flag ≡ true
  calls_flag ticker d f a same stop = elim (Option-cases d.ret) [
    | inl e ↦ rw same (rw e refl)
    | inr (r, e) ↦ rw same (rw e (stops_flag ticker r _ (stop r e)))
  ]

  call_flag :
      (ticker : Option ℤ) (from : ActorCaller) (v : Value Msg) (a : Actor State Msg)
      (t : Turn State Msg (ActorRet Msg))
      → CallEnds h from v a t
      → (settled_turn h ticker t).0.flag ≡ true
  call_flag ticker from v a t (unnamed off e) = rw e refl
  call_flag ticker from v a t (crashed on bad e) = rw e refl
  call_flag ticker from v a t (silent ret on good q e) =
      ap (λ x. (settled_turn h ticker x).0.flag) e
      ∙ stops_flag ticker ret _ (keeps.handle (with_caller a.ctx from) v a.state ret good)
  call_flag ticker from v a t (replied ret on good q e) =
      ap (λ x. (settled_turn h ticker x).0.flag) e
      ∙ stops_flag ticker ret _ (keeps.handle (with_caller a.ctx from) v a.state ret good)

  pub mail_flag :
      (ticker : Option ℤ) (m : Mail Msg) (a : Actor State Msg)
      → IsRequest m
      → (settled_turn h ticker (handle_mail h m a)).0.flag ≡ true
  unfolding handle_mail has_type_name
  mail_flag ticker (actor_call from v) a r =
      call_flag ticker from v a _ (handle_mail-CallEnds h from v a)
  mail_flag ticker (actor_cast nil) a r = refl
  mail_flag ticker (actor_cast nil_pointer) a r = refl
  mail_flag ticker (actor_cast no_reply) a r = refl
  mail_flag ticker (actor_cast (plain m)) a r =
      calls_flag ticker (h.handle a.ctx (plain m) a.state) (h.handle a.ctx (plain m))
        (record a { effects = a.effects ++ handles (plain m) ∷ [] }) refl
        (keeps.handle a.ctx (plain m) a.state)
  mail_flag ticker (other v) a never = absurd never
