-- ===== src/Actor/Serving/Handling.antt =====
-- Every turn gives the replies that the handler sends itself, and then the actor's own answer.
use vlgo.Shared.{
  ℕ, ◌≡◌, refl, sym, ap, subst, ◌∙◌, inl, inr, List, [], ◌∷◌, ◌++◌, append-nil, append_assoc,
  Option, none, some, ◌==◌, Bool-cases, ℤ,
}
use vlgo.Actor.{
  plain, ActorRet, ActorCaller, Mail, actor_call, actor_cast, other, Effect, replies, stops_ticker,
  handles, Handled, Handler, Actor, Next, Event, interrupt, ticks, times_out, mail, calls,
  is_no_reply, has_type_name, with_caller, handle_mail, do_loop,
}
use vlgo.Actor.Loop.Replies.{handled_actor, after_call, handle_mail_call}
use vlgo.Actor.Loop.Turns.{do_loop_lem, do_loop_interrupt}
use vlgo.Actor.Serving.Answers.{
  replies_to, replies_to-append, handled_by, own_sends, answer_of, answer, Answers, turn_actor,
  more-Answers, settled_turn-Answers,
}

module _ {State Msg : Type 0} (h : Handler State Msg) (a : Actor State Msg) where
  -- A call of a method of the handler, behind effects that are no replies.
  handled-Answers :
      (e : Event Msg) (before : List (Effect Msg)) (r : Handled State Msg) (b : Actor State Msg)
      → ((c : ℕ) → replies_to c before ≡ [])
      → handled_by h a e ≡ some r
      → ((c : ℕ) → answer h a c e ≡ [])
      → b.effects ≡ (a.effects ++ before) ++ r.sends
      → b.ctx ≡ a.ctx
      → Answers h a e b
  handled-Answers e before r b silent same quiet adds ctx = record {
    new = before ++ r.sends;
    effects = adds ∙ append_assoc a.effects before r.sends;
    answers = λ c.
        replies_to-append c before r.sends
        ∙ ap (λ x. x ++ replies_to c r.sends) (silent c)
        ∙ sym (
            ap (λ x. replies_to c (own_sends x) ++ answer h a c e) same
            ∙ ap (λ x. replies_to c r.sends ++ x) (quiet c)
            ∙ append-nil (replies_to c r.sends));
    ctx = ctx;
  }

  pub calls_actor :
      (f : State → Handled State Msg) (b : Actor State Msg) (o : Option (ActorRet Msg))
      → (f b.state).ret ≡ o
      → turn_actor (calls f b)
        ≡ record b { state = (f b.state).state; effects = b.effects ++ (f b.state).sends }
  calls_actor f b none e = rw e refl
  calls_actor f b (some r) e = rw e refl

  calls-Answers :
      (e : Event Msg) (f : State → Handled State Msg)
      → handled_by h a e ≡ some (f a.state)
      → ((c : ℕ) → answer h a c e ≡ [])
      → Answers h a e (turn_actor (calls f a))
  calls-Answers e f same quiet =
      subst (Answers h a e) (sym (calls_actor f a (f a.state).ret refl)) (
        handled-Answers e [] (f a.state) _ (λ c. refl) same quiet
          (ap (λ x. x ++ (f a.state).sends) (sym (append-nil a.effects))) refl)

  handle_cast-Answers :
      (m : Msg)
      → Answers h a
          (mail (actor_cast (plain m)))
          (turn_actor (handle_mail h (actor_cast (plain m)) a))
  unfolding handle_mail has_type_name
  handle_cast-Answers m =
      let b : Actor State Msg = record a { effects = a.effects ++ handles (plain m) ∷ [] } in
      subst (Answers h a (mail (actor_cast (plain m))))
        (sym (calls_actor (h.handle a.ctx (plain m)) b (h.handle a.ctx (plain m) a.state).ret refl))
        (handled-Answers (mail (actor_cast (plain m))) (handles (plain m) ∷ [])
          (h.handle a.ctx (plain m) a.state) _ (λ c. refl) refl (λ c. refl) refl refl)

  -- The effects of a call's turn, with the replies `rs` behind the handler's own.
  call-Answers :
      (from : ActorCaller) (m : Msg) (rs : List (Effect Msg)) (b : Actor State Msg)
      → let r = h.handle (with_caller a.ctx from) (plain m) a.state in
        b.effects ≡ (handled_actor h (plain m) (with_caller a.ctx from) a).effects ++ rs
        → ((c : ℕ) → replies_to c rs ≡ answer h a c (mail (actor_call from (plain m))))
        → b.ctx ≡ a.ctx
        → Answers h a (mail (actor_call from (plain m))) b
  call-Answers from m rs b adds own ctx =
      let r = h.handle (with_caller a.ctx from) (plain m) a.state in
      record {
        new = handles (plain m) ∷ (r.sends ++ rs);
        effects =
            adds
            ∙ append_assoc (a.effects ++ handles (plain m) ∷ []) r.sends rs
            ∙ append_assoc a.effects (handles (plain m) ∷ []) (r.sends ++ rs);
        answers = λ c. replies_to-append c r.sends rs ∙ ap (λ x. replies_to c r.sends ++ x) (own c);
        ctx = ctx;
      }

  answer-nil :
      (from : ActorCaller) (m : Msg) (c : ℕ)
      → answer_of (h.handle (with_caller a.ctx from) (plain m) a.state).ret ≡ []
      → [] ≡ answer h a c (mail (actor_call from (plain m)))
  answer-nil none m c e = refl
  answer-nil (some d) m c e = elim (Bool-cases (d == c)) [
    | inl same ↦ rw same (sym e)
    | inr apart ↦ rw apart refl
  ]

  answer-reply :
      (from : ActorCaller) (m : Msg) (ret : ActorRet Msg) (c : ℕ)
      → answer_of (h.handle (with_caller a.ctx from) (plain m) a.state).ret ≡ ret ∷ []
      → replies_to c (replies from ret ∷ []) ≡ answer h a c (mail (actor_call from (plain m)))
  answer-reply none m ret c e = refl
  answer-reply (some d) m ret c e = elim (Bool-cases (d == c)) [
    | inl same ↦ rw same (sym e)
    | inr apart ↦ rw apart refl
  ]

  after_call-Answers :
      (from : ActorCaller) (m : Msg) (o : Option (ActorRet Msg))
      → (h.handle (with_caller a.ctx from) (plain m) a.state).ret ≡ o
      → Answers h a
          (mail (actor_call from (plain m)))
          (turn_actor (after_call h from o (handled_actor h (plain m) (with_caller a.ctx from) a)))
  after_call-Answers from m none e =
      call-Answers from m [] _ (sym (append-nil _)) (λ c. answer-nil from m c (ap answer_of e)) refl
  after_call-Answers from m (some ret) e = elim (Bool-cases (is_no_reply ret.ret_val)) [
    | inl quiet ↦ rw quiet (
        call-Answers from m [] _ (sym (append-nil _))
          (λ c. answer-nil from m c (ap answer_of e ∙ rw quiet refl)) refl)
    | inr loud ↦ rw loud (
        call-Answers from m (replies from ret ∷ []) _ refl
          (λ c. answer-reply from m ret c (ap answer_of e ∙ rw loud refl)) refl)
  ]

  -- A turn without the handler.
  same-Answers :
      (e : Event Msg) → handled_by h a e ≡ none → ((c : ℕ) → answer h a c e ≡ []) → Answers h a e a
  same-Answers e unhandled quiet = record {
    new = [];
    effects = sym (append-nil a.effects);
    answers = λ c. sym (ap (λ x. replies_to c (own_sends x) ++ answer h a c e) unhandled ∙ quiet c);
    ctx = refl;
  }

  handle_mail-Answers : (m : Mail Msg) → Answers h a (mail m) (turn_actor (handle_mail h m a))
  unfolding handle_mail has_type_name
  handle_mail-Answers (actor_call from (plain m)) =
      subst (λ t. Answers h a (mail (actor_call from (plain m))) (turn_actor t))
        (sym (handle_mail_call h from m a _ refl)) (after_call-Answers from m _ refl)
  handle_mail-Answers (actor_cast (plain m)) = handle_cast-Answers m
  handle_mail-Answers (other (plain m)) = same-Answers (mail (other (plain m))) refl (λ c. refl)
  handle_mail-Answers m = same-Answers (mail m) refl (λ c. refl)

  -- The turn does not happen, or it gives these replies.
  abbrev pub TurnAnswers : Event Msg → Option (Next × Actor State Msg) → Type 0
  TurnAnswers e none = Unit
  TurnAnswers e (some (n, a')) = Answers h a e a'

  pub do_loop-Answers :
      (ticker out : Option ℤ) (e : Event Msg) → TurnAnswers e (do_loop h ticker out e a)
  do_loop-Answers ticker out (mail m) =
      subst (TurnAnswers (mail m)) (sym ((do_loop_lem h ticker out a).0 m))
        (settled_turn-Answers h a (mail m) ticker (handle_mail h m a) (handle_mail-Answers m))
  do_loop-Answers none out (interrupt tm) =
      subst (TurnAnswers (interrupt tm)) (sym (do_loop_interrupt h none out a tm))
        (same-Answers (interrupt tm) refl (λ c. refl))
  do_loop-Answers (some d) out (interrupt tm) =
      subst (TurnAnswers (interrupt tm)) (sym (do_loop_interrupt h (some d) out a tm)) (
        more-Answers h a (interrupt tm) a _ (stops_ticker d ∷ []) (λ c. refl) refl refl
          (same-Answers (interrupt tm) refl (λ c. refl)))
  do_loop-Answers (some d) out ticks =
      subst (TurnAnswers ticks) (sym ((do_loop_lem h (some d) out a).1 d)) (
        settled_turn-Answers h a ticks (some d) (calls (h.tick a.ctx) a)
          (calls-Answers ticks (h.tick a.ctx) refl (λ c. refl)))
  do_loop-Answers none out ticks = subst (TurnAnswers ticks) (sym (do_loop_lem h none out a).2) tt
  do_loop-Answers ticker (some d) times_out =
      subst (TurnAnswers times_out) (sym ((do_loop_lem h ticker (some d) a).3 d)) (
        settled_turn-Answers h a times_out ticker (calls (h.timeout a.ctx) a)
          (calls-Answers times_out (h.timeout a.ctx) refl (λ c. refl)))
  do_loop-Answers ticker none times_out =
      subst (TurnAnswers times_out) (sym (do_loop_lem h ticker none a).4) tt
