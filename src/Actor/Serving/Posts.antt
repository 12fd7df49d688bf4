-- ===== src/Actor/Serving/Posts.antt =====
-- The replies that one turn of the actor is to send, where the handler sends none itself: one at most, to a
-- caller's channel.
use vlgo.Shared.{
  ℕ, ◌≡◌, refl, sym, ap, subst, ◌∙◌, inl, inr, List, [], ◌∷◌, ◌++◌, append-nil, append_assoc,
  Option, none, some, Bool-cases, ℤ, drop, length, drop-append_left,
}
use vlgo.Actor.{
  Value, nil, nil_pointer, no_reply, plain, ActorCtx, ActorRet, ActorCaller, Mail, actor_call,
  actor_cast, other, Effect, replies, stops_ticker, handles, stops, Handled, Handler, Actor, Turn,
  returns, panics, Next, Event, interrupt, ticks, times_out, mail, calls, has_type_name,
  new_gen_ret, handle_mail, do_loop, with_caller,
}
use vlgo.Actor.Loop.Turns.{settled_turn, stopped_actor, do_loop_lem, do_loop_interrupt}
use vlgo.Actor.Loop.Replies.{
  CallEnds, unnamed, crashed, silent, replied, handle_mail-CallEnds, handled_actor,
}
use vlgo.Actor.Serving.{posts_of}
use vlgo.Actor.Serving.Answers.{turn_actor}
use vlgo.Actor.Serving.Handling.{calls_actor}
use vlgo.Actor.Serving.Bounded.{IsRequest}

-- The methods of the handler send nothing themselves.
pub record IsSilent {State Msg : Type 0} (h : Handler State Msg) : Type 0 where
  pub handle : (ctx : ActorCtx) (v : Value Msg) (s : State) → (h.handle ctx v s).sends ≡ []
  pub tick : (ctx : ActorCtx) (s : State) → (h.tick ctx s).sends ≡ []
  pub timeout : (ctx : ActorCtx) (s : State) → (h.timeout ctx s).sends ≡ []

module _ {Msg : Type 0} where
  -- One reply at most, to a caller's channel.
  abbrev pub IsDue : List (ActorCaller × ActorRet Msg) → Type 0
  IsDue [] = Unit
  IsDue ((some c, r) ∷ []) = Unit
  IsDue ((some c, r) ∷ p ∷ ps) = ⊥
  IsDue ((none, r) ∷ ps) = ⊥

  posts_of-append : (es fs : List (Effect Msg)) → posts_of (es ++ fs) ≡ posts_of es ++ posts_of fs
  posts_of-append [] fs = refl
  posts_of-append (replies c r ∷ es) fs = ap (◌∷◌ (c, r)) (posts_of-append es fs)
  posts_of-append (stops_ticker d ∷ es) fs = posts_of-append es fs
  posts_of-append (handles v ∷ es) fs = posts_of-append es fs
  posts_of-append (stops ∷ es) fs = posts_of-append es fs

  -- What an event may come with.
  abbrev pub FromCaller : Event Msg → Type 0
  FromCaller (mail m) = IsRequest m
  FromCaller e = Unit

module _ {State Msg : Type 0} (h : Handler State Msg) (quiet : IsSilent h)
    (a : Actor State Msg) where
  -- The effects of a turn.
  record Adds (b : Actor State Msg) : Type 0 where
    new : List (Effect Msg)
    effects : b.effects ≡ a.effects ++ new
    due : IsDue (posts_of new)

  more-Adds :
      (b b' : Actor State Msg) (more : List (Effect Msg))
      → posts_of more ≡ []
      → b'.effects ≡ b.effects ++ more
      → Adds b
      → Adds b'
  more-Adds b b' more none_due adds x = record {
    new = x.new ++ more;
    effects = adds ∙ ap (λ y. y ++ more) x.effects ∙ append_assoc a.effects x.new more;
    due =
        subst IsDue
          (sym (
            posts_of-append x.new more
            ∙ ap (λ y. posts_of x.new ++ y) none_due
            ∙ append-nil (posts_of x.new)))
          x.due;
  }

  same-Adds : Adds a
  same-Adds = record { new = []; effects = sym (append-nil a.effects); due = tt }

  stopped_actor-Adds :
      (ticker : Option ℤ) (b : Actor State Msg) → Adds b → Adds (stopped_actor h ticker b)
  stopped_actor-Adds none b x = more-Adds b (stopped_actor h none b) (stops ∷ []) refl refl x
  stopped_actor-Adds (some d) b x =
      more-Adds b (stopped_actor h (some d) b) (stops_ticker d ∷ stops ∷ []) refl
        (append_assoc b.effects (stops_ticker d ∷ []) (stops ∷ [])) x

  settled_turn-Adds :
      (ticker : Option ℤ) (t : Turn State Msg (ActorRet Msg))
      → Adds (turn_actor t)
      → Adds (settled_turn h ticker t).1
  settled_turn-Adds ticker (panics b) x = x
  settled_turn-Adds ticker (returns ret b) x = elim (Bool-cases ret.is_stopped) [
    | inl stop ↦ rw stop (stopped_actor-Adds ticker b x)
    | inr go ↦ rw go x
  ]

  calls-Adds :
      (f : State → Handled State Msg) (b : Actor State Msg)
      → (f b.state).sends ≡ []
      → Adds b
      → Adds (turn_actor (calls f b))
  calls-Adds f b nothing x =
      subst Adds (sym (calls_actor h a f b (f b.state).ret refl))
        (more-Adds b _ (f b.state).sends (ap posts_of nothing) refl x)

  handles-Adds : (v : Value Msg) → Adds (record a { effects = a.effects ++ handles v ∷ [] })
  handles-Adds v = record { new = handles v ∷ []; effects = refl; due = tt }

  handled_actor-Adds : (v : Value Msg) (ctx : ActorCtx) → Adds (handled_actor h v ctx a)
  handled_actor-Adds v ctx =
      more-Adds (record a { effects = a.effects ++ handles v ∷ [] }) _
        (h.handle ctx v a.state).sends (ap posts_of (quiet.handle ctx v a.state)) refl
        (handles-Adds v)

  answered-Adds :
      (v : Value Msg) (ctx : ActorCtx) (c : ℕ) (ret : ActorRet Msg) (b : Actor State Msg)
      → b.effects ≡ (handled_actor h v ctx a).effects ++ replies (some c) ret ∷ []
      → Adds b
  answered-Adds v ctx c ret b adds = record {
    new = handles v ∷ replies (some c) ret ∷ [];
    effects =
        adds
        ∙ ap (λ x. ((a.effects ++ handles v ∷ []) ++ x) ++ replies (some c) ret ∷ [])
            (quiet.handle ctx v a.state)
        ∙ ap (λ x. x ++ replies (some c) ret ∷ []) (append-nil (a.effects ++ handles v ∷ []))
        ∙ append_assoc a.effects (handles v ∷ []) (replies (some c) ret ∷ []);
    due = tt;
  }

  call-Adds :
      (c : ℕ) (v : Value Msg) (t : Turn State Msg (ActorRet Msg))
      → CallEnds h (some c) v a t
      → Adds (turn_actor t)
  call-Adds c v t (unnamed off e) = subst (λ x. Adds (turn_actor x)) (sym e) same-Adds
  call-Adds c v t (crashed on bad e) =
      subst (λ x. Adds (turn_actor x)) (sym e) (handled_actor-Adds v _)
  call-Adds c v t (silent ret on good q e) =
      subst (λ x. Adds (turn_actor x)) (sym e) (handled_actor-Adds v _)
  call-Adds c v t (replied ret on good q e) =
      subst (λ x. Adds (turn_actor x)) (sym e)
        (answered-Adds v (with_caller a.ctx (some c)) c ret _ refl)

  handle_mail-Adds : (m : Mail Msg) → IsRequest m → Adds (turn_actor (handle_mail h m a))
  unfolding handle_mail has_type_name new_gen_ret
  handle_mail-Adds (actor_call none v) never = absurd never
  handle_mail-Adds (actor_call (some c) v) called =
      call-Adds c v _ (handle_mail-CallEnds h (some c) v a)
  handle_mail-Adds (actor_cast nil) called = same-Adds
  handle_mail-Adds (actor_cast nil_pointer) called = same-Adds
  handle_mail-Adds (actor_cast no_reply) called = same-Adds
  handle_mail-Adds (actor_cast (plain m)) called =
      calls-Adds (h.handle a.ctx (plain m)) _ (quiet.handle a.ctx (plain m) a.state)
        (handles-Adds (plain m))
  handle_mail-Adds (other v) never = absurd never

  -- The replies to send behind a turn.
  abbrev pub DueTurn : Option (Next × Actor State Msg) → Type 0
  DueTurn none = Unit
  DueTurn (some (n, b)) = IsDue (posts_of (drop (length a.effects) b.effects))

  Adds-DueTurn :
      (o : Option (Next × Actor State Msg)) (x : Next × Actor State Msg)
      → o ≡ some x
      → Adds x.1
      → DueTurn o
  Adds-DueTurn o (n, b) e x = subst DueTurn (sym e) (
      subst (λ es. IsDue (posts_of (drop (length a.effects) es))) (sym x.effects)
        (subst (λ es. IsDue (posts_of es)) (sym (drop-append_left a.effects x.new)) x.due))

  pub do_loop-DueTurn :
      (ticker out : Option ℤ) (e : Event Msg) → FromCaller e → DueTurn (do_loop h ticker out e a)
  do_loop-DueTurn ticker out (mail m) called =
      Adds-DueTurn _ _ ((do_loop_lem h ticker out a).0 m)
        (settled_turn-Adds ticker (handle_mail h m a) (handle_mail-Adds m called))
  do_loop-DueTurn none out (interrupt tm) called =
      Adds-DueTurn _ _ (do_loop_interrupt h none out a tm) same-Adds
  do_loop-DueTurn (some d) out (interrupt tm) called =
      Adds-DueTurn _ _ (do_loop_interrupt h (some d) out a tm)
        (record { new = stops_ticker d ∷ []; effects = refl; due = tt })
  do_loop-DueTurn none out ticks called = subst DueTurn (sym (do_loop_lem h none out a).2) tt
  do_loop-DueTurn (some d) out ticks called =
      Adds-DueTurn _ _ ((do_loop_lem h (some d) out a).1 d) (
        settled_turn-Adds (some d) (calls (h.tick a.ctx) a)
          (calls-Adds (h.tick a.ctx) a (quiet.tick a.ctx a.state) same-Adds))
  do_loop-DueTurn ticker none times_out called =
      subst DueTurn (sym (do_loop_lem h ticker none a).4) tt
  do_loop-DueTurn ticker (some d) times_out called =
      Adds-DueTurn _ _ ((do_loop_lem h ticker (some d) a).3 d) (
        settled_turn-Adds ticker (calls (h.timeout a.ctx) a)
          (calls-Adds (h.timeout a.ctx) a (quiet.timeout a.ctx a.state) same-Adds))
