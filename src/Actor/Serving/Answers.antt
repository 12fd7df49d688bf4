-- ===== src/Actor/Serving/Answers.antt =====
-- The replies of one turn of the actor: those that the handler sends itself, and then its own answer to the
-- call.
use vlgo.Shared.{
  ℕ, ◌≡◌, refl, ap, ◌∙◌, inl, inr, List, [], ◌∷◌, ◌++◌, append-nil, append_assoc, Option, none,
  some, ◌==◌, if◌then◌else◌, Bool-cases, ℤ,
}
use vlgo.Actor.{
  plain, ActorRet, ActorCaller, actor_call, actor_cast, Effect, replies, stops_ticker, handles,
  stops, Handled, Handler, Actor, Turn, returns, panics, Event, interrupt, ticks, times_out, mail,
  is_no_reply, with_caller,
}
use vlgo.Actor.Loop.Turns.{settled_turn, stopped_actor}

-- The replies to the channel `c`, in order.
abbrev pub replies_to : {Msg : Type 0} → ℕ → List (Effect Msg) → List (ActorRet Msg)
replies_to c [] = []
replies_to c (replies none r ∷ es) = replies_to c es
replies_to c (replies (some d) r ∷ es) = if d == c then r ∷ replies_to c es else replies_to c es
replies_to c (stops_ticker d ∷ es) = replies_to c es
replies_to c (handles v ∷ es) = replies_to c es
replies_to c (stops ∷ es) = replies_to c es

pub replies_to-append :
    {Msg : Type 0} (c : ℕ) (es fs : List (Effect Msg))
    → replies_to c (es ++ fs) ≡ replies_to c es ++ replies_to c fs
replies_to-append c [] fs = refl
replies_to-append c (replies none r ∷ es) fs = replies_to-append c es fs
replies_to-append c (replies (some d) r ∷ es) fs = elim (Bool-cases (d == c)) [
  | inl same ↦ rw same (ap (◌∷◌ r) (replies_to-append c es fs))
  | inr apart ↦ rw apart (replies_to-append c es fs)
]
replies_to-append c (stops_ticker d ∷ es) fs = replies_to-append c es fs
replies_to-append c (handles v ∷ es) fs = replies_to-append c es fs
replies_to-append c (stops ∷ es) fs = replies_to-append c es fs

-- What goes to the channel `c`.
abbrev pub only_to : {A : Type 0} → ℕ → ActorCaller → List A → List A
only_to c none rs = []
only_to c (some d) rs = if d == c then rs else []

-- The replies that a handler sends itself.
abbrev pub own_sends : {State Msg : Type 0} → Option (Handled State Msg) → List (Effect Msg)
own_sends none = []
own_sends (some r) = r.sends

abbrev pub answer_of : {Msg : Type 0} → Option (ActorRet Msg) → List (ActorRet Msg)
answer_of none = []
answer_of (some r) = if is_no_reply r.ret_val then [] else r ∷ []

-- The actor behind a part of a turn.
abbrev pub turn_actor : {State Msg A : Type 0} → Turn State Msg A → Actor State Msg
turn_actor (returns x b) = b
turn_actor (panics b) = b

module _ {State Msg : Type 0} (h : Handler State Msg) (a : Actor State Msg) where
  -- What the handler's method does on an event.
  abbrev pub handled_by : Event Msg → Option (Handled State Msg)
  handled_by (interrupt tm) = none
  handled_by ticks = some (h.tick a.ctx a.state)
  handled_by times_out = some (h.timeout a.ctx a.state)
  handled_by (mail (actor_call from (plain m))) =
      some (h.handle (with_caller a.ctx from) (plain m) a.state)
  handled_by (mail (actor_cast (plain m))) = some (h.handle a.ctx (plain m) a.state)
  handled_by (mail m) = none

  -- The actor's answer to a call by the channel `c`.
  abbrev pub answer : ℕ → Event Msg → List (ActorRet Msg)
  answer c (mail (actor_call from (plain m))) =
      only_to c from (answer_of (h.handle (with_caller a.ctx from) (plain m) a.state).ret)
  answer c e = []

  -- A turn on `e` that leaves the actor `a'`.
  pub record Answers (e : Event Msg) (a' : Actor State Msg) : Type 0 where
    pub new : List (Effect Msg)
    pub effects : a'.effects ≡ a.effects ++ new
    pub answers : (c : ℕ) → replies_to c new ≡ replies_to c (own_sends (handled_by e)) ++ answer c e
    pub ctx : a'.ctx ≡ a.ctx

  -- Effects that are no replies, behind the others.
  pub more-Answers :
      (e : Event Msg) (b b' : Actor State Msg) (more : List (Effect Msg))
      → ((c : ℕ) → replies_to c more ≡ [])
      → b'.effects ≡ b.effects ++ more
      → b'.ctx ≡ b.ctx
      → Answers e b
      → Answers e b'
  more-Answers e b b' more silent adds same s = record {
    new = s.new ++ more;
    effects = adds ∙ ap (λ x. x ++ more) s.effects ∙ append_assoc a.effects s.new more;
    answers = λ c.
        replies_to-append c s.new more
        ∙ ap (λ x. replies_to c s.new ++ x) (silent c)
        ∙ append-nil (replies_to c s.new)
        ∙ s.answers c;
    ctx = same ∙ s.ctx;
  }

  stopped_actor-Answers :
      (e : Event Msg) (ticker : Option ℤ) (b : Actor State Msg)
      → Answers e b
      → Answers e (stopped_actor h ticker b)
  stopped_actor-Answers e none b s =
      more-Answers e b (stopped_actor h none b) (stops ∷ []) (λ c. refl) refl refl s
  stopped_actor-Answers e (some d) b s =
      more-Answers e b (stopped_actor h (some d) b) (stops_ticker d ∷ stops ∷ []) (λ c. refl)
        (append_assoc b.effects (stops_ticker d ∷ []) (stops ∷ [])) refl s

  pub settled_turn-Answers :
      (e : Event Msg) (ticker : Option ℤ) (t : Turn State Msg (ActorRet Msg))
      → Answers e (turn_actor t)
      → Answers e (settled_turn h ticker t).1
  settled_turn-Answers e ticker (panics b) s = s
  settled_turn-Answers e ticker (returns ret b) s = elim (Bool-cases ret.is_stopped) [
    | inl stop ↦ rw stop (stopped_actor-Answers e ticker b s)
    | inr go ↦ rw go s
  ]
