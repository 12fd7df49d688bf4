-- ===== src/Actor/Serving/Quiet.antt =====
-- An actor whose handler sends no replies itself: each call has one reply at most, and the reply that it
-- returns is the handler's result on its own message.
use mathlib.Core.List.{Memᴰ}
use mathlib.Core.List.Memᴰ
use vlgo.Shared.{
  ℕ, ◌+◌, ◌≤◌, ◌<◌, ◌≡◌, refl, sym, ap, subst, ◌∙◌, inl, inr, List, [], ◌∷◌, Option, none, some,
  ◌==◌, Bool-cases, arith, length,
}
use vlgo.Actor.{
  ActorRet, ActorCaller, Mail, Handler, Actor, Event, interrupt, ticks, times_out, mail,
}
use vlgo.Actor.Serving.Answers.{replies_to}
use vlgo.Actor.Serving.Counting.{calls_to}
use vlgo.Actor.Serving.Following.{mails}
use vlgo.Actor.{Value, plain, ActorCtx, actor_call, actor_cast, with_caller, is_no_reply}
use vlgo.Actor.Serving.Answers.{own_sends, handled_by, answer, answer_of, only_to}
use vlgo.Actor.Serving.Counting.{calls_to-append}

-- The methods of the handler send no replies.
pub record SendsNothing {State Msg : Type 0} (h : Handler State Msg) : Type 0 where
  pub handle :
      (ctx : ActorCtx) (v : Value Msg) (s : State) (c : ℕ)
      → replies_to c (h.handle ctx v s).sends ≡ []
  pub tick : (ctx : ActorCtx) (s : State) (c : ℕ) → replies_to c (h.tick ctx s).sends ≡ []
  pub timeout : (ctx : ActorCtx) (s : State) (c : ℕ) → replies_to c (h.timeout ctx s).sends ≡ []

module _ {Msg : Type 0} (c : ℕ) where
  calls_to-cons :
      (m : Mail Msg) (ms : List (Mail Msg))
      → calls_to c (m ∷ ms) ≡ calls_to c (m ∷ []) + calls_to c ms
  calls_to-cons m ms = calls_to-append c (m ∷ []) ms

  call_counts : (v : Value Msg) (m : Mail Msg) → actor_call (some c) v ≡ m → 0 < calls_to c (m ∷ [])
  call_counts v m e = subst (λ x. 0 < calls_to c (x ∷ [])) e (ground arith)

  calls_to-Memᴰ :
      (v : Value Msg) (ms : List (Mail Msg)) → Memᴰ (actor_call (some c) v) ms → 0 < calls_to c ms
  calls_to-Memᴰ v [] d = absurd (Memᴰ.not-nil d)
  calls_to-Memᴰ v (m ∷ ms) (Memᴰ.head e) = omega (arith, calls_to-cons m ms, call_counts v m e)
  calls_to-Memᴰ v (m ∷ ms) (Memᴰ.tail d) = omega (arith, calls_to-cons m ms, calls_to-Memᴰ v ms d)

  -- A channel with one call has one message.
  pub same_call :
      (v u : Value Msg) (ms : List (Mail Msg))
      → calls_to c ms ≤ 1
      → Memᴰ (actor_call (some c) v) ms
      → Memᴰ (actor_call (some c) u) ms
      → v ≡ u
  same_call v u [] one d f = absurd (Memᴰ.not-nil d)
  same_call v u (m ∷ ms) one (Memᴰ.head e) (Memᴰ.head f) = cc
  same_call v u (m ∷ ms) one (Memᴰ.head e) (Memᴰ.tail f) =
      absurd (omega (arith, calls_to-cons m ms, call_counts v m e, calls_to-Memᴰ u ms f))
  same_call v u (m ∷ ms) one (Memᴰ.tail d) (Memᴰ.head f) =
      absurd (omega (arith, calls_to-cons m ms, call_counts u m f, calls_to-Memᴰ v ms d))
  same_call v u (m ∷ ms) one (Memᴰ.tail d) (Memᴰ.tail f) =
      same_call v u ms (omega (arith, calls_to-cons m ms)) d f

module _ {State Msg : Type 0} (h : Handler State Msg) where
  -- The handler has returned `r` on the message of a call by the channel `c`, among the mails `ms`.
  abbrev pub Handles : ActorCtx → List (Mail Msg) → ℕ → ActorRet Msg → Type 0
  Handles ctx ms c r =
      (v : Value Msg) × (s : State) × Memᴰ (actor_call (some c) v) ms
      × ((h.handle (with_caller ctx (some c)) v s).ret ≡ some r)

  -- The answers of a turn: one at most, to a call by the channel, and the handler's result on it.
  pub record IsAnswer (a : Actor State Msg) (e : Event Msg) (c : ℕ) (rs : List (ActorRet Msg))
      : Type 0 where
    pub bounded : length rs ≤ calls_to c (mails (e ∷ []))
    pub handled : (r : ActorRet Msg) → Memᴰ r rs → Handles a.ctx (mails (e ∷ [])) c r

  nil-IsAnswer : (a : Actor State Msg) (e : Event Msg) (c : ℕ) → IsAnswer a e c []
  nil-IsAnswer a e c = record { bounded = omega arith; handled = λ r d. absurd (Memᴰ.not-nil d) }

  answer_of-IsAnswer :
      (a : Actor State Msg) (m : Msg) (c : ℕ) (o : Option (ActorRet Msg))
      → (h.handle (with_caller a.ctx (some c)) (plain m) a.state).ret ≡ o
      → IsAnswer a (mail (actor_call (some c) (plain m))) c (answer_of o)
  answer_of-IsAnswer a m c none e = nil-IsAnswer a _ c
  answer_of-IsAnswer a m c (some r) e = elim (Bool-cases (is_no_reply r.ret_val)) [
    | inl silent ↦ rw silent (nil-IsAnswer a _ c)
    | inr loud ↦ rw loud record {
      bounded = ground arith;
      handled =
          λ q d. (plain m, a.state, Memᴰ.head refl, e ∙ ap some (sym (Memᴰ.eq_of_singleton d)));
    }
  ]

  only_to-IsAnswer :
      (a : Actor State Msg) (from : ActorCaller) (m : Msg) (c : ℕ)
      → IsAnswer a
          (mail (actor_call from (plain m)))
          c
          (only_to c from (answer_of (h.handle (with_caller a.ctx from) (plain m) a.state).ret))
  only_to-IsAnswer a none m c = nil-IsAnswer a _ c
  only_to-IsAnswer a (some d) m c = elim (Bool-cases (d == c)) [
    | inl same ↦ rw same (
        subst
          (λ x.
            IsAnswer a (mail (actor_call (some x) (plain m))) c
              (answer_of (h.handle (with_caller a.ctx (some x)) (plain m) a.state).ret))
          (ground arith) (answer_of-IsAnswer a m c _ refl))
    | inr apart ↦ rw apart (nil-IsAnswer a _ c)
  ]

  pub answer-IsAnswer :
      (a : Actor State Msg) (e : Event Msg) (c : ℕ) → IsAnswer a e c (answer h a c e)
  answer-IsAnswer a (mail (actor_call from (plain m))) c = only_to-IsAnswer a from m c
  answer-IsAnswer a (mail m) c = nil-IsAnswer a (mail m) c
  answer-IsAnswer a e c = nil-IsAnswer a e c

module _ {State Msg : Type 0} (h : Handler State Msg) (quiet : SendsNothing h) where
  pub own_sends-nil :
      (a : Actor State Msg) (e : Event Msg) (c : ℕ)
      → replies_to c (own_sends (handled_by h a e)) ≡ []
  own_sends-nil a (interrupt tm) c = refl
  own_sends-nil a ticks c = quiet.tick a.ctx a.state c
  own_sends-nil a times_out c = quiet.timeout a.ctx a.state c
  own_sends-nil a (mail (actor_call from (plain m))) c =
      quiet.handle (with_caller a.ctx from) (plain m) a.state c
  own_sends-nil a (mail (actor_cast (plain m))) c = quiet.handle a.ctx (plain m) a.state c
  own_sends-nil a (mail m) c = refl
