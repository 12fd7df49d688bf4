-- ===== src/Actor/Serving/Replying.antt =====
-- An actor whose handler has an answer to every message: each call that it has received has a reply.
use mathlib.Core.List.{Memᴰ}
use mathlib.Core.List.Memᴰ
use vlgo.Shared.{
  ℕ, ◌+◌, ◌≤◌, ◌≡◌, sym, ap, subst, true, false, inl, inr, List, [], ◌∷◌, ◌++◌, some, ◌==◌, arith,
  length, length-append,
}
use vlgo.Actor.{
  plain, ActorCtx, ActorRet, actor_call, Handler, Actor, Event, interrupt, ticks, times_out, mail,
  is_no_reply, with_caller,
}
use vlgo.Actor.Caller.{Codes}
use vlgo.Actor.Serving.{Serving, Move, move, run}
use vlgo.Actor.Serving.Answers.{
  replies_to, replies_to-append, own_sends, handled_by, answer, Answers,
}
use vlgo.Actor.Serving.Following.{mails, mails-append}
use vlgo.Actor.Serving.Exactly.{Turned, stays, turns, move-Turned}

-- On each message the handler returns a result, and not `CallNoRep`.
pub record RepliesAll {State Msg : Type 0} (h : Handler State Msg) : Type 0 where
  pub handle :
      (ctx : ActorCtx) (m : Msg) (s : State)
      → (r : ActorRet Msg) × ((h.handle ctx (plain m) s).ret ≡ some r)
        × (is_no_reply r.ret_val ≡ false)

module _ {State Msg : Type 0} (h : Handler State Msg) (all : RepliesAll h) where
  answer_call :
      (a : Actor State Msg) (c : ℕ) (m : Msg)
      → 1 ≤ length (answer h a c (mail (actor_call (some c) (plain m))))
  answer_call a c m =
      let (r, good, loud) = all.handle (with_caller a.ctx (some c)) m a.state in
      let same : (c == c) ≡ true = ground arith in rw same (rw good (rw loud (omega arith)))

  answer_mails :
      (a : Actor State Msg) (e : Event Msg) (c : ℕ) (m : Msg)
      → Memᴰ (actor_call (some c) (plain m)) (mails (e ∷ []))
      → 1 ≤ length (answer h a c e)
  answer_mails a (interrupt tm) c m d = absurd (Memᴰ.not-nil d)
  answer_mails a ticks c m d = absurd (Memᴰ.not-nil d)
  answer_mails a times_out c m d = absurd (Memᴰ.not-nil d)
  answer_mails a (mail x) c m d =
      subst (λ y. 1 ≤ length (answer h a c (mail y))) (Memᴰ.eq_of_singleton d) (answer_call a c m)

  -- Each call among the mails has a reply.
  abbrev pub IsReplied : Actor State Msg → List (Event Msg) → Type 0
  IsReplied a seen =
      (c : ℕ) (m : Msg)
      → Memᴰ (actor_call (some c) (plain m)) (mails seen)
      → 1 ≤ length (replies_to c a.effects)

  turn_length :
      (a a' : Actor State Msg) (e : Event Msg) (c : ℕ)
      → Answers h a e a'
      → length (replies_to c a.effects) + length (answer h a c e) ≤ length (replies_to c a'.effects)
  turn_length a a' e c s = omega (
    arith,
    ap (λ y. length (replies_to c y)) s.effects,
    ap length (replies_to-append c a.effects s.new),
    length-append (replies_to c a.effects) (replies_to c s.new),
    ap length (s.answers c),
    length-append (replies_to c (own_sends (handled_by h a e))) (answer h a c e),
  )

  IsReplied-turn :
      (a a' : Actor State Msg) (seen : List (Event Msg)) (e : Event Msg)
      → Answers h a e a'
      → IsReplied a seen
      → IsReplied a' (seen ++ e ∷ [])
  IsReplied-turn a a' seen e s x c m d =
      elim (Memᴰ.append_cases (mails seen) (subst (Memᴰ _) (mails-append seen (e ∷ [])) d)) [
        | inl old ↦ omega (arith, turn_length a a' e c s, x c m old)
        | inr new ↦ omega (arith, turn_length a a' e c s, answer_mails a e c m new)
      ]

  IsReplied-Turned :
      (w w' : Serving State Msg)
      → Turned h w w'
      → IsReplied w.actor w.seen
      → IsReplied w'.actor w'.seen
  IsReplied-Turned w w' (stays e f) x =
      subst (λ a. IsReplied a w'.seen) (sym e) (subst (IsReplied w.actor) (sym f) x)
  IsReplied-Turned w w' (turns e f s) x =
      subst (IsReplied w'.actor) (sym f) (IsReplied-turn w.actor w'.actor w.seen e s x)

  pub run-IsReplied :
      (codes : Codes) (w : Serving State Msg) (es : List (Move Msg))
      → IsReplied w.actor w.seen
      → IsReplied (run h codes w es).actor (run h codes w es).seen
  unfolding run
  run-IsReplied codes w [] x = x
  run-IsReplied codes w (e ∷ es) x =
      run-IsReplied codes (move h codes w e) es (IsReplied-Turned w _ (move-Turned h codes w e) x)
