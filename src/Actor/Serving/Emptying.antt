-- ===== src/Actor/Serving/Emptying.antt =====
-- An actor whose handler asks for a stop at each message, or panics, and sends nothing itself, left to
-- itself for long enough.
use vlgo.Shared.{
  ℕ, zero, suc, ◌-◌, ◌≤◌, ◌≡◌, refl, sym, ap, subst, ◌∙◌, List, [], ◌∷◌, ◌++◌, append-nil, Option,
  arith, length_zero, ℤ,
}
use vlgo.Actor.{Handler, Actor}
use vlgo.Actor.Caller.{Codes}
use vlgo.Actor.Serving.{Goroutine, ready, posting, ended, Serving, Move, move, run, opened}
use vlgo.Actor.Serving.Answers.{replies_to}
use vlgo.Actor.Serving.Following.{mails}
use vlgo.Actor.Serving.Reachable.{run-stands}
use vlgo.Actor.Serving.Quiet.{SendsNothing}
use vlgo.Actor.Serving.Served.{run-Unblocked}
use vlgo.Actor.Serving.Single.{IsGoing}
use vlgo.Actor.Serving.Bounded.{run-IsBounded}
use vlgo.Actor.Serving.Posts.{IsSilent}
use vlgo.Actor.Serving.Draining.{IsDueAt, run-IsDueAt}
use vlgo.Actor.Serving.Keeping.{KeepsLoop}
use vlgo.Actor.Serving.Working.{
  own_move, own_moves, left_of, IsReady, work_left, Works, own_move-Works,
}

module _ {State Msg : Type 0} (h : Handler State Msg) where
  pub IsSilent-SendsNothing : IsSilent h → SendsNothing h
  IsSilent-SendsNothing quiet = record {
    handle = λ ctx v s c. ap (replies_to c) (quiet.handle ctx v s);
    tick = λ ctx s c. ap (replies_to c) (quiet.tick ctx s);
    timeout = λ ctx s c. ap (replies_to c) (quiet.timeout ctx s);
  }

  run-snoc :
      (codes : Codes) (w : Serving State Msg) (es : List (Move Msg)) (e : Move Msg)
      → run h codes w (es ++ e ∷ []) ≡ move h codes (run h codes w es) e
  unfolding run
  run-snoc codes w [] e = refl
  run-snoc codes w (d ∷ es) e = run-snoc codes (move h codes w d) es e

module _ {State Msg : Type 0} (h : Handler State Msg) (ticker0 out0 : Option ℤ)
    (a : Actor State Msg) (codes : Codes) (k : ℕ) where
  -- A state that the actor and its callers reach.
  abbrev pub left_after : List (Move Msg) → Serving State Msg
  left_after es = run h codes (opened ticker0 out0 a k) es

  module _ (keeps : KeepsLoop h) (quiet : IsSilent h) where
    -- The goroutine's next operation, wherever it stands in its loop.
    next_move-Works :
        (es : List (Move Msg))
        → IsGoing (left_after es).goroutine
        → Works (left_after es) (move h codes (left_after es) (own_move (left_after es).goroutine))
    next_move-Works es going =
        own_move-Works h codes (left_after es).goroutine (left_after es) refl keeps
          (run-IsBounded h ticker0 out0 a codes k es) going
          (run-IsDueAt h quiet ticker0 out0 a codes k es)
          (run-Unblocked h (IsSilent-SendsNothing h quiet) ticker0 out0 a codes k es)
          (subst (λ w. IsDueAt w.goroutine) (run-snoc h codes (opened ticker0 out0 a k) es _)
            (run-IsDueAt h quiet ticker0 out0 a codes k
              (es ++ own_move (left_after es).goroutine ∷ [])))

    -- What is left behind `n` operations of the goroutine.
    pub record WorksOn (n : ℕ) (w w' : Serving State Msg) : Type 0 where
      pub reach : (es : List (Move Msg)) × (w' ≡ left_after es)
      pub going : IsGoing w'.goroutine
      pub less : work_left w' ≤ work_left w - n
      pub sent : w'.channels.sent ≡ w.channels.sent

    pub own_moves-WorksOn :
        (n : ℕ) (w : Serving State Msg) (es : List (Move Msg))
        → w ≡ left_after es
        → IsGoing w.goroutine
        → WorksOn n w (run h codes w (own_moves h codes n w))
    unfolding run
    own_moves-WorksOn zero w es at going = record {
      reach = (es, at);
      going = going;
      less = omega arith;
      sent = refl;
    }
    own_moves-WorksOn (suc n) w es at going =
        let one : Works w (move h codes w (own_move w.goroutine)) =
          subst (λ x. Works x (move h codes x (own_move x.goroutine))) (sym at)
            (next_move-Works es (subst (λ x. IsGoing x.goroutine) at going)) in
        let rest =
          own_moves-WorksOn n (move h codes w (own_move w.goroutine))
            (es ++ own_move w.goroutine ∷ [])
            (ap (λ x. move h codes x (own_move w.goroutine)) at
              ∙ sym (run-snoc h codes (opened ticker0 out0 a k) es (own_move w.goroutine)))
            one.going in
        record {
          reach = rest.reach;
          going = rest.going;
          less = omega (arith, rest.less, one.less);
          sent = rest.sent ∙ one.sent;
        }

    going-IsReady : (g : Goroutine Msg) → IsGoing g → left_of g ≡ 0 → IsReady g
    going-IsReady (ready ticker out) going none_left = tt
    going-IsReady (posting ps n) going none_left = absurd (omega (arith, none_left))
    going-IsReady ended going none_left = absurd going

    -- Where the handler asks for a stop at each message, or panics, and its methods send no replies
    -- themselves: from any state that the actor and its callers reach and in which the goroutine is still in its
    -- loop, three operations of the goroutine for each mail in the mailbox, and those of the turn that it
    -- is in, leave it in its `select` with an empty mailbox: it has then received each mail that the mailbox had
    -- accepted, in order, and no send of a reply has blocked it.
    pub run-empties :
        (es : List (Move Msg)) (n : ℕ)
        → IsGoing (left_after es).goroutine
        → work_left (left_after es) ≤ n
        → let w = run h codes (left_after es) (own_moves h codes n (left_after es)) in
          IsReady w.goroutine
          × (w.channels.mailbox.items ≡ [])
          × (mails w.seen ≡ (left_after es).channels.sent)
    run-empties es n going enough =
        let w = run h codes (left_after es) (own_moves h codes n (left_after es)) in
        let done = own_moves-WorksOn n (left_after es) es refl going in
        let empty : w.channels.mailbox.items ≡ [] =
          length_zero w.channels.mailbox.items (omega (arith, done.less, enough)) in
        let (fs, at) = done.reach in
        (
          going-IsReady w.goroutine done.going (omega (arith, done.less, enough)),
          empty,
          sym (append-nil (mails w.seen))
              ∙ ap (λ x. mails w.seen ++ x) (sym empty)
              ∙ subst (λ x. mails x.seen ++ x.channels.mailbox.items ≡ x.channels.sent) (sym at)
                  (run-stands h ticker0 out0 a codes k fs).1
              ∙ done.sent,
        )
