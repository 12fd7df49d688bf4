-- ===== src/Actor/Serving/Following.antt =====
-- The sequential model of the loop, one event further, and the mails and replies that the two models share.
use vlgo.Shared.{
  ℕ, ◌≡◌, refl, sym, ap, ◌∙◌, inl, inr, Bool, true, false, List, [], ◌∷◌, ◌++◌, Option, none, some,
  ◌==◌, if◌then◌else◌, Bool-cases, Option-cases, ℤ,
}
use vlgo.Actor.{
  ActorRet, ActorCaller, Mail, Effect, replies, stops_ticker, handles, stops, Handler, Actor, Next,
  Event, interrupt, ticks, times_out, mail, do_loop,
}
use vlgo.Actor.Loop.{Outcome, waits, exits, crashes, blocks, run_events}
use vlgo.Actor.Serving.{Goroutine, ready, posting, ended, posts_of}
use vlgo.Actor.Serving.Answers.{replies_to}

abbrev pub mails : {Msg : Type 0} → List (Event Msg) → List (Mail Msg)
mails [] = []
mails (mail m ∷ es) = m ∷ mails es
mails (interrupt tm ∷ es) = mails es
mails (ticks ∷ es) = mails es
mails (times_out ∷ es) = mails es

pub mails-append :
    {Msg : Type 0} (es fs : List (Event Msg)) → mails (es ++ fs) ≡ mails es ++ mails fs
mails-append [] fs = refl
mails-append (mail m ∷ es) fs = ap (◌∷◌ m) (mails-append es fs)
mails-append (interrupt tm ∷ es) fs = mails-append es fs
mails-append (ticks ∷ es) fs = mails-append es fs
mails-append (times_out ∷ es) fs = mails-append es fs

-- The replies to the channel `c` that are still to be sent.
abbrev pub posts_to : {Msg : Type 0} → ℕ → List (ActorCaller × ActorRet Msg) → List (ActorRet Msg)
posts_to c [] = []
posts_to c ((none, r) ∷ ps) = posts_to c ps
posts_to c ((some d, r) ∷ ps) = if d == c then r ∷ posts_to c ps else posts_to c ps

pub posts_to-posts_of :
    {Msg : Type 0} (c : ℕ) (es : List (Effect Msg)) → posts_to c (posts_of es) ≡ replies_to c es
posts_to-posts_of c [] = refl
posts_to-posts_of c (replies none r ∷ es) = posts_to-posts_of c es
posts_to-posts_of c (replies (some d) r ∷ es) =
    ap (λ x. if d == c then r ∷ x else x) (posts_to-posts_of c es)
posts_to-posts_of c (stops_ticker d ∷ es) = posts_to-posts_of c es
posts_to-posts_of c (handles v ∷ es) = posts_to-posts_of c es
posts_to-posts_of c (stops ∷ es) = posts_to-posts_of c es

abbrev pub posting_to : {Msg : Type 0} → ℕ → Goroutine Msg → List (ActorRet Msg)
posting_to c (posting ps n) = posts_to c ps
posting_to c g = []

-- The sequential model's view of the goroutine.
abbrev pub stands : {State Msg : Type 0} → Goroutine Msg → Actor State Msg → Outcome State Msg
stands (ready ticker out) a = waits ticker out a
stands (posting ps n) a = if n.flag then waits n.ticker n.timer a else exits a []
stands ended a = exits a []

module _ {State Msg : Type 0} (h : Handler State Msg) where
  -- The sequential model goes on from where it stands.
  abbrev continues : Outcome State Msg → List (Event Msg) → Outcome State Msg
  continues (waits t o b) fs = run_events h t o b fs
  continues (exits b rest) fs = exits b (rest ++ fs)
  continues (crashes b) fs = crashes b
  continues (blocks b) fs = blocks b

  -- What `run_events` does behind a turn, by its flag.
  abbrev goes_on : Bool → Next → Actor State Msg → List (Event Msg) → Outcome State Msg
  goes_on true n b es = run_events h n.ticker n.timer b es
  goes_on false n b es = exits b es

  abbrev after_event :
      Option ℤ
      → Option ℤ
      → Actor State Msg
      → List (Event Msg)
      → Option (Next × Actor State Msg)
      → Outcome State Msg
  after_event ticker out a es none = run_events h ticker out a es
  after_event ticker out a es (some (n, b)) = goes_on n.flag n b es

  run_events-cons :
      (ticker out : Option ℤ) (a : Actor State Msg) (e : Event Msg) (es : List (Event Msg))
      → run_events h ticker out a (e ∷ es) ≡ after_event ticker out a es (do_loop h ticker out e a)
  unfolding run_events
  run_events-cons ticker out a e es = elim (Option-cases (do_loop h ticker out e a)) [
    | inl never ↦ rw (never, run_events) refl
    | inr ((n, b), turned) ↦ elim (Bool-cases n.flag) [
      | inl on ↦ rw (turned, run_events) (rw on refl)
      | inr off ↦ rw (turned, run_events) (rw off refl)
    ]
  ]

  abbrev AppendsTo : List (Event Msg) → List (Event Msg) → Type 0
  AppendsTo es fs =
      (t o : Option ℤ) (b : Actor State Msg)
      → run_events h t o b (es ++ fs) ≡ continues (run_events h t o b es) fs

  run_events-append :
      (es fs : List (Event Msg)) (ticker out : Option ℤ) (a : Actor State Msg)
      → run_events h ticker out a (es ++ fs) ≡ continues (run_events h ticker out a es) fs
  run_events-append [] fs ticker out a = unfold run_events in refl
  run_events-append (e ∷ es) fs ticker out a =
      run_events-cons ticker out a e (es ++ fs)
      ∙ after (run_events-append es fs) (do_loop h ticker out e a)
      ∙ ap (λ x. continues x fs) (sym (run_events-cons ticker out a e es))
    where
      flagged :
          AppendsTo es fs
          → (flag : Bool) (n : Next) (b : Actor State Msg)
          → goes_on flag n b (es ++ fs) ≡ continues (goes_on flag n b es) fs
      flagged below true n b = below n.ticker n.timer b
      flagged below false n b = refl

      after :
          AppendsTo es fs
          → (x : Option (Next × Actor State Msg))
          → after_event ticker out a (es ++ fs) x ≡ continues (after_event ticker out a es x) fs
      after below none = below ticker out a
      after below (some (n, b)) = flagged below n.flag n b

  -- One more event.
  pub run_events-snoc :
      (ticker out t o : Option ℤ) (a b b' : Actor State Msg) (es : List (Event Msg)) (e : Event Msg)
      (n : Next)
      → waits t o b ≡ run_events h ticker out a es
      → do_loop h t o e b ≡ some (n, b')
      → stands (posting [] n) b' ≡ run_events h ticker out a (es ++ e ∷ [])
  run_events-snoc ticker out t o a b b' es e n q d = sym (
      run_events-append es (e ∷ []) ticker out a
      ∙ ap (λ x. continues x (e ∷ [])) (sym q)
      ∙ run_events-cons t o b e []
      ∙ ap (after_event t o b []) d
      ∙ flagged n.flag)
    where
      flagged :
          (flag : Bool)
          → goes_on flag n b' [] ≡ (if flag then waits n.ticker n.timer b' else exits b' [])
      flagged true = unfold run_events in refl
      flagged false = refl
