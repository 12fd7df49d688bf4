-- ===== src/Actor/Serving/Draining.antt =====
-- The goroutine of an actor whose handler sends nothing itself has one reply to send at most.
use vlgo.Shared.{
  ℕ, ◌≡◌, refl, subst, inl, inr, List, [], ◌∷◌, Option, none, some, Bool-cases, All, ℤ,
}
use vlgo.Actor.{
  ActorRet, ActorCaller, Mail, Handler, Actor, Next, Event, mail, interrupt, ticks, times_out,
  do_loop,
}
use vlgo.Actor.Caller.{Codes}
use vlgo.Actor.Serving.{
  Goroutine, ready, posting, ended, Serving, Move, acts, interrupts, receives, fires_ticker,
  fires_timer, delivers, behind_turn, turn, receive_mail, send_ret, deliver, after_turn, move, run,
  opened,
}
use vlgo.Actor.Serving.Bounded.{IsRequest, IsBounded, move-IsBounded, opened-IsBounded}
use vlgo.Actor.Serving.Posts.{IsSilent, IsDue, FromCaller, DueTurn, do_loop-DueTurn}

module _ {Msg : Type 0} where
  -- The replies that the goroutine is about to send.
  abbrev pub IsDueAt : Goroutine Msg → Type 0
  IsDueAt (posting ps n) = IsDue ps
  IsDueAt g = Unit

  IsDue-tail :
      (c : ℕ) (r : ActorRet Msg) (ps : List (ActorCaller × ActorRet Msg))
      → IsDue ((some c, r) ∷ ps)
      → IsDue ps
  IsDue-tail c r [] d = tt
  IsDue-tail c r (p ∷ ps) d = absurd d

module _ {State Msg : Type 0} (h : Handler State Msg) (quiet : IsSilent h) where
  turn-IsDueAt :
      (e : Event Msg) (g : Goroutine Msg) (w : Serving State Msg)
      → FromCaller e
      → IsDueAt w.goroutine
      → IsDueAt (turn h e g w).goroutine
  turn-IsDueAt e (posting ps n) w called d = d
  turn-IsDueAt e ended w called d = d
  turn-IsDueAt e (ready ticker out) w called d =
      behind (do_loop h ticker out e w.actor) (do_loop-DueTurn h quiet w.actor ticker out e called)
    where
      behind :
          (o : Option (Next × Actor State Msg))
          → DueTurn h quiet w.actor o
          → IsDueAt (behind_turn e o w).goroutine
      behind none x = d
      behind (some (n, b)) x = x

  receive_mail-IsDueAt :
      (ms : List (Mail Msg)) (g : Goroutine Msg) (w : Serving State Msg)
      → All IsRequest ms
      → IsDueAt w.goroutine
      → IsDueAt (receive_mail h ms g w).goroutine
  receive_mail-IsDueAt [] g w called d = d
  receive_mail-IsDueAt (m ∷ ms) (posting ps n) w called d = d
  receive_mail-IsDueAt (m ∷ ms) ended w called d = d
  receive_mail-IsDueAt (m ∷ ms) (ready ticker out) w called d =
      turn-IsDueAt (mail m) (ready ticker out) _ called.0 d

  send_ret-IsDueAt :
      (c : ℕ) (r : ActorRet Msg) (rs : List (ActorRet Msg)) (ps : List (ActorCaller × ActorRet Msg))
      (n : Next) (w : Serving State Msg)
      → IsDue ps
      → IsDueAt w.goroutine
      → IsDueAt (send_ret c r rs ps n w).goroutine
  send_ret-IsDueAt c r [] ps n w d before = d
  send_ret-IsDueAt c r (q ∷ qs) ps n w d before = before

  after_turn-IsDueAt : (n : Next) → IsDueAt {Msg = Msg} (after_turn n)
  after_turn-IsDueAt n = elim (Bool-cases n.flag) [ inl on ↦ rw on tt | inr off ↦ rw off tt ]

  deliver-IsDueAt :
      (g : Goroutine Msg) (w : Serving State Msg)
      → w.goroutine ≡ g
      → IsDueAt w.goroutine
      → IsDueAt (deliver g w).goroutine
  deliver-IsDueAt (ready ticker out) w at d = d
  deliver-IsDueAt ended w at d = d
  deliver-IsDueAt (posting [] n) w at d = after_turn-IsDueAt n
  deliver-IsDueAt (posting ((none, r) ∷ ps) n) w at d = d
  deliver-IsDueAt (posting ((some c, r) ∷ ps) n) w at d =
      send_ret-IsDueAt c r (w.channels.boxes c) ps n w (IsDue-tail c r ps (subst IsDueAt at d)) d

  move-IsDueAt :
      (codes : Codes) (w : Serving State Msg) (e : Move Msg)
      → IsBounded w.channels
      → IsDueAt w.goroutine
      → IsDueAt (move h codes w e).goroutine
  unfolding move
  move-IsDueAt codes w (acts k a) b d = d
  move-IsDueAt codes w (interrupts tm) b d = turn-IsDueAt (interrupt tm) w.goroutine w tt d
  move-IsDueAt codes w receives b d =
      receive_mail-IsDueAt w.channels.mailbox.items w.goroutine w b.callers d
  move-IsDueAt codes w fires_ticker b d = turn-IsDueAt ticks w.goroutine w tt d
  move-IsDueAt codes w fires_timer b d = turn-IsDueAt times_out w.goroutine w tt d
  move-IsDueAt codes w delivers b d = deliver-IsDueAt w.goroutine w refl d

  moves-IsDueAt :
      (codes : Codes) (w : Serving State Msg) (es : List (Move Msg))
      → IsBounded w.channels
      → IsDueAt w.goroutine
      → IsDueAt (run h codes w es).goroutine
  unfolding run
  moves-IsDueAt codes w [] b d = d
  moves-IsDueAt codes w (e ∷ es) b d =
      moves-IsDueAt codes (move h codes w e) es (move-IsBounded h codes w e b)
        (move-IsDueAt codes w e b d)

  pub run-IsDueAt :
      (ticker0 out0 : Option ℤ) (a : Actor State Msg) (codes : Codes) (k : ℕ) (es : List (Move Msg))
      → IsDueAt (run h codes (opened ticker0 out0 a k) es).goroutine
  run-IsDueAt ticker0 out0 a codes k es =
      moves-IsDueAt codes (opened ticker0 out0 a k) es (opened-IsBounded h ticker0 out0 a k) tt
