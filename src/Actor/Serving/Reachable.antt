-- ===== src/Actor/Serving/Reachable.antt =====
-- A running actor and its callers under every interleaving.
use vlgo.Shared.{
  ℕ, zero, suc, ◌≡◌, refl, List, [], ◌∷◌, ◌++◌, Option, none, some, arith, replicate, ℤ,
}
use vlgo.Actor.{
  ActorRet, ActorCaller, Mail, Handler, Actor, Next, Event, mail, interrupt, ticks, times_out,
  do_loop,
}
use vlgo.Actor.Loop.{run_events}
use vlgo.Actor.Caller.{Codes}
use vlgo.Actor.Serving.Taking.{Fitting, act_at-Fitting, new-Fitting}
use vlgo.Actor.Serving.{
  outside, Goroutine, ready, posting, ended, Serving, Move, acts, interrupts, receives,
  fires_ticker, fires_timer, delivers, behind_turn, turn, receive_mail, send_ret, deliver, move,
  run, opened,
}
use vlgo.Actor.Serving.Answers.{replies_to}
use vlgo.Actor.Serving.Counting.{sending_all}
use vlgo.Actor.Serving.Clients.{AllHonest}
use vlgo.Actor.Serving.Following.{mails, posting_to, stands}
use vlgo.Actor.Serving.Invariant.{Inv}
use vlgo.Actor.Serving.Moves.{move-Inv}

module _ {State Msg : Type 0} (h : Handler State Msg) where
  abbrev FittingAt : Serving State Msg → Type 0
  FittingAt w = Fitting w.channels.next w.channels.taken w.clients

  turn-Fitting :
      (e : Event Msg) (g : Goroutine Msg) (w : Serving State Msg)
      → FittingAt w
      → FittingAt (turn h e g w)
  turn-Fitting e (posting ps n) w i = i
  turn-Fitting e ended w i = i
  turn-Fitting e (ready ticker out) w i = behind (do_loop h ticker out e w.actor)
    where
      behind : (o : Option (Next × Actor State Msg)) → FittingAt (behind_turn e o w)
      behind none = i
      behind (some (n, a)) = i

  receive_mail-Fitting :
      (ms : List (Mail Msg)) (g : Goroutine Msg) (w : Serving State Msg)
      → FittingAt w
      → FittingAt (receive_mail h ms g w)
  receive_mail-Fitting [] g w i = i
  receive_mail-Fitting (m ∷ ms) (posting ps n) w i = i
  receive_mail-Fitting (m ∷ ms) ended w i = i
  receive_mail-Fitting (m ∷ ms) (ready ticker out) w i =
      turn-Fitting (mail m) (ready ticker out) _ i

  send_ret-Fitting :
      (c : ℕ) (r : ActorRet Msg) (rs : List (ActorRet Msg)) (ps : List (ActorCaller × ActorRet Msg))
      (n : Next) (w : Serving State Msg)
      → FittingAt w
      → FittingAt (send_ret c r rs ps n w)
  send_ret-Fitting c r [] ps n w i = i
  send_ret-Fitting c r (q ∷ qs) ps n w i = i

  deliver-Fitting :
      (g : Goroutine Msg) (w : Serving State Msg) → FittingAt w → FittingAt (deliver g w)
  deliver-Fitting (ready ticker out) w i = i
  deliver-Fitting ended w i = i
  deliver-Fitting (posting [] n) w i = i
  deliver-Fitting (posting ((none, r) ∷ ps) n) w i = i
  deliver-Fitting (posting ((some c, r) ∷ ps) n) w i =
      send_ret-Fitting c r (w.channels.boxes c) ps n w i

  move-Fitting :
      (codes : Codes) (w : Serving State Msg) (e : Move Msg)
      → FittingAt w
      → FittingAt (move h codes w e)
  unfolding move
  move-Fitting codes w (acts k a) i = act_at-Fitting codes k a w.clients w.channels i
  move-Fitting codes w (interrupts tm) i = turn-Fitting (interrupt tm) w.goroutine w i
  move-Fitting codes w receives i = receive_mail-Fitting w.channels.mailbox.items w.goroutine w i
  move-Fitting codes w fires_ticker i = turn-Fitting ticks w.goroutine w i
  move-Fitting codes w fires_timer i = turn-Fitting times_out w.goroutine w i
  move-Fitting codes w delivers i = deliver-Fitting w.goroutine w i

  run-Fitting :
      (codes : Codes) (w : Serving State Msg) (es : List (Move Msg))
      → FittingAt w
      → FittingAt (run h codes w es)
  unfolding run
  run-Fitting codes w [] i = i
  run-Fitting codes w (e ∷ es) i =
      run-Fitting codes (move h codes w e) es (move-Fitting codes w e i)

module _ {State Msg : Type 0} (h : Handler State Msg) (ticker0 out0 : Option ℤ)
    (a0 : Actor State Msg) where
  pub run-Inv :
      (codes : Codes) (w : Serving State Msg) (es : List (Move Msg))
      → Inv h ticker0 out0 a0 w
      → Inv h ticker0 out0 a0 (run h codes w es)
  unfolding run
  run-Inv codes w [] i = i
  run-Inv codes w (e ∷ es) i =
      run-Inv codes (move h codes w e) es (move-Inv h ticker0 out0 a0 codes w e i)

  AllHonest-outside :
      (f : ℕ → List (ActorRet Msg)) (sent : List (Mail Msg)) (k : ℕ)
      → AllHonest f sent (replicate k outside)
  AllHonest-outside f sent zero = tt
  AllHonest-outside f sent (suc k) = (tt, AllHonest-outside f sent k)

  sending_all-outside : (c k : ℕ) → sending_all {Msg = Msg} c (replicate k outside) ≡ 0
  sending_all-outside c zero = refl
  sending_all-outside c (suc k) = omega (arith, sending_all-outside c k)

  opened-Inv : (k : ℕ) → Inv h ticker0 out0 a0 (opened ticker0 out0 a0 k)
  opened-Inv k = record {
    standing = unfold run_events in refl;
    fifo = refl;
    live = refl;
    delivery = λ c. refl;
    honest = AllHonest-outside _ _ k;
    once = λ c. omega (arith, sending_all-outside c k);
    fresh = λ c l. omega (arith, sending_all-outside c k);
  }

  pub run-opened-Inv :
      (codes : Codes) (k : ℕ) (es : List (Move Msg))
      → Inv h ticker0 out0 a0 (run h codes (opened ticker0 out0 a0 k) es)
  run-opened-Inv codes k es = run-Inv codes (opened ticker0 out0 a0 k) es (opened-Inv k)

  -- From an actor behind its `Init`, under every interleaving of its goroutine with `k` goroutines that call and
  -- cast: the actor stands where the sequential model of its loop stands behind the events received, and
  -- the mails among these, followed by those in the mailbox, are the mails accepted, in order.
  pub run-stands :
      (codes : Codes) (k : ℕ) (es : List (Move Msg))
      → let w = run h codes (opened ticker0 out0 a0 k) es in
        (stands w.goroutine w.actor ≡ run_events h ticker0 out0 (record a0 { effects = [] }) w.seen)
        × (mails w.seen ++ w.channels.mailbox.items ≡ w.channels.sent)
  run-stands codes k es = let i = run-opened-Inv codes k es in (i.standing, i.fifo)

  pub run-replies :
      (codes : Codes) (k : ℕ) (es : List (Move Msg))
      → let w = run h codes (opened ticker0 out0 a0 k) es in
        ((c : ℕ)
          → replies_to c w.actor.effects
            ≡ w.channels.taken c ++ (w.channels.boxes c ++ posting_to c w.goroutine))
        × Fitting w.channels.next w.channels.taken w.clients
        × AllHonest (λ c. replies_to c w.actor.effects) w.channels.sent w.clients
  run-replies codes k es =
      let i = run-opened-Inv codes k es in
      (i.delivery, run-Fitting h codes (opened ticker0 out0 a0 k) es (new-Fitting k), i.honest)
