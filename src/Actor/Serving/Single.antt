-- ===== src/Actor/Serving/Single.antt =====
-- An actor whose handler neither asks for a stop nor panics: it reads one event that it can handle.
use vlgo.Shared.{
  ℕ, suc, ◌≤◌, ◌<◌, ◌≡◌, refl, ap, subst, ◌∙◌, ◌⊎◌, inl, inr, Bool, true, false, not, List, [], ◌∷◌,
  Option, none, some, arith, Bool-cases, ℤ,
}
use vlgo.Actor.{
  ActorRet, ActorCaller, Mail, Handler, Actor, Next, Event, interrupt, ticks, times_out, mail,
  do_loop,
}
use vlgo.Actor.Caller.{Codes}
use vlgo.Actor.Serving.{
  Goroutine, ready, posting, ended, Serving, Move, acts, interrupts, receives, fires_ticker,
  fires_timer, delivers, behind_turn, turn, receive_mail, send_ret, deliver, move, run, opened,
  after_turn,
}
use vlgo.Actor.Serving.Flags.{
  NeverStops, is_named, count_named, count_named-snoc, count_named-snoc_unnamed, LeavesBy,
  do_loop_flag,
}

module _ {Msg : Type 0} where
  -- Before the one event that it can handle, the actor goes on; behind it, it never receives again.
  abbrev pub IsGoing : Goroutine Msg → Type 0
  IsGoing (ready ticker out) = Unit
  IsGoing (posting ps n) = n.flag ≡ true
  IsGoing ended = ⊥

  abbrev pub IsLeaving : Goroutine Msg → Type 0
  IsLeaving (ready ticker out) = ⊥
  IsLeaving (posting ps n) = n.flag ≡ false
  IsLeaving ended = Unit

  abbrev OneShot : Goroutine Msg → List (Event Msg) → Type 0
  OneShot g seen = ((count_named seen ≡ 0) × IsGoing g) ⊎ ((count_named seen ≡ 1) × IsLeaving g)

module _ {State Msg : Type 0} (h : Handler State Msg) (goes : NeverStops h) where
  behind_turn-OneShot :
      (ticker out : Option ℤ) (e : Event Msg) (w : Serving State Msg)
      (o : Option (Next × Actor State Msg))
      → w.goroutine ≡ ready ticker out
      → LeavesBy e o
      → OneShot w.goroutine w.seen
      → let w' = behind_turn e o w in OneShot w'.goroutine w'.seen
  behind_turn-OneShot ticker out e w none at f s = s
  behind_turn-OneShot ticker out e w (some (n, a)) at f (inr (one, leaving)) =
      absurd (subst IsLeaving at leaving)
  behind_turn-OneShot ticker out e w (some (n, a)) at f (inl (none_yet, going)) =
      elim (Bool-cases (is_named e)) [
        | inl real ↦ inr (count_named-snoc w.seen e real ∙ ap suc none_yet, f ∙ ap not real)
        | inr empty ↦ inl (count_named-snoc_unnamed w.seen e empty ∙ none_yet, f ∙ ap not empty)
      ]

  abbrev OneShotAt : Serving State Msg → Type 0
  OneShotAt w = OneShot w.goroutine w.seen

  turn-OneShot :
      (e : Event Msg) (g : Goroutine Msg) (w : Serving State Msg)
      → w.goroutine ≡ g
      → OneShotAt w
      → OneShotAt (turn h e g w)
  turn-OneShot e (ready ticker out) w at s =
      behind_turn-OneShot ticker out e w (do_loop h ticker out e w.actor) at
        (do_loop_flag h goes ticker out e w.actor) s
  turn-OneShot e (posting ps n) w at s = s
  turn-OneShot e ended w at s = s

  receive_mail-OneShot :
      (ms : List (Mail Msg)) (g : Goroutine Msg) (w : Serving State Msg)
      → w.goroutine ≡ g
      → OneShotAt w
      → OneShotAt (receive_mail h ms g w)
  receive_mail-OneShot [] g w at s = s
  receive_mail-OneShot (m ∷ ms) (posting ps n) w at s = s
  receive_mail-OneShot (m ∷ ms) ended w at s = s
  receive_mail-OneShot (m ∷ ms) (ready ticker out) w at s =
      turn-OneShot (mail m) (ready ticker out)
        (record w {
          channels = record w.channels { mailbox = record w.channels.mailbox { items = ms } };
        })
        at s

  after_turn-OneShot :
      (flag : Bool) (n : Next) (seen : List (Event Msg))
      → n.flag ≡ flag
      → OneShot (posting [] n) seen
      → OneShot (after_turn n) seen
  after_turn-OneShot true n seen f (inl (none_yet, going)) = inl (none_yet, rw f tt)
  after_turn-OneShot false n seen f (inr (one, leaving)) = inr (one, rw f tt)
  after_turn-OneShot true n seen f (inr (one, leaving)) = absurd (cc)
  after_turn-OneShot false n seen f (inl (none_yet, going)) = absurd (cc)

  send_ret-OneShot :
      (c : ℕ) (r : ActorRet Msg) (rs : List (ActorRet Msg)) (ps : List (ActorCaller × ActorRet Msg))
      (n : Next) (w : Serving State Msg)
      → OneShot (posting ps n) w.seen
      → OneShotAt w
      → OneShotAt (send_ret c r rs ps n w)
  send_ret-OneShot c r [] ps n w next s = next
  send_ret-OneShot c r (q ∷ qs) ps n w next s = s

  deliver-OneShot :
      (g : Goroutine Msg) (w : Serving State Msg)
      → w.goroutine ≡ g
      → OneShotAt w
      → OneShotAt (deliver g w)
  deliver-OneShot (ready ticker out) w at s = s
  deliver-OneShot ended w at s = s
  deliver-OneShot (posting [] n) w at s =
      after_turn-OneShot n.flag n w.seen refl (subst (λ g. OneShot g w.seen) at s)
  deliver-OneShot (posting ((none, r) ∷ ps) n) w at s = s
  deliver-OneShot (posting ((some c, r) ∷ ps) n) w at s =
      send_ret-OneShot c r (w.channels.boxes c) ps n w (subst (λ g. OneShot g w.seen) at s) s

  move-OneShot :
      (codes : Codes) (w : Serving State Msg) (e : Move Msg)
      → OneShotAt w
      → OneShotAt (move h codes w e)
  unfolding move
  move-OneShot codes w (acts k b) s = s
  move-OneShot codes w (interrupts tm) s = turn-OneShot (interrupt tm) w.goroutine w refl s
  move-OneShot codes w receives s =
      receive_mail-OneShot w.channels.mailbox.items w.goroutine w refl s
  move-OneShot codes w fires_ticker s = turn-OneShot ticks w.goroutine w refl s
  move-OneShot codes w fires_timer s = turn-OneShot times_out w.goroutine w refl s
  move-OneShot codes w delivers s = deliver-OneShot w.goroutine w refl s

  run-OneShot :
      (codes : Codes) (w : Serving State Msg) (es : List (Move Msg))
      → OneShotAt w
      → OneShotAt (run h codes w es)
  unfolding run
  run-OneShot codes w [] s = s
  run-OneShot codes w (e ∷ es) s =
      run-OneShot codes (move h codes w e) es (move-OneShot codes w e s)

  -- An actor whose handler neither asks for a stop nor panics receives, under every interleaving with its
  -- callers, one event at most that is not a mail with no value behind it; and once it has received that, its
  -- goroutine sends the replies of that turn or has ended, and never stands in a `select` again.
  pub run-single :
      (ticker0 out0 : Option ℤ) (a : Actor State Msg) (codes : Codes) (k : ℕ) (es : List (Move Msg))
      → let w = run h codes (opened ticker0 out0 a k) es in
        (count_named w.seen ≤ 1) × (0 < count_named w.seen → IsLeaving w.goroutine)
  run-single ticker0 out0 a codes k es =
      elim (run-OneShot codes (opened ticker0 out0 a k) es (inl (refl, tt))) [
        | inl (none_yet, going) ↦ (omega arith, λ l. absurd (omega arith))
        | inr (one, leaving) ↦ (omega arith, λ l. leaving)
      ]
