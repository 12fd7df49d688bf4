-- ===== src/Actor/Serving/Exactly.antt =====
-- The replies that the actor has made, where the handler sends none itself: every turn adds one at most to
-- each channel, the handler's result.
use mathlib.Core.List.{Memᴰ}
use mathlib.Core.List.Memᴰ
use vlgo.Shared.{
  ℕ, ◌≤◌, ◌≡◌, refl, sym, ap, subst, ◌∙◌, inl, inr, List, [], ◌∷◌, ◌++◌, Option, none, some, arith,
  length, length-append,
}
use vlgo.Actor.{
  ActorRet, ActorCaller, Mail, Handler, Actor, Next, Event, interrupt, ticks, times_out, mail,
  do_loop,
}
use vlgo.Actor.Caller.{Codes}
use vlgo.Actor.Serving.{
  Goroutine, ready, posting, ended, Serving, Move, acts, interrupts, receives, fires_ticker,
  fires_timer, delivers, behind_turn, turn, receive_mail, send_ret, deliver, move, run,
}
use vlgo.Actor.Serving.Answers.{replies_to, replies_to-append, Answers}
use vlgo.Actor.Serving.Counting.{calls_to}
use vlgo.Actor.Serving.Following.{mails, mails-append}
use vlgo.Actor.{ActorCtx, with_caller}
use vlgo.Actor.Serving.Answers.{answer}
use vlgo.Actor.Serving.Handling.{TurnAnswers, do_loop-Answers}
use vlgo.Actor.Serving.Counting.{calls_to-append}
use vlgo.Actor.Serving.Quiet.{SendsNothing, own_sends-nil, Handles, answer-IsAnswer}

module _ {State Msg : Type 0} (h : Handler State Msg) where
  -- A step leaves the actor alone, or makes one turn of it.
  pub data Turned (w w' : Serving State Msg) : Type 0 where
    stays : w'.actor ≡ w.actor → w'.seen ≡ w.seen → Turned w w'
    turns :
        (e : Event Msg) → w'.seen ≡ w.seen ++ e ∷ [] → Answers h w.actor e w'.actor → Turned w w'

  behind_turn-Turned :
      (e : Event Msg) (w : Serving State Msg) (o : Option (Next × Actor State Msg))
      → TurnAnswers h w.actor e o
      → Turned w (behind_turn e o w)
  behind_turn-Turned e w none s = stays refl refl
  behind_turn-Turned e w (some (n, a)) s = turns e refl s

  turn-Turned :
      (e : Event Msg) (g : Goroutine Msg) (w : Serving State Msg) → Turned w (turn h e g w)
  turn-Turned e (ready ticker out) w =
      behind_turn-Turned e w (do_loop h ticker out e w.actor)
        (do_loop-Answers h w.actor ticker out e)
  turn-Turned e (posting ps n) w = stays refl refl
  turn-Turned e ended w = stays refl refl

  receive_mail-Turned :
      (ms : List (Mail Msg)) (g : Goroutine Msg) (w : Serving State Msg)
      → Turned w (receive_mail h ms g w)
  receive_mail-Turned [] g w = stays refl refl
  receive_mail-Turned (m ∷ ms) ended w = stays refl refl
  receive_mail-Turned (m ∷ ms) (posting ps n) w = stays refl refl
  receive_mail-Turned (m ∷ ms) (ready ticker out) w =
      taken (do_loop h ticker out (mail m) w.actor) (do_loop-Answers h w.actor ticker out (mail m))
    where
      taken :
          (o : Option (Next × Actor State Msg))
          → TurnAnswers h w.actor (mail m) o
          → Turned w (
              behind_turn (mail m) o (record w {
                channels = record w.channels { mailbox = record w.channels.mailbox { items = ms } };
              }))
      taken none s = stays refl refl
      taken (some (n, a)) s = turns (mail m) refl s

  send_ret-Turned :
      (c : ℕ) (r : ActorRet Msg) (rs : List (ActorRet Msg)) (ps : List (ActorCaller × ActorRet Msg))
      (n : Next) (w : Serving State Msg)
      → Turned w (send_ret c r rs ps n w)
  send_ret-Turned c r [] ps n w = stays refl refl
  send_ret-Turned c r (q ∷ qs) ps n w = stays refl refl

  deliver-Turned : (g : Goroutine Msg) (w : Serving State Msg) → Turned w (deliver g w)
  deliver-Turned (ready ticker out) w = stays refl refl
  deliver-Turned ended w = stays refl refl
  deliver-Turned (posting [] n) w = stays refl refl
  deliver-Turned (posting ((none, r) ∷ ps) n) w = stays refl refl
  deliver-Turned (posting ((some c, r) ∷ ps) n) w = send_ret-Turned c r (w.channels.boxes c) ps n w

  pub move-Turned :
      (codes : Codes) (w : Serving State Msg) (e : Move Msg) → Turned w (move h codes w e)
  unfolding move
  move-Turned codes w (acts k b) = stays refl refl
  move-Turned codes w (interrupts tm) = turn-Turned (interrupt tm) w.goroutine w
  move-Turned codes w receives = receive_mail-Turned w.channels.mailbox.items w.goroutine w
  move-Turned codes w fires_ticker = turn-Turned ticks w.goroutine w
  move-Turned codes w fires_timer = turn-Turned times_out w.goroutine w
  move-Turned codes w delivers = deliver-Turned w.goroutine w

module _ {State Msg : Type 0} (h : Handler State Msg) (quiet : SendsNothing h)
    (ctx : ActorCtx) where
  -- What holds of the replies made.
  pub record Exact (a : Actor State Msg) (seen : List (Event Msg)) : Type 0 where
    pub same : a.ctx ≡ ctx
    pub bounded : (c : ℕ) → length (replies_to c a.effects) ≤ calls_to c (mails seen)
    pub handled :
        (c : ℕ) (r : ActorRet Msg)
        → Memᴰ r (replies_to c a.effects)
        → Handles h ctx (mails seen) c r

  Exact-turn :
      (a a' : Actor State Msg) (seen : List (Event Msg)) (e : Event Msg)
      → Answers h a e a'
      → Exact a seen
      → Exact a' (seen ++ e ∷ [])
  Exact-turn a a' seen e s x =
      let made : (c : ℕ) → replies_to c a'.effects ≡ replies_to c a.effects ++ answer h a c e = λ c.
        ap (replies_to c) s.effects
        ∙ replies_to-append c a.effects s.new
        ∙ ap (λ y. replies_to c a.effects ++ y)
            (s.answers c ∙ ap (λ y. y ++ answer h a c e) (own_sends-nil h quiet a e c)) in
      record {
        same = s.ctx ∙ x.same;
        bounded = λ c. omega (
          arith,
          ap length (made c),
          length-append (replies_to c a.effects) (answer h a c e),
          x.bounded c,
          (answer-IsAnswer h a e c).bounded,
          ap (calls_to c) (mails-append seen (e ∷ [])),
          calls_to-append c (mails seen) (mails (e ∷ [])),
        );
        handled = λ c r d.
            elim (Memᴰ.append_cases (replies_to c a.effects) (subst (Memᴰ r) (made c) d)) [
              | inl old ↦
                  let (v, st, there, good) = x.handled c r old in
                  (
                    v,
                    st,
                    subst (Memᴰ _) (sym (mails-append seen (e ∷ [])))
                        (Memᴰ.append_left (mails (e ∷ [])) there),
                    good,
                  )
              | inr new ↦
                  let (v, st, there, good) = (answer-IsAnswer h a e c).handled r new in
                  (
                    v,
                    st,
                    subst (Memᴰ _) (sym (mails-append seen (e ∷ [])))
                        (Memᴰ.append_right (mails seen) there),
                    subst (λ y. (h.handle (with_caller y (some c)) v st).ret ≡ some r) x.same good,
                  )
            ];
      }

  Exact-Turned :
      (w w' : Serving State Msg) → Turned h w w' → Exact w.actor w.seen → Exact w'.actor w'.seen
  Exact-Turned w w' (stays e f) x =
      subst (λ a. Exact a w'.seen) (sym e) (subst (Exact w.actor) (sym f) x)
  Exact-Turned w w' (turns e f s) x =
      subst (Exact w'.actor) (sym f) (Exact-turn w.actor w'.actor w.seen e s x)

  pub run-Exact :
      (codes : Codes) (w : Serving State Msg) (es : List (Move Msg))
      → Exact w.actor w.seen
      → Exact (run h codes w es).actor (run h codes w es).seen
  unfolding run
  run-Exact codes w [] x = x
  run-Exact codes w (e ∷ es) x =
      run-Exact codes (move h codes w e) es (Exact-Turned w _ (move-Turned h codes w e) x)
