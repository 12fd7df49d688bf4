-- ===== src/Actor/Serving/Moves.antt =====
-- Every step keeps what holds of a running actor and its callers.
use mathlib.Core.List.{Memᴰ}
use mathlib.Core.List.Memᴰ
use vlgo.Shared.{
  ℕ, ◌≡◌, refl, sym, ap, subst, ◌∙◌, inl, inr, List, [], ◌∷◌, ◌++◌, append-nil, append_assoc,
  Option, none, some, ◌==◌, Bool-cases, arith, length, drop, drop-append_left, ℤ,
}
use vlgo.Actor.{
  ActorRet, ActorCaller, Mail, Handler, Actor, Next, Event, interrupt, ticks, times_out, mail,
  do_loop,
}
use vlgo.Actor.Loop.{run_events}
use vlgo.Actor.Caller.{Codes}
use vlgo.Actor.Serving.{
  Goroutine, ready, posting, ended, posts_of, Serving, Move, acts, interrupts, receives,
  fires_ticker, fires_timer, delivers, behind_turn, turn, receive_mail, after_turn, send_ret,
  deliver, put_box, move,
}
use vlgo.Actor.Serving.Answers.{replies_to, replies_to-append, Answers}
use vlgo.Actor.Loop.Turns.{do_loop_lem}
use vlgo.Actor.Serving.Following.{
  mails, mails-append, posts_to, posts_to-posts_of, posting_to, stands, run_events-snoc,
}
use vlgo.Actor.Serving.Handling.{TurnAnswers, do_loop-Answers}
use vlgo.Actor.Serving.Invariant.{replied, Sound, Inv, act_at-Inv, AllHonest-more}

module _ {State Msg : Type 0} (h : Handler State Msg) (ticker0 out0 : Option ℤ)
    (a0 : Actor State Msg) where
  -- A turn, for an event whose mail has been taken out of the mailbox.
  turn-Inv :
      (ticker out : Option ℤ) (e : Event Msg) (n : Next) (a : Actor State Msg)
      (w : Serving State Msg)
      → Sound h ticker0 out0 a0 (mails (e ∷ [])) (ready ticker out) w
      → do_loop h ticker out e w.actor ≡ some (n, a)
      → Answers h w.actor e a
      → Inv h ticker0 out0 a0 (behind_turn e (some (n, a)) w)
  turn-Inv ticker out e n a w i d s =
      let grows : (c : ℕ)
          → replies_to c a.effects ≡ replied h ticker0 out0 a0 w c ++ replies_to c s.new =
        λ c. ap (replies_to c) s.effects ∙ replies_to-append c w.actor.effects s.new in
      let new_posts : drop (length w.actor.effects) a.effects ≡ s.new =
        ap (drop (length w.actor.effects)) s.effects ∙ drop-append_left w.actor.effects s.new in
      record {
        standing = run_events-snoc h ticker0 out0 ticker out _ w.actor a w.seen e n i.standing d;
        fifo =
            ap (λ x. x ++ w.channels.mailbox.items) (mails-append w.seen (e ∷ []))
            ∙ append_assoc (mails w.seen) (mails (e ∷ [])) w.channels.mailbox.items
            ∙ i.fifo;
        live = i.live;
        delivery = λ c.
            let got = w.channels.taken c in
            grows c
            ∙ ap (λ x. x ++ replies_to c s.new)
                (i.delivery c ∙ ap (λ x. got ++ x) (append-nil (w.channels.boxes c)))
            ∙ append_assoc got (w.channels.boxes c) (replies_to c s.new)
            ∙ ap (λ x. got ++ (w.channels.boxes c ++ x))
                (sym (ap (λ x. posts_to c (posts_of x)) new_posts ∙ posts_to-posts_of c s.new));
        honest =
            AllHonest-more h ticker0 out0 a0 (replied h ticker0 out0 a0 w) _ w.channels.sent
              w.clients
              (λ c r there.
                subst (Memᴰ r) (sym (grows c)) (Memᴰ.append_left (replies_to c s.new) there))
              i.honest;
        once = i.once;
        fresh = i.fresh;
      }

  -- A turn on an event that is no mail, where the goroutine stands at `g`.
  event_turn-Inv :
      (e : Event Msg) (g : Goroutine Msg) (w : Serving State Msg)
      → w.goroutine ≡ g
      → mails (e ∷ []) ≡ []
      → Inv h ticker0 out0 a0 w
      → Inv h ticker0 out0 a0 (turn h e g w)
  event_turn-Inv e ended w q none_there i = i
  event_turn-Inv e (posting ps n) w q none_there i = i
  event_turn-Inv e (ready ticker out) w q none_there i =
      turned (do_loop h ticker out e w.actor) refl (do_loop-Answers h w.actor ticker out e)
    where
      turned :
          (o : Option (Next × Actor State Msg))
          → do_loop h ticker out e w.actor ≡ o
          → TurnAnswers h w.actor e o
          → Inv h ticker0 out0 a0 (behind_turn e o w)
      turned none d s = i
      turned (some (n, a)) d s =
          turn-Inv ticker out e n a w
            (subst (λ ms. Sound h ticker0 out0 a0 ms (ready ticker out) w) (sym none_there)
              (subst (λ x. Sound h ticker0 out0 a0 [] x w) q i))
            d s

  -- The receive of a mail.
  abbrev popped : List (Mail Msg) → Serving State Msg → Serving State Msg
  popped ms w = record w {
    channels = record w.channels { mailbox = record w.channels.mailbox { items = ms } };
  }

  receive_mail-Inv :
      (items : List (Mail Msg)) (g : Goroutine Msg) (w : Serving State Msg)
      → w.channels.mailbox.items ≡ items
      → w.goroutine ≡ g
      → Inv h ticker0 out0 a0 w
      → Inv h ticker0 out0 a0 (receive_mail h items g w)
  receive_mail-Inv [] g w p q i = i
  receive_mail-Inv (m ∷ ms) ended w p q i = i
  receive_mail-Inv (m ∷ ms) (posting ps n) w p q i = i
  receive_mail-Inv (m ∷ ms) (ready ticker out) w p q i =
      let d = (do_loop_lem h ticker out w.actor).0 m in
      subst (λ o. Inv h ticker0 out0 a0 (behind_turn (mail m) o (popped ms w))) (sym d)
        (turn-Inv ticker out (mail m) _ _ (popped ms w)
          (record {
            standing =
                subst
                  (λ x.
                    stands x w.actor
                    ≡ run_events h ticker0 out0 (record a0 { effects = [] }) w.seen)
                  q i.standing;
            fifo = ap (λ x. mails w.seen ++ x) (sym p) ∙ i.fifo;
            live = i.live;
            delivery = λ c.
                i.delivery c
                ∙ ap (λ x. w.channels.taken c ++ (w.channels.boxes c ++ posting_to c x)) q;
            honest = i.honest;
            once = i.once;
            fresh = i.fresh;
          })
          d
          (subst (TurnAnswers h w.actor (mail m)) d
            (do_loop-Answers h w.actor ticker out (mail m))))

  -- A change of the goroutine and of the channels of the replies only.
  posts-Inv :
      (g : Goroutine Msg) (boxes : ℕ → List (ActorRet Msg)) (w : Serving State Msg)
      → stands g w.actor ≡ stands w.goroutine w.actor
      → ((c : ℕ) → boxes c ++ posting_to c g ≡ w.channels.boxes c ++ posting_to c w.goroutine)
      → Inv h ticker0 out0 a0 w
      → Inv h ticker0 out0 a0
          (record w { goroutine = g; channels = record w.channels { boxes = boxes } })
  posts-Inv g boxes w same posts i = record {
    standing = same ∙ i.standing;
    fifo = i.fifo;
    live = i.live;
    delivery = λ c. i.delivery c ∙ ap (λ x. w.channels.taken c ++ x) (sym (posts c));
    honest = i.honest;
    once = i.once;
    fresh = i.fresh;
  }

  send_ret-Inv :
      (c : ℕ) (r : ActorRet Msg) (rs : List (ActorRet Msg)) (ps : List (ActorCaller × ActorRet Msg))
      (n : Next) (w : Serving State Msg)
      → w.channels.boxes c ≡ rs
      → w.goroutine ≡ posting ((some c, r) ∷ ps) n
      → Inv h ticker0 out0 a0 w
      → Inv h ticker0 out0 a0 (send_ret c r rs ps n w)
  send_ret-Inv c r (q ∷ qs) ps n w e g i = i
  send_ret-Inv c r [] ps n w e g i =
      posts-Inv (posting ps n) (put_box w.channels.boxes c (r ∷ [])) w
        (ap (λ x. stands x w.actor) (sym g))
        (λ d. elim (Bool-cases (c == d)) [
          | inl same ↦
              rw (g, same)
                (ap (λ x. x ++ (r ∷ posts_to d ps)) (sym (ap w.channels.boxes (ground arith) ∙ e)))
          | inr apart ↦ rw (g, apart) refl
        ])
        i

  stands-after_turn :
      (n : Next) (a : Actor State Msg) → stands (after_turn n) a ≡ stands (posting [] n) a
  stands-after_turn n a = elim (Bool-cases n.flag) [ inl on ↦ rw on refl | inr off ↦ rw off refl ]

  posting_to-after_turn : (c : ℕ) (n : Next) → posting_to {Msg = Msg} c (after_turn n) ≡ []
  posting_to-after_turn c n = elim (Bool-cases n.flag) [
    | inl on ↦ rw on refl
    | inr off ↦ rw off refl
  ]

  deliver-Inv :
      (g : Goroutine Msg) (w : Serving State Msg)
      → w.goroutine ≡ g
      → Inv h ticker0 out0 a0 w
      → Inv h ticker0 out0 a0 (deliver g w)
  deliver-Inv (ready ticker out) w e i = i
  deliver-Inv ended w e i = i
  deliver-Inv (posting [] n) w e i =
      posts-Inv (after_turn n) w.channels.boxes w
        (stands-after_turn n w.actor ∙ ap (λ x. stands x w.actor) (sym e))
        (λ c.
          ap (λ x. w.channels.boxes c ++ x) (posting_to-after_turn c n ∙ ap (posting_to c) (sym e)))
        i
  deliver-Inv (posting ((none, r) ∷ ps) n) w e i = i
  deliver-Inv (posting ((some c, r) ∷ ps) n) w e i =
      send_ret-Inv c r (w.channels.boxes c) ps n w refl e i

  pub move-Inv :
      (codes : Codes) (w : Serving State Msg) (e : Move Msg)
      → Inv h ticker0 out0 a0 w
      → Inv h ticker0 out0 a0 (move h codes w e)
  unfolding move
  move-Inv codes w (acts k b) i = act_at-Inv h ticker0 out0 a0 codes k b w i
  move-Inv codes w (interrupts tm) i = event_turn-Inv (interrupt tm) w.goroutine w refl refl i
  move-Inv codes w receives i = receive_mail-Inv w.channels.mailbox.items w.goroutine w refl refl i
  move-Inv codes w fires_ticker i = event_turn-Inv ticks w.goroutine w refl refl i
  move-Inv codes w fires_timer i = event_turn-Inv times_out w.goroutine w refl refl i
  move-Inv codes w delivers i = deliver-Inv w.goroutine w refl i
