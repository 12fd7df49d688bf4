-- ===== src/Actor/Serving/Working.antt =====
-- An actor whose handler asks for a stop at each message, or panics, and sends nothing itself: its goroutine
-- alone, from wherever its callers have left it, empties the mailbox.
use vlgo.Shared.{
  ℕ, zero, suc, ◌+◌, ◌-◌, ◌*◌, ◌≤◌, ◌≡◌, refl, sym, ap, subst, true, List, [], ◌∷◌, Option, none,
  some, arith, length, drop, All, ℤ,
}
use vlgo.Actor.{ActorRet, ActorCaller, Mail, Handler, Actor, Next, mail}
use vlgo.Actor.Loop.Turns.{do_loop_lem}
use vlgo.Actor.Caller.{Codes}
use vlgo.Actor.Serving.{
  Goroutine, ready, posting, ended, Serving, Move, receives, delivers, behind_turn, receive_mail,
  send_ret, deliver, after_turn, posts_of, move,
}
use vlgo.Actor.Serving.Served.{Unblocked}
use vlgo.Actor.Serving.Single.{IsGoing}
use vlgo.Actor.Serving.Bounded.{IsRequest, IsBounded}
use vlgo.Actor.Serving.Posts.{IsDue}
use vlgo.Actor.Serving.Draining.{IsDueAt}
use vlgo.Actor.Serving.Keeping.{KeepsLoop, mail_flag}

module _ {Msg : Type 0} where
  -- The goroutine's own next channel operation.
  abbrev pub own_move : Goroutine Msg → Move Msg
  own_move (ready ticker out) = receives
  own_move (posting ps n) = delivers
  own_move ended = delivers

  -- How many operations the goroutine needs for a turn that it is in.
  abbrev pub left_of : Goroutine Msg → ℕ
  left_of (ready ticker out) = 0
  left_of (posting ps n) = suc (length ps)
  left_of ended = 0

  abbrev pub IsReady : Goroutine Msg → Type 0
  IsReady (ready ticker out) = Unit
  IsReady (posting ps n) = ⊥
  IsReady ended = ⊥

  IsDue-short : (ps : List (ActorCaller × ActorRet Msg)) → IsDue ps → length ps ≤ 1
  IsDue-short [] d = omega arith
  IsDue-short ((some c, r) ∷ []) d = omega arith
  IsDue-short ((some c, r) ∷ p ∷ ps) d = absurd d
  IsDue-short ((none, r) ∷ ps) d = absurd d

module _ {State Msg : Type 0} where
  -- Three operations for each mail: to receive it, to send its reply, and to end its turn.
  abbrev pub work_left : Serving State Msg → ℕ
  work_left w = 3 * length w.channels.mailbox.items + left_of w.goroutine

  -- One operation of the goroutine, if it keeps its loop.
  pub record Works (w w' : Serving State Msg) : Type 0 where
    pub going : IsGoing w'.goroutine
    pub less : work_left w' ≤ work_left w - 1
    pub sent : w'.channels.sent ≡ w.channels.sent

module _ {State Msg : Type 0} (h : Handler State Msg) (codes : Codes) where
  abbrev pub own_moves : ℕ → Serving State Msg → List (Move Msg)
  own_moves zero w = []
  own_moves (suc n) w = own_move w.goroutine ∷ own_moves n (move h codes w (own_move w.goroutine))

  behind_turn-Works :
      (m : Mail Msg) (ms : List (Mail Msg)) (ticker out : Option ℤ) (w v : Serving State Msg)
      (n : Next) (a : Actor State Msg)
      → w.channels.mailbox.items ≡ m ∷ ms
      → v.channels.mailbox.items ≡ ms
      → v.channels.sent ≡ w.channels.sent
      → n.flag ≡ true
      → IsDueAt (behind_turn (mail m) (some (n, a)) v).goroutine
      → Works w (behind_turn (mail m) (some (n, a)) v)
  behind_turn-Works m ms ticker out w v n a full rest same on due = record {
    going = on;
    less = omega (
      arith,
      ap length full,
      ap length rest,
      IsDue-short (posts_of (drop (length v.actor.effects) a.effects)) due,
    );
    sent = same;
  }

  receive_mail-Works :
      (ms : List (Mail Msg)) (ticker out : Option ℤ) (w : Serving State Msg)
      → w.goroutine ≡ ready ticker out
      → w.channels.mailbox.items ≡ ms
      → KeepsLoop h
      → All IsRequest ms
      → IsDueAt (receive_mail h ms (ready ticker out) w).goroutine
      → Works w (receive_mail h ms (ready ticker out) w)
  receive_mail-Works [] ticker out w at all keeps called due = record {
    going = subst IsGoing (sym at) tt;
    less = omega (arith, ap length all, ap left_of at);
    sent = refl;
  }
  receive_mail-Works (m ∷ ms) ticker out w at all keeps called due =
      let v : Serving State Msg = record w {
        channels = record w.channels { mailbox = record w.channels.mailbox { items = ms } };
      } in
      subst (λ o. IsDueAt (behind_turn (mail m) o v).goroutine → Works w (behind_turn (mail m) o v))
        (sym ((do_loop_lem h ticker out w.actor).0 m))
        (behind_turn-Works m ms ticker out w v _ _ all refl refl
          (mail_flag h keeps ticker m w.actor called.0))
        due

  after_turn-ready : (n : Next) → n.flag ≡ true → after_turn {Msg = Msg} n ≡ ready n.ticker n.timer
  after_turn-ready n on = rw on refl

  after_turn-Works :
      (n : Next) (w : Serving State Msg)
      → w.goroutine ≡ posting [] n
      → n.flag ≡ true
      → Works w (record w { goroutine = after_turn n })
  after_turn-Works n w at on = record {
    going = rw on tt;
    less = omega (arith, ap left_of at, ap left_of (after_turn-ready n on));
    sent = refl;
  }

  send_ret-Works :
      (c : ℕ) (r : ActorRet Msg) (rs : List (ActorRet Msg)) (ps : List (ActorCaller × ActorRet Msg))
      (n : Next) (w : Serving State Msg)
      → w.goroutine ≡ posting ((some c, r) ∷ ps) n
      → n.flag ≡ true
      → rs ≡ []
      → Works w (send_ret c r rs ps n w)
  send_ret-Works c r (q ∷ qs) ps n w at on empty = absurd (cc)
  send_ret-Works c r [] ps n w at on empty = record {
    going = on;
    less = omega (arith, ap left_of at);
    sent = refl;
  }

  deliver-Works :
      (g : Goroutine Msg) (w : Serving State Msg)
      → w.goroutine ≡ g
      → IsGoing g
      → IsDueAt g
      → Unblocked w.channels.boxes g
      → ¬ (IsReady g)
      → Works w (deliver g w)
  deliver-Works (ready ticker out) w at going due free busy = absurd (busy tt)
  deliver-Works ended w at going due free busy = absurd going
  deliver-Works (posting [] n) w at going due free busy = after_turn-Works n w at going
  deliver-Works (posting ((none, r) ∷ ps) n) w at going due free busy = absurd due
  deliver-Works (posting ((some c, r) ∷ ps) n) w at going due free busy =
      send_ret-Works c r (w.channels.boxes c) ps n w at going free

  pub own_move-Works :
      (g : Goroutine Msg) (w : Serving State Msg)
      → w.goroutine ≡ g
      → KeepsLoop h
      → IsBounded w.channels
      → IsGoing g
      → IsDueAt g
      → Unblocked w.channels.boxes g
      → IsDueAt (move h codes w (own_move g)).goroutine
      → Works w (move h codes w (own_move g))
  unfolding move
  own_move-Works (ready ticker out) w at keeps bounded going due free next =
      subst
        (λ g.
          IsDueAt (receive_mail h w.channels.mailbox.items g w).goroutine
          → Works w (receive_mail h w.channels.mailbox.items g w))
        (sym at)
        (receive_mail-Works w.channels.mailbox.items ticker out w at refl keeps bounded.callers)
        next
  own_move-Works (posting ps n) w at keeps bounded going due free next =
      subst (λ g. Works w (deliver g w)) (sym at)
        (deliver-Works (posting ps n) w at going due free (λ x. x))
  own_move-Works ended w at keeps bounded going due free next = absurd going
