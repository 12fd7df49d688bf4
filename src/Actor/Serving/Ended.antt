-- ===== src/Actor/Serving/Ended.antt =====
-- An actor whose goroutine has ended, with callers that do not know it.
use mathlib.Core.List.{Memᴰ}
use mathlib.Core.List.Memᴰ
use vlgo.Shared.{
  ℕ, ◌≤◌, ◌<◌, ◌≡◌, refl, sym, ap, subst, ◌∙◌, inl, inr, List, [], ◌∷◌, ◌++◌, append-nil,
  append_assoc, Option, arith, length_zero, All, ltb, Bool-cases, ℤ,
}
use vlgo.Actor.{Mail, Handler, Actor, Event}
use vlgo.Actor.Caller.{Codes}
use vlgo.Actor.Serving.{
  Client, sending, awaiting, returned, outside, crashed, gave_up, casting, ended, Serving, Move,
  acts, interrupts, receives, fires_ticker, fires_timer, delivers, turn, receive_mail, deliver,
  move, run, opened,
}
use vlgo.Actor.Serving.Answers.{replies_to}
use vlgo.Actor.Serving.Counting.{calls_to, calls_to-append}
use vlgo.Actor.Serving.Acts.{Honest}
use vlgo.Actor.Serving.Clients.{act_at-ActsAll}
use vlgo.Actor.Serving.Following.{mails}
use vlgo.Actor.Serving.Reachable.{run-Inv, run-opened-Inv}
use vlgo.Actor.Serving.Quiet.{SendsNothing}
use vlgo.Actor.Serving.Served.{reached-Exact}

module _ {State Msg : Type 0} where
  -- A step behind the end: the actor is as it was, and mails are accepted that nobody reads.
  pub record Idles (w w' : Serving State Msg) : Type 0 where
    pub still : w'.goroutine ≡ ended
    pub actor : w'.actor ≡ w.actor
    pub seen : w'.seen ≡ w.seen
    pub more : List (Mail Msg)
    pub items : w'.channels.mailbox.items ≡ w.channels.mailbox.items ++ more
    pub sent : w'.channels.sent ≡ w.channels.sent ++ more

  stays-Idles : (w w' : Serving State Msg) → w.goroutine ≡ ended → w' ≡ w → Idles w w'
  stays-Idles w w' e same = record {
    still = ap (λ x. x.goroutine) same ∙ e;
    actor = ap (λ x. x.actor) same;
    seen = ap (λ x. x.seen) same;
    more = [];
    items = ap (λ x. x.channels.mailbox.items) same ∙ sym (append-nil w.channels.mailbox.items);
    sent = ap (λ x. x.channels.sent) same ∙ sym (append-nil w.channels.sent);
  }

  Idles-trans : (w w' w'' : Serving State Msg) → Idles w w' → Idles w' w'' → Idles w w''
  Idles-trans w w' w'' i j = record {
    still = j.still;
    actor = j.actor ∙ i.actor;
    seen = j.seen ∙ i.seen;
    more = i.more ++ j.more;
    items =
        j.items
        ∙ ap (λ x. x ++ j.more) i.items
        ∙ append_assoc w.channels.mailbox.items i.more j.more;
    sent = j.sent ∙ ap (λ x. x ++ j.more) i.sent ∙ append_assoc w.channels.sent i.more j.more;
  }

  module _ (h : Handler State Msg) (codes : Codes) where
    receive_mail-ended :
        (ms : List (Mail Msg)) (w : Serving State Msg) → receive_mail h ms ended w ≡ w
    receive_mail-ended [] w = refl
    receive_mail-ended (m ∷ ms) w = refl

    move-Idles :
        (w : Serving State Msg) (e : Move Msg) → w.goroutine ≡ ended → Idles w (move h codes w e)
    unfolding move
    move-Idles w (acts k b) e =
        let s = act_at-ActsAll codes k b w.clients w.channels in
        record {
          still = e;
          actor = refl;
          seen = refl;
          more = s.more;
          items = s.items;
          sent = s.sent;
        }
    move-Idles w (interrupts tm) e = stays-Idles w _ e (ap (λ g. turn h (Event.interrupt tm) g w) e)
    move-Idles w receives e = stays-Idles w _ e (
        ap (λ g. receive_mail h w.channels.mailbox.items g w) e
        ∙ receive_mail-ended w.channels.mailbox.items w)
    move-Idles w fires_ticker e = stays-Idles w _ e (ap (λ g. turn h Event.ticks g w) e)
    move-Idles w fires_timer e = stays-Idles w _ e (ap (λ g. turn h Event.times_out g w) e)
    move-Idles w delivers e = stays-Idles w _ e (ap (λ g. deliver g w) e)

    run-Idles :
        (w : Serving State Msg) (es : List (Move Msg))
        → w.goroutine ≡ ended
        → Idles w (run h codes w es)
    unfolding run
    run-Idles w [] e = stays-Idles w w e refl
    run-Idles w (x ∷ es) e =
        let i = move-Idles w x e in
        Idles-trans w (move h codes w x) _ i (run-Idles (move h codes w x) es i.still)

-- A call that has returned a reply was made by one of the first `n` channels.
abbrev pub IsEarly : {Msg : Type 0} → ℕ → Client Msg → Type 0
IsEarly n (returned c v r) = c < n
IsEarly n t = Unit

module _ {State Msg : Type 0} (h : Handler State Msg) (quiet : SendsNothing h)
    (ticker0 out0 : Option ℤ) (a : Actor State Msg) (codes : Codes) (k : ℕ)
    (es : List (Move Msg)) where
  abbrev reached : Serving State Msg
  reached = run h codes (opened ticker0 out0 a k) es

  -- No reply has been made to a channel that is not yet made.
  no_replies : (c : ℕ) → reached.channels.next ≤ c → replies_to c reached.actor.effects ≡ []
  no_replies c new =
      let i = run-opened-Inv h ticker0 out0 a codes k es in
      length_zero _ (
        omega (
          arith,
          (reached-Exact h quiet ticker0 out0 a codes k es).bounded c,
          i.fresh c new,
          ap (calls_to c) i.fifo,
          calls_to-append c (mails reached.seen) reached.channels.mailbox.items,
        ))

  Honest-IsEarly :
      (sent : List (Mail Msg)) (t : Client Msg)
      → Honest (λ c. replies_to c reached.actor.effects) sent t
      → IsEarly reached.channels.next t
  Honest-IsEarly sent outside b = tt
  Honest-IsEarly sent crashed b = tt
  Honest-IsEarly sent (sending c v) b = tt
  Honest-IsEarly sent (awaiting c v) b = tt
  Honest-IsEarly sent (gave_up e) b = tt
  Honest-IsEarly sent (casting v) b = tt
  Honest-IsEarly sent (returned c v r) (accepted, made) =
      elim (Bool-cases (ltb c reached.channels.next)) [
        | inl early ↦ ground arith
        | inr late ↦ absurd (Memᴰ.not-nil (subst (Memᴰ r) (no_replies c (ground arith)) made))
      ]

  AllHonest-IsEarly :
      (sent : List (Mail Msg)) (ts : List (Client Msg))
      → All (Honest (λ c. replies_to c reached.actor.effects) sent) ts
      → All (IsEarly reached.channels.next) ts
  AllHonest-IsEarly sent [] b = tt
  AllHonest-IsEarly sent (t ∷ ts) b = (Honest-IsEarly sent t b.0, AllHonest-IsEarly sent ts b.1)

  -- Once the actor's goroutine has ended, whatever its callers do: the actor and the events it has received
  -- stay as they are, the mails accepted later all stay in the mailbox, and, where the handler sends no
  -- replies itself, each call that has returned a reply was made before the end: a call made later
  -- returns only by one of its timeouts.
  pub run-Idles_late :
      (later : List (Move Msg))
      → reached.goroutine ≡ ended
      → let w = run h codes reached later in
        Idles reached w × All (IsEarly reached.channels.next) w.clients
  run-Idles_late later e =
      let w = run h codes reached later in
      let i = run-Idles h codes reached later e in
      let j =
        run-Inv h ticker0 out0 a codes reached later (run-opened-Inv h ticker0 out0 a codes k es) in
      (
        i,
        AllHonest-IsEarly w.channels.sent w.clients (
            subst (λ x. All (Honest (λ c. replies_to c x.effects) w.channels.sent) w.clients)
              i.actor j.honest),
      )
