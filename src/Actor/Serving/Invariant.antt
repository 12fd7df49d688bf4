-- ===== src/Actor/Serving/Invariant.antt =====
-- What holds of a running actor and its callers between two steps: the actor is at a run of the sequential
-- model on the events received, its mails are the first of those accepted, and no reply is lost or goes
-- to another channel.
use mathlib.Core.List.{Memᴰ}
use mathlib.Core.List.Memᴰ
use vlgo.Shared.{
  ℕ, ◌+◌, ◌≤◌, ◌≡◌, sym, ap, subst, ◌∙◌, false, List, [], ◌∷◌, ◌++◌, append_assoc, Option, ℤ,
}
use vlgo.Actor.{ActorRet, Mail, Handler, Actor}
use vlgo.Actor.Loop.{run_events}
use vlgo.Actor.Caller.{Codes}
use vlgo.Actor.Serving.{
  with_clients, Client, sending, awaiting, returned, outside, crashed, gave_up, casting, Act,
  Goroutine, Serving, act_at,
}
use vlgo.Actor.Serving.Answers.{replies_to}
use vlgo.Actor.Serving.Counting.{calls_to, sending_all, Counts-once}
use vlgo.Actor.Serving.Acts.{Honest}
use vlgo.Actor.Serving.Clients.{AllHonest, act_at-ActsAll}
use vlgo.Actor.Serving.Following.{mails, posting_to, stands}

module _ {State Msg : Type 0} (h : Handler State Msg) (ticker0 out0 : Option ℤ)
    (a0 : Actor State Msg) where
  abbrev pub replied : Serving State Msg → ℕ → List (ActorRet Msg)
  replied w c = replies_to c w.actor.effects

  -- `front` has been taken out of the mailbox, and is not yet among the events seen.
  pub record Sound (front : List (Mail Msg)) (g : Goroutine Msg) (w : Serving State Msg)
      : Type 0 where
    pub standing : stands g w.actor ≡ run_events h ticker0 out0 (record a0 { effects = [] }) w.seen
    pub fifo : mails w.seen ++ (front ++ w.channels.mailbox.items) ≡ w.channels.sent
    pub live : w.channels.mailbox.closed ≡ false
    pub delivery :
        (c : ℕ)
        → replies_to c w.actor.effects
          ≡ w.channels.taken c ++ (w.channels.boxes c ++ posting_to c g)
    pub honest : AllHonest (λ c. replies_to c w.actor.effects) w.channels.sent w.clients
    pub once : (c : ℕ) → calls_to c w.channels.sent + sending_all c w.clients ≤ 1
    pub fresh :
        (c : ℕ) → w.channels.next ≤ c → calls_to c w.channels.sent + sending_all c w.clients ≡ 0

  -- What holds between two steps.
  abbrev pub Inv : Serving State Msg → Type 0
  Inv w = Sound [] w.goroutine w

  pub act_at-Inv :
      (codes : Codes) (k : ℕ) (b : Act Msg) (w : Serving State Msg)
      → Inv w
      → Inv (with_clients w (act_at codes k b w.clients w.channels))
  act_at-Inv codes k b w i =
      let s = act_at-ActsAll codes k b w.clients w.channels in
      let s' = (act_at codes k b w.clients w.channels).1 in
      let ts' = (act_at codes k b w.clients w.channels).0 in
      let (once, fresh) = Counts-once _ _ _ _ s.counts i.once i.fresh in
      record {
        standing = i.standing;
        fifo =
            ap (λ x. mails w.seen ++ x) s.items
            ∙ sym (append_assoc (mails w.seen) w.channels.mailbox.items s.more)
            ∙ ap (λ x. x ++ s.more) i.fifo
            ∙ sym s.sent;
        live = s.closed ∙ i.live;
        delivery = λ c.
            i.delivery c
            ∙ sym
                (append_assoc (w.channels.taken c) (w.channels.boxes c) (posting_to c w.goroutine))
            ∙ ap (λ x. x ++ posting_to c w.goroutine) (sym (s.taken c))
            ∙ append_assoc (s'.taken c) (s'.boxes c) (posting_to c w.goroutine);
        honest =
            s.honest (replied w)
              (λ c r there. subst (Memᴰ r) (sym (i.delivery c)) (
                Memᴰ.append_right (w.channels.taken c)
                  (Memᴰ.append_left (posting_to c w.goroutine) there)))
              i.honest;
        once = once;
        fresh = fresh;
      }

  Honest-more :
      (f g : ℕ → List (ActorRet Msg)) (sent : List (Mail Msg)) (t : Client Msg)
      → ((c : ℕ) (r : ActorRet Msg) → Memᴰ r (f c) → Memᴰ r (g c))
      → Honest f sent t
      → Honest g sent t
  Honest-more f g sent outside more b = b
  Honest-more f g sent crashed more b = b
  Honest-more f g sent (sending c v) more b = b
  Honest-more f g sent (awaiting c v) more b = b
  Honest-more f g sent (returned c v r) more b = (b.0, more c r b.1)
  Honest-more f g sent (gave_up e) more b = b
  Honest-more f g sent (casting v) more b = b

  pub AllHonest-more :
      (f g : ℕ → List (ActorRet Msg)) (sent : List (Mail Msg)) (ts : List (Client Msg))
      → ((c : ℕ) (r : ActorRet Msg) → Memᴰ r (f c) → Memᴰ r (g c))
      → AllHonest f sent ts
      → AllHonest g sent ts
  AllHonest-more f g sent [] more b = tt
  AllHonest-more f g sent (t ∷ ts) more b =
      (Honest-more f g sent t more b.0, AllHonest-more f g sent ts more b.1)
