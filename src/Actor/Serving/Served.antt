-- ===== src/Actor/Serving/Served.antt =====
-- Each call has one reply at most, the handler's result on its own message, where the handler sends no
-- replies itself; and no reply blocks the actor.
use mathlib.Core.List.{Memᴰ}
use mathlib.Core.List.Memᴰ
use vlgo.Shared.{
  ℕ, ◌+◌, ◌≤◌, ◌≡◌, refl, ap, subst, List, [], ◌∷◌, ◌++◌, Option, none, some, arith, length,
  length-append, length_zero, All, ℤ,
}
use vlgo.Actor.{ActorRet, Mail, Handler, Actor}
use vlgo.Actor.Caller.{Codes}
use vlgo.Actor.Serving.{
  Client, sending, awaiting, returned, outside, crashed, gave_up, casting, Goroutine, ready,
  posting, ended, Serving, Move, run, opened,
}
use vlgo.Actor.Serving.Answers.{replies_to}
use vlgo.Actor.Serving.Counting.{calls_to}
use vlgo.Actor.Serving.Acts.{Honest}
use vlgo.Actor.Serving.Clients.{AllHonest}
use vlgo.Actor.Serving.Following.{mails, posting_to}
use vlgo.Actor.{ActorCtx, with_caller}
use vlgo.Actor.Serving.Counting.{calls_to-append}
use vlgo.Actor.Serving.Reachable.{run-opened-Inv}
use vlgo.Actor.Serving.Quiet.{SendsNothing, same_call}
use vlgo.Actor.Serving.Exactly.{Exact, run-Exact}

length-middle :
    {A : Type 0} (xs ys zs : List A)
    → length (xs ++ (ys ++ zs)) ≡ length xs + (length ys + length zs)
length-middle xs ys zs = omega (arith, length-append xs (ys ++ zs), length-append ys zs)

-- What a call that has returned a reply has returned.
abbrev pub Served : {State Msg : Type 0} → Handler State Msg → ActorCtx → Client Msg → Type 0
Served {State} h ctx (returned c v r) =
    (s : State) × ((h.handle (with_caller ctx (some c)) v s).ret ≡ some r)
Served h ctx t = Unit

-- The next send of a reply, if it is to a caller's channel, finds that empty.
abbrev pub Unblocked : {Msg : Type 0} → (ℕ → List (ActorRet Msg)) → Goroutine Msg → Type 0
Unblocked boxes (posting ((some c, r) ∷ ps) n) = boxes c ≡ []
Unblocked boxes g = Unit

module _ {State Msg : Type 0} (h : Handler State Msg) (quiet : SendsNothing h)
    (ticker0 out0 : Option ℤ) (a : Actor State Msg) (codes : Codes) (k : ℕ)
    (es : List (Move Msg)) where
  abbrev pub reached : Serving State Msg
  reached = run h codes (opened ticker0 out0 a k) es

  pub reached-Exact : Exact h quiet a.ctx reached.actor reached.seen
  reached-Exact = run-Exact h quiet a.ctx codes (opened ticker0 out0 a k) es (record {
    same = refl;
    bounded = λ c. omega arith;
    handled = λ c r d. absurd (Memᴰ.not-nil d);
  })

  seen_sent : (m : Mail Msg) → Memᴰ m (mails reached.seen) → Memᴰ m reached.channels.sent
  seen_sent m d =
      subst (Memᴰ m) (run-opened-Inv h ticker0 out0 a codes k es).fifo
        (Memᴰ.append_left reached.channels.mailbox.items d)

  -- One reply at most for each channel.
  replies_once : (c : ℕ) → length (replies_to c reached.actor.effects) ≤ 1
  replies_once c =
      let i = run-opened-Inv h ticker0 out0 a codes k es in
      omega (
        arith,
        reached-Exact.bounded c,
        i.once c,
        ap (calls_to c) i.fifo,
        calls_to-append c (mails reached.seen) reached.channels.mailbox.items,
      )

  Honest-Served :
      (t : Client Msg)
      → Honest (λ c. replies_to c reached.actor.effects) reached.channels.sent t
      → Served h a.ctx t
  Honest-Served outside b = tt
  Honest-Served crashed b = tt
  Honest-Served (sending c v) b = tt
  Honest-Served (awaiting c v) b = tt
  Honest-Served (gave_up e) b = tt
  Honest-Served (casting v) b = tt
  Honest-Served (returned c v r) (sent, made) =
      let (u, s, there, good) = reached-Exact.handled c r made in
      let i = run-opened-Inv h ticker0 out0 a codes k es in
      let same =
        same_call c u v reached.channels.sent (omega (arith, i.once c)) (seen_sent _ there) sent in
      (s, subst (λ x. (h.handle (with_caller a.ctx (some c)) x s).ret ≡ some r) same good)

  AllHonest-Served :
      (ts : List (Client Msg))
      → AllHonest (λ c. replies_to c reached.actor.effects) reached.channels.sent ts
      → All (Served h a.ctx) ts
  AllHonest-Served [] b = tt
  AllHonest-Served (t ∷ ts) b = (Honest-Served t b.0, AllHonest-Served ts b.1)

  posting_to-Unblocked :
      (g : Goroutine Msg)
      → ((c : ℕ) → length (reached.channels.boxes c) + length (posting_to c g) ≤ 1)
      → Unblocked reached.channels.boxes g
  posting_to-Unblocked (posting ((some c, r) ∷ ps) n) room =
      length_zero (reached.channels.boxes c) (ground (arith, room c))
  posting_to-Unblocked (ready ticker out) room = tt
  posting_to-Unblocked ended room = tt
  posting_to-Unblocked (posting [] n) room = tt
  posting_to-Unblocked (posting ((none, r) ∷ ps) n) room = tt

  -- Where the handler's methods send no replies themselves, under every interleaving: each channel has been
  -- sent one reply at most, and each call that has returned a reply has returned a result of the handler on the
  -- call's own message, made in the context of that call.
  pub run-Served :
      All (Served h a.ctx) reached.clients
      × ((c : ℕ) → length (replies_to c reached.actor.effects) ≤ 1)
  run-Served =
      let i = run-opened-Inv h ticker0 out0 a codes k es in
      (AllHonest-Served reached.clients i.honest, replies_once)

  -- Where the handler's methods send no replies themselves, the actor's send of a reply to a caller's
  -- channel finds the channel empty, under every interleaving, so that it never blocks.
  pub run-Unblocked : Unblocked reached.channels.boxes reached.goroutine
  run-Unblocked = posting_to-Unblocked reached.goroutine (λ c.
      let s = reached.channels in
      omega (
        arith,
        replies_once c,
        ap length ((run-opened-Inv h ticker0 out0 a codes k es).delivery c),
        length-middle (s.taken c) (s.boxes c) (posting_to c reached.goroutine),
      ))
