-- ===== src/Actor/Serving/Answered.antt =====
-- Every call that waits for its reply gets it, where the handler asks for a stop at each message and has an
-- answer to it.
use mathlib.Core.List.{Memᴰ}
use mathlib.Core.List.Memᴰ
use vlgo.Shared.{
  ℕ, zero, suc, ◌≤◌, ◌≡◌, refl, sym, ap, subst, ◌∙◌, List, [], ◌∷◌, ◌++◌, append-nil, Option, none,
  some, arith, length, All, ℤ,
}
use vlgo.Actor.{
  ActorCtx, plain, ActorRet, ActorCaller, Mail, Handler, Actor, Next, mail, do_loop, with_caller,
}
use vlgo.Actor.Caller.{Codes}
use vlgo.Actor.Serving.{
  Client, awaiting, returned, Channels, Goroutine, ready, posting, ended, Serving, Move, proceeds,
  act, behind_turn, receive_mail, send_ret, deliver, move, run, opened,
}
use vlgo.Actor.Serving.Answers.{replies_to}
use vlgo.Actor.Serving.Acts.{Honest}
use vlgo.Actor.Serving.Clients.{AllHonest}
use vlgo.Actor.Serving.Following.{mails, posting_to}
use vlgo.Actor.Serving.Taken.{Fits}
use vlgo.Actor.Serving.Reachable.{run-opened-Inv, run-replies}
use vlgo.Actor.Serving.Quiet.{same_call}
use vlgo.Actor.Serving.Served.{reached-Exact}
use vlgo.Actor.Serving.Single.{IsGoing}
use vlgo.Actor.Serving.Posts.{IsSilent}
use vlgo.Actor.Serving.Keeping.{KeepsLoop}
use vlgo.Actor.Serving.Working.{own_move, own_moves, IsReady, work_left}
use vlgo.Actor.Serving.Emptying.{left_after, IsSilent-SendsNothing, own_moves-WorksOn, run-empties}
use vlgo.Actor.Serving.Replying.{RepliesAll, run-IsReplied}

module _ {State Msg : Type 0} (h : Handler State Msg) (codes : Codes) where
  -- The goroutine's own operations leave the callers alone.
  behind_turn-clients :
      (m : Mail Msg) (o : Option (Next × Actor State Msg)) (w : Serving State Msg)
      → (behind_turn (mail m) o w).clients ≡ w.clients
  behind_turn-clients m none w = refl
  behind_turn-clients m (some (n, a)) w = refl

  receive_mail-clients :
      (ms : List (Mail Msg)) (g : Goroutine Msg) (w : Serving State Msg)
      → (receive_mail h ms g w).clients ≡ w.clients
  receive_mail-clients [] g w = refl
  receive_mail-clients (m ∷ ms) (ready ticker out) w =
      behind_turn-clients m (do_loop h ticker out (mail m) w.actor) _
  receive_mail-clients (m ∷ ms) (posting ps n) w = refl
  receive_mail-clients (m ∷ ms) ended w = refl

  send_ret-clients :
      (c : ℕ) (r : ActorRet Msg) (rs : List (ActorRet Msg)) (ps : List (ActorCaller × ActorRet Msg))
      (n : Next) (w : Serving State Msg)
      → (send_ret c r rs ps n w).clients ≡ w.clients
  send_ret-clients c r [] ps n w = refl
  send_ret-clients c r (q ∷ qs) ps n w = refl

  deliver-clients : (g : Goroutine Msg) (w : Serving State Msg) → (deliver g w).clients ≡ w.clients
  deliver-clients (ready ticker out) w = refl
  deliver-clients ended w = refl
  deliver-clients (posting [] n) w = refl
  deliver-clients (posting ((none, r) ∷ ps) n) w = refl
  deliver-clients (posting ((some c, r) ∷ ps) n) w =
      send_ret-clients c r (w.channels.boxes c) ps n w

  own_move-clients :
      (g : Goroutine Msg) (w : Serving State Msg)
      → (move h codes w (own_move g)).clients ≡ w.clients
  unfolding move
  own_move-clients (ready ticker out) w =
      receive_mail-clients w.channels.mailbox.items w.goroutine w
  own_move-clients (posting ps n) w = deliver-clients w.goroutine w
  own_move-clients ended w = deliver-clients w.goroutine w

  own_moves-clients :
      (n : ℕ) (w : Serving State Msg) → (run h codes w (own_moves h codes n w)).clients ≡ w.clients
  unfolding run
  own_moves-clients zero w = refl
  own_moves-clients (suc n) w =
      own_moves-clients n (move h codes w (own_move w.goroutine)) ∙ own_move-clients w.goroutine w

module _ {State Msg : Type 0} (h : Handler State Msg) (ctx : ActorCtx) (codes : Codes) where
  -- The next operation of a goroutine that waits for a reply to a message with a value behind it returns that reply,
  -- and it is the handler's result on that message, in the context of that call.
  abbrev pub GetsReply : Channels Msg → Client Msg → Type 0
  GetsReply s (awaiting c (plain m)) =
      (r : ActorRet Msg) × (st : State) × ((act codes proceeds (awaiting c (plain m)) s).0
        ≡ returned c (plain m) r)
      × ((h.handle (with_caller ctx (some c)) (plain m) st).ret ≡ some r)
  GetsReply s t = Unit

module _ {State Msg : Type 0} (h : Handler State Msg) (ticker0 out0 : Option ℤ)
    (a : Actor State Msg) (codes : Codes) (k : ℕ) where
  module _ (quiet : IsSilent h) (answers : RepliesAll h) (fs : List (Move Msg)) where
    abbrev there : Serving State Msg
    there = left_after h ticker0 out0 a codes k fs

    ready-posts : (c : ℕ) (g : Goroutine Msg) → IsReady g → posting_to c g ≡ []
    ready-posts c (ready ticker out) at = refl
    ready-posts c (posting ps n) at = absurd at
    ready-posts c ended at = absurd at

    -- Where the goroutine is in its `select`, what has been made and not taken is in the channel.
    boxes_lem :
        (c : ℕ)
        → IsReady there.goroutine
        → there.channels.taken c ≡ []
        → replies_to c there.actor.effects ≡ there.channels.boxes c
    boxes_lem c at none_taken =
        (run-opened-Inv h ticker0 out0 a codes k fs).delivery c
        ∙ ap (λ x. x ++ (there.channels.boxes c ++ posting_to c there.goroutine)) none_taken
        ∙ ap (λ x. there.channels.boxes c ++ x) (ready-posts c there.goroutine at)
        ∙ append-nil (there.channels.boxes c)

    act_reply :
        (c : ℕ) (m : Msg) (rs : List (ActorRet Msg))
        → there.channels.boxes c ≡ rs
        → 1 ≤ length rs
        → (r : ActorRet Msg) × Memᴰ r rs
          × ((act codes proceeds (awaiting c (plain m)) there.channels).0 ≡ returned c (plain m) r)
    unfolding act
    act_reply c m [] e one = absurd (omega (arith, one))
    act_reply c m (r ∷ rs) e one = (r, Memᴰ.head refl, rw e refl)

    Fits-GetsReply :
        (t : Client Msg)
        → IsReady there.goroutine
        → mails there.seen ≡ there.channels.sent
        → Honest (λ c. replies_to c there.actor.effects) there.channels.sent t
        → Fits there.channels.taken t
        → GetsReply h a.ctx codes there.channels t
    Fits-GetsReply (awaiting c (plain m)) at all_seen sent none_taken =
        let i = run-opened-Inv h ticker0 out0 a codes k fs in
        let made = boxes_lem c at none_taken in
        let one =
          run-IsReplied h answers codes (opened ticker0 out0 a k) fs
            (λ c m d. absurd (Memᴰ.not-nil d)) c m (subst (Memᴰ _) (sym all_seen) sent) in
        let (r, held, e) = act_reply c m _ (sym made) one in
        let (u, st, call, good) =
          (reached-Exact h (IsSilent-SendsNothing h quiet) ticker0 out0 a codes k fs).handled c r
            held in
        let same =
          same_call c u (plain m) there.channels.sent (omega (arith, i.once c))
            (subst (Memᴰ _) all_seen call) sent in
        (r, st, e, subst (λ x. (h.handle (with_caller a.ctx (some c)) x st).ret ≡ some r) same good)
    Fits-GetsReply t at all_seen sent none_taken = tt

    AllFits-GetsReply :
        (ts : List (Client Msg))
        → IsReady there.goroutine
        → mails there.seen ≡ there.channels.sent
        → AllHonest (λ c. replies_to c there.actor.effects) there.channels.sent ts
        → All (Fits there.channels.taken) ts
        → All (GetsReply h a.ctx codes there.channels) ts
    AllFits-GetsReply [] at all_seen honest fits = tt
    AllFits-GetsReply (t ∷ ts) at all_seen honest fits = (
      Fits-GetsReply t at all_seen honest.0 fits.0,
      AllFits-GetsReply ts at all_seen honest.1 fits.1,
    )

  module _ (keeps : KeepsLoop h) (quiet : IsSilent h) (answers : RepliesAll h) where
    -- Where the handler asks for a stop at each message, has a result other than `CallNoRep` for it, and sends no
    -- replies itself: from any state that the actor and its callers reach and in which the goroutine is still in
    -- its loop, three operations of the goroutine for each mail in the mailbox, and those of the turn that it
    -- is in, answer every call that waits for its reply. The callers stand where they stood, and the next
    -- operation of each that waits, for a message with a value behind it, returns the handler's result on that
    -- message.
    pub run-answers :
        (es : List (Move Msg)) (n : ℕ)
        → let start = left_after h ticker0 out0 a codes k es in
          IsGoing start.goroutine
          → work_left start ≤ n
          → let w = run h codes start (own_moves h codes n start) in
            (w.clients ≡ start.clients) × All (GetsReply h a.ctx codes w.channels) w.clients
    run-answers es n going enough =
        let start = left_after h ticker0 out0 a codes k es in
        let w = run h codes start (own_moves h codes n start) in
        let done = own_moves-WorksOn h ticker0 out0 a codes k keeps quiet n start es refl going in
        let (at, empty, seen) =
          run-empties h ticker0 out0 a codes k keeps quiet es n going enough in
        let (fs, e) = done.reach in
        let (delivery, fitting, honest) = run-replies h ticker0 out0 a codes k fs in
        (
          own_moves-clients h codes n start,
          subst (λ x. All (GetsReply h a.ctx codes x.channels) x.clients) (sym e)
              (AllFits-GetsReply quiet answers fs _ (subst (λ x. IsReady x.goroutine) e at)
                (subst (λ x. mails x.seen ≡ x.channels.sent) e (seen ∙ sym done.sent)) honest
                fitting.fits),
        )
