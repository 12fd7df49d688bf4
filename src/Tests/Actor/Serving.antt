-- ===== src/Tests/Actor/Serving.antt =====
-- An actor and two goroutines that call it.
use vlgo.Ecode.{nil_vei}
use vlgo.Shared.{ℕ, ◌≤◌, ◌≡◌, refl, ap, arith, List, [], ◌∷◌, ◌++◌, none, length, All}
use vlgo.Actor.{
  plain, new_stop_ret, do_loop, handle_mail, handle_ret, select, is_no_reply, has_type_name,
}
use vlgo.Actor.Loop.{run_events}
use vlgo.Actor.Caller.{send}
use vlgo.Actor.Serving.{
  returned, awaiting, act, act_at, calls, proceeds, Serving, Move, acts, receives, delivers, opened,
  run, move,
}
use vlgo.Actor.Serving.Answers.{replies_to}
use vlgo.Actor.Serving.Following.{mails, stands}
use vlgo.Actor.Serving.Reachable.{run-stands}
use vlgo.Actor.Serving.Quiet.{SendsNothing}
use vlgo.Actor.Serving.Posts.{IsSilent}
use vlgo.Actor.Serving.Keeping.{KeepsLoop}
use vlgo.Actor.Serving.Working.{IsReady, own_moves}
use vlgo.Actor.Serving.Emptying.{left_after, run-empties}
use vlgo.Actor.Serving.Replying.{RepliesAll}
use vlgo.Actor.Serving.Answered.{GetsReply, run-answers}
use vlgo.Actor.Serving.Served.{Served, Unblocked, run-Served, run-Unblocked}
use vlgo.Tests.Actor.{stopper, at_rest}
use vlgo.Tests.Actor.Caller.{codes}

-- Both goroutines send a call; the actor handles the first one, and its caller takes the reply.
abbrev schedule : List (Move ℕ)
schedule =
    acts 0 (calls (plain 7))
    ∷ acts 1 (calls (plain 8))
    ∷ acts 1 proceeds
    ∷ acts 0 proceeds
    ∷ receives
    ∷ delivers
    ∷ acts 1 proceeds
    ∷ delivers
    ∷ receives
    ∷ []

abbrev served : Serving ℕ ℕ
served = run stopper codes (opened none none at_rest 2) schedule

first_served :
    served.clients
    ≡ awaiting 0 (plain 7) ∷ returned 1 (plain 8) (new_stop_ret (plain 4) nil_vei) ∷ []
unfolding run move act act_at send do_loop handle_mail handle_ret select is_no_reply has_type_name
    new_stop_ret
first_served = refl

stopper-SendsNothing : SendsNothing stopper
stopper-SendsNothing = record {
  handle = λ ctx v n c. refl;
  tick = λ ctx n c. refl;
  timeout = λ ctx n c. refl;
}

run-stands_example :
    (stands served.goroutine served.actor
      ≡ run_events stopper none none (record at_rest { effects = [] }) served.seen)
    × (mails served.seen ++ served.channels.mailbox.items ≡ served.channels.sent)
run-stands_example = run-stands stopper none none at_rest codes 2 schedule

run-Served_example :
    All (Served stopper at_rest.ctx) served.clients
    × ((c : ℕ) → length (replies_to c served.actor.effects) ≤ 1)
run-Served_example = run-Served stopper stopper-SendsNothing none none at_rest codes 2 schedule

run-Unblocked_example : Unblocked served.channels.boxes served.goroutine
run-Unblocked_example =
    run-Unblocked stopper stopper-SendsNothing none none at_rest codes 2 schedule

stopper-KeepsLoop : KeepsLoop stopper
unfolding new_stop_ret
stopper-KeepsLoop = record {
  handle = λ ctx v n r e.
      let same : r ≡ new_stop_ret (plain n) nil_vei = cc in ap (λ x. x.is_stopped) same;
}

stopper-IsSilent : IsSilent stopper
stopper-IsSilent = record {
  handle = λ ctx v n. refl;
  tick = λ ctx n. refl;
  timeout = λ ctx n. refl;
}

-- Both goroutines have sent their call.
abbrev both_sent : List (Move ℕ)
both_sent =
    acts 0 (calls (plain 7)) ∷ acts 1 (calls (plain 8)) ∷ acts 1 proceeds ∷ acts 0 proceeds ∷ []

abbrev waiting : Serving ℕ ℕ
waiting = left_after stopper none none at_rest codes 2 both_sent

run-empties_example :
    let w = run stopper codes waiting (own_moves stopper codes 6 waiting) in
    IsReady w.goroutine × (w.channels.mailbox.items ≡ []) × (mails w.seen ≡ waiting.channels.sent)
unfolding run move act act_at send
run-empties_example =
    run-empties stopper none none at_rest codes 2 stopper-KeepsLoop stopper-IsSilent both_sent 6 tt
      (omega arith)

stopper-RepliesAll : RepliesAll stopper
unfolding is_no_reply new_stop_ret
stopper-RepliesAll = record { handle = λ ctx m n. (_, refl, refl) }

run-answers_example :
    let w = run stopper codes waiting (own_moves stopper codes 6 waiting) in
    (w.clients ≡ waiting.clients) × All (GetsReply stopper at_rest.ctx codes w.channels) w.clients
unfolding run move act act_at send
run-answers_example =
    run-answers stopper none none at_rest codes 2 stopper-KeepsLoop stopper-IsSilent
      stopper-RepliesAll both_sent 6 tt (omega arith)
