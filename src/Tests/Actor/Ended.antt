-- ===== src/Tests/Actor/Ended.antt =====
-- An actor that ends with its first message, and a goroutine that calls it afterwards.
use vlgo.Ecode.{nil_vei}
use vlgo.Shared.{ℕ, ◌≤◌, ◌<◌, ◌≡◌, refl, List, [], ◌∷◌, none, All}
use vlgo.Actor.{
  plain, new_gen_ret, do_loop, handle_mail, handle_ret, select, is_no_reply, has_type_name,
}
use vlgo.Actor.Caller.{send}
use vlgo.Actor.Serving.{
  returned, gave_up, act, act_at, calls, proceeds, expires, ended, Serving, Move, acts, receives,
  delivers, opened, run, move,
}
use vlgo.Actor.Serving.Quiet.{SendsNothing}
use vlgo.Actor.Serving.Flags.{NeverStops, count_named}
use vlgo.Actor.Serving.Ended.{Idles, IsEarly, run-Idles_late}
use vlgo.Actor.Serving.Single.{IsLeaving, run-single}
use vlgo.Tests.Actor.{counter, at_rest}
use vlgo.Tests.Actor.Caller.{codes}

abbrev first_call : List (Move ℕ)
first_call =
    acts 0 (calls (plain 7))
    ∷ acts 0 proceeds
    ∷ receives
    ∷ delivers
    ∷ delivers
    ∷ acts 0 proceeds
    ∷ []

abbrev second_call : List (Move ℕ)
second_call = acts 1 (calls (plain 8)) ∷ acts 1 proceeds ∷ receives ∷ acts 1 expires ∷ []

abbrev behind_first : Serving ℕ ℕ
behind_first = run counter codes (opened none none at_rest 2) first_call

abbrev behind_both : Serving ℕ ℕ
behind_both = run counter codes behind_first second_call

has_ended : behind_first.goroutine ≡ ended
unfolding run move act act_at send do_loop handle_mail handle_ret select is_no_reply has_type_name
    new_gen_ret
has_ended = refl

-- The second call is never handled.
second_gives_up :
    behind_both.clients
    ≡ returned 0 (plain 7) (new_gen_ret (plain 4) nil_vei)
      ∷ gave_up codes.err_actor_handle_timeout
      ∷ []
unfolding run move act act_at send do_loop handle_mail handle_ret select is_no_reply has_type_name
    new_gen_ret
second_gives_up = refl

counter-SendsNothing : SendsNothing counter
counter-SendsNothing = record {
  handle = λ ctx v n c. refl;
  tick = λ ctx n c. refl;
  timeout = λ ctx n c. refl;
}

counter-NeverStops : NeverStops counter
unfolding new_gen_ret
counter-NeverStops = record {
  handle = λ ctx v n. (new_gen_ret (plain n) nil_vei, refl, refl);
  tick = λ ctx n. (new_gen_ret (plain n) nil_vei, refl, refl);
  timeout = λ ctx n. (new_gen_ret (plain n) nil_vei, refl, refl);
}

run-Idles_late_example :
    Idles behind_first behind_both × All (IsEarly behind_first.channels.next) behind_both.clients
run-Idles_late_example =
    run-Idles_late counter counter-SendsNothing none none at_rest codes 2 first_call second_call
      has_ended

run-single_example :
    (count_named behind_first.seen ≤ 1)
    × (0 < count_named behind_first.seen → IsLeaving behind_first.goroutine)
run-single_example = run-single counter counter-NeverStops none none at_rest codes 2 first_call
