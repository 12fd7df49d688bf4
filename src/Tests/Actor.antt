-- ===== src/Tests/Actor.antt =====
-- The actors of gen/actor.go on small handlers.
mod Caller
mod Serving
mod Ended
use vlgo.Ecode.{nil_vei}
use vlgo.Shared.{
  ℕ, suc, ◌+◌, ◌≡◌, ◌⊎◌, refl, ap, Bool, true, false, List, [], ◌∷◌, ◌++◌, Option, none, some, ℤ,
  pos, length, map, All, is_positive, if◌then◌else◌,
}
use vlgo.Actor.{
  Value, nil, no_reply, plain, ActorRet, ActorCtx, with_caller, Mail, actor_call, actor_cast, other,
  new_gen_ret, new_stop_ret, has_type_name, is_no_reply, Effect, handles, replies, Handled, Handler,
  Actor, Turn, returns, panics, Next, Event, interrupt, ticks, times_out, mail, calls, handle_mail,
  do_loop,
}
use vlgo.Actor.Loop.{Outcome, waits, exits, run_events}
use vlgo.Actor.Loop.Turns.{
  carries_on, timer_after, disarmed, settled_turn, stopped_ticker, do_loop_lem,
}
use vlgo.Actor.Loop.Exit.{
  run_events_exits, run_events_panics, run_events_interrupt, StopsOn, stop_count,
  stop_count-run_events,
}
use vlgo.Actor.Loop.Replies.{handled_actor, CallEnds, handle_mail-CallEnds, do_loop_unnamed}

-- A handler that counts its calls, and answers with their number; it keeps `result` for the rest.
abbrev pub answers : Option (ActorRet ℕ) → ℕ → Handled ℕ ℕ
answers result n = record { state = suc n; sends = []; ret = result }

abbrev pub handler : (ℕ → Option (ActorRet ℕ)) → Handler ℕ ℕ
handler result = record {
  init = λ ctx v n. answers (some (new_gen_ret nil nil_vei)) n;
  handle = λ ctx v n. answers (result n) n;
  tick = λ ctx n. answers (result n) n;
  timeout = λ ctx n. answers (result n) n;
  stop = λ ctx n. (n, false);
}

abbrev pub counter : Handler ℕ ℕ
counter = handler (λ n. some (new_gen_ret (plain n) nil_vei))

abbrev pub stopper : Handler ℕ ℕ
stopper = handler (λ n. some (new_stop_ret (plain n) nil_vei))

abbrev pub crasher : Handler ℕ ℕ
crasher = handler (λ n. none)

abbrev pub at_rest : Actor ℕ ℕ
at_rest = record {
  ctx = record { name = "counter"; caller = none };
  state = 4;
  default_out = pos 30;
  effects = [];
}

abbrev one_cast : Mail ℕ
one_cast = actor_cast (plain 7)

abbrev after_cast : Handler ℕ ℕ → Actor ℕ ℕ
after_cast h = handled_actor h (plain 7) at_rest.ctx at_rest

counted :
    handle_mail counter one_cast at_rest
    ≡ returns (new_gen_ret (plain 4) nil_vei) (after_cast counter)
unfolding handle_mail has_type_name
counted = refl

crashed : handle_mail crasher one_cast at_rest ≡ panics (after_cast crasher)
unfolding handle_mail has_type_name
crashed = refl

stopper-StopsOn : StopsOn stopper one_cast
unfolding handle_mail has_type_name new_stop_ret
stopper-StopsOn a = (
  new_stop_ret (plain a.state) nil_vei,
  handled_actor stopper (plain 7) a.ctx a,
  refl,
  refl,
  stop_count-handled a.effects,
)
  where
    stop_count-handled :
        (es : List (Effect ℕ)) → stop_count ((es ++ handles (plain 7) ∷ []) ++ []) ≡ stop_count es
    stop_count-handled [] = refl
    stop_count-handled (Effect.replies c r ∷ es) = stop_count-handled es
    stop_count-handled (Effect.stops_ticker d ∷ es) = stop_count-handled es
    stop_count-handled (Effect.handles v ∷ es) = stop_count-handled es
    stop_count-handled (Effect.stops ∷ es) = ap suc (stop_count-handled es)

stop_count-run_events_example :
    (t o : Option ℤ) × (b : Actor ℕ ℕ) × (run_events stopper none none at_rest
        (map mail (one_cast ∷ one_cast ∷ []))
      ≡ waits t o b)
    × (stop_count b.effects ≡ stop_count at_rest.effects + length (one_cast ∷ one_cast ∷ []))
stop_count-run_events_example =
    stop_count-run_events stopper (one_cast ∷ one_cast ∷ []) none none at_rest
      (stopper-StopsOn, (stopper-StopsOn, tt))

do_loop_lem_example :
    ((m : Mail ℕ)
      → do_loop counter (some (pos 5)) none (mail m) at_rest
        ≡ some (settled_turn counter (some (pos 5)) (handle_mail counter m at_rest)))
    × ((d : ℤ)
        → do_loop counter (some d) none ticks at_rest
          ≡ some (settled_turn counter (some d) (calls (counter.tick at_rest.ctx) at_rest)))
    × (do_loop counter none none ticks at_rest ≡ none)
    × ((d : ℤ)
        → do_loop counter (some (pos 5)) (some d) times_out at_rest
          ≡ some
              (settled_turn counter (some (pos 5)) (calls (counter.timeout at_rest.ctx) at_rest)))
    × (do_loop counter (some (pos 5)) none times_out at_rest ≡ none)
    × ((tm : ℤ)
        → do_loop counter (some (pos 5)) none (interrupt tm) at_rest
          ≡ some (
            carries_on
                (if is_positive tm then some tm else none)
                (timer_after (pos 0) at_rest.default_out),
            record at_rest { effects = stopped_ticker (some (pos 5)) at_rest.effects },
          ))
do_loop_lem_example = do_loop_lem counter (some (pos 5)) none at_rest

handle_mail-CallEnds_example :
    CallEnds counter
      (some 1)
      (plain 7)
      at_rest
      (handle_mail counter (actor_call (some 1) (plain 7)) at_rest)
handle_mail-CallEnds_example = handle_mail-CallEnds counter (some 1) (plain 7) at_rest

do_loop_unnamed_example :
    (do_loop counter none none (mail (actor_call (some 1) nil)) at_rest ≡ some (disarmed, at_rest))
    × (do_loop counter none none (mail (actor_cast nil)) at_rest ≡ some (disarmed, at_rest))
    × (do_loop counter none none (mail (other nil)) at_rest ≡ some (disarmed, at_rest))
do_loop_unnamed_example =
    do_loop_unnamed counter none none (some 1) nil at_rest (unfold has_type_name in refl)

-- A call with `CallNoRep` has no reply; any other one has a reply behind the mark of its handling.
replied :
    handle_mail counter (actor_call (some 1) (plain 7)) at_rest
    ≡ returns (new_gen_ret (plain 4) nil_vei) (record at_rest {
      state = 5;
      effects = handles (plain 7) ∷ replies (some 1) (new_gen_ret (plain 4) nil_vei) ∷ [];
    })
unfolding handle_mail has_type_name is_no_reply
replied = refl

silent :
    handle_mail
      (handler (λ n. some (new_gen_ret no_reply nil_vei)))
      (actor_call (some 1) (plain 7))
      at_rest
    ≡ returns
        (new_gen_ret no_reply nil_vei)
        (record at_rest { state = 5; effects = handles (plain 7) ∷ [] })
unfolding handle_mail has_type_name is_no_reply
silent = refl
