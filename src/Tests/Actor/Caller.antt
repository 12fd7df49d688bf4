-- ===== src/Tests/Actor/Caller.antt =====
-- The calls of an actor's functions from outside.
use vlgo.Ecode.{verr, nil_vei}
use vlgo.Waiters.{World, Waiter, ok, fatal, lookup, insert, new_waiter, set_count}
use vlgo.Waiters.Registry.{Creates}
use vlgo.Waiters.Counting.{empty_world}
use vlgo.Shared.{ℕ, ◌≡◌, ◌⊎◌, refl, Bool, true, false, [], ◌∷◌, none, some, pos}
use vlgo.Actor.{nil, ActorCtx, Mail, new_gen_ret}
use vlgo.Actor.Caller.{Chan, make_chan, mailbox_size, Codes, Life, Started, start}
use vlgo.Actor.Loop.{loop}
use vlgo.Actor.Caller.Starting.{first_actor, Starts, start_lem}
use vlgo.Tests.Actor.{counter, at_rest}

abbrev pub codes : Codes
codes = record {
  err_actor_call_timeout = verr (some (record { c = 1; s = "call" }));
  err_actor_handle_timeout = verr (some (record { c = 2; s = "handle" }));
  err_actor_init_timeout = verr (some (record { c = 3; s = "init" }));
}

abbrev mailbox : Chan (Mail ℕ)
mailbox = make_chan 2

abbrev alive : Life ℕ ℕ
alive = record {
  actor = at_rest;
  mailbox = mailbox;
  interrupt_box = make_chan 0;
  is_stopped = false;
}

abbrev never_nil : ℕ → Bool
never_nil n = false

abbrev dead : Life ℕ ℕ
dead = record alive {
  mailbox = record mailbox { closed = true };
  interrupt_box = record alive.interrupt_box { closed = true };
  is_stopped = true;
}

abbrev ctx : ActorCtx
ctx = record { name = "counter"; caller = none }

start_lem_example :
    ((v : Waiter) × (lookup "gen_counter" empty_world.table ≡ some v)
      × (start counter codes ctx nil 4 (pos 30) true [] empty_world ≡ fatal))
    ⊎ ((lookup "gen_counter" empty_world.table ≡ none)
        × (s : Started counter) × (v : Waiter) × (w' : World) × (start counter codes ctx nil 4
              (pos 30)
              true
              []
              empty_world
            ≡ ok s w')
        × Creates "gen_counter" empty_world v w'
        × Starts counter codes ctx nil 4 (pos 30) true [] s)
start_lem_example = start_lem counter codes ctx nil 4 (pos 30) true [] empty_world

abbrev registered : World
registered = record empty_world {
  table = ("gen_counter", record { wg = some 0; key = "gen_counter" }) ∷ [];
  count = set_count empty_world.count 0 0;
  next = 1;
}

abbrev started : Started counter
started = record {
  value = nil;
  error = nil_vei;
  mailbox = make_chan mailbox_size;
  interrupt_box = make_chan 0;
  is_stopped = false;
  outcome = loop counter true nil (first_actor counter ctx 4 (pos 30)) [];
}

ran : start counter codes ctx nil 4 (pos 30) true [] empty_world ≡ ok started registered
unfolding start new_waiter lookup insert new_gen_ret
ran = refl
