-- ===== src/Tests/Waiters.antt =====
-- The wait groups of gen/wg.go on small programs.
use vlgo.Shared.{ℕ, ◌≡◌, ◌≢◌, ◌⊎◌, refl, true, List, [], ◌∷◌, ◌++◌, some}
use vlgo.Waiters.{
  Waiter, World, ok, fatal, ◌>>=◌, lookup, insert, new_waiter, may_waiter, del_waiter,
  add_and_spawn_exec_key, finish, set_count,
}
use vlgo.Waiters.Apart.{IsRegistry, Keeps, registry_lem}
use vlgo.Waiters.Counting.{
  Op, makes, starts, ends, perform, perform_all, empty_world, pending, perform_all_lem,
}
use vlgo.Waiters.Wait.{
  in_wait, Waiting, in_send, released, received, timed_out, wait_start, wait_step, wait_run,
  WaitEnds, wait_lem,
}
use vlgo.Waiters.Waking.{WakeMove, operates, looks, receives, wake_all, Freed, wake_all-Freed}
use vlgo.Waiters.Woken.{all_end, wake_all-returns}
use vlgo.Waiters.Race.{race, race_lem}

abbrev ops : List Op
ops = makes "a" ∷ starts "a" ∷ starts "a" ∷ ends 0 ∷ []

perform_all_lem_example :
    (w : World) × (perform_all ops empty_world ≡ ok tt w)
    × ((p : ℕ) → w.count p ≡ pending p w.running)
perform_all_lem_example = perform_all_lem ops

abbrev waiter : Waiter
waiter = record { wg = some 0; key = "a" }

abbrev after : World
after = record {
  table = ("a", waiter) ∷ [];
  count = set_count (set_count (set_count (set_count empty_world.count 0 0) 0 1) 0 2) 0 1;
  next = 1;
  running = waiter ∷ [];
}

performed : perform_all ops empty_world ≡ ok tt after
unfolding perform_all perform may_waiter add_and_spawn_exec_key lookup insert finish
performed = refl

abbrev one_waiter : World
one_waiter = record empty_world { table = ("a", waiter) ∷ []; next = 1 }

empty_world-IsRegistry : IsRegistry empty_world
unfolding lookup
empty_world-IsRegistry = record {
  keyed = λ k v e. absurd (cc);
  owned = λ k v e. absurd (cc);
  apart = λ j k u v e f g. absurd (cc);
}

registry_lem_example :
    ((new_waiter "a" empty_world ≡ fatal) ⊎ Keeps (new_waiter "a" empty_world))
    × Keeps (may_waiter "a" empty_world)
    × Keeps (del_waiter "a" empty_world)
registry_lem_example = registry_lem "a" empty_world empty_world-IsRegistry

race_lem_example :
    ((new_waiter "b" >>= λ u. new_waiter "b") one_waiter ≡ fatal)
    × ((u v : Waiter) × (w' : World) × (race "b" one_waiter ≡ ok (u, v) w')
        × (u.wg ≢ v.wg)
        × (lookup "b" w'.table ≡ some v))
race_lem_example = race_lem "b" one_waiter (unfold lookup in refl)

-- The timer fires first: the goroutine that waited is left in its send.
given_up :
    wait_run (wait_start (some 0)) (timed_out ∷ released ∷ received ∷ [])
    ≡ record { has_returned = true; helper = in_send }
unfolding wait_run wait_start wait_step
given_up = refl

wait_lem_example :
    WaitEnds (wait_run (wait_start (some 0)) (released ∷ received ∷ []))
    × ((wait_run (wait_start (some 0)) (released ∷ received ∷ timed_out ∷ [])).has_returned ≡ true)
wait_lem_example = wait_lem (some 0) (released ∷ received ∷ []) []

-- One function still runs; the goroutine looks, the function ends, and the goroutine wakes the caller.
abbrev wakes : List WakeMove
wakes = looks ∷ operates (ends 0) ∷ looks ∷ receives ∷ []

wake_all-Freed_example :
    (w0 : World) × (s : Waiting) × (w : World) × (perform_all ops empty_world ≡ ok tt w0)
    × (wake_all 0 (wait_start (some 0)) wakes w0 ≡ ok s w)
    × ((s.helper ≡ in_wait) ⊎ Freed 0 (wait_start (some 0)) wakes w0)
wake_all-Freed_example = wake_all-Freed ops 0 wakes

wake_all-returns_example :
    (w0 : World) × (s : Waiting) × (w : World) × (s' : Waiting) × (w' : World) × (perform_all ops
        empty_world
      ≡ ok tt w0)
    × (wake_all 0 (wait_start (some 0)) (looks ∷ []) w0 ≡ ok s w)
    × (wake_all 0 s (all_end w ++ looks ∷ receives ∷ []) w ≡ ok s' w')
    × (s'.has_returned ≡ true)
wake_all-returns_example = wake_all-returns ops 0 (looks ∷ [])
