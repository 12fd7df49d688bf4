-- ===== src/Waiters/Counting.antt =====
-- The counters of gen/wg.go count the functions that run: no call panics, and a wait ends when they
-- have ended.
use Prim.Native.String.{String}
use vlgo.Shared.{
  ℕ, zero, suc, ◌+◌, ◌-◌, ◌≤◌, ◌<◌, ◌≡◌, refl, subst, ◌↔◌, true, List, [], ◌∷◌, Option, none, some,
  arith, ◌==◌, if◌then◌else◌, pos, negsuc,
}
use vlgo.Waiters.{
  Waiter, World, Result, ok, panic, M, ◌>>=◌, pure, lookup, delete, may_waiter, may_waiter_found,
  del_waiter, found_or_nil, wg_add, with_wg, spawn, add_and_spawn_exec, add_and_spawn_exec_key,
  remove_at, finish_found, finish, done_one, run, is_released, set_count,
}
use vlgo.Waiters.Registry.{lookup-delete, lookup-insert}

-- How many running functions will call `Done` on the wait group `p`.
abbrev pub counted : ℕ → Option ℕ → ℕ
counted p none = 0
counted p (some q) = if q == p then 1 else 0

abbrev pub pending : ℕ → List Waiter → ℕ
pending p [] = 0
pending p (v ∷ vs) = counted p v.wg + pending p vs

-- What a program does that starts functions by `AddAndSpawnExec` only: `MayWaiter`, `DelWaiter`,
-- `AddAndSpawnExec`, and the end of one of the functions, by returning or by a panic.
pub data Op : Type 0 where
  makes deletes starts : String → Op
  ends : ℕ → Op

unfoldable pub perform : Op → M (Unit {0})
perform (makes k) = may_waiter k >>= λ _. pure tt
perform (deletes k) = del_waiter k
perform (starts k) = add_and_spawn_exec_key k
perform (ends n) = finish n

unfoldable pub perform_all : List Op → M (Unit {0})
perform_all [] = pure tt
perform_all (o ∷ os) = perform o >>= λ _. perform_all os

abbrev pub empty_world : World
empty_world = record { table = []; count = λ _. 0; next = 0; running = [] }

-- The counters are exact, and no registered or running waiter has a wait group yet to be made.
pub record Counts (w : World) : Type 0 where
  pub exact : (p : ℕ) → w.count p ≡ pending p w.running
  pub made : (p : ℕ) → w.next ≤ p → pending p w.running ≡ 0
  pub listed :
      (k : String) (v : Waiter) (p : ℕ) → lookup k w.table ≡ some v → v.wg ≡ some p → p < w.next

-- A call that returns with exact counters.
abbrev pub Succeeds : {A : Type 0} → Result A → Type 0
Succeeds {A} x = (a : A) × (w : World) × (x ≡ ok a w) × Counts w

pending-remove_at :
    (n p : ℕ) (vs : List Waiter) (v : Waiter)
    → (remove_at n vs).0 ≡ some v
    → counted p v.wg + pending p (remove_at n vs).1 ≡ pending p vs
pending-remove_at zero p [] v e = cc
pending-remove_at (suc n) p [] v e = cc
pending-remove_at zero p (u ∷ vs) v e = ground arith
pending-remove_at (suc n) p (u ∷ vs) v e = omega (arith, pending-remove_at n p vs v e)

module _ (w : World) (c : Counts w) where
  -- One function ends: the counter that it was counted by goes down, and is not zero before.
  done_one-Succeeds :
      (v : Waiter) (rest : List Waiter)
      → ((p : ℕ) → counted p v.wg + pending p rest ≡ pending p w.running)
      → (o : Option ℕ) → v.wg ≡ o
      → Succeeds (with_wg o (λ p. wg_add p (negsuc 0)) (record w { running = rest }))
  unfolding wg_add
  done_one-Succeeds v rest h none e = (
    tt,
    record w { running = rest },
    refl,
    record {
      exact = λ p. ground (arith, h p, c.exact p);
      made = λ p k. ground (arith, h p, c.made p k);
      listed = c.listed;
    },
  )
  done_one-Succeeds v rest h (some q) e = (
    tt,
    record w { running = rest; count = set_count w.count q (w.count q - 1) },
    ground (arith, h q, c.exact q),
    record {
      exact = λ p. ground (arith, h p, c.exact p);
      made = λ p k. ground (arith, h p, c.made p k);
      listed = c.listed;
    },
  )

  finish_found-Succeeds :
      (o : Option Waiter) (rest : List Waiter)
      → ((v : Waiter)
          → o ≡ some v
          → (p : ℕ) → counted p v.wg + pending p rest ≡ pending p w.running)
      → Succeeds (finish_found (o, rest) w)
  unfolding done_one
  finish_found-Succeeds none rest h = (tt, w, refl, c)
  finish_found-Succeeds (some v) rest h = done_one-Succeeds v rest (h v refl) v.wg refl

  finish-Succeeds : (n : ℕ) → Succeeds (finish n w)
  unfolding finish
  finish-Succeeds n = finish_found-Succeeds _ _ (λ v e p. pending-remove_at n p w.running v e)

  -- A function starts: the counter of its wait group goes up with it.
  start-Succeeds :
      (v : Waiter) (o : Option ℕ)
      → v.wg ≡ o
      → ((p : ℕ) → o ≡ some p → p < w.next)
      → Succeeds (with_wg o (λ p. wg_add p (pos 1) >>= λ _. spawn v) w)
  unfolding wg_add
  start-Succeeds v none e h = (tt, w, refl, c)
  start-Succeeds v (some q) e h = (
    tt,
    record w { running = v ∷ w.running; count = set_count w.count q (w.count q + 1) },
    refl,
    record {
      exact = λ p. rw e (ground (arith, c.exact p));
      made = λ p k. rw e (ground (arith, c.made p k, h q refl));
      listed = c.listed;
    },
  )

  fetched-Succeeds :
      (k : String) (o : Option Waiter)
      → lookup k w.table ≡ o
      → let r = found_or_nil o in Succeeds ((if r.1 then add_and_spawn_exec r.0 else pure tt) w)
  unfolding add_and_spawn_exec
  fetched-Succeeds k none e = (tt, w, refl, c)
  fetched-Succeeds k (some v) e = start-Succeeds v v.wg refl (λ p f. c.listed k v p e f)

  starts-Succeeds : (k : String) → Succeeds (add_and_spawn_exec_key k w)
  unfolding add_and_spawn_exec_key
  starts-Succeeds k = fetched-Succeeds k (lookup k w.table) refl

  makes-Succeeds :
      (k : String) (o : Option Waiter)
      → lookup k w.table ≡ o
      → Succeeds ((may_waiter_found k o >>= λ _. pure tt) w)
  makes-Succeeds k (some v) e = (tt, w, refl, c)
  makes-Succeeds k none e = (
    tt,
    _,
    refl,
    record {
      exact = λ p. ground (arith, c.exact p, c.made p);
      made = λ p h. c.made p (omega arith);
      listed = λ j v p e f.
          ground (
            arith,
            lookup-insert k j (record { wg = some w.next; key = k }) w.table,
            c.listed j v p,
          );
    },
  )

  deletes-Succeeds : (k : String) → Succeeds (del_waiter k w)
  unfolding del_waiter
  deletes-Succeeds k = (
    tt,
    record w { table = delete k w.table },
    refl,
    record {
      exact = c.exact;
      made = c.made;
      listed = λ j v p e f. c.listed j v p (ground (arith, lookup-delete k j w.table)) f;
    },
  )

  -- Each operation returns, with exact counters again.
  pub perform-Succeeds : (o : Op) → Succeeds (perform o w)
  unfolding perform may_waiter
  perform-Succeeds (makes k) = makes-Succeeds k (lookup k w.table) refl
  perform-Succeeds (deletes k) = deletes-Succeeds k
  perform-Succeeds (starts k) = starts-Succeeds k
  perform-Succeeds (ends n) = finish-Succeeds n

pub perform_all-Succeeds : (os : List Op) (w : World) → Counts w → Succeeds (perform_all os w)
unfolding perform_all
perform_all-Succeeds [] w c = (tt, w, refl, c)
perform_all-Succeeds (o ∷ os) w c =
    let (a, w', e, c') = perform-Succeeds w c o in
    let (b, w'', e', c'') = perform_all-Succeeds os w' c' in (tt, w'', rw (e, ◌>>=◌) e', c'')

pub empty_world-Counts : Counts empty_world
unfolding lookup
empty_world-Counts = record {
  exact = λ p. refl;
  made = λ p h. refl;
  listed = λ k v p e f. absurd (cc);
}

-- A program that starts its functions by `AddAndSpawnExec` only never panics on a counter and never
-- ends the process, in whatever order its functions end and waiters are made and deleted; and
-- afterwards every counter is the number of functions that still run.
pub perform_all_lem :
    (os : List Op)
    → (w : World) × (perform_all os empty_world ≡ ok tt w)
      × ((p : ℕ) → w.count p ≡ pending p w.running)
perform_all_lem os =
    let (a, w, e, c) = perform_all-Succeeds os empty_world empty_world-Counts in (w, e, c.exact)

-- After such a program a wait on a wait group returns at once exactly when no function that was
-- started on it still runs.
pub is_released_iff :
    (os : List Op) (w : World) (v : Waiter) (p : ℕ)
    → perform_all os empty_world ≡ ok tt w
    → v.wg ≡ some p
    → (is_released v w ≡ true) ↔ (pending p w.running ≡ 0)
unfolding is_released
is_released_iff os w v p e f =
    let (w', e', exact) = perform_all_lem os in
    let same : w' ≡ w = cc in
    let counter : w.count p ≡ pending p w.running =
      subst (λ (x : World). x.count p ≡ pending p x.running) same (exact p) in
    (λ h. ground arith, λ h. ground arith)

-- `Run` adds nothing: on a wait group whose counter is zero, the end of the function panics.
pub finish-run :
    (v : Waiter) (p : ℕ) (w : World)
    → v.wg ≡ some p
    → w.count p ≡ 0
    → (run v >>= λ _. finish 0) w ≡ panic
unfolding run finish done_one wg_add
finish-run v p w e z = ground arith
