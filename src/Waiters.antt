-- ===== src/Waiters.antt =====
-- gen/wg.go: wait groups with a name, and the registry of them. A wait group is an address; the
-- counters of all are one function. Logging is left out, except `Fatalf`, which ends the process.
pub mod Registry
pub mod Apart
pub mod Counting
pub mod Race
pub mod Wait
pub mod Waking
pub mod Woken
use Prim.Native.String.{String}
use text.Mathlib.Text.{◌==◌ as str_eq}
use vlgo.Shared.{
  ℕ, suc, ◌+◌, ◌-◌, Bool, true, false, List, [], ◌∷◌, ◌++◌, Option, none, some, ltb, ◌==◌,
  if◌then◌else◌, ℤ, pos, negsuc, neg,
}

-- `Waiter`: a pointer to a wait group, which may be nil, and the key.
pub record Waiter : Type 0 where
  pub wg : Option ℕ
  pub key : String

abbrev pub nil_waiter : Waiter
nil_waiter = record { wg = none; key = "" }

-- `AllWaiters`, the counters of the wait groups, and the next address. `running` is the goroutines
-- that have been spawned and not yet ended.
pub record World : Type 0 where
  pub table : List (String × Waiter)
  pub count : ℕ → ℕ
  pub next : ℕ
  pub running : List Waiter

-- A call returns, panics (a negative counter), or ends the process (`Fatalf`).
pub data Result (A : Type 0) : Type 0 where
  ok : A → World → Result A
  panic fatal : Result A

-- A computation over the world.
abbrev pub M : Type 0 → Type 0
M A = World → Result A

infixl 5 ◌>>=◌
abbrev pub ◌>>=◌ : {A B : Type 0} → M A → (A → M B) → M B
◌>>=◌ m f w = elim (m w) [ ok a w' ↦ f a w' | panic ↦ panic | fatal ↦ fatal ]

abbrev pub pure : {A : Type 0} → A → M A
pure a w = ok a w

-- `sync.Map`: `Load`, `Store` and `Delete`.
unfoldable pub lookup : String → List (String × Waiter) → Option Waiter
lookup k [] = none
lookup k ((j, v) ∷ t) = if str_eq j k then some v else lookup k t

unfoldable pub insert : String → Waiter → List (String × Waiter) → List (String × Waiter)
insert k v [] = (k, v) ∷ []
insert k v ((j, u) ∷ t) = if str_eq j k then (k, v) ∷ t else (j, u) ∷ insert k v t

unfoldable pub delete : String → List (String × Waiter) → List (String × Waiter)
delete k [] = []
delete k ((j, u) ∷ t) = if str_eq j k then delete k t else (j, u) ∷ delete k t

abbrev pub set_count : (ℕ → ℕ) → ℕ → ℕ → ℕ → ℕ
set_count f p n q = if p == q then n else f q

-- `wg.Add(n)`: it panics where the counter would fall below zero.
unfoldable pub wg_add : ℕ → ℤ → M (Unit {0})
wg_add p (pos n) w = ok tt (record w { count = set_count w.count p (w.count p + n) })
wg_add p (negsuc n) w =
    if ltb (w.count p) (suc n)
    then panic
    else ok tt (record w { count = set_count w.count p (w.count p - suc n) })

-- `Waiter{&sync.WaitGroup{}, key}`, stored under the key.
abbrev pub create : String → M Waiter
create k w =
    let v : Waiter = record { wg = some w.next; key = k } in
    ok v (record w {
      table = insert k v w.table;
      count = set_count w.count w.next 0;
      next = suc w.next;
    })

abbrev pub new_waiter_found : String → Option Waiter → M Waiter
new_waiter_found k (some v) w = fatal
new_waiter_found k none w = create k w

unfoldable pub new_waiter : String → M Waiter
new_waiter k w = new_waiter_found k (lookup k w.table) w

abbrev pub may_waiter_found : String → Option Waiter → M Waiter
may_waiter_found k (some v) w = ok v w
may_waiter_found k none w = create k w

unfoldable pub may_waiter : String → M Waiter
may_waiter k w = may_waiter_found k (lookup k w.table) w

unfoldable pub del_waiter : String → M (Unit {0})
del_waiter k w = ok tt (record w { table = delete k w.table })

abbrev pub found_or_nil : Option Waiter → Waiter × Bool
found_or_nil (some v) = (v, true)
found_or_nil none = (nil_waiter, false)

unfoldable pub fetch_waiter : String → M (Waiter × Bool)
fetch_waiter k w = ok (found_or_nil (lookup k w.table)) w

-- A method that logs an error on a `Waiter` with no wait group.
abbrev pub with_wg : Option ℕ → (ℕ → M (Unit {0})) → M (Unit {0})
with_wg none f w = ok tt w
with_wg (some p) f w = f p w

-- A method call on the wait group with no test before it.
abbrev pub with_wg_unchecked : Option ℕ → (ℕ → M (Unit {0})) → M (Unit {0})
with_wg_unchecked none f w = panic
with_wg_unchecked (some p) f w = f p w

abbrev pub spawn : Waiter → M (Unit {0})
spawn v w = ok tt (record w { running = v ∷ w.running })

-- `Waiter.AddAndSpawnExec`: the goroutine runs until `finish`.
unfoldable pub add_and_spawn_exec : Waiter → M (Unit {0})
unfolding wg_add
add_and_spawn_exec v = with_wg v.wg (λ p. wg_add p (pos 1) >>= λ _. spawn v)

unfoldable pub add : Waiter → ℤ → M (Unit {0})
unfolding wg_add
add v n = with_wg v.wg (λ p. wg_add p n)

-- `Waiter.Run` spawns on a nil wait group too, and adds nothing.
unfoldable pub run : Waiter → M (Unit {0})
run v = spawn v

-- `Waiter.done`, and `DoneOne`; `wg.Done()` is `wg.Add(-1)`.
unfoldable pub done_one : Waiter → M (Unit {0})
unfolding wg_add
done_one v = with_wg v.wg (λ p. wg_add p (negsuc 0))

abbrev pub remove_at : ℕ → List Waiter → Option Waiter × List Waiter
remove_at n [] = (none, [])
remove_at Prim.Native.Nat.zero (v ∷ vs) = (some v, vs)
remove_at (suc n) (v ∷ vs) = let (o, rest) = remove_at n vs in (o, v ∷ rest)

abbrev pub finish_found : Option Waiter × List Waiter → M (Unit {0})
finish_found (none, rest) w = ok tt w
finish_found (some v, rest) w = done_one v (record w { running = rest })

-- A spawned function ends, by returning or by a panic that is recovered: `w.done(reason)`.
unfoldable pub finish : ℕ → M (Unit {0})
unfolding done_one
finish n w = finish_found (remove_at n w.running) w

-- Whether `wg.Wait()` returns at once.
unfoldable pub is_released : Waiter → World → Bool
is_released v w = elim v.wg [ none ↦ true | some p ↦ w.count p == 0 ]

-- The package's functions over the registry.
unfoldable pub add_and_spawn_exec_key : String → M (Unit {0})
unfolding fetch_waiter add_and_spawn_exec
add_and_spawn_exec_key k = fetch_waiter k >>= λ r. if r.1 then add_and_spawn_exec r.0 else pure tt

-- `Done(key, n)`: `w.wg.Add(-n)`.
unfoldable pub done_key : String → ℤ → M (Unit {0})
unfolding fetch_waiter wg_add
done_key k n = fetch_waiter k >>= λ r.
    if r.1 then with_wg_unchecked r.0.wg (λ p. wg_add p (neg n)) else pure tt
