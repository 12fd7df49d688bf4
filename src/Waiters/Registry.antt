-- ===== src/Waiters/Registry.antt =====
-- The registry of gen/wg.go: what the lookups find after each operation.
use Prim.Native.String.{String}
use text.Mathlib.Text.{◌==◌ as str_eq}
use text.Mathlib.TextEquality.{eq_iff}
use text.Mathlib.TextPositions.{eq_refl}
use vlgo.Shared.{
  suc, ◌≡◌, ◌⊎◌, refl, true, false, List, [], ◌∷◌, none, some, arith, if◌then◌else◌, Option-cases,
  inl, inr,
}
use vlgo.Waiters.{
  Waiter, World, Result, ok, fatal, lookup, insert, delete, create, new_waiter_found, new_waiter,
  may_waiter_found, may_waiter, del_waiter, fetch_waiter, nil_waiter,
}

pub lookup-insert :
    (k j : String) (v : Waiter) (t : List (String × Waiter))
    → lookup j (insert k v t) ≡ (if str_eq k j then some v else lookup j t)
unfolding lookup insert
lookup-insert k j v [] = refl
lookup-insert k j v ((i, u) ∷ t) =
    ground (arith, eq_iff k j, eq_iff i k, eq_iff i j, lookup-insert k j v t)

pub lookup-insert_self :
    (k : String) (v : Waiter) (t : List (String × Waiter)) → lookup k (insert k v t) ≡ some v
lookup-insert_self k v t = simp (lookup-insert, eq_refl)

pub lookup-delete :
    (k j : String) (t : List (String × Waiter))
    → lookup j (delete k t) ≡ (if str_eq k j then none else lookup j t)
unfolding lookup delete
lookup-delete k j [] = ground arith
lookup-delete k j ((i, u) ∷ t) =
    ground (arith, eq_iff k j, eq_iff i k, eq_iff i j, lookup-delete k j t)

-- A new waiter: under its key, at a fresh wait group whose counter is zero, beside the others.
pub record Creates (k : String) (w : World) (v : Waiter) (w' : World) : Type 0 where
  pub registered : lookup k w'.table ≡ some v
  pub keyed : v.key ≡ k
  pub fresh : (v.wg ≡ some w.next) × (w'.next ≡ suc w.next)
  pub zero_count : w'.count w.next ≡ 0
  pub others : (j : String) → lookup j w'.table ≡ (if str_eq k j then some v else lookup j w.table)

abbrev pub CreatesBy : String → World → Result Waiter → Type 0
CreatesBy k w r = (v : Waiter) × (w' : World) × (r ≡ ok v w') × Creates k w v w'

create-Creates : (k : String) (w : World) → CreatesBy k w (create k w)
create-Creates k w = (
  record { wg = some w.next; key = k },
  _,
  refl,
  record {
    registered = lookup-insert_self k _ w.table;
    keyed = refl;
    fresh = (refl, refl);
    zero_count = ground arith;
    others = λ j. lookup-insert k j _ w.table;
  },
)

-- `NewWaiter`, by what the lookup finds.
pub new_waiter_lem :
    (k : String) (w : World)
    → ((v : Waiter) → lookup k w.table ≡ some v → new_waiter k w ≡ fatal)
      × (lookup k w.table ≡ none → CreatesBy k w (new_waiter k w))
unfolding new_waiter
new_waiter_lem k w =
    (λ v e. rw (e, new_waiter_found), λ e. rw (e, new_waiter_found) (create-Creates k w))

-- `MayWaiter`, by what the lookup finds.
pub may_waiter_lem :
    (k : String) (w : World)
    → ((v : Waiter) → lookup k w.table ≡ some v → may_waiter k w ≡ ok v w)
      × (lookup k w.table ≡ none → CreatesBy k w (may_waiter k w))
unfolding may_waiter
may_waiter_lem k w =
    (λ v e. rw (e, may_waiter_found), λ e. rw (e, may_waiter_found) (create-Creates k w))

-- On a key that is taken, `NewWaiter` ends the process, and `MayWaiter` and `FetchWaiter` give the
-- waiter that is registered and change nothing. On a free key `NewWaiter` and `MayWaiter` both register
-- the same new waiter, under its key, at a fresh wait group whose counter is zero, and no other key
-- changes; `FetchWaiter` gives the nil waiter.
pub waiter_lem :
    (k : String) (w : World)
    → ((v : Waiter) × (lookup k w.table ≡ some v)
        × (new_waiter k w ≡ fatal)
        × (may_waiter k w ≡ ok v w)
        × (fetch_waiter k w ≡ ok (v, true) w))
      ⊎ ((lookup k w.table ≡ none)
          × CreatesBy k w (new_waiter k w)
          × (may_waiter k w ≡ new_waiter k w)
          × (fetch_waiter k w ≡ ok (nil_waiter, false) w))
unfolding fetch_waiter may_waiter new_waiter
waiter_lem k w = elim (Option-cases (lookup k w.table)) [
  | inl free ↦ inr (free, (new_waiter_lem k w).1 free, rw free, rw free)
  | inr (v, taken) ↦
      inl (v, taken, (new_waiter_lem k w).0 v taken, (may_waiter_lem k w).0 v taken, rw taken)
]

-- Asked twice for one key, `MayWaiter` gives the same waiter twice, and `FetchWaiter` finds it.
pub may_waiter_twice :
    (k : String) (w w' : World) (v : Waiter)
    → may_waiter k w ≡ ok v w'
    → (may_waiter k w' ≡ ok v w') × (fetch_waiter k w' ≡ ok (v, true) w')
unfolding fetch_waiter
may_waiter_twice k w w' v e = elim (Option-cases (lookup k w.table)) [
  | inl free ↦
      let (u, x, m, c) = (may_waiter_lem k w).1 free in
      let found : lookup k w'.table ≡ some v = ground (arith, e, m, c.registered) in
      ((may_waiter_lem k w').0 v found, rw found)
  | inr (u, taken) ↦
      let found : lookup k w'.table ≡ some v = ground (arith, e, (may_waiter_lem k w).0 u taken) in
      ((may_waiter_lem k w').0 v found, rw found)
]

-- After `DelWaiter` the key is free and `FetchWaiter` gives the nil waiter; other keys keep theirs.
pub del_waiter_lem :
    (k : String) (w : World)
    → (w' : World) × (del_waiter k w ≡ ok tt w')
      × (fetch_waiter k w' ≡ ok (nil_waiter, false) w')
      × ((j : String) → lookup j w'.table ≡ (if str_eq k j then none else lookup j w.table))
      × (w'.count ≡ w.count)
unfolding del_waiter fetch_waiter
del_waiter_lem k w = (
  record w { table = delete k w.table },
  refl,
  simp (lookup-delete, eq_refl),
  λ j. lookup-delete k j w.table,
  refl,
)
