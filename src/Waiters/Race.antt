-- ===== src/Waiters/Race.antt =====
-- `NewWaiter` looks the key up and stores the waiter in two steps. Two goroutines that interleave
-- between them both return.
use Prim.Native.String.{String}
use vlgo.Shared.{suc, ◌≡◌, ◌≢◌, Option, none, some, arith}
use vlgo.Waiters.{
  Waiter, World, Result, M, ◌>>=◌, pure, ok, fatal, lookup, insert, set_count, new_waiter_found,
  new_waiter,
}
use vlgo.Waiters.Registry.{lookup-insert_self, new_waiter_lem}

-- Both goroutines make the lookup, then the first and the second one make the store.
abbrev stores : String → Option Waiter → M (Waiter × Waiter)
stores k found = new_waiter_found k found >>= λ u. new_waiter_found k found >>= λ v. pure (u, v)

unfoldable pub race : String → World → Result (Waiter × Waiter)
race k w = stores k (lookup k w.table) w

new_waiter_twice :
    (k : String) (w : World)
    → lookup k w.table ≡ none
    → (new_waiter k >>= λ u. new_waiter k) w ≡ fatal
new_waiter_twice k w free =
    let (u, w', made, c) = (new_waiter_lem k w).1 free in
    rw (made, ◌>>=◌) ((new_waiter_lem k w').0 u c.registered)

-- Where the key is free, the interleaved calls both return, where the second of two calls in turn
-- would end the process; they return two wait groups, and only the second one is registered.
pub race_lem :
    (k : String) (w : World)
    → lookup k w.table ≡ none
    → ((new_waiter k >>= λ u. new_waiter k) w ≡ fatal)
      × ((u v : Waiter) × (w' : World) × (race k w ≡ ok (u, v) w')
          × (u.wg ≢ v.wg)
          × (lookup k w'.table ≡ some v))
unfolding race new_waiter
race_lem k w free = (
  new_waiter_twice k w free,
  (u, v, stored v (stored u w), rw (free, stores), λ e. ground arith, lookup-insert_self k _ _),
)
  where
    u : Waiter
    u = record { wg = some w.next; key = k }

    v : Waiter
    v = record { wg = some (suc w.next); key = k }

    stored : Waiter → World → World
    stored x y = record y {
      table = insert k x y.table;
      count = set_count y.count y.next 0;
      next = suc y.next;
    }
