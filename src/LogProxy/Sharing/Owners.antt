-- ===== src/LogProxy/Sharing/Owners.antt =====
-- Who holds a buffer: how often an address stands in the cache, the channel and the goroutines.
use vlgo.Shared.{
  ℕ, zero, suc, ◌+◌, ◌<◌, ◌≡◌, List, [], ◌∷◌, ◌++◌, Option, none, some, arith, ◌==◌, if◌then◌else◌,
  get_elem?, set,
}
use vlgo.LogProxy.Sharing.{
  Thread, idle, done, loading, swapping, filling, sending, waiting, reading, storing, Memory,
}

abbrev pub one_at : ℕ → ℕ → ℕ
one_at a p = if p == a then 1 else 0

abbrev pub in_slot : ℕ → Option ℕ → ℕ
in_slot a none = 0
in_slot a (some p) = one_at a p

abbrev pub in_slots : ℕ → List (Option ℕ) → ℕ
in_slots a [] = 0
in_slots a (o ∷ os) = in_slot a o + in_slots a os

abbrev pub in_chan : ℕ → List ℕ → ℕ
in_chan a [] = 0
in_chan a (p ∷ ps) = one_at a p + in_chan a ps

abbrev pub held_by : ℕ → Thread → ℕ
held_by a idle = 0
held_by a (done n failed) = 0
held_by a (loading src i) = 0
held_by a (swapping src i old) = 0
held_by a (filling src p) = one_at a p
held_by a (sending src p) = one_at a p
held_by a (waiting src p) = one_at a p
held_by a (reading src p) = one_at a p
held_by a (storing p i) = one_at a p

abbrev pub held_by_all : ℕ → List Thread → ℕ
held_by_all a [] = 0
held_by_all a (t ∷ ts) = held_by a t + held_by_all a ts

abbrev pub in_memory : ℕ → Memory → ℕ
in_memory a m = in_slots a m.slots + in_chan a m.chan

pub in_slots-set :
    (a : ℕ) (os : List (Option ℕ)) (i : ℕ) (o o' : Option ℕ)
    → get_elem? os i ≡ some o
    → in_slots a (set os i o') + in_slot a o ≡ in_slots a os + in_slot a o'
in_slots-set a [] i o o' e = ground arith
in_slots-set a (x ∷ os) zero o o' e = ground arith
in_slots-set a (x ∷ os) (suc i) o o' e = omega (arith, in_slots-set a os i o o' e)

pub in_chan-append : (a : ℕ) (ps qs : List ℕ) → in_chan a (ps ++ qs) ≡ in_chan a ps + in_chan a qs
in_chan-append a [] qs = omega arith
in_chan-append a (p ∷ ps) qs = omega (arith, in_chan-append a ps qs)

pub held_by_all-append :
    (a : ℕ) (ts us : List Thread) → held_by_all a (ts ++ us) ≡ held_by_all a ts + held_by_all a us
held_by_all-append a [] us = omega arith
held_by_all-append a (t ∷ ts) us = omega (arith, held_by_all-append a ts us)

-- A slot that holds an address counts.
pub in_slots-get_elem? :
    (p : ℕ) (os : List (Option ℕ)) (i : ℕ) → get_elem? os i ≡ some (some p) → 0 < in_slots p os
in_slots-get_elem? p [] i e = ground arith
in_slots-get_elem? p (x ∷ os) zero e = ground arith
in_slots-get_elem? p (x ∷ os) (suc i) e = omega (arith, in_slots-get_elem? p os i e)
