-- ===== src/LogProxy/Sharing/WaitFree.antt =====
-- `GetBuffer` and `PutBuffer` end after a bounded number of their own operations, whatever the other
-- goroutines do to the cache between them.
use vlgo.Shared.{
  ℕ, zero, suc, ◌+◌, ◌-◌, ◌*◌, ◌≤◌, ◌<◌, ◌≡◌, refl, ◌⊎◌, inl, inr, Option, none, some, arith, ltb,
  ◌==◌, Bool-cases, get_elem?,
}
use vlgo.LogProxy.Buffer.{Bytes}
use vlgo.LogProxy.Sharing.{
  Thread, idle, loading, swapping, filling, storing, Memory, proceed, load_slot, swap_slot,
  store_slot, get_buffer_loop, advance, log_buffer_cache_count,
}

-- How many operations on the cache a goroutine may still make in its present call.
unfoldable pub budget : Thread → ℕ
budget (loading src i) = 2 * (log_buffer_cache_count - i) + 1
budget (swapping src i old) = 2 * (log_buffer_cache_count - suc i) + 2
budget (storing p i) = (log_buffer_cache_count - i) + 1
budget _ = 0

-- A goroutine's own operations, the `k`-th of them on the memory `ms k` that it then finds.
unfoldable pub alone : ℕ → (ℕ → Memory) → Thread → Thread
alone zero ms t = t
alone (suc k) ms t = alone k (λ i. ms (suc i)) (advance proceed t (ms 0)).0

-- The goroutine is inside `GetBuffer` for `src`.
pub data InGet (src : Bytes) (t : Thread) : Type 0 where
  load : (i : ℕ) → t ≡ loading src i → InGet src t
  swap : (i old : ℕ) → t ≡ swapping src i old → InGet src t

-- One operation of `GetBuffer` ends the call or spends the budget.
abbrev GetStep : Bytes → ℕ → Thread → Type 0
GetStep src b t = ((p : ℕ) × (t ≡ filling src p)) ⊎ (InGet src t × (budget t < b))

load_slot-GetStep :
    (src : Bytes) (i : ℕ) (o : Option (Option ℕ)) (m : Memory)
    → i < log_buffer_cache_count
    → GetStep src (budget (loading src i)) (load_slot src i o m).0
unfolding budget
load_slot-GetStep src i (some (some old)) m h = inr (swap i old refl, omega arith)
load_slot-GetStep src i (some none) m h = inr (load (suc i) refl, omega arith)
load_slot-GetStep src i none m h = inr (load (suc i) refl, omega arith)

loading-GetStep :
    (src : Bytes) (i : ℕ) (m : Memory)
    → GetStep src (budget (loading src i)) (get_buffer_loop src i m).0
loading-GetStep src i m = elim (Bool-cases (ltb i log_buffer_cache_count)) [
  | inl more ↦ rw more (load_slot-GetStep src i (get_elem? m.slots i) m (ground arith))
  | inr end ↦ rw end (inl (m.next, refl))
]

swapping-GetStep :
    (src : Bytes) (i old : ℕ) (o : Option (Option ℕ)) (m : Memory)
    → GetStep src (budget (swapping src i old)) (swap_slot src i old o m).0
unfolding budget
swapping-GetStep src i old (some (some p)) m = elim (Bool-cases (p == old)) [
  | inl same ↦ rw same (inl (old, refl))
  | inr other ↦ rw other (inr (load (suc i) refl, omega arith))
]
swapping-GetStep src i old (some none) m = inr (load (suc i) refl, omega arith)
swapping-GetStep src i old none m = inr (load (suc i) refl, omega arith)

advance-GetStep :
    (src : Bytes) (t : Thread) (m : Memory)
    → InGet src t
    → GetStep src (budget t) (advance proceed t m).0
unfolding advance
advance-GetStep src t m (load i e) = rw e (loading-GetStep src i m)
advance-GetStep src t m (swap i old e) = rw e (swapping-GetStep src i old (get_elem? m.slots i) m)

budget_pos : (src : Bytes) (t : Thread) → InGet src t → 0 < budget t
unfolding budget
budget_pos src t (load i e) = ground arith
budget_pos src t (swap i old e) = ground arith

get_ends :
    (fuel : ℕ) (src : Bytes) (t : Thread) (ms : ℕ → Memory)
    → InGet src t
    → budget t ≤ fuel
    → (k : ℕ) × (p : ℕ) × (k ≤ fuel) × (alone k ms t ≡ filling src p)
unfolding alone
get_ends zero src t ms g b = absurd (omega (arith, budget_pos src t g))
get_ends (suc fuel) src t ms g b = elim (advance-GetStep src t (ms 0) g) [
  | inl (p, e) ↦ (1, p, omega arith, e)
  | inr (g', less) ↦
      let (k, p, h, e) = get_ends fuel src _ (λ i. ms (suc i)) g' (omega arith) in
      (suc k, p, omega arith, e)
]

-- `GetBuffer` has its buffer after at most 17 operations of its own on the cache (eight loads, eight
-- swaps and the end of the loop), whatever memory each of them finds.
pub get_buffer_ends :
    (src : Bytes) (ms : ℕ → Memory)
    → (k : ℕ) × (p : ℕ) × (k ≤ 17) × (alone k ms (loading src 0) ≡ filling src p)
unfolding budget
get_buffer_ends src ms = get_ends 17 src (loading src 0) ms (load 0 refl) (omega arith)

store_slot-step :
    (p i : ℕ) (o : Option (Option ℕ)) (m : Memory)
    → ((store_slot p i o m).0 ≡ idle) ⊎ ((store_slot p i o m).0 ≡ storing p (suc i))
store_slot-step p i (some none) m = inl refl
store_slot-step p i (some (some q)) m = inr refl
store_slot-step p i none m = inr refl

storing-step :
    (p i : ℕ) (m : Memory)
    → ((advance proceed (storing p i) m).0 ≡ idle)
      ⊎ (((advance proceed (storing p i) m).0 ≡ storing p (suc i)) × (i < log_buffer_cache_count))
unfolding advance
storing-step p i m = elim (Bool-cases (ltb i log_buffer_cache_count)) [
  | inl more ↦ rw more (ground (arith, store_slot-step p i (get_elem? m.slots i) m))
  | inr end ↦ rw end (inl refl)
]

put_ends :
    (fuel p i : ℕ) (ms : ℕ → Memory)
    → log_buffer_cache_count < i + fuel
    → i ≤ log_buffer_cache_count
    → (k : ℕ) × (k ≤ fuel) × (alone k ms (storing p i) ≡ idle)
unfolding alone
put_ends zero p i ms b l = absurd (omega arith)
put_ends (suc fuel) p i ms b l = elim (storing-step p i (ms 0)) [
  | inl e ↦ (1, omega arith, e)
  | inr (e, more) ↦
      let (k, h, q) = put_ends fuel p (suc i) (λ j. ms (suc j)) (omega arith) (omega arith) in
      (suc k, omega arith, rw (e, alone) q)
]

-- `PutBuffer` returns after at most nine operations of its own.
pub put_buffer_ends :
    (p : ℕ) (ms : ℕ → Memory) → (k : ℕ) × (k ≤ 9) × (alone k ms (storing p 0) ≡ idle)
put_buffer_ends p ms = put_ends 9 p 0 ms (omega arith) (omega arith)
