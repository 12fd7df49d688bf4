-- ===== src/LogProxy/Service/Histories.antt =====
-- What the goroutines in `Write` do to the histories of the channel.
use vlgo.Shared.{
  ℕ, zero, suc, ◌≡◌, refl, ◌⊎◌, inl, inr, Bool-cases, List, [], ◌∷◌, ◌++◌, Option, none, some, ltb,
  ◌==◌, length, get_elem?,
}
use vlgo.LogProxy.Buffer.{Bytes, default_log_buffer_size}
use vlgo.LogProxy.Sharing.{
  Thread, idle, done, loading, swapping, filling, sending, waiting, reading, storing, Memory,
  get_buffer_entry, load_slot, get_buffer_loop, swap_slot, store_slot, put_buffer_loop, send,
  advance, System, step_at, step, log_buffer_cache_count, max_log_chan_size,
}
use vlgo.LogProxy.Service.{Call, calls, proceeds, expires, choice_of}

-- What an operation of a goroutine that writes does to the histories: it receives nothing, and adds at
-- most one payload.
pub record Outside (m m' : Memory) : Type 0 where
  pub received : m'.received ≡ m.received
  pub accepted : (m'.sent ≡ m.sent) ⊎ ((src : Bytes) × (m'.sent ≡ m.sent ++ src ∷ []))

stays-Outside : (m : Memory) → Outside m m
stays-Outside m = record { received = refl; accepted = inl refl }

module _ (m : Memory) where
  same-Outside : Outside m m
  same-Outside = record { received = refl; accepted = inl refl }

  get_buffer_entry-Outside : (src : Bytes) → Outside m (get_buffer_entry src m).1
  get_buffer_entry-Outside src = elim (Bool-cases (ltb default_log_buffer_size (length src))) [
    | inl big ↦ rw big record { received = refl; accepted = inl refl }
    | inr small ↦ rw small same-Outside
  ]

  load_slot-Outside :
      (src : Bytes) (i : ℕ) (o : Option (Option ℕ)) → Outside m (load_slot src i o m).1
  load_slot-Outside src i (some (some old)) = same-Outside
  load_slot-Outside src i (some none) = same-Outside
  load_slot-Outside src i none = same-Outside

  get_buffer_loop-Outside : (src : Bytes) (i : ℕ) → Outside m (get_buffer_loop src i m).1
  get_buffer_loop-Outside src i = elim (Bool-cases (ltb i log_buffer_cache_count)) [
    | inl more ↦ rw more (load_slot-Outside src i (get_elem? m.slots i))
    | inr end ↦ rw end record { received = refl; accepted = inl refl }
  ]

  swap_slot-Outside :
      (src : Bytes) (i old : ℕ) (o : Option (Option ℕ)) → Outside m (swap_slot src i old o m).1
  swap_slot-Outside src i old (some (some p)) = elim (Bool-cases (p == old)) [
    | inl same ↦ rw same record { received = refl; accepted = inl refl }
    | inr other ↦ rw other same-Outside
  ]
  swap_slot-Outside src i old (some none) = same-Outside
  swap_slot-Outside src i old none = same-Outside

  send-Outside : (src : Bytes) (p : ℕ) (full : Thread) → Outside m (send src p full m).1
  send-Outside src p full = elim (Bool-cases (ltb (length m.chan) max_log_chan_size)) [
    | inl room ↦ rw room record { received = refl; accepted = inr (src, refl) }
    | inr none_left ↦ rw none_left same-Outside
  ]

  store_slot-Outside : (p i : ℕ) (o : Option (Option ℕ)) → Outside m (store_slot p i o m).1
  store_slot-Outside p i (some none) = record { received = refl; accepted = inl refl }
  store_slot-Outside p i (some (some q)) = same-Outside
  store_slot-Outside p i none = same-Outside

  put_buffer_loop-Outside : (p i : ℕ) → Outside m (put_buffer_loop p i m).1
  put_buffer_loop-Outside p i = elim (Bool-cases (ltb i log_buffer_cache_count)) [
    | inl more ↦ rw more (store_slot-Outside p i (get_elem? m.slots i))
    | inr end ↦ rw end same-Outside
  ]

  advance-Outside : (c : Call) (t : Thread) → Outside m (advance (choice_of c) t m).1
  unfolding advance
  advance-Outside (calls src) idle = get_buffer_entry-Outside src
  advance-Outside (calls src) (done n b) = get_buffer_entry-Outside src
  advance-Outside proceeds (loading src i) = get_buffer_loop-Outside src i
  advance-Outside proceeds (swapping src i old) = swap_slot-Outside src i old (get_elem? m.slots i)
  advance-Outside proceeds (sending src p) = send-Outside src p (waiting src p)
  advance-Outside proceeds (waiting src p) = send-Outside src p (waiting src p)
  advance-Outside proceeds (storing p i) = put_buffer_loop-Outside p i
  advance-Outside proceeds (filling src p) = record { received = refl; accepted = inl refl }
  advance-Outside proceeds (reading src p) = same-Outside
  advance-Outside proceeds idle = same-Outside
  advance-Outside proceeds (done n b) = same-Outside
  advance-Outside expires (waiting src p) = same-Outside
  advance-Outside expires t = same-Outside
  advance-Outside (calls src) t = same-Outside

step_at-Outside :
    (k : ℕ) (c : Call) (ts : List Thread) (m : Memory) → Outside m (step_at k (choice_of c) ts m).1
unfolding step_at
step_at-Outside zero c [] m = same-Outside m
step_at-Outside (suc k) c [] m = same-Outside m
step_at-Outside zero c (t ∷ ts) m = advance-Outside m c t
step_at-Outside (suc k) c (t ∷ ts) m = step_at-Outside k c ts m

pub step-Outside :
    (s : System) (k : ℕ) (c : Call) → Outside s.memory (step s (k, choice_of c)).memory
unfolding step
step-Outside s k c = step_at-Outside k c s.threads s.memory
