-- ===== src/LogProxy/Sharing/Exclusive.antt =====
-- No buffer has two owners, and no payload is changed between the send and the end of its reading,
-- under every interleaving of the goroutines.
use vlgo.Shared.{ℕ, zero, suc, ◌+◌, ◌≤◌, ◌<◌, ◌≡◌, refl, List, [], ◌∷◌, ◌++◌, arith, All, replicate}
use vlgo.LogProxy.Buffer.{capacity, default_log_buffer_size}
use vlgo.LogProxy.Batch.{Heap}
use vlgo.LogProxy.Sharing.{
  Thread, idle, done, loading, swapping, filling, sending, waiting, reading, storing, Memory,
  Choice, advance, System, step_at, step, run, start,
}
use vlgo.LogProxy.Sharing.Owners.{in_slots, held_by, held_by_all, in_memory}
use vlgo.LogProxy.Sharing.Fits.{contents, Good, Fits, Keeps}
use vlgo.LogProxy.Sharing.Advance.{advance-Keeps}

-- The invariant of all goroutines of a list, where goroutines outside it hold `others a` times `a`.
pub record AllFit (others : ℕ → ℕ) (ts : List Thread) (m : Memory) : Type 0 where
  pub once : (a : ℕ) → in_memory a m + held_by_all a ts + others a ≤ 1
  pub fresh : (a : ℕ) → m.next ≤ a → in_memory a m + held_by_all a ts + others a ≡ 0
  pub cached : (a : ℕ) → 0 < in_slots a m.slots → capacity (m.heap a) ≡ default_log_buffer_size
  pub good : All (Good m.heap) ts
  pub queue : m.sent ≡ m.received ++ contents m.heap m.chan

pub record AllKeep (others : ℕ → ℕ) (m : Memory) (end : List Thread × Memory) : Type 0 where
  pub fits : AllFit others end.0 end.1
  pub frame : (a : ℕ) → 0 < others a → end.1.heap a ≡ m.heap a

Good-eq :
    (h h' : Heap) (t : Thread) → ((a : ℕ) → 0 < held_by a t → h' a ≡ h a) → Good h t → Good h' t
Good-eq h h' idle same g = tt
Good-eq h h' (done n failed) same g = tt
Good-eq h h' (loading src i) same g = g
Good-eq h h' (swapping src i old) same g = g
Good-eq h h' (filling src p) same g = ground (arith, same p)
Good-eq h h' (sending src p) same g = ground (arith, same p)
Good-eq h h' (waiting src p) same g = ground (arith, same p)
Good-eq h h' (reading src p) same g = ground (arith, same p)
Good-eq h h' (storing p i) same g = ground (arith, same p)

All-Good-eq :
    (h h' : Heap) (ts : List Thread)
    → ((a : ℕ) → 0 < held_by_all a ts → h' a ≡ h a)
    → All (Good h) ts
    → All (Good h') ts
All-Good-eq h h' [] same g = tt
All-Good-eq h h' (t ∷ ts) same g = (
  Good-eq h h' t (λ a k. same a (omega arith)) g.0,
  All-Good-eq h h' ts (λ a k. same a (omega arith)) g.1,
)

-- The goroutine at the head makes a step.
pub head-AllKeep :
    (others : ℕ → ℕ) (t : Thread) (ts : List Thread) (m : Memory) (end : Thread × Memory)
    → AllFit others (t ∷ ts) m
    → Keeps (λ a. held_by_all a ts + others a) m end
    → AllKeep others m (end.0 ∷ ts, end.1)
head-AllKeep others t ts m end f k = record {
  fits = record {
    once = λ a. omega (arith, k.fits.once a);
    fresh = λ a p. omega (arith, k.fits.fresh a p);
    cached = k.fits.cached;
    good =
        (k.fits.good, All-Good-eq m.heap end.1.heap ts (λ a p. k.frame a (omega arith)) f.good.1);
    queue = k.fits.queue;
  };
  frame = λ a p. k.frame a (omega arith);
}

-- A goroutine behind the head makes a step.
tail-AllKeep :
    (others : ℕ → ℕ) (t : Thread) (ts : List Thread) (m : Memory) (end : List Thread × Memory)
    → AllFit others (t ∷ ts) m
    → AllKeep (λ a. held_by a t + others a) m end
    → AllKeep others m (t ∷ end.0, end.1)
tail-AllKeep others t ts m end f k = record {
  fits = record {
    once = λ a. omega (arith, k.fits.once a);
    fresh = λ a p. omega (arith, k.fits.fresh a p);
    cached = k.fits.cached;
    good = (Good-eq m.heap end.1.heap t (λ a p. k.frame a (omega arith)) f.good.0, k.fits.good);
    queue = k.fits.queue;
  };
  frame = λ a p. k.frame a (omega arith);
}

pub head_Fits :
    (others : ℕ → ℕ) (t : Thread) (ts : List Thread) (m : Memory)
    → AllFit others (t ∷ ts) m
    → Fits (λ a. held_by_all a ts + others a) t m
head_Fits others t ts m f = record {
  once = λ a. omega (arith, f.once a);
  fresh = λ a p. omega (arith, f.fresh a p);
  cached = f.cached;
  good = f.good.0;
  queue = f.queue;
}

pub tail_AllFit :
    (others : ℕ → ℕ) (t : Thread) (ts : List Thread) (m : Memory)
    → AllFit others (t ∷ ts) m
    → AllFit (λ a. held_by a t + others a) ts m
tail_AllFit others t ts m f = record {
  once = λ a. omega (arith, f.once a);
  fresh = λ a p. omega (arith, f.fresh a p);
  cached = f.cached;
  good = f.good.1;
  queue = f.queue;
}

step_at-AllKeep :
    (k : ℕ) (c : Choice) (others : ℕ → ℕ) (ts : List Thread) (m : Memory)
    → AllFit others ts m
    → AllKeep others m (step_at k c ts m)
unfolding step_at
step_at-AllKeep zero c others [] m f = record { fits = f; frame = λ a p. refl }
step_at-AllKeep (suc k) c others [] m f = record { fits = f; frame = λ a p. refl }
step_at-AllKeep zero c others (t ∷ ts) m f =
    head-AllKeep others t ts m (advance c t m) f (advance-Keeps _ m c t (head_Fits others t ts m f))
step_at-AllKeep (suc k) c others (t ∷ ts) m f =
    tail-AllKeep others t ts m (step_at k c ts m) f
      (step_at-AllKeep k c _ ts m (tail_AllFit others t ts m f))

pub step-AllKeep :
    (others : ℕ → ℕ) (s : System) (e : ℕ × Choice)
    → AllFit others s.threads s.memory
    → AllKeep others s.memory ((step s e).threads, (step s e).memory)
unfolding step
step-AllKeep others s (k, c) f = step_at-AllKeep k c others s.threads s.memory f

-- What holds of the whole system between two operations.
abbrev pub Inv : System → Type 0
Inv s = AllFit (λ a. 0) s.threads s.memory

-- An operation of any goroutine keeps every buffer with at most one owner (a slot of the cache, a
-- place in the channel or a goroutine), the buffers of the cache at the default capacity, the payload
-- in each buffer that is sent, waits or is read, and the channel in the order of the sends.
pub step-Inv : (s : System) (e : ℕ × Choice) → Inv s → Inv (step s e)
unfolding step
step-Inv s (k, c) f = (step_at-AllKeep k c (λ a. 0) s.threads s.memory f).fits

run-Inv : (s : System) (es : List (ℕ × Choice)) → Inv s → Inv (run s es)
unfolding run
run-Inv s [] f = f
run-Inv s (e ∷ es) f = run-Inv (step s e) es (step-Inv s e f)

held_by_all-idle : (n a : ℕ) → held_by_all a (replicate n idle) ≡ 0
held_by_all-idle zero a = refl
held_by_all-idle (suc n) a = omega (arith, held_by_all-idle n a)

All-Good-idle : (h : Heap) (n : ℕ) → All (Good h) (replicate n idle)
All-Good-idle h zero = tt
All-Good-idle h (suc n) = (tt, All-Good-idle h n)

pub start-Inv : (n : ℕ) → Inv (start n)
start-Inv n = record {
  once = λ a. omega (arith, held_by_all-idle n a);
  fresh = λ a k. omega (arith, held_by_all-idle n a);
  cached = λ a k. absurd (omega arith);
  good = All-Good-idle _ n;
  queue = refl;
}

pub run-start-Inv : (n : ℕ) (es : List (ℕ × Choice)) → Inv (run (start n) es)
run-start-Inv n es = run-Inv (start n) es (start-Inv n)

-- Under every interleaving of `n` goroutines that write, receive and return buffers, the payloads
-- received so far are the first of those sent, in the order of the sends and byte for byte, and the
-- rest wait in the channel.
pub received-run :
    (n : ℕ) (es : List (ℕ × Choice))
    → let m = (run (start n) es).memory in m.sent ≡ m.received ++ contents m.heap m.chan
received-run n es = (run-start-Inv n es).queue

-- Under every interleaving, no buffer is at one time owned twice.
pub owners-run :
    (n : ℕ) (es : List (ℕ × Choice)) (a : ℕ)
    → let s = run (start n) es in in_memory a s.memory + held_by_all a s.threads ≤ 1
owners-run n es a = omega (arith, (run-start-Inv n es).once a)
