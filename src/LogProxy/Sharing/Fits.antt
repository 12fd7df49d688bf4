-- ===== src/LogProxy/Sharing/Fits.antt =====
-- The invariant of the shared memory as one goroutine sees it, beside whatever the others hold, and
-- the two ways of keeping it: with no write to a buffer, and with a write to a buffer of one's own.
use vlgo.Shared.{
  ℕ, suc, ◌+◌, ◌≤◌, ◌<◌, ◌≡◌, refl, sym, ap, ◌∙◌, List, [], ◌∷◌, ◌++◌, Option, arith, length,
}
use vlgo.LogProxy.Buffer.{
  Bytes, BufferWrap, buffer, capacity, new_buffer_wrap, default_log_buffer_size,
  capacity-new_buffer_wrap,
}
use vlgo.LogProxy.Batch.{Heap}
use vlgo.LogProxy.Sharing.{
  Thread, idle, done, loading, swapping, filling, sending, waiting, reading, storing, Memory,
  update, allocate,
}
use vlgo.LogProxy.Sharing.Owners.{one_at, in_slots, in_chan, held_by, in_memory}

-- The payloads that wait in the channel.
abbrev pub contents : Heap → List ℕ → List Bytes
contents h [] = []
contents h (p ∷ ps) = buffer (h p) ∷ contents h ps

-- What a goroutine relies on where it stands.
abbrev pub Good : Heap → Thread → Type 0
Good h idle = Unit
Good h (done n failed) = Unit
Good h (loading src i) = length src ≤ default_log_buffer_size
Good h (swapping src i old) = length src ≤ default_log_buffer_size
Good h (filling src p) = length src ≤ capacity (h p)
Good h (sending src p) = buffer (h p) ≡ src
Good h (waiting src p) = buffer (h p) ≡ src
Good h (reading src p) = buffer (h p) ≡ src
Good h (storing p i) = capacity (h p) ≡ default_log_buffer_size

-- The invariant as one goroutine `t` sees it, where the others hold `others a` times the buffer `a`.
pub record Fits (others : ℕ → ℕ) (t : Thread) (m : Memory) : Type 0 where
  pub once : (a : ℕ) → in_memory a m + held_by a t + others a ≤ 1
  pub fresh : (a : ℕ) → m.next ≤ a → in_memory a m + held_by a t + others a ≡ 0
  pub cached : (a : ℕ) → 0 < in_slots a m.slots → capacity (m.heap a) ≡ default_log_buffer_size
  pub good : Good m.heap t
  pub queue : m.sent ≡ m.received ++ contents m.heap m.chan

-- An operation keeps the invariant, and the buffers that the others hold.
pub record Keeps (others : ℕ → ℕ) (m : Memory) (end : Thread × Memory) : Type 0 where
  pub fits : Fits others end.0 end.1
  pub frame : (a : ℕ) → 0 < others a → end.1.heap a ≡ m.heap a

pub contents-eq :
    (h h' : Heap) (ps : List ℕ)
    → ((a : ℕ) → 0 < in_chan a ps → h' a ≡ h a)
    → contents h' ps ≡ contents h ps
contents-eq h h' [] same = refl
contents-eq h h' (p ∷ ps) same =
    ap (λ x. buffer x ∷ contents h' ps) (same p (ground arith))
    ∙ ap (λ x. buffer (h p) ∷ x) (contents-eq h h' ps (λ a k. same a (omega arith)))

pub contents-append :
    (h : Heap) (ps qs : List ℕ) → contents h (ps ++ qs) ≡ contents h ps ++ contents h qs
contents-append h [] qs = refl
contents-append h (p ∷ ps) qs = rw (contents-append h ps qs)

module _ (others : ℕ → ℕ) (m : Memory) where
  -- An operation that writes no buffer.
  pub moves :
      (t t' : Thread) (slots : List (Option ℕ)) (chan : List ℕ) (sent received : List Bytes)
      → Fits others t m
      → ((a : ℕ) → in_slots a slots + in_chan a chan + held_by a t' ≤ in_memory a m + held_by a t)
      → ((a : ℕ) → 0 < in_slots a slots → capacity (m.heap a) ≡ default_log_buffer_size)
      → Good m.heap t'
      → sent ≡ received ++ contents m.heap chan
      → Keeps others m
          (t', record m { slots = slots; chan = chan; sent = sent; received = received })
  moves t t' slots chan sent received f less cached good queue = record {
    fits = record {
      once = λ a. omega (arith, less a, f.once a);
      fresh = λ a k. omega (arith, less a, f.fresh a k);
      cached = cached;
      good = good;
      queue = queue;
    };
    frame = λ a k. refl;
  }

  -- The goroutine moves on, and the memory stays.
  pub stays :
      (t t' : Thread)
      → Fits others t m
      → ((a : ℕ) → held_by a t' ≤ held_by a t)
      → Good m.heap t'
      → Keeps others m (t', m)
  stays t t' f less good =
      moves t t' m.slots m.chan m.sent m.received f (λ a. omega (arith, less a)) f.cached good
        f.queue

  -- A write to a buffer that neither the cache, the channel nor another goroutine has.
  pub writes :
      (t t' : Thread) (p next : ℕ) (b : BufferWrap)
      → Fits others t m
      → in_memory p m + others p ≡ 0
      → m.next ≤ next
      → p < next
      → ((a : ℕ) → held_by a t' ≤ one_at a p)
      → Good (update m.heap p b) t'
      → Keeps others m (t', record m { heap = update m.heap p b; next = next })
  writes t t' p next b f free grows below less good = record {
    fits = record {
      once = λ a. ground (arith, less a, f.once a);
      fresh = λ a k. ground (arith, less a, f.fresh a (omega arith));
      cached = λ a k. ground (arith, f.cached a k);
      good = good;
      queue =
          f.queue
          ∙ ap (λ x. m.received ++ x)
              (sym (contents-eq m.heap (update m.heap p b) m.chan (λ a k. ground arith)));
    };
    frame = λ a k. ground arith;
  }

  -- A new buffer that the payload fits.
  pub allocates :
      (t : Thread) (src : Bytes) (n : ℕ)
      → Fits others t m
      → length src ≤ n
      → Keeps others m (filling src m.next, allocate m n)
  allocates t src n f fits =
      writes t (filling src m.next) m.next (suc m.next) (new_buffer_wrap n) f
        (omega (arith, f.fresh m.next (omega arith))) (omega arith) (omega arith) (λ a. omega arith)
        (ground (arith, capacity-new_buffer_wrap n))
