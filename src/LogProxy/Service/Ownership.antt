-- ===== src/LogProxy/Service/Ownership.antt =====
-- The buffers that the consumer holds, beside those of the cache, the channel and the writing
-- goroutines: each step keeps every buffer with at most one owner.
use vlgo.Shared.{
  ℕ, ◌+◌, ◌≤◌, ◌<◌, ◌≡◌, refl, sym, ap, ◌∙◌, ◌⊎◌, inl, inr, List, [], ◌∷◌, ◌++◌, none, append_assoc,
  arith, ◌==◌, Bool-cases, length,
}
use vlgo.LogProxy.Buffer.{capacity, default_log_buffer_size, log_temp_buffer_size}
use vlgo.LogProxy.Batch.{Heap}
use vlgo.LogProxy.Sharing.{
  Thread, idle, done, loading, swapping, filling, sending, waiting, reading, storing, Memory,
  put_buffer_loop, receive_from,
}
use vlgo.LogProxy.Sharing.Owners.{one_at, in_slot, in_chan, held_by}
use vlgo.LogProxy.Sharing.Fits.{contents}
use vlgo.LogProxy.Sharing.Advance.{put_buffer_loop-Keeps}
use vlgo.LogProxy.Sharing.Exclusive.{AllFit, head-AllKeep, head_Fits}
use vlgo.LogProxy.Service.{
  Stage, selecting, polling, appending, putting, writing_first, writing_temp, writing_next, put,
  after_put,
}

abbrev pub holds : ℕ → Stage → ℕ
holds a selecting = 0
holds a (polling temp first) = in_slot a first
holds a (appending temp n) = one_at a n
holds a (putting p i k) = one_at a p + holds a k
holds a (writing_first f temp next) = one_at a f + in_slot a next
holds a (writing_temp temp next) = in_slot a next
holds a (writing_next n) = one_at a n

-- What the consumer relies on where it stands.
abbrev pub GoodStage : Heap → Stage → Type 0
GoodStage h selecting = Unit
GoodStage h (polling temp first) =
    (length temp ≤ log_temp_buffer_size) × ((first ≡ none) ⊎ (temp ≡ []))
GoodStage h (appending temp n) = length temp + (h n).len ≤ log_temp_buffer_size
GoodStage h (putting p i k) = (capacity (h p) ≡ default_log_buffer_size) × GoodStage h k
GoodStage h (writing_first f temp next) = Unit
GoodStage h (writing_temp temp next) = Unit
GoodStage h (writing_next n) = Unit

pub GoodStage-eq :
    (h h' : Heap) (k : Stage)
    → ((a : ℕ) → 0 < holds a k → h' a ≡ h a)
    → GoodStage h k
    → GoodStage h' k
GoodStage-eq h h' selecting same g = tt
GoodStage-eq h h' (polling temp first) same g = g
GoodStage-eq h h' (appending temp n) same g = ground (arith, same n)
GoodStage-eq h h' (putting p i k) same g =
    (ground (arith, same p), GoodStage-eq h h' k (λ a l. same a (omega arith)) g.1)
GoodStage-eq h h' (writing_first f temp next) same g = tt
GoodStage-eq h h' (writing_temp temp next) same g = tt
GoodStage-eq h h' (writing_next n) same g = tt

-- A stage that holds no more.
pub AllFit-le :
    (others others' : ℕ → ℕ) (ts : List Thread) (m : Memory)
    → ((a : ℕ) → others' a ≤ others a)
    → AllFit others ts m
    → AllFit others' ts m
AllFit-le others others' ts m less f = record {
  once = λ a. omega (arith, less a, f.once a);
  fresh = λ a p. omega (arith, less a, f.fresh a p);
  cached = f.cached;
  good = f.good;
  queue = f.queue;
}

-- A receive hands a buffer to the consumer.
pub receive_from-AllFit :
    (others : ℕ → ℕ) (ts : List Thread) (m : Memory) (p : ℕ) (rest : List ℕ)
    → m.chan ≡ p ∷ rest
    → AllFit others ts m
    → AllFit (λ a. one_at a p + others a) ts (receive_from (p ∷ rest) m).1
receive_from-AllFit others ts m p rest e f = record {
  once = λ a. omega (arith, ap (in_chan a) e, f.once a);
  fresh = λ a k. omega (arith, ap (in_chan a) e, f.fresh a k);
  cached = f.cached;
  good = f.good;
  queue = f.queue ∙ ap (λ x. m.received ++ contents m.heap x) e ∙ sym (append_assoc m.received _ _);
}

-- A step of `PutBuffer` moves a buffer from the consumer to the cache, drops it, or moves on.
pub put_buffer_loop-AllFit :
    (others : ℕ → ℕ) (ts : List Thread) (m : Memory) (p i : ℕ)
    → capacity (m.heap p) ≡ default_log_buffer_size
    → AllFit (λ a. one_at a p + others a) ts m
    → AllFit others ((put_buffer_loop p i m).0 ∷ ts) (put_buffer_loop p i m).1
put_buffer_loop-AllFit others ts m p i full f =
    let all : AllFit others (storing p i ∷ ts) m = record {
      once = λ a. omega (arith, f.once a);
      fresh = λ a k. omega (arith, f.fresh a k);
      cached = f.cached;
      good = (full, f.good);
      queue = f.queue;
    } in
    (head-AllKeep others (storing p i) ts m (put_buffer_loop p i m) all
      (put_buffer_loop-Keeps _ m p i (head_Fits others (storing p i) ts m all))).fits

pub holds-after_put :
    (a : ℕ) (t : Thread) (k : Stage) → holds a (after_put t k) ≤ held_by a t + holds a k
holds-after_put a idle k = omega arith
holds-after_put a (done n b) k = omega arith
holds-after_put a (loading src i) k = omega arith
holds-after_put a (swapping src i old) k = omega arith
holds-after_put a (filling src p) k = omega arith
holds-after_put a (sending src p) k = omega arith
holds-after_put a (waiting src p) k = omega arith
holds-after_put a (reading src p) k = omega arith
holds-after_put a (storing p i) k = omega arith

pub GoodStage-after_put :
    (h : Heap) (t : Thread) (k : Stage)
    → ((p i : ℕ) → t ≡ storing p i → capacity (h p) ≡ default_log_buffer_size)
    → GoodStage h k
    → GoodStage h (after_put t k)
GoodStage-after_put h idle k full g = g
GoodStage-after_put h (done n b) k full g = g
GoodStage-after_put h (loading src i) k full g = g
GoodStage-after_put h (swapping src i old) k full g = g
GoodStage-after_put h (filling src p) k full g = g
GoodStage-after_put h (sending src p) k full g = g
GoodStage-after_put h (waiting src p) k full g = g
GoodStage-after_put h (reading src p) k full g = g
GoodStage-after_put h (storing p i) k full g = (full p i refl, g)

pub holds-put :
    (a : ℕ) (h : Heap) (p : ℕ) (k : Stage) → holds a (put h p k) ≤ one_at a p + holds a k
holds-put a h p k = elim (Bool-cases (capacity (h p) == default_log_buffer_size)) [
  | inl full ↦ rw full (omega arith)
  | inr other ↦ rw other (omega arith)
]

pub GoodStage-put : (h : Heap) (p : ℕ) (k : Stage) → GoodStage h k → GoodStage h (put h p k)
GoodStage-put h p k g = elim (Bool-cases (capacity (h p) == default_log_buffer_size)) [
  | inl full ↦ rw full (ground arith, g)
  | inr other ↦ rw other g
]
