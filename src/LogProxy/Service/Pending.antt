-- ===== src/LogProxy/Service/Pending.antt =====
-- The bytes that the consumer has received and not yet given to the underlying writer, and what a
-- change of its stage does to them.
use vlgo.Shared.{
  ℕ, ◌+◌, ◌≤◌, ◌<◌, ◌≡◌, refl, sym, ap, ◌∙◌, inl, inr, List, [], ◌∷◌, ◌++◌, Option, none, some,
  append-nil, append_assoc, arith, ◌==◌, Bool-cases, concat, concat-append,
}
use vlgo.LogProxy.Buffer.{Bytes, buffer, capacity, default_log_buffer_size}
use vlgo.LogProxy.Batch.{Heap}
use vlgo.LogProxy.Batch.Order.{bytes_of}
use vlgo.LogProxy.Sharing.{
  Thread, idle, done, loading, swapping, filling, sending, waiting, reading, storing, Memory,
  receive_from,
}
use vlgo.LogProxy.Sharing.Owners.{one_at, in_slot}
use vlgo.LogProxy.Sharing.Exclusive.{AllFit}
use vlgo.LogProxy.Service.{
  Stage, selecting, polling, appending, putting, writing_first, writing_temp, writing_next, Entry,
  offered, lost, put, then_next, then_temp, then_first, after_put,
}
use vlgo.LogProxy.Service.Ownership.{
  holds, GoodStage, AllFit-le, receive_from-AllFit, holds-put, GoodStage-put,
}

abbrev pub pending : Heap → Stage → Bytes
pending h selecting = []
pending h (polling temp first) = bytes_of h first ++ temp
pending h (appending temp n) = temp ++ buffer (h n)
pending h (putting p i k) = pending h k
pending h (writing_first f temp next) = buffer (h f) ++ (temp ++ bytes_of h next)
pending h (writing_temp temp next) = temp ++ bytes_of h next
pending h (writing_next n) = buffer (h n)

abbrev pub log_bytes : List Entry → Bytes
log_bytes [] = []
log_bytes (offered bs ∷ es) = bs ++ log_bytes es
log_bytes (lost bs ∷ es) = bs ++ log_bytes es

pub log_bytes-append : (es fs : List Entry) → log_bytes (es ++ fs) ≡ log_bytes es ++ log_bytes fs
log_bytes-append [] fs = refl
log_bytes-append (offered bs ∷ es) fs =
    ap (λ x. bs ++ x) (log_bytes-append es fs) ∙ sym (append_assoc bs (log_bytes es) (log_bytes fs))
log_bytes-append (lost bs ∷ es) fs =
    ap (λ x. bs ++ x) (log_bytes-append es fs) ∙ sym (append_assoc bs (log_bytes es) (log_bytes fs))

bytes_of-eq :
    (h h' : Heap) (o : Option ℕ)
    → ((a : ℕ) → 0 < in_slot a o → h' a ≡ h a)
    → bytes_of h' o ≡ bytes_of h o
bytes_of-eq h h' none same = refl
bytes_of-eq h h' (some p) same = ap buffer (same p (ground arith))

pub pending-eq :
    (h h' : Heap) (k : Stage) → ((a : ℕ) → 0 < holds a k → h' a ≡ h a) → pending h' k ≡ pending h k
pending-eq h h' selecting same = refl
pending-eq h h' (polling temp first) same = ap (λ x. x ++ temp) (bytes_of-eq h h' first same)
pending-eq h h' (appending temp n) same = ap (λ x. temp ++ buffer x) (same n (ground arith))
pending-eq h h' (putting p i k) same = pending-eq h h' k (λ a l. same a (omega arith))
pending-eq h h' (writing_first f temp next) same =
    ap (λ x. buffer x ++ (temp ++ bytes_of h' next)) (same f (ground arith))
    ∙ ap (λ x. buffer (h f) ++ (temp ++ x)) (bytes_of-eq h h' next (λ a l. same a (omega arith)))
pending-eq h h' (writing_temp temp next) same = ap (λ x. temp ++ x) (bytes_of-eq h h' next same)
pending-eq h h' (writing_next n) same = ap buffer (same n (ground arith))

-- A change of stage that neither takes a buffer nor changes what is pending.
pub record Continues (h : Heap) (holding : ℕ → ℕ) (bs : Bytes) (k : Stage) : Type 0 where
  pub held : (a : ℕ) → holds a k ≤ holding a
  pub good : GoodStage h k
  pub same : pending h k ≡ bs

module _ (h : Heap) where
  pub then_next-Continues :
      (next : Option ℕ) → Continues h (λ a. in_slot a next) (bytes_of h next) (then_next next)
  then_next-Continues none = record { held = λ a. omega arith; good = tt; same = refl }
  then_next-Continues (some n) = record { held = λ a. omega arith; good = tt; same = refl }

  pub then_temp-Continues :
      (temp : Bytes) (next : Option ℕ)
      → Continues h (λ a. in_slot a next) (temp ++ bytes_of h next) (then_temp temp next)
  then_temp-Continues [] next = then_next-Continues next
  then_temp-Continues (b ∷ bs) next = record { held = λ a. omega arith; good = tt; same = refl }

  pub then_first-Continues :
      (first : Option ℕ) (temp : Bytes) (next : Option ℕ)
      → Continues h
          (λ a. in_slot a first + in_slot a next)
          (bytes_of h first ++ (temp ++ bytes_of h next))
          (then_first first temp next)
  then_first-Continues none temp next =
      let t = then_temp-Continues temp next in
      record { held = λ a. omega (arith, t.held a); good = t.good; same = t.same }
  then_first-Continues (some f) temp next = record {
    held = λ a. omega arith;
    good = tt;
    same = refl;
  }

  pending-put : (p : ℕ) (k : Stage) → pending h (put h p k) ≡ pending h k
  pending-put p k = elim (Bool-cases (capacity (h p) == default_log_buffer_size)) [
    | inl full ↦ rw full refl
    | inr other ↦ rw other refl
  ]

  pub put-Continues :
      (p : ℕ) (k : Stage) (holding : ℕ → ℕ) (bs : Bytes)
      → Continues h holding bs k
      → Continues h (λ a. one_at a p + holding a) bs (put h p k)
  put-Continues p k holding bs c = record {
    held = λ a. omega (arith, holds-put a h p k, c.held a);
    good = GoodStage-put h p k c.good;
    same = pending-put p k ∙ c.same;
  }

  pub put_last-Continues :
      (p : ℕ) (k : Stage) (bs : Bytes)
      → Continues h (λ a. 0) bs k
      → Continues h (λ a. one_at a p) bs (put h p k)
  put_last-Continues p k bs c =
      let t = put-Continues p k (λ a. 0) bs c in
      record { held = λ a. omega (arith, t.held a); good = t.good; same = t.same }

  pub pending-after_put : (t : Thread) (k : Stage) → pending h (after_put t k) ≡ pending h k
  pending-after_put idle k = refl
  pending-after_put (done n b) k = refl
  pending-after_put (loading src i) k = refl
  pending-after_put (swapping src i old) k = refl
  pending-after_put (filling src p) k = refl
  pending-after_put (sending src p) k = refl
  pending-after_put (waiting src p) k = refl
  pending-after_put (reading src p) k = refl
  pending-after_put (storing p i) k = refl

-- What holds of the consumer at a stage, with its history.
pub record Sound (ts : List Thread) (m : Memory) (k : Stage) (log : List Entry) : Type 0 where
  pub fits : AllFit (λ a. holds a k) ts m
  pub good : GoodStage m.heap k
  pub bytes : log_bytes log ++ pending m.heap k ≡ concat m.received

module _ (ts : List Thread) (m : Memory) where
  -- The consumer moves on within the same memory.
  pub stays-Sound :
      (k k' : Stage) (log : List Entry)
      → Sound ts m k log
      → Continues m.heap (λ a. holds a k) (pending m.heap k) k'
      → Sound ts m k' log
  stays-Sound k k' log s c = record {
    fits = AllFit-le _ _ ts m c.held s.fits;
    good = c.good;
    bytes = ap (λ x. log_bytes log ++ x) c.same ∙ s.bytes;
  }

  -- The consumer moves on within the same memory, and adds to its history what is no longer pending.
  pub goes-Sound :
      (k k' : Stage) (log new : List Entry)
      → Sound ts m k log
      → ((a : ℕ) → holds a k' ≤ holds a k)
      → GoodStage m.heap k'
      → log_bytes new ++ pending m.heap k' ≡ pending m.heap k
      → Sound ts m k' (log ++ new)
  goes-Sound k k' log new s less good same = record {
    fits = AllFit-le _ _ ts m less s.fits;
    good = good;
    bytes =
        ap (λ x. x ++ pending m.heap k') (log_bytes-append log new)
        ∙ append_assoc (log_bytes log) (log_bytes new) (pending m.heap k')
        ∙ ap (λ x. log_bytes log ++ x) same
        ∙ s.bytes;
  }

  -- The consumer receives `p`.
  pub receives-Sound :
      (k k' : Stage) (log : List Entry) (p : ℕ) (rest : List ℕ)
      → m.chan ≡ p ∷ rest
      → Sound ts m k log
      → Continues m.heap (λ a. one_at a p + holds a k) (pending m.heap k ++ buffer (m.heap p)) k'
      → Sound ts (receive_from (p ∷ rest) m).1 k' log
  receives-Sound k k' log p rest e s c = record {
    fits = AllFit-le _ _ ts _ c.held (receive_from-AllFit _ ts m p rest e s.fits);
    good = c.good;
    bytes =
        ap (λ x. log_bytes log ++ x) c.same
        ∙ sym (append_assoc (log_bytes log) (pending m.heap k) (buffer (m.heap p)))
        ∙ ap (λ x. x ++ buffer (m.heap p)) s.bytes
        ∙ ap (λ x. concat m.received ++ x) (sym (append-nil (buffer (m.heap p))))
        ∙ sym (concat-append m.received (buffer (m.heap p) ∷ []));
  }
