-- ===== src/LogProxy/Sharing/Advance.antt =====
-- One operation of one goroutine, beside whatever the others hold.
use vlgo.Shared.{
  ℕ, suc, ◌≡◌, refl, sym, ap, ◌∙◌, inl, inr, true, false, List, [], ◌∷◌, ◌++◌, Option, none, some,
  append_assoc, arith, ltb, ◌==◌, if◌then◌else◌, Bool-cases, length, get_elem?, set,
}
use vlgo.LogProxy.Buffer.{Bytes, buffer, capacity, copy, default_log_buffer_size, buffer-copy}
use vlgo.LogProxy.Sharing.Fits
use vlgo.LogProxy.Sharing.Fits.{contents, contents-append, Good, Fits, Keeps}
use vlgo.LogProxy.Sharing.{
  Thread, idle, done, loading, swapping, filling, sending, waiting, reading, storing, Memory,
  Choice, proceed, expire, receive, call, update, get_buffer_entry, load_slot, get_buffer_loop,
  swap_slot, store_slot, put_buffer_loop, send, receive_from, advance, log_buffer_cache_count,
  max_log_chan_size,
}
use vlgo.LogProxy.Sharing.Owners.{
  one_at, in_chan, held_by, in_slots-set, in_chan-append, in_slots-get_elem?,
}

module _ (others : ℕ → ℕ) (m : Memory) where
  get_buffer_entry-Keeps :
      (t : Thread) (src : Bytes) → Fits others t m → Keeps others m (get_buffer_entry src m)
  get_buffer_entry-Keeps t src f = elim (Bool-cases (ltb default_log_buffer_size (length src))) [
    | inl big ↦ rw big (Fits.allocates others m t src (length src) f (omega arith))
    | inr small ↦
        rw small (Fits.stays others m t (loading src 0) f (λ a. omega arith) (ground arith))
  ]

  load_slot-Keeps :
      (src : Bytes) (i j : ℕ) (o : Option (Option ℕ))
      → Fits others (loading src j) m
      → Keeps others m (load_slot src i o m)
  load_slot-Keeps src i j (some (some old)) f = Fits.stays others m _ _ f (λ a. omega arith) f.good
  load_slot-Keeps src i j (some none) f = Fits.stays others m _ _ f (λ a. omega arith) f.good
  load_slot-Keeps src i j none f = Fits.stays others m _ _ f (λ a. omega arith) f.good

  get_buffer_loop-Keeps :
      (src : Bytes) (i : ℕ)
      → Fits others (loading src i) m
      → Keeps others m (get_buffer_loop src i m)
  get_buffer_loop-Keeps src i f = elim (Bool-cases (ltb i log_buffer_cache_count)) [
    | inl more ↦ rw more (load_slot-Keeps src i i (get_elem? m.slots i) f)
    | inr end ↦
        rw end (Fits.allocates others m (loading src i) src default_log_buffer_size f f.good)
  ]

  -- Taking a buffer out of the cache.
  takes :
      (src : Bytes) (i old : ℕ)
      → get_elem? m.slots i ≡ some (some old)
      → Fits others (swapping src i old) m
      → Keeps others m (filling src old, record m { slots = set m.slots i none })
  takes src i old e f =
      Fits.moves others m (swapping src i old) (filling src old) (set m.slots i none) m.chan m.sent
        m.received f (λ a. omega (arith, in_slots-set a m.slots i (some old) none e))
        (λ a k. f.cached a (omega (arith, in_slots-set a m.slots i (some old) none e)))
        (omega (arith, f.good, f.cached old (in_slots-get_elem? old m.slots i e))) f.queue

  swap_slot-Keeps :
      (src : Bytes) (i old : ℕ) (o : Option (Option ℕ))
      → get_elem? m.slots i ≡ o
      → Fits others (swapping src i old) m
      → Keeps others m (swap_slot src i old o m)
  swap_slot-Keeps src i old (some (some p)) e f = elim (Bool-cases (p == old)) [
    | inl same ↦ rw same (takes src i old (e ∙ ground arith) f)
    | inr other ↦ rw other (Fits.stays others m _ (loading src (suc i)) f (λ a. omega arith) f.good)
  ]
  swap_slot-Keeps src i old (some none) e f = Fits.stays others m _ _ f (λ a. omega arith) f.good
  swap_slot-Keeps src i old none e f = Fits.stays others m _ _ f (λ a. omega arith) f.good

  -- Putting a buffer into an empty slot.
  store_slot-Keeps :
      (p i : ℕ) (o : Option (Option ℕ))
      → get_elem? m.slots i ≡ o
      → Fits others (storing p i) m
      → Keeps others m (store_slot p i o m)
  store_slot-Keeps p i (some none) e f =
      Fits.moves others m (storing p i) idle (set m.slots i (some p)) m.chan m.sent m.received f
        (λ a. omega (arith, in_slots-set a m.slots i none (some p) e))
        (λ a k. ground (arith, in_slots-set a m.slots i none (some p) e, f.good, f.cached a)) tt
        f.queue
  store_slot-Keeps p i (some (some q)) e f = Fits.stays others m _ _ f (λ a. omega arith) f.good
  store_slot-Keeps p i none e f = Fits.stays others m _ _ f (λ a. omega arith) f.good

  pub put_buffer_loop-Keeps :
      (p i : ℕ) → Fits others (storing p i) m → Keeps others m (put_buffer_loop p i m)
  put_buffer_loop-Keeps p i f = elim (Bool-cases (ltb i log_buffer_cache_count)) [
    | inl more ↦ rw more (store_slot-Keeps p i (get_elem? m.slots i) refl f)
    | inr end ↦ rw end (Fits.stays others m (storing p i) idle f (λ a. omega arith) tt)
  ]

  fills :
      (src : Bytes) (p : ℕ)
      → Fits others (filling src p) m
      → Keeps others m (sending src p, record m { heap = update m.heap p (copy (m.heap p) src) })
  fills src p f =
      Fits.writes others m (filling src p) (sending src p) p m.next (copy (m.heap p) src) f
        (ground (arith, f.once p)) (omega arith) (ground (arith, f.fresh p)) (λ a. omega arith)
        (ground (arith, buffer-copy (m.heap p) src f.good))

  -- A send, from either `select`; `t` and `full` hold the same buffer.
  send-Keeps :
      (t full : Thread) (src : Bytes) (p : ℕ)
      → Fits others t m
      → ((a : ℕ) → held_by a t ≡ one_at a p)
      → ((a : ℕ) → held_by a full ≡ one_at a p)
      → Good m.heap full
      → buffer (m.heap p) ≡ src
      → Keeps others m (send src p full m)
  send-Keeps t full src p f own keep good filled =
      elim (Bool-cases (ltb (length m.chan) max_log_chan_size)) [
        | inl room ↦ rw room (
            Fits.moves others m t (done (length src) false) m.slots (m.chan ++ p ∷ [])
              (m.sent ++ src ∷ []) m.received f
              (λ a. omega (arith, own a, in_chan-append a m.chan (p ∷ []))) f.cached tt
              (rw (f.queue, contents-append m.heap m.chan (p ∷ []), filled)
                (append_assoc m.received _ _)))
        | inr none_left ↦
            rw none_left (Fits.stays others m t full f (λ a. omega (arith, own a, keep a)) good)
      ]

  receive_from-Keeps :
      (ps : List ℕ) → m.chan ≡ ps → Fits others idle m → Keeps others m (receive_from ps m)
  receive_from-Keeps [] e f = Fits.stays others m idle idle f (λ a. omega arith) tt
  receive_from-Keeps (p ∷ rest) e f =
      Fits.moves others m idle (reading (buffer (m.heap p)) p) m.slots rest m.sent
        (m.received ++ buffer (m.heap p) ∷ []) f (λ a. omega (arith, ap (in_chan a) e)) f.cached
        refl
        (f.queue ∙ ap (λ x. m.received ++ contents m.heap x) e ∙ sym (append_assoc m.received _ _))

  reads :
      (src : Bytes) (p : ℕ)
      → Fits others (reading src p) m
      → Keeps others m
          (if capacity (m.heap p) == default_log_buffer_size then storing p 0 else idle, m)
  reads src p f = elim (Bool-cases (capacity (m.heap p) == default_log_buffer_size)) [
    | inl full ↦
        rw full
          (Fits.stays others m (reading src p) (storing p 0) f (λ a. omega arith) (ground arith))
    | inr other ↦ rw other (Fits.stays others m (reading src p) idle f (λ a. omega arith) tt)
  ]

  -- Every operation keeps the invariant, and leaves the buffers of the others alone.
  pub advance-Keeps : (c : Choice) (t : Thread) → Fits others t m → Keeps others m (advance c t m)
  unfolding advance
  advance-Keeps (call src) idle f = get_buffer_entry-Keeps idle src f
  advance-Keeps (call src) (done n failed) f = get_buffer_entry-Keeps (done n failed) src f
  advance-Keeps receive idle f = receive_from-Keeps m.chan refl f
  advance-Keeps proceed (loading src i) f = get_buffer_loop-Keeps src i f
  advance-Keeps proceed (swapping src i old) f =
      swap_slot-Keeps src i old (get_elem? m.slots i) refl f
  advance-Keeps proceed (filling src p) f = fills src p f
  advance-Keeps proceed (sending src p) f =
      send-Keeps (sending src p) (waiting src p) src p f (λ a. refl) (λ a. refl) f.good f.good
  advance-Keeps proceed (waiting src p) f =
      send-Keeps (waiting src p) (waiting src p) src p f (λ a. refl) (λ a. refl) f.good f.good
  advance-Keeps expire (waiting src p) f =
      Fits.stays others m (waiting src p) (done 0 true) f (λ a. omega arith) tt
  advance-Keeps proceed (reading src p) f = reads src p f
  advance-Keeps proceed (storing p i) f = put_buffer_loop-Keeps p i f
  advance-Keeps _ t f = Fits.stays others m t t f (λ a. omega arith) f.good
