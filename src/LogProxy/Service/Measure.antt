-- ===== src/LogProxy/Service/Measure.antt =====
-- The measure of the consumer: every step of it makes it smaller, until it is blocked in the receive of
-- `writeLog`. A log in the channel counts for more than the longest way from one receive to the next.
use vlgo.Shared.{
  ℕ, suc, ◌+◌, ◌-◌, ◌*◌, ◌≤◌, ◌<◌, ◌≡◌, refl, ap, inl, inr, List, [], ◌∷◌, ◌++◌, Option, none, some,
  arith, ltb, ◌==◌, Bool-cases, length, get_elem?,
}
use vlgo.LogProxy.Buffer.{Bytes, buffer, capacity, default_log_buffer_size, log_temp_buffer_size}
use vlgo.LogProxy.Batch.{Heap, Outcome, written, failed, crashed, Sink, over}
use vlgo.LogProxy.Batch.Order.{bytes_of}
use vlgo.LogProxy.Sharing.{Memory, put_buffer_loop, store_slot, log_buffer_cache_count}
use vlgo.LogProxy.Service.{
  Stage, selecting, polling, appending, putting, writing_first, writing_temp, writing_next,
  Consumer, put, then_next, then_temp, then_first, after_put, copies, receive_first, round, poll,
  wrote, consume_at,
}
use vlgo.LogProxy.Service.Consuming.{put_buffer_loop-OnlySlots}

-- At most as many steps as the stage has left before the next receive.
abbrev pub weight : Stage → ℕ
weight selecting = 0
weight (polling temp first) = 22
weight (appending temp n) = 32
weight (putting p i k) = suc (log_buffer_cache_count - i) + weight k
weight (writing_first f temp next) = 21
weight (writing_temp temp next) = 11
weight (writing_next n) = 10

abbrev pub steps_per_log : ℕ
steps_per_log = 23

-- The steps left, with the logs in the channel.
abbrev pub steps_left : Stage → Memory → ℕ
steps_left k m = steps_per_log * length m.chan + weight k

weight-then_next : (next : Option ℕ) → weight (then_next next) ≤ 10
weight-then_next none = omega arith
weight-then_next (some n) = omega arith

weight-then_temp : (temp : Bytes) (next : Option ℕ) → weight (then_temp temp next) ≤ 11
weight-then_temp [] next = omega (arith, weight-then_next next)
weight-then_temp (b ∷ bs) next = omega arith

weight-then_first :
    (first : Option ℕ) (temp : Bytes) (next : Option ℕ) → weight (then_first first temp next) ≤ 21
weight-then_first none temp next = omega (arith, weight-then_temp temp next)
weight-then_first (some f) temp next = omega arith

weight-put : (h : Heap) (p : ℕ) (k : Stage) → weight (put h p k) ≤ 9 + weight k
weight-put h p k = elim (Bool-cases (capacity (h p) == default_log_buffer_size)) [
  | inl full ↦ rw full (omega arith)
  | inr other ↦ rw other (omega arith)
]

module _ {S : Type 0} where
  weight-copies :
      (temp : Bytes) (len : ℕ) (bs : Bytes) (k : Stage) (c : Consumer S)
      → weight (copies temp len bs k c).stage ≤ weight k
  weight-copies temp len bs k c = elim (Bool-cases (ltb log_temp_buffer_size (length temp + len))) [
    | inl past ↦ rw past (omega arith)
    | inr room ↦ rw room (omega arith)
  ]

  weight-wrote :
      (bs later : Bytes) (k : Stage) (r : S × Outcome) (c : Consumer S)
      → weight (wrote bs later k r c).stage ≤ weight k
  weight-wrote bs later k (s, crashed) c = omega arith
  weight-wrote bs later k (s, written) c = omega arith
  weight-wrote bs later k (s, failed) c = omega arith

  weight-round :
      (h : Heap) (temp : Bytes) (first : Option ℕ) (n : ℕ) (c : Consumer S)
      → weight (round h temp first n c).stage ≤ 41
  weight-round h temp (some f) n c = elim (Bool-cases (over (h f).len (h n).len)) [
    | inl full ↦ rw full (omega arith)
    | inr fits ↦ rw fits (
        omega (
          arith,
          weight-copies temp (h f).len (temp ++ (buffer (h f) ++ buffer (h n)))
              (put h f (appending (temp ++ buffer (h f)) n)) c,
          weight-put h f (appending (temp ++ buffer (h f)) n),
        ))
  ]
  weight-round h temp none n c = elim (Bool-cases (over (length temp) (h n).len)) [
    | inl full ↦ rw full (omega (arith, weight-then_temp temp (some n)))
    | inr fits ↦ rw fits (omega arith)
  ]

-- A step of `PutBuffer` moves to the next slot, or ends.
weight-put_buffer_loop :
    (p i : ℕ) (k : Stage) (m : Memory)
    → weight (after_put (put_buffer_loop p i m).0 k) < weight (putting p i k)
weight-put_buffer_loop p i k m = elim (Bool-cases (ltb i log_buffer_cache_count)) [
  | inl more ↦
      let below : i < log_buffer_cache_count = ground arith in
      rw more (weight-store_slot (get_elem? m.slots i) below)
  | inr end ↦ rw end (omega arith)
]
  where
    weight-store_slot :
        (o : Option (Option ℕ))
        → i < log_buffer_cache_count
        → weight (after_put (store_slot p i o m).0 k) < weight (putting p i k)
    weight-store_slot (some none) below = omega arith
    weight-store_slot (some (some q)) below = omega arith
    weight-store_slot none below = omega arith

module _ {S : Type 0} where
  abbrev pub left_after : Consumer S × Memory → ℕ
  left_after (c, m) = steps_left c.stage m

  receive_first-lower :
      (ps : List ℕ) (c : Consumer S) (m : Memory)
      → m.chan ≡ ps
      → left_after (receive_first ps c m) ≤ steps_left selecting m - 1
  receive_first-lower [] c m e = omega (arith, ap length e)
  receive_first-lower (p ∷ rest) c m e = omega (arith, ap length e)

  poll-lower :
      (temp : Bytes) (first : Option ℕ) (ps : List ℕ) (c : Consumer S) (m : Memory)
      → m.chan ≡ ps
      → left_after (poll temp first ps c m) ≤ steps_left (polling temp first) m - 1
  poll-lower temp first [] c m e = omega (arith, weight-then_first first temp none)
  poll-lower temp first (n ∷ rest) c m e =
      omega (arith, ap length e, weight-round m.heap temp first n c)

  module _ (w : Sink S) (c : Consumer S) (m : Memory) where
    pub consume_at-lower : (k : Stage) → left_after (consume_at w k c m) ≤ steps_left k m - 1
    unfolding consume_at
    consume_at-lower selecting = receive_first-lower m.chan c m refl
    consume_at-lower (polling temp first) = poll-lower temp first m.chan c m refl
    consume_at-lower (appending temp n) = omega (
      arith,
      weight-copies temp (m.heap n).len (temp ++ buffer (m.heap n))
          (put m.heap n (polling (temp ++ buffer (m.heap n)) none)) c,
      weight-put m.heap n (polling (temp ++ buffer (m.heap n)) none),
    )
    consume_at-lower (putting p i k) =
        omega
          (arith, weight-put_buffer_loop p i k m, ap length (put_buffer_loop-OnlySlots m p i).chan)
    consume_at-lower (writing_first f temp next) = omega (
      arith,
      weight-wrote (buffer (m.heap f)) (temp ++ bytes_of m.heap next)
          (put m.heap f (then_temp temp next)) (w c.sink (buffer (m.heap f))) c,
      weight-put m.heap f (then_temp temp next),
      weight-then_temp temp next,
    )
    consume_at-lower (writing_temp temp next) = omega (
      arith,
      weight-wrote temp (bytes_of m.heap next) (then_next next) (w c.sink temp) c,
      weight-then_next next,
    )
    consume_at-lower (writing_next n) = omega (
      arith,
      weight-wrote (buffer (m.heap n)) [] (put m.heap n selecting) (w c.sink (buffer (m.heap n))) c,
      weight-put m.heap n selecting,
    )
