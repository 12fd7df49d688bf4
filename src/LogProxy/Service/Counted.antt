-- ===== src/LogProxy/Service/Counted.antt =====
-- A call of `Write` sends its payload once at most.
use vlgo.Shared.{
  ℕ, zero, suc, ◌+◌, ◌≤◌, ◌≡◌, refl, ap, inl, inr, Bool-cases, List, [], ◌∷◌, ◌++◌, Option, none,
  some, ltb, ◌==◌, arith, length, length-append, get_elem?, replicate,
}
use vlgo.LogProxy.Buffer.{Bytes, capacity, default_log_buffer_size}
use vlgo.LogProxy.Batch.{Sink}
use vlgo.LogProxy.Sharing
use vlgo.LogProxy.Sharing.{
  Thread, idle, done, loading, swapping, filling, sending, waiting, reading, storing, Memory,
  get_buffer_entry, load_slot, get_buffer_loop, swap_slot, store_slot, put_buffer_loop, send,
  advance, step_at, log_buffer_cache_count, max_log_chan_size,
}
use vlgo.LogProxy.Service.{
  Call, calls, proceeds, expires, choice_of, Move, writes, consumes, Service, new_log_proxy_writer,
  serve, serve_all,
}
use vlgo.LogProxy.Service.Effects.{consume_at-Effect}
use vlgo.LogProxy.Service.Bytewise.{ServiceInv, serve-Inv, new_log_proxy_writer-Inv}

-- The payloads that a goroutine is still to send.
abbrev carried : Thread → ℕ
carried (loading src i) = 1
carried (swapping src i old) = 1
carried (filling src p) = 1
carried (sending src p) = 1
carried (waiting src p) = 1
carried t = 0

abbrev pub calls_of : Call → ℕ
calls_of (calls src) = 1
calls_of c = 0

-- The calls of `Write` among the steps.
abbrev pub write_count : List Move → ℕ
write_count [] = 0
write_count (writes k c ∷ es) = calls_of c + write_count es
write_count (consumes ∷ es) = write_count es

pub write_count-append :
    (es fs : List Move) → write_count (es ++ fs) ≡ write_count es + write_count fs
write_count-append [] fs = omega arith
write_count-append (writes k c ∷ es) fs = omega (arith, write_count-append es fs)
write_count-append (consumes ∷ es) fs = write_count-append es fs

-- A step of a goroutine, where `n` bounds what it has sent and is still to send.
abbrev AtMost : ℕ → Thread × Memory → Type 0
AtMost n (t, m) = carried t + length m.sent ≤ n

module _ (m : Memory) (n : ℕ) where
  entry-AtMost : (src : Bytes) → suc (length m.sent) ≤ n → AtMost n (get_buffer_entry src m)
  entry-AtMost src p = elim (Bool-cases (ltb default_log_buffer_size (length src))) [
    | inl big ↦ rw big (omega arith)
    | inr small ↦ rw small (omega arith)
  ]

  load_slot-AtMost :
      (src : Bytes) (i : ℕ) (o : Option (Option ℕ))
      → suc (length m.sent) ≤ n
      → AtMost n (load_slot src i o m)
  load_slot-AtMost src i (some (some old)) p = omega arith
  load_slot-AtMost src i (some none) p = omega arith
  load_slot-AtMost src i none p = omega arith

  get_buffer_loop-AtMost :
      (src : Bytes) (i : ℕ) → suc (length m.sent) ≤ n → AtMost n (get_buffer_loop src i m)
  get_buffer_loop-AtMost src i p = elim (Bool-cases (ltb i log_buffer_cache_count)) [
    | inl more ↦ rw more (load_slot-AtMost src i (get_elem? m.slots i) p)
    | inr end ↦ rw end (omega arith)
  ]

  swap_slot-AtMost :
      (src : Bytes) (i old : ℕ) (o : Option (Option ℕ))
      → suc (length m.sent) ≤ n
      → AtMost n (swap_slot src i old o m)
  swap_slot-AtMost src i old (some (some q)) p = elim (Bool-cases (q == old)) [
    | inl same ↦ rw same (omega arith)
    | inr other ↦ rw other (omega arith)
  ]
  swap_slot-AtMost src i old (some none) p = omega arith
  swap_slot-AtMost src i old none p = omega arith

  send-AtMost :
      (src : Bytes) (q : ℕ) → suc (length m.sent) ≤ n → AtMost n (send src q (waiting src q) m)
  send-AtMost src q p = elim (Bool-cases (ltb (length m.chan) max_log_chan_size)) [
    | inl room ↦ rw room (omega (arith, length-append m.sent (src ∷ [])))
    | inr full ↦ rw full (omega arith)
  ]

  store_slot-AtMost :
      (q i : ℕ) (o : Option (Option ℕ)) → length m.sent ≤ n → AtMost n (store_slot q i o m)
  store_slot-AtMost q i (some none) p = omega arith
  store_slot-AtMost q i (some (some r)) p = omega arith
  store_slot-AtMost q i none p = omega arith

  put_buffer_loop-AtMost : (q i : ℕ) → length m.sent ≤ n → AtMost n (put_buffer_loop q i m)
  put_buffer_loop-AtMost q i p = elim (Bool-cases (ltb i log_buffer_cache_count)) [
    | inl more ↦ rw more (store_slot-AtMost q i (get_elem? m.slots i) p)
    | inr end ↦ rw end (omega arith)
  ]

  advance-AtMost :
      (c : Call) (t : Thread)
      → calls_of c + (carried t + length m.sent) ≤ n
      → AtMost n (advance (choice_of c) t m)
  unfolding advance
  advance-AtMost (calls src) idle p = entry-AtMost src (omega arith)
  advance-AtMost (calls src) (done r b) p = entry-AtMost src (omega arith)
  advance-AtMost proceeds (loading src i) p = get_buffer_loop-AtMost src i (omega arith)
  advance-AtMost proceeds (swapping src i old) p =
      swap_slot-AtMost src i old (get_elem? m.slots i) (omega arith)
  advance-AtMost proceeds (sending src q) p = send-AtMost src q (omega arith)
  advance-AtMost proceeds (waiting src q) p = send-AtMost src q (omega arith)
  advance-AtMost proceeds (storing q i) p = put_buffer_loop-AtMost q i (omega arith)
  advance-AtMost proceeds (filling src q) p = omega arith
  advance-AtMost proceeds (reading src q) p =
      elim (Bool-cases (capacity (m.heap q) == default_log_buffer_size)) [
        | inl full ↦ rw full (omega arith)
        | inr other ↦ rw other (omega arith)
      ]
  advance-AtMost proceeds idle p = omega arith
  advance-AtMost proceeds (done r b) p = omega arith
  advance-AtMost expires (waiting src q) p = omega arith
  advance-AtMost expires t p = omega arith
  advance-AtMost (calls src) t p = omega arith

abbrev carried_all : List Thread → ℕ
carried_all [] = 0
carried_all (t ∷ ts) = carried t + carried_all ts

abbrev AllAtMost : ℕ → List Thread × Memory → Type 0
AllAtMost n (ts, m) = carried_all ts + length m.sent ≤ n

step_at-AllAtMost :
    (k : ℕ) (c : Call) (ts : List Thread) (m : Memory)
    → AllAtMost (calls_of c + (carried_all ts + length m.sent)) (step_at k (choice_of c) ts m)
unfolding step_at
step_at-AllAtMost zero c [] m = omega arith
step_at-AllAtMost (suc k) c [] m = omega arith
step_at-AllAtMost zero c (t ∷ ts) m =
    omega (arith, advance-AtMost m (calls_of c + (carried t + length m.sent)) c t (omega arith))
step_at-AllAtMost (suc k) c (t ∷ ts) m = omega (arith, step_at-AllAtMost k c ts m)

carried_all-idle : (n : ℕ) → carried_all (replicate n idle) ≡ 0
carried_all-idle zero = refl
carried_all-idle (suc n) = omega (arith, carried_all-idle n)

module _ {S : Type 0} (w : Sink S) where
  abbrev ServiceAtMost : ℕ → Service S → Type 0
  ServiceAtMost n s = AllAtMost n (s.system.threads, s.system.memory)

  serve_all-AtMost :
      (s : Service S) (es : List Move)
      → ServiceInv s
      → ServiceAtMost
          (write_count es + (carried_all s.system.threads + length s.system.memory.sent))
          (serve_all w s es)
  unfolding serve_all serve Sharing.step
  serve_all-AtMost s [] i = omega arith
  serve_all-AtMost s (writes k c ∷ es) i = omega (
    arith,
    step_at-AllAtMost k c s.system.threads s.system.memory,
    serve_all-AtMost (serve w s (writes k c)) es (serve-Inv w s (writes k c) i),
  )
  serve_all-AtMost s (consumes ∷ es) i = omega (
    arith,
    ap length (consume_at-Effect w s.consumer s.consumer.stage s.system.memory i.good).1,
    serve_all-AtMost (serve w s consumes) es (serve-Inv w s consumes i),
  )

  -- Under every interleaving, no more payloads have been accepted than there were calls of `Write`.
  pub sent-le-write_count :
      (s : S) (n : ℕ) (es : List Move)
      → length (serve_all w (new_log_proxy_writer s n) es).system.memory.sent ≤ write_count es
  sent-le-write_count s n es = omega (
    arith,
    carried_all-idle n,
    serve_all-AtMost (new_log_proxy_writer s n) es (new_log_proxy_writer-Inv s n),
  )
