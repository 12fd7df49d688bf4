-- ===== src/LogProxy/Sharing.antt =====
-- The goroutines that share the buffer cache and the channel: `GetBuffer` and `PutBuffer` of
-- logger/logproxy/log_proxy_buffer.go and `Write` of log_proxy_writer.go, one atomic operation a step.
-- The consumer goroutine is a thread for each buffer that it holds.
pub mod Owners
pub mod Fits
pub mod Advance
pub mod Exclusive
pub mod WaitFree
pub mod Results
use vlgo.Shared.{
  ℕ, zero, suc, ◌+◌, Bool, true, false, List, [], ◌∷◌, ◌++◌, Option, none, some, ltb, ◌==◌,
  if◌then◌else◌, length, get_elem?, set, replicate,
}
use vlgo.LogProxy.Buffer.{
  Bytes, BufferWrap, buffer, capacity, copy, new_buffer_wrap, default_log_buffer_size,
}
use vlgo.LogProxy.Batch.{Heap}

abbrev pub log_buffer_cache_count : ℕ
log_buffer_cache_count = 8

abbrev pub max_log_chan_size : ℕ
max_log_chan_size = 2048

-- Where a goroutine stands. `idle` is outside any call, `done n failed` behind a `Write` that returned
-- `n` and, if it failed, an error.
pub data Thread : Type 0 where
  idle : Thread
  done : ℕ → Bool → Thread
  loading : Bytes → ℕ → Thread
  swapping : Bytes → ℕ → ℕ → Thread
  filling sending waiting reading : Bytes → ℕ → Thread
  storing : ℕ → ℕ → Thread

-- The shared memory. `sent` and `received` are histories: the payloads of the channel operations.
pub record Memory : Type 0 where
  pub heap : Heap
  pub next : ℕ
  pub slots : List (Option ℕ)
  pub chan : List ℕ
  pub sent : List Bytes
  pub received : List Bytes

-- What a goroutine does next: its next atomic operation, a call of `Write`, the timer's case of the
-- second `select`, or a receive from the channel.
pub data Choice : Type 0 where
  proceed expire receive : Choice
  call : Bytes → Choice

abbrev pub update : Heap → ℕ → BufferWrap → Heap
update h p b q = if p == q then b else h q

-- `NewBufferWrap`: a fresh address.
abbrev pub allocate : Memory → ℕ → Memory
allocate m n = record m { heap = update m.heap m.next (new_buffer_wrap n); next = suc m.next }

-- `NewLogBufferCache`: a slot for each of its buffers, all nil.
abbrev pub new_log_buffer_cache : List (Option ℕ)
new_log_buffer_cache = replicate log_buffer_cache_count none

-- The memory behind `NewLogProxyWriter`: its cache, and its channel.
abbrev pub new_memory : Memory
new_memory = record {
  heap = λ _. new_buffer_wrap 0;
  next = 0;
  slots = new_log_buffer_cache;
  chan = [];
  sent = [];
  received = [];
}

-- The entry of `GetBuffer`.
abbrev pub get_buffer_entry : Bytes → Memory → Thread × Memory
get_buffer_entry src m =
    if ltb default_log_buffer_size (length src)
    then (filling src m.next, allocate m (length src))
    else (loading src 0, m)

-- `old := LoadPointer(slot)`, and the test `old != nil`.
abbrev pub load_slot : Bytes → ℕ → Option (Option ℕ) → Memory → Thread × Memory
load_slot src i (some (some old)) m = (swapping src i old, m)
load_slot src i _ m = (loading src (suc i), m)

-- The loop head of `GetBuffer`.
abbrev pub get_buffer_loop : Bytes → ℕ → Memory → Thread × Memory
get_buffer_loop src i m =
    if ltb i log_buffer_cache_count
    then load_slot src i (get_elem? m.slots i) m
    else (filling src m.next, allocate m default_log_buffer_size)

-- `CompareAndSwapPointer(slot, old, nil)`.
abbrev pub swap_slot : Bytes → ℕ → ℕ → Option (Option ℕ) → Memory → Thread × Memory
swap_slot src i old (some (some p)) m =
    if p == old
    then (filling src old, record m { slots = set m.slots i none })
    else (loading src (suc i), m)
swap_slot src i old _ m = (loading src (suc i), m)

-- `CompareAndSwapPointer(slot, nil, buffer)`.
abbrev pub store_slot : ℕ → ℕ → Option (Option ℕ) → Memory → Thread × Memory
store_slot p i (some none) m = (idle, record m { slots = set m.slots i (some p) })
store_slot p i _ m = (storing p (suc i), m)

-- The loop head of `PutBuffer`.
abbrev pub put_buffer_loop : ℕ → ℕ → Memory → Thread × Memory
put_buffer_loop p i m =
    if ltb i log_buffer_cache_count then store_slot p i (get_elem? m.slots i) m else (idle, m)

-- `lr.LogCh <- logBuffer`, and where the goroutine is if the channel is full.
abbrev pub send : Bytes → ℕ → Thread → Memory → Thread × Memory
send src p full m =
    if ltb (length m.chan) max_log_chan_size
    then (done (length src) false, record m { chan = m.chan ++ p ∷ []; sent = m.sent ++ src ∷ [] })
    else (full, m)

abbrev pub receive_from : List ℕ → Memory → Thread × Memory
receive_from [] m = (idle, m)
receive_from (p ∷ rest) m = (
  reading (buffer (m.heap p)) p,
  record m { chan = rest; received = m.received ++ buffer (m.heap p) ∷ [] },
)

-- One atomic operation of a goroutine; where a choice does not apply, nothing happens.
unfoldable pub advance : Choice → Thread → Memory → Thread × Memory
advance (call src) idle m = get_buffer_entry src m
advance (call src) (done n failed) m = get_buffer_entry src m
advance receive idle m = receive_from m.chan m
advance proceed (loading src i) m = get_buffer_loop src i m
advance proceed (swapping src i old) m = swap_slot src i old (get_elem? m.slots i) m
advance proceed (filling src p) m =
    (sending src p, record m { heap = update m.heap p (copy (m.heap p) src) })
advance proceed (sending src p) m = send src p (waiting src p) m
advance proceed (waiting src p) m = send src p (waiting src p) m
advance expire (waiting src p) m = (done 0 true, m)
advance proceed (reading src p) m =
    (if capacity (m.heap p) == default_log_buffer_size then storing p 0 else idle, m)
advance proceed (storing p i) m = put_buffer_loop p i m
advance _ t m = (t, m)

-- The goroutines and the memory that they share.
pub record System : Type 0 where
  pub threads : List Thread
  pub memory : Memory

unfoldable pub step_at : ℕ → Choice → List Thread → Memory → List Thread × Memory
step_at k c [] m = ([], m)
step_at zero c (t ∷ ts) m = let (t', m') = advance c t m in (t' ∷ ts, m')
step_at (suc k) c (t ∷ ts) m = let (ts', m') = step_at k c ts m in (t ∷ ts', m')

-- The scheduler lets goroutine `k` do one operation.
unfoldable pub step : System → ℕ × Choice → System
unfolding step_at
step s (k, c) = let (ts, m) = step_at k c s.threads s.memory in record { threads = ts; memory = m }

unfoldable pub run : System → List (ℕ × Choice) → System
run s [] = s
run s (e ∷ es) = run (step s e) es

abbrev pub start : ℕ → System
start n = record { threads = replicate n idle; memory = new_memory }
