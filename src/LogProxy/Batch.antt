-- ===== src/LogProxy/Batch.antt =====
-- `writeLog` and `process` of logger/logproxy/log_proxy_writer.go. Buffers are addresses in a heap,
-- which does not change while the consumer holds them. The list of addresses is what the
-- non-blocking receives yield one after the other; where it ends, a receive finds the channel empty.
pub mod Order
pub mod Delivery
pub mod Process
use vlgo.Shared.{
  ℕ, zero, suc, ◌+◌, Bool, true, false, List, [], ◌∷◌, ◌++◌, Option, none, some, ltb, if◌then◌else◌,
  length,
}
use vlgo.LogProxy.Buffer.{Bytes, BufferWrap, buffer, log_temp_buffer_size}

abbrev pub Heap : Type 0
Heap = ℕ → BufferWrap

-- The local variables of `writeLog`, and the buffers given to `PutBuffer` so far.
pub record Local : Type 0 where
  pub temp : Bytes
  pub first : Option ℕ
  pub next : Option ℕ
  pub puts : List ℕ

-- `tempBuffer := lr.tempBuffer[:0]; firstLog := logBuffer; var nextLog *BufferWrap`.
abbrev pub first_local : ℕ → Local
first_local p = record { temp = []; first = some p; next = none; puts = [] }

-- How a part of the body ends: it goes on, it breaks out of the loop, or it panics.
pub data Flow : Type 0 where
  go_on break panic : Local → Flow

-- `a > logTempBufferSize - b` over Go's signed integers.
abbrev pub over : ℕ → ℕ → Bool
over a b = ltb log_temp_buffer_size (a + b)

-- `copy(tempBuffer[cur:new], log); tempBuffer = tempBuffer[:new]; PutBuffer(log)`: the slice
-- expression panics past the capacity of `tempBuffer`.
unfoldable pub append_log : Heap → Local → ℕ → Flow
append_log h l p =
    if ltb log_temp_buffer_size (length l.temp + (h p).len)
    then panic l
    else go_on (record l { temp = l.temp ++ buffer (h p); puts = l.puts ++ p ∷ [] })

-- `// copy nextLog` up to the end of the round.
unfoldable pub copy_next : Heap → Flow → ℕ → Flow
copy_next h (go_on l) n = append_log h (record l { first = none; next = none }) n
copy_next h (break l) n = break l
copy_next h (panic l) n = panic l

-- One round, once `nextLog` has been received; the cases are those of `firstLog != nil`.
unfoldable pub batch_round : Heap → Option ℕ → Local → ℕ → Flow
batch_round h (some f) l n =
    if over (h f).len (h n).len
    then break (record l { next = some n })
    else copy_next h (append_log h l f) n
batch_round h none l n =
    if over (length l.temp) (h n).len
    then break (record l { next = some n })
    else copy_next h (go_on l) n

-- The `for` loop. It ends with the local variables, and the receives that were not made.
unfoldable pub batch_loop : Heap → Local → List ℕ → Flow × List ℕ
batch_loop h l [] = (break l, [])
batch_loop h l (n ∷ rest) = elim (batch_round h l.first l n) [
  | go_on l' ↦ batch_loop h l' rest
  | break l' ↦ (break l', rest)
  | panic l' ↦ (panic l', rest)
]

-- What a call of `Write` on the underlying `io.Writer` does.
pub data Outcome : Type 0 where
  written failed crashed : Outcome

-- The underlying writer: a state, and what a call does to it.
abbrev pub Sink : Type 0 → Type 0
Sink S = S → Bytes → S × Outcome

-- What `writeLog` has done: the writer's state, the bytes of each `Write` call, the buffers returned,
-- the calls reported as failed on standard error, and whether a panic has been recovered.
pub record Trace (S : Type 0) : Type 0 where
  pub sink : S
  pub offered : List Bytes
  pub puts : List ℕ
  pub reports : List Bytes
  pub recovered : Bool

module _ {S : Type 0} where
  unfoldable pub after_write : Bytes → List ℕ → Trace S × Outcome → Trace S
  after_write bs ps (t, written) = record t { puts = t.puts ++ ps }
  after_write bs ps (t, failed) = record t { puts = t.puts ++ ps; reports = t.reports ++ bs ∷ [] }
  after_write bs ps (t, crashed) = record t { recovered = true }

  unfoldable pub start_trace : S → List ℕ → Trace S
  start_trace s ps = record { sink = s; offered = []; puts = ps; reports = []; recovered = false }

module _ {S : Type 0} (w : Sink S) where
  -- One `Write` call. A panic in it ends `writeLog` through its `recover`.
  unfoldable pub offer : Bytes → Trace S → Trace S × Outcome
  offer bs t =
      let (s, o) = w t.sink bs in (record t { sink = s; offered = t.offered ++ bs ∷ [] }, o)

  -- A call whose buffer is returned behind it, unless a panic came before.
  unfoldable pub write_then_put : Bytes → List ℕ → Trace S → Trace S
  unfolding offer after_write
  write_then_put bs ps t = if t.recovered then t else after_write bs ps (offer bs t)

  unfoldable pub write_log_buffer : Heap → Option ℕ → Trace S → Trace S
  write_log_buffer h none t = t
  write_log_buffer h (some p) t = write_then_put (buffer (h p)) (p ∷ []) t

  unfoldable pub write_temp : Bytes → Trace S → Trace S
  write_temp [] t = t
  write_temp (b ∷ bs) t = write_then_put (b ∷ bs) [] t

  -- The three `if`s behind the loop.
  unfoldable pub flush : Heap → Local → Trace S → Trace S
  flush h l t = write_log_buffer h l.next (write_temp l.temp (write_log_buffer h l.first t))

  unfoldable pub finish_batch : Heap → S → Flow × List ℕ → Trace S × List ℕ
  unfolding start_trace
  finish_batch h s (go_on l, rest) = (flush h l (start_trace s l.puts), rest)
  finish_batch h s (break l, rest) = (flush h l (start_trace s l.puts), rest)
  finish_batch h s (panic l, rest) = (record (start_trace s l.puts) { recovered = true }, rest)

  -- `writeLog`, once the blocking receive has yielded `p`.
  unfoldable pub write_log : Heap → S → ℕ → List ℕ → Trace S × List ℕ
  write_log h s p stream = finish_batch h s (batch_loop h (first_local p) stream)

  -- The rounds of `process` until a blocking receive finds the channel empty, one trace a round.
  unfoldable pub process : ℕ → Heap → S → List ℕ → List (Trace S)
  process zero h s stream = []
  process (suc fuel) h s [] = []
  process (suc fuel) h s (p ∷ stream) =
      let (t, rest) = write_log h s p stream in t ∷ process fuel h t.sink rest
