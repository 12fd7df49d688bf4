-- ===== src/LogProxy/Service.antt =====
-- The log proxy as a whole: the goroutines in `Write`, and the one goroutine that `NewLogProxyWriter`
-- starts, `process` and `writeLog` of logger/logproxy/log_proxy_writer.go, one operation on the shared
-- memory or one call of the underlying writer a step. The memory and the writers' steps are those of
-- LogProxy.Sharing.
pub mod Ownership
pub mod Pending
pub mod Rounds
pub mod Consuming
pub mod Histories
pub mod Bytewise
pub mod Measure
pub mod Draining
pub mod Whole
pub mod Cutting
pub mod Lines
pub mod Effects
pub mod Pipe
pub mod Callers
pub mod Counted
use vlgo.Shared.{
  ℕ, zero, suc, ◌+◌, Bool, true, false, List, [], ◌∷◌, ◌++◌, Option, none, some, ltb, ◌==◌,
  if◌then◌else◌, length, concat,
}
use vlgo.LogProxy.Buffer.{Bytes, buffer, capacity, default_log_buffer_size, log_temp_buffer_size}
use vlgo.LogProxy.Batch.{Heap, Outcome, written, failed, crashed, Sink, over}
use vlgo.LogProxy.Batch.Order.{bytes_of}
use vlgo.LogProxy.Sharing.{
  Thread, idle, done, loading, swapping, filling, sending, waiting, reading, storing, Memory,
  Choice, proceed, expire, call, System, put_buffer_loop, receive_from, start, step,
}

-- Where the consumer stands: in the blocking receive; in the receive of the loop, with `tempBuffer` and
-- `firstLog`; before the copy of `nextLog`; in `PutBuffer`, at a slot, before it goes on; or
-- before one of the three calls of the underlying writer, with what is left for the later ones.
pub data Stage : Type 0 where
  selecting : Stage
  polling : Bytes → Option ℕ → Stage
  appending : Bytes → ℕ → Stage
  putting : ℕ → ℕ → Stage → Stage
  writing_first : ℕ → Bytes → Option ℕ → Stage
  writing_temp : Bytes → Option ℕ → Stage
  writing_next : ℕ → Stage

-- The history of the consumer: the bytes given to the underlying writer, and those that a panic of it
-- has lost.
pub data Entry : Type 0 where
  offered lost : Bytes → Entry

pub record Consumer (S : Type 0) : Type 0 where
  pub stage : Stage
  pub sink : S
  pub log : List Entry

-- `PutBuffer(p)`, and then `k`.
abbrev pub put : Heap → ℕ → Stage → Stage
put h p k = if capacity (h p) == default_log_buffer_size then putting p 0 k else k

-- The three `if`s behind the loop, from the third one on, from the second one on, and all.
abbrev pub then_next : Option ℕ → Stage
then_next none = selecting
then_next (some n) = writing_next n

abbrev pub then_temp : Bytes → Option ℕ → Stage
then_temp [] next = then_next next
then_temp (b ∷ bs) next = writing_temp (b ∷ bs) next

abbrev pub then_first : Option ℕ → Bytes → Option ℕ → Stage
then_first none temp next = then_temp temp next
then_first (some f) temp next = writing_first f temp next

abbrev pub after_put : Thread → Stage → Stage
after_put (storing p i) k = putting p i k
after_put _ k = k

module _ {S : Type 0} where
  abbrev pub goes : Stage → Consumer S → Consumer S
  goes k c = record c { stage = k }

  -- A panic that `writeLog` recovers, with the bytes that were still to be written.
  abbrev pub crashes : Bytes → Consumer S → Consumer S
  crashes bs c = record c { stage = selecting; log = c.log ++ lost bs ∷ [] }

  -- The slice expression `tempBuffer[curLen:newLen]` panics past the capacity.
  abbrev pub copies : Bytes → ℕ → Bytes → Stage → Consumer S → Consumer S
  copies temp len at_stake k c =
      if ltb log_temp_buffer_size (length temp + len) then crashes at_stake c else goes k c

  abbrev pub receive_first : List ℕ → Consumer S → Memory → Consumer S × Memory
  receive_first [] c m = (goes selecting c, m)
  receive_first (p ∷ rest) c m = (goes (polling [] (some p)) c, (receive_from (p ∷ rest) m).1)

  -- A round, once `nextLog` has been received.
  abbrev pub round : Heap → Bytes → Option ℕ → ℕ → Consumer S → Consumer S
  round h temp (some f) n c =
      if over (h f).len (h n).len
      then goes (writing_first f temp (some n)) c
      else copies temp (h f).len (temp ++ (buffer (h f) ++ buffer (h n)))
          (put h f (appending (temp ++ buffer (h f)) n)) c
  round h temp none n c =
      if over (length temp) (h n).len
      then goes (then_temp temp (some n)) c
      else goes (appending temp n) c

  abbrev pub poll : Bytes → Option ℕ → List ℕ → Consumer S → Memory → Consumer S × Memory
  poll temp first [] c m = (goes (then_first first temp none) c, m)
  poll temp first (n ∷ rest) c m = (round m.heap temp first n c, (receive_from (n ∷ rest) m).1)

  -- Behind a call of the underlying writer with `bs`, before `k`; `later` is still to be written.
  abbrev pub wrote : Bytes → Bytes → Stage → S × Outcome → Consumer S → Consumer S
  wrote bs later k (s, crashed) c = record {
    stage = selecting;
    sink = s;
    log = c.log ++ offered bs ∷ lost later ∷ [];
  }
  wrote bs later k (s, written) c = record { stage = k; sink = s; log = c.log ++ offered bs ∷ [] }
  wrote bs later k (s, failed) c = record { stage = k; sink = s; log = c.log ++ offered bs ∷ [] }

module _ {S : Type 0} (w : Sink S) where
  -- One step of `process` from a stage.
  unfoldable pub consume_at : Stage → Consumer S → Memory → Consumer S × Memory
  consume_at selecting c m = receive_first m.chan c m
  consume_at (polling temp first) c m = poll temp first m.chan c m
  consume_at (appending temp n) c m = (
    copies temp (m.heap n).len (temp ++ buffer (m.heap n))
        (put m.heap n (polling (temp ++ buffer (m.heap n)) none)) c,
    m,
  )
  consume_at (putting p i k) c m =
      let (t, m') = put_buffer_loop p i m in (goes (after_put t k) c, m')
  consume_at (writing_first f temp next) c m = (
    wrote (buffer (m.heap f)) (temp ++ bytes_of m.heap next) (put m.heap f (then_temp temp next))
        (w c.sink (buffer (m.heap f))) c,
    m,
  )
  consume_at (writing_temp temp next) c m =
      (wrote temp (bytes_of m.heap next) (then_next next) (w c.sink temp) c, m)
  consume_at (writing_next n) c m =
      (wrote (buffer (m.heap n)) [] (put m.heap n selecting) (w c.sink (buffer (m.heap n))) c, m)

-- What a goroutine outside the consumer does next.
pub data Call : Type 0 where
  calls : Bytes → Call
  proceeds expires : Call

abbrev pub choice_of : Call → Choice
choice_of (calls src) = call src
choice_of proceeds = proceed
choice_of expires = expire

-- The scheduler lets a goroutine that writes, or the consumer, do one step.
pub data Move : Type 0 where
  writes : ℕ → Call → Move
  consumes : Move

pub record Service (S : Type 0) : Type 0 where
  pub system : System
  pub consumer : Consumer S

-- `NewLogProxyWriter`, and `n` goroutines that may write.
abbrev pub new_log_proxy_writer : {S : Type 0} → S → ℕ → Service S
new_log_proxy_writer s n = record {
  system = start n;
  consumer = record { stage = selecting; sink = s; log = [] };
}

module _ {S : Type 0} (w : Sink S) where
  abbrev pub with_consumer : System → Consumer S × Memory → Service S
  with_consumer sys (c, m) = record { system = record sys { memory = m }; consumer = c }

  unfoldable pub serve : Service S → Move → Service S
  unfolding consume_at step
  serve s (writes k c) = record s { system = step s.system (k, choice_of c) }
  serve s consumes =
      with_consumer s.system (consume_at w s.consumer.stage s.consumer s.system.memory)

  unfoldable pub serve_all : Service S → List Move → Service S
  unfolding serve
  serve_all s [] = s
  serve_all s (e ∷ es) = serve_all (serve s e) es
