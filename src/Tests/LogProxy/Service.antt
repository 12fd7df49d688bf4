-- ===== src/Tests/LogProxy/Service.antt =====
-- The log proxy as a whole on small schedules.
use vlgo.Shared.{
  ℕ, ◌≡◌, ◌≢◌, refl, Bool, true, false, List, [], ◌∷◌, ◌++◌, arith, replicate, concat,
}
use vlgo.LogProxy.Buffer.{Bytes, buffer, capacity, copy, new_buffer_wrap}
use vlgo.LogProxy.Batch.{written, failed, crashed, Sink}
use vlgo.LogProxy.Sharing.{step, step_at, advance}
use vlgo.LogProxy.Service.{
  offered, lost, calls, proceeds, Move, writes, consumes, new_log_proxy_writer, serve, serve_all,
  consume_at,
}
use vlgo.LogProxy.Service.Whole.{Cut}
use vlgo.LogProxy.Service.Lines.{serve_all-Cut}
use vlgo.LogProxy.Service.Pending.{log_bytes}
use vlgo.LogProxy.Service.Pipe.{PipeStep, pipe_of, empty_pipe, serve_all-PipeStep}
use vlgo.LogProxy.Service.Draining.{
  IsDrained, consumer_steps, offered_bytes, serve_all-IsDrained, serve_all-offered_bytes,
}

-- A writer that fails at every second call, and one that panics at the first.
abbrev flaky : Sink Bool
flaky true bs = (false, failed)
flaky false bs = (true, written)

abbrev panics_once : Sink Bool
panics_once true bs = (false, crashed)
panics_once false bs = (false, written)

-- Goroutine `k` writes `src` by a new buffer.
abbrev write_by : ℕ → Bytes → List Move
write_by k src = writes k (calls src) ∷ replicate 11 (writes k proceeds)

-- Two goroutines write, and the consumer has received the first log.
abbrev two_logs : List Move
two_logs = write_by 0 (5 ∷ 6 ∷ []) ++ (write_by 1 (7 ∷ []) ++ consumes ∷ [])

batches :
    (serve_all flaky (new_log_proxy_writer true 2) (two_logs ++ replicate 8 consumes)).consumer.log
    ≡ offered (5 ∷ 6 ∷ 7 ∷ []) ∷ []
unfolding serve_all serve consume_at step step_at advance buffer capacity copy new_buffer_wrap
batches = refl

-- The rest of a batch is lost if the underlying writer panics with the first log.
loses :
    (serve_all panics_once
      (new_log_proxy_writer true 1)
      (write_by 0 (replicate 5000 1) ++ (write_by 0 (7 ∷ []) ++ replicate 3 consumes))).consumer.log
    ≡ offered (replicate 5000 1) ∷ lost (7 ∷ []) ∷ []
unfolding serve_all serve consume_at step step_at advance buffer capacity copy new_buffer_wrap
loses = refl

flaky_returns : (t : Bool) (bs : Bytes) → (flaky t bs).1 ≢ crashed
flaky_returns true bs e = cc
flaky_returns false bs e = cc

serve_all-PipeStep_example :
    let reached = serve_all panics_once (new_log_proxy_writer true 2) two_logs in
    (pipe_of (new_log_proxy_writer true 2) ≡ empty_pipe true)
    × PipeStep panics_once (pipe_of reached) (pipe_of (serve panics_once reached consumes))
serve_all-PipeStep_example = serve_all-PipeStep panics_once true 2 two_logs consumes

two_logs_steps :
    (w : Sink Bool) → consumer_steps (serve_all w (new_log_proxy_writer true 2) two_logs) ≡ 45
unfolding serve_all serve consume_at step step_at advance buffer capacity copy new_buffer_wrap
two_logs_steps w = refl

serve_all-IsDrained_example :
    let reached = serve_all panics_once (new_log_proxy_writer true 2) two_logs in
    let end = serve_all panics_once reached (replicate 45 consumes) in
    IsDrained end × (log_bytes end.consumer.log ≡ concat reached.system.memory.sent)
serve_all-IsDrained_example =
    serve_all-IsDrained panics_once true 2 two_logs 45 (omega (arith, two_logs_steps panics_once))

serve_all-offered_bytes_example :
    let reached = serve_all flaky (new_log_proxy_writer true 2) two_logs in
    offered_bytes (serve_all flaky reached (replicate 45 consumes)).consumer.log
    ≡ concat reached.system.memory.sent
serve_all-offered_bytes_example =
    serve_all-offered_bytes flaky true 2 two_logs 45 flaky_returns
      (omega (arith, two_logs_steps flaky))

serve_all-Cut_example :
    let end = serve_all panics_once (new_log_proxy_writer true 2) two_logs in
    (given rest : List Bytes) × Cut end.consumer.log given
    × (end.system.memory.sent ≡ given ++ rest)
serve_all-Cut_example = serve_all-Cut panics_once true 2 two_logs
