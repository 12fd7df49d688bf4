-- ===== src/Tests/LogProxy.antt =====
-- The log writer of logger/logproxy on small inputs.
mod Service
use vlgo.Shared.{ℕ, ◌+◌, ◌≤◌, ◌≡◌, refl, Bool, true, false, List, [], ◌∷◌, ◌++◌, arith, length}
use vlgo.LogProxy.Buffer.{IsSlice, buffer, capacity, copy, new_buffer_wrap}
use vlgo.LogProxy.Batch.{
  Heap, written, failed, Sink, write_log, process, batch_loop, batch_round, append_log, copy_next,
  flush, finish_batch, write_then_put, write_log_buffer, write_temp,
}
use vlgo.LogProxy.Batch.Order.{bytes_of_all}
use vlgo.LogProxy.Batch.Delivery.{Handles, write_log-Handles}
use vlgo.LogProxy.Batch.Process.{all_offered, all_returned, Returns, process_complete}
use vlgo.LogProxy.Sharing.{
  loading, filling, idle, storing, proceed, receive, call, Choice, start, step, run,
  max_log_chan_size, advance, sending, waiting, expire, new_memory,
}
use vlgo.LogProxy.Sharing.Fits.{contents}
use vlgo.LogProxy.Sharing.Owners.{in_memory, held_by_all}
use vlgo.LogProxy.Sharing.Exclusive.{Inv, step-Inv, run-start-Inv, received-run, owners-run}
use vlgo.LogProxy.Sharing.WaitFree.{alone, get_buffer_ends, put_buffer_ends}
use vlgo.LogProxy.Sharing.Results.{WriteEnds, write-WriteEnds, chan-run}

-- Buffer `p` holds the log `p`, `p + 1`.
abbrev logs : Heap
logs p = record { store = p ∷ (p + 1) ∷ []; len = 2 }

logs-IsSlice : (p : ℕ) → IsSlice (logs p)
unfolding capacity
logs-IsSlice p = record { fits = omega arith }

-- A writer that counts its calls, and fails at every second one.
abbrev flaky : Sink Bool
flaky true bs = (false, failed)
flaky false bs = (true, written)

flaky-Returns : Returns flaky
flaky-Returns true bs e = cc
flaky-Returns false bs e = cc

batched :
    (write_log flaky logs false 10 (20 ∷ 30 ∷ [])).0.offered
    ≡ (10 ∷ 11 ∷ 20 ∷ 21 ∷ 30 ∷ 31 ∷ []) ∷ []
unfolding write_log batch_loop batch_round append_log copy_next flush finish_batch write_then_put
    write_log_buffer write_temp buffer
batched = refl

write_log-Handles_example :
    Handles flaky logs 10 (20 ∷ 30 ∷ []) (write_log flaky logs false 10 (20 ∷ 30 ∷ []))
write_log-Handles_example = write_log-Handles flaky logs false 10 (20 ∷ 30 ∷ []) logs-IsSlice

process_complete_example :
    (all_offered (process flaky 3 logs false (10 ∷ 20 ∷ [])) ≡ bytes_of_all logs (10 ∷ 20 ∷ []))
    × (all_returned (process flaky 3 logs false (10 ∷ 20 ∷ [])) ≡ 10 ∷ 20 ∷ [])
process_complete_example =
    process_complete flaky flaky-Returns logs logs-IsSlice 3 false (10 ∷ 20 ∷ []) (omega arith)

-- Goroutine 0 writes a log of two bytes, by a new buffer; goroutine 1 receives it.
abbrev schedule : List (ℕ × Choice)
schedule =
    (0, call (5 ∷ 6 ∷ []))
    ∷ (0, proceed)
    ∷ (0, proceed)
    ∷ (0, proceed)
    ∷ (0, proceed)
    ∷ (0, proceed)
    ∷ (0, proceed)
    ∷ (0, proceed)
    ∷ (0, proceed)
    ∷ (0, proceed)
    ∷ (0, proceed)
    ∷ (0, proceed)
    ∷ (1, receive)
    ∷ []

received_bytes : (run (start 2) schedule).memory.received ≡ (5 ∷ 6 ∷ []) ∷ []
unfolding run step advance buffer copy new_buffer_wrap
received_bytes = refl

owners-run_example :
    let s = run (start 2) schedule in in_memory 0 s.memory + held_by_all 0 s.threads ≤ 1
owners-run_example = owners-run 2 schedule 0

step-Inv_example : Inv (step (run (start 2) schedule) (1, proceed))
step-Inv_example = step-Inv (run (start 2) schedule) (1, proceed) (run-start-Inv 2 schedule)

get_buffer_ends_example :
    (k : ℕ) × (p : ℕ) × (k ≤ 17)
    × (alone k (λ i. new_memory) (loading (5 ∷ []) 0) ≡ filling (5 ∷ []) p)
get_buffer_ends_example = get_buffer_ends (5 ∷ []) (λ i. new_memory)
