-- ===== src/LogProxy/Batch/Process.antt =====
-- The rounds of `process`, over a writer that may fail but never panics.
use vlgo.Shared.{
  ℕ, zero, suc, ◌≤◌, ◌≡◌, ◌≢◌, refl, sym, ap, subst, ◌∙◌, false, List, [], ◌∷◌, ◌++◌, Option, none,
  some, append-nil, append_assoc, arith, if◌then◌else◌, length, length-append, concat,
}
use vlgo.LogProxy.Buffer.{Bytes, IsSlice, buffer}
use vlgo.LogProxy.Batch.{
  Heap, Local, Outcome, written, failed, crashed, Sink, Trace, after_write, offer, write_then_put,
  first_local, write_log_buffer, write_temp, flush, start_trace, batch_loop, write_log, process,
}
use vlgo.LogProxy.Batch.Order.{bytes_of_all, first_local-IsReady, batch_loop-Drains}
use vlgo.LogProxy.Batch.Delivery.{Handles, write_log-Handles, finish_batch_lem}

module _ {S : Type 0} where
  -- The bytes offered to the writer over some rounds.
  abbrev pub all_offered : List (Trace S) → Bytes
  all_offered [] = []
  all_offered (t ∷ ts) = concat t.offered ++ all_offered ts

  -- The buffers returned over some rounds.
  abbrev pub all_returned : List (Trace S) → List ℕ
  all_returned [] = []
  all_returned (t ∷ ts) = t.puts ++ all_returned ts

bytes_of_all-append :
    (h : Heap) (ps qs : List ℕ) → bytes_of_all h (ps ++ qs) ≡ bytes_of_all h ps ++ bytes_of_all h qs
bytes_of_all-append h [] qs = refl
bytes_of_all-append h (p ∷ ps) qs =
    rw (bytes_of_all-append h ps qs) (sym (append_assoc (buffer (h p)) _ _))

-- A writer that may fail, and does not panic.
abbrev pub Returns : {S : Type 0} → Sink S → Type 0
Returns {S} w = (s : S) (bs : Bytes) → (w s bs).1 ≢ crashed

module _ {S : Type 0} (w : Sink S) (returns : Returns w) where
  abbrev Runs : Trace S → Type 0
  Runs t = t.recovered ≡ false

  after_write-Runs :
      (bs : Bytes) (ps : List ℕ) (t : Trace S) (o : Outcome)
      → o ≢ crashed
      → Runs t
      → Runs (after_write bs ps (t, o))
  unfolding after_write
  after_write-Runs bs ps t written n h = h
  after_write-Runs bs ps t failed n h = h
  after_write-Runs bs ps t crashed n h = absurd (n refl)

  write_then_put-Runs :
      (bs : Bytes) (ps : List ℕ) (t : Trace S) → Runs t → Runs (write_then_put w bs ps t)
  unfolding write_then_put offer
  write_then_put-Runs bs ps t h =
      subst (λ b. Runs (if b then t else after_write bs ps (offer w bs t))) (sym h)
        (after_write-Runs bs ps _ (w t.sink bs).1 (returns t.sink bs) h)

  write_log_buffer-Runs :
      (h : Heap) (o : Option ℕ) (t : Trace S) → Runs t → Runs (write_log_buffer w h o t)
  unfolding write_log_buffer
  write_log_buffer-Runs h none t r = r
  write_log_buffer-Runs h (some p) t r = write_then_put-Runs (buffer (h p)) (p ∷ []) t r

  write_temp-Runs : (temp : Bytes) (t : Trace S) → Runs t → Runs (write_temp w temp t)
  unfolding write_temp
  write_temp-Runs [] t r = r
  write_temp-Runs (b ∷ bs) t r = write_then_put-Runs (b ∷ bs) [] t r

  flush-Runs : (h : Heap) (l : Local) (t : Trace S) → Runs t → Runs (flush w h l t)
  unfolding flush
  flush-Runs h l t r =
      write_log_buffer-Runs h l.next _
        (write_temp-Runs l.temp _ (write_log_buffer-Runs h l.first t r))

  module _ (h : Heap) (slices : (p : ℕ) → IsSlice (h p)) where
    write_log-Runs : (s : S) (p : ℕ) (stream : List ℕ) → Runs (write_log w h s p stream).0
    unfolding write_log start_trace
    write_log-Runs s p stream =
        let d = batch_loop-Drains h slices stream (first_local p) (first_local-IsReady p) in
        rw (finish_batch_lem w h s d.last (batch_loop h (first_local p) stream) d.breaks)
          (flush-Runs h d.last _ refl)

    one_round :
        (s : S) (p : ℕ) (stream : List ℕ) (end : Trace S × List ℕ)
        → Runs end.0
        → Handles w h p stream end
        → (received : List ℕ) × (concat end.0.offered ≡ bytes_of_all h received)
          × (end.0.puts ≡ received)
          × (p ∷ stream ≡ received ++ end.1)
          × (length end.1 ≤ length stream)
    one_round s p stream (t, rest) r g =
        let (l, k) = g.delivers.complete r in
        (
          g.received,
          sym (append-nil _) ∙ ap (λ x. concat t.offered ++ x) (sym l) ∙ g.delivers.offers,
          sym (append-nil _) ∙ ap (λ x. t.puts ++ x) (sym k) ∙ g.delivers.returns,
          g.splits,
          omega (arith, ap length g.splits, length-append g.received rest, ap length g.first_in.1),
        )

    -- Where the writer never panics, every log lies within its buffer and a round is left for each log,
    -- `process` hands all bytes of all logs to the writer, in the order of the channel, and returns every
    -- buffer once.
    pub process_complete :
        (fuel : ℕ) (s : S) (stream : List ℕ)
        → length stream ≤ fuel
        → (all_offered (process w fuel h s stream) ≡ bytes_of_all h stream)
          × (all_returned (process w fuel h s stream) ≡ stream)
    unfolding process
    process_complete zero s [] e = (refl, refl)
    process_complete zero s (p ∷ stream) e = absurd (omega arith)
    process_complete (suc fuel) s [] e = (refl, refl)
    process_complete (suc fuel) s (p ∷ stream) e =
        let end = write_log w h s p stream in
        let (received, all, back, splits, shorter) =
          one_round s p stream end (write_log-Runs s p stream)
            (write_log-Handles w h s p stream slices) in
        let (bytes, puts) = process_complete fuel end.0.sink end.1 (omega arith) in
        (
          ap (λ x. concat end.0.offered ++ x) bytes
              ∙ ap (λ x. x ++ bytes_of_all h end.1) all
              ∙ sym (bytes_of_all-append h received end.1)
              ∙ sym (ap (bytes_of_all h) splits),
          ap (λ x. end.0.puts ++ x) puts ∙ ap (λ x. x ++ end.1) back ∙ sym splits,
        )
