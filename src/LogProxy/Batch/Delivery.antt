-- ===== src/LogProxy/Batch/Delivery.antt =====
-- What `writeLog` hands to the underlying writer, whatever that writer does: it may succeed, return an
-- error or panic at each call.
use vlgo.Shared.{
  ℕ, ◌≡◌, refl, sym, ap, subst, ◌∙◌, if◌then◌else◌, true, false, List, [], ◌∷◌, ◌++◌, Option, none,
  some, append-nil, append_assoc, inl, inr, Bool-cases, concat, concat-append,
}
use vlgo.LogProxy.Buffer.{Bytes, IsSlice, buffer}
use vlgo.LogProxy.Batch.{
  Heap, Local, Outcome, written, failed, crashed, Sink, Trace, after_write, offer, write_then_put,
  Flow, break, first_local, write_log_buffer, write_temp, flush, start_trace, finish_batch,
  write_log,
}
use vlgo.LogProxy.Batch.Order.{
  bytes_of, bytes_of_all, list_of, contents, held, Drains, first_local-IsReady, batch_loop-Drains,
}

-- The last call of the underlying writer has panicked.
abbrev pub WriterPanics : {S : Type 0} → Sink S → Trace S → Type 0
WriterPanics {S} w t =
    (s : S) × (before : List Bytes) × (bs : Bytes) × (t.offered ≡ before ++ bs ∷ [])
    × (w s bs ≡ (t.sink, crashed))

-- Of the bytes `all` and the buffers `ps`, a front part has been written and returned; something is missing only
-- if a call of the writer has panicked, which then was the last one.
pub record Delivers {S : Type 0} (w : Sink S) (all : Bytes) (ps : List ℕ) (t : Trace S)
    : Type 0 where
  pub lost : Bytes
  pub kept : List ℕ
  pub offers : concat t.offered ++ lost ≡ all
  pub returns : t.puts ++ kept ≡ ps
  pub complete : t.recovered ≡ false → (lost ≡ []) × (kept ≡ [])
  pub panics : t.recovered ≡ true → WriterPanics w t

module _ {S : Type 0} (w : Sink S) where
  -- What one more call adds, once all before has been delivered.
  after_write-Delivers :
      (bs : Bytes) (ps : List ℕ) (all : Bytes) (qs : List ℕ) (t : Trace S) (s : S) (o : Outcome)
      → concat t.offered ≡ all
      → t.puts ≡ qs
      → t.recovered ≡ false
      → w t.sink bs ≡ (s, o)
      → Delivers w
          (all ++ bs)
          (qs ++ ps)
          (after_write bs ps (record t { sink = s; offered = t.offered ++ bs ∷ [] }, o))
  unfolding after_write
  after_write-Delivers bs ps all qs t s written e f g called = record {
    lost = [];
    kept = [];
    offers = simp (concat-append, append-nil, e);
    returns = simp (append-nil, f);
    complete = λ _. (refl, refl);
    panics = λ h. absurd (cc);
  }
  after_write-Delivers bs ps all qs t s failed e f g called = record {
    lost = [];
    kept = [];
    offers = simp (concat-append, append-nil, e);
    returns = simp (append-nil, f);
    complete = λ _. (refl, refl);
    panics = λ h. absurd (cc);
  }
  after_write-Delivers bs ps all qs t s crashed e f g called = record {
    lost = [];
    kept = ps;
    offers = simp (concat-append, append-nil, e);
    returns = rw f;
    complete = λ h. cc;
    panics = λ h. (t.sink, t.offered, bs, refl, called);
  }

  -- Behind a panic nothing more is written.
  cut_off :
      (bs : Bytes) (ps : List ℕ) (all : Bytes) (qs : List ℕ) (t : Trace S)
      → Delivers w all qs t
      → t.recovered ≡ true
      → Delivers w (all ++ bs) (qs ++ ps) t
  cut_off bs ps all qs t d dead = record {
    lost = d.lost ++ bs;
    kept = d.kept ++ ps;
    offers = sym (append_assoc _ d.lost bs) ∙ ap (λ x. x ++ bs) d.offers;
    returns = sym (append_assoc _ d.kept ps) ∙ ap (λ x. x ++ ps) d.returns;
    complete = λ h. absurd (cc);
    panics = d.panics;
  }

  write_then_put-Delivers :
      (bs : Bytes) (ps : List ℕ) (all : Bytes) (qs : List ℕ) (t : Trace S)
      → Delivers w all qs t
      → Delivers w (all ++ bs) (qs ++ ps) (write_then_put w bs ps t)
  unfolding write_then_put offer
  write_then_put-Delivers bs ps all qs t d = elim (Bool-cases t.recovered) [
    | inl dead ↦
        subst
          (λ b.
            Delivers w (all ++ bs) (qs ++ ps) (if b then t else after_write bs ps (offer w bs t)))
          (sym dead) (cut_off bs ps all qs t d dead)
    | inr live ↦
        let (l, k) = d.complete live in
        subst
          (λ b.
            Delivers w (all ++ bs) (qs ++ ps) (if b then t else after_write bs ps (offer w bs t)))
          (sym live)
          (after_write-Delivers bs ps all qs t (w t.sink bs).0 (w t.sink bs).1
            (sym (append-nil _) ∙ ap (λ x. concat t.offered ++ x) (sym l) ∙ d.offers)
            (sym (append-nil _) ∙ ap (λ x. t.puts ++ x) (sym k) ∙ d.returns) live refl)
  ]

  write_log_buffer-Delivers :
      (h : Heap) (o : Option ℕ) (all : Bytes) (qs : List ℕ) (t : Trace S)
      → Delivers w all qs t
      → Delivers w (all ++ bytes_of h o) (qs ++ list_of o) (write_log_buffer w h o t)
  unfolding write_log_buffer
  write_log_buffer-Delivers h none all qs t d = simp append-nil d
  write_log_buffer-Delivers h (some p) all qs t d =
      write_then_put-Delivers (buffer (h p)) (p ∷ []) all qs t d

  write_temp-Delivers :
      (temp all : Bytes) (qs : List ℕ) (t : Trace S)
      → Delivers w all qs t
      → Delivers w (all ++ temp) qs (write_temp w temp t)
  unfolding write_temp
  write_temp-Delivers [] all qs t d = simp append-nil d
  write_temp-Delivers (b ∷ bs) all qs t d =
      rw append-nil at (write_then_put-Delivers (b ∷ bs) [] all qs t d)

  flush-Delivers :
      (h : Heap) (l : Local) (t : Trace S)
      → Delivers w [] l.puts t
      → Delivers w (contents h l) (held l) (flush w h l t)
  unfolding flush
  flush-Delivers h l t d =
      let one = write_log_buffer-Delivers h l.first [] l.puts t d in
      let two = write_temp-Delivers l.temp _ _ _ one in
      simp append_assoc at (write_log_buffer-Delivers h l.next _ _ _ two)

-- What one call of `writeLog` does with the stream of logs from `p` on.
pub record Handles {S : Type 0} (w : Sink S) (h : Heap) (p : ℕ) (stream : List ℕ)
    (end : Trace S × List ℕ) : Type 0 where
  pub received : List ℕ
  pub splits : p ∷ stream ≡ received ++ end.1
  pub first_in : (later : List ℕ) × (received ≡ p ∷ later)
  pub delivers : Delivers w (bytes_of_all h received) received end.0

module _ {S : Type 0} (w : Sink S) (h : Heap) (s : S) where
  pub finish_batch_lem :
      (last : Local) (end : Flow × List ℕ)
      → end.0 ≡ break last
      → finish_batch w h s end ≡ (flush w h last (start_trace s last.puts), end.1)
  unfolding finish_batch
  finish_batch_lem last (fl, rest) e = rw (e, finish_batch)

  start_trace-Delivers : (ps : List ℕ) → Delivers w [] ps (start_trace s ps)
  unfolding start_trace
  start_trace-Delivers ps = record {
    lost = [];
    kept = [];
    offers = refl;
    returns = append-nil ps;
    complete = λ _. (refl, refl);
    panics = λ h. absurd (cc);
  }

  finish_batch-Handles :
      (p : ℕ) (stream : List ℕ) (end : Flow × List ℕ)
      → Drains h (first_local p) stream end
      → Handles w h p stream (finish_batch w h s end)
  finish_batch-Handles p stream end d =
      let given = flush-Delivers w h d.last _ (start_trace-Delivers d.last.puts) in
      rw (finish_batch_lem d.last end d.breaks) (record {
        received = p ∷ d.received;
        splits = ap (◌∷◌ p) d.splits;
        first_in = (d.received, refl);
        delivers = rw (d.gathers, d.holds, append-nil) at given;
      })

  -- Where every log lies within its buffer: if `writeLog` recovers a panic, it is one of the underlying writer, in
  -- the last call of its `Write`. Of the bytes of the logs it received, in the order of the channel, it has written
  -- all, or all up to that call; so with the buffers that it has returned.
  pub write_log-Handles :
      (p : ℕ) (stream : List ℕ)
      → ((q : ℕ) → IsSlice (h q))
      → Handles w h p stream (write_log w h s p stream)
  unfolding write_log
  write_log-Handles p stream slices =
      finish_batch-Handles p stream _
        (batch_loop-Drains h slices stream (first_local p) (first_local-IsReady p))
