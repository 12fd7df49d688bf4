-- ===== src/LogProxy/Service/Draining.antt =====
-- The consumer alone empties the channel, and then everything accepted has been written.
use vlgo.Shared.{
  ℕ, zero, suc, ◌-◌, ◌≤◌, ◌≡◌, ◌≢◌, refl, sym, ap, ◌∙◌, List, [], ◌∷◌, ◌++◌, append-nil,
  append_assoc, arith, length_zero, replicate, concat,
}
use vlgo.LogProxy.Buffer.{Bytes}
use vlgo.LogProxy.Batch.{crashed, Sink}
use vlgo.LogProxy.Sharing.Fits.{contents}
use vlgo.LogProxy.Service.{
  Stage, selecting, polling, appending, putting, writing_first, writing_temp, writing_next, Entry,
  offered, lost, Consumer, Move, writes, consumes, Service, new_log_proxy_writer, serve, serve_all,
}
use vlgo.LogProxy.Service.Measure.{weight, steps_left, consume_at-lower}
use vlgo.LogProxy.Service.Effects.{Effect, quiet, gives, gives_up, consume_at-Effect}
use vlgo.LogProxy.Service.Pending.{pending, log_bytes-append, log_bytes}
use vlgo.LogProxy.Service.Bytewise.{
  serve-Inv, ServiceInv, flight, serve_all-Inv, sent-flight, new_log_proxy_writer-Inv,
}

-- The bytes given to the underlying writer.
abbrev pub offered_bytes : List Entry → Bytes
offered_bytes [] = []
offered_bytes (offered bs ∷ es) = bs ++ offered_bytes es
offered_bytes (lost bs ∷ es) = offered_bytes es

offered_bytes-append :
    (es fs : List Entry) → offered_bytes (es ++ fs) ≡ offered_bytes es ++ offered_bytes fs
offered_bytes-append [] fs = refl
offered_bytes-append (offered bs ∷ es) fs =
    ap (λ x. bs ++ x) (offered_bytes-append es fs) ∙ sym (append_assoc bs _ _)
offered_bytes-append (lost bs ∷ es) fs = offered_bytes-append es fs

weight_zero : (k : Stage) → weight k ≡ 0 → k ≡ selecting
weight_zero selecting e = refl
weight_zero (polling temp first) e = absurd (omega arith)
weight_zero (appending temp n) e = absurd (omega arith)
weight_zero (putting p i k) e = absurd (omega arith)
weight_zero (writing_first f temp next) e = absurd (omega arith)
weight_zero (writing_temp temp next) e = absurd (omega arith)
weight_zero (writing_next n) e = absurd (omega arith)

module _ {S : Type 0} where
  -- The consumer waits in the receive of `writeLog`, and the channel is empty.
  pub record IsDrained (s : Service S) : Type 0 where
    pub waits : s.consumer.stage ≡ selecting
    pub empties : s.system.memory.chan ≡ []

  abbrev pub consumer_steps : Service S → ℕ
  consumer_steps s = steps_left s.consumer.stage s.system.memory

  steps_zero : (s : Service S) → consumer_steps s ≤ 0 → IsDrained s
  steps_zero s e = record {
    waits = weight_zero s.consumer.stage (omega arith);
    empties = length_zero s.system.memory.chan (omega arith);
  }

  IsDrained-flight : (s : Service S) → IsDrained s → flight s ≡ []
  IsDrained-flight s d =
      ap
        (λ k.
          pending s.system.memory.heap k
          ++ concat (contents s.system.memory.heap s.system.memory.chan))
        d.waits
      ∙ ap (λ ps. concat (contents s.system.memory.heap ps)) d.empties

  module _ (w : Sink S) where
    serve_consumes-lower :
        (s : Service S) → consumer_steps (serve w s consumes) ≤ consumer_steps s - 1
    unfolding serve
    serve_consumes-lower s = consume_at-lower w s.consumer s.system.memory s.consumer.stage

    serve_consumes-sent :
        (s : Service S)
        → ServiceInv s
        → (serve w s consumes).system.memory.sent ≡ s.system.memory.sent
    unfolding serve
    serve_consumes-sent s i =
        (consume_at-Effect w s.consumer s.consumer.stage s.system.memory i.good).1

    -- As many steps of the consumer as the measure counts.
    drain :
        (k : ℕ) (s : Service S)
        → ServiceInv s
        → consumer_steps s ≤ k
        → let end = serve_all w s (replicate k consumes) in
          IsDrained end × (end.system.memory.sent ≡ s.system.memory.sent)
    unfolding serve_all
    drain zero s i enough = (steps_zero s enough, refl)
    drain (suc k) s i enough =
        let s' = serve w s consumes in
        let (drained, sent) =
          drain k s' (serve-Inv w s consumes i) (omega (arith, serve_consumes-lower s)) in
        (drained, sent ∙ serve_consumes-sent s i)

    -- Nothing that the consumer took has been lost.
    record NoLoss (c : Consumer S) : Type 0 where
      pub all : offered_bytes c.log ≡ log_bytes c.log

    module _ (returns : (s : S) (bs : Bytes) → (w s bs).1 ≢ crashed) where
      Effect-NoLoss : (c c' : Consumer S) → Effect w c c' → NoLoss c → NoLoss c'
      Effect-NoLoss c c' (quiet log sink) n = record {
        all = ap offered_bytes log ∙ n.all ∙ ap log_bytes (sym log);
      }
      Effect-NoLoss c c' (gives bs log sink back) n = record {
        all =
            ap offered_bytes log
            ∙ offered_bytes-append c.log (offered bs ∷ [])
            ∙ ap (λ x. x ++ (bs ++ [])) n.all
            ∙ sym (log_bytes-append c.log (offered bs ∷ []))
            ∙ ap log_bytes (sym log);
      }
      Effect-NoLoss c c' (gives_up bs later log sink crash) n = absurd (returns c.sink bs crash)

      serve-NoLoss :
          (s : Service S) (e : Move)
          → ServiceInv s
          → NoLoss s.consumer
          → NoLoss (serve w s e).consumer
      unfolding serve
      serve-NoLoss s (writes k c) i n = n
      serve-NoLoss s consumes i n =
          Effect-NoLoss s.consumer _
            (consume_at-Effect w s.consumer s.consumer.stage s.system.memory i.good).0 n

      serve_all-NoLoss :
          (s : Service S) (es : List Move)
          → ServiceInv s
          → NoLoss s.consumer
          → NoLoss (serve_all w s es).consumer
      unfolding serve_all
      serve_all-NoLoss s [] i n = n
      serve_all-NoLoss s (e ∷ es) i n =
          serve_all-NoLoss (serve w s e) es (serve-Inv w s e i) (serve-NoLoss s e i n)

-- From every state that an interleaving of `n` goroutines that write with the consumer reaches, as many
-- steps of the consumer as `consumer_steps` counts (23 for each log in the channel, and at most 32 and those
-- of `PutBuffer` for the stage) bring it to the blocking receive with the channel empty, and then every
-- accepted byte, in order, has been given to the underlying writer or lost to a panic of it.
pub serve_all-IsDrained :
    {S : Type 0} (w : Sink S) (s : S) (n : ℕ) (es : List Move) (k : ℕ)
    → consumer_steps (serve_all w (new_log_proxy_writer s n) es) ≤ k
    → let reached = serve_all w (new_log_proxy_writer s n) es in
      let end = serve_all w reached (replicate k consumes) in
      IsDrained end × (log_bytes end.consumer.log ≡ concat reached.system.memory.sent)
serve_all-IsDrained w s n es k enough =
    let reached = serve_all w (new_log_proxy_writer s n) es in
    let end = serve_all w reached (replicate k consumes) in
    let i = serve_all-Inv w (new_log_proxy_writer s n) es (new_log_proxy_writer-Inv s n) in
    let (drained, sent) = drain w k reached i enough in
    (
      drained,
      sym (append-nil (log_bytes end.consumer.log))
          ∙ ap (λ x. log_bytes end.consumer.log ++ x) (sym (IsDrained-flight end drained))
          ∙ sym (sent-flight end (serve_all-Inv w reached (replicate k consumes) i))
          ∙ ap concat sent,
    )

-- If the underlying writer never panics, from every state that an interleaving reaches, enough steps of
-- the consumer give the underlying writer exactly the bytes of the payloads accepted, in the order of the
-- sends.
pub serve_all-offered_bytes :
    {S : Type 0} (w : Sink S) (s : S) (n : ℕ) (es : List Move) (k : ℕ)
    → ((t : S) (bs : Bytes) → (w t bs).1 ≢ crashed)
    → consumer_steps (serve_all w (new_log_proxy_writer s n) es) ≤ k
    → let reached = serve_all w (new_log_proxy_writer s n) es in
      offered_bytes (serve_all w reached (replicate k consumes)).consumer.log
      ≡ concat reached.system.memory.sent
serve_all-offered_bytes w s n es k returns enough =
    let start = new_log_proxy_writer s n in
    let i = serve_all-Inv w start es (new_log_proxy_writer-Inv s n) in
    let none_lost =
      serve_all-NoLoss w returns start es (new_log_proxy_writer-Inv s n) (record { all = refl }) in
    (serve_all-NoLoss w returns (serve_all w start es) (replicate k consumes) i none_lost).all
    ∙ (serve_all-IsDrained w s n es k enough).1
