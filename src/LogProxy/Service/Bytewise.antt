-- ===== src/LogProxy/Service/Bytewise.antt =====
-- The log proxy keeps every byte and their order, under every interleaving of the goroutines that write
-- with the one that drains the channel.
use vlgo.Shared.{
  ℕ, ◌≡◌, refl, sym, ap, ◌∙◌, List, [], ◌∷◌, ◌++◌, append_assoc, concat, concat-append,
}
use vlgo.LogProxy.Buffer.{Bytes}
use vlgo.LogProxy.Batch.{Sink}
use vlgo.LogProxy.Sharing.{step}
use vlgo.LogProxy.Sharing.Fits.{contents}
use vlgo.LogProxy.Sharing.Exclusive.{step-AllKeep, start-Inv}
use vlgo.LogProxy.Service.{
  Call, choice_of, Move, writes, consumes, Service, new_log_proxy_writer, serve, serve_all,
}
use vlgo.LogProxy.Service.Histories.{step-Outside}
use vlgo.LogProxy.Service.Ownership.{holds, GoodStage-eq}
use vlgo.LogProxy.Service.Pending.{pending, pending-eq, log_bytes, Sound}
use vlgo.LogProxy.Service.Consuming.{consume_at-Keeps}

module _ {S : Type 0} where
  -- What holds of the whole proxy between two steps.
  abbrev pub ServiceInv : Service S → Type 0
  ServiceInv s = Sound s.system.threads s.system.memory s.consumer.stage s.consumer.log

  -- The bytes accepted and not yet given to the underlying writer.
  abbrev pub flight : Service S → Bytes
  flight s =
      let m = s.system.memory in pending m.heap s.consumer.stage ++ concat (contents m.heap m.chan)

  pub new_log_proxy_writer-Inv : (s : S) (n : ℕ) → ServiceInv (new_log_proxy_writer s n)
  new_log_proxy_writer-Inv s n = record { fits = start-Inv n; good = tt; bytes = refl }

  writes-Inv :
      (s : Service S) (k : ℕ) (c : Call)
      → ServiceInv s
      → ServiceInv (record s { system = step s.system (k, choice_of c) })
  writes-Inv s k c i =
      let a = step-AllKeep (λ a. holds a s.consumer.stage) s.system (k, choice_of c) i.fits in
      record {
        fits = a.fits;
        good = GoodStage-eq _ _ s.consumer.stage a.frame i.good;
        bytes =
            ap (λ x. log_bytes s.consumer.log ++ x) (pending-eq _ _ s.consumer.stage a.frame)
            ∙ i.bytes
            ∙ ap concat (sym (step-Outside s.system k c).received);
      }

  module _ (w : Sink S) where
    pub serve-Inv : (s : Service S) (e : Move) → ServiceInv s → ServiceInv (serve w s e)
    unfolding serve
    serve-Inv s (writes k c) i = writes-Inv s k c i
    serve-Inv s consumes i =
        consume_at-Keeps w s.system.threads s.consumer.stage s.consumer s.system.memory i

    pub serve_all-Inv :
        (s : Service S) (es : List Move) → ServiceInv s → ServiceInv (serve_all w s es)
    unfolding serve_all
    serve_all-Inv s [] i = i
    serve_all-Inv s (e ∷ es) i = serve_all-Inv (serve w s e) es (serve-Inv s e i)

  pub sent-flight :
      (s : Service S)
      → ServiceInv s
      → concat s.system.memory.sent ≡ log_bytes s.consumer.log ++ flight s
  sent-flight s i =
      ap concat i.fits.queue
      ∙ concat-append s.system.memory.received _
      ∙ ap (λ x. x ++ concat (contents s.system.memory.heap s.system.memory.chan)) (sym i.bytes)
      ∙ append_assoc (log_bytes s.consumer.log) _ _

-- Under every interleaving of `n` goroutines that write with the consumer, and whatever the underlying
-- writer returns or panics with, the bytes of the accepted payloads, in the order of the sends, are
-- those given to the underlying writer or lost to a panic of it, followed by those that the consumer
-- holds and those that wait in the channel.
pub sent-serve_all :
    {S : Type 0} (w : Sink S) (s : S) (n : ℕ) (es : List Move)
    → let end = serve_all w (new_log_proxy_writer s n) es in
      concat end.system.memory.sent ≡ log_bytes end.consumer.log ++ flight end
sent-serve_all w s n es =
    sent-flight (serve_all w (new_log_proxy_writer s n) es)
      (serve_all-Inv w (new_log_proxy_writer s n) es (new_log_proxy_writer-Inv s n))
