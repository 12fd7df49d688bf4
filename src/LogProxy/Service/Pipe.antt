-- ===== src/LogProxy/Service/Pipe.antt =====
-- The log proxy implements a pipe: a queue of bytes between the callers of `Write` and the underlying
-- writer, first in, first out.
use vlgo.Shared.{
  ℕ, ◌≡◌, ◌≢◌, refl, sym, ap, ◌∙◌, inl, inr, List, [], ◌∷◌, ◌++◌, append-nil, append_assoc,
  append_cancel_left, concat, concat-append,
}
use vlgo.LogProxy.Buffer.{Bytes}
use vlgo.LogProxy.Batch.{crashed, Sink}
use vlgo.LogProxy.Service.{
  Entry, offered, lost, Move, writes, consumes, Service, new_log_proxy_writer, serve, serve_all,
}
use vlgo.LogProxy.Service.Effects.{Effect, quiet, gives, gives_up, consume_at-Effect}
use vlgo.LogProxy.Service.Histories.{Outside, step-Outside}
use vlgo.LogProxy.Service.Bytewise.{
  ServiceInv, flight, serve-Inv, serve_all-Inv, sent-flight, new_log_proxy_writer-Inv,
}
use vlgo.LogProxy.Service.Pending.{log_bytes, log_bytes-append}

-- The payloads accepted, the bytes on their way, and the underlying writer.
pub record Pipe (S : Type 0) : Type 0 where
  pub accepted : List Bytes
  pub queue : Bytes
  pub sink : S

module _ {S : Type 0} where
  abbrev pub empty_pipe : S → Pipe S
  empty_pipe s = record { accepted = []; queue = []; sink = s }

  -- A step of the pipe: nothing; a payload goes in at the back; bytes at the front are given to the
  -- underlying writer, which takes them or fails; or, if it panics with them, some more may be lost.
  pub data PipeStep (w : Sink S) (p q : Pipe S) : Type 0 where
    waits : q ≡ p → PipeStep w p q
    accepts :
        (src : Bytes)
        → q ≡ record { accepted = p.accepted ++ src ∷ []; queue = p.queue ++ src; sink = p.sink }
        → PipeStep w p q
    delivers :
        (bs rest : Bytes)
        → p.queue ≡ bs ++ rest
        → (w p.sink bs).1 ≢ crashed
        → q ≡ record { accepted = p.accepted; queue = rest; sink = (w p.sink bs).0 }
        → PipeStep w p q
    drops :
        (bs later rest : Bytes)
        → p.queue ≡ bs ++ (later ++ rest)
        → (w p.sink bs).1 ≡ crashed
        → q ≡ record { accepted = p.accepted; queue = rest; sink = (w p.sink bs).0 }
        → PipeStep w p q

  -- The pipe that the proxy stands for.
  abbrev pub pipe_of : Service S → Pipe S
  pipe_of s = record { accepted = s.system.memory.sent; queue = flight s; sink = s.consumer.sink }

  pipe-eq :
      (a a' : List Bytes) (q q' : Bytes) (s s' : S)
      → a ≡ a'
      → q ≡ q'
      → s ≡ s'
      → ◌≡◌ {A = Pipe S}
          record { accepted = a; queue = q; sink = s }
          record { accepted = a'; queue = q'; sink = s' }
  pipe-eq a a' q q' s s' e f g =
      ap (λ x. record { accepted = x; queue = q; sink = s }) e
      ∙ ap (λ x. record { accepted = a'; queue = x; sink = s }) f
      ∙ ap (λ x. record { accepted = a'; queue = q'; sink = x }) g

-- The bytes on their way before a step are those that the step gives or loses, and those after it.
module _ {S : Type 0} (s s' : Service S) (i : ServiceInv s) (i' : ServiceInv s') where
  flight-given :
      (new : List Entry)
      → s'.system.memory.sent ≡ s.system.memory.sent
      → s'.consumer.log ≡ s.consumer.log ++ new
      → flight s ≡ log_bytes new ++ flight s'
  flight-given new sent log = append_cancel_left (log_bytes s.consumer.log) _ _ (
      sym (sent-flight s i)
      ∙ ap concat (sym sent)
      ∙ sent-flight s' i'
      ∙ ap (λ x. log_bytes x ++ flight s') log
      ∙ ap (λ x. x ++ flight s') (log_bytes-append s.consumer.log new)
      ∙ append_assoc (log_bytes s.consumer.log) (log_bytes new) (flight s'))

  flight-accepted :
      (src : Bytes)
      → s'.system.memory.sent ≡ s.system.memory.sent ++ src ∷ []
      → s'.consumer.log ≡ s.consumer.log
      → flight s' ≡ flight s ++ src
  flight-accepted src sent log = append_cancel_left (log_bytes s.consumer.log) _ _ (
      ap (λ x. log_bytes x ++ flight s') (sym log)
      ∙ sym (sent-flight s' i')
      ∙ ap concat sent
      ∙ concat-append s.system.memory.sent (src ∷ [])
      ∙ ap (λ x. x ++ (src ++ [])) (sent-flight s i)
      ∙ append_assoc (log_bytes s.consumer.log) (flight s) (src ++ [])
      ∙ ap (λ x. log_bytes s.consumer.log ++ (flight s ++ x)) (append-nil src))

  module _ (w : Sink S) where
    Effect-PipeStep :
        s'.system.memory.sent ≡ s.system.memory.sent
        → Effect w s.consumer s'.consumer
        → PipeStep w (pipe_of s) (pipe_of s')
    Effect-PipeStep sent (quiet log sink) = waits (
        pipe-eq _ _ _ _ _ _ sent
          (sym (flight-given [] sent (log ∙ sym (append-nil s.consumer.log)))) sink)
    Effect-PipeStep sent (gives bs log sink back) =
        delivers bs (flight s')
          (flight-given (offered bs ∷ []) sent log ∙ ap (λ x. x ++ flight s') (append-nil bs)) back
          (pipe-eq _ _ _ _ _ _ sent refl sink)
    Effect-PipeStep sent (gives_up bs later log sink crash) =
        drops bs later (flight s')
          (flight-given (offered bs ∷ lost later ∷ []) sent log ∙ (simp (append-nil, append_assoc)))
          crash (pipe-eq _ _ _ _ _ _ sent refl sink)

    Outside-PipeStep :
        s'.consumer ≡ s.consumer
        → Outside s.system.memory s'.system.memory
        → PipeStep w (pipe_of s) (pipe_of s')
    Outside-PipeStep same o = elim o.accepted [
      | inl sent ↦ waits (
          pipe-eq _ _ _ _ _ _ sent
            (sym (flight-given [] sent (ap (λ c. c.log) same ∙ sym (append-nil s.consumer.log))))
            (ap (λ c. c.sink) same))
      | inr (src, sent) ↦ accepts src (
          pipe-eq _ _ _ _ _ _ sent (flight-accepted src sent (ap (λ c. c.log) same))
            (ap (λ c. c.sink) same))
    ]

module _ {S : Type 0} (w : Sink S) where
  serve-PipeStep :
      (s : Service S) (e : Move) → ServiceInv s → PipeStep w (pipe_of s) (pipe_of (serve w s e))
  unfolding serve
  serve-PipeStep s (writes k c) i =
      Outside-PipeStep s _ i (serve-Inv w s (writes k c) i) w refl (step-Outside s.system k c)
  serve-PipeStep s consumes i =
      let (effect, sent) = consume_at-Effect w s.consumer s.consumer.stage s.system.memory i.good in
      Effect-PipeStep s _ i (serve-Inv w s consumes i) w sent effect

-- The log proxy refines the pipe: a new one stands for the empty pipe, and in every state that an
-- interleaving of `n` goroutines that write with the consumer reaches, each further step, of either
-- side, is a step of the pipe, whatever the underlying writer returns or panics with.
pub serve_all-PipeStep :
    {S : Type 0} (w : Sink S) (s : S) (n : ℕ) (es : List Move) (e : Move)
    → let reached = serve_all w (new_log_proxy_writer s n) es in
      (pipe_of (new_log_proxy_writer s n) ≡ empty_pipe s)
      × PipeStep w (pipe_of reached) (pipe_of (serve w reached e))
serve_all-PipeStep w s n es e = (
  refl,
  serve-PipeStep w (serve_all w (new_log_proxy_writer s n) es) e
      (serve_all-Inv w (new_log_proxy_writer s n) es (new_log_proxy_writer-Inv s n)),
)
