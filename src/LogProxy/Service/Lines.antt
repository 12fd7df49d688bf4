-- ===== src/LogProxy/Service/Lines.antt =====
-- No call of the underlying writer cuts a payload, under every interleaving.
use vlgo.Shared.{
  ℕ, ◌<◌, ◌≡◌, refl, sym, ap, ◌∙◌, List, [], ◌∷◌, ◌++◌, Option, none, some, append_assoc, arith,
}
use vlgo.LogProxy.Buffer.{Bytes, buffer}
use vlgo.LogProxy.Batch.{Heap, Sink}
use vlgo.LogProxy.Service.{
  Stage, selecting, polling, appending, putting, writing_first, writing_temp, writing_next,
}
use vlgo.LogProxy.Service.Ownership.{holds}
use vlgo.LogProxy.Sharing.{step}
use vlgo.LogProxy.Sharing.Fits.{contents}
use vlgo.LogProxy.Sharing.Exclusive.{step-AllKeep}
use vlgo.LogProxy.Service.{
  Call, choice_of, Move, writes, consumes, Service, new_log_proxy_writer, serve, serve_all,
}
use vlgo.LogProxy.Service.Histories.{step-Outside}
use vlgo.LogProxy.Service.Bytewise.{ServiceInv, serve-Inv, serve_all-Inv, new_log_proxy_writer-Inv}
use vlgo.LogProxy.Service.Whole.{Cut, nothing, buffer_of, parts, WholeAt}
use vlgo.LogProxy.Sharing.Owners.{in_slot}
use vlgo.LogProxy.Service.Cutting.{consume_at-Whole}

buffer_of-eq :
    (h h' : Heap) (o : Option ℕ)
    → ((a : ℕ) → 0 < in_slot a o → h' a ≡ h a)
    → buffer_of h' o ≡ buffer_of h o
buffer_of-eq h h' none same = refl
buffer_of-eq h h' (some p) same = ap (λ x. buffer x ∷ []) (same p (ground arith))

parts-eq :
    (h h' : Heap) (k : Stage) (tp : List Bytes)
    → ((a : ℕ) → 0 < holds a k → h' a ≡ h a)
    → parts h' k tp ≡ parts h k tp
parts-eq h h' selecting tp same = refl
parts-eq h h' (polling temp first) tp same = ap (λ x. x ++ tp) (buffer_of-eq h h' first same)
parts-eq h h' (appending temp n) tp same = ap (λ x. tp ++ buffer x ∷ []) (same n (ground arith))
parts-eq h h' (putting p i k) tp same = parts-eq h h' k tp (λ a l. same a (omega arith))
parts-eq h h' (writing_first f temp next) tp same =
    ap (λ x. buffer x ∷ (tp ++ buffer_of h' next)) (same f (ground arith))
    ∙ ap (λ x. buffer (h f) ∷ (tp ++ x)) (buffer_of-eq h h' next (λ a l. same a (omega arith)))
parts-eq h h' (writing_temp temp next) tp same = ap (λ x. tp ++ x) (buffer_of-eq h h' next same)
parts-eq h h' (writing_next n) tp same = ap (λ x. buffer x ∷ []) (same n (ground arith))

module _ {S : Type 0} where
  abbrev WholeInv : Service S → Type 0
  WholeInv s = WholeAt s.system.memory s.consumer.stage s.consumer.log

  writes-Whole :
      (s : Service S) (k : ℕ) (c : Call)
      → ServiceInv s
      → WholeInv s
      → WholeInv (record s { system = step s.system (k, choice_of c) })
  writes-Whole s k c i x =
      let a = step-AllKeep (λ a. holds a s.consumer.stage) s.system (k, choice_of c) i.fits in
      record {
        done = x.done;
        tp = x.tp;
        temp = x.temp;
        cut = x.cut;
        all =
            (step-Outside s.system k c).received
            ∙ x.all
            ∙ ap (λ y. x.done ++ y) (sym (parts-eq _ _ s.consumer.stage x.tp a.frame));
      }

  module _ (w : Sink S) where
    serve-Whole : (s : Service S) (e : Move) → ServiceInv s → WholeInv s → WholeInv (serve w s e)
    unfolding serve
    serve-Whole s (writes k c) i x = writes-Whole s k c i x
    serve-Whole s consumes i x =
        consume_at-Whole w s.consumer.stage s.consumer s.system.memory i.good x

    serve_all-Whole :
        (s : Service S) (es : List Move) → ServiceInv s → WholeInv s → WholeInv (serve_all w s es)
    unfolding serve_all
    serve_all-Whole s [] i x = x
    serve_all-Whole s (e ∷ es) i x =
        serve_all-Whole (serve w s e) es (serve-Inv w s e i) (serve-Whole s e i x)

-- Under every interleaving of `n` goroutines that write with the consumer, and whatever the underlying
-- writer returns or panics with, each of its calls so far has been given a number of whole payloads, in the order of
-- the sends, and each loss to a panic of it is one of whole payloads; the other payloads accepted are
-- those behind.
pub serve_all-Cut :
    {S : Type 0} (w : Sink S) (s : S) (n : ℕ) (es : List Move)
    → let end = serve_all w (new_log_proxy_writer s n) es in
      (given rest : List Bytes) × Cut end.consumer.log given
      × (end.system.memory.sent ≡ given ++ rest)
serve_all-Cut w s n es =
    let start = new_log_proxy_writer s n in
    let end = serve_all w start es in
    let i = serve_all-Inv w start es (new_log_proxy_writer-Inv s n) in
    let x =
      serve_all-Whole w start es (new_log_proxy_writer-Inv s n)
        (record { done = []; tp = []; temp = tt; cut = nothing; all = refl }) in
    let m = end.system.memory in
    let held = parts m.heap end.consumer.stage x.tp in
    (
      x.done,
      held ++ contents m.heap m.chan,
      x.cut,
      i.fits.queue
          ∙ ap (λ y. y ++ contents m.heap m.chan) x.all
          ∙ append_assoc x.done held (contents m.heap m.chan),
    )
