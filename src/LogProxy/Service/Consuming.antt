-- ===== src/LogProxy/Service/Consuming.antt =====
-- A step of the consumer keeps the order of the bytes and the ownership of the buffers.
use vlgo.Shared.{
  ℕ, ◌≡◌, refl, sym, ap, subst, ◌∙◌, inl, inr, List, [], ◌∷◌, ◌++◌, Option, none, some, append-nil,
  arith, ltb, Bool-cases, length-append, concat, get_elem?,
}
use vlgo.LogProxy.Buffer.{Bytes, buffer, length-buffer_le}
use vlgo.LogProxy.Batch.{Outcome, written, failed, crashed, Sink}
use vlgo.LogProxy.Batch.Order.{bytes_of}
use vlgo.LogProxy.Sharing.{
  Thread, Memory, put_buffer_loop, store_slot, receive_from, log_buffer_cache_count,
}
use vlgo.LogProxy.Sharing.Fits.{Good}
use vlgo.LogProxy.Sharing.Exclusive.{tail_AllFit}
use vlgo.LogProxy.Service.{
  Stage, selecting, polling, appending, putting, writing_first, writing_temp, writing_next, offered,
  lost, Consumer, put, then_first, after_put, copies, receive_first, round, poll, wrote, consume_at,
}
use vlgo.LogProxy.Service.Ownership.{
  holds, GoodStage, AllFit-le, put_buffer_loop-AllFit, holds-after_put, GoodStage-after_put,
}
use vlgo.LogProxy.Service.Rounds.{copies_room, round-TakesIn}
use vlgo.LogProxy.Service.Pending.{
  pending, log_bytes, Continues, then_next-Continues, then_temp-Continues, then_first-Continues,
  put-Continues, put_last-Continues, pending-after_put, Sound, stays-Sound, goes-Sound,
  receives-Sound,
}

module _ (m : Memory) where
  -- `PutBuffer` reads and writes the slots only.
  pub record OnlySlots (m' : Memory) : Type 0 where
    pub heap : m'.heap ≡ m.heap
    pub sent : m'.sent ≡ m.sent
    pub received : m'.received ≡ m.received
    pub chan : m'.chan ≡ m.chan

  store_slot-OnlySlots : (p i : ℕ) (o : Option (Option ℕ)) → OnlySlots (store_slot p i o m).1
  store_slot-OnlySlots p i (some none) = record {
    heap = refl;
    sent = refl;
    received = refl;
    chan = refl;
  }
  store_slot-OnlySlots p i (some (some q)) = record {
    heap = refl;
    sent = refl;
    received = refl;
    chan = refl;
  }
  store_slot-OnlySlots p i none = record { heap = refl; sent = refl; received = refl; chan = refl }

  pub put_buffer_loop-OnlySlots : (p i : ℕ) → OnlySlots (put_buffer_loop p i m).1
  put_buffer_loop-OnlySlots p i = elim (Bool-cases (ltb i log_buffer_cache_count)) [
    | inl more ↦ rw more (store_slot-OnlySlots p i (get_elem? m.slots i))
    | inr end ↦ rw end record { heap = refl; sent = refl; received = refl; chan = refl }
  ]

-- What a step of the consumer keeps.
abbrev pub Keeps : {S : Type 0} → List Thread → Consumer S × Memory → Type 0
Keeps ts (c, m) = Sound ts m c.stage c.log

module _ {S : Type 0} (ts : List Thread) (m : Memory) where
  receive_first-Keeps :
      (ps : List ℕ) (c : Consumer S)
      → m.chan ≡ ps
      → Sound ts m selecting c.log
      → Keeps ts (receive_first ps c m)
  receive_first-Keeps [] c e s = s
  receive_first-Keeps (p ∷ rest) c e s =
      receives-Sound ts m selecting (polling [] (some p)) c.log p rest e s (record {
        held = λ a. omega arith;
        good = (omega arith, inr refl);
        same = append-nil (buffer (m.heap p));
      })

  poll-Keeps :
      (temp : Bytes) (first : Option ℕ) (ps : List ℕ) (c : Consumer S)
      → m.chan ≡ ps
      → Sound ts m (polling temp first) c.log
      → Keeps ts (poll temp first ps c m)
  poll-Keeps temp first [] c e s =
      let t = then_first-Continues m.heap first temp none in
      stays-Sound ts m (polling temp first) (then_first first temp none) c.log s (record {
        held = λ a. omega (arith, t.held a);
        good = t.good;
        same = t.same ∙ ap (λ x. bytes_of m.heap first ++ x) (append-nil temp);
      })
  poll-Keeps temp first (n ∷ rest) c e s =
      let r = round-TakesIn m.heap temp first n c s.good in
      subst (λ log. Sound ts (receive_from (n ∷ rest) m).1 (round m.heap temp first n c).stage log)
        (sym r.log) (receives-Sound ts m (polling temp first) _ c.log n rest e s r.goes_on)

  append-Keeps :
      (temp : Bytes) (n : ℕ) (c : Consumer S)
      → Sound ts m (appending temp n) c.log
      → Keeps ts (
        copies temp
            (m.heap n).len
            (temp ++ buffer (m.heap n))
            (put m.heap n (polling (temp ++ buffer (m.heap n)) none))
            c,
        m,
      )
  append-Keeps temp n c s =
      rw
        (copies_room temp (m.heap n).len (temp ++ buffer (m.heap n))
          (put m.heap n (polling (temp ++ buffer (m.heap n)) none)) c s.good)
        (stays-Sound ts m (appending temp n) _ c.log s (
          put_last-Continues m.heap n (polling (temp ++ buffer (m.heap n)) none)
            (temp ++ buffer (m.heap n))
            (record {
              held = λ a. omega arith;
              good = (
                omega (
                  arith,
                  s.good,
                  length-append temp (buffer (m.heap n)),
                  length-buffer_le (m.heap n),
                ),
                inl refl,
              );
              same = refl;
            })))

  -- A call of the underlying writer, on each of its ends.
  wrote-Keeps :
      (k : Stage) (bs later : Bytes) (k' : Stage) (r : S × Outcome) (c : Consumer S)
      → Sound ts m k c.log
      → pending m.heap k ≡ bs ++ later
      → Continues m.heap (λ a. holds a k) later k'
      → Keeps ts (wrote bs later k' r c, m)
  wrote-Keeps k bs later k' (sink, crashed) c s e t =
      goes-Sound ts m k selecting c.log (offered bs ∷ lost later ∷ []) s (λ a. omega arith) tt
        ((simp append-nil) ∙ sym e)
  wrote-Keeps k bs later k' (sink, written) c s e t =
      goes-Sound ts m k k' c.log (offered bs ∷ []) s t.held t.good
        (ap (λ x. x ++ pending m.heap k') (append-nil bs) ∙ ap (λ x. bs ++ x) t.same ∙ sym e)
  wrote-Keeps k bs later k' (sink, failed) c s e t =
      goes-Sound ts m k k' c.log (offered bs ∷ []) s t.held t.good
        (ap (λ x. x ++ pending m.heap k') (append-nil bs) ∙ ap (λ x. bs ++ x) t.same ∙ sym e)

  put_loop-Keeps :
      (p i : ℕ) (k : Stage) (c : Consumer S)
      → Sound ts m (putting p i k) c.log
      → let (t, m') = put_buffer_loop p i m in Sound ts m' (after_put t k) c.log
  put_loop-Keeps p i k c s =
      let t = (put_buffer_loop p i m).0 in
      let m' = (put_buffer_loop p i m).1 in
      let same = put_buffer_loop-OnlySlots m p i in
      let all = put_buffer_loop-AllFit (λ a. holds a k) ts m p i s.good.0 s.fits in
      record {
        fits =
            AllFit-le _ _ ts m' (λ a. holds-after_put a t k)
              (tail_AllFit (λ a. holds a k) t ts m' all);
        good =
            GoodStage-after_put m'.heap t k (λ q j e. subst (Good m'.heap) e all.good.0)
              (subst (λ h. GoodStage h k) (sym same.heap) s.good.1);
        bytes =
            ap (λ x. log_bytes c.log ++ x)
              (pending-after_put m'.heap t k ∙ ap (λ h. pending h k) same.heap)
            ∙ s.bytes
            ∙ ap concat (sym same.received);
      }

module _ {S : Type 0} (w : Sink S) (ts : List Thread) where
  -- Every step of the consumer keeps it.
  pub consume_at-Keeps :
      (k : Stage) (c : Consumer S) (m : Memory) → Sound ts m k c.log → Keeps ts (consume_at w k c m)
  unfolding consume_at
  consume_at-Keeps selecting c m s = receive_first-Keeps ts m m.chan c refl s
  consume_at-Keeps (polling temp first) c m s = poll-Keeps ts m temp first m.chan c refl s
  consume_at-Keeps (appending temp n) c m s = append-Keeps ts m temp n c s
  consume_at-Keeps (putting p i k) c m s = put_loop-Keeps ts m p i k c s
  consume_at-Keeps (writing_first f temp next) c m s =
      wrote-Keeps ts m _ _ _ _ _ c s refl
        (put-Continues m.heap f _ _ _ (then_temp-Continues m.heap temp next))
  consume_at-Keeps (writing_temp temp next) c m s =
      wrote-Keeps ts m _ _ _ _ _ c s refl (then_next-Continues m.heap next)
  consume_at-Keeps (writing_next n) c m s = wrote-Keeps ts m _ _ _ _ _ c s (sym (append-nil _)) (
      put_last-Continues m.heap n selecting []
        (record { held = λ a. omega arith; good = tt; same = refl }))
