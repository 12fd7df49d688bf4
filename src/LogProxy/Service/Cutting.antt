-- ===== src/LogProxy/Service/Cutting.antt =====
-- A step of the consumer gives or loses whole payloads.
use vlgo.Shared.{
  ℕ, ◌≡◌, refl, sym, ap, subst, ◌∙◌, inl, inr, List, [], ◌∷◌, ◌++◌, Option, none, some, append-nil,
  append_assoc, concat, concat-append,
}
use vlgo.LogProxy.Buffer.{Bytes, buffer}
use vlgo.LogProxy.Batch.{Heap, Outcome, written, failed, crashed, Sink}
use vlgo.LogProxy.Batch.Order.{bytes_of}
use vlgo.LogProxy.Sharing.{
  Thread, idle, done, loading, swapping, filling, sending, waiting, reading, storing, Memory,
  put_buffer_loop, receive_from,
}
use vlgo.LogProxy.Service.{
  Stage, selecting, polling, appending, putting, writing_first, writing_temp, writing_next, offered,
  lost, Consumer, put, then_next, then_temp, then_first, after_put, copies, receive_first, round,
  poll, wrote, consume_at,
}
use vlgo.LogProxy.Service.Ownership.{GoodStage}
use vlgo.LogProxy.Service.Rounds.{copies_room}
use vlgo.LogProxy.Service.Consuming.{put_buffer_loop-OnlySlots}
use vlgo.LogProxy.Service.Rounds.{round-TakesIn}
use vlgo.LogProxy.Service.Whole.{
  Cut, gives, loses, buffer_of, bytes_of-concat, parts, Temp, Holds, exactly-Holds, then_next-Holds,
  then_temp-Holds, then_first-Holds, put-Holds, round-Holds, WholeAt, Holds-WholeAt, StaysWhole,
}

module _ {S : Type 0} (m : Memory) where
  receive_first-Whole :
      (ps : List ℕ) (c : Consumer S) → WholeAt m selecting c.log → StaysWhole (receive_first ps c m)
  receive_first-Whole [] c s = s
  receive_first-Whole (p ∷ rest) c s =
      Holds-WholeAt (receive_from (p ∷ rest) m).1 (polling [] (some p)) c.log s.done
        (buffer (m.heap p) ∷ []) s.cut
        (ap (λ x. x ++ buffer (m.heap p) ∷ []) (s.all ∙ append-nil s.done))
        (exactly-Holds m.heap (polling [] (some p)) [] (refl, inr refl))

  poll-Whole :
      (temp : Bytes) (first : Option ℕ) (ps : List ℕ) (c : Consumer S)
      → GoodStage m.heap (polling temp first)
      → WholeAt m (polling temp first) c.log
      → StaysWhole (poll temp first ps c m)
  poll-Whole temp first [] c g s =
      Holds-WholeAt m (then_first first temp none) c.log s.done
        (buffer_of m.heap first ++ (s.tp ++ [])) s.cut
        (s.all ∙ ap (λ x. s.done ++ (buffer_of m.heap first ++ x)) (sym (append-nil s.tp)))
        (then_first-Holds m.heap first temp none s.tp s.temp.0)
  poll-Whole temp first (n ∷ rest) c g s =
      let r = round-TakesIn m.heap temp first n c g in
      Holds-WholeAt (receive_from (n ∷ rest) m).1 (round m.heap temp first n c).stage
        (round m.heap temp first n c).log s.done
        ((buffer_of m.heap first ++ s.tp) ++ buffer (m.heap n) ∷ [])
        (subst (λ x. Cut x s.done) (sym r.log) s.cut)
        (ap (λ x. x ++ buffer (m.heap n) ∷ []) s.all
          ∙ append_assoc s.done (buffer_of m.heap first ++ s.tp) _)
        (round-Holds m.heap temp first n c s.tp g s.temp)

  append-Whole :
      (temp : Bytes) (n : ℕ) (c : Consumer S)
      → GoodStage m.heap (appending temp n)
      → WholeAt m (appending temp n) c.log
      → StaysWhole (
        copies temp
            (m.heap n).len
            (temp ++ buffer (m.heap n))
            (put m.heap n (polling (temp ++ buffer (m.heap n)) none))
            c,
        m,
      )
  append-Whole temp n c g s =
      let k' = polling (temp ++ buffer (m.heap n)) none in
      let tp' = s.tp ++ buffer (m.heap n) ∷ [] in
      rw (copies_room temp (m.heap n).len (temp ++ buffer (m.heap n)) (put m.heap n k') c g) (
        Holds-WholeAt m (put m.heap n k') c.log s.done tp' s.cut s.all (
          put-Holds m.heap n k' tp' (
            exactly-Holds m.heap k' tp' (
              ap (λ x. x ++ buffer (m.heap n)) s.temp
                  ∙ ap (λ x. concat s.tp ++ x) (sym (append-nil (buffer (m.heap n))))
                  ∙ sym (concat-append s.tp (buffer (m.heap n) ∷ [])),
              inl refl,
            ))))

  -- A call of the underlying writer gives the payloads `qs`, and `rest` remain.
  wrote-Whole :
      (bs later : Bytes) (k' : Stage) (r : S × Outcome) (c : Consumer S)
      (given qs rest : List Bytes)
      → Cut c.log given
      → m.received ≡ given ++ (qs ++ rest)
      → bs ≡ concat qs
      → later ≡ concat rest
      → Holds m.heap rest k'
      → StaysWhole (wrote bs later k' r c, m)
  wrote-Whole bs later k' (t, crashed) c given qs rest cut e f l s =
      Holds-WholeAt m selecting (c.log ++ offered bs ∷ lost later ∷ []) ((given ++ qs) ++ rest) []
        (subst (λ x. Cut x ((given ++ qs) ++ rest))
          (append_assoc c.log (offered bs ∷ []) (lost later ∷ []))
          (loses (c.log ++ offered bs ∷ []) (given ++ qs) rest later l
            (gives c.log given qs bs f cut)))
        (e ∙ sym (append_assoc given qs rest) ∙ sym (append-nil ((given ++ qs) ++ rest)))
        (exactly-Holds m.heap selecting [] tt)
  wrote-Whole bs later k' (t, written) c given qs rest cut e f l s =
      Holds-WholeAt m k' (c.log ++ offered bs ∷ []) (given ++ qs) rest
        (gives c.log given qs bs f cut) (e ∙ sym (append_assoc given qs rest)) s
  wrote-Whole bs later k' (t, failed) c given qs rest cut e f l s =
      Holds-WholeAt m k' (c.log ++ offered bs ∷ []) (given ++ qs) rest
        (gives c.log given qs bs f cut) (e ∙ sym (append_assoc given qs rest)) s

-- `PutBuffer` changes neither the payloads held nor those of `tempBuffer`.
module _ (h : Heap) (k : Stage) (tp : List Bytes) where
  abbrev SameParts : Stage → Type 0
  SameParts k' = (parts h k' tp ≡ parts h k tp) × (Temp k tp → Temp k' tp)

  after_put-parts : (t : Thread) → SameParts (after_put t k)
  after_put-parts idle = (refl, λ e. e)
  after_put-parts (done n b) = (refl, λ e. e)
  after_put-parts (loading src i) = (refl, λ e. e)
  after_put-parts (swapping src i old) = (refl, λ e. e)
  after_put-parts (filling src p) = (refl, λ e. e)
  after_put-parts (sending src p) = (refl, λ e. e)
  after_put-parts (waiting src p) = (refl, λ e. e)
  after_put-parts (reading src p) = (refl, λ e. e)
  after_put-parts (storing p i) = (refl, λ e. e)

module _ {S : Type 0} (w : Sink S) where
  put_loop-Whole :
      (p i : ℕ) (k : Stage) (c : Consumer S) (m : Memory)
      → WholeAt m (putting p i k) c.log
      → let (t, m') = put_buffer_loop p i m in WholeAt m' (after_put t k) c.log
  put_loop-Whole p i k c m s =
      let t = (put_buffer_loop p i m).0 in
      let m' = (put_buffer_loop p i m).1 in
      let same = put_buffer_loop-OnlySlots m p i in
      let (held, temp) = after_put-parts m'.heap k s.tp t in
      record {
        done = s.done;
        tp = s.tp;
        temp = temp s.temp;
        cut = s.cut;
        all =
            same.received
            ∙ s.all
            ∙ ap (λ x. s.done ++ x) (sym (held ∙ ap (λ h. parts h k s.tp) same.heap));
      }

  pub consume_at-Whole :
      (k : Stage) (c : Consumer S) (m : Memory)
      → GoodStage m.heap k
      → WholeAt m k c.log
      → StaysWhole (consume_at w k c m)
  unfolding consume_at
  consume_at-Whole selecting c m g s = receive_first-Whole m m.chan c s
  consume_at-Whole (polling temp first) c m g s = poll-Whole m temp first m.chan c g s
  consume_at-Whole (appending temp n) c m g s = append-Whole m temp n c g s
  consume_at-Whole (putting p i k) c m g s = put_loop-Whole p i k c m s
  consume_at-Whole (writing_first f temp next) c m g s =
      wrote-Whole m _ _ (put m.heap f (then_temp temp next)) _ c s.done (buffer (m.heap f) ∷ [])
        (s.tp ++ buffer_of m.heap next) s.cut s.all (sym (append-nil (buffer (m.heap f))))
        (later temp next c m s.tp s.temp)
        (put-Holds m.heap f (then_temp temp next) _ (then_temp-Holds m.heap temp next s.tp s.temp))
    where
      later :
          (temp : Bytes) (next : Option ℕ) (c : Consumer S) (m : Memory) (tp : List Bytes)
          → temp ≡ concat tp
          → temp ++ bytes_of m.heap next ≡ concat (tp ++ buffer_of m.heap next)
      later temp next c m tp e =
          ap (λ x. x ++ bytes_of m.heap next) e
          ∙ ap (λ x. concat tp ++ x) (bytes_of-concat m.heap next)
          ∙ sym (concat-append tp (buffer_of m.heap next))
  consume_at-Whole (writing_temp temp next) c m g s =
      wrote-Whole m _ _ (then_next next) _ c s.done s.tp (buffer_of m.heap next) s.cut s.all s.temp
        (bytes_of-concat m.heap next) (then_next-Holds m.heap next)
  consume_at-Whole (writing_next n) c m g s =
      wrote-Whole m _ _ (put m.heap n selecting) _ c s.done (buffer (m.heap n) ∷ []) [] s.cut s.all
        (sym (append-nil (buffer (m.heap n)))) refl
        (put-Holds m.heap n selecting [] (exactly-Holds m.heap selecting [] tt))
