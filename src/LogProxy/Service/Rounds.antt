-- ===== src/LogProxy/Service/Rounds.antt =====
-- A round of the loop of `writeLog` within the bounds that the loop keeps: no copy panics, and the log
-- received is taken in behind the others.
use vlgo.Shared.{
  ℕ, ◌+◌, ◌≤◌, ◌≡◌, refl, sym, ap, ◌∙◌, inl, inr, [], ◌++◌, Option, none, some, append-nil,
  append_assoc, arith, Bool-cases, length,
}
use vlgo.LogProxy.Buffer.{Bytes, buffer, log_temp_buffer_size, length-buffer_le}
use vlgo.LogProxy.Batch.{Heap, over}
use vlgo.LogProxy.Batch.Order.{bytes_of}
use vlgo.LogProxy.Sharing.Owners.{one_at, in_slot}
use vlgo.LogProxy.Service.{Stage, polling, appending, Consumer, put, goes, copies, round}
use vlgo.LogProxy.Service.Ownership.{GoodStage}
use vlgo.LogProxy.Service.Pending.{Continues, then_temp-Continues, put-Continues}

-- Within the bounds that the loop keeps, a copy goes on.
module _ {S : Type 0} where
  pub copies_room :
      (temp : Bytes) (len : ℕ) (bs : Bytes) (k : Stage) (c : Consumer S)
      → length temp + len ≤ log_temp_buffer_size
      → copies temp len bs k c ≡ goes k c
  copies_room temp len bs k c room = ground arith

  -- The round takes in the log `n`.
  pub record TakesIn (h : Heap) (temp : Bytes) (first : Option ℕ) (n : ℕ) (c c' : Consumer S)
      : Type 0 where
    pub log : c'.log ≡ c.log
    pub sink : c'.sink ≡ c.sink
    pub goes_on :
        Continues h
          (λ a. one_at a n + in_slot a first)
          ((bytes_of h first ++ temp) ++ buffer (h n))
          c'.stage

  pub round-TakesIn :
      (h : Heap) (temp : Bytes) (first : Option ℕ) (n : ℕ) (c : Consumer S)
      → GoodStage h (polling temp first)
      → TakesIn h temp first n c (round h temp first n c)
  round-TakesIn h temp (some f) n c g = elim (Bool-cases (over (h f).len (h n).len)) [
    | inl full ↦ rw full record {
      log = refl;
      sink = refl;
      goes_on = record {
        held = λ a. omega arith;
        good = tt;
        same = sym (append_assoc (buffer (h f)) temp _);
      };
    }
    | inr fits ↦ elim g.1 [
      | inl e ↦ absurd (ground arith)
      | inr empty ↦
          let room : (h f).len + (h n).len ≤ log_temp_buffer_size = ground arith in
          let p =
            put-Continues h f (appending (buffer (h f)) n) (λ a. one_at a n)
              (buffer (h f) ++ buffer (h n))
              (record {
                held = λ a. omega arith;
                good = ground (arith, length-buffer_le (h f));
                same = refl;
              }) in
          rw
            (
              fits,
              empty,
              copies_room [] (h f).len _ (put h f (appending (buffer (h f)) n)) c (omega arith),
            )
            record {
              log = refl;
              sink = refl;
              goes_on = record {
                held = λ a. omega (arith, p.held a);
                good = p.good;
                same = p.same ∙ ap (λ x. x ++ buffer (h n)) (sym (append-nil (buffer (h f))));
              };
            }
    ]
  ]
  round-TakesIn h temp none n c g = elim (Bool-cases (over (length temp) (h n).len)) [
    | inl full ↦
        let t = then_temp-Continues h temp (some n) in
        rw full record {
          log = refl;
          sink = refl;
          goes_on = record { held = λ a. omega (arith, t.held a); good = t.good; same = t.same };
        }
    | inr fits ↦ rw fits record {
      log = refl;
      sink = refl;
      goes_on = record { held = λ a. omega arith; good = ground arith; same = refl };
    }
  ]
