-- ===== src/LogProxy/Service/Effects.antt =====
-- What a step of the consumer adds to its history, and the call of the underlying writer that it makes.
use vlgo.Shared.{ℕ, ◌≡◌, ◌≢◌, refl, sym, ap, List, [], ◌∷◌, ◌++◌, Option, length, ◌+◌, ◌≤◌, arith}
use vlgo.LogProxy.Buffer.{Bytes, log_temp_buffer_size}
use vlgo.LogProxy.Batch.{Outcome, written, failed, crashed, Sink}
use vlgo.LogProxy.Sharing.{Memory}
use vlgo.LogProxy.Service.{
  Stage, selecting, polling, appending, putting, writing_first, writing_temp, writing_next, offered,
  lost, Consumer, copies, receive_first, poll, wrote, consume_at,
}
use vlgo.LogProxy.Service.Ownership.{GoodStage}
use vlgo.LogProxy.Service.Rounds.{copies_room, round-TakesIn}
use vlgo.LogProxy.Service.Consuming.{put_buffer_loop-OnlySlots}

module _ {S : Type 0} where
  -- What a step of the consumer adds to its history, and does to the underlying writer.
  pub data Effect (w : Sink S) (c c' : Consumer S) : Type 0 where
    quiet : c'.log ≡ c.log → c'.sink ≡ c.sink → Effect w c c'
    gives :
        (bs : Bytes)
        → c'.log ≡ c.log ++ offered bs ∷ []
        → c'.sink ≡ (w c.sink bs).0
        → (w c.sink bs).1 ≢ crashed
        → Effect w c c'
    gives_up :
        (bs later : Bytes)
        → c'.log ≡ c.log ++ offered bs ∷ lost later ∷ []
        → c'.sink ≡ (w c.sink bs).0
        → (w c.sink bs).1 ≡ crashed
        → Effect w c c'

  module _ (w : Sink S) (c : Consumer S) where
    wrote-Effect :
        (bs later : Bytes) (k : Stage) (r : S × Outcome)
        → w c.sink bs ≡ r
        → Effect w c (wrote bs later k r c)
    wrote-Effect bs later k (s, crashed) e =
        gives_up bs later refl (sym (ap (λ x. x.0) e)) (ap (λ x. x.1) e)
    wrote-Effect bs later k (s, written) e =
        gives bs refl (sym (ap (λ x. x.0) e)) (ground (arith, ap (λ x. x.1) e))
    wrote-Effect bs later k (s, failed) e =
        gives bs refl (sym (ap (λ x. x.0) e)) (ground (arith, ap (λ x. x.1) e))

    copies-Effect :
        (temp : Bytes) (len : ℕ) (bs : Bytes) (k : Stage)
        → length temp + len ≤ log_temp_buffer_size
        → Effect w c (copies temp len bs k c)
    copies-Effect temp len bs k room = rw (copies_room temp len bs k c room) (quiet refl refl)

    receive_first-Effect :
        (ps : List ℕ) (m : Memory)
        → Effect w c (receive_first ps c m).0 × ((receive_first ps c m).1.sent ≡ m.sent)
    receive_first-Effect [] m = (quiet refl refl, refl)
    receive_first-Effect (p ∷ rest) m = (quiet refl refl, refl)

    poll-Effect :
        (temp : Bytes) (first : Option ℕ) (ps : List ℕ) (m : Memory)
        → GoodStage m.heap (polling temp first)
        → Effect w c (poll temp first ps c m).0 × ((poll temp first ps c m).1.sent ≡ m.sent)
    poll-Effect temp first [] m g = (quiet refl refl, refl)
    poll-Effect temp first (n ∷ rest) m g =
        let r = round-TakesIn m.heap temp first n c g in (quiet r.log r.sink, refl)

    pub consume_at-Effect :
        (k : Stage) (m : Memory)
        → GoodStage m.heap k
        → Effect w c (consume_at w k c m).0 × ((consume_at w k c m).1.sent ≡ m.sent)
    unfolding consume_at
    consume_at-Effect selecting m g = receive_first-Effect m.chan m
    consume_at-Effect (polling temp first) m g = poll-Effect temp first m.chan m g
    consume_at-Effect (appending temp n) m g = (copies-Effect _ _ _ _ g, refl)
    consume_at-Effect (putting p i k) m g =
        (quiet refl refl, (put_buffer_loop-OnlySlots m p i).sent)
    consume_at-Effect (writing_first f temp next) m g = (wrote-Effect _ _ _ _ refl, refl)
    consume_at-Effect (writing_temp temp next) m g = (wrote-Effect _ _ _ _ refl, refl)
    consume_at-Effect (writing_next n) m g = (wrote-Effect _ _ _ _ refl, refl)
