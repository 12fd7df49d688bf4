-- ===== src/LogProxy/Sharing/Results.antt =====
-- What `Write` returns, and the bound of the channel.
use vlgo.Shared.{
  ℕ, zero, suc, ◌≤◌, ◌<◌, ◌≡◌, refl, ap, inl, inr, true, false, List, [], ◌∷◌, ◌++◌, Option, none,
  some, arith, ltb, Bool-cases, length, length-append,
}
use vlgo.LogProxy.Buffer.{Bytes}
use vlgo.LogProxy.Sharing.{
  Thread, idle, done, sending, waiting, Memory, Choice, proceed, receive, expire, load_slot,
  advance, send, receive_from, max_log_chan_size, step_at, System, step, run, start,
}

-- The three ends of a `select` of `Write`: the payload is in the channel and its length is returned
-- with no error, the error is returned with 0 and the channel is as it was, or the goroutine waits.
pub data WriteEnds (src : Bytes) (p : ℕ) (m : Memory) (end : Thread × Memory) : Type 0 where
  accepted :
      length m.chan < max_log_chan_size
      → end.0 ≡ done (length src) false
      → end.1 ≡ record m { chan = m.chan ++ p ∷ []; sent = m.sent ++ src ∷ [] }
      → WriteEnds src p m end
  timed_out : end.0 ≡ done 0 true → end.1 ≡ m → WriteEnds src p m end
  blocked :
      end.0 ≡ waiting src p → end.1 ≡ m → max_log_chan_size ≤ length m.chan → WriteEnds src p m end

send-WriteEnds :
    (src : Bytes) (p : ℕ) (m : Memory) → WriteEnds src p m (send src p (waiting src p) m)
send-WriteEnds src p m = elim (Bool-cases (ltb (length m.chan) max_log_chan_size)) [
  | inl room ↦ rw room (accepted (ground arith) refl refl)
  | inr full ↦ rw full (blocked refl refl (ground arith))
]

-- Each `select` of `Write` ends in one of the three ways; the second one times out only by its timer,
-- and the first one, which has a default case, never does.
pub write-WriteEnds :
    (src : Bytes) (p : ℕ) (m : Memory)
    → WriteEnds src p m (advance proceed (sending src p) m)
      × WriteEnds src p m (advance proceed (waiting src p) m)
      × WriteEnds src p m (advance expire (waiting src p) m)
unfolding advance
write-WriteEnds src p m = (send-WriteEnds src p m, send-WriteEnds src p m, timed_out refl refl)

abbrev IsBounded : Memory → Type 0
IsBounded m = length m.chan ≤ max_log_chan_size

send-IsBounded :
    (src : Bytes) (p : ℕ) (full : Thread) (m : Memory)
    → IsBounded m
    → IsBounded (send src p full m).1
send-IsBounded src p full m h = ground (arith, length-append m.chan (p ∷ []))

receive_from-IsBounded :
    (ps : List ℕ) (m : Memory) → m.chan ≡ ps → IsBounded m → IsBounded (receive_from ps m).1
receive_from-IsBounded [] m e h = h
receive_from-IsBounded (p ∷ ps) m e h = omega (arith, ap length e)

load_slot-chan :
    (src : Bytes) (i : ℕ) (o : Option (Option ℕ)) (m : Memory) → (load_slot src i o m).1 ≡ m
load_slot-chan src i (some (some p)) m = refl
load_slot-chan src i (some none) m = refl
load_slot-chan src i none m = refl

advance-IsBounded :
    (c : Choice) (t : Thread) (m : Memory) → IsBounded m → IsBounded (advance c t m).1
unfolding advance
advance-IsBounded proceed (sending src p) m h = send-IsBounded src p (waiting src p) m h
advance-IsBounded proceed (waiting src p) m h = send-IsBounded src p (waiting src p) m h
advance-IsBounded receive idle m h = receive_from-IsBounded m.chan m refl h
advance-IsBounded _ _ m h = ground arith

step_at-IsBounded :
    (k : ℕ) (c : Choice) (ts : List Thread) (m : Memory)
    → IsBounded m
    → IsBounded (step_at k c ts m).1
unfolding step_at
step_at-IsBounded zero c [] m h = h
step_at-IsBounded (suc k) c [] m h = h
step_at-IsBounded zero c (t ∷ ts) m h = advance-IsBounded c t m h
step_at-IsBounded (suc k) c (t ∷ ts) m h = step_at-IsBounded k c ts m h

run-IsBounded :
    (s : System) (es : List (ℕ × Choice)) → IsBounded s.memory → IsBounded (run s es).memory
unfolding run step
run-IsBounded s [] h = h
run-IsBounded s ((k, c) ∷ es) h =
    run-IsBounded (step s (k, c)) es (step_at-IsBounded k c s.threads s.memory h)

-- No interleaving puts more than 2048 buffers into the channel.
pub chan-run :
    (n : ℕ) (es : List (ℕ × Choice)) → length (run (start n) es).memory.chan ≤ max_log_chan_size
chan-run n es = run-IsBounded (start n) es (omega arith)
