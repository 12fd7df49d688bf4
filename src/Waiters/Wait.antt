-- ===== src/Waiters/Wait.antt =====
-- `Waiter.Wait` of gen/wg.go: the caller, and the goroutine that it spawns to wait for the wait group.
-- What happens between them is a list of events, in any order.
use Prim.Native.String.{String}
use vlgo.Waiters.{Waiter, World, M, ok, ◌>>=◌, pure, lookup, fetch_waiter}
use vlgo.Shared.{
  Option-cases, if◌then◌else◌, ℕ, ◌≡◌, ◌≢◌, refl, ◌⊎◌, inl, inr, Bool, true, false, List, [], ◌∷◌,
  ◌++◌, Option, none, some,
}

-- The spawned goroutine: in `wg.Wait()`, in the send on `waitChan`, or at its end.
pub data Helper : Type 0 where
  in_wait in_send ended : Helper

pub record Waiting : Type 0 where
  pub has_returned : Bool
  pub helper : Helper

-- The wait group is released, the caller receives from `waitChan`, or its timer fires. An event that
-- cannot happen changes nothing.
pub data WaitEvent : Type 0 where
  released received timed_out : WaitEvent

-- On a waiter without a wait group `Wait` returns at once, and spawns nothing.
unfoldable pub wait_start : Option ℕ → Waiting
wait_start none = record { has_returned = true; helper = ended }
wait_start (some p) = record { has_returned = false; helper = in_wait }

abbrev after_receive : Waiting → Helper → Bool → Waiting
after_receive s in_send false = record { has_returned = true; helper = ended }
after_receive s in_send true = s
after_receive s in_wait b = s
after_receive s ended b = s

abbrev after_release : Helper → Helper
after_release in_wait = in_send
after_release in_send = in_send
after_release ended = ended

-- `waitChan` has no buffer, so the send and the receive are one event.
unfoldable pub wait_step : Waiting → WaitEvent → Waiting
wait_step s released = record s { helper = after_release s.helper }
wait_step s received = after_receive s s.helper s.has_returned
wait_step s timed_out = record s { has_returned = true }

unfoldable pub wait_run : Waiting → List WaitEvent → Waiting
wait_run s [] = s
wait_run s (e ∷ es) = wait_run (wait_step s e) es

-- The caller has given up, and the spawned goroutine will never end.
abbrev pub IsStuck : Waiting → Type 0
IsStuck s = (s.has_returned ≡ true) × (s.helper ≢ ended)

-- How a call of `Wait` stands.
pub data WaitEnds (s : Waiting) : Type 0 where
  waiting : s.has_returned ≡ false → s.helper ≢ ended → WaitEnds s
  woken : s.has_returned ≡ true → s.helper ≡ ended → WaitEnds s
  stuck : IsStuck s → ((es : List WaitEvent) → IsStuck (wait_run s es)) → WaitEnds s

abbrev state : Bool → Helper → Waiting
state b h = record { has_returned = b; helper = h }

-- Behind the caller's return no event wakes the goroutine.
step-IsStuck :
    (b : Bool) (h : Helper) (e : WaitEvent)
    → IsStuck (state b h)
    → IsStuck (wait_step (state b h) e)
unfolding wait_step
step-IsStuck false h e k = absurd (cc)
step-IsStuck true ended e k = absurd (k.1 refl)
step-IsStuck true in_wait released k = (refl, λ x. cc)
step-IsStuck true in_wait received k = k
step-IsStuck true in_wait timed_out k = k
step-IsStuck true in_send released k = k
step-IsStuck true in_send received k = k
step-IsStuck true in_send timed_out k = k

run-IsStuck : (s : Waiting) (es : List WaitEvent) → IsStuck s → IsStuck (wait_run s es)
unfolding wait_run wait_step
run-IsStuck s [] h = h
run-IsStuck s (e ∷ es) h = run-IsStuck (wait_step s e) es (step-IsStuck s.has_returned s.helper e h)

stuck_now : (s : Waiting) → IsStuck s → WaitEnds s
stuck_now s k = stuck k (λ es. run-IsStuck s es k)

-- The caller waits while the goroutine has not ended; otherwise it has returned.
abbrev pub IsSound : Waiting → Type 0
IsSound s = (s.has_returned ≡ true) ⊎ (s.helper ≢ ended)

pub step-IsSound :
    (b : Bool) (h : Helper) (e : WaitEvent)
    → IsSound (state b h)
    → IsSound (wait_step (state b h) e)
unfolding wait_step
step-IsSound b h timed_out k = inl refl
step-IsSound true h released k = inl refl
step-IsSound false in_wait released k = inr (λ x. cc)
step-IsSound false in_send released k = inr (λ x. cc)
step-IsSound false ended released (inl x) = absurd (cc)
step-IsSound false ended released (inr n) = absurd (n refl)
step-IsSound b in_wait received k = inr (λ x. cc)
step-IsSound true in_send received k = inl refl
step-IsSound false in_send received k = inl refl
step-IsSound b ended received k = k

run-IsSound : (s : Waiting) (es : List WaitEvent) → IsSound s → IsSound (wait_run s es)
unfolding wait_run wait_step
run-IsSound s [] k = k
run-IsSound s (e ∷ es) k = run-IsSound (wait_step s e) es (step-IsSound s.has_returned s.helper e k)

ends_by : (b : Bool) (h : Helper) → IsSound (state b h) → WaitEnds (state b h)
ends_by true ended k = woken refl refl
ends_by true in_wait k = stuck_now _ (refl, λ x. cc)
ends_by true in_send k = stuck_now _ (refl, λ x. cc)
ends_by false in_wait k = waiting refl (λ x. cc)
ends_by false in_send k = waiting refl (λ x. cc)
ends_by false ended (inl x) = absurd (cc)
ends_by false ended (inr n) = absurd (n refl)

pub start-IsSound : (wg : Option ℕ) → IsSound (wait_start wg)
unfolding wait_start
start-IsSound none = inl refl
start-IsSound (some p) = inr (λ x. cc)

stays :
    (s : Waiting) (es : List WaitEvent)
    → s.has_returned ≡ true
    → (wait_run s es).has_returned ≡ true
unfolding wait_run wait_step
stays s [] e = e
stays s (x ∷ es) e = stays (wait_step s x) es (keeps s.has_returned s.helper x e)
  where
    keeps :
        (b : Bool) (h : Helper) (x : WaitEvent)
        → b ≡ true
        → (wait_step (state b h) x).has_returned ≡ true
    keeps b h released e = e
    keeps b h timed_out e = refl
    keeps b in_wait received e = e
    keeps b ended received e = e
    keeps true in_send received e = refl
    keeps false in_send received e = refl

times_out :
    (s : Waiting) (es fs : List WaitEvent) → (wait_run s (es ++ timed_out ∷ fs)).has_returned ≡ true
unfolding wait_run wait_step
times_out s [] fs = stays (wait_step s timed_out) fs refl
times_out s (e ∷ es) fs = times_out (wait_step s e) es fs

-- After any events the caller still waits; or it has been woken, or had nothing to wait for, and its
-- goroutine has ended; or it has given up, and then its goroutine never ends, whatever comes, since
-- nobody receives from `waitChan`. Where the timer fires among the events, the caller has returned.
pub wait_lem :
    (wg : Option ℕ) (es fs : List WaitEvent)
    → WaitEnds (wait_run (wait_start wg) es)
      × ((wait_run (wait_start wg) (es ++ timed_out ∷ fs)).has_returned ≡ true)
wait_lem wg es fs =
    let s = wait_run (wait_start wg) es in
    (
      ends_by s.has_returned s.helper (run-IsSound (wait_start wg) es (start-IsSound wg)),
      times_out (wait_start wg) es fs,
    )

-- The package's function `Wait`: a key without a waiter is passed over.
unfoldable wait_key : String → M Waiting
unfolding fetch_waiter wait_start
wait_key k = fetch_waiter k >>= λ r. pure (wait_start (if r.1 then r.0.wg else none))

-- A call of `Wait` on a key has no effect on the registry or the counters. On a free key it returns at once,
-- and otherwise it stands as the method does on the waiter of the key.
wait_key_lem :
    (k : String) (w : World)
    → ((lookup k w.table ≡ none) × (wait_key k w ≡ ok (wait_start none) w))
      ⊎ ((v : Waiter) × (lookup k w.table ≡ some v)
          × (wait_key k w ≡ ok (wait_start v.wg) w)
          × ((es : List WaitEvent) → WaitEnds (wait_run (wait_start v.wg) es)))
unfolding wait_key fetch_waiter
wait_key_lem k w = elim (Option-cases (lookup k w.table)) [
  | inl free ↦ inl (free, rw free refl)
  | inr (v, found) ↦ inr (v, found, rw found refl, λ es. (wait_lem v.wg es []).0)
]
