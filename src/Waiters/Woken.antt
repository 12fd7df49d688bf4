-- ===== src/Waiters/Woken.antt =====
-- A call of `Waiter.Wait` of gen/wg.go returns when the functions of its wait group have ended.
use vlgo.Shared.{
  ℕ, ◌≡◌, refl, sym, ap, subst, ◌∙◌, inl, inr, Bool, true, false, List, [], ◌∷◌, ◌++◌, Option, none,
  some, arith, ltb, Bool-cases, length, replicate, negsuc,
}
use vlgo.Waiters.{
  Waiter, World, Result, ok, panic, fatal, ◌>>=◌, finish, finish_found, remove_at, done_one,
  with_wg, wg_add,
}
use vlgo.Waiters.Counting.{
  Op, ends, perform, perform_all, pending, Counts, perform-Succeeds, empty_world,
  perform_all-Succeeds, empty_world-Counts,
}
use vlgo.Waiters.Wait.{
  Helper, in_wait, in_send, ended, Waiting, IsSound, start-IsSound, released, received, wait_start,
  wait_step,
}
use vlgo.Waiters.Waking.{WakeMove, operates, looks, receives, wake, wake_all, wake_all-WakesAll}

-- The end of the first function that runs.
abbrev running_of : {A : Type 0} → Result A → List Waiter
running_of (ok a w) = w.running
running_of panic = []
running_of fatal = []

finish_found-running :
    (o : Option ℕ) (rest : List Waiter) (w : World) (a : Unit {0}) (w' : World)
    → with_wg o (λ p. wg_add p (negsuc 0)) (record w { running = rest }) ≡ ok a w'
    → w'.running ≡ rest
unfolding wg_add
finish_found-running none rest w a w' e = sym (ap running_of e)
finish_found-running (some p) rest w a w' e = elim (Bool-cases (ltb (w.count p) 1)) [
  | inl low ↦ let e' : panic ≡ ok a w' = rw low at e in absurd (cc)
  | inr high ↦ sym (ap running_of (rw high at e))
]

finish-running :
    (w : World) (v : Waiter) (rest : List Waiter) (a : Unit {0}) (w' : World)
    → w.running ≡ v ∷ rest
    → finish 0 w ≡ ok a w'
    → w'.running ≡ rest
unfolding finish done_one
finish-running w v rest a w' r e =
    finish_found-running v.wg rest w a w'
      (subst (λ vs. finish_found (remove_at 0 vs) w ≡ ok a w') r e)

abbrev pub all_end : World → List WakeMove
all_end w = replicate (length w.running) (operates (ends 0))

-- When all functions have ended, the caller is woken by two more moves.
module _ (p : ℕ) where
  two_moves :
      (b : Bool) (g : Helper)
      → IsSound (record { has_returned = b; helper = g })
      → (wait_step
          (wait_step (record { has_returned = b; helper = g }) released)
          received).has_returned
        ≡ true
  unfolding wait_step
  two_moves true in_wait k = refl
  two_moves false in_wait k = refl
  two_moves true in_send k = refl
  two_moves false in_send k = refl
  two_moves true ended k = refl
  two_moves false ended (inl x) = x
  two_moves false ended (inr n) = absurd (n refl)

  woken :
      (s : Waiting) (w : World)
      → IsSound s
      → w.count p ≡ 0
      → (s' : Waiting) × (w' : World) × (wake_all p s (looks ∷ receives ∷ []) w ≡ ok s' w')
        × (s'.has_returned ≡ true)
  unfolding wake_all wake
  woken s w k free = (
    wait_step (wait_step s released) received,
    w,
    ground arith,
    two_moves s.has_returned s.helper k,
  )

  drained :
      (vs : List Waiter) (s : Waiting) (w : World)
      → w.running ≡ vs
      → IsSound s
      → Counts w
      → (s' : Waiting) × (w' : World) × (wake_all p s
            (replicate (length vs) (operates (ends 0)) ++ looks ∷ receives ∷ [])
            w
          ≡ ok s' w')
        × (s'.has_returned ≡ true)
  unfolding wake_all wake perform
  drained [] s w r k c = woken s w k (c.exact p ∙ ap (pending p) r)
  drained (v ∷ vs) s w r k c =
      let (a, w1, e, c1) = perform-Succeeds w c (ends 0) in
      let (s', w', runs, back) = drained vs s w1 (finish-running w v vs a w1 r e) k c1 in
      (s', w', rw (e, ◌>>=◌) runs, back)

-- After any such program and moves, once the functions that still run have ended, one by one, the spawned
-- goroutine's look at the counter and its send make the call of `Wait` return, if it has not returned before.
pub wake_all-returns :
    (os : List Op) (p : ℕ) (ms : List WakeMove)
    → (w0 : World) × (s : Waiting) × (w : World) × (s' : Waiting) × (w' : World) × (perform_all os
          empty_world
        ≡ ok tt w0)
      × (wake_all p (wait_start (some p)) ms w0 ≡ ok s w)
      × (wake_all p s (all_end w ++ looks ∷ receives ∷ []) w ≡ ok s' w')
      × (s'.has_returned ≡ true)
wake_all-returns os p ms =
    let (a, w0, e, c) = perform_all-Succeeds os empty_world empty_world-Counts in
    let r = wake_all-WakesAll p (wait_start (some p)) ms w0 c in
    let (s', w', runs, back) =
      drained p r.w'.running r.s' r.w' refl (r.sound (start-IsSound (some p))) r.counts in
    (w0, r.s', r.w', s', w', e, r.returns, runs, back)
