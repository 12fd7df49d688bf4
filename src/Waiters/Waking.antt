-- ===== src/Waiters/Waking.antt =====
-- `Waiter.Wait` of gen/wg.go while functions start and end: the goroutine that it spawns is released by
-- the counter of the wait group.
use vlgo.Shared.{
  ℕ, ◌≡◌, refl, ap, ◌⊎◌, inl, inr, Bool, true, false, List, [], ◌∷◌, ◌++◌, some, arith, ◌==◌,
  if◌then◌else◌, Bool-cases,
}
use vlgo.Waiters.{World, ok, M, ◌>>=◌, pure}
use vlgo.Waiters.Counting.{
  Op, perform, perform_all, pending, Counts, perform-Succeeds, empty_world, perform_all-Succeeds,
  empty_world-Counts,
}
use vlgo.Waiters.Wait.{
  Helper, in_wait, in_send, ended, Waiting, IsSound, step-IsSound, released, received, timed_out,
  wait_start, wait_step,
}

-- A call of `Wait` on the wait group `p` beside the others: an operation of the program, a look of the
-- spawned goroutine at the counter, its send to the caller, or the caller's timer.
pub data WakeMove : Type 0 where
  operates : Op → WakeMove
  looks receives gives_up : WakeMove

unfoldable pub wake : ℕ → Waiting → WakeMove → M Waiting
unfolding perform wait_step
wake p s (operates o) w = (perform o >>= λ _. pure s) w
wake p s looks w = ok (if w.count p == 0 then wait_step s released else s) w
wake p s receives w = ok (wait_step s received) w
wake p s gives_up w = ok (wait_step s timed_out) w

unfoldable pub wake_all : ℕ → Waiting → List WakeMove → M Waiting
unfolding wake
wake_all p s [] = pure s
wake_all p s (m ∷ ms) = wake p s m >>= λ s'. wake_all p s' ms

-- What a move does where the counters are exact: it returns, and it releases the goroutine only where no
-- function runs on the wait group.
record Wakes (p : ℕ) (s : Waiting) (m : WakeMove) (w : World) : Type 0 where
  pub s' : Waiting
  pub w' : World
  pub returns : wake p s m w ≡ ok s' w'
  pub counts : Counts w'
  pub late : s.helper ≡ in_wait → (s'.helper ≡ in_wait) ⊎ (pending p w.running ≡ 0)
  pub sound : IsSound s → IsSound s'

-- The caller receives nothing before the goroutine sends.
received_late :
    (b : Bool) (h : Helper)
    → h ≡ in_wait
    → (wait_step (record { has_returned = b; helper = h }) received).helper ≡ in_wait
unfolding wait_step
received_late b in_wait e = refl
received_late true in_send e = absurd (cc)
received_late false in_send e = absurd (cc)
received_late b ended e = e

wake-Wakes : (p : ℕ) (s : Waiting) (m : WakeMove) (w : World) → Counts w → Wakes p s m w
unfolding wake wait_step
wake-Wakes p s (operates o) w c =
    let (a, w', e, c') = perform-Succeeds w c o in
    record {
      s' = s;
      w' = w';
      returns = rw (e, ◌>>=◌) refl;
      counts = c';
      late = λ h. inl h;
      sound = λ k. k;
    }
wake-Wakes p s looks w c = elim (Bool-cases (w.count p == 0)) [
  | inl free ↦ record {
    s' = wait_step s released;
    w' = w;
    returns = rw free refl;
    counts = c;
    late = λ h. inr (ground (arith, c.exact p));
    sound = λ k. step-IsSound s.has_returned s.helper released k;
  }
  | inr busy ↦ record {
    s' = s;
    w' = w;
    returns = rw busy refl;
    counts = c;
    late = λ h. inl h;
    sound = λ k. k;
  }
]
wake-Wakes p s receives w c = record {
  s' = wait_step s received;
  w' = w;
  returns = refl;
  counts = c;
  late = λ h. inl (received_late s.has_returned s.helper h);
  sound = λ k. step-IsSound s.has_returned s.helper received k;
}
wake-Wakes p s gives_up w c = record {
  s' = wait_step s timed_out;
  w' = w;
  returns = refl;
  counts = c;
  late = λ h. inl h;
  sound = λ k. step-IsSound s.has_returned s.helper timed_out k;
}

-- Some moves were made when no function ran on the wait group.
pub record Freed (p : ℕ) (s : Waiting) (ms : List WakeMove) (w : World) : Type 0 where
  pub before : List WakeMove
  pub behind : List WakeMove
  pub then_waiting : Waiting
  pub then_world : World
  pub splits : ms ≡ before ++ behind
  pub runs : wake_all p s before w ≡ ok then_waiting then_world
  pub free : pending p then_world.running ≡ 0

pub record WakesAll (p : ℕ) (s : Waiting) (ms : List WakeMove) (w : World) : Type 0 where
  pub s' : Waiting
  pub w' : World
  pub returns : wake_all p s ms w ≡ ok s' w'
  pub counts : Counts w'
  pub late : s.helper ≡ in_wait → (s'.helper ≡ in_wait) ⊎ Freed p s ms w
  pub sound : IsSound s → IsSound s'

pub wake_all-WakesAll :
    (p : ℕ) (s : Waiting) (ms : List WakeMove) (w : World) → Counts w → WakesAll p s ms w
unfolding wake_all
wake_all-WakesAll p s [] w c = record {
  s' = s;
  w' = w;
  returns = refl;
  counts = c;
  late = λ h. inl h;
  sound = λ k. k;
}
wake_all-WakesAll p s (m ∷ ms) w c =
    let k = wake-Wakes p s m w c in
    let r = wake_all-WakesAll p k.s' ms k.w' k.counts in
    record {
      s' = r.s';
      w' = r.w';
      returns = rw (k.returns, ◌>>=◌) r.returns;
      counts = r.counts;
      sound = λ x. r.sound (k.sound x);
      late = λ h. elim (k.late h) [
        | inr free ↦ inr (record {
          before = [];
          behind = m ∷ ms;
          then_waiting = s;
          then_world = w;
          splits = refl;
          runs = refl;
          free = free;
        })
        | inl still ↦ elim (r.late still) [
          | inl yet ↦ inl yet
          | inr f ↦ inr (record {
            before = m ∷ f.before;
            behind = f.behind;
            then_waiting = f.then_waiting;
            then_world = f.then_world;
            splits = ap (◌∷◌ m) f.splits;
            runs = rw (k.returns, ◌>>=◌) f.runs;
            free = f.free;
          })
        ]
      ];
    }

-- What a program, by the operations `os`, and then a call of `Wait` on the wait group `p` beside the moves
-- `ms` come to: the moves return, whatever their order, and the spawned goroutine has left its wait only if at
-- some point among the moves no function ran on the wait group.
pub wake_all-Freed :
    (os : List Op) (p : ℕ) (ms : List WakeMove)
    → (w0 : World) × (s : Waiting) × (w : World) × (perform_all os empty_world ≡ ok tt w0)
      × (wake_all p (wait_start (some p)) ms w0 ≡ ok s w)
      × ((s.helper ≡ in_wait) ⊎ Freed p (wait_start (some p)) ms w0)
unfolding wait_start
wake_all-Freed os p ms =
    let (a, w0, e, c) = perform_all-Succeeds os empty_world empty_world-Counts in
    let r = wake_all-WakesAll p (wait_start (some p)) ms w0 c in
    (w0, r.s', r.w', e, r.returns, r.late refl)
