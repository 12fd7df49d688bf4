-- ===== src/Actor/Serving/Timers.antt =====
-- `AfterCast` of gen/actor.go beside a running actor: a timer whose function casts in a goroutine of its own.
use vlgo.Shared.{ℕ, ◌+◌, ◌≤◌, ◌≡◌, refl, List, [], ◌∷◌, ◌++◌, some, arith, length, length-append}
use vlgo.Actor.{Value, Mail, actor_cast}
use vlgo.Actor.Caller.{SafeSend, delivered, dropped, waiting, cast, Codes, safe_send_chan}
use vlgo.Actor.Caller.Calls.{on_closed, on_full, on_room, send-SendEnds}
use vlgo.Actor.Serving.{Client, outside, casting, Channels, Act, casts, proceeds, act}

-- `ActorTimer`: its timer has not fired, its function is in the send of the cast, or all is done, the cast
-- sent, dropped or stopped.
pub data ActorTimer (Msg : Type 0) : Type 0 where
  armed in_cast : Value Msg → ActorTimer Msg
  finished : ActorTimer Msg

-- The timer fires, its function makes its next step, or the holder of the timer calls `Stop`.
pub data TimerEvent : Type 0 where
  fires goes_on stops : TimerEvent

module _ {Msg : Type 0} where
  unfoldable pub after_cast : Value Msg → ActorTimer Msg
  after_cast v = armed v

  abbrev pub sends_cast :
      Value Msg → SafeSend (Mail Msg) → Channels Msg → ActorTimer Msg × Channels Msg
  sends_cast v (delivered box) s =
      (finished, record s { mailbox = box; sent = s.sent ++ actor_cast v ∷ [] })
  sends_cast v dropped s = (finished, s)
  sends_cast v waiting s = (in_cast v, s)

  -- `Stop` leaves a timer that has fired alone.
  unfoldable pub timer_step :
      TimerEvent → ActorTimer Msg → Channels Msg → ActorTimer Msg × Channels Msg
  unfolding cast
  timer_step fires (armed v) s = (in_cast v, s)
  timer_step stops (armed v) s = (finished, s)
  timer_step goes_on (in_cast v) s = sends_cast v (cast (some s.mailbox) v) s
  timer_step e t s = (t, s)

  -- The goroutine of the timer's function, as one of the goroutines outside the actor.
  abbrev pub client_of : ActorTimer Msg → Client Msg
  client_of (armed v) = outside
  client_of (in_cast v) = casting v
  client_of finished = outside

  -- Some steps of a goroutine outside.
  abbrev pub acts_on :
      Codes → List (Act Msg) → Client Msg × Channels Msg → Client Msg × Channels Msg
  acts_on codes [] x = x
  acts_on codes (a ∷ rest) (t, s) = acts_on codes rest (act codes a t s)

  -- Each step of a timer is a step of a goroutine that casts, or none, so that what holds of the actor
  -- beside goroutines that call and cast holds beside timers too.
  pub timer_step-acts :
      (codes : Codes) (e : TimerEvent) (t : ActorTimer Msg) (s : Channels Msg)
      → let (t', s') = timer_step e t s in
        (steps : List (Act Msg)) × (acts_on codes steps (client_of t, s) ≡ (client_of t', s'))
  unfolding timer_step act cast safe_send_chan
  timer_step-acts codes fires (armed v) s = (casts v ∷ [], refl)
  timer_step-acts codes stops (armed v) s = ([], refl)
  timer_step-acts codes goes_on (in_cast v) s = elim (send-SendEnds s.mailbox (actor_cast v)) [
    | on_closed closed e ↦ (proceeds ∷ [], rw e refl)
    | on_full o full e ↦ (proceeds ∷ [], rw e refl)
    | on_room o room e ↦ (proceeds ∷ [], rw e refl)
  ]
  timer_step-acts codes fires (in_cast v) s = ([], refl)
  timer_step-acts codes stops (in_cast v) s = ([], refl)
  timer_step-acts codes goes_on (armed v) s = ([], refl)
  timer_step-acts codes fires finished s = ([], refl)
  timer_step-acts codes goes_on finished s = ([], refl)
  timer_step-acts codes stops finished s = ([], refl)

  -- What a timer may still send.
  abbrev pub owed : ActorTimer Msg → ℕ
  owed (armed v) = 1
  owed (in_cast v) = 1
  owed finished = 0

  -- A timer sends its cast once at most, and never once it has been stopped before it fired.
  pub timer_step-owed :
      (e : TimerEvent) (t : ActorTimer Msg) (s : Channels Msg)
      → let (t', s') = timer_step e t s in length s'.sent + owed t' ≤ length s.sent + owed t
  unfolding timer_step cast safe_send_chan
  timer_step-owed fires (armed v) s = omega arith
  timer_step-owed stops (armed v) s = omega arith
  timer_step-owed goes_on (in_cast v) s = elim (send-SendEnds s.mailbox (actor_cast v)) [
    | on_closed closed e ↦ rw e (omega arith)
    | on_full o full e ↦ rw e (omega arith)
    | on_room o room e ↦ rw e (omega (arith, length-append s.sent (actor_cast v ∷ [])))
  ]
  timer_step-owed fires (in_cast v) s = omega arith
  timer_step-owed stops (in_cast v) s = omega arith
  timer_step-owed goes_on (armed v) s = omega arith
  timer_step-owed fires finished s = omega arith
  timer_step-owed goes_on finished s = omega arith
  timer_step-owed stops finished s = omega arith
