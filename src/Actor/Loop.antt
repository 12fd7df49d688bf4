-- ===== src/Actor/Loop.antt =====
-- `loop` of gen/actor.go: the goroutine of an actor, over the events that its `select`s receive.
pub mod Turns
pub mod Exit
pub mod Replies
use vlgo.Shared.{Bool, true, false, List, [], ◌∷◌, Option, none, some, ℤ}
use vlgo.Actor.{
  Value, ActorRet, Handler, Actor, Turn, returns, panics, Next, Event, calls, handle_ret, do_loop,
}

-- How the goroutine stands behind some events: it waits in a `select`, it has left the loop with
-- events unread, a panic that nothing recovers has ended the process, or the send of the result of
-- `Init` blocks because `Start` has given up.
pub data Outcome (State Msg : Type 0) : Type 0 where
  waits : Option ℤ → Option ℤ → Actor State Msg → Outcome State Msg
  exits : Actor State Msg → List (Event Msg) → Outcome State Msg
  crashes blocks : Actor State Msg → Outcome State Msg

module _ {State Msg : Type 0} (h : Handler State Msg) where
  -- `for loop { loop, ticker, out = s.doLoop(ticker, out) }`. An event that the present `select` has
  -- no case for does not happen.
  unfoldable pub run_events :
      Option ℤ → Option ℤ → Actor State Msg → List (Event Msg) → Outcome State Msg
  run_events ticker out a [] = waits ticker out a
  run_events ticker out a (e ∷ es) = elim (do_loop h ticker out e a) [
    | none ↦ run_events ticker out a es
    | some (n, a') ↦ elim n.flag [ true ↦ run_events n.ticker n.timer a' es | false ↦ exits a' es ]
  ]

  -- `loop := !stopped`, behind the result of `Init`.
  abbrev pub enters : Turn State Msg Next → List (Event Msg) → Outcome State Msg
  enters (panics a) es = crashes a
  enters (returns n a) es = elim n.flag [
    | true ↦ exits a es
    | false ↦ run_events n.ticker n.timer a es
  ]

  -- `retChan <- initRet`; the flag is whether `Start` still receives.
  abbrev pub sends_init :
      Bool → Turn State Msg (ActorRet Msg) → List (Event Msg) → Outcome State Msg
  sends_init received (panics a) es = crashes a
  sends_init true (returns ret a) es = enters (handle_ret h none ret a) es
  sends_init false (returns ret a) es = blocks a

  unfoldable pub loop : Bool → Value Msg → Actor State Msg → List (Event Msg) → Outcome State Msg
  loop received msg a es = sends_init received (calls (h.init a.ctx msg) a) es
