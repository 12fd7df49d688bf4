-- ===== src/Actor.antt =====
-- gen/actor.go: an actor handles its mail, its ticks and its timeouts one at a time. This file has its
-- data and one turn of its goroutine. Logging is left out, but not the evaluation of its arguments,
-- which can panic.
pub mod Loop
pub mod Caller
pub mod Serving
use Prim.Native.String.{String}
use vlgo.Ecode.{Vei, nil_vei}
use vlgo.Shared.{
  ℕ, Bool, true, false, List, [], ◌∷◌, ◌++◌, Option, none, some, if◌then◌else◌, ℤ, pos, is_zero,
  is_positive,
}

-- A value of type `interface{}`, by what the actor's code can tell of it: nil, a nil pointer, the
-- value `CallNoRep`, or any other value.
pub data Value (Msg : Type 0) : Type 0 where
  nil nil_pointer no_reply : Value Msg
  plain : Msg → Value Msg

-- `typeName` panics where there is no value behind the interface.
unfoldable pub has_type_name : {Msg : Type 0} → Value Msg → Bool
has_type_name nil = false
has_type_name nil_pointer = false
has_type_name no_reply = false
has_type_name (plain m) = true

-- `_, ok := v.(*callNoReply)`.
unfoldable pub is_no_reply : {Msg : Type 0} → Value Msg → Bool
is_no_reply no_reply = true
is_no_reply nil = false
is_no_reply nil_pointer = false
is_no_reply (plain m) = false

pub record ActorRet (Msg : Type 0) : Type 0 where
  pub ret_val : Value Msg
  pub v_err : Vei
  pub time : ℤ
  pub is_stopped : Bool

-- `ActorCaller`: the channel that a reply goes to; a cast has none.
abbrev pub ActorCaller : Type 0
ActorCaller = Option ℕ

pub record ActorCtx : Type 0 where
  pub name : String
  pub caller : ActorCaller

-- `ctx.caller = from` for a call.
abbrev pub with_caller : ActorCtx → ActorCaller → ActorCtx
with_caller ctx from = record ctx { caller = from }

-- What stands in the mailbox: a call, a cast, or anything else that was sent there.
pub data Mail (Msg : Type 0) : Type 0 where
  actor_call : ActorCaller → Value Msg → Mail Msg
  actor_cast : Value Msg → Mail Msg
  other : Value Msg → Mail Msg

module _ {Msg : Type 0} where
  unfoldable pub new_gen_ret : Value Msg → Vei → ActorRet Msg
  new_gen_ret v e = record { ret_val = v; v_err = e; time = pos 0; is_stopped = false }

  unfoldable pub new_time_ret : Value Msg → Vei → ℤ → ActorRet Msg
  new_time_ret v e t = record { ret_val = v; v_err = e; time = t; is_stopped = false }

  unfoldable pub new_stop_ret : Value Msg → Vei → ActorRet Msg
  new_stop_ret v e = record { ret_val = v; v_err = e; time = pos 0; is_stopped = true }

-- What the actor's goroutine does to the outside.
pub data Effect (Msg : Type 0) : Type 0 where
  replies : ActorCaller → ActorRet Msg → Effect Msg
  stops_ticker : ℤ → Effect Msg
  handles : Value Msg → Effect Msg
  stops : Effect Msg

-- A handler's method changes the state, and may send replies itself; it returns or panics.
pub record Handled (State Msg : Type 0) : Type 0 where
  pub state : State
  pub sends : List (Effect Msg)
  pub ret : Option (ActorRet Msg)

-- `ActorHandlerI`, which the users of the package implement.
pub record Handler (State Msg : Type 0) : Type 0 where
  pub init : ActorCtx → Value Msg → State → Handled State Msg
  pub handle : ActorCtx → Value Msg → State → Handled State Msg
  pub tick : ActorCtx → State → Handled State Msg
  pub timeout : ActorCtx → State → Handled State Msg
  pub stop : ActorCtx → State → State × Bool

-- The fields of `Actor` that its goroutine uses; a handler is a parameter. `effects` is a history.
pub record Actor (State Msg : Type 0) : Type 0 where
  pub ctx : ActorCtx
  pub state : State
  pub default_out : ℤ
  pub effects : List (Effect Msg)

-- A part of a turn returns, or panics.
pub data Turn (State Msg A : Type 0) : Type 0 where
  returns : A → Actor State Msg → Turn State Msg A
  panics : Actor State Msg → Turn State Msg A

-- The results of the loop's functions: the flag, the ticker and the timer, by their durations.
pub record Next : Type 0 where
  pub flag : Bool
  pub ticker : Option ℤ
  pub timer : Option ℤ

-- What a `select` may receive. A closed mailbox yields nil, and a closed interrupt channel 0.
pub data Event (Msg : Type 0) : Type 0 where
  interrupt : ℤ → Event Msg
  ticks times_out : Event Msg
  mail : Mail Msg → Event Msg

-- A part of a turn, over the actor.
abbrev pub M : Type 0 → Type 0 → Type 0 → Type 0
M State Msg A = Actor State Msg → Turn State Msg A

module _ {State Msg : Type 0} where
  infixl 5 ◌>>=◌ ◌>>◌
  abbrev pub ◌>>=◌ : {A B : Type 0} → M State Msg A → (A → M State Msg B) → M State Msg B
  ◌>>=◌ m f a = elim (m a) [ returns x a' ↦ f x a' | panics a' ↦ panics a' ]

  abbrev pub ◌>>◌ : {B : Type 0} → M State Msg (Unit {0}) → M State Msg B → M State Msg B
  m >> k = m >>= λ _. k

  abbrev pub pure : {A : Type 0} → A → M State Msg A
  pure x a = returns x a

  abbrev pub emit : Effect Msg → M State Msg (Unit {0})
  emit e a = returns tt (record a { effects = a.effects ++ e ∷ [] })

  -- A panic where the condition fails.
  abbrev pub needs : Bool → M State Msg (Unit {0})
  needs true a = returns tt a
  needs false a = panics a

  abbrev returned : Option (ActorRet Msg) → M State Msg (ActorRet Msg)
  returned (some r) a = returns r a
  returned none a = panics a

  -- A call of a handler's method.
  abbrev pub calls : (State → Handled State Msg) → M State Msg (ActorRet Msg)
  calls f a =
      let h = f a.state in
      returned h.ret (record a { state = h.state; effects = a.effects ++ h.sends })

  abbrev pub out_timer : ℤ → M State Msg (Option ℤ)
  out_timer d a =
      returns
        (if is_zero d then if is_zero a.default_out then none else some a.default_out else some d) a

  -- `if ticker != nil { ticker.Stop() }`.
  abbrev pub stop_ticker : Option ℤ → M State Msg (Unit {0})
  stop_ticker none = pure tt
  stop_ticker (some d) = emit (stops_ticker d)

  -- The deferred function of `doLoop`: a panic is recovered, and leaves the named results as they were set at its head.
  abbrev recovers : Turn State Msg Next → Next × Actor State Msg
  recovers (returns n a) = (n, a)
  recovers (panics a) = (record { flag = true; ticker = none; timer = none }, a)

module _ {State Msg : Type 0} (h : Handler State Msg) where
  -- `s.H.Stop(s.Ctx, reason, s.State)`; the flag is whether it panics.
  abbrev pub call_stop : M State Msg (Unit {0})
  call_stop a =
      let (s, crashed) = h.stop a.ctx a.state in
      let a' : Actor State Msg = record a { state = s; effects = a.effects ++ stops ∷ [] } in
      if crashed then panics a' else returns tt a'

  -- The branch of a handler's result that stops the actor, and the other one.
  abbrev ends_with : Option ℤ → M State Msg Next
  ends_with ticker = do
    stop_ticker ticker
    call_stop
    pure (record { flag = true; ticker = none; timer = none })

  abbrev goes_with : Option ℤ → ℤ → M State Msg Next
  goes_with ticker d = do
    t ← out_timer d
    pure (record { flag = false; ticker = ticker; timer = t })

  unfoldable pub handle_ret : Option ℤ → ActorRet Msg → M State Msg Next
  handle_ret ticker ret = if ret.is_stopped then ends_with ticker else goes_with ticker ret.time

  unfoldable pub handle_interrupt : Option ℤ → ℤ → M State Msg Next
  handle_interrupt ticker tm = do
    stop_ticker ticker
    goes_with (if is_positive tm then some tm else none) (pos 0)

  abbrev pub reply : ActorCaller → ActorRet Msg → M State Msg (Unit {0})
  reply from ret = if is_no_reply ret.ret_val then pure tt else emit (replies from ret)

  -- `ctx` is the actor's, with the caller of a call.
  abbrev handle_call : ActorCaller → Value Msg → ActorCtx → M State Msg (ActorRet Msg)
  handle_call from v ctx = do
    needs (has_type_name v)
    emit (handles v)
    ret ← calls (h.handle (with_caller ctx from) v)
    reply from ret
    pure ret

  abbrev handle_cast : Value Msg → ActorCtx → M State Msg (ActorRet Msg)
  handle_cast v ctx = do needs (has_type_name v); emit (handles v); calls (h.handle ctx v)

  abbrev handle_other : Value Msg → M State Msg (ActorRet Msg)
  handle_other v = do needs (has_type_name v); pure (new_gen_ret nil nil_vei)

  unfoldable pub handle_mail : Mail Msg → M State Msg (ActorRet Msg)
  unfolding has_type_name is_no_reply new_gen_ret
  handle_mail (actor_call from v) a = handle_call from v a.ctx a
  handle_mail (actor_cast v) a = handle_cast v a.ctx a
  handle_mail (other v) a = handle_other v a

  -- `loopWithTickOut`, `loopWithTick`, `loopWithOut` and `simpleLoop`: which function runs is which of
  -- the ticker and the timer there are. `none` is an event that its `select` has no case for.
  unfoldable pub select : Option ℤ → Option ℤ → Event Msg → Option (M State Msg Next)
  select ticker out (interrupt tm) = some (handle_interrupt ticker tm)
  select ticker out (mail m) = some (handle_mail m >>= handle_ret ticker)
  select (some d) out ticks = some (λ a. (calls (h.tick a.ctx) >>= handle_ret (some d)) a)
  select none out ticks = none
  select ticker (some d) times_out = some (λ a. (calls (h.timeout a.ctx) >>= handle_ret ticker) a)
  select ticker none times_out = none

  -- `doLoop`.
  unfoldable pub do_loop :
      Option ℤ → Option ℤ → Event Msg → Actor State Msg → Option (Next × Actor State Msg)
  unfolding select
  do_loop ticker out e a = elim (select ticker out e) [
    | none ↦ none
    | some m ↦ some (recovers (m a))
  ]
