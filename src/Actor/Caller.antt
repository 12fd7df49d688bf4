-- ===== src/Actor/Caller.antt =====
-- The functions of gen/actor.go that other goroutines call: `Start`, `Cast`, `AfterCast`, `TimeCall`,
-- `Call`, the ticker requests and `stop`. What a `select` or a blocked send waits for is an argument.
pub mod Calls
pub mod Stopping
pub mod Starting
pub mod RoundTrip
use Prim.Native.String.{String}
use Prim.Native.String.{◌++◌ as str_append}
use vlgo.Ecode.{Vei}
use vlgo.Waiters
use vlgo.Waiters.{World}
use vlgo.Shared.{
  ℕ, ◌+◌, Bool, true, false, List, [], ◌∷◌, ◌++◌, Option, none, some, ltb, if◌then◌else◌, length, ℤ,
  pos,
}
use vlgo.Actor.{
  Value, nil, ActorCaller, ActorCtx, ActorRet, Mail, actor_call, actor_cast, Handler, Actor, Turn,
  returns, panics, Event, call_stop,
}
use vlgo.Actor.Loop.{Outcome, loop}

-- A channel with the elements sent and not yet taken, its capacity, the number of goroutines that wait
-- to receive from it, and whether it is closed.
pub record Chan (A : Type 0) : Type 0 where
  pub items : List A
  pub size : ℕ
  pub receivers : ℕ
  pub closed : Bool

abbrev pub make_chan : {A : Type 0} → ℕ → Chan A
make_chan n = record { items = []; size = n; receivers = 0; closed = false }

abbrev pub has_room : {A : Type 0} → Chan A → Bool
has_room c = ltb (length c.items) (c.size + c.receivers)

-- `ch <- v`: into the buffer, a panic on a closed channel, or no progress.
pub data Send (A : Type 0) : Type 0 where
  accepted : Chan A → Send A
  send_panics send_blocks : Send A

unfoldable pub send : {A : Type 0} → Chan A → A → Send A
send c v =
    if c.closed
    then send_panics
    else if has_room c
    then accepted (record c { items = c.items ++ v ∷ [] })
    else send_blocks

-- How a send that recovers from the panic of a closed channel ends.
pub data SafeSend (A : Type 0) : Type 0 where
  delivered : Chan A → SafeSend A
  dropped waiting : SafeSend A

abbrev pub recovered_send : {A : Type 0} → Send A → SafeSend A
recovered_send (accepted c) = delivered c
recovered_send send_panics = dropped
recovered_send send_blocks = waiting

-- `safeSendChan`; a nil channel is `none`.
unfoldable pub safe_send_chan : {A : Type 0} → Option (Chan A) → A → SafeSend A
unfolding send
safe_send_chan none v = dropped
safe_send_chan (some c) v = recovered_send (send c v)

-- `safeSendTicker`, on the flag `IsStopped` and the interrupt channel.
unfoldable pub safe_send_ticker : Bool → Chan ℤ → ℤ → SafeSend ℤ
unfolding send
safe_send_ticker stop_flag c tm = if stop_flag then dropped else recovered_send (send c tm)

-- The capacity that `Start` gives to a mailbox.
abbrev pub mailbox_size : ℕ
mailbox_size = 1000

-- The codes that the build generates from proto/inner_code.proto.
pub record Codes : Type 0 where
  pub err_actor_call_timeout : Vei
  pub err_actor_handle_timeout : Vei
  pub err_actor_init_timeout : Vei

-- What the two `select`s of `TimeCall` receive: the timer before the send, the timer behind it, or
-- the reply.
pub data CallWait (Msg : Type 0) : Type 0 where
  times_out_sending times_out_handling : CallWait Msg
  gets_reply : ActorRet Msg → CallWait Msg

-- `TimeCall` returns a value and an error, panics on a closed mailbox, or is not yet done.
pub data CallEnd (Msg : Type 0) : Type 0 where
  call_returns : Value Msg → Vei → Chan (Mail Msg) → CallEnd Msg
  call_panics call_waits : CallEnd Msg

module _ {Msg : Type 0} (codes : Codes) where
  -- Behind the send.
  abbrev pub behind_send : CallWait Msg → Send (Mail Msg) → CallEnd Msg
  behind_send w send_panics = call_panics
  behind_send w send_blocks = call_waits
  behind_send times_out_sending (accepted c) = call_waits
  behind_send times_out_handling (accepted c) = call_returns nil codes.err_actor_handle_timeout c
  behind_send (gets_reply r) (accepted c) = call_returns r.ret_val r.v_err c

  unfoldable pub time_call : Chan (Mail Msg) → ActorCaller → Value Msg → CallWait Msg → CallEnd Msg
  unfolding send
  time_call c from msg times_out_sending = call_returns nil codes.err_actor_call_timeout c
  time_call c from msg times_out_handling =
      behind_send times_out_handling (send c (actor_call from msg))
  time_call c from msg (gets_reply r) = behind_send (gets_reply r) (send c (actor_call from msg))

-- `Cast`, and `AfterCast` once its timer has fired.
unfoldable pub cast : {Msg : Type 0} → Option (Chan (Mail Msg)) → Value Msg → SafeSend (Mail Msg)
unfolding safe_send_chan
cast c msg = safe_send_chan c (actor_cast msg)

-- The part of an actor that `stop` changes.
pub record Life (State Msg : Type 0) : Type 0 where
  pub actor : Actor State Msg
  pub mailbox : Chan (Mail Msg)
  pub interrupt_box : Chan ℤ
  pub is_stopped : Bool

module _ {State Msg : Type 0} (h : Handler State Msg) where
  -- Behind `s.H.Stop`; if that panics, the channels stay open. `is_nil` tells whether a state is nil,
  -- which has no type to log.
  abbrev pub closes :
      (State → Bool) → Life State Msg → Turn State Msg (Unit {0}) → Life State Msg × Bool
  closes is_nil l (panics a) = (record l { actor = a; is_stopped = true }, true)
  closes is_nil l (returns x a) = (
    record l {
      actor = a;
      mailbox = record l.mailbox { closed = true };
      interrupt_box = record l.interrupt_box { closed = true };
      is_stopped = true;
    },
    is_nil a.state,
  )

  -- `stop`; the flag is whether it panics.
  unfoldable pub stop : (State → Bool) → Life State Msg → Life State Msg × Bool
  stop is_nil l =
      if l.is_stopped then (l, is_nil l.actor.state) else closes is_nil l (call_stop h l.actor)

  -- What `Start` gives: its two results, the actor's channels and its flag, and how the actor's goroutine
  -- goes on over `es`.
  pub record Started : Type 0 where
    pub value : Value Msg
    pub error : Vei
    pub mailbox : Chan (Mail Msg)
    pub interrupt_box : Chan ℤ
    pub is_stopped : Bool
    pub outcome : Outcome State Msg

  -- The result of `Init` in time, or the timeout of `Start`. A panic of `Init` ends the process.
  abbrev pub start_results : Codes → Bool → Option (ActorRet Msg) → Value Msg × Vei
  start_results codes true (some r) = (r.ret_val, r.v_err)
  start_results codes _ _ = (nil, codes.err_actor_init_timeout)

  -- `Start` of an actor with the context `ctx`; the flag is whether `Init` ends in time.
  unfoldable pub start :
      Codes → ActorCtx → Value Msg → State → ℤ → Bool → List (Event Msg) → Waiters.M Started
  unfolding loop
  start codes ctx msg state default_out in_time es w =
      Waiters.◌>>=◌ (Waiters.new_waiter (str_append "gen_" ctx.name))
        (λ wt w'.
          let a : Actor State Msg = record {
            ctx = ctx;
            state = state;
            default_out = default_out;
            effects = [];
          } in
          let (v, e) = start_results codes in_time (h.init ctx msg state).ret in
          Waiters.ok
            (record {
              value = v;
              error = e;
              mailbox = make_chan mailbox_size;
              interrupt_box = make_chan 0;
              is_stopped = false;
              outcome = loop h in_time msg a es;
            })
            w')
        w
