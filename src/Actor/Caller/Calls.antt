-- ===== src/Actor/Caller/Calls.antt =====
-- The sends of gen/actor.go: `TimeCall`, `Cast` and the ticker requests, by the state of the channel.
use vlgo.Shared.{true, false, [], ◌∷◌, ◌++◌, none, some, ℤ, ◌≡◌, refl, ap, inl, inr, Bool-cases}
use vlgo.Actor.{Value, nil, ActorCaller, ActorRet, Mail, actor_call, actor_cast}
use vlgo.Actor.Caller.{
  Chan, has_room, accepted, send_panics, send_blocks, send, SafeSend, delivered, dropped, waiting,
  safe_send_chan, safe_send_ticker, Codes, times_out_sending, times_out_handling, gets_reply,
  call_returns, call_panics, call_waits, time_call, cast, behind_send, recovered_send,
}

-- The channel with one more element at its end.
abbrev pub pushed : {A : Type 0} → Chan A → A → Chan A
pushed c v = record c { items = c.items ++ v ∷ [] }

module _ {A : Type 0} (c : Chan A) (v : A) where
  pub send_closed : c.closed ≡ true → send c v ≡ send_panics
  unfolding send
  send_closed e = rw e

  pub send_full : c.closed ≡ false → has_room c ≡ false → send c v ≡ send_blocks
  unfolding send
  send_full e full = rw (e, full)

  pub send_room : c.closed ≡ false → has_room c ≡ true → send c v ≡ accepted (pushed c v)
  unfolding send
  send_room e room = rw (e, room)

  -- The three ends of a send, by the channel.
  pub data SendEnds : Type 0 where
    on_closed : c.closed ≡ true → send c v ≡ send_panics → SendEnds
    on_full : c.closed ≡ false → has_room c ≡ false → send c v ≡ send_blocks → SendEnds
    on_room : c.closed ≡ false → has_room c ≡ true → send c v ≡ accepted (pushed c v) → SendEnds

  pub send-SendEnds : SendEnds
  send-SendEnds = elim (Bool-cases c.closed) [
    | inl closed ↦ on_closed closed (send_closed closed)
    | inr o ↦ elim (Bool-cases (has_room c)) [
      | inl room ↦ on_room o room (send_room o room)
      | inr full ↦ on_full o full (send_full o full)
    ]
  ]

-- `TimeCall`, by the mailbox and by what ends its waiting.
module _ {Msg : Type 0} (codes : Codes) (c : Chan (Mail Msg)) (from : ActorCaller)
    (msg : Value Msg) where
  pub data TimeCalls (ret : ActorRet Msg) : Type 0 where
    calls_closed :
        c.closed ≡ true
        → time_call codes c from msg (gets_reply ret) ≡ call_panics
        → time_call codes c from msg times_out_handling ≡ call_panics
        → TimeCalls ret
    calls_full :
        c.closed ≡ false
        → has_room c ≡ false
        → time_call codes c from msg (gets_reply ret) ≡ call_waits
        → time_call codes c from msg times_out_handling ≡ call_waits
        → TimeCalls ret
    calls_room :
        c.closed ≡ false
        → has_room c ≡ true
        → (time_call codes c from msg (gets_reply ret)
            ≡ call_returns ret.ret_val ret.v_err (pushed c (actor_call from msg)))
        → (time_call codes c from msg times_out_handling
            ≡ call_returns nil codes.err_actor_handle_timeout (pushed c (actor_call from msg)))
        → TimeCalls ret

  -- Where the timer fires before the send, `TimeCall` returns nil and the call timeout, and the mailbox is
  -- as it was. Otherwise, on an open mailbox with room, the call is at the end of the mailbox, and
  -- `TimeCall` returns the value and the error of the reply, or nil and the handling timeout, with the
  -- call still in the mailbox. On a full mailbox nothing but the first timeout ends it, and on a
  -- closed one the send panics.
  pub time_call_lem :
      (ret : ActorRet Msg)
      → (time_call codes c from msg times_out_sending
          ≡ call_returns nil codes.err_actor_call_timeout c)
        × TimeCalls ret
  unfolding time_call
  time_call_lem ret =
      let m = actor_call from msg in
      (
        refl,
        elim (send-SendEnds c m) [
          | on_closed closed e ↦
              calls_closed closed (ap (behind_send codes (gets_reply ret)) e)
                (ap (behind_send codes times_out_handling) e)
          | on_full o full e ↦
              calls_full o full (ap (behind_send codes (gets_reply ret)) e)
                (ap (behind_send codes times_out_handling) e)
          | on_room o room e ↦
              calls_room o room (ap (behind_send codes (gets_reply ret)) e)
                (ap (behind_send codes times_out_handling) e)
        ],
      )

-- How a send ends that never panics.
pub data SafeEnds {A : Type 0} (c : Chan A) (v : A) (r : SafeSend A) : Type 0 where
  safe_closed : c.closed ≡ true → r ≡ dropped → SafeEnds c v r
  safe_full : c.closed ≡ false → has_room c ≡ false → r ≡ waiting → SafeEnds c v r
  safe_room : c.closed ≡ false → has_room c ≡ true → r ≡ delivered (pushed c v) → SafeEnds c v r

recovered_send-SafeEnds :
    {A : Type 0} → (c : Chan A) (v : A) → SafeEnds c v (recovered_send (send c v))
recovered_send-SafeEnds c v = elim (send-SendEnds c v) [
  | on_closed closed e ↦ safe_closed closed (ap recovered_send e)
  | on_full o full e ↦ safe_full o full (ap recovered_send e)
  | on_room o room e ↦ safe_room o room (ap recovered_send e)
]

-- A cast to an actor that is not started, or whose mailbox is closed, is dropped without a panic; on
-- a full mailbox it waits; otherwise the message is at the end of the mailbox. A ticker request is
-- dropped if the actor is stopped or its interrupt channel closed, and waits until the actor receives.
pub safe_send_lem :
    {Msg : Type 0}
    → (c : Chan (Mail Msg)) (msg : Value Msg) (interrupts : Chan ℤ) (tm : ℤ)
    → (cast {Msg = Msg} none msg ≡ dropped)
      × SafeEnds c (actor_cast msg) (cast (some c) msg)
      × (safe_send_ticker true interrupts tm ≡ dropped)
      × SafeEnds interrupts tm (safe_send_ticker false interrupts tm)
unfolding cast safe_send_chan safe_send_ticker
safe_send_lem c msg interrupts tm =
    (refl, recovered_send-SafeEnds c (actor_cast msg), refl, recovered_send-SafeEnds interrupts tm)
