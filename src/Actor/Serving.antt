-- ===== src/Actor/Serving.antt =====
-- A running actor with the goroutines that call it, over the mailbox and the channels of the replies:
-- `TimeCall`, `Cast`, `SendReply` and the turns of `loop` in gen/actor.go, one channel operation a step.
-- No function of the program closes the mailbox.
pub mod Answers
pub mod Handling
pub mod Counting
pub mod Acts
pub mod Clients
pub mod Following
pub mod Invariant
pub mod Moves
pub mod Taken
pub mod Taking
pub mod Reachable
pub mod Quiet
pub mod Exactly
pub mod Served
pub mod Ended
pub mod Flags
pub mod Single
pub mod Bounded
pub mod Timers
pub mod Posts
pub mod Draining
pub mod Keeping
pub mod Working
pub mod Emptying
pub mod Replying
pub mod Answered
use vlgo.Ecode.{Vei}
use vlgo.Shared.{
  ℕ, zero, suc, ◌≡◌, Bool, true, false, List, [], ◌∷◌, ◌++◌, Option, none, some, ◌==◌,
  if◌then◌else◌, length, drop, replicate, ℤ,
}
use vlgo.Actor.{
  Value, nil, ActorRet, ActorCaller, Mail, actor_call, actor_cast, Effect, replies, stops_ticker,
  handles, stops, Handler, Actor, Next, Event, interrupt, ticks, times_out, mail, do_loop,
}
use vlgo.Actor.Caller.{
  Chan, make_chan, Send, accepted, send_panics, send_blocks, send, SafeSend, delivered, dropped,
  waiting, cast, Codes, mailbox_size,
}

-- A goroutine outside the actor: in neither call, in one of the two `select`s of `TimeCall` with its channel
-- and its message, behind it with the results, in `Cast`, or ended by a panic.
pub data Client (Msg : Type 0) : Type 0 where
  outside crashed : Client Msg
  sending awaiting : ℕ → Value Msg → Client Msg
  returned : ℕ → Value Msg → ActorRet Msg → Client Msg
  gave_up : Vei → Client Msg
  casting : Value Msg → Client Msg

-- What is shared: the mailbox, the channels of the replies, each with one place, and the number of the next one.
-- `sent` and `taken` are histories: the mails that the mailbox has accepted, and the replies received from each
-- channel.
pub record Channels (Msg : Type 0) : Type 0 where
  pub mailbox : Chan (Mail Msg)
  pub boxes : ℕ → List (ActorRet Msg)
  pub next : ℕ
  pub sent : List (Mail Msg)
  pub taken : ℕ → List (ActorRet Msg)

-- What a goroutine outside does next: a call of `TimeCall` or `Cast`, its next channel operation, or the case
-- of the timer.
pub data Act (Msg : Type 0) : Type 0 where
  calls casts : Value Msg → Act Msg
  proceeds expires : Act Msg

module _ {Msg : Type 0} where
  -- The entry of `TimeCall`: a new channel.
  abbrev pub time_call_entry : Value Msg → Channels Msg → Client Msg × Channels Msg
  time_call_entry v s = (sending s.next v, record s { next = suc s.next })

  abbrev pub put_box : (ℕ → List (ActorRet Msg)) → ℕ → List (ActorRet Msg) → ℕ → List (ActorRet Msg)
  put_box boxes c rs d = if c == d then rs else boxes d

  -- `s.Mailbox <- callMsg`.
  abbrev pub send_call : ℕ → Value Msg → Send (Mail Msg) → Channels Msg → Client Msg × Channels Msg
  send_call c v (accepted box) s =
      (awaiting c v, record s { mailbox = box; sent = s.sent ++ actor_call (some c) v ∷ [] })
  send_call c v send_panics s = (crashed, s)
  send_call c v send_blocks s = (sending c v, s)

  -- `safeSendChan(s.Mailbox, &ActorCast{msg})`.
  abbrev pub send_cast : Value Msg → SafeSend (Mail Msg) → Channels Msg → Client Msg × Channels Msg
  send_cast v (delivered box) s =
      (outside, record s { mailbox = box; sent = s.sent ++ actor_cast v ∷ [] })
  send_cast v dropped s = (outside, s)
  send_cast v waiting s = (casting v, s)

  -- `ret := <-from`.
  abbrev pub take_reply :
      ℕ → Value Msg → List (ActorRet Msg) → Channels Msg → Client Msg × Channels Msg
  take_reply c v [] s = (awaiting c v, s)
  take_reply c v (r ∷ rs) s = (
    returned c v r,
    record s { boxes = put_box s.boxes c rs; taken = put_box s.taken c (s.taken c ++ r ∷ []) },
  )

  unfoldable pub act : Codes → Act Msg → Client Msg → Channels Msg → Client Msg × Channels Msg
  unfolding send cast
  act codes (calls v) outside s = time_call_entry v s
  act codes (calls v) (returned c u r) s = time_call_entry v s
  act codes (calls v) (gave_up e) s = time_call_entry v s
  act codes (casts v) outside s = (casting v, s)
  act codes (casts v) (returned c u r) s = (casting v, s)
  act codes (casts v) (gave_up e) s = (casting v, s)
  act codes proceeds (sending c v) s = send_call c v (send s.mailbox (actor_call (some c) v)) s
  act codes proceeds (awaiting c v) s = take_reply c v (s.boxes c) s
  act codes proceeds (casting v) s = send_cast v (cast (some s.mailbox) v) s
  act codes expires (sending c v) s = (gave_up codes.err_actor_call_timeout, s)
  act codes expires (awaiting c v) s = (gave_up codes.err_actor_handle_timeout, s)
  act codes a t s = (t, s)

  unfoldable pub act_at :
      Codes → ℕ → Act Msg → List (Client Msg) → Channels Msg → List (Client Msg) × Channels Msg
  act_at codes k a [] s = ([], s)
  act_at codes zero a (t ∷ ts) s = let (t', s') = act codes a t s in (t' ∷ ts, s')
  act_at codes (suc k) a (t ∷ ts) s = let (ts', s') = act_at codes k a ts s in (t ∷ ts', s')

-- Where the actor's goroutine stands: in a `select`, before the sends of the replies of a turn, or at its end.
pub data Goroutine (Msg : Type 0) : Type 0 where
  ready : Option ℤ → Option ℤ → Goroutine Msg
  posting : List (ActorCaller × ActorRet Msg) → Next → Goroutine Msg
  ended : Goroutine Msg

-- The replies among the effects of a turn.
abbrev pub posts_of : {Msg : Type 0} → List (Effect Msg) → List (ActorCaller × ActorRet Msg)
posts_of [] = []
posts_of (replies c r ∷ es) = (c, r) ∷ posts_of es
posts_of (stops_ticker d ∷ es) = posts_of es
posts_of (handles v ∷ es) = posts_of es
posts_of (stops ∷ es) = posts_of es

-- `for loop`.
abbrev pub after_turn : {Msg : Type 0} → Next → Goroutine Msg
after_turn n = if n.flag then ready n.ticker n.timer else ended

-- The actor, the goroutines outside, and what they share; `seen` is the history of the events received.
pub record Serving (State Msg : Type 0) : Type 0 where
  pub goroutine : Goroutine Msg
  pub actor : Actor State Msg
  pub clients : List (Client Msg)
  pub channels : Channels Msg
  pub seen : List (Event Msg)

pub data Move (Msg : Type 0) : Type 0 where
  acts : ℕ → Act Msg → Move Msg
  interrupts : ℤ → Move Msg
  receives fires_ticker fires_timer delivers : Move Msg

module _ {State Msg : Type 0} where
  -- Behind a turn the replies are sent, in order.
  abbrev pub behind_turn :
      Event Msg → Option (Next × Actor State Msg) → Serving State Msg → Serving State Msg
  behind_turn e none w = w
  behind_turn e (some (n, a)) w = record w {
    goroutine = posting (posts_of (drop (length w.actor.effects) a.effects)) n;
    actor = a;
    seen = w.seen ++ e ∷ [];
  }

  -- The next turn, for an event.
  abbrev pub turn :
      Handler State Msg → Event Msg → Goroutine Msg → Serving State Msg → Serving State Msg
  turn h e (ready ticker out) w = behind_turn e (do_loop h ticker out e w.actor) w
  turn h e (posting ps n) w = w
  turn h e ended w = w

  -- `msg := <-s.Mailbox`.
  abbrev pub receive_mail :
      Handler State Msg → List (Mail Msg) → Goroutine Msg → Serving State Msg → Serving State Msg
  receive_mail h [] g w = w
  receive_mail h (m ∷ ms) (ready ticker out) w = turn h (mail m) (ready ticker out) (record w {
    channels = record w.channels { mailbox = record w.channels.mailbox { items = ms } };
  })
  receive_mail h (m ∷ ms) (posting ps n) w = w
  receive_mail h (m ∷ ms) ended w = w

  -- `ch <- data` of `safeSendRet`: a nil channel blocks for good, a full one until it is read.
  abbrev pub send_ret :
      ℕ
      → ActorRet Msg
      → List (ActorRet Msg)
      → List (ActorCaller × ActorRet Msg)
      → Next
      → Serving State Msg
      → Serving State Msg
  send_ret c r [] ps n w = record w {
    goroutine = posting ps n;
    channels = record w.channels { boxes = put_box w.channels.boxes c (r ∷ []) };
  }
  send_ret c r (q ∷ qs) ps n w = w

  abbrev pub deliver : Goroutine Msg → Serving State Msg → Serving State Msg
  deliver (ready ticker out) w = w
  deliver ended w = w
  deliver (posting [] n) w = record w { goroutine = after_turn n }
  deliver (posting ((none, r) ∷ ps) n) w = w
  deliver (posting ((some c, r) ∷ ps) n) w = send_ret c r (w.channels.boxes c) ps n w

  abbrev pub with_clients : Serving State Msg → List (Client Msg) × Channels Msg → Serving State Msg
  with_clients w (ts, s) = record w { clients = ts; channels = s }

  unfoldable pub move : Handler State Msg → Codes → Serving State Msg → Move Msg → Serving State Msg
  unfolding act_at
  move h codes w (acts k a) = with_clients w (act_at codes k a w.clients w.channels)
  move h codes w (interrupts tm) = turn h (interrupt tm) w.goroutine w
  move h codes w receives = receive_mail h w.channels.mailbox.items w.goroutine w
  move h codes w fires_ticker = turn h ticks w.goroutine w
  move h codes w fires_timer = turn h times_out w.goroutine w
  move h codes w delivers = deliver w.goroutine w

  unfoldable pub run :
      Handler State Msg → Codes → Serving State Msg → List (Move Msg) → Serving State Msg
  run h codes w [] = w
  run h codes w (e ∷ es) = run h codes (move h codes w e) es

  -- Behind the result of `Init`, with `n` goroutines outside.
  abbrev pub opened : Option ℤ → Option ℤ → Actor State Msg → ℕ → Serving State Msg
  opened ticker out a n = record {
    goroutine = ready ticker out;
    actor = record a { effects = [] };
    clients = replicate n outside;
    channels = record {
      mailbox = make_chan mailbox_size;
      boxes = λ _. [];
      next = 0;
      sent = [];
      taken = λ _. [];
    };
    seen = [];
  }
