-- ===== src/Actor/Serving/Bounded.antt =====
-- How much can wait in the channels of an actor.
use vlgo.Shared.{
  ℕ, zero, suc, ◌≤◌, ◌≡◌, refl, ap, subst, inl, inr, true, List, [], ◌∷◌, Option, none, some, arith,
  length, length-append, All, All-append, ◌==◌, Bool-cases, ℤ,
}
use vlgo.Actor.{
  Value, ActorRet, ActorCaller, Mail, actor_call, actor_cast, other, Handler, Actor, Next, Event,
  mail, do_loop,
}
use vlgo.Actor.Caller.{has_room, send, cast, Codes, safe_send_chan, mailbox_size}
use vlgo.Actor.Caller.Calls.{pushed, on_closed, on_full, on_room, send-SendEnds}
use vlgo.Actor.Serving.{
  Client, outside, sending, awaiting, returned, gave_up, casting, Channels, Act, calls, casts,
  proceeds, expires, send_call, send_cast, take_reply, put_box, act, act_at, Goroutine, ready,
  posting, ended, Serving, Move, acts, interrupts, receives, fires_ticker, fires_timer, delivers,
  behind_turn, turn, receive_mail, send_ret, deliver, move, run, opened,
}

module _ {Msg : Type 0} where
  -- What `TimeCall` and `Cast` send: a call with a channel for its reply, or a cast.
  abbrev pub IsRequest : Mail Msg → Type 0
  IsRequest (actor_call none v) = ⊥
  IsRequest (other v) = ⊥
  IsRequest m = Unit

  -- A mailbox of the size that `Start` gives it with no more mails than that, with only casts and calls in it, and
  -- one reply at most in each channel of a call.
  pub record IsBounded (s : Channels Msg) : Type 0 where
    pub size : s.mailbox.size ≡ mailbox_size
    pub receivers : s.mailbox.receivers ≡ 0
    pub mails : length s.mailbox.items ≤ mailbox_size
    pub callers : All IsRequest s.mailbox.items
    pub replies : (c : ℕ) → length (s.boxes c) ≤ 1

  -- One more mail, where there is room.
  pushed-IsBounded :
      (s : Channels Msg) (m : Mail Msg) (sent : List (Mail Msg))
      → has_room s.mailbox ≡ true
      → IsRequest m
      → IsBounded s
      → IsBounded (record s { mailbox = pushed s.mailbox m; sent = sent })
  pushed-IsBounded s m sent room called b = record {
    size = b.size;
    receivers = b.receivers;
    mails = ground (arith, b.size, b.receivers, length-append s.mailbox.items (m ∷ []));
    callers = All-append IsRequest s.mailbox.items (m ∷ []) b.callers (called, tt);
    replies = b.replies;
  }

  send_call-IsBounded :
      (s : Channels Msg) (c : ℕ) (v : Value Msg)
      → IsBounded s
      → IsBounded (send_call c v (send s.mailbox (actor_call (some c) v)) s).1
  send_call-IsBounded s c v b = elim (send-SendEnds s.mailbox (actor_call (some c) v)) [
    | on_closed closed e ↦ rw e b
    | on_full o full e ↦ rw e b
    | on_room o room e ↦ rw e (pushed-IsBounded s (actor_call (some c) v) _ room tt b)
  ]

  send_cast-IsBounded :
      (s : Channels Msg) (v : Value Msg)
      → IsBounded s
      → IsBounded (send_cast v (cast (some s.mailbox) v) s).1
  unfolding cast safe_send_chan
  send_cast-IsBounded s v b = elim (send-SendEnds s.mailbox (actor_cast v)) [
    | on_closed closed e ↦ rw e b
    | on_full o full e ↦ rw e b
    | on_room o room e ↦ rw e (pushed-IsBounded s (actor_cast v) _ room tt b)
  ]

  -- A channel of a call with other replies in it.
  put-IsBounded :
      (s : Channels Msg) (c : ℕ) (rs : List (ActorRet Msg)) (d : ℕ)
      → length rs ≤ 1
      → ((d : ℕ) → length (s.boxes d) ≤ 1)
      → length (put_box s.boxes c rs d) ≤ 1
  put-IsBounded s c rs d few b = elim (Bool-cases (c == d)) [
    | inl same ↦ rw same few
    | inr apart ↦ rw apart (b d)
  ]

  take_reply-IsBounded :
      (s : Channels Msg) (c : ℕ) (v : Value Msg) (rs : List (ActorRet Msg))
      → s.boxes c ≡ rs
      → IsBounded s
      → IsBounded (take_reply c v rs s).1
  take_reply-IsBounded s c v [] e b = b
  take_reply-IsBounded s c v (r ∷ rs) e b = record {
    size = b.size;
    receivers = b.receivers;
    mails = b.mails;
    callers = b.callers;
    replies = λ d. put-IsBounded s c rs d (omega (arith, b.replies c, ap length e)) b.replies;
  }

  next-IsBounded : (s : Channels Msg) → IsBounded s → IsBounded (record s { next = suc s.next })
  next-IsBounded s b = record {
    size = b.size;
    receivers = b.receivers;
    mails = b.mails;
    callers = b.callers;
    replies = b.replies;
  }

  act-IsBounded :
      (codes : Codes) (a : Act Msg) (t : Client Msg) (s : Channels Msg)
      → IsBounded s
      → IsBounded (act codes a t s).1
  unfolding act
  act-IsBounded codes (calls v) outside s b = next-IsBounded s b
  act-IsBounded codes (calls v) (returned c u r) s b = next-IsBounded s b
  act-IsBounded codes (calls v) (gave_up e) s b = next-IsBounded s b
  act-IsBounded codes (casts v) outside s b = b
  act-IsBounded codes (casts v) (returned c u r) s b = b
  act-IsBounded codes (casts v) (gave_up e) s b = b
  act-IsBounded codes proceeds (sending c v) s b = send_call-IsBounded s c v b
  act-IsBounded codes proceeds (awaiting c v) s b = take_reply-IsBounded s c v (s.boxes c) refl b
  act-IsBounded codes proceeds (casting v) s b = send_cast-IsBounded s v b
  act-IsBounded codes expires (sending c v) s b = b
  act-IsBounded codes expires (awaiting c v) s b = b
  act-IsBounded codes a t s b = b

  act_at-IsBounded :
      (codes : Codes) (k : ℕ) (a : Act Msg) (ts : List (Client Msg)) (s : Channels Msg)
      → IsBounded s
      → IsBounded (act_at codes k a ts s).1
  unfolding act_at
  act_at-IsBounded codes zero a [] s b = b
  act_at-IsBounded codes (suc k) a [] s b = b
  act_at-IsBounded codes zero a (t ∷ ts) s b = act-IsBounded codes a t s b
  act_at-IsBounded codes (suc k) a (t ∷ ts) s b = act_at-IsBounded codes k a ts s b

module _ {State Msg : Type 0} (h : Handler State Msg) where
  behind_turn-IsBounded :
      (e : Event Msg) (o : Option (Next × Actor State Msg)) (w : Serving State Msg)
      → IsBounded w.channels
      → IsBounded (behind_turn e o w).channels
  behind_turn-IsBounded e none w b = b
  behind_turn-IsBounded e (some (n, a)) w b = b

  turn-IsBounded :
      (e : Event Msg) (g : Goroutine Msg) (w : Serving State Msg)
      → IsBounded w.channels
      → IsBounded (turn h e g w).channels
  turn-IsBounded e (ready ticker out) w b =
      behind_turn-IsBounded e (do_loop h ticker out e w.actor) w b
  turn-IsBounded e (posting ps n) w b = b
  turn-IsBounded e ended w b = b

  receive_mail-IsBounded :
      (ms : List (Mail Msg)) (g : Goroutine Msg) (w : Serving State Msg)
      → w.channels.mailbox.items ≡ ms
      → IsBounded w.channels
      → IsBounded (receive_mail h ms g w).channels
  receive_mail-IsBounded [] g w e b = b
  receive_mail-IsBounded (m ∷ ms) (posting ps n) w e b = b
  receive_mail-IsBounded (m ∷ ms) ended w e b = b
  receive_mail-IsBounded (m ∷ ms) (ready ticker out) w e b =
      turn-IsBounded (mail m) (ready ticker out) _ (record {
        size = b.size;
        receivers = b.receivers;
        mails = omega (arith, b.mails, ap length e);
        callers = (subst (All IsRequest) e b.callers).1;
        replies = b.replies;
      })

  send_ret-IsBounded :
      (c : ℕ) (r : ActorRet Msg) (rs : List (ActorRet Msg)) (ps : List (ActorCaller × ActorRet Msg))
      (n : Next) (w : Serving State Msg)
      → IsBounded w.channels
      → IsBounded (send_ret c r rs ps n w).channels
  send_ret-IsBounded c r (q ∷ qs) ps n w b = b
  send_ret-IsBounded c r [] ps n w b = record {
    size = b.size;
    receivers = b.receivers;
    mails = b.mails;
    callers = b.callers;
    replies = λ d. put-IsBounded w.channels c (r ∷ []) d (omega arith) b.replies;
  }

  deliver-IsBounded :
      (g : Goroutine Msg) (w : Serving State Msg)
      → IsBounded w.channels
      → IsBounded (deliver g w).channels
  deliver-IsBounded (ready ticker out) w b = b
  deliver-IsBounded ended w b = b
  deliver-IsBounded (posting [] n) w b = b
  deliver-IsBounded (posting ((none, r) ∷ ps) n) w b = b
  deliver-IsBounded (posting ((some c, r) ∷ ps) n) w b =
      send_ret-IsBounded c r (w.channels.boxes c) ps n w b

  pub move-IsBounded :
      (codes : Codes) (w : Serving State Msg) (e : Move Msg)
      → IsBounded w.channels
      → IsBounded (move h codes w e).channels
  unfolding move
  move-IsBounded codes w (acts k a) b = act_at-IsBounded codes k a w.clients w.channels b
  move-IsBounded codes w (interrupts tm) b = turn-IsBounded (Event.interrupt tm) w.goroutine w b
  move-IsBounded codes w receives b =
      receive_mail-IsBounded w.channels.mailbox.items w.goroutine w refl b
  move-IsBounded codes w fires_ticker b = turn-IsBounded Event.ticks w.goroutine w b
  move-IsBounded codes w fires_timer b = turn-IsBounded Event.times_out w.goroutine w b
  move-IsBounded codes w delivers b = deliver-IsBounded w.goroutine w b

  moves-IsBounded :
      (codes : Codes) (w : Serving State Msg) (es : List (Move Msg))
      → IsBounded w.channels
      → IsBounded (run h codes w es).channels
  unfolding run
  moves-IsBounded codes w [] b = b
  moves-IsBounded codes w (e ∷ es) b =
      moves-IsBounded codes (move h codes w e) es (move-IsBounded codes w e b)

  pub opened-IsBounded :
      (ticker0 out0 : Option ℤ) (a : Actor State Msg) (k : ℕ)
      → IsBounded (opened ticker0 out0 a k).channels
  opened-IsBounded ticker0 out0 a k = record {
    size = refl;
    receivers = refl;
    mails = omega arith;
    callers = tt;
    replies = λ c. omega arith;
  }

  -- Under every interleaving of an actor with its callers, the mailbox keeps the size that `Start` gives it
  -- and holds no more mails than that, holds only casts and calls with channels, and no channel of a call ever
  -- holds more than one reply.
  pub run-IsBounded :
      (ticker0 out0 : Option ℤ) (a : Actor State Msg) (codes : Codes) (k : ℕ) (es : List (Move Msg))
      → IsBounded (run h codes (opened ticker0 out0 a k) es).channels
  run-IsBounded ticker0 out0 a codes k es =
      moves-IsBounded codes (opened ticker0 out0 a k) es (opened-IsBounded ticker0 out0 a k)
