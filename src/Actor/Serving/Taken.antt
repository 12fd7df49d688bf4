-- ===== src/Actor/Serving/Taken.antt =====
-- What the goroutines outside receive: each channel belongs to one call, which receives one reply at most and
-- returns it.
use vlgo.Shared.{
  ℕ, suc, ◌≤◌, ◌<◌, ◌≡◌, refl, sym, ap, subst, ◌∙◌, inl, inr, List, [], ◌∷◌, ◌++◌, some, true, ◌==◌,
  if◌then◌else◌, Bool-cases, arith,
}
use vlgo.Actor.{Value, ActorRet, actor_call, actor_cast}
use vlgo.Actor.Caller.{send, cast, Codes, safe_send_chan}
use vlgo.Actor.Caller.Calls.{on_closed, on_full, on_room, send-SendEnds}
use vlgo.Actor.Serving.{
  Client, outside, crashed, sending, awaiting, returned, gave_up, casting, Channels, Act, calls,
  casts, proceeds, expires, send_call, send_cast, take_reply, put_box, act,
}

module _ {Msg : Type 0} where
  -- A goroutine has the channel.
  abbrev pub held : ℕ → Client Msg → ℕ
  held d (sending c v) = if c == d then 1 else 0
  held d (awaiting c v) = if c == d then 1 else 0
  held d (returned c v r) = if c == d then 1 else 0
  held d t = 0

  -- A call that waits has received nothing, and one that has returned a reply has received that one.
  abbrev pub Fits : (ℕ → List (ActorRet Msg)) → Client Msg → Type 0
  Fits taken (sending c v) = taken c ≡ []
  Fits taken (awaiting c v) = taken c ≡ []
  Fits taken (returned c v r) = taken c ≡ r ∷ []
  Fits taken t = Unit

  -- A step of goroutines that have the channels by `n` before it and by `n'` behind it.
  pub record Takes (n n' : ℕ → ℕ) (s s' : Channels Msg) : Type 0 where
    pub grows : s.next ≤ s'.next
    pub old : (d : ℕ) → d < s.next → n' d ≤ n d
    pub new : (d : ℕ) → n' d ≤ suc (n d)
    pub far : (d : ℕ) → s'.next ≤ d → n' d ≤ n d
    pub others : (d : ℕ) → n d ≡ 0 → s'.taken d ≡ s.taken d

  abbrev pub TakesOne : Channels Msg → Client Msg → Client Msg → Channels Msg → Type 0
  TakesOne s t t' s' =
      Takes (λ d. held d t) (λ d. held d t') s s'
      × (((d : ℕ) → s.next ≤ d → s.taken d ≡ []) → Fits s.taken t → Fits s'.taken t')

  -- A step that leaves the channels of the replies alone.
  alone-TakesOne :
      (s s' : Channels Msg) (t t' : Client Msg)
      → s'.next ≡ s.next
      → s'.taken ≡ s.taken
      → ((d : ℕ) → held d t' ≤ held d t)
      → (Fits s.taken t → Fits s.taken t')
      → TakesOne s t t' s'
  alone-TakesOne s s' t t' next same less fits = (
    record {
      grows = omega (arith, next);
      old = λ d l. less d;
      new = λ d. omega (arith, less d);
      far = λ d l. less d;
      others = λ d none_held. ap (λ f. f d) same;
    },
    λ fresh before. subst (λ f. Fits f t') (sym same) (fits before),
  )

  entry-TakesOne :
      (s : Channels Msg) (t : Client Msg) (v : Value Msg)
      → TakesOne s t (sending s.next v) (record s { next = suc s.next })
  entry-TakesOne s t v = (
    record {
      grows = omega arith;
      old = λ d l. ground (arith, l);
      new = λ d. ground arith;
      far = λ d l. ground (arith, l);
      others = λ d none_held. refl;
    },
    λ fresh before. fresh s.next (omega arith),
  )

  send_call-TakesOne :
      (s : Channels Msg) (c : ℕ) (v : Value Msg)
      → let (t', s') = send_call c v (send s.mailbox (actor_call (some c) v)) s in
        TakesOne s (sending c v) t' s'
  send_call-TakesOne s c v = elim (send-SendEnds s.mailbox (actor_call (some c) v)) [
    | on_closed closed e ↦
        rw e (alone-TakesOne s s (sending c v) crashed refl refl (λ d. ground arith) (λ before. tt))
    | on_full o full e ↦ rw e (
        alone-TakesOne s s (sending c v) (sending c v) refl refl (λ d. omega arith)
          (λ before. before))
    | on_room o room e ↦ rw e (
        alone-TakesOne s _ (sending c v) (awaiting c v) refl refl (λ d. omega arith)
          (λ before. before))
  ]

  send_cast-TakesOne :
      (s : Channels Msg) (v : Value Msg)
      → let (t', s') = send_cast v (cast (some s.mailbox) v) s in TakesOne s (casting v) t' s'
  unfolding cast safe_send_chan
  send_cast-TakesOne s v = elim (send-SendEnds s.mailbox (actor_cast v)) [
    | on_closed closed e ↦
        rw e (alone-TakesOne s s (casting v) outside refl refl (λ d. omega arith) (λ before. tt))
    | on_full o full e ↦
        rw e
          (alone-TakesOne s s (casting v) (casting v) refl refl (λ d. omega arith) (λ before. tt))
    | on_room o room e ↦
        rw e (alone-TakesOne s _ (casting v) outside refl refl (λ d. omega arith) (λ before. tt))
  ]

  put_box-here :
      (f : ℕ → List (ActorRet Msg)) (c : ℕ) (rs : List (ActorRet Msg)) → put_box f c rs c ≡ rs
  put_box-here f c rs = let same : (c == c) ≡ true = ground arith in rw same refl

  take_reply-TakesOne :
      (s : Channels Msg) (c : ℕ) (v : Value Msg) (rs : List (ActorRet Msg))
      → TakesOne s (awaiting c v) (take_reply c v rs s).0 (take_reply c v rs s).1
  take_reply-TakesOne s c v [] =
      alone-TakesOne s s (awaiting c v) (awaiting c v) refl refl (λ d. omega arith)
        (λ before. before)
  take_reply-TakesOne s c v (r ∷ rs) = (
    record {
      grows = omega arith;
      old = λ d l. omega arith;
      new = λ d. omega arith;
      far = λ d l. omega arith;
      others = λ d none_held. elim (Bool-cases (c == d)) [
        | inl same ↦ absurd (ground (arith, same, none_held))
        | inr apart ↦ rw apart refl
      ];
    },
    λ fresh before. put_box-here s.taken c (s.taken c ++ r ∷ []) ∙ ap (λ x. x ++ r ∷ []) before,
  )

  pub act-TakesOne :
      (codes : Codes) (a : Act Msg) (t : Client Msg) (s : Channels Msg)
      → TakesOne s t (act codes a t s).0 (act codes a t s).1
  unfolding act
  act-TakesOne codes (calls v) outside s = entry-TakesOne s outside v
  act-TakesOne codes (calls v) (returned c u r) s = entry-TakesOne s (returned c u r) v
  act-TakesOne codes (calls v) (gave_up e) s = entry-TakesOne s (gave_up e) v
  act-TakesOne codes (casts v) outside s =
      alone-TakesOne s s outside (casting v) refl refl (λ d. omega arith) (λ before. tt)
  act-TakesOne codes (casts v) (returned c u r) s =
      alone-TakesOne s s (returned c u r) (casting v) refl refl (λ d. ground arith) (λ before. tt)
  act-TakesOne codes (casts v) (gave_up e) s =
      alone-TakesOne s s (gave_up e) (casting v) refl refl (λ d. omega arith) (λ before. tt)
  act-TakesOne codes proceeds (sending c v) s = send_call-TakesOne s c v
  act-TakesOne codes proceeds (awaiting c v) s = take_reply-TakesOne s c v (s.boxes c)
  act-TakesOne codes proceeds (casting v) s = send_cast-TakesOne s v
  act-TakesOne codes expires (sending c v) s =
      alone-TakesOne s s (sending c v) (gave_up codes.err_actor_call_timeout) refl refl
        (λ d. ground arith) (λ before. tt)
  act-TakesOne codes expires (awaiting c v) s =
      alone-TakesOne s s (awaiting c v) (gave_up codes.err_actor_handle_timeout) refl refl
        (λ d. ground arith) (λ before. tt)
  act-TakesOne codes a t s = alone-TakesOne s s t t refl refl (λ d. omega arith) (λ before. before)
