-- ===== src/Actor/Serving/Acts.antt =====
-- A step of a goroutine outside the actor: what it does to the mailbox and to the channels of the replies.
use mathlib.Core.List.{Memᴰ}
use mathlib.Core.List.Memᴰ
use vlgo.Shared.{
  ℕ, ◌+◌, ◌≤◌, ◌≡◌, refl, sym, ap, subst, ◌∙◌, inl, inr, List, [], ◌∷◌, ◌++◌, append-nil,
  append_assoc, some, ◌==◌, Bool-cases, arith,
}
use vlgo.Actor.{Value, ActorRet, Mail, actor_call, actor_cast}
use vlgo.Actor.Caller.{send, cast, Codes, safe_send_chan}
use vlgo.Actor.Caller.Calls.{pushed, on_closed, on_full, on_room, send-SendEnds}
use vlgo.Actor.Serving.{
  Client, outside, crashed, sending, awaiting, returned, gave_up, casting, Channels, Act, calls,
  casts, proceeds, expires, time_call_entry, send_call, send_cast, take_reply, act,
}
use vlgo.Actor.Serving.Counting.{calls_to, calls_to-append, sending_at, Counts}

module _ {Msg : Type 0} where
  -- What holds of a goroutine outside: its call has been accepted, and its result is a reply to its own channel.
  abbrev pub Honest : (ℕ → List (ActorRet Msg)) → List (Mail Msg) → Client Msg → Type 0
  Honest replied sent (awaiting c v) = Memᴰ (actor_call (some c) v) sent
  Honest replied sent (returned c v r) = Memᴰ (actor_call (some c) v) sent × Memᴰ r (replied c)
  Honest replied sent t = Unit

  -- A step of goroutines outside, which are about to send `n c` calls by the channel `c` before it and `n' c`
  -- behind it, and for which `P` holds before it and `P'` behind it.
  pub record Steps (s : Channels Msg) (n n' : ℕ → ℕ)
      (P P' : (ℕ → List (ActorRet Msg)) → List (Mail Msg) → Type 0) (s' : Channels Msg)
      : Type 0 where
    pub more : List (Mail Msg)
    pub items : s'.mailbox.items ≡ s.mailbox.items ++ more
    pub sent : s'.sent ≡ s.sent ++ more
    pub closed : s'.mailbox.closed ≡ s.mailbox.closed
    pub taken : (c : ℕ) → s'.taken c ++ s'.boxes c ≡ s.taken c ++ s.boxes c
    pub counts :
        Counts s.next (λ c. calls_to c s.sent + n c) s'.next (λ c. calls_to c s'.sent + n' c)
    pub honest :
        (replied : ℕ → List (ActorRet Msg))
        → ((c : ℕ) (r : ActorRet Msg) → Memᴰ r (s.boxes c) → Memᴰ r (replied c))
        → P replied s.sent
        → P' replied s'.sent

  abbrev pub Acts : Channels Msg → Client Msg → Client Msg → Channels Msg → Type 0
  Acts s t t' s' =
      Steps s (λ c. sending_at c t) (λ c. sending_at c t') (λ replied sent. Honest replied sent t)
        (λ replied sent. Honest replied sent t') s'

  module _ (s : Channels Msg) where
    -- A step that leaves all channels alone.
    alone-Acts :
        (t t' : Client Msg)
        → ((c : ℕ) → sending_at c t' ≤ sending_at c t)
        → ((replied : ℕ → List (ActorRet Msg)) → Honest replied s.sent t → Honest replied s.sent t')
        → Acts s t t' s
    alone-Acts t t' less honest = record {
      more = [];
      items = sym (append-nil s.mailbox.items);
      sent = sym (append-nil s.sent);
      closed = refl;
      taken = λ c. refl;
      counts = inl (refl, λ c. omega (arith, less c));
      honest = λ replied boxes. honest replied;
    }

    -- A send that the mailbox accepts.
    accepted-Acts :
        (t t' : Client Msg) (m : Mail Msg)
        → ((c : ℕ) → calls_to c (m ∷ []) + sending_at c t' ≤ sending_at c t)
        → ((replied : ℕ → List (ActorRet Msg)) → Honest replied (s.sent ++ m ∷ []) t')
        → Acts s t t' (record s { mailbox = pushed s.mailbox m; sent = s.sent ++ m ∷ [] })
    accepted-Acts t t' m less honest = record {
      more = m ∷ [];
      items = refl;
      sent = refl;
      closed = refl;
      taken = λ c. refl;
      counts = inl (refl, λ c. omega (arith, less c, calls_to-append c s.sent (m ∷ [])));
      honest = λ replied boxes before. honest replied;
    }

    -- The entry of `TimeCall`.
    entry-Acts :
        (t : Client Msg) (v : Value Msg) → Acts s t (time_call_entry v s).0 (time_call_entry v s).1
    entry-Acts t v = record {
      more = [];
      items = sym (append-nil s.mailbox.items);
      sent = sym (append-nil s.sent);
      closed = refl;
      taken = λ c. refl;
      counts = inr (refl, λ c. omega arith);
      honest = λ replied boxes before. tt;
    }

    send_call-Acts :
        (c : ℕ) (v : Value Msg)
        → let (t', s') = send_call c v (send s.mailbox (actor_call (some c) v)) s in
          Acts s (sending c v) t' s'
    send_call-Acts c v = elim (send-SendEnds s.mailbox (actor_call (some c) v)) [
      | on_closed closed e ↦
          rw e (alone-Acts (sending c v) crashed (λ d. omega arith) (λ replied before. tt))
      | on_full o full e ↦
          rw e (alone-Acts (sending c v) (sending c v) (λ d. omega arith) (λ replied before. tt))
      | on_room o room e ↦ rw e (
          accepted-Acts (sending c v) (awaiting c v) (actor_call (some c) v) (λ d. omega arith)
            (λ replied. Memᴰ.append_right s.sent (Memᴰ.head refl)))
    ]

    send_cast-Acts :
        (v : Value Msg)
        → let (t', s') = send_cast v (cast (some s.mailbox) v) s in Acts s (casting v) t' s'
    unfolding cast safe_send_chan
    send_cast-Acts v = elim (send-SendEnds s.mailbox (actor_cast v)) [
      | on_closed closed e ↦
          rw e (alone-Acts (casting v) outside (λ d. omega arith) (λ replied before. tt))
      | on_full o full e ↦
          rw e (alone-Acts (casting v) (casting v) (λ d. omega arith) (λ replied before. tt))
      | on_room o room e ↦
          rw e (accepted-Acts (casting v) outside (actor_cast v) (λ d. omega arith) (λ replied. tt))
    ]

    -- The receive of a reply.
    take_reply-Acts :
        (c : ℕ) (v : Value Msg) (rs : List (ActorRet Msg))
        → s.boxes c ≡ rs
        → Acts s (awaiting c v) (take_reply c v rs s).0 (take_reply c v rs s).1
    take_reply-Acts c v [] e =
        alone-Acts (awaiting c v) (awaiting c v) (λ d. omega arith) (λ replied before. before)
    take_reply-Acts c v (r ∷ rs) e = record {
      more = [];
      items = sym (append-nil s.mailbox.items);
      sent = sym (append-nil s.sent);
      closed = refl;
      taken = λ d. elim (Bool-cases (c == d)) [
        | inl same ↦
            let here : c ≡ d = ground arith in
            rw same (
              ap (λ x. (s.taken x ++ r ∷ []) ++ rs) here
              ∙ append_assoc (s.taken d) (r ∷ []) rs
              ∙ ap (λ x. s.taken d ++ x) (sym (ap s.boxes (sym here) ∙ e)))
        | inr apart ↦ rw apart refl
      ];
      counts = inl (refl, λ c. omega arith);
      honest =
          λ replied boxes before. (before, boxes c r (subst (Memᴰ r) (sym e) (Memᴰ.head refl)));
    }

    pub act-Acts :
        (codes : Codes) (a : Act Msg) (t : Client Msg)
        → Acts s t (act codes a t s).0 (act codes a t s).1
    unfolding act
    act-Acts codes (calls v) outside = entry-Acts outside v
    act-Acts codes (calls v) (returned c u r) = entry-Acts (returned c u r) v
    act-Acts codes (calls v) (gave_up e) = entry-Acts (gave_up e) v
    act-Acts codes (casts v) outside =
        alone-Acts outside (casting v) (λ d. omega arith) (λ replied before. tt)
    act-Acts codes (casts v) (returned c u r) =
        alone-Acts (returned c u r) (casting v) (λ d. omega arith) (λ replied before. tt)
    act-Acts codes (casts v) (gave_up e) =
        alone-Acts (gave_up e) (casting v) (λ d. omega arith) (λ replied before. tt)
    act-Acts codes proceeds (sending c v) = send_call-Acts c v
    act-Acts codes proceeds (awaiting c v) = take_reply-Acts c v (s.boxes c) refl
    act-Acts codes proceeds (casting v) = send_cast-Acts v
    act-Acts codes expires (sending c v) =
        alone-Acts (sending c v) (gave_up codes.err_actor_call_timeout) (λ d. omega arith)
          (λ replied before. tt)
    act-Acts codes expires (awaiting c v) =
        alone-Acts (awaiting c v) (gave_up codes.err_actor_handle_timeout) (λ d. omega arith)
          (λ replied before. tt)
    act-Acts codes a t = alone-Acts t t (λ d. omega arith) (λ replied before. before)
