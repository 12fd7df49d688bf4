-- ===== src/Actor/Serving/Flags.antt =====
-- The turns of an actor whose handler neither asks for a stop nor panics, by whether they leave the loop.
use vlgo.Shared.{
  ℕ, suc, ◌+◌, ◌≡◌, refl, sym, ap, ◌∙◌, Bool, true, false, not, List, [], ◌∷◌, ◌++◌, Option, none,
  some, if◌then◌else◌, arith, ℤ,
}
use vlgo.Actor.{
  Value, ActorRet, ActorCaller, ActorCtx, Mail, actor_call, actor_cast, other, Handled, Handler,
  Actor, Turn, returns, Next, Event, interrupt, ticks, times_out, mail, has_type_name, nil,
  nil_pointer, no_reply, plain, handles, with_caller, handle_mail, new_gen_ret, do_loop, calls,
}
use vlgo.Actor.Loop.Turns.{settled_turn, do_loop_lem, do_loop_interrupt}
use vlgo.Actor.Loop.Replies.{CallEnds, unnamed, crashed, silent, replied, handle_mail-CallEnds}

-- A method of the handler returns, and does not ask for a stop.
abbrev pub GoesOn : {State Msg : Type 0} → Handled State Msg → Type 0
GoesOn {State} {Msg} d = (r : ActorRet Msg) × (d.ret ≡ some r) × (r.is_stopped ≡ false)

pub record NeverStops {State Msg : Type 0} (h : Handler State Msg) : Type 0 where
  pub handle : (ctx : ActorCtx) (v : Value Msg) (s : State) → GoesOn (h.handle ctx v s)
  pub tick : (ctx : ActorCtx) (s : State) → GoesOn (h.tick ctx s)
  pub timeout : (ctx : ActorCtx) (s : State) → GoesOn (h.timeout ctx s)

module _ {Msg : Type 0} where
  abbrev pub value_of : Mail Msg → Value Msg
  value_of (actor_call from v) = v
  value_of (actor_cast v) = v
  value_of (other v) = v

  -- Every event but a mail with no value behind it, whose turn panics before the handler is called.
  abbrev pub is_named : Event Msg → Bool
  is_named (mail m) = has_type_name (value_of m)
  is_named (interrupt tm) = true
  is_named ticks = true
  is_named times_out = true

  abbrev pub count_named : List (Event Msg) → ℕ
  count_named [] = 0
  count_named (e ∷ es) = (if is_named e then 1 else 0) + count_named es

  count_named-append :
      (es fs : List (Event Msg)) → count_named (es ++ fs) ≡ count_named es + count_named fs
  count_named-append [] fs = omega arith
  count_named-append (e ∷ es) fs = omega (arith, count_named-append es fs)

  pub count_named-snoc :
      (es : List (Event Msg)) (e : Event Msg)
      → is_named e ≡ true
      → count_named (es ++ e ∷ []) ≡ suc (count_named es)
  count_named-snoc es e real =
      count_named-append es (e ∷ [])
      ∙ ap (λ b. count_named es + ((if b then 1 else 0) + 0)) real
      ∙ omega arith

  pub count_named-snoc_unnamed :
      (es : List (Event Msg)) (e : Event Msg)
      → is_named e ≡ false
      → count_named (es ++ e ∷ []) ≡ count_named es
  count_named-snoc_unnamed es e empty =
      count_named-append es (e ∷ [])
      ∙ ap (λ b. count_named es + ((if b then 1 else 0) + 0)) empty
      ∙ omega arith

-- A turn leaves the loop exactly if its event can be handled.
abbrev pub LeavesBy : {State Msg : Type 0} → Event Msg → Option (Next × Actor State Msg) → Type 0
LeavesBy e none = Unit
LeavesBy e (some (n, a)) = n.flag ≡ not (is_named e)

module _ {State Msg : Type 0} (h : Handler State Msg) (goes : NeverStops h) where
  -- A result that asks for no stop leaves the loop, a panic does not.
  calls_flag :
      (ticker : Option ℤ) (f : State → Handled State Msg) (a : Actor State Msg)
      → GoesOn (f a.state)
      → (settled_turn h ticker (calls f a)).0.flag ≡ false
  calls_flag ticker f a (r, e, on) = rw e (rw on refl)

  settled_flag :
      (ticker : Option ℤ) (ret : ActorRet Msg) (a : Actor State Msg)
      → ret.is_stopped ≡ false
      → (settled_turn h ticker (returns ret a)).0.flag ≡ false
  settled_flag ticker ret a on = rw on refl

  -- The result of a call is the one that does not ask for a stop.
  same_result :
      (d : Handled State Msg) (ret : ActorRet Msg)
      → GoesOn d
      → d.ret ≡ some ret
      → ret.is_stopped ≡ false
  same_result d ret (r, e, on) f = let same : r ≡ ret = cc in ap (λ x. x.is_stopped) (sym same) ∙ on

  call_flag :
      (ticker : Option ℤ) (from : ActorCaller) (v : Value Msg) (a : Actor State Msg)
      (t : Turn State Msg (ActorRet Msg))
      → CallEnds h from v a t
      → (settled_turn h ticker t).0.flag ≡ not (has_type_name v)
  call_flag ticker from v a t (unnamed off e) = rw e (rw off refl)
  call_flag ticker from v a t (crashed on bad e) =
      let (r, good, go) = goes.handle (with_caller a.ctx from) v a.state in absurd (cc)
  call_flag ticker from v a t (silent ret on good q e) =
      let go =
        same_result (h.handle (with_caller a.ctx from) v a.state) ret
          (goes.handle (with_caller a.ctx from) v a.state) good in
      ap (λ x. (settled_turn h ticker x).0.flag) e ∙ settled_flag ticker ret _ go ∙ ap not (sym on)
  call_flag ticker from v a t (replied ret on good q e) =
      let go =
        same_result (h.handle (with_caller a.ctx from) v a.state) ret
          (goes.handle (with_caller a.ctx from) v a.state) good in
      ap (λ x. (settled_turn h ticker x).0.flag) e ∙ settled_flag ticker ret _ go ∙ ap not (sym on)

  cast_flag :
      (ticker : Option ℤ) (v : Value Msg) (a : Actor State Msg)
      → (settled_turn h ticker (handle_mail h (actor_cast v) a)).0.flag ≡ not (has_type_name v)
  unfolding handle_mail has_type_name
  cast_flag ticker nil a = refl
  cast_flag ticker nil_pointer a = refl
  cast_flag ticker no_reply a = refl
  cast_flag ticker (plain m) a =
      calls_flag ticker (h.handle a.ctx (plain m))
        (record a { effects = a.effects ++ handles (plain m) ∷ [] })
        (goes.handle a.ctx (plain m) a.state)

  other_flag :
      (ticker : Option ℤ) (v : Value Msg) (a : Actor State Msg)
      → (settled_turn h ticker (handle_mail h (other v) a)).0.flag ≡ not (has_type_name v)
  unfolding handle_mail has_type_name new_gen_ret
  other_flag ticker nil a = refl
  other_flag ticker nil_pointer a = refl
  other_flag ticker no_reply a = refl
  other_flag ticker (plain m) a = refl

  pub do_loop_flag :
      (ticker out : Option ℤ) (e : Event Msg) (a : Actor State Msg)
      → LeavesBy e (do_loop h ticker out e a)
  do_loop_flag ticker out (mail (actor_call from v)) a =
      rw ((do_loop_lem h ticker out a).0 (actor_call from v))
        (call_flag ticker from v a _ (handle_mail-CallEnds h from v a))
  do_loop_flag ticker out (mail (actor_cast v)) a =
      rw ((do_loop_lem h ticker out a).0 (actor_cast v)) (cast_flag ticker v a)
  do_loop_flag ticker out (mail (other v)) a =
      rw ((do_loop_lem h ticker out a).0 (other v)) (other_flag ticker v a)
  do_loop_flag ticker out (interrupt tm) a = rw (do_loop_interrupt h ticker out a tm) refl
  do_loop_flag none out ticks a = rw ((do_loop_lem h none out a).2) tt
  do_loop_flag (some d) out ticks a =
      rw ((do_loop_lem h none out a).1 d)
        (calls_flag (some d) (h.tick a.ctx) a (goes.tick a.ctx a.state))
  do_loop_flag ticker none times_out a = rw ((do_loop_lem h ticker none a).4) tt
  do_loop_flag ticker (some d) times_out a =
      rw ((do_loop_lem h ticker none a).3 d)
        (calls_flag ticker (h.timeout a.ctx) a (goes.timeout a.ctx a.state))
