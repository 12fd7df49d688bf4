-- ===== src/LogProxy/Service/Callers.antt =====
-- Where the payloads that the channel has accepted come from: a call of `Write`, unchanged.
use vlgo.Shared.{
  ℕ, zero, suc, ◌≡◌, refl, sym, subst, inl, inr, Bool-cases, List, [], ◌∷◌, ◌++◌, Option, none,
  some, ltb, ◌==◌, length, get_elem?, All, All-append, replicate,
}
use vlgo.LogProxy.Buffer.{Bytes, capacity, default_log_buffer_size}
use vlgo.LogProxy.Batch.{Sink}
use vlgo.LogProxy.Sharing.{
  Thread, idle, done, loading, swapping, filling, sending, waiting, reading, storing, Memory,
  get_buffer_entry, load_slot, get_buffer_loop, swap_slot, store_slot, put_buffer_loop, send,
  advance, step_at, log_buffer_cache_count, max_log_chan_size,
}
use vlgo.LogProxy.Sharing
use vlgo.LogProxy.Service.{
  Call, calls, proceeds, expires, choice_of, Move, writes, consumes, Service, new_log_proxy_writer,
  serve, serve_all,
}
use vlgo.LogProxy.Service.Effects.{consume_at-Effect}
use vlgo.LogProxy.Service.Bytewise.{ServiceInv, serve-Inv, new_log_proxy_writer-Inv}

pub serve_all-append :
    {S : Type 0} (w : Sink S) (s : Service S) (es fs : List Move)
    → serve_all w s (es ++ fs) ≡ serve_all w (serve_all w s es) fs
unfolding serve_all
serve_all-append w s [] fs = refl
serve_all-append w s (x ∷ es) fs = serve_all-append w (serve w s x) es fs

module _ (P : Bytes → Type 0) where
  -- The payload that a goroutine carries is one of a call.
  abbrev Carries : Thread → Type 0
  Carries (loading src i) = P src
  Carries (swapping src i old) = P src
  Carries (filling src p) = P src
  Carries (sending src p) = P src
  Carries (waiting src p) = P src
  Carries t = Unit

  abbrev FromCall : Thread × Memory → Type 0
  FromCall (t, m) = Carries t × All P m.sent

  abbrev pub CallsOnly : Call → Type 0
  CallsOnly (calls src) = P src
  CallsOnly c = Unit

  module _ (m : Memory) (before : All P m.sent) where
    entry-FromCall : (src : Bytes) → P src → FromCall (get_buffer_entry src m)
    entry-FromCall src p = elim (Bool-cases (ltb default_log_buffer_size (length src))) [
      | inl big ↦ rw big (p, before)
      | inr small ↦ rw small (p, before)
    ]

    load_slot-FromCall :
        (src : Bytes) (i : ℕ) (o : Option (Option ℕ)) → P src → FromCall (load_slot src i o m)
    load_slot-FromCall src i (some (some old)) p = (p, before)
    load_slot-FromCall src i (some none) p = (p, before)
    load_slot-FromCall src i none p = (p, before)

    get_buffer_loop-FromCall : (src : Bytes) (i : ℕ) → P src → FromCall (get_buffer_loop src i m)
    get_buffer_loop-FromCall src i p = elim (Bool-cases (ltb i log_buffer_cache_count)) [
      | inl more ↦ rw more (load_slot-FromCall src i (get_elem? m.slots i) p)
      | inr end ↦ rw end (p, before)
    ]

    swap_slot-FromCall :
        (src : Bytes) (i old : ℕ) (o : Option (Option ℕ))
        → P src
        → FromCall (swap_slot src i old o m)
    swap_slot-FromCall src i old (some (some q)) p = elim (Bool-cases (q == old)) [
      | inl same ↦ rw same (p, before)
      | inr other ↦ rw other (p, before)
    ]
    swap_slot-FromCall src i old (some none) p = (p, before)
    swap_slot-FromCall src i old none p = (p, before)

    send-FromCall : (src : Bytes) (q : ℕ) → P src → FromCall (send src q (waiting src q) m)
    send-FromCall src q p = elim (Bool-cases (ltb (length m.chan) max_log_chan_size)) [
      | inl room ↦ rw room (tt, All-append P m.sent (src ∷ []) before (p, tt))
      | inr full ↦ rw full (p, before)
    ]

    store_slot-FromCall : (q i : ℕ) (o : Option (Option ℕ)) → FromCall (store_slot q i o m)
    store_slot-FromCall q i (some none) = (tt, before)
    store_slot-FromCall q i (some (some r)) = (tt, before)
    store_slot-FromCall q i none = (tt, before)

    put_buffer_loop-FromCall : (q i : ℕ) → FromCall (put_buffer_loop q i m)
    put_buffer_loop-FromCall q i = elim (Bool-cases (ltb i log_buffer_cache_count)) [
      | inl more ↦ rw more (store_slot-FromCall q i (get_elem? m.slots i))
      | inr end ↦ rw end (tt, before)
    ]

    advance-FromCall :
        (c : Call) (t : Thread) → CallsOnly c → Carries t → FromCall (advance (choice_of c) t m)
    unfolding advance
    advance-FromCall (calls src) idle p k = entry-FromCall src p
    advance-FromCall (calls src) (done n b) p k = entry-FromCall src p
    advance-FromCall proceeds (loading src i) p k = get_buffer_loop-FromCall src i k
    advance-FromCall proceeds (swapping src i old) p k =
        swap_slot-FromCall src i old (get_elem? m.slots i) k
    advance-FromCall proceeds (sending src q) p k = send-FromCall src q k
    advance-FromCall proceeds (waiting src q) p k = send-FromCall src q k
    advance-FromCall proceeds (storing q i) p k = put_buffer_loop-FromCall q i
    advance-FromCall proceeds (filling src q) p k = (k, before)
    advance-FromCall proceeds (reading src q) p k =
        elim (Bool-cases (capacity (m.heap q) == default_log_buffer_size)) [
          | inl full ↦ rw full (tt, before)
          | inr other ↦ rw other (tt, before)
        ]
    advance-FromCall proceeds idle p k = (tt, before)
    advance-FromCall proceeds (done n b) p k = (tt, before)
    advance-FromCall expires (waiting src q) p k = (tt, before)
    advance-FromCall expires t p k = (k, before)
    advance-FromCall (calls src) t p k = (k, before)

  abbrev AllFromCall : List Thread × Memory → Type 0
  AllFromCall (ts, m) = All Carries ts × All P m.sent

  step_at-AllFromCall :
      (k : ℕ) (c : Call) (ts : List Thread) (m : Memory)
      → CallsOnly c
      → AllFromCall (ts, m)
      → AllFromCall (step_at k (choice_of c) ts m)
  unfolding step_at
  step_at-AllFromCall zero c [] m p a = a
  step_at-AllFromCall (suc k) c [] m p a = a
  step_at-AllFromCall zero c (t ∷ ts) m p ((here, there), before) =
      let (here', after) = advance-FromCall m before c t p here in ((here', there), after)
  step_at-AllFromCall (suc k) c (t ∷ ts) m p ((here, there), before) =
      let (there', after) = step_at-AllFromCall k c ts m p (there, before) in
      ((here, there'), after)

  -- The calls of `Write` among the steps are with payloads of `P`.
  abbrev pub MovesOnly : Move → Type 0
  MovesOnly (writes k c) = CallsOnly c
  MovesOnly consumes = Unit

  Carries-idle : (n : ℕ) → All Carries (replicate n idle)
  Carries-idle zero = tt
  Carries-idle (suc n) = (tt, Carries-idle n)

  module _ {S : Type 0} (w : Sink S) where
    abbrev ServiceFrom : Service S → Type 0
    ServiceFrom s = AllFromCall (s.system.threads, s.system.memory)

    serve-From :
        (s : Service S) (e : Move)
        → MovesOnly e
        → ServiceInv s
        → ServiceFrom s
        → ServiceFrom (serve w s e)
    unfolding serve Sharing.step
    serve-From s (writes k c) p i a = step_at-AllFromCall k c s.system.threads s.system.memory p a
    serve-From s consumes p i a = (
      a.0,
      subst (All P) (sym (consume_at-Effect w s.consumer s.consumer.stage s.system.memory i.good).1)
          a.1,
    )

    serve_all-From :
        (s : Service S) (es : List Move)
        → All MovesOnly es
        → ServiceInv s
        → ServiceFrom s
        → ServiceFrom (serve_all w s es)
    unfolding serve_all
    serve_all-From s [] p i a = a
    serve_all-From s (e ∷ es) p i a =
        serve_all-From (serve w s e) es p.1 (serve-Inv w s e i) (serve-From s e p.0 i a)

    -- Under every interleaving, what holds of the payload of each call of `Write` holds of each payload
    -- that the channel has accepted.
    pub serve_all-sent :
        (s : S) (n : ℕ) (es : List Move)
        → All MovesOnly es
        → All P (serve_all w (new_log_proxy_writer s n) es).system.memory.sent
    serve_all-sent s n es p =
        (serve_all-From (new_log_proxy_writer s n) es p (new_log_proxy_writer-Inv s n)
          (Carries-idle n, tt)).1
