-- ===== src/Actor/Serving/Clients.antt =====
-- A step of one of the goroutines outside, beside the others.
use mathlib.Core.List.Memᴰ
use vlgo.Shared.{ℕ, zero, suc, refl, sym, subst, inl, List, [], ◌∷◌, ◌++◌, append-nil, arith, All}
use vlgo.Actor.{ActorRet, Mail}
use vlgo.Actor.Caller.{Codes}
use vlgo.Actor.Serving.{
  Client, outside, crashed, sending, awaiting, returned, gave_up, casting, Channels, Act, act_at,
}
use vlgo.Actor.Serving.Counting.{sending_at, sending_all, Counts-add, Counts-eq}
use vlgo.Actor.Serving.Acts.{Honest, Steps, Acts, act-Acts}

module _ {Msg : Type 0} where
  abbrev pub AllHonest : (ℕ → List (ActorRet Msg)) → List (Mail Msg) → List (Client Msg) → Type 0
  AllHonest replied sent ts = All (Honest replied sent) ts

  abbrev pub ActsAll : Channels Msg → List (Client Msg) → List (Client Msg) → Channels Msg → Type 0
  ActsAll s ts ts' s' =
      Steps s (λ c. sending_all c ts) (λ c. sending_all c ts')
        (λ replied sent. AllHonest replied sent ts) (λ replied sent. AllHonest replied sent ts') s'

  Honest-append :
      (replied : ℕ → List (ActorRet Msg)) (sent more : List (Mail Msg)) (t : Client Msg)
      → Honest replied sent t
      → Honest replied (sent ++ more) t
  Honest-append replied sent more outside g = g
  Honest-append replied sent more crashed g = g
  Honest-append replied sent more (sending c v) g = g
  Honest-append replied sent more (awaiting c v) g = Memᴰ.append_left more g
  Honest-append replied sent more (returned c v r) g = (Memᴰ.append_left more g.0, g.1)
  Honest-append replied sent more (gave_up e) g = g
  Honest-append replied sent more (casting v) g = g

  AllHonest-append :
      (replied : ℕ → List (ActorRet Msg)) (sent more : List (Mail Msg)) (ts : List (Client Msg))
      → AllHonest replied sent ts
      → AllHonest replied (sent ++ more) ts
  AllHonest-append replied sent more [] g = tt
  AllHonest-append replied sent more (t ∷ ts) g =
      (Honest-append replied sent more t g.0, AllHonest-append replied sent more ts g.1)

  none_there : (s : Channels Msg) → ActsAll s [] [] s
  none_there s = record {
    more = [];
    items = sym (append-nil s.mailbox.items);
    sent = sym (append-nil s.sent);
    closed = refl;
    taken = λ c. refl;
    counts = inl (refl, λ c. omega arith);
    honest = λ replied boxes before. tt;
  }

  -- The goroutine at the head makes a step, or one behind it.
  head-ActsAll :
      (s s' : Channels Msg) (t t' : Client Msg) (ts : List (Client Msg))
      → Acts s t t' s'
      → ActsAll s (t ∷ ts) (t' ∷ ts) s'
  head-ActsAll s s' t t' ts k = record {
    more = k.more;
    items = k.items;
    sent = k.sent;
    closed = k.closed;
    taken = k.taken;
    counts =
        Counts-eq _ _ _ _ _ _ (λ c. omega arith) (λ c. omega arith)
          (Counts-add _ _ _ _ (λ c. sending_all c ts) k.counts);
    honest = λ replied boxes before. (
      k.honest replied boxes before.0,
      subst (λ x. AllHonest replied x ts) (sym k.sent)
          (AllHonest-append replied s.sent k.more ts before.1),
    );
  }

  tail-ActsAll :
      (s s' : Channels Msg) (t : Client Msg) (ts ts' : List (Client Msg))
      → ActsAll s ts ts' s'
      → ActsAll s (t ∷ ts) (t ∷ ts') s'
  tail-ActsAll s s' t ts ts' k = record {
    more = k.more;
    items = k.items;
    sent = k.sent;
    closed = k.closed;
    taken = k.taken;
    counts =
        Counts-eq _ _ _ _ _ _ (λ c. omega arith) (λ c. omega arith)
          (Counts-add _ _ _ _ (λ c. sending_at c t) k.counts);
    honest = λ replied boxes before. (
      subst (λ x. Honest replied x t) (sym k.sent) (Honest-append replied s.sent k.more t before.0),
      k.honest replied boxes before.1,
    );
  }

  pub act_at-ActsAll :
      (codes : Codes) (k : ℕ) (a : Act Msg) (ts : List (Client Msg)) (s : Channels Msg)
      → ActsAll s ts (act_at codes k a ts s).0 (act_at codes k a ts s).1
  unfolding act_at
  act_at-ActsAll codes zero a [] s = none_there s
  act_at-ActsAll codes (suc k) a [] s = none_there s
  act_at-ActsAll codes zero a (t ∷ ts) s = head-ActsAll s _ t _ ts (act-Acts s codes a t)
  act_at-ActsAll codes (suc k) a (t ∷ ts) s =
      tail-ActsAll s _ t ts _ (act_at-ActsAll codes k a ts s)
