-- ===== src/Actor/Serving/Taking.antt =====
-- What the goroutines outside receive, all together: one of them makes a step, and the others keep their own.
use vlgo.Shared.{
  ℕ, zero, suc, ◌+◌, ◌≤◌, ◌≡◌, refl, ◌∙◌, inl, inr, List, [], ◌∷◌, Bool-cases, arith, All, ltb,
  ltb→lt, ltb→ge, replicate,
}
use vlgo.Actor.{ActorRet}
use vlgo.Actor.Caller.{Codes}
use vlgo.Actor.Serving.{
  Client, outside, crashed, sending, awaiting, returned, gave_up, casting, Channels, Act, act_at,
}
use vlgo.Actor.Serving.Taken.{held, Fits, Takes, TakesOne, act-TakesOne}

module _ {Msg : Type 0} where
  abbrev held_all : ℕ → List (Client Msg) → ℕ
  held_all d [] = 0
  held_all d (t ∷ ts) = held d t + held_all d ts

  -- The channels of the goroutines are different, and new ones are unused.
  pub record Fitting (next : ℕ) (taken : ℕ → List (ActorRet Msg)) (ts : List (Client Msg))
      : Type 0 where
    pub once : (d : ℕ) → held_all d ts ≤ 1
    pub far : (d : ℕ) → next ≤ d → held_all d ts ≡ 0
    pub fresh : (d : ℕ) → next ≤ d → taken d ≡ []
    pub fits : All (Fits taken) ts

  -- The same of all goroutines, of which one makes a step.
  abbrev TakesAll : Channels Msg → List (Client Msg) → List (Client Msg) → Channels Msg → Type 0
  TakesAll s ts ts' s' =
      Takes (λ d. held_all d ts) (λ d. held_all d ts') s s'
      × (((d : ℕ) → s.next ≤ d → s.taken d ≡ [])
          → ((d : ℕ) → held_all d ts ≤ 1)
          → All (Fits s.taken) ts
          → All (Fits s'.taken) ts')

  Fits-same :
      (f g : ℕ → List (ActorRet Msg)) (t : Client Msg)
      → ((d : ℕ) → 1 ≤ held d t → g d ≡ f d)
      → Fits f t
      → Fits g t
  Fits-same f g outside same fits = tt
  Fits-same f g crashed same fits = tt
  Fits-same f g (sending c v) same fits = same c (ground arith) ∙ fits
  Fits-same f g (awaiting c v) same fits = same c (ground arith) ∙ fits
  Fits-same f g (returned c v r) same fits = same c (ground arith) ∙ fits
  Fits-same f g (gave_up e) same fits = tt
  Fits-same f g (casting v) same fits = tt

  AllFits-same :
      (f g : ℕ → List (ActorRet Msg)) (ts : List (Client Msg))
      → ((d : ℕ) → 1 ≤ held_all d ts → g d ≡ f d)
      → All (Fits f) ts
      → All (Fits g) ts
  AllFits-same f g [] same fits = tt
  AllFits-same f g (t ∷ ts) same fits = (
    Fits-same f g t (λ d l. same d (omega (arith, l))) fits.0,
    AllFits-same f g ts (λ d l. same d (omega (arith, l))) fits.1,
  )

  head-TakesAll :
      (s s' : Channels Msg) (t t' : Client Msg) (ts : List (Client Msg))
      → TakesOne s t t' s'
      → TakesAll s (t ∷ ts) (t' ∷ ts) s'
  head-TakesAll s s' t t' ts (k, fits) = (
    record {
      grows = k.grows;
      old = λ d l. omega (arith, k.old d l);
      new = λ d. omega (arith, k.new d);
      far = λ d l. omega (arith, k.far d l);
      others = λ d none_held. k.others d (omega (arith, none_held));
    },
    λ fresh once before. (
      fits fresh before.0,
      AllFits-same s.taken s'.taken ts (λ d l. k.others d (omega (arith, once d, l))) before.1,
    ),
  )

  tail-TakesAll :
      (s s' : Channels Msg) (t : Client Msg) (ts ts' : List (Client Msg))
      → TakesAll s ts ts' s'
      → TakesAll s (t ∷ ts) (t ∷ ts') s'
  tail-TakesAll s s' t ts ts' (k, fits) = (
    record {
      grows = k.grows;
      old = λ d l. omega (arith, k.old d l);
      new = λ d. omega (arith, k.new d);
      far = λ d l. omega (arith, k.far d l);
      others = λ d none_held. k.others d (omega (arith, none_held));
    },
    λ fresh once before. (
      Fits-same s.taken s'.taken t (λ d l. k.others d (omega (arith, once d, l))) before.0,
      fits fresh (λ d. omega (arith, once d)) before.1,
    ),
  )

  none-TakesAll : (s : Channels Msg) → TakesAll s [] [] s
  none-TakesAll s = (
    record {
      grows = omega arith;
      old = λ d l. omega arith;
      new = λ d. omega arith;
      far = λ d l. omega arith;
      others = λ d none_held. refl;
    },
    λ fresh once before. tt,
  )

  act_at-TakesAll :
      (codes : Codes) (k : ℕ) (a : Act Msg) (ts : List (Client Msg)) (s : Channels Msg)
      → TakesAll s ts (act_at codes k a ts s).0 (act_at codes k a ts s).1
  unfolding act_at
  act_at-TakesAll codes zero a [] s = none-TakesAll s
  act_at-TakesAll codes (suc k) a [] s = none-TakesAll s
  act_at-TakesAll codes zero a (t ∷ ts) s = head-TakesAll s _ t _ ts (act-TakesOne codes a t s)
  act_at-TakesAll codes (suc k) a (t ∷ ts) s =
      tail-TakesAll s _ t ts _ (act_at-TakesAll codes k a ts s)

  pub act_at-Fitting :
      (codes : Codes) (k : ℕ) (a : Act Msg) (ts : List (Client Msg)) (s : Channels Msg)
      → Fitting s.next s.taken ts
      → let (ts', s') = act_at codes k a ts s in Fitting s'.next s'.taken ts'
  act_at-Fitting codes k a ts s i =
      let (x, fits) = act_at-TakesAll codes k a ts s in
      let ts' = (act_at codes k a ts s).0 in
      let s' = (act_at codes k a ts s).1 in
      record {
        once = λ d. elim (Bool-cases (ltb d s.next)) [
          | inl early ↦ omega (arith, x.old d (ltb→lt d s.next early), i.once d)
          | inr late ↦ omega (arith, x.new d, i.far d (ltb→ge d s.next late))
        ];
        far = λ d l. omega (arith, x.far d l, i.far d (omega (arith, l, x.grows)));
        fresh = λ d l.
            let before : s.next ≤ d = omega (arith, l, x.grows) in
            x.others d (i.far d before) ∙ i.fresh d before;
        fits = fits i.fresh i.once i.fits;
      }

held_all-outside : (Msg : Type 0) (d k : ℕ) → held_all {Msg = Msg} d (replicate k outside) ≡ 0
held_all-outside Msg d zero = refl
held_all-outside Msg d (suc k) = omega (arith, held_all-outside Msg d k)

module _ {Msg : Type 0} where
  Fits-outside : (f : ℕ → List (ActorRet Msg)) (k : ℕ) → All (Fits f) (replicate k outside)
  Fits-outside f zero = tt
  Fits-outside f (suc k) = (tt, Fits-outside f k)

  pub new-Fitting : (k : ℕ) → Fitting {Msg = Msg} 0 (λ _. []) (replicate k outside)
  new-Fitting k = record {
    once = λ d. omega (arith, held_all-outside Msg d k);
    far = λ d l. held_all-outside Msg d k;
    fresh = λ d l. refl;
    fits = Fits-outside (λ _. []) k;
  }
