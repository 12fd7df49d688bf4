-- ===== src/Waiters/Apart.antt =====
-- The registry of gen/wg.go: no two keys share a wait group.
use Prim.Native.String.{String}
use text.Mathlib.Text.{◌==◌ as str_eq}
use text.Mathlib.TextEquality.{eq_iff}
use vlgo.Shared.{
  ℕ, ◌<◌, ◌≡◌, refl, ◌≢◌, ◌⊎◌, sym, ap, ◌∙◌, List, some, arith, Bool-cases, Option-cases, inl, inr,
}
use vlgo.Waiters.{
  Waiter, World, Result, ok, fatal, lookup, delete, new_waiter, may_waiter, del_waiter,
}
use vlgo.Waiters.Registry.{lookup-delete, Creates, CreatesBy, new_waiter_lem, may_waiter_lem}

-- Every registered waiter has its key and a wait group of its own.
pub record IsRegistry (w : World) : Type 0 where
  pub keyed : (k : String) (v : Waiter) → lookup k w.table ≡ some v → v.key ≡ k
  pub owned :
      (k : String) (v : Waiter)
      → lookup k w.table ≡ some v
      → (p : ℕ) × (v.wg ≡ some p) × (p < w.next)
  pub apart :
      (j k : String) (u v : Waiter)
      → lookup j w.table ≡ some u
      → lookup k w.table ≡ some v
      → u.wg ≡ v.wg
      → j ≡ k

str-cases : (j k : String) → (j ≡ k) ⊎ (j ≢ k)
str-cases j k = elim (Bool-cases (str_eq j k)) [
  | inl same ↦ inl ((eq_iff j k).0 same)
  | inr other ↦ inr (λ e. cc ((eq_iff j k).1 e))
]

-- What a key finds after a creation is the new waiter, or what it found before.
module _ (k : String) (w w' : World) (v : Waiter) (c : Creates k w v w') where
  found_after :
      (j : String) (u : Waiter)
      → lookup j w'.table ≡ some u
      → ((j ≡ k) × (u ≡ v)) ⊎ (lookup j w.table ≡ some u)
  found_after j u e = elim (str-cases j k) [
    | inl same ↦ inl (same, ground (arith, c.registered))
    | inr other ↦ inr (sym (ground (arith, c.others j, eq_iff k j, other)) ∙ e)
  ]

  create-IsRegistry : IsRegistry w → IsRegistry w'
  create-IsRegistry r = record {
    keyed = λ j u e. elim (found_after j u e) [
      | inl (same, new) ↦ rw (same, new) c.keyed
      | inr old ↦ r.keyed j u old
    ];
    owned = λ j u e. elim (found_after j u e) [
      | inl (same, new) ↦ (w.next, rw new c.fresh.0, omega (arith, c.fresh.1))
      | inr old ↦ let (p, q, h) = r.owned j u old in (p, q, omega (arith, c.fresh.1))
    ];
    apart = λ i j u x e f g. elim (found_after i u e) [
      | inl (same, new) ↦ elim (found_after j x f) [
        | inl (same', new') ↦ same ∙ sym same'
        | inr old ↦ absurd (no_clash j x old (sym g ∙ ap (λ (y : Waiter). y.wg) new))
      ]
      | inr old ↦ elim (found_after j x f) [
        | inl (same', new') ↦ absurd (no_clash i u old (g ∙ ap (λ (y : Waiter). y.wg) new'))
        | inr old' ↦ r.apart i j u x old old' g
      ]
    ];
  }
    where
      no_clash : (j : String) (u : Waiter) → lookup j w.table ≡ some u → u.wg ≡ v.wg → ⊥
      no_clash j u e g =
          let (p, q, h) = r.owned j u e in
          let bad : p ≡ w.next = ground (arith, c.fresh.0) in omega arith

still_found :
    (k j : String) (t : List (String × Waiter)) (u : Waiter)
    → lookup j (delete k t) ≡ some u
    → lookup j t ≡ some u
still_found k j t u e = ground (arith, lookup-delete k j t)

delete-IsRegistry :
    (k : String) (w : World) → IsRegistry w → IsRegistry (record w { table = delete k w.table })
delete-IsRegistry k w r = record {
  keyed = λ j u e. r.keyed j u (still_found k j w.table u e);
  owned = λ j u e. r.owned j u (still_found k j w.table u e);
  apart =
      λ i j u v e f. r.apart i j u v (still_found k i w.table u e) (still_found k j w.table v f);
}

-- The operation returns, and leaves the registry well formed.
abbrev pub Keeps : {A : Type 0} → Result A → Type 0
Keeps {A} x = (a : A) × (w' : World) × (x ≡ ok a w') × IsRegistry w'

creates-Keeps :
    (k : String) (w : World) (x : Result Waiter) → IsRegistry w → CreatesBy k w x → Keeps x
creates-Keeps k w x r (v, w', made, c) = (v, w', made, create-IsRegistry k w w' v c r)

-- On a registry where every key has its own waiter, whose wait group no other key shares, `NewWaiter`
-- ends the process or returns, and `MayWaiter` and `DelWaiter` return; where they return, the registry
-- they leave is again like that.
pub registry_lem :
    (k : String) (w : World)
    → IsRegistry w
    → ((new_waiter k w ≡ fatal) ⊎ Keeps (new_waiter k w))
      × Keeps (may_waiter k w)
      × Keeps (del_waiter k w)
unfolding del_waiter
registry_lem k w r =
    let deleted : Keeps (del_waiter k w) =
      (tt, record w { table = delete k w.table }, refl, delete-IsRegistry k w r) in
    elim (Option-cases (lookup k w.table)) [
      | inl free ↦ (
        inr (creates-Keeps k w _ r ((new_waiter_lem k w).1 free)),
        creates-Keeps k w _ r ((may_waiter_lem k w).1 free),
        deleted,
      )
      | inr (v, taken) ↦
          (inl ((new_waiter_lem k w).0 v taken), (v, w, (may_waiter_lem k w).0 v taken, r), deleted)
    ]
