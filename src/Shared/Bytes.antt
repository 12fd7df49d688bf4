-- ===== src/Shared/Bytes.antt =====
-- Text as Go has it, a sequence of bytes, and what the standard library does on it: `strings.Split`,
-- `strings.Join`, `strings.LastIndexByte`, and the decimal notation of `fmt`.
use Prim.Native.Nat.{ℕ, zero, suc, ◌+◌, ◌/◌, ◌%◌, ◌<◌}
use Prim.Native.String.{String}
use Prim.Native.String.{[] as end_of_string, ◌∷◌ as cons_string}
use Prim.Native.Char.{code}
use mathlib.Core.Path.{◌≡◌, refl, ap, ◌∙◌, sym}
use mathlib.Core.Logic.{inl, inr}
use mathlib.Core.List.{List, [], ◌∷◌, ◌++◌, append_assoc}
use mathlib.Core.Option.{Option, none, some}
use native.Mathlib.Omega.{arith}
use vlgo.Shared.Tests.{ltb, ◌==◌, if◌then◌else◌, Option-cases, Bool-cases, ==_iff}
use vlgo.Shared.Lists.{length, drop, take}
use vlgo.Shared.Int.{ℤ, pos, negsuc}

abbrev pub Text : Type 0
Text = List ℕ

-- A literal of the source, which is ASCII.
abbrev pub bytes : String → Text
bytes end_of_string = []
bytes (cons_string c s) = code c ∷ bytes s

-- The digits of a number; `n` itself is enough fuel, since `n / 10 < n`.
abbrev pub digits : ℕ → ℕ → Text
digits zero n = []
digits (suc f) n = if ltb n 10 then (48 + n) ∷ [] else digits f (n / 10) ++ (48 + n % 10) ∷ []

abbrev pub decimal : ℤ → Text
decimal (pos n) = digits (suc n) n
decimal (negsuc n) = 45 ∷ digits (suc (suc n)) (suc n)

-- `strings.LastIndexByte`; `none` is -1.
abbrev pub last_index : ℕ → Text → Option ℕ
last_index b [] = none
last_index b (x ∷ s) = elim (last_index b s) [
  | some i ↦ some (suc i)
  | none ↦ if x == b then some 0 else none
]

-- `strings.Split` by a separator of one byte.
abbrev pub add_first : ℕ → List Text → List Text
add_first x [] = (x ∷ []) ∷ []
add_first x (l ∷ ls) = (x ∷ l) ∷ ls

abbrev pub split : ℕ → Text → List Text
split b [] = [] ∷ []
split b (x ∷ s) = if x == b then [] ∷ split b s else add_first x (split b s)

-- `strings.Join`.
abbrev pub join_rest : ℕ → List Text → Text
join_rest b [] = []
join_rest b (l ∷ ls) = b ∷ (l ++ join_rest b ls)

abbrev pub join : ℕ → List Text → Text
join b [] = []
join b (l ∷ ls) = l ++ join_rest b ls

-- The byte does not stand in the text.
abbrev pub Lacks : ℕ → Text → Type 0
Lacks b s = last_index b s ≡ none

join-add_first : (b x : ℕ) (ls : List Text) → join b (add_first x ls) ≡ x ∷ join b ls
join-add_first b x [] = refl
join-add_first b x (l ∷ ls) = refl

-- Some line comes first.
pub split-cons : (b : ℕ) (s : Text) → (l : Text) × (ls : List Text) × (split b s ≡ l ∷ ls)
split-cons b [] = ([], [], refl)
split-cons b (x ∷ s) =
    let (l, ls, e) = split-cons b s in
    elim (Bool-cases (x == b)) [
      | inl here ↦ ([], split b s, rw here)
      | inr not_here ↦ (x ∷ l, ls, rw not_here (ap (add_first x) e))
    ]

join_break :
    (b : ℕ) (ls : List Text) (l : Text) (rest : List Text)
    → ls ≡ l ∷ rest
    → join b ([] ∷ ls) ≡ b ∷ join b ls
join_break b ls l rest e = rw e refl

pub join-split : (b : ℕ) (s : Text) → join b (split b s) ≡ s
join-split b [] = refl
join-split b (x ∷ s) =
    let (l, ls, e) = split-cons b s in
    elim (Bool-cases (x == b)) [
      | inl here ↦ rw here (
          join_break b (split b s) l ls e
          ∙ ap (λ y. y ∷ join b (split b s)) (sym ((==_iff x b).0 here))
          ∙ ap (λ t. x ∷ t) (join-split b s))
      | inr not_here ↦
          rw not_here (join-add_first b x (split b s) ∙ ap (λ t. x ∷ t) (join-split b s))
    ]

-- Cut behind the last `b`: what stands behind it has no `b`.
pub last_index_cut :
    (b : ℕ) (s : Text) (i : ℕ)
    → last_index b s ≡ some i
    → (s ≡ take i s ++ b ∷ drop (suc i) s) × Lacks b (drop (suc i) s)
last_index_cut b [] i e = absurd (cc)
last_index_cut b (x ∷ s) i e = elim (Option-cases (last_index b s)) [
  | inr (j, later) ↦
      let there : i ≡ suc j = ground (arith, e, later) in
      let (cut, lacks) = last_index_cut b s j later in rw there (ap (λ t. x ∷ t) cut, lacks)
  | inl never ↦ elim (Bool-cases (x == b)) [
    | inl here ↦
        let there : i ≡ 0 = ground (arith, e, never, here) in
        rw there (ap (λ y. y ∷ s) ((==_iff x b).0 here), never)
    | inr not_here ↦ absurd (ground (arith, e, never, not_here))
  ]
]

join_rest_cut :
    (b n : ℕ) (ls : List Text)
    → n < length ls
    → join_rest b ls ≡ join_rest b (take n ls) ++ b ∷ join b (drop n ls)
join_rest_cut b n [] h = absurd (omega arith)
join_rest_cut b zero (l ∷ ls) h = refl
join_rest_cut b (suc n) (l ∷ ls) h =
    ap (λ t. b ∷ (l ++ t)) (join_rest_cut b n ls (omega arith))
    ∙ ap (λ t. b ∷ t) (sym (append_assoc l (join_rest b (take n ls)) (b ∷ join b (drop n ls))))

-- A joined text is cut at any of its separators.
pub join_cut :
    (b n : ℕ) (ls : List Text)
    → suc n < length ls
    → join b ls ≡ join b (take (suc n) ls) ++ b ∷ join b (drop (suc n) ls)
join_cut b n [] h = absurd (omega arith)
join_cut b n (l ∷ ls) h =
    ap (λ t. l ++ t) (join_rest_cut b n ls (omega arith))
    ∙ sym (append_assoc l (join_rest b (take n ls)) (b ∷ join b (drop n ls)))

-- Any fuel above the number gives the same digits.
pub digits_enough : (f g n : ℕ) → n < f → n < g → digits f n ≡ digits g n
digits_enough zero g n h k = absurd (omega arith)
digits_enough (suc f) zero n h k = absurd (omega arith)
digits_enough (suc f) (suc g) n h k = elim (Bool-cases (ltb n 10)) [
  | inl small ↦ rw small refl
  | inr large ↦
      rw large (
        ap (λ t. t ++ (48 + n % 10) ∷ [])
          (digits_enough f g (n / 10) (ground arith) (ground arith)))
]
