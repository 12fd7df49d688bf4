-- ===== src/Actor/Serving/Counting.antt =====
-- The calls by each channel, in the mailbox's history and about to be sent.
use vlgo.Shared.{
  ℕ, suc, ◌+◌, ◌≤◌, ◌≡◌, ◌⊎◌, inl, inr, List, [], ◌∷◌, ◌++◌, none, some, ◌==◌, if◌then◌else◌, arith,
}
use vlgo.Actor.{Mail, actor_call, actor_cast, other}
use vlgo.Actor.Serving.{Client, sending}

abbrev pub one_at : ℕ → ℕ → ℕ
one_at c d = if d == c then 1 else 0

-- How many calls by the channel `c` there are.
abbrev pub calls_to : {Msg : Type 0} → ℕ → List (Mail Msg) → ℕ
calls_to c [] = 0
calls_to c (actor_call none v ∷ ms) = calls_to c ms
calls_to c (actor_call (some d) v ∷ ms) = one_at c d + calls_to c ms
calls_to c (actor_cast v ∷ ms) = calls_to c ms
calls_to c (other v ∷ ms) = calls_to c ms

pub calls_to-append :
    {Msg : Type 0} (c : ℕ) (ms ns : List (Mail Msg))
    → calls_to c (ms ++ ns) ≡ calls_to c ms + calls_to c ns
calls_to-append c [] ns = omega arith
calls_to-append c (actor_call none v ∷ ms) ns = calls_to-append c ms ns
calls_to-append c (actor_call (some d) v ∷ ms) ns = omega (arith, calls_to-append c ms ns)
calls_to-append c (actor_cast v ∷ ms) ns = calls_to-append c ms ns
calls_to-append c (other v ∷ ms) ns = calls_to-append c ms ns

-- The goroutines before the send of a call by the channel `c`.
abbrev pub sending_at : {Msg : Type 0} → ℕ → Client Msg → ℕ
sending_at c (sending d v) = one_at c d
sending_at c t = 0

abbrev pub sending_all : {Msg : Type 0} → ℕ → List (Client Msg) → ℕ
sending_all c [] = 0
sending_all c (t ∷ ts) = sending_at c t + sending_all c ts

-- The number of the next channel, and the calls by each channel, among those sent and those about to be sent.
abbrev pub Counts : ℕ → (ℕ → ℕ) → ℕ → (ℕ → ℕ) → Type 0
Counts next count next' count' =
    ((next' ≡ next) × ((c : ℕ) → count' c ≤ count c))
    ⊎ ((next' ≡ suc next) × ((c : ℕ) → count' c ≤ count c + one_at c next))

pub Counts-add :
    (next next' : ℕ) (count count' others : ℕ → ℕ)
    → Counts next count next' count'
    → Counts next (λ c. count c + others c) next' (λ c. count' c + others c)
Counts-add next next' count count' others (inl (e, f)) = inl (e, λ c. omega (arith, f c))
Counts-add next next' count count' others (inr (e, f)) = inr (e, λ c. omega (arith, f c))

pub Counts-eq :
    (next next' : ℕ) (count count' n n' : ℕ → ℕ)
    → ((c : ℕ) → n c ≡ count c)
    → ((c : ℕ) → n' c ≡ count' c)
    → Counts next count next' count'
    → Counts next n next' n'
Counts-eq next next' count count' n n' e e' (inl (f, g)) =
    inl (f, λ c. omega (arith, e c, e' c, g c))
Counts-eq next next' count count' n n' e e' (inr (f, g)) =
    inr (f, λ c. omega (arith, e c, e' c, g c))

-- Calls by one channel each, and none by the channels to come.
pub Counts-once :
    (next next' : ℕ) (count count' : ℕ → ℕ)
    → Counts next count next' count'
    → ((c : ℕ) → count c ≤ 1)
    → ((c : ℕ) → next ≤ c → count c ≡ 0)
    → ((c : ℕ) → count' c ≤ 1) × ((c : ℕ) → next' ≤ c → count' c ≡ 0)
Counts-once next next' count count' (inl (e, f)) once fresh =
    (λ c. omega (arith, f c, once c), λ c l. omega (arith, f c, fresh c (omega arith)))
Counts-once next next' count count' (inr (e, f)) once fresh =
    (λ c. ground (arith, f c, once c, fresh c), λ c l. ground (arith, f c, fresh c (omega arith)))
