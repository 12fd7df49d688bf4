-- ===== src/LogProxy/Batch/Order.antt =====
-- What the loop of `writeLog` gathers: the bytes of the logs received, in order, within the bounds of
-- the temporary buffer.
use vlgo.Shared.{
  ℕ, ◌+◌, ◌≤◌, ◌≡◌, refl, sym, ap, ◌∙◌, ◌⊎◌, inl, inr, List, [], ◌∷◌, ◌++◌, Option, none, some,
  append-nil, append_assoc, arith, ltb, Bool-cases, length, length-append,
}
use vlgo.LogProxy.Buffer.{Bytes, IsSlice, buffer, length-buffer, log_temp_buffer_size}
use vlgo.LogProxy.Batch.{
  Heap, Local, first_local, Flow, go_on, break, append_log, copy_next, batch_round, batch_loop,
}

abbrev pub bytes_of : Heap → Option ℕ → Bytes
bytes_of h none = []
bytes_of h (some p) = buffer (h p)

abbrev pub list_of {ℓ} : {A : Type ℓ} → Option A → List A
list_of none = []
list_of (some a) = a ∷ []

abbrev pub bytes_of_all : Heap → List ℕ → Bytes
bytes_of_all h [] = []
bytes_of_all h (p ∷ ps) = buffer (h p) ++ bytes_of_all h ps

-- The bytes that `flush` would write now.
abbrev pub contents : Heap → Local → Bytes
contents h l = bytes_of h l.first ++ (l.temp ++ bytes_of h l.next)

-- The buffers returned, and those still to be returned, in order.
abbrev pub held : Local → List ℕ
held l = l.puts ++ (list_of l.first ++ list_of l.next)

-- What holds at the start of each round.
pub record IsReady (l : Local) : Type 0 where
  pub next_nil : l.next ≡ none
  pub bounded : length l.temp ≤ log_temp_buffer_size
  pub apart : (l.first ≡ none) ⊎ (l.temp ≡ [])

pub first_local-IsReady : (p : ℕ) → IsReady (first_local p)
first_local-IsReady p = record { next_nil = refl; bounded = omega arith; apart = inr refl }

-- A round that goes on has taken `n` in.
pub record TakesIn (h : Heap) (l : Local) (n : ℕ) (l' : Local) : Type 0 where
  pub ready : IsReady l'
  pub gathers : contents h l' ≡ contents h l ++ buffer (h n)
  pub holds : held l' ≡ held l ++ n ∷ []

abbrev grown : Heap → Local → ℕ → Local
grown h l p = record l { temp = l.temp ++ buffer (h p); puts = l.puts ++ p ∷ [] }

append_log_room :
    (h : Heap) (l : Local) (p : ℕ)
    → length l.temp + (h p).len ≤ log_temp_buffer_size
    → append_log h l p ≡ go_on (grown h l p)
unfolding append_log
append_log_room h l p room = ground arith

abbrev emptied : Local → Local
emptied l = record l { first = none; next = none }

temp_nil : (l : Local) (f : ℕ) → l.first ≡ some f → IsReady l → l.temp ≡ []
temp_nil l f e r = ground arith

module _ (h : Heap) (slices : (p : ℕ) → IsSlice (h p)) where
  grown_bounded :
      (l : Local) (p : ℕ)
      → length l.temp + (h p).len ≤ log_temp_buffer_size
      → length (l.temp ++ buffer (h p)) ≤ log_temp_buffer_size
  grown_bounded l p room =
      omega (arith, length-append l.temp (buffer (h p)), length-buffer (h p) (slices p))

  -- With a first log that leaves room, both logs go into the temporary buffer.
  first_round :
      (l : Local) (f n : ℕ)
      → l.first ≡ some f
      → IsReady l
      → (h f).len + (h n).len ≤ log_temp_buffer_size
      → (copy_next h (append_log h l f) n ≡ go_on (grown h (emptied (grown h l f)) n))
        × TakesIn h l n (grown h (emptied (grown h l f)) n)
  unfolding copy_next
  first_round l f n e r fits =
      let empty = temp_nil l f e r in
      let t = length-append l.temp (buffer (h f)) in
      let k = length-buffer (h f) (slices f) in
      let z : length l.temp ≡ 0 = ap length empty in
      (
        rw (append_log_room h l f (omega arith)) (append_log_room h _ n (omega arith)),
        record {
          ready = record {
            next_nil = refl;
            bounded = grown_bounded (emptied (grown h l f)) n (omega arith);
            apart = inl refl;
          };
          gathers = rw (e, r.next_nil, empty) (simp (append-nil));
          holds = rw (e, r.next_nil) (simp (append-nil, append_assoc));
        },
      )

  -- Once the first log is gone, the next one is added behind what has been gathered.
  later_round :
      (l : Local) (n : ℕ)
      → l.first ≡ none
      → IsReady l
      → length l.temp + (h n).len ≤ log_temp_buffer_size
      → (copy_next h (go_on l) n ≡ go_on (grown h (emptied l) n))
        × TakesIn h l n (grown h (emptied l) n)
  unfolding copy_next
  later_round l n e r fits = (
    append_log_room h (emptied l) n fits,
    record {
      ready = record {
        next_nil = refl;
        bounded = grown_bounded (emptied l) n fits;
        apart = inl refl;
      };
      gathers = rw (e, r.next_nil) (simp (append-nil));
      holds = rw (e, r.next_nil) (simp append-nil);
    },
  )

  abbrev Breaks : Local → ℕ → Flow → Type 0
  Breaks l n fl = fl ≡ break (record l { next = some n })

  abbrev GoesOn : Local → ℕ → Flow → Type 0
  GoesOn l n fl = (l' : Local) × (fl ≡ go_on l') × TakesIn h l n l'

  batch_round_cases :
      (l : Local) (o : Option ℕ) (n : ℕ)
      → l.first ≡ o
      → IsReady l
      → Breaks l n (batch_round h o l n) ⊎ GoesOn l n (batch_round h o l n)
  unfolding batch_round
  batch_round_cases l (some f) n e r =
      elim (Bool-cases (ltb log_temp_buffer_size ((h f).len + (h n).len))) [
        | inl full ↦ inl (rw full)
        | inr room ↦ let (q, t) = first_round l f n e r (ground arith) in rw room (inr (_, q, t))
      ]
  batch_round_cases l none n e r =
      elim (Bool-cases (ltb log_temp_buffer_size (length l.temp + (h n).len))) [
        | inl full ↦ inl (rw full)
        | inr room ↦ let (q, t) = later_round l n e r (ground arith) in rw room (inr (_, q, t))
      ]

-- How the loop ends: by a `break`, never by a panic, having taken in what it received, in order.
pub record Drains (h : Heap) (l : Local) (stream : List ℕ) (end : Flow × List ℕ) : Type 0 where
  pub received : List ℕ
  pub last : Local
  pub breaks : end.0 ≡ break last
  pub splits : stream ≡ received ++ end.1
  pub gathers : contents h last ≡ contents h l ++ bytes_of_all h received
  pub holds : held last ≡ held l ++ received
  pub bounded : length last.temp ≤ log_temp_buffer_size

module _ (h : Heap) where
  -- The round that receives `n` and breaks keeps it in `nextLog`.
  Drains-break :
      (l : Local) (n : ℕ) (rest : List ℕ)
      → IsReady l
      → Drains h l (n ∷ rest) (break (record l { next = some n }), rest)
  Drains-break l n rest r = record {
    received = n ∷ [];
    last = record l { next = some n };
    breaks = refl;
    splits = refl;
    gathers = rw r.next_nil (simp (append-nil, append_assoc));
    holds = rw r.next_nil (simp (append-nil, append_assoc));
    bounded = r.bounded;
  }

  Drains-cons :
      (l l' : Local) (n : ℕ) (rest : List ℕ) (end : Flow × List ℕ)
      → TakesIn h l n l'
      → Drains h l' rest end
      → Drains h l (n ∷ rest) end
  Drains-cons l l' n rest end t d = record {
    received = n ∷ d.received;
    last = d.last;
    breaks = d.breaks;
    splits = ap (◌∷◌ n) d.splits;
    gathers = d.gathers ∙ rw t.gathers (append_assoc (contents h l) _ _);
    holds = d.holds ∙ rw t.holds (append_assoc (held l) _ _);
    bounded = d.bounded;
  }

  -- The loop drains every stream.
  pub batch_loop-Drains :
      ((p : ℕ) → IsSlice (h p))
      → (stream : List ℕ) (l : Local) → IsReady l
      → Drains h l stream (batch_loop h l stream)
  unfolding batch_loop
  batch_loop-Drains slices [] l r = record {
    received = [];
    last = l;
    breaks = refl;
    splits = refl;
    gathers = sym (append-nil _);
    holds = sym (append-nil _);
    bounded = r.bounded;
  }
  batch_loop-Drains slices (n ∷ rest) l r = elim (batch_round_cases h slices l l.first n refl r) [
    | inl e ↦ rw (e, batch_loop) (Drains-break l n rest r)
    | inr (l', e, t) ↦
        rw (e, batch_loop) (Drains-cons l l' n rest _ t (batch_loop-Drains slices rest l' t.ready))
  ]
