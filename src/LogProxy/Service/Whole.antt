-- ===== src/LogProxy/Service/Whole.antt =====
-- Where the calls of the underlying writer cut the bytes: between two payloads, never within one.
use vlgo.Shared.{
  ℕ, ◌+◌, ◌≤◌, ◌≡◌, refl, sym, ap, ◌∙◌, ◌⊎◌, inl, inr, List, [], ◌∷◌, ◌++◌, Option, none, some,
  append-nil, append_assoc, arith, ◌==◌, Bool-cases, length, concat, concat-append,
}
use vlgo.LogProxy.Buffer.{Bytes, buffer, capacity, default_log_buffer_size, log_temp_buffer_size}
use vlgo.LogProxy.Batch.{Heap, over}
use vlgo.LogProxy.Batch.Order.{bytes_of}
use vlgo.LogProxy.Sharing.{Memory}
use vlgo.LogProxy.Service.{
  Stage, selecting, polling, appending, putting, writing_first, writing_temp, writing_next, Entry,
  offered, lost, Consumer, put, then_next, then_temp, then_first, round,
}
use vlgo.LogProxy.Service.Ownership.{GoodStage}
use vlgo.LogProxy.Service.Rounds.{copies_room}

-- The entries of the history give or lose the payloads `ps`, each one whole and in order; what is empty may be
-- left out.
pub data Cut : List Entry → List Bytes → Type 0 where
  nothing : Cut [] []
  gives :
      (log : List Entry) (front qs : List Bytes) (bs : Bytes)
      → bs ≡ concat qs
      → Cut log front
      → Cut (log ++ offered bs ∷ []) (front ++ qs)
  loses :
      (log : List Entry) (front qs : List Bytes) (bs : Bytes)
      → bs ≡ concat qs
      → Cut log front
      → Cut (log ++ lost bs ∷ []) (front ++ qs)
  skips :
      (log : List Entry) (front qs : List Bytes)
      → concat qs ≡ []
      → Cut log front
      → Cut log (front ++ qs)

abbrev pub buffer_of : Heap → Option ℕ → List Bytes
buffer_of h none = []
buffer_of h (some p) = buffer (h p) ∷ []

pub bytes_of-concat : (h : Heap) (o : Option ℕ) → bytes_of h o ≡ concat (buffer_of h o)
bytes_of-concat h none = refl
bytes_of-concat h (some p) = sym (append-nil (buffer (h p)))

-- The payloads that the consumer holds, where those in `tempBuffer` are `tp`.
abbrev pub parts : Heap → Stage → List Bytes → List Bytes
parts h selecting tp = []
parts h (polling temp first) tp = buffer_of h first ++ tp
parts h (appending temp n) tp = tp ++ buffer (h n) ∷ []
parts h (putting p i k) tp = parts h k tp
parts h (writing_first f temp next) tp = buffer (h f) ∷ (tp ++ buffer_of h next)
parts h (writing_temp temp next) tp = tp ++ buffer_of h next
parts h (writing_next n) tp = buffer (h n) ∷ []

-- `tp` is what `tempBuffer` holds; it holds nothing beside a first log.
abbrev pub Temp : Stage → List Bytes → Type 0
Temp selecting tp = Unit
Temp (polling temp first) tp = (temp ≡ concat tp) × ((first ≡ none) ⊎ (tp ≡ []))
Temp (appending temp n) tp = temp ≡ concat tp
Temp (putting p i k) tp = Temp k tp
Temp (writing_first f temp next) tp = temp ≡ concat tp
Temp (writing_temp temp next) tp = temp ≡ concat tp
Temp (writing_next n) tp = Unit

-- The payloads `ps` are those that a stage holds, behind some that are empty.
pub record Holds (h : Heap) (ps : List Bytes) (k : Stage) : Type 0 where
  pub tp : List Bytes
  pub skipped : List Bytes
  pub temp : Temp k tp
  pub empty : concat skipped ≡ []
  pub all : ps ≡ skipped ++ parts h k tp

module _ (h : Heap) where
  pub exactly-Holds : (k : Stage) (tp : List Bytes) → Temp k tp → Holds h (parts h k tp) k
  exactly-Holds k tp t = record { tp = tp; skipped = []; temp = t; empty = refl; all = refl }

  pub then_next-Holds : (next : Option ℕ) → Holds h (buffer_of h next) (then_next next)
  then_next-Holds none = exactly-Holds selecting [] tt
  then_next-Holds (some n) = exactly-Holds (writing_next n) [] tt

  -- Behind empty payloads.
  skip-Holds :
      (k : Stage) (qs ps : List Bytes) → concat qs ≡ [] → Holds h ps k → Holds h (qs ++ ps) k
  skip-Holds k qs ps e s = record {
    tp = s.tp;
    skipped = qs ++ s.skipped;
    temp = s.temp;
    empty = concat-append qs s.skipped ∙ ap (λ x. x ++ concat s.skipped) e ∙ s.empty;
    all = ap (λ x. qs ++ x) s.all ∙ sym (append_assoc qs s.skipped _);
  }

  pub then_temp-Holds :
      (temp : Bytes) (next : Option ℕ) (tp : List Bytes)
      → temp ≡ concat tp
      → Holds h (tp ++ buffer_of h next) (then_temp temp next)
  then_temp-Holds [] next tp e = skip-Holds (then_next next) tp _ (sym e) (then_next-Holds next)
  then_temp-Holds (b ∷ bs) next tp e = exactly-Holds (writing_temp (b ∷ bs) next) tp e

  pub then_first-Holds :
      (first : Option ℕ) (temp : Bytes) (next : Option ℕ) (tp : List Bytes)
      → temp ≡ concat tp
      → Holds h (buffer_of h first ++ (tp ++ buffer_of h next)) (then_first first temp next)
  then_first-Holds none temp next tp e = then_temp-Holds temp next tp e
  then_first-Holds (some f) temp next tp e = exactly-Holds (writing_first f temp next) tp e

  pub put-Holds : (p : ℕ) (k : Stage) (ps : List Bytes) → Holds h ps k → Holds h ps (put h p k)
  put-Holds p k ps s = elim (Bool-cases (capacity (h p) == default_log_buffer_size)) [
    | inl full ↦
        rw full
          record { tp = s.tp; skipped = s.skipped; temp = s.temp; empty = s.empty; all = s.all }
    | inr other ↦ rw other s
  ]

  -- A round takes the next log in.
  pub round-Holds :
      {S : Type 0} (temp : Bytes) (first : Option ℕ) (n : ℕ) (c : Consumer S) (tp : List Bytes)
      → GoodStage h (polling temp first)
      → Temp (polling temp first) tp
      → Holds h ((buffer_of h first ++ tp) ++ buffer (h n) ∷ []) (round h temp first n c).stage
  round-Holds temp (some f) n c tp g (e, inl never) = absurd (ground arith)
  round-Holds temp (some f) n c tp g (e, inr nil) = elim (Bool-cases (over (h f).len (h n).len)) [
    | inl full ↦ rw full (exactly-Holds (writing_first f temp (some n)) tp e)
    | inr fits ↦
        let room : (h f).len + (h n).len ≤ log_temp_buffer_size = ground arith in
        let empty : temp ≡ [] = e ∙ ap concat nil in
        rw
          (
            fits,
            empty,
            copies_room [] (h f).len _ (put h f (appending (buffer (h f)) n)) c (omega arith),
            nil,
          )
          (put-Holds f (appending (buffer (h f)) n) _ (
            exactly-Holds (appending (buffer (h f)) n) (buffer (h f) ∷ [])
              (sym (append-nil (buffer (h f))))))
  ]
  round-Holds temp none n c tp g (e, apart) = elim (Bool-cases (over (length temp) (h n).len)) [
    | inl full ↦ rw full (then_temp-Holds temp (some n) tp e)
    | inr fits ↦ rw fits (exactly-Holds (appending temp n) tp e)
  ]

-- What holds of the consumer at a stage, with its history.
pub record WholeAt (m : Memory) (k : Stage) (log : List Entry) : Type 0 where
  pub done : List Bytes
  pub tp : List Bytes
  pub temp : Temp k tp
  pub cut : Cut log done
  pub all : m.received ≡ done ++ parts m.heap k tp

module _ (m : Memory) where
  -- The consumer moves to `k'` with the payloads `ps` in hand, and the history `log` has given the payloads `done`.
  pub Holds-WholeAt :
      (k' : Stage) (log : List Entry) (given ps : List Bytes)
      → Cut log given
      → m.received ≡ given ++ ps
      → Holds m.heap ps k'
      → WholeAt m k' log
  Holds-WholeAt k' log given ps c e s = record {
    done = given ++ s.skipped;
    tp = s.tp;
    temp = s.temp;
    cut = skips log given s.skipped s.empty c;
    all = e ∙ ap (λ x. given ++ x) s.all ∙ sym (append_assoc given s.skipped _);
  }

abbrev pub StaysWhole : {S : Type 0} → Consumer S × Memory → Type 0
StaysWhole (c, m) = WholeAt m c.stage c.log
