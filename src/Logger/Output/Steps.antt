-- ===== src/Logger/Output/Steps.antt =====
-- The steps of the console core as steps of the log proxy, whose payloads are lines of logging calls.
use vlgo.Shared.{
  ℕ, ◌+◌, ◌≤◌, arith, ◌≡◌, refl, sym, ap, subst, ◌∙◌, false, List, [], ◌∷◌, ◌++◌, append_assoc, All,
  All-append, ℤ, Text, bytes, decimal,
}
use vlgo.Console.Line.{Pool, is_empty}
use vlgo.Console.Colors.{IsWalk}
use vlgo.Console.Entry.{IsClean}
use vlgo.Logger.Printing.{LogStringer, string_of, message}
use vlgo.Logger.Printing.Printed.{HasKeys, IsEntry, Prints, console_text_lem}
use vlgo.Logger.Output.{
  Encoding, LogCall, Output, OutputMove, prints, goes_on, gives_up, drains, encode_call, output,
  output_all,
}
use vlgo.LogProxy.Batch.{Sink}
use vlgo.LogProxy.Service.{Move, writes, consumes, calls, proceeds, expires, serve_all}
use vlgo.LogProxy.Service.Callers.{MovesOnly, serve_all-append}
use vlgo.LogProxy.Service.Counted.{write_count, write_count-append}

-- What zap documents of these values; `sprintf` is `fmt.Sprintf`, and `pair` the JSON text of one field.
pub record IsEncoding {Time Field Info : Type 0} (e : Encoding Time Field Info)
    (sprintf : Text → List Info → Text) (pair : Text → Text → Text) : Type 0 where
  pub walks : IsWalk e.levels e.walk
  pub keys : HasKeys e.production
  pub enters : (l : ℤ) (msg : Text) → IsEntry l msg (e.enter l msg)
  pub adds :
      (key : Text) (v : LogStringer Info)
      → e.context (e.stringer key v ∷ []) ≡ pair key (string_of sprintf v)
  pub some_text : (key t : Text) → is_empty (pair key t) ≡ false
  pub passes_on :
      (encode : Pool → Text × Pool) (pool : Pool) → e.core_write encode pool ≡ encode pool

-- The logging calls among the steps.
abbrev pub logs_of : {Info : Type 0} → OutputMove Info → ℕ
logs_of (prints k c) = 1
logs_of m = 0

abbrev pub log_count : {Info : Type 0} → List (OutputMove Info) → ℕ
log_count [] = 0
log_count (m ∷ ms) = logs_of m + log_count ms

module _ {Time Field Info : Type 0} (e : Encoding Time Field Info)
    (sprintf : Text → List Info → Text) (pair : Text → Text → Text) where
  -- The line of a call: its level, time, place, message and text, as Logger.Printing has them.
  abbrev pub IsLineOf : LogCall Info → Text → Type 0
  IsLineOf c line =
      Prints e.levels e.walk e.format e.production e.full_name_encoder e.default_line_ending
        e.context (e.enter c.level (message c.sys c.tag)) c.level (c.sys ++ (bytes "#" ++ c.tag))
        (pair (bytes "m")
          (bytes "[Go #" ++ (decimal c.go_id ++ (bytes "] " ++ sprintf c.fmts c.infos))))
        (line, [])

  pub encode_call-Prints :
      IsEncoding e sprintf pair
      → (c : LogCall Info) (pool : Pool) → IsClean pool
      → IsLineOf c (encode_call e c pool).0 × IsClean (encode_call e c pool).1
  encode_call-Prints is c pool clean =
      let (place, short, is_place, is_short, line, clean') =
        console_text_lem e.levels e.walk e.format e.production e.full_name_encoder
          e.default_line_ending sprintf e.stringer e.enter e.context pair c.level c.sys c.tag
          c.go_id c.fmts c.infos pool is.walks is.keys is.enters is.adds is.some_text clean in
      ((place, short, is_place, is_short, line, tt), clean')

module _ {Time Field Info S : Type 0} (e : Encoding Time Field Info)
    (sprintf : Text → List Info → Text) (pair : Text → Text → Text) (is : IsEncoding e sprintf pair)
    (w : Sink S) where
  module _ (start : Output S) (all : List (OutputMove Info)) where
    -- The text is the line of a call among the steps.
    abbrev pub IsPrinted : Text → Type 0
    IsPrinted line =
        (before after : List (OutputMove Info)) × (k : ℕ) × (c : LogCall Info) × (all
          ≡ before ++ prints k c ∷ after)
        × IsLineOf e sprintf pair c line

    -- Some steps of the log proxy, where each payload passed to `Write` is the line of a call.
    pub record Writes (n : ℕ) (o o' : Output S) : Type 0 where
      pub moves : List Move
      pub lead : o'.proxy ≡ serve_all w o.proxy moves
      pub lines : All (MovesOnly IsPrinted) moves
      pub few : write_count moves ≤ n
      pub clean : IsClean o'.pool

    prints-Writes :
        (before after : List (OutputMove Info)) (k : ℕ) (c : LogCall Info)
        → all ≡ before ++ prints k c ∷ after
        → let o = output_all e w start before in
          IsClean o.pool → Writes 1 o (output e w o (prints k c))
    unfolding output serve_all
    prints-Writes before after k c here clean =
        let o = output_all e w start before in
        let (line, clean') = encode_call-Prints e sprintf pair is c o.pool clean in
        let same = sym (is.passes_on (encode_call e c) o.pool) in
        record {
          moves = writes k (calls (e.core_write (encode_call e c) o.pool).0) ∷ [];
          lead = refl;
          lines = (
            (
              before,
              after,
              k,
              c,
              here,
              subst (λ (x : Text × Pool). IsLineOf e sprintf pair c x.0) same line,
            ),
            tt,
          );
          few = omega arith;
          clean = subst (λ (x : Text × Pool). IsClean x.1) same clean';
        }

    output-Writes :
        (before after : List (OutputMove Info)) (m : OutputMove Info)
        → all ≡ before ++ m ∷ after
        → let o = output_all e w start before in
          IsClean o.pool → Writes (logs_of m) o (output e w o m)
    unfolding output serve_all
    output-Writes before after (prints k c) here clean = prints-Writes before after k c here clean
    output-Writes before after (goes_on k) here clean = record {
      moves = writes k proceeds ∷ [];
      lead = refl;
      lines = (tt, tt);
      few = omega arith;
      clean = clean;
    }
    output-Writes before after (gives_up k) here clean = record {
      moves = writes k expires ∷ [];
      lead = refl;
      lines = (tt, tt);
      few = omega arith;
      clean = clean;
    }
    output-Writes before after drains here clean = record {
      moves = consumes ∷ [];
      lead = refl;
      lines = (tt, tt);
      few = omega arith;
      clean = clean;
    }

    output_all-append :
        (o : Output S) (before after : List (OutputMove Info))
        → output_all e w o (before ++ after) ≡ output_all e w (output_all e w o before) after
    unfolding output_all
    output_all-append o [] after = refl
    output_all-append o (m ∷ before) after = output_all-append (output e w o m) before after

    Writes-trans :
        (n n' : ℕ) (o o' o'' : Output S) → Writes n o o' → Writes n' o' o'' → Writes (n + n') o o''
    Writes-trans n n' o o' o'' x y = record {
      moves = x.moves ++ y.moves;
      lead =
          y.lead
          ∙ ap (λ s. serve_all w s y.moves) x.lead
          ∙ sym (serve_all-append w o.proxy x.moves y.moves);
      lines = All-append (MovesOnly IsPrinted) x.moves y.moves x.lines y.lines;
      few = omega (arith, write_count-append x.moves y.moves, x.few, y.few);
      clean = y.clean;
    }

    -- The steps behind `before`.
    pub rest-Writes :
        (before after : List (OutputMove Info))
        → all ≡ before ++ after
        → let o = output_all e w start before in
          IsClean o.pool → Writes (log_count after) o (output_all e w o after)
    unfolding output_all serve_all
    rest-Writes before [] here clean = record {
      moves = [];
      lead = refl;
      lines = tt;
      few = omega arith;
      clean = clean;
    }
    rest-Writes before (m ∷ after) here clean =
        let o = output_all e w start before in
        let one = output-Writes before after m here clean in
        let snoc = output_all-append start before (m ∷ []) in
        let more =
          rest-Writes (before ++ m ∷ []) after (here ∙ sym (append_assoc before (m ∷ []) after))
            (subst (λ x. IsClean x.pool) (sym snoc) one.clean) in
        Writes-trans (logs_of m) (log_count after) o (output e w o m) _ one
          (subst (λ x. Writes (log_count after) x (output_all e w x after)) snoc more)
