-- ===== src/Logger/Printing/Printed.antt =====
-- The whole line that the console core makes of a logging call.
use vlgo.Shared.{
  ◌≡◌, refl, ap, ◌∙◌, true, false, List, [], ◌∷◌, ◌++◌, append_assoc, ℤ, decimal, Text, bytes,
}
use vlgo.Console.{
  Elem, print, SliceArrayEncoder, append_string, my_caller_encode, Level, Levels, Color,
  init_colors, my_color_level_encoder,
}
use vlgo.Console.Line.{Pool, EncoderConfig, LogEntry, encode_meta, encode_entry, is_empty}
use vlgo.Console.Caller.{Place, IsShort, my_caller_encode_lem}
use vlgo.Console.Colors.{IsWalk, my_color_level_encoder_lem}
use vlgo.Console.Entry.{IsClean, print_list, meta, with_context, rest, encode_entry_lem}
use vlgo.Logger.Printing.{
  LogStringer, str, string_of, message, layout, encode_time, console_config, console_text,
}
use vlgo.Logger.Printing.Shape.{
  ending, coloured, head_of, is_empty-head_of, head_lem, whole_line, whole_line_lem,
}

-- What the program uses of zap's production configuration: none of these keys is left out.
pub record HasKeys {Time : Type 0} (c : EncoderConfig Time) : Type 0 where
  pub level_key_set : is_empty c.level_key ≡ false
  pub time_key_set : is_empty c.time_key ≡ false
  pub caller_key_set : is_empty c.caller_key ≡ false
  pub message_key_set : is_empty c.message_key ≡ false

-- The entry of a logger made with the caller, without a name and without stack traces.
pub record IsEntry {Time : Type 0} (level : Level) (msg : Text) (ent : LogEntry Time) : Type 0 where
  pub has_level_of : ent.level ≡ level
  pub has_message : ent.message ≡ msg
  pub unnamed : ent.logger_name ≡ []
  pub without_stack : ent.stack ≡ []
  pub with_caller : ent.caller.defined ≡ true

module _ {Time Field : Type 0} (zap : Levels) (es : List (Level × Color))
    (format : Time → Text → Text) (production : EncoderConfig Time)
    (full_name_encoder : Text → SliceArrayEncoder → SliceArrayEncoder) (default_line_ending : Text)
    (context : List Field → Text) (ent : LogEntry Time) where
  abbrev config : EncoderConfig Time
  config = console_config zap (init_colors zap es []) format production true

  encode_meta_lem :
      HasKeys production
      → (ent.logger_name ≡ [])
      → (ent.caller.defined ≡ true)
      → encode_meta full_name_encoder config ent []
        ≡ my_caller_encode ent.caller (
            encode_time format ent.time
              (my_color_level_encoder zap (init_colors zap es []) ent.level []))
  unfolding console_config
  encode_meta_lem keys no_name called =
      rw keys.level_key_set (rw keys.time_key_set (rw keys.caller_key_set (rw no_name (rw called))))

  -- Everything that stands before a line's message.
  abbrev pub Head : Text → Type 0
  Head line =
      (place : List Elem) × (short : Text) × Place ent.caller place
      × IsShort ent.caller.func_name short
      × (line ≡ head_of (coloured zap ent.level) (format ent.time layout) place short)

  meta_lem :
      (fields : List Field)
      → IsWalk zap es
      → HasKeys production
      → (ent.logger_name ≡ [])
      → (ent.caller.defined ≡ true)
      → Head (meta full_name_encoder default_line_ending context config ent fields)
  unfolding encode_time print
  meta_lem fields walk keys no_name called =
      let arr = encode_time format ent.time (append_string (coloured zap ent.level) []) in
      let (place, short, is_place, is_short, e) = my_caller_encode_lem ent.caller arr in
      (
        place,
        short,
        is_place,
        is_short,
        ap print_list (
              encode_meta_lem keys no_name called
              ∙ ap (λ s. my_caller_encode ent.caller (encode_time format ent.time s))
                  (my_color_level_encoder_lem zap es ent.level [] walk)
              ∙ e)
            ∙ head_lem (coloured zap ent.level) (format ent.time layout) place short,
      )

  line_lem :
      (msg ctx : Text) (fields : List Field)
      → IsWalk zap es
      → HasKeys production
      → (ent.message ≡ msg)
      → (ent.logger_name ≡ [])
      → (ent.stack ≡ [])
      → (ent.caller.defined ≡ true)
      → (context fields ≡ ctx)
      → (is_empty ctx ≡ false)
      → (head : Text) × Head head
        × (with_context full_name_encoder default_line_ending context config ent fields
              ++ rest full_name_encoder default_line_ending context config ent fields
            ≡ whole_line head msg ctx (ending default_line_ending production))
  unfolding console_config
  line_lem msg ctx fields walk keys is_msg no_name no_stack called is_ctx some_ctx =
      let is_head = meta_lem fields walk keys no_name called in
      let (place, short, is_place, is_short, e) = is_head in
      let some_head =
        ap is_empty e ∙ is_empty-head_of zap ent.level (format ent.time layout) place short in
      let head = meta full_name_encoder default_line_ending context config ent fields in
      (
        head,
        is_head,
        rw is_ctx (rw some_ctx (rw keys.message_key_set (rw is_msg (rw no_stack refl))))
            ∙ whole_line_lem head msg ctx (ending default_line_ending production) some_head,
      )

  -- What is printed of the entry, and what is left of the pool.
  abbrev pub Prints : Level → Text → Text → Text × Pool → Type 0
  Prints level msg ctx printed =
      (place : List Elem) × (short : Text) × Place ent.caller place
      × IsShort ent.caller.func_name short
      × (printed.0
          ≡ whole_line (head_of (coloured zap level) (format ent.time layout) place short) msg ctx
              (ending default_line_ending production))
      × IsClean printed.1

  prints_lem :
      (level : Level) (msg ctx : Text) (fields : List Field) (pool : Pool)
      → IsWalk zap es
      → HasKeys production
      → IsEntry level msg ent
      → (context fields ≡ ctx)
      → (is_empty ctx ≡ false)
      → IsClean pool
      → Prints level msg ctx
          (encode_entry full_name_encoder default_line_ending context config ent fields pool)
  prints_lem level msg ctx fields pool walk keys entry is_ctx some_ctx clean =
      let (same, clean') =
        encode_entry_lem full_name_encoder default_line_ending context config ent fields pool
          clean in
      let (head, is_head, e) =
        line_lem msg ctx fields walk keys entry.has_message entry.unnamed entry.without_stack
          entry.with_caller is_ctx some_ctx in
      let (place, short, is_place, is_short, f) = is_head in
      (
        place,
        short,
        is_place,
        is_short,
        same
            ∙ e
            ∙ ap (λ h. whole_line h msg ctx (ending default_line_ending production)) f
            ∙ ap
                (λ l.
                  whole_line (head_of (coloured zap l) (format ent.time layout) place short) msg ctx
                    (ending default_line_ending production))
                entry.has_level_of,
        clean',
      )

-- What `String` makes of what `str` makes.
string_of-str :
    {Info : Type 0} (sprintf : Text → List Info → Text) (go_id : ℤ) (fmts : Text)
    (infos : List Info)
    → string_of sprintf (str go_id fmts infos)
      ≡ bytes "[Go #" ++ (decimal go_id ++ (bytes "] " ++ sprintf fmts infos))
unfolding str string_of
string_of-str sprintf go_id fmts infos =
    append_assoc (bytes "[Go #") (decimal go_id ++ bytes "] ") (sprintf fmts infos)
    ∙ ap (λ t. bytes "[Go #" ++ t) (append_assoc (decimal go_id) (bytes "] ") (sprintf fmts infos))

-- Of a call of a logging method that reaches the console core, the core's encoder makes the following
-- line, in whatever order `init` has walked its map, if the encoders in the pool are empty, zap's
-- configuration has its keys, its entry has the call's level and message, a caller and neither a name nor
-- a stack trace, and the JSON text of a stringer field is that of its String method's result and is not
-- empty: the level in its colour, the time in brackets, the caller's place, the function and a pair of
-- parentheses, a space, the system, "#" and the tag, a space, and in braces the text "[Go #", the
-- goroutine's number, "] " and the formatted arguments, as the field "m"; then the line's end. The pool is
-- left with empty encoders only.
pub console_text_lem :
    {Time Field Info : Type 0} (zap : Levels) (es : List (Level × Color))
    (format : Time → Text → Text) (production : EncoderConfig Time)
    (full_name_encoder : Text → SliceArrayEncoder → SliceArrayEncoder) (default_line_ending : Text)
    (sprintf : Text → List Info → Text) (stringer : Text → LogStringer Info → Field)
    (enter : Level → Text → LogEntry Time) (context : List Field → Text) (pair : Text → Text → Text)
    (level : Level) (sys tag : Text) (go_id : ℤ) (fmts : Text) (infos : List Info) (pool : Pool)
    → IsWalk zap es
    → HasKeys production
    → ((l : Level) (msg : Text) → IsEntry l msg (enter l msg))
    → ((key : Text) (v : LogStringer Info)
        → context (stringer key v ∷ []) ≡ pair key (string_of sprintf v))
    → ((key t : Text) → is_empty (pair key t) ≡ false)
    → IsClean pool
    → Prints zap es format production full_name_encoder default_line_ending context
        (enter level (message sys tag))
        level
        (sys ++ (bytes "#" ++ tag))
        (pair (bytes "m") (bytes "[Go #" ++ (decimal go_id ++ (bytes "] " ++ sprintf fmts infos))))
        (console_text zap
          (init_colors zap es [])
          format
          production
          full_name_encoder
          default_line_ending
          stringer
          enter
          context
          level
          sys
          tag
          go_id
          fmts
          infos
          pool)
unfolding console_text
console_text_lem zap es format production full_name_encoder default_line_ending sprintf stringer
      enter context pair level sys tag go_id fmts infos pool walk keys enters adds some_text clean =
    prints_lem zap es format production full_name_encoder default_line_ending context
      (enter level (message sys tag)) level (message sys tag) _ _ pool walk keys
      (enters level (message sys tag))
      (adds (bytes "m") (str go_id fmts infos)
        ∙ ap (pair (bytes "m")) (string_of-str sprintf go_id fmts infos))
      (some_text (bytes "m") _) clean
