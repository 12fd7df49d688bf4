-- ===== src/Console/Line.antt =====
-- `EncodeEntry` of logger/encoder/console_encoder.go: the text of one log entry. The configuration's
-- encoders, and the JSON text of the fields, are parameters.
use vlgo.Shared.{
  Bool, true, false, ◌&&◌, not, List, [], ◌∷◌, ◌++◌, Option, none, some, if◌then◌else◌, Text, bytes,
}
use vlgo.Console.{Elem, SliceArrayEncoder, print, EntryCaller, Level, or_else}

-- `_sliceEncoderPool`: which encoder a `Get` gives, if any, is up to the pool.
abbrev pub Pool : Type 0
Pool = List SliceArrayEncoder

unfoldable pub get_slice_encoder : Pool → SliceArrayEncoder × Pool
get_slice_encoder [] = ([], [])
get_slice_encoder (e ∷ p) = (e, p)

unfoldable pub put_slice_encoder : SliceArrayEncoder → Pool → Pool
put_slice_encoder e p = [] ∷ p

-- `zapcore.EncoderConfig`, with the time and the fields of an entry of any type.
pub record EncoderConfig (Time : Type 0) : Type 0 where
  pub level_key : Text
  pub time_key : Text
  pub name_key : Text
  pub caller_key : Text
  pub message_key : Text
  pub stacktrace_key : Text
  pub line_ending : Text
  pub encode_level : Option (Level → SliceArrayEncoder → SliceArrayEncoder)
  pub encode_time : Option (Time → SliceArrayEncoder → SliceArrayEncoder)
  pub encode_name : Option (Text → SliceArrayEncoder → SliceArrayEncoder)
  pub encode_caller : Option (EntryCaller → SliceArrayEncoder → SliceArrayEncoder)

pub record LogEntry (Time : Type 0) : Type 0 where
  pub level : Level
  pub time : Time
  pub logger_name : Text
  pub caller : EntryCaller
  pub message : Text
  pub stack : Text

abbrev pub is_empty : {A : Type 0} → List A → Bool
is_empty [] = true
is_empty (x ∷ s) = false

-- `if key && encoder != nil { encoder(v, arr) }`.
abbrev pub encode_if :
    {A : Type 0}
    → Bool
    → Option (A → SliceArrayEncoder → SliceArrayEncoder)
    → A
    → SliceArrayEncoder
    → SliceArrayEncoder
encode_if has_key none v arr = arr
encode_if has_key (some enc) v arr = if has_key then enc v arr else arr

unfoldable pub add_tab_if_necessary : Text → Text
add_tab_if_necessary line = if is_empty line then line else line ++ bytes " "

abbrev pub print_all : List Elem → Text → Text
print_all [] line = line
print_all (e ∷ es) line = print_all es (line ++ print e)

-- `context` is the text of the fields with every namespace closed.
module _ {Field : Type 0} (context : List Field → Text) where
  unfoldable pub write_context : List Field → Text → Text
  unfolding add_tab_if_necessary
  write_context extra line =
      if is_empty (context extra)
      then line
      else add_tab_if_necessary line ++ (bytes "{" ++ (context extra ++ bytes "}"))

-- The elements of the level, the time, the name and the caller.
abbrev pub encode_meta :
    {Time : Type 0}
    → (Text → SliceArrayEncoder → SliceArrayEncoder)
    → EncoderConfig Time
    → LogEntry Time
    → SliceArrayEncoder
    → SliceArrayEncoder
encode_meta full_name_encoder c ent arr =
    encode_if (ent.caller.defined && not (is_empty c.caller_key)) c.encode_caller ent.caller (
      encode_if (not (is_empty ent.logger_name) && not (is_empty c.name_key))
        (some (or_else full_name_encoder c.encode_name)) ent.logger_name
        (encode_if (not (is_empty c.time_key)) c.encode_time ent.time
          (encode_if (not (is_empty c.level_key)) c.encode_level ent.level arr)))

abbrev pub add_message : {Time : Type 0} → EncoderConfig Time → LogEntry Time → Text → Text
add_message c ent line =
    if is_empty c.message_key then line else add_tab_if_necessary line ++ ent.message

abbrev pub add_stack : {Time : Type 0} → EncoderConfig Time → LogEntry Time → Text → Text
add_stack c ent line =
    if not (is_empty ent.stack) && not (is_empty c.stacktrace_key)
    then line ++ (bytes "\n" ++ ent.stack)
    else line

abbrev pub add_line_ending : {Time : Type 0} → Text → EncoderConfig Time → Text → Text
add_line_ending default_line_ending c line =
    line ++ (if is_empty c.line_ending then default_line_ending else c.line_ending)

-- `full_name_encoder` and `default_line_ending` are zapcore's.
module _ {Time Field : Type 0} (full_name_encoder : Text → SliceArrayEncoder → SliceArrayEncoder)
    (default_line_ending : Text) (context : List Field → Text) where
  unfoldable pub encode_entry : EncoderConfig Time → LogEntry Time → List Field → Pool → Text × Pool
  unfolding get_slice_encoder put_slice_encoder print add_tab_if_necessary write_context
  encode_entry c ent fields pool =
      let (arr, pool') = get_slice_encoder pool in
      let arr' = encode_meta full_name_encoder c ent arr in
      let line = print_all arr' [] in
      let line' = write_context context fields (add_message c ent line) in
      (add_line_ending default_line_ending c (add_stack c ent line'), put_slice_encoder arr' pool')
