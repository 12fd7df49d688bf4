-- ===== src/Logger/Printing.antt =====
-- The console line of a logging call: `str` and `logStringer` of logger/simple_logger.go, the
-- encoders that `getConsoleCore` of logger/logger.go sets up, and logger/encoder/console_encoder.go below
-- them. What zap makes of a call is a parameter.
pub mod Printed
pub mod Shape
use vlgo.Shared.{Bool, true, List, [], ◌∷◌, ◌++◌, some, if◌then◌else◌, ℤ, Text, bytes, decimal}
use vlgo.Console.{
  SliceArrayEncoder, append_string, my_caller_encode, Level, Levels, my_level_encoder,
  my_color_level_encoder,
}
use vlgo.Console.Line.{Pool, EncoderConfig, LogEntry, encode_entry}

-- `logStringer`.
pub record LogStringer (Info : Type 0) : Type 0 where
  pub go_id : ℤ
  pub fmts : Text
  pub infos : List Info

-- `str`, in the goroutine `goid.Get()`.
unfoldable pub str : {Info : Type 0} → ℤ → Text → List Info → LogStringer Info
str go_id fmts infos = record { go_id = go_id; fmts = fmts; infos = infos }

-- `String`, over `fmt.Sprintf`. The first format has one verb, for a number.
unfoldable pub string_of : {Info : Type 0} → (Text → List Info → Text) → LogStringer Info → Text
string_of sprintf v = (bytes "[Go #" ++ (decimal v.go_id ++ bytes "] ")) ++ sprintf v.fmts v.infos

-- What a method of `SimpleLogger` passes to zap's as the message.
abbrev pub message : Text → Text → Text
message sys tag = sys ++ (bytes "#" ++ tag)

-- The layout of the time.
abbrev pub layout : Text
layout = bytes "2006-01-02 15:04:05.000"

-- The `EncodeTime` of the console, over the method `Format` of a time.
unfoldable pub encode_time :
    {Time : Type 0} → (Time → Text → Text) → Time → SliceArrayEncoder → SliceArrayEncoder
encode_time format t enc =
    append_string (bytes "]") (append_string (format t layout) (append_string (bytes "[") enc))

-- The configuration that `getConsoleCore` makes of zap's `production` one; `table` is
-- `_levelToCapitalColorString`.
unfoldable pub console_config :
    {Time : Type 0}
    → Levels
    → List (Level × Text)
    → (Time → Text → Text)
    → EncoderConfig Time
    → Bool
    → EncoderConfig Time
unfolding encode_time my_level_encoder my_color_level_encoder my_caller_encode
console_config zap table format production color_level = record production {
  encode_time = some (encode_time format);
  encode_level =
      some (if color_level then my_color_level_encoder zap table else my_level_encoder zap);
  encode_caller = some my_caller_encode;
}

-- `stringer` is zap's constructor of a field, `enter` the entry that zap makes for a level and a message, and
-- `context` the JSON text of fields.
module _ {Time Field Info : Type 0} (zap : Levels) (table : List (Level × Text))
    (format : Time → Text → Text) (production : EncoderConfig Time)
    (full_name_encoder : Text → SliceArrayEncoder → SliceArrayEncoder) (default_line_ending : Text)
    (stringer : Text → LogStringer Info → Field) (enter : Level → Text → LogEntry Time)
    (context : List Field → Text) where
  -- The line that the console core makes of a call of a method of the level.
  unfoldable pub console_text : Level → Text → Text → ℤ → Text → List Info → Pool → Text × Pool
  unfolding str console_config encode_entry
  console_text level sys tag go_id fmts infos pool =
      encode_entry full_name_encoder default_line_ending context
        (console_config zap table format production true) (enter level (message sys tag))
        (stringer (bytes "m") (str go_id fmts infos) ∷ []) pool
