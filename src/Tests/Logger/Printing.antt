-- ===== src/Tests/Logger/Printing.antt =====
-- The line of one logging call, with arguments that are texts and a time that prints as its number of hours.
use vlgo.Shared.{ℕ, ◌≡◌, refl, List, [], ◌∷◌, ◌++◌, none, pos, Text, bytes, decimal}
use vlgo.Console.{
  append_string, add, code_of, print, Level, my_level_string, my_level_encoder,
  my_color_level_encoder, init_colors, my_caller_encode,
}
use vlgo.Console.Line.{
  Pool, EncoderConfig, LogEntry, encode_entry, get_slice_encoder, write_context,
  add_tab_if_necessary,
}
use vlgo.Logger.Printing.{LogStringer, str, string_of, encode_time, console_config, console_text}
use vlgo.Logger.Printing.Printed.{Prints, console_text_lem}
use vlgo.Tests.Console.{zap, main_go, walk, walk-IsWalk, two_errors}

abbrev pub sprintf : Text → List Text → Text
sprintf fmts [] = fmts
sprintf fmts (info ∷ infos) = sprintf (fmts ++ info) infos

abbrev pub hours : ℕ → Text → Text
hours t layout = decimal (pos t)

abbrev pub pair : Text → Text → Text
pair key t = bytes "\"" ++ (key ++ (bytes "\": \"" ++ (t ++ bytes "\"")))

abbrev pub stringer : Text → LogStringer Text → Text × LogStringer Text
stringer key v = (key, v)

unfoldable pub context : List (Text × LogStringer Text) → Text
unfolding string_of
context [] = []
context ((key, v) ∷ fs) = pair key (string_of sprintf v)

abbrev pub enter : Level → Text → LogEntry ℕ
enter l msg = record {
  level = l;
  time = 12;
  logger_name = [];
  caller = main_go;
  message = msg;
  stack = [];
}

abbrev pub production : EncoderConfig ℕ
production = record {
  level_key = bytes "level";
  time_key = bytes "ts";
  name_key = bytes "logger";
  caller_key = bytes "caller";
  message_key = bytes "msg";
  stacktrace_key = bytes "stacktrace";
  line_ending = bytes "\n";
  encode_level = none;
  encode_time = none;
  encode_name = none;
  encode_caller = none;
}

abbrev printed : Text × Pool
printed =
    console_text zap (init_colors zap walk []) hours production append_string (bytes "\n") stringer
      enter context (pos 0) (bytes "Gen") (bytes "Actor") (pos 7) (bytes "stopped ")
      (bytes "bob" ∷ []) two_errors

-- The line of an info message in the goroutine 7.
info_line :
    printed.0
    ≡ bytes
        "\u{1b}[36mINFO\u{1b}[0m[12]main.go:142 main.Run() Gen#Actor {\"m\": \"[Go #7] stopped bob\"}\n"
unfolding console_text str string_of context encode_time console_config encode_entry
    my_caller_encode get_slice_encoder write_context add_tab_if_necessary print add code_of
    my_level_string my_level_encoder my_color_level_encoder init_colors
info_line = refl

console_text_lem_example :
    Prints zap walk hours production append_string
      (bytes "\n")
      context
      (enter (pos 0) (bytes "Gen#Actor"))
      (pos 0)
      (bytes "Gen#Actor")
      (pair (bytes "m") (bytes "[Go #7] stopped bob"))
      printed
unfolding context
console_text_lem_example =
    console_text_lem zap walk hours production append_string (bytes "\n") sprintf stringer enter
      context pair (pos 0) (bytes "Gen") (bytes "Actor") (pos 7) (bytes "stopped ")
      (bytes "bob" ∷ []) two_errors walk-IsWalk
      (record {
        level_key_set = refl;
        time_key_set = refl;
        caller_key_set = refl;
        message_key_set = refl;
      })
      (λ l msg. record {
        has_level_of = refl;
        has_message = refl;
        unnamed = refl;
        without_stack = refl;
        with_caller = refl;
      })
      (λ key v. refl) (λ key t. refl) (refl, (refl, tt))
