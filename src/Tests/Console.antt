-- ===== src/Tests/Console.antt =====
-- Lines of the console encoder, with the levels of zap.
use vlgo.Shared.{
  ℕ, ◌≡◌, ◌⊎◌, inl, inr, refl, Bool, true, false, ◌||◌, List, [], ◌∷◌, ◌++◌, none, some, pos,
  negsuc, eq_ℤ, Bool-cases, Text, bytes,
}
use vlgo.Console.{
  text, int64, append_string, print, EntryCaller, my_caller_encode, Level, Levels, Color, cyan, red,
  white, yellow, add, code_of, find, or_else, unknown_level_color, my_level_string, level_to_color,
}
use vlgo.Console.Line.{
  Pool, EncoderConfig, LogEntry, encode_entry, get_slice_encoder, write_context,
  add_tab_if_necessary,
}
use vlgo.Console.Colors.{has_level, IsWalk}
use vlgo.Console.Entry.{
  IsClean, line_behind, level_text, time_text, name_text, caller_text, encode_entry-pieces,
}
use vlgo.Console.Caller.{my_caller_encode-append}

abbrev pub zap : Levels
zap = record {
  debug_level = negsuc 0;
  info_level = pos 0;
  warn_level = pos 1;
  error_level = pos 2;
  dpanic_level = pos 3;
  panic_level = pos 4;
  fatal_level = pos 5;
}

abbrev pub main_go : EntryCaller
main_go = record {
  defined = true;
  file = bytes "/home/vlgo/main.go";
  line = pos 142;
  full_path = bytes "/home/vlgo/main.go:142";
  func_name = bytes "vlgo/main.Run";
}

-- Only the file's name is kept, without the directory that it stands in.
called_from :
    my_caller_encode main_go []
    ≡ text (bytes "main.go")
      ∷ text (bytes ":")
      ∷ int64 (pos 142)
      ∷ text (bytes " ")
      ∷ text (bytes "main.Run")
      ∷ text (bytes "()")
      ∷ []
unfolding my_caller_encode
called_from = refl

-- The info level is cyan.
info_color :
    add
      (or_else unknown_level_color (find (pos 0) (level_to_color zap)))
      (my_level_string zap (pos 0))
    ≡ 27 ∷ bytes "[36mINFO" ++ 27 ∷ bytes "[0m"
unfolding add code_of my_level_string level_to_color
info_color = refl

abbrev pub two_errors : Pool
two_errors = [] ∷ [] ∷ []

abbrev config : EncoderConfig ℕ
config = record {
  level_key = bytes "level";
  time_key = bytes "ts";
  name_key = bytes "logger";
  caller_key = bytes "caller";
  message_key = bytes "msg";
  stacktrace_key = bytes "stacktrace";
  line_ending = bytes "\n";
  encode_level = some (λ l arr. append_string (bytes "INFO") arr);
  encode_time = some (λ t arr. append_string (bytes "[noon]") arr);
  encode_name = none;
  encode_caller = some my_caller_encode;
}

abbrev entry : LogEntry ℕ
entry = record {
  level = pos 0;
  time = 12;
  logger_name = [];
  caller = main_go;
  message = bytes "Gen#Call";
  stack = [];
}

abbrev line : Text × Pool
line =
    encode_entry append_string (bytes "\n") (λ (fs : List Text). bytes "\"m\": 1") config entry []
      two_errors

encoded : line.0 ≡ bytes "INFO[noon]main.go:142 main.Run() Gen#Call {\"m\": 1}\n"
unfolding encode_entry my_caller_encode get_slice_encoder write_context add_tab_if_necessary print
encoded = refl

abbrev context : List Text → Text
context fs = bytes "\"m\": 1"

encode_entry-pieces_example :
    (line.0
      ≡ line_behind append_string (bytes "\n") context config entry [] (
          level_text append_string (bytes "\n") context config entry []
          ++ (time_text append_string (bytes "\n") context config entry []
              ++ (name_text append_string (bytes "\n") context config entry []
                  ++ caller_text append_string (bytes "\n") context config entry []))))
    × IsClean line.1
encode_entry-pieces_example =
    encode_entry-pieces append_string (bytes "\n") context config entry [] two_errors
      (refl, (refl, tt)) (λ l arr. refl) (λ t arr. refl) (λ name arr. refl) my_caller_encode-append

find-has_level :
    (l : Level) (es : List (Level × Color))
    → (find l es ≡ none) ⊎ ((c : Color) × (find l es ≡ some c) × (has_level l es ≡ true))
find-has_level l [] = inl refl
find-has_level l ((k, c) ∷ es) = elim (Bool-cases (eq_ℤ k l)) [
  | inl here ↦ inr (c, rw here refl, rw here refl)
  | inr other ↦ elim (find-has_level l es) [
    | inl unknown ↦ inl (rw other unknown)
    | inr (d, e, has) ↦ inr (d, rw other e, rw other has)
  ]
]

-- A walk over the map that begins with its second entry.
abbrev others : List (Level × Color)
others =
    (zap.warn_level, yellow)
    ∷ (zap.error_level, red)
    ∷ (zap.dpanic_level, red)
    ∷ (zap.panic_level, red)
    ∷ (zap.fatal_level, red)
    ∷ []

abbrev pub walk : List (Level × Color)
walk = (zap.info_level, cyan) ∷ (zap.debug_level, white) ∷ others

swapped : (a b c : Bool) → (a || (b || c)) ≡ true → (b || (a || c)) ≡ true
swapped true true c e = refl
swapped true false c e = refl
swapped false true c e = refl
swapped false false c e = e

pub walk-IsWalk : IsWalk zap walk
unfolding level_to_color
walk-IsWalk = record {
  sound = (refl, (refl, (refl, (refl, (refl, (refl, (refl, tt)))))));
  complete = λ l. elim (find-has_level l (level_to_color zap)) [
    | inl unknown ↦ inl unknown
    | inr (c, e, has) ↦
        inr
          (c, e, swapped (eq_ℤ zap.debug_level l) (eq_ℤ zap.info_level l) (has_level l others) has)
  ];
}
