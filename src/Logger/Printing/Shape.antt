-- ===== src/Logger/Printing/Shape.antt =====
-- The shape of a console line of logger/encoder/console_encoder.go with getConsoleCore's encoders (logger/logger.go):
-- its head, its message and its fields, spaced.
use vlgo.Shared.{
  ◌≡◌, refl, ap, ◌∙◌, false, List, [], ◌∷◌, ◌++◌, append_assoc, Text, bytes, if◌then◌else◌,
}
use vlgo.Console.{
  Elem, text, print, Level, Levels, add, find, or_else, unknown_level_color, my_level_string,
  level_to_color,
}
use vlgo.Console.Line.{EncoderConfig, is_empty}
use vlgo.Console.Entry.{print_list, print_list-append, spaced}

spaced_lem : (line t : Text) → is_empty line ≡ false → spaced line t ≡ line ++ (bytes " " ++ t)
spaced_lem line t some_text = rw some_text (append_assoc line (bytes " ") t)

is_empty-append : (s t : Text) → is_empty s ≡ false → is_empty (s ++ t) ≡ false
is_empty-append [] t full = absurd (cc)
is_empty-append (x ∷ s) t e = refl

abbrev pub ending : {Time : Type 0} → Text → EncoderConfig Time → Text
ending default_line_ending c = if is_empty c.line_ending then default_line_ending else c.line_ending

-- The name of a level in the colour that the table gives it, red without an entry.
abbrev pub coloured : Levels → Level → Text
coloured zap l =
    add (or_else unknown_level_color (find l (level_to_color zap))) (my_level_string zap l)

-- What stands before the message.
abbrev pub head_of : Text → Text → List Elem → Text → Text
head_of level time place short =
    level ++ (bytes "[" ++ (time ++ (bytes "]" ++ (print_list place ++ (short ++ bytes "()")))))

pub is_empty-head_of :
    (zap : Levels) (l : Level) (time : Text) (place : List Elem) (short : Text)
    → is_empty (head_of (coloured zap l) time place short) ≡ false
unfolding add
is_empty-head_of zap l time place short = refl

pub head_lem :
    (level time : Text) (place : List Elem) (short : Text)
    → print_list (
        text level
        ∷ text (bytes "[")
        ∷ text time
        ∷ text (bytes "]")
        ∷ (place ++ text short ∷ text (bytes "()") ∷ []))
      ≡ head_of level time place short
unfolding print
head_lem level time place short =
    ap (λ t. level ++ (bytes "[" ++ (time ++ (bytes "]" ++ t))))
      (print_list-append place (text short ∷ text (bytes "()") ∷ []))

-- A line with its message and its fields behind `head`.
abbrev pub whole_line : Text → Text → Text → Text → Text
whole_line head msg ctx end =
    head ++ (bytes " " ++ (msg ++ (bytes " {" ++ (ctx ++ (bytes "}" ++ end)))))

pub whole_line_lem :
    (head msg ctx end : Text)
    → is_empty head ≡ false
    → spaced (spaced head msg) (bytes "{" ++ (ctx ++ bytes "}")) ++ end
      ≡ whole_line head msg ctx end
whole_line_lem head msg ctx end some_text =
    ap (λ t. t ++ end)
      (ap (λ t. spaced t (bytes "{" ++ (ctx ++ bytes "}"))) (spaced_lem head msg some_text)
        ∙ spaced_lem _ _ (is_empty-append head _ some_text))
    ∙ simp append_assoc
