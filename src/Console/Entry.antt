-- ===== src/Console/Entry.antt =====
-- What `EncodeEntry` makes of an entry, and what it leaves in the pool.
use vlgo.Shared.{
  ◌≡◌, refl, sym, ap, ◌∙◌, inl, inr, ◌&&◌, not, List, [], ◌∷◌, ◌++◌, append_assoc, append-nil,
  if◌then◌else◌, Text, bytes, All, Bool-cases, Bool, true, false, Option, none, some,
}
use vlgo.Console.{or_else, Elem, SliceArrayEncoder, print}
use vlgo.Console.Line.{
  Pool, get_slice_encoder, put_slice_encoder, EncoderConfig, LogEntry, is_empty,
  add_tab_if_necessary, print_all, write_context, encode_if, encode_meta, encode_entry,
  add_line_ending, add_stack, add_message,
}

-- Every encoder in the pool is empty.
abbrev pub IsClean : Pool → Type 0
IsClean pool = All (λ e. e ≡ []) pool

abbrev pub print_list : List Elem → Text
print_list [] = []
print_list (e ∷ es) = print e ++ print_list es

pub print_list-append : (xs ys : List Elem) → print_list (xs ++ ys) ≡ print_list xs ++ print_list ys
print_list-append [] ys = refl
print_list-append (x ∷ xs) ys =
    ap (λ t. print x ++ t) (print_list-append xs ys)
    ∙ sym (append_assoc (print x) (print_list xs) (print_list ys))

print_all_lem : (es : List Elem) (line : Text) → print_all es line ≡ line ++ print_list es
print_all_lem [] line = sym (append-nil line)
print_all_lem (e ∷ es) line =
    print_all_lem es (line ++ print e) ∙ append_assoc line (print e) (print_list es)

-- A text behind another one, with a space between them if the first one is not empty.
abbrev pub spaced : Text → Text → Text
spaced line t = (if is_empty line then line else line ++ bytes " ") ++ t

-- An encoder appends to what is there, as zapcore's and those of the program do.
abbrev pub Appends : {A : Type 0} → (A → SliceArrayEncoder → SliceArrayEncoder) → Type 0
Appends {A} enc = (v : A) (arr : SliceArrayEncoder) → enc v arr ≡ arr ++ enc v []

abbrev pub AppendsIf : {A : Type 0} → Option (A → SliceArrayEncoder → SliceArrayEncoder) → Type 0
AppendsIf none = Unit
AppendsIf (some enc) = Appends enc

-- What an encoder prints by itself, where there is one and its key is set.
abbrev pub piece :
    {A : Type 0} → Bool → Option (A → SliceArrayEncoder → SliceArrayEncoder) → A → Text
piece has_key none v = []
piece has_key (some enc) v = if has_key then print_list (enc v []) else []

print_list-encode_if :
    {A : Type 0} (has_key : Bool) (o : Option (A → SliceArrayEncoder → SliceArrayEncoder)) (v : A)
    (arr : SliceArrayEncoder)
    → AppendsIf o
    → print_list (encode_if has_key o v arr) ≡ print_list arr ++ piece has_key o v
print_list-encode_if has_key none v arr a = sym (append-nil (print_list arr))
print_list-encode_if false (some enc) v arr a = sym (append-nil (print_list arr))
print_list-encode_if true (some enc) v arr a =
    ap print_list (a v arr) ∙ print_list-append arr (enc v [])

module _ {Time Field : Type 0} (full_name_encoder : Text → SliceArrayEncoder → SliceArrayEncoder)
    (default_line_ending : Text) (context : List Field → Text) (c : EncoderConfig Time)
    (ent : LogEntry Time) (fields : List Field) where
  -- The line, piece by piece.
  abbrev pub meta : Text
  meta = print_list (encode_meta full_name_encoder c ent [])

  abbrev pub with_message : Text
  with_message = if is_empty c.message_key then meta else spaced meta ent.message

  abbrev pub with_context : Text
  with_context =
      if is_empty (context fields)
      then with_message
      else spaced with_message (bytes "{" ++ (context fields ++ bytes "}"))

  abbrev pub rest : Text
  rest =
      (if not (is_empty ent.stack) && not (is_empty c.stacktrace_key)
        then bytes "\n" ++ ent.stack
        else [])
      ++ (if is_empty c.line_ending then default_line_ending else c.line_ending)

  -- The text, from the elements that the encoder of the pool comes with.
  abbrev text_from : SliceArrayEncoder → Text
  text_from arr = add_line_ending default_line_ending c (
      add_stack c ent (
        write_context context fields
          (add_message c ent (print_all (encode_meta full_name_encoder c ent arr) []))))

  ends_lem :
      (line : Text) → add_line_ending default_line_ending c (add_stack c ent line) ≡ line ++ rest
  ends_lem line = elim (Bool-cases (not (is_empty ent.stack) && not (is_empty c.stacktrace_key))) [
    | inl on ↦ rw on (append_assoc line (bytes "\n" ++ ent.stack) _)
    | inr off ↦ rw off refl
  ]

  text_from_lem : text_from [] ≡ with_context ++ rest
  unfolding write_context add_tab_if_necessary
  text_from_lem =
      ends_lem _
      ∙ ap (λ line. write_context context fields (add_message c ent line) ++ rest)
          (print_all_lem (encode_meta full_name_encoder c ent []) [])

  -- With only empty encoders in the pool, the text of an entry is the printed level, time, name and
  -- caller without anything between them, the message, and the fields in braces, where the message and
  -- the braces have a space before them exactly if something stands before them; then the stack trace on
  -- a line of its own, and the line's end. The pool is left with empty encoders only.
  pub encode_entry_lem :
      (pool : Pool)
      → IsClean pool
      → ((encode_entry full_name_encoder default_line_ending context c ent fields pool).0
          ≡ with_context ++ rest)
        × IsClean (encode_entry full_name_encoder default_line_ending context c ent fields pool).1
  unfolding encode_entry get_slice_encoder put_slice_encoder
  encode_entry_lem [] clean = (text_from_lem, (refl, tt))
  encode_entry_lem (e ∷ pool) clean = (ap text_from clean.0 ∙ text_from_lem, (refl, clean.1))

  -- The four pieces that stand before the message, each printed by its own encoder.
  abbrev pub level_text : Text
  level_text = piece (not (is_empty c.level_key)) c.encode_level ent.level

  abbrev pub time_text : Text
  time_text = piece (not (is_empty c.time_key)) c.encode_time ent.time

  abbrev pub name_text : Text
  name_text =
      piece (not (is_empty ent.logger_name) && not (is_empty c.name_key))
        (some (or_else full_name_encoder c.encode_name)) ent.logger_name

  abbrev pub caller_text : Text
  caller_text = piece (ent.caller.defined && not (is_empty c.caller_key)) c.encode_caller ent.caller

  -- The line, from what stands before the message on.
  abbrev pub line_behind : Text → Text
  line_behind head =
      let said = if is_empty c.message_key then head else spaced head ent.message in
      (if is_empty (context fields)
        then said
        else spaced said (bytes "{" ++ (context fields ++ bytes "}")))
      ++ rest

  meta-pieces :
      AppendsIf c.encode_level
      → AppendsIf c.encode_time
      → Appends (or_else full_name_encoder c.encode_name)
      → AppendsIf c.encode_caller
      → meta ≡ level_text ++ (time_text ++ (name_text ++ caller_text))
  meta-pieces by_level by_time by_name by_caller =
      print_list-encode_if _ c.encode_caller ent.caller _ by_caller
      ∙ ap (λ t. t ++ caller_text)
          (print_list-encode_if _ (some (or_else full_name_encoder c.encode_name)) ent.logger_name _
              by_name
            ∙ ap (λ t. t ++ name_text)
                (print_list-encode_if _ c.encode_time ent.time _ by_time
                  ∙ ap (λ t. t ++ time_text)
                      (print_list-encode_if _ c.encode_level ent.level [] by_level)))
      ∙ simp append_assoc

  -- With encoders that append, and only empty encoders in the pool: the text of an entry is what the level's, the
  -- time's, the name's and the caller's encoder print by themselves, in this order and with nothing between
  -- them, each left out where its key is not set, it has no encoder, or there is no name or no caller; then the
  -- message and the fields in braces, where each has a space before it exactly if something stands before
  -- it; then the stack trace on a line of its own, and the line's end. The pool is left with empty encoders only.
  pub encode_entry-pieces :
      (pool : Pool)
      → IsClean pool
      → AppendsIf c.encode_level
      → AppendsIf c.encode_time
      → Appends (or_else full_name_encoder c.encode_name)
      → AppendsIf c.encode_caller
      → let made = encode_entry full_name_encoder default_line_ending context c ent fields pool in
        (made.0 ≡ line_behind (level_text ++ (time_text ++ (name_text ++ caller_text))))
        × IsClean made.1
  encode_entry-pieces pool clean by_level by_time by_name by_caller =
      let (line, after) = encode_entry_lem pool clean in
      (line ∙ ap line_behind (meta-pieces by_level by_time by_name by_caller), after)
