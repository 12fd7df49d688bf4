-- ===== src/Console.antt =====
-- logger/encoder/console_encoder.go: the elements that the encoders of an entry's caller and level
-- append. The methods of zap's types are parameters.
pub mod Caller
pub mod Colors
pub mod Line
pub mod Entry
use Prim.Native.String.{String}
use vlgo.Shared.{
  ℕ, suc, ◌+◌, Bool, true, false, ◌&&◌, not, List, [], ◌∷◌, ◌++◌, Option, none, some, if◌then◌else◌,
  ℤ, pos, eq_ℤ, length, drop, ltb, Text, bytes, decimal, last_index, ◌==◌,
}

-- What stands in `elems`, of the types that this program appends, and others by their printed form.
pub data Elem : Type 0 where
  text : Text → Elem
  int64 : ℤ → Elem
  printed_as : Text → Elem

-- `sliceArrayEncoder`.
abbrev pub SliceArrayEncoder : Type 0
SliceArrayEncoder = List Elem

abbrev pub append_string : Text → SliceArrayEncoder → SliceArrayEncoder
append_string v elems = elems ++ text v ∷ []

abbrev pub append_int64 : ℤ → SliceArrayEncoder → SliceArrayEncoder
append_int64 v elems = elems ++ int64 v ∷ []

-- `fmt.Fprint` of one element.
unfoldable pub print : Elem → Text
print (text t) = t
print (int64 n) = decimal n
print (printed_as t) = t

-- `zapcore.EntryCaller`, its method `FullPath`, and `runtime.FuncForPC(caller.PC).Name()`.
pub record EntryCaller : Type 0 where
  pub defined : Bool
  pub file : Text
  pub line : ℤ
  pub full_path : Text
  pub func_name : Text

abbrev pub caller_place : EntryCaller → Option ℕ → SliceArrayEncoder → SliceArrayEncoder
caller_place caller none elems = append_string caller.full_path elems
caller_place caller (some i) elems = append_string (bytes " ") (
    append_int64 caller.line
      (append_string (bytes ":") (append_string (drop (suc i) caller.file) elems)))

abbrev pub caller_func : EntryCaller → Option ℕ → SliceArrayEncoder → SliceArrayEncoder
caller_func caller none elems = append_string (bytes "()") (append_string caller.func_name elems)
caller_func caller (some i) elems =
    append_string (bytes "()") (append_string (drop (suc i) caller.func_name) elems)

unfoldable pub my_caller_encode : EntryCaller → SliceArrayEncoder → SliceArrayEncoder
my_caller_encode caller elems = caller_func caller (last_index b'/' caller.func_name) (
    if caller.defined
    then caller_place caller (last_index b'/' caller.file) elems
    else append_string (bytes "undefined") elems)

-- `Color`, by its number.
pub data Color : Type 0 where
  black red green yellow blue magenta cyan white : Color

unfoldable pub code_of : Color → ℕ
code_of black = 30
code_of red = 31
code_of green = 32
code_of yellow = 33
code_of blue = 34
code_of magenta = 35
code_of cyan = 36
code_of white = 37

-- `Color.Add`.
unfoldable pub add : Color → Text → Text
add c s = bytes "\u{1b}[" ++ (decimal (pos (code_of c)) ++ (bytes "m" ++ (s ++ bytes "\u{1b}[0m")))

abbrev pub Level : Type 0
Level = ℤ

-- zapcore's constants.
pub record Levels : Type 0 where
  pub debug_level : Level
  pub info_level : Level
  pub warn_level : Level
  pub error_level : Level
  pub dpanic_level : Level
  pub panic_level : Level
  pub fatal_level : Level

-- A map as an association list: a write, and a lookup.
abbrev pub store : {A : Type 0} → Level → A → List (Level × A) → List (Level × A)
store k v m = (k, v) ∷ m

abbrev pub find : {A : Type 0} → Level → List (Level × A) → Option A
find k [] = none
find k ((j, v) ∷ m) = if eq_ℤ j k then some v else find k m

abbrev pub or_else : {A : Type 0} → A → Option A → A
or_else d none = d
or_else d (some a) = a

abbrev pub unknown_level_color : Color
unknown_level_color = red

module _ (zap : Levels) where
  -- The cases of the `switch`.
  abbrev pub level_names : List (Level × Text)
  level_names =
      (zap.debug_level, bytes "DEBU")
      ∷ (zap.info_level, bytes "INFO")
      ∷ (zap.warn_level, bytes "WARN")
      ∷ (zap.error_level, bytes "ERRO")
      ∷ (zap.dpanic_level, bytes "DPAN")
      ∷ (zap.panic_level, bytes "PANI")
      ∷ (zap.fatal_level, bytes "FATA")
      ∷ []

  unfoldable pub my_level_string : Level → Text
  my_level_string l = or_else (bytes "Level(" ++ (decimal l ++ bytes ")")) (find l level_names)

  unfoldable pub my_level_encoder : Level → SliceArrayEncoder → SliceArrayEncoder
  unfolding my_level_string
  my_level_encoder l elems = append_string (my_level_string l) elems

  -- `_levelToColor`; the order in which `range` walks it is not fixed.
  unfoldable pub level_to_color : List (Level × Color)
  level_to_color =
      (zap.debug_level, white)
      ∷ (zap.info_level, cyan)
      ∷ (zap.warn_level, yellow)
      ∷ (zap.error_level, red)
      ∷ (zap.dpanic_level, red)
      ∷ (zap.panic_level, red)
      ∷ (zap.fatal_level, red)
      ∷ []

  -- `init`, on the entries in the order of the walk.
  unfoldable pub init_colors : List (Level × Color) → List (Level × Text) → List (Level × Text)
  unfolding add my_level_string
  init_colors [] m = m
  init_colors ((level, color) ∷ es) m =
      init_colors es (store level (add color (my_level_string level)) m)

  -- `MyColorLevelEncoder`, on the table `_levelToCapitalColorString`.
  unfoldable pub my_color_level_encoder :
      List (Level × Text) → Level → SliceArrayEncoder → SliceArrayEncoder
  unfolding add my_level_string
  my_color_level_encoder m l elems =
      append_string (or_else (add unknown_level_color (my_level_string l)) (find l m)) elems
