-- ===== src/Console/Caller.antt =====
-- What `MyCallerEncode` appends for a caller.
use vlgo.Shared.{
  ℕ, suc, ◌≡◌, refl, sym, ap, ◌∙◌, ◌⊎◌, inl, inr, Bool, true, false, List, [], ◌∷◌, ◌++◌,
  append_assoc, Option, none, some, if◌then◌else◌, Text, bytes, take, drop, last_index,
  last_index_cut, Lacks, Bool-cases, Option-cases,
}
use vlgo.Console.{
  Elem, text, int64, SliceArrayEncoder, append_string, EntryCaller, caller_place, caller_func,
  my_caller_encode,
}

-- `base` is what stands behind the last slash of a path that has one.
abbrev pub HasBase : Text → Text → Type 0
HasBase path base = (dir : Text) × (path ≡ dir ++ b'/' ∷ base) × Lacks b'/' base

-- What stands for the place of the call.
pub data Place (caller : EntryCaller) (place : List Elem) : Type 0 where
  undefined : caller.defined ≡ false → place ≡ text (bytes "undefined") ∷ [] → Place caller place
  whole :
      caller.defined ≡ true
      → Lacks b'/' caller.file
      → place ≡ text caller.full_path ∷ []
      → Place caller place
  file_and_line :
      (base : Text)
      → caller.defined ≡ true
      → HasBase caller.file base
      → place ≡ text base ∷ text (bytes ":") ∷ int64 caller.line ∷ text (bytes " ") ∷ []
      → Place caller place

-- The name of a function behind its last slash.
abbrev pub IsShort : Text → Text → Type 0
IsShort name short = (Lacks b'/' name × (short ≡ name)) ⊎ HasBase name short

abbrev place_of : EntryCaller → Option ℕ → List Elem
place_of caller none = text caller.full_path ∷ []
place_of caller (some i) =
    text (drop (suc i) caller.file) ∷ text (bytes ":") ∷ int64 caller.line ∷ text (bytes " ") ∷ []

caller_place_lem :
    (caller : EntryCaller) (o : Option ℕ) (elems : SliceArrayEncoder)
    → caller_place caller o elems ≡ elems ++ place_of caller o
caller_place_lem caller none elems = refl
caller_place_lem caller (some i) elems = simp append_assoc

has_base : (s : Text) (i : ℕ) → last_index b'/' s ≡ some i → HasBase s (drop (suc i) s)
has_base s i e = let (cut, lacks) = last_index_cut b'/' s i e in (take i s, cut, lacks)

abbrev placed : EntryCaller → Bool → SliceArrayEncoder → SliceArrayEncoder
placed caller defined elems =
    if defined
    then caller_place caller (last_index b'/' caller.file) elems
    else append_string (bytes "undefined") elems

place_lem :
    (caller : EntryCaller) (elems : SliceArrayEncoder)
    → (place : List Elem) × Place caller place
      × (placed caller caller.defined elems ≡ elems ++ place)
place_lem caller elems = elim (Bool-cases caller.defined) [
  | inr off ↦ (text (bytes "undefined") ∷ [], undefined off refl, rw off)
  | inl on ↦ elim (Option-cases (last_index b'/' caller.file)) [
    | inl no_slash ↦ (text caller.full_path ∷ [], whole on no_slash refl, rw on (rw no_slash))
    | inr (i, slash) ↦ (
      place_of caller (some i),
      file_and_line (drop (suc i) caller.file) on (has_base caller.file i slash) refl,
      rw on (rw slash (caller_place_lem caller (some i) elems)),
    )
  ]
]

func_lem :
    (caller : EntryCaller) (elems : SliceArrayEncoder)
    → (short : Text) × IsShort caller.func_name short
      × (caller_func caller (last_index b'/' caller.func_name) elems
          ≡ elems ++ text short ∷ text (bytes "()") ∷ [])
func_lem caller elems = elim (Option-cases (last_index b'/' caller.func_name)) [
  | inl no_slash ↦ (caller.func_name, inl (no_slash, refl), rw no_slash (append_assoc elems _ _))
  | inr (i, slash) ↦ (
    drop (suc i) caller.func_name,
    inr (has_base caller.func_name i slash),
    rw slash (append_assoc elems _ _),
  )
]

-- Behind what is there, a caller's place and its function's name behind the last slash are appended. The
-- place is "undefined" for an undefined caller, the whole path for a file without a slash, and otherwise the
-- file's name with no directory at all, a colon, the line and a space.
pub my_caller_encode_lem :
    (caller : EntryCaller) (elems : SliceArrayEncoder)
    → (place : List Elem) × (short : Text) × Place caller place
      × IsShort caller.func_name short
      × (my_caller_encode caller elems ≡ elems ++ (place ++ text short ∷ text (bytes "()") ∷ []))
unfolding my_caller_encode
my_caller_encode_lem caller elems =
    let (place, is_place, e) = place_lem caller elems in
    let (short, is_short, f) = func_lem caller (placed caller caller.defined elems) in
    (
      place,
      short,
      is_place,
      is_short,
      f ∙ ap (λ t. t ++ text short ∷ text (bytes "()") ∷ []) e ∙ append_assoc elems place _,
    )

caller_func-append :
    (caller : EntryCaller) (o : Option ℕ) (elems : SliceArrayEncoder)
    → caller_func caller o elems ≡ elems ++ caller_func caller o []
caller_func-append caller none elems = append_assoc elems _ _
caller_func-append caller (some i) elems = append_assoc elems _ _

placed-append :
    (caller : EntryCaller) (defined : Bool) (elems : SliceArrayEncoder)
    → placed caller defined elems ≡ elems ++ placed caller defined []
placed-append caller true elems =
    let o = last_index b'/' caller.file in
    caller_place_lem caller o elems ∙ ap (λ t. elems ++ t) (sym (caller_place_lem caller o []))
placed-append caller false elems = refl

-- `MyCallerEncode` appends, whatever stands before.
pub my_caller_encode-append :
    (caller : EntryCaller) (elems : SliceArrayEncoder)
    → my_caller_encode caller elems ≡ elems ++ my_caller_encode caller []
unfolding my_caller_encode
my_caller_encode-append caller elems =
    let o = last_index b'/' caller.func_name in
    let before = placed caller caller.defined in
    caller_func-append caller o (before elems)
    ∙ ap (λ t. t ++ caller_func caller o []) (placed-append caller caller.defined elems)
    ∙ append_assoc elems (before []) (caller_func caller o [])
    ∙ ap (λ t. elems ++ t) (sym (caller_func-append caller o (before [])))
