-- ===== src/DebugUtil.antt =====
-- utils/debug_util.go: `Stack` cuts the frames of the panic itself off a stack trace. The rest of the
-- file passes calls on to the runtime and the operating system.
use vlgo.Shared.{
  ℕ, zero, suc, ◌<◌, ◌≡◌, refl, sym, ap, ◌∙◌, ◌⊎◌, inl, inr, List, [], ◌∷◌, ◌++◌, if◌then◌else◌,
  leb, length, take, drop, arith, Text, bytes, split, join, join-split, join_cut, Bool-cases,
}

abbrev pub omit_stack_head_len : ℕ
omit_stack_head_len = 7

-- On the text of `debug.Stack()`.
unfoldable pub stack : Text → Text
stack raw_stack =
    let lines = split b'\n' raw_stack in
    if leb omit_stack_head_len (length lines)
    then join b'\n' (drop omit_stack_head_len lines)
    else raw_stack

unfoldable pub pid_file_name : Text → Text
pid_file_name app_name = app_name ++ bytes ".pid"

drop_all : (n : ℕ) (ls : List Text) → length ls ≡ n → drop n ls ≡ []
drop_all zero [] e = refl
drop_all zero (l ∷ ls) e = absurd (omega arith)
drop_all (suc n) [] e = absurd (omega arith)
drop_all (suc n) (l ∷ ls) e = drop_all n ls (omega arith)

-- A trace of fewer than seven lines is kept whole, one of seven lines becomes empty, and of a longer
-- one exactly the first seven lines, each with its line break, are cut off.
pub stack_lem :
    (raw : Text)
    → let lines = split b'\n' raw in
      ((length lines < 7) × (stack raw ≡ raw))
      ⊎ ((length lines ≡ 7) × (stack raw ≡ []))
      ⊎ ((7 < length lines) × (raw ≡ join b'\n' (take 7 lines) ++ b'\n' ∷ stack raw))
unfolding stack
stack_lem raw =
    let lines = split b'\n' raw in
    elim (Bool-cases (leb 7 (length lines))) [
      | inr short ↦ inl (ground arith, rw short)
      | inl long ↦ elim (Bool-cases (leb 8 (length lines))) [
        | inr seven ↦
            let n : length lines ≡ 7 = ground arith in
            inr (inl (n, rw long (ap (join b'\n') (drop_all 7 lines n))))
        | inl more ↦
            let n : 7 < length lines = ground arith in
            inr (inr (n, rw long (sym (join-split b'\n' raw) ∙ join_cut b'\n' 6 lines n)))
      ]
    ]
