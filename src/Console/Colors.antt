-- ===== src/Console/Colors.antt =====
-- The table of coloured level names: `init` walks a map, in an order that Go leaves open.
use vlgo.Shared.{
  ◌≡◌, refl, sym, ap, ◌∙◌, ◌⊎◌, inl, inr, Bool, true, false, ◌||◌, List, [], ◌∷◌, none, some, eq_ℤ,
  eq_ℤ→eq, Text, All, Bool-cases,
}
use vlgo.Console.{
  Level, Levels, Color, add, find, or_else, store, my_level_string, level_to_color, init_colors,
  my_color_level_encoder, append_string, SliceArrayEncoder, unknown_level_color,
}

abbrev pub has_level : Level → List (Level × Color) → Bool
has_level l [] = false
has_level l ((k, c) ∷ es) = eq_ℤ k l || has_level l es

module _ (zap : Levels) where
  -- The entries of a walk over the map: each is the map's, and each of the map's levels comes.
  pub record IsWalk (es : List (Level × Color)) : Type 0 where
    pub sound : All (λ e. find e.0 (level_to_color zap) ≡ some e.1) es
    pub complete :
        (l : Level)
        → (find l (level_to_color zap) ≡ none)
          ⊎ ((c : Color) × (find l (level_to_color zap) ≡ some c) × (has_level l es ≡ true))

  -- What a level finds in the table behind a part of the walk.
  abbrev Finds : Level → List (Level × Color) → List (Level × Text) → Type 0
  Finds l es m =
      ((has_level l es ≡ false) × (find l (init_colors zap es m) ≡ find l m))
      ⊎ ((c : Color) × (find l (level_to_color zap) ≡ some c)
          × (find l (init_colors zap es m) ≡ some (add c (my_level_string zap l))))

  init_colors_lem :
      (es : List (Level × Color)) (m : List (Level × Text)) (l : Level)
      → All (λ e. find e.0 (level_to_color zap) ≡ some e.1) es
      → Finds l es m
  unfolding init_colors
  init_colors_lem [] m l ok = inl (refl, refl)
  init_colors_lem ((k, c) ∷ es) m l ok =
      elim (init_colors_lem es (store k (add c (my_level_string zap k)) m) l ok.1) [
        | inr (d, e, f) ↦ inr (d, e, f)
        | inl (later, f) ↦ elim (Bool-cases (eq_ℤ k l)) [
          | inr other ↦ inl (rw other later, f ∙ rw other refl)
          | inl here ↦
              let same = eq_ℤ→eq k l here in
              inr (
                c,
                ap (λ x. find x (level_to_color zap)) (sym same) ∙ ok.0,
                f ∙ rw here (ap (λ x. some (add c (my_level_string zap x))) same),
              )
        ]
      ]

  -- Whatever the order of the walk in `init`, a level is appended in the colour of its entry, and in red
  -- if it has none.
  pub my_color_level_encoder_lem :
      (es : List (Level × Color)) (l : Level) (elems : SliceArrayEncoder)
      → IsWalk es
      → my_color_level_encoder zap (init_colors zap es []) l elems
        ≡ append_string
            (add
              (or_else unknown_level_color (find l (level_to_color zap)))
              (my_level_string zap l))
            elems
  unfolding my_color_level_encoder
  my_color_level_encoder_lem es l elems walk =
      ap (λ s. append_string s elems)
        (elim (init_colors_lem es [] l walk.sound) [
          | inl (no_entry, f) ↦ elim (walk.complete l) [
            | inl unknown ↦ rw f (rw unknown refl)
            | inr (c, e, has) ↦ absurd (cc)
          ]
          | inr (c, e, f) ↦ rw f (rw e refl)
        ])
