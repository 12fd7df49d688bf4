-- ===== src/Logger/Routing.antt =====
-- Where a message goes: the guard of `Debugf`, the cores that a level reaches, and `ReloadLogLv`.
use Prim.Native.String.{String}
use Prim.Native.String.{◌++◌ as str_append}
use vlgo.Shared.{
  ◌≡◌, refl, ap, ◌∙◌, ◌⊎◌, inl, inr, Bool, true, false, ◌&&◌, List, [], ◌∷◌, ◌++◌, some,
  if◌then◌else◌, ℤ, eq_ℤ→eq, eq_ℤ, le_ℤ, Bool-cases, Sum-cases,
}
use vlgo.Logger.{
  Zap, Writer, rotated, stdout, Core, enabled, any_enabled, SimpleLogger, debug, log_call, called,
  skipped, reload_log_lv, reloads,
}
use vlgo.Logger.Init.{cores}

module _ {Err : Type 0} (zap : Zap Err) where
  -- The writers of the cores that are enabled at a level, in the order of the tee.
  abbrev pub reached : List Core → ℤ → ℤ → List Writer
  reached [] atom level = []
  reached (c ∷ cs) atom level =
      (if enabled zap c.enabler atom level then c.writer ∷ [] else []) ++ reached cs atom level

  -- The logger of `initZapLogger` sends a message of a level to the info file from the info level on, to
  -- the error file from the error level on, and to the console, and to the debug file if there is one,
  -- exactly where the atomic level lets it pass; to each of them once, in this order.
  pub reached_lem :
      (path name : String) (with_debug : Bool) (atom level : ℤ)
      → let to_info =
          if le_ℤ zap.info_level level then rotated path (str_append name "_info") ∷ [] else [] in
        let to_error =
          if le_ℤ zap.error_level level then rotated path (str_append name "_error") ∷ [] else [] in
        let to_debug =
          if with_debug && zap.atom_enabled atom level
          then rotated path (str_append name "_debug") ∷ []
          else [] in
        let to_console = if zap.atom_enabled atom level then stdout ∷ [] else [] in
        reached (cores zap path name with_debug) atom level
        ≡ to_info ++ (to_error ++ (to_debug ++ to_console))
  unfolding enabled
  reached_lem path name true atom level = elim (Bool-cases (zap.atom_enabled atom level)) [
    | inl on ↦ rw on
    | inr off ↦ rw off
  ]
  reached_lem path name false atom level = elim (Bool-cases (zap.atom_enabled atom level)) [
    | inl on ↦ rw on
    | inr off ↦ rw off
  ]

  reached_some :
      (cs : List Core) (atom level : ℤ)
      → ((any_enabled zap cs atom level ≡ true)
          × (w : Writer) × (ws : List Writer) × (reached cs atom level ≡ w ∷ ws))
        ⊎ ((any_enabled zap cs atom level ≡ false) × (reached cs atom level ≡ []))
  reached_some [] atom level = inr (refl, refl)
  reached_some (c ∷ cs) atom level = elim (Bool-cases (enabled zap c.enabler atom level)) [
    | inl on ↦ inl (rw on, c.writer, reached cs atom level, rw on)
    | inr off ↦ elim (reached_some cs atom level) [
      | inl (any, w, ws, e) ↦ inl (rw off any, w, ws, rw off e)
      | inr (quiet, e) ↦ inr (rw off quiet, rw off e)
    ]
  ]

  -- `Debugf` leaves the zap logger alone exactly where no core would take a message of the debug level,
  -- so its guard loses no message.
  pub log_call-debug :
      (dir : String) (cs : List Core) (atom : ℤ)
      → let l : SimpleLogger = record { dir = dir; logger = some cs; atom_log_level = atom } in
        ((log_call zap debug (some l) ≡ called debug cs)
          × (w : Writer) × (ws : List Writer) × (reached cs atom zap.debug_level ≡ w ∷ ws))
        ⊎ ((log_call zap debug (some l) ≡ skipped) × (reached cs atom zap.debug_level ≡ []))
  unfolding log_call
  log_call-debug dir cs atom = elim (reached_some cs atom zap.debug_level) [
    | inl (any, w, ws, e) ↦ inl (rw any, w, ws, e)
    | inr (quiet, e) ↦ inr (rw quiet, e)
  ]

  -- `ReloadLogLv` leaves the logger as it was on a text that is no level, and otherwise sets the atomic
  -- level to the text's level and changes neither the directory nor the cores.
  pub reload_log_lv_lem :
      (l : SimpleLogger) (text : String)
      → ((e : Err) × (zap.set_level text ≡ inl e) × (reload_log_lv zap (some l) text ≡ some l))
        ⊎ ((lv : ℤ) × (zap.set_level text ≡ inr lv)
            × (reload_log_lv zap (some l) text ≡ some (record l { atom_log_level = lv })))
  unfolding reload_log_lv
  reload_log_lv_lem l text = elim (Sum-cases (zap.set_level text)) [
    | inl (e, bad) ↦ inl (e, bad, rw bad)
    | inr (lv, good) ↦ inr (lv, good, ap some (ap (reloads zap l) good ∙ sets l lv))
  ]
    where
      sets : (l : SimpleLogger) (lv : ℤ) → reloads zap l (inr lv) ≡ record l { atom_log_level = lv }
      sets l lv = elim (Bool-cases (eq_ℤ l.atom_log_level lv)) [
        | inl same ↦
            rw same (ap (λ x. record l { atom_log_level = x }) (eq_ℤ→eq l.atom_log_level lv same))
        | inr new ↦ rw new
      ]

  -- Where a message goes, by its level and the atomic level.
  abbrev pub destinations : String → String → Bool → ℤ → ℤ → List Writer
  destinations path name with_debug atom level =
      (if le_ℤ zap.info_level level then rotated path (str_append name "_info") ∷ [] else [])
      ++ ((if le_ℤ zap.error_level level then rotated path (str_append name "_error") ∷ [] else [])
          ++ ((if with_debug && zap.atom_enabled atom level
                then rotated path (str_append name "_debug") ∷ []
                else [])
              ++ (if zap.atom_enabled atom level then stdout ∷ [] else [])))

  -- On a logger with the cores of `initZapLogger`, `ReloadLogLv` changes nothing for a text that is no level.
  -- Otherwise the cores stay, and from then on a message reaches the info and the error file by its level
  -- as before, and the debug file and the console exactly where the new level lets it pass.
  pub reload_log_lv-reached :
      (dir path name : String) (with_debug : Bool) (atom level : ℤ) (text : String)
      → let cs = cores zap path name with_debug in
        let l : SimpleLogger = record { dir = dir; logger = some cs; atom_log_level = atom } in
        ((e : Err) × (zap.set_level text ≡ inl e) × (reload_log_lv zap (some l) text ≡ some l))
        ⊎ ((lv : ℤ) × (l' : SimpleLogger) × (zap.set_level text ≡ inr lv)
            × (reload_log_lv zap (some l) text ≡ some l')
            × (l'.logger ≡ some cs)
            × (reached cs l'.atom_log_level level ≡ destinations path name with_debug lv level))
  reload_log_lv-reached dir path name with_debug atom level text =
      let cs = cores zap path name with_debug in
      let l : SimpleLogger = record { dir = dir; logger = some cs; atom_log_level = atom } in
      elim (reload_log_lv_lem l text) [
        | inl (e, bad, same) ↦ inl (e, bad, same)
        | inr (lv, good, new) ↦ inr (
          lv,
          record l { atom_log_level = lv },
          good,
          new,
          refl,
          reached_lem path name with_debug lv level,
        )
      ]
