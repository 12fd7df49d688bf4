-- ===== src/Logger/Init.antt =====
-- What `initZapLogger` and `initLog` leave behind, by the parameters and by the files.
use Prim.Native.String.{String}
use Prim.Native.String.{◌++◌ as str_append}
use text.Mathlib.Text.{◌==◌ as str_eq}
use vlgo.Shared.{
  ◌≡◌, refl, ap, sym, subst, Sum-cases, ◌⊎◌, inl, inr, Bool, true, false, List, [], ◌∷◌, Option,
  none, some, if◌then◌else◌, ℤ, Option-cases, Bool-cases,
}
use vlgo.Logger.{
  Zap, Writer, InitParam, Core, Made, made, failed, panicked, rotated, info_enabled, error_enabled,
  atom_level, json_core, get_logger_writer, get_info_core, get_error_core, get_debug_core,
  get_console_core, init_zap_logger, SimpleLogger, init_log, init_simple_log, with_level, assigns,
  Severity, log_call, nil_call,
}

module _ {Err : Type 0} (zap : Zap Err) where
  abbrev pub console : Core
  console = record {
    writer = Writer.stdout;
    enabler = atom_level;
    has_console_encoder = true;
    has_color = true;
  }

  -- The cores over the files that can be made.
  abbrev pub cores : String → String → Bool → List Core
  cores path name with_debug =
      let info = json_core zap info_enabled (rotated path (str_append name "_info")) in
      let error = json_core zap error_enabled (rotated path (str_append name "_error")) in
      let debug = json_core zap atom_level (rotated path (str_append name "_debug")) in
      if with_debug then info ∷ error ∷ debug ∷ console ∷ [] else info ∷ error ∷ console ∷ []

  -- How `initZapLogger` ends: a file that cannot be made is a panic, and there is no other failure.
  pub data Inits (path name : String) (param : InitParam) (r : Made Err (List Core)) : Type 0 where
    no_file :
        (file : String) (e : Err)
        → zap.rotate_error file ≡ some e
        → r ≡ panicked e
        → Inits path name param r
    without_debug :
        str_eq param.log_level "debug" ≡ false
        → zap.rotate_error (str_append name "_info") ≡ none
        → zap.rotate_error (str_append name "_error") ≡ none
        → r ≡ made (cores path name false)
        → Inits path name param r
    with_debug :
        str_eq param.log_level "debug" ≡ true
        → zap.rotate_error (str_append name "_info") ≡ none
        → zap.rotate_error (str_append name "_error") ≡ none
        → zap.rotate_error (str_append name "_debug") ≡ none
        → r ≡ made (cores path name true)
        → Inits path name param r

  -- `initZapLogger` never returns an error. It panics if a file that it needs cannot be made, and
  -- otherwise its logger has the info, the error and the console core, in that order, with the debug
  -- core before the console exactly if the level is the text "debug".
  pub init_zap_logger-Inits :
      (path name : String) (param : InitParam)
      → Inits path name param (init_zap_logger zap path name param)
  unfolding init_zap_logger get_info_core get_error_core get_debug_core get_console_core
      get_logger_writer
  init_zap_logger-Inits path name param =
      elim (Option-cases (zap.rotate_error (str_append name "_info"))) [
        | inr (e, bad) ↦ no_file (str_append name "_info") e bad (rw bad)
        | inl i ↦ elim (Option-cases (zap.rotate_error (str_append name "_error"))) [
          | inr (e, bad) ↦ no_file (str_append name "_error") e bad (rw i (rw bad))
          | inl er ↦ elim (Bool-cases (str_eq param.log_level "debug")) [
            | inr quiet ↦ without_debug quiet i er (rw i (rw er (rw quiet)))
            | inl loud ↦ elim (Option-cases (zap.rotate_error (str_append name "_debug"))) [
              | inr (e, bad) ↦
                  no_file (str_append name "_debug") e bad (rw i (rw er (rw loud (rw bad))))
              | inl d ↦ with_debug loud i er d (rw i (rw er (rw loud (rw d))))
            ]
          ]
        ]
      ]

  -- How `InitSimpleLog` ends: an unknown level is an error, a file that cannot be made is a panic, and
  -- otherwise the logger stands, at the level asked for and with the files' logger left out.
  pub data SimpleInits (param : InitParam) (r : Made Err (Option SimpleLogger)) : Type 0 where
    bad_level :
        (e : Err) → zap.set_level param.log_level ≡ inl e → r ≡ failed e → SimpleInits param r
    bad_file :
        (lv : ℤ) (file : String) (e : Err)
        → zap.set_level param.log_level ≡ inr lv
        → zap.rotate_error file ≡ some e
        → r ≡ panicked e
        → SimpleInits param r
    no_logger :
        (lv : ℤ)
        → zap.set_level param.log_level ≡ inr lv
        → r ≡ made (some (record { dir = "logs"; logger = none; atom_log_level = lv }))
        → ((s : Severity)
            → log_call zap s (some (record { dir = "logs"; logger = none; atom_log_level = lv }))
              ≡ nil_call)
        → SimpleInits param r

  abbrev ends : String → InitParam → (Err ⊎ ℤ) → Made Err (Option SimpleLogger)
  ends name param x = assigns zap (with_level zap name param x)

  no_logger_lem :
      (name : String) (param : InitParam) (lv : ℤ)
      → zap.set_level param.log_level ≡ inr lv
      → SimpleInits param (ends name param (inr lv))
  unfolding log_call
  no_logger_lem name param lv ok = elim (init_zap_logger-Inits "logs" name param) [
    | no_file file e bad done ↦ bad_file lv file e ok bad (rw done)
    | without_debug a b c done ↦ no_logger lv ok (rw done) (λ s. refl)
    | with_debug a b c d done ↦ no_logger lv ok (rw done) (λ s. refl)
  ]

  -- `InitSimpleLog` returns the error of an unknown level and panics on a file that it cannot make. In
  -- every other case it returns no error and the global logger has no zap logger, on which every call
  -- of a logging method panics.
  pub init_simple_log-SimpleInits :
      (name : String) (param : InitParam) → SimpleInits param (init_simple_log zap name param)
  unfolding init_simple_log init_log
  init_simple_log-SimpleInits name param = elim (Sum-cases (zap.set_level param.log_level)) [
    | inl (e, bad) ↦ bad_level e bad (ap (ends name param) bad)
    | inr (lv, good) ↦
        subst (SimpleInits param) (sym (ap (ends name param) good))
          (no_logger_lem name param lv good)
  ]
