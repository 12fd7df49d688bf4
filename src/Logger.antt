-- ===== src/Logger.antt =====
-- logger/logger.go and logger/simple_logger.go: which cores a logger has, how it is made at the start
-- of the program, and what the program's calls of it do. zap and file-rotatelogs are parameters.
pub mod Init
pub mod Output
pub mod Printing
pub mod Routing
use Prim.Native.String.{String}
use Prim.Native.String.{◌++◌ as str_append}
use text.Mathlib.Text.{◌==◌ as str_eq}
use vlgo.Shared.{
  Bool, true, false, ◌||◌, List, [], ◌∷◌, Option, none, some, if◌then◌else◌, ℤ, le_ℤ, eq_ℤ, ◌⊎◌,
  inl, inr,
}

-- `zapcore.Level`: its constants, `Level.Set`, `rotatelogs.New` by its error, and `Enabled` of an
-- atomic level at a level.
pub record Zap (Err : Type 0) : Type 0 where
  pub debug_level : ℤ
  pub info_level : ℤ
  pub error_level : ℤ
  pub set_level : String → Err ⊎ ℤ
  pub rotate_error : String → Option Err
  pub atom_enabled : ℤ → ℤ → Bool

pub record InitParam : Type 0 where
  pub log_level : String

-- `zapcore.LevelEnabler`s: the three types of logger.go, and the atomic level.
pub data Enabler : Type 0 where
  debug_enabled info_enabled error_enabled atom_level : Enabler

-- What a core writes to, by `NewLogProxyWriter`.
pub data Writer : Type 0 where
  rotated : String → String → Writer
  stdout : Writer

pub record Core : Type 0 where
  pub writer : Writer
  pub enabler : Enabler
  pub has_console_encoder : Bool
  pub has_color : Bool

-- A function returns a value, returns an error, or panics.
pub data Made (Err A : Type 0) : Type 0 where
  made : A → Made Err A
  failed : Err → Made Err A
  panicked : Err → Made Err A

module _ {Err : Type 0} where
  infixl 5 ◌>>=◌
  -- `if err != nil { return nil, err }`.
  abbrev pub ◌>>=◌ : {A B : Type 0} → Made Err A → (A → Made Err B) → Made Err B
  ◌>>=◌ m f = elim m [ made a ↦ f a | failed e ↦ failed e | panicked e ↦ panicked e ]

  abbrev pub pure : {A : Type 0} → A → Made Err A
  pure a = made a

module _ {Err : Type 0} (zap : Zap Err) where
  -- `Enabled`, while the atomic level is at `atom`.
  unfoldable pub enabled : Enabler → ℤ → ℤ → Bool
  enabled debug_enabled atom level = le_ℤ zap.debug_level level
  enabled info_enabled atom level = le_ℤ zap.info_level level
  enabled error_enabled atom level = le_ℤ zap.error_level level
  enabled atom_level atom level = zap.atom_enabled atom level

  abbrev rotates : String → String → Option Err → Made Err Writer
  rotates path name none = made (rotated path name)
  rotates path name (some e) = panicked e

  -- It panics where `rotatelogs.New` fails.
  unfoldable pub get_logger_writer : String → String → Made Err Writer
  get_logger_writer path name = rotates path name (zap.rotate_error name)

  abbrev pub json_core : Enabler → Writer → Core
  json_core e w = record { writer = w; enabler = e; has_console_encoder = false; has_color = false }

  unfoldable pub get_info_core : String → String → Made Err Core
  unfolding get_logger_writer
  get_info_core path name = do
    w ← get_logger_writer path (str_append name "_info")
    pure (json_core info_enabled w)

  unfoldable pub get_error_core : String → String → Made Err Core
  unfolding get_logger_writer
  get_error_core path name = do
    w ← get_logger_writer path (str_append name "_error")
    pure (json_core error_enabled w)

  unfoldable pub get_debug_core : String → String → Made Err Core
  unfolding get_logger_writer
  get_debug_core path name = do
    w ← get_logger_writer path (str_append name "_debug")
    pure (json_core atom_level w)

  unfoldable pub get_console_core : Bool → Made Err Core
  get_console_core color_level = made (record {
    writer = stdout;
    enabler = atom_level;
    has_console_encoder = true;
    has_color = color_level;
  })

  -- The logger is its cores, in the order of the tee.
  unfoldable pub init_zap_logger : String → String → InitParam → Made Err (List Core)
  unfolding get_info_core get_error_core get_debug_core get_console_core
  init_zap_logger path name param = do
    info ← get_info_core path name
    error ← get_error_core path name
    console ← get_console_core true
    if str_eq param.log_level "debug"
        then (get_debug_core path name >>= λ debug. pure (info ∷ error ∷ debug ∷ console ∷ []))
        else pure (info ∷ error ∷ console ∷ [])

-- `SimpleLogger`; a nil `Logger` is `none`. The atomic level is shared with the cores.
pub record SimpleLogger : Type 0 where
  pub dir : String
  pub logger : Option (List Core)
  pub atom_log_level : ℤ

-- `if l, err := initZapLogger(...); err != nil { ret.Logger = l }`, on the two results.
abbrev pub assign_logger :
    {Err : Type 0} → SimpleLogger → Option (List Core) → Option Err → SimpleLogger
assign_logger ret l (some e) = record ret { logger = l }
assign_logger ret l none = ret

-- A function that returns an error returns nil beside it.
abbrev pub with_results :
    {Err : Type 0} → SimpleLogger → Made Err (List Core) → Made Err SimpleLogger
with_results {Err} ret (made l) = made (assign_logger {Err = Err} ret (some l) none)
with_results ret (failed e) = made (assign_logger ret none (some e))
with_results ret (panicked e) = panicked e

module _ {Err : Type 0} (zap : Zap Err) where
  abbrev pub with_level : String → InitParam → Err ⊎ ℤ → Made Err SimpleLogger
  with_level name param (inl e) = failed e
  with_level name param (inr lv) =
      with_results (record { dir = "logs"; logger = none; atom_log_level = lv })
        (init_zap_logger zap "logs" name param)

  unfoldable pub init_log : String → InitParam → Made Err SimpleLogger
  unfolding init_zap_logger
  init_log name param = with_level name param (zap.set_level param.log_level)

  -- `InitSimpleLog`, over the global `SLog`.
  abbrev pub assigns : Made Err SimpleLogger → Made Err (Option SimpleLogger)
  assigns (made l) = made (some l)
  assigns (failed e) = failed e
  assigns (panicked e) = panicked e

  unfoldable pub init_simple_log : String → InitParam → Made Err (Option SimpleLogger)
  unfolding init_log
  init_simple_log name param = assigns (init_log name param)

  abbrev pub reloads : SimpleLogger → Err ⊎ ℤ → SimpleLogger
  reloads l (inl e) = l
  reloads l (inr lv) = if eq_ℤ l.atom_log_level lv then l else record l { atom_log_level = lv }

  -- `ReloadLogLv`, on the text that the configuration has under "logging.level". It panics on a nil `SLog`.
  unfoldable pub reload_log_lv : Option SimpleLogger → String → Option SimpleLogger
  reload_log_lv none text = none
  reload_log_lv (some l) text = some (reloads l (zap.set_level text))

-- The methods of `SimpleLogger`, by the method of the zap logger that each one calls.
pub data Severity : Type 0 where
  debug info warn error panic fatal : Severity

-- A method panics on a nil pointer, leaves the zap logger alone, or calls its method.
pub data Call : Type 0 where
  nil_call skipped : Call
  called : Severity → List Core → Call

module _ {Err : Type 0} (zap : Zap Err) where
  -- Whether the tee is enabled: whether one of its cores is.
  abbrev pub any_enabled : List Core → ℤ → ℤ → Bool
  any_enabled [] atom level = false
  any_enabled (c ∷ cs) atom level = enabled zap c.enabler atom level || any_enabled cs atom level

  -- `Debugf` asks first, so that no text is built where nobody would see it.
  abbrev pub guarded : Severity → List Core → ℤ → Call
  guarded debug cores atom =
      if any_enabled cores atom zap.debug_level then called debug cores else skipped
  guarded s cores atom = called s cores

  abbrev pub on_logger : Severity → Option (List Core) → ℤ → Call
  on_logger s none atom = nil_call
  on_logger s (some cores) atom = guarded s cores atom

  -- `Debugf`, `Infof`, `Warnf`, `Errorf`, `Panicf` and `Fatalf`, on a receiver that may be nil.
  unfoldable pub log_call : Severity → Option SimpleLogger → Call
  unfolding enabled
  log_call s none = nil_call
  log_call s (some l) = on_logger s l.logger l.atom_log_level
