-- ===== src/Logger/Output.antt =====
-- The console core of logger/logger.go as a whole: zap gives it the entries of calls of a `SimpleLogger`
-- (logger/simple_logger.go), it makes a line of each (logger/encoder/console_encoder.go) and passes it to the `Write`
-- of its log proxy (logger/logproxy). Which calls zap gives to it, and when, is left open.
pub mod Steps
pub mod Lines
use Prim.Native.String.{String}
use vlgo.Shared.{ℕ, true, List, [], ◌∷◌, if◌then◌else◌, ℤ, Text}
use vlgo.Console.{SliceArrayEncoder, Level, Levels, Color, init_colors}
use vlgo.Console.Line.{Pool, EncoderConfig, LogEntry}
use vlgo.Logger.{Zap, atom_level, enabled, SimpleLogger, reloads}
use vlgo.Logger.Printing.{LogStringer, console_text}
use vlgo.LogProxy.Batch.{Sink}
use vlgo.LogProxy.Service.{
  calls, proceeds, expires, Service, writes, consumes, new_log_proxy_writer, serve,
}

-- What the console core takes from zap and from the runtime: the levels, the order in which `init` walks
-- its map, `Format` of a time, the configuration of production, `FullNameEncoder`, the default line's end,
-- the constructor of a stringer field, the entry of a level and a message, the JSON text of fields, and
-- what a core of `zapcore.NewCore` passes to its writer, given its encoder's `EncodeEntry` of an entry.
pub record Encoding (Time Field Info : Type 0) : Type 0 where
  pub levels : Levels
  pub walk : List (Level × Color)
  pub format : Time → Text → Text
  pub production : EncoderConfig Time
  pub full_name_encoder : Text → SliceArrayEncoder → SliceArrayEncoder
  pub default_line_ending : Text
  pub stringer : Text → LogStringer Info → Field
  pub enter : Level → Text → LogEntry Time
  pub context : List Field → Text
  pub core_write : (Pool → Text × Pool) → Pool → Text × Pool

-- A call of a method of the logger: its level and its arguments, with the number of the goroutine.
pub record LogCall (Info : Type 0) : Type 0 where
  pub level : ℤ
  pub sys : Text
  pub tag : Text
  pub go_id : ℤ
  pub fmts : Text
  pub infos : List Info

-- The encoders in the pool, and the log proxy over standard output.
pub record Output (S : Type 0) : Type 0 where
  pub pool : Pool
  pub proxy : Service S

-- Zap gives the console core a call of goroutine `k`; that goroutine makes its next step in `Write`, or has its
-- timer fire there; or the consumer of the log proxy makes a step.
pub data OutputMove (Info : Type 0) : Type 0 where
  prints : ℕ → LogCall Info → OutputMove Info
  goes_on gives_up : ℕ → OutputMove Info
  drains : OutputMove Info

module _ {Time Field Info : Type 0} (e : Encoding Time Field Info) where
  -- The line of a call, and the pool behind it.
  abbrev pub encode_call : LogCall Info → Pool → Text × Pool
  encode_call c pool =
      console_text e.levels (init_colors e.levels e.walk []) e.format e.production
        e.full_name_encoder e.default_line_ending e.stringer e.enter e.context c.level c.sys c.tag
        c.go_id c.fmts c.infos pool

module _ {Time Field Info S : Type 0} (e : Encoding Time Field Info) (w : Sink S) where
  abbrev pub write_line : ℕ → Text × Pool → Output S → Output S
  write_line k (line, pool) o = record {
    pool = pool;
    proxy = serve w o.proxy (writes k (calls line));
  }

  unfoldable pub output : Output S → OutputMove Info → Output S
  unfolding serve console_text
  output o (prints k c) = write_line k (e.core_write (encode_call e c) o.pool) o
  output o (goes_on k) = record o { proxy = serve w o.proxy (writes k proceeds) }
  output o (gives_up k) = record o { proxy = serve w o.proxy (writes k expires) }
  output o drains = record o { proxy = serve w o.proxy consumes }

  unfoldable pub output_all : Output S → List (OutputMove Info) → Output S
  unfolding output
  output_all o [] = o
  output_all o (m ∷ ms) = output_all (output o m) ms

-- The log proxy of `getConsoleCore`, and `n` goroutines that may log.
abbrev pub new_output : {S : Type 0} → Pool → S → ℕ → Output S
new_output pool s n = record { pool = pool; proxy = new_log_proxy_writer s n }
