-- ===== src/Tests/Logger/Output.antt =====
-- Two goroutines log on standard output.
use vlgo.Shared.{ℕ, ◌≡◌, ◌≢◌, refl, List, [], ◌∷◌, ◌++◌, pos, replicate, Text, bytes}
use vlgo.Console.{append_string, code_of, init_colors}
use vlgo.LogProxy.Buffer.{buffer, capacity, copy, new_buffer_wrap}
use vlgo.LogProxy.Sharing.{advance}
use vlgo.Logger.Printing.{LogStringer}
use vlgo.Logger.Output.{
  Encoding, LogCall, Output, OutputMove, prints, goes_on, drains, output_all, new_output,
}
use vlgo.Logger.Output.Steps.{IsEncoding}
use vlgo.LogProxy.Batch.{crashed, written, Sink}
use vlgo.LogProxy.Service.{consumes, serve_all}
use vlgo.LogProxy.Service.Draining.{consumer_steps, offered_bytes}
use vlgo.Tests.Console.{walk, walk-IsWalk, two_errors}
use vlgo.Tests.Console
use vlgo.Tests.Logger.Printing.{sprintf, hours, pair, stringer, context, enter, production}

abbrev pub encoding : Encoding ℕ (Text × LogStringer Text) Text
encoding = record {
  levels = Console.zap;
  walk = walk;
  format = hours;
  production = production;
  full_name_encoder = append_string;
  default_line_ending = bytes "\n";
  stringer = stringer;
  enter = enter;
  context = context;
  core_write = λ encode pool. encode pool;
}

pub encoding-IsEncoding : IsEncoding encoding sprintf pair
unfolding context
encoding-IsEncoding = record {
  walks = walk-IsWalk;
  keys = record {
    level_key_set = refl;
    time_key_set = refl;
    caller_key_set = refl;
    message_key_set = refl;
  };
  enters = λ l msg. record {
    has_level_of = refl;
    has_message = refl;
    unnamed = refl;
    without_stack = refl;
    with_caller = refl;
  };
  adds = λ key v. refl;
  some_text = λ key t. refl;
  passes_on = λ encode pool. refl;
}

-- Standard output that counts its calls.
abbrev pub counts : Sink ℕ
counts n bs = (n, written)

pub counts_returns : (n : ℕ) (bs : Text) → (counts n bs).1 ≢ crashed
counts_returns n bs e = cc

abbrev pub hello : LogCall Text
hello = record {
  level = pos 0;
  sys = bytes "Gen";
  tag = bytes "Actor";
  go_id = pos 7;
  fmts = bytes "stopped ";
  infos = bytes "bob" ∷ [];
}

abbrev steps : List (OutputMove Text)
steps = prints 0 hello ∷ (replicate 11 (goes_on 0) ++ prints 1 hello ∷ goes_on 1 ∷ drains ∷ [])

abbrev logged : Output ℕ
logged = output_all encoding counts (new_output two_errors 0 2) steps

abbrev enough : ℕ
enough = consumer_steps logged.proxy

-- The consumer writes the line of the first call; the second one has not been sent.
one_line :
    offered_bytes (serve_all counts logged.proxy (replicate 3 consumes)).consumer.log
    ≡ bytes
        "\u{1b}[36mINFO\u{1b}[0m[12]main.go:142 main.Run() Gen#Actor {\"m\": \"[Go #7] stopped bob\"}\n"
unfolding output_all context serve_all advance init_colors code_of capacity copy new_buffer_wrap
    buffer
one_line = refl
