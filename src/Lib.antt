-- ===== src/Lib.antt =====
-- Verification of vlgo, a Go library for game servers.
--
-- The program's parts. An actor (gen/actor.go) is a goroutine with a mailbox, a ticker and a timeout; it
-- registers a named wait group (gen/wg.go) when it starts, answers its callers with the error values of
-- ecode/ecode.go, and logs by logger/simple_logger.go. A logger (logger/logger.go) is a tee of cores, over
-- files that a library rotates and over the console, whose lines are made by
-- logger/encoder/console_encoder.go; each core writes through a log proxy (logger/logproxy), which copies
-- the bytes into a buffer from a lock-free cache, hands the buffer to its own goroutine over a channel, and
-- there writes several buffers at once. timerpool/timepool.go reuses timers, and utils/debug_util.go
-- shortens stack traces.
--
-- Which file models what.
-- - Shared and its children: numbers, lists, texts as bytes, and splits on computed values.
-- - LogProxy.Buffer: BufferWrap of logger/logproxy/log_proxy_buffer.go, as a store of bytes and a length.
-- - LogProxy.Batch: writeLog and process of logger/logproxy/log_proxy_writer.go, seen by the one goroutine
--   that runs them: the local variables are a record, a round of the loop is batch_round, what follows the
--   loop is flush, and the result is the bytes of each Write call and the buffers returned, in order.
--   Order, Delivery and Process have the theorems on the loop, on one writeLog and on process.
-- - LogProxy.Sharing: GetBuffer, PutBuffer and Write as goroutines over a shared memory, one atomic
--   operation a step; a list of goroutine numbers and choices is the scheduler.
-- - LogProxy.Service: NewLogProxyWriter with its goroutine. The goroutines in Write make the steps of
--   LogProxy.Sharing; the consumer stands at a stage of writeLog, and makes one operation on the channel,
--   one on the cache or one call of the underlying writer a step, with a history of the bytes of those
--   calls. Ownership, Pending, Rounds and Consuming have the invariant of a step; Histories is about what
--   the writers accept, Bytewise about the order of all bytes; Whole, Cutting and Lines about where the calls of
--   the underlying writer cut them; Effects and Pipe about the abstract pipe; Measure and Draining about
--   how the channel is emptied; Callers and Counted about the calls that the payloads come from.
-- - Timerpool: GetTimer and PutTimer, over timers that are armed for a duration, may have expired with the tick
--   still to come, and may hold a tick: the expiry and the tick are two steps, as in Go 1.21.
-- - Ecode: VEI and verr, a nil interface apart from a nil pointer behind an interface.
-- - Waiters: the registry, the counters of all wait groups as one function, and the goroutines that run.
--   Registry, Apart, Counting and Race have its theorems; Race interleaves two calls of NewWaiter. Wait is
--   the method of that name, over the events of its timer and of the goroutine that it spawns; Waking and
--   Woken join it to the functions that start and end.
-- - Actor: one turn of the goroutine, doLoop with everything that it calls; the handler is a parameter.
--   Actor.Loop is the goroutine over a list of events. Actor.Caller is what other goroutines call: Start,
--   Cast, TimeCall, the ticker requests and stop; what a select waits for is an argument. Its RoundTrip
--   follows one call through the mailbox, the turn and the reply.
-- - Actor.Serving: the actor and any number of goroutines that call and cast, over one mailbox and a channel
--   for each call, one channel operation a step. A turn is one step, as in Actor, and then the replies that
--   it made are sent one by one. Acts, Counting and Clients have what the callers do, Answers and Handling
--   what a turn replies, Following the sequential model one event further, Taken and Taking what the calls
--   receive, Invariant, Moves and Reachable the invariant; Quiet, Exactly and Served are about handlers that send no replies themselves,
--   Flags and Single about handlers that neither stop nor panic, Ended about an actor whose goroutine has ended,
--   Bounded about what the channels hold, and Timers about AfterCast, whose timers are goroutines that cast;
--   Posts, Draining, Keeping, Working and Emptying are about an actor whose handler keeps it in its loop, Replying
--   and Answered about one whose handler has an answer to every message too.
-- - Logger: initZapLogger and the functions it calls, initLog, InitSimpleLog, ReloadLogLv and the methods
--   of SimpleLogger. zap's levels and rotatelogs.New are a record of parameters.
--   Logger.Printing follows a call of a logging method through str, String and getConsoleCore's encoders to its
--   line on the console; the entry that zap makes of a call is a parameter. Logger.Output joins this to the log
--   proxy over standard output, as the core of getConsoleCore: zap gives it calls, their goroutines make the steps
--   of Write, and the proxy writes. Which calls these are is left open: as initLog stands it leaves a nil zap
--   logger, and then there are none. EncodeEntry is one step there, since the encoder that it takes from the
--   pool is its own until it puts it back.
-- - Console and Console.Line: MyCallerEncode, the levels and their colours, and EncodeEntry.
-- - DebugUtil: Stack and PIDFileName.
-- - Tests: small runs of the models, and the theorems at inputs that meet their hypotheses.
--
-- Fuel and bounds. process runs a number of rounds; the theorem on it has as its condition that the number
-- is at least that of the logs, since each round takes one log or more. The digits of a number n have n + 1
-- as their fuel, which is enough because n / 10 < n for n > 0: digits_enough of Shared.Bytes. The consumer
-- of LogProxy.Service is run for a number of steps: the condition is that the number is at least 23 for
-- each log in the channel, the longest way from one receive to the next, and the weight of its stage. An
-- actor that is left to itself needs three operations for each mail, and those of the turn it is in. All
-- other recursion is structural. Go's int and time.Duration are unbounded integers here, since nothing in the
-- code comes near their bounds; subtractions that the code makes on them are written as sums or as signed
-- numbers.
--
-- What the models take for granted. The memory model: each atomic operation, channel operation and copy is
-- one step. A handler runs in one step and its Tick, Timeout, Init, Handle and Stop return or panic. In
-- Actor and Actor.Loop a reply finds room in its caller's channel; Actor.Serving has the channels, where a
-- second reply blocks the actor until the first is read. Nothing in the program closes a mailbox while its
-- actor runs. A core that zap makes passes to its writer what the
-- encoder gives it. A logger that returns: gen/gen.go copies the global logger before it is set, and the calls
-- of it are left out of the actors and the wait groups, except where the evaluation of an argument panics,
-- and Fatalf, which ends the process.
--
-- Not modelled. logger/encoder/json_encoder.go and error.go are a copy of zap's encoder; the JSON text of
-- the fields is a parameter. The console encoder's methods for types that this program does not append,
-- the JSON text of the lines of the files, which zap makes, the calls handed on to the runtime in utils,
-- the interface in gen/sys.go, the program in apps, the schemas in proto and the header in hotfix carry no
-- logic of their own.
pub mod Shared
pub mod LogProxy
pub mod Timerpool
pub mod Waiters
pub mod Ecode
pub mod Actor
pub mod Logger
pub mod DebugUtil
pub mod Console
pub mod Tests
