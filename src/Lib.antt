-- ===== src/Lib.antt =====
-- cpa-stg: a verification library for the credential admission plugin of CLIProxyAPI.
--
-- The program and its parts. The plugin decides for the host, call by call, whether an upstream
-- attempt on a credential may go on now, must wait, or is refused. src/engine.rs keeps the state
-- of that decision: the registered requests with their phase, the nesting of requests, and for
-- each credential a bucket with tokens, a count of active requests and a queue. src/config.rs
-- holds the policies that the buckets enforce, and src/error_mapping.rs the rules that turn
-- failure events into retryable errors; the engine asks both. src/runtime.rs guards the engine by
-- a mutex and a condition variable, src/protocol.rs reads the host's calls and makes those of the
-- engine, src/router.rs streams through the host, and src/host.rs and src/lib.rs are the C
-- interface.
--
-- Which file models which part.
--   Engine.Types, Engine.Buckets, Engine and Engine.Admission are src/engine.rs: `Engine` is the
--     struct, and `new`, `begin`, `begin_child`, `start_attempt`, `poll`, `detach`, `complete`,
--     `reconfigure`, `stop`, `counts` and `map_error` are its methods. A method that changes the
--     engine takes one and returns the next. A panic of an `expect` is `none`.
--   Engine.System is any sequence of calls of the engine, which is what the mutex of
--     src/runtime.rs leaves of concurrent callers. Engine.Rate follows the tokens of one credential
--     through such a sequence.
--   Config is src/config.rs. ErrorMapping, ErrorMapping.Delay and ErrorMapping.Sse are
--     src/error_mapping.rs: the rules, `deserialize_delay`, and `SseMapper` with
--     `failure_from_message`. A record of their own stands for the library functions that they
--     call: UTF-8 decoding, and parsing and printing of JSON.
--   Runtime is `Runtime::acquire` of src/runtime.rs, with the calls that other threads make under
--     the mutex in each of its waits. Runtime.Lock is the mutex itself, which a panic poisons, and
--     the other methods of `Runtime`, each of which makes one call under it. Runtime.Notify has the
--     calls after which it notifies the condition variable.
--   Protocol, Protocol.Envelope and Protocol.Handle are src/protocol.rs: `handle` with its methods,
--     and the answers. Protocol.Codec stands for what serde, serde_yaml and base64 do.
--   Host is `Fault` and `call` of src/host.rs. A host is a function of the calls that it was given
--     so far, so that it may answer in any way. Host.Buffers is `call` again, with the memory that
--     the callback fills and `call` gives back.
--   Router, Router.Execute, Router.Pump and Router.Handle are src/router.rs: its state, `execute`,
--     the thread of a worker, and `handle` with `shutdown`. Router.Slots has the steps that threads
--     take in turn on the state, and Router.Streams has them with the calls of the host that they
--     make. Router.Codec stands for JSON, base64 and serde_yaml.
--   Plugin is src/lib.rs: the guards of `cliproxy_plugin_init`, with `install` of src/host.rs, and
--     `plugin_call` over the handler that the build chooses. Plugin.Buffers has what a call leaves
--     in memory, `plugin_free` and `plugin_shutdown`; Plugin.Routed is the build with the router.
--   Json is the part of `serde_json::Value` that these use, and Float the interface of `f64`.
--   Base has the shared helpers: numbers, lists, texts, maps, results, and memory behind raw
--     pointers.
-- The other files under Engine, Config, ErrorMapping, Runtime, Protocol, Host, Router and Plugin
-- hold what is proved of them, in modules named for what they prove, and tests.
--
-- Choices. Numbers are natural numbers. `HashMap` is an association list, and the program walks
-- it only by loops that treat each entry alike. An `Instant` is a number of nanoseconds, so that
-- adding to one does not overflow here. The subtraction of the active count wraps at 2^64, as the
-- source's does in a release build; the addition does not wrap. The loop of `complete` runs on
-- fuel, two rounds more than there are links to children: each round pops an id, and each link
-- pushes one id at most. The loop of `SseMapper::push` has one round of fuel more than there are
-- pending bytes, since each round moves its cursor on. Floats are a class of types with the
-- operations that the source uses. What needs laws of them takes `F64Laws` as a hypothesis: how a
-- few operations keep the order, on operands that are no NaN, as each law's premises have it.
-- Float.Fixed is an instance, in exact arithmetic. serde_yaml is a parameter of `Config.parse`. A
-- JSON object is a list of fields, and the order of its keys when printed is not in the model.
-- The loop of `pump` takes the value of the router's stopping flag in each round as a list, and
-- stands where it is when the list ends. The loop that drops finished workers has as much fuel as
-- there are workers, since each round drops one or goes past one. `AtomicUsize` wraps at 2^64 both
-- ways. While a request waits for the host's answer to its execution, other threads may do
-- anything to the router, which is a parameter of `execute`; the code on either side of that call
-- is one step. So `prepare` checks the stopping flag and claims a slot in one step, and `start`
-- checks the flag and starts the thread in one step, where in the source a shutdown may set the
-- flag in between. A join of a thread in `shutdown` either returns or waits on: which threads
-- have ended is a parameter of `handle`, and `join_all` says whether all joins return.
--
-- Memory is the live blocks by their addresses; reading a dead block, or freeing a block with a
-- length that is not its own, is undefined. The allocator, the callback and the host's
-- `free_buffer` are parameters. In Router.Streams a round of a worker's loop, a worker's last
-- calls, and a shutdown up to the joins are one step each.
--
-- Not modelled: of src/runtime.rs the way of a notification to a thread, since a wait may end at
-- any time here; of src/router.rs a poisoned mutex, and in `plugin_shutdown` the joins of its
-- shutdown; of src/host.rs and src/lib.rs the buffers that a call only passes on; the tests and the
-- scripts, which have no logic of the program.
pub mod Base
pub mod Float
pub mod Json
pub mod ErrorMapping
pub mod Config
pub mod Engine
pub mod Runtime
pub mod Plugin
pub mod Protocol
pub mod Host
pub mod Router
