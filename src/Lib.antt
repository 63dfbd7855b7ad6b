-- ===== src/Lib.antt =====
-- llms-chaos: the Go gateway in gateway/ and the Go fault injector in chaosd/.
--
-- The gateway takes chat requests and sends each to one of several workers. A poller keeps a pool of
-- workers up to date (gateway/internal/router); a request picks a worker from it, asks the circuit
-- breaker of that worker (gateway/internal/breaker), takes one of its slots from an adaptive limiter
-- (gateway/internal/limiter), dials it and reads up to the first token. If that takes longer than a
-- budget that follows the observed times, a second worker is asked beside the first one, and the
-- first result decides (gateway/internal/hedge). The stream is then handed on to the client, and
-- breaker, limiter, budget, pool and counters (gateway/internal/middleware) learn how it went. All of
-- this is driven by `Serve` in gateway/internal/proxy/proxy.go, which tries twice. A trace identifier
-- (gateway/internal/trace) goes with a request to the worker, and gateway/cmd/gateway answers whether
-- the gateway is ready.
--
-- The fault injector (chaosd/cmd/chaos) kills workers, and slows or cuts their connections by a proxy
-- server (chaosd/internal/toxiproxy). It records the faults (chaosd/internal/faults), runs experiments
-- that look at the gateway behind each step (chaosd/internal/experiment), plays random rounds of faults
-- (chaosd/internal/gameday), and reports how long the cluster took to notice and to recover
-- (chaosd/internal/reporter).
--
-- Which file models what:
--   Prelude.antt and below: numbers, lists, dictionaries, sorting, windows of a history.
--   Errors.antt: Go's error values and pairs of a value and an error.
--   Breaker.antt: `Breaker` with `Allow` (allow) and `Record` (record_result); Breaker/Registry.antt:
--     `Registry` with `NewRegistry`, `For` (for_id) and the two methods behind `For`; Breaker/History.antt
--     relates a breaker to the history of its calls.
--   Limiter.antt: `Limiter` with `New`, `TryAcquire`, `Release`, `OnSuccess`, `OnTimeout`, `Cap` (cap_of)
--     and `Inflight` (inflight_of); Limiter/Slots.antt has its specification, a slot per worker;
--     Limiter/Bounds.antt and Limiter/Recovery.antt its bounds and the growth and fall of a limit.
--   Hedge/Race.antt: `RaceWithCleanup` and `Race` as a state machine; below it what its states can be,
--     where the values of the calls go, who wins, and what an abandoned race leaves.
--   Hedge/Budget.antt: `Budget` with `NewBudget`, `Observe` and `Value`; Hedge/Seconds.antt:
--     its float64s, with the fuel of their scaling in Hedge/Seconds/Fuel.antt.
--   Router.antt: `Worker`, `Pool` with `New`, `Update`, `ready`, `Pick`, `PickForKey`, `PickExcept`,
--     `Models`, and `Worker.Observe`; below it one file for each kind of theorem.
--   Middleware.antt: `Metrics` with `End` (end_request), `Retry`, `Reject`, `ObserveTTFT` and `Render`.
--   Proxy.antt: `Forwarder`, `ChatRequest`, `outcome`, `isTimeout`, the hedge budget of a request.
--   Proxy/Dial.antt: `dialFirstToken`, and how a line of bytes becomes what the stream handles; its
--     children join the two, Proxy/Dial/Lines.antt with the lines that worker/app/main.py writes.
--   Proxy/Stream.antt: `streamFromFirstToken`. Proxy/Attempt.antt: `primaryFn`, `secondaryFn`, `cleanup`
--     and their race over the shared state. Proxy/Serve.antt: `Serve` as a state machine; below it how
--     a request goes on, what its client is sent, and which limiter slots it holds. Proxy/World.antt:
--     all requests side by side, with the poller of gateway/cmd/gateway/main.go. Proxy/Attempt/Kept.antt
--     has the interface of a relation that every change of the forwarder keeps; Proxy/Serve/Kept.antt and
--     Proxy/World/Kept.antt carry it to a request and to all of them, for the metrics and the limiter.
--   Trace.antt: `Parse`, `randHex` (rand_hex), `Generate` and `FromRequest`; below it hexadecimal texts,
--     formatted headers, and what a request passes on.
--   Gateway.antt: `config.Load`, the start, the poller and the handlers of gateway/cmd/gateway/main.go
--     (handle), and `RequestID` with `newID`; below it readiness, the identifiers of
--     requests, and the capacity of a worker in a gateway with all its requests.
--   Chaos/World.antt: the log of what chaosd does. Chaos/Toxiproxy.antt: `Client` with its methods.
--     Chaos/Faults.antt: `Store` with its methods; below it what an injection does, and how many there are.
--     Chaos/Experiment.antt: `Load` and `Run`; below it when a run resets and what it records.
--     Chaos/Gameday.antt: `withDefaults`, `Plan` and `Run`; below it the plan and the rounds.
--     Chaos/Reporter.antt: `toFloat`, `fetchMatrix`, `versionEvents`, `maxValue`, `Generate`; below it the
--     events of a series, the delays between them, and the highest value.
--     Chaos/Process.antt, Chaos/Machine.antt, Chaos/Command.antt: the command line of chaosd/cmd/chaos, its
--     exits, its calls and server, its commands; below each how it can end. Chaos/Faults/Panics.antt and
--     Chaos/Experiment/Panics.antt: which of their calls can panic.
--
-- How the code is written down:
--   State is passed explicitly; a method that runs under a lock is one step. Goroutines are steps of a
--   state machine, and a list of events is one interleaving of them. Events that cannot happen in a
--   state give `none`. What stands behind the stream in `Serve` is one step, though the code takes one
--   lock after the other there, and so is the head of `secondaryFn` (`PickExcept`, `Allow`, `TryAcquire`),
--   with their locks one after the other. A worker that the handler observes behind the stream is the one
--   that is in the pool under the id then; the code's pointer may be to one that `Update` has taken out.
--   All loops are structural recursion over
--   lists, but for the scaling of a float64, whose fuel is enough for every duration of 63 bits.
--   Instants and durations are whole nanoseconds, arguments where the code reads the clock; random
--   draws are arguments, read modulo the length as `rand.Intn` does. Samples that the code holds as
--   float64 seconds are the natural numbers of nanoseconds that they were made from; Hedge/Seconds.antt has
--   the float64 arithmetic that makes a duration of one again. The latency average is made in whole numbers,
--   which agrees with the float64 arithmetic for milliseconds below 3000. The places 95 and 99 in 100
--   agree with the code's float64 products for all lengths up to 4096, which no list exceeds.
--   The uint64 counters wrap at 2 ^ 64. Limits, counts in flight and failures, Go `int`s that only move
--   by one or by halving, are natural numbers; settings that may be negative are integers.
--   A Go map is a list of pairs; the order of its iteration is the order of the list, and every theorem
--   holds for every order.
--   In Proxy/Stream.antt a line of the worker's stream is given by what the code makes of it, and in
--   Proxy/Attempt.antt an event of a call by the result of `dialFirstToken`; Proxy/Dial.antt has both from
--   the bytes of the lines. The decoding of JSON is a parameter, and HTTP and the network are not modelled.
--   What chaosd does outside is a log of requests, kills and sleeps; the replies and the clock are
--   functions of that log, and so is which texts make a URL. A panic ends the process: at an index, at the
--   capacity of a `make`, or at a nil request. The last is passed on as a `Failure` of its own. The random numbers, Prometheus, files and the conversions and formats of the
--   Go library are parameters; where a theorem needs something of them, a hypothesis says it.
--
-- Not modelled: sockets, deadlines and TLS, the marshalling of JSON, the decimal printing of the metrics,
-- the listen address and the content types of the servers, and the programs in other languages
-- (controlplane/, worker/, eval/, loadtest/) with the deployment files.
pub mod Prelude
pub mod Breaker
pub mod Limiter
pub mod Errors
pub mod Hedge
pub mod Router
pub mod Middleware
pub mod Proxy
pub mod Gateway
pub mod Trace
pub mod Chaos
