-- ===== src/Lib.antt =====
-- Verification of the core of the Monis agent for Node.js: the code that collects, samples, names
-- and aggregates what an instrumented application does.
--
-- An agent keeps aggregators, which collect data and send it in cycles; the collector's answers say
-- whether data is kept for the next cycle. An aggregator of events holds a priority queue, whose
-- entries are sampled by priority, and counts what it saw, sent and dropped in metrics, which are
-- summaries of statistics by name and scope. A transaction has its own metrics, which are merged into
-- those of the agent, and the collector's ids for names are kept by a mapper. The adaptive sampler
-- decides which transactions are sampled; a transaction's name is built from a stack of path pieces
-- by its name state, and its segments' times by timers and the calculator of exclusive times. A
-- normalizer rewrites names by rules, and the attribute filter says to which destinations an
-- attribute goes. Spans are streamed, under the pressure of the stream, over a gRPC connection that
-- reconnects, and traces are continued across services by the headers traceparent and tracestate.
--
-- The files, and the code of the repository that each one models:
-- - PriorityQueue (children: Perms, Selection, Bounded, Drain): lib/priority-queue.js; a method of
--   the source has its name in snake case, `_replace` is `replace`, and the branches of `merge` are
--   `merge_array` and `merge_queue`. FibonacciHeap: the heap package that it uses, an interface.
-- - EventAggregator (Tally, Subclass): lib/aggregators/event-aggregator.js.
-- - Stats (Recording, Merging), Apdex (Zones): lib/stats/index.js and apdex.js.
-- - Sampler (FirstWindow, Windows): lib/adaptive-sampler.js.
-- - NameState (Frozen, Cache, Stack, Slashes): lib/transaction/name-state.js.
-- - Reservoir (Full, Holes): lib/reservoir.js.
-- - AttributeFilter (Coherent, Queries, Disabled): lib/config/attribute-filter.js; the regular
--   expressions made of a list of rules are arguments.
-- - NormalizerRule (Slashes, Unmatched, Alternating) and Normalizer (Sorting, Placed, Ordered, Simple):
--   lib/metrics/normalizer/rule.js and lib/metrics/normalizer.js.
-- - Exclusive (Ranges, Counting, Tree, Stack, Exclusives):
--   lib/transaction/trace/exclusive-time-calculator.js.
-- - Timer (Settled, Ended, Offsets): lib/timer.js.
-- - Metrics (Views, Measuring, Proper, Merging, Scopes, Alike, Collecting) and MetricMapper (Latest):
--   lib/metrics/index.js and lib/metrics/mapper.js.
-- - Grpc (Settled, Streams, Pending, Reconnecting): lib/grpc/connection.js; `_disconnect` is
--   `drop_stream`.
-- - Streamer and SpanStreamer (Loop, Flow, Order): lib/spans/base-span-streamer.js and
--   span-streamer.js.
-- - TraceParent (RoundTrip) and TraceState (Members, Entry, Propagation):
--   lib/transaction/tracecontext.js.
-- - Aggregator (Sizes, Ledger, Accounts): lib/aggregators/base-aggregator.js and lib/harvester.js.
-- - CollectorResponse and Collector (Retrying, Codes): lib/collector/response.js and api.js.
-- Common and its children hold shared names, tests, lists, integers, text and dictionaries. Examples
-- and its children run the code and apply the theorems at concrete inputs.
--
-- Conventions. A method of an object returns the new record; an exception or NaN is `none`. Counts
-- and times are native natural numbers, integers where the code can go below 0. A double is an
-- element of an interface (Sampler), or, where it is finite, a whole multiple of the least positive
-- one, 2^-1074 (Stats, Apdex, a rule's precedence), and the operations that round are an interface
-- (Stats). Text is a list of character codes. `Math.random`, the clock, regular expressions and third-party packages are arguments; the laws of
-- the heap package are hypotheses (FibonacciHeap), met by a concrete heap in Examples.ListHeap. What
-- the network, the gRPC package and the host's timers do is a sequence of events, over which the
-- invariants of Grpc, SpanStreamer and Aggregator are proved. Loops over lists are structural; the
-- two loops of the queue that extract entries run on fuel, one more round than there are entries.
-- Logging is left out. Not modelled: instrumentation, shims, configuration, the collector's requests,
-- OpenTelemetry and the public API, which are glue to the host program, to Node.js or to the network.
pub mod Common
pub mod FibonacciHeap
pub mod PriorityQueue
pub mod EventAggregator
pub mod Stats
pub mod Apdex
pub mod Sampler
pub mod NameState
pub mod Exclusive
pub mod Timer
pub mod NormalizerRule
pub mod Normalizer
pub mod AttributeFilter
pub mod Reservoir
pub mod MetricMapper
pub mod Metrics
pub mod Grpc
pub mod Streamer
pub mod SpanStreamer
pub mod TraceParent
pub mod TraceState
pub mod CollectorResponse
pub mod Collector
pub mod Aggregator
mod Examples
