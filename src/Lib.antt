-- ===== src/Lib.antt =====
-- EdgeShard v2, verified.
--
-- EdgeShard splits one language model into contiguous shards on the devices of a cluster. A Master
-- keeps the registry, the sessions and the last states of the Workers and publishes snapshots; each
-- Worker leases its devices to profiling sessions and keeps a ledger of their cases; the shards of a
-- model form a pipeline that runs generation sessions. This library models the pure and stateful
-- core of these parts in the source's own words, one function per method.
--
-- Which file models which part (paths from the repository's root):
--   Shared     Boolean tests, lists, dictionaries, results, sorting; Python's `int`, `dict` and
--              `sorted`, and exceptions as values (`Result`, `Exec`).
--   Cluster    src/edgeshard/cluster: identities, capabilities, states and inventories, the snapshot
--              types, and `compute_capability_revision`. A dataclass is a record and its
--              `__post_init__` is the function `check_...` beside it.
--   Master     src/edgeshard/control/master: `MasterConfig`, `WorkerRegistry`, `SessionManager`,
--              `StateStore`, `LivenessManager`, `SnapshotBuilder` and the handlers of
--              `MasterService`, with the requests of src/edgeshard/protocol/control/mapper.py.
--              `Master.Traces` runs any interleaving of requests and liveness ticks.
--   Worker     src/edgeshard/control/worker: `DeviceLeaseManager` in Worker/Leases and
--              `ProfilingSessionManager` in Worker/Ledger, with the outcome types of
--              src/edgeshard/profiling/domain/experiment.py. `Worker.Ledger.Moves` is the abstract
--              machine that the ledger refines.
--              Worker/Agent is `WorkerAgent` of master_client.py, Worker/Config the checks of
--              config.py, and Worker/Runner the handlers of profiling_runner.py over the leases and
--              the ledger. `Worker.Agent.Site` puts an Agent, the wire and a Master together.
--   Wire       src/proto/worker_control.proto, the translations of
--              src/edgeshard/protocol/control/mapper.py, and the client and the servicer of the
--              control plane (grpc_client.py, grpc_server.py).
--   Profiling  src/edgeshard/profiling: the sampling policy and the harness of a benchmark
--              (benchmark/sampling.py, benchmark/harness.py) in Profiling/Benchmark, and the
--              classes and pairs of network/classifier.py in Profiling/Network. Profiling/Experiment and
--              Profiling/Cases have the experiments, their statuses and the specifications of
--              their cases, of domain/experiment.py.
--   Inference  src/edgeshard/model/spec.py, src/edgeshard/inference and
--              src/edgeshard/protocol/domain.py: the partition of a model, the sessions of a
--              pipeline, prefill and decode of a shard, the generation driver, and the test of
--              a forward message.
--   Examples   a small cluster and a small pipeline on which the theorems are applied.
--
-- How the model corresponds to the code:
--   * A method that changes its object takes the object's state and returns it beside a result, also
--     where it raises. The handlers of the Master run on one event loop and do not await between a
--     read and a write, so one handler is one function; an interleaving is a list of them.
--   * A `dict` is an association list in insertion order. Fresh identifiers and readings of the
--     clocks, which the code takes from injected callables, are arguments.
--   * A monotonic reading is a number of nanoseconds, and the thresholds in milliseconds are scaled
--     to it; a utilization is a number of thousandths of a percent. The source has floats there,
--     whose rounding is not modelled.
--   * Error and log messages are not modelled, except the detail of a rejection, which a Worker
--     receives. JSON and SHA-256 are the two functions of a `Digest`, a parameter. The tensor
--     operations of a shard are a `Kernel`, a parameter over opaque hidden states, logits and
--     caches, each of whose operations may raise.
--   * What a profiling session carries for its cases is an opaque type, and so is a measurement. Of
--     the callable that frees a session's model, the model has whether it raises; its calls are
--     logged.
--   * `run` of the Agent does not end, so it is a state machine: one turn is one round of one of its
--     loops, over an interface `World` for its client, inspector, sleeper and clock.
--   * A handler of the runner is cut where it awaits. The coroutine that holds the lock of the
--     preparations is part of the state, and the RPCs in between are events. A close and a shutdown
--     wait at each session for the thread that closes it, and release its devices when they go on;
--     the thread's piece is one event. Before its last piece a shutdown waits for its iperf servers,
--     also where it has none. A close or a shutdown that is cancelled while it waits is not modelled.
--   * A protobuf field holds what the runtime stores there (`Protobuf`), and a channel delivers what
--     gRPC documents (`Channel`, `IsUp`). The floats and the calendar behind the conversions of a
--     timestamp are the parameters `Times`; a time arrives with whole milliseconds. Durations of the Agent are numbers in one unit.
--   * A loop recurs on the list that it walks, and generation on the number of tokens left. The two
--     loops of a benchmark, which ask their policy each time, recur on fuel: one round more than the
--     greatest number of runs that the policy allows, which is enough for any valid policy.
--   * The durations of a benchmark are natural numbers in one unit. The comparison of two medians and
--     the judgement of stationarity, which are made on floats, are parameters.
--
-- Not modelled: the asyncio and gRPC runtimes, discovery and telemetry probes, tensors and model
-- weights, the profiling controller, what a case executes and the temporary iperf servers of the
-- runner, the profilers but for the harness and the classifier, the SQLite store, Docker drivers and the command line.
pub mod Shared
pub mod Cluster
pub mod Master
pub mod Worker
pub mod Wire
pub mod Profiling
pub mod Inference
pub mod Examples
