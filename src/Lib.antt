-- ===== src/Lib.antt =====
-- The vllm-observer library: request tracing for vLLM that runs inside the API server and the
-- EngineCore process, and exports timelines to Langfuse and metrics to Prometheus.
--
-- Parts, and how they interact. A request of the API server gets a `RequestTrace`, which collects
-- spans, stage totals and API intervals and ends in an event (src/vllm_observer/core.py); the
-- event goes through a chain of filters, one of which hands it to a background thread that cuts
-- it into a timeline (src/vllm_observer/exporter.py). In the EngineCore process, wrappers around
-- vLLM's scheduler, executor and engine step keep a record per request in a registry and send it
-- back on the request's last output (src/vllm_observer/stages.py), and a guard drops requests
-- that are older than a deadline (src/vllm_observer/deadline.py). The trace of a request is made
-- and finished by an ASGI middleware (src/vllm_observer/middleware.py), an adapter adds the spans
-- of the engine's requests to it (src/vllm_observer/adapter.py), and a task pushes the metrics of
-- the process (src/vllm_observer/remote_write.py).
--
-- Base: what the parts share. Base.Float is the interface of Python's floats, a record with the
-- laws that the code relies on; whole nanoseconds are its instance. Base.Int are Python's
-- integers, Base.Dict is a dict as an association list, Base.Json is a JSON value, Base.Outcome
-- is a call that returns or raises. Core.Trace: `Aggregate` and `RequestTrace` of
-- src/vllm_observer/core.py, one function per method; Core.Trace.Stages, Core.Trace.Spans and
-- Core.Trace.Finish are its theorems. Core.Chain: `FilterChain`, whose filters may change the
-- event that they are given, and Core.Chain.Isolation its theorems. Engine.Registry: `_REGISTRY`,
-- `observed_add_request` and `observed_schedule` of src/vllm_observer/stages.py. Engine.Executor:
-- `_record_execute`, `_TimedFuture` and `timed_execute`. Engine.Output: `_attach_stages` and the
-- wrapped engine step. Engine.Invariant is what holds of the registry under all of them.
-- Engine.Deadline: src/vllm_observer/deadline.py, Engine.Clock:
-- src/vllm_observer/engine_clock.py. Exporter.Stage, Exporter.Timeline, Exporter.Details and
-- Exporter.Nodes: `_timeline_nodes` of src/vllm_observer/exporter.py, in the order of its code;
-- Exporter.Queue: `AsyncExportFilter`, and Exporter.Queue.Closing: its `close` while requests go
-- on; Exporter.Sink and Exporter.Sink.Attributes: `LangfuseSink.__call__`, without and with the
-- attributes of the spans; Exporter.Settings: the settings. Metrics: `MetricsFilter.process` of
-- src/vllm_observer/metrics.py. Adapter: `record_timeline` of src/vllm_observer/adapter.py,
-- Adapter.Piggyback: its `observed_output`, Adapter.Active: its `observed_generate` and
-- `observed_update`, and Adapter.Collect: `record_engine_stages` of src/vllm_observer/stages.py.
-- Middleware.Headers, Middleware.Content, Middleware.Call and Middleware.Serve: the functions and
-- the wrappers of src/vllm_observer/middleware.py, Middleware.Serve.Together: requests that run
-- at once, Middleware.Dispatch: which requests are traced, Middleware.Setup: the constructor, and
-- Middleware.Lifespan: the lifespan of the application, with `health_check`; RemoteWrite:
-- src/vllm_observer/remote_write.py, with RemoteWrite.Settings, its constructor, and
-- RemoteWrite.Task, its task from `start` to `close`. Install: the `install_*` functions of
-- src/vllm_observer/stages.py and `install` of deadline.py, engine_clock.py and adapter.py beside
-- it, and Install.Timed: a call of a method that `_timed_async` or `_timed_sync` wraps.
-- Bootstrap, Bootstrap.App and Bootstrap.Finder: src/vllm_observer/bootstrap.py, namely
-- `_instrument`, the wrapper of `build_app`, and the import hook with `install`.
--
-- State is passed explicitly: a method is a function on the record of its object. Readings of
-- clocks, fresh identifiers and the outcomes of calls of vLLM are arguments, as is the test that
-- tells an `Exception` from another `BaseException`, and vLLM's scheduler is a record of
-- operations and one law, on the requests that are unfinished afterwards. The export thread and
-- the thread that finishes requests are a step relation, one constructor per atomic action; so
-- are the requests that run at once, and the calls of `generate` with the statistics that come
-- in. Loops are structural recursion on their lists; the export thread takes a list of the sink's
-- answers, of which three for each queued event and two more are enough for it to end. The push
-- task takes a list of its rounds, and ends at the first that sees the request to stop. The
-- lifespan takes a list of what happens meanwhile: messages of the application, rounds of the
-- push task, and acts of the two threads at the exporter; while the exporter is closed these two
-- threads go on, and three acts of the export thread per place in the queue and five more are
-- enough for it to end. What the application does with the two wrappers of the middleware is a
-- list of actions; what the instrumentation of vLLM adds to the same trace meanwhile is not among
-- them.
--
-- Not modelled: logging and debug output; the set-up of OpenTelemetry in the constructor of
-- `LangfuseSink`, and what that library does with a span; and the components that the manifest
-- lists as such.
pub mod Base
pub mod Bootstrap
pub mod Adapter
pub mod Core
pub mod Engine
pub mod Exporter
pub mod Install
pub mod Metrics
pub mod Middleware
pub mod RemoteWrite
