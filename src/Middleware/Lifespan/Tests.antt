-- ===== src/Middleware/Lifespan/Tests.antt =====
-- An application that starts, serves one request and shuts down, with a writer and an exporter.
use vllm_observer.Base.{ℕ, ◌≡◌, refl, String, true, false, none, some, List, [], ◌∷◌, arith}
use vllm_observer.Base.Dict.{Dict}
use vllm_observer.Base.Outcome.{ret, raise}
use vllm_observer.RemoteWrite.Series.{Sample}
use vllm_observer.RemoteWrite.{Gauges, Attempt}
use vllm_observer.RemoteWrite.Task.{Task}
use vllm_observer.Exporter.Queue.{Exporter, testing, new_exporter}
use vllm_observer.Exporter.Queue.Interleaving.{Run, idle, starts}
use vllm_observer.Exporter.Queue.Closing.{Act, calls, hands, exports}
use vllm_observer.Middleware.Call.{start, body, raised}
use vllm_observer.Middleware.Lifespan.{
  Process, Closing, Happening, startup_complete, shutdown_complete, sends, pushes, acts,
  health_check, lifespan,
}
use vllm_observer.Middleware.Lifespan.Live.{just}
use vllm_observer.Middleware.Lifespan.Closed.{IsFresh, IsShut, lifespan_shuts}

abbrev identity : Dict String
identity = ("service", "vllm") ∷ ("job", "observer") ∷ []

abbrev collect : Gauges ℕ → List (Sample ℕ)
collect g = record { name = "alive"; labels = []; value = g.alive } ∷ []

abbrev task : Task ℕ
task = record {
  writer = record {
    identity = identity;
    last_timestamp = 0;
    stop = false;
    running = false;
    gauges = record { heartbeat = 0; alive = 0; healthy = 0; failures = 0 };
    sent = [];
  };
  ended = false;
}

abbrev exporter : Exporter ℕ
exporter = record {
  capacity = 1;
  queue = [];
  dropped = 0;
  failed = 0;
  stopping = false;
  worker = testing;
}

abbrev exported : Run ℕ
exported = record {
  exporter = exporter;
  producer = idle;
  offered = 0;
  accepted = [];
  handled = [];
  late = [];
}

abbrev process : Process ℕ ℕ
process = record { writer = some task; exporter = some exported; sent = [] }

abbrev attempt : ℕ → Attempt (Unit {0}) ℕ
attempt now_ns = record { now = 7; now_ns = now_ns; response = ret 204 }

-- The push under way when the application shuts down gets no answer about its health.
abbrev closing : Closing (Unit {0}) ℕ
closing = record { under_way = some (raise tt, attempt 9000000); last = attempt 9000000 }

abbrev happenings : List (Happening (Unit {0}) ℕ ℕ)
happenings =
    sends startup_complete closing
    ∷ pushes (ret (start 200 [] ∷ body none false ∷ [])) (attempt 8000000)
    ∷ acts (calls 7)
    ∷ acts hands
    ∷ acts (exports false)
    ∷ acts (exports false)
    ∷ acts (calls 8)
    ∷ sends shutdown_complete closing
    ∷ []

checked :
    (health_check {X = Unit {0}} (ret (start 200 [] ∷ body none false ∷ [])) ≡ ret true)
    × (health_check {X = Unit {0}} (ret []) ≡ ret false)
    × (health_check {X = Unit {0}} (ret (start 302 [] ∷ [])) ≡ ret false)
unfolding health_check
checked = (refl, refl, refl)

-- A request that had seen no stop puts its event when the export thread has ended.
abbrev meanwhile : List (Act ℕ)
meanwhile =
    exports false
    ∷ exports true
    ∷ exports false
    ∷ exports false
    ∷ exports false
    ∷ hands
    ∷ calls 9
    ∷ exports false
    ∷ exports false
    ∷ exports false
    ∷ []

exporter-new : new_exporter 1 ≡ some exporter
unfolding new_exporter
exporter-new = refl

process-IsFresh : IsFresh collect identity 1 process
process-IsFresh = record {
  writer = just task task (record {
    named = refl;
    idle = refl;
    waiting = refl;
    dead = refl;
    unhealthy = refl;
    silent = refl;
  });
  exporter = just exported exported (starts 1 exporter exporter-new, refl);
}

lifespan_shuts_example :
    let (result, p) = lifespan collect happenings raised closing meanwhile process in
    (result ≡ raised)
    × (p.sent ≡ startup_complete ∷ shutdown_complete ∷ [])
    × IsShut collect identity 1 true process p
lifespan_shuts_example =
    lifespan_shuts collect identity 1 happenings raised closing meanwhile process process-IsFresh
      (omega arith)
