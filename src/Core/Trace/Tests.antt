-- ===== src/Core/Trace/Tests.antt =====
-- Runs of the trace operations, on whole nanoseconds.
use vllm_observer.Base.{◌≡◌, refl, true, some, [], All}
use vllm_observer.Base.Int.{ℤ, pos, ◌+ℤ◌, ◌-ℤ◌}
use vllm_observer.Base.Float.{nanoseconds}
use vllm_observer.Base.Dict.{lookup, contains, AllValues}
use vllm_observer.Core.Trace.{RequestTrace, new, add, finish, begin_generation, api_interval}
use vllm_observer.Core.Trace.Spans.{
  Reach, here, next, times, measures, begins, IsWellFormed, IsOrdered,
}
use vllm_observer.Core.Trace.Finish.{IsExportedNonnegative, finish_sound}

abbrev fresh : RequestTrace ℤ
fresh = new "t1" (pos 1000) (pos 5) "root"

abbrev busy : RequestTrace ℤ
busy =
    api_interval "s1" "render_input" (pos 7) (pos 9) []
      (add "queue" (pos 4) 1 (add "queue" (pos 3) 1 (begin_generation "g" (pos 6) "req" fresh).1))

queue_total : lookup "queue" busy.stages ≡ some (record { count = 2; total_seconds = pos 7 })
unfolding new add begin_generation api_interval ◌+ℤ◌ ◌-ℤ◌
queue_total = refl

busy-Reach : Reach fresh busy
busy-Reach =
    next
      (next (next (next here (begins "g" (pos 6) "req" _)) (times "queue" (pos 3) 1 _))
        (times "queue" (pos 4) 1 _))
      (measures "s1" "render_input" (pos 7) (pos 9) [] _)

finish_sound_example :
    let event = (finish (pos 20) busy).0 in
    (event.trace_id ≡ "t1")
    × (event.root_span_id ≡ "root")
    × All (IsWellFormed "root") event.observations
    × All (λ s. IsOrdered s × (s.parent_id ≡ some "root")) event.api_intervals
    × AllValues IsExportedNonnegative event.stages
    × (contains "http_total" event.stages ≡ true)
finish_sound_example = finish_sound "t1" (pos 1000) (pos 5) "root" (pos 20) busy busy-Reach
