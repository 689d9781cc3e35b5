-- ===== src/Adapter/Active/Tests.antt =====
-- A request that is generated twice at once: one generation returns, the other is cancelled.
use vllm_observer.Base.{◌≡◌, refl, String, none, some, Option, [], ◌∷◌, All, map, true, ◌++◌}
use vllm_observer.Base.Int.{ℤ, pos, ◌+ℤ◌, ◌-ℤ◌}
use vllm_observer.Base.Dict.{lookup}
use vllm_observer.Base.Float.{nanoseconds}
use vllm_observer.Core.Trace.{RequestTrace, new, now_ns, wall_at, begin_generation, add, accumulate}
use vllm_observer.Engine.Registry.{Record}
use vllm_observer.Adapter.{
  Numerals, record_timeline, count_sequence, count_usage, sequence_of, at_clock,
}
use vllm_observer.Adapter.Collect.{record_engine_stages, record_clock, copy_counters, add_totals}
use vllm_observer.Adapter.Active.{
  Generating, Frontend, Finished, begin_call, end_call, observed_update, collect_statistics,
  collect_stages, returned, cancelled,
}
use vllm_observer.Adapter.Active.Settled.{AllTraces}
use vllm_observer.Adapter.Active.Released.{
  has_ended, Reach, begin, next, opens, starts, finishes, updates, idle_released,
}

abbrev numerals : Numerals ℤ
numerals = record {
  to_float = λ text. some (pos 10);
  to_int = λ text. some (pos 1010);
  seconds = λ ns. ns;
}

abbrev fresh : String → String
fresh name = name

abbrev loads : String → Option (Record ℤ)
loads text = none

abbrev done : Finished ℤ
done = record {
  request_id = "r";
  queued_time = pos 10;
  prefill_time = pos 20;
  decode_time = pos 40;
  stat = record { prompt_tokens = some 3; generation_tokens = some 5 };
  raw = record {
    clock = none;
    queued = pos 20;
    scheduled = pos 30;
    first_token = pos 50;
    last_token = pos 90;
  };
  payload = none;
}

abbrev trace : RequestTrace ℤ
trace = record (new "t" (pos 1000) (pos 5) "root") { observations = [] }

abbrev first_call : Generating
first_call = record { request_id = "r"; target = some ("t", "g1") }

abbrev second_call : Generating
second_call = record { request_id = "r"; target = some ("t", "g2") }

abbrev opened : Frontend ℤ
opened = record { traces = ("t", trace) ∷ []; active = []; running = [] }

abbrev called : Frontend ℤ
called = begin_call (some "t") "g2" (pos 12) "r" (begin_call (some "t") "g1" (pos 10) "r" opened)

abbrev updated : Frontend ℤ
updated = observed_update numerals fresh loads (pos 100) (pos 101) done called

abbrev idle : Frontend ℤ
idle =
    end_call cancelled (pos 120) first_call ([] ++ [])
      (end_call returned (pos 110) second_call ([] ++ first_call ∷ []) updated)

-- The second call took the place of the first in the table, and the statistics go to its generation.
latest_active : lookup "r" called.active ≡ some ("t", "g2")
unfolding begin_call begin_generation
latest_active = refl

counted : map (λ e. e.1.engine_requests) updated.traces ≡ 1 ∷ []
unfolding observed_update collect_statistics collect_stages begin_call begin_generation new now_ns
    wall_at add accumulate record_timeline record_engine_stages count_sequence count_usage
    sequence_of at_clock record_clock copy_counters add_totals ◌+ℤ◌ ◌-ℤ◌
counted = refl

reached : Reach numerals fresh loads idle
unfolding observed_update end_call begin_call
reached =
    next
      (next
        (next
          (next (next (next begin (opens "t" trace refl)) (starts (some "t") "g1" (pos 10) "r"))
            (starts (some "t") "g2" (pos 12) "r"))
          (updates (pos 100) (pos 101) done))
        (finishes returned (pos 110) second_call [] (first_call ∷ []) refl))
      (finishes cancelled (pos 120) first_call [] [] refl)

idle_released_example :
    (idle.active ≡ [])
    × AllTraces (λ key t. All (λ o. has_ended o ≡ true) t.observations) idle.traces
unfolding end_call
idle_released_example = idle_released numerals fresh loads reached refl
