-- ===== src/Core/Chain.antt =====
-- `FilterChain` of src/vllm_observer/core.py. A filter is any object with a `process` method: a
-- function on the event and on the state `W` that the filters keep, which returns an event or none,
-- or raises an `Exception`. The event is a dict, which the filter may change, also before it raises:
-- a filter gives the event as it leaves it beside its result.
pub mod Isolation
mod Tests
use vllm_observer.Base.{Option, none, some, List, [], ◌∷◌}
use vllm_observer.Base.Outcome.{Outcome, ret, raise}

abbrev pub Filter : Type 0 → Type 0 → Type 0 → Type 0
Filter X E W = E → W → Outcome X (Option E) × E × W

-- The event that goes on to the next filter: a filter that raises is logged and passed over, and
-- `event` is still the dict that it was given, as it left it.
abbrev pub next_event : {X E : Type 0} → Outcome X (Option E) → E → Option E
next_event (ret result) event = result
next_event (raise x) event = some event

-- `FilterChain.process`
unfoldable pub process : {X E W : Type 0} → List (Filter X E W) → E → W → W
process [] event w = w
process (item ∷ filters) event w =
    let (r, left, w') = item event w in
    elim (next_event r left) [ none ↦ w' | some event' ↦ process filters event' w' ]
