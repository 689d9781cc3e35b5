-- ===== src/Bootstrap/Switches.antt =====
-- The environment variables, and the test that src/vllm_observer/bootstrap.py makes of its switches.
use vllm_observer.Base.{String, Bool, str_eq}
use vllm_observer.Base.Dict.{Dict, get_or}

abbrev pub Environ : Type 0
Environ = Dict String

-- `os.getenv(key, default) == "1"`
unfoldable pub is_on : String → String → Environ → Bool
is_on key default env = str_eq (get_or key default env) "1"
