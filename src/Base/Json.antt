-- ===== src/Base/Json.antt =====
-- JSON values, as `json.loads` returns them and as span metadata holds them.
use Prim.Native.String.{String}
use mathlib.Core.Bool.{Bool}
use vllm_observer.Base.Int.{ℤ}

mutual
  pub data Json (F : Type 0) : Type 0 where
    null : Json F
    bool : Bool → Json F
    int : ℤ → Json F
    float : F → Json F
    str : String → Json F
    arr : Items F → Json F
    obj : Fields F → Json F

  pub data Items (F : Type 0) : Type 0 where
    nil : Items F
    cons : Json F → Items F → Items F

  pub data Fields (F : Type 0) : Type 0 where
    end : Fields F
    field : String → Json F → Fields F → Fields F
