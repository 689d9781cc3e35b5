-- ===== src/Core/Chain/Tests.antt =====
-- A chain that counts events.
use vllm_observer.Base.{ℕ, ◌+◌, none, some, [], ◌∷◌, ◌++◌, ◌≡◌, refl}
use vllm_observer.Base.Outcome.{ret, raise}
use vllm_observer.Core.Chain.{Filter, process}
use vllm_observer.Core.Chain.Isolation.{process-broken, quiet, keep}

-- The state is the sum of the events that the filters saw.
abbrev adder : Filter (Unit {0}) ℕ ℕ
adder event w = (ret (some event), event, w + event)

abbrev failing : Filter (Unit {0}) ℕ ℕ
failing event w = (raise tt, event + 1, w + 100)

abbrev ending : Filter (Unit {0}) ℕ ℕ
ending event w = (ret none, event, w + 1)

two_adders : process (adder ∷ failing ∷ adder ∷ []) 5 0 ≡ 111
unfolding process
two_adders = refl

abbrev bump : ℕ → ℕ → ℕ × ℕ
bump event w = (event + 1, w + 100)

process-broken_example :
    (process ((adder ∷ []) ++ failing ∷ (adder ∷ [])) 5 0
      ≡ process ((adder ∷ []) ++ quiet bump ∷ (adder ∷ [])) 5 0)
    × (process ((adder ∷ []) ++ quiet keep ∷ (adder ∷ [])) 5 0
        ≡ process ((adder ∷ []) ++ (adder ∷ [])) 5 0)
process-broken_example =
    process-broken bump (adder ∷ []) (adder ∷ []) failing 5 0 (λ event w. (tt, refl))

ends_chain : process (adder ∷ ending ∷ adder ∷ []) 5 0 ≡ process (adder ∷ ending ∷ []) 5 0
unfolding process
ends_chain = refl
