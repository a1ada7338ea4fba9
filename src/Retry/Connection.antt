-- ===== src/Retry/Connection.antt =====
-- dbt_common/utils/connection.py. The function that is called is what it does at each attempt; the
-- pause between attempts is left out.
use dbt_common.Common.{ℕ, zero, suc, ◌+◌, String, List, [], ◌∷◌, ltb, if◌then◌else◌}
use dbt_common.Common.Outcome.{Outcome, ok, raise}

-- A call returns, raises one of the exceptions that are caught, or raises another one.
pub data Attempt (A E : Type 0) : Type 0 where
  returns : A → Attempt A E
  connection_exception : String → Attempt A E
  other_exception : E → Attempt A E

pub data RetryFault (E : Type 0) : Type 0 where
  connection_error : String → RetryFault E
  passed_on : E → RetryFault E
  out_of_fuel : RetryFault E

pub data RetryEvent : Type 0 where
  record_retry_exception : String → RetryEvent
  retry_external_call : (attempt max : ℕ) → RetryEvent

module _ {A E : Type 0} (fn : ℕ → Attempt A E) (max_attempts : ℕ) where
  -- The recursion, with fuel for its calls: the outcome and the events. The condition
  -- `attempt <= max_attempts - 1` is on integers.
  unfoldable pub retry_from : ℕ → ℕ → Outcome (RetryFault E) A × List RetryEvent
  retry_from zero attempt = (raise out_of_fuel, [])
  retry_from (suc fuel) attempt =
      let rest = retry_from fuel (attempt + 1) in
      elim (fn attempt) [
        | returns a ↦ (ok a, [])
        | other_exception e ↦ (raise (passed_on e), [])
        | connection_exception exc ↦
            if ltb attempt max_attempts
            then (
              rest.0,
              record_retry_exception exc ∷ retry_external_call attempt max_attempts ∷ rest.1,
            )
            else (raise (connection_error exc), [])
      ]

  -- There is fuel for the first call and `max_attempts` further ones.
  unfoldable pub connection_exception_retry : Outcome (RetryFault E) A × List RetryEvent
  unfolding retry_from
  connection_exception_retry = retry_from (suc max_attempts) 0
