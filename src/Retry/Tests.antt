-- ===== src/Retry/Tests.antt =====
-- The theorem about retries at a concrete sequence of calls.
use dbt_common.Common.{◌≡◌, refl, ℕ, zero, suc, String, arith}
use dbt_common.Retry.Connection.{Attempt, returns, connection_exception, connection_exception_retry}
use dbt_common.Retry.Attempts.{decided, AllCaught, IsLast, retry-decided}

-- Two failures, then a result.
abbrev third_time : ℕ → Attempt ℕ String
third_time zero = connection_exception "reset"
third_time (suc zero) = connection_exception "timeout"
third_time (suc (suc n)) = returns 7

two_caught : AllCaught third_time 5 0 2
two_caught zero k h = ("reset", refl)
two_caught (suc zero) k h = ("timeout", refl)
two_caught (suc (suc n)) k h = absurd (omega arith)

third_IsLast : IsLast third_time 5 2
third_IsLast exc e = cc

retry-decided_example :
    (connection_exception_retry third_time 5).0 ≡ decided third_time 5 (third_time 2)
retry-decided_example = retry-decided third_time 5 2 (omega arith) two_caught third_IsLast
