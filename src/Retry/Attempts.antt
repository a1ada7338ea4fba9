-- ===== src/Retry/Attempts.antt =====
-- dbt_common/utils/connection.py: which attempt decides.
use dbt_common.Common.{
  ℕ, zero, suc, ◌+◌, ◌≤◌, ◌<◌, String, true, false, ltb, Bool-cases, ◌≡◌, refl, subst, ◌∙◌, inl,
  inr, arith,
}
use dbt_common.Common.Outcome.{Outcome, ok, raise}
use dbt_common.Retry.Connection.{
  Attempt, returns, connection_exception, other_exception, RetryFault, connection_error, passed_on,
  retry_from, connection_exception_retry,
}

module _ {A E : Type 0} (fn : ℕ → Attempt A E) (max_attempts : ℕ) where
  -- The outcome that an attempt decides, where it is not followed by another one.
  abbrev pub decided : Attempt A E → Outcome (RetryFault E) A
  decided (returns a) = ok a
  decided (other_exception e) = raise (passed_on e)
  decided (connection_exception exc) = raise (connection_error exc)

  -- The attempts from k on, before n, raise an exception that is caught.
  abbrev pub AllCaught : ℕ → ℕ → Type 0
  AllCaught k n = (i : ℕ) → k ≤ i → i < n → (exc : String) × (fn i ≡ connection_exception exc)

  -- An attempt is the last one that is allowed, or raises nothing that is caught.
  abbrev pub IsLast : ℕ → Type 0
  IsLast n = (exc : String) → fn n ≡ connection_exception exc → n ≡ max_attempts

  decides_at :
      (fuel n : ℕ) (t : Attempt A E)
      → fn n ≡ t
      → ((exc : String) → t ≡ connection_exception exc → n ≡ max_attempts)
      → (retry_from fn max_attempts (suc fuel) n).0 ≡ decided t
  unfolding retry_from
  decides_at fuel n (returns a) e l = rw (retry_from, e) refl
  decides_at fuel n (other_exception x) e l = rw (retry_from, e) refl
  decides_at fuel n (connection_exception exc) e l =
      let last : ltb n max_attempts ≡ false = rw (l exc refl) (ground arith) in
      rw (retry_from, e, last) refl

  goes_on :
      (fuel k : ℕ) (exc : String)
      → fn k ≡ connection_exception exc
      → ltb k max_attempts ≡ true
      → (retry_from fn max_attempts (suc fuel) k).0 ≡ (retry_from fn max_attempts fuel (k + 1)).0
  unfolding retry_from
  goes_on fuel k exc e h = rw (retry_from, e, h) refl

  retry_from-decided :
      (fuel k n : ℕ)
      → k ≤ n
      → n < k + fuel
      → n ≤ max_attempts
      → AllCaught k n
      → IsLast n
      → (retry_from fn max_attempts fuel k).0 ≡ decided (fn n)
  unfolding retry_from
  retry_from-decided zero k n h f m c l = absurd (omega arith)
  retry_from-decided (suc fuel) k n h f m c l = elim (Bool-cases (ltb k n)) [
    | inl sooner ↦
        let below : k < n = ground (arith, sooner) in
        let (exc, e) = c k (omega arith) below in
        goes_on fuel k exc e (ground (arith, below, m))
        ∙ retry_from-decided fuel (k + 1) n (omega arith) (omega arith) m
            (λ i p q. c i (omega arith) q) l
    | inr here ↦
        let same : n ≡ k = ground (arith, here, h) in
        subst (λ j. (retry_from fn max_attempts (suc fuel) j).0 ≡ decided (fn n)) same
          (decides_at fuel n (fn n) refl l)
  ]

  -- The first attempt that raises nothing that is caught decides the outcome, if it is among the first and max_attempts further ones; if all of these raise what is caught, the last one's exception becomes the connection error.
  pub retry-decided :
      (n : ℕ)
      → n ≤ max_attempts
      → AllCaught 0 n
      → IsLast n
      → (connection_exception_retry fn max_attempts).0 ≡ decided (fn n)
  unfolding connection_exception_retry
  retry-decided n m c l =
      retry_from-decided (suc max_attempts) 0 n (omega arith) (omega arith) m c l
