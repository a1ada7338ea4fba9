-- ===== src/Exceptions/Tests.antt =====
-- The theorem about secrets at a concrete message, and a run of an error through nodes.
use dbt_common.Common.{
  ◌≡◌, refl, false, Option, none, some, List, [], ◌∷◌, Text, contains, All, ℕ, ◌==◌,
}
use dbt_common.Common.Codes.{codes}
use dbt_common.Exceptions.Secrets.{scrub_secrets}
use dbt_common.Exceptions.Hidden.{scrub_secrets-hides}
use dbt_common.Exceptions.Nodes.{runtime_error, str, add_nodes}

abbrev secrets : List Text
secrets = codes "abc" ∷ codes "token" ∷ []

scrub_secrets-hides_example :
    All (λ secret. contains secret (scrub_secrets (codes "key abc, token") secrets) ≡ false) secrets
scrub_secrets-hides_example =
    scrub_secrets-hides (codes "key abc, token") secrets
      ((refl, (refl, (refl, tt))), ((refl, (refl, (refl, (refl, (refl, tt))))), tt))

-- A secret that another one starts with is hidden only in part.
partly_hidden :
    scrub_secrets (codes "abcdef") (codes "abc" ∷ codes "abcdef" ∷ []) ≡ codes "*****def"
unfolding scrub_secrets
partly_hidden = refl

abbrev named : Option ℕ → Text
named none = codes "<Unknown>"
named (some n) = codes "model"

two_nodes :
    str
      (λ m n. m == n)
      named
      (codes "Runtime")
      (add_nodes (λ m n. m == n) named (1 ∷ 2 ∷ []) (runtime_error secrets (codes "abc") none))
    ≡ codes "Runtime Error in model\n  *****\n  \n  > in model\n  > called by model"
unfolding str add_nodes runtime_error scrub_secrets
two_nodes = refl
