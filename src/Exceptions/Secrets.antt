-- ===== src/Exceptions/Secrets.antt =====
-- The scrubbing of secrets in dbt_common/exceptions/base.py, on texts.
use Prim.Native.Nat.{ℕ, zero, suc}
use dbt_common.Common.{
  Bool, true, false, ◌&&◌, not, List, [], ◌∷◌, ◌++◌, Text, starts_with, length, drop, if◌then◌else◌,
}
use dbt_common.Common.Codes.{codes}

-- The names and values of the environment.
abbrev Environ : Type 0
Environ = List (Text × Text)

abbrev pub stars : Text
stars = codes "*****"

-- `text.replace(secret, "*****")` for a secret that is not empty: from the left, without overlaps. The
-- first argument counts the characters of a secret that is being left out.
unfoldable pub replace_from : ℕ → Text → Text → Text
replace_from n secret [] = []
replace_from (suc n) secret (c ∷ cs) = replace_from n secret cs
replace_from zero secret (c ∷ cs) =
    let rest : Text = replace_from zero secret cs in
    let behind : Text = replace_from (length (drop 1 secret)) secret cs in
    if starts_with (c ∷ cs) secret then stars ++ behind else c ∷ rest

abbrev pub replace : Text → Text → Text
replace secret text = replace_from zero secret text

-- `scrub_secrets`, of a message that is a text
unfoldable pub scrub_secrets : Text → List Text → Text
unfolding replace_from
scrub_secrets msg [] = msg
scrub_secrets msg (secret ∷ secrets) = scrub_secrets (replace secret msg) secrets

-- `env_secrets`, with `str.strip` as a parameter
unfoldable pub env_secrets : (Text → Text) → Environ → List Text
env_secrets strip [] = []
env_secrets strip ((k, v) ∷ environ) =
    let rest : List Text = env_secrets strip environ in
    if starts_with k (codes "DBT_ENV_SECRET") && not (is_empty (strip v)) then v ∷ rest else rest
  where
    is_empty : Text → Bool
    is_empty [] = true
    is_empty (c ∷ cs) = false
