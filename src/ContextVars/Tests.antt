-- ===== src/ContextVars/Tests.antt =====
-- The theorem about context variables at concrete variables.
use dbt_common.Common.{◌≡◌, ℕ, some, [], ◌∷◌, if◌then◌else◌}
use dbt_common.Common.Dict.{Dict, mem, keys}
use dbt_common.ContextVars.Variables.{
  Variables, visible, with_contextvars, set_contextvars, log_prefix,
}
use dbt_common.ContextVars.Restoring.{prefixed, with_contextvars-restores}

abbrev outside : Variables ℕ
outside = ("log_node", some 1) ∷ ("task_root", some 2) ∷ []

abbrev given : Dict ℕ
given = ("node", 3) ∷ ("phase", 4) ∷ []

-- A body that sets a variable again.
abbrev body : Variables ℕ → Variables ℕ
body vars = set_contextvars log_prefix (("node", 5) ∷ []) vars

with_contextvars-restores_example :
    visible "log_node" (with_contextvars log_prefix given body outside) ≡ (
      if mem "log_node" (prefixed log_prefix (keys given))
      then visible "log_node" outside
      else visible "log_node" (body (set_contextvars log_prefix given outside)))
with_contextvars-restores_example =
    with_contextvars-restores "log_node" log_prefix given body outside
