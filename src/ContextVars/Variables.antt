-- ===== src/ContextVars/Variables.antt =====
-- dbt_common/events/contextvars.py. The variables are a dictionary by name, of those that were made;
-- a variable without a value holds Ellipsis, here `none`. A dictionary that `get_contextvars` gives is
-- what it holds at a key.
use Prim.Native.String.{◌++◌ as str_append}
use dbt_common.Common.{String, Option, none, some, List, [], ◌∷◌, if◌then◌else◌}
use dbt_common.Common.Dict.{Dict, lookup, insert, has, keys}

-- `LOG_PREFIX` and `TASK_PREFIX`
abbrev pub log_prefix : String
log_prefix = "log_"

abbrev task_prefix : String
task_prefix = "task_"

abbrev pub Variables : Type 0 → Type 0
Variables V = Dict (Option V)

abbrev pub held : {V : Type 0} → Option (Option V) → Option V
held none = none
held (some v) = v

module _ {V : Type 0} where
  -- The value of a variable, if it was made and does not hold Ellipsis.
  unfoldable pub visible : String → Variables V → Option V
  visible name vars = held (lookup name vars)

  -- `get_contextvars(prefix)` at a key
  unfoldable pub get_contextvars : String → Variables V → String → Option V
  get_contextvars prefix vars k = visible (str_append prefix k) vars

  unfoldable pub set_contextvars : String → Dict V → Variables V → Variables V
  set_contextvars prefix [] vars = vars
  set_contextvars prefix ((k, v) ∷ kwargs) vars =
      set_contextvars prefix kwargs (insert (str_append prefix k) (some v) vars)

  unfoldable pub unset_contextvars : String → List String → Variables V → Variables V
  unset_contextvars prefix [] vars = vars
  unset_contextvars prefix (k ∷ ks) vars =
      unset_contextvars prefix ks
        (if has (str_append prefix k) vars then insert (str_append prefix k) none vars else vars)

  -- `{k: context[k] for k in context.keys() & kwargs.keys()}`
  unfoldable pub saved_values : String → List String → Variables V → Dict V
  saved_values prefix [] vars = []
  saved_values prefix (k ∷ ks) vars = elim (get_contextvars prefix vars k) [
    | none ↦ saved_values prefix ks vars
    | some v ↦ (k, v) ∷ saved_values prefix ks vars
  ]

  -- The context manager, around a body.
  unfoldable pub with_contextvars :
      String → Dict V → (Variables V → Variables V) → Variables V → Variables V
  with_contextvars prefix kwargs body vars =
      set_contextvars prefix (saved_values prefix (keys kwargs) vars)
        (unset_contextvars prefix (keys kwargs) (body (set_contextvars prefix kwargs vars)))

  abbrev pub log_contextvars : Dict V → (Variables V → Variables V) → Variables V → Variables V
  log_contextvars kwargs body vars = with_contextvars log_prefix kwargs body vars

  abbrev pub task_contextvars : Dict V → (Variables V → Variables V) → Variables V → Variables V
  task_contextvars kwargs body vars = with_contextvars task_prefix kwargs body vars
