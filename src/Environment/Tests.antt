-- ===== src/Environment/Tests.antt =====
-- The theorems about the environment at concrete inputs.
use Prim.Native.Nat.{ℕ}
use Prim.Native.String.{String}
use text.Mathlib.Text.{starts_with}
use dbt_common.Common.{
  true, false, Option, none, some, List, [], ◌∷◌, ◌≡◌, ◌≢◌, ◌⊎◌, refl, if◌then◌else◌,
}
use dbt_common.Common.Dict.{Dict, lookup, insert}
use dbt_common.Record.Recorder.{recording, replaying}
use dbt_common.Environment.Invocation.{
  split_env, split_env-lookup, read_env_secrets, invocation_context, env_secrets-windows,
  private_env_prefix,
}
use dbt_common.Environment.Recording.{
  setting, get_record_types_from_env, get_record_types_from_env-given, file_path,
  get_record_mode_from_env, get_record_mode_from_env-needs_path,
}

abbrev environ : Dict String
environ = ("DBT_ENV_PRIVATE_KEY", "k") ∷ ("HOME", "/root") ∷ ("DBT_ENV_SECRET_TOKEN", "abc") ∷ []

split_env-lookup_example :
    (lookup "HOME" (split_env environ ([], [])).0
      ≡ (if starts_with "HOME" private_env_prefix then none else lookup "HOME" environ))
    × (lookup "HOME" (split_env environ ([], [])).1
        ≡ (if starts_with "HOME" private_env_prefix then lookup "HOME" environ else none))
split_env-lookup_example =
    split_env-lookup "HOME" environ (unfold lookup in (refl, (refl, (refl, tt))))

abbrev fold_token : String → String
fold_token k = "dbt_env_secret_token"

abbrev as_is : String → String
as_is s = s

-- Where the case of names is kept, the secret is found.
secret_found :
    (read_env_secrets fold_token as_is (invocation_context fold_token as_is false environ)).0
    ≡ "abc" ∷ []
unfolding read_env_secrets invocation_context insert
secret_found = refl

env_secrets-windows_example :
    (read_env_secrets fold_token as_is (invocation_context fold_token as_is true environ)).0 ≡ []
env_secrets-windows_example = env_secrets-windows fold_token as_is (λ k. refl) environ

abbrev one_part : String → List String
one_part s = s ∷ []

abbrev no_number : String → Option ℕ
no_number s = none

abbrev recorder_environ : Dict String
recorder_environ =
    ("DBT_ENGINE_RECORDER_TYPES", "all")
    ∷ ("DBT_RECORDER_MODE", "replay")
    ∷ ("DBT_RECORDER_FILE_PATH", "recording.json")
    ∷ []

get_record_types_from_env-given_run :
    get_record_types_from_env as_is one_part no_number recorder_environ ≡ some ("all" ∷ [])
get_record_types_from_env-given_run =
    get_record_types_from_env-given as_is one_part no_number recorder_environ "all"
      (unfold lookup in refl) refl

get_record_mode_from_env-needs_path_run :
    (replaying ≡ recording) ⊎ (file_path as_is one_part no_number recorder_environ ≢ none)
get_record_mode_from_env-needs_path_run =
    get_record_mode_from_env-needs_path as_is one_part no_number recorder_environ replaying
      (unfold get_record_mode_from_env setting lookup in refl)
