-- ===== src/Environment/Recording.antt =====
-- The settings that dbt_common/record.py reads from the environment. `str.lower`, `split(",")` and
-- `int` are parameters.
use Prim.Native.Nat.{ℕ}
use Prim.Native.String.{String}
use text.Mathlib.Text.{◌==◌}
use dbt_common.Common.{
  Bool, true, false, ◌&&◌, Option, none, some, List, ◌≡◌, ◌≢◌, ◌⊎◌, refl, if◌then◌else◌, Bool-cases,
  Option-cases, inl, inr,
}
use dbt_common.Common.Dict.{Dict, lookup}
use dbt_common.Common.Outcome.{Outcome, ok, raise}
use dbt_common.Record.Recorder.{RecorderMode, recording, replaying, diffing}

-- `a or b`: an empty text is as good as none.
abbrev or_second : Option String → Option String → Option String
or_second none b = b
or_second (some a) b = if a == "" then b else some a

-- `os.environ.get(first) or os.environ.get(second)`
unfoldable pub setting : String → String → Dict String → Option String
unfolding lookup
setting first second environ = or_second (lookup first environ) (lookup second environ)

abbrev is_some : Option String → Bool
is_some none = false
is_some (some a) = true

module _ (lower : String → String) (split : String → List String) (int : String → Option ℕ) where
  abbrev mode_of : String → Option String → Option RecorderMode
  mode_of record_mode record_file_path =
      if lower record_mode == "record"
      then some recording
      else if lower record_mode == "diff" && is_some record_file_path
      then some diffing
      else if lower record_mode == "replay" && is_some record_file_path
      then some replaying
      else none

  -- `get_record_mode_from_env`
  unfoldable pub get_record_mode_from_env : Dict String → Option RecorderMode
  unfolding setting
  get_record_mode_from_env environ =
      elim (setting "DBT_ENGINE_RECORDER_MODE" "DBT_RECORDER_MODE" environ) [
        | none ↦ none
        | some record_mode ↦
            mode_of record_mode
              (setting "DBT_ENGINE_RECORDER_FILE_PATH" "DBT_RECORDER_FILE_PATH" environ)
      ]

  -- `get_record_types_from_env`. The test for "all" compares the method `lower` itself, which is
  -- equal to no text.
  pub get_record_types_from_env : Dict String → Option (List String)
  unfolding setting
  get_record_types_from_env environ =
      elim (setting "DBT_ENGINE_RECORDER_TYPES" "DBT_RECORDER_TYPES" environ) [
        | none ↦ none
        | some record_types ↦ some (split record_types)
      ]

  -- `get_record_row_limit_from_env`, where `int` may raise a ValueError
  unfoldable get_record_row_limit_from_env : Dict String → Outcome String (Option ℕ)
  unfolding setting
  get_record_row_limit_from_env environ =
      elim (setting "DBT_ENGINE_RECORDER_ROW_LIMIT" "DBT_RECORDER_ROW_LIMIT" environ) [
        | none ↦ ok none
        | some row_limit ↦ elim (int row_limit) [ none ↦ raise row_limit | some n ↦ ok (some n) ]
      ]

  -- The types that a variable lists limit the recording, also where it is "all".
  types_given :
      (environ : Dict String) (o : Option String)
      → setting "DBT_ENGINE_RECORDER_TYPES" "DBT_RECORDER_TYPES" environ ≡ o
      → get_record_types_from_env environ ≡ elim o [ none ↦ none | some types ↦ some (split types) ]
  unfolding get_record_types_from_env
  types_given environ none e = rw (e, get_record_types_from_env) refl
  types_given environ (some types) e = rw (e, get_record_types_from_env) refl

  abbrev types_variable : String
  types_variable = "DBT_ENGINE_RECORDER_TYPES"

  -- A text for the record types in the first of the two variables, if it is not empty, always limits the recording to the types that it lists: "all" is not told from the name of a type.
  pub get_record_types_from_env-given :
      (environ : Dict String) (types : String)
      → lookup types_variable environ ≡ some types
      → (types == "") ≡ false
      → get_record_types_from_env environ ≡ some (split types)
  get_record_types_from_env-given environ types l e =
      types_given environ (some types) (unfold setting in rw (l, setting, e) refl)

  -- A file path is set in one of the two variables.
  abbrev pub file_path : Dict String → Option String
  file_path environ = setting "DBT_ENGINE_RECORDER_FILE_PATH" "DBT_RECORDER_FILE_PATH" environ

  needs_path :
      (record_mode : String) (path : Option String) (mode : RecorderMode)
      → mode_of record_mode path ≡ some mode
      → (mode ≡ recording) ⊎ (path ≢ none)
  needs_path record_mode (some p) mode e = inr (λ q. cc q)
  needs_path record_mode none mode e = elim (Bool-cases (lower record_mode == "record")) [
    | inl is ↦ inl (cc (rw is at e))
    | inr is_not ↦
        absurd
          (no_mode (lower record_mode == "diff") (lower record_mode == "replay") (rw is_not at e))
  ]
    where
      no_mode :
          (a b : Bool)
          → (if a && false then some diffing else if b && false then some replaying else none)
            ≡ some mode
          → ⊥
      no_mode true true q = cc q
      no_mode true false q = cc q
      no_mode false true q = cc q
      no_mode false false q = cc q

  -- The mode from the environment is to record, or else a file path is set.
  pub get_record_mode_from_env-needs_path :
      (environ : Dict String) (mode : RecorderMode)
      → get_record_mode_from_env environ ≡ some mode
      → (mode ≡ recording) ⊎ (file_path environ ≢ none)
  unfolding get_record_mode_from_env
  get_record_mode_from_env-needs_path environ mode q =
      elim (Option-cases (setting "DBT_ENGINE_RECORDER_MODE" "DBT_RECORDER_MODE" environ)) [
        | inl e ↦ cc (rw (e, get_record_mode_from_env) at q)
        | inr (record_mode, e) ↦
            needs_path record_mode (file_path environ) mode (rw (e, get_record_mode_from_env) at q)
      ]
