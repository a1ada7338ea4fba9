-- ===== src/Config/Tests.antt =====
-- The theorems about merging configurations at concrete inputs.
use dbt_common.Common.{◌≡◌, refl, [], ◌∷◌}
use dbt_common.Common.Dict.{Dict, lookup, erase}
use dbt_common.Common.Outcome.{ok}
use dbt_common.Config.Value.{Value, str, list, nil, cons, dict, end, entry}
use dbt_common.Config.Merge.{
  append, behavior_of, merge_config_dicts, merge_each, merge_key, merge_field_value,
}
use dbt_common.Config.Fields.{include, Field, merge_dicts, merge_fields, merge_field, update_from}
use dbt_common.Config.Merging.{MergedAt, merge_config_dicts-MergedAt}
use dbt_common.Config.Updating.{behavior_for, UpdatedAt, update_from-UpdatedAt}

abbrev tags : Field
tags = record {
  name = "tags";
  target = "tags";
  merge_behavior = append;
  compare_behavior = include;
}

abbrev project_rest : Dict Value
project_rest = ("grants", dict (entry "select" (str "alice") end)) ∷ ("schema", str "main") ∷ []

abbrev project : Dict Value
project = ("tags", list (cons (str "nightly") nil)) ∷ project_rest

abbrev model : Dict Value
model =
    ("tags", str "finance")
    ∷ ("grants", dict (entry "+select" (str "bob") end))
    ∷ ("owner", str "carol")
    ∷ []

abbrev updated : Dict Value
updated =
    ("tags", list (cons (str "nightly") (cons (str "finance") nil)))
    ∷ ("grants", dict (entry "+select" (str "bob") end))
    ∷ ("schema", str "main")
    ∷ ("owner", str "carol")
    ∷ []

run_update : update_from (tags ∷ []) [] project model ≡ ok updated
unfolding update_from lookup merge_dicts merge_fields merge_field merge_field_value erase
run_update = refl

update_from-UpdatedAt_example :
    UpdatedAt
      (behavior_for "tags" (tags ∷ []) [])
      (lookup "tags" project)
      (lookup "tags" model)
      (lookup "tags" updated)
unfolding lookup
update_from-UpdatedAt_example =
    update_from-UpdatedAt "tags" (tags ∷ []) [] project model updated (refl, (refl, (refl, tt)))
      run_update

merge_config_dicts-MergedAt_example :
    MergedAt "tags"
      (lookup "tags" project)
      (lookup "tags" model)
      (lookup "tags" (merge_config_dicts project model).1)
unfolding lookup merge_config_dicts merge_each merge_key behavior_of
merge_config_dicts-MergedAt_example =
    merge_config_dicts-MergedAt "tags" ("tags", list (cons (str "nightly") nil)) project_rest model
      (refl, (refl, (refl, tt))) tt refl refl refl
