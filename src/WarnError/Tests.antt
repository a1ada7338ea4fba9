-- ===== src/WarnError/Tests.antt =====
-- The theorems about the warn-error options at concrete inputs.
use dbt_common.Common.{◌≡◌, ◌↔◌, refl, true, false, [], ◌∷◌}
use dbt_common.Common.Dict.{contains}
use dbt_common.Common.Outcome.{ok}
use dbt_common.WarnError.Options.{
  one, WarnErrorOptionsV2, Item, by_event, errors, silenced, post_init, is_all, validate_items,
}
use dbt_common.WarnError.Precedence.{
  handling, is_error, is_silenced, IsAllowed, errors-silenced-handling, post_init-ok,
}

-- All warnings are errors, but deprecations are silenced, and one of them is a warning.
abbrev mixed : WarnErrorOptionsV2
mixed = record {
  error = one "all";
  warn = "ConfigDataPathDeprecation" ∷ [];
  silence = "Deprecations" ∷ [];
  valid_error_names =
      "Deprecations" ∷ "ConfigDataPathDeprecation" ∷ "NoNodesForSelectionCriteria" ∷ [];
}

abbrev config_path : Item
config_path = by_event "ConfigDataPathDeprecation" "D003"

abbrev source_path : Item
source_path = by_event "ConfigSourcePathDeprecation" "D002"

errors-silenced-handling_example :
    (errors mixed source_path ≡ is_error (handling mixed source_path))
    × (silenced mixed source_path ≡ is_silenced (handling mixed source_path))
errors-silenced-handling_example = errors-silenced-handling mixed source_path

post_init-ok_example : (post_init mixed ≡ ok mixed) ↔ IsAllowed mixed
post_init-ok_example = post_init-ok mixed

silences_others : silenced mixed source_path ≡ true
unfolding silenced contains
silences_others = refl

keeps_one : silenced mixed config_path ≡ false
unfolding silenced contains
keeps_one = refl

accepts_mixed : post_init mixed ≡ ok mixed
unfolding post_init is_all validate_items
accepts_mixed = refl
