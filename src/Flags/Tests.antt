-- ===== src/Flags/Tests.antt =====
-- The theorem about behavior flags at a concrete collection.

use dbt_common.Common.{Bool, ◌≡◌, refl, String, true, false, none, some, [], ◌∷◌}
use dbt_common.Common.Dict.{Dict, mem, lookup}
use dbt_common.Common.Outcome.{ok}
use dbt_common.Config.Value.{Value, boolean}
use dbt_common.Flags.Behavior.{
  BehaviorFlag, BehaviorFlagRendered, BehaviorChangeEvent, behavior, default_docs_url, read,
}
use dbt_common.Events.Manager.{EventManager, verdict}
use dbt_common.WarnError.Options.{WarnErrorOptionsV2, names}
use dbt_common.Flags.Refusal.{raised_by}
use dbt_common.Flags.Firing.{
  reads, times, pending, is_refused, expected_times, occurrences, times-reads-behavior,
}

abbrev flag : String → BehaviorFlag
flag name = record {
  name = name;
  default = false;
  source = none;
  description = some "a change";
  docs_url = none;
}

abbrev overrides : Dict Value
overrides = ("on", boolean true) ∷ []

abbrev event : String → BehaviorChangeEvent
event name = record {
  flag_name = name;
  flag_source = "dbt";
  description = "a change";
  docs_url = default_docs_url;
}

abbrev off : BehaviorFlagRendered
off = record { name = "off"; setting_attr = boolean false; event = event "off"; fired = false }

abbrev on : BehaviorFlagRendered
on = record { name = "on"; setting_attr = boolean true; event = event "on"; fired = false }

made : behavior "dbt" overrides (flag "off" ∷ flag "on" ∷ []) ≡ ok (off ∷ on ∷ [])
unfolding behavior lookup
made = refl

-- Event managers that raise for every warning, and for none.
abbrev manager_of : Bool → EventManager
manager_of strict = record {
  loggers = [];
  callbacks = [];
  warn_error_attr = some strict;
  options_attr = some no_options;
  global_warn_error = false;
  global_options = no_options;
  deferred_default = [];
  deferred_parse = [];
  require_warn_or_error_handling = strict;
  allow_deferral = false;
}
  where
    no_options : WarnErrorOptionsV2
    no_options = record { error = names []; warn = []; silence = []; valid_error_names = [] }

abbrev message : BehaviorChangeEvent → String
message e = e.description

abbrev refuses : BehaviorChangeEvent → Bool
refuses = raised_by message (manager_of true)

abbrev accepts : BehaviorChangeEvent → Bool
accepts = raised_by message (manager_of false)

abbrev refused : BehaviorFlagRendered
refused = record {
  name = "refused";
  setting_attr = boolean false;
  event = event "refused";
  fired = false;
}

read_twice :
    reads accepts ("off" ∷ "on" ∷ "off" ∷ []) (off ∷ on ∷ [])
    ≡ ok (event "off" ∷ [], record off { fired = true } ∷ on ∷ [])
unfolding reads read verdict
read_twice = refl

made_refused : behavior "dbt" overrides (flag "refused" ∷ []) ≡ ok (refused ∷ [])
unfolding behavior lookup
made_refused = refl

refused_twice :
    reads refuses ("refused" ∷ "refused" ∷ []) (refused ∷ [])
    ≡ ok (event "refused" ∷ event "refused" ∷ [], refused ∷ [])
unfolding reads read verdict
refused_twice = refl

times-reads-behavior_run :
    times "off" (event "off" ∷ [])
    ≡ expected_times
        (pending "off" (off ∷ on ∷ []))
        (is_refused accepts "off" (off ∷ on ∷ []))
        2
        true
times-reads-behavior_run =
    times-reads-behavior accepts "dbt" overrides (flag "off" ∷ flag "on" ∷ []) "off"
      ("off" ∷ "on" ∷ "off" ∷ []) (off ∷ on ∷ []) (record off { fired = true } ∷ on ∷ [])
      (event "off" ∷ []) made read_twice

times-reads-behavior_example :
    times "refused" (event "refused" ∷ event "refused" ∷ [])
    ≡ expected_times
        (pending "refused" (refused ∷ []))
        (is_refused refuses "refused" (refused ∷ []))
        (occurrences "refused" ("refused" ∷ "refused" ∷ []))
        (mem "refused" ("refused" ∷ "refused" ∷ []))
times-reads-behavior_example =
    times-reads-behavior refuses "dbt" overrides (flag "refused" ∷ []) "refused"
      ("refused" ∷ "refused" ∷ []) (refused ∷ []) (refused ∷ [])
      (event "refused" ∷ event "refused" ∷ []) made_refused refused_twice
