-- ===== src/Flags/Refusal.antt =====
-- When the event manager of dbt_common/events/event_manager.py raises for the event of a flag of
-- dbt_common/behavior_flags.py.
use Prim.Native.String.{String}
use dbt_common.Common.{Bool, true, false, none}
use dbt_common.Events.Manager.{EventManager, FireEventArgs, Verdict, raises, verdict, warn}
use dbt_common.Flags.Behavior.{BehaviorChangeEvent}

-- The call `fire_event(self._behavior_change_event)`, with the text of the event's message.
abbrev pub args_of : (BehaviorChangeEvent → String) → BehaviorChangeEvent → FireEventArgs
args_of message e = record {
  event = record {
    name = "BehaviorChangeEvent";
    code = "D000";
    message = message e;
    level_tag = warn;
  };
  level = none;
  node = none;
  force_warn_or_error_handling = false;
}

abbrev is_raises : Verdict → Bool
is_raises raises = true
is_raises _ = false

abbrev pub raised_by : (BehaviorChangeEvent → String) → EventManager → BehaviorChangeEvent → Bool
raised_by message m e = is_raises (verdict m (args_of message e))
