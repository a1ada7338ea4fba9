-- ===== src/Events/Tests.antt =====
-- The theorems about the event manager at concrete inputs.
use dbt_common.Common.{◌≡◌, refl, true, false, none, some, [], ◌∷◌, if◌then◌else◌}
use dbt_common.Common.Outcome.{raise}
use dbt_common.WarnError.Options.{names, WarnErrorOptionsV2, errors}
use dbt_common.WarnError.Precedence.{handling}
use dbt_common.Events.Manager.{
  info, warn, Event, EventManager, EventMsg, FireEventArgs, default_group, raises, delivers,
  verdict, warn_error, warn_error_options, item_of, fire_event, fire_deferred_events,
  fire_and_summarize_raised_events, fire_each, fire_or_defer_event, deliver, summary, raise_summary,
  summary_of,
}
use dbt_common.Common.{map, keep, List}
use dbt_common.Events.Catcher.{EventCatcher, catch_all, flush, wants, caught-catch_all-flush}
use dbt_common.Events.Deferral.{
  is_handled, verdict_of, raising, fire_all, defer_all, verdict-handling, fire_deferred-defer_all,
}

abbrev no_nodes : Event
no_nodes = record { name = "NoNodes"; code = "M030"; message = "no nodes"; level_tag = warn }

abbrev started : Event
started = record { name = "Started"; code = "A001"; message = "started"; level_tag = info }

abbrev of_event : Event → FireEventArgs
of_event e = record { event = e; level = none; node = none; force_warn_or_error_handling = false }

abbrev strict : WarnErrorOptionsV2
strict = record {
  error = names ("NoNodes" ∷ []);
  warn = [];
  silence = [];
  valid_error_names = "NoNodes" ∷ [];
}

abbrev manager : EventManager
manager = record {
  loggers = record { filter = λ m. true; written = [] } ∷ [];
  callbacks = [] ∷ [];
  warn_error_attr = none;
  options_attr = some strict;
  global_warn_error = false;
  global_options = strict;
  deferred_default = [];
  deferred_parse = [];
  require_warn_or_error_handling = true;
  allow_deferral = true;
}

verdict-handling_example : verdict manager (of_event no_nodes) ≡ (
    if is_handled manager (of_event no_nodes)
    then (if warn_error manager
        then raises
        else verdict_of (handling (warn_error_options manager) (item_of no_nodes)))
    else delivers)
verdict-handling_example = verdict-handling manager (of_event no_nodes)

fire_deferred-defer_all_example :
    fire_deferred_events default_group (
      defer_all default_group
        (of_event started ∷ of_event no_nodes ∷ of_event started ∷ [])
        manager)
    ≡ (
      raise_summary (
          summary_of
            (raising manager (of_event started ∷ of_event no_nodes ∷ of_event started ∷ []))),
      fire_all (of_event started ∷ of_event no_nodes ∷ of_event started ∷ []) manager,
    )
fire_deferred-defer_all_example =
    fire_deferred-defer_all default_group
      (of_event started ∷ of_event no_nodes ∷ of_event started ∷ []) manager refl refl

stops_at_no_nodes :
    (fire_deferred_events default_group (
      defer_all default_group
        (of_event started ∷ of_event no_nodes ∷ of_event started ∷ [])
        manager)).0
    ≡ raise (record { text = "no nodes"; node = none })
unfolding fire_deferred_events fire_and_summarize_raised_events fire_each fire_or_defer_event
    fire_event verdict deliver errors summary
stops_at_no_nodes = refl

-- A catcher of warnings named NoNodes.
abbrev catcher : EventCatcher
catcher = record { event_to_catch = some "NoNodes"; caught_events = []; predicate = λ m. true }

abbrev messages : List EventMsg
messages =
    map (λ e. record { name = e.name; code = e.code; text = e.message; level = e.level_tag })
      (started ∷ no_nodes ∷ started ∷ [])

caught-catch_all-flush_example :
    (catch_all messages (flush catcher)).caught_events ≡ keep (wants catcher) messages
caught-catch_all-flush_example = caught-catch_all-flush messages catcher
