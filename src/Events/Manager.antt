-- ===== src/Events/Manager.antt =====
-- `EventManager` of dbt_common/events/event_manager.py, with `msg_from_base_event` and the levels of
-- dbt_common/events/base_types.py. An event is what the manager reads of it. Loggers and callbacks
-- are represented by what they receive.
use Prim.Native.String.{String, ◌++◌ as str_append}
use dbt_common.Common.{
  Bool, true, false, ◌&&◌, ◌||◌, Option, none, some, List, [], ◌∷◌, ◌++◌, if◌then◌else◌,
}
use dbt_common.Common.Outcome.{Outcome, ok, raise}
use dbt_common.WarnError.Options.{WarnErrorOptionsV2, Item, by_event, errors, silenced}

pub data EventLevel : Type 0 where
  debug test info warn error : EventLevel

pub data EventGroupType : Type 0 where
  default_group parse_group : EventGroupType

-- `type(event).__name__`, `code()`, `message()` and `level_tag()`
pub record Event : Type 0 where
  pub name : String
  pub code : String
  pub message : String
  pub level_tag : EventLevel

-- The fields of `msg.info` that come from the event and the call.
pub record EventMsg : Type 0 where
  pub name : String
  pub code : String
  pub text : String
  pub level : EventLevel

abbrev level_or : Option EventLevel → EventLevel → EventLevel
level_or none tag = tag
level_or (some l) tag = l

pub msg_from_base_event : Event → Option EventLevel → EventMsg
msg_from_base_event e level = record {
  name = e.name;
  code = e.code;
  text = e.message;
  level = level_or level e.level_tag;
}

-- The arguments of `fire_event`; `node` is only passed on, into the exception.
pub record FireEventArgs : Type 0 where
  pub event : Event
  pub level : Option EventLevel
  pub node : Option String
  pub force_warn_or_error_handling : Bool

-- `EventCompilationError`
pub record EventCompilationError : Type 0 where
  pub text : String
  pub node : Option String

-- A logger: its filter, and the messages that it has written.
pub record Logger : Type 0 where
  pub filter : EventMsg → Bool
  pub written : List EventMsg

-- A callback is represented by the messages that it got. `global_warn_error` and `global_options` are
-- the module globals that stand in for the attributes that are not set.
pub record EventManager : Type 0 where
  pub loggers : List Logger
  pub callbacks : List (List EventMsg)
  pub warn_error_attr : Option Bool
  pub options_attr : Option WarnErrorOptionsV2
  pub global_warn_error : Bool
  pub global_options : WarnErrorOptionsV2
  pub deferred_default : List FireEventArgs
  pub deferred_parse : List FireEventArgs
  pub require_warn_or_error_handling : Bool
  pub allow_deferral : Bool

pub warn_error : EventManager → Bool
warn_error m = elim m.warn_error_attr [ none ↦ m.global_warn_error | some b ↦ b ]

pub warn_error_options : EventManager → WarnErrorOptionsV2
warn_error_options m = elim m.options_attr [ none ↦ m.global_options | some o ↦ o ]

-- `if logger.filter(msg): logger.write_line(msg)` for every logger
unfoldable write_to : EventMsg → List Logger → List Logger
write_to msg [] = []
write_to msg (l ∷ ls) =
    (if l.filter msg then record l { written = l.written ++ msg ∷ [] } else l) ∷ write_to msg ls

-- `callback(msg)` for every callback
unfoldable call_each : EventMsg → List (List EventMsg) → List (List EventMsg)
call_each msg [] = []
call_each msg (got ∷ cs) = (got ++ msg ∷ []) ∷ call_each msg cs

unfoldable pub deliver : EventMsg → EventManager → EventManager
unfolding write_to call_each
deliver msg m = record m { loggers = write_to msg m.loggers; callbacks = call_each msg m.callbacks }

abbrev pub level_eq_warn : EventLevel → Bool
level_eq_warn warn = true
level_eq_warn _ = false

-- What `fire_event` does with the message: it raises, drops it, or delivers it.
pub data Verdict : Type 0 where
  raises drops delivers : Verdict

abbrev pub item_of : Event → Item
item_of e = by_event e.name e.code

unfoldable pub verdict : EventManager → FireEventArgs → Verdict
unfolding warn_error warn_error_options msg_from_base_event
verdict m a =
    if a.force_warn_or_error_handling
      || m.require_warn_or_error_handling
        && level_eq_warn (msg_from_base_event a.event a.level).level
    then (if warn_error m || errors (warn_error_options m) (item_of a.event)
        then raises
        else if silenced (warn_error_options m) (item_of a.event)
        then drops
        else delivers)
    else delivers

-- A method returns what it raises, if it does, and the manager behind it.
abbrev Result : Type 0
Result = Outcome EventCompilationError (Unit {0}) × EventManager

abbrev pub act : Verdict → FireEventArgs → EventManager → Result
act raises a m = (raise (record { text = a.event.message; node = a.node }), m)
act drops a m = (ok tt, m)
act delivers a m = (ok tt, deliver (msg_from_base_event a.event a.level) m)

unfoldable pub fire_event : FireEventArgs → EventManager → Result
fire_event a m = act (verdict m a) a m

unfoldable add_logger : (EventMsg → Bool) → EventManager → EventManager
add_logger filter m = record m {
  loggers = m.loggers ++ record { filter = filter; written = [] } ∷ [];
}

unfoldable add_callback : EventManager → EventManager
add_callback m = record m { callbacks = m.callbacks ++ [] ∷ [] }

-- `self._deferred_event_groups[group]`, and the store of a list there
abbrev pub deferred : EventGroupType → EventManager → List FireEventArgs
deferred default_group m = m.deferred_default
deferred parse_group m = m.deferred_parse

abbrev pub set_deferred : EventGroupType → List FireEventArgs → EventManager → EventManager
set_deferred default_group as' m = record m { deferred_default = as' }
set_deferred parse_group as' m = record m { deferred_parse = as' }

unfoldable pub fire_or_defer_event : EventGroupType → FireEventArgs → EventManager → Result
fire_or_defer_event group a m =
    if m.allow_deferral
    then (ok tt, set_deferred group (deferred group m ++ a ∷ []) m)
    else fire_event a m

-- `except EventCompilationError: raised_events.append(e.event)`
abbrev pub note_raised : Outcome EventCompilationError (Unit {0}) → Event → List Event → List Event
note_raised (ok _) e raised = raised
note_raised (raise _) e raised = e ∷ raised

-- The loop of `_fire_and_summarize_raised_events`: the events whose firing raised.
unfoldable pub fire_each : List FireEventArgs → EventManager → List Event × EventManager
fire_each [] m = ([], m)
fire_each (a ∷ as') m =
    let (outcome, m') = fire_event a m in
    let (raised, m'') = fire_each as' m' in (note_raised outcome a.event raised, m'')

-- `"\n".join(e.message() for e in raised_events)`
unfoldable pub summary : List Event → String
summary [] = ""
summary (e ∷ []) = e.message
summary (e ∷ f ∷ es) = str_append e.message (str_append "\n" (summary (f ∷ es)))

abbrev pub summary_of : List Event → Option String
summary_of [] = none
summary_of (e ∷ es) = some (summary (e ∷ es))

unfoldable pub fire_and_summarize_raised_events :
    EventGroupType → EventManager → Option String × EventManager
fire_and_summarize_raised_events group m =
    let (raised, m') = fire_each (deferred group m) (set_deferred group [] m) in
    (summary_of raised, m')

abbrev pub raise_summary : Option String → Outcome EventCompilationError (Unit {0})
raise_summary none = ok tt
raise_summary (some s) = raise (record { text = s; node = none })

unfoldable pub fire_deferred_events : EventGroupType → EventManager → Result
fire_deferred_events group m =
    let (raised, m') = fire_and_summarize_raised_events group m in (raise_summary raised, m')
