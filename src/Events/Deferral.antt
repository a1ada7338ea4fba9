-- ===== src/Events/Deferral.antt =====
-- Firing and deferring events (dbt_common/events/event_manager.py): what is decided for an event, and
-- how events that were deferred are handled.
use dbt_common.Common.{
  Bool, true, ◌&&◌, ◌||◌, List, [], ◌∷◌, ◌++◌, ◌≡◌, refl, ap, ap₂, ◌∙◌, sym, arith, if◌then◌else◌,
}
use mathlib.Core.List.{append_assoc, append-nil}
use dbt_common.Common.Outcome.{raise}
use dbt_common.WarnError.Precedence.{
  Handling, as_error, as_warning, as_silenced, handling, errors-silenced-handling,
}
use dbt_common.Events.Manager.{
  Event, EventGroupType, default_group, parse_group, FireEventArgs, EventCompilationError,
  EventManager, warn_error, warn_error_options, msg_from_base_event, level_eq_warn, Verdict, raises,
  drops, delivers, verdict, item_of, act, deliver, fire_event, deferred, set_deferred,
  fire_or_defer_event, fire_each, fire_and_summarize_raised_events, fire_deferred_events,
  raise_summary, note_raised, summary_of,
}

-- Whether the warn-or-error rules apply: they are asked for, or the manager wants them for warnings.
abbrev pub is_handled : EventManager → FireEventArgs → Bool
is_handled m a =
    a.force_warn_or_error_handling
    || m.require_warn_or_error_handling && level_eq_warn (msg_from_base_event a.event a.level).level

abbrev pub verdict_of : Handling → Verdict
verdict_of as_error = raises
verdict_of as_silenced = drops
verdict_of as_warning = delivers

-- An event to which the warn-or-error rules do not apply is delivered; else it raises under
-- `warn_error`, and otherwise raises, is dropped or is delivered as the documented hierarchy of the
-- options says.
pub verdict-handling :
    (m : EventManager) (a : FireEventArgs)
    → verdict m a ≡ (
        if is_handled m a
        then (if warn_error m
            then raises
            else verdict_of (handling (warn_error_options m) (item_of a.event)))
        else delivers)
unfolding verdict
verdict-handling m a =
    let h = errors-silenced-handling (warn_error_options m) (item_of a.event) in
    ground (arith, h.0, h.1)

-- A call of `fire_event` that raises leaves the manager as it was.
fire_event-raise :
    (a : FireEventArgs) (m : EventManager) {e : EventCompilationError}
    → (fire_event a m).0 ≡ raise e
    → (fire_event a m).1 ≡ m
unfolding fire_event
fire_event-raise a m h = ground arith

-- Deferring events one after the other.
abbrev pub defer_all : EventGroupType → List FireEventArgs → EventManager → EventManager
defer_all group [] m = m
defer_all group (a ∷ as') m = defer_all group as' (fire_or_defer_event group a m).1

-- Firing them one after the other, whatever they raise.
abbrev pub fire_all : List FireEventArgs → EventManager → EventManager
fire_all [] m = m
fire_all (a ∷ as') m = fire_all as' (fire_event a m).1

abbrev add_raising : Verdict → Event → List Event → List Event
add_raising raises e es = e ∷ es
add_raising drops e es = es
add_raising delivers e es = es

-- The events that raise, in a manager with given options.
abbrev pub raising : EventManager → List FireEventArgs → List Event
raising m [] = []
raising m (a ∷ as') = add_raising (verdict m a) a.event (raising m as')

verdict-fire_event :
    (a b : FireEventArgs) (m : EventManager) → verdict (fire_event a m).1 b ≡ verdict m b
unfolding fire_event verdict deliver
verdict-fire_event a b m = fired (verdict m a)
  where
    fired : (v : Verdict) → verdict (act v a m).1 b ≡ verdict m b
    fired raises = refl
    fired drops = refl
    fired delivers = refl

raising-fire_event :
    (a : FireEventArgs) (m : EventManager) (as' : List FireEventArgs)
    → raising (fire_event a m).1 as' ≡ raising m as'
raising-fire_event a m [] = refl
raising-fire_event a m (b ∷ as') =
    ap₂ (λ v es. add_raising v b.event es) (verdict-fire_event a b m) (raising-fire_event a m as')

note_raised-fire_event :
    (a : FireEventArgs) (m : EventManager) (es : List Event)
    → note_raised (fire_event a m).0 a.event es ≡ add_raising (verdict m a) a.event es
unfolding fire_event
note_raised-fire_event a m es = noted (verdict m a)
  where
    noted : (v : Verdict) → note_raised (act v a m).0 a.event es ≡ add_raising v a.event es
    noted raises = refl
    noted drops = refl
    noted delivers = refl

fire_each-lem :
    (as' : List FireEventArgs) (m : EventManager)
    → fire_each as' m ≡ (raising m as', fire_all as' m)
unfolding fire_each
fire_each-lem [] m = refl
fire_each-lem (a ∷ as') m = rw (fire_each-lem as' (fire_event a m).1) (
    ap (λ (es : List Event). (es, fire_all as' (fire_event a m).1))
      (note_raised-fire_event a m _
        ∙ ap (add_raising (verdict m a) a.event) (raising-fire_event a m as')))

set_deferred-set_deferred :
    (group : EventGroupType) (xs ys : List FireEventArgs) (m : EventManager)
    → set_deferred group ys (set_deferred group xs m) ≡ set_deferred group ys m
set_deferred-set_deferred default_group xs ys m = refl
set_deferred-set_deferred parse_group xs ys m = refl

set_deferred_self :
    (group : EventGroupType) (m : EventManager) → set_deferred group (deferred group m) m ≡ m
set_deferred_self default_group m = refl
set_deferred_self parse_group m = refl

deferred-set_deferred :
    (group : EventGroupType) (xs : List FireEventArgs) (m : EventManager)
    → deferred group (set_deferred group xs m) ≡ xs
deferred-set_deferred default_group xs m = refl
deferred-set_deferred parse_group xs m = refl

allow_deferral-set_deferred :
    (group : EventGroupType) (xs : List FireEventArgs) (m : EventManager)
    → (set_deferred group xs m).allow_deferral ≡ m.allow_deferral
allow_deferral-set_deferred default_group xs m = refl
allow_deferral-set_deferred parse_group xs m = refl

defer_one :
    (group : EventGroupType) (a : FireEventArgs) (m : EventManager)
    → m.allow_deferral ≡ true
    → (fire_or_defer_event group a m).1 ≡ set_deferred group (deferred group m ++ a ∷ []) m
unfolding fire_or_defer_event
defer_one group a m h = ground arith

-- What `fire_deferred_events` does with a group that holds given events.
fire_deferred-set_deferred :
    (group : EventGroupType) (as' : List FireEventArgs) (m : EventManager)
    → deferred group m ≡ []
    → fire_deferred_events group (set_deferred group as' m)
      ≡ (raise_summary (summary_of (raising m as')), fire_all as' m)
unfolding fire_deferred_events fire_and_summarize_raised_events
fire_deferred-set_deferred group as' m e =
    rw (deferred-set_deferred, set_deferred-set_deferred)
      (ap (λ n. let (es, m') = fire_each as' n in (raise_summary (summary_of es), m'))
          (ap (λ xs. set_deferred group xs m) (sym e) ∙ set_deferred_self group m)
        ∙ ap (λ r. (raise_summary (summary_of r.0), r.1)) (fire_each-lem as' m))

defer_all-lem :
    (group : EventGroupType) (as' : List FireEventArgs) (m : EventManager)
    → m.allow_deferral ≡ true
    → defer_all group as' m ≡ set_deferred group (deferred group m ++ as') m
defer_all-lem group [] m h = rw append-nil (sym (set_deferred_self group m))
defer_all-lem group (a ∷ as') m h =
    ap (defer_all group as') (defer_one group a m h)
    ∙ defer_all-lem group as' (set_deferred group (deferred group m ++ a ∷ []) m)
        (allow_deferral-set_deferred group _ m ∙ h)
    ∙ rw (deferred-set_deferred, set_deferred-set_deferred, append_assoc)

-- Where deferral is allowed and the group is empty, deferring events and then firing the group ends
-- in the manager that firing them one after the other gives; it raises exactly if one of them
-- raises, and the summary joins the messages of those, in order.
pub fire_deferred-defer_all :
    (group : EventGroupType) (as' : List FireEventArgs) (m : EventManager)
    → m.allow_deferral ≡ true
    → deferred group m ≡ []
    → fire_deferred_events group (defer_all group as' m)
      ≡ (raise_summary (summary_of (raising m as')), fire_all as' m)
fire_deferred-defer_all group as' m h e =
    ap (fire_deferred_events group)
      (defer_all-lem group as' m h ∙ ap (λ xs. set_deferred group (xs ++ as') m) e)
    ∙ fire_deferred-set_deferred group as' m e
