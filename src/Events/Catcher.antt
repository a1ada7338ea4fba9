-- ===== src/Events/Catcher.antt =====
-- `EventCatcher` of dbt_common/events/event_catcher.py: a callback that keeps some messages.
use text.Mathlib.Text.{◌==◌}
use mathlib.Core.List.{append_assoc, append-nil}
use dbt_common.Common.{
  String, Bool, true, ◌&&◌, Option, none, some, List, [], ◌∷◌, ◌++◌, keep, if◌then◌else◌,
  Bool-cases, Option-cases, arith, inl, inr, ◌≡◌, refl, sym, ◌∙◌,
}
use dbt_common.Events.Manager.{EventMsg}

-- The class of events to catch is its name.
pub record EventCatcher : Type 0 where
  pub event_to_catch : Option String
  pub caught_events : List EventMsg
  pub predicate : EventMsg → Bool

check_event_type : EventCatcher → EventMsg → Bool
check_event_type c event = elim c.event_to_catch [ none ↦ true | some name ↦ event.name == name ]

pub catch : EventMsg → EventCatcher → EventCatcher
catch event c =
    if check_event_type c event && c.predicate event
    then record c { caught_events = c.caught_events ++ event ∷ [] }
    else c

pub flush : EventCatcher → EventCatcher
flush c = record c { caught_events = [] }

abbrev pub catch_all : List EventMsg → EventCatcher → EventCatcher
catch_all [] c = c
catch_all (e ∷ es) c = catch_all es (catch e c)

-- What a catcher is meant to keep: messages that its predicate accepts, of the class to catch, if
-- there is one.
abbrev pub wants : EventCatcher → EventMsg → Bool
wants c event =
    c.predicate event && elim c.event_to_catch [ none ↦ true | some name ↦ event.name == name ]

wants-check :
    (c : EventCatcher) (e : EventMsg) → (check_event_type c e && c.predicate e) ≡ wants c e
unfolding check_event_type
wants-check c e = elim (Option-cases c.event_to_catch) [
  | inl any ↦ rw (any, check_event_type) (ground arith)
  | inr (name, h) ↦ rw (h, check_event_type) (ground arith)
]

wants-catch : (c : EventCatcher) (e d : EventMsg) → wants (catch e c) d ≡ wants c d
unfolding catch check_event_type
wants-catch c e d = elim (Bool-cases (wants c e)) [
  | inl yes_it_is ↦ rw (catch, wants-check c e, yes_it_is) refl
  | inr other ↦ rw (catch, wants-check c e, other) refl
]

keep-wants-catch :
    (c : EventCatcher) (e : EventMsg) (es : List EventMsg)
    → keep (wants (catch e c)) es ≡ keep (wants c) es
keep-wants-catch c e [] = refl
keep-wants-catch c e (d ∷ es) = rw (wants-catch c e d, keep-wants-catch c e es) refl

caught-catch :
    (c : EventCatcher) (e : EventMsg) (behind : List EventMsg)
    → (catch e c).caught_events ++ behind
      ≡ c.caught_events ++ (if wants c e then e ∷ behind else behind)
unfolding catch
caught-catch c e behind = elim (Bool-cases (wants c e)) [
  | inl wanted ↦ rw (catch, wants-check c e, wanted) (append_assoc c.caught_events (e ∷ []) behind)
  | inr other ↦ rw (catch, wants-check c e, other) refl
]

caught-catch_all :
    (es : List EventMsg) (c : EventCatcher)
    → (catch_all es c).caught_events ≡ c.caught_events ++ keep (wants c) es
caught-catch_all [] c = sym (append-nil c.caught_events)
caught-catch_all (e ∷ es) c =
    caught-catch_all es (catch e c)
    ∙ rw (keep-wants-catch c e es) (caught-catch c e (keep (wants c) es))

-- A catcher that was flushed holds, after any messages, in their order, those that its predicate accepts and whose name is that of the class to catch, if there is one.
pub caught-catch_all-flush :
    (es : List EventMsg) (c : EventCatcher)
    → (catch_all es (flush c)).caught_events ≡ keep (wants c) es
unfolding flush check_event_type
caught-catch_all-flush es c = caught-catch_all es (flush c)
