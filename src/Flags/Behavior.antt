-- ===== src/Flags/Behavior.antt =====
-- dbt_common/behavior_flags.py. A method returns the events that it fires, and the object behind it.
-- Whether `fire_event` raises for an event, which the event manager decides, is a parameter, the same
-- each time; Flags.Refusal has it for the event manager of Events.Manager.
use Prim.Native.String.{◌++◌ as str_append}
use text.Mathlib.Text.{◌==◌}
use dbt_common.Common.{
  String, Bool, true, false, not, ◌&&◌, Option, none, some, List, [], ◌∷◌, if◌then◌else◌,
}
use dbt_common.Common.Dict.{Dict, lookup}
use dbt_common.Common.Outcome.{Outcome, ok, raise, ◌>>=◌}
use dbt_common.Config.Value.{Value, boolean, null, number, str, list, dict}

-- `BehaviorFlag`; a key that is not required may be missing.
pub record BehaviorFlag : Type 0 where
  pub name : String
  pub default : Bool
  pub source : Option String
  pub description : Option String
  pub docs_url : Option String

pub record BehaviorChangeEvent : Type 0 where
  pub flag_name : String
  pub flag_source : String
  pub description : String
  pub docs_url : String

pub data FlagFault : Type 0 where
  no_text : FlagFault
  not_registered : String → FlagFault

pub record BehaviorFlagRendered : Type 0 where
  pub name : String
  pub setting_attr : Value
  pub event : BehaviorChangeEvent
  pub fired : Bool

abbrev pub or_else {ℓ} : {A : Type ℓ} → Option A → A → A
or_else none a = a
or_else (some b) a = b

-- `_validate`: a description or an address must be there.
abbrev pub lacks_text : BehaviorFlag → Bool
lacks_text flag = elim flag.description [
  | none ↦ elim flag.docs_url [ none ↦ true | some u ↦ false ]
  | some d ↦ false
]

abbrev default_description : String → String
default_description name =
    str_append "The behavior controlled by `" (str_append name "` is currently turned off.\n")

abbrev pub default_docs_url : String
default_docs_url = "https://docs.getdbt.com/reference/global-configs/behavior-changes"

-- `BehaviorFlagRendered.__init__`; the default source, which the interpreter's stack gives, is an argument.
unfoldable pub rendered :
    String → Dict Value → BehaviorFlag → Outcome FlagFault BehaviorFlagRendered
rendered default_source user_overrides flag =
    if lacks_text flag
    then raise no_text
    else ok (record {
      name = flag.name;
      setting_attr = or_else (lookup flag.name user_overrides) (boolean flag.default);
      event = record {
        flag_name = flag.name;
        flag_source = or_else flag.source default_source;
        description = or_else flag.description (default_description flag.name);
        docs_url = or_else flag.docs_url default_docs_url;
      };
      fired = false;
    })

-- `self._setting is False`
abbrev pub is_false : Value → Bool
is_false (boolean b) = not b
is_false null = false
is_false (number n) = false
is_false (str s) = false
is_false (list vs) = false
is_false (dict d) = false

-- What a read of `setting` ends in: the value, or an exception of `fire_event`.
pub data Reading : Type 0 where
  value_of : Value → Reading
  raised : Reading

-- `setting`, which `__bool__` returns: how it ends, the events that it fires, and the object, which
-- an exception leaves as it is.
unfoldable pub setting :
    (BehaviorChangeEvent → Bool)
    → BehaviorFlagRendered
    → Reading × List BehaviorChangeEvent × BehaviorFlagRendered
setting raises flag =
    if is_false flag.setting_attr && not flag.fired
    then (if raises flag.event
        then (raised, flag.event ∷ [], flag)
        else (value_of flag.setting_attr, flag.event ∷ [], record flag { fired = true }))
    else (value_of flag.setting_attr, [], flag)

abbrev no_warn : BehaviorFlagRendered → Value
no_warn flag = flag.setting_attr

-- `Behavior.__init__`
unfoldable pub behavior :
    String → Dict Value → List BehaviorFlag → Outcome FlagFault (List BehaviorFlagRendered)
unfolding rendered
behavior default_source user_overrides [] = ok []
behavior default_source user_overrides (flag ∷ flags) = do
  first ← rendered default_source user_overrides flag
  rest ← behavior default_source user_overrides flags
  ok (first ∷ rest)

-- `Behavior.__getattr__`
unfoldable get_flag : String → List BehaviorFlagRendered → Outcome FlagFault BehaviorFlagRendered
get_flag name [] = raise (not_registered name)
get_flag name (flag ∷ flags) =
    let rest = get_flag name flags in if flag.name == name then ok flag else rest

-- The setting of the flag that `__getattr__` finds, whose object is one of the collection.
unfoldable pub read :
    (BehaviorChangeEvent → Bool)
    → String
    → List BehaviorFlagRendered
    → Outcome FlagFault (Reading × List BehaviorChangeEvent × List BehaviorFlagRendered)
unfolding setting
read raises name [] = raise (not_registered name)
read raises name (flag ∷ flags) =
    let rest = read raises name flags in
    if flag.name == name
    then (let (reading, events, flag') = setting raises flag in ok (reading, events, flag' ∷ flags))
    else (rest >>= λ (reading, events, flags'). ok (reading, events, flag ∷ flags'))
