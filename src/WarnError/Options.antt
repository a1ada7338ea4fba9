-- ===== src/WarnError/Options.antt =====
-- `IncludeExclude`, `WarnErrorOptionsV2` and `WarnErrorOptions` of dbt_common/helper_types.py. An
-- event is its class name and its code. A field that is a text or a list of texts is a `Selection`.
use Prim.Native.String.{String}
use text.Mathlib.Text.{starts_with}
use dbt_common.Common.{
  Bool, true, false, ◌&&◌, ◌||◌, not, Option, none, some, List, [], ◌∷◌, if◌then◌else◌,
}
use dbt_common.Common.Dict.{mem, contains}
use dbt_common.Common.Outcome.{Outcome, ok, raise, ◌>>◌}

-- The messages of `ValidationError`, by the check that fails.
pub data ValidationError : Type 0 where
  include_not_valid exclude_without_all error_not_valid warn_without_error : ValidationError
  not_an_error_name : String → ValidationError

-- `Union[str, List[str]]`
pub data Selection : Type 0 where
  one : String → Selection
  names : List String → Selection

-- `INCLUDE_ALL` and `ERROR_ALL`
abbrev all_names : List String
all_names = "all" ∷ "*" ∷ []

abbrev pub deprecations : String
deprecations = "Deprecations"

-- `selection in ("all", "*")`: a list is never a member.
unfoldable pub is_all : Selection → Bool
is_all (one s) = mem s all_names
is_all (names xs) = false

-- `name in selection`: membership in a list, and the test for a part in a text.
pub named_in : String → Selection → Bool
named_in name (one s) = contains name s
named_in name (names xs) = mem name xs

abbrev pub is_empty : List String → Bool
is_empty [] = true
is_empty (x ∷ xs) = false

pub record IncludeExclude : Type 0 where
  pub include : Selection
  pub exclude : List String

abbrev pub is_text_not_all : Selection → Bool
is_text_not_all (one s) = not (mem s all_names)
is_text_not_all (names xs) = false

-- The constructor with its `__post_init__`; `_validate_items` of this class does nothing.
unfoldable include_exclude : Selection → List String → Outcome ValidationError IncludeExclude
unfolding is_all
include_exclude include exclude =
    if is_text_not_all include
    then raise include_not_valid
    else if not (is_empty exclude) && not (is_all include)
    then raise exclude_without_all
    else ok (record { include = include; exclude = exclude })

unfoldable ie_includes : IncludeExclude → String → Bool
unfolding named_in is_all
ie_includes o item = (named_in item o.include || is_all o.include) && not (mem item o.exclude)

pub record WarnErrorOptionsV2 : Type 0 where
  pub error : Selection
  pub warn : List String
  pub silence : List String
  pub valid_error_names : List String

-- `_validate_items`: the first name that is not valid is refused.
unfoldable pub validate_items : List String → List String → Outcome ValidationError (Unit {0})
validate_items valid [] = ok tt
validate_items valid (item ∷ items) =
    let rest = validate_items valid items in
    if mem item valid then rest else raise (not_an_error_name item)

abbrev pub validate_selection : List String → Selection → Outcome ValidationError (Unit {0})
validate_selection valid (one s) = ok tt
validate_selection valid (names xs) = validate_items valid xs

-- `__post_init__`
unfoldable pub post_init : WarnErrorOptionsV2 → Outcome ValidationError WarnErrorOptionsV2
post_init o =
    if is_text_not_all o.error
    then raise error_not_valid
    else if not (is_empty o.warn)
        && not (is_all o.error || (named_in deprecations o.error || mem deprecations o.silence))
    then raise warn_without_error
    else do
      validate_selection o.valid_error_names o.error
      validate_items o.valid_error_names o.warn
      validate_items o.valid_error_names o.silence
      ok o

abbrev list_or_empty : Option (List String) → List String
list_or_empty none = []
list_or_empty (some xs) = xs

abbrev selection_or_empty : Option Selection → Selection
selection_or_empty none = names []
selection_or_empty (some s) = s

-- `WarnErrorOptionsV2.__init__`; the set of valid names always has the deprecations.
unfoldable warn_error_options_v2 :
    Option Selection
    → Option (List String)
    → Option (List String)
    → Option (List String)
    → Outcome ValidationError WarnErrorOptionsV2
unfolding post_init
warn_error_options_v2 error warn silence valid = post_init (record {
  error = selection_or_empty error;
  warn = list_or_empty warn;
  silence = list_or_empty silence;
  valid_error_names = deprecations ∷ list_or_empty valid;
})

-- `WarnErrorOptions.__init__`: what counts is the new-style object that it builds.
unfoldable pub warn_error_options :
    Selection
    → Option (List String)
    → Option (List String)
    → Option (List String)
    → Outcome ValidationError WarnErrorOptionsV2
unfolding warn_error_options_v2
warn_error_options include exclude valid silence =
    warn_error_options_v2 (some include) (some (list_or_empty exclude))
      (some (list_or_empty silence)) (some (deprecations ∷ list_or_empty valid))

-- An event, by its class name and its code; a bare name has no event.
pub data Item : Type 0 where
  by_name : String → Item
  by_event : (name code : String) → Item

abbrev pub item_name : Item → String
item_name (by_name n) = n
item_name (by_event n c) = n

-- `event is not None and event.code().startswith("D")`
pub is_deprecation : Item → Bool
is_deprecation (by_name n) = false
is_deprecation (by_event n c) = starts_with c "D"

module _ (o : WarnErrorOptionsV2) (item : Item) where
  unfoldable named_error : Bool
  unfolding named_in
  named_error = named_in (item_name item) o.error

  unfoldable named_warn : Bool
  named_warn = mem (item_name item) o.warn

  unfoldable named_silence : Bool
  named_silence = mem (item_name item) o.silence

  unfoldable error_as_deprecation : Bool
  unfolding is_deprecation named_in
  error_as_deprecation = is_deprecation item && named_in deprecations o.error

  unfoldable warn_as_deprecation : Bool
  unfolding is_deprecation
  warn_as_deprecation = is_deprecation item && mem deprecations o.warn

  unfoldable silence_as_deprecation : Bool
  unfolding is_deprecation
  silence_as_deprecation = is_deprecation item && mem deprecations o.silence

  unfoldable pub errors : Bool
  unfolding named_error named_warn named_silence error_as_deprecation warn_as_deprecation
      silence_as_deprecation is_all
  errors =
      let named_elsewhere = named_warn || named_silence in
      let deprecation_elsewhere = warn_as_deprecation || silence_as_deprecation in
      if named_error && not named_elsewhere
      then true
      else if error_as_deprecation && not (named_elsewhere || deprecation_elsewhere)
      then true
      else if is_all o.error && not (named_elsewhere || deprecation_elsewhere)
      then true
      else false

  unfoldable includes : Bool
  unfolding errors
  includes = errors

  unfoldable pub silenced : Bool
  unfolding named_error named_warn named_silence silence_as_deprecation
  silenced =
      let named_elsewhere = named_error || named_warn in
      if named_silence
      then true
      else if silence_as_deprecation && not named_elsewhere
      then true
      else false
