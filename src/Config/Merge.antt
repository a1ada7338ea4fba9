-- ===== src/Config/Merge.antt =====
-- `_listify`, `_merge_field_value` and `merge_config_dicts` of dbt_common/contracts/config/base.py.
use Prim.Native.String.{String}
use Prim.Native.Char.{code}
use text.Mathlib.Text.{starts_with, ◌==◌ as str_eq}
use dbt_common.Common.{
  Bool, true, false, Option, none, some, List, [], ◌∷◌, ◌++◌, ◌==◌, if◌then◌else◌,
}
use dbt_common.Common.Dict.{Dict, lookup, insert, update, mem}
use dbt_common.Common.Outcome.{Outcome, ok, raise}
use dbt_common.Config.Value.{
  Value, null, boolean, number, str, list, dict, items, of_items, entries, of_entries,
}

-- `expected dict, got …`, `got conflicting types: …`, and Python's own error where a value has not
-- the method or the item assignment that is called.
pub data ConfigFault : Type 0 where
  expected_dict : Value → ConfigFault
  conflicting_types : String → String → ConfigFault
  unsupported : ConfigFault

pub data MergeBehavior : Type 0 where
  append update_dict clobber dict_key_append object : MergeBehavior

-- `_listify`
unfoldable pub listify : Value → List Value
listify (list xs) = items xs
listify null = null ∷ []
listify (boolean b) = boolean b ∷ []
listify (number n) = number n ∷ []
listify (str s) = str s ∷ []
listify (dict d) = dict d ∷ []

abbrev listified : Value → Value
listified v = list (of_items (listify v))

abbrev appended : Value → Value → Value
appended a b = list (of_items (listify a ++ listify b))

-- `{key: _listify(d[key]) for key in d}`
unfoldable listify_values : Dict Value → Dict Value
unfolding listify
listify_values [] = []
listify_values ((k, v) ∷ d) = (k, listified v) ∷ listify_values d

-- `key.lstrip("+")`
unfoldable lstrip_plus : String → String
lstrip_plus String.[] = String.[]
lstrip_plus (String.◌∷◌ c s) = if code c == b'+' then lstrip_plus s else String.◌∷◌ c s

-- Store at a key: add to the list that is there, or clobber it.
abbrev extend_or_set : Bool → String → Value → Dict Value → Dict Value
extend_or_set extend key value d = elim (lookup key d) [
  | some old ↦
      (if extend then insert key (appended old value) d else insert key (listified value) d)
  | none ↦ insert key (listified value) d
]

-- One round of the loop over `other_value` in the `DictKeyAppend` case: a leading "+" is dropped.
unfoldable append_key : Dict Value → String → Value → Dict Value
unfolding listify insert lookup lstrip_plus
append_key d key value =
    if starts_with key "+"
    then extend_or_set true (lstrip_plus key) value d
    else extend_or_set false key value d

unfoldable append_keys : Dict Value → Dict Value → Dict Value
unfolding append_key
append_keys d [] = d
append_keys d ((k, v) ∷ other) = append_keys (append_key d k v) other

abbrev pub type_name : Value → String
type_name null = "NoneType"
type_name (boolean b) = "bool"
type_name (number n) = "int"
type_name (str s) = "str"
type_name (list xs) = "list"
type_name (dict d) = "dict"

-- The two dictionaries, or the complaint about the first value that is none.
abbrev two_dicts {ℓ} :
    {A : Type ℓ} → Value → Value → (Dict Value → Dict Value → A) → Outcome ConfigFault A
two_dicts (dict a) (dict b) f = ok (f (entries a) (entries b))
two_dicts (dict a) v f = raise (expected_dict v)
two_dicts v w f = raise (expected_dict v)

-- `self_value.copy()` and `new_value.update(other_value)`, which only dictionaries both have.
abbrev merge_objects : Value → Value → Outcome ConfigFault Value
merge_objects (dict a) (dict b) = ok (dict (of_entries (update (entries a) (entries b))))
merge_objects a b = raise unsupported

unfoldable pub merge_field_value : MergeBehavior → Value → Value → Outcome ConfigFault Value
unfolding listify listify_values append_keys update
merge_field_value clobber self other = ok other
merge_field_value append self other = ok (appended self other)
merge_field_value update_dict self other =
    two_dicts self other (λ a b. dict (of_entries (update a b)))
merge_field_value dict_key_append self other =
    two_dicts self other (λ a b. dict (of_entries (append_keys (listify_values a) b)))
merge_field_value object self other =
    if str_eq (type_name self) (type_name other)
    then merge_objects self other
    else raise (conflicting_types (type_name self) (type_name other))

-- `BaseConfig.mergebehavior`
abbrev pub append_fields : List String
append_fields = "pre-hook" ∷ "pre_hook" ∷ "post-hook" ∷ "post_hook" ∷ "tags" ∷ "packages" ∷ []

abbrev pub update_fields : List String
update_fields = "quoting" ∷ "column_types" ∷ "meta" ∷ "docs" ∷ "contract" ∷ []

abbrev pub dict_key_append_fields : List String
dict_key_append_fields = "grants" ∷ []

abbrev pub object_fields : List String
object_fields = "snapshot_meta_column_names" ∷ []

-- The branches of `merge_config_dicts` for a key, in the order of its tests.
unfoldable pub behavior_of : String → MergeBehavior
behavior_of k =
    if mem k append_fields
    then append
    else if mem k update_fields
    then update_dict
    else if mem k dict_key_append_fields
    then dict_key_append
    else if mem k object_fields
    then object
    else clobber

-- The inner loop for "grants": the key keeps a leading "+".
unfoldable grant_key : Dict Value → String → Value → Dict Value
unfolding listify insert lookup
grant_key d key value = extend_or_set (starts_with key "+") key value d

unfoldable grant_keys : Dict Value → Dict Value → Dict Value
unfolding grant_key
grant_keys d [] = d
grant_keys d ((k, v) ∷ other) = grant_keys (grant_key d k v) other

-- What a dictionary becomes at a key that `new_dict` has, from what was there.
abbrev merge_append : Option Value → Value → Outcome ConfigFault Value
merge_append none v = ok (listified v)
merge_append (some old) v = ok (appended old v)

abbrev merge_update : Option Value → Value → Outcome ConfigFault Value
merge_update (some (dict old)) (dict d) = ok (dict (of_entries (update (entries old) (entries d))))
merge_update _ (dict d) = ok (dict d)
merge_update _ v = raise (expected_dict v)

abbrev merge_grants : Option Value → Value → Outcome ConfigFault Value
merge_grants (some (dict old)) (dict d) =
    ok (dict (of_entries (grant_keys (listify_values (entries old)) (entries d))))
merge_grants none (dict d) = ok (dict (of_entries (listify_values (entries d))))
merge_grants (some old) (dict d) = raise unsupported
merge_grants _ v = raise (expected_dict v)

-- `orig_dict[k][obj_k] = obj_v` for every item of `v`; what is there must take items if there is one.
abbrev merge_items : Option Value → Value → Outcome ConfigFault Value
merge_items (some (dict old)) (dict d) = ok (dict (of_entries (update (entries old) (entries d))))
merge_items none (dict d) = ok (dict (of_entries (update [] (entries d))))
merge_items (some old) (dict d) = elim (entries d) [ [] ↦ ok old | e ∷ es ↦ raise unsupported ]
merge_items _ v = raise (expected_dict v)

unfoldable pub merge_key : MergeBehavior → Option Value → Value → Outcome ConfigFault Value
unfolding listify listify_values grant_keys update
merge_key append old v = merge_append old v
merge_key update_dict old v = merge_update old v
merge_key dict_key_append old v = merge_grants old v
merge_key object old v = merge_items old v
merge_key clobber old v = ok v

-- The loop over `new_dict.items()`. It stores what was merged before an exception, too: the second
-- part is the dictionary as the loop leaves it.
unfoldable pub merge_each : Dict Value → Dict Value → Outcome ConfigFault (Unit {0}) × Dict Value
merge_each orig [] = (ok tt, orig)
merge_each orig ((k, v) ∷ new) = elim (merge_key (behavior_of k) (lookup k orig) v) [
  | ok merged ↦ merge_each (insert k merged orig) new
  | raise fault ↦ (raise fault, orig)
]

unfoldable pub merge_config_dicts :
    Dict Value → Dict Value → Outcome ConfigFault (Unit {0}) × Dict Value
unfolding merge_each update
merge_config_dicts [] new = (ok tt, update [] new)
merge_config_dicts (e ∷ orig) new = merge_each (e ∷ orig) new
