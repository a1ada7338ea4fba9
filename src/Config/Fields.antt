-- ===== src/Config/Fields.antt =====
-- `BaseConfig` of dbt_common/contracts/config/base.py: access by key, comparison, and `update_from`.
-- An object is its attributes, by name, and its `_extra` dictionary. Its fields are a list, in the
-- order of the class, with the name under which a field is serialized and its metadata.
use Prim.Native.String.{String}
use dbt_common.Common.{
  ℕ, ◌+◌, Bool, true, false, not, Option, none, some, List, [], ◌∷◌, ◌++◌, length, if◌then◌else◌,
}
use dbt_common.Common.Dict.{Dict, lookup, insert, erase, update, has, mem, keys}
use dbt_common.Common.Outcome.{Outcome, ok, raise, ◌>>=◌}
use dbt_common.Config.Value.{Value, dict, entries}
use dbt_common.Config.Merge.{ConfigFault, MergeBehavior, merge_field_value}

pub data CompareBehavior : Type 0 where
  include exclude : CompareBehavior

-- A field: its name, its target name, and what `from_field` finds in its metadata.
pub record Field : Type 0 where
  pub name : String
  pub target : String
  pub merge_behavior : MergeBehavior
  pub compare_behavior : CompareBehavior

pub record BaseConfig : Type 0 where
  pub attributes : Dict Value
  pub extra : Dict Value

-- `hasattr(self, "meta") and key in self.meta`, and the value there. A `meta` that is no dictionary
-- is taken to have no key.
unfoldable in_meta : BaseConfig → String → Option Value
unfolding lookup
in_meta c key = elim (lookup "meta" c.attributes) [
  | some (dict d) ↦ lookup key (entries d)
  | _ ↦ none
]

-- `get`: the value, and whether the warning `GetMetaKeyWarning` is fired.
unfoldable pub get : BaseConfig → String → Value → Value × Bool
unfolding lookup in_meta
get c key default = elim (lookup key c.attributes) [
  | some v ↦ (v, false)
  | none ↦ elim (lookup key c.extra) [
    | some v ↦ (v, false)
    | none ↦ elim (in_meta c key) [ some v ↦ (default, true) | none ↦ (default, false) ]
  ]
]

unfoldable meta_get : BaseConfig → String → Value → Value
unfolding in_meta
meta_get c key default = elim (in_meta c key) [ some v ↦ v | none ↦ default ]

-- `__setitem__`
unfoldable pub set_item : BaseConfig → String → Value → BaseConfig
unfolding has insert
set_item c key value =
    if has key c.attributes
    then record c { attributes = insert key value c.attributes }
    else record c { extra = insert key value c.extra }

pub data DeleteFault : Type 0 where
  built_in_key : String → DeleteFault
  key_error : String → DeleteFault

-- `__delitem__`
unfoldable del_item : BaseConfig → String → Outcome DeleteFault BaseConfig
unfolding has erase
del_item c key =
    if has key c.attributes
    then raise (built_in_key key)
    else if has key c.extra
    then ok (record c { extra = erase key c.extra })
    else raise (key_error key)

-- The second loop of `_content_iterator`, over the keys of `_extra`.
unfoldable unseen : List String → List String → List String
unseen seen [] = []
unseen seen (k ∷ ks) = elim (mem k seen) [
  | true ↦ unseen seen ks
  | false ↦ k ∷ unseen (k ∷ seen) ks
]

unfoldable field_names : (Field → Bool) → List Field → List String
field_names p [] = []
field_names p (f ∷ fs) = let rest = field_names p fs in if p f then f.name ∷ rest else rest

-- `_content_iterator` and `__iter__`
unfoldable content_iterator : List Field → (Field → Bool) → BaseConfig → List String
unfolding field_names unseen keys
content_iterator fields include_condition c =
    field_names include_condition fields ++ unseen (field_names (λ f. true) fields) (keys c.extra)

unfoldable iter : List Field → BaseConfig → List String
unfolding content_iterator
iter fields c = content_iterator fields (λ f. true) c

-- `__len__`
unfoldable key_count : List Field → BaseConfig → ℕ
key_count fields c = length fields + length c.extra

-- `CompareBehavior.should_include`
unfoldable should_include : Field → Bool
should_include f = elim f.compare_behavior [ include ↦ true | exclude ↦ false ]

-- The comparison of two dictionaries of values with an equality test.
module _ {V : Type 0} (equal : V → V → Bool) where
  unfoldable compare_key : Dict V → Dict V → String → Bool
  unfolding lookup
  compare_key unrendered other key = elim (lookup key unrendered) [
    | none ↦ elim (lookup key other) [ none ↦ true | some w ↦ false ]
    | some v ↦ elim (lookup key other) [ none ↦ false | some w ↦ equal v w ]
  ]

  unfoldable same_fields : Dict V → Dict V → List Field → Bool
  unfolding compare_key should_include
  same_fields unrendered other [] = true
  same_fields unrendered other (f ∷ fs) =
      let rest = same_fields unrendered other fs in
      if should_include f
      then (if not (compare_key unrendered other f.target) then false else rest)
      else rest

  -- The loop over `chain(unrendered, other)`, with the keys that were seen.
  unfoldable same_rest : Dict V → Dict V → List String → List String → Bool
  unfolding compare_key
  same_rest unrendered other seen [] = true
  same_rest unrendered other seen (k ∷ ks) =
      let rest = same_rest unrendered other (if mem k seen then seen else k ∷ seen) ks in
      if mem k seen then rest else if not (compare_key unrendered other k) then false else rest

  abbrev targets : List Field → List String
  targets [] = []
  targets (f ∷ fs) = f.target ∷ targets fs

  unfoldable same_contents : List Field → Dict V → Dict V → Bool
  unfolding same_fields same_rest keys
  same_contents fields unrendered other =
      if not (same_fields unrendered other fields)
      then false
      else same_rest unrendered other (targets fields) (keys unrendered ++ keys other)

-- One value of `data` against what `src` has at its key.
abbrev pub combine : MergeBehavior → Option Value → Value → Outcome ConfigFault Value
combine behavior none value = ok value
combine behavior (some old) value = merge_field_value behavior old value

-- One round of `_merge_dicts`: the results so far, and what is left of `data`.
unfoldable pub merge_field :
    Field → Dict Value → Dict Value → Dict Value → Outcome ConfigFault (Dict Value × Dict Value)
merge_field f src result rest = elim (lookup f.target rest) [
  | none ↦ ok (result, rest)
  | some value ↦ (do
    merged ← combine f.merge_behavior (lookup f.target src) value
    ok (insert f.target merged result, erase f.target rest))
]

unfoldable pub merge_fields :
    List Field
    → Dict Value
    → Dict Value
    → Dict Value
    → Outcome ConfigFault (Dict Value × Dict Value)
merge_fields [] src result rest = ok (result, rest)
merge_fields (f ∷ fs) src result rest = do
  (result', rest') ← merge_field f src result rest
  merge_fields fs src result' rest'

-- `_merge_dicts`
unfoldable pub merge_dicts :
    List Field → Dict Value → Dict Value → Outcome ConfigFault (Dict Value × Dict Value)
merge_dicts fields src given = merge_fields fields src [] given

-- `update_from` from `to_dict` to the validation: the dictionary that is validated and read back.
unfoldable pub update_from :
    List Field → List Field → Dict Value → Dict Value → Outcome ConfigFault (Dict Value)
update_from fields adapter_fields dct given = do
  (self_merged, rest) ← merge_dicts fields dct given
  let dct' = update dct self_merged
  (adapter_merged, rest') ← merge_dicts adapter_fields dct' rest
  ok (update (update dct' adapter_merged) rest')
