-- ===== src/Mappings/Merge.antt =====
-- The merges of dbt_common/utils/dict.py. A tuple in a value is a list here, as YAML and JSON give
-- none. The functions change a copy that nothing else holds, so a copy is the value.
use Prim.Native.String.{String}
use dbt_common.Common.{Option, none, some, List, [], ◌∷◌, ◌++◌}
use dbt_common.Common.Dict.{Dict, lookup, insert, update}
use dbt_common.Common.Outcome.{Outcome, ok, raise, ◌>>=◌}
use dbt_common.Config.Value.{
  Value, null, boolean, number, str, list, dict, Items, Entries, end, entry, items, of_items,
  entries, of_entries,
}

-- `filter_null_values`
unfoldable pub filter_null_values {ℓ} : {V : Type ℓ} → Dict (Option V) → Dict V
filter_null_values [] = []
filter_null_values ((k, none) ∷ d) = filter_null_values d
filter_null_values ((k, some v) ∷ d) = (k, v) ∷ filter_null_values d

-- `_merge`, and `merge` of all arguments but none: the first ones are merged before the last.
abbrev merge_two {ℓ} : {V : Type ℓ} → Dict V → Dict V → Dict V
merge_two a b = update a b

-- The arguments, the last one first.
abbrev pub merge_reversed {ℓ} : {V : Type ℓ} → Dict V → List (Dict V) → Dict V
merge_reversed last [] = last
merge_reversed last (before ∷ firsts) = merge_two (merge_reversed before firsts) last

abbrev pub reverse_onto {ℓ} : {A : Type ℓ} → List A → List A → List A
reverse_onto [] ys = ys
reverse_onto (x ∷ xs) ys = reverse_onto xs (x ∷ ys)

abbrev pub of_reversed {ℓ} : {V : Type ℓ} → List (Dict V) → Option (Dict V)
of_reversed [] = none
of_reversed (last ∷ firsts) = some (merge_reversed last firsts)

unfoldable pub merge {ℓ} : {V : Type ℓ} → List (Dict V) → Option (Dict V)
merge args = of_reversed (reverse_onto args [])

-- What the merge raises: `list` of what cannot be iterated, or `setdefault` and item assignment on
-- what is not a dictionary.
pub data MergeFault : Type 0 where
  not_iterable not_a_dict : MergeFault

-- The key of each item of a dictionary: a dictionary is iterated by its keys.
abbrev key_items : Entries → List Value
key_items end = []
key_items (entry k v es) = str k ∷ key_items es

-- `list(value)`: a text is iterated by its characters.
abbrev pub characters : String → List Value
characters String.[] = []
characters (String.◌∷◌ c s) = str (String.◌∷◌ c String.[]) ∷ characters s

abbrev pub list_of : Value → Outcome MergeFault (List Value)
list_of null = raise not_iterable
list_of (boolean b) = raise not_iterable
list_of (number n) = raise not_iterable
list_of (str s) = ok (characters s)
list_of (list vs) = ok (items vs)
list_of (dict es) = ok (key_items es)

-- `destination[key] = …`
abbrev pub store : Entries → String → Value → Value
store d key value = dict (of_entries (insert key value (entries d)))

-- `destination.setdefault(key, {})`
abbrev node_of : Option Value → Value
node_of none = dict end
node_of (some v) = v

abbrev prepend : Items → Option Value → Outcome MergeFault Value
prepend vs none = ok (list vs)
prepend vs (some held) = list_of held >>= λ old. ok (list (of_items (items vs ++ old)))

-- What the destination has at a key: only a dictionary has keys.
abbrev held_by : Value → String → Outcome MergeFault (Option Value)
held_by (dict d) key = ok (lookup key (entries d))
held_by _ key = raise not_a_dict

abbrev pub assign : Value → String → Value → Outcome MergeFault Value
assign (dict d) key value = ok (store d key value)
assign _ key value = raise not_a_dict

unfoldable mutual
  -- The loop of `_deep_merge`: each round is a call of `deep_merge_item`.
  pub deep_merge_entries : Value → Entries → Outcome MergeFault Value
  deep_merge_entries destination end = ok destination
  deep_merge_entries destination (entry key value rest) = held_by destination key >>= λ held.
      deep_merge_value held value >>= λ merged.
      assign destination key merged >>= λ changed. deep_merge_entries changed rest

  -- What `deep_merge_item` assigns to the key, from what the destination has there.
  pub deep_merge_value : Option Value → Value → Outcome MergeFault Value
  deep_merge_value held (dict source) = deep_merge_entries (node_of held) source
  deep_merge_value held (list vs) = prepend vs held
  deep_merge_value held null = ok null
  deep_merge_value held (boolean b) = ok (boolean b)
  deep_merge_value held (number n) = ok (number n)
  deep_merge_value held (str s) = ok (str s)

-- `_deep_merge`, which returns None for a source that is not a dictionary.
unfoldable deep_merge_two : Value → Value → Outcome MergeFault Value
deep_merge_two destination (dict source) = deep_merge_entries destination source
deep_merge_two destination null = ok null
deep_merge_two destination (boolean b) = ok null
deep_merge_two destination (number n) = ok null
deep_merge_two destination (str s) = ok null
deep_merge_two destination (list vs) = ok null

abbrev deep_merge_reversed : Value → List Value → Outcome MergeFault Value
deep_merge_reversed last [] = ok last
deep_merge_reversed last (before ∷ firsts) =
    deep_merge_reversed before firsts >>= λ merged. deep_merge_two merged last

abbrev deep_of_reversed : List Value → Outcome MergeFault Value
deep_of_reversed [] = ok null
deep_of_reversed (last ∷ firsts) = deep_merge_reversed last firsts

-- `deep_merge`
unfoldable pub deep_merge : List Value → Outcome MergeFault Value
unfolding deep_merge_two
deep_merge args = deep_of_reversed (reverse_onto args [])
