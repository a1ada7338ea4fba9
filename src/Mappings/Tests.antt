-- ===== src/Mappings/Tests.antt =====
-- The theorems about the functions on dictionaries at concrete inputs.
use Prim.Native.Nat.{ℕ, ◌+◌}
use dbt_common.Common.{String, Option, none, some, List, [], ◌∷◌, ◌≡◌, refl}
use dbt_common.Common.Dict.{Dict, lookup, insert}
use dbt_common.Common.Outcome.{ok}
use dbt_common.Config.Value.{number, str, list, dict, Entries, nil, cons, end, entry}
use dbt_common.Mappings.Merge.{filter_null_values, merge, deep_merge, deep_merge_entries}
use dbt_common.Mappings.Merging.{
  present, lookup-filter_null_values, at_key, last_held, lookup-merge,
}
use dbt_common.Mappings.Deep.{IsKeyed, Merged, deep_merge-Merged}
use dbt_common.Mappings.Render.{
  Node, Nodes, Fields, Func, index, key, deep_map_render, deep_map_at, atom, other,
}
use dbt_common.Mappings.Rendered.{
  Holds, here, in_dict, in_list, first, further, there, by_index, by_key, deep_map_render-Holds,
  deep_map_render-unexpected_type,
}

abbrev settings : Dict (Option ℕ)
settings = ("threads", some 4) ∷ ("port", none) ∷ []

lookup-filter_null_values_run :
    lookup "port" (filter_null_values settings) ≡ present (lookup "port" settings)
lookup-filter_null_values_run =
    lookup-filter_null_values "port" settings (unfold lookup in (refl, (refl, tt)))

abbrev numbers : List (Dict ℕ)
numbers = (("a", 1) ∷ ("b", 2) ∷ []) ∷ (("a", 2) ∷ []) ∷ (("a", 3) ∷ ("c", 1) ∷ []) ∷ []

lookup-merge_example : at_key "a" (merge numbers) ≡ last_held "a" none numbers
lookup-merge_example =
    lookup-merge "a" numbers
      (unfold lookup in ((refl, (refl, tt)), ((refl, tt), ((refl, (refl, tt)), tt))))

abbrev base : Entries
base = entry "tags" (list (cons (str "b") nil)) (entry "vars" (dict (entry "x" (number 1) end)) end)

abbrev overlay : Entries
overlay =
    entry "tags" (list (cons (str "a") nil)) (entry "vars" (dict (entry "y" (number 2) end)) end)

abbrev both : Entries
both =
    entry "tags" (list (cons (str "a") (cons (str "b") nil)))
      (entry "vars" (dict (entry "x" (number 1) (entry "y" (number 2) end))) end)

run_deep : deep_merge (dict base ∷ dict overlay ∷ []) ≡ ok (dict both)
unfolding deep_merge deep_merge_entries lookup insert
run_deep = refl

overlay-IsKeyed : IsKeyed (dict overlay)
unfolding IsKeyed lookup
overlay-IsKeyed = (refl, tt, (refl, (refl, tt, tt), tt))

deep_merge-Merged_example : Merged (some (dict base)) (dict overlay) (dict both)
deep_merge-Merged_example = deep_merge-Merged base overlay (dict both) overlay-IsKeyed run_deep

-- Keys are texts or numbers, as YAML has them; the text of the number 1 is "1".
pub data Key : Type 0 where
  text_key : String → Key
  one : Key

abbrev str_of : Key → String
str_of (text_key s) = s
str_of one = "1"

abbrev increased : Func Key ℕ
increased n keypath = ok (atom (n + 1))

abbrev nested : Node Key ℕ
nested = Node.dict (
    Fields.entry one (Node.list (Nodes.cons (atom 22) (Nodes.cons (atom 80) Nodes.nil))) Fields.end)

abbrev rendered : Node Key ℕ
rendered = Node.dict (
    Fields.entry one (Node.list (Nodes.cons (atom 23) (Nodes.cons (atom 81) Nodes.nil))) Fields.end)

run_render : deep_map_render str_of increased nested ≡ ok rendered
unfolding deep_map_render deep_map_at
run_render = refl

deep_map_render-Holds_example :
    (mapped : Node Key ℕ) × (increased 80 (key "1" ∷ index 1 ∷ []) ≡ ok mapped)
    × Holds rendered (by_key one ∷ by_index 1 ∷ []) mapped
deep_map_render-Holds_example =
    deep_map_render-Holds str_of increased nested rendered 80 (by_key one ∷ by_index 1 ∷ [])
      run_render (in_dict (there (in_list (further (first here)))))

deep_map_render-unexpected_type_example : ¬ (
    deep_map_render str_of increased (Node.list (Nodes.cons (other "set") Nodes.nil)) ≡ ok nested)
deep_map_render-unexpected_type_example =
    deep_map_render-unexpected_type str_of increased
      (Node.list (Nodes.cons (other "set") Nodes.nil)) "set" (by_index 0 ∷ [])
      (in_list (first here)) nested
