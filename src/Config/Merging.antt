-- ===== src/Config/Merging.antt =====
-- What `merge_config_dicts` of dbt_common/contracts/config/base.py leaves at each key.
use Prim.Native.String.{String}
use dbt_common.Common.{
  List, ◌++◌, sym, ap, ap₂, ◌∙◌, true, false, Option, none, some, [], ◌∷◌, ◌≡◌, refl, subst,
  Bool-cases, inl, inr,
}
use dbt_common.Common.Dict.{Dict, lookup, Distinct, mem, later, update, lookup-update}
use dbt_common.Common.Outcome.{Outcome, ok, raise, >>=-eq-ok, ok-injective}
use dbt_common.Config.Value.{
  Value, null, boolean, number, str, list, dict, Items, Entries, items, entries, items-of_items,
  entries-of_entries,
}
use dbt_common.Config.Merge.{
  ConfigFault, behavior_of, merge_key, merge_each, merge_config_dicts, append, update_dict,
  expected_dict, listify, append_fields, update_fields, dict_key_append_fields, object_fields,
}
use dbt_common.Config.Rounds.{merged_at, lookup-merge_each}

-- A value as the items of a list.
abbrev listing : Value → List Value
listing (list xs) = items xs
listing v = v ∷ []

abbrev NoDict : Option Value → Type 0
NoDict (some (dict d)) = ⊥
NoDict _ = Unit

-- What is to stand at a key, from what was held, if anything, and a new value: the items of both for
-- the keys that collect, an update of the dictionary for the keys that update, and else the new value.
pub data MergedAs (k : String) : Option Value → Value → Value → Type 0 where
  collected_first :
      {v : Value} {ws : Items}
      → mem k append_fields ≡ true
      → items ws ≡ listing v
      → MergedAs k none v (list ws)
  collected :
      {old v : Value} {ws : Items}
      → mem k append_fields ≡ true
      → items ws ≡ listing old ++ listing v
      → MergedAs k (some old) v (list ws)
  updated :
      {old new r : Entries}
      → mem k update_fields ≡ true
      → ((i : String)
          → lookup i (entries r) ≡ later (lookup i (entries new)) (lookup i (entries old)))
      → MergedAs k (some (dict old)) (dict new) (dict r)
  set_dict :
      {held : Option Value} {new : Entries}
      → mem k update_fields ≡ true
      → NoDict held
      → MergedAs k held (dict new) (dict new)
  clobbered :
      {held : Option Value} {v : Value}
      → mem k append_fields ≡ false
      → mem k update_fields ≡ false
      → MergedAs k held v v

pub data MergedAt (k : String) : Option Value → Option Value → Option Value → Type 0 where
  lacking : {held : Option Value} → MergedAt k held none held
  given :
      {held : Option Value} {v w : Value} → MergedAs k held v w → MergedAt k held (some v) (some w)

-- A new dictionary has no key twice.
abbrev pub IsPlain : Option Value → Type 0
IsPlain (some (dict es)) = Distinct (entries es)
IsPlain _ = Unit

listify-listing : (v : Value) → listify v ≡ listing v
unfolding listify
listify-listing (list xs) = refl
listify-listing null = refl
listify-listing (boolean b) = refl
listify-listing (number n) = refl
listify-listing (str t) = refl
listify-listing (dict d) = refl

appending :
    (k : String) (held : Option Value) (v w : Value)
    → mem k append_fields ≡ true
    → merge_key append held v ≡ ok w
    → MergedAs k held v w
unfolding merge_key
appending k none v w h q =
    subst (MergedAs k none v) (ok-injective q)
      (collected_first h (items-of_items (listify v) ∙ listify-listing v))
appending k (some old) v w h q = subst (MergedAs k (some old) v) (ok-injective q) (
    collected h (
      items-of_items (listify old ++ listify v)
      ∙ ap₂ (λ a b. a ++ b) (listify-listing old) (listify-listing v)))

no_value : {f : ConfigFault} {w : Value} → ◌≡◌ {A = Outcome ConfigFault Value} (raise f) (ok w) → ⊥
no_value e = cc e

updating_dict :
    (k : String) (held : Option Value) (d : Entries) (w : Value)
    → mem k update_fields ≡ true
    → Distinct (entries d)
    → merge_key update_dict held (dict d) ≡ ok w
    → MergedAs k held (dict d) w
unfolding merge_key
updating_dict k none d w h p q = subst (MergedAs k none (dict d)) (ok-injective q) (set_dict h tt)
updating_dict k (some (dict old)) d w h p q =
    subst (MergedAs k (some (dict old)) (dict d)) (ok-injective q) (
      updated h (λ i.
        ap (lookup i) (entries-of_entries (update (entries old) (entries d)))
        ∙ lookup-update i (entries old) (entries d) p))
updating_dict k (some null) d w h p q =
    subst (MergedAs k (some null) (dict d)) (ok-injective q) (set_dict h tt)
updating_dict k (some (boolean b)) d w h p q =
    subst (MergedAs k (some (boolean b)) (dict d)) (ok-injective q) (set_dict h tt)
updating_dict k (some (number n)) d w h p q =
    subst (MergedAs k (some (number n)) (dict d)) (ok-injective q) (set_dict h tt)
updating_dict k (some (str t)) d w h p q =
    subst (MergedAs k (some (str t)) (dict d)) (ok-injective q) (set_dict h tt)
updating_dict k (some (list xs)) d w h p q =
    subst (MergedAs k (some (list xs)) (dict d)) (ok-injective q) (set_dict h tt)

no_update :
    (held : Option Value) (v : Value)
    → NoDict (some v)
    → merge_key update_dict held v ≡ raise (expected_dict v)
unfolding merge_key
no_update none null h = refl
no_update none (boolean b) h = refl
no_update none (number n) h = refl
no_update none (str t) h = refl
no_update none (list xs) h = refl
no_update (some null) null h = refl
no_update (some null) (boolean b) h = refl
no_update (some null) (number n) h = refl
no_update (some null) (str t) h = refl
no_update (some null) (list xs) h = refl
no_update (some (boolean c)) null h = refl
no_update (some (boolean c)) (boolean b) h = refl
no_update (some (boolean c)) (number n) h = refl
no_update (some (boolean c)) (str t) h = refl
no_update (some (boolean c)) (list xs) h = refl
no_update (some (number m)) null h = refl
no_update (some (number m)) (boolean b) h = refl
no_update (some (number m)) (number n) h = refl
no_update (some (number m)) (str t) h = refl
no_update (some (number m)) (list xs) h = refl
no_update (some (str u)) null h = refl
no_update (some (str u)) (boolean b) h = refl
no_update (some (str u)) (number n) h = refl
no_update (some (str u)) (str t) h = refl
no_update (some (str u)) (list xs) h = refl
no_update (some (list ys)) null h = refl
no_update (some (list ys)) (boolean b) h = refl
no_update (some (list ys)) (number n) h = refl
no_update (some (list ys)) (str t) h = refl
no_update (some (list ys)) (list xs) h = refl
no_update (some (dict d)) null h = refl
no_update (some (dict d)) (boolean b) h = refl
no_update (some (dict d)) (number n) h = refl
no_update (some (dict d)) (str t) h = refl
no_update (some (dict d)) (list xs) h = refl
no_update held (dict d) h = absurd h

updating :
    (k : String) (held : Option Value) (v w : Value)
    → mem k update_fields ≡ true
    → IsPlain (some v)
    → merge_key update_dict held v ≡ ok w
    → MergedAs k held v w
updating k held (dict d) w h p q = updating_dict k held d w h p q
updating k held null w h p q = absurd (no_value (sym (no_update held null tt) ∙ q))
updating k held (boolean b) w h p q = absurd (no_value (sym (no_update held (boolean b) tt) ∙ q))
updating k held (number n) w h p q = absurd (no_value (sym (no_update held (number n) tt) ∙ q))
updating k held (str t) w h p q = absurd (no_value (sym (no_update held (str t) tt) ∙ q))
updating k held (list xs) w h p q = absurd (no_value (sym (no_update held (list xs) tt) ∙ q))

merge_key-MergedAs :
    (k : String) (held : Option Value) (v w : Value)
    → IsPlain (some v)
    → mem k dict_key_append_fields ≡ false
    → mem k object_fields ≡ false
    → merge_key (behavior_of k) held v ≡ ok w
    → MergedAs k held v w
unfolding behavior_of merge_key
merge_key-MergedAs k held v w p g o q = elim (Bool-cases (mem k append_fields)) [
  | inl collects ↦ appending k held v w collects (rw (behavior_of, collects) at q)
  | inr other ↦ elim (Bool-cases (mem k update_fields)) [
    | inl updates ↦ updating k held v w updates p (rw (behavior_of, other, updates) at q)
    | inr neither ↦
        subst (MergedAs k held v) (ok-injective (rw (behavior_of, other, neither, g, o) at q))
          (clobbered other neither)
  ]
]

merged_at-MergedAt :
    (k : String) (held new r : Option Value)
    → IsPlain new
    → mem k dict_key_append_fields ≡ false
    → mem k object_fields ≡ false
    → merged_at (behavior_of k) held new ≡ ok r
    → MergedAt k held new r
merged_at-MergedAt k held none r p g o q = subst (MergedAt k held none) (ok-injective q) lacking
merged_at-MergedAt k held (some v) r p g o q =
    let (w, q', e) = >>=-eq-ok (merge_key (behavior_of k) held v) (λ w. ok (some w)) q in
    subst (MergedAt k held (some v)) (ok-injective e)
      (given (merge_key-MergedAs k held v w p g o q'))

-- If merge_config_dicts raises nothing for configs that are not empty, then, at every key but those of grants and of snapshot_meta_column_names, a key that the new configs lack keeps its value; a key that collects, such as tags or pre-hook, has the items of the old value and then those of the new one; a key that updates, such as meta, has its old dictionary with the keys of the new one put in; and any other key has the new value. No dictionary is to have a key twice.
pub merge_config_dicts-MergedAt :
    (k : String) (first : String × Value) (orig new : Dict Value)
    → Distinct new
    → IsPlain (lookup k new)
    → mem k dict_key_append_fields ≡ false
    → mem k object_fields ≡ false
    → (merge_config_dicts (first ∷ orig) new).0 ≡ ok tt
    → MergedAt k
        (lookup k (first ∷ orig))
        (lookup k new)
        (lookup k (merge_config_dicts (first ∷ orig) new).1)
unfolding merge_config_dicts
merge_config_dicts-MergedAt k first orig new h p g o q =
    merged_at-MergedAt k (lookup k (first ∷ orig)) (lookup k new)
      (lookup k (merge_each (first ∷ orig) new).1) p g o
      (lookup-merge_each k (first ∷ orig) new h q)
