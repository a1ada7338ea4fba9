-- ===== src/Mappings/Deep.antt =====
-- What `deep_merge` of dbt_common/utils/dict.py leaves at every keypath of two values.
use Prim.Native.String.{String}
use text.Mathlib.Text.{◌==◌}
use dbt_common.Common.{
  Option, none, some, List, [], ◌∷◌, ◌++◌, ◌≡◌, refl, sym, ◌∙◌, subst, Bool-cases, inl, inr,
  if◌then◌else◌, eq_iff,
}
use dbt_common.Common.Dict.{lookup, insert, lookup-insert}
use dbt_common.Common.Outcome.{Outcome, ok, raise, >>=-eq-ok, ok-injective}
use dbt_common.Config.Value.{
  Value, null, boolean, number, str, list, dict, Items, Entries, end, entry, items, of_items,
  entries, of_entries, entries-of_entries, items-of_items,
}
use dbt_common.Mappings.Merge.{
  MergeFault, not_a_dict, list_of, store, deep_merge_entries, deep_merge_value, deep_merge,
}

-- No dictionary in a value has a key twice, down to the lists, which are merged as they are.
unfoldable mutual
  unfolding lookup

  pub IsKeyed : Value → Type 0
  IsKeyed (dict es) = AreKeyed es
  IsKeyed null = Unit
  IsKeyed (boolean b) = Unit
  IsKeyed (number n) = Unit
  IsKeyed (str s) = Unit
  IsKeyed (list vs) = Unit

  pub AreKeyed : Entries → Type 0
  AreKeyed end = Unit
  AreKeyed (entry k v es) = (lookup k (entries es) ≡ none) × IsKeyed v × AreKeyed es

-- The values that are not lists or dictionaries.
abbrev IsScalar : Value → Type 0
IsScalar (list vs) = ⊥
IsScalar (dict es) = ⊥
IsScalar _ = Unit

-- What a merge is to leave, from what was held, if anything, and a value that is merged into it: a
-- scalar replaces, the items of a list come before those that were held, and a dictionary is merged
-- key by key, at all depths.
mutual
  pub data Merged : Option Value → Value → Value → Type 0 where
    replaced : {held : Option Value} {v : Value} → IsScalar v → Merged held v v
    new_list : {vs : Items} → Merged none (list vs) (list vs)
    prepended :
        {held : Value} {vs ws : Items} {old : List Value}
        → list_of held ≡ ok old
        → items ws ≡ items vs ++ old
        → Merged (some held) (list vs) (list ws)
    new_dict :
        {source r : Entries}
        → ((key : String) → MergedAt none (lookup key (entries source)) (lookup key (entries r)))
        → Merged none (dict source) (dict r)
    both_dicts :
        {d source r : Entries}
        → ((key : String)
            → MergedAt
                (lookup key (entries d))
                (lookup key (entries source))
                (lookup key (entries r)))
        → Merged (some (dict d)) (dict source) (dict r)
    nothing_new : {held : Value} → Merged (some held) (dict end) held

  pub data MergedAt : Option Value → Option Value → Option Value → Type 0 where
    lacking : {held : Option Value} → MergedAt held none held
    given : {held : Option Value} {v w : Value} → Merged held v w → MergedAt held (some v) (some w)

of_lacking :
    {held given_value w : Option Value}
    → MergedAt held given_value w
    → given_value ≡ none
    → w ≡ held
of_lacking lacking e = refl
of_lacking (given m) e = cc e

no_result : {f : MergeFault} {w : Value} → ◌≡◌ {A = Outcome MergeFault Value} (raise f) (ok w) → ⊥
no_result e = cc e

-- One item of the source, and the loop behind it.
deep_merge_entries-cons :
    (d : Entries) (k : String) (v : Value) (es : Entries) (r : Value)
    → deep_merge_entries (dict d) (entry k v es) ≡ ok r
    → (w : Value) × (deep_merge_value (lookup k (entries d)) v ≡ ok w)
      × (deep_merge_entries (store d k w) es ≡ ok r)
unfolding deep_merge_entries
deep_merge_entries-cons d k v es r q =
    >>=-eq-ok (deep_merge_value (lookup k (entries d)) v)
      (λ merged. deep_merge_entries (store d k merged) es) q

-- A dictionary that the loop of a merge leaves, merged at every key.
abbrev MergedInto : Entries → Entries → Value → Type 0
MergedInto d source r =
    (fs : Entries) × (dict fs ≡ r)
    × ((key : String)
        → MergedAt (lookup key (entries d)) (lookup key (entries source)) (lookup key (entries fs)))

-- The first item of the source, whose key does not come again.
first_item :
    (key k : String) (v w : Value) (d es : Entries) (o : Option Value)
    → lookup k (entries es) ≡ none
    → Merged (lookup k (entries d)) v w
    → MergedAt (if k == key then some w else lookup key (entries d)) (lookup key (entries es)) o
    → MergedAt (lookup key (entries d)) (if k == key then some v else lookup key (entries es)) o
first_item key k v w d es o fresh m h = elim (Bool-cases (k == key)) [
  | inl same ↦
      let e : k ≡ key = (eq_iff k key).0 same in
      let absent : lookup key (entries es) ≡ none =
        subst (λ i. lookup i (entries es) ≡ none) e fresh in
      let stored : o ≡ some w = of_lacking (rw same at h) absent in
      rw (same, stored) (given (subst (λ i. Merged (lookup i (entries d)) v w) e m))
  | inr other ↦ rw other (rw other at h)
]

lookup_entry :
    (key k : String) (v : Value) (es : Entries)
    → lookup key (entries (entry k v es)) ≡ (if k == key then some v else lookup key (entries es))
unfolding lookup
lookup_entry key k v es = refl

at_end :
    (d : Entries) (key : String)
    → MergedAt (lookup key (entries d)) (lookup key (entries end)) (lookup key (entries d))
unfolding lookup
at_end d key = lacking

list-Merged :
    (held : Option Value) (vs : Items) (w : Value)
    → deep_merge_value held (list vs) ≡ ok w
    → Merged held (list vs) w
unfolding deep_merge_value
list-Merged none vs w q = subst (Merged none (list vs)) (ok-injective q) new_list
list-Merged (some held) vs w q =
    let (old, p, q') = >>=-eq-ok (list_of held) (λ old. ok (list (of_items (items vs ++ old)))) q in
    subst (Merged (some held) (list vs)) (ok-injective q')
      (prepended p (items-of_items (items vs ++ old)))

from_nothing :
    (source : Entries) (w : Value) → MergedInto end source w → Merged none (dict source) w
unfolding lookup
from_nothing source w (fs, e, m) = subst (Merged none (dict source)) e (new_dict m)

refused_or_empty :
    (held w : Value) (source : Entries)
    → ((k : String) (v : Value) (es : Entries)
        → deep_merge_entries held (entry k v es) ≡ raise not_a_dict)
    → deep_merge_entries held source ≡ ok w
    → Merged (some held) (dict source) w
unfolding deep_merge_entries
refused_or_empty held w end h q = subst (Merged (some held) (dict end)) (ok-injective q) nothing_new
refused_or_empty held w (entry k v es) h q = absurd (no_result (sym (h k v es) ∙ q))

mutual
  unfolding deep_merge_value IsKeyed

  deep_merge_value-Merged :
      (held : Option Value) (v w : Value)
      → IsKeyed v
      → deep_merge_value held v ≡ ok w
      → Merged held v w
  deep_merge_value-Merged held null w h q = subst (Merged held null) (ok-injective q) (replaced tt)
  deep_merge_value-Merged held (boolean b) w h q =
      subst (Merged held (boolean b)) (ok-injective q) (replaced tt)
  deep_merge_value-Merged held (number n) w h q =
      subst (Merged held (number n)) (ok-injective q) (replaced tt)
  deep_merge_value-Merged held (str s) w h q =
      subst (Merged held (str s)) (ok-injective q) (replaced tt)
  deep_merge_value-Merged held (list vs) w h q = list-Merged held vs w q
  deep_merge_value-Merged none (dict source) w h q =
      from_nothing source w (deep_merge_entries-Merged end source w h q)
  deep_merge_value-Merged (some (dict d)) (dict source) w h q =
      let (fs, e, m) = deep_merge_entries-Merged d source w h q in
      subst (Merged (some (dict d)) (dict source)) e (both_dicts m)
  deep_merge_value-Merged (some null) (dict source) w h q =
      refused_or_empty null w source (λ k v es. refl) q
  deep_merge_value-Merged (some (boolean b)) (dict source) w h q =
      refused_or_empty (boolean b) w source (λ k v es. refl) q
  deep_merge_value-Merged (some (number n)) (dict source) w h q =
      refused_or_empty (number n) w source (λ k v es. refl) q
  deep_merge_value-Merged (some (str s)) (dict source) w h q =
      refused_or_empty (str s) w source (λ k v es. refl) q
  deep_merge_value-Merged (some (list vs)) (dict source) w h q =
      refused_or_empty (list vs) w source (λ k v es. refl) q

  deep_merge_entries-Merged :
      (d source : Entries) (r : Value)
      → AreKeyed source
      → deep_merge_entries (dict d) source ≡ ok r
      → MergedInto d source r
  deep_merge_entries-Merged d end r h q = (d, ok-injective q, at_end d)
  deep_merge_entries-Merged d (entry k v es) r (fresh, h, hs) q =
      let (w, p, q') = deep_merge_entries-cons d k v es r q in
      let m : Merged (lookup k (entries d)) v w =
        deep_merge_value-Merged (lookup k (entries d)) v w h p in
      let (fs, e, ms) =
        deep_merge_entries-Merged (of_entries (insert k w (entries d))) es r hs q' in
      (
        fs,
        e,
        λ key.
            let here_too = ms key in
            rw (lookup_entry key k v es) (
              first_item key k v w d es (lookup key (entries fs)) fresh m (
                rw (entries-of_entries (insert k w (entries d)), lookup-insert k key w (entries d))
                  at here_too)),
      )

-- If deep_merge of two dictionaries raises nothing, and no dictionary in the second one has a key twice, the result is the merge of both at all depths: a key that the second one lacks keeps its value, a scalar replaces what is there, the items of a list are put before those that are there, and dictionaries are merged key by key in the same way.
pub deep_merge-Merged :
    (d source : Entries) (result : Value)
    → IsKeyed (dict source)
    → deep_merge (dict d ∷ dict source ∷ []) ≡ ok result
    → Merged (some (dict d)) (dict source) result
unfolding deep_merge deep_merge_value
deep_merge-Merged d source result h q =
    deep_merge_value-Merged (some (dict d)) (dict source) result h q
