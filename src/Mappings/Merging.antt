-- ===== src/Mappings/Merging.antt =====
-- What the merges of dbt_common/utils/dict.py leave at each key.
use Prim.Native.String.{String}
use text.Mathlib.Text.{◌==◌}
use dbt_common.Common.{
  Option, none, some, List, [], ◌∷◌, ◌≡◌, refl, ap, ◌∙◌, subst, Bool-cases, inl, inr, eq_iff, All,
}
use dbt_common.Common.Dict.{Dict, lookup, Distinct, later, lookup-update}
use dbt_common.Mappings.Merge.{filter_null_values, merge_reversed, reverse_onto, of_reversed, merge}

-- A value that is there and not null.
abbrev pub present {ℓ} : {V : Type ℓ} → Option (Option V) → Option V
present none = none
present (some held) = held

filter_null_values-none {ℓ} :
    {V : Type ℓ} (key : String) (d : Dict (Option V))
    → lookup key d ≡ none
    → lookup key (filter_null_values d) ≡ none
unfolding filter_null_values lookup
filter_null_values-none key [] h = refl
filter_null_values-none key ((k, none) ∷ d) h = elim (Bool-cases (k == key)) [
  | inl same ↦
      absurd (let bad : ◌≡◌ {A = Option (Option _)} (some none) none = rw same at h in cc bad)
  | inr other ↦ filter_null_values-none key d (rw other at h)
]
filter_null_values-none key ((k, some v) ∷ d) h = elim (Bool-cases (k == key)) [
  | inl same ↦
      absurd (let bad : ◌≡◌ {A = Option (Option _)} (some (some v)) none = rw same at h in cc bad)
  | inr other ↦ rw other (filter_null_values-none key d (rw other at h))
]

-- filter_null_values of a dictionary without a key twice keeps, at every key, a value that is not null, and nothing else.
pub lookup-filter_null_values {ℓ} :
    {V : Type ℓ} (key : String) (d : Dict (Option V))
    → Distinct d
    → lookup key (filter_null_values d) ≡ present (lookup key d)
unfolding filter_null_values lookup
lookup-filter_null_values key [] h = refl
lookup-filter_null_values key ((k, none) ∷ d) (fresh, h) = elim (Bool-cases (k == key)) [
  | inl same ↦
      let e : k ≡ key = (eq_iff k key).0 same in
      rw same (filter_null_values-none key d (subst (λ i. lookup i d ≡ none) e fresh))
  | inr other ↦ rw other (lookup-filter_null_values key d h)
]
lookup-filter_null_values key ((k, some v) ∷ d) (fresh, h) = elim (Bool-cases (k == key)) [
  | inl same ↦ rw same refl
  | inr other ↦ rw other (lookup-filter_null_values key d h)
]

-- The value of the first of some dictionaries that has the key.
abbrev first_held {ℓ} : {V : Type ℓ} → String → List (Dict V) → Option V
first_held key [] = none
first_held key (d ∷ ds) = later (lookup key d) (first_held key ds)

later-none {ℓ} : {V : Type ℓ} (o : Option V) → o ≡ later o none
later-none none = refl
later-none (some v) = refl

lookup-merge_reversed {ℓ} :
    {V : Type ℓ} (key : String) (last : Dict V) (firsts : List (Dict V))
    → All Distinct (last ∷ firsts)
    → lookup key (merge_reversed last firsts) ≡ first_held key (last ∷ firsts)
lookup-merge_reversed key last [] h = later-none (lookup key last)
lookup-merge_reversed key last (before ∷ firsts) (h, hs) =
    lookup-update key (merge_reversed before firsts) last h
    ∙ ap (later (lookup key last)) (lookup-merge_reversed key before firsts hs)

-- The value that the last of some dictionaries that has the key gives it.
abbrev pub last_held {ℓ} : {V : Type ℓ} → String → Option V → List (Dict V) → Option V
last_held key held [] = held
last_held key held (d ∷ ds) = last_held key (later (lookup key d) held) ds

first_held-reverse_onto {ℓ} :
    {V : Type ℓ} (key : String) (ds es : List (Dict V))
    → first_held key (reverse_onto ds es) ≡ last_held key (first_held key es) ds
first_held-reverse_onto key [] es = refl
first_held-reverse_onto key (d ∷ ds) es = first_held-reverse_onto key ds (d ∷ es)

All-reverse_onto {ℓ} :
    {V : Type ℓ} (ds es : List (Dict V))
    → All Distinct ds
    → All Distinct es
    → All Distinct (reverse_onto ds es)
All-reverse_onto [] es h h' = h'
All-reverse_onto (d ∷ ds) es (a, h) h' = All-reverse_onto ds (d ∷ es) h (a, h')

-- What the result of a merge has at a key; there is no result of no arguments.
abbrev pub at_key {ℓ} : {V : Type ℓ} → String → Option (Dict V) → Option V
at_key key none = none
at_key key (some d) = lookup key d

at_key-of_reversed {ℓ} :
    {V : Type ℓ} (key : String) (ds : List (Dict V))
    → All Distinct ds
    → at_key key (of_reversed ds) ≡ first_held key ds
at_key-of_reversed key [] h = refl
at_key-of_reversed key (d ∷ ds) h = lookup-merge_reversed key d ds h

-- merge of dictionaries, none of which has a key twice, has at every key the value that the last of them with the key gives it.
pub lookup-merge {ℓ} :
    {V : Type ℓ} (key : String) (args : List (Dict V))
    → All Distinct args
    → at_key key (merge args) ≡ last_held key none args
unfolding merge
lookup-merge key args h =
    at_key-of_reversed key (reverse_onto args []) (All-reverse_onto args [] h tt)
    ∙ first_held-reverse_onto key args []
