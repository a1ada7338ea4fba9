-- ===== src/Common/Dict.antt =====
-- A Python dictionary with text keys: an association list in insertion order. Storing at a key
-- that is there keeps its place; a new key comes last.
use Prim.Native.String.{String}
use mathlib.Core.Path.{◌≡◌, refl, ◌∙◌}
use mathlib.Core.Bool.{Bool, true, false, ◌||◌}
use mathlib.Core.Option.{Option, none, some}
use mathlib.Core.List.{List, [], ◌∷◌}
use native.Mathlib.Omega.{arith}
use text.Mathlib.Text.{◌==◌, starts_with}
use text.Mathlib.TextEquality.{eq_iff}
use mathlib.Core.Logic.{inl, inr}
use dbt_common.Common.Tests.{if◌then◌else◌, Bool-cases}

abbrev pub Dict {ℓ} : Type ℓ → Type ℓ
Dict V = List (String × V)

-- `k in names` for a list or set of names.
abbrev pub mem : String → List String → Bool
mem k [] = false
mem k (j ∷ js) = j == k || mem k js

-- `part in text` for two texts
unfoldable pub contains : String → String → Bool
contains part String.[] = part == ""
contains part (String.◌∷◌ c s) = starts_with (String.◌∷◌ c s) part || contains part s

module _ {ℓ} {V : Type ℓ} where
  -- `d.get(key)`
  unfoldable pub lookup : String → Dict V → Option V
  lookup key [] = none
  lookup key ((name, held) ∷ rest) = if name == key then some held else lookup key rest

  -- `d[key] = new`
  unfoldable pub insert : String → V → Dict V → Dict V
  insert key new [] = (key, new) ∷ []
  insert key new ((name, held) ∷ rest) =
      if name == key then (name, new) ∷ rest else (name, held) ∷ insert key new rest

  -- `del d[k]`, where the key may be missing
  unfoldable pub erase : String → Dict V → Dict V
  erase k [] = []
  erase k ((j, w) ∷ m) = let rest = erase k m in if j == k then rest else (j, w) ∷ rest

  -- `d.update(e)`
  unfoldable pub update : Dict V → Dict V → Dict V
  unfolding insert
  update d [] = d
  update d ((k, v) ∷ e) = update (insert k v d) e

  unfoldable pub keys : Dict V → List String
  keys [] = []
  keys ((k, v) ∷ m) = k ∷ keys m

  pub lookup-insert :
      (key at' : String) (new : V) (dict : Dict V)
      → lookup at' (insert key new dict) ≡ (if key == at' then some new else lookup at' dict)
  unfolding insert lookup
  lookup-insert key at' new [] = refl
  lookup-insert key at' new ((name, held) ∷ rest) =
      ground
        (lookup-insert key at' new rest, eq_iff name at', eq_iff name key, eq_iff key at', arith)

  pub lookup-erase :
      (k j : String) (m : Dict V) → lookup j (erase k m) ≡ (if k == j then none else lookup j m)
  unfolding lookup erase
  lookup-erase k j [] = ground arith
  lookup-erase k j ((i, w) ∷ m) =
      ground (arith, eq_iff k j, eq_iff i k, eq_iff i j, lookup-erase k j m)

module _ {ℓ} {V : Type ℓ} where
  -- No key twice, as in every dictionary of Python.
  abbrev pub Distinct : Dict V → Type ℓ
  Distinct [] = Unit
  Distinct ((k, v) ∷ m) = (lookup k m ≡ none) × Distinct m

  -- The value of a later dictionary, or else that of an earlier one.
  abbrev pub later : Option V → Option V → Option V
  later (some v) o = some v
  later none o = o

  pub Distinct-insert : (k : String) (v : V) (m : Dict V) → Distinct m → Distinct (insert k v m)
  unfolding insert
  Distinct-insert k v [] h = (unfold lookup in refl, tt)
  Distinct-insert k v ((j, w) ∷ m) h = elim (Bool-cases (j == k)) [
    | inl same ↦ rw same h
    | inr other ↦ rw other (
      ground (arith, lookup-insert k j v m, eq_iff k j, eq_iff j k, h.0),
      Distinct-insert k v m h.1,
    )
  ]

  pub Distinct-erase : (k : String) (m : Dict V) → Distinct m → Distinct (erase k m)
  unfolding erase
  Distinct-erase k [] h = tt
  Distinct-erase k ((j, w) ∷ m) h = elim (Bool-cases (j == k)) [
    | inl same ↦ rw same (Distinct-erase k m h.1)
    | inr other ↦
        rw other
          (ground (arith, lookup-erase k j m, eq_iff k j, eq_iff j k, h.0), Distinct-erase k m h.1)
  ]

  later-lookup :
      (k j : String) (v : V) (d e : Dict V)
      → lookup j e ≡ none
      → later (lookup k e) (lookup k (insert j v d)) ≡ later (lookup k ((j, v) ∷ e)) (lookup k d)
  later-lookup k j v d e h =
      rw (lookup-insert j k v d) (unfold lookup in ground (arith, eq_iff j k, h))

  pub lookup-update :
      (k : String) (d e : Dict V)
      → Distinct e
      → lookup k (update d e) ≡ later (lookup k e) (lookup k d)
  unfolding update
  lookup-update k d [] h = unfold lookup in refl
  lookup-update k d ((j, v) ∷ e) h =
      lookup-update k (insert j v d) e h.1 ∙ later-lookup k j v d e h.0

-- `k in d`
unfoldable pub has {ℓ} : {V : Type ℓ} → String → Dict V → Bool
unfolding lookup
has k d = elim (lookup k d) [ none ↦ false | some _ ↦ true ]

pub ruleset dict_laws = (lookup-insert, lookup-erase)
