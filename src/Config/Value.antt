-- ===== src/Config/Value.antt =====
-- The values of configurations: what YAML and JSON give. Aliasing of nested lists and dictionaries is
-- not modelled: a value that is stored is a value of its own.
use Prim.Native.String.{String}
use dbt_common.Common.{ℕ, Bool, List, [], ◌∷◌, ◌≡◌, refl, ap}
use dbt_common.Common.Dict.{Dict}

mutual
  pub data Value : Type 0 where
    null : Value
    boolean : Bool → Value
    number : ℕ → Value
    str : String → Value
    list : Items → Value
    dict : Entries → Value

  pub data Items : Type 0 where
    nil : Items
    cons : Value → Items → Items

  pub data Entries : Type 0 where
    end : Entries
    entry : String → Value → Entries → Entries

abbrev pub items : Items → List Value
items nil = []
items (cons v vs) = v ∷ items vs

abbrev pub of_items : List Value → Items
of_items [] = nil
of_items (v ∷ vs) = cons v (of_items vs)

abbrev pub entries : Entries → Dict Value
entries end = []
entries (entry k v es) = (k, v) ∷ entries es

abbrev pub of_entries : Dict Value → Entries
of_entries [] = end
of_entries ((k, v) ∷ es) = entry k v (of_entries es)

pub items-of_items : (vs : List Value) → items (of_items vs) ≡ vs
items-of_items [] = refl
items-of_items (v ∷ vs) = ap (λ ws. v ∷ ws) (items-of_items vs)

pub entries-of_entries : (es : Dict Value) → entries (of_entries es) ≡ es
entries-of_entries [] = refl
entries-of_entries ((k, v) ∷ es) = ap (λ fs. (k, v) ∷ fs) (entries-of_entries es)
