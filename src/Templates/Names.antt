-- ===== src/Templates/Names.antt =====
-- The names of macros (dbt_common/utils/jinja.py), and the extensions of dbt_common/clients/jinja.py that
-- parse materializations, on the arguments that the Jinja library has read.
use Prim.Native.Nat.{ℕ}
use mathlib.Core.List.{append_assoc}
use dbt_common.Common.{
  Bool, true, Option, none, some, [], ◌∷◌, ◌++◌, ◌≡◌, ◌≢◌, ap, Text, if◌then◌else◌, arith,
}
use dbt_common.Common.Codes.{codes}

-- `get_dbt_macro_name`, `get_dbt_docs_name`, of a name that is not None
abbrev pub get_dbt_macro_name : Text → Text
get_dbt_macro_name name = codes "dbt_macro__" ++ name

abbrev get_dbt_docs_name : Text → Text
get_dbt_docs_name name = codes "dbt_docs__" ++ name

abbrev or_default : Option Text → Text
or_default none = codes "default"
or_default (some adapter_type) = adapter_type

abbrev pub get_materialization_macro_name : Text → Option Text → Bool → Text
get_materialization_macro_name materialization_name adapter_type with_prefix =
    let name =
      codes "materialization_"
      ++ (materialization_name ++ (codes "_" ++ or_default adapter_type)) in
    if with_prefix then get_dbt_macro_name name else name

abbrev pub get_docs_macro_name : Text → Bool → Text
get_docs_macro_name docs_name with_prefix =
    if with_prefix then get_dbt_docs_name docs_name else docs_name

abbrev get_test_macro_name : Text → Bool → Text
get_test_macro_name test_name with_prefix =
    let name = codes "test_" ++ test_name in if with_prefix then get_dbt_macro_name name else name

append-cancel : (xs ys zs : Text) → xs ++ ys ≡ xs ++ zs → ys ≡ zs
append-cancel [] ys zs h = h
append-cancel (x ∷ xs) ys zs h = append-cancel xs ys zs (cc h)

-- Different macros have different names, different docs blocks have different names, and no macro has the name of a docs block.
pub macro_names_apart :
    (a b : Text)
    → (get_dbt_macro_name a ≡ get_dbt_macro_name b → a ≡ b)
      × (get_docs_macro_name a true ≡ get_docs_macro_name b true → a ≡ b)
      × (get_dbt_macro_name a ≢ get_docs_macro_name b true)
macro_names_apart a b = (
  append-cancel (codes "dbt_macro__") a b,
  append-cancel (codes "dbt_docs__") a b,
  λ h. apart 109 100 _ _ (append-cancel (codes "dbt_") _ _ h) (λ e. omega (arith, e)),
)
  where
    apart : (x y : ℕ) (xs ys : Text) → ◌≡◌ {A = Text} (x ∷ xs) (y ∷ ys) → ¬ (x ≡ y) → ⊥
    apart x y xs ys h n = n (cc h)

-- Materializations whose names and adapters are split differently can have the same macro name: one whose name goes on with an underscore and the start of the adapter's name.
pub materialization_names_meet :
    (a b c : Text) (with_prefix : Bool)
    → get_materialization_macro_name (a ++ codes "_" ++ b) (some c) with_prefix
      ≡ get_materialization_macro_name a (some (b ++ codes "_" ++ c)) with_prefix
materialization_names_meet a b c with_prefix =
    ap
      (λ t.
        if with_prefix
        then get_dbt_macro_name (codes "materialization_" ++ t)
        else codes "materialization_" ++ t)
      (regrouped a b c)
  where
    regrouped :
        (x y z : Text)
        → (x ++ codes "_" ++ y) ++ (codes "_" ++ z) ≡ x ++ (codes "_" ++ (y ++ codes "_" ++ z))
    regrouped x y z = simp append_assoc
