-- ===== src/Tables/Aligned.antt =====
-- The rows of merged tables (dbt_common/clients/agate_helper.py).
use Prim.Native.String.{String}
use text.Mathlib.Text.{◌==◌}
use dbt_common.Common.{
  Bool, true, false, ◌&&◌, ◌||◌, none, List, [], ◌∷◌, ◌++◌, map, ◌≡◌, refl, sym, ap₂, ◌∙◌, All,
  Bool-cases, inl, inr, eq_iff, eq_refl, arith,
}
use dbt_common.Common.Dict.{Dict, lookup, keys, mem, Distinct}
use dbt_common.Common.Outcome.{ok, >>=-eq-ok, ok-injective}
use dbt_common.Config.Value.{Value}
use dbt_common.Tables.Columns.{ColumnType, Table, get_or_null, merged_column_types}
use dbt_common.Tables.Admitted.{both_true}
use dbt_common.Tables.Rows.{aligned, names_eq, types_of, merged_rows, all_rows, merge_tables}

-- A row has the values of the columns in their order, under their names.
abbrev IsRow : List String → Dict Value → Type 0
IsRow names row = (keys row ≡ names) × Distinct row

get_or_null-other :
    (name k : String) (v : Value) (row : Dict Value)
    → (k == name) ≡ false
    → get_or_null name ((k, v) ∷ row) ≡ get_or_null name row
unfolding get_or_null lookup
get_or_null-other name k v row h = rw (h, get_or_null) refl

get_or_null-first : (k : String) (v : Value) (row : Dict Value) → get_or_null k ((k, v) ∷ row) ≡ v
unfolding get_or_null lookup
get_or_null-first k v row = let e : (k == k) ≡ true = eq_refl k in rw (e, get_or_null) refl

neither : (a b : Bool) → (a || b) ≡ false → (a ≡ false) × (b ≡ false)
neither true b h = cc
neither false b h = (refl, h)

aligned-other :
    (names : List String) (k : String) (v : Value) (row : Dict Value)
    → mem k names ≡ false
    → aligned names ((k, v) ∷ row) ≡ aligned names row
unfolding aligned
aligned-other [] k v row h = refl
aligned-other (name ∷ names) k v row h =
    let (differs, h') = neither (name == k) (mem k names) h in
    let differs' : (k == name) ≡ false = ground (arith, differs, eq_iff name k, eq_iff k name) in
    ap₂ (λ w rest. (name, w) ∷ rest) (get_or_null-other name k v row differs')
      (aligned-other names k v row h')

lookup-none-mem : (k : String) (row : Dict Value) → lookup k row ≡ none → mem k (keys row) ≡ false
unfolding lookup keys
lookup-none-mem k [] h = refl
lookup-none-mem k ((j, v) ∷ row) h = elim (Bool-cases (j == k)) [
  | inl same ↦ cc (rw same at h)
  | inr other ↦ rw other (lookup-none-mem k row (rw other at h))
]

-- A row with these names is aligned with them.
aligned-keys : (row : Dict Value) → Distinct row → aligned (keys row) row ≡ row
unfolding aligned keys
aligned-keys [] h = refl
aligned-keys ((k, v) ∷ row) (fresh, h) =
    ap₂ (λ w rest. (k, w) ∷ rest) (get_or_null-first k v row)
      (aligned-other (keys row) k v row (lookup-none-mem k row fresh) ∙ aligned-keys row h)

names_eq_sound : (as' bs : List String) → names_eq as' bs ≡ true → as' ≡ bs
names_eq_sound [] [] h = refl
names_eq_sound [] (b ∷ bs) h = cc
names_eq_sound (a ∷ as') [] h = cc
names_eq_sound (a ∷ as') (b ∷ bs) h =
    let (e, e') = both_true (a == b) (names_eq as' bs) h in
    ap₂ (λ x xs. x ∷ xs) ((eq_iff a b).0 e) (names_eq_sound as' bs e')

aligned-rows :
    (names : List String) (rows : List (Dict Value))
    → All (IsRow names) rows
    → map (aligned names) rows ≡ rows
aligned-rows names [] a = refl
aligned-rows names (row ∷ rows) ((e, d), a) =
    ap₂ (λ r rs. r ∷ rs) (rw (← e) (aligned-keys row d)) (aligned-rows names rows a)

-- The rows of all tables, each aligned with the merged columns.
abbrev pub rows_aligned : List String → List Table → List (Dict Value)
rows_aligned names [] = []
rows_aligned names (table ∷ tables) = map (aligned names) table.rows ++ rows_aligned names tables

module _ (same_types : List ColumnType → List ColumnType → Bool) where
  merged_rows-aligned :
      (types : Dict ColumnType) (table : Table)
      → All (IsRow (keys table.columns)) table.rows
      → merged_rows same_types types table ≡ map (aligned (keys types)) table.rows
  unfolding merged_rows
  merged_rows-aligned types table a =
      elim (Bool-cases (
        names_eq (keys table.columns) (keys types)
        && same_types (types_of table.columns) (types_of types))) [
          | inl same ↦
              let (e, e') = both_true _ _ same in
              let names : keys table.columns ≡ keys types = names_eq_sound _ _ e in
              rw (same, merged_rows) (sym (aligned-rows (keys types) table.rows (rw names at a)))
          | inr other ↦ rw (other, merged_rows) refl
        ]

  all_rows-aligned :
      (types : Dict ColumnType) (tables : List Table)
      → All (λ table. All (IsRow (keys table.columns)) table.rows) tables
      → all_rows same_types types tables ≡ rows_aligned (keys types) tables
  unfolding all_rows
  all_rows-aligned types [] a = refl
  all_rows-aligned types (table ∷ tables) (h, a) =
      ap₂ (λ rs ss. rs ++ ss) (merged_rows-aligned types table h) (all_rows-aligned types tables a)

  -- The table that merge_tables returns for tables whose rows have the values of their columns in order has the rows of all tables, in order, each with its value, or null where it has none, under every merged column, whatever the agate library's comparison of types answers.
  pub merge_tables-aligned :
      (tables : List Table) (merged : Table)
      → All (λ table. All (IsRow (keys table.columns)) table.rows) tables
      → merge_tables same_types tables ≡ ok merged
      → merged.rows ≡ rows_aligned (keys merged.columns) tables
  unfolding merge_tables
  merge_tables-aligned tables merged a q =
      let (types, p, e) =
        >>=-eq-ok (merged_column_types tables)
          (λ types. ok (record { columns = types; rows = all_rows same_types types tables })) q in
      let e' : ◌≡◌ {A = Table} (record { columns = types; rows = all_rows same_types types tables })
          merged =
        ok-injective e in
      rw (← e') (all_rows-aligned types tables a)
