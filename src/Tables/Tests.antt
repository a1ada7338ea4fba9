-- ===== src/Tables/Tests.antt =====
-- The theorems about tables at concrete inputs.
use Prim.Native.String.{String}
use dbt_common.Common.{Bool, false, List, [], ◌∷◌, All, ◌≡◌, refl}
use dbt_common.Common.Dict.{Dict, lookup, insert, keys}
use dbt_common.Common.Outcome.{ok}
use dbt_common.Config.Value.{Value, str, list, nil, cons, null}
use dbt_common.Tables.Columns.{ColumnType, integer, agate_text, Table, merged_column_types}
use dbt_common.Tables.Merged.{HasType, merged_column_types-HasType}
use dbt_common.Tables.Rows.{merge_tables}
use dbt_common.Tables.Aligned.{rows_aligned, merge_tables-aligned}

abbrev first_table : Table
first_table = record {
  columns = ("id", integer) ∷ ("name", agate_text) ∷ [];
  rows =
      (("id", Value.number 1) ∷ ("name", str "a") ∷ [])
      ∷ (("id", Value.number 2) ∷ ("name", null) ∷ [])
      ∷ [];
}

abbrev second_table : Table
second_table = record {
  columns = ("id", ColumnType.number) ∷ ("note", integer) ∷ [];
  rows = (("id", Value.number 3) ∷ ("note", null) ∷ []) ∷ [];
}

abbrev tables : List Table
tables = first_table ∷ second_table ∷ []

abbrev types : Dict ColumnType
types = ("id", ColumnType.number) ∷ ("name", agate_text) ∷ ("note", integer) ∷ []

run_types : merged_column_types tables ≡ ok types
unfolding merged_column_types lookup insert
run_types = refl

merged_column_types-HasType_example :
    All (λ table. All (HasType types table.rows) table.columns) tables
merged_column_types-HasType_example = merged_column_types-HasType tables types run_types

abbrev merged_table : Table
merged_table = record {
  columns = types;
  rows =
      (("id", Value.number 1) ∷ ("name", str "a") ∷ ("note", null) ∷ [])
      ∷ (("id", Value.number 2) ∷ ("name", null) ∷ ("note", null) ∷ [])
      ∷ (("id", Value.number 3) ∷ ("name", null) ∷ ("note", null) ∷ [])
      ∷ [];
}

abbrev never_same : List ColumnType → List ColumnType → Bool
never_same _ _ = false

run_merge : merge_tables never_same tables ≡ ok merged_table
unfolding merge_tables lookup insert
run_merge = refl

merge_tables-aligned_example : merged_table.rows ≡ rows_aligned (keys types) tables
merge_tables-aligned_example =
    merge_tables-aligned never_same tables merged_table
      (unfold keys lookup in
        (
          ((refl, (refl, (refl, tt))), ((refl, (refl, (refl, tt))), tt)),
          (((refl, (refl, (refl, tt))), tt), tt),
        ))
      run_merge

abbrev dumped : Value → String
dumped v = "[1]"

abbrev raw_data : List (Dict Value)
raw_data =
    (("a", Value.number 5) ∷ ("b", str "005") ∷ ("c", null) ∷ [])
    ∷ (("a", list (cons (Value.number 1) nil)) ∷ ("b", null) ∷ ("c", Value.number 1) ∷ [])
    ∷ []

abbrev columns : List String
columns = "a" ∷ "b" ∷ "c" ∷ []

abbrev flat_result : List (List Value) × List String
flat_result = (
  (Value.number 5 ∷ str "005" ∷ null ∷ []) ∷ (str "[1]" ∷ null ∷ Value.number 1 ∷ []) ∷ [],
  "a" ∷ "b" ∷ [],
)
