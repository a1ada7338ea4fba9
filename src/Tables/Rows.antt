-- ===== src/Tables/Rows.antt =====
-- The rows of dbt_common/clients/agate_helper.py: of merged tables, and of data that is not coerced.
use Prim.Native.String.{String}
use text.Mathlib.Text.{◌==◌}
use dbt_common.Common.{
  Bool, true, false, ◌&&◌, Option, none, some, List, [], ◌∷◌, ◌++◌, map, if◌then◌else◌,
}
use dbt_common.Common.Dict.{Dict, lookup, keys, mem}
use dbt_common.Common.Outcome.{Outcome, ok, raise, ◌>>=◌}
use dbt_common.Config.Value.{Value, str, list, dict}
use dbt_common.Tables.Columns.{
  ColumnType, TableFault, key_error, Table, get_or_null, merged_column_types,
}

-- `[row.get(name, None) for name in column_names]`, as a row with these names
unfoldable pub aligned : List String → Dict Value → Dict Value
unfolding get_or_null
aligned [] row = []
aligned (name ∷ names) row = (name, get_or_null name row) ∷ aligned names row

abbrev pub names_eq : List String → List String → Bool
names_eq [] [] = true
names_eq (a ∷ as') (b ∷ bs) = a == b && names_eq as' bs
names_eq _ _ = false

abbrev pub types_of : Dict ColumnType → List ColumnType
types_of [] = []
types_of ((name, type) ∷ columns) = type ∷ types_of columns

-- The comparison of tuples of types is the agate library's.
module _ (same_types : List ColumnType → List ColumnType → Bool) where
  unfoldable pub merged_rows : Dict ColumnType → Table → List (Dict Value)
  unfolding aligned keys
  merged_rows types table =
      if names_eq (keys table.columns) (keys types)
        && same_types (types_of table.columns) (types_of types)
      then table.rows
      else map (aligned (keys types)) table.rows

  unfoldable pub all_rows : Dict ColumnType → List Table → List (Dict Value)
  unfolding merged_rows
  all_rows types [] = []
  all_rows types (table ∷ tables) = merged_rows types table ++ all_rows types tables

  -- `merge_tables`
  unfoldable pub merge_tables : List Table → Outcome TableFault Table
  unfolding all_rows merged_column_types
  merge_tables tables = merged_column_types tables >>= λ types.
      ok (record { columns = types; rows = all_rows types tables })

abbrev pub is_text : Value → Bool
is_text (list vs) = true
is_text (dict es) = true
is_text (str s) = true
is_text _ = false

-- `text_only_columns.add(col_name)`, of a set
abbrev pub add_name : String → List String → List String
add_name name names = if mem name names then names else name ∷ names

abbrev pub row_item : String → Option Value → Outcome TableFault Value
row_item name none = raise (key_error name)
row_item name (some v) = ok v

-- `table_from_data_flat`, up to the call of `table_from_rows`: the rows, and the text-only columns.
module _ (json_dumps : Value → String) where
  abbrev pub cell : Value → Value
  cell (list vs) = str (json_dumps (list vs))
  cell (dict es) = str (json_dumps (dict es))
  cell v = v

  unfoldable pub flat_row :
      List String → Dict Value → List String → Outcome TableFault (List Value × List String)
  flat_row [] row text_only = ok ([], text_only)
  flat_row (col_name ∷ names) row text_only = row_item col_name (lookup col_name row) >>= λ value.
      flat_row names row (if is_text value then add_name col_name text_only else text_only)
      >>= λ (cells, text_only'). ok (cell value ∷ cells, text_only')

  unfoldable pub flat_rows :
      List String
      → List (Dict Value)
      → List String
      → Outcome TableFault (List (List Value) × List String)
  unfolding flat_row
  flat_rows names [] text_only = ok ([], text_only)
  flat_rows names (row ∷ data') text_only = flat_row names row text_only >>= λ (cells, text_only').
      flat_rows names data' text_only' >>= λ (rows, text_only''). ok (cells ∷ rows, text_only'')

  unfoldable pub table_from_data_flat :
      List (Dict Value) → List String → Outcome TableFault (List (List Value) × List String)
  unfolding flat_rows
  table_from_data_flat data' column_names = flat_rows column_names data' []

-- `get_column_value_uncased`, with `str.casefold` as a parameter
unfoldable pub get_column_value_uncased :
    (String → String) → String → Dict Value → Outcome TableFault Value
get_column_value_uncased casefold column_name [] = raise (key_error column_name)
get_column_value_uncased casefold column_name ((key, value) ∷ row) =
    if casefold key == casefold column_name
    then ok value
    else get_column_value_uncased casefold column_name row
