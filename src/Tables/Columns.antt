-- ===== src/Tables/Columns.antt =====
-- The column types of dbt_common/clients/agate_helper.py. A table of the agate library is what the
-- code reads of it: its column names, its column types, and its rows by column name.
use Prim.Native.String.{String}
use dbt_common.Common.{
  Bool, true, false, ◌&&◌, not, Option, none, some, List, [], ◌∷◌, all, if◌then◌else◌,
}
use dbt_common.Common.Dict.{Dict, lookup, insert}
use dbt_common.Common.Outcome.{Outcome, ok, raise, ◌>>=◌}
use dbt_common.Config.Value.{Value, null}

-- The classes of column types, those of the agate library with the prefix `agate_`, and `_NullMarker`.
pub data ColumnType : Type 0 where
  integer number agate_number agate_date agate_date_time iso_date_time agate_boolean agate_text
        null_marker :
      ColumnType

-- `isinstance(value, type(other))`, by the class hierarchy
abbrev pub is_instance : ColumnType → ColumnType → Bool
is_instance integer integer = true
is_instance number number = true
is_instance number agate_number = true
is_instance agate_number agate_number = true
is_instance agate_date agate_date = true
is_instance agate_date_time agate_date_time = true
is_instance iso_date_time iso_date_time = true
is_instance iso_date_time agate_date_time = true
is_instance agate_boolean agate_boolean = true
is_instance agate_text agate_text = true
is_instance null_marker null_marker = true
is_instance _ _ = false

pub data TableFault : Type 0 where
  type_mismatch : String → ColumnType → ColumnType → TableFault
  key_error : String → TableFault

-- `ColumnTypeBuilder.__setitem__` for a key that is there: the type that it has afterwards.
unfoldable pub combined : String → ColumnType → ColumnType → Outcome TableFault ColumnType
combined key existing value =
    if is_instance existing null_marker
    then ok value
    else if is_instance value null_marker
    then ok existing
    else if is_instance value integer && is_instance existing agate_number
    then ok existing
    else if is_instance existing integer && is_instance value agate_number
    then ok value
    else if not (is_instance value existing)
    then raise (type_mismatch key value existing)
    else ok existing

abbrev pub set_at : String → ColumnType → Option ColumnType → Outcome TableFault ColumnType
set_at key value none = ok value
set_at key value (some existing) = combined key existing value

-- `ColumnTypeBuilder.__setitem__`
unfoldable pub set_item :
    String → ColumnType → Dict ColumnType → Outcome TableFault (Dict ColumnType)
unfolding combined
set_item key value builder =
    set_at key value (lookup key builder) >>= λ held. ok (insert key held builder)

-- `ColumnTypeBuilder.finalize`
abbrev pub final_type : ColumnType → ColumnType
final_type t = if is_instance t null_marker then integer else t

unfoldable pub finalize : Dict ColumnType → Dict ColumnType
finalize [] = []
finalize ((key, value) ∷ rest) = (key, final_type value) ∷ finalize rest

pub record Table : Type 0 where
  pub columns : Dict ColumnType
  pub rows : List (Dict Value)

-- `row.get(name, None)`
unfoldable pub get_or_null : String → Dict Value → Value
get_or_null name row = elim (lookup name row) [ none ↦ null | some v ↦ v ]

abbrev pub is_null : Value → Bool
is_null null = true
is_null _ = false

-- The type that a column of a table counts for.
unfoldable pub counted_type : List (Dict Value) → String → ColumnType → ColumnType
unfolding get_or_null
counted_type rows name type =
    if all (λ row. is_null (get_or_null name row)) rows then null_marker else type

-- The loops of `_merged_column_types`: over the columns of a table, and over the tables.
unfoldable pub add_columns :
    List (Dict Value) → Dict ColumnType → Dict ColumnType → Outcome TableFault (Dict ColumnType)
unfolding set_item counted_type
add_columns rows [] builder = ok builder
add_columns rows ((name, type) ∷ columns) builder =
    set_item name (counted_type rows name type) builder >>= λ changed.
    add_columns rows columns changed

unfoldable pub add_tables : List Table → Dict ColumnType → Outcome TableFault (Dict ColumnType)
unfolding add_columns
add_tables [] builder = ok builder
add_tables (table ∷ tables) builder =
    add_columns table.rows table.columns builder >>= λ changed. add_tables tables changed

unfoldable pub merged_column_types : List Table → Outcome TableFault (Dict ColumnType)
unfolding add_tables finalize
merged_column_types tables = add_tables tables [] >>= λ builder. ok (finalize builder)
