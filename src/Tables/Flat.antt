-- ===== src/Tables/Flat.antt =====
-- The rows and the text-only columns of dbt_common/clients/agate_helper.py.
use Prim.Native.String.{String}
use dbt_common.Common.{Bool, false, none, some, List, [], ◌∷◌}
use dbt_common.Common.Dict.{Dict, lookup}
use dbt_common.Config.Value.{Value}
use dbt_common.Tables.Columns.{get_or_null}
use dbt_common.Tables.Rows.{cell, is_text}

-- Whether a row has a text at a column.
abbrev pub text_at : String → Dict Value → Bool
text_at name row = elim (lookup name row) [ none ↦ false | some v ↦ is_text v ]

module _ (json_dumps : Value → String) where
  -- The cells of a row: its values, with lists and dictionaries as texts of JSON.
  abbrev pub cells_of : List String → Dict Value → List Value
  cells_of [] row = []
  cells_of (name ∷ names) row = cell json_dumps (get_or_null name row) ∷ cells_of names row
