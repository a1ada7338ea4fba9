-- ===== src/Tables/Merged.antt =====
-- What the merged column types of dbt_common/clients/agate_helper.py make of the columns.
use Prim.Native.String.{String}
use text.Mathlib.Text.{◌==◌}
use dbt_common.Common.{
  ◌⊎◌, all, true, Option, none, some, List, [], ◌∷◌, ◌≡◌, refl, sym, subst, All, eq_refl,
  Bool-cases, inl, inr, eq_iff,
}
use dbt_common.Common.Dict.{Dict, lookup, insert, lookup-insert}
use dbt_common.Common.Outcome.{ok, >>=-eq-ok, ok-injective}
use dbt_common.Config.Value.{null, Value}
use dbt_common.Tables.Columns.{
  get_or_null, is_null, ColumnType, integer, number, agate_number, agate_date, agate_date_time,
  iso_date_time, agate_boolean, agate_text, null_marker, set_at, set_item, final_type, finalize,
  Table, counted_type, add_columns, add_tables, merged_column_types,
}
use dbt_common.Tables.Admitted.{
  both_true, admits, Joins, combined-Joins, admits-null_marker, admits-itself, Joins-keeps,
  Joins-admits,
}

-- Every column that was counted has a place in the builder.
abbrev HasPlace : Dict ColumnType → String × ColumnType → Type 0
HasPlace builder (name, type) =
    (held : ColumnType) × (lookup name builder ≡ some held) × (admits held type ≡ true)

-- The type behind an assignment admits the new type, and what the old one admitted.
set_at-admits :
    (key : String) (value w : ColumnType) (o : Option ColumnType)
    → set_at key value o ≡ ok w
    → (admits w value ≡ true)
      × ((held c : ColumnType) → o ≡ some held → admits held c ≡ true → admits w c ≡ true)
set_at-admits key value w none p =
    (subst (λ t. admits t value ≡ true) (ok-injective p) (admits-itself value), λ held c q a. cc q)
set_at-admits key value w (some e) p =
    let j : Joins e value w = combined-Joins key e value w p in
    (Joins-admits j, λ held c q a. Joins-keeps c j (rw (same e held q) a))
  where
    same : (a b : ColumnType) → ◌≡◌ {A = Option ColumnType} (some a) (some b) → a ≡ b
    same a b q = cc q

insert-HasPlace :
    (key : String) (w : ColumnType) (b : Dict ColumnType)
    → ((held c : ColumnType) → lookup key b ≡ some held → admits held c ≡ true → admits w c ≡ true)
    → (c : String × ColumnType) → HasPlace b c
    → HasPlace (insert key w b) c
insert-HasPlace key w b keeps (name, type) (held, l, a) = elim (Bool-cases (key == name)) [
  | inl same ↦
      let e : key ≡ name = (eq_iff key name).0 same in
      (
        w,
        rw (lookup-insert key name w b, same) refl,
        keeps held type (subst (λ i. lookup i b ≡ some held) (sym e) l) a,
      )
  | inr other ↦ (held, rw (lookup-insert key name w b, other) l, a)
]

set_item-HasPlace :
    (key : String) (value : ColumnType) (b b' : Dict ColumnType)
    → set_item key value b ≡ ok b'
    → HasPlace b' (key, value) × ((c : String × ColumnType) → HasPlace b c → HasPlace b' c)
unfolding set_item
set_item-HasPlace key value b b' q =
    let (w, p, e) =
      >>=-eq-ok (set_at key value (lookup key b)) (λ held. ok (insert key held b)) q in
    let e' : insert key w b ≡ b' = ok-injective e in
    let (new, old) = set_at-admits key value w (lookup key b) p in
    let itself : (key == key) ≡ true = eq_refl key in
    rw (← e') ((w, rw (lookup-insert key key w b, itself) refl, new), insert-HasPlace key w b old)

-- The columns of a table as they count.
abbrev counted : List (Dict Value) → Dict ColumnType → Dict ColumnType
counted rows [] = []
counted rows ((name, type) ∷ columns) = (name, counted_type rows name type) ∷ counted rows columns

All-keeps :
    (b b' : Dict ColumnType)
    → ((c : String × ColumnType) → HasPlace b c → HasPlace b' c)
    → (cs : Dict ColumnType) → All (HasPlace b) cs
    → All (HasPlace b') cs
All-keeps b b' f [] a = tt
All-keeps b b' f (c ∷ cs) (h, a) = (f c h, All-keeps b b' f cs a)

add_columns-HasPlace :
    (rows : List (Dict Value)) (columns b b' : Dict ColumnType)
    → add_columns rows columns b ≡ ok b'
    → All (HasPlace b') (counted rows columns)
      × ((c : String × ColumnType) → HasPlace b c → HasPlace b' c)
unfolding add_columns
add_columns-HasPlace rows [] b b' q = (tt, λ c h. subst (λ d. HasPlace d c) (ok-injective q) h)
add_columns-HasPlace rows ((name, type) ∷ columns) b b' q =
    let (b₁, p, q') =
      >>=-eq-ok (set_item name (counted_type rows name type) b)
        (λ changed. add_columns rows columns changed) q in
    let (new, old) = set_item-HasPlace name (counted_type rows name type) b b₁ p in
    let (rest, kept) = add_columns-HasPlace rows columns b₁ b' q' in
    ((kept (name, counted_type rows name type) new, rest), λ c h. kept c (old c h))

add_tables-HasPlace :
    (tables : List Table) (b b' : Dict ColumnType)
    → add_tables tables b ≡ ok b'
    → All (λ table. All (HasPlace b') (counted table.rows table.columns)) tables
      × ((c : String × ColumnType) → HasPlace b c → HasPlace b' c)
unfolding add_tables
add_tables-HasPlace [] b b' q = (tt, λ c h. subst (λ d. HasPlace d c) (ok-injective q) h)
add_tables-HasPlace (table ∷ tables) b b' q =
    let (b₁, p, q') =
      >>=-eq-ok (add_columns table.rows table.columns b) (λ changed. add_tables tables changed) q in
    let (new, old) = add_columns-HasPlace table.rows table.columns b b₁ p in
    let (rest, kept) = add_tables-HasPlace tables b₁ b' q' in
    ((All-keeps b₁ b' kept (counted table.rows table.columns) new, rest), λ c h. kept c (old c h))

admits-final_type : (t c : ColumnType) → admits t c ≡ true → admits (final_type t) c ≡ true
admits-final_type null_marker c a = admits-null_marker integer c a
admits-final_type integer c a = a
admits-final_type number c a = a
admits-final_type agate_number c a = a
admits-final_type agate_date c a = a
admits-final_type agate_date_time c a = a
admits-final_type iso_date_time c a = a
admits-final_type agate_boolean c a = a
admits-final_type agate_text c a = a

lookup-finalize :
    (name : String) (b : Dict ColumnType) (t : ColumnType)
    → lookup name b ≡ some t
    → lookup name (finalize b) ≡ some (final_type t)
unfolding lookup finalize
lookup-finalize name [] t l = cc
lookup-finalize name ((k, v) ∷ b) t l = elim (Bool-cases (k == name)) [
  | inl same ↦ rw same (cc (rw same at l))
  | inr other ↦ rw other (lookup-finalize name b t (rw other at l))
]

finalize-HasPlace :
    (b : Dict ColumnType) (c : String × ColumnType) → HasPlace b c → HasPlace (finalize b) c
finalize-HasPlace b (name, type) (held, l, a) =
    (final_type held, lookup-finalize name b held l, admits-final_type held type a)

All-tables :
    (b b' : Dict ColumnType)
    → ((c : String × ColumnType) → HasPlace b c → HasPlace b' c)
    → (tables : List Table)
    → All (λ table. All (HasPlace b) (counted table.rows table.columns)) tables
    → All (λ table. All (HasPlace b') (counted table.rows table.columns)) tables
All-tables b b' f [] a = tt
All-tables b b' f (table ∷ tables) (h, a) =
    (All-keeps b b' f (counted table.rows table.columns) h, All-tables b b' f tables a)

merged_column_types-HasPlace :
    (tables : List Table) (types : Dict ColumnType)
    → merged_column_types tables ≡ ok types
    → All (λ table. All (HasPlace types) (counted table.rows table.columns)) tables
unfolding merged_column_types
merged_column_types-HasPlace tables types q =
    let (b, p, e) = >>=-eq-ok (add_tables tables []) (λ builder. ok (finalize builder)) q in
    let e' : finalize b ≡ types = ok-injective e in
    rw (← e')
      (All-tables b (finalize b) (finalize-HasPlace b) tables (add_tables-HasPlace tables [] b p).0)

-- A column has its place in the merged types: the type there admits its own, or it has no values.
abbrev pub HasType : Dict ColumnType → List (Dict Value) → String × ColumnType → Type 0
HasType types rows (name, type) =
    (held : ColumnType) × (lookup name types ≡ some held)
    × ((admits held type ≡ true) ⊎ All (λ row. get_or_null name row ≡ null) rows)

nulls :
    (name : String) (rows : List (Dict Value))
    → all (λ row. is_null (get_or_null name row)) rows ≡ true
    → All (λ row. get_or_null name row ≡ null) rows
nulls name [] e = tt
nulls name (row ∷ rows) e =
    let (h, t) =
      both_true (is_null (get_or_null name row)) (all (λ r. is_null (get_or_null name r)) rows) e in
    (only_null (get_or_null name row) h, nulls name rows t)
  where
    only_null : (v : Value) → is_null v ≡ true → v ≡ null
    only_null null q = refl
    only_null _ q = cc

HasPlace-HasType :
    (types : Dict ColumnType) (rows : List (Dict Value)) (name : String) (type : ColumnType)
    → HasPlace types (name, counted_type rows name type)
    → HasType types rows (name, type)
unfolding counted_type
HasPlace-HasType types rows name type (held, l, a) =
    elim (Bool-cases (all (λ row. is_null (get_or_null name row)) rows)) [
      | inl empty ↦ (held, l, inr (nulls name rows empty))
      | inr some_value ↦ (held, l, inl (rw (counted_type, some_value) at a))
    ]

columns-HasType :
    (types : Dict ColumnType) (rows : List (Dict Value)) (columns : Dict ColumnType)
    → All (HasPlace types) (counted rows columns)
    → All (HasType types rows) columns
columns-HasType types rows [] a = tt
columns-HasType types rows ((name, type) ∷ columns) (h, a) =
    (HasPlace-HasType types rows name type h, columns-HasType types rows columns a)

tables-HasType :
    (types : Dict ColumnType) (tables : List Table)
    → All (λ table. All (HasPlace types) (counted table.rows table.columns)) tables
    → All (λ table. All (HasType types table.rows) table.columns) tables
tables-HasType types [] a = tt
tables-HasType types (table ∷ tables) (h, a) =
    (columns-HasType types table.rows table.columns h, tables-HasType types tables a)

-- If the column types of some tables are merged without a mismatch, then every column of every table has a merged type under its name, which admits the type of the column unless the column has no values.
pub merged_column_types-HasType :
    (tables : List Table) (types : Dict ColumnType)
    → merged_column_types tables ≡ ok types
    → All (λ table. All (HasType types table.rows) table.columns) tables
merged_column_types-HasType tables types q =
    tables-HasType types tables (merged_column_types-HasPlace tables types q)
