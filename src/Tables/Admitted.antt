-- ===== src/Tables/Admitted.antt =====
-- dbt_common/clients/agate_helper.py: the types that a merged column admits.
use Prim.Native.String.{String}
use dbt_common.Common.{
  Bool, true, false, ◌&&◌, ◌||◌, not, ◌≡◌, refl, subst, Bool-cases, inl, inr, arith,
}
use dbt_common.Common.Outcome.{Outcome, ok, raise, ok-injective}
use dbt_common.Tables.Columns.{
  ColumnType, integer, number, agate_number, agate_date, agate_date_time, iso_date_time,
  agate_boolean, agate_text, null_marker, is_instance, TableFault, combined,
}

-- The columns that a merged column can hold: those without values, those of its type, and integers
-- in a column of numbers.
abbrev pub admits : ColumnType → ColumnType → Bool
admits merged type =
    is_instance type null_marker
    || (is_instance type merged || is_instance type integer && is_instance merged agate_number)

-- How a type joins the one that a key has.
pub data Joins (e v : ColumnType) : ColumnType → Type 0 where
  over_null : is_instance e null_marker ≡ true → Joins e v v
  no_values : is_instance v null_marker ≡ true → Joins e v e
  to_number : is_instance v integer ≡ true → is_instance e agate_number ≡ true → Joins e v e
  widened : is_instance e integer ≡ true → is_instance v agate_number ≡ true → Joins e v v
  fits : is_instance v e ≡ true → Joins e v e

pub both_true : (a b : Bool) → (a && b) ≡ true → (a ≡ true) × (b ≡ true)
both_true true true e = (refl, refl)
both_true true false e = cc
both_true false b e = cc

not-false : (b : Bool) → not b ≡ false → b ≡ true
not-false true e = refl
not-false false e = cc

no_type {ℓ} :
    {A : Type ℓ} (f : TableFault) {w : ColumnType}
    → ◌≡◌ {A = Outcome TableFault ColumnType} (raise f) (ok w)
    → A
no_type f q = cc q

pub combined-Joins : (key : String) (e v w : ColumnType) → combined key e v ≡ ok w → Joins e v w
unfolding combined
combined-Joins key e v w q = elim (Bool-cases (is_instance e null_marker)) [
  | inl is ↦ subst (Joins e v) (ok-injective (rw (is, combined) at q)) (over_null is)
  | inr is_not ↦ elim (Bool-cases (is_instance v null_marker)) [
    | inl is ↦ subst (Joins e v) (ok-injective (rw (is_not, is, combined) at q)) (no_values is)
    | inr is_not' ↦ elim (Bool-cases (is_instance v integer && is_instance e agate_number)) [
      | inl is ↦
          let (a, b) = both_true (is_instance v integer) (is_instance e agate_number) is in
          subst (Joins e v) (ok-injective (rw (is_not, is_not', is, combined) at q)) (to_number a b)
      | inr no_number ↦ elim (Bool-cases (is_instance e integer && is_instance v agate_number)) [
        | inl is ↦
            let (a, b) = both_true (is_instance e integer) (is_instance v agate_number) is in
            subst (Joins e v) (ok-injective (rw (is_not, is_not', no_number, is, combined) at q))
              (widened a b)
        | inr not_wider ↦ elim (Bool-cases (not (is_instance v e))) [
          | inl mismatch ↦
              no_type _ (rw (is_not, is_not', no_number, not_wider, mismatch, combined) at q)
          | inr is ↦
              subst (Joins e v)
                (ok-injective (rw (is_not, is_not', no_number, not_wider, is, combined) at q))
                (fits (not-false (is_instance v e) is))
        ]
      ]
    ]
  ]
]

-- A key that admitted a type admits it behind another one, and admits that one.
is_null_marker : (t : ColumnType) → is_instance t null_marker ≡ true → t ≡ null_marker
is_null_marker null_marker e = refl
is_null_marker _ e = cc

is_integer : (t : ColumnType) → is_instance t integer ≡ true → t ≡ integer
is_integer integer e = refl
is_integer _ e = cc

is_itself : (t : ColumnType) → is_instance t t ≡ true
is_itself integer = refl
is_itself number = refl
is_itself agate_number = refl
is_itself agate_date = refl
is_itself agate_date_time = refl
is_itself iso_date_time = refl
is_itself agate_boolean = refl
is_itself agate_text = refl
is_itself null_marker = refl

pub admits-null_marker : (t c : ColumnType) → admits null_marker c ≡ true → admits t c ≡ true
admits-null_marker t null_marker a = refl
admits-null_marker t _ a = cc

admits-widened :
    (v c : ColumnType)
    → is_instance v agate_number ≡ true
    → admits integer c ≡ true
    → admits v c ≡ true
admits-widened v integer n a = rw n (ground arith)
admits-widened v null_marker n a = refl
admits-widened v _ n a = cc

pub admits-itself : (t : ColumnType) → admits t t ≡ true
admits-itself t = rw (is_itself t) (ground arith)

pub Joins-keeps :
    {e v w : ColumnType} (c : ColumnType) → Joins e v w → admits e c ≡ true → admits w c ≡ true
Joins-keeps {e} {v} c (over_null is) a =
    admits-null_marker v c (subst (λ t. admits t c ≡ true) (is_null_marker e is) a)
Joins-keeps c (no_values is) a = a
Joins-keeps c (to_number is is') a = a
Joins-keeps {e} {v} c (widened is is') a =
    admits-widened v c is' (subst (λ t. admits t c ≡ true) (is_integer e is) a)
Joins-keeps c (fits is) a = a

pub Joins-admits : {e v w : ColumnType} → Joins e v w → admits w v ≡ true
Joins-admits {e} {v} (over_null is) = admits-itself v
Joins-admits (no_values is) = rw is refl
Joins-admits (to_number is is') = rw (is, is') (ground arith)
Joins-admits {e} {v} (widened is is') = admits-itself v
Joins-admits (fits is) = rw is (ground arith)
