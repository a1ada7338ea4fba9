-- ===== src/Config/Updating.antt =====
-- What `_merge_dicts` and `update_from` of dbt_common/contracts/config/base.py make of each key.
use Prim.Native.String.{String}
use text.Mathlib.Text.{◌==◌}
use dbt_common.Common.{
  false, Option, none, some, List, [], ◌∷◌, ◌≡◌, refl, sym, ap, subst, ◌∙◌, if◌then◌else◌,
  Bool-cases, Option-cases, inl, inr, eq_iff, eq_refl,
}
use dbt_common.Common.Dict.{
  Dict, lookup, insert, erase, update, Distinct, Distinct-insert, Distinct-erase, lookup-insert,
  lookup-erase, lookup-update, later,
}
use dbt_common.Common.Outcome.{ok, >>=-eq-ok, ok-injective}
use dbt_common.Config.Value.{Value}
use dbt_common.Config.Merge.{MergeBehavior, clobber, merge_field_value}
use dbt_common.Config.Fields.{Field, combine, merge_field, merge_fields, merge_dicts, update_from}

-- The first field with a target name.
abbrev field_for : String → List Field → Option Field
field_for k [] = none
field_for k (f ∷ fs) = let rest = field_for k fs in if f.target == k then some f else rest

-- What fields make of a key: of the results there, and of what is left of the data there.
abbrev MergedAt : Option Field → (old result rest result' rest' : Option Value) → Type 0
MergedAt none old result rest result' rest' = (result' ≡ result) × (rest' ≡ rest)
MergedAt (some f) old result none result' rest' = (result' ≡ result) × (rest' ≡ none)
MergedAt (some f) old result (some v) result' rest' =
    (w : Value) × (combine f.merge_behavior old v ≡ ok w) × (result' ≡ some w) × (rest' ≡ none)

-- One round, at the field's own key and at the others.
record Round (f : Field) (src result rest result' rest' : Dict Value) : Type 0 where
  self :
      MergedAt
        (some f)
        (lookup f.target src)
        (lookup f.target result)
        (lookup f.target rest)
        (lookup f.target result')
        (lookup f.target rest')
  others :
      (k : String)
      → (f.target == k) ≡ false
      → (lookup k result' ≡ lookup k result) × (lookup k rest' ≡ lookup k rest)

untouched :
    (f : Field) (src result rest : Dict Value)
    → lookup f.target rest ≡ none
    → Round f src result rest result rest
untouched f src result rest p = record { self = rw p (refl, refl); others = λ k h. (refl, refl) }

stored :
    (f : Field) (src result rest : Dict Value) (v w : Value)
    → lookup f.target rest ≡ some v
    → combine f.merge_behavior (lookup f.target src) v ≡ ok w
    → Round f src result rest (insert f.target w result) (erase f.target rest)
stored f src result rest v w p c = record {
  self = rw (p, lookup-insert, lookup-erase, eq_refl) (w, c, refl, refl);
  others = λ k h. (rw (lookup-insert, h), rw (lookup-erase, h));
}

merge_field-Round :
    (f : Field) (src result rest : Dict Value) {result' rest' : Dict Value}
    → merge_field f src result rest ≡ ok (result', rest')
    → Round f src result rest result' rest'
unfolding merge_field
merge_field-Round f src result rest e = elim (Option-cases (lookup f.target rest)) [
  | inl p ↦
      subst (λ s. Round f src result rest s.0 s.1) (ok-injective (rw (p, merge_field) at e))
        (untouched f src result rest p)
  | inr (v, p) ↦
      let (w, c, q) =
        >>=-eq-ok (combine f.merge_behavior (lookup f.target src) v) _ (rw (p, merge_field) at e) in
      subst (λ s. Round f src result rest s.0 s.1) (ok-injective q)
        (stored f src result rest v w p c)
]

none_stays :
    (o : Option Field) (old result : Option Value) {result' rest' : Option Value}
    → MergedAt o old result none result' rest'
    → (result' ≡ result) × (rest' ≡ none)
none_stays none old result h = h
none_stays (some f) old result h = h

twice :
    (f : Field) (o : Option Field) (old result rest s t result' rest' : Option Value)
    → MergedAt (some f) old result rest s t
    → MergedAt o old s t result' rest'
    → MergedAt (some f) old result rest result' rest'
twice f o old result none s t result' rest' (p, q) h =
    let (x, y) = none_stays o old s (rw q at h) in (x ∙ p, y)
twice f o old result (some v) s t result' rest' (w, c, p, q) h =
    let (x, y) = none_stays o old s (rw q at h) in (w, c, x ∙ p, y)

-- The rounds behind the first one.
after_round :
    (k : String) (f : Field) (fs : List Field) (src : Dict Value) {result rest s t : Dict Value}
    (result' rest' : Option Value)
    → Round f src result rest s t
    → MergedAt (field_for k fs) (lookup k src) (lookup k s) (lookup k t) result' rest'
    → MergedAt (field_for k (f ∷ fs)) (lookup k src) (lookup k result) (lookup k rest) result' rest'
after_round k f fs src {result} {rest} {s} {t} result' rest' r h =
    elim (Bool-cases (f.target == k)) [
      | inl same ↦ rw same (
          twice f (field_for k fs) (lookup k src) (lookup k result) (lookup k rest) (lookup k s)
            (lookup k t) result' rest'
            (subst
              (λ j.
                MergedAt (some f) (lookup j src) (lookup j result) (lookup j rest) (lookup j s)
                  (lookup j t))
              ((eq_iff f.target k).0 same) r.self)
            h)
      | inr other ↦ rw other (rw ((r.others k other).0, (r.others k other).1) at h)
    ]

-- All rounds, at one key.
merge_fields-MergedAt :
    (k : String) (fs : List Field) (src result rest : Dict Value) {result' rest' : Dict Value}
    → merge_fields fs src result rest ≡ ok (result', rest')
    → MergedAt
        (field_for k fs)
        (lookup k src)
        (lookup k result)
        (lookup k rest)
        (lookup k result')
        (lookup k rest')
unfolding merge_fields
merge_fields-MergedAt k [] src result rest e =
    (sym (ap (λ s. lookup k s.0) (ok-injective e)), sym (ap (λ s. lookup k s.1) (ok-injective e)))
merge_fields-MergedAt k (f ∷ fs) src result rest e =
    let (s, p, q) = >>=-eq-ok (merge_field f src result rest) _ e in
    after_round k f fs src _ _ (merge_field-Round f src result rest p)
      (merge_fields-MergedAt k fs src s.0 s.1 q)

merge_field-Distinct :
    (f : Field) (src result rest : Dict Value) {s : Dict Value × Dict Value}
    → Distinct result
    → Distinct rest
    → merge_field f src result rest ≡ ok s
    → Distinct s.0 × Distinct s.1
unfolding merge_field
merge_field-Distinct f src result rest h k e = elim (Option-cases (lookup f.target rest)) [
  | inl p ↦
      subst (λ s. Distinct s.0 × Distinct s.1) (ok-injective (rw (p, merge_field) at e)) (h, k)
  | inr (v, p) ↦
      let (w, c, q) =
        >>=-eq-ok (combine f.merge_behavior (lookup f.target src) v) _ (rw (p, merge_field) at e) in
      subst (λ s. Distinct s.0 × Distinct s.1) (ok-injective q)
        (Distinct-insert f.target w result h, Distinct-erase f.target rest k)
]

merge_fields-Distinct :
    (fs : List Field) (src result rest : Dict Value) {s : Dict Value × Dict Value}
    → Distinct result
    → Distinct rest
    → merge_fields fs src result rest ≡ ok s
    → Distinct s.0 × Distinct s.1
unfolding merge_fields
merge_fields-Distinct [] src result rest h k e =
    subst (λ s. Distinct s.0 × Distinct s.1) (ok-injective e) (h, k)
merge_fields-Distinct (f ∷ fs) src result rest h k e =
    let (s, p, q) = >>=-eq-ok (merge_field f src result rest) _ e in
    let (h', k') = merge_field-Distinct f src result rest h k p in
    merge_fields-Distinct fs src s.0 s.1 h' k' q

-- The merge behavior of a key: that of the object's own field, or else that of the adapter's
-- configuration class, or else "clobber".
abbrev behavior_for_fields : Option Field → Option Field → MergeBehavior
behavior_for_fields (some f) g = f.merge_behavior
behavior_for_fields none (some f) = f.merge_behavior
behavior_for_fields none none = clobber

abbrev pub behavior_for : String → List Field → List Field → MergeBehavior
behavior_for k fields adapter_fields =
    behavior_for_fields (field_for k fields) (field_for k adapter_fields)

-- What `update_from` makes of a key.
abbrev pub UpdatedAt : MergeBehavior → (old given new : Option Value) → Type 0
UpdatedAt b old none new = new ≡ old
UpdatedAt b old (some v) new = (w : Value) × (combine b old v ≡ ok w) × (new ≡ some w)

combine-clobber : (old : Option Value) (v : Value) → combine clobber old v ≡ ok v
combine-clobber none v = refl
combine-clobber (some o) v = unfold merge_field_value in refl

-- The two merges and the update by what is left, at one key.
combined :
    (o o' : Option Field) (old g s t s' t' : Option Value)
    → MergedAt o old none g s t
    → MergedAt o' (later s old) none t s' t'
    → UpdatedAt (behavior_for_fields o o') old g (later t' (later s' (later s old)))
combined none none old none s t s' t' (p, q) (p', q') = rw (q', q, p', p)
combined none none old (some v) s t s' t' (p, q) (p', q') = (v, combine-clobber old v, rw (q', q))
combined none (some f) old none s t s' t' (p, q) h = let (p', q') = rw q at h in rw (q', p', p)
combined none (some f) old (some v) s t s' t' (p, q) h =
    let (w, c, p', q') = rw (q, p) at h in (w, c, rw (q', p'))
combined (some f) o' old none s t s' t' (p, q) h =
    let (p', q') = none_stays o' (later s old) none (rw q at h) in rw (q', p', p)
combined (some f) o' old (some v) s t s' t' (w, c, p, q) h =
    let (p', q') = none_stays o' (later s old) none (rw q at h) in (w, c, rw (q', p', p))

-- If `update_from` raises no merge error, then each key that `data` lacks keeps its value, and each key
-- of `data` gets the merge of the old value with the new one under the behavior of its field, or the new value if
-- there was no old one.
pub update_from-UpdatedAt :
    (k : String) (fields adapter_fields : List Field) (dct given : Dict Value) (result : Dict Value)
    → Distinct given
    → update_from fields adapter_fields dct given ≡ ok result
    → UpdatedAt
        (behavior_for k fields adapter_fields)
        (lookup k dct)
        (lookup k given)
        (lookup k result)
unfolding update_from merge_dicts lookup
update_from-UpdatedAt k fields adapter_fields dct given result h e =
    let (s, p, q) = >>=-eq-ok (merge_fields fields dct [] given) _ e in
    let (t, p', q') = >>=-eq-ok (merge_fields adapter_fields (update dct s.0) [] s.1) _ q in
    let (d₁, d₂) = merge_fields-Distinct fields dct [] given tt h p in
    let (d₃, d₄) = merge_fields-Distinct adapter_fields (update dct s.0) [] s.1 tt d₂ p' in
    rw
      (
        ← ok-injective q',
        lookup-update k _ t.1 d₄,
        lookup-update k _ t.0 d₃,
        lookup-update k dct s.0 d₁,
      )
      (combined (field_for k fields) (field_for k adapter_fields) _ _ _ _ _ _
        (merge_fields-MergedAt k fields dct [] given p)
        (rw (lookup-update k dct s.0 d₁) at
          (merge_fields-MergedAt k adapter_fields (update dct s.0) [] s.1 p')))
