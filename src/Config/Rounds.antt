-- ===== src/Config/Rounds.antt =====
-- The rounds of the loop of `merge_config_dicts` in dbt_common/contracts/config/base.py.
use Prim.Native.String.{String}
use text.Mathlib.Text.{◌==◌}
use dbt_common.Common.{
  true, false, Option, none, some, [], ◌∷◌, ◌≡◌, refl, subst, Bool-cases, inl, inr, eq_iff,
}
use dbt_common.Common.Dict.{Dict, lookup, insert, Distinct, lookup-insert}
use dbt_common.Common.Outcome.{Outcome, ok, raise, ◌>>=◌, Outcome-cases}
use dbt_common.Config.Value.{Value}
use dbt_common.Config.Merge.{ConfigFault, MergeBehavior, behavior_of, merge_key, merge_each}

-- What a merge gives at a key that the new dictionary has or lacks.
abbrev pub merged_at :
    MergeBehavior → Option Value → Option Value → Outcome ConfigFault (Option Value)
merged_at b old none = ok old
merged_at b old (some v) = do w ← merge_key b old v; ok (some w)

merge_each-cons :
    (orig new : Dict Value) (j : String) (v : Value)
    → (merge_each orig ((j, v) ∷ new)).0 ≡ ok tt
    → (w : Value) × (merge_key (behavior_of j) (lookup j orig) v ≡ ok w)
      × (merge_each orig ((j, v) ∷ new) ≡ merge_each (insert j w orig) new)
unfolding merge_each
merge_each-cons orig new j v e =
    elim (Outcome-cases (merge_key (behavior_of j) (lookup j orig) v)) [
      | inl (w, p) ↦ (w, p, rw (p, merge_each))
      | inr (f, p) ↦ absurd (not_ok f (rw (p, merge_each) at e))
    ]
  where
    not_ok : (f : ConfigFault) → ◌≡◌ {A = Outcome ConfigFault (Unit {0})} (raise f) (ok tt) → ⊥
    not_ok f h = cc

lookup_first :
    (k j : String) (v : Value) (m : Dict Value) → (j == k) ≡ true → lookup k ((j, v) ∷ m) ≡ some v
unfolding lookup
lookup_first k j v m h = rw h

lookup_rest :
    (k j : String) (v : Value) (m : Dict Value)
    → (j == k) ≡ false
    → lookup k ((j, v) ∷ m) ≡ lookup k m
unfolding lookup
lookup_rest k j v m h = rw h

-- The first key of the new dictionary does not come again.
first_key :
    (k j : String) (v w : Value) (orig new : Dict Value) {o : Option Value}
    → lookup j new ≡ none
    → merge_key (behavior_of j) (lookup j orig) v ≡ ok w
    → merged_at (behavior_of k) (lookup k (insert j w orig)) (lookup k new) ≡ ok o
    → merged_at (behavior_of k) (lookup k orig) (lookup k ((j, v) ∷ new)) ≡ ok o
first_key k j v w orig new {o} fresh p h = elim (Bool-cases (j == k)) [
  | inl same ↦
      let e : j ≡ k = (eq_iff j k).0 same in
      rw
        (
          lookup_first k j v new same,
          subst (λ i. merge_key (behavior_of i) (lookup i orig) v ≡ ok w) e p,
        )
        (rw (lookup-insert j k w orig, same, subst (λ i. lookup i new ≡ none) e fresh) at h)
  | inr other ↦ rw (lookup_rest k j v new other) (rw (lookup-insert j k w orig, other) at h)
]

-- After the loop of `merge_config_dicts`, if it ends without an exception, every key holds what its
-- own merge gives: a key that the new dictionary lacks is untouched, and for the others the
-- behavior of the key decides.
pub lookup-merge_each :
    (k : String) (orig new : Dict Value)
    → Distinct new
    → (merge_each orig new).0 ≡ ok tt
    → merged_at (behavior_of k) (lookup k orig) (lookup k new)
      ≡ ok (lookup k (merge_each orig new).1)
lookup-merge_each k orig [] h e = unfold lookup merge_each in refl
lookup-merge_each k orig ((j, v) ∷ new) (fresh, h) e =
    let (w, p, q) = merge_each-cons orig new j v e in
    rw q
      (first_key k j v w orig new fresh p (lookup-merge_each k (insert j w orig) new h (rw q at e)))
