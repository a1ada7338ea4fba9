-- ===== src/Semver/Order.antt =====
-- Laws of the comparisons of dbt_common/semver.py: `_cmp`, `_nat_cmp` and `compare`.
mod Signs
pub mod Parts
use dbt_common.Common.{
  ℕ, Bool, true, false, ◌&&◌, Option, none, some, List, [], ◌∷◌, ◌≡◌, refl, ap, ap₂, ◌∙◌, arith,
  length,
}
use dbt_common.Semver.Text.{
  Text, Sign, less, equal, greater, flip, then_by, cmp, cmp_text, is_number, int, split_dots,
}
use dbt_common.Semver.Specifier.{
  Matchers, greater_than, greater_than_or_equal, less_than, less_than_or_equal, exact, matchers_eq,
  VersionSpecifier, Specifier, bounded, unbounded, Tag, number, word, cmp_prerelease_tag, tag,
  cmp_parts, nat_cmp, cmp_prerelease, cmp_matchers, compare_bounded, compare,
}
pub use Signs.*

cmp_text-flip : (a b : Text) → cmp_text b a ≡ flip (cmp_text a b)
unfolding cmp_text
cmp_text-flip [] [] = refl
cmp_text-flip [] (b ∷ bs) = refl
cmp_text-flip (a ∷ as') [] = refl
cmp_text-flip (a ∷ as') (b ∷ bs) = then_by-flip _ _ (cmp-flip a b) (cmp_text-flip as' bs)

cmp_prerelease_tag-flip : (a b : Tag) → cmp_prerelease_tag b a ≡ flip (cmp_prerelease_tag a b)
unfolding cmp_prerelease_tag
cmp_prerelease_tag-flip (number a) (number b) = cmp-flip a b
cmp_prerelease_tag-flip (number a) (word b) = refl
cmp_prerelease_tag-flip (word a) (number b) = refl
cmp_prerelease_tag-flip (word a) (word b) = cmp_text-flip a b

cmp_parts-flip : (as' bs : List Text) → cmp_parts bs as' ≡ flip (cmp_parts as' bs)
unfolding cmp_parts
cmp_parts-flip [] [] = refl
cmp_parts-flip [] (b ∷ bs) = refl
cmp_parts-flip (a ∷ as') [] = refl
cmp_parts-flip (a ∷ as') (b ∷ bs) =
    then_by-flip _ _ (cmp_prerelease_tag-flip (tag a) (tag b)) (cmp_parts-flip as' bs)

pub nat_cmp-flip : (a b : Text) → nat_cmp b a ≡ flip (nat_cmp a b)
unfolding nat_cmp
nat_cmp-flip a b =
    then_by-flip _ _ (cmp_parts-flip (split_dots a) (split_dots b)) (cmp-flip (length a) (length b))

cmp_matchers-flip : (m n : Matchers) → cmp_matchers n m ≡ flip (cmp_matchers m n)
unfolding cmp_matchers
cmp_matchers-flip m n = ground arith

-- A specifier "< stable" against a prerelease, for which `compare` has a rule of its own.
pub record StableBelow (a b : VersionSpecifier) : Type 0 where
  pub below : a.matcher ≡ less_than
  pub stable : a.prerelease ≡ none
  pub tag : Text
  pub prerelease : b.prerelease ≡ some tag

cmp_prerelease-flip :
    (m n : Matchers) (p q : Option Text)
    → ¬ ((m ≡ less_than) × (p ≡ none) × ((t : Text) × (q ≡ some t)))
    → ¬ ((n ≡ less_than) × (q ≡ none) × ((t : Text) × (p ≡ some t)))
    → cmp_prerelease n q p ≡ flip (cmp_prerelease m p q)
unfolding cmp_prerelease
cmp_prerelease-flip m n none none h k = refl
cmp_prerelease-flip less_than n none (some b) h k = absurd (h (refl, refl, (b, refl)))
cmp_prerelease-flip _ n none (some b) h k = refl
cmp_prerelease-flip m less_than (some a) none h k = absurd (k (refl, refl, (a, refl)))
cmp_prerelease-flip m _ (some a) none h k = refl
cmp_prerelease-flip m n (some a) (some b) h k = nat_cmp-flip a b

-- Comparing two specifiers the other way round gives the opposite sign, unless one of them is
-- "< stable" and the other one a prerelease.
pub compare-flip :
    (a b : VersionSpecifier)
    → ¬ StableBelow a b
    → ¬ StableBelow b a
    → compare (bounded b) (bounded a) ≡ flip (compare (bounded a) (bounded b))
unfolding compare compare_bounded
compare-flip a b h k = then_by-flip _ _ (cmp-flip (int a.major) (int b.major)) (
    then_by-flip _ _ (cmp-flip (int a.minor) (int b.minor)) (
      then_by-flip _ _ (cmp-flip (int a.patch) (int b.patch)) (
        then_by-flip _ _
          (cmp_prerelease-flip a.matcher b.matcher a.prerelease b.prerelease
            (λ (x, y, (t, z)). h (record { below = x; stable = y; tag = t; prerelease = z }))
            (λ (x, y, (t, z)). k (record { below = x; stable = y; tag = t; prerelease = z })))
          (cmp_matchers-flip a.matcher b.matcher))))
