-- ===== src/Semver/Tests.antt =====
-- Runs of the functions of semver.py on inputs of its test-suite, tests/unit/test_semver.py, and the
-- theorems about semver.py at concrete inputs.
use dbt_common.Common.{◌≡◌, refl, true, false, some, none, List, [], ◌∷◌, map, subst, ◌∙◌}
use dbt_common.Common.Outcome.{ok}
use dbt_common.Common.Codes.{codes}
use dbt_common.Common.{sym, Text, ◌&&◌}
use dbt_common.Semver.Text.{flip}
use dbt_common.Semver.Specifier.{
  unbounded, bounded, VersionSpecifier, greater_than_or_equal, less_than, exact, compare, is_lower,
  is_upper, to_version_string,
}
use dbt_common.Semver.Order.{Composes, compare-flip}
use dbt_common.Semver.Precedence.{IsPlain}
use dbt_common.Semver.Compatible.{admits, compatible_with-eq-admits}
use dbt_common.Semver.Best.{
  IsPlainText, IsBest, compare-Composes, resolve_to_specific_version-IsBest,
}
use dbt_common.Common.Outcome.{ok-injective}
use dbt_common.Semver.Parse.{from_version_string}
use dbt_common.Semver.Range.{
  VersionRange, reduce, to_range, checked_range, try_combine_lower_bound_with_exact,
  try_combine_upper_bound_with_exact,
}
use dbt_common.Semver.Select.{
  by_text, versions_compatible, filter_installable, resolve_to_specific_version, sorted, version_lt,
  compatible_with,
}

incompatible :
    versions_compatible (by_text (codes ">0.0.1") ∷ by_text (codes "0.0.1") ∷ []) ≡ ok false
unfolding versions_compatible from_version_string reduce to_range compare checked_range
    try_combine_lower_bound_with_exact
incompatible = refl

compatible :
    versions_compatible (by_text (codes ">0.0.1") ∷ by_text (codes "<=0.0.2-rc.1+b") ∷ []) ≡ ok true
unfolding versions_compatible from_version_string reduce to_range compare checked_range
compatible = refl

sorted_installable :
    filter_installable
      (map codes (
        "1.1.0" ∷ "1.2.0a1" ∷ "1.0.0" ∷ "2.1.0-alpha" ∷ "2.2.0asdf" ∷ "2.1.0" ∷ "2.2.0"
        ∷ "2.2.0-fishtown-beta" ∷ "2.2.0-2" ∷ []))
      true
    ≡ ok (
        map codes (
          "1.0.0" ∷ "1.1.0" ∷ "1.2.0a1" ∷ "2.1.0-alpha" ∷ "2.1.0" ∷ "2.2.0-2" ∷ "2.2.0asdf"
          ∷ "2.2.0-fishtown-beta" ∷ "2.2.0" ∷ []))
unfolding filter_installable from_version_string sorted version_lt compare to_version_string
sorted_installable = refl

best_version :
    resolve_to_specific_version
      (record { start = unbounded; end = unbounded })
      (map codes ("0.0.1" ∷ "0.0.3" ∷ "0.0.2" ∷ []))
    ≡ ok (some (codes "0.0.3"))
unfolding resolve_to_specific_version from_version_string compatible_with compare reduce to_range
    checked_range
best_version = refl

-- The version "x.0.0", with a matcher; its first prerelease; and a range of versions.
abbrev release : Text → VersionSpecifier
release major = record {
  major = major;
  minor = codes "0";
  patch = codes "0";
  prerelease = none;
  build = none;
  matcher = exact;
}

abbrev below_two : VersionSpecifier
below_two = record (release (codes "2")) { matcher = less_than }

abbrev from_one_below_two : VersionRange
from_one_below_two = record {
  start = bounded (record (release (codes "1")) { matcher = greater_than_or_equal });
  end = bounded below_two;
}

abbrev two_releases : List Text
two_releases = codes "1.0.0" ∷ codes "2.0.0" ∷ []

release-IsPlain : (major : Text) → IsPlain (release major)
release-IsPlain major = record { exact_matcher = refl; canonical = λ t e. cc }

of_release : (t major : Text) → from_version_string t ≡ ok (release major) → IsPlainText t
of_release t major p v e = subst IsPlain (ok-injective (sym p ∙ e)) (release-IsPlain major)

parsed_one : from_version_string (codes "1.0.0") ≡ ok (release (codes "1"))
unfolding from_version_string
parsed_one = refl

parsed_two : from_version_string (codes "2.0.0") ≡ ok (release (codes "2"))
unfolding from_version_string
parsed_two = refl

chosen_one : resolve_to_specific_version from_one_below_two two_releases ≡ ok (some (codes "1.0.0"))
unfolding resolve_to_specific_version from_version_string compatible_with compare reduce to_range
    checked_range try_combine_lower_bound_with_exact try_combine_upper_bound_with_exact
chosen_one = refl

resolve_to_specific_version-IsBest_example :
    IsBest from_one_below_two two_releases (some (codes "1.0.0"))
resolve_to_specific_version-IsBest_example =
    resolve_to_specific_version-IsBest from_one_below_two two_releases (some (codes "1.0.0"))
      (
        of_release (codes "1.0.0") (codes "1") parsed_one,
        (of_release (codes "2.0.0") (codes "2") parsed_two, tt),
      )
      chosen_one

compatible_with-eq-admits_example :
    compatible_with from_one_below_two (release (codes "1"))
    ≡ ok (
        admits from_one_below_two.start (release (codes "1"))
        && admits from_one_below_two.end (release (codes "1")))
unfolding is_lower is_upper
compatible_with-eq-admits_example =
    compatible_with-eq-admits (release (codes "1")) from_one_below_two.start from_one_below_two.end
      refl refl refl

compare-Composes_example :
    Composes
      (compare (bounded (release (codes "1"))) (bounded (release (codes "2"))))
      (compare (bounded (release (codes "2"))) (bounded (release (codes "3"))))
      (compare (bounded (release (codes "1"))) (bounded (release (codes "3"))))
compare-Composes_example =
    compare-Composes (release (codes "1")) (release (codes "2")) (release (codes "3"))
      (release-IsPlain (codes "1")) (release-IsPlain (codes "2")) (release-IsPlain (codes "3"))

compare-flip_example :
    compare (bounded (release (codes "2"))) (bounded (release (codes "1")))
    ≡ flip (compare (bounded (release (codes "1"))) (bounded (release (codes "2"))))
compare-flip_example =
    compare-flip (release (codes "1")) (release (codes "2")) (λ s. cc s.below) (λ s. cc s.below)
