-- ===== src/Semver/Range.antt =====
-- `VersionRange` of dbt_common/semver.py.
use dbt_common.Common.{Bool, true, false, ◌&&◌, ◌||◌, not, List, [], ◌∷◌, ◌++◌, if◌then◌else◌}
use dbt_common.Common.Outcome.{Outcome, ok, raise, ◌>>=◌}
use dbt_common.Semver.Text.{Text, Sign, less, equal, greater}
use dbt_common.Semver.Specifier.{
  Matchers, greater_than_or_equal, less_than_or_equal, exact, matchers_eq, Specifier, bounded,
  unbounded, to_version_string, compare, is_lower, is_upper, is_unbounded, is_exact,
}

-- The exceptions of semver.py.
pub data SemverFault : Type 0 where
  versions_not_compatible : SemverFault
  semver_error : Text → SemverFault

pub record VersionRange : Type 0 where
  pub start : Specifier
  pub end : Specifier

abbrev pub sign_eq : Sign → Sign → Bool
sign_eq less less = true
sign_eq equal equal = true
sign_eq greater greater = true
sign_eq _ _ = false

abbrev has_matcher : Matchers → Specifier → Bool
has_matcher m unbounded = matchers_eq m exact
has_matcher m (bounded v) = matchers_eq v.matcher m

unfoldable pub to_range : Specifier → VersionRange
unfolding is_lower is_upper
to_range unbounded = record { start = unbounded; end = unbounded }
to_range (bounded v) =
    if matchers_eq v.matcher exact
    then record { start = bounded v; end = bounded v }
    else if is_lower v.matcher
    then record { start = bounded v; end = unbounded }
    else if is_upper v.matcher
    then record { start = unbounded; end = bounded v }
    else record { start = unbounded; end = unbounded }

unfoldable try_combine_exact : Specifier → Specifier → Outcome SemverFault Specifier
try_combine_exact a b = if sign_eq (compare a b) equal then ok a else raise versions_not_compatible

unfoldable pub try_combine_lower_bound_with_exact :
    Specifier → Specifier → Outcome SemverFault Specifier
try_combine_lower_bound_with_exact lower e =
    let comparison = compare lower e in
    if sign_eq comparison less
      || sign_eq comparison equal && has_matcher greater_than_or_equal lower
    then ok e
    else raise versions_not_compatible

unfoldable try_combine_lower_bound : Specifier → Specifier → Outcome SemverFault Specifier
unfolding is_unbounded is_exact
try_combine_lower_bound a b =
    if is_unbounded b
    then ok a
    else if is_unbounded a
    then ok b
    else if not (is_exact a || is_exact b)
    then (if sign_eq (compare a b) less then ok b else ok a)
    else if is_exact a
    then try_combine_lower_bound_with_exact b a
    else try_combine_lower_bound_with_exact a b

unfoldable pub try_combine_upper_bound_with_exact :
    Specifier → Specifier → Outcome SemverFault Specifier
try_combine_upper_bound_with_exact upper e =
    let comparison = compare upper e in
    if sign_eq comparison greater
      || sign_eq comparison equal && has_matcher less_than_or_equal upper
    then ok e
    else raise versions_not_compatible

unfoldable try_combine_upper_bound : Specifier → Specifier → Outcome SemverFault Specifier
unfolding is_unbounded is_exact
try_combine_upper_bound a b =
    if is_unbounded b
    then ok a
    else if is_unbounded a
    then ok b
    else if not (is_exact a || is_exact b)
    then (if sign_eq (compare a b) greater then ok b else ok a)
    else if is_exact a
    then try_combine_upper_bound_with_exact b a
    else try_combine_upper_bound_with_exact a b

-- The end of `reduce`: a range whose start lies above its end is refused.
unfoldable pub checked_range : Specifier → Specifier → Outcome SemverFault VersionRange
checked_range start end =
    if sign_eq (compare start end) greater
    then raise versions_not_compatible
    else ok (record { start = start; end = end })

unfoldable pub reduce : VersionRange → VersionRange → Outcome SemverFault VersionRange
unfolding is_exact try_combine_exact try_combine_lower_bound try_combine_upper_bound checked_range
reduce r s =
    if is_exact r.start && is_exact s.start
    then (do both ← try_combine_exact r.start s.start; checked_range both both)
    else do
      start ← try_combine_lower_bound r.start s.start
      end ← try_combine_upper_bound r.end s.end
      checked_range start end

abbrev bound_strings : Specifier → List Text
bound_strings unbounded = []
bound_strings (bounded v) = to_version_string false v ∷ []

unfoldable to_version_string_pair : VersionRange → List Text
unfolding to_version_string
to_version_string_pair r = bound_strings r.start ++ bound_strings r.end
