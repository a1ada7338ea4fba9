-- ===== src/Semver/Parse.antt =====
-- `_VERSION_REGEX` and `VersionSpecifier.from_version_string` of dbt_common/semver.py. The pattern
-- is written as in the source, part by part; `\d` takes ASCII digits.
use dbt_common.Common.{Option, none, some, [], ◌∷◌, ◌||◌, ◌==◌, if◌then◌else◌, ℕ, Bool}
use dbt_common.Common.Dict.{Dict, lookup}
use dbt_common.Common.Outcome.{Outcome, ok, raise}
use dbt_common.Regex
use dbt_common.Regex.{
  Pattern, char_of, seq, alt, many, group, end_of_text, optional, some_of, char, literal, between,
}
use dbt_common.Semver.Text.{Text, is_digit}
use dbt_common.Semver.Specifier.{
  Matchers, greater_than, greater_than_or_equal, less_than, less_than_or_equal, exact,
  VersionSpecifier,
}
use dbt_common.Semver.Range.{SemverFault, semver_error}

digits_from : ℕ → Pattern
digits_from lo = seq (char_of (between lo b'9')) (many (char_of is_digit))

-- `_NUM_NO_LEADING_ZEROS`
unfoldable num_no_leading_zeros : Pattern
unfolding digits_from
num_no_leading_zeros = alt (char b'0') (digits_from b'1')

abbrev is_letter : ℕ → Bool
is_letter x = between b'a' b'z' x || (between b'A' b'Z' x || x == b'-')

abbrev is_alpha : ℕ → Bool
is_alpha x = is_digit x || is_letter x

-- `_ALPHA`
alpha : Pattern
alpha = many (char_of is_alpha)

-- `_ALPHA_NO_LEADING_ZEROS`
unfoldable alpha_no_leading_zeros : Pattern
unfolding digits_from
alpha_no_leading_zeros = alt (char b'0') (
    alt (digits_from b'1')
      (seq (many (char_of is_digit)) (seq (char_of is_letter) (many (char_of is_alpha)))))

-- `_MATCHERS`
pub matchers : Pattern
matchers = optional (
    group "matcher" (
      alt (literal (b'>' ∷ b'=' ∷ []))
        (alt (char b'>') (alt (char b'<') (alt (literal (b'<' ∷ b'=' ∷ [])) (char b'='))))))

-- `_BASE_VERSION_REGEX`
unfoldable base_version_regex : Pattern
unfolding num_no_leading_zeros
base_version_regex = seq (group "major" num_no_leading_zeros) (
    seq (char b'.') (
      seq (group "minor" num_no_leading_zeros)
        (seq (char b'.') (group "patch" num_no_leading_zeros))))

dotted : Pattern → Pattern
dotted p = seq p (many (seq (char b'.') p))

-- `_VERSION_EXTRA_REGEX`
unfoldable version_extra_regex : Pattern
unfolding alpha alpha_no_leading_zeros dotted
version_extra_regex =
    seq (optional (seq (optional (char b'-')) (group "prerelease" (dotted alpha_no_leading_zeros))))
      (optional (seq (char b'+') (group "build" (dotted alpha))))

-- `_VERSION_REGEX`; `match` anchors it at the start.
unfoldable version_regex : Pattern
unfolding matchers base_version_regex version_extra_regex
version_regex = seq matchers (seq base_version_regex (seq version_extra_regex end_of_text))

-- The member of `Matchers` with a given text; the field's default where there is none.
unfoldable to_matcher : Option Text → Matchers
to_matcher none = exact
to_matcher (some []) = exact
to_matcher (some (c ∷ [])) =
    if c == b'>' then greater_than else if c == b'<' then less_than else exact
to_matcher (some (c ∷ d ∷ _)) = if c == b'>' then greater_than_or_equal else less_than_or_equal

abbrev text_or_empty : Option Text → Text
text_or_empty none = []
text_or_empty (some t) = t

unfoldable from_groups : Dict Text → VersionSpecifier
unfolding to_matcher lookup
from_groups groups = record {
  major = text_or_empty (lookup "major" groups);
  minor = text_or_empty (lookup "minor" groups);
  patch = text_or_empty (lookup "patch" groups);
  prerelease = lookup "prerelease" groups;
  build = lookup "build" groups;
  matcher = to_matcher (lookup "matcher" groups);
}

abbrev from_match : Text → Option Regex.Match → Outcome SemverFault VersionSpecifier
from_match version_string none = raise (semver_error version_string)
from_match version_string (some m) = ok (from_groups m.groups)

unfoldable pub from_version_string : Text → Outcome SemverFault VersionSpecifier
unfolding from_groups version_regex Regex.match
from_version_string version_string =
    from_match version_string (Regex.match version_regex version_string 0)
