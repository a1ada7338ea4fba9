-- ===== src/Semver/Specifier.antt =====
-- `Matchers`, `VersionSpecifier` and `UnboundedVersionSpecifier` of dbt_common/semver.py.
use dbt_common.Common.{
  Bool, true, false, ◌&&◌, ◌||◌, Option, none, some, List, [], ◌∷◌, ◌++◌, length, if◌then◌else◌, ℕ,
}
use dbt_common.Semver.Text.{
  Text, Sign, less, equal, greater, then_by, cmp, cmp_text, is_number, int, split_dots,
}

pub data Matchers : Type 0 where
  greater_than greater_than_or_equal less_than less_than_or_equal exact : Matchers

-- `a == b` of two members
abbrev pub matchers_eq : Matchers → Matchers → Bool
matchers_eq greater_than greater_than = true
matchers_eq greater_than_or_equal greater_than_or_equal = true
matchers_eq less_than less_than = true
matchers_eq less_than_or_equal less_than_or_equal = true
matchers_eq exact exact = true
matchers_eq _ _ = false

-- The text of a member.
unfoldable symbol : Matchers → Text
symbol greater_than = b'>' ∷ []
symbol greater_than_or_equal = b'>' ∷ b'=' ∷ []
symbol less_than = b'<' ∷ []
symbol less_than_or_equal = b'<' ∷ b'=' ∷ []
symbol exact = b'=' ∷ []

-- As `from_version_string` builds it: major, minor and patch are there, and are digits.
pub record VersionSpecifier : Type 0 where
  pub major : Text
  pub minor : Text
  pub patch : Text
  pub prerelease : Option Text
  pub build : Option Text
  pub matcher : Matchers

-- An object of the class or of its subclass `UnboundedVersionSpecifier`.
pub data Specifier : Type 0 where
  bounded : VersionSpecifier → Specifier
  unbounded : Specifier

-- `if self.prerelease: prerelease = "-" + self.prerelease`
abbrev marked : ℕ → Option Text → Text
marked c none = []
marked c (some []) = []
marked c (some (d ∷ ds)) = c ∷ d ∷ ds

unfoldable pub to_version_string : Bool → VersionSpecifier → Text
unfolding symbol
to_version_string skip_matcher v =
    (if skip_matcher then [] else symbol v.matcher)
    ++ (v.major
        ++ (b'.'
            ∷ (v.minor ++ (b'.' ∷ (v.patch ++ (marked b'-' v.prerelease ++ marked b'+' v.build))))))

-- A part of a prerelease, as `_nat_cmp` reads it: an `int` or a `str`.
pub data Tag : Type 0 where
  number : ℕ → Tag
  word : Text → Tag

unfoldable pub cmp_prerelease_tag : Tag → Tag → Sign
unfolding cmp_text
cmp_prerelease_tag (number a) (number b) = cmp a b
cmp_prerelease_tag (number a) (word b) = less
cmp_prerelease_tag (word a) (number b) = greater
cmp_prerelease_tag (word a) (word b) = cmp_text a b

unfoldable pub tag : Text → Tag
unfolding is_number int
tag x = if is_number x then number (int x) else word x

-- The loop over `zip(a_parts_2, b_parts_2)`: the first difference, or 0.
unfoldable pub cmp_parts : List Text → List Text → Sign
unfolding cmp_prerelease_tag tag
cmp_parts [] bs = equal
cmp_parts (a ∷ as') [] = equal
cmp_parts (a ∷ as') (b ∷ bs) = then_by (cmp_prerelease_tag (tag a) (tag b)) (cmp_parts as' bs)

-- The `else` of the loop compares the lengths of the whole texts.
unfoldable pub nat_cmp : Text → Text → Sign
unfolding cmp_parts split_dots
nat_cmp a b = then_by (cmp_parts (split_dots a) (split_dots b)) (cmp (length a) (length b))

unfoldable pub cmp_prerelease : Matchers → Option Text → Option Text → Sign
unfolding nat_cmp
cmp_prerelease m none none = equal
cmp_prerelease m none (some b) = if matchers_eq m less_than then less else greater
cmp_prerelease m (some a) none = less
cmp_prerelease m (some a) (some b) = nat_cmp a b

unfoldable pub is_lower : Matchers → Bool
is_lower m = matchers_eq m greater_than || matchers_eq m greater_than_or_equal

unfoldable pub is_upper : Matchers → Bool
is_upper m = matchers_eq m less_than || matchers_eq m less_than_or_equal

-- The end of `compare`, where the versions are equal and the matchers decide.
unfoldable pub cmp_matchers : Matchers → Matchers → Sign
unfolding is_lower is_upper
cmp_matchers m n =
    if matchers_eq m greater_than_or_equal && matchers_eq n less_than_or_equal
      || matchers_eq m less_than_or_equal && matchers_eq n greater_than_or_equal
    then equal
    else if matchers_eq m less_than && matchers_eq n less_than_or_equal
        || (matchers_eq n greater_than && matchers_eq m greater_than_or_equal
            || is_upper m && is_lower n)
    then less
    else if matchers_eq n less_than && matchers_eq m less_than_or_equal
        || (matchers_eq m greater_than && matchers_eq n greater_than_or_equal
            || is_lower m && is_upper n)
    then greater
    else equal

-- `compare` where neither side is unbounded
unfoldable pub compare_bounded : VersionSpecifier → VersionSpecifier → Sign
unfolding int cmp_prerelease cmp_matchers
compare_bounded a b = then_by (cmp (int a.major) (int b.major)) (
    then_by (cmp (int a.minor) (int b.minor)) (
      then_by (cmp (int a.patch) (int b.patch)) (
        then_by (cmp_prerelease a.matcher a.prerelease b.prerelease)
          (cmp_matchers a.matcher b.matcher))))

unfoldable pub compare : Specifier → Specifier → Sign
unfolding compare_bounded
compare unbounded b = equal
compare (bounded a) unbounded = equal
compare (bounded a) (bounded b) = compare_bounded a b

unfoldable pub is_unbounded : Specifier → Bool
is_unbounded unbounded = true
is_unbounded (bounded a) = false

unfoldable is_lower_bound : Specifier → Bool
unfolding is_lower
is_lower_bound unbounded = false
is_lower_bound (bounded a) = is_lower a.matcher

unfoldable is_upper_bound : Specifier → Bool
unfolding is_upper
is_upper_bound unbounded = false
is_upper_bound (bounded a) = is_upper a.matcher

unfoldable pub is_exact : Specifier → Bool
is_exact unbounded = false
is_exact (bounded a) = matchers_eq a.matcher exact
