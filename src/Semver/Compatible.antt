-- ===== src/Semver/Compatible.antt =====
-- Which versions a specifier admits, and `versions_compatible` as `find_possible_versions` and
-- `resolve_to_specific_version` of dbt_common/semver.py call it.
use dbt_common.Common.{
  Bool, true, false, ◌&&◌, ◌||◌, not, ◌≡◌, ◌≢◌, refl, ap, ◌∙◌, arith, sym, if◌then◌else◌,
}
use dbt_common.Common.Outcome.{Outcome, ok, raise, ◌>>=◌}
use dbt_common.Semver.Text.{Sign, less, equal, greater}
use dbt_common.Semver.Specifier.{
  Matchers, greater_than, greater_than_or_equal, less_than, less_than_or_equal, exact, matchers_eq,
  VersionSpecifier, Specifier, bounded, unbounded, compare, is_lower, is_upper,
}
use dbt_common.Semver.Range.{
  SemverFault, versions_not_compatible, VersionRange, sign_eq, to_range, reduce, checked_range,
  try_combine_lower_bound_with_exact, try_combine_upper_bound_with_exact,
}
use dbt_common.Semver.Precedence.{
  precedence, precedence_refl, is_prerelease_of, compare_exact, compare-less_than,
}
use dbt_common.Semver.Select.{caught, compatible_with}

abbrev admitted : Matchers → Sign → Bool → Bool
admitted greater_than order of_bound = sign_eq order less
admitted greater_than_or_equal order of_bound = not (sign_eq order greater)
admitted less_than order of_bound = sign_eq order greater && not of_bound
admitted less_than_or_equal order of_bound = not (sign_eq order less)
admitted exact order of_bound = sign_eq order equal

-- Whether a specifier admits a version, by precedence; "< stable" leaves out the prereleases of the
-- stable version.
pub admits : Specifier → VersionSpecifier → Bool
admits unbounded v = true
admits (bounded s) v = admitted s.matcher (precedence s v) (is_prerelease_of s v)

lower_verdict :
    (m : Matchers) (c order : Sign) (of_bound : Bool)
    → is_lower m ≡ true
    → c ≡ order
    → (sign_eq c less || sign_eq c equal && matchers_eq m greater_than_or_equal)
      ≡ admitted m order of_bound
unfolding is_lower
lower_verdict greater_than c less p h e = rw e
lower_verdict greater_than c equal p h e = rw e
lower_verdict greater_than c greater p h e = rw e
lower_verdict greater_than_or_equal c less p h e = rw e
lower_verdict greater_than_or_equal c equal p h e = rw e
lower_verdict greater_than_or_equal c greater p h e = rw e
lower_verdict less_than c order p h e = cc
lower_verdict less_than_or_equal c order p h e = cc
lower_verdict exact c order p h e = cc

upper_verdict :
    (m : Matchers) (c order : Sign) (of_bound : Bool)
    → is_upper m ≡ true
    → (m ≢ less_than → c ≡ order)
    → (m ≡ less_than → c ≡ (if of_bound then less else order))
    → (sign_eq c greater || sign_eq c equal && matchers_eq m less_than_or_equal)
      ≡ admitted m order of_bound
unfolding is_upper
upper_verdict greater_than c order p h e k = cc
upper_verdict greater_than_or_equal c order p h e k = cc
upper_verdict exact c order p h e k = cc
upper_verdict less_than c order p h e k = rw (k refl) (ground arith)
upper_verdict less_than_or_equal c order p h e k = rw (e (λ x. cc)) (ground arith)

is_lower-ne : (m : Matchers) → is_lower m ≡ true → m ≢ less_than
unfolding is_lower
is_lower-ne m h e = ground arith

and_true : (b : Bool) → (b && true) ≡ b
and_true true = refl
and_true false = refl

module _ (v : VersionSpecifier) (plain : v.matcher ≡ exact) where
  abbrev only : VersionRange
  only = record { start = bounded v; end = bounded v }

  abbrev only_if : Bool → Outcome SemverFault VersionRange
  only_if b = if b then ok only else raise versions_not_compatible

  compare_self : compare (bounded v) (bounded v) ≡ equal
  compare_self = compare_exact v v (λ e. cc (sym plain ∙ e)) plain ∙ precedence_refl v

  with_lower :
      (s : VersionSpecifier)
      → is_lower s.matcher ≡ true
      → try_combine_lower_bound_with_exact (bounded s) (bounded v)
        ≡ (if admits (bounded s) v then ok (bounded v) else raise versions_not_compatible)
  unfolding try_combine_lower_bound_with_exact admits
  with_lower s h =
      ap (λ b. if b then ok (bounded v) else raise versions_not_compatible)
        (lower_verdict s.matcher _ _ (is_prerelease_of s v) h
          (compare_exact s v (is_lower-ne s.matcher h) plain))

  with_upper :
      (s : VersionSpecifier)
      → is_upper s.matcher ≡ true
      → try_combine_upper_bound_with_exact (bounded s) (bounded v)
        ≡ (if admits (bounded s) v then ok (bounded v) else raise versions_not_compatible)
  unfolding try_combine_upper_bound_with_exact admits
  with_upper s h =
      ap (λ b. if b then ok (bounded v) else raise versions_not_compatible)
        (upper_verdict s.matcher _ _ (is_prerelease_of s v) h (λ e. compare_exact s v e plain)
          (λ e. compare-less_than s v e plain))

  checked_only : checked_range (bounded v) (bounded v) ≡ ok only
  unfolding checked_range
  checked_only = rw compare_self

  then_checked :
      (b : Bool)
      → ((if b then ok (bounded v) else raise versions_not_compatible) >>= λ start.
          checked_range start (bounded v))
        ≡ only_if b
  then_checked true = checked_only
  then_checked false = refl

  checked_then :
      (b : Bool)
      → ((if b then ok (bounded v) else raise versions_not_compatible) >>= λ end.
          checked_range (bounded v) end)
        ≡ only_if b
  checked_then true = checked_only
  checked_then false = refl

  not_exact_lower : (m : Matchers) → is_lower m ≡ true → matchers_eq m exact ≡ false
  unfolding is_lower
  not_exact_lower m h = ground arith

  not_exact_upper : (m : Matchers) → is_upper m ≡ true → matchers_eq m exact ≡ false
  unfolding is_upper
  not_exact_upper m h = ground arith

  is_exact_self : matchers_eq v.matcher exact ≡ true
  is_exact_self = rw plain

  reduce-lower :
      (s : VersionSpecifier)
      → is_lower s.matcher ≡ true
      → reduce (record { start = bounded s; end = unbounded }) only ≡ only_if (admits (bounded s) v)
  unfolding reduce
  reduce-lower s h =
      rw (not_exact_lower s.matcher h, is_exact_self, with_lower s h)
        (then_checked (admits (bounded s) v))

  reduce-upper :
      (e : VersionSpecifier)
      → is_upper e.matcher ≡ true
      → reduce (record { start = unbounded; end = bounded e }) only ≡ only_if (admits (bounded e) v)
  unfolding reduce
  reduce-upper e h =
      rw (not_exact_upper e.matcher h, is_exact_self, with_upper e h)
        (checked_then (admits (bounded e) v))

  reduce-only-lower :
      (s : VersionSpecifier)
      → is_lower s.matcher ≡ true
      → reduce only (record { start = bounded s; end = unbounded }) ≡ only_if (admits (bounded s) v)
  unfolding reduce
  reduce-only-lower s h =
      rw (not_exact_lower s.matcher h, is_exact_self, with_lower s h)
        (then_checked (admits (bounded s) v))

  to_range-lower :
      (s : VersionSpecifier)
      → is_lower s.matcher ≡ true
      → to_range (bounded s) ≡ record { start = bounded s; end = unbounded }
  unfolding to_range
  to_range-lower s h = rw (not_exact_lower s.matcher h, h)

  to_range-upper :
      (e : VersionSpecifier)
      → is_upper e.matcher ≡ true
      → to_range (bounded e) ≡ record { start = unbounded; end = bounded e }
  unfolding to_range is_lower is_upper
  to_range-upper e h = ground arith

  to_range_self : to_range (bounded v) ≡ only
  unfolding to_range
  to_range_self = rw is_exact_self

  one_side : (b : Bool) → caught (only_if b >>= λ r. ok r) ≡ ok b
  one_side true = refl
  one_side false = refl

  both_sides :
      (b c : Bool) (f : VersionRange → Outcome SemverFault VersionRange)
      → f only ≡ only_if c
      → caught (only_if b >>= λ r. f r >>= λ r'. ok r') ≡ ok (c && b)
  both_sides true true f h = rw h
  both_sides true false f h = rw h
  both_sides false true f h = refl
  both_sides false false f h = refl

  to_one_side :
      (s : VersionSpecifier) (r : VersionRange) {b : Bool}
      → to_range (bounded s) ≡ r
      → reduce r only ≡ only_if b
      → caught (reduce (to_range (bounded s)) (to_range (bounded v)) >>= λ r'. ok r') ≡ ok b
  to_one_side s r {b} p q = rw (p, to_range_self, q) (one_side b)

-- What stands as the start of a range, and as its end.
abbrev IsStart : Specifier → Type 0
IsStart unbounded = Unit
IsStart (bounded s) = is_lower s.matcher ≡ true

abbrev IsEnd : Specifier → Type 0
IsEnd unbounded = Unit
IsEnd (bounded e) = is_upper e.matcher ≡ true

-- A version without a bound, or with "=", is found compatible with a range of a lower and an upper bound, each of
-- which may be missing, exactly if both bounds admit it, and no exception is raised. A bound admits a version by
-- precedence, except that "<" of a stable version does not admit the prereleases of that version.
pub compatible_with-eq-admits :
    (v : VersionSpecifier) (start end : Specifier)
    → v.matcher ≡ exact
    → IsStart start
    → IsEnd end
    → compatible_with (record { start = start; end = end }) v ≡ ok (admits start v && admits end v)
unfolding compatible_with admits
compatible_with-eq-admits v unbounded unbounded p h k = refl
compatible_with-eq-admits v (bounded s) unbounded p h k =
    to_one_side v p s _ (to_range-lower v p s h) (reduce-lower v p s h)
    ∙ ap ok (sym (and_true (admits (bounded s) v)))
compatible_with-eq-admits v unbounded (bounded e) p h k =
    to_one_side v p e _ (to_range-upper v p e k) (reduce-upper v p e k)
compatible_with-eq-admits v (bounded s) (bounded e) p h k =
    rw (to_range-upper v p e k, to_range_self v p, reduce-upper v p e k)
      (both_sides v p (admits (bounded e) v) (admits (bounded s) v)
        (λ r. reduce r (to_range (bounded s)))
        (rw (to_range-lower v p s h) (reduce-only-lower v p s h)))
