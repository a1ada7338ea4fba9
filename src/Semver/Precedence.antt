-- ===== src/Semver/Precedence.antt =====
-- The order of versions that dbt_common/semver.py means, with no regard to matchers, and `compare`
-- in terms of it.
use dbt_common.Common.{Bool, false, Option, none, some, ◌≡◌, ◌≢◌, refl, ◌∙◌, arith, if◌then◌else◌}
use dbt_common.Semver.Text.{Text, Sign, less, equal, greater, flip, then_by, cmp, int}
use dbt_common.Semver.Specifier.{
  Matchers, less_than, exact, VersionSpecifier, bounded, nat_cmp, cmp_prerelease, cmp_matchers,
  compare_bounded, compare,
}
use dbt_common.Semver.Range.{sign_eq}
use dbt_common.Semver.Order.{
  Composes, cmp-Composes, cmp-flip, then_by-flip, then_by-Composes, nat_cmp-flip, Composes-less,
  greater-Composes,
}
use dbt_common.Semver.Order.Parts.{IsCanonical, nat_cmp-Composes}

-- The first three components.
unfoldable base_order : VersionSpecifier → VersionSpecifier → Sign
base_order a b =
    then_by (cmp (int a.major) (int b.major))
      (then_by (cmp (int a.minor) (int b.minor)) (cmp (int a.patch) (int b.patch)))

-- A stable version comes after its prereleases.
unfoldable prerelease_order : Option Text → Option Text → Sign
prerelease_order none none = equal
prerelease_order none (some b) = greater
prerelease_order (some a) none = less
prerelease_order (some a) (some b) = nat_cmp a b

pub precedence : VersionSpecifier → VersionSpecifier → Sign
unfolding base_order prerelease_order
precedence a b = then_by (base_order a b) (prerelease_order a.prerelease b.prerelease)

-- Of equal components, none and some prerelease.
abbrev covers : Sign → Option Text → Option Text → Bool
covers base none (some q) = sign_eq base equal
covers base _ _ = false

-- The version is a prerelease of the stable version.
pub is_prerelease_of : VersionSpecifier → VersionSpecifier → Bool
unfolding base_order
is_prerelease_of s v = covers (base_order s v) s.prerelease v.prerelease

then_by_assoc : (r s t : Sign) → then_by (then_by r s) t ≡ then_by r (then_by s t)
then_by_assoc less s t = refl
then_by_assoc equal s t = refl
then_by_assoc greater s t = refl

then_by-equal : (s : Sign) → then_by s equal ≡ s
then_by-equal less = refl
then_by-equal equal = refl
then_by-equal greater = refl

then_by-right : (r s : Sign) → then_by r (then_by s equal) ≡ then_by r s
then_by-right r s = rw (then_by-equal s)

cmp_prerelease-order :
    (m : Matchers) (p q : Option Text) → m ≢ less_than → cmp_prerelease m p q ≡ prerelease_order p q
unfolding cmp_prerelease prerelease_order
cmp_prerelease-order m none none h = refl
cmp_prerelease-order less_than none (some b) h = absurd (h refl)
cmp_prerelease-order _ none (some b) h = refl
cmp_prerelease-order m (some a) none h = refl
cmp_prerelease-order m (some a) (some b) h = refl

compare-precedence :
    (a b : VersionSpecifier)
    → a.matcher ≢ less_than
    → compare (bounded a) (bounded b) ≡ then_by (precedence a b) (cmp_matchers a.matcher b.matcher)
unfolding compare compare_bounded precedence base_order
compare-precedence a b h =
    rw (cmp_prerelease-order a.matcher a.prerelease b.prerelease h) (simp then_by_assoc)

cmp_matchers-exact : (m n : Matchers) → n ≡ exact → cmp_matchers m n ≡ equal
unfolding cmp_matchers
cmp_matchers-exact m n h = ground arith

-- Against an exact version, a specifier other than "<" compares by precedence alone.
pub compare_exact :
    (a b : VersionSpecifier)
    → a.matcher ≢ less_than
    → b.matcher ≡ exact
    → compare (bounded a) (bounded b) ≡ precedence a b
compare_exact a b h e =
    compare-precedence a b h
    ∙ rw (cmp_matchers-exact a.matcher b.matcher e) (then_by-equal (precedence a b))

compare-base :
    (a b : VersionSpecifier)
    → compare (bounded a) (bounded b)
      ≡ then_by (base_order a b) (
          then_by
            (cmp_prerelease a.matcher a.prerelease b.prerelease)
            (cmp_matchers a.matcher b.matcher))
unfolding compare compare_bounded base_order
compare-base a b = simp then_by_assoc

below_order :
    (base : Sign) (m n : Matchers) (p q : Option Text)
    → m ≡ less_than
    → n ≡ exact
    → then_by base (then_by (cmp_prerelease m p q) (cmp_matchers m n))
      ≡ (if covers base p q then less else then_by base (prerelease_order p q))
unfolding cmp_prerelease prerelease_order
below_order base m n none none h e = rw (cmp_matchers-exact m n e)
below_order less m n none (some b) h e = refl
below_order equal m n none (some b) h e = rw h
below_order greater m n none (some b) h e = refl
below_order base m n (some a) none h e = refl
below_order base m n (some a) (some b) h e =
    rw (cmp_matchers-exact m n e) (then_by-right base (nat_cmp a b))

-- "<" against an exact version: by precedence too, but a stable bound lies below its prereleases.
pub compare-less_than :
    (a b : VersionSpecifier)
    → a.matcher ≡ less_than
    → b.matcher ≡ exact
    → compare (bounded a) (bounded b) ≡ (if is_prerelease_of a b then less else precedence a b)
unfolding precedence is_prerelease_of
compare-less_than a b h e =
    compare-base a b
    ∙ below_order (base_order a b) a.matcher b.matcher a.prerelease b.prerelease h e

prerelease_order-flip : (p q : Option Text) → prerelease_order q p ≡ flip (prerelease_order p q)
unfolding prerelease_order
prerelease_order-flip none none = refl
prerelease_order-flip none (some b) = refl
prerelease_order-flip (some a) none = refl
prerelease_order-flip (some a) (some b) = nat_cmp-flip a b

precedence-flip : (a b : VersionSpecifier) → precedence b a ≡ flip (precedence a b)
unfolding precedence base_order
precedence-flip a b =
    then_by-flip _ _
      (then_by-flip _ _ (cmp-flip (int a.major) (int b.major)) (
        then_by-flip _ _ (cmp-flip (int a.minor) (int b.minor))
          (cmp-flip (int a.patch) (int b.patch))))
      (prerelease_order-flip a.prerelease b.prerelease)

equal_of_flip : (s : Sign) → s ≡ flip s → s ≡ equal
equal_of_flip less h = cc
equal_of_flip equal h = refl
equal_of_flip greater h = cc

pub precedence_refl : (a : VersionSpecifier) → precedence a a ≡ equal
precedence_refl a = equal_of_flip (precedence a a) (precedence-flip a a)

-- An exact version whose prerelease, if it has one, has no leading zeros.
pub record IsPlain (v : VersionSpecifier) : Type 0 where
  pub exact_matcher : v.matcher ≡ exact
  pub canonical : (t : Text) → v.prerelease ≡ some t → IsCanonical t

prerelease_order-Composes :
    (p q r : Option Text)
    → ((t : Text) → p ≡ some t → IsCanonical t)
    → ((t : Text) → q ≡ some t → IsCanonical t)
    → ((t : Text) → r ≡ some t → IsCanonical t)
    → Composes (prerelease_order p q) (prerelease_order q r) (prerelease_order p r)
unfolding prerelease_order
prerelease_order-Composes none none none h k l = refl
prerelease_order-Composes none none (some c) h k l = refl
prerelease_order-Composes none (some b) none h k l = tt
prerelease_order-Composes none (some b) (some c) h k l = greater-Composes (nat_cmp b c)
prerelease_order-Composes (some a) none none h k l = refl
prerelease_order-Composes (some a) none (some c) h k l = tt
prerelease_order-Composes (some a) (some b) none h k l = Composes-less (nat_cmp a b)
prerelease_order-Composes (some a) (some b) (some c) h k l =
    nat_cmp-Composes a b c (h a refl) (k b refl) (l c refl)

-- Precedence is transitive on versions whose prereleases have no leading zeros.
pub precedence-Composes :
    (a b c : VersionSpecifier)
    → IsPlain a
    → IsPlain b
    → IsPlain c
    → Composes (precedence a b) (precedence b c) (precedence a c)
unfolding precedence base_order
precedence-Composes a b c h k l =
    then_by-Composes _ _ _ _ _ _
      (then_by-Composes _ _ _ _ _ _ (cmp-Composes (int a.major) (int b.major) (int c.major)) (
        then_by-Composes _ _ _ _ _ _ (cmp-Composes (int a.minor) (int b.minor) (int c.minor))
          (cmp-Composes (int a.patch) (int b.patch) (int c.patch))))
      (prerelease_order-Composes a.prerelease b.prerelease c.prerelease h.canonical k.canonical
        l.canonical)
