-- ===== src/Semver/Select.antt =====
-- The functions of dbt_common/semver.py over several versions: `reduce_versions`,
-- `versions_compatible`, `find_possible_versions`, `resolve_to_specific_version` and
-- `filter_installable`.
use dbt_common.Common.{
  Bool, true, false, ◌&&◌, ◌||◌, Option, none, some, List, [], ◌∷◌, ◌++◌, map, if◌then◌else◌,
}
use dbt_common.Common.Outcome.{Outcome, ok, raise, ◌>>=◌}
use dbt_common.Semver.Text.{Text, less, equal, cmp_text}
use dbt_common.Semver.Specifier.{
  VersionSpecifier, Specifier, bounded, unbounded, to_version_string, compare,
}
use dbt_common.Semver.Range.{
  SemverFault, versions_not_compatible, semver_error, VersionRange, sign_eq, to_range, reduce,
}
use dbt_common.Semver.Parse.{from_version_string}

-- An argument of `reduce_versions`: a specifier, a range, a text, or `None`.
pub data VersionArg : Type 0 where
  by_specifier : Specifier → VersionArg
  by_range : VersionRange → VersionArg
  by_text : Text → VersionArg
  absent : VersionArg

abbrev only_bounded : Specifier → List VersionSpecifier
only_bounded unbounded = []
only_bounded (bounded v) = v ∷ []

unfoldable specifiers_of : VersionArg → Outcome SemverFault (List VersionSpecifier)
specifiers_of (by_specifier s) = ok (only_bounded s)
specifiers_of (by_range r) = ok (only_bounded r.start ++ only_bounded r.end)
specifiers_of (by_text t) = do v ← from_version_string t; ok (v ∷ [])
specifiers_of absent = ok []

-- The first loop of `reduce_versions`.
unfoldable collect : List VersionArg → Outcome SemverFault (List VersionSpecifier)
unfolding specifiers_of
collect [] = ok []
collect (a ∷ args) = do found ← specifiers_of a; rest ← collect args; ok (found ++ rest)

-- `version_specifiers.pop()`: the last one, behind the others.
unfoldable pop_last : List VersionSpecifier → Option (List VersionSpecifier × VersionSpecifier)
pop_last [] = none
pop_last (v ∷ vs) = elim (pop_last vs) [
  | none ↦ some ([], v)
  | some (others, last) ↦ some (v ∷ others, last)
]

unfoldable reduce_each : VersionRange → List VersionSpecifier → Outcome SemverFault VersionRange
reduce_each r [] = ok r
reduce_each r (v ∷ vs) = do s ← reduce r (to_range (bounded v)); reduce_each s vs

unfoldable reduce_popped :
    Option (List VersionSpecifier × VersionSpecifier) → Outcome SemverFault VersionRange
unfolding reduce_each
reduce_popped none = ok (record { start = unbounded; end = unbounded })
reduce_popped (some (others, last)) = reduce_each (to_range (bounded last)) others

pub reduce_versions : List VersionArg → Outcome SemverFault VersionRange
unfolding collect pop_last reduce_popped
reduce_versions args = do vs ← collect args; reduce_popped (pop_last vs)

-- `except VersionsNotCompatibleError: return False`; any other exception passes.
abbrev pub caught : Outcome SemverFault VersionRange → Outcome SemverFault Bool
caught (ok r) = ok true
caught (raise versions_not_compatible) = ok false
caught (raise (semver_error t)) = raise (semver_error t)

unfoldable pub versions_compatible : List VersionArg → Outcome SemverFault Bool
unfolding reduce_versions
versions_compatible (a ∷ []) = ok true
versions_compatible args = caught (reduce_versions args)

-- The test that a version lies in a requested range.
unfoldable pub compatible_with : VersionRange → VersionSpecifier → Outcome SemverFault Bool
unfolding versions_compatible
compatible_with requested v =
    versions_compatible
      (by_specifier (bounded v) ∷ by_specifier requested.start ∷ by_specifier requested.end ∷ [])

-- A stable sort by a test of which of two elements goes first, as `sorted` does it.
module _ {ℓ} {A : Type ℓ} (before : A → A → Bool) where
  unfoldable insert_sorted : A → List A → List A
  insert_sorted x [] = x ∷ []
  insert_sorted x (y ∷ ys) =
      let rest = insert_sorted x ys in if before y x then y ∷ rest else x ∷ y ∷ ys

  unfoldable pub sorted : List A → List A
  unfolding insert_sorted
  sorted [] = []
  sorted (x ∷ xs) = insert_sorted x (sorted xs)

-- `__lt__` and `__gt__`
unfoldable pub version_lt : VersionSpecifier → VersionSpecifier → Bool
version_lt a b = sign_eq (compare (bounded a) (bounded b)) less

-- With `reverse=True` the later of two versions goes first.
unfoldable pub version_after : VersionSpecifier → VersionSpecifier → Bool
unfolding version_lt
version_after a b = version_lt b a

unfoldable possible_versions :
    VersionRange → List Text → Outcome SemverFault (List VersionSpecifier)
possible_versions requested [] = ok []
possible_versions requested (t ∷ ts) = do
  v ← from_version_string t
  fits ← compatible_with requested v
  rest ← possible_versions requested ts
  ok (if fits then v ∷ rest else rest)

unfoldable pub find_possible_versions : VersionRange → List Text → Outcome SemverFault (List Text)
unfolding possible_versions
find_possible_versions requested available = do
  found ← possible_versions requested available
  ok (map (to_version_string true) (sorted version_after found))

-- `max_version is None or max_version.compare(version) < 0`
abbrev pub exceeds : Option (VersionSpecifier × Text) → VersionSpecifier → Bool
exceeds none v = true
exceeds (some (m, _)) v = sign_eq (compare (bounded m) (bounded v)) less

unfoldable pub resolve_from :
    VersionRange
    → Option (VersionSpecifier × Text)
    → List Text
    → Outcome SemverFault (Option (VersionSpecifier × Text))
resolve_from requested best [] = ok best
resolve_from requested best (t ∷ ts) = do
  v ← from_version_string t
  fits ← compatible_with requested v
  resolve_from requested (if fits && exceeds best v then some (v, t) else best) ts

abbrev pub string_of : Option (VersionSpecifier × Text) → Option Text
string_of none = none
string_of (some (_, t)) = some t

unfoldable pub resolve_to_specific_version :
    VersionRange → List Text → Outcome SemverFault (Option Text)
unfolding resolve_from
resolve_to_specific_version requested available = do
  best ← resolve_from requested none available
  ok (string_of best)

-- A dictionary whose keys are texts, for `installable_dict`.
abbrev pub text_eq : Text → Text → Bool
text_eq a b = sign_eq (cmp_text a b) equal

unfoldable get_text : Text → List (Text × Text) → Option Text
get_text k [] = none
get_text k ((j, v) ∷ d) = if text_eq j k then some v else get_text k d

unfoldable set_text : Text → Text → List (Text × Text) → List (Text × Text)
set_text k v [] = (k, v) ∷ []
set_text k v ((j, w) ∷ d) = if text_eq j k then (j, v) ∷ d else (j, w) ∷ set_text k v d

-- `not version.prerelease`: there is none, or it is the empty text.
abbrev is_stable : VersionSpecifier → Bool
is_stable v = elim v.prerelease [ none ↦ true | some [] ↦ true | some (c ∷ cs) ↦ false ]

-- The loop of `filter_installable`, which collects the versions and the dictionary.
unfoldable installable_from :
    Bool
    → List (Text × Text)
    → List Text
    → Outcome SemverFault (List VersionSpecifier × List (Text × Text))
unfolding set_text
installable_from install_prerelease d [] = ok ([], d)
installable_from install_prerelease d (t ∷ ts) = do
  v ← from_version_string t
  elim (install_prerelease || is_stable v) [
    | true ↦ (do
      (vs, e) ← installable_from install_prerelease (set_text (to_version_string false v) t d) ts
      ok (v ∷ vs, e))
    | false ↦ installable_from install_prerelease d ts
  ]

-- `str(None)` where a key is missing
abbrev original : List (Text × Text) → VersionSpecifier → Text
original d v = elim (get_text (to_version_string false v) d) [
  | some t ↦ t
  | none ↦ b'N' ∷ b'o' ∷ b'n' ∷ b'e' ∷ []
]

unfoldable pub filter_installable : List Text → Bool → Outcome SemverFault (List Text)
unfolding installable_from get_text
filter_installable versions install_prerelease = do
  (vs, d) ← installable_from install_prerelease [] versions
  ok (map (original d) (sorted version_lt vs))
