-- ===== src/Semver/Best.antt =====
-- dbt_common/semver.py: which version `resolve_to_specific_version` chooses.
use dbt_common.Common.{
  Bool, true, false, ◌&&◌, Bool-cases, ◌⊎◌, inl, inr, Option, none, some, List, [], ◌∷◌, ◌≡◌, ◌≢◌,
  refl, ap, sym, subst, ◌∙◌, arith, All, Any, if◌then◌else◌,
}
use dbt_common.Common.Outcome.{ok, >>=-eq-ok, ok-injective}
use dbt_common.Semver.Text.{Text, Sign, less}
use dbt_common.Semver.Specifier.{VersionSpecifier, bounded, compare}
use dbt_common.Semver.Range.{VersionRange, sign_eq}
use dbt_common.Semver.Parse.{from_version_string}
use dbt_common.Semver.Order.{Composes}
use dbt_common.Semver.Precedence.{
  precedence, precedence_refl, precedence-Composes, compare_exact, IsPlain,
}
use dbt_common.Semver.Select.{
  compatible_with, exceeds, resolve_from, resolve_to_specific_version, string_of,
}

-- The text is of an exact version whose prerelease has no leading zeros.
abbrev pub IsPlainText : Text → Type 0
IsPlainText t = (v : VersionSpecifier) → from_version_string t ≡ ok v → IsPlain v

-- The text is of a version that lies in the requested range.
pub record Fits (requested : VersionRange) (t : Text) (v : VersionSpecifier) : Type 0 where
  pub parsed : from_version_string t ≡ ok v
  pub compatible : compatible_with requested v ≡ ok true

-- No version above the best one so far.
abbrev AtMost : Option (VersionSpecifier × Text) → VersionSpecifier → Type 0
AtMost none v = ⊥
AtMost (some (m, _)) v = precedence m v ≢ less

-- The best one so far fits, and has one of the texts.
abbrev IsChosen : VersionRange → List Text → Option (VersionSpecifier × Text) → Type 0
IsChosen requested texts none = Unit
IsChosen requested texts (some (m, t)) = Fits requested t m × Any (λ u. u ≡ t) texts

abbrev PlainBest : Option (VersionSpecifier × Text) → Type 0
PlainBest none = Unit
PlainBest (some (m, _)) = IsPlain m

compare-plain :
    (a b : VersionSpecifier)
    → IsPlain a
    → IsPlain b
    → compare (bounded a) (bounded b) ≡ precedence a b
compare-plain a b h k = compare_exact a b (λ e. cc (sym h.exact_matcher ∙ e)) k.exact_matcher

-- `compare` is transitive, in each of its results and across equal versions, on exact versions whose prereleases have no leading zeros.
pub compare-Composes :
    (a b c : VersionSpecifier)
    → IsPlain a
    → IsPlain b
    → IsPlain c
    → Composes
        (compare (bounded a) (bounded b))
        (compare (bounded b) (bounded c))
        (compare (bounded a) (bounded c))
compare-Composes a b c h k l =
    rw (compare-plain a b h k, compare-plain b c k l, compare-plain a c h l)
      (precedence-Composes a b c h k l)

-- From m < v and not m < w follows not v < w.
raise_best :
    (m v w : VersionSpecifier)
    → IsPlain m
    → IsPlain v
    → IsPlain w
    → precedence m v ≡ less
    → precedence m w ≢ less
    → precedence v w ≢ less
raise_best m v w h k l p q e = q (rw (p, e) at (precedence-Composes m v w h k l))

AtMost-self : (v : VersionSpecifier) → precedence v v ≢ less
AtMost-self v e = cc (sym (precedence_refl v) ∙ e)

-- What a step of the loop makes of the best one so far.
abbrev after :
    Bool
    → Option (VersionSpecifier × Text)
    → VersionSpecifier
    → Text
    → Option (VersionSpecifier × Text)
after fits best v t = if fits && exceeds best v then some (v, t) else best

sign_less : (s : Sign) → sign_eq s less ≡ true → s ≡ less
sign_less s h = ground arith

-- The step loses no bound, and bounds the version if it fits.
module _ (v : VersionSpecifier) (t : Text) (plain : IsPlain v) where
  exceeds-precedence :
      (m : VersionSpecifier) (u : Text)
      → IsPlain m
      → exceeds (some (m, u)) v ≡ sign_eq (precedence m v) less
  exceeds-precedence m u h = rw (compare-plain m v h plain)

  PlainBest-after :
      (fits : Bool) (best : Option (VersionSpecifier × Text))
      → PlainBest best
      → PlainBest (after fits best v t)
  PlainBest-after false best h = h
  PlainBest-after true none h = plain
  PlainBest-after true (some (m, u)) h = elim (Bool-cases (exceeds (some (m, u)) v)) [
    | inl above ↦ rw above plain
    | inr below ↦ rw below h
  ]

  AtMost-after_self :
      (best : Option (VersionSpecifier × Text)) → PlainBest best → AtMost (after true best v t) v
  AtMost-after_self none h = AtMost-self v
  AtMost-after_self (some (m, u)) h = elim (Bool-cases (exceeds (some (m, u)) v)) [
    | inl above ↦ rw above (AtMost-self v)
    | inr below ↦
        rw below (λ e. cc (sym below ∙ exceeds-precedence m u h ∙ ap (λ s. sign_eq s less) e))
  ]

  AtMost-after :
      (fits : Bool) (best : Option (VersionSpecifier × Text)) (w : VersionSpecifier)
      → PlainBest best
      → IsPlain w
      → AtMost best w
      → AtMost (after fits best v t) w
  AtMost-after false best w h l b = b
  AtMost-after true none w h l b = absurd b
  AtMost-after true (some (m, u)) w h l b = elim (Bool-cases (exceeds (some (m, u)) v)) [
    | inl above ↦
        rw above
          (raise_best m v w h plain l (sign_less _ (sym (exceeds-precedence m u h) ∙ above)) b)
    | inr below ↦ rw below b
  ]

-- What the loop over `texts` makes of the best version so far.
record Outranks (requested : VersionRange) (texts : List Text)
    (best result : Option (VersionSpecifier × Text)) : Type 0 where
  origin : (result ≡ best) ⊎ IsChosen requested texts result
  bounds : All (λ u. (w : VersionSpecifier) → Fits requested u w → AtMost result w) texts
  keeps : (w : VersionSpecifier) → IsPlain w → AtMost best w → AtMost result w

IsChosen-later :
    (requested : VersionRange) (t : Text) (ts : List Text)
    (result : Option (VersionSpecifier × Text))
    → IsChosen requested ts result
    → IsChosen requested (t ∷ ts) result
IsChosen-later requested t ts none h = tt
IsChosen-later requested t ts (some (m, u)) h = (h.0, inr h.1)

origin_after :
    (requested : VersionRange) (v : VersionSpecifier) (t : Text) (ts : List Text) (fits : Bool)
    (best result : Option (VersionSpecifier × Text))
    → from_version_string t ≡ ok v
    → compatible_with requested v ≡ ok fits
    → (result ≡ after fits best v t) ⊎ IsChosen requested ts result
    → (result ≡ best) ⊎ IsChosen requested (t ∷ ts) result
origin_after requested v t ts fits best result p c (inr h) =
    inr (IsChosen-later requested t ts result h)
origin_after requested v t ts false best result p c (inl h) = inl h
origin_after requested v t ts true best result p c (inl h) = elim (Bool-cases (exceeds best v)) [
  | inl above ↦ inr (
      subst (IsChosen requested (t ∷ ts)) (sym (rw above at h))
        (record { parsed = p; compatible = c }, inl refl))
  | inr below ↦ inl (rw below at h)
]

AtMost-chosen :
    (requested : VersionRange) (v : VersionSpecifier) (t : Text) (fits : Bool)
    (best : Option (VersionSpecifier × Text)) (w : VersionSpecifier)
    → PlainBest best
    → IsPlain v
    → from_version_string t ≡ ok v
    → compatible_with requested v ≡ ok fits
    → Fits requested t w
    → AtMost (after fits best v t) w
AtMost-chosen requested v t fits best w h plain p c f =
    let same : v ≡ w = ok-injective (sym p ∙ f.parsed) in
    let fit : fits ≡ true = ok-injective (sym c ∙ rw same f.compatible) in
    rw fit (subst (AtMost (after true best v t)) same (AtMost-after_self v t plain best h))

resolve_from-Outranks :
    (requested : VersionRange) (best : Option (VersionSpecifier × Text)) (texts : List Text)
    {result : Option (VersionSpecifier × Text)}
    → PlainBest best
    → All IsPlainText texts
    → resolve_from requested best texts ≡ ok result
    → Outranks requested texts best result
unfolding resolve_from
resolve_from-Outranks requested best [] h plain e =
    subst (Outranks requested [] best) (ok-injective e)
      (record { origin = inl refl; bounds = tt; keeps = λ w l b. b })
resolve_from-Outranks requested best (t ∷ ts) h (plain, rest) e =
    let (v, p, e₁) = >>=-eq-ok (from_version_string t) _ e in
    let (fits, c, e₂) = >>=-eq-ok (compatible_with requested v) _ e₁ in
    let ih =
      resolve_from-Outranks requested (after fits best v t) ts
        (PlainBest-after v t (plain v p) fits best h) rest e₂ in
    record {
      origin = origin_after requested v t ts fits best _ p c ih.origin;
      bounds = (
        λ w f.
            ih.keeps w (plain w f.parsed)
              (AtMost-chosen requested v t fits best w h (plain v p) p c f),
        ih.bounds,
      );
      keeps = λ w l b. ih.keeps w l (AtMost-after v t (plain v p) fits best w h l b);
    }

-- The chosen version of a search, with the text that stands for it.
pub record IsBest (requested : VersionRange) (available : List Text) (result : Option Text)
    : Type 0 where
  pub best : Option (VersionSpecifier × Text)
  pub text : string_of best ≡ result
  pub chosen : IsChosen requested available best
  pub highest : All (λ u. (w : VersionSpecifier) → Fits requested u w → AtMost best w) available

IsChosen-at_end :
    (requested : VersionRange) (available : List Text) (best : Option (VersionSpecifier × Text))
    → (best ≡ none) ⊎ IsChosen requested available best
    → IsChosen requested available best
IsChosen-at_end requested available best (inl e) = subst (IsChosen requested available) (sym e) tt
IsChosen-at_end requested available best (inr h) = h

-- If the available texts are of exact versions whose prereleases have no leading zeros, then the
-- result, where no text raises, is an available text whose version fits the range, and no available
-- version that fits comes after it in the order of precedence; and there is no result only if no
-- available version fits.
pub resolve_to_specific_version-IsBest :
    (requested : VersionRange) (available : List Text) (result : Option Text)
    → All IsPlainText available
    → resolve_to_specific_version requested available ≡ ok result
    → IsBest requested available result
unfolding resolve_to_specific_version
resolve_to_specific_version-IsBest requested available result plain e =
    let (best, r, s) = >>=-eq-ok (resolve_from requested none available) _ e in
    let out = resolve_from-Outranks requested none available tt plain r in
    record {
      best = best;
      text = ok-injective s;
      chosen = IsChosen-at_end requested available best out.origin;
      highest = out.bounds;
    }
