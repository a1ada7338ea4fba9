-- ===== src/Semver/Order/Parts.antt =====
-- `_nat_cmp` of dbt_common/semver.py on prereleases without leading zeros, and the lexicographic
-- order of their parts, in which a prefix comes first.
use dbt_common.Common.{
  ℕ, zero, suc, ◌+◌, true, inl, inr, Bool-cases, List, [], ◌∷◌, ◌≡◌, refl, ap, ◌∙◌, arith, length,
  All, ◌==◌, if◌then◌else◌, ltb,
}
use Prim.Native.Nat.{◌/◌, ◌%◌}
use dbt_common.Semver.Text.{
  Text, Sign, less, equal, greater, then_by, cmp, cmp_text, is_number, int, split_dots, to_first,
}
use dbt_common.Semver.Specifier.{Tag, number, word, cmp_prerelease_tag, tag, cmp_parts, nat_cmp}
use dbt_common.Semver.Order.Signs.{
  Composes, cmp-Composes, then_by-Composes, less-Composes, Composes-less, greater-Composes,
  Composes-greater,
}

cmp_text-Composes : (a b c : Text) → Composes (cmp_text a b) (cmp_text b c) (cmp_text a c)
unfolding cmp_text
cmp_text-Composes [] [] [] = refl
cmp_text-Composes [] [] (z ∷ c) = refl
cmp_text-Composes [] (y ∷ b) [] = tt
cmp_text-Composes [] (y ∷ b) (z ∷ c) = less-Composes (then_by (cmp y z) (cmp_text b c))
cmp_text-Composes (x ∷ a) [] [] = refl
cmp_text-Composes (x ∷ a) [] (z ∷ c) = tt
cmp_text-Composes (x ∷ a) (y ∷ b) [] = Composes-greater (then_by (cmp x y) (cmp_text a b))
cmp_text-Composes (x ∷ a) (y ∷ b) (z ∷ c) =
    then_by-Composes (cmp x y) (cmp y z) (cmp x z) _ _ _ (cmp-Composes x y z)
      (cmp_text-Composes a b c)

tag-Composes :
    (a b c : Tag)
    → Composes (cmp_prerelease_tag a b) (cmp_prerelease_tag b c) (cmp_prerelease_tag a c)
unfolding cmp_prerelease_tag
tag-Composes (number a) (number b) (number c) = cmp-Composes a b c
tag-Composes (number a) (number b) (word c) = Composes-less (cmp a b)
tag-Composes (number a) (word b) (number c) = tt
tag-Composes (number a) (word b) (word c) = less-Composes (cmp_text b c)
tag-Composes (word a) (number b) (number c) = greater-Composes (cmp b c)
tag-Composes (word a) (number b) (word c) = tt
tag-Composes (word a) (word b) (number c) = Composes-greater (cmp_text a b)
tag-Composes (word a) (word b) (word c) = cmp_text-Composes a b c

-- The lexicographic order of parts, in which a proper prefix comes first.
lex : List Text → List Text → Sign
lex [] [] = equal
lex [] (b ∷ bs) = less
lex (a ∷ as') [] = greater
lex (a ∷ as') (b ∷ bs) = then_by (cmp_prerelease_tag (tag a) (tag b)) (lex as' bs)

lex-Composes : (as' bs cs : List Text) → Composes (lex as' bs) (lex bs cs) (lex as' cs)
unfolding lex
lex-Composes [] [] [] = refl
lex-Composes [] [] (z ∷ c) = refl
lex-Composes [] (y ∷ b) [] = tt
lex-Composes [] (y ∷ b) (z ∷ c) = less-Composes _
lex-Composes (x ∷ a) [] [] = refl
lex-Composes (x ∷ a) [] (z ∷ c) = tt
lex-Composes (x ∷ a) (y ∷ b) [] = Composes-greater _
lex-Composes (x ∷ a) (y ∷ b) (z ∷ c) =
    then_by-Composes _ _ _ _ _ _ (tag-Composes (tag x) (tag y) (tag z)) (lex-Composes a b c)

-- The digits of a number, without leading zeros; a number n has at most n + 1 of them.
digits_onto : ℕ → ℕ → Text → Text
digits_onto zero n text = text
digits_onto (suc f) n text =
    let longer = digits_onto f (n / 10) ((b'0' + n % 10) ∷ text) in
    if ltb n 10 then (b'0' + n % 10) ∷ text else longer

unfoldable pub decimal : ℕ → Text
unfolding digits_onto
decimal n = digits_onto (suc n) n []

-- A part that is a number has no leading zero: it is the decimal text of its value.
abbrev pub NoLeadingZero : Text → Type 0
NoLeadingZero p = is_number p ≡ true → p ≡ decimal (int p)

cmp_text-eq : (a b : Text) → cmp_text a b ≡ equal → a ≡ b
unfolding cmp_text
cmp_text-eq [] [] h = refl
cmp_text-eq [] (b ∷ bs) h = cc
cmp_text-eq (a ∷ as') [] h = cc
cmp_text-eq (a ∷ as') (b ∷ bs) h = ground (arith, cmp_text-eq as' bs)

tag-eq :
    (a b : Text)
    → NoLeadingZero a
    → NoLeadingZero b
    → cmp_prerelease_tag (tag a) (tag b) ≡ equal
    → a ≡ b
unfolding cmp_prerelease_tag tag
tag-eq a b h k e = ground (arith, h, k, cmp_text-eq a b)

-- The length of the parts joined by dots, and one more.
width : List Text → ℕ
width [] = 0
width (p ∷ ps) = suc (length p + width ps)

width-to_first : (c n : ℕ) (ps : List Text) → width ps ≡ suc n → width (to_first c ps) ≡ suc (suc n)
unfolding width
width-to_first c n [] h = absurd (omega arith)
width-to_first c n (p ∷ ps) h = omega arith

width-dot : (n : ℕ) (ps : List Text) → width ps ≡ suc n → width ([] ∷ ps) ≡ suc (suc n)
unfolding width
width-dot n ps h = omega arith

width-split_dots : (t : Text) → width (split_dots t) ≡ suc (length t)
unfolding split_dots width
width-split_dots [] = omega arith
width-split_dots (c ∷ cs) = elim (Bool-cases (c == b'.')) [
  | inl dot ↦ rw dot (width-dot (length cs) (split_dots cs) (width-split_dots cs))
  | inr other ↦ rw other (width-to_first c (length cs) (split_dots cs) (width-split_dots cs))
]

cmp-suc : (m a b : ℕ) → cmp (suc (m + a)) (suc (m + b)) ≡ cmp a b
cmp-suc m a b = ground arith

cmp_parts-lex :
    (as' bs : List Text)
    → All NoLeadingZero as'
    → All NoLeadingZero bs
    → then_by (cmp_parts as' bs) (cmp (width as') (width bs)) ≡ lex as' bs
unfolding cmp_parts lex width
cmp_parts-lex [] [] h k = refl
cmp_parts-lex [] (b ∷ bs) h k = ground arith
cmp_parts-lex (a ∷ as') [] h k = ground arith
cmp_parts-lex (a ∷ as') (b ∷ bs) (ha, h) (kb, k) =
    go (cmp_prerelease_tag (tag a) (tag b)) (tag-eq a b ha kb) (cmp_parts-lex as' bs h k)
  where
    go :
        (s : Sign)
        → (s ≡ equal → a ≡ b)
        → then_by (cmp_parts as' bs) (cmp (width as') (width bs)) ≡ lex as' bs
        → then_by
            (then_by s (cmp_parts as' bs))
            (cmp (suc (length a + width as')) (suc (length b + width bs)))
          ≡ then_by s (lex as' bs)
    go less same ih = refl
    go equal same ih = rw (same refl) (rw (cmp-suc (length b) (width as') (width bs)) ih)
    go greater same ih = refl

cmp-width :
    (a b : Text) → cmp (length a) (length b) ≡ cmp (width (split_dots a)) (width (split_dots b))
cmp-width a b = ground (arith, width-split_dots a, width-split_dots b)

-- A prerelease none of whose parts has a leading zero.
abbrev pub IsCanonical : Text → Type 0
IsCanonical t = All NoLeadingZero (split_dots t)

nat_cmp-lex :
    (a b : Text) → IsCanonical a → IsCanonical b → nat_cmp a b ≡ lex (split_dots a) (split_dots b)
unfolding nat_cmp
nat_cmp-lex a b h k =
    ap (then_by (cmp_parts (split_dots a) (split_dots b))) (cmp-width a b)
    ∙ cmp_parts-lex (split_dots a) (split_dots b) h k

pub nat_cmp-Composes :
    (a b c : Text)
    → IsCanonical a
    → IsCanonical b
    → IsCanonical c
    → Composes (nat_cmp a b) (nat_cmp b c) (nat_cmp a c)
nat_cmp-Composes a b c h k l =
    rw (nat_cmp-lex a b h k, nat_cmp-lex b c k l, nat_cmp-lex a c h l)
      (lex-Composes (split_dots a) (split_dots b) (split_dots c))
