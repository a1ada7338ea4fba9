-- ===== src/Semver/Order/Signs.antt =====
-- Signs, and orders of numbers.
use dbt_common.Common.{ℕ, ◌≡◌, ◌≢◌, refl, arith}
use dbt_common.Semver.Text.{Sign, less, equal, greater, flip, then_by, cmp}

pub cmp-flip : (a b : ℕ) → cmp b a ≡ flip (cmp a b)
cmp-flip a b = ground arith

pub then_by-flip :
    (s t : Sign) {s' t' : Sign} → s' ≡ flip s → t' ≡ flip t → then_by s' t' ≡ flip (then_by s t)
then_by-flip less t p q = cc p
then_by-flip equal t p q = rw (p, q)
then_by-flip greater t p q = cc p

-- What the signs of two comparisons, of x with y and of y with z, say of the sign for x and z.
abbrev pub Composes : Sign → Sign → Sign → Type 0
Composes less greater t = Unit
Composes greater less t = Unit
Composes equal s t = t ≡ s
Composes less s t = t ≡ less
Composes greater s t = t ≡ greater

pub cmp-Composes : (a b c : ℕ) → Composes (cmp a b) (cmp b c) (cmp a c)
cmp-Composes a b c = ground arith

pub less-Composes : (s : Sign) → Composes less s less
less-Composes less = refl
less-Composes equal = refl
less-Composes greater = tt

pub Composes-less : (s : Sign) → Composes s less less
Composes-less less = refl
Composes-less equal = refl
Composes-less greater = tt

pub greater-Composes : (s : Sign) → Composes greater s greater
greater-Composes less = tt
greater-Composes equal = refl
greater-Composes greater = refl

pub Composes-greater : (s : Sign) → Composes s greater greater
Composes-greater less = tt
Composes-greater equal = refl
Composes-greater greater = refl

pub then_by-Composes :
    (r s t r' s' t' : Sign)
    → Composes r s t
    → Composes r' s' t'
    → Composes (then_by r r') (then_by s s') (then_by t t')
then_by-Composes less less t r' s' t' h k = rw h
then_by-Composes less equal t r' s' t' h k = rw h (less-Composes s')
then_by-Composes less greater t r' s' t' h k = tt
then_by-Composes equal less t r' s' t' h k = rw h (Composes-less r')
then_by-Composes equal equal t r' s' t' h k = rw h k
then_by-Composes equal greater t r' s' t' h k = rw h (Composes-greater r')
then_by-Composes greater less t r' s' t' h k = tt
then_by-Composes greater equal t r' s' t' h k = rw h (greater-Composes s')
then_by-Composes greater greater t r' s' t' h k = rw h

-- A chain of comparisons none of which is greater.
Composes-le : (r s t : Sign) → Composes r s t → r ≢ greater → s ≢ greater → t ≢ greater
Composes-le less less t h p q = rw h (λ e. cc)
Composes-le less equal t h p q = rw h (λ e. cc)
Composes-le less greater t h p q = absurd (q refl)
Composes-le equal s t h p q = rw h q
Composes-le greater s t h p q = absurd (p refl)
