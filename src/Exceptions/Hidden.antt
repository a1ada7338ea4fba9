-- ===== src/Exceptions/Hidden.antt =====
-- What scrubbed texts do not contain (dbt_common/exceptions/base.py).
use Prim.Native.Nat.{ℕ, zero, suc}
use dbt_common.Common.{
  Bool, true, false, ◌||◌, List, [], ◌∷◌, ◌++◌, Text, starts_with, contains, length, drop, ◌==◌,
  ◌≡◌, refl, All, Bool-cases, inl, inr, arith,
}
use dbt_common.Exceptions.Secrets.{stars, replace_from, replace, scrub_secrets}

-- A text without a star.
abbrev NoStar : Text → Type 0
NoStar [] = Unit
NoStar (c ∷ cs) = ((c == 42) ≡ false) × NoStar cs

-- A secret: a text that is not empty, and has no star.
abbrev IsSecret : Text → Type 0
IsSecret [] = ⊥
IsSecret (c ∷ cs) = NoStar (c ∷ cs)

star_first :
    (c : ℕ) (part text : Text) → (c == 42) ≡ false → starts_with (42 ∷ text) (c ∷ part) ≡ false
star_first c part text h = let other : (42 == c) ≡ false = ground (arith, h) in rw other refl

secret_NoStar : (part : Text) → IsSecret part → NoStar part
secret_NoStar [] h = absurd h
secret_NoStar (c ∷ cs) h = h

or_right : (a b : Bool) → b ≡ true → (a || b) ≡ true
or_right true b e = refl
or_right false b e = e

nothing_there : (part : Text) → IsSecret part → contains part [] ≡ false
nothing_there [] h = absurd h
nothing_there (c ∷ cs) h = refl

module _ (secret : Text) where
  -- What a replaced text starts with, the text started with.
  started :
      (text part : Text)
      → NoStar part
      → starts_with (replace secret text) part ≡ true
      → starts_with text part ≡ true
  unfolding replace_from
  started text [] h e = refl
  started [] (p ∷ ps) h e = e
  started (c ∷ cs) (p ∷ ps) (h, hs) e = elim (Bool-cases (starts_with (c ∷ cs) secret)) [
    | inl replaced ↦ cc (rw (replaced, star_first p ps _ h) at e)
    | inr kept ↦ elim (Bool-cases (c == p)) [
      | inl same ↦ rw same (started cs ps hs (rw (kept, same) at e))
      | inr other ↦ cc (rw (kept, other) at e)
    ]
  ]

  -- Nothing starts within the stars.
  past_stars :
      (part text : Text) → IsSecret part → contains part (stars ++ text) ≡ contains part text
  past_stars [] text h = absurd h
  past_stars (p ∷ ps) text (h, hs) =
      let other : (42 == p) ≡ false = ground (arith, h) in rw other refl

  -- A replacement makes no other secret.
  stays :
      (n : ℕ) (text part : Text)
      → IsSecret part
      → contains part (replace_from n secret text) ≡ true
      → contains part text ≡ true
  unfolding replace_from
  stays zero [] part h e = e
  stays (suc n) [] part h e = e
  stays (suc n) (c ∷ cs) part h e =
      or_right (starts_with (c ∷ cs) part) (contains part cs) (stays n cs part h e)
  stays zero (c ∷ cs) part h e = elim (Bool-cases (starts_with (c ∷ cs) secret)) [
    | inl replaced ↦
        let behind : Text = replace_from (length (drop 1 secret)) secret cs in
        or_right (starts_with (c ∷ cs) part) (contains part cs)
          (stays (length (drop 1 secret)) cs part h (rw (replaced, past_stars part behind h) at e))
    | inr kept ↦ elim (Bool-cases (starts_with (c ∷ replace secret cs) part)) [
      | inl starts ↦
          let before : starts_with (c ∷ cs) part ≡ true =
            started (c ∷ cs) part (secret_NoStar part h) (rw kept starts) in
          rw before refl
      | inr not_here ↦
          or_right (starts_with (c ∷ cs) part) (contains part cs)
            (stays zero cs part h (rw (kept, not_here) at e))
    ]
  ]

  -- A replacement leaves none of its own.
  removed :
      (n : ℕ) (text : Text) → IsSecret secret → contains secret (replace_from n secret text) ≡ false
  unfolding replace_from
  removed zero [] h = nothing_there secret h
  removed (suc n) [] h = nothing_there secret h
  removed (suc n) (c ∷ cs) h = removed n cs h
  removed zero (c ∷ cs) h = elim (Bool-cases (starts_with (c ∷ cs) secret)) [
    | inl replaced ↦
        let behind : Text = replace_from (length (drop 1 secret)) secret cs in
        rw (replaced, past_stars secret behind h) (removed (length (drop 1 secret)) cs h)
    | inr kept ↦ elim (Bool-cases (starts_with (c ∷ replace secret cs) secret)) [
      | inl starts ↦
          let before : starts_with (c ∷ cs) secret ≡ true =
            started (c ∷ cs) secret (secret_NoStar secret h) (rw kept starts) in
          absurd (cc (before, kept))
      | inr not_here ↦ rw (kept, not_here) (removed zero cs h)
    ]
  ]

not_false : (a b : Bool) → (b ≡ true → a ≡ true) → a ≡ false → b ≡ false
not_false a true f e = cc (f refl, e)
not_false a false f e = refl

scrub_keeps :
    (msg : Text) (secrets : List Text) (part : Text)
    → IsSecret part
    → contains part msg ≡ false
    → contains part (scrub_secrets msg secrets) ≡ false
unfolding scrub_secrets
scrub_keeps msg [] part h e = e
scrub_keeps msg (secret ∷ secrets) part h e = scrub_keeps (replace secret msg) secrets part h (
    not_false (contains part msg) (contains part (replace secret msg)) (stays secret 0 msg part h)
      e)

-- A scrubbed message contains none of the secrets, if each of them is not empty and has no star in it.
pub scrub_secrets-hides :
    (msg : Text) (secrets : List Text)
    → All IsSecret secrets
    → All (λ secret. contains secret (scrub_secrets msg secrets) ≡ false) secrets
unfolding scrub_secrets
scrub_secrets-hides msg [] h = tt
scrub_secrets-hides msg (secret ∷ secrets) (is, h) = (
  scrub_keeps (replace secret msg) secrets secret is (removed secret 0 msg is),
  scrub_secrets-hides (replace secret msg) secrets h,
)
