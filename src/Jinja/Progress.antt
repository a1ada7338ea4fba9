-- ===== src/Jinja/Progress.antt =====
-- The loops of `TagIterator` (dbt_common/clients/_jinja_blocks.py) as they move through a template.
use dbt_common.Common.{
  ℕ, zero, suc, ◌+◌, ◌-◌, ◌≤◌, ◌<◌, true, false, Option, none, some, List, [], ◌∷◌, length, ◌≡◌, ap,
  arith, Bool-cases, inl, inr, String,
}
use dbt_common.Common.Outcome.{Outcome, ok, raise}
use dbt_common.Regex.{Match}
use dbt_common.Regex.Progress.{IsFound}
use dbt_common.Jinja.Matches.{
  Key, expr_end, tag_close, string, quote_start, TagIterator, advance, rewind, first_match,
}
use dbt_common.Jinja.Tags.{
  TagFault, out_of_fuel, Step, ◌>>=◌, move_to, expected, expect_match, has_group, expr_loop,
  expect_block_close,
}
use dbt_common.Jinja.Cache.{IsSound, IsSame, first_match-IsFound}

-- An iterator behind another, at least n further on in the same text.
pub record Moves (n : ℕ) (t u : TagIterator) : Type 0 where
  pub text : u.text ≡ t.text
  pub further : n + t.pos ≤ u.pos
  pub sound : IsSound u

-- What holds of a result; or an exception that is not the end of the fuel.
abbrev pub Meets :
    {A : Type 0} → (A → TagIterator → Type 0) → Outcome TagFault (A × TagIterator) → Type 0
Meets P (ok (a, u)) = P a u
Meets P (raise e) = ¬ (e ≡ out_of_fuel)

pub chain-Meets :
    {A B : Type 0} (P : A → TagIterator → Type 0) (Q : B → TagIterator → Type 0) (m : Step A)
    (f : A → Step B) (t : TagIterator)
    → Meets P (m t)
    → ((a : A) (u : TagIterator) → P a u → Meets Q (f a u))
    → Meets Q ((m >>= f) t)
chain-Meets P Q m f t h k = behind (m t) h
  where
    behind :
        (o : Outcome TagFault (_ × TagIterator))
        → Meets P o
        → Meets Q (elim o [ ok (a, u) ↦ f a u | raise e ↦ raise e ])
    behind (ok (a, u)) h' = k a u h'
    behind (raise e) h' = h'

pub map-Meets :
    {A : Type 0} (P Q : A → TagIterator → Type 0) (o : Outcome TagFault (A × TagIterator))
    → ((a : A) (u : TagIterator) → P a u → Q a u)
    → Meets P o
    → Meets Q o
map-Meets P Q (ok (a, u)) f h = f a u h
map-Meets P Q (raise e) f h = h

-- A match that is expected, behind an iterator that stands where it stood.
abbrev IsMatch : TagIterator → Match → TagIterator → Type 0
IsMatch t m u = IsFound 1 t.pos t.text (some m) × IsSame t u

expect_match-Meets :
    (name : String) (ks : List Key) (t : TagIterator)
    → IsSound t
    → Meets (IsMatch t) (expect_match name ks t)
unfolding expect_match
expect_match-Meets name ks t s =
    let (f, i) = first_match-IsFound ks t s in found (first_match ks t) f i
  where
    found :
        (r : Option Match × TagIterator)
        → IsFound 1 t.pos t.text r.0
        → IsSame t r.1
        → Meets (IsMatch t) (expected name r)
    found (none, u) f i = λ e. cc
    found (some m, u) f i = (f, i)

-- To go to the end of a match.
pub past_match :
    (t u : TagIterator) (m : Match)
    → IsFound 1 t.pos t.text (some m)
    → IsSame t u
    → Moves 1 t (advance m.end u)
unfolding advance
past_match t u m (a, b, c) i = record {
  text = i.text;
  further = omega (arith, a, b);
  sound = record { inside = rw i.text c; kept = i.sound.kept };
}

trans-Moves : {m n : ℕ} {t u v : TagIterator} → Moves m t u → Moves n u v → Moves m t v
trans-Moves i j = record {
  text = rw j.text i.text;
  further = omega (arith, i.further, j.further);
  sound = j.sound;
}

pub ahead : {n : ℕ} (t u v : TagIterator) → Moves 0 t u → Moves n u v → Moves n t v
ahead t u v i j = record {
  text = rw j.text i.text;
  further = omega (arith, i.further, j.further);
  sound = j.sound;
}

abbrev pub Forward : ℕ → TagIterator → Unit {0} → TagIterator → Type 0
Forward n t _ u = Moves n t u

-- The fuel is enough for what is left of the text.
abbrev pub Enough : ℕ → TagIterator → Type 0
Enough fuel t = length t.text - t.pos < fuel

pub after-Enough :
    (fuel : ℕ) (t u : TagIterator) → IsSound t → Moves 1 t u → Enough (suc fuel) t → Enough fuel u
after-Enough fuel t u s i h =
    let e : length u.text ≡ length t.text = ap length i.text in
    omega (arith, e, i.further, i.sound.inside, s.inside, h)

pub expect_end-Meets :
    (name : String) (ks : List Key) (t : TagIterator)
    → IsSound t
    → Meets (Forward 1 t) ((expect_match name ks >>= λ m. move_to m.end) t)
expect_end-Meets name ks t s =
    chain-Meets (IsMatch t) (Forward 1 t) (expect_match name ks) (λ m. move_to m.end) t
      (expect_match-Meets name ks t s) (λ m u (f, i). past_match t u m f i)

pub Forward-Meets :
    (m n : ℕ) (t u : TagIterator) (o : Outcome TagFault (Unit {0} × TagIterator))
    → Moves m t u
    → Meets (Forward n u) o
    → Meets (Forward m t) o
Forward-Meets m n t u (ok (_, v)) i h = trans-Moves i h
Forward-Meets m n t u (raise e) i h = h

-- The string behind a quote, and the loop behind the string.
module _ (loop : Step (Unit {0})) (fuel : ℕ)
    (ih : (t : TagIterator) → IsSound t → Enough fuel t → Meets (Forward 0 t) (loop t)) where
  after_string :
      (t : TagIterator)
      → IsSound t
      → Enough (suc fuel) t
      → Meets
          (Forward 0 t)
          ((expect_match "string" (string ∷ []) >>= λ s. λ v. loop (advance s.end v)) t)
  after_string t s h =
      chain-Meets (IsMatch t) (Forward 0 t) (expect_match "string" (string ∷ []))
        (λ m. λ v. loop (advance m.end v)) t (expect_match-Meets "string" (string ∷ []) t s)
        (λ m u (f, i).
          let moved : Moves 1 t (advance m.end u) = past_match t u m f i in
          Forward-Meets 0 0 t (advance m.end u) (loop (advance m.end u))
            (record {
              text = moved.text;
              further = omega (arith, moved.further);
              sound = moved.sound;
            })
            (ih (advance m.end u) moved.sound (after-Enough fuel t (advance m.end u) s moved h)))

Moves-IsSame : (t u : TagIterator) → IsSame t u → Moves 0 t u
Moves-IsSame t u i = record { text = i.text; further = omega (arith, i.pos); sound = i.sound }

same-Enough : (fuel : ℕ) (t u : TagIterator) → IsSame t u → Enough fuel t → Enough fuel u
same-Enough fuel t u i h = rw (i.text, i.pos) h

no_longer : {n : ℕ} {t u : TagIterator} → Moves n t u → Moves 0 t u
no_longer i = record { text = i.text; further = omega (arith, i.further); sound = i.sound }

pub expr_loop-Meets :
    (fuel : ℕ) (t : TagIterator)
    → IsSound t
    → Enough fuel t
    → Meets (Forward 0 t) (expr_loop fuel t)
unfolding expr_loop
expr_loop-Meets zero t s h = absurd (omega (arith, h))
expr_loop-Meets (suc fuel) t s h =
    chain-Meets (IsMatch t) (Forward 0 t) (expect_match "}}" (expr_end ∷ quote_start ∷ []))
      (λ m. λ u. elim (has_group "expr_end" m) [
        | true ↦ move_to m.end u
        | false ↦
            (expect_match "string" (string ∷ []) >>= λ s. λ v. expr_loop fuel (advance s.end v)) u
      ])
      t (expect_match-Meets "}}" (expr_end ∷ quote_start ∷ []) t s)
      (λ m u (f, i). elim (Bool-cases (has_group "expr_end" m)) [
        | inl ends ↦ rw ends (no_longer (past_match t u m f i))
        | inr quote ↦ rw quote (
            Forward-Meets 0 0 t u
              ((expect_match "string" (string ∷ []) >>= λ s. λ v. expr_loop fuel (advance s.end v))
                u)
              (Moves-IsSame t u i)
              (after_string (expr_loop fuel) fuel (expr_loop-Meets fuel) u i.sound
                (same-Enough (suc fuel) t u i h)))
      ])

-- Behind an opening quote, one back: not before the position where the quote was searched for.
rewind-Moves :
    (t u : TagIterator) (m : Match)
    → IsFound 1 t.pos t.text (some m)
    → IsSame t u
    → Moves 0 t (rewind 1 (advance m.end u))
unfolding rewind advance
rewind-Moves t u m (a, b, c) i = record {
  text = i.text;
  further = omega (arith, a, b);
  sound = record { inside = rw i.text (omega (arith, c)); kept = i.sound.kept };
}

Moves-Enough :
    (fuel : ℕ) (t u : TagIterator) → IsSound t → Moves 0 t u → Enough fuel t → Enough fuel u
Moves-Enough fuel t u s i h =
    let e : length u.text ≡ length t.text = ap length i.text in
    omega (arith, e, i.further, i.sound.inside, s.inside, h)

pub expect_block_close-Meets :
    (fuel : ℕ) (t : TagIterator)
    → IsSound t
    → Enough fuel t
    → Meets (Forward 0 t) (expect_block_close fuel t)
unfolding expect_block_close
expect_block_close-Meets zero t s h = absurd (omega (arith, h))
expect_block_close-Meets (suc fuel) t s h =
    chain-Meets (IsMatch t) (Forward 0 t)
      (expect_match "tag close (\"%}\")" (quote_start ∷ tag_close ∷ []))
      (λ m. λ u. elim (has_group "tag_close" m) [
        | true ↦ move_to m.end u
        | false ↦
            (expect_match "string" (string ∷ []) >>= λ s.
            λ v. expect_block_close fuel (advance s.end v))
              (rewind 1 (advance m.end u))
      ])
      t (expect_match-Meets "tag close (\"%}\")" (quote_start ∷ tag_close ∷ []) t s)
      (λ m u (f, i). elim (Bool-cases (has_group "tag_close" m)) [
        | inl ends ↦ rw ends (no_longer (past_match t u m f i))
        | inr quote ↦
            let v : TagIterator = rewind 1 (advance m.end u) in
            let back : Moves 0 t v = rewind-Moves t u m f i in
            rw quote (
              Forward-Meets 0 0 t v
                ((expect_match "string" (string ∷ []) >>= λ s.
                    λ w. expect_block_close fuel (advance s.end w))
                  v)
                back
                (after_string (expect_block_close fuel) fuel (expect_block_close-Meets fuel) v
                  back.sound (Moves-Enough (suc fuel) t v s back h)))
      ])
