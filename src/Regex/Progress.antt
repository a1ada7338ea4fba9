-- ===== src/Regex/Progress.antt =====
-- Where the matches of Regex lie in the text.
use dbt_common.Common.{
  ℕ, zero, suc, ◌+◌, ◌≤◌, Option, none, some, [], ◌∷◌, Text, length, drop, ◌≡◌, refl, arith,
}
use dbt_common.Regex.{Pattern, Cursor, run, Match, found_at, match_here, search_from, search}
use dbt_common.Regex.Reached.{least, Reaches, at_least, run-Advances}

-- A match found in `rest`, which starts at `pos`: from `pos` on, at least n long, and in the text.
abbrev Within : ℕ → ℕ → Text → Option Match → Type 0
Within n pos rest none = Unit
Within n pos rest (some m) = (pos ≤ m.start) × (n + m.start ≤ m.end) × (m.end ≤ pos + length rest)

found_at-Within :
    (n pos : ℕ) (rest : Text) (o : Option Cursor)
    → Reaches n (record { pos = pos; rest = rest; groups = [] }) o
    → Within n pos rest (found_at pos o)
found_at-Within n pos rest none r = tt
found_at-Within n pos rest (some c) r = (omega arith, omega (arith, r.0), omega (arith, r.1))

match_here-Within :
    (p : Pattern) (pos : ℕ) (rest : Text) → Within (least p) pos rest (match_here p pos rest)
unfolding match_here
match_here-Within p pos rest =
    let c : Cursor = record { pos = pos; rest = rest; groups = [] } in
    found_at-Within (least p) pos rest (run p some c) (
      at_least _ _ c (run p some c) (omega arith)
        (run-Advances p some 0 (λ d. (omega arith, refl)) c))

-- The first position where the pattern matches.
abbrev StartsAt : ℕ → Option Match → Type 0
StartsAt pos none = Unit
StartsAt pos (some m) = m.start ≡ pos

found_at-StartsAt : (pos : ℕ) (o : Option Cursor) → StartsAt pos (found_at pos o)
found_at-StartsAt pos none = tt
found_at-StartsAt pos (some c) = refl

match_here-StartsAt : (p : Pattern) (pos : ℕ) (rest : Text) → StartsAt pos (match_here p pos rest)
unfolding match_here
match_here-StartsAt p pos rest = found_at-StartsAt pos _

or_later :
    (n pos x : ℕ) (xs : Text) (o o' : Option Match)
    → Within n pos (x ∷ xs) o
    → Within n (suc pos) xs o'
    → Within n pos (x ∷ xs) (elim o [ some m ↦ some m | none ↦ o' ])
or_later n pos x xs none none w w' = tt
or_later n pos x xs none (some m) w (a, b, c) = (omega (arith, a), b, omega (arith, c))
or_later n pos x xs (some m) o' w w' = w

search_from-Within :
    (p : Pattern) (pos : ℕ) (rest : Text) → Within (least p) pos rest (search_from p pos rest)
unfolding search_from
search_from-Within p pos [] = match_here-Within p pos []
search_from-Within p pos (x ∷ xs) =
    or_later (least p) pos x xs (match_here p pos (x ∷ xs)) (search_from p (suc pos) xs)
      (match_here-Within p pos (x ∷ xs)) (search_from-Within p (suc pos) xs)

-- A later start finds the same, up to the start of the match.
abbrev pub NotPast : ℕ → Option Match → Type 0
NotPast q none = Unit
NotPast q (some m) = q ≤ m.start

skip_one :
    (p : Pattern) (pos x : ℕ) (xs : Text) (o : Option Match)
    → match_here p pos (x ∷ xs) ≡ o
    → StartsAt pos o
    → NotPast (suc pos) (search_from p pos (x ∷ xs))
    → search_from p (suc pos) xs ≡ search_from p pos (x ∷ xs)
unfolding search_from
skip_one p pos x xs none e s h = rw (e, search_from) refl
skip_one p pos x xs (some m) e s h =
    absurd (let past : suc pos ≤ m.start = rw (e, search_from) at h in omega (arith, past, s))

earlier-NotPast : (q r : ℕ) (o : Option Match) → q ≤ r → NotPast r o → NotPast q o
earlier-NotPast q r none l h = tt
earlier-NotPast q r (some m) l h = omega (arith, h, l)

search_from-drop :
    (p : Pattern) (n pos : ℕ) (rest : Text)
    → n ≤ length rest
    → NotPast (n + pos) (search_from p pos rest)
    → search_from p (n + pos) (drop n rest) ≡ search_from p pos rest
search_from-drop p zero pos rest l h = let e : 0 + pos ≡ pos = omega arith in rw e refl
search_from-drop p (suc n) pos [] l h = absurd (omega (arith, l))
search_from-drop p (suc n) pos (x ∷ xs) l h =
    let one : search_from p (suc pos) xs ≡ search_from p pos (x ∷ xs) =
      skip_one p pos x xs (match_here p pos (x ∷ xs)) refl (match_here-StartsAt p pos (x ∷ xs))
        (earlier-NotPast _ _ (search_from p pos (x ∷ xs)) (omega arith) h) in
    let moved : suc n + pos ≡ n + suc pos = omega arith in
    rw (moved, ← one)
      (search_from-drop p n (suc pos) xs (omega (arith, l)) (rw (moved, ← one) at h))

length-drop : (n : ℕ) (text : Text) → n ≤ length text → n + length (drop n text) ≡ length text
length-drop zero text l = omega arith
length-drop (suc n) [] l = absurd (omega (arith, l))
length-drop (suc n) (x ∷ xs) l = omega (arith, length-drop n xs (omega (arith, l)))

drop-drop : (m n : ℕ) (text : Text) → drop m (drop n text) ≡ drop (m + n) text
drop-drop m zero text = let e : m + 0 ≡ m = omega arith in rw e refl
drop-drop zero (suc n) [] = let e : 0 + suc n ≡ suc n = omega arith in rw e refl
drop-drop (suc m) (suc n) [] = let e : suc m + suc n ≡ suc (m + suc n) = omega arith in rw e refl
drop-drop m (suc n) (x ∷ xs) =
    let e : m + suc n ≡ suc (m + n) = omega arith in rw e (drop-drop m n xs)

-- A match of a search lies behind the position that the search starts from, and in the text.
abbrev pub IsFound : ℕ → ℕ → Text → Option Match → Type 0
IsFound n pos text none = Unit
IsFound n pos text (some m) = (pos ≤ m.start) × (n + m.start ≤ m.end) × (m.end ≤ length text)

Within-IsFound :
    (n pos : ℕ) (text : Text) (o : Option Match)
    → pos ≤ length text
    → Within n pos (drop pos text) o
    → IsFound n pos text o
Within-IsFound n pos text none l w = tt
Within-IsFound n pos text (some m) l (a, b, c) = (a, b, omega (arith, c, length-drop pos text l))

pub search-IsFound :
    (p : Pattern) (text : Text) (pos : ℕ)
    → pos ≤ length text
    → IsFound (least p) pos text (search p text pos)
unfolding search
search-IsFound p text pos l =
    Within-IsFound (least p) pos text (search p text pos) l
      (search_from-Within p pos (drop pos text))

-- A search that starts later, but not behind what an earlier one found, finds the same.
pub search_later :
    (p : Pattern) (text : Text) (n pos : ℕ)
    → n + pos ≤ length text
    → NotPast (n + pos) (search p text pos)
    → search p text (n + pos) ≡ search p text pos
unfolding search
search_later p text n pos l h = rw (← drop-drop n pos text) (
    search_from-drop p n pos (drop pos text)
      (omega (arith, l, length-drop pos text (omega (arith, l)))) h)
