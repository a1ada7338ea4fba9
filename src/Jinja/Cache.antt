-- ===== src/Jinja/Cache.antt =====
-- The cache `_past_matches` of `TagIterator` (dbt_common/clients/_jinja_blocks.py).
use dbt_common.Common.{
  ℕ, ◌+◌, ◌-◌, ◌≤◌, true, false, Option, none, some, List, [], ◌∷◌, Text, length, leb, ltb,
  if◌then◌else◌, ◌≡◌, refl, ap, subst, arith, Bool-cases, Option-cases, inl, inr,
}
use dbt_common.Regex.{Match, search}
use dbt_common.Regex.Reached.{least}
use dbt_common.Regex.Progress.{IsFound, NotPast, search-IsFound, search_later}
use dbt_common.Jinja.Matches.{
  Key, key_eq, comment_start, comment_end, expr_start, expr_end, block_start, raw_block, tag_close,
  string, quote_start, pattern_of, PositionedMatch, TagIterator, tag_iterator, search_and_cache,
  reuse, search_key, least_end, first_match,
}

-- What a search without the cache gives.
abbrev pub searched : Key → TagIterator → Option Match
searched k t = search (pattern_of k) t.text t.pos

-- What is kept for a key is what the search for it found, from where it started.
abbrev pub IsKept : Text → Key → Option PositionedMatch → Type 0
IsKept text k none = Unit
IsKept text k (some past) = past.match ≡ search (pattern_of k) text past.start_pos

-- The position lies in the text, and the cache holds results of searches.
pub record IsSound (t : TagIterator) : Type 0 where
  pub inside : t.pos ≤ length t.text
  pub kept : (k : Key) → IsKept t.text k (t.past_matches k)

-- An operation leaves the text and the position as they were.
pub record IsSame (t u : TagIterator) : Type 0 where
  pub text : u.text ≡ t.text
  pub pos : u.pos ≡ t.pos
  pub sound : IsSound u

pub tag_iterator-IsSound : (text : Text) → IsSound (tag_iterator text)
tag_iterator-IsSound text = record { inside = omega arith; kept = λ k. tt }

unchanged : (t : TagIterator) → IsSound t → IsSame t t
unchanged t s = record { text = refl; pos = refl; sound = s }

key_eq_sound : (j k : Key) → key_eq j k ≡ true → j ≡ k
key_eq_sound comment_start comment_start e = refl
key_eq_sound comment_end comment_end e = refl
key_eq_sound expr_start expr_start e = refl
key_eq_sound expr_end expr_end e = refl
key_eq_sound block_start block_start e = refl
key_eq_sound raw_block raw_block e = refl
key_eq_sound tag_close tag_close e = refl
key_eq_sound string string e = refl
key_eq_sound quote_start quote_start e = refl
key_eq_sound _ _ e = cc

-- A search gives what it finds, behind an iterator that stands where it stood.
abbrev Agrees : Key → TagIterator → Option Match × TagIterator → Type 0
Agrees k t (m, u) = (m ≡ searched k t) × IsSame t u

search_and_cache-kept :
    (k j : Key) (t : TagIterator)
    → IsSound t
    → IsKept t.text j ((search_and_cache k t).1.past_matches j)
unfolding search_and_cache
search_and_cache-kept k j t s = elim (Bool-cases (key_eq k j)) [
  | inl same ↦ rw same (ap (λ i. search (pattern_of i) t.text t.pos) (key_eq_sound k j same))
  | inr other ↦ rw other (s.kept j)
]

search_and_cache-Agrees :
    (k : Key) (t : TagIterator) → IsSound t → Agrees k t (search_and_cache k t)
unfolding search_and_cache
search_and_cache-Agrees k t s = (
  refl,
  record {
    text = refl;
    pos = refl;
    sound = record { inside = s.inside; kept = λ j. search_and_cache-kept k j t s };
  },
)

-- A result from an earlier start still stands.
still_stands :
    (k : Key) (t : TagIterator) (start : ℕ) (m : Option Match)
    → t.pos ≤ length t.text
    → start ≤ t.pos
    → m ≡ search (pattern_of k) t.text start
    → NotPast t.pos m
    → m ≡ searched k t
still_stands k t start m inside before e h =
    let there : t.pos - start + start ≡ t.pos = omega (arith, before) in
    let later : search (pattern_of k) t.text (t.pos - start + start)
        ≡ search (pattern_of k) t.text start =
      search_later (pattern_of k) t.text (t.pos - start) start (omega (arith, inside, there))
        (rw (there, ← e) h) in
    rw (e, ← later, there) refl

not_before : (m n : ℕ) → ltb m n ≡ false → n ≤ m
not_before m n e = ground arith

up_to : (m n : ℕ) → leb m n ≡ true → m ≤ n
up_to m n e = ground arith

reuse-Agrees :
    (k : Key) (t : TagIterator) (start : ℕ) (m : Option Match)
    → IsSound t
    → m ≡ search (pattern_of k) t.text start
    → Agrees k t (reuse k (record { start_pos = start; match = m }) t)
reuse-Agrees k t start m s e = elim (Bool-cases (ltb t.pos start)) [
  | inl moved_back ↦ rw moved_back (search_and_cache-Agrees k t s)
  | inr behind ↦ rw behind (reused m e (not_before t.pos start behind))
]
  where
    reused :
        (o : Option Match)
        → o ≡ search (pattern_of k) t.text start
        → start ≤ t.pos
        → Agrees k t (elim o [
          | none ↦ (none, t)
          | some n ↦ (if leb t.pos n.start then (some n, t) else search_and_cache k t)
        ])
    reused none q l = (still_stands k t start none s.inside l q tt, unchanged t s)
    reused (some n) q l = elim (Bool-cases (leb t.pos n.start)) [
      | inl ahead ↦
          rw ahead (
            still_stands k t start (some n) s.inside l q (up_to t.pos n.start ahead),
            unchanged t s,
          )
      | inr passed ↦ rw passed (search_and_cache-Agrees k t s)
    ]

kept_at :
    (k : Key) (t : TagIterator) (o : Option PositionedMatch)
    → t.past_matches k ≡ o
    → IsSound t
    → IsKept t.text k o
kept_at k t o e s = subst (IsKept t.text k) e (s.kept k)

search_key-Agrees : (k : Key) (t : TagIterator) → IsSound t → Agrees k t (search_key k t)
unfolding search_key
search_key-Agrees k t s = elim (Option-cases (t.past_matches k)) [
  | inl e ↦ rw (e, search_key) (search_and_cache-Agrees k t s)
  | inr (past, e) ↦
      rw (e, search_key)
        (reuse-Agrees k t past.start_pos past.match s (kept_at k t (some past) e s))
]

-- The result of a search with the cache is the result of a search from the current position, for an iterator whose position lies in its text and whose cache holds what earlier searches found, and the iterator behind it has the same text and position and is such an iterator again.
pub search_key-eq-searched :
    (k : Key) (t : TagIterator)
    → IsSound t
    → ((search_key k t).0 ≡ searched k t) × IsSame t (search_key k t).1
search_key-eq-searched k t s = search_key-Agrees k t s

-- The first of the matches to end, without the cache.
abbrev pub first_of : List Key → TagIterator → Option Match
first_of [] t = none
first_of (k ∷ ks) t = least_end (searched k t) (first_of ks t)

searched-same : (k : Key) (t u : TagIterator) → IsSame t u → searched k u ≡ searched k t
searched-same k t u i = rw (i.text, i.pos) refl

first_of-same : (ks : List Key) (t u : TagIterator) → IsSame t u → first_of ks u ≡ first_of ks t
first_of-same [] t u i = refl
first_of-same (k ∷ ks) t u i = rw (searched-same k t u i, first_of-same ks t u i) refl

after_IsSame : {t u v : TagIterator} → IsSame t u → IsSame u v → IsSame t v
after_IsSame i j = record { text = rw j.text i.text; pos = rw j.pos i.pos; sound = j.sound }

first_match-eq-first_of :
    (ks : List Key) (t : TagIterator)
    → IsSound t
    → ((first_match ks t).0 ≡ first_of ks t) × IsSame t (first_match ks t).1
unfolding first_match
first_match-eq-first_of [] t s = (refl, unchanged t s)
first_match-eq-first_of (k ∷ ks) t s =
    let (m, u) = search_key k t in
    let (e, i) = search_key-Agrees k t s in
    let (e', j) = first_match-eq-first_of ks u i.sound in
    (rw (e, e', first_of-same ks t u i) refl, after_IsSame i j)

-- Where a match that a search may give lies, and its least length.
least_end-IsFound :
    (n pos : ℕ) (text : Text) (m o : Option Match)
    → IsFound n pos text m
    → IsFound n pos text o
    → IsFound n pos text (least_end m o)
least_end-IsFound n pos text none o f g = g
least_end-IsFound n pos text (some m) none f g = f
least_end-IsFound n pos text (some m) (some o) f g = elim (Bool-cases (ltb o.end m.end)) [
  | inl less ↦ rw less g
  | inr not_less ↦ rw not_less f
]

weaker-IsFound :
    (m n pos : ℕ) (text : Text) (o : Option Match)
    → m ≤ n
    → IsFound n pos text o
    → IsFound m pos text o
weaker-IsFound m n pos text none l f = tt
weaker-IsFound m n pos text (some o) l (a, b, c) = (a, omega (arith, l, b), c)

-- Every pattern consumes a character.
consumes : (k : Key) → 1 ≤ least (pattern_of k)
unfolding least pattern_of
consumes comment_start = omega arith
consumes comment_end = omega arith
consumes expr_start = omega arith
consumes expr_end = omega arith
consumes block_start = omega arith
consumes raw_block = omega arith
consumes tag_close = omega arith
consumes string = omega arith
consumes quote_start = omega arith

first_of-IsFound :
    (ks : List Key) (t : TagIterator) → IsSound t → IsFound 1 t.pos t.text (first_of ks t)
first_of-IsFound [] t s = tt
first_of-IsFound (k ∷ ks) t s =
    least_end-IsFound 1 t.pos t.text (searched k t) (first_of ks t)
      (weaker-IsFound 1 (least (pattern_of k)) t.pos t.text (searched k t) (consumes k)
        (search-IsFound (pattern_of k) t.text t.pos s.inside))
      (first_of-IsFound ks t s)

pub first_match-IsFound :
    (ks : List Key) (t : TagIterator)
    → IsSound t
    → IsFound 1 t.pos t.text (first_match ks t).0 × IsSame t (first_match ks t).1
first_match-IsFound ks t s =
    let (e, i) = first_match-eq-first_of ks t s in (rw e (first_of-IsFound ks t s), i)
