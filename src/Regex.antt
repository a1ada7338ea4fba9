-- ===== src/Regex.antt =====
-- The part of Python's `re` that the sources use: backtracking matching with greedy and lazy
-- repetition and named groups, over the code points of a text. A pattern is a value of `Pattern`;
-- the sources' patterns are written as such values beside the code that uses them.
pub mod Reached
pub mod Progress
use dbt_common.Common.{
  ℕ, zero, suc, ◌-◌, String, Bool, true, false, ◌&&◌, ◌||◌, Option, none, some, List, [], ◌∷◌, Text,
  length, take, drop, leb, ◌==◌,
}
use dbt_common.Common.Dict.{Dict, insert}

pub data Pattern : Type 0 where
  -- one character of a class
  char_of : (ℕ → Bool) → Pattern
  empty : Pattern
  seq alt : Pattern → Pattern → Pattern
  -- `p*` and `p*?`
  many many_lazy : Pattern → Pattern
  -- `(?P<name>p)`
  group : String → Pattern → Pattern
  -- `$` outside the multiline mode
  end_of_text : Pattern

-- Where a match stands: the position, the text from there on, and the groups so far.
pub record Cursor : Type 0 where
  pub pos : ℕ
  pub rest : Text
  pub groups : Dict Text

abbrev pub Continuation : Type 0
Continuation = Cursor → Option Cursor

unfoldable pub step_char : (ℕ → Bool) → Continuation → Continuation
step_char p k c = elim c.rest [
  | [] ↦ none
  | x ∷ xs ↦ elim (p x) [
    | true ↦ k (record { pos = suc c.pos; rest = xs; groups = c.groups })
    | false ↦ none
  ]
]

-- A repetition makes a further round only if the last one consumed something. The rounds are
-- bounded by the length of the text that is left, since each of them consumes.
unfoldable pub greedy_loop : (Continuation → Continuation) → Continuation → ℕ → Continuation
greedy_loop p k zero c = k c
greedy_loop p k (suc rounds) c =
    elim (p (λ d. elim (d.pos == c.pos) [ true ↦ none | false ↦ greedy_loop p k rounds d ]) c) [
      | some d ↦ some d
      | none ↦ k c
    ]

unfoldable pub lazy_loop : (Continuation → Continuation) → Continuation → ℕ → Continuation
lazy_loop p k zero c = k c
lazy_loop p k (suc rounds) c = elim (k c) [
  | some d ↦ some d
  | none ↦ p (λ d. elim (d.pos == c.pos) [ true ↦ none | false ↦ lazy_loop p k rounds d ]) c
]

abbrev pub at_end : Text → Bool
at_end [] = true
at_end (c ∷ []) = c == 10
at_end (c ∷ d ∷ cs) = false

unfoldable pub run : Pattern → Continuation → Continuation
unfolding step_char greedy_loop lazy_loop insert
run (char_of p) k c = step_char p k c
run empty k c = k c
run (seq p q) k c = run p (run q k) c
run (alt p q) k c = elim (run p k c) [ some d ↦ some d | none ↦ run q k c ]
run (many p) k c = greedy_loop (run p) k (length c.rest) c
run (many_lazy p) k c = lazy_loop (run p) k (length c.rest) c
run (group name p) k c =
    run p (λ d. k (record d { groups = insert name (take (d.pos - c.pos) c.rest) d.groups })) c
run end_of_text k c = elim (at_end c.rest) [ true ↦ k c | false ↦ none ]

pub record Match : Type 0 where
  pub start : ℕ
  pub end : ℕ
  pub groups : Dict Text

abbrev pub found_at : ℕ → Option Cursor → Option Match
found_at pos none = none
found_at pos (some c) = some (record { start = pos; end = c.pos; groups = c.groups })

-- An attempt to match at one position.
unfoldable pub match_here : Pattern → ℕ → Text → Option Match
unfolding run
match_here p pos rest = found_at pos (run p some (record { pos = pos; rest = rest; groups = [] }))

unfoldable pub search_from : Pattern → ℕ → Text → Option Match
unfolding match_here
search_from p pos [] = match_here p pos []
search_from p pos (c ∷ cs) = elim (match_here p pos (c ∷ cs)) [
  | some m ↦ some m
  | none ↦ search_from p (suc pos) cs
]

-- `pattern.match(text, pos)` and `pattern.search(text, pos)`
unfoldable pub match : Pattern → Text → ℕ → Option Match
unfolding match_here
match p text pos = match_here p pos (drop pos text)

unfoldable pub search : Pattern → Text → ℕ → Option Match
unfolding search_from
search p text pos = search_from p pos (drop pos text)

-- Notation: `p?`, `p+`, one character, a range of characters, a literal text.
abbrev pub optional : Pattern → Pattern
optional p = alt p empty

abbrev pub some_of : Pattern → Pattern
some_of p = seq p (many p)

abbrev pub char : ℕ → Pattern
char c = char_of (λ x. x == c)

abbrev pub literal : List ℕ → Pattern
literal [] = empty
literal (c ∷ cs) = seq (char c) (literal cs)

abbrev pub between : ℕ → ℕ → ℕ → Bool
between lo hi x = leb lo x && leb x hi

-- `\s` on ASCII: the blank, tab, newline, vertical tab, form feed, carriage return, and the four
-- separators that Python counts as white space.
abbrev pub is_space : ℕ → Bool
is_space x = x == 32 || (between 9 13 x || between 28 31 x)

abbrev pub spaces : Pattern
spaces = many (char_of is_space)
