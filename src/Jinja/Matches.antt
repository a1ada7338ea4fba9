-- ===== src/Jinja/Matches.antt =====
-- The iterator of `TagIterator` in dbt_common/clients/_jinja_blocks.py: its position, its searches,
-- and the past matches that it keeps.
use dbt_common.Common.{
  ℕ, suc, ◌+◌, ◌-◌, Bool, true, false, Option, none, some, List, [], ◌∷◌, Text, take, leb, ltb,
  ◌==◌, if◌then◌else◌,
}
use dbt_common.Regex.{Pattern, Match, search}
use dbt_common.Jinja.Patterns.{
  comment_start_pattern, comment_end_pattern, expr_start_pattern, expr_end_pattern,
  block_start_pattern, raw_block_pattern, tag_close_pattern, string_pattern, quote_start_pattern,
}

-- The patterns that are searched for, as the keys of `_past_matches`.
pub data Key : Type 0 where
  comment_start comment_end expr_start expr_end block_start raw_block tag_close string quote_start :
      Key

unfoldable pub pattern_of : Key → Pattern
unfolding comment_start_pattern comment_end_pattern expr_start_pattern expr_end_pattern
    block_start_pattern raw_block_pattern tag_close_pattern string_pattern quote_start_pattern
pattern_of comment_start = comment_start_pattern
pattern_of comment_end = comment_end_pattern
pattern_of expr_start = expr_start_pattern
pattern_of expr_end = expr_end_pattern
pattern_of block_start = block_start_pattern
pattern_of raw_block = raw_block_pattern
pattern_of tag_close = tag_close_pattern
pattern_of string = string_pattern
pattern_of quote_start = quote_start_pattern

abbrev pub key_eq : Key → Key → Bool
key_eq comment_start comment_start = true
key_eq comment_end comment_end = true
key_eq expr_start expr_start = true
key_eq expr_end expr_end = true
key_eq block_start block_start = true
key_eq raw_block raw_block = true
key_eq tag_close tag_close = true
key_eq string string = true
key_eq quote_start quote_start = true
key_eq _ _ = false

pub record PositionedMatch : Type 0 where
  pub start_pos : ℕ
  pub match : Option Match

-- The cache is a function from the pattern to what is kept for it.
pub record TagIterator : Type 0 where
  pub text : Text
  pub pos : ℕ
  pub past_matches : Key → Option PositionedMatch

abbrev pub tag_iterator : Text → TagIterator
tag_iterator text = record { text = text; pos = 0; past_matches = λ k. none }

-- `text.rfind("\n") + 1` and `text.count("\n")`
abbrev after_last_newline : ℕ → ℕ → Text → ℕ
after_last_newline found i [] = found
after_last_newline found i (c ∷ cs) =
    after_last_newline (if c == 10 then suc i else found) (suc i) cs

abbrev pub newlines : Text → ℕ
newlines [] = 0
newlines (c ∷ cs) = (if c == 10 then 1 else 0) + newlines cs

-- `linepos`: the line number, from 1, and the position in the line.
unfoldable linepos : Option ℕ → TagIterator → ℕ × ℕ
linepos end t =
    let end_val : ℕ = elim end [ none ↦ t.pos | some e ↦ e ] in
    let text : Text = take end_val t.text in
    (newlines text + 1, end_val - after_last_newline 0 0 text)

unfoldable pub advance : ℕ → TagIterator → TagIterator
advance new_position t = record t { pos = new_position }

unfoldable pub rewind : ℕ → TagIterator → TagIterator
rewind amount t = record t { pos = t.pos - amount }

-- A search from the current position, which is kept.
unfoldable pub search_and_cache : Key → TagIterator → Option Match × TagIterator
search_and_cache k t =
    let m = search (pattern_of k) t.text t.pos in
    (
      m,
      record t {
        past_matches = λ j.
            if key_eq k j then some (record { start_pos = t.pos; match = m }) else t.past_matches j;
      },
    )

-- `_search` where something is kept for the pattern
abbrev pub reuse : Key → PositionedMatch → TagIterator → Option Match × TagIterator
reuse k past t = if ltb t.pos past.start_pos then search_and_cache k t else elim past.match [
  | none ↦ (none, t)
  | some m ↦ (if leb t.pos m.start then (some m, t) else search_and_cache k t)
]

unfoldable pub search_key : Key → TagIterator → Option Match × TagIterator
search_key k t = elim (t.past_matches k) [
  | none ↦ search_and_cache k t
  | some past ↦ reuse k past t
]

-- `min(matches, key=lambda m: m.end())`: the first of those that end first
abbrev pub least_end : Option Match → Option Match → Option Match
least_end none m = m
least_end (some m) none = some m
least_end (some m) (some n) = if ltb n.end m.end then some n else some m

unfoldable pub first_match : List Key → TagIterator → Option Match × TagIterator
unfolding search_key
first_match [] t = (none, t)
first_match (k ∷ ks) t =
    let (m, t') = search_key k t in let (n, t'') = first_match ks t' in (least_end m n, t'')
