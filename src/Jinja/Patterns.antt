-- ===== src/Jinja/Patterns.antt =====
-- The patterns of dbt_common/clients/_jinja_blocks.py, written as in the source. Each is compiled with
-- DOTALL and MULTILINE; none uses `^` or `$`.
use dbt_common.Common.{Bool, true, ◌||◌, not, ◌==◌, ℕ}
use dbt_common.Common.Codes.{codes}
use dbt_common.Regex.{
  Pattern, char_of, seq, alt, many, many_lazy, group, optional, some_of, char, literal, between,
  is_space, spaces,
}

abbrev is_name_start : ℕ → Bool
is_name_start x = between b'A' b'Z' x || (between b'a' b'z' x || x == b'_')

abbrev is_name_char : ℕ → Bool
is_name_char x = is_name_start x || between b'0' b'9' x

-- `_NAME_PATTERN`
unfoldable name_pattern : Pattern
name_pattern = seq (char_of is_name_start) (many (char_of is_name_char))

-- `(?:\s*\{\%\-|\{\%)\s*`
unfoldable tag_open : Pattern
tag_open = seq (alt (seq spaces (literal (codes "{%-"))) (literal (codes "{%"))) spaces

-- `(?:\-\%\}\s*|\%\})`
pub tag_close : Pattern
tag_close = alt (seq (literal (codes "-%}")) spaces) (literal (codes "%}"))

unfoldable pub comment_start_pattern : Pattern
comment_start_pattern = group "comment_start" (seq spaces (literal (codes "{#")))

unfoldable pub comment_end_pattern : Pattern
comment_end_pattern = seq (many_lazy (char_of (λ x. true))) (seq spaces (literal (codes "#}")))

unfoldable pub expr_start_pattern : Pattern
expr_start_pattern = group "expr_start" (seq (literal (codes "{{")) spaces)

unfoldable pub expr_end_pattern : Pattern
expr_end_pattern = group "expr_end" (seq spaces (literal (codes "}}")))

unfoldable pub block_start_pattern : Pattern
unfolding tag_open name_pattern
block_start_pattern = seq tag_open (
    seq (group "block_type_name" name_pattern)
      (optional (seq (some_of (char_of is_space)) (group "block_name" name_pattern))))

unfoldable pub raw_block_pattern : Pattern
unfolding tag_open tag_close
raw_block_pattern = seq tag_open (
    seq (literal (codes "raw")) (
      seq spaces (
        seq tag_close (
          seq (many_lazy (char_of (λ x. true)))
            (seq tag_open (seq (literal (codes "endraw")) (seq spaces tag_close)))))))

unfoldable pub tag_close_pattern : Pattern
unfolding tag_close
tag_close_pattern = group "tag_close" tag_close

-- `q([^q\\]*(?:\\.[^q\\]*)*)q` for a quote q
quoted : ℕ → Pattern
quoted q =
    let plain = many (char_of (λ x. not (x == q || x == b'\\'))) in
    seq (char q)
      (seq plain (seq (many (seq (char b'\\') (seq (char_of (λ x. true)) plain))) (char q)))

unfoldable pub string_pattern : Pattern
unfolding quoted
string_pattern = group "string" (alt (quoted b'\'') (quoted b'"'))

unfoldable pub quote_start_pattern : Pattern
quote_start_pattern = group "quote" (alt (char b'\'') (char b'"'))
