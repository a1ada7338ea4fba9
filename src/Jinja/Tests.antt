-- ===== src/Jinja/Tests.antt =====
-- Runs of the block lexer, and the theorem about it at a concrete template.
use dbt_common.Common.{
  All, length, ◌≢◌, Option, ◌≡◌, refl, arith, true, false, some, none, List, [], ◌∷◌, Text,
}
use dbt_common.Common.Codes.{codes}
use dbt_common.Regex.{search}
use dbt_common.Jinja.Matches.{
  Key, comment_start, comment_end, expr_start, expr_end, block_start, raw_block, tag_close, string,
  quote_start, pattern_of, PositionedMatch, TagIterator, search_and_cache, search_key,
}
use dbt_common.Jinja.Tags.{out_of_fuel, find_tags}
use dbt_common.Jinja.Blocks.{Block, block_data, block_tag, find_blocks, default_blocks}
use dbt_common.Jinja.Reassembly.{joined, joined-find_blocks}
use dbt_common.Jinja.Rounds.{InOrder, EndsBy, find_tags-EndsBy, find_tags-InOrder, find_tags_ends}
use dbt_common.Jinja.Cache.{searched, IsKept, IsSound, IsSame, search_key-eq-searched}

abbrev macro_file : Text
macro_file = codes "a {% macro foo() %}x {{ \"%}\" }}{% endmacro %}b"

abbrev macro_blocks : List Block
macro_blocks =
    block_data (codes "a ")
    ∷ block_tag (codes "macro") (some (codes "foo")) (codes "x {{ \"%}\" }}")
        (codes "{% macro foo() %}x {{ \"%}\" }}{% endmacro %}")
    ∷ block_data (codes "b")
    ∷ []

macro_run : find_blocks macro_file default_blocks true false ≡ (macro_blocks, none)
unfolding find_blocks search_and_cache search pattern_of
macro_run = refl

joined-find_blocks_example : joined macro_blocks ≡ macro_file
joined-find_blocks_example =
    joined-find_blocks macro_file default_blocks false macro_blocks macro_run

abbrev two_tags : Text
two_tags = codes "{{ x }}{#a#}"

-- A cache that holds a result from the start of the template.
abbrev kept_matches : Key → Option PositionedMatch
kept_matches comment_start =
    some (record { start_pos = 0; match = search (pattern_of comment_start) two_tags 0 })
kept_matches _ = none

abbrev later_on : TagIterator
later_on = record { text = two_tags; pos = 4; past_matches = kept_matches }

kept_matches-IsKept : (k : Key) → IsKept two_tags k (kept_matches k)
kept_matches-IsKept comment_start = refl
kept_matches-IsKept comment_end = tt
kept_matches-IsKept expr_start = tt
kept_matches-IsKept expr_end = tt
kept_matches-IsKept block_start = tt
kept_matches-IsKept raw_block = tt
kept_matches-IsKept tag_close = tt
kept_matches-IsKept string = tt
kept_matches-IsKept quote_start = tt

later_on-IsSound : IsSound later_on
later_on-IsSound = record { inside = omega arith; kept = kept_matches-IsKept }

search_key-eq-searched_example :
    ((search_key comment_start later_on).0 ≡ searched comment_start later_on)
    × IsSame later_on (search_key comment_start later_on).1
search_key-eq-searched_example = search_key-eq-searched comment_start later_on later_on-IsSound

find_tags-InOrder_example : InOrder 0 (find_tags macro_file).0
find_tags-InOrder_example = find_tags-InOrder macro_file

find_tags-EndsBy_example : All (EndsBy (length macro_file)) (find_tags macro_file).0
find_tags-EndsBy_example = find_tags-EndsBy macro_file

find_tags_ends_example : (find_tags macro_file).1 ≢ some out_of_fuel
find_tags_ends_example = find_tags_ends macro_file
