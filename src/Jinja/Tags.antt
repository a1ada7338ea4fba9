-- ===== src/Jinja/Tags.antt =====
-- The handlers of `TagIterator` in dbt_common/clients/_jinja_blocks.py. A step returns its result
-- with the iterator behind it, or raises. The `while True` loops take fuel; `out_of_fuel` says that
-- it ran out.
use dbt_common.Common.{
  ℕ, zero, suc, Bool, true, false, ◌&&◌, Option, none, some, List, [], ◌∷◌, Text, length, drop,
  ◌==◌, if◌then◌else◌, String,
}
use dbt_common.Common.Dict.{lookup, has}
use dbt_common.Common.Codes.{codes}
use dbt_common.Common.Outcome.{Outcome, ok, raise}
use dbt_common.Regex.{Match}
use dbt_common.Jinja.Matches.{
  Key, comment_start, comment_end, expr_start, expr_end, block_start, raw_block, tag_close, string,
  quote_start, TagIterator, tag_iterator, advance, rewind, first_match,
}

pub data TagFault : Type 0 where
  unexpected_macro_eof : (expected : String) → Text → TagFault
  invalid_match : TagFault
  out_of_fuel : TagFault

abbrev pub Step : Type 0 → Type 0
Step A = TagIterator → Outcome TagFault (A × TagIterator)

infixl 5 ◌>>=◌ ◌>>◌
abbrev pub ◌>>=◌ : {A B : Type 0} → Step A → (A → Step B) → Step B
◌>>=◌ m f t = elim (m t) [ ok (a, t') ↦ f a t' | raise e ↦ raise e ]

abbrev pub ◌>>◌ : {B : Type 0} → Step (Unit {0}) → Step B → Step B
m >> n = m >>= λ _. n

abbrev pub pure : {A : Type 0} → A → Step A
pure a t = ok (a, t)

abbrev pub move_to : ℕ → Step (Unit {0})
move_to p t = ok (tt, advance p t)

abbrev pub expected : String → Option Match × TagIterator → Outcome TagFault (Match × TagIterator)
expected name (none, t) = raise (unexpected_macro_eof name (drop t.pos t.text))
expected name (some m, t) = ok (m, t)

unfoldable pub expect_match : String → List Key → Step Match
unfolding first_match
expect_match name ks t = expected name (first_match ks t)

-- `match.groupdict().get(name) is not None`
unfoldable pub has_group : String → Match → Bool
unfolding has
has_group name m = has name m.groups

-- The loop of `handle_expr`.
unfoldable pub expr_loop : ℕ → Step (Unit {0})
unfolding expect_match has_group
expr_loop zero t = raise out_of_fuel
expr_loop (suc fuel) t =
    (expect_match "}}" (expr_end ∷ quote_start ∷ []) >>= λ m. λ u. elim (has_group "expr_end" m) [
      | true ↦ move_to m.end u
      | false ↦
          (expect_match "string" (string ∷ []) >>= λ s. λ v. expr_loop fuel (advance s.end v)) u
    ])
      t

unfoldable pub handle_expr : ℕ → Match → Step (Unit {0})
unfolding expr_loop advance
handle_expr fuel m = move_to m.end >> expr_loop fuel

unfoldable pub handle_comment : Match → Step (Unit {0})
unfolding expect_match advance
handle_comment m = do move_to m.end; e ← expect_match "#}" (comment_end ∷ []); move_to e.end

unfoldable pub expect_block_close : ℕ → Step (Unit {0})
unfolding expect_match has_group rewind
expect_block_close zero t = raise out_of_fuel
expect_block_close (suc fuel) t =
    (expect_match "tag close (\"%}\")" (quote_start ∷ tag_close ∷ []) >>= λ m. λ u.
        elim (has_group "tag_close" m) [
          | true ↦ move_to m.end u
          | false ↦
              (expect_match "string" (string ∷ []) >>= λ s.
              λ v. expect_block_close fuel (advance s.end v))
                (rewind 1 (advance m.end u))
        ])
      t

pub record Tag : Type 0 where
  pub block_type_name : Text
  pub block_name : Option Text
  pub start : ℕ
  pub end : ℕ

abbrev pub text_eq : Text → Text → Bool
text_eq [] [] = true
text_eq (a ∷ as') (b ∷ bs) = a == b && text_eq as' bs
text_eq _ _ = false

abbrev pub group_or_empty : String → Match → Text
group_or_empty name m = elim (lookup name m.groups) [ none ↦ [] | some t ↦ t ]

-- The end of a tag: a raw block is one match, any other tag is closed.
unfoldable pub close_tag : ℕ → Match → Step (Unit {0})
unfolding expect_match expect_block_close advance lookup
close_tag fuel m =
    if text_eq (group_or_empty "block_type_name" m) (codes "raw")
    then (do e ← expect_match "{% raw %}...{% endraw %}" (raw_block ∷ []); move_to e.end)
    else (do move_to m.end; expect_block_close fuel)

unfoldable pub handle_tag : ℕ → Match → Step Tag
unfolding close_tag lookup
handle_tag fuel m t =
    (close_tag fuel m >>= λ _. λ u. ok (
      record {
        block_type_name = group_or_empty "block_type_name" m;
        block_name = lookup "block_name" m.groups;
        start = t.pos;
        end = u.pos;
      },
      u,
    ))
      t

-- What one round of `find_tags` finds: the end of the template, something to skip, or a tag.
pub data Found : Type 0 where
  at_end skipped : Found
  a_tag : Tag → Found

abbrev pub after_skip : Step (Unit {0}) → Step Found
after_skip m = m >>= λ _. pure skipped

unfoldable pub dispatch : ℕ → Match → Step Found
unfolding handle_comment handle_expr handle_tag has_group
dispatch fuel m =
    if has_group "comment_start" m
    then after_skip (handle_comment m)
    else if has_group "expr_start" m
    then after_skip (handle_expr fuel m)
    else if has_group "block_type_name" m
    then (handle_tag fuel m >>= λ tag. pure (a_tag tag))
    else (λ t. raise invalid_match)

abbrev pub next_found : ℕ → Option Match × TagIterator → Outcome TagFault (Found × TagIterator)
next_found fuel (none, t) = ok (at_end, t)
next_found fuel (some m, t) = dispatch fuel m (advance m.start t)

unfoldable pub find_tag : ℕ → Step Found
unfolding first_match dispatch advance
find_tag fuel t = next_found fuel (first_match (block_start ∷ comment_start ∷ expr_start ∷ []) t)

-- The generator `find_tags`: the tags that it yields, and the exception that ends it, if one does.
abbrev pub Tags : Type 0
Tags = List Tag × Option TagFault

unfoldable pub find_tags_from : ℕ → ℕ → TagIterator → Tags
unfolding find_tag
find_tags_from fuel zero t = ([], some out_of_fuel)
find_tags_from fuel (suc rounds) t = elim (find_tag fuel t) [
  | raise e ↦ ([], some e)
  | ok (at_end, t') ↦ ([], none)
  | ok (skipped, t') ↦ find_tags_from fuel rounds t'
  | ok (a_tag tag, t') ↦ let (tags, e) = find_tags_from fuel rounds t' in (tag ∷ tags, e)
]

-- The fuel is one more than the length of the text: every round of every loop moves on.
unfoldable pub find_tags : Text → Tags
unfolding find_tags_from
find_tags text = find_tags_from (suc (length text)) (suc (length text)) (tag_iterator text)
