-- ===== src/Jinja/Rounds.antt =====
-- The handlers and the rounds of `find_tags` of `TagIterator`
-- (dbt_common/clients/_jinja_blocks.py), and where the tags that it yields lie.
use dbt_common.Common.{
  All, ℕ, zero, suc, ◌≤◌, ◌<◌, Option, none, some, List, [], ◌∷◌, Text, length, ◌≡◌, ◌≢◌, refl, ap,
  ◌∙◌, arith, Bool-cases, inl, inr,
}
use dbt_common.Common.Dict.{lookup}
use dbt_common.Common.Codes.{codes}
use dbt_common.Common.Outcome.{Outcome, ok, raise}
use dbt_common.Regex.{Match}
use dbt_common.Regex.Progress.{IsFound}
use dbt_common.Jinja.Matches.{
  Key, comment_start, comment_end, expr_start, block_start, raw_block, TagIterator, tag_iterator,
  advance, first_match,
}
use dbt_common.Jinja.Tags.{
  TagFault, out_of_fuel, Step, ◌>>=◌, move_to, expect_match, has_group, expr_loop, handle_expr,
  handle_comment, expect_block_close, Tag, text_eq, group_or_empty, close_tag, handle_tag, at_end,
  skipped, a_tag, Found, after_skip, pure, dispatch, next_found, find_tag, Tags, find_tags_from,
  find_tags,
}
use dbt_common.Jinja.Cache.{IsSound, IsSame, tag_iterator-IsSound, first_match-IsFound}
use dbt_common.Jinja.Progress.{
  Moves, Meets, chain-Meets, map-Meets, past_match, Forward, Forward-Meets, Enough, after-Enough,
  expect_end-Meets, expr_loop-Meets, expect_block_close-Meets, ahead,
}

-- Tags one after the other, from a position on.
abbrev pub InOrder : ℕ → List Tag → Type 0
InOrder p [] = Unit
InOrder p (t ∷ ts) = (p ≤ t.start) × (t.start ≤ t.end) × InOrder t.end ts

-- What a round finds lies behind the position where the round starts.
abbrev Finds : TagIterator → Found → TagIterator → Type 0
Finds t at_end u = Unit
Finds t skipped u = Moves 1 t u
Finds t (a_tag tag) u =
    (t.pos ≤ tag.start) × (tag.start ≤ tag.end) × (tag.end ≡ u.pos) × Moves 1 t u

-- A handler starts where the match that it handles starts, and ends behind it.
module _ (fuel : ℕ) (m : Match) (t : TagIterator) (s : IsSound t)
    (f : IsFound 1 t.pos t.text (some m)) (h : length t.text < fuel) where
  behind_match : Moves 1 t (advance m.end t)
  behind_match = past_match t t m f record { text = refl; pos = refl; sound = s }

  ample : (u : TagIterator) → u.text ≡ t.text → Enough fuel u
  ample u e = let e' : length u.text ≡ length t.text = ap length e in omega (arith, e', h)

  handle_comment-Meets : Meets (Forward 1 t) (handle_comment m t)
  unfolding handle_comment
  handle_comment-Meets =
      Forward-Meets 1 1 t (advance m.end t)
        ((expect_match "#}" (comment_end ∷ []) >>= λ e. move_to e.end) (advance m.end t))
        behind_match (expect_end-Meets "#}" (comment_end ∷ []) (advance m.end t) behind_match.sound)

  handle_expr-Meets : Meets (Forward 1 t) (handle_expr fuel m t)
  unfolding handle_expr
  handle_expr-Meets =
      Forward-Meets 1 0 t (advance m.end t) (expr_loop fuel (advance m.end t)) behind_match (
        expr_loop-Meets fuel (advance m.end t) behind_match.sound
          (ample (advance m.end t) behind_match.text))

  close_tag-Meets : Meets (Forward 1 t) (close_tag fuel m t)
  unfolding close_tag
  close_tag-Meets = elim (Bool-cases (text_eq (group_or_empty "block_type_name" m) (codes "raw"))) [
    | inl raw ↦ rw raw (expect_end-Meets "{% raw %}...{% endraw %}" (raw_block ∷ []) t s)
    | inr other ↦ rw other (
        Forward-Meets 1 0 t (advance m.end t) (expect_block_close fuel (advance m.end t))
          behind_match
          (expect_block_close-Meets fuel (advance m.end t) behind_match.sound
            (ample (advance m.end t) behind_match.text)))
  ]

  -- A tag starts at the position before it and ends at the position behind it.
  IsTag : Tag → TagIterator → Type 0
  IsTag tag u = (tag.start ≡ t.pos) × (tag.end ≡ u.pos) × Moves 1 t u

  handle_tag-Meets : Meets IsTag (handle_tag fuel m t)
  unfolding handle_tag IsTag
  handle_tag-Meets =
      chain-Meets (Forward 1 t) IsTag (close_tag fuel m)
        (λ _. λ u. ok (
          record {
            block_type_name = group_or_empty "block_type_name" m;
            block_name = lookup "block_name" m.groups;
            start = t.pos;
            end = u.pos;
          },
          u,
        ))
        t close_tag-Meets (λ _ u i. (refl, refl, i))

  skip-Meets :
      (step : Step (Unit {0})) → Meets (Forward 1 t) (step t) → Meets (Finds t) (after_skip step t)
  skip-Meets step w = chain-Meets (Forward 1 t) (Finds t) step (λ _. pure skipped) t w (λ _ u i. i)

  dispatch-Meets : Meets (Finds t) (dispatch fuel m t)
  unfolding dispatch IsTag
  dispatch-Meets = elim (Bool-cases (has_group "comment_start" m)) [
    | inl comment ↦ rw comment (skip-Meets (handle_comment m) handle_comment-Meets)
    | inr no_comment ↦ rw no_comment (elim (Bool-cases (has_group "expr_start" m)) [
      | inl expr ↦ rw expr (skip-Meets (handle_expr fuel m) handle_expr-Meets)
      | inr no_expr ↦ rw no_expr (elim (Bool-cases (has_group "block_type_name" m)) [
        | inl block ↦ rw block (
            chain-Meets IsTag (Finds t) (handle_tag fuel m) (λ tag. pure (a_tag tag)) t
              handle_tag-Meets
              (λ tag u (a, b, i). (omega (arith, a), omega (arith, a, b, i.further), b, i)))
        | inr no_block ↦ rw no_block (λ e. cc)
      ])
    ])
  ]

Finds-behind :
    (t v : TagIterator) → Moves 0 t v → (r : Found) (u : TagIterator) → Finds v r u → Finds t r u
Finds-behind t v i at_end u r = tt
Finds-behind t v i skipped u r = ahead t v u i r
Finds-behind t v i (a_tag tag) u (a, b, c, d) = (omega (arith, a, i.further), b, c, ahead t v u i d)

-- One round of `find_tags`, from an iterator.
module _ (fuel : ℕ) (t : TagIterator) (s : IsSound t) (h : length t.text < fuel) where
  -- The iterator at the start of a match.
  at_match :
      (m : Match) (u : TagIterator)
      → IsFound 1 t.pos t.text (some m)
      → IsSame t u
      → Moves 0 t (advance m.start u)
  unfolding advance
  at_match m u (a, b, c) i = record {
    text = i.text;
    further = omega (arith, a);
    sound = record { inside = rw i.text (omega (arith, b, c)); kept = i.sound.kept };
  }

  handled :
      (m : Match) (v : TagIterator)
      → Moves 0 t v
      → IsFound 1 v.pos v.text (some m)
      → Meets (Finds t) (dispatch fuel m v)
  handled m v i f =
      map-Meets (Finds v) (Finds t) (dispatch fuel m v) (Finds-behind t v i)
        (dispatch-Meets fuel m v i.sound f (rw i.text h))

  next_found-Meets :
      (r : Option Match × TagIterator)
      → IsFound 1 t.pos t.text r.0
      → IsSame t r.1
      → Meets (Finds t) (next_found fuel r)
  next_found-Meets (none, u) f i = tt
  next_found-Meets (some m, u) (a, b, c) i =
      handled m (advance m.start u) (at_match m u (a, b, c) i)
        (unfold advance in (omega arith, b, rw i.text c))

  find_tag-Meets : Meets (Finds t) (find_tag fuel t)
  unfolding find_tag
  find_tag-Meets =
      let ks : List Key = block_start ∷ comment_start ∷ expr_start ∷ [] in
      let (f, i) = first_match-IsFound ks t s in next_found-Meets (first_match ks t) f i

-- A tag that ends at a position, or before it.
abbrev pub EndsBy : ℕ → Tag → Type 0
EndsBy n tag = tag.end ≤ n

-- Tags one after the other, without the end of the fuel.
abbrev AreTags : ℕ → ℕ → Tags → Type 0
AreTags n p (tags, e) = InOrder p tags × All (EndsBy n) tags × ¬ (e ≡ some out_of_fuel)

later-InOrder : (p q : ℕ) (tags : List Tag) → p ≤ q → InOrder q tags → InOrder p tags
later-InOrder p q [] l o = tt
later-InOrder p q (tag ∷ tags) l (a, b, o) = (omega (arith, l, a), b, o)

module _ (fuel : ℕ) (n : ℕ) (h : n < fuel) where
  module _ (rounds : ℕ)
      (ih : (u : TagIterator)
        → IsSound u
        → length u.text ≡ n
        → Enough rounds u
        → AreTags n u.pos (find_tags_from fuel rounds u))
      (t : TagIterator) (s : IsSound t) (e : length t.text ≡ n) (l : Enough (suc rounds) t) where
    rest : (u : TagIterator) → Moves 1 t u → AreTags n u.pos (find_tags_from fuel rounds u)
    rest u r = ih u r.sound (ap length r.text ∙ e) (after-Enough rounds t u s r l)

    after_round :
        (o : Outcome TagFault (Found × TagIterator))
        → find_tag fuel t ≡ o
        → Meets (Finds t) o
        → AreTags n t.pos (find_tags_from fuel (suc rounds) t)
    unfolding find_tags_from
    after_round (raise f) q r = rw (q, find_tags_from) (tt, tt, λ d. r cc)
    after_round (ok (at_end, u)) q r = rw (q, find_tags_from) (tt, tt, λ d. cc)
    after_round (ok (skipped, u)) q r =
        let (o, b', f) = rest u r in
        rw (q, find_tags_from)
          (
            later-InOrder t.pos u.pos (find_tags_from fuel rounds u).0 (omega (arith, r.further)) o,
            b',
            f,
          )
    after_round (ok (a_tag tag, u)) q (a, b, c, r) =
        let (o, b', f) = rest u r in
        let size : length u.text ≡ n = ap length r.text ∙ e in
        rw (q, find_tags_from) ((a, b, rw c o), (omega (arith, c, r.sound.inside, size), b'), f)

  find_tags_from-AreTags :
      (rounds : ℕ) (t : TagIterator)
      → IsSound t
      → length t.text ≡ n
      → Enough rounds t
      → AreTags n t.pos (find_tags_from fuel rounds t)
  find_tags_from-AreTags zero t s e l = absurd (omega (arith, l))
  find_tags_from-AreTags (suc rounds) t s e l =
      after_round rounds (find_tags_from-AreTags rounds) t s e l (find_tag fuel t) refl
        (find_tag-Meets fuel t s (omega (arith, e, h)))

find_tags-AreTags : (text : Text) → AreTags (length text) 0 (find_tags text)
unfolding find_tags
find_tags-AreTags text =
    find_tags_from-AreTags (suc (length text)) (length text) (omega arith) (suc (length text))
      (tag_iterator text) (tag_iterator-IsSound text) refl (omega arith)

-- The tags of any template come one after the other: each starts where the one before it ends, or later, and ends where it starts, or later.
pub find_tags-InOrder : (text : Text) → InOrder 0 (find_tags text).0
find_tags-InOrder text = (find_tags-AreTags text).0

-- Every tag of any template ends in the template: at its length at most.
pub find_tags-EndsBy : (text : Text) → All (EndsBy (length text)) (find_tags text).0
find_tags-EndsBy text = (find_tags-AreTags text).1

-- The search for the tags of any template ends by itself: the fuel of its loops is not used up.
pub find_tags_ends : (text : Text) → (find_tags text).1 ≢ some out_of_fuel
find_tags_ends text = (find_tags-AreTags text).2
