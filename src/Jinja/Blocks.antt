-- ===== src/Jinja/Blocks.antt =====
-- `BlockIterator` of dbt_common/clients/_jinja_blocks.py over the tags of a template. The generator
-- `find_blocks` is the list of what it yields, with the exception that ends it, if one does; the
-- warnings of the callback are collected beside them.
use dbt_common.Common.{
  ℕ, ◌+◌, Bool, false, ◌&&◌, Option, none, some, List, [], ◌∷◌, ◌++◌, Text, take, drop, any,
  if◌then◌else◌,
}
use dbt_common.Common.Codes.{codes}
use dbt_common.Jinja.Matches.{newlines}
use dbt_common.Jinja.Tags.{Tag, TagFault, text_eq, find_tags}

-- What the iterator yields. A block tag has a type, a name, the contents and the full block.
pub data Block : Type 0 where
  block_data : (contents : Text) → Block
  block_tag : (type_name : Text) → (name : Option Text) → (contents full_block : Text) → Block

pub data BlockFault : Type 0 where
  in_tags : TagFault → BlockFault
  unexpected_control_flow_end : Tag → Text → BlockFault
  missing_control_flow_start : Tag → Text → BlockFault
  block_definition_not_at_top : ℕ → BlockFault
  nested_tags : (outer inner : Tag) → BlockFault
  missing_close_tag : Text → ℕ → BlockFault

pub record BlockIterator : Type 0 where
  pub current : Option Tag
  pub stack : List Text
  pub last_position : ℕ

abbrev pub start_state : BlockIterator
start_state = record { current = none; stack = []; last_position = 0 }

-- `_CONTROL_FLOW_TAGS` and `_CONTROL_FLOW_END_TAGS`
abbrev control_flow_end : Text → Option Text
control_flow_end t =
    if text_eq t (codes "if")
    then some (codes "endif")
    else if text_eq t (codes "for")
    then some (codes "endfor")
    else none

abbrev control_flow_start : Text → Option Text
control_flow_start t =
    if text_eq t (codes "endif")
    then some (codes "if")
    else if text_eq t (codes "endfor")
    then some (codes "for")
    else none

abbrev starts_with_end : Text → Bool
starts_with_end t = text_eq (take 3 t) (codes "end")

-- `is_current_end`
pub is_current_end : Option Tag → Tag → Bool
is_current_end none tag = false
is_current_end (some current) tag =
    starts_with_end tag.block_type_name
    && text_eq (drop 3 tag.block_type_name) current.block_type_name

abbrev pub text_or_empty : Option Text → Text
text_or_empty none = []
text_or_empty (some t) = t

-- The stack of control flow tags behind a tag, the innermost one first, or the exception.
pub data Stacked : Type 0 where
  stacked : List Text → Stacked
  refused : BlockFault → Stacked

abbrev pop_stack : Tag → Text → List Text → Stacked
pop_stack tag start [] = refused (unexpected_control_flow_end tag start)
pop_stack tag start (found ∷ stack) =
    if text_eq (text_or_empty (control_flow_end found)) tag.block_type_name
    then stacked stack
    else refused (missing_control_flow_start tag (text_or_empty (control_flow_end found)))

pub control_flow : Tag → List Text → Stacked
control_flow tag stack = elim (control_flow_end tag.block_type_name) [
  | some _ ↦ stacked (tag.block_type_name ∷ stack)
  | none ↦ elim (control_flow_start tag.block_type_name) [
    | none ↦ stacked stack
    | some start ↦ pop_stack tag start stack
  ]
]

-- `self.data[a : b]`
abbrev pub slice : ℕ → ℕ → Text → Text
slice a b text = drop a (take b text)

-- `if raw_data: yield BlockData(raw_data)`
abbrev pub data_block : Text → List Block
data_block [] = []
data_block (c ∷ cs) = block_data (c ∷ cs) ∷ []

-- What the loop body does with a tag: what it yields, the state behind it, and the types of tags
-- that it warns of; or the exception.
pub data Round : Type 0 where
  yields : List Block → BlockIterator → List Text → Round
  fails : BlockFault → Round

module _ (text : Text) (allowed_blocks : List Text) (collect_raw_data : Bool) (warns : Bool) where
  -- The start of a top-level block, by the current block.
  abbrev pub open_block : Option Tag → Tag → BlockIterator → Round
  open_block (some outer) tag s = fails (nested_tags outer tag)
  open_block none tag s =
      if collect_raw_data
      then yields (data_block (slice s.last_position tag.start text))
          (record s { current = some tag; last_position = tag.start }) []
      else yields [] (record s { current = some tag }) []

  -- The end of the current block.
  abbrev close_block : Tag → Tag → BlockIterator → Round
  close_block current tag s =
      yields
        (block_tag current.block_type_name current.block_name (slice current.end tag.start text)
            (slice current.start tag.end text)
          ∷ [])
        (record s { current = none; last_position = tag.end }) []

  -- A tag that starts no block, by the current block.
  abbrev pub other_tag : Option Tag → Tag → BlockIterator → Round
  other_tag (some current) tag s =
      if is_current_end (some current) tag then close_block current tag s else yields [] s []
  other_tag none tag s = yields [] s (if warns then tag.block_type_name ∷ [] else [])

  -- A tag of an allowed type, by the stack.
  abbrev pub allowed_tag : List Text → Tag → BlockIterator → Round
  allowed_tag [] tag s = open_block s.current tag s
  allowed_tag (x ∷ xs) tag s = fails (block_definition_not_at_top tag.start)

  abbrev pub visit_stacked : Stacked → Tag → BlockIterator → Round
  visit_stacked (refused e) tag s = fails e
  visit_stacked (stacked stack) tag s =
      let s' = record s { stack = stack } in
      if any (text_eq tag.block_type_name) allowed_blocks
      then allowed_tag stack tag s'
      else other_tag s.current tag s'

  pub visit : Tag → BlockIterator → Round
  unfolding control_flow is_current_end
  visit tag s = visit_stacked (control_flow tag s.stack) tag s

  -- The code behind the loop, by the current block.
  abbrev pub finish : Option Tag → BlockIterator → List Block × Option BlockFault
  finish (some current) s =
      ([], some (missing_close_tag current.block_type_name (newlines (take current.end text) + 1)))
  finish none s =
      if collect_raw_data then (data_block (drop s.last_position text), none) else ([], none)

  unfoldable pub find_blocks_from :
      List Tag → Option TagFault → BlockIterator → List Block × Option BlockFault
  unfolding visit
  find_blocks_from [] (some e) s = ([], some (in_tags e))
  find_blocks_from [] none s = finish s.current s
  find_blocks_from (tag ∷ tags) e s = elim (visit tag s) [
    | fails f ↦ ([], some f)
    | yields bs s' ws ↦ let (rest, f) = find_blocks_from tags e s' in (bs ++ rest, f)
  ]

  -- The types of the tags that are warned of.
  unfoldable warnings_from : List Tag → BlockIterator → List Text
  unfolding visit
  warnings_from [] s = []
  warnings_from (tag ∷ tags) s = elim (visit tag s) [
    | fails f ↦ []
    | yields bs s' ws ↦ ws ++ warnings_from tags s'
  ]

  -- `find_blocks`, and with it `lex_for_blocks`, which makes a list of it
  unfoldable pub find_blocks : List Block × Option BlockFault
  unfolding find_blocks_from find_tags
  find_blocks = let (tags, e) = find_tags text in find_blocks_from tags e start_state

-- The default of `allowed_blocks`.
abbrev pub default_blocks : List Text
default_blocks = codes "snapshot" ∷ codes "macro" ∷ codes "materialization" ∷ codes "docs" ∷ []
