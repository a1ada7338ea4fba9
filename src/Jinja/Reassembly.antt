-- ===== src/Jinja/Reassembly.antt =====
-- The blocks of a template, joined (dbt_common/clients/_jinja_blocks.py).
use dbt_common.Common.{
  ℕ, zero, suc, ◌≤◌, Bool, true, Option, none, some, List, [], ◌∷◌, ◌++◌, ◌≡◌, refl, sym, ap, subst,
  ◌∙◌, arith, Text, drop, any, Bool-cases, inl, inr,
}
use native.Mathlib.Nat.{le_refl}
use mathlib.Core.List.{append_assoc, append-nil}
use dbt_common.Jinja.Tags.{Tag, TagFault, text_eq, find_tags}
use dbt_common.Jinja.Rounds.{InOrder, find_tags-InOrder}
use dbt_common.Jinja.Blocks.{
  Block, block_data, block_tag, BlockFault, BlockIterator, start_state, control_flow, Stacked,
  stacked, refused, slice, data_block, Round, yields, fails, open_block, allowed_tag, other_tag,
  is_current_end, visit_stacked, visit, finish, find_blocks_from, find_blocks,
}

-- The text that a block stands for, and the texts of blocks one after the other.
abbrev block_text : Block → Text
block_text (block_data contents) = contents
block_text (block_tag type_name name contents full_block) = full_block

abbrev pub joined : List Block → Text
joined [] = []
joined (b ∷ bs) = block_text b ++ joined bs

slice-drop : (a b : ℕ) (text : Text) → a ≤ b → slice a b text ++ drop b text ≡ drop a text
slice-drop zero zero text h = refl
slice-drop zero (suc b) [] h = refl
slice-drop zero (suc b) (c ∷ cs) h = ap (λ t. c ∷ t) (slice-drop zero b cs (omega arith))
slice-drop (suc a) zero text h = absurd (omega arith)
slice-drop (suc a) (suc b) [] h = refl
slice-drop (suc a) (suc b) (c ∷ cs) h = slice-drop a b cs (omega arith)

joined-append : (bs cs : List Block) → joined (bs ++ cs) ≡ joined bs ++ joined cs
joined-append [] cs = refl
joined-append (b ∷ bs) cs =
    rw (joined-append bs cs) (sym (append_assoc (block_text b) (joined bs) (joined cs)))

joined-data_block : (t : Text) → joined (data_block t) ≡ t
joined-data_block [] = refl
joined-data_block (c ∷ cs) = append-nil (c ∷ cs)

-- The current block, if there is one, starts where the text that is still to come starts.
abbrev StartsAt : ℕ → Option Tag → Type 0
StartsAt p none = Unit
StartsAt p (some current) = current.start ≡ p

-- The state of the loop before a tag at position p or later.
record IsReady (p : ℕ) (s : BlockIterator) : Type 0 where
  before : s.last_position ≤ p
  starts : StartsAt s.last_position s.current

-- A round yields the text between the two positions, and is ready for what follows the tag.
abbrev Consumes : Text → ℕ → ℕ → Round → Type 0
Consumes text end last (fails f) = Unit
Consumes text end last (yields bs s' ws) =
    IsReady end s' × (joined bs ++ drop s'.last_position text ≡ drop last text)

later-IsReady : {p q : ℕ} {s : BlockIterator} → p ≤ q → IsReady p s → IsReady q s
later-IsReady h r = record { before = omega (arith, r.before); starts = r.starts }

no_fault {ℓ} :
    {A : Type ℓ} {bs bs' : List Block} {f : BlockFault}
    → ◌≡◌ {A = List Block × Option BlockFault} (bs, some f) (bs', none)
    → A
no_fault q = cc (ap (λ r. r.1) q)

module _ (text : Text) (allowed_blocks : List Text) (warns : Bool) where
  module _ (tag : Tag) (p : ℕ) (h : p ≤ tag.start) (k : tag.start ≤ tag.end) where
    open_block-Consumes :
        (current : Option Tag) (s : BlockIterator)
        → IsReady p s
        → Consumes text tag.end s.last_position
            (open_block text allowed_blocks true warns current tag s)
    open_block-Consumes (some outer) s r = tt
    open_block-Consumes none s r = (
      record { before = k; starts = refl },
      rw joined-data_block (slice-drop s.last_position tag.start text (omega (arith, r.before))),
    )

    allowed_tag-Consumes :
        (stack : List Text) (s : BlockIterator)
        → IsReady p s
        → Consumes text tag.end s.last_position
            (allowed_tag text allowed_blocks true warns stack tag s)
    allowed_tag-Consumes [] s r = open_block-Consumes s.current s r
    allowed_tag-Consumes (x ∷ xs) s r = tt

    other_tag-Consumes :
        (current : Option Tag) (s : BlockIterator)
        → s.current ≡ current
        → IsReady p s
        → Consumes text tag.end s.last_position
            (other_tag text allowed_blocks true warns current tag s)
    other_tag-Consumes none s e r = (later-IsReady (omega arith) r, refl)
    other_tag-Consumes (some current) s e r =
        elim (Bool-cases (is_current_end (some current) tag)) [
          | inl closes ↦
              let starts : current.start ≡ s.last_position =
                subst (StartsAt s.last_position) e r.starts in
              rw closes (
                record { before = le_refl tag.end; starts = tt },
                rw append-nil (
                    slice-drop current.start tag.end text (omega (arith, r.before))
                    ∙ ap (λ n. drop n text) starts),
              )
          | inr other ↦ rw other (later-IsReady (omega arith) r, refl)
        ]

    stacked-Consumes :
        (st : Stacked) (s : BlockIterator)
        → IsReady p s
        → Consumes text tag.end s.last_position
            (visit_stacked text allowed_blocks true warns st tag s)
    stacked-Consumes (refused f) s r = tt
    stacked-Consumes (stacked stack) s r =
        let s' : BlockIterator = record s { stack = stack } in
        let r' : IsReady p s' = record { before = r.before; starts = r.starts } in
        elim (Bool-cases (any (text_eq tag.block_type_name) allowed_blocks)) [
          | inl allowed ↦ rw allowed (allowed_tag-Consumes stack s' r')
          | inr other ↦ rw other (other_tag-Consumes s.current s' refl r')
        ]

  finish-joined :
      (current : Option Tag) (s : BlockIterator) (bs : List Block)
      → finish text allowed_blocks true warns current s ≡ (bs, none)
      → joined bs ≡ drop s.last_position text
  finish-joined (some current) s bs q = no_fault q
  finish-joined none s bs q = rw (← ap (λ r. r.0) q) (joined-data_block (drop s.last_position text))

  -- The rounds behind a round that did not fail.
  after_visit :
      (tag : Tag) (tags : List Tag) (e : Option TagFault) (s : BlockIterator) (bs : List Block)
      (r : Round)
      → visit text allowed_blocks true warns tag s ≡ r
      → Consumes text tag.end s.last_position r
      → ((s' : BlockIterator) (bs' : List Block)
          → IsReady tag.end s'
          → find_blocks_from text allowed_blocks true warns tags e s' ≡ (bs', none)
          → joined bs' ≡ drop s'.last_position text)
      → find_blocks_from text allowed_blocks true warns (tag ∷ tags) e s ≡ (bs, none)
      → joined bs ≡ drop s.last_position text
  unfolding find_blocks_from
  after_visit tag tags e s bs (fails f) v c ih q = no_fault (rw (v, find_blocks_from) at q)
  after_visit tag tags e s bs (yields bs₁ s' ws) v (r, c) ih q =
      let rest : List Block × Option BlockFault =
        find_blocks_from text allowed_blocks true warns tags e s' in
      let q' : ◌≡◌ {A = List Block × Option BlockFault} (bs₁ ++ rest.0, rest.1) (bs, none) =
        rw (v, find_blocks_from) at q in
      sym (ap (λ x. joined x.0) q')
      ∙ joined-append bs₁ rest.0
      ∙ ap (λ t. joined bs₁ ++ t) (ih s' rest.0 r (ap (λ f. (rest.0, f)) (ap (λ x. x.1) q')))
      ∙ c

  joined-find_blocks_from :
      (tags : List Tag) (e : Option TagFault) (p : ℕ) (s : BlockIterator) (bs : List Block)
      → InOrder p tags
      → IsReady p s
      → find_blocks_from text allowed_blocks true warns tags e s ≡ (bs, none)
      → joined bs ≡ drop s.last_position text
  unfolding find_blocks_from
  joined-find_blocks_from [] (some e) p s bs o r q = no_fault q
  joined-find_blocks_from [] none p s bs o r q = finish-joined s.current s bs q
  joined-find_blocks_from (tag ∷ tags) e p s bs (h, k, o) r q =
      after_visit tag tags e s bs (visit text allowed_blocks true warns tag s) refl
        (stacked-Consumes tag p h k (control_flow tag s.stack) s r)
        (λ s' bs' r' q'. joined-find_blocks_from tags e tag.end s' bs' o r' q') q

-- Blocks that find_blocks returns with raw data collected and without an error put the template together again.
pub joined-find_blocks :
    (text : Text) (allowed_blocks : List Text) (warns : Bool) (bs : List Block)
    → find_blocks text allowed_blocks true warns ≡ (bs, none)
    → joined bs ≡ text
unfolding find_blocks
joined-find_blocks text allowed_blocks warns bs q =
    joined-find_blocks_from text allowed_blocks warns (find_tags text).0 (find_tags text).1 0
      start_state bs (find_tags-InOrder text) record { before = le_refl 0; starts = tt } q
