-- ===== src/Templates/Cache.antt =====
-- `TemplateCache`, and the cache of `extract_toplevel_blocks` that tests may turn on, in
-- dbt_common/clients/jinja.py.
use Prim.Native.Nat.{ℕ, ◌+◌}
use Prim.Native.String.{String}
use text.Mathlib.Text.{◌==◌ as str_eq}
use dbt_common.Common.{
  eq_refl, Bool, true, false, Option, none, some, List, [], ◌∷◌, ◌≡◌, refl, sym, ap, ◌∙◌, Text,
  if◌then◌else◌, ◌==◌, Option-cases, inl, inr, arith,
}
use dbt_common.Common.Dict.{Dict, lookup, insert, lookup-insert}
use dbt_common.Common.Outcome.{Outcome, ok, raise, ok-injective}
use dbt_common.Jinja.Blocks.{Block, BlockFault, find_blocks, default_blocks}

-- `get_template` on the text of a macro and its node, with the empty context, is a parameter: it
-- compiles the text with an environment of the Jinja library.
module _ {N T E : Type 0} (macro_sql : N → String) (get_template : String → N → Outcome E T) where
  abbrev kept : String → Dict T → Outcome E T → Outcome E T × Dict T
  kept key file_cache (ok template) = (ok template, insert key template file_cache)
  kept key file_cache (raise e) = (raise e, file_cache)

  unfoldable pub get_node_template : N → Dict T → Outcome E T × Dict T
  get_node_template node file_cache = elim (lookup (macro_sql node) file_cache) [
    | some template ↦ (ok template, file_cache)
    | none ↦ kept (macro_sql node) file_cache (get_template (macro_sql node) node)
  ]

  lookup-kept :
      (key : String) (file_cache : Dict T) (o : Outcome E T) (t : T)
      → (kept key file_cache o).0 ≡ ok t
      → lookup key (kept key file_cache o).1 ≡ some t
  lookup-kept key file_cache (ok u) t e =
      let same : str_eq key key ≡ true = eq_refl key in
      rw (lookup-insert key key u file_cache, same) (ap some (ok-injective e))
  lookup-kept key file_cache (raise f) t e = cc

  found_again :
      (node other : N) (file_cache : Dict T) (t : T)
      → lookup (macro_sql node) file_cache ≡ some t
      → macro_sql other ≡ macro_sql node
      → (get_node_template other file_cache).0 ≡ ok t
  unfolding get_node_template
  found_again node other file_cache t l s = rw (get_node_template, s, l) refl

  -- After a node got its template, every node with the same macro_sql gets that template from the cache, also where get_template would give it another one.
  pub get_node_template-again :
      (node other : N) (file_cache : Dict T) (t : T)
      → (get_node_template node file_cache).0 ≡ ok t
      → macro_sql other ≡ macro_sql node
      → (get_node_template other (get_node_template node file_cache).1).0 ≡ ok t
  unfolding get_node_template
  get_node_template-again node other file_cache t e s =
      found_again node other (get_node_template node file_cache).1 t
        (elim (Option-cases (lookup (macro_sql node) file_cache)) [
          | inl absent ↦
              rw (get_node_template, absent)
                (lookup-kept (macro_sql node) file_cache (get_template (macro_sql node) node) t
                  (rw (get_node_template, absent) at e))
          | inr (u, l) ↦
              rw (get_node_template, l)
                (l ∙ ap some (ok-injective (rw (get_node_template, l) at e)))
        ])
        s

-- The hashes of Python are parameters, as natural numbers; `sorted_tuple` hashes the sorted names.
pub record Hashes : Type 0 where
  pub text : Text → ℕ
  pub sorted_tuple : List Text → ℕ
  pub bool : Bool → ℕ

abbrev or_no_blocks : Option (List Text) → List Text
or_no_blocks none = []
or_no_blocks (some names) = names

-- `_get_blocks_hash`
unfoldable pub get_blocks_hash : Hashes → Text → Option (List Text) → Bool → ℕ
get_blocks_hash hashes text allowed_blocks collect_raw_data =
    hashes.text text
    + hashes.sorted_tuple (or_no_blocks allowed_blocks)
    + hashes.bool collect_raw_data

abbrev pub BlocksCache : Type 0
BlocksCache = List (ℕ × List Block)

abbrev find_hash : ℕ → BlocksCache → Option (List Block)
find_hash hash [] = none
find_hash hash ((h, blocks) ∷ cache) = if h == hash then some blocks else find_hash hash cache

abbrev or_default_blocks : Option (List Text) → List Text
or_default_blocks none = default_blocks
or_default_blocks (some names) = names

abbrev cached_if :
    Bool
    → ℕ
    → BlocksCache
    → List Block × Option BlockFault
    → Outcome BlockFault (List Block) × BlocksCache
cached_if caching hash cache (blocks, some e) = (raise e, cache)
cached_if true hash cache (blocks, none) = (ok blocks, (hash, blocks) ∷ cache)
cached_if false hash cache (blocks, none) = (ok blocks, cache)

abbrev pub known : Bool → ℕ → BlocksCache → Option (List Block)
known true hash cache = find_hash hash cache
known false hash cache = none

-- `extract_toplevel_blocks`, without what it warns of.
unfoldable pub extract_toplevel_blocks :
    Hashes
    → (caching : Bool) → Text
    → Option (List Text)
    → Bool
    → BlocksCache
    → Outcome BlockFault (List Block) × BlocksCache
unfolding get_blocks_hash find_blocks
extract_toplevel_blocks hashes caching text allowed_blocks collect_raw_data cache =
    let hash = get_blocks_hash hashes text allowed_blocks collect_raw_data in
    elim (known caching hash cache) [
      | some blocks ↦ (ok blocks, cache)
      | none ↦
          cached_if caching hash cache
            (find_blocks text (or_default_blocks allowed_blocks) collect_raw_data false)
    ]

-- A cache that an extraction has put its blocks in.
cached_if-ok :
    (hash : ℕ) (r : List Block × Option BlockFault) (blocks : List Block) (cache : BlocksCache)
    → cached_if true hash [] r ≡ (ok blocks, cache)
    → cache ≡ (hash, blocks) ∷ []
cached_if-ok hash (found, some e) blocks cache q = cc (ap (λ x. x.0) q)
cached_if-ok hash (found, none) blocks cache q =
    let e : found ≡ blocks = ok-injective (ap (λ x. x.0) q) in
    sym (ap (λ x. x.1) q) ∙ ap (λ b. (hash, b) ∷ []) e

first_found : (hash : ℕ) (blocks : List Block) → find_hash hash ((hash, blocks) ∷ []) ≡ some blocks
first_found hash blocks = let same : (hash == hash) ≡ true = ground arith in rw same refl

-- With the cache for tests turned on, and empty at first, the blocks that are extracted from a text with the default block types are returned again when no block types at all are allowed.
pub extract_toplevel_blocks-none_allowed :
    (hashes : Hashes) (text : Text) (collect_raw_data : Bool) (blocks : List Block)
    (cache : BlocksCache)
    → extract_toplevel_blocks hashes true text none collect_raw_data [] ≡ (ok blocks, cache)
    → extract_toplevel_blocks hashes true text (some []) collect_raw_data cache ≡ (ok blocks, cache)
unfolding extract_toplevel_blocks get_blocks_hash
extract_toplevel_blocks-none_allowed hashes text collect_raw_data blocks cache q =
    let hash : ℕ = get_blocks_hash hashes text none collect_raw_data in
    let e : cache ≡ (hash, blocks) ∷ [] =
      cached_if-ok hash (find_blocks text default_blocks collect_raw_data false) blocks cache q in
    rw (e, extract_toplevel_blocks, first_found hash blocks) (ap (λ c. (ok blocks, c)) e)
