-- ===== src/Templates/Tests.antt =====
-- The theorems about templates at concrete inputs.
use Prim.Native.Nat.{ℕ}
use Prim.Native.String.{String}
use dbt_common.Common.{
  ℕ, true, Option, none, some, List, [], ◌∷◌, ◌++◌, ◌≡◌, ◌≢◌, refl, Text, length, arith,
}
use dbt_common.Common.Codes.{codes}
use dbt_common.Common.Outcome.{Outcome, ok, raise}
use dbt_common.Config.Value.{Value, boolean}
use dbt_common.Jinja.Matches.{pattern_of, search_and_cache}
use dbt_common.Jinja.Blocks.{Block, block_tag, find_blocks}
use dbt_common.Regex.{search}
use dbt_common.Templates.Markers.{
  Node, bool_marker, quoted_native_concat, Promises, quoted_native_concat-Promises,
}
use dbt_common.Templates.Signature.{
  name, colon, comma, rparen, assign, MacroType, macro_type, no_params, add_param, parse_type_name,
  parse_signature, lparen, Parser, unexpected,
}
use dbt_common.Templates.Printed.{tokens_of, parse_type_name-tokens_of}
use dbt_common.Common.Dict.{lookup}
use dbt_common.Templates.Cache.{
  get_node_template, get_node_template-again, Hashes, BlocksCache, get_blocks_hash,
  extract_toplevel_blocks, extract_toplevel_blocks-none_allowed,
}
use dbt_common.Templates.Names.{
  get_dbt_macro_name, get_docs_macro_name, get_materialization_macro_name, macro_names_apart,
  materialization_names_meet,
}

abbrev eval_true : String → Option Value
eval_true raw = some (boolean true)

abbrev no_text : List Node → String
no_text nodes = ""

quoted_native_concat-Promises_run : Promises eval_true no_text (bool_marker "True") (boolean true)
quoted_native_concat-Promises_run =
    quoted_native_concat-Promises eval_true no_text (bool_marker "True") (boolean true)
      (unfold quoted_native_concat in refl)

-- Dict[str, List[int]]
abbrev nested_type : MacroType
nested_type = macro_type "Dict" (
    add_param (add_param no_params (macro_type "str" no_params))
      (macro_type "List" (add_param no_params (macro_type "int" no_params))))

parse_type_name-tokens_of_example :
    parse_type_name 9 (tokens_of nested_type ++ comma ∷ []) ≡ ok (nested_type, comma ∷ [])
parse_type_name-tokens_of_example =
    parse_type_name-tokens_of nested_type 9 (comma ∷ []) (unfold tokens_of in omega arith) tt

abbrev one_name : Parser String
one_name (name s ∷ rest) = ok (s, rest)
one_name stream = raise (unexpected stream)

-- (a: int, b = x)
signature_run :
    parse_signature one_name
      (lparen ∷ name "a" ∷ colon ∷ name "int" ∷ comma ∷ name "b" ∷ assign ∷ name "x" ∷ rparen ∷ [])
    ≡ ok (
      record {
        args = "a" ∷ "b" ∷ [];
        arg_types = some (macro_type "int" no_params) ∷ none ∷ [];
        defaults = "x" ∷ [];
        has_type_annotations = true;
      },
      [],
    )
unfolding parse_signature parse_type_name
signature_run = refl

-- Two nodes with one text, whose templates differ by the node.
abbrev same_sql : ℕ → String
same_sql node = "a"

abbrev compile : String → ℕ → Outcome String ℕ
compile sql node = ok node

get_node_template-again_run :
    (get_node_template same_sql compile 2 (get_node_template same_sql compile 1 []).1).0 ≡ ok 1
get_node_template-again_run =
    get_node_template-again same_sql compile 1 2 [] 1 (unfold get_node_template lookup in refl) refl

abbrev hashes : Hashes
hashes = record { text = length; sorted_tuple = length; bool = λ b. 0 }

abbrev macro_text : Text
macro_text = codes "{% macro f() %}x{% endmacro %}"

abbrev macro_blocks : List Block
macro_blocks = block_tag (codes "macro") (some (codes "f")) (codes "x") macro_text ∷ []

abbrev filled : BlocksCache
filled = (30, macro_blocks) ∷ []

run_extract :
    extract_toplevel_blocks hashes true macro_text none true [] ≡ (ok macro_blocks, filled)
unfolding extract_toplevel_blocks get_blocks_hash find_blocks search_and_cache search pattern_of
run_extract = refl

extract_toplevel_blocks-none_allowed_run :
    extract_toplevel_blocks hashes true macro_text (some []) true filled ≡ (ok macro_blocks, filled)
extract_toplevel_blocks-none_allowed_run =
    extract_toplevel_blocks-none_allowed hashes macro_text true macro_blocks filled run_extract

macro_names_apart_run :
    (get_dbt_macro_name (codes "a") ≡ get_dbt_macro_name (codes "b") → codes "a" ≡ codes "b")
    × (get_docs_macro_name (codes "a") true ≡ get_docs_macro_name (codes "b") true
        → codes "a" ≡ codes "b")
    × (get_dbt_macro_name (codes "a") ≢ get_docs_macro_name (codes "b") true)
macro_names_apart_run = macro_names_apart (codes "a") (codes "b")

materialization_names_meet_run :
    get_materialization_macro_name
      (codes "my" ++ codes "_" ++ codes "view")
      (some (codes "pg"))
      true
    ≡ get_materialization_macro_name
        (codes "my")
        (some (codes "view" ++ codes "_" ++ codes "pg"))
        true
materialization_names_meet_run =
    materialization_names_meet (codes "my") (codes "view") (codes "pg") true
