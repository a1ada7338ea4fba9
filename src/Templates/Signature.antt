-- ===== src/Templates/Signature.antt =====
-- The parser of typed macros, `MacroFuzzParser` of dbt_common/clients/jinja.py, on the tokens that the
-- Jinja library makes. Its parser of expressions is a parameter.
use Prim.Native.Nat.{ℕ, zero, suc}
use Prim.Native.String.{String}
use dbt_common.Common.{Bool, true, false, Option, none, some, List, [], ◌∷◌, ◌++◌, length}
use dbt_common.Common.Outcome.{Outcome, ok, raise, ◌>>=◌}

pub data Token : Type 0 where
  name : String → Token
  lparen rparen lbracket rbracket comma colon assign : Token
  -- any other token, by its text
  other : String → Token

abbrev pub Stream : Type 0
Stream = List Token

mutual
  -- The class `MacroType`
  pub data MacroType : Type 0 where
    macro_type : String → TypeParams → MacroType

  pub data TypeParams : Type 0 where
    no_params : TypeParams
    add_param : TypeParams → MacroType → TypeParams

pub data SyntaxFault : Type 0 where
  unexpected : Stream → SyntaxFault
  non_default_follows_default : SyntaxFault
  out_of_fuel : SyntaxFault

abbrev pub Parser : Type 0 → Type 0
Parser A = Stream → Outcome SyntaxFault (A × Stream)

-- `stream.expect("name").value`; a name that is assigned to is one such token.
abbrev expect_name : Parser String
expect_name (name s ∷ rest) = ok (s, rest)
expect_name stream = raise (unexpected stream)

abbrev pub is_empty : TypeParams → Bool
is_empty no_params = true
is_empty (add_param ps p) = false

abbrev expect_comma : Stream → Outcome SyntaxFault Stream
expect_comma (comma ∷ rest) = ok rest
expect_comma stream = raise (unexpected stream)

-- The comma before a parameter that is not the first.
abbrev before_param : Bool → Stream → Outcome SyntaxFault Stream
before_param true stream = ok stream
before_param false stream = expect_comma stream

-- The parameters behind a name, where there is a bracket.
abbrev pub after_name : Parser TypeParams → String → Parser MacroType
after_name params type_name (lbracket ∷ rest) =
    params rest >>= λ (found, rest'). ok (macro_type type_name found, rest')
after_name params type_name stream = ok (macro_type type_name no_params, stream)

unfoldable mutual
  -- `parse_type_name`
  pub parse_type_name : ℕ → Parser MacroType
  parse_type_name zero stream = raise out_of_fuel
  parse_type_name (suc fuel) stream = expect_name stream >>= λ (type_name, rest).
      after_name (type_params fuel no_params) type_name rest

  -- Its loop up to the closing bracket.
  pub type_params : ℕ → TypeParams → Parser TypeParams
  type_params zero so_far stream = raise out_of_fuel
  type_params (suc fuel) so_far (rbracket ∷ rest) = ok (so_far, rest)
  type_params (suc fuel) so_far stream = before_param (is_empty so_far) stream >>= λ rest.
      parse_type_name fuel rest >>= λ (param, rest').
      type_params fuel (add_param so_far param) rest'

-- What `parse_signature` leaves at the node: the names, the types (the empty text stands for none),
-- the defaults, and whether there is an annotation.
pub record Signature (E : Type 0) : Type 0 where
  pub args : List String
  pub arg_types : List (Option MacroType)
  pub defaults : List E
  pub has_type_annotations : Bool

module _ {E : Type 0} (parse_expression : Parser E) where
  abbrev no_args : Signature E
  no_args = record { args = []; arg_types = []; defaults = []; has_type_annotations = false }

  -- `skip_if("colon")` and the type behind it
  abbrev annotation : ℕ → Parser (Option MacroType)
  annotation fuel (colon ∷ rest) =
      parse_type_name fuel rest >>= λ (type, rest'). ok (some type, rest')
  annotation fuel stream = ok (none, stream)

  -- `skip_if("assign")` and the expression behind it, or the check that no default came before
  abbrev default_of : List E → Parser (List E)
  default_of defaults (assign ∷ rest) =
      parse_expression rest >>= λ (value, rest'). ok (defaults ++ value ∷ [], rest')
  default_of [] stream = ok ([], stream)
  default_of (d ∷ ds) stream = raise non_default_follows_default

  abbrev is_typed : Option MacroType → Bool → Bool
  is_typed none before = before
  is_typed (some t) before = true

  abbrev has_none : List String → Bool
  has_none [] = true
  has_none (a ∷ as') = false

  -- One round: a parameter, behind a comma if it is not the first.
  unfoldable one_arg : ℕ → Signature E → Parser (Signature E)
  unfolding parse_type_name
  one_arg fuel node stream = before_param (has_none node.args) stream >>= λ rest.
      expect_name rest >>= λ (arg, rest₁). annotation fuel rest₁ >>= λ (type, rest₂).
      default_of node.defaults rest₂ >>= λ (defaults, rest₃). ok (
        record {
          args = node.args ++ arg ∷ [];
          arg_types = node.arg_types ++ type ∷ [];
          defaults = defaults;
          has_type_annotations = is_typed type node.has_type_annotations;
        },
        rest₃,
      )

  unfoldable arg_loop : ℕ → Signature E → Parser (Signature E)
  unfolding one_arg
  arg_loop zero node stream = raise out_of_fuel
  arg_loop (suc fuel) node (rparen ∷ rest) = ok (node, rest)
  arg_loop (suc fuel) node stream =
      one_arg (suc fuel) node stream >>= λ (node', rest). arg_loop fuel node' rest

  -- The fuel is enough, since each round takes a token.
  unfoldable pub parse_signature : Parser (Signature E)
  unfolding arg_loop
  parse_signature (lparen ∷ rest) = arg_loop (suc (length rest)) no_args rest
  parse_signature stream = raise (unexpected stream)
