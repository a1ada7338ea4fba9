-- ===== src/Templates/Printed.antt =====
-- The types of typed macros (dbt_common/clients/jinja.py), printed and parsed.
use Prim.Native.Nat.{ℕ, zero, suc, ◌+◌, ◌-◌, ◌≤◌}
use Prim.Native.String.{String}
use mathlib.Core.List.{append_assoc}
use dbt_common.Common.{[], ◌∷◌, ◌++◌, length, ◌≡◌, refl, ◌∙◌, arith, length-append}
use dbt_common.Common.Outcome.{Outcome, ok}
use dbt_common.Templates.Signature.{
  name, lparen, rparen, lbracket, rbracket, comma, colon, assign, other, Stream, MacroType,
  macro_type, TypeParams, no_params, add_param, after_name, parse_type_name, type_params,
}

-- A type as it is written: a name, and its parameters in brackets if it has any.
unfoldable mutual
  pub tokens_of : MacroType → Stream
  tokens_of (macro_type s no_params) = name s ∷ []
  tokens_of (macro_type s (add_param ps p)) =
      name s ∷ lbracket ∷ (param_tokens (add_param ps p) ++ rbracket ∷ [])

  -- The parameters with commas between them.
  pub param_tokens : TypeParams → Stream
  param_tokens no_params = []
  param_tokens (add_param no_params p) = tokens_of p
  param_tokens (add_param (add_param ps p) q) = param_tokens (add_param ps p) ++ comma ∷ tokens_of q

abbrev count : TypeParams → ℕ
count no_params = 0
count (add_param ps p) = suc (count ps)

-- What follows a type does not open a bracket.
abbrev NoBracket : Stream → Type 0
NoBracket (lbracket ∷ rest) = ⊥
NoBracket _ = Unit

tokens_of-name : (t : MacroType) → (s : String) × (tail : Stream) × (tokens_of t ≡ name s ∷ tail)
unfolding tokens_of
tokens_of-name (macro_type s no_params) = (s, [], refl)
tokens_of-name (macro_type s (add_param ps p)) =
    (s, lbracket ∷ (param_tokens (add_param ps p) ++ rbracket ∷ []), refl)

some_token : (t : MacroType) → 1 ≤ length (tokens_of t)
some_token t = let (s, tail, e) = tokens_of-name t in rw e (omega arith)

count-bound : (ps : TypeParams) → count ps ≤ length (param_tokens ps)
unfolding tokens_of
count-bound no_params = omega arith
count-bound (add_param no_params p) = some_token p
count-bound (add_param (add_param ps p) q) =
    let e : length (param_tokens (add_param ps p) ++ comma ∷ tokens_of q)
        ≡ length (param_tokens (add_param ps p)) + suc (length (tokens_of q)) =
      length-append (param_tokens (add_param ps p)) (comma ∷ tokens_of q) in
    omega (arith, e, count-bound (add_param ps p))

no_bracket :
    (params : Stream → Outcome _ (TypeParams × Stream)) (s : String) (rest : Stream)
    → NoBracket rest
    → after_name params s rest ≡ ok (macro_type s no_params, rest)
no_bracket params s [] h = refl
no_bracket params s (lbracket ∷ rest) h = absurd h
no_bracket params s (name n ∷ rest) h = refl
no_bracket params s (lparen ∷ rest) h = refl
no_bracket params s (rparen ∷ rest) h = refl
no_bracket params s (rbracket ∷ rest) h = refl
no_bracket params s (comma ∷ rest) h = refl
no_bracket params s (colon ∷ rest) h = refl
no_bracket params s (assign ∷ rest) h = refl
no_bracket params s (other n ∷ rest) h = refl

first_param :
    (f : ℕ) (q : MacroType) (rest : Stream)
    → parse_type_name f (tokens_of q ++ rest) ≡ ok (q, rest)
    → type_params (suc f) no_params (tokens_of q ++ rest)
      ≡ type_params f (add_param no_params q) rest
unfolding parse_type_name
first_param f q rest h =
    let (s, tail, e) = tokens_of-name q in
    rw e
      (let h' : parse_type_name f (name s ∷ tail ++ rest) ≡ ok (q, rest) = rw e at h in rw h' refl)

next_param :
    (f : ℕ) (ps : TypeParams) (p q : MacroType) (rest : Stream)
    → parse_type_name f (tokens_of q ++ rest) ≡ ok (q, rest)
    → type_params (suc f) (add_param ps p) (comma ∷ (tokens_of q ++ rest))
      ≡ type_params f (add_param (add_param ps p) q) rest
unfolding parse_type_name
next_param f ps p q rest h = rw h refl

closed :
    (n : ℕ) (s : String) (ps : TypeParams) (p : MacroType) (rest : Stream)
    → type_params n no_params (param_tokens (add_param ps p) ++ rbracket ∷ rest)
      ≡ ok (add_param ps p, rest)
    → parse_type_name (suc n) (tokens_of (macro_type s (add_param ps p)) ++ rest)
      ≡ ok (macro_type s (add_param ps p), rest)
unfolding tokens_of parse_type_name
closed n s ps p rest h =
    let e : (param_tokens (add_param ps p) ++ rbracket ∷ []) ++ rest
        ≡ param_tokens (add_param ps p) ++ rbracket ∷ rest =
      append_assoc (param_tokens (add_param ps p)) (rbracket ∷ []) rest in
    rw (e, h) refl

-- A type is parsed from its tokens.
abbrev IsParsed : MacroType → Type 0
IsParsed t =
    (n : ℕ) (rest : Stream)
    → length (tokens_of t) ≤ n
    → NoBracket rest
    → parse_type_name n (tokens_of t ++ rest) ≡ ok (t, rest)

mutual
  unfolding tokens_of parse_type_name

  parse_printed :
      (t : MacroType) (n : ℕ) (rest : Stream)
      → length (tokens_of t) ≤ n
      → NoBracket rest
      → parse_type_name n (tokens_of t ++ rest) ≡ ok (t, rest)
  parse_printed t zero rest l h = absurd (omega (arith, l, some_token t))
  parse_printed (macro_type s no_params) (suc n) rest l h =
      no_bracket (type_params n no_params) s rest h
  parse_printed (macro_type s (add_param ps p)) (suc n) rest l h =
      let all : TypeParams = add_param ps p in
      let size : length (param_tokens all ++ rbracket ∷ []) ≡ length (param_tokens all) + 1 =
        length-append (param_tokens all) (rbracket ∷ []) in
      let left : ℕ = n - suc (count all) in
      let enough : count all + suc left ≡ n = omega (arith, l, size, count-bound all) in
      closed n s ps p rest (
        rw (← enough) (
          parse_params ps p (λ m r k g. parse_printed p m r k g) (suc left) (rbracket ∷ rest)
            (omega (arith, l, size, enough)) tt))

  parse_params :
      (ps : TypeParams) (p : MacroType)
      → IsParsed p
      → (f : ℕ) (rest : Stream)
      → suc (length (param_tokens (add_param ps p))) ≤ f + count (add_param ps p)
      → NoBracket rest
      → type_params (count (add_param ps p) + f) no_params (param_tokens (add_param ps p) ++ rest)
        ≡ type_params f (add_param ps p) rest
  parse_params no_params q ih f rest l h =
      let e : suc 0 + f ≡ suc f = omega arith in
      rw e (first_param f q rest (ih f rest (omega (arith, l)) h))
  parse_params (add_param ps p) q ih f rest l h =
      let before : TypeParams = add_param ps p in
      let size : length (param_tokens before ++ comma ∷ tokens_of q)
          ≡ length (param_tokens before) + suc (length (tokens_of q)) =
        length-append (param_tokens before) (comma ∷ tokens_of q) in
      let e : suc (count before) + f ≡ count before + suc f = omega arith in
      let e' : (param_tokens before ++ comma ∷ tokens_of q) ++ rest
          ≡ param_tokens before ++ comma ∷ (tokens_of q ++ rest) =
        append_assoc (param_tokens before) (comma ∷ tokens_of q) rest in
      rw (e, e')
        (parse_params ps p (λ m r k g. parse_printed p m r k g) (suc f)
            (comma ∷ (tokens_of q ++ rest)) (omega (arith, l, size)) tt
          ∙ next_param f ps p q rest (ih f rest (omega (arith, l, size, count-bound before)) h))

-- A type that is written with its parameters in brackets and commas between them is parsed to itself, and what follows it, which does not open a bracket, is left, with fuel of at least one round for each token of the type.
pub parse_type_name-tokens_of :
    (type : MacroType) (fuel : ℕ) (rest : Stream)
    → length (tokens_of type) ≤ fuel
    → NoBracket rest
    → parse_type_name fuel (tokens_of type ++ rest) ≡ ok (type, rest)
parse_type_name-tokens_of type fuel rest l h = parse_printed type fuel rest l h
