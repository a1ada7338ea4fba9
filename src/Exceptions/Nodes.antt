-- ===== src/Exceptions/Nodes.antt =====
-- `DbtRuntimeError` of dbt_common/exceptions/base.py: its message, and the nodes that it went through.
-- Nodes are compared by identity, and named, by parameters.
use dbt_common.Common.{
  Bool, false, Option, none, some, List, [], ◌∷◌, ◌++◌, map, Text, if◌then◌else◌, ◌==◌, ◌≡◌, refl,
  sym, ◌∙◌,
}
use dbt_common.Common.Codes.{codes}
use mathlib.Core.List.{append_assoc, append-nil}
use dbt_common.Exceptions.Secrets.{scrub_secrets}

pub record DbtRuntimeError (N : Type 0) : Type 0 where
  pub msg : Text
  pub node : Option N
  pub stack : List N

-- `__init__`, with the secrets of the environment
unfoldable pub runtime_error : {N : Type 0} → List Text → Text → Option N → DbtRuntimeError N
unfolding scrub_secrets
runtime_error secrets msg node = record { msg = scrub_secrets msg secrets; node = node; stack = [] }

abbrev pushed : {N : Type 0} → Option N → List N → List N
pushed none stack = stack
pushed (some n) stack = stack ++ n ∷ []

-- `msg.split("\n")`
abbrev split_lines : Text → Text → List Text
split_lines line [] = line ∷ []
split_lines line (c ∷ cs) =
    let next = split_lines [] cs in
    let longer = split_lines (line ++ c ∷ []) cs in if c == 10 then line ∷ next else longer

abbrev join_lines : List Text → Text
join_lines [] = []
join_lines (line ∷ []) = line
join_lines (line ∷ next ∷ lines) = line ++ (10 ∷ join_lines (next ∷ lines))

module _ {N : Type 0} (is : N → N → Bool) (node_to_string : Option N → Text) where
  abbrev is_node : N → Option N → Bool
  is_node n none = false
  is_node n (some m) = is n m

  -- `add_node`
  unfoldable add_node : Option N → DbtRuntimeError N → DbtRuntimeError N
  add_node none e = e
  add_node (some n) e =
      if is_node n e.node then e else record e { stack = pushed e.node e.stack; node = some n }

  abbrev called_by : List (Option N) → List Text
  called_by [] = []
  called_by (n ∷ ns) = (codes "> called by " ++ node_to_string n) ∷ called_by ns

  abbrev trace : List (Option N) → List Text
  trace [] = []
  trace (n ∷ []) = []
  trace (n ∷ m ∷ ns) = [] ∷ (codes "> in " ++ node_to_string n) ∷ called_by (m ∷ ns)

  -- `process_stack`
  unfoldable process_stack : DbtRuntimeError N → List Text
  process_stack e = trace (map some e.stack ++ e.node ∷ [])

  abbrev in_node : Option N → Text
  in_node none = []
  in_node (some n) = codes " in " ++ node_to_string (some n)

  -- `__str__`, for the type of the error
  unfoldable pub str : Text → DbtRuntimeError N → Text
  unfolding process_stack
  str type e = join_lines (
      (type ++ (codes " Error" ++ in_node e.node))
      ∷ map (λ line. codes "  " ++ line) (split_lines [] e.msg ++ process_stack e))

  -- The nodes of an error, the innermost first.
  abbrev nodes_of : DbtRuntimeError N → List N
  nodes_of e = pushed e.node e.stack

  unfoldable pub add_nodes : List N → DbtRuntimeError N → DbtRuntimeError N
  unfolding add_node
  add_nodes [] e = e
  add_nodes (n ∷ ns) e = add_nodes ns (add_node (some n) e)

  -- No node comes twice in a row.
  abbrev AreApart : Option N → List N → Type 0
  AreApart before [] = Unit
  AreApart before (n ∷ ns) = (is_node n before ≡ false) × AreApart (some n) ns

  -- An error that passes through nodes, none of them twice in a row, has their trace behind the nodes that it had, in their order, and its message as it was.
  nodes_of-add_nodes :
      (ns : List N) (e : DbtRuntimeError N)
      → AreApart e.node ns
      → (nodes_of (add_nodes ns e) ≡ nodes_of e ++ ns) × ((add_nodes ns e).msg ≡ e.msg)
  unfolding add_nodes
  nodes_of-add_nodes [] e a = (sym (append-nil (nodes_of e)), refl)
  nodes_of-add_nodes (n ∷ ns) e (other, a) =
      let (l, m) =
        nodes_of-add_nodes ns (record e { stack = pushed e.node e.stack; node = some n }) a in
      rw (other, add_nodes, add_node) (l ∙ append_assoc (nodes_of e) (n ∷ []) ns, m)
