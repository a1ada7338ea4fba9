-- ===== src/Environment/Invocation.antt =====
-- `InvocationContext` of dbt_common/context.py. The folding of case is a parameter, and so is the
-- removal of blanks at both ends.
use Prim.Native.String.{String}
use text.Mathlib.Text.{starts_with, ◌==◌}
use dbt_common.Common.{
  Bool, true, false, ◌&&◌, not, Option, none, some, List, [], ◌∷◌, ◌≡◌, refl, subst, if◌then◌else◌,
  Bool-cases, inl, inr, eq_iff,
}
use dbt_common.Common.Dict.{Dict, lookup, insert, mem, Distinct, lookup-insert}

abbrev pub private_env_prefix : String
private_env_prefix = "DBT_ENV_PRIVATE"

abbrev secret_env_prefix : String
secret_env_prefix = "DBT_ENV_SECRET"

-- `CaseInsensitiveMapping`: the names as they were given, by the folded names.
abbrev CaseInsensitiveMapping : Type 0
CaseInsensitiveMapping = Dict (String × String)

-- The environment is one of these, by the platform.
pub data Env : Type 0 where
  case_sensitive : Dict String → Env
  case_insensitive : CaseInsensitiveMapping → Env

pub record InvocationContext : Type 0 where
  pub env : Env
  pub env_private : Dict String
  pub name : String
  pub env_secrets : Option (List String)
  pub adapter_types : List String

-- The loop of `__init__` over the environment: what is public, and what is private.
pub split_env : Dict String → Dict String × Dict String → Dict String × Dict String
unfolding insert
split_env [] kept = kept
split_env ((k, v) ∷ env) (env_public, env_private) =
    if starts_with k private_env_prefix
    then split_env env (env_public, insert k v env_private)
    else split_env env (insert k v env_public, env_private)

module _ (casefold : String → String) (strip : String → String) where
  unfoldable fold_keys : Dict String → CaseInsensitiveMapping → CaseInsensitiveMapping
  unfolding insert
  fold_keys [] folded = folded
  fold_keys ((k, v) ∷ env) folded = fold_keys env (insert (casefold k) (k, v) folded)

  abbrev case_insensitive_mapping : Dict String → CaseInsensitiveMapping
  case_insensitive_mapping env = fold_keys env []

  -- `CaseInsensitiveMapping.__getitem__`, none for a KeyError
  unfoldable get_item : String → CaseInsensitiveMapping → Option String
  unfolding lookup
  get_item key folded = elim (lookup (casefold key) folded) [ none ↦ none | some (k, v) ↦ some v ]

  -- `__iter__` gives the folded names, and `items` pairs them with the values.
  abbrev mapping_items : CaseInsensitiveMapping → Dict String
  mapping_items [] = []
  mapping_items ((folded, (k, v)) ∷ rest) = (folded, v) ∷ mapping_items rest

  abbrev env_items : Env → Dict String
  env_items (case_sensitive env) = env
  env_items (case_insensitive folded) = mapping_items folded

  -- `__init__`; `windows` is `os.name == "nt"`
  unfoldable pub invocation_context : (windows : Bool) → Dict String → InvocationContext
  unfolding split_env fold_keys
  invocation_context windows env =
      let (env_public, env_private) = split_env env ([], []) in
      record {
        env =
            if windows
            then case_insensitive (case_insensitive_mapping env_public)
            else case_sensitive env_public;
        env_private = env_private;
        name = "unset";
        env_secrets = none;
        adapter_types = [];
      }

  abbrev is_secret : String → String → Bool
  is_secret k v = starts_with k secret_env_prefix && not (strip v == "")

  unfoldable secrets_of : Dict String → List String
  secrets_of [] = []
  secrets_of ((k, v) ∷ env) = let rest = secrets_of env in if is_secret k v then v ∷ rest else rest

  -- `env_secrets`, which is computed at the first read.
  unfoldable pub read_env_secrets : InvocationContext → List String × InvocationContext
  unfolding secrets_of
  read_env_secrets context = elim context.env_secrets [
    | some secrets ↦ (secrets, context)
    | none ↦
        let secrets : List String = secrets_of (env_items context.env) in
        (secrets, record context { env_secrets = some secrets })
  ]

  -- `uses_adapter`, of a set
  unfoldable uses_adapter : String → InvocationContext → InvocationContext
  uses_adapter adapter_type context = record context {
    adapter_types =
        if mem adapter_type context.adapter_types
        then context.adapter_types
        else adapter_type ∷ context.adapter_types;
  }

-- What the two parts have at a name, from the environment or from before.
abbrev pub or_else : Option String → Option String → Option String
or_else none before = before
or_else (some v) before = some v

abbrev HasParts :
    String → Dict String → Dict String × Dict String → Dict String × Dict String → Type 0
HasParts key env kept parts =
    (lookup key parts.0 ≡ (
      if starts_with key private_env_prefix
      then lookup key kept.0
      else or_else (lookup key env) (lookup key kept.0)))
    × (lookup key parts.1 ≡ (
        if starts_with key private_env_prefix
        then or_else (lookup key env) (lookup key kept.1)
        else lookup key kept.1))

lookup_entry :
    (key k v : String) (env : Dict String)
    → lookup key ((k, v) ∷ env) ≡ (if k == key then some v else lookup key env)
unfolding lookup
lookup_entry key k v env = refl

same_either_way : (b : Bool) (o : Option String) → o ≡ (if b then o else o)
same_either_way true o = refl
same_either_way false o = refl

split_env-HasParts :
    (key : String) (env : Dict String) (kept : Dict String × Dict String)
    → Distinct env
    → HasParts key env kept (split_env env kept)
unfolding split_env
split_env-HasParts key [] kept h =
    unfold lookup in
    (
      same_either_way (starts_with key private_env_prefix) (lookup key kept.0),
      same_either_way (starts_with key private_env_prefix) (lookup key kept.1),
    )
split_env-HasParts key ((k, v) ∷ env) (env_public, env_private) (fresh, h) =
    elim (Bool-cases (starts_with k private_env_prefix)) [
      | inl private ↦
          let (a, b) = split_env-HasParts key env (env_public, insert k v env_private) h in
          elim (Bool-cases (k == key)) [
            | inl same ↦
                let e : k ≡ key = (eq_iff k key).0 same in
                let p : starts_with key private_env_prefix ≡ true =
                  subst (λ i. starts_with i private_env_prefix ≡ true) e private in
                let absent : lookup key env ≡ none = subst (λ i. lookup i env ≡ none) e fresh in
                rw (private, split_env, lookup_entry key k v env, p, same)
                  (rw p at a, rw (p, absent, lookup-insert k key v env_private, same) at b)
            | inr other ↦
                rw (private, split_env, lookup_entry key k v env, other)
                  (a, rw (lookup-insert k key v env_private, other) at b)
          ]
      | inr public ↦
          let (a, b) = split_env-HasParts key env (insert k v env_public, env_private) h in
          elim (Bool-cases (k == key)) [
            | inl same ↦
                let e : k ≡ key = (eq_iff k key).0 same in
                let p : starts_with key private_env_prefix ≡ false =
                  subst (λ i. starts_with i private_env_prefix ≡ false) e public in
                let absent : lookup key env ≡ none = subst (λ i. lookup i env ≡ none) e fresh in
                rw (public, split_env, lookup_entry key k v env, p, same)
                  (rw (p, absent, lookup-insert k key v env_public, same) at a, rw p at b)
            | inr other ↦
                rw (public, split_env, lookup_entry key k v env, other)
                  (rw (lookup-insert k key v env_public, other) at a, b)
          ]
    ]

-- Nothing from before.
alone : (o : Option String) → or_else o none ≡ o
alone none = refl
alone (some v) = refl

-- `split_env`, the loop that sorts the environment for a new invocation context, puts every variable in exactly one of two parts, under its value, if no name comes twice: private if its name has the prefix of private variables, and public otherwise.
pub split_env-lookup :
    (key : String) (env : Dict String)
    → Distinct env
    → (lookup key (split_env env ([], [])).0
        ≡ (if starts_with key private_env_prefix then none else lookup key env))
      × (lookup key (split_env env ([], [])).1
          ≡ (if starts_with key private_env_prefix then lookup key env else none))
split_env-lookup key env h =
    let (a, b) = split_env-HasParts key env ([], []) h in
    let nothing : lookup {V = String} key [] ≡ none = unfold lookup in refl in
    (rw (nothing, alone (lookup key env)) at a, rw (nothing, alone (lookup key env)) at b)

module _ (casefold strip : String → String)
    (folded : (k : String) → starts_with (casefold k) secret_env_prefix ≡ false) where
  -- Every name of the mapping is folded.
  abbrev AreFolded : CaseInsensitiveMapping → Type 0
  AreFolded [] = Unit
  AreFolded ((name, held) ∷ rest) = (starts_with name secret_env_prefix ≡ false) × AreFolded rest

  insert-AreFolded :
      (k : String) (held : String × String) (m : CaseInsensitiveMapping)
      → starts_with k secret_env_prefix ≡ false
      → AreFolded m
      → AreFolded (insert k held m)
  unfolding insert
  insert-AreFolded k held [] h a = (h, tt)
  insert-AreFolded k held ((name, old) ∷ rest) h (b, a) = elim (Bool-cases (name == k)) [
    | inl same ↦ rw same (b, a)
    | inr other ↦ rw other (b, insert-AreFolded k held rest h a)
  ]

  fold_keys-AreFolded :
      (env : Dict String) (m : CaseInsensitiveMapping)
      → AreFolded m
      → AreFolded (fold_keys casefold strip env m)
  unfolding fold_keys
  fold_keys-AreFolded [] m a = a
  fold_keys-AreFolded ((k, v) ∷ env) m a =
      fold_keys-AreFolded env (insert (casefold k) (k, v) m)
        (insert-AreFolded (casefold k) (k, v) m (folded k) a)

  no_secrets :
      (m : CaseInsensitiveMapping)
      → AreFolded m
      → secrets_of casefold strip (mapping_items casefold strip m) ≡ []
  unfolding secrets_of
  no_secrets [] a = refl
  no_secrets ((name, held) ∷ rest) (b, a) = rw (b, no_secrets rest a) refl

  -- Where the case of names is not kept, as on Windows, an invocation context has no secrets, whatever the environment holds, if no folded name starts with the prefix of secrets, which is in capitals.
  pub env_secrets-windows :
      (env : Dict String)
      → (read_env_secrets casefold strip (invocation_context casefold strip true env)).0 ≡ []
  unfolding read_env_secrets invocation_context
  env_secrets-windows env =
      no_secrets (fold_keys casefold strip (split_env env ([], [])).0 [])
        (fold_keys-AreFolded (split_env env ([], [])).0 [] tt)
