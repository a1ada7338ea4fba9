-- ===== src/Mappings/Render.antt =====
-- `deep_map_render` of dbt_common/utils/dict.py. The function that it maps is a parameter, which may
-- raise, and so are the keys of dictionaries, with Python's `str` of a key, and the values of
-- `atomic_types`. The values have no cycle, so that Python's recursion limit is met by the mapped
-- function only.
use Prim.Native.Nat.{ℕ, suc}
use Prim.Native.String.{String}
use dbt_common.Common.{List, [], ◌∷◌, ◌++◌, if◌then◌else◌}
use dbt_common.Common.Dict.{contains}
use dbt_common.Common.Outcome.{Outcome, ok, raise, ◌>>=◌}

-- A value: an atomic one, a list, a dictionary, or one of another type, with the type's name.
mutual
  pub data Node (K A : Type 0) : Type 0 where
    atom : A → Node K A
    list : Nodes K A → Node K A
    dict : Fields K A → Node K A
    other : (type_name : String) → Node K A

  pub data Nodes (K A : Type 0) : Type 0 where
    nil : Nodes K A
    cons : Node K A → Nodes K A → Nodes K A

  pub data Fields (K A : Type 0) : Type 0 where
    end : Fields K A
    entry : K → Node K A → Fields K A → Fields K A

-- A step of a keypath: an index of a list, or the text of a key of a dictionary.
pub data Step : Type 0 where
  index : ℕ → Step
  key : String → Step

pub data RenderFault : Type 0 where
  -- a RuntimeError, with its text, and any other exception
  runtime_error : String → RenderFault
  other_error : String → RenderFault
  -- the RecursionError of dbt_common.exceptions
  recursion_error : String → RenderFault
  -- the DbtConfigError for a type that is not expected
  unexpected_type : (type_name : String) → RenderFault

abbrev pub Func : Type 0 → Type 0 → Type 0
Func K A = A → List Step → Outcome RenderFault (Node K A)

module _ {K A : Type 0} (str : K → String) where
  unfoldable mutual
    pub deep_map_at : Func K A → Node K A → List Step → Outcome RenderFault (Node K A)
    deep_map_at func (list vs) keypath = deep_map_items func vs 0 keypath >>= λ ws. ok (list ws)
    deep_map_at func (dict es) keypath = deep_map_entries func es keypath >>= λ fs. ok (dict fs)
    deep_map_at func (atom a) keypath = func a keypath
    deep_map_at func (other type_name) keypath = raise (unexpected_type type_name)

    pub deep_map_items : Func K A → Nodes K A → ℕ → List Step → Outcome RenderFault (Nodes K A)
    deep_map_items func nil idx keypath = ok nil
    deep_map_items func (cons v vs) idx keypath =
        deep_map_at func v (keypath ++ index idx ∷ []) >>= λ w.
        deep_map_items func vs (suc idx) keypath >>= λ ws. ok (cons w ws)

    pub deep_map_entries : Func K A → Fields K A → List Step → Outcome RenderFault (Fields K A)
    deep_map_entries func end keypath = ok end
    deep_map_entries func (entry k v es) keypath =
        deep_map_at func v (keypath ++ key (str k) ∷ []) >>= λ w.
        deep_map_entries func es keypath >>= λ fs. ok (entry k w fs)

  abbrev pub translated : Outcome RenderFault (Node K A) → Outcome RenderFault (Node K A)
  translated (raise (runtime_error text)) =
      if contains "maximum recursion depth exceeded" text
      then raise (recursion_error "Cycle detected in deep_map_render")
      else raise (runtime_error text)
  translated o = o

  unfoldable pub deep_map_render : Func K A → Node K A → Outcome RenderFault (Node K A)
  unfolding deep_map_at contains
  deep_map_render func value = translated (deep_map_at func value [])
