-- ===== src/Templates/Markers.antt =====
-- `quoted_native_concat` and `catch_jinja` of dbt_common/clients/jinja.py. What `ast.literal_eval`
-- and `str` give are parameters.
use Prim.Native.Nat.{ℕ}
use Prim.Native.String.{String}
use dbt_common.Common.{Bool, true, false, Option, none, some, List, [], ◌∷◌, ◌≡◌, refl, sym}
use dbt_common.Common.Outcome.{Outcome, ok, raise, ok-injective}
use dbt_common.Config.Value.{Value, boolean, number, str}

-- A node that a template renders: a text with one of the marker classes, or any other value.
pub data Node : Type 0 where
  text_marker native_marker bool_marker number_marker : String → Node
  plain : Value → Node

pub data RenderingError : Type 0 where
  not_bool not_number : String → RenderingError

abbrev is_bool : Value → Bool
is_bool (boolean b) = true
is_bool _ = false

-- `_is_number`
abbrev pub is_number : Value → Bool
is_number (number n) = true
is_number _ = false

-- `literal_eval`, or the raw text where it raises
abbrev evaluated : String → Option Value → Value
evaluated raw none = str raw
evaluated raw (some v) = v

module _ (literal_eval : String → Option Value) (concat_str : List Node → String) where
  abbrev native_value : Node → Outcome RenderingError Value
  native_value (text_marker raw) = ok (str raw)
  native_value (native_marker raw) = ok (evaluated raw (literal_eval raw))
  native_value (bool_marker raw) =
      let result = evaluated raw (literal_eval raw) in
      elim (is_bool result) [ true ↦ ok result | false ↦ raise (not_bool raw) ]
  native_value (number_marker raw) =
      let result = evaluated raw (literal_eval raw) in
      elim (is_number result) [ true ↦ ok result | false ↦ raise (not_number raw) ]
  native_value (plain v) = ok v

  unfoldable pub quoted_native_concat : List Node → Outcome RenderingError Value
  quoted_native_concat [] = ok (str "")
  quoted_native_concat (node ∷ []) = native_value node
  quoted_native_concat (node ∷ second ∷ nodes) = ok (str (concat_str (node ∷ second ∷ nodes)))

  -- What a marker promises of the value.
  abbrev pub Promises : Node → Value → Type 0
  Promises (text_marker raw) v = v ≡ str raw
  Promises (native_marker raw) v = v ≡ evaluated raw (literal_eval raw)
  Promises (bool_marker raw) v = (b : Bool) × (v ≡ boolean b) × (literal_eval raw ≡ some v)
  Promises (number_marker raw) v = (n : ℕ) × (v ≡ number n) × (literal_eval raw ≡ some v)
  Promises (plain w) v = v ≡ w

  bool_result :
      (raw : String) (o : Option Value) (v : Value)
      → literal_eval raw ≡ o
      → ◌≡◌ {A = Outcome RenderingError Value}
          (elim (is_bool (evaluated raw o)) [
            | true ↦ ok (evaluated raw o)
            | false ↦ raise (not_bool raw)
          ])
          (ok v)
      → Promises (bool_marker raw) v
  bool_result raw (some (boolean b)) v e q =
      let same : boolean b ≡ v = ok-injective q in rw (← same) (b, refl, e)
  bool_result raw (some _) v e q = cc
  bool_result raw none v e q = cc

  number_result :
      (raw : String) (o : Option Value) (v : Value)
      → literal_eval raw ≡ o
      → ◌≡◌ {A = Outcome RenderingError Value}
          (elim (is_number (evaluated raw o)) [
            | true ↦ ok (evaluated raw o)
            | false ↦ raise (not_number raw)
          ])
          (ok v)
      → Promises (number_marker raw) v
  number_result raw (some (number n)) v e q =
      let same : number n ≡ v = ok-injective q in rw (← same) (n, refl, e)
  number_result raw (some _) v e q = cc
  number_result raw none v e q = cc

  -- The value that quoted_native_concat returns for a single node has the type of its marker: the text itself for a text marker, a boolean or a number that literal_eval reads in the text for these markers, what it reads or else the text for a native marker, and the value itself without a marker.
  pub quoted_native_concat-Promises :
      (node : Node) (v : Value) → quoted_native_concat (node ∷ []) ≡ ok v → Promises node v
  unfolding quoted_native_concat
  quoted_native_concat-Promises (text_marker raw) v q = sym (ok-injective q)
  quoted_native_concat-Promises (native_marker raw) v q = sym (ok-injective q)
  quoted_native_concat-Promises (bool_marker raw) v q = bool_result raw (literal_eval raw) v refl q
  quoted_native_concat-Promises (number_marker raw) v q =
      number_result raw (literal_eval raw) v refl q
  quoted_native_concat-Promises (plain w) v q = sym (ok-injective q)
