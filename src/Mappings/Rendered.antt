-- ===== src/Mappings/Rendered.antt =====
-- What `deep_map_render` of dbt_common/utils/dict.py does at each keypath of a value.
use Prim.Native.Nat.{ℕ, suc, ◌+◌}
use Prim.Native.String.{String}
use mathlib.Core.List.{append_assoc, append-nil}
use dbt_common.Common.{List, [], ◌∷◌, ◌++◌, ◌≡◌, refl, subst, Bool-cases, inl, inr, arith, ap}
use dbt_common.Common.Dict.{contains}
use dbt_common.Common.Outcome.{Outcome, ok, raise, ◌>>=◌, >>=-eq-ok, ok-injective}
use dbt_common.Mappings.Render.{
  Node, atom, list, dict, other, Nodes, cons, Fields, entry, Step, index, key, RenderFault, Func,
  deep_map_at, deep_map_items, deep_map_entries, translated, deep_map_render, runtime_error,
  other_error, recursion_error, unexpected_type,
}

-- A place in a value: the indices and keys, not their texts, on the way to it.
pub data Place (K : Type 0) : Type 0 where
  by_index : ℕ → Place K
  by_key : K → Place K

-- What stands at a place.
mutual
  pub data Holds {K A : Type 0} : Node K A → List (Place K) → Node K A → Type 0 where
    here : {v : Node K A} → Holds v [] v
    in_list :
        {vs : Nodes K A} {i : ℕ} {p : List (Place K)} {a : Node K A}
        → HoldsItem vs i p a
        → Holds (list vs) (by_index i ∷ p) a
    in_dict :
        {es : Fields K A} {k : K} {p : List (Place K)} {a : Node K A}
        → HoldsEntry es k p a
        → Holds (dict es) (by_key k ∷ p) a

  pub data HoldsItem {K A : Type 0} : Nodes K A → ℕ → List (Place K) → Node K A → Type 0 where
    first :
        {v : Node K A} {vs : Nodes K A} {p : List (Place K)} {a : Node K A}
        → Holds v p a
        → HoldsItem (cons v vs) 0 p a
    further :
        {v : Node K A} {vs : Nodes K A} {i : ℕ} {p : List (Place K)} {a : Node K A}
        → HoldsItem vs i p a
        → HoldsItem (cons v vs) (suc i) p a

  pub data HoldsEntry {K A : Type 0} : Fields K A → K → List (Place K) → Node K A → Type 0 where
    there :
        {k : K} {v : Node K A} {es : Fields K A} {p : List (Place K)} {a : Node K A}
        → Holds v p a
        → HoldsEntry (entry k v es) k p a
    behind :
        {j k : K} {v : Node K A} {es : Fields K A} {p : List (Place K)} {a : Node K A}
        → HoldsEntry es k p a
        → HoldsEntry (entry j v es) k p a

-- The keypath that the function gets for a place.
abbrev keypath_of : {K : Type 0} → (K → String) → List (Place K) → List Step
keypath_of str [] = []
keypath_of str (by_index i ∷ p) = index i ∷ keypath_of str p
keypath_of str (by_key k ∷ p) = key (str k) ∷ keypath_of str p

module _ {K A : Type 0} (str : K → String) where
  -- What the function gave for a value, standing at a place of the result.
  abbrev Mapped : Func K A → A → List Step → (Node K A → Type 0) → Type 0
  Mapped func a keypath P = (b : Node K A) × (func a keypath ≡ ok b) × P b

  moved :
      (func : Func K A) (a : A) (p q : List Step) (P Q : Node K A → Type 0)
      → p ≡ q
      → ((b : Node K A) → P b → Q b)
      → Mapped func a p P
      → Mapped func a q Q
  moved func a p q P Q e f (b, h, r) = (b, rw (← e) h, f b r)

  mutual
    unfolding deep_map_at

    deep_map_at-Holds :
        (func : Func K A) (a : A) {v : Node K A} {p : List (Place K)}
        → Holds v p (atom a)
        → (q : List Step) (w : Node K A) → deep_map_at str func v q ≡ ok w
        → Mapped func a (q ++ keypath_of str p) (Holds w p)
    deep_map_at-Holds func a here q w e = (w, rw (append-nil q) e, here)
    deep_map_at-Holds func a (in_list {vs} {i} {p} r) q w e =
        let (ws, e', e'') = >>=-eq-ok (deep_map_items str func vs 0 q) (λ ws. ok (list ws)) e in
        moved func a _ _ (HoldsItem ws i p) (Holds w (by_index i ∷ p))
          (ap (λ n. q ++ index n ∷ keypath_of str p) (omega arith))
          (λ b s. subst (λ x. Holds x (by_index i ∷ p) b) (ok-injective e'') (in_list s))
          (deep_map_items-Holds func a r 0 q ws e')
    deep_map_at-Holds func a (in_dict {es} {k} {p} r) q w e =
        let (fs, e', e'') = >>=-eq-ok (deep_map_entries str func es q) (λ fs. ok (dict fs)) e in
        moved func a _ _ (HoldsEntry fs k p) (Holds w (by_key k ∷ p)) refl
          (λ b s. subst (λ x. Holds x (by_key k ∷ p) b) (ok-injective e'') (in_dict s))
          (deep_map_entries-Holds func a r q fs e')

    deep_map_items-Holds :
        (func : Func K A) (a : A) {vs : Nodes K A} {i : ℕ} {p : List (Place K)}
        → HoldsItem vs i p (atom a)
        → (idx : ℕ) (q : List Step) (ws : Nodes K A) → deep_map_items str func vs idx q ≡ ok ws
        → Mapped func a (q ++ index (idx + i) ∷ keypath_of str p) (HoldsItem ws i p)
    deep_map_items-Holds func a (first {v} {vs} {p} r) idx q ws e =
        let (w, e', e'') =
          >>=-eq-ok (deep_map_at str func v (q ++ index idx ∷ []))
            (λ w. deep_map_items str func vs (suc idx) q >>= λ us. ok (cons w us)) e in
        let (us, f', f'') =
          >>=-eq-ok (deep_map_items str func vs (suc idx) q) (λ us. ok (cons w us)) e'' in
        let at' : idx + 0 ≡ idx = omega arith in
        moved func a _ _ (Holds w p) (HoldsItem ws 0 p)
          (rw (at', append_assoc q (index idx ∷ []) (keypath_of str p)) refl)
          (λ b s. subst (λ x. HoldsItem x 0 p b) (ok-injective f'') (first s))
          (deep_map_at-Holds func a r (q ++ index idx ∷ []) w e')
    deep_map_items-Holds func a (further {v} {vs} {i} {p} r) idx q ws e =
        let (w, e', e'') =
          >>=-eq-ok (deep_map_at str func v (q ++ index idx ∷ []))
            (λ w. deep_map_items str func vs (suc idx) q >>= λ us. ok (cons w us)) e in
        let (us, f', f'') =
          >>=-eq-ok (deep_map_items str func vs (suc idx) q) (λ us. ok (cons w us)) e'' in
        moved func a _ _ (HoldsItem us i p) (HoldsItem ws (suc i) p)
          (ap (λ n. q ++ index n ∷ keypath_of str p) (omega arith))
          (λ b s. subst (λ x. HoldsItem x (suc i) p b) (ok-injective f'') (further s))
          (deep_map_items-Holds func a r (suc idx) q us f')

    deep_map_entries-Holds :
        (func : Func K A) (a : A) {es : Fields K A} {k : K} {p : List (Place K)}
        → HoldsEntry es k p (atom a)
        → (q : List Step) (fs : Fields K A) → deep_map_entries str func es q ≡ ok fs
        → Mapped func a (q ++ key (str k) ∷ keypath_of str p) (HoldsEntry fs k p)
    deep_map_entries-Holds func a (there {k} {v} {es} {p} r) q fs e =
        let (w, e', e'') =
          >>=-eq-ok (deep_map_at str func v (q ++ key (str k) ∷ []))
            (λ w. deep_map_entries str func es q >>= λ gs. ok (entry k w gs)) e in
        let (gs, f', f'') =
          >>=-eq-ok (deep_map_entries str func es q) (λ gs. ok (entry k w gs)) e'' in
        moved func a _ _ (Holds w p) (HoldsEntry fs k p)
          (append_assoc q (key (str k) ∷ []) (keypath_of str p))
          (λ b s. subst (λ x. HoldsEntry x k p b) (ok-injective f'') (there s))
          (deep_map_at-Holds func a r (q ++ key (str k) ∷ []) w e')
    deep_map_entries-Holds func a (behind {j} {k} {v} {es} {p} r) q fs e =
        let (w, e', e'') =
          >>=-eq-ok (deep_map_at str func v (q ++ key (str j) ∷ []))
            (λ w. deep_map_entries str func es q >>= λ gs. ok (entry j w gs)) e in
        let (gs, f', f'') =
          >>=-eq-ok (deep_map_entries str func es q) (λ gs. ok (entry j w gs)) e'' in
        moved func a _ _ (HoldsEntry gs k p) (HoldsEntry fs k p) refl
          (λ b s. subst (λ x. HoldsEntry x k p b) (ok-injective f'') (behind s))
          (deep_map_entries-Holds func a r q gs f')

  -- A result that is translated is one that was there.
  translated-ok :
      (o : Outcome RenderFault (Node K A)) (w : Node K A) → translated str o ≡ ok w → o ≡ ok w
  translated-ok (ok v) w e = e
  translated-ok (raise (runtime_error text)) w e =
      elim (Bool-cases (contains "maximum recursion depth exceeded" text)) [
        | inl is ↦
            absurd (no_value (recursion_error "Cycle detected in deep_map_render") (rw is at e))
        | inr is_not ↦ absurd (no_value (runtime_error text) (rw is_not at e))
      ]
    where
      no_value : (f : RenderFault) → ◌≡◌ {A = Outcome RenderFault (Node K A)} (raise f) (ok w) → ⊥
      no_value f q = cc
  translated-ok (raise (other_error text)) w e = cc
  translated-ok (raise (recursion_error text)) w e = cc
  translated-ok (raise (unexpected_type name)) w e = cc

  -- If deep_map_render returns a value, then for every atomic value that stands at some place of the argument, the function was defined for it and the keypath of the place, which has the texts of keys, and the result has at the place, by the keys themselves, what the function gave.
  pub deep_map_render-Holds :
      (func : Func K A) (value result : Node K A) (a : A) (place : List (Place K))
      → deep_map_render str func value ≡ ok result
      → Holds value place (atom a)
      → (mapped : Node K A) × (func a (keypath_of str place) ≡ ok mapped)
        × Holds result place mapped
  unfolding deep_map_render
  deep_map_render-Holds func value result a place e r =
      deep_map_at-Holds func a r [] result (translated-ok (deep_map_at str func value []) result e)

  -- The same for a value of another type.
  mutual
    unfolding deep_map_at

    no_other :
        (func : Func K A) (name : String) {v : Node K A} {p : List (Place K)}
        → Holds v p (other name)
        → (q : List Step) (w : Node K A) → deep_map_at str func v q ≡ ok w
        → ⊥
    no_other func name here q w e = cc
    no_other func name (in_list {vs} {i} {p} r) q w e =
        let (ws, e', e'') = >>=-eq-ok (deep_map_items str func vs 0 q) (λ ws. ok (list ws)) e in
        no_other_item func name r 0 q ws e'
    no_other func name (in_dict {es} {k} {p} r) q w e =
        let (fs, e', e'') = >>=-eq-ok (deep_map_entries str func es q) (λ fs. ok (dict fs)) e in
        no_other_entry func name r q fs e'

    no_other_item :
        (func : Func K A) (name : String) {vs : Nodes K A} {i : ℕ} {p : List (Place K)}
        → HoldsItem vs i p (other name)
        → (idx : ℕ) (q : List Step) (ws : Nodes K A) → deep_map_items str func vs idx q ≡ ok ws
        → ⊥
    no_other_item func name (first {v} {vs} {p} r) idx q ws e =
        let (w, e', e'') =
          >>=-eq-ok (deep_map_at str func v (q ++ index idx ∷ []))
            (λ w. deep_map_items str func vs (suc idx) q >>= λ us. ok (cons w us)) e in
        no_other func name r (q ++ index idx ∷ []) w e'
    no_other_item func name (further {v} {vs} {i} {p} r) idx q ws e =
        let (w, e', e'') =
          >>=-eq-ok (deep_map_at str func v (q ++ index idx ∷ []))
            (λ w. deep_map_items str func vs (suc idx) q >>= λ us. ok (cons w us)) e in
        let (us, f', f'') =
          >>=-eq-ok (deep_map_items str func vs (suc idx) q) (λ us. ok (cons w us)) e'' in
        no_other_item func name r (suc idx) q us f'

    no_other_entry :
        (func : Func K A) (name : String) {es : Fields K A} {k : K} {p : List (Place K)}
        → HoldsEntry es k p (other name)
        → (q : List Step) (fs : Fields K A) → deep_map_entries str func es q ≡ ok fs
        → ⊥
    no_other_entry func name (there {k} {v} {es} {p} r) q fs e =
        let (w, e', e'') =
          >>=-eq-ok (deep_map_at str func v (q ++ key (str k) ∷ []))
            (λ w. deep_map_entries str func es q >>= λ gs. ok (entry k w gs)) e in
        no_other func name r (q ++ key (str k) ∷ []) w e'
    no_other_entry func name (behind {j} {k} {v} {es} {p} r) q fs e =
        let (w, e', e'') =
          >>=-eq-ok (deep_map_at str func v (q ++ key (str j) ∷ []))
            (λ w. deep_map_entries str func es q >>= λ gs. ok (entry j w gs)) e in
        let (gs, f', f'') =
          >>=-eq-ok (deep_map_entries str func es q) (λ gs. ok (entry j w gs)) e'' in
        no_other_entry func name r q gs f'

  -- A value of a type that is neither a list, a dictionary nor atomic, wherever it stands, keeps deep_map_render from returning.
  pub deep_map_render-unexpected_type :
      (func : Func K A) (value : Node K A) (name : String) (place : List (Place K))
      → Holds value place (other name)
      → (result : Node K A) → ¬ (deep_map_render str func value ≡ ok result)
  unfolding deep_map_render
  deep_map_render-unexpected_type func value name place r result e =
      no_other func name r [] result (translated-ok (deep_map_at str func value []) result e)
