-- ===== src/ContextVars/Restoring.antt =====
-- dbt_common/events/contextvars.py: the variables behind a context manager.
use Prim.Native.String.{◌++◌ as str_append}
use text.Mathlib.Text.{◌==◌}
use dbt_common.Common.{
  String, Bool, true, false, Option, none, some, List, [], ◌∷◌, if◌then◌else◌, Bool-cases,
  Option-cases, ◌≡◌, refl, subst, ap, ◌∙◌, arith, eq_iff, inl, inr,
}
use dbt_common.Common.Dict.{Dict, insert, has, keys, mem, later, lookup-insert}
use dbt_common.ContextVars.Variables.{
  Variables, visible, get_contextvars, set_contextvars, unset_contextvars, saved_values,
  with_contextvars,
}

abbrev pub prefixed : String → List String → List String
prefixed prefix [] = []
prefixed prefix (k ∷ ks) = str_append prefix k ∷ prefixed prefix ks

module _ {V : Type 0} where
  visible-insert :
      (n j : String) (v : Option V) (vars : Variables V)
      → visible n (insert j v vars) ≡ (if j == n then v else visible n vars)
  unfolding visible
  visible-insert n j v vars =
      rw (lookup-insert j n v vars)
        (elim (Bool-cases (j == n)) [ inl same ↦ rw same refl | inr other ↦ rw other refl ])

  visible-missing : (n : String) (vars : Variables V) → has n vars ≡ false → visible n vars ≡ none
  unfolding visible has
  visible-missing n vars h = ground (arith, h)

  visible-unset_one :
      (n j : String) (vars : Variables V)
      → visible n (if has j vars then insert j none vars else vars)
        ≡ (if j == n then none else visible n vars)
  visible-unset_one n j vars = elim (Bool-cases (has j vars)) [
    | inl there ↦ rw there (visible-insert n j none vars)
    | inr missing ↦ rw missing (ground (arith, visible-missing j vars missing, eq_iff j n))
  ]

  visible-unset :
      (n prefix : String) (ks : List String) (vars : Variables V)
      → visible n (unset_contextvars prefix ks vars)
        ≡ (if mem n (prefixed prefix ks) then none else visible n vars)
  unfolding unset_contextvars
  visible-unset n prefix [] vars = refl
  visible-unset n prefix (k ∷ ks) vars =
      visible-unset n prefix ks
        (if has (str_append prefix k) vars then insert (str_append prefix k) none vars else vars)
      ∙ rw (visible-unset_one n (str_append prefix k) vars) (ground arith)

  if_same : (b : Bool) (o : Option V) → (if b then o else o) ≡ o
  if_same true o = refl
  if_same false o = refl

  later-none : (o : Option V) → later o none ≡ o
  later-none none = refl
  later-none (some v) = refl

  saved-missing :
      (prefix k : String) (ks : List String) (vars : Variables V)
      → visible (str_append prefix k) vars ≡ none
      → saved_values prefix (k ∷ ks) vars ≡ saved_values prefix ks vars
  unfolding saved_values get_contextvars
  saved-missing prefix k ks vars h = rw (saved_values, get_contextvars, h) refl

  saved-there :
      (prefix k : String) (ks : List String) (vars : Variables V) (v : V)
      → visible (str_append prefix k) vars ≡ some v
      → saved_values prefix (k ∷ ks) vars ≡ (k, v) ∷ saved_values prefix ks vars
  unfolding saved_values get_contextvars
  saved-there prefix k ks vars v h = rw (saved_values, get_contextvars, h) refl

  visible-set_saved :
      (n prefix : String) (ks : List String) (vars now : Variables V)
      → visible n (set_contextvars prefix (saved_values prefix ks vars) now) ≡ (
          if mem n (prefixed prefix ks)
          then later (visible n vars) (visible n now)
          else visible n now)
  unfolding set_contextvars saved_values get_contextvars
  visible-set_saved n prefix [] vars now = refl
  visible-set_saved n prefix (k ∷ ks) vars now =
      elim (Option-cases (visible (str_append prefix k) vars)) [
        | inl missing ↦
            ap (λ d. visible n (set_contextvars prefix d now))
              (saved-missing prefix k ks vars missing)
            ∙ visible-set_saved n prefix ks vars now
            ∙ elim (Bool-cases (str_append prefix k == n)) [
              | inl same ↦
                  rw
                    (
                      same,
                      subst (λ m. visible m vars ≡ none) ((eq_iff (str_append prefix k) n).0 same)
                          missing,
                    )
                    (if_same (mem n (prefixed prefix ks)) (visible n now))
              | inr other ↦ rw other refl
            ]
        | inr (v, there) ↦
            ap (λ d. visible n (set_contextvars prefix d now))
              (saved-there prefix k ks vars v there)
            ∙ (visible-set_saved n prefix ks vars (insert (str_append prefix k) (some v) now)
                ∙ rw (visible-insert n (str_append prefix k) (some v) now)
                    (elim (Bool-cases (str_append prefix k == n)) [
                      | inl same ↦
                          rw
                            (
                              same,
                              subst (λ m. visible m vars ≡ some v)
                                  ((eq_iff (str_append prefix k) n).0 same) there,
                            )
                            (if_same (mem n (prefixed prefix ks)) (some v))
                      | inr other ↦ rw other refl
                    ]))
      ]

  -- After log_contextvars or task_contextvars, the variables that were set have the values from before, or none if they had none, whatever the body did; the others are as the body left them.
  pub with_contextvars-restores :
      (n prefix : String) (kwargs : Dict V) (body : Variables V → Variables V) (vars : Variables V)
      → visible n (with_contextvars prefix kwargs body vars) ≡ (
          if mem n (prefixed prefix (keys kwargs))
          then visible n vars
          else visible n (body (set_contextvars prefix kwargs vars)))
  unfolding with_contextvars
  with_contextvars-restores n prefix kwargs body vars =
      let ran : Variables V = body (set_contextvars prefix kwargs vars) in
      visible-set_saved n prefix (keys kwargs) vars (unset_contextvars prefix (keys kwargs) ran)
      ∙ rw (visible-unset n prefix (keys kwargs) ran)
          (elim (Bool-cases (mem n (prefixed prefix (keys kwargs)))) [
            | inl set ↦ rw set (later-none (visible n vars))
            | inr other ↦ rw other refl
          ])
