-- ===== src/WarnError/Precedence.antt =====
-- The hierarchy that the documentation of `WarnErrorOptionsV2` gives, and `errors` and `silenced` of
-- dbt_common/helper_types.py in terms of it.
use dbt_common.Common.{
  Bool, true, false, ◌&&◌, List, [], ◌∷◌, ◌≡◌, arith, All, ◌⊎◌, inl, inr, if◌then◌else◌, String,
  refl, ◌↔◌, Bool-cases,
}
use dbt_common.Common.Dict.{mem}
use dbt_common.Common.Outcome.{ok}
use dbt_common.WarnError.Options.{
  Selection, one, names, is_all, named_in, deprecations, WarnErrorOptionsV2, Item, item_name,
  is_deprecation, errors, silenced, post_init, validate_items, is_text_not_all, validate_selection,
}

-- How a warning is handled: as an error, as a warning, or not at all.
pub data Handling : Type 0 where
  as_error as_warning as_silenced : Handling

-- The first of silence, warn and error that holds, or else what the next level says.
abbrev level : (silence warn error : Bool) → Handling → Handling
level silence warn error next =
    if silence then as_silenced else if warn then as_warning else if error then as_error else next

-- A name outranks "Deprecations", which outranks "all"; at each level silence outranks warn, and
-- warn outranks error. What nothing speaks of stays a warning.
pub handling : WarnErrorOptionsV2 → Item → Handling
handling o item =
    level (mem (item_name item) o.silence) (mem (item_name item) o.warn)
      (named_in (item_name item) o.error)
      (level (is_deprecation item && mem deprecations o.silence)
        (is_deprecation item && mem deprecations o.warn)
        (is_deprecation item && named_in deprecations o.error)
        (if is_all o.error then as_error else as_warning))

abbrev pub is_error : Handling → Bool
is_error as_error = true
is_error _ = false

abbrev pub is_silenced : Handling → Bool
is_silenced as_silenced = true
is_silenced _ = false

-- `errors` and `silenced` follow the hierarchy in the docstring of the class WarnErrorOptionsV2, for every item and all options.
pub errors-silenced-handling :
    (o : WarnErrorOptionsV2) (item : Item)
    → (errors o item ≡ is_error (handling o item))
      × (silenced o item ≡ is_silenced (handling o item))
unfolding handling errors silenced
errors-silenced-handling o item = (ground arith, ground arith)

validate_items-ok :
    (valid items : List String)
    → (validate_items valid items ≡ ok tt) ↔ All (λ n. mem n valid ≡ true) items
unfolding validate_items
validate_items-ok valid [] = (λ h. tt, λ h. refl)
validate_items-ok valid (n ∷ ns) = elim (Bool-cases (mem n valid)) [
  | inl known ↦
      rw known
        (λ h. (refl, (validate_items-ok valid ns).0 h), λ h. (validate_items-ok valid ns).1 h.1)
  | inr unknown ↦ rw unknown (λ h. cc, λ h. cc (h.0))
]

-- The names in an `error` option, if it is a list.
abbrev error_names : Selection → List String
error_names (one s) = []
error_names (names xs) = xs

validate_selection-ok :
    (valid : List String) (s : Selection)
    → (validate_selection valid s ≡ ok tt) ↔ All (λ n. mem n valid ≡ true) (error_names s)
validate_selection-ok valid (one s) = (λ h. tt, λ h. refl)
validate_selection-ok valid (names xs) = validate_items-ok valid xs

-- What the options must satisfy.
pub record IsAllowed (o : WarnErrorOptionsV2) : Type 0 where
  pub error_valid : is_text_not_all o.error ≡ false
  pub may_warn :
      (o.warn ≡ [])
      ⊎ ((is_all o.error ≡ true)
          ⊎ ((named_in deprecations o.error ≡ true) ⊎ (mem deprecations o.silence ≡ true)))
  pub errors_named : All (λ n. mem n o.valid_error_names ≡ true) (error_names o.error)
  pub warns_named : All (λ n. mem n o.valid_error_names ≡ true) o.warn
  pub silences_named : All (λ n. mem n o.valid_error_names ≡ true) o.silence

-- The options are accepted, unchanged, exactly if: a text for `error` is "all" or "*"; `warn` is empty, or `error`
-- is "all" or "*" or names the deprecations, or `silence` names the deprecations; and all names
-- that are listed are valid error names.
pub post_init-ok : (o : WarnErrorOptionsV2) → (post_init o ≡ ok o) ↔ IsAllowed o
unfolding post_init
post_init-ok o = (accepted, accepts)
  where
    of_error :
        validate_selection o.valid_error_names o.error ≡ ok tt
        ↔ All (λ n. mem n o.valid_error_names ≡ true) (error_names o.error)
    of_error = validate_selection-ok o.valid_error_names o.error

    of_warn :
        validate_items o.valid_error_names o.warn ≡ ok tt
        ↔ All (λ n. mem n o.valid_error_names ≡ true) o.warn
    of_warn = validate_items-ok o.valid_error_names o.warn

    of_silence :
        validate_items o.valid_error_names o.silence ≡ ok tt
        ↔ All (λ n. mem n o.valid_error_names ≡ true) o.silence
    of_silence = validate_items-ok o.valid_error_names o.silence

    accepted : post_init o ≡ ok o → IsAllowed o
    accepted h = record {
      error_valid = ground arith;
      may_warn = ground arith;
      errors_named = of_error.0 (ground arith);
      warns_named = of_warn.0 (ground arith);
      silences_named = of_silence.0 (ground arith);
    }

    accepts : IsAllowed o → post_init o ≡ ok o
    accepts h =
        rw
          (
            h.error_valid,
            of_error.1 h.errors_named,
            of_warn.1 h.warns_named,
            of_silence.1 h.silences_named,
          )
          (ground (arith, h.may_warn))
