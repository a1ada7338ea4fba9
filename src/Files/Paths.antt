-- ===== src/Files/Paths.antt =====
-- The paths of dbt_common/clients/system.py. A path is a text, and what `os.path` gives for it is a
-- parameter.

use dbt_common.Common.{
  starts_with, contains, Bool, true, false, ◌&&◌, ◌||◌, not, [], ◌∷◌, ◌++◌, ◌≡◌, refl, Text, length,
  ltb, if◌then◌else◌, Bool-cases, inl, inr, ap,
}
use dbt_common.Common.Codes.{codes}

abbrev pub is_empty : Text → Bool
is_empty [] = true
is_empty (c ∷ cs) = false

-- `_record_path`
unfoldable record_path : Text → Bool
record_path path =
    not (contains (codes "dbt/include") path)
    && (not (contains (codes "dbt/include/global_project") path)
        && not (contains (codes "/plugins/postgres/dbt/include/") path))

-- What the code takes from the operating system for paths.
pub record PathLibrary : Type 0 where
  pub normpath : Text → Text
  pub join : Text → Text → Text
  -- `splitdrive(path)[0]`
  pub drive_of : Text → Text
  pub getcwd : Text
  pub expanduser : Text → Text
  pub abspath : Text → Text
  -- `_supports_long_paths()`
  pub supports_long_paths : Bool

module _ (os : PathLibrary) where
  -- `resolve_path_from_base`
  unfoldable resolve_path_from_base : Text → Text → Text
  resolve_path_from_base path_to_resolve base_path =
      os.abspath (os.join base_path (os.expanduser path_to_resolve))

  abbrev with_drive : Text → Text
  with_drive path =
      if not (starts_with path (codes "\\\\")) && starts_with path (codes "\\")
      then os.drive_of os.getcwd ++ path
      else path

  abbrev absolute : Text → Text
  absolute path = if is_empty (os.drive_of path) then os.join os.getcwd path else path

  -- `_win_prepare_path`
  unfoldable win_prepare_path : Text → Text
  win_prepare_path path = absolute (with_drive (os.normpath path))

  abbrev pub prefix : Text
  prefix = codes "\\\\?\\"

  abbrev pub with_prefix : Text → Text
  with_prefix path = if starts_with path prefix then path else prefix ++ path

  pub convert_path : Text → Text
  unfolding win_prepare_path
  convert_path path =
      if ltb (length path) 250
      then path
      else if os.supports_long_paths
      then path
      else if starts_with path prefix
      then path
      else with_prefix (win_prepare_path path)

  with_prefix-starts_with : (path : Text) → starts_with (with_prefix path) prefix ≡ true
  with_prefix-starts_with path = elim (Bool-cases (starts_with path prefix)) [
    | inl is ↦ rw (is, is) refl
    | inr is_not ↦ rw is_not refl
  ]

  -- A path that is not changed.
  unchanged : (path : Text) → starts_with path prefix ≡ true → convert_path path ≡ path
  unfolding convert_path
  unchanged path e = elim (Bool-cases (ltb (length path) 250)) [
    | inl short ↦ rw (short, convert_path) refl
    | inr long ↦ elim (Bool-cases os.supports_long_paths) [
      | inl supported ↦ rw (long, supported, convert_path) refl
      | inr unsupported ↦ rw (long, unsupported, e, convert_path) refl
    ]
  ]

  kept :
      (path : Text)
      → (ltb (length path) 250 || os.supports_long_paths) ≡ true
      → convert_path path ≡ path
  unfolding convert_path
  kept path e = elim (Bool-cases (ltb (length path) 250)) [
    | inl short ↦ rw (short, convert_path) refl
    | inr long ↦
        let supported : os.supports_long_paths ≡ true = rw long at e in
        rw (long, supported, convert_path) refl
  ]

  converted :
      (path : Text)
      → (ltb (length path) 250 || os.supports_long_paths) ≡ false
      → starts_with (convert_path path) prefix ≡ true
  unfolding convert_path
  converted path e = elim (Bool-cases (ltb (length path) 250)) [
    | inl short ↦ cc (rw short at e)
    | inr long ↦
        let unsupported : os.supports_long_paths ≡ false = rw long at e in
        elim (Bool-cases (starts_with path prefix)) [
          | inl is ↦ rw (long, unsupported, is, convert_path) is
          | inr is_not ↦
              rw (long, unsupported, is_not, convert_path)
                (with_prefix-starts_with (win_prepare_path path))
        ]
  ]

  once : (path : Text) → convert_path (convert_path path) ≡ convert_path path
  once path = elim (Bool-cases (ltb (length path) 250 || os.supports_long_paths)) [
    | inl same ↦ ap convert_path (kept path same)
    | inr other ↦ unchanged (convert_path path) (converted path other)
  ]

  -- convert_path leaves a path as it is if it is shorter than 250 characters or long paths are supported, and its result starts with the Windows prefix otherwise; applied to its own result it changes nothing more.
  pub convert_path-once :
      (path : Text)
      → (convert_path (convert_path path) ≡ convert_path path)
        × ((ltb (length path) 250 || os.supports_long_paths) ≡ true → convert_path path ≡ path)
        × ((ltb (length path) 250 || os.supports_long_paths) ≡ false
            → starts_with (convert_path path) prefix ≡ true)
  convert_path-once path = (once path, kept path, converted path)
