-- ===== src/Files/Store.antt =====
-- Files and directories of dbt_common/clients/system.py. The state of the file system, and what the
-- operating system does to it, are parameters; so is the conversion of paths.
use Prim.Native.String.{String}
use text.Mathlib.Text.{◌==◌}
use dbt_common.Common.{
  Bool, true, false, ◌&&◌, ◌||◌, not, Option, none, some, List, [], ◌∷◌, ◌≡◌, refl, if◌then◌else◌,
  Bool-cases, inl, inr, ◌⊎◌,
}
use dbt_common.Common.Outcome.{Outcome, ok, raise}

-- An exception of the operating system, as the code reads it.
pub record OsFault : Type 0 where
  pub text : String
  pub is_eexist : Bool
  pub winerror_is_3 : Bool

-- An operation: what it returns or raises, and the file system behind it.
abbrev Action : Type 0 → Type 0 → Type 0
Action S A = S → Outcome OsFault A × S

pub record FileLibrary (S : Type 0) : Type 0 where
  pub windows : Bool
  pub convert_path : String → String
  pub exists : String → S → Bool
  pub is_link : String → S → Bool
  pub dirname : String → String
  pub join : String → String → String
  pub makedirs : String → Action S (Unit {0})
  -- `open(path, "w")` and `write`
  pub write : String → String → Action S (Unit {0})
  pub remove : String → Action S (Unit {0})
  pub rmtree : String → Action S (Unit {0})
  pub move : String → String → Action S (Unit {0})
  -- the names in an archive, and their extraction
  pub extract : String → String → Action S (List String)
  pub commonprefix : List String → String

pub data FileEvent : Type 0 where
  could_not_write : (path reason exc : String) → FileEvent

module _ {S : Type 0} (os : FileLibrary S) where
  abbrev ignoring_eexist : Outcome OsFault (Unit {0}) × S → Outcome OsFault (Unit {0}) × S
  ignoring_eexist (ok u, s) = (ok u, s)
  ignoring_eexist (raise f, s) = if f.is_eexist then (ok tt, s) else (raise f, s)

  -- `make_directory`, of a path that is a text
  pub make_directory : String → Action S (Unit {0})
  make_directory path s =
      let path' : String = os.convert_path path in
      if os.exists path' s then (ok tt, s) else ignoring_eexist (os.makedirs path' s)

  -- To go on after an action that did not raise.
  abbrev and_then :
      {A : Type 0} → Outcome OsFault (Unit {0}) × S → Action S A → Outcome OsFault A × S
  and_then (ok u, s) next = next s
  and_then (raise f, s) next = (raise f, s)

  abbrev answering : Bool → Outcome OsFault (Unit {0}) × S → Outcome OsFault Bool × S
  answering answer (ok u, s) = (ok answer, s)
  answering answer (raise f, s) = (raise f, s)

  -- `make_file`
  unfoldable pub make_file : String → String → (overwrite : Bool) → Action S Bool
  make_file path contents overwrite s =
      if overwrite || not (os.exists path s)
      then answering true (os.write (os.convert_path path) contents s)
      else (ok false, s)

  abbrev reason : OsFault → String
  reason f = if f.winerror_is_3 then "Path was too long" else "Path was possibly too long"

  -- The directory and the file, without the handling of exceptions.
  unfoldable pub written : String → String → Action S (Unit {0})
  unfolding make_directory
  written path contents s = and_then (make_directory (os.dirname path) s) (os.write path contents)

  -- On Windows an exception is only reported.
  abbrev reported :
      String → Outcome OsFault (Unit {0}) × S → List FileEvent × Outcome OsFault Bool × S
  reported path (ok u, s) = ([], ok true, s)
  reported path (raise f, s) =
      if os.windows
      then (could_not_write path (reason f) f.text ∷ [], ok true, s)
      else ([], raise f, s)

  -- `write_file`: the events that are fired, what it returns or raises, and the file system.
  pub write_file : String → String → S → List FileEvent × Outcome OsFault Bool × S
  unfolding written
  write_file path contents s =
      let path' : String = os.convert_path path in reported path' (written path' contents s)

  -- `path_is_symlink`, `remove_file`, `rmdir`
  abbrev path_is_symlink : String → S → Bool
  path_is_symlink path s = os.is_link (os.convert_path path) s

  abbrev remove_file : String → Action S (Unit {0})
  remove_file path = os.remove (os.convert_path path)

  abbrev rmdir : String → Action S (Unit {0})
  rmdir path = os.rmtree (os.convert_path path)

  abbrev make_way : String → Bool → Bool → Action S (Unit {0})
  make_way to_path is_symlink force s =
      if os.exists to_path s && force
      then if is_symlink then remove_file to_path s else rmdir to_path s
      else (ok tt, s)

  -- `rename`
  pub rename : String → String → (force : Bool) → Action S (Unit {0})
  rename from_path to_path force s =
      let from_path' : String = os.convert_path from_path in
      let to_path' : String = os.convert_path to_path in
      let is_symlink : Bool = path_is_symlink to_path' s in
      if from_path' == to_path'
      then (ok tt, s)
      else and_then (make_way to_path' is_symlink force s) (os.move from_path' to_path')

  abbrev renamed :
      String → Option String → Outcome OsFault (List String) × S → Outcome OsFault (Unit {0}) × S
  renamed dest_dir rename_to (raise f, s) = (raise f, s)
  renamed dest_dir none (ok names, s) = (ok tt, s)
  renamed dest_dir (some to) (ok names, s) =
      if to == ""
      then (ok tt, s)
      else rename (os.join dest_dir (os.commonprefix names)) (os.join dest_dir to) true s

  -- `untar_package`
  unfoldable pub untar_package : String → String → Option String → Action S (Unit {0})
  unfolding rename
  untar_package tar_path dest_dir rename_to s =
      renamed dest_dir rename_to (os.extract (os.convert_path tar_path) dest_dir s)

  -- What becomes of an attempt to write: on Windows an exception is reported once and the answer is true, elsewhere it is raised.
  abbrev pub Handled :
      String → Outcome OsFault (Unit {0}) × S → List FileEvent × Outcome OsFault Bool × S → Type 0
  Handled path (ok u, s) (events, result, s') = (events ≡ []) × (result ≡ ok true) × (s' ≡ s)
  Handled path (raise f, s) (events, result, s') =
      (s' ≡ s)
      × ((os.windows ≡ true)
            × (result ≡ ok true)
            × (events ≡ could_not_write path (reason f) f.text ∷ [])
          ⊎ (os.windows ≡ false) × (result ≡ raise f) × (events ≡ []))

  reported-Handled :
      (path : String) (attempt : Outcome OsFault (Unit {0}) × S)
      → Handled path attempt (reported path attempt)
  reported-Handled path (ok u, s) = (refl, refl, refl)
  reported-Handled path (raise f, s) = elim (Bool-cases os.windows) [
    | inl is ↦ rw is (refl, inl (refl, refl, refl))
    | inr is_not ↦ rw is_not (refl, inr (refl, refl, refl))
  ]

  -- write_file makes the directory of the converted path and writes the file, and leaves the file system as that does; an exception of it is raised again, except on Windows, where it is reported in one event and write_file returns true.
  pub write_file-Handled :
      (path contents : String) (s : S)
      → Handled
          (os.convert_path path)
          (written (os.convert_path path) contents s)
          (write_file path contents s)
  unfolding write_file
  write_file-Handled path contents s =
      reported-Handled (os.convert_path path) (written (os.convert_path path) contents s)
