-- ===== src/Files/Tests.antt =====
-- The theorems about files and processes at concrete inputs.
use Prim.Native.Nat.{ℕ}
use Prim.Native.String.{String}
use dbt_common.Common.{
  refl, sym, ap, ◌∙◌, ◌&&◌, ◌==◌, ◌++◌, if◌then◌else◌, Bool-cases, inl, inr, ◌≡◌, starts_with, true,
  false, ◌||◌, Option, none, some, List, [], ◌∷◌, ◌++◌, ◌≡◌, ◌↔◌, refl, Text, length, ltb,
}
use dbt_common.Common.Codes.{codes}
use dbt_common.Common.Outcome.{ok, raise}
use dbt_common.Files.Paths.{PathLibrary, prefix, convert_path, convert_path-once}
use dbt_common.Files.Archive.{
  ArchiveLibrary, Tarball, safe_extract, common_names, IsDocumented, Extracts,
  safe_extract-Extracts,
}
use dbt_common.Files.Commands.{ProcessLibrary, run_cmd, found_command, full_env, run_cmd-eq-ok}
use dbt_common.Files.Store.{FileLibrary, OsFault, write_file, written, Handled, write_file-Handled}

abbrev windows_paths : PathLibrary
windows_paths = record {
  normpath = λ p. p;
  join = λ a b. a ++ codes "\\" ++ b;
  drive_of = λ p. codes "C:";
  getcwd = codes "C:\\work";
  expanduser = λ p. p;
  abspath = λ p. p;
  supports_long_paths = false;
}

convert_path-once_run :
    (convert_path windows_paths (convert_path windows_paths (codes "a"))
      ≡ convert_path windows_paths (codes "a"))
    × ((ltb (length (codes "a")) 250 || false) ≡ true
        → convert_path windows_paths (codes "a") ≡ codes "a")
    × ((ltb (length (codes "a")) 250 || false) ≡ false
        → starts_with (convert_path windows_paths (codes "a")) (prefix windows_paths) ≡ true)
convert_path-once_run = convert_path-once windows_paths (codes "a")

-- A file system whose names are single characters, so that a path is the list of its names. Joining
-- drops the directory for a member that starts with a slash.
abbrev letters : Text → List Text
letters [] = []
letters (c ∷ cs) = (c ∷ []) ∷ letters cs

abbrev common_start : Text → Text → Text
common_start [] bs = []
common_start (a ∷ as') [] = []
common_start (a ∷ as') (b ∷ bs) = if a == b && true then a ∷ common_start as' bs else []

abbrev under : Text → Text → Text
under directory [] = directory
under directory (c ∷ cs) = if c == b'/' then cs else directory ++ c ∷ cs

abbrev archives : ArchiveLibrary (List Text) String
archives = record {
  abspath = λ p. p;
  join = under;
  commonpath = λ a b. some (common_start a b);
  extractall_filtered = λ p t s. (none, s);
  extractall = λ p members s. (none, members ++ s);
}

letters-common_start :
    (a b : Text) → letters (common_start a b) ≡ common_names (letters a) (letters b)
letters-common_start [] b = refl
letters-common_start (a ∷ as') [] = refl
letters-common_start (a ∷ as') (b ∷ bs) = elim (Bool-cases (a == b && true)) [
  | inl same ↦ rw same (ap (λ l. (a ∷ []) ∷ l) (letters-common_start as' bs))
  | inr other ↦ rw other refl
]

abbrev joined : List Text → Text
joined [] = []
joined (n ∷ ns) = n ++ joined ns

joined-letters : (t : Text) → joined (letters t) ≡ t
joined-letters [] = refl
joined-letters (c ∷ cs) = ap (λ l. c ∷ l) (joined-letters cs)

archives-IsDocumented : IsDocumented archives letters
archives-IsDocumented = record {
  common = λ d t p e. rw (← the_path (common_start d t) p e) (letters-common_start d t);
  nothing_common = λ d t e. cc e;
  by_names = λ d t p e h. sym (joined-letters p) ∙ ap joined h ∙ joined-letters d;
}
  where
    the_path : (a b : Text) → ◌≡◌ {A = Option Text} (some a) (some b) → a ≡ b
    the_path a b q = cc q

abbrev tarball : Tarball
tarball = record { getmembers = codes "a" ∷ codes "/b" ∷ []; has_data_filter = false }

safe_extract-Extracts_example :
    Extracts archives letters tarball (codes "d") [] (safe_extract archives tarball (codes "d") [])
safe_extract-Extracts_example =
    safe_extract-Extracts archives letters archives-IsDocumented tarball (codes "d") [] refl

abbrev processes : ProcessLibrary
processes = record {
  windows = false;
  environ = [];
  which = λ exe. some exe;
  abspath = λ exe. exe;
  popen = λ cmd cwd env. ok (record { out = "done"; err = ""; returncode = 0 });
}

run_cmd-eq-ok_run : ((run_cmd processes "." ("git" ∷ "status" ∷ []) none).1 ≡ ok ("done", "")) ↔ (
    processes.popen
      (found_command processes "git" ("status" ∷ []) (processes.which "git"))
      "."
      (full_env processes none)
    ≡ ok (record { out = "done"; err = ""; returncode = 0 }))
run_cmd-eq-ok_run = run_cmd-eq-ok processes "." "git" ("status" ∷ []) none "done" ""

abbrev full_disk : OsFault
full_disk = record { text = "No space left"; is_eexist = false; winerror_is_3 = false }

abbrev files : FileLibrary ℕ
files = record {
  windows = true;
  convert_path = λ p. p;
  exists = λ p s. true;
  is_link = λ p s. false;
  dirname = λ p. p;
  join = λ a b. b;
  makedirs = λ p s. (ok tt, s);
  write = λ p c s. (raise full_disk, s);
  remove = λ p s. (ok tt, s);
  rmtree = λ p s. (ok tt, s);
  move = λ p q s. (ok tt, s);
  extract = λ p q s. (ok [], s);
  commonprefix = λ names. "";
}

write_file-Handled_run :
    Handled files "f" (written files "f" "text" 0) (write_file files "f" "text" 0)
write_file-Handled_run = write_file-Handled files "f" "text" 0
