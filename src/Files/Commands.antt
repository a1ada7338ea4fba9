-- ===== src/Files/Commands.antt =====
-- The processes of dbt_common/clients/system.py: `run_cmd`, and how it interprets an OSError. The
-- texts of the messages are values of a type.
use Prim.Native.Nat.{ℕ, zero, suc}
use Prim.Native.String.{String}
use text.Mathlib.Text.{◌==◌}
use dbt_common.Common.{
  Bool, true, false, Option, none, some, List, [], ◌∷◌, ◌≡◌, ◌↔◌, refl, if◌then◌else◌, Bool-cases,
  inl, inr, ap,
}
use dbt_common.Common.Dict.{Dict, update}
use dbt_common.Common.Outcome.{Outcome, ok, raise, ok-injective}

pub data Errno : Type 0 where
  enoent eacces enotdir enoexec : Errno
  other : ℕ → Errno

pub record OsError : Type 0 where
  pub errno : Errno
  pub filename : Option String

pub data Message : Type 0 where
  directory_does_not_exist cannot_access_directory not_a_directory unknown_cwd_error : Message
  command_not_found no_permissions unknown_cmd_error : Message
  not_found_or_no_permissions not_executable unable_to_cd unknown_error : Message

-- The exceptions of dbt, with the directory and the command.
pub data CommandFault : Type 0 where
  command_error : String → List String → CommandFault
  command_message : String → List String → Message → CommandFault
  working_directory_error : String → List String → Message → CommandFault
  executable_error : String → List String → Message → CommandFault
  command_result_error : String → List String → ℕ → String → String → CommandFault

-- `_handle_posix_cwd_error`
abbrev posix_cwd_message : Errno → Message
posix_cwd_message enoent = directory_does_not_exist
posix_cwd_message eacces = cannot_access_directory
posix_cwd_message enotdir = not_a_directory
posix_cwd_message _ = unknown_cwd_error

-- `_handle_posix_cmd_error`
abbrev posix_cmd_message : Errno → Message
posix_cmd_message enoent = command_not_found
posix_cmd_message eacces = no_permissions
posix_cmd_message _ = unknown_cmd_error

abbrev pub names : String → Option String → Bool
names cwd none = false
names cwd (some filename) = filename == cwd

-- `_handle_posix_error`
unfoldable handle_posix_error : OsError → String → List String → CommandFault
handle_posix_error exc cwd cmd =
    if names cwd exc.filename
    then working_directory_error cwd cmd (posix_cwd_message exc.errno)
    else executable_error cwd cmd (posix_cmd_message exc.errno)

-- `_handle_windows_error`
abbrev windows_error : Errno → String → List String → CommandFault
windows_error enoent cwd cmd = executable_error cwd cmd not_found_or_no_permissions
windows_error enoexec cwd cmd = executable_error cwd cmd not_executable
windows_error enotdir cwd cmd = working_directory_error cwd cmd unable_to_cd
windows_error _ cwd cmd = command_message cwd cmd unknown_error

-- `_interpret_oserror`
unfoldable interpret_oserror : Bool → OsError → String → List String → CommandFault
unfolding handle_posix_error
interpret_oserror windows exc cwd [] = command_error cwd []
interpret_oserror windows exc cwd (exe ∷ args) =
    if windows
    then windows_error exc.errno cwd (exe ∷ args)
    else handle_posix_error exc cwd (exe ∷ args)

-- A process that ended: its output, its error output and its return code.
pub record Completed : Type 0 where
  pub out : String
  pub err : String
  pub returncode : ℕ

-- What the code takes from the operating system for processes.
pub record ProcessLibrary : Type 0 where
  pub windows : Bool
  pub environ : Dict String
  -- `shutil.which`, of a command that is found by a path that is not empty
  pub which : String → Option String
  pub abspath : String → String
  -- `Popen(cmd, cwd, env)` and `communicate`
  pub popen : List String → String → Option (Dict String) → Outcome OsError Completed

abbrev is_zero : ℕ → Bool
is_zero zero = true
is_zero (suc n) = false

pub data SystemEvent : Type 0 where
  executing_cmd : List String → SystemEvent
  std_out std_err : String → SystemEvent
  report_return_code : ℕ → SystemEvent

module _ (os : ProcessLibrary) where
  abbrev pub full_env : Option (Dict String) → Option (Dict String)
  full_env none = none
  full_env (some env) = some (update os.environ env)

  abbrev pub found_command : String → List String → Option String → List String
  found_command exe args none = exe ∷ args
  found_command exe args (some exe_pth) = os.abspath exe_pth ∷ args

  -- What comes after the process: the events that are fired, and the outcome.
  abbrev after_process :
      String
      → List String
      → Outcome OsError Completed
      → List SystemEvent × Outcome CommandFault (String × String)
  after_process cwd cmd (raise exc) = ([], raise (interpret_oserror os.windows exc cwd cmd))
  after_process cwd cmd (ok proc) =
      if is_zero proc.returncode
      then (std_out proc.out ∷ std_err proc.err ∷ [], ok (proc.out, proc.err))
      else (
        std_out proc.out ∷ std_err proc.err ∷ report_return_code proc.returncode ∷ [],
        raise (command_result_error cwd cmd proc.returncode proc.out proc.err),
      )

  -- `run_cmd`: the events that are fired, and the outcome.
  pub run_cmd :
      String
      → List String
      → Option (Dict String)
      → List SystemEvent × Outcome CommandFault (String × String)
  unfolding interpret_oserror update
  run_cmd cwd [] env = (executing_cmd [] ∷ [], raise (command_error cwd []))
  run_cmd cwd (exe ∷ args) env =
      let cmd = found_command exe args (os.which exe) in
      let (events, result) = after_process cwd cmd (os.popen cmd cwd (full_env env)) in
      (executing_cmd (exe ∷ args) ∷ events, result)

  completed_zero : (proc : Completed) → is_zero proc.returncode ≡ true → proc.returncode ≡ 0
  completed_zero proc e = is_zero-sound proc.returncode e
    where
      is_zero-sound : (n : ℕ) → is_zero n ≡ true → n ≡ 0
      is_zero-sound zero q = refl
      is_zero-sound (suc n) q = cc q

  ended :
      (cwd : String) (cmd : List String) (r : Outcome OsError Completed) (o e : String)
      → ((after_process cwd cmd r).1 ≡ ok (o, e))
        ↔ (r ≡ ok (record { out = o; err = e; returncode = 0 }))
  ended cwd cmd (raise exc) o e = (λ q. cc q, λ q. cc q)
  ended cwd cmd (ok proc) o e = elim (Bool-cases (is_zero proc.returncode)) [
    | inl is ↦
        let code : proc.returncode ≡ 0 = completed_zero proc is in
        (
          λ q.
              let outs : (proc.out, proc.err) ≡ (o, e) = ok-injective (rw is at q) in
              ap ok (cc (code, ap (λ x. x.0) outs, ap (λ x. x.1) outs)),
          λ q. rw is (ap (λ p. ok (p.out, p.err)) (ok-injective q)),
        )
    | inr is_not ↦ (
      λ q. cc (rw is_not at q),
      λ q. absurd (nonzero (ap (λ p. p.returncode) (ok-injective q)) is_not),
    )
  ]
    where
      nonzero : {n : ℕ} → n ≡ 0 → is_zero n ≡ false → ⊥
      nonzero e' h = cc (rw e' at h)

  -- run_cmd of a command returns an output and error output exactly if the process, started with the path that is found for the command and with the environment updated, ends with these outputs and the return code 0.
  pub run_cmd-eq-ok :
      (cwd exe : String) (args : List String) (env : Option (Dict String)) (out err : String)
      → ((run_cmd cwd (exe ∷ args) env).1 ≡ ok (out, err)) ↔ (
          os.popen (found_command exe args (os.which exe)) cwd (full_env env)
          ≡ ok (record { out = out; err = err; returncode = 0 }))
  unfolding run_cmd
  run_cmd-eq-ok cwd exe args env out err =
      let cmd = found_command exe args (os.which exe) in
      ended cwd cmd (os.popen cmd cwd (full_env env)) out err
