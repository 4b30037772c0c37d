-- ===== src/Storage/AtomicFile.antt =====
-- src/storage/atomic_file.cpp: `write_file_atomically` and `remove_file_if_present`, as they are
-- built for POSIX systems. The files are a function from paths to contents; each system call is
-- known by its result, and changes the files as it is documented to.
pub mod Atomicity
use nuvio_engine.Common.{
  ℕ, Bool, List, [], ◌++◌, Option, none, some, Bytes, bytes_eq, take, if◌then◌else◌, ◌==◌,
}
use nuvio_engine.Text.{codes}
use nuvio_engine.Std.Results.{system_error, invalid_argument}
use nuvio_engine.Storage.WriteLoop.{Outcome, finished, blocked, raised, WriteCall, write_all}

-- The regular files by their paths.
abbrev pub Files : Type 0
Files = Bytes → Option Bytes

abbrev pub set_file : Bytes → Option Bytes → Files → Files
set_file path contents files other = if bytes_eq path other then contents else files other

unfoldable pub temporary_path : Bytes → Bytes
temporary_path path = path ++ codes ".tmp"

-- The results of the system calls: an error number where one fails. A removal tells whether the
-- file is gone.
pub record Calls : Type 0 where
  pub create_directories : Option ℕ
  pub removed_before : Bool
  pub opened : Option ℕ
  pub writes : List WriteCall
  pub synced : Option ℕ
  pub closed : Option ℕ
  pub renamed : Option ℕ
  pub directory_opened : Option ℕ
  pub directory_synced : Option ℕ
  pub directory_closed : Option ℕ
  pub removed_after : Bool

-- A routine on the files.
abbrev pub Routine : Type 0
Routine = Files → Files × Outcome

infixl 5 ◌>>◌
abbrev pub ◌>>◌ : Routine → Routine → Routine
◌>>◌ first second files = elim (first files).1 [
  | finished ↦ second (first files).0
  | blocked ↦ ((first files).0, blocked)
  | raised e ↦ ((first files).0, raised e)
]

-- A call that leaves the files alone, and throws where it fails.
abbrev pub check : Option ℕ → Routine
check none files = (files, finished)
check (some error) files = (files, raised (system_error error))

-- `open` with `O_CREAT | O_EXCL`: it fails with EEXIST where the file exists.
unfoldable pub create_file : Option ℕ → Bytes → Routine
create_file (some error) path files = (files, raised (system_error error))
create_file none path files = elim (files path) [
  | some old ↦ (files, raised (system_error 17))
  | none ↦ (set_file path (some []) files, finished)
]

unfoldable pub write_contents : List WriteCall → Bytes → Bytes → Routine
unfolding write_all
write_contents writes path contents files = (
  set_file path (some (take (write_all writes contents).offset contents)) files,
  (write_all writes contents).outcome,
)

unfoldable pub rename_file : Option ℕ → Bytes → Bytes → Routine
rename_file (some error) path destination files = (files, raised (system_error error))
rename_file none path destination files =
    (set_file path none (set_file destination (files path) files), finished)

unfoldable pub sync_parent_directory : Calls → Routine
sync_parent_directory calls =
    check calls.directory_opened >> check calls.directory_synced >> check calls.directory_closed

unfoldable pub commit_file : Calls → Bytes → Bytes → Bytes → Routine
unfolding create_file write_contents rename_file sync_parent_directory
commit_file calls temporary destination contents =
    create_file calls.opened temporary
    >> write_contents calls.writes temporary contents
    >> check calls.synced
    >> check calls.closed
    >> rename_file calls.renamed temporary destination
    >> sync_parent_directory calls

-- `std::filesystem::remove` with its error ignored.
unfoldable pub try_remove : Bool → Bytes → Files → Files
try_remove removed path files = if removed then set_file path none files else files

-- The `catch` clause removes the temporary file and throws again.
unfoldable pub clean_up : Bool → Bytes → Files × Outcome → Files × Outcome
unfolding try_remove
clean_up removed path (files, finished) = (files, finished)
clean_up removed path (files, blocked) = (files, blocked)
clean_up removed path (files, raised e) = (try_remove removed path files, raised e)

-- With the temporary file's path.
unfoldable pub replace_file : Calls → Bytes → Bytes → Bytes → Routine
unfolding commit_file try_remove clean_up
replace_file calls temporary path contents files =
    clean_up calls.removed_after temporary
      (commit_file calls temporary path contents (try_remove calls.removed_before temporary files))

-- `has_filename` is `!path.filename().empty()`, which holds for no empty path.
unfoldable pub write_file_atomically : Bool → Calls → Bytes → Bytes → Routine
unfolding replace_file temporary_path
write_file_atomically has_filename calls path contents files =
    if has_filename
    then (check calls.create_directories >> replace_file calls (temporary_path path) path contents)
        files
    else (files, raised invalid_argument)

-- The result is the error of `remove`, which has none for a file that is not there; ENOENT, as for
-- a missing directory, is passed over.
unfoldable pub remove_file_if_present : Option ℕ → Bytes → Routine
remove_file_if_present none path files = (set_file path none files, finished)
remove_file_if_present (some error) path files =
    (files, if error == 2 then finished else raised (system_error error))
