-- ===== src/Tests/Storage.antt =====
-- The storage of files on concrete results of system calls.
use nuvio_engine.Common.{bytes_eq, ◌≡◌, refl, true, [], ◌∷◌, none, some, arith}
use nuvio_engine.Text.{codes}
use nuvio_engine.Std.Results.{ok}
use nuvio_engine.Storage.WriteLoop.{written}
use nuvio_engine.Storage.AtomicFile.{Files, set_file, Calls, temporary_path, write_file_atomically}
use nuvio_engine.Storage.AtomicFile.Atomicity.{Meets, Replaced, Whole, write_file_atomically-Meets}
use nuvio_engine.Storage.BoundedFile.{
  FileView, regular, read_bounded_file, IsRead, read_bounded_file-IsRead,
}
use nuvio_engine.Storage.PayloadReader.{
  PayloadReader, returned, interrupted, did_read, read_exact, IsExact, read_exact-IsExact,
}

abbrev good_calls : Calls
good_calls = record {
  create_directories = none;
  removed_before = true;
  opened = none;
  writes = written 2 ∷ written 1 ∷ [];
  synced = none;
  closed = none;
  renamed = none;
  directory_opened = none;
  directory_synced = none;
  directory_closed = none;
  removed_after = true;
}

abbrev old_files : Files
old_files = set_file (codes "state") (some (codes "old")) (λ path. none)

abbrev new_files : Files
new_files = (write_file_atomically true good_calls (codes "state") (codes "new") old_files).0

written_run : new_files (codes "state") ≡ some (codes "new")
unfolding write_file_atomically bytes_eq
written_run = refl

write_file_atomically-Meets_example :
    Meets
      (Replaced (temporary_path (codes "state")) (codes "state") (codes "new") old_files)
      (Whole (temporary_path (codes "state")) (codes "state") (codes "new") old_files)
      (write_file_atomically true good_calls (codes "state") (codes "new") old_files)
write_file_atomically-Meets_example =
    write_file_atomically-Meets true good_calls (codes "state") (codes "new") old_files
      (omega arith, (omega arith, tt))

abbrev small_file : FileView
small_file = record { status = regular; size = ok 3; opens = true; bytes = codes "abc" }

read_bounded_file-IsRead_example : IsRead small_file 10 (read_bounded_file small_file 10)
read_bounded_file-IsRead_example = read_bounded_file-IsRead small_file 10

abbrev reader : PayloadReader
reader = record { descriptor = some 5 }

read_run :
    read_exact reader (returned 2 ∷ interrupted ∷ returned 1 ∷ []) (codes "abcdef") 1 3
    ≡ did_read (codes "bcd") true
unfolding read_exact
read_run = refl

read_exact-IsExact_example :
    IsExact
      (codes "abcdef")
      1
      3
      (read_exact reader (returned 2 ∷ interrupted ∷ returned 1 ∷ []) (codes "abcdef") 1 3)
read_exact-IsExact_example =
    read_exact-IsExact reader (returned 2 ∷ interrupted ∷ returned 1 ∷ []) (codes "abcdef") 1 3
      (omega arith) (omega arith, omega arith, (omega arith, omega arith, tt))
