-- ===== src/Storage/AtomicFile/Atomicity.antt =====
-- Writing a file is atomic: its path holds the old contents or the new ones.
use nuvio_engine.Common.{
  ℕ, ◌<◌, ◌≡◌, refl, sym, ap, subst, Bool, true, false, List, [], ◌++◌, Option, none, some, Bytes,
  bytes_eq, bytes_eq_iff, length, take, arith, ◌⊎◌, inl, inr, length-append, Bool-cases,
  bytes_eq_refl,
}
use nuvio_engine.Text.{codes}
use nuvio_engine.Std.Results.{system_error}
use nuvio_engine.Storage.WriteLoop.{
  Outcome, finished, blocked, raised, WriteCall, write_all, Documented, write_all-finished,
}
use nuvio_engine.Storage.AtomicFile.{
  Files, set_file, temporary_path, Calls, Routine, check, create_file, write_contents, rename_file,
  sync_parent_directory, commit_file, try_remove, clean_up, replace_file, write_file_atomically,
}

-- A result that meets `Q` where the routine finishes, and `R` where it is left in another way.
unfoldable pub Meets : (Files → Type 0) → (Files → Type 0) → Files × Outcome → Type 0
Meets Q R (files, finished) = Q files
Meets Q R (files, blocked) = R files
Meets Q R (files, raised e) = R files

after-Meets :
    (P Q R : Files → Type 0) (second : Routine) (first : Files × Outcome)
    → Meets P R first
    → ((files : Files) → P files → Meets Q R (second files))
    → Meets Q R (elim first.1 [
      | finished ↦ second first.0
      | blocked ↦ (first.0, blocked)
      | raised e ↦ (first.0, raised e)
    ])
unfolding Meets
after-Meets P Q R second (files, finished) h next = next files h
after-Meets P Q R second (files, blocked) h next = h
after-Meets P Q R second (files, raised e) h next = h

check-Meets :
    (P R : Files → Type 0) (error : Option ℕ) (files : Files)
    → P files
    → ((g : Files) → P g → R g)
    → Meets P R (check error files)
unfolding Meets
check-Meets P R none files h weaker = h
check-Meets P R (some error) files h weaker = weaker files h

written-Meets :
    (Q R : Files → Type 0) (files : Files) (outcome : Outcome)
    → (outcome ≡ finished → Q files)
    → R files
    → Meets Q R (files, outcome)
unfolding Meets
written-Meets Q R files finished done left = done refl
written-Meets Q R files blocked done left = left
written-Meets Q R files (raised e) done left = left

module _ (temporary path contents : Bytes) (before : Files) where
  -- All files but the temporary one are as before.
  unfoldable pub Kept : Files → Type 0
  Kept g = (other : Bytes) → bytes_eq temporary other ≡ false → g other ≡ before other

  -- The temporary file is complete, too.
  unfoldable pub Complete : Files → Type 0
  Complete g = Kept g × (g temporary ≡ some contents)

  -- The file has its new contents.
  unfoldable pub Replaced : Files → Type 0
  Replaced g =
      (g path ≡ some contents)
      × (g temporary ≡ none)
      × ((other : Bytes)
          → bytes_eq temporary other ≡ false
          → bytes_eq path other ≡ false
          → g other ≡ before other)

  -- The file has its old contents or its new ones, and no other file has changed.
  unfoldable pub Whole : Files → Type 0
  Whole g =
      ((g path ≡ before path) ⊎ (g path ≡ some contents))
      × ((other : Bytes)
          → bytes_eq temporary other ≡ false
          → bytes_eq path other ≡ false
          → g other ≡ before other)

  module _ (apart : bytes_eq temporary path ≡ false) where
    Kept-Whole : (g : Files) → Kept g → Whole g
    unfolding Kept Whole
    Kept-Whole g h = (inl (h path apart), λ other n m. h other n)

    Complete-Whole : (g : Files) → Complete g → Whole g
    unfolding Complete
    Complete-Whole g h = Kept-Whole g h.0

    Replaced-Whole : (g : Files) → Replaced g → Whole g
    unfolding Replaced Whole
    Replaced-Whole g h = (inr h.0, h.2)

    Kept-set : (value : Option Bytes) (g : Files) → Kept g → Kept (set_file temporary value g)
    unfolding Kept
    Kept-set value g h other n = rw n (h other n)

    create-Meets :
        (opened : Option ℕ) (g : Files) → Kept g → Meets Kept Whole (create_file opened temporary g)
    unfolding Meets create_file
    create-Meets (some error) g h = Kept-Whole g h
    create-Meets none g h =
        elim (g temporary)
          as (λ old. Meets Kept Whole (elim old [
            | some contents ↦ (g, raised (system_error 17))
            | none ↦ (set_file temporary (some []) g, finished)
          ])) [ some contents ↦ Kept-Whole g h | none ↦ Kept-set (some []) g h ]

    write-Meets :
        (writes : List WriteCall) (g : Files)
        → Documented writes 0 (length contents)
        → Kept g
        → Meets Complete Whole (write_contents writes temporary contents g)
    unfolding write_contents Complete
    write-Meets writes g d h =
        let part = some (take (write_all writes contents).offset contents) in
        let kept = Kept-set part g h in
        written-Meets Complete Whole (set_file temporary part g) (write_all writes contents).outcome
          (λ e.
            (kept, rw (bytes_eq_refl temporary) (ap some (write_all-finished writes contents d e))))
          (Kept-Whole (set_file temporary part g) kept)

    rename_file-Replaced : (g : Files) → Complete g → Replaced (rename_file none temporary path g).0
    unfolding Complete Kept Replaced rename_file
    rename_file-Replaced g h = (
      rw (apart, bytes_eq_refl path) h.1,
      rw (bytes_eq_refl temporary) refl,
      λ other n m. rw (n, m) (h.0 other n),
    )

    rename-Meets :
        (renamed : Option ℕ) (g : Files)
        → Complete g
        → Meets Replaced Whole (rename_file renamed temporary path g)
    unfolding Meets rename_file
    rename-Meets (some error) g h = Complete-Whole g h
    rename-Meets none g h = rename_file-Replaced g h

    sync-Meets :
        (calls : Calls) (g : Files)
        → Replaced g
        → Meets Replaced Whole (sync_parent_directory calls g)
    unfolding sync_parent_directory
    sync-Meets calls g h =
        after-Meets Replaced Replaced Whole (check calls.directory_closed) _
          (after-Meets Replaced Replaced Whole (check calls.directory_synced) _
            (check-Meets Replaced Whole calls.directory_opened g h Replaced-Whole)
            (λ f k. check-Meets Replaced Whole calls.directory_synced f k Replaced-Whole))
          (λ f k. check-Meets Replaced Whole calls.directory_closed f k Replaced-Whole)

    commit-Meets :
        (calls : Calls) (g : Files)
        → Documented calls.writes 0 (length contents)
        → Kept g
        → Meets Replaced Whole (commit_file calls temporary path contents g)
    unfolding commit_file
    commit-Meets calls g d h =
        after-Meets Replaced Replaced Whole (sync_parent_directory calls) _
          (after-Meets Complete Replaced Whole (rename_file calls.renamed temporary path) _
            (after-Meets Complete Complete Whole (check calls.closed) _
              (after-Meets Complete Complete Whole (check calls.synced) _
                (after-Meets Kept Complete Whole (write_contents calls.writes temporary contents)
                  (create_file calls.opened temporary g) (create-Meets calls.opened g h)
                  (λ f k. write-Meets calls.writes f d k))
                (λ f k. check-Meets Complete Whole calls.synced f k Complete-Whole))
              (λ f k. check-Meets Complete Whole calls.closed f k Complete-Whole))
            (λ f k. rename-Meets calls.renamed f k))
          (λ f k. sync-Meets calls f k)

    Whole-remove : (removed : Bool) (g : Files) → Whole g → Whole (try_remove removed temporary g)
    unfolding Whole try_remove
    Whole-remove false g h = h
    Whole-remove true g h = (rw apart h.0, λ other n m. rw n (h.1 other n m))

    clean_up-Meets :
        (removed : Bool) (result : Files × Outcome)
        → Meets Replaced Whole result
        → Meets Replaced Whole (clean_up removed temporary result)
    unfolding Meets clean_up
    clean_up-Meets removed (g, finished) h = h
    clean_up-Meets removed (g, blocked) h = h
    clean_up-Meets removed (g, raised e) h = Whole-remove removed g h

    Kept-remove : (removed : Bool) → Kept (try_remove removed temporary before)
    unfolding Kept try_remove
    Kept-remove false other n = refl
    Kept-remove true other n = rw n refl

    replace-Meets :
        (calls : Calls)
        → Documented calls.writes 0 (length contents)
        → Meets Replaced Whole (replace_file calls temporary path contents before)
    unfolding replace_file
    replace-Meets calls d =
        clean_up-Meets calls.removed_after
          (commit_file calls temporary path contents
            (try_remove calls.removed_before temporary before))
          (commit-Meets calls (try_remove calls.removed_before temporary before) d
            (Kept-remove calls.removed_before))

longer_ne : (xs ys : Bytes) → 0 < length ys → bytes_eq (xs ++ ys) xs ≡ false
longer_ne xs ys pos = elim (Bool-cases (bytes_eq (xs ++ ys) xs)) [
  | inl same ↦
      absurd (omega (arith, ap length ((bytes_eq_iff (xs ++ ys) xs).0 same), length-append xs ys))
  | inr other ↦ other
]

temporary_apart : (path : Bytes) → bytes_eq (temporary_path path) path ≡ false
unfolding temporary_path
temporary_apart path = longer_ne path (codes ".tmp") (omega arith)

unchanged-Whole : (temporary path contents : Bytes) (g : Files) → Whole temporary path contents g g
unfolding Whole
unchanged-Whole temporary path contents g = (inl refl, λ other n m. refl)

-- Writing a file is atomic, if `write` takes no more than it is given. Where it finishes, the path holds the new contents, and the temporary
-- file is gone. Where it throws or the process ends on the way, the path holds the old contents or
-- the new ones, never a part of them. In each case all other files are as before.
pub write_file_atomically-Meets :
    (has_filename : Bool) (calls : Calls) (path contents : Bytes) (files : Files)
    → Documented calls.writes 0 (length contents)
    → let temporary = temporary_path path in
      Meets
        (Replaced temporary path contents files)
        (Whole temporary path contents files)
        (write_file_atomically has_filename calls path contents files)
unfolding write_file_atomically Meets Whole
write_file_atomically-Meets false calls path contents files d =
    unchanged-Whole (temporary_path path) path contents files
write_file_atomically-Meets true calls path contents files d =
    let temporary = temporary_path path in
    let apart = temporary_apart path in
    after-Meets (λ g. g ≡ files) (Replaced temporary path contents files)
      (Whole temporary path contents files) (replace_file calls temporary path contents)
      (check calls.create_directories files)
      (check-Meets (λ g. g ≡ files) (Whole temporary path contents files) calls.create_directories
        files refl
        (λ g e.
          subst (Whole temporary path contents files) (sym e)
            (unchanged-Whole temporary path contents files)))
      (λ g e.
        subst
          (λ h.
            Meets (Replaced temporary path contents files) (Whole temporary path contents files)
              (replace_file calls temporary path contents h))
          (sym e) (replace-Meets temporary path contents files apart calls d))
