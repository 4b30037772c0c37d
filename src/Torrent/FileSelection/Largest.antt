-- ===== src/Torrent/FileSelection/Largest.antt =====
-- The loop that looks for the largest file, against its specification.
use nuvio_engine.Common.{
  ℕ, suc, ◌+◌, ◌≤◌, ◌<◌, ◌≡◌, ◌∙◌, ap, Bool, true, false, List, [], ◌∷◌, Option, none, some, arith,
  get_elem?, length, Bool-cases, inl, inr, ◌&&◌, subst, ℕ_discrete, if◌then◌else◌, ltb, ltb→lt,
  ltb-false,
}
use nuvio_engine.Torrent.FileSelection.{
  TorrentFile, eligible, size_at, improves, largest_loop, largest,
}

-- Among the first `n` files, `i` is an eligible one, none is larger, and none before it is as
-- large.
pub record IsLargest (p : Bool) (files : List TorrentFile) (n i : ℕ) : Type 0 where
  pub below : i < n
  pub file : TorrentFile
  pub found : get_elem? files i ≡ some file
  pub allowed : eligible p file ≡ true
  pub maximal :
      (j : ℕ) (other : TorrentFile)
      → j < n
      → get_elem? files j ≡ some other
      → eligible p other ≡ true
      → (other.size ≤ file.size) × (j < i → other.size < file.size)

-- What the loop's `selected` means after `n` files.
abbrev pub Selected : Bool → List TorrentFile → ℕ → Option ℕ → Type 0
Selected p files n none =
    (j : ℕ) (other : TorrentFile)
    → j < n
    → get_elem? files j ≡ some other
    → eligible p other ≡ false
Selected p files n (some i) = IsLargest p files n i

module _ (p : Bool) (files : List TorrentFile) (n : ℕ) (file : TorrentFile)
    (here : get_elem? files n ≡ some file) where
  same_file : (j : ℕ) (other : TorrentFile) → get_elem? files j ≡ some other → j ≡ n → other ≡ file
  same_file j other e h = ground (arith, ap (get_elem? files) h)

  none-Selected : Selected p files n none → eligible p file ≡ false → Selected p files (suc n) none
  none-Selected before out j other lt e = elim (ℕ_discrete j n) [
    | yes same ↦ rw (same_file j other e same) out
    | no apart ↦ before j other (omega arith) e
  ]

  first-Selected :
      Selected p files n none → eligible p file ≡ true → Selected p files (suc n) (some n)
  first-Selected before ok = record {
    below = omega arith;
    file = file;
    found = here;
    allowed = ok;
    maximal = λ j other lt e el. elim (ℕ_discrete j n) [
      | yes same ↦
          (omega (arith, ap (λ f. f.size) (same_file j other e same)), λ l. absurd (omega arith))
      | no apart ↦ absurd (cc (before j other (omega arith) e))
    ];
  }

  module _ (i : ℕ) (best : IsLargest p files n i) where
    size_at_best : size_at files i ≡ best.file.size
    unfolding size_at
    size_at_best = ground (arith, best.found)

    best_selected :
        (eligible p file ≡ true → file.size ≤ best.file.size) → IsLargest p files (suc n) i
    best_selected small = record {
      below = omega (arith, best.below);
      file = best.file;
      found = best.found;
      allowed = best.allowed;
      maximal = λ j other lt e el. elim (ℕ_discrete j n) [
        | yes same ↦ (
          omega (
            arith,
            ap (λ f. f.size) (same_file j other e same),
            small (subst (λ f. eligible p f ≡ true) (same_file j other e same) el),
          ),
          λ l. absurd (omega (arith, best.below)),
        )
        | no apart ↦ best.maximal j other (omega arith) e el
      ];
    }

    new_selected : eligible p file ≡ true → best.file.size < file.size → IsLargest p files (suc n) n
    new_selected ok large = record {
      below = omega arith;
      file = file;
      found = here;
      allowed = ok;
      maximal = λ j other lt e el. elim (ℕ_discrete j n) [
        | yes same ↦
            (omega (arith, ap (λ f. f.size) (same_file j other e same)), λ l. absurd (omega arith))
        | no apart ↦ (
          omega (arith, (best.maximal j other (omega arith) e el).0),
          λ l. omega (arith, (best.maximal j other l e el).0),
        )
      ];
    }

  step-Selected :
      (selected : Option ℕ)
      → Selected p files n selected
      → Selected p files
          (suc n)
          (if eligible p file && improves files selected file then some n else selected)
  unfolding improves
  step-Selected none before = elim (Bool-cases (eligible p file)) [
    | inl ok ↦ rw ok (first-Selected before ok)
    | inr out ↦ rw out (none-Selected before out)
  ]
  step-Selected (some i) best = elim (Bool-cases (eligible p file)) [
    | inr out ↦ rw out (best_selected i best (λ ok. absurd (cc (ok, out))))
    | inl ok ↦ elim (Bool-cases (ltb (size_at files i) file.size)) [
      | inl more ↦
          rw (ok, more)
            (new_selected i best ok (omega (arith, ltb→lt _ _ more, size_at_best i best)))
      | inr less ↦
          rw (ok, less)
            (best_selected i best λ _. omega (arith, ltb-false _ _ less, size_at_best i best))
    ]
  ]

largest_loop-Selected :
    (p : Bool) (files : List TorrentFile) (n : ℕ) (rest : List TorrentFile) (selected : Option ℕ)
    → ((j : ℕ) → get_elem? files (n + j) ≡ get_elem? rest j)
    → Selected p files n selected
    → Selected p files (n + length rest) (largest_loop p files n rest selected)
unfolding largest_loop
largest_loop-Selected p files n [] selected aligned h =
    subst (λ k. Selected p files k selected) (omega arith) h
largest_loop-Selected p files n (file ∷ rest) selected aligned h =
    subst (λ k. Selected p files k (largest_loop p files n (file ∷ rest) selected)) (omega arith)
      (largest_loop-Selected p files (suc n) rest _
        (λ j. ap (get_elem? files) (omega arith) ∙ aligned (suc j))
        (step-Selected p files n file (ap (get_elem? files) (omega arith) ∙ aligned 0) selected h))

-- `largest` finds the first eligible file of maximal size, and nothing only if none is eligible.
pub largest-Selected :
    (files : List TorrentFile) (playable_only : Bool)
    → Selected playable_only files (length files) (largest files playable_only)
unfolding largest
largest-Selected files playable_only =
    subst (λ k. Selected playable_only files k (largest_loop playable_only files 0 files none))
      (omega arith)
      (largest_loop-Selected playable_only files 0 files none
        (λ j. ap (get_elem? files) (omega arith)) (λ j other lt e. absurd (omega arith)))
