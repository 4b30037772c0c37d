-- ===== src/Torrent/FileSelection/Reasons.antt =====
-- Every selection is justified by the reason that it reports.
use nuvio_engine.Common.{
  get_elem?_below, ap, ℕ, zero, suc, ◌<◌, ◌≤◌, ◌≡◌, refl, Bool, true, false, List, [], ◌∷◌, Option,
  none, some, arith, get_elem?, length, Bytes, inl, inr, Option-cases, Bool-cases, ltb, ltb→lt,
  ltb-false, ◌⊎◌, subst,
}
use mathlib.Core.Option as O
use nuvio_engine.Text.{is_empty}
use nuvio_engine.Torrent.FileSelection.{
  TorrentFile, FileSelection, SelectionReason, requested_index, exact_path, exact_filename,
  largest_playable_file, largest_file, no_files, eligible, path_matches, filename_matches, largest,
  find_index, by_size, by_index, by_hint, select_file,
}
use nuvio_engine.Torrent.FileSelection.Largest.{IsLargest, Selected, largest-Selected}

-- The first file that matches stands at `i`.
pub record IsFirst (matches : TorrentFile → Bool) (files : List TorrentFile) (i : ℕ) : Type 0 where
  pub file : TorrentFile
  pub found : get_elem? files i ≡ some file
  pub fits : matches file ≡ true
  pub earlier :
      (j : ℕ) (other : TorrentFile) → j < i → get_elem? files j ≡ some other → matches other ≡ false

-- No file matches.
abbrev pub NoMatch : (TorrentFile → Bool) → List TorrentFile → Type 0
NoMatch matches files =
    (j : ℕ) (other : TorrentFile) → get_elem? files j ≡ some other → matches other ≡ false

abbrev Found : (TorrentFile → Bool) → List TorrentFile → Option ℕ → Type 0
Found matches files none = NoMatch matches files
Found matches files (some i) = IsFirst matches files i

NoMatch-cons :
    (matches : TorrentFile → Bool) (file : TorrentFile) (rest : List TorrentFile)
    → matches file ≡ false
    → NoMatch matches rest
    → NoMatch matches (file ∷ rest)
NoMatch-cons matches file rest out h zero other e = ground arith
NoMatch-cons matches file rest out h (suc j) other e = h j other e

Found-cons :
    (matches : TorrentFile → Bool) (file : TorrentFile) (rest : List TorrentFile) (o : Option ℕ)
    → matches file ≡ false
    → Found matches rest o
    → Found matches (file ∷ rest) (O.map suc o)
Found-cons matches file rest none out h = NoMatch-cons matches file rest out h
Found-cons matches file rest (some i) out h = record {
  file = h.file;
  found = h.found;
  fits = h.fits;
  earlier = λ j other lt e. earlier_cons j other lt e;
}
  where
    earlier_cons :
        (j : ℕ) (other : TorrentFile)
        → j < suc i
        → get_elem? (file ∷ rest) j ≡ some other
        → matches other ≡ false
    earlier_cons zero other lt e = ground arith
    earlier_cons (suc j) other lt e = h.earlier j other (omega arith) e

find_index-Found :
    (matches : TorrentFile → Bool) (files : List TorrentFile)
    → Found matches files (find_index matches files)
unfolding find_index
find_index-Found matches [] = λ j other e. cc
find_index-Found matches (file ∷ rest) = elim (Bool-cases (matches file)) [
  | inl hit ↦ rw hit (record {
    file = file;
    found = refl;
    fits = hit;
    earlier = λ j other lt e. absurd (omega arith);
  })
  | inr miss ↦
      rw miss (
        Found-cons matches file rest (find_index matches rest) miss (find_index-Found matches rest))
]

-- The hint is empty, or fits no file.
abbrev pub Unhinted : List TorrentFile → Bytes → Type 0
Unhinted files hint =
    (is_empty hint ≡ true)
    ⊎ (NoMatch (path_matches hint) files × NoMatch (filename_matches hint) files)

-- No index is requested, or one out of range.
abbrev pub NoRequest : List TorrentFile → Option ℕ → Type 0
NoRequest files requested = (i : ℕ) → requested ≡ some i → length files ≤ i

abbrev chosen : ℕ → SelectionReason → FileSelection
chosen i reason = record { index = some i; reason = reason }

pub data Justified (files : List TorrentFile) (requested : Option ℕ) (hint : Bytes)
    : FileSelection → Type 0 where
  nothing : files ≡ [] → Justified files requested hint (record { index = none; reason = no_files })
  path :
      (i : ℕ)
      → is_empty hint ≡ false
      → IsFirst (path_matches hint) files i
      → Justified files requested hint (record { index = some i; reason = exact_path })
  filename :
      (i : ℕ)
      → is_empty hint ≡ false
      → NoMatch (path_matches hint) files
      → IsFirst (filename_matches hint) files i
      → Justified files requested hint (record { index = some i; reason = exact_filename })
  request :
      (i : ℕ)
      → Unhinted files hint
      → requested ≡ some i
      → i < length files
      → Justified files requested hint (record { index = some i; reason = requested_index })
  playable :
      (i : ℕ)
      → Unhinted files hint
      → NoRequest files requested
      → IsLargest true files (length files) i
      → Justified files requested hint (record { index = some i; reason = largest_playable_file })
  any :
      (i : ℕ)
      → Unhinted files hint
      → NoRequest files requested
      → Selected true files (length files) none
      → IsLargest false files (length files) i
      → Justified files requested hint (record { index = some i; reason = largest_file })

module _ (file : TorrentFile) (rest : List TorrentFile) (requested : Option ℕ) (hint : Bytes) where
  any-Justified :
      (o : Option ℕ)
      → Unhinted (file ∷ rest) hint
      → NoRequest (file ∷ rest) requested
      → Selected true (file ∷ rest) (length (file ∷ rest)) none
      → Selected false (file ∷ rest) (length (file ∷ rest)) o
      → Justified (file ∷ rest) requested hint (record { index = o; reason = largest_file })
  unfolding eligible
  any-Justified none u r s l = absurd (cc (l 0 file (omega arith) refl))
  any-Justified (some i) u r s l = any i u r s l

  by_size-Justified :
      Unhinted (file ∷ rest) hint
      → NoRequest (file ∷ rest) requested
      → Justified (file ∷ rest) requested hint (by_size (file ∷ rest))
  unfolding by_size
  by_size-Justified u r = go (largest (file ∷ rest) true) (largest-Selected (file ∷ rest) true)
    where
      go :
          (o : Option ℕ)
          → Selected true (file ∷ rest) (length (file ∷ rest)) o
          → Justified (file ∷ rest) requested hint (elim o [
            | some index ↦ record { index = some index; reason = largest_playable_file }
            | none ↦ record { index = largest (file ∷ rest) false; reason = largest_file }
          ])
      go none s = any-Justified _ u r s (largest-Selected (file ∷ rest) false)
      go (some i) s = playable i u r s

  by_index-Justified :
      (r : Option ℕ)
      → requested ≡ r
      → Unhinted (file ∷ rest) hint
      → Justified (file ∷ rest) requested hint (by_index (file ∷ rest) r)
  unfolding by_index
  by_index-Justified none e u = by_size-Justified u (λ i f. absurd (cc))
  by_index-Justified (some i) e u = elim (Bool-cases (ltb i (length (file ∷ rest)))) [
    | inl small ↦ rw small (request i u e (ltb→lt _ _ small))
    | inr large ↦ rw large (by_size-Justified u λ j f. in_bounds j f (ltb-false _ _ large))
  ]
    where
      in_bounds : (j : ℕ) → requested ≡ some j → length (file ∷ rest) ≤ i → length (file ∷ rest) ≤ j
      in_bounds j f h = ground arith

  by_hint-Justified :
      is_empty hint ≡ false
      → Justified (file ∷ rest) requested hint (by_hint (file ∷ rest) requested hint)
  unfolding by_hint
  by_hint-Justified n =
      let paths = find_index-Found (path_matches hint) (file ∷ rest) in
      let names = find_index-Found (filename_matches hint) (file ∷ rest) in
      elim (Option-cases (find_index (path_matches hint) (file ∷ rest))) [
        | inr (i, e) ↦
            rw (e, by_hint) (path i n (subst (Found (path_matches hint) (file ∷ rest)) e paths))
        | inl e ↦
            let no_path = subst (Found (path_matches hint) (file ∷ rest)) e paths in
            elim (Option-cases (find_index (filename_matches hint) (file ∷ rest))) [
              | inr (i, f) ↦
                  rw (e, f, by_hint)
                    (filename i n no_path
                      (subst (Found (filename_matches hint) (file ∷ rest)) f names))
              | inl f ↦
                  rw (e, f, by_hint)
                    (by_index-Justified requested refl
                      (inr (no_path, subst (Found (filename_matches hint) (file ∷ rest)) f names)))
            ]
      ]

-- Every selection carries a reason that holds: the first file of the hinted path, else the first
-- of the hinted name, else the requested index if it is in range, else the first playable file of
-- maximal size, else the first file of maximal size; nothing only for a torrent with no files.
pub select_file-Justified :
    (files : List TorrentFile) (requested : Option ℕ) (hint : Bytes)
    → Justified files requested hint (select_file files requested hint)
unfolding select_file
select_file-Justified [] requested hint = nothing refl
select_file-Justified (file ∷ rest) requested hint = elim (Bool-cases (is_empty hint)) [
  | inl e ↦ rw e (by_index-Justified file rest requested hint requested refl (inl e))
  | inr n ↦ rw n (by_hint-Justified file rest requested hint n)
]

justified_index :
    (files : List TorrentFile) (requested : Option ℕ) (hint : Bytes) (s : FileSelection)
    → Justified files requested hint s
    → 0 < length files
    → (i : ℕ) × (file : TorrentFile) × (s.index ≡ some i) × (get_elem? files i ≡ some file)
justified_index files requested hint _ (nothing e) h = absurd (omega (arith, ap length e))
justified_index files requested hint _ (path i n f) h = (i, f.file, refl, f.found)
justified_index files requested hint _ (filename i n p f) h = (i, f.file, refl, f.found)
justified_index files requested hint _ (request i u e lt) h =
    let (file, found) = get_elem?_below files i lt in (i, file, refl, found)
justified_index files requested hint _ (playable i u r l) h = (i, l.file, refl, l.found)
justified_index files requested hint _ (any i u r p l) h = (i, l.file, refl, l.found)

-- For a torrent with files a file in range is selected.
pub select_file_in_range :
    (files : List TorrentFile) (requested : Option ℕ) (hint : Bytes)
    → 0 < length files
    → (i : ℕ) × (file : TorrentFile) × ((select_file files requested hint).index ≡ some i)
      × (get_elem? files i ≡ some file)
select_file_in_range files requested hint h =
    justified_index files requested hint _ (select_file-Justified files requested hint) h
