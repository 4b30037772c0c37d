-- ===== src/Cache/DiskCache/Survey.antt =====
-- The visitors of `enforce` and `measure`: what they collect of the payload directories.
use nuvio_engine.Common.{
  ℕ, ◌+◌, ◌≡◌, refl, Bool, true, false, List, [], ◌∷◌, ◌++◌, none, some, Bytes, bytes_eq,
  bytes_eq_instance, All, All-append, arith, ltb, ◌||◌, if◌then◌else◌, saturating_add, Bool-cases,
  inl, inr,
}
use nuvio_engine.Std.Results.{Result, ok, throws, runtime_error}
use nuvio_engine.Std.UnorderedMap.{lookup}
use nuvio_engine.Cache.DiskCache.{
  TorrentDirectory, Root, directories, Candidate, directory_size, visit_entry, visit_entries,
  visit_torrent_directories, is_visited, canonical_torrent_id,
}

-- `unordered_set::contains`.
unfoldable pub contains : Bytes → List Bytes → Bool
unfolding bytes_eq
contains id [] = false
contains id (first ∷ rest) = bytes_eq first id || contains id rest

abbrev pub Sizes : Type 0
Sizes = List (Bytes × ℕ)

-- `emplace`: an id that is there already keeps its size.
unfoldable pub emplace : Bytes → ℕ → Sizes → Sizes
unfolding lookup
emplace id size sizes = elim (lookup id sizes) [ some old ↦ sizes | none ↦ (id, size) ∷ sizes ]

-- The variables that the visitors of `enforce` and `measure` write.
pub record Survey : Type 0 where
  pub candidates : List Candidate
  pub sizes : Sizes
  pub used : ℕ
  pub protected_bytes : ℕ
  pub inspected : ℕ

abbrev pub empty_survey : Survey
empty_survey = record { candidates = []; sizes = []; used = 0; protected_bytes = 0; inspected = 0 }

-- The size of a directory is noted and added to the used bytes.
unfoldable pub note_size : Bytes → ℕ → ℕ → Survey → Survey
unfolding emplace saturating_add
note_size id size inspected s = record s {
  sizes = emplace id size s.sizes;
  used = saturating_add s.used size;
  inspected = inspected;
}

unfoldable pub protect : ℕ → Survey → Survey
unfolding saturating_add
protect size s = record s { protected_bytes = saturating_add s.protected_bytes size }

unfoldable pub add_candidate : TorrentDirectory → ℕ → Survey → Result ℕ → Result Survey
add_candidate entry size s (throws e) = throws e
add_candidate entry size s (ok last_use) = ok (record s {
  candidates =
      s.candidates
      ++ record {
        torrent_id = entry.name;
        last_use = last_use;
        size = size;
        removal = entry.removal;
      }
        ∷ [];
})

module _ (protected_torrents : List Bytes) where
  -- `enforce`'s visitor, with the size of the directory.
  unfoldable pub survey_sized : TorrentDirectory → Survey → Result (ℕ × ℕ) → Result Survey
  unfolding note_size protect contains add_candidate
  survey_sized entry s (throws e) = throws e
  survey_sized entry s (ok (size, inspected)) =
      if contains entry.name protected_torrents
      then ok (protect size (note_size entry.name size inspected s))
      else add_candidate entry size (note_size entry.name size inspected s) entry.last_use

  unfoldable pub survey_entry : TorrentDirectory → Survey → Result Survey
  unfolding survey_sized directory_size
  survey_entry entry s = survey_sized entry s (directory_size entry.scan s.inspected)

  unfoldable pub survey : Root → Result Survey
  unfolding visit_torrent_directories survey_entry
  survey root = visit_torrent_directories survey_entry root empty_survey

  -- `measure`'s visitor: a size that is known is not measured again, unless the torrent is
  -- protected.
  unfoldable pub measure_sized : TorrentDirectory → Survey → Result (ℕ × ℕ) → Result Survey
  unfolding note_size protect contains
  measure_sized entry s (throws e) = throws e
  measure_sized entry s (ok (size, inspected)) = ok (
      if contains entry.name protected_torrents
      then protect size (note_size entry.name size inspected s)
      else note_size entry.name size inspected s)

  unfoldable pub known_size : Sizes → TorrentDirectory → ℕ → Result (ℕ × ℕ)
  unfolding contains lookup directory_size
  known_size measured entry inspected =
      if contains entry.name protected_torrents
      then directory_size entry.scan inspected
      else (elim (lookup entry.name measured) [
        | some size ↦ ok (size, inspected)
        | none ↦ directory_size entry.scan inspected
      ])

  unfoldable pub measure_entry : Sizes → TorrentDirectory → Survey → Result Survey
  unfolding measure_sized known_size
  measure_entry measured entry s = measure_sized entry s (known_size measured entry s.inspected)

  -- A torrent that may be evicted: it has a canonical id and is not protected.
  abbrev pub IsEvictable : Bytes → Type 0
  IsEvictable id = (canonical_torrent_id id ≡ true) × (contains id protected_torrents ≡ false)

  abbrev pub AreEvictable : List Candidate → Type 0
  AreEvictable candidates = All (λ c. IsEvictable c.torrent_id) candidates

  -- A survey with candidates that may all be evicted.
  unfoldable pub IsSurveyed : Result Survey → Type 0
  IsSurveyed (throws e) = Unit
  IsSurveyed (ok s) = AreEvictable s.candidates

  add_candidate-IsSurveyed :
      (entry : TorrentDirectory) (size : ℕ) (s : Survey) (last_use : Result ℕ)
      → IsEvictable entry.name
      → AreEvictable s.candidates
      → IsSurveyed (add_candidate entry size s last_use)
  unfolding IsSurveyed add_candidate
  add_candidate-IsSurveyed entry size s (throws e) n h = tt
  add_candidate-IsSurveyed entry size s (ok last_use) n h =
      All-append (λ c. IsEvictable c.torrent_id) s.candidates
        (record {
          torrent_id = entry.name;
          last_use = last_use;
          size = size;
          removal = entry.removal;
        }
          ∷ [])
        h (n, tt)

  survey_sized-IsSurveyed :
      (entry : TorrentDirectory) (s : Survey) (sized : Result (ℕ × ℕ))
      → canonical_torrent_id entry.name ≡ true
      → AreEvictable s.candidates
      → IsSurveyed (survey_sized entry s sized)
  unfolding IsSurveyed survey_sized
  survey_sized-IsSurveyed entry s (throws e) c h = tt
  survey_sized-IsSurveyed entry s (ok (size, inspected)) c h =
      elim (Bool-cases (contains entry.name protected_torrents)) [
        | inl kept ↦ rw kept h
        | inr free ↦ rw free (
            add_candidate-IsSurveyed entry size (note_size entry.name size inspected s)
              entry.last_use (c, free) h)
      ]

  visited_canonical :
      (entry : TorrentDirectory)
      → is_visited entry ≡ ok true
      → canonical_torrent_id entry.name ≡ true
  unfolding is_visited
  visited_canonical entry h = ground arith

  visit-IsSurveyed :
      (entry : TorrentDirectory) (s : Survey) (visited : Result Bool)
      → is_visited entry ≡ visited
      → AreEvictable s.candidates
      → IsSurveyed (visit_entry survey_entry entry s visited)
  unfolding visit_entry survey_entry IsSurveyed
  visit-IsSurveyed entry s (throws e) v h = tt
  visit-IsSurveyed entry s (ok false) v h = h
  visit-IsSurveyed entry s (ok true) v h =
      survey_sized-IsSurveyed entry s (directory_size entry.scan s.inspected)
        (visited_canonical entry v) h

  IsSurveyed-then :
      (over : Bool) (visited : Result Survey) (next : Survey → Result Survey)
      → IsSurveyed visited
      → ((s : Survey) → AreEvictable s.candidates → IsSurveyed (next s))
      → IsSurveyed (elim over [
        | true ↦ throws runtime_error
        | false ↦ elim visited [ throws e ↦ throws e | ok s ↦ next s ]
      ])
  unfolding IsSurveyed
  IsSurveyed-then true visited next v n = tt
  IsSurveyed-then false (throws e) next v n = tt
  IsSurveyed-then false (ok s) next v n = n s v

  visit_all-IsSurveyed :
      (list : List TorrentDirectory) (inspected : ℕ) (s : Survey)
      → AreEvictable s.candidates
      → IsSurveyed (visit_entries survey_entry list inspected s)
  unfolding visit_entries IsSurveyed
  visit_all-IsSurveyed [] inspected s h = h
  visit_all-IsSurveyed (entry ∷ rest) inspected s h =
      IsSurveyed-then (ltb 4095 inspected) (visit_entry survey_entry entry s (is_visited entry))
        (λ next. visit_entries survey_entry rest (inspected + 1) next)
        (visit-IsSurveyed entry s (is_visited entry) refl h)
        (λ next evictable. visit_all-IsSurveyed rest (inspected + 1) next evictable)

  -- The candidates for eviction are canonical torrents that nobody protects.
  pub survey-IsSurveyed : (root : Root) → IsSurveyed (survey root)
  unfolding survey visit_torrent_directories IsSurveyed
  survey-IsSurveyed Root.absent = tt
  survey-IsSurveyed Root.not_directory = tt
  survey-IsSurveyed (Root.uninspected error) = tt
  survey-IsSurveyed (Root.unreadable error) = tt
  survey-IsSurveyed (directories list) = visit_all-IsSurveyed list 0 empty_survey tt
