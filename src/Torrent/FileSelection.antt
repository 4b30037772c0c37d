-- ===== src/Torrent/FileSelection.antt =====
-- src/torrent/file_selection.cpp and include/nuvio_engine/file_selection.hpp: which file of a
-- torrent is streamed.
pub mod Largest
pub mod Reasons
use nuvio_engine.Common.{
  ℕ, suc, Bool, true, false, not, ◌&&◌, ◌||◌, List, [], ◌∷◌, Option, none, some, Bytes, bytes_eq,
  get_elem?, length, ltb, ◌==◌, if◌then◌else◌,
}
use nuvio_engine.Text.{codes, lowercase, ends_with, is_empty}
use mathlib.Core.Option as O

pub record TorrentFile : Type 0 where
  pub path : Bytes
  pub size : ℕ

pub data SelectionReason : Type 0 where
  requested_index exact_path exact_filename largest_playable_file largest_file no_files :
      SelectionReason

pub record FileSelection : Type 0 where
  pub index : Option ℕ
  pub reason : SelectionReason

abbrev playable_extensions : List Bytes
playable_extensions =
    codes ".aac"
    ∷ codes ".avi"
    ∷ codes ".flac"
    ∷ codes ".flv"
    ∷ codes ".m3u8"
    ∷ codes ".m4v"
    ∷ codes ".mkv"
    ∷ codes ".mov"
    ∷ codes ".mp3"
    ∷ codes ".mp4"
    ∷ codes ".mpeg"
    ∷ codes ".mpg"
    ∷ codes ".ogg"
    ∷ codes ".ts"
    ∷ codes ".vp8"
    ∷ codes ".wav"
    ∷ codes ".webm"
    ∷ codes ".wmv"
    ∷ codes ".wma"
    ∷ []

any_suffix : List Bytes → Bytes → Bool
any_suffix [] text = false
any_suffix (e ∷ es) text = ends_with e text || any_suffix es text

unfoldable pub is_playable_media_path : Bytes → Bool
unfolding any_suffix ends_with lowercase
is_playable_media_path path = any_suffix playable_extensions (lowercase path)

is_separator : ℕ → Bool
is_separator c = (c == b'/') || (c == b'\\')

-- The text behind the last separator, if there is one.
after_last_separator : Bytes → Option Bytes
after_last_separator [] = none
after_last_separator (c ∷ cs) = elim (after_last_separator cs) [
  | some rest ↦ some rest
  | none ↦ if is_separator c then some cs else none
]

unfoldable pub basename : Bytes → Bytes
unfolding after_last_separator is_separator
basename path = elim (after_last_separator path) [ none ↦ path | some rest ↦ rest ]

-- `continue` is taken where this is false.
pub eligible : Bool → TorrentFile → Bool
eligible playable_only file = not (playable_only && not (is_playable_media_path file.path))

-- `files[index].size`; the loop below asks for indices in range only.
size_at : List TorrentFile → ℕ → ℕ
size_at files index = elim (get_elem? files index) [ none ↦ 0 | some file ↦ file.size ]

-- `!selected.has_value() || files[index].size > files[*selected].size`.
improves : List TorrentFile → Option ℕ → TorrentFile → Bool
unfolding size_at
improves files selected file = elim selected [
  | none ↦ true
  | some best ↦ ltb (size_at files best) file.size
]

largest_loop : Bool → List TorrentFile → ℕ → List TorrentFile → Option ℕ → Option ℕ
largest_loop playable_only files index [] selected = selected
largest_loop playable_only files index (file ∷ rest) selected =
    largest_loop playable_only files (suc index) rest
      (if eligible playable_only file && improves files selected file then some index else selected)

-- `largest_file` of the source.
unfoldable pub largest : List TorrentFile → Bool → Option ℕ
unfolding largest_loop eligible improves
largest files playable_only = largest_loop playable_only files 0 files none

-- The loops over `files` that return at the first match.
find_index : (TorrentFile → Bool) → List TorrentFile → Option ℕ
find_index matches [] = none
find_index matches (file ∷ rest) =
    if matches file then some 0 else O.map suc (find_index matches rest)

abbrev pub path_matches : Bytes → TorrentFile → Bool
path_matches hint file = bytes_eq (lowercase file.path) (lowercase hint)

abbrev pub filename_matches : Bytes → TorrentFile → Bool
filename_matches hint file = bytes_eq (lowercase (basename file.path)) (lowercase hint)

by_size : List TorrentFile → FileSelection
by_size files = elim (largest files true) [
  | some index ↦ record { index = some index; reason = largest_playable_file }
  | none ↦ record { index = largest files false; reason = largest_file }
]

by_index : List TorrentFile → Option ℕ → FileSelection
unfolding by_size
by_index files requested = elim requested [
  | none ↦ by_size files
  | some index ↦
      if ltb index (length files)
      then record { index = some index; reason = requested_index }
      else by_size files
]

by_hint : List TorrentFile → Option ℕ → Bytes → FileSelection
unfolding by_index
by_hint files requested hint = elim (find_index (path_matches hint) files) [
  | some index ↦ record { index = some index; reason = exact_path }
  | none ↦ elim (find_index (filename_matches hint) files) [
    | some index ↦ record { index = some index; reason = exact_filename }
    | none ↦ by_index files requested
  ]
]

unfoldable pub select_file : List TorrentFile → Option ℕ → Bytes → FileSelection
unfolding by_hint find_index largest is_empty
select_file [] requested hint = record { index = none; reason = no_files }
select_file (file ∷ rest) requested hint =
    if is_empty hint then by_index (file ∷ rest) requested else by_hint (file ∷ rest) requested hint
