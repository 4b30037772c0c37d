-- ===== src/Core/Runtime/Metadata.antt =====
-- The table of files: how events change it, and what the calls read from it.
use nuvio_engine.Common.{
  ℕ, zero, suc, ◌+◌, ◌%◌, ◌<◌, ◌≤◌, ◌≡◌, refl, List, [], ◌∷◌, map, Option, none, some, arith, Bytes,
  bytes_eq, u32_max, length, get_elem?, if◌then◌else◌, bytes_eq_instance,
}
use nuvio_engine.Std.UnorderedMap.{lookup, lookup-insert_or_assign, lookup-erase}
use nuvio_engine.Torrent.FileSelection.{TorrentFile, select_file}
use nuvio_engine.Torrent.FileSelection.Reasons.{select_file_in_range}
use nuvio_engine.Core.Runtime.Types.{
  TorrentFileInfo, metadata_ready, torrent_removed, BackendEvent, Request,
}
use nuvio_engine.Core.Runtime.{
  Runtime, enqueue, selectable, prepare_selected, prepare_stream, note_files, push_event,
}

-- A `metadata_ready` event sets the files of its torrent, a `torrent_removed` event drops them, and
-- no event changes the files of another torrent.
pub push_event_files :
    {B : Type 0} (e : BackendEvent) (r : Runtime B) (id : Bytes)
    → lookup id (push_event e r).files ≡ (
        if bytes_eq e.torrent_id id
        then (elim e.type [
          | metadata_ready ↦ some e.files
          | torrent_removed ↦ none
          | _ ↦ lookup id r.files
        ])
        else lookup id r.files)
unfolding push_event note_files
push_event_files e r id = ground (
  arith,
  lookup-insert_or_assign e.torrent_id id e.files r.files,
  lookup-erase e.torrent_id id r.files,
)

selectable_file :
    (infos : List TorrentFileInfo) (i : ℕ) (file : TorrentFile)
    → get_elem? (map selectable infos) i ≡ some file
    → (info : TorrentFileInfo) × (get_elem? infos i ≡ some info) × (file ≡ selectable info)
selectable_file [] i file e = cc
selectable_file (x ∷ infos) zero file e = (x, refl, ground arith)
selectable_file (x ∷ infos) (suc i) file e = selectable_file infos i file e

get_elem?_in_range :
    (xs : List TorrentFileInfo) (i : ℕ) (x : TorrentFileInfo)
    → get_elem? xs i ≡ some x
    → i < length xs
get_elem?_in_range [] i x e = cc
get_elem?_in_range (y ∷ ys) zero x e = omega arith
get_elem?_in_range (y ∷ ys) (suc i) x e = let rest = get_elem?_in_range ys i x e in omega arith

word_of_index : (i : ℕ) → i ≤ u32_max → i % (u32_max + 1) ≡ i
word_of_index i small = omega arith

prepare_selected_found :
    {B : Type 0} (id : Bytes) (infos : List TorrentFileInfo) (selected : Option ℕ) (r : Runtime B)
    (i : ℕ) (file : TorrentFileInfo)
    → selected ≡ some i
    → get_elem? infos i ≡ some file
    → i % (u32_max + 1) ≡ i
    → prepare_selected id infos selected r ≡ enqueue (Request.prepare_stream id i file) r
unfolding prepare_selected
prepare_selected_found id infos selected r i file picked here word =
    rw (picked, prepare_selected, here, word) refl

-- The stream of a torrent with files: the command is for the file that `select_file` names, with its
-- own index and data.
pub prepare_stream_selects :
    {B : Type 0} (id : Bytes) (requested : Option ℕ) (hint : Bytes) (r : Runtime B)
    (info : TorrentFileInfo) (infos : List TorrentFileInfo)
    → lookup id r.files ≡ some (info ∷ infos)
    → length (info ∷ infos) ≤ u32_max
    → (i : ℕ) × (file : TorrentFileInfo) × ((select_file
          (map selectable (info ∷ infos))
          requested
          hint).index
        ≡ some i)
      × (get_elem? (info ∷ infos) i ≡ some file)
      × (prepare_stream id requested hint r ≡ enqueue (Request.prepare_stream id i file) r)
unfolding prepare_stream
prepare_stream_selects id requested hint r info infos known small =
    let (i, chosen, picked, found) =
      select_file_in_range (map selectable (info ∷ infos)) requested hint (omega arith) in
    let (file, here, same) = selectable_file (info ∷ infos) i chosen found in
    let below = get_elem?_in_range (info ∷ infos) i file here in
    let word = word_of_index i (omega arith) in
    (
      i,
      file,
      picked,
      here,
      rw (prepare_stream, known)
          (prepare_selected_found id (info ∷ infos)
            (select_file (map selectable (info ∷ infos)) requested hint).index r i file picked here
            word),
    )
