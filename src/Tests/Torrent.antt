-- ===== src/Tests/Torrent.antt =====
-- The selection of files on a concrete torrent.
use nuvio_engine.Common.{
  inl, inr, false, ◌+◌, ◌-◌, Bytes, arith, take, drop, bytes_eq, ◌≡◌, refl, true, List, [], ◌∷◌,
  none, some,
}
use nuvio_engine.Text.{lowercase, codes}
use nuvio_engine.Torrent.FileSelection.{
  basename, is_playable_media_path, TorrentFile, largest, select_file,
}
use nuvio_engine.Torrent.FileSelection.Reasons.{Justified, select_file-Justified}
use nuvio_engine.Http.ByteRange.{ByteRange}
use nuvio_engine.Torrent.StreamBridge.{
  StreamRoute, Round, served, stream_body, content_type_for_path, finished_run_end,
}
use nuvio_engine.Torrent.StreamBridge.Body.{body_bytes, stream_body_tiles}
use nuvio_engine.Torrent.StreamBridge.{PieceSlice}
use nuvio_engine.Torrent.StreamBridge.Piece.{
  Wake, Delivers, serve_piece, IsServed, serve_piece-IsServed,
}

abbrev torrent_files : List TorrentFile
torrent_files =
    record { path = codes "show/readme.txt"; size = 900 }
    ∷ record { path = codes "show/one.mkv"; size = 500 }
    ∷ record { path = codes "show/two.MKV"; size = 700 }
    ∷ []

largest_run : largest torrent_files true ≡ some 2
unfolding largest is_playable_media_path
largest_run = refl

hint_run : (select_file torrent_files none (codes "one.mkv")).index ≡ some 1
unfolding select_file bytes_eq lowercase basename
hint_run = refl

select_file-Justified_example :
    Justified torrent_files
      (some 0)
      (codes "one.mkv")
      (select_file torrent_files (some 0) (codes "one.mkv"))
select_file-Justified_example = select_file-Justified torrent_files (some 0) (codes "one.mkv")

-- A file that starts at byte 3 of a torrent with pieces of four bytes.
abbrev route : StreamRoute
route = record {
  handle = 0;
  torrent_id = [];
  stream_id = [];
  target = [];
  content_type = [];
  file_index = 0;
  piece_size = 4;
  file_offset = 3;
  file_size = 9;
  payload_path = [];
  activity = 0;
}

abbrev range : ByteRange
range = record { start = 2; end = 6 }

abbrev rounds : List Round
rounds = served ∷ served ∷ []

abbrev torrent : Bytes
torrent = codes "0123456789ab"

body_run : body_bytes torrent (stream_body route range rounds) ≡ codes "56789"
unfolding stream_body
body_run = refl

type_run : content_type_for_path (codes "Show/One.MKV") ≡ codes "video/x-matroska"
unfolding content_type_for_path
type_run = refl

blocks_run : finished_run_end (true ∷ true ∷ []) 20000 100000 ≡ 32768
unfolding finished_run_end
blocks_run = refl

stream_body_tiles_example :
    body_bytes torrent (stream_body route range rounds)
    ≡ take (range.end - range.start + 1) (drop (route.file_offset + range.start) torrent)
stream_body_tiles_example =
    stream_body_tiles route range rounds torrent (omega arith) (omega arith) (omega arith)
      (omega arith) tt (omega arith)

-- A slice of a piece of six bytes, which is verified when the reading of the file has failed.
abbrev slice : PieceSlice
slice = record { piece = 0; piece_start = 0; begin = 1; end = 5 }

abbrev wakes : List Wake
wakes =
    record {
      halted = false;
      verified = none;
      finished_blocks = true ∷ [];
      read = none;
      written = true;
    }
    ∷ record {
      halted = false;
      verified = some (codes "abcdef");
      finished_blocks = [];
      read = none;
      written = true;
    }
    ∷ []

slice_run : serve_piece slice wakes true ≡ record { bytes = codes "bcde"; result = some true }
unfolding serve_piece
slice_run = refl

slice-Delivers : Delivers (codes "abcdef") slice wakes 1
slice-Delivers = (
  inl refl,
  λ buffer e. cc,
  (inr refl, λ buffer e. cc, tt, tt),
  (inr refl, λ buffer e. cc, tt, tt),
)

serve_piece-IsServed_example : IsServed (codes "abcdef") slice (serve_piece slice wakes true)
serve_piece-IsServed_example =
    serve_piece-IsServed (codes "abcdef") slice wakes true (omega arith) slice-Delivers
