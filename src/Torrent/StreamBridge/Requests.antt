-- ===== src/Torrent/StreamBridge/Requests.antt =====
-- src/torrent/libtorrent_stream_bridge.cpp: `process_piece_request` with the blocks that are written of a
-- piece, and the alerts of the library for reads, blocks and hashes.
use nuvio_engine.Common.{
  ℕ, zero, suc, ◌+◌, ◌-◌, ◌/◌, Bool, true, false, ◌||◌, ◌&&◌, not, List, [], ◌∷◌, ◌++◌, Option,
  none, some, Bytes, length, leb, ◌==◌, if◌then◌else◌, bytes_eq_instance,
}
use nuvio_engine.Text.{codes}
use nuvio_engine.Std.UnorderedMap.{lookup, has_key, insert_or_assign, erase, member}
use nuvio_engine.Cache.PieceCache.{VerifiedPieceCache, key_eq_instance, get, put, contains}
use nuvio_engine.Torrent.StreamBridge.{StreamRoute, block_bytes}
use nuvio_engine.Torrent.StreamBridge.State.{
  PieceKey, HttpCommand, ActiveDemand, PartialPiece, WaiterTable, Bridge, Library, read_piece_data,
}
use nuvio_engine.Torrent.StreamBridge.Waiters.{
  complete_waiter, finish_piece, fail_piece, publish_blocks, publish_partial,
}
use nuvio_engine.Torrent.StreamBridge.Deadlines.{key_of}
use nuvio_engine.Torrent.StreamBridge.Recompute.{recompute_schedule}
use nuvio_engine.Torrent.StreamBridge.Demands.{none_finished}

unfoldable pub piece_available : Library → StreamRoute → ℕ → Bridge → Bool
unfolding contains
piece_available library route piece s =
    contains (key_of route.torrent_id piece) s.piece_cache
    || elim (library.have_piece route.handle piece) [ none ↦ false | some have ↦ have ]

-- The field `needs_data` of a demand.
unfoldable pub set_needs_data : ℕ → Bool → List (ℕ × ActiveDemand) → List (ℕ × ActiveDemand)
set_needs_data demand_id needs [] = []
set_needs_data demand_id needs ((id, demand) ∷ demands) =
    if id == demand_id
    then (id, record demand { needs_data = needs }) ∷ demands
    else (id, demand) ∷ set_needs_data demand_id needs demands

unfoldable pub unfinished : ℕ → List Bool
unfinished zero = []
unfinished (suc count) = false ∷ unfinished count

-- The loop over the blocks of a partial piece.
unfoldable pub take_over : List Bool → List Bool → List Bool
take_over [] blocks = blocks
take_over (finished ∷ rest) [] = []
take_over (finished ∷ rest) (block ∷ blocks) = finished ∷ take_over rest blocks

unfoldable pub take_queue : ℕ → List PartialPiece → List Bool → List Bool
unfolding take_over
take_queue piece [] blocks = blocks
take_queue piece (partial ∷ queue) blocks =
    take_queue piece queue
      (if partial.piece_index == piece then take_over partial.finished blocks else blocks)

unfoldable pub written_blocks : Library → ℕ → ℕ → List Bool
unfolding unfinished take_queue
written_blocks library handle piece =
    let blocks = unfinished ((library.piece_size handle piece + block_bytes - 1) / block_bytes) in
    elim (library.download_queue handle) [
      | none ↦ blocks
      | some queue ↦ take_queue piece queue blocks
    ]

unfoldable pub finish : ℕ → Option Bytes → Bytes → Bridge → Bridge
unfolding complete_waiter
finish waiter bytes error s = record s { waiters = complete_waiter bytes error waiter s.waiters }

unfoldable pub waiters_at : PieceKey → WaiterTable → List ℕ
unfolding lookup
waiters_at key table = elim (lookup key table) [ none ↦ [] | some ws ↦ ws ]

-- `piece_waiters[key].push_back(waiter)`.
unfoldable pub register_waiter : PieceKey → ℕ → Bridge → Bridge
unfolding waiters_at insert_or_assign
register_waiter key waiter s = record s {
  piece_waiters =
      insert_or_assign key (waiters_at key s.piece_waiters ++ waiter ∷ []) s.piece_waiters;
}

unfoldable pub start_read : Library → ℕ → ℕ → PieceKey → Bridge → Bridge
unfolding has_key insert_or_assign erase fail_piece
start_read library now handle key s = elim (has_key key s.requested_reads) [
  | true ↦ s
  | false ↦ elim (library.refuses handle (read_piece_data key.piece)) [
    | none ↦ record s {
      calls = (handle, read_piece_data key.piece) ∷ s.calls;
      requested_reads = insert_or_assign key now s.requested_reads;
    }
    | some refusal ↦ fail_piece key (codes "failed to read a downloaded piece") s
  ]
]

unfoldable pub await_blocks : Library → ℕ → ℕ → PieceKey → Bridge → Bridge
unfolding lookup written_blocks insert_or_assign publish_blocks
await_blocks library handle waiter key s = elim (lookup key s.partial_blocks) [
  | some blocks ↦ record s { waiters = publish_blocks blocks waiter s.waiters }
  | none ↦
      let blocks = written_blocks library handle key.piece in
      record s {
        partial_blocks = insert_or_assign key blocks s.partial_blocks;
        waiters = publish_blocks blocks waiter s.waiters;
      }
]

-- From the look into the cache on.
unfoldable pub serve_request :
    Library → ℕ → HttpCommand → ℕ → PieceKey → VerifiedPieceCache × Option Bytes → Bridge → Bridge
unfolding insert_or_assign set_needs_data finish register_waiter piece_available start_read
    await_blocks
serve_request library now command waiter key (cache, some bytes) s =
    finish waiter (some bytes) [] (record s {
      piece_cache = cache;
      last_ready_pieces =
          insert_or_assign command.route.torrent_id command.piece s.last_ready_pieces;
      active_demands = set_needs_data command.demand_id false s.active_demands;
    })
serve_request library now command waiter key (cache, none) s =
    let waiting = register_waiter key waiter (record s { piece_cache = cache }) in
    let needs = not (piece_available library command.route command.piece waiting) in
    let noted = record waiting {
      active_demands = set_needs_data command.demand_id needs waiting.active_demands;
    } in
    elim needs [
      | true ↦ await_blocks library command.route.handle waiter key noted
      | false ↦ start_read library now command.route.handle key noted
    ]

-- There is no metadata, or the piece is none of the torrent's.
unfoldable pub out_of_range : Option ℕ → ℕ → Bool
out_of_range none piece = true
out_of_range (some num_pieces) piece = leb num_pieces piece

-- `in_session` or `torrent_file` throws, before the request has changed anything.
unfoldable pub request_throws : Library → HttpCommand → Bridge → Bool
unfolding member
request_throws library command s =
    let route = command.route in
    elim command.waiter [
      | none ↦ false
      | some waiter ↦
          not (member route.torrent_id s.revoked_torrents)
          && library.is_valid route.handle
          && (library.session_throws route.handle
              || (library.in_session route.handle && library.metadata_throws route.handle))
    ]

-- The rest of a request that does not throw there.
unfoldable pub process_waiter : Library → ℕ → HttpCommand → ℕ → Bridge → Bridge
unfolding member finish out_of_range serve_request get
process_waiter library now command waiter s =
    let route = command.route in
    elim (member route.torrent_id s.revoked_torrents
      || not (library.is_valid route.handle)
      || not (library.in_session route.handle)) [
        | true ↦ finish waiter none (codes "torrent is unavailable") s
        | false ↦ elim (out_of_range (library.num_pieces route.handle) command.piece) [
          | true ↦ finish waiter none (codes "torrent piece is out of range") s
          | false ↦
              let key = key_of route.torrent_id command.piece in
              serve_request library now command waiter key (get key s.piece_cache) s
        ]
      ]

unfoldable pub process_piece_request : Library → ℕ → HttpCommand → Bridge → Bridge
unfolding process_waiter
process_piece_request library now command s = elim command.waiter [
  | none ↦ s
  | some waiter ↦ process_waiter library now command waiter s
]

-- `lt::read_piece_alert`: the message of its error, and its buffer, which may be missing or empty.
pub record ReadPieceAlert : Type 0 where
  pub key : PieceKey
  pub error : Option Bytes
  pub buffer : Option Bytes

-- The data of the alert, or the error for the waiters.
unfoldable pub read_failure : Option Bytes → Option Bytes → Option Bytes
read_failure (some error) buffer = some error
read_failure none none = some (codes "verified piece is empty")
read_failure none (some []) = some (codes "verified piece is empty")
read_failure none (some (byte ∷ bytes)) = none

unfoldable pub handle_read_piece : ReadPieceAlert → Bridge → Bridge
unfolding erase read_failure fail_piece insert_or_assign put finish_piece
handle_read_piece alert s =
    let read = record s {
      requested_reads = erase alert.key s.requested_reads;
      partial_blocks = erase alert.key s.partial_blocks;
    } in
    elim (read_failure alert.error alert.buffer) [
      | some error ↦ fail_piece alert.key error read
      | none ↦ finish_piece alert.key alert.buffer [] (record read {
        last_ready_pieces =
            insert_or_assign alert.key.torrent_id alert.key.piece read.last_ready_pieces;
        piece_cache = put alert.key alert.buffer read.piece_cache;
      })
    ]

unfoldable pub finish_block : ℕ → List Bool → List Bool
finish_block block [] = []
finish_block zero (finished ∷ blocks) = true ∷ blocks
finish_block (suc block) (finished ∷ blocks) = finished ∷ finish_block block blocks

-- The index of the block is below the number of blocks; a negative one is no number here.
unfoldable pub handle_block_finished : Library → ℕ → PieceKey → ℕ → Bridge → Bridge
unfolding lookup insert_or_assign finish_block publish_partial none_finished recompute_schedule
handle_block_finished library now key block s = elim (lookup key s.partial_blocks) [
  | none ↦ s
  | some blocks ↦
      if leb (length blocks) block
      then s
      else (let published = publish_partial key (record s {
        partial_blocks = insert_or_assign key (finish_block block blocks) s.partial_blocks;
      }) in
          if none_finished blocks
          then recompute_schedule library now key.torrent_id published
          else published)
]

unfoldable pub handle_hash_failed : PieceKey → Bridge → Bridge
unfolding lookup insert_or_assign unfinished publish_partial
handle_hash_failed key s = elim (lookup key s.partial_blocks) [
  | none ↦ s
  | some blocks ↦ publish_partial key (record s {
    partial_blocks = insert_or_assign key (unfinished (length blocks)) s.partial_blocks;
  })
]
