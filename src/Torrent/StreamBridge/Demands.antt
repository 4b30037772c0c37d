-- ===== src/Torrent/StreamBridge/Demands.antt =====
-- src/torrent/libtorrent_stream_bridge.cpp: the demands that `recompute_schedule` plans, and the blocks where
-- they start.
use nuvio_engine.Common.{
  ℕ, ◌+◌, ◌/◌, ◌%◌, Bool, true, false, ◌&&◌, not, List, [], ◌∷◌, Option, none, some, Bytes,
  bytes_eq, u32_max, u64_mod, if◌then◌else◌, nat_eq, bytes_eq_instance,
}
use nuvio_engine.Std.OrderedMap.{assign}
use nuvio_engine.Std.UnorderedMap.{lookup}
use nuvio_engine.Http.ByteRange.{ByteRange}
use nuvio_engine.Cache.PieceCache.{key_eq_instance}
use nuvio_engine.Scheduler.DemandPlan.{StreamDemand, reader, anchor, prefetch}
use nuvio_engine.Torrent.StreamBridge.{StreamRoute, block_bytes}
use nuvio_engine.Torrent.StreamBridge.State.{ActiveDemand, StreamAnchor, Bridge}
use nuvio_engine.Torrent.StreamBridge.Waiters.{is_empty}
use nuvio_engine.Torrent.StreamBridge.Deadlines.{key_of}

-- The piece at the start of a range of the file.
unfoldable pub first_piece : StreamRoute → ByteRange → ℕ
first_piece route range =
    (route.file_offset + range.start) % u64_mod / route.piece_size % (u32_max + 1)

unfoldable pub none_finished : List Bool → Bool
none_finished [] = true
none_finished (finished ∷ blocks) = not finished && none_finished blocks

unfoldable pub is_cold_piece : Option (List Bool) → Bool
unfolding none_finished
is_cold_piece none = true
is_cold_piece (some blocks) = none_finished blocks

unfoldable pub reader_demand : Bytes → Bridge → ℕ × ActiveDemand → StreamDemand
unfolding first_piece lookup is_cold_piece
reader_demand id s (demand_id, demand) = record {
  id = demand_id;
  file_offset = demand.route.file_offset;
  file_size = demand.route.file_size;
  piece_size = demand.route.piece_size;
  range = demand.range;
  kind = reader;
  cold =
      is_cold_piece (lookup (key_of id (first_piece demand.route demand.range)) s.partial_blocks);
}

unfoldable pub anchor_demand : StreamAnchor → StreamDemand
anchor_demand a = record {
  id = 0;
  file_offset = a.route.file_offset;
  file_size = a.route.file_size;
  piece_size = a.route.piece_size;
  range = a.range;
  kind = if a.prefetch then prefetch else anchor;
  cold = false;
}

-- The demands of the torrent that need data, and the handle of the last one.
unfoldable pub reader_demands :
    Bytes → Bridge → List (ℕ × ActiveDemand) → Option ℕ → List StreamDemand × Option ℕ
unfolding bytes_eq reader_demand
reader_demands id s [] handle = ([], handle)
reader_demands id s (entry ∷ rest) handle =
    elim (bytes_eq entry.1.route.torrent_id id && entry.1.needs_data) [
      | false ↦ reader_demands id s rest handle
      | true ↦
          let (demands, last) = reader_demands id s rest (some entry.1.route.handle) in
          (reader_demand id s entry ∷ demands, last)
    ]

unfoldable pub with_anchor :
    Option StreamAnchor → List StreamDemand × Option ℕ → List StreamDemand × Option ℕ
unfolding anchor_demand
with_anchor none collected = collected
with_anchor (some a) collected =
    if is_empty collected.0 then (anchor_demand a ∷ [], some a.route.handle) else collected

unfoldable pub collect_demands : Bytes → Bridge → List StreamDemand × Option ℕ
unfolding reader_demands with_anchor lookup
collect_demands id s = with_anchor (lookup id s.anchors) (reader_demands id s s.active_demands none)

unfoldable pub first_blocks_of : List StreamDemand → List (ℕ × ℕ) → List (ℕ × ℕ)
unfolding assign
first_blocks_of [] blocks = blocks
first_blocks_of (demand ∷ demands) blocks =
    let absolute = (demand.file_offset + demand.range.start) % u64_mod in
    first_blocks_of demands (
      assign (absolute / demand.piece_size % (u32_max + 1))
        (absolute % demand.piece_size / block_bytes) blocks)
