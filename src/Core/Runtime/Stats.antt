-- ===== src/Core/Runtime/Stats.antt =====
-- `BackendStats` of src/torrent/protocol_backend.hpp, the statistics of
-- include/nuvio_engine/nuvio_engine.h, and the copy between them in
-- `EngineRuntime::refresh_stats` of src/core/engine_runtime.cpp. The constant `struct_size` and the
-- reserved fields are left out.
use nuvio_engine.Common.{ℕ, Bool, List, [], ◌∷◌, Bytes, if◌then◌else◌, bytes_eq_instance}
use nuvio_engine.Std.UnorderedMap.{insert_or_assign}

pub record StreamState : Type 0 where
  pub stream_id : Bytes
  pub file_index : ℕ
  pub file_size : ℕ
  pub contiguous_ready_bytes : ℕ
  pub verified_file_bytes : ℕ
  pub delivered_bytes : ℕ
  pub active_demands : ℕ
  pub scheduled_pieces : ℕ
  pub blocking_pieces : ℕ
  pub primary_blocking_piece : ℕ
  pub secondary_blocking_piece : ℕ
  pub last_ready_piece : ℕ
  pub primary_demand_start : ℕ
  pub primary_demand_end : ℕ
  pub secondary_demand_start : ℕ
  pub secondary_demand_end : ℕ
  pub schedule_revision : ℕ

pub record BackendStats : Type 0 where
  pub active_torrents : ℕ
  pub active_streams : ℕ
  pub active_http_requests : ℕ
  pub connected_peers : ℕ
  pub connected_seeds : ℕ
  pub known_peers : ℕ
  pub connect_candidates : ℕ
  pub interested_peers : ℕ
  pub unchoked_peers : ℕ
  pub downloading_peers : ℕ
  pub snubbed_peers : ℕ
  pub pending_block_requests : ℕ
  pub target_block_requests : ℕ
  pub timed_out_block_requests : ℕ
  pub pending_piece_reads : ℕ
  pub connecting_peers : ℕ
  pub handshaking_peers : ℕ
  pub target_piece_peers : ℕ
  pub target_piece_unchoked_peers : ℕ
  pub target_piece_downloading_peers : ℕ
  pub off_target_downloading_peers : ℕ
  pub tracker_reply_events : ℕ
  pub tracker_error_events : ℕ
  pub dht_reply_events : ℕ
  pub download_rate_bytes_per_second : ℕ
  pub upload_rate_bytes_per_second : ℕ
  pub total_payload_download_bytes : ℕ
  pub total_payload_upload_bytes : ℕ
  pub memory_cache_capacity_bytes : ℕ
  pub memory_cache_used_bytes : ℕ
  pub memory_cache_hits : ℕ
  pub memory_cache_misses : ℕ
  pub memory_cache_evictions : ℕ
  pub memory_cache_entries : ℕ
  pub warm_torrents : ℕ
  pub quiesced_torrents : ℕ
  pub disk_cache_capacity_bytes : ℕ
  pub disk_cache_used_bytes : ℕ
  pub disk_cache_protected_bytes : ℕ
  pub disk_cache_evictions : ℕ
  pub disk_cache_reclaimed_bytes : ℕ
  pub tracker_peers_returned : ℕ
  pub dht_peers_returned : ℕ
  pub peer_connect_events : ℕ
  pub peer_disconnect_events : ℕ
  pub peer_disconnect_timeouts : ℕ
  pub peer_disconnect_connect_failures : ℕ
  pub peer_disconnect_redundant : ℕ
  pub peer_disconnect_turnover : ℕ
  pub peer_disconnect_other : ℕ
  pub torrent_finished_events : ℕ
  pub disk_cache_over_budget : Bool
  pub streams : List StreamState

pub record EngineStats : Type 0 where
  pub active_torrents : ℕ
  pub active_streams : ℕ
  pub active_http_requests : ℕ
  pub connected_peers : ℕ
  pub connected_seeds : ℕ
  pub pending_piece_reads : ℕ
  pub download_rate_bytes_per_second : ℕ
  pub upload_rate_bytes_per_second : ℕ
  pub total_payload_download_bytes : ℕ
  pub total_payload_upload_bytes : ℕ
  pub memory_cache_capacity_bytes : ℕ
  pub memory_cache_used_bytes : ℕ
  pub memory_cache_hits : ℕ
  pub memory_cache_misses : ℕ
  pub memory_cache_evictions : ℕ
  pub memory_cache_entries : ℕ
  pub warm_torrents : ℕ
  pub quiesced_torrents : ℕ
  pub disk_cache_capacity_bytes : ℕ
  pub disk_cache_used_bytes : ℕ
  pub disk_cache_protected_bytes : ℕ
  pub disk_cache_evictions : ℕ
  pub disk_cache_reclaimed_bytes : ℕ
  pub disk_cache_over_budget : ℕ
  pub known_peers : ℕ
  pub connect_candidates : ℕ
  pub interested_peers : ℕ
  pub unchoked_peers : ℕ
  pub downloading_peers : ℕ
  pub snubbed_peers : ℕ
  pub pending_block_requests : ℕ
  pub target_block_requests : ℕ
  pub timed_out_block_requests : ℕ
  pub connecting_peers : ℕ
  pub handshaking_peers : ℕ
  pub target_piece_peers : ℕ
  pub target_piece_unchoked_peers : ℕ
  pub target_piece_downloading_peers : ℕ
  pub off_target_downloading_peers : ℕ
  pub tracker_reply_events : ℕ
  pub tracker_error_events : ℕ
  pub dht_reply_events : ℕ
  pub tracker_peers_returned : ℕ
  pub dht_peers_returned : ℕ
  pub peer_connect_events : ℕ
  pub peer_disconnect_events : ℕ
  pub peer_disconnect_timeouts : ℕ
  pub peer_disconnect_connect_failures : ℕ
  pub peer_disconnect_redundant : ℕ
  pub peer_disconnect_turnover : ℕ
  pub peer_disconnect_other : ℕ
  pub torrent_finished_events : ℕ

pub record StreamStats : Type 0 where
  pub file_index : ℕ
  pub file_size : ℕ
  pub contiguous_ready_bytes : ℕ
  pub verified_file_bytes : ℕ
  pub delivered_bytes : ℕ
  pub active_demands : ℕ
  pub scheduled_pieces : ℕ
  pub blocking_pieces : ℕ
  pub primary_blocking_piece : ℕ
  pub secondary_blocking_piece : ℕ
  pub last_ready_piece : ℕ
  pub primary_demand_start : ℕ
  pub primary_demand_end : ℕ
  pub secondary_demand_start : ℕ
  pub secondary_demand_end : ℕ
  pub schedule_revision : ℕ

unfoldable pub engine_stats : BackendStats → EngineStats
engine_stats backend_stats = record {
  active_torrents = backend_stats.active_torrents;
  active_streams = backend_stats.active_streams;
  active_http_requests = backend_stats.active_http_requests;
  connected_peers = backend_stats.connected_peers;
  connected_seeds = backend_stats.connected_seeds;
  pending_piece_reads = backend_stats.pending_piece_reads;
  download_rate_bytes_per_second = backend_stats.download_rate_bytes_per_second;
  upload_rate_bytes_per_second = backend_stats.upload_rate_bytes_per_second;
  total_payload_download_bytes = backend_stats.total_payload_download_bytes;
  total_payload_upload_bytes = backend_stats.total_payload_upload_bytes;
  memory_cache_capacity_bytes = backend_stats.memory_cache_capacity_bytes;
  memory_cache_used_bytes = backend_stats.memory_cache_used_bytes;
  memory_cache_hits = backend_stats.memory_cache_hits;
  memory_cache_misses = backend_stats.memory_cache_misses;
  memory_cache_evictions = backend_stats.memory_cache_evictions;
  memory_cache_entries = backend_stats.memory_cache_entries;
  warm_torrents = backend_stats.warm_torrents;
  quiesced_torrents = backend_stats.quiesced_torrents;
  disk_cache_capacity_bytes = backend_stats.disk_cache_capacity_bytes;
  disk_cache_used_bytes = backend_stats.disk_cache_used_bytes;
  disk_cache_protected_bytes = backend_stats.disk_cache_protected_bytes;
  disk_cache_evictions = backend_stats.disk_cache_evictions;
  disk_cache_reclaimed_bytes = backend_stats.disk_cache_reclaimed_bytes;
  disk_cache_over_budget = (if backend_stats.disk_cache_over_budget then 1 else 0);
  known_peers = backend_stats.known_peers;
  connect_candidates = backend_stats.connect_candidates;
  interested_peers = backend_stats.interested_peers;
  unchoked_peers = backend_stats.unchoked_peers;
  downloading_peers = backend_stats.downloading_peers;
  snubbed_peers = backend_stats.snubbed_peers;
  pending_block_requests = backend_stats.pending_block_requests;
  target_block_requests = backend_stats.target_block_requests;
  timed_out_block_requests = backend_stats.timed_out_block_requests;
  connecting_peers = backend_stats.connecting_peers;
  handshaking_peers = backend_stats.handshaking_peers;
  target_piece_peers = backend_stats.target_piece_peers;
  target_piece_unchoked_peers = backend_stats.target_piece_unchoked_peers;
  target_piece_downloading_peers = backend_stats.target_piece_downloading_peers;
  off_target_downloading_peers = backend_stats.off_target_downloading_peers;
  tracker_reply_events = backend_stats.tracker_reply_events;
  tracker_error_events = backend_stats.tracker_error_events;
  dht_reply_events = backend_stats.dht_reply_events;
  tracker_peers_returned = backend_stats.tracker_peers_returned;
  dht_peers_returned = backend_stats.dht_peers_returned;
  peer_connect_events = backend_stats.peer_connect_events;
  peer_disconnect_events = backend_stats.peer_disconnect_events;
  peer_disconnect_timeouts = backend_stats.peer_disconnect_timeouts;
  peer_disconnect_connect_failures = backend_stats.peer_disconnect_connect_failures;
  peer_disconnect_redundant = backend_stats.peer_disconnect_redundant;
  peer_disconnect_turnover = backend_stats.peer_disconnect_turnover;
  peer_disconnect_other = backend_stats.peer_disconnect_other;
  torrent_finished_events = backend_stats.torrent_finished_events;
}

unfoldable pub stream_snapshot : StreamState → StreamStats
stream_snapshot stream = record {
  file_index = stream.file_index;
  file_size = stream.file_size;
  contiguous_ready_bytes = stream.contiguous_ready_bytes;
  verified_file_bytes = stream.verified_file_bytes;
  delivered_bytes = stream.delivered_bytes;
  active_demands = stream.active_demands;
  scheduled_pieces = stream.scheduled_pieces;
  blocking_pieces = stream.blocking_pieces;
  primary_blocking_piece = stream.primary_blocking_piece;
  secondary_blocking_piece = stream.secondary_blocking_piece;
  last_ready_piece = stream.last_ready_piece;
  primary_demand_start = stream.primary_demand_start;
  primary_demand_end = stream.primary_demand_end;
  secondary_demand_start = stream.secondary_demand_start;
  secondary_demand_end = stream.secondary_demand_end;
  schedule_revision = stream.schedule_revision;
}

-- `stream_stats_` after the loop over the streams.
unfoldable pub snapshots :
    List StreamState → List (Bytes × StreamStats) → List (Bytes × StreamStats)
unfolding stream_snapshot
snapshots [] known = known
snapshots (stream ∷ rest) known =
    snapshots rest (insert_or_assign stream.stream_id (stream_snapshot stream) known)
