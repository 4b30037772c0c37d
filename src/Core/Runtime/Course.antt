-- ===== src/Core/Runtime/Course.antt =====
-- src/core/engine_runtime.cpp: the calls of the backend for a list of commands.
use nuvio_engine.Common.{ℕ, ◌≡◌, refl, List, [], ◌∷◌, Bytes}
use nuvio_engine.Core.Runtime.Types.{TorrentInput, TorrentFileInfo, Request, Command, Backend}
use nuvio_engine.Core.Runtime.Worker.{dispatch}

-- What the backend is called for, one call after the other: each command of a list in its order under
-- its request id, and between two of them only `pop_events` and `statistics`.
pub data Course (K : Backend) (save_path : Bytes) : List Command → K.State → K.State → Type 0 where
  ended : (s : K.State) → Course K save_path [] s s
  pops :
      {cs : List Command} (s : K.State) {t : K.State}
      → Course K save_path cs (K.pop_events s).0 t
      → Course K save_path cs s t
  measures :
      {cs : List Command} (s : K.State) {t : K.State}
      → Course K save_path cs (K.statistics s).0 t
      → Course K save_path cs s t
  adds :
      {cs : List Command} (s : K.State) (id : ℕ) (input : TorrentInput) {t : K.State}
      → Course K save_path cs (K.add_torrent s id input save_path).0 t
      → Course K save_path
          (record { request_id = id; request = Request.add_torrent input } ∷ cs)
          s
          t
  prepares :
      {cs : List Command} (s : K.State) (id : ℕ) (torrent_id : Bytes) (index : ℕ)
      (file : TorrentFileInfo) {t : K.State}
      → Course K save_path cs (K.prepare_file s id torrent_id index file).0 t
      → Course K save_path
          (record { request_id = id; request = Request.prepare_stream torrent_id index file } ∷ cs)
          s
          t
  stops :
      {cs : List Command} (s : K.State) (id : ℕ) (stream_id : Bytes) {t : K.State}
      → Course K save_path cs (K.stop_stream s id stream_id).0 t
      → Course K save_path
          (record { request_id = id; request = Request.stop_stream stream_id } ∷ cs)
          s
          t
  reclaims :
      {cs : List Command} (s : K.State) (id : ℕ) (target : ℕ) {t : K.State}
      → Course K save_path cs (K.reclaim_disk_cache s id target).0 t
      → Course K save_path
          (record { request_id = id; request = Request.reclaim_disk_cache target } ∷ cs)
          s
          t
  removes :
      {cs : List Command} (s : K.State) (id : ℕ) (torrent_id : Bytes) {t : K.State}
      → Course K save_path cs (K.remove_torrent s id torrent_id).0 t
      → Course K save_path
          (record { request_id = id; request = Request.remove_torrent torrent_id } ∷ cs)
          s
          t

module _ (K : Backend) (save_path : Bytes) where
  open K use {State}

  pub dispatch-Course :
      (command : Command) (cs : List Command) (s t : State)
      → Course K save_path cs (dispatch K command save_path s).0 t
      → Course K save_path (command ∷ cs) s t
  unfolding dispatch
  dispatch-Course command cs s t c = by_request command.request command.request_id refl c
    where
      by_request :
          (request : Request) (id : ℕ)
          → command ≡ record { request_id = id; request = request }
          → Course K save_path cs
              (dispatch K (record { request_id = id; request = request }) save_path s).0
              t
          → Course K save_path (command ∷ cs) s t
      by_request (Request.add_torrent input) id e c = rw e (adds s id input c)
      by_request (Request.prepare_stream torrent_id index file) id e c =
          rw e (prepares s id torrent_id index file c)
      by_request (Request.stop_stream stream_id) id e c = rw e (stops s id stream_id c)
      by_request (Request.reclaim_disk_cache target) id e c = rw e (reclaims s id target c)
      by_request (Request.remove_torrent torrent_id) id e c = rw e (removes s id torrent_id c)
