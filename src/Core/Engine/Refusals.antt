-- ===== src/Core/Engine/Refusals.antt =====
-- src/core/engine.cpp: what the calls that return a request id do to the engine.
use nuvio_engine.Common.{ℕ, ◌≡◌, ◌≢◌, ◌⊎◌, Option, none, some, Bytes, bytes_eq_instance}
use nuvio_engine.Core.Runtime.Types.{Status, Request, TorrentInput, TorrentFileInfo}
use nuvio_engine.Core.Runtime as R
use nuvio_engine.Core.Runtime.{Runtime, Reply, answer, accept}
use nuvio_engine.Core.Engine.{normalize_torrent_id, normalize_stream_id}
use nuvio_engine.Core.Engine.Requests.{TorrentRequest, StreamRequest}
use nuvio_engine.Core.Engine.Calls.{
  add_torrent, prepare_stream, remove_torrent, stop_stream, reclaim_disk_cache,
}
use nuvio_engine.Core.Engine.Arguments.{IsSource, IsIdOf}

-- The request that a call stands for, from the arguments of the call.
unfoldable pub IsAdding : TorrentRequest → Request → Type 0
IsAdding torrent request =
    (input : TorrentInput) × (request ≡ Request.add_torrent input) × IsSource torrent input

unfoldable pub IsPreparing : StreamRequest → Request → Type 0
IsPreparing stream request =
    (id : Bytes) × (index : ℕ) × (file : TorrentFileInfo) × (request
      ≡ Request.prepare_stream id index file)
    × IsIdOf (normalize_torrent_id stream.torrent_id) id

unfoldable pub IsRemoving : Option Bytes → Request → Type 0
IsRemoving given request =
    (id : Bytes) × (request ≡ Request.remove_torrent id) × IsIdOf (normalize_torrent_id given) id

unfoldable pub IsStopping : Option Bytes → Request → Type 0
IsStopping given request =
    (id : Bytes) × (request ≡ Request.stop_stream id) × IsIdOf (normalize_stream_id given) id

unfoldable pub IsReclaiming : ℕ → Request → Type 0
IsReclaiming target request = request ≡ Request.reclaim_disk_cache target

-- The property of a request by a call with a record, which may be missing.
abbrev pub OfSome : {A : Type 0} → (A → Request → Type 0) → Option A → Request → Type 0
OfSome P none request = ⊥
OfSome P (some a) request = P a request

-- The runtime refuses, or takes a request with the property into its queue.
pub record Refuses {B : Type 0} (r : Runtime B) (out : Runtime B × Reply ℕ) : Type 0 where
  pub unchanged : out.0 ≡ r
  pub status : out.1.status ≢ Status.ok
  pub value : out.1.value ≡ none

pub record Takes {B : Type 0} (P : Request → Type 0) (r : Runtime B) (out : Runtime B × Reply ℕ)
    : Type 0 where
  pub request : Request
  pub asked : P request
  pub queued : out.0 ≡ accept request r
  pub reply : out.1 ≡ answer r.next_request_id

-- The call is refused, with the engine unchanged and no id returned, or the engine's runtime takes
-- a request with the property, last in its queue, and the caller gets its id.
pub record IsRefused {B : Type 0} (engine : Option (Runtime B)) (out : Option (Runtime B) × Reply ℕ)
    : Type 0 where
  pub unchanged : out.0 ≡ engine
  pub status : out.1.status ≢ Status.ok
  pub value : (out.1.value ≡ none) ⊎ (out.1.value ≡ some 0)

pub record IsTaken {B : Type 0} (P : Request → Type 0) (engine : Option (Runtime B))
    (out : Option (Runtime B) × Reply ℕ) : Type 0 where
  pub runtime : Runtime B
  pub request : Request
  pub present : engine ≡ some runtime
  pub asked : P request
  pub queued : out.0 ≡ some (accept request runtime)
  pub reply : out.1 ≡ answer runtime.next_request_id

abbrev pub IsSubmitted :
    {B : Type 0} → (Request → Type 0) → Option (Runtime B) → Option (Runtime B) × Reply ℕ → Type 0
IsSubmitted P engine out = IsRefused engine out ⊎ IsTaken P engine out

-- The runtime refuses, or takes.
abbrev Submits : {B : Type 0} → (Request → Type 0) → Runtime B → Runtime B × Reply ℕ → Type 0
Submits P r out = Refuses r out ⊎ Takes P r out
