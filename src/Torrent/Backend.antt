-- ===== src/Torrent/Backend.antt =====
-- src/torrent/libtorrent_backend.cpp: which torrents are warm, kept without a stream, and which of those
-- are quiesced, that is paused. A torrent handle is a number, and `has_stream_for_torrent` of the
-- stream bridge an argument. Times are in milliseconds.
pub mod Warmth
use nuvio_engine.Common.{
  ℕ, ◌+◌, ◌/◌, Bool, true, false, ◌||◌, not, List, [], ◌∷◌, Option, none, some, Bytes, bytes_eq,
  min, max, ltb, ◌==◌, if◌then◌else◌, bytes_eq_instance, nat_eq,
}
use nuvio_engine.Std.UnorderedMap.{lookup, try_emplace, erase, erase_if, member, insert}
use nuvio_engine.Torrent.StreamBridge.Waiters.{is_empty}

-- The calls of `set_flags`: in upload mode nothing is downloaded.
pub data FlagCall : Type 0 where
  upload_mode paused resumed : FlagCall

-- `RequestContext`, as far as a resume save reads it. The number stands for its address.
pub record RequestContext : Type 0 where
  pub number : ℕ
  pub explicitly_removed : Bool

-- What the torrent library answers: the user data of a handle is none for a null pointer, and a call
-- that is refused throws.
pub record Library : Type 0 where
  pub is_valid : ℕ → Bool
  pub userdata : ℕ → Option RequestContext
  pub refuses_flags : ℕ → FlagCall → Bool
  pub refuses_save : ℕ → Bool

-- The members of the backend that the warmth of a torrent depends on, and the calls of `set_flags`, the
-- latest first.
pub record WarmState : Type 0 where
  pub shutting_down : Bool
  pub warm_torrent_timeout : ℕ
  pub next_warm_check : ℕ
  pub handles : List (Bytes × ℕ)
  pub warm_since : List (Bytes × ℕ)
  pub quiesced_torrents : List Bytes
  pub pending_cache_unloads : List Bytes
  pub pending_resume_saves : List ℕ
  pub flags : List (ℕ × FlagCall)

unfoldable pub erase_id : Bytes → List Bytes → List Bytes
unfolding erase_if bytes_eq
erase_id id ids = erase_if (λ other. bytes_eq other id) ids

unfoldable pub mark_warm : ℕ → Bytes → WarmState → WarmState
unfolding try_emplace
mark_warm now id s = record s { warm_since = try_emplace id now s.warm_since }

-- The flags of a torrent one after the other; the result is whether no call throws.
unfoldable pub set_flags : Library → ℕ → List FlagCall → WarmState → WarmState × Bool
set_flags library handle [] s = (s, true)
set_flags library handle (c ∷ calls) s =
    let done = set_flags library handle calls (record s { flags = (handle, c) ∷ s.flags }) in
    if library.refuses_flags handle c then (s, false) else done

unfoldable pub request_resume_save : Library → ℕ → WarmState → WarmState
unfolding member
request_resume_save library handle s = elim (library.userdata handle) [
  | none ↦ s
  | some context ↦
      if not (library.is_valid handle)
        || context.explicitly_removed
        || member context.number s.pending_resume_saves
        || library.refuses_save handle
      then s
      else record s { pending_resume_saves = context.number ∷ s.pending_resume_saves }
]

-- An exception of the library leaves the torrent as warm as it was.
unfoldable pub activated : Bytes → WarmState × Bool → WarmState
unfolding erase erase_id
activated id (s, false) = s
activated id (s, true) = record s {
  quiesced_torrents = erase_id id s.quiesced_torrents;
  warm_since = erase id s.warm_since;
}

unfoldable pub activate_torrent : Library → Bytes → ℕ → WarmState → WarmState
unfolding set_flags activated erase_id
activate_torrent library id handle s = activated id (
    set_flags library handle (upload_mode ∷ resumed ∷ [])
      (record s { pending_cache_unloads = erase_id id s.pending_cache_unloads }))

unfoldable pub focused : ℕ → Bytes → WarmState × Bool → WarmState
unfolding mark_warm insert
focused now id (s, false) = s
focused now id (s, true) =
    let warm = mark_warm now id s in
    record warm { quiesced_torrents = insert id warm.quiesced_torrents }

-- The loop over the handles.
unfoldable pub focus_handles :
    Library → (Bytes → Bool) → ℕ → Bytes → List (Bytes × ℕ) → WarmState → WarmState
unfolding bytes_eq set_flags focused
focus_handles library has_stream now requested_id [] s = s
focus_handles library has_stream now requested_id ((id, handle) ∷ rest) s =
    focus_handles library has_stream now requested_id rest (
      if bytes_eq id requested_id || not (library.is_valid handle) || has_stream id
      then s
      else focused now id (set_flags library handle (upload_mode ∷ paused ∷ []) s))

unfoldable pub focus_torrent : Library → (Bytes → Bool) → ℕ → Bytes → WarmState → WarmState
unfolding focus_handles
focus_torrent library has_stream now requested_id s =
    focus_handles library has_stream now requested_id s.handles s

-- A torrent without activity for the timeout; the result is whether no call throws.
unfoldable pub quiesced : Bytes → WarmState × Bool → WarmState × Bool
unfolding insert
quiesced id (s, false) = (s, false)
quiesced id (s, true) = (record s { quiesced_torrents = insert id s.quiesced_torrents }, true)

unfoldable pub quiesce : Library → Bytes → Option ℕ → WarmState → WarmState × Bool
unfolding request_resume_save set_flags quiesced
quiesce library id none s = (s, true)
quiesce library id (some handle) s =
    if library.is_valid handle
    then quiesced id (
        set_flags library handle (paused ∷ upload_mode ∷ []) (request_resume_save library handle s))
    else (s, true)

-- The loop over the warm torrents, which an exception ends.
unfoldable pub quiesce_entries :
    Library → ℕ → List (Bytes × ℕ) → WarmState × Bool → WarmState × Bool
unfolding member lookup quiesce
quiesce_entries library now [] (s, going) = (s, going)
quiesce_entries library now ((id, since) ∷ rest) (s, false) = (s, false)
quiesce_entries library now ((id, since) ∷ rest) (s, true) = quiesce_entries library now rest (
    if member id s.quiesced_torrents || ltb now (since + s.warm_torrent_timeout)
    then (s, true)
    else quiesce library id (lookup id s.handles) s)

unfoldable pub run_warm_quiescence : Library → ℕ → WarmState → WarmState
unfolding quiesce_entries
run_warm_quiescence library now s =
    if s.shutting_down
      || s.warm_torrent_timeout == 0
      || is_empty s.warm_since
      || ltb now s.next_warm_check
    then s
    else (quiesce_entries library now s.warm_since (
      record s { next_warm_check = now + min (max (s.warm_torrent_timeout / 2) 25) 1000 },
      true,
    )).0

-- What `remove_torrent` and `handle_removed` do to a torrent's warmth.
unfoldable pub forget_torrent : Bytes → WarmState → WarmState
unfolding erase erase_id
forget_torrent id s = record s {
  warm_since = erase id s.warm_since;
  quiesced_torrents = erase_id id s.quiesced_torrents;
}
