-- ===== src/Torrent/Backend/Warmth.antt =====
-- src/torrent/libtorrent_backend.cpp: a quiesced torrent is warm.
use nuvio_engine.Common.{
  ℕ, ◌+◌, ◌≡◌, refl, sym, ap, ◌∙◌, Bool, true, false, ◌||◌, not, Bool-cases, inl, inr, List, [],
  ◌∷◌, Option, none, some, Bytes, bytes_eq, bytes_eq_iff, bytes_eq_refl, ltb, min, max, ◌/◌, ◌==◌,
  arith, bytes_eq_instance, nat_eq,
}
use nuvio_engine.Std.UnorderedMap.{
  lookup, has_key, try_emplace, erase, erase_if, member, insert, lookup-insert_or_assign,
  lookup-erase,
}
use nuvio_engine.Torrent.StreamBridge.Kept.{by_if, by_option}
use nuvio_engine.Torrent.StreamBridge.Waiters.{is_empty}
use nuvio_engine.Torrent.Backend.{
  FlagCall, upload_mode, paused, resumed, Library, WarmState, erase_id, mark_warm, set_flags,
  request_resume_save, activated, activate_torrent, focused, focus_handles, focus_torrent, quiesced,
  quiesce, quiesce_entries, run_warm_quiescence, forget_torrent,
}

-- Every quiesced torrent is warm.
abbrev Covered : List Bytes → List (Bytes × ℕ) → Type 0
Covered asleep warm = (id : Bytes) → member id asleep ≡ true → has_key id warm ≡ true

unfoldable pub IsWarm : WarmState → Type 0
IsWarm s = Covered s.quiesced_torrents s.warm_since

member-insert :
    (id other : Bytes) (ids : List Bytes)
    → member id (insert other ids) ≡ true
    → bytes_eq other id ≡ false
    → member id ids ≡ true
unfolding insert member
member-insert id other ids h n = ground (arith, h, n)

member-erase_id :
    (id other : Bytes) (ids : List Bytes)
    → member id (erase_id other ids) ≡ true
    → (member id ids ≡ true) × (bytes_eq other id ≡ false)
unfolding erase_id erase_if member
member-erase_id id other [] h = cc
member-erase_id id other (x ∷ ids) h = ground (
  arith,
  h,
  member-erase_id id other ids,
  bytes_eq_iff x id,
  bytes_eq_iff other id,
  bytes_eq_iff x other,
)

has_key-try_emplace :
    (id other : Bytes) (now : ℕ) (warm : List (Bytes × ℕ))
    → has_key id warm ≡ true
    → has_key id (try_emplace other now warm) ≡ true
unfolding try_emplace has_key
has_key-try_emplace id other now warm h =
    ground (arith, h, lookup-insert_or_assign other id now warm)

try_emplace-has_key :
    (id : Bytes) (now : ℕ) (warm : List (Bytes × ℕ)) → has_key id (try_emplace id now warm) ≡ true
unfolding try_emplace has_key
try_emplace-has_key id now warm =
    ground (arith, lookup-insert_or_assign id id now warm, bytes_eq_refl id)

has_key-erase :
    (id other : Bytes) (warm : List (Bytes × ℕ))
    → bytes_eq other id ≡ false
    → has_key id warm ≡ true
    → has_key id (erase other warm) ≡ true
unfolding has_key
has_key-erase id other warm n h = ground (arith, lookup-erase other id warm, n, h)

-- The flags of a torrent and its resume data do not concern its warmth.
record SameWarmth (s t : WarmState) : Type 0 where
  asleep : t.quiesced_torrents ≡ s.quiesced_torrents
  warm : t.warm_since ≡ s.warm_since

SameWarmth-trans : (s t u : WarmState) → SameWarmth s t → SameWarmth t u → SameWarmth s u
SameWarmth-trans s t u a b = record { asleep = b.asleep ∙ a.asleep; warm = b.warm ∙ a.warm }

SameWarmth-IsWarm : (s t : WarmState) → SameWarmth s t → IsWarm s → IsWarm t
unfolding IsWarm
SameWarmth-IsWarm s t same h id e =
    ap (has_key id) same.warm ∙ h id (ap (member id) (sym same.asleep) ∙ e)

set_flags-SameWarmth :
    (library : Library) (handle : ℕ) (calls : List FlagCall) (s : WarmState)
    → SameWarmth s (set_flags library handle calls s).0
unfolding set_flags
set_flags-SameWarmth library handle [] s = record { asleep = refl; warm = refl }
set_flags-SameWarmth library handle (c ∷ calls) s =
    by_if (λ (p : WarmState × Bool). SameWarmth s p.0) (library.refuses_flags handle c)
      {x = (s, false)}
      {y = set_flags library handle calls (record s { flags = (handle, c) ∷ s.flags })}
      (record { asleep = refl; warm = refl })
      (SameWarmth-trans s (record s { flags = (handle, c) ∷ s.flags }) _
        (record { asleep = refl; warm = refl })
        (set_flags-SameWarmth library handle calls (record s { flags = (handle, c) ∷ s.flags })))

request_resume_save-SameWarmth :
    (library : Library) (handle : ℕ) (s : WarmState)
    → SameWarmth s (request_resume_save library handle s)
unfolding request_resume_save
request_resume_save-SameWarmth library handle s =
    by_option (SameWarmth s) (library.userdata handle) (record { asleep = refl; warm = refl })
      (λ context.
        by_if (SameWarmth s)
          (not (library.is_valid handle)
            || context.explicitly_removed
            || member context.number s.pending_resume_saves
            || library.refuses_save handle)
          (record { asleep = refl; warm = refl }) (record { asleep = refl; warm = refl }))

-- A torrent that is neither warm nor quiesced any more.
forget_torrent-IsWarm : (id : Bytes) (s : WarmState) → IsWarm s → IsWarm (forget_torrent id s)
unfolding IsWarm forget_torrent
forget_torrent-IsWarm id s h other e =
    let kept = member-erase_id other id s.quiesced_torrents e in
    has_key-erase other id s.warm_since kept.1 (h other kept.0)

activated-IsWarm : (id : Bytes) (p : WarmState × Bool) → IsWarm p.0 → IsWarm (activated id p)
unfolding activated forget_torrent
activated-IsWarm id (s, false) h = h
activated-IsWarm id (s, true) h = forget_torrent-IsWarm id s h

mark_warm-IsWarm : (now : ℕ) (id : Bytes) (s : WarmState) → IsWarm s → IsWarm (mark_warm now id s)
unfolding IsWarm mark_warm
mark_warm-IsWarm now id s h other e = has_key-try_emplace other id now s.warm_since (h other e)

-- A torrent that is warm may be quiesced.
insert-IsWarm :
    (id : Bytes) (s : WarmState)
    → has_key id s.warm_since ≡ true
    → IsWarm s
    → IsWarm (record s { quiesced_torrents = insert id s.quiesced_torrents })
unfolding IsWarm
insert-IsWarm id s warm h other e = elim (Bool-cases (bytes_eq id other)) [
  | inl hit ↦ ap (λ k. has_key k s.warm_since) (sym ((bytes_eq_iff id other).0 hit)) ∙ warm
  | inr miss ↦ h other (member-insert other id s.quiesced_torrents e miss)
]

focused-IsWarm :
    (now : ℕ) (id : Bytes) (p : WarmState × Bool) → IsWarm p.0 → IsWarm (focused now id p)
unfolding focused mark_warm
focused-IsWarm now id (s, false) h = h
focused-IsWarm now id (s, true) h =
    insert-IsWarm id (mark_warm now id s) (try_emplace-has_key id now s.warm_since)
      (mark_warm-IsWarm now id s h)

focus_handles-IsWarm :
    (library : Library) (has_stream : Bytes → Bool) (now : ℕ) (requested_id : Bytes)
    (handles : List (Bytes × ℕ)) (s : WarmState)
    → IsWarm s
    → IsWarm (focus_handles library has_stream now requested_id handles s)
unfolding focus_handles
focus_handles-IsWarm library has_stream now requested_id [] s h = h
focus_handles-IsWarm library has_stream now requested_id ((id, handle) ∷ rest) s h =
    focus_handles-IsWarm library has_stream now requested_id rest _ (
      by_if IsWarm (bytes_eq id requested_id || not (library.is_valid handle) || has_stream id) h (
        focused-IsWarm now id (set_flags library handle (upload_mode ∷ paused ∷ []) s) (
          SameWarmth-IsWarm s _ (set_flags-SameWarmth library handle (upload_mode ∷ paused ∷ []) s)
            h)))

-- What quiescing leaves: every quiesced torrent is warm, and the same torrents are warm.
record Quieter (s t : WarmState) : Type 0 where
  covered : IsWarm t
  warm : t.warm_since ≡ s.warm_since

quiesced-Quieter :
    (id : Bytes) (s : WarmState) (p : WarmState × Bool)
    → has_key id s.warm_since ≡ true
    → Quieter s p.0
    → Quieter s (quiesced id p).0
unfolding quiesced
quiesced-Quieter id s (t, false) known q = q
quiesced-Quieter id s (t, true) known q = record {
  covered = insert-IsWarm id t (ap (has_key id) q.warm ∙ known) q.covered;
  warm = q.warm;
}

SameWarmth-Quieter : (s t u : WarmState) → Quieter s t → SameWarmth t u → Quieter s u
SameWarmth-Quieter s t u q same = record {
  covered = SameWarmth-IsWarm t u same q.covered;
  warm = same.warm ∙ q.warm;
}

quiesce-Quieter :
    (library : Library) (id : Bytes) (handle : Option ℕ) (s t : WarmState)
    → has_key id s.warm_since ≡ true
    → Quieter s t
    → Quieter s (quiesce library id handle t).0
unfolding quiesce
quiesce-Quieter library id none s t known q = q
quiesce-Quieter library id (some handle) s t known q =
    by_if (λ (p : WarmState × Bool). Quieter s p.0) (library.is_valid handle)
      (quiesced-Quieter id s
        (set_flags library handle (paused ∷ upload_mode ∷ [])
          (request_resume_save library handle t))
        known
        (SameWarmth-Quieter s _ _
          (SameWarmth-Quieter s t _ q (request_resume_save-SameWarmth library handle t))
          (set_flags-SameWarmth library handle (paused ∷ upload_mode ∷ [])
            (request_resume_save library handle t))))
      q

has_key-first :
    (id : Bytes) (since : ℕ) (rest : List (Bytes × ℕ)) → has_key id ((id, since) ∷ rest) ≡ true
unfolding has_key lookup
has_key-first id since rest = ground (arith, bytes_eq_refl id)

has_key-rest :
    (id other : Bytes) (since : ℕ) (rest : List (Bytes × ℕ))
    → has_key id rest ≡ true
    → has_key id ((other, since) ∷ rest) ≡ true
unfolding has_key lookup
has_key-rest id other since rest h = ground (arith, h)

quiesce_entries-Quieter :
    (library : Library) (now : ℕ) (entries : List (Bytes × ℕ)) (s : WarmState)
    (p : WarmState × Bool)
    → ((id : Bytes) → has_key id entries ≡ true → has_key id s.warm_since ≡ true)
    → Quieter s p.0
    → Quieter s (quiesce_entries library now entries p).0
unfolding quiesce_entries
quiesce_entries-Quieter library now [] s (t, going) known q = q
quiesce_entries-Quieter library now ((id, since) ∷ rest) s (t, false) known q = q
quiesce_entries-Quieter library now ((id, since) ∷ rest) s (t, true) known q =
    quiesce_entries-Quieter library now rest s _
      (λ other h. known other (has_key-rest other id since rest h))
      (by_if (λ (p : WarmState × Bool). Quieter s p.0)
        (member id t.quiesced_torrents || ltb now (since + t.warm_torrent_timeout)) q
        (quiesce-Quieter library id (lookup id t.handles) s t
          (known id (has_key-first id since rest)) q))

run_warm_quiescence-IsWarm :
    (library : Library) (now : ℕ) (s : WarmState)
    → IsWarm s
    → IsWarm (run_warm_quiescence library now s)
unfolding run_warm_quiescence IsWarm
run_warm_quiescence-IsWarm library now s h =
    by_if IsWarm
      (s.shutting_down
        || s.warm_torrent_timeout == 0
        || is_empty s.warm_since
        || ltb now s.next_warm_check)
      h
      (quiesce_entries-Quieter library now s.warm_since s
        (record s { next_warm_check = now + min (max (s.warm_torrent_timeout / 2) 25) 1000 }, true)
        (λ id known. known) (record { covered = h; warm = refl })).covered

activate_torrent-IsWarm :
    (library : Library) (id : Bytes) (handle : ℕ) (s : WarmState)
    → IsWarm s
    → IsWarm (activate_torrent library id handle s)
unfolding activate_torrent IsWarm
activate_torrent-IsWarm library id handle s h =
    let freed : WarmState = record s {
      pending_cache_unloads = erase_id id s.pending_cache_unloads;
    } in
    activated-IsWarm id (set_flags library handle (upload_mode ∷ resumed ∷ []) freed) (
      SameWarmth-IsWarm freed _
        (set_flags-SameWarmth library handle (upload_mode ∷ resumed ∷ []) freed) h)

-- What happens to the warmth of torrents, an operation of the backend at a time. The library answers differently each time. The handles, the
-- unloads and the saves under way change at any time.
pub data WarmStep : WarmState → WarmState → Type 0 where
  marked : (s : WarmState) (now : ℕ) (id : Bytes) → WarmStep s (mark_warm now id s)
  activation :
      (s : WarmState) (library : Library) (id : Bytes) (handle : ℕ)
      → WarmStep s (activate_torrent library id handle s)
  focus :
      (s : WarmState) (library : Library) (has_stream : Bytes → Bool) (now : ℕ)
      (requested_id : Bytes)
      → WarmStep s (focus_torrent library has_stream now requested_id s)
  quiescence :
      (s : WarmState) (library : Library) (now : ℕ) → WarmStep s (run_warm_quiescence library now s)
  forgotten : (s : WarmState) (id : Bytes) → WarmStep s (forget_torrent id s)
  others :
      (s : WarmState) (handles : List (Bytes × ℕ)) (unloads : List Bytes) (saves : List ℕ)
      → WarmStep s (record s {
        handles = handles;
        pending_cache_unloads = unloads;
        pending_resume_saves = saves;
      })

pub data WarmRun (s : WarmState) : WarmState → Type 0 where
  start : WarmRun s s
  next : {t u : WarmState} → WarmRun s t → WarmStep t u → WarmRun s u

step-IsWarm : (s t : WarmState) → WarmStep s t → IsWarm s → IsWarm t
unfolding focus_torrent IsWarm
step-IsWarm s t (marked r now id) h = mark_warm-IsWarm now id s h
step-IsWarm s t (activation r library id handle) h = activate_torrent-IsWarm library id handle s h
step-IsWarm s t (focus r library has_stream now requested_id) h =
    focus_handles-IsWarm library has_stream now requested_id s.handles s h
step-IsWarm s t (quiescence r library now) h = run_warm_quiescence-IsWarm library now s h
step-IsWarm s t (forgotten r id) h = forget_torrent-IsWarm id s h
step-IsWarm s t (others r handles unloads saves) h = h

-- In every state that the backend's operations reach, whatever calls of the library throw, every
-- quiesced torrent is warm, if this held at the start.
pub WarmRun-IsWarm : (s t : WarmState) → IsWarm s → WarmRun s t → IsWarm t
WarmRun-IsWarm s t h start = h
WarmRun-IsWarm s t h (next {t = r} before step) = step-IsWarm r t step (WarmRun-IsWarm s r h before)
