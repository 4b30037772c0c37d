-- ===== src/Tests/Backend.antt =====
-- src/torrent/libtorrent_backend.cpp: two torrents that become warm, one of which is quiesced.
use nuvio_engine.Common.{◌≡◌, refl, true, false, ◌==◌, [], ◌∷◌, some, bytes_eq, bytes_eq_instance}
use nuvio_engine.Text.{codes}
use nuvio_engine.Std.UnorderedMap.{member}
use nuvio_engine.Torrent.Backend.{
  upload_mode, paused, Library, WarmState, mark_warm, activate_torrent, focus_torrent,
  run_warm_quiescence,
}
use nuvio_engine.Torrent.Backend.Warmth.{
  IsWarm, start, next, marked, activation, focus, quiescence, WarmRun-IsWarm,
}

-- The library refuses to pause torrent 8.
abbrev library : Library
library = record {
  is_valid = λ h. true;
  userdata = λ h. some (record { number = h; explicitly_removed = false });
  refuses_flags = λ h c. h == 8;
  refuses_save = λ h. false;
}

abbrev initial : WarmState
initial = record {
  shutting_down = false;
  warm_torrent_timeout = 1000;
  next_warm_check = 0;
  handles = (codes "a", 7) ∷ (codes "b", 8) ∷ (codes "c", 9) ∷ [];
  warm_since = [];
  quiesced_torrents = [];
  pending_cache_unloads = [];
  pending_resume_saves = [];
  flags = [];
}

-- Torrents a and b are warm at 100.
abbrev warm : WarmState
warm = mark_warm 100 (codes "b") (mark_warm 100 (codes "a") initial)

-- At 1200 a is quiesced, and b is not, for the library throws.
abbrev quiet : WarmState
quiet = run_warm_quiescence library 1200 warm

quiet_run : quiet.quiesced_torrents ≡ codes "a" ∷ []
unfolding mark_warm run_warm_quiescence bytes_eq
quiet_run = refl

quiet_saves : quiet.pending_resume_saves ≡ 8 ∷ 7 ∷ []
unfolding mark_warm run_warm_quiescence bytes_eq
quiet_saves = refl

quiet_flags : quiet.flags ≡ (7, upload_mode) ∷ (7, paused) ∷ []
unfolding mark_warm run_warm_quiescence bytes_eq
quiet_flags = refl

-- With a stream of b, a request for torrent a quiesces c, and a is active again.
abbrev busy : WarmState
busy =
    activate_torrent library (codes "a") 7
      (focus_torrent library (bytes_eq (codes "b")) 1300 (codes "a") quiet)

busy_run : busy.quiesced_torrents ≡ codes "c" ∷ []
unfolding mark_warm run_warm_quiescence focus_torrent activate_torrent
busy_run = refl

busy_warm : busy.warm_since ≡ (codes "b", 100) ∷ (codes "c", 1300) ∷ []
unfolding mark_warm run_warm_quiescence focus_torrent activate_torrent
busy_warm = refl

initial-IsWarm : IsWarm initial
unfolding IsWarm member
initial-IsWarm id e = cc

WarmRun-IsWarm_example : IsWarm busy
WarmRun-IsWarm_example = WarmRun-IsWarm initial busy initial-IsWarm (
    next
      (next
        (next (next (next start (marked initial 100 (codes "a"))) (marked _ 100 (codes "b")))
          (quiescence warm library 1200))
        (focus quiet library (bytes_eq (codes "b")) 1300 (codes "a")))
      (activation _ library (codes "a") 7))
