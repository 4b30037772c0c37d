-- ===== src/Tests/Bridge.antt =====
-- The stream bridge on a torrent with six pieces of 16 KiB blocks, read by one demand.
use nuvio_engine.Common.{
  ℕ, ◌≡◌, refl, inl, inr, true, false, List, [], ◌∷◌, none, some, Bytes, arith, In,
}
use nuvio_engine.Text.{codes}
use nuvio_engine.Std.UnorderedMap.{lookup}
use nuvio_engine.Http.Protocol.{HttpRequest, get}
use nuvio_engine.Cache.PieceCache.{key_eq, init}
use nuvio_engine.Scheduler.PieceSchedule.{Priorities, blocking, critical, playback, readahead}
use nuvio_engine.Scheduler.DemandPlan.{StreamDemandPlan}
use nuvio_engine.Torrent.StreamBridge.{StreamRoute, dont_download, top, low, deadline_for}
use nuvio_engine.Torrent.StreamBridge.State.{
  PieceKey, PieceWaiter, HttpCommand, read_piece, ActiveDemand, CurrentSchedule, Bridge, Library,
  set_piece_deadline,
}
use nuvio_engine.Torrent.StreamBridge.Waiters.{settled}
use nuvio_engine.Torrent.StreamBridge.Waiters.Kept.{Registered}
use nuvio_engine.Torrent.StreamBridge.Kept.{Held}
use nuvio_engine.Torrent.StreamBridge.Kept.Polling.{poll-Held}
use nuvio_engine.Torrent.StreamBridge.Kept.Steps.{
  Step, polled, removed, abandoned, run, run-Held, SameAnswer, run-SameAnswer, shutdown-settled,
}
use nuvio_engine.Torrent.StreamBridge.Kept.Answers.{Answered, handle_read_piece-Answered}
use nuvio_engine.Torrent.StreamBridge.Requests.{ReadPieceAlert, handle_read_piece}
use nuvio_engine.Torrent.StreamBridge.Streams.{shutdown}
use nuvio_engine.Torrent.StreamBridge.Poll.{poll}
use nuvio_engine.Torrent.StreamBridge.Deadlines.{asked_in, asked_after, order_deadline}
use nuvio_engine.Torrent.StreamBridge.Recompute.{order_before, apply_schedule}
use nuvio_engine.Torrent.StreamBridge.Recompute.Asked.{apply_schedule-order_deadline}
use nuvio_engine.Torrent.StreamBridge.Priorities.{
  priority_value, wanted, priority_updates, updated, full_priorities,
}
use nuvio_engine.Torrent.StreamBridge.Priorities.Difference.{priority_updates-wanted}
use nuvio_engine.Torrent.StreamBridge.Progress.{TorrentStatus, verify_file}
use nuvio_engine.Torrent.StreamBridge.Progress.Bounds.{IsWithin, verify_file-IsWithin}
use nuvio_engine.Torrent.StreamBridge.Handling.{handle_http, finish_http}
use nuvio_engine.Torrent.StreamBridge.Handling.Lease.{requests_of, finish_http-requests_of}

abbrev torrent : Bytes
torrent = codes "aa"

abbrev route : StreamRoute
route = record {
  handle = 7;
  torrent_id = torrent;
  stream_id = codes "s";
  target = codes "/stream/s";
  content_type = codes "video/mp4";
  file_index = 0;
  piece_size = 32768;
  file_offset = 1000;
  file_size = 150000;
  payload_path = codes "film.mp4";
  activity = 0;
}

abbrev key : PieceKey
key = record { torrent_id = torrent; piece = 2 }

abbrev waiting : PieceWaiter
waiting = record {
  bytes = none;
  error = [];
  done = false;
  cancelled = false;
  demand_id = 1;
  finished_blocks = [];
}

abbrev demand : ActiveDemand
demand = record {
  id = 1;
  route = route;
  range = record { start = 64536; end = 97303 };
  state = some 0;
  needs_data = true;
}

-- A read of piece 2, whose waiter is 5.
abbrev read_command : HttpCommand
read_command = record {
  type = read_piece;
  demand_id = 1;
  route = route;
  range = record { start = 64536; end = 97303 };
  piece = 2;
  waiter = some 5;
  demand_state = some 0;
}

-- The torrent library takes every call; no piece is there yet.
abbrev library : Library
library = record {
  is_valid = λ h. true;
  in_session = λ h. true;
  num_pieces = λ h. some 6;
  piece_length = λ h. some 32768;
  file_path = λ h f. codes "film.mp4";
  piece_size = λ h p. 32768;
  have_piece = λ h p. some false;
  download_queue = λ h. none;
  refuses = λ h c. none;
  session_throws = λ h. false;
  metadata_throws = λ h. false;
}

-- Waiter 4 waits for piece 2, and the read for waiter 5 is queued.
abbrev bridge : Bridge
bridge = record {
  window = record {
    critical_bytes = 32768;
    critical_piece_limit = 1;
    playback_bytes = 32768;
    readahead_bytes = 0;
    tail_bytes = 0;
  };
  inactivity_timeout = 0;
  shutting_down = false;
  routes = (codes "/stream/s", route) ∷ [];
  commands = read_command ∷ [];
  active_demands = (1, demand) ∷ [];
  anchors = [];
  current_schedules = [];
  last_ready_pieces = [];
  piece_cache = init 1000;
  revoked_torrents = [];
  piece_waiters = (key, 4 ∷ []) ∷ [];
  requested_reads = [];
  partial_blocks = [];
  expired_streams = [];
  next_read_watchdog = 0;
  next_inactivity_check = 0;
  next_progress_sample = 0;
  next_demand_id = 2;
  waiters = λ w. waiting;
  states = λ d. false;
  activities = λ a. record { active_http_requests = 0; last_activity = 0 };
  calls = [];
}

abbrev alert : ReadPieceAlert
alert = record { key = key; error = none; buffer = some (1 ∷ 2 ∷ []) }

Registered-four : Registered bridge.piece_waiters 4
unfolding lookup key_eq
Registered-four = (key, (4 ∷ [], refl, inl refl))

poll-Held_example : Held (poll library 50 bridge) 5
poll-Held_example =
    poll-Held library 50 bridge read_command 5
      (record { session = λ h e. refl; metadata = λ h e. refl }) (inl refl) (refl, refl)

-- Where `in_session` throws, the read is lost: waiter 5 stands nowhere and has no answer.
abbrev lost : Bridge
lost = poll (record library { session_throws = λ h. true }) 50 bridge

lost_run :
    (lost.commands ≡ [])
    × (lost.piece_waiters ≡ bridge.piece_waiters)
    × (settled (lost.waiters 5) ≡ false)
unfolding poll settled
lost_run = (refl, refl, refl)

abbrev steps : List Step
steps = polled library 50 ∷ abandoned 5 ∷ removed library 60 torrent ∷ []

run-Held_example : Held (run steps bridge) 4
run-Held_example = run-Held steps bridge 4 (inl Registered-four)

abbrev answered_bridge : Bridge
answered_bridge = record bridge {
  waiters = λ w. record waiting { done = true; bytes = some (1 ∷ []) };
}

run-SameAnswer_example :
    SameAnswer (answered_bridge.waiters 4) ((run steps answered_bridge).waiters 4)
run-SameAnswer_example = run-SameAnswer steps answered_bridge 4 refl

shutdown-settled_example : settled ((shutdown library bridge).waiters 4) ≡ true
shutdown-settled_example = shutdown-settled library bridge 4 refl (inl Registered-four)

handle_read_piece-Answered_example : Answered alert 4 bridge (handle_read_piece alert bridge)
unfolding lookup key_eq
handle_read_piece-Answered_example =
    handle_read_piece-Answered alert 4 (4 ∷ []) bridge refl (inl refl)

-- A schedule before, whose second place is also that of the next one.
abbrev schedule : CurrentSchedule
schedule = record {
  handle = 7;
  priorities = (1, blocking) ∷ (2, critical) ∷ (3, playback) ∷ [];
  deadline_order = 1 ∷ 2 ∷ [];
  focused_demand_id = 1;
  revision = 1;
  cold = false;
  first_blocks = [];
}

abbrev plan : StreamDemandPlan
plan = record { focused_demand_id = 1; pieces = []; deadline_order = 3 ∷ 2 ∷ []; cold = true }

abbrev combined : Priorities
combined = (2, critical) ∷ (3, blocking) ∷ (4, readahead) ∷ []

abbrev scheduled : Bridge
scheduled = record bridge {
  current_schedules = (torrent, schedule) ∷ [];
  calls = (7, set_piece_deadline 2 100 false) ∷ (7, set_piece_deadline 1 0 false) ∷ [];
}

calls_scheduled :
    (p : ℕ) → asked_in scheduled.calls 7 p ≡ order_deadline (order_before (some schedule)) 0 p
unfolding asked_in order_deadline order_before asked_after deadline_for
calls_scheduled p = ground arith

not-In : ¬ In {A = ℕ} 1 (2 ∷ [])
not-In (inl e) = absurd (omega (arith, e))
not-In (inr i) = i

not-In_next : ¬ In {A = ℕ} 3 (2 ∷ [])
not-In_next (inl e) = absurd (omega (arith, e))
not-In_next (inr i) = i

apply_schedule-order_deadline_example :
    asked_in
      (apply_schedule library 50 torrent 7 (some schedule) combined plan [] scheduled).calls
      7
      1
    ≡ order_deadline plan.deadline_order 0 1
unfolding order_before
apply_schedule-order_deadline_example =
    apply_schedule-order_deadline library 50 torrent 7 (some schedule) combined plan [] scheduled
      (λ c. refl) (not-In, ((λ i. i), tt)) (not-In_next, ((λ i. i), tt)) calls_scheduled 1

-- Piece 1 goes, 3 and 4 change, 2 stays.
priority_updates_run :
    priority_updates schedule.priorities false combined true
    ≡ (1, dont_download) ∷ (3, top) ∷ (4, low) ∷ []
unfolding priority_updates
priority_updates_run = refl

full_priorities_run :
    full_priorities combined true 4 ≡ dont_download ∷ dont_download ∷ top ∷ top ∷ []
unfolding full_priorities
full_priorities_run = refl

priority_updates-wanted_example :
    priority_value (
      updated
        (priority_updates schedule.priorities false combined true)
        (wanted schedule.priorities false)
        3)
    ≡ priority_value (wanted combined true 3)
priority_updates-wanted_example =
    priority_updates-wanted schedule.priorities false combined true
      (wanted schedule.priorities false) 3
      ((omega arith, (omega arith, tt)), ((omega arith, tt), (tt, tt))) refl

abbrev status : TorrentStatus
status = record {
  num_pieces = 6;
  piece_size = λ p. 32768;
  is_seeding = false;
  pieces = true ∷ true ∷ false ∷ true ∷ false ∷ [];
}

verify_file_run :
    verify_file route (some status)
    ≡ record { verified_file_bytes = 97304; contiguous_ready_bytes = 64536 }
unfolding verify_file
verify_file_run = refl

verify_file-IsWithin_example : IsWithin route.file_size (verify_file route (some status))
verify_file-IsWithin_example = verify_file-IsWithin route status (λ p. omega arith)

abbrev request : HttpRequest
request = record { method = get; target = codes "/stream/s"; range = none }

finish_http-requests_of_example :
    requests_of 0 (finish_http 90 (handle_http 80 3 request bridge)) ≡ requests_of 0 bridge
finish_http-requests_of_example = finish_http-requests_of 80 90 3 request 0 bridge (omega arith)
