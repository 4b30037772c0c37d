-- ===== src/Torrent/StreamBridge/Kept/Steps.antt =====
-- src/torrent/libtorrent_stream_bridge.cpp: the operations of the bridge as steps of a run, over which no
-- waiter is forgotten, up to the shutdown, which settles them all.
use nuvio_engine.Common.{
  ℕ, ◌≡◌, refl, sym, ap, ◌∙◌, subst, Bool, true, false, inl, inr, List, [], ◌∷◌, Bytes, ◌||◌,
  length, leb, ◌==◌, arith, if◌then◌else◌, bytes_eq_instance, nat_eq,
}
use nuvio_engine.Text.{codes}
use nuvio_engine.Std.Shared.{modify}
use nuvio_engine.Std.UnorderedMap.{lookup}
use nuvio_engine.Cache.PieceCache.{clear, key_eq_instance}
use nuvio_engine.Torrent.StreamBridge.State.{
  maximum_http_commands, PieceKey, PieceWaiter, HttpCommand, Bridge, Library,
}
use nuvio_engine.Torrent.StreamBridge.Waiters.{settled, drop_all_waiters}
use nuvio_engine.Torrent.StreamBridge.Waiters.Kept.{Grows-settled}
use nuvio_engine.Torrent.StreamBridge.Kept.{Held, Keeps, Keeps-same, Keeps-Held, Keeps-trans, by_if}
use nuvio_engine.Torrent.StreamBridge.Kept.Polling.{poll-Keeps}
use nuvio_engine.Torrent.StreamBridge.Kept.Ending.{
  handle_read_piece-Keeps, handle_block_finished-Keeps, handle_hash_failed-Keeps, stop_stream-Keeps,
}
use nuvio_engine.Torrent.StreamBridge.Requests.{
  ReadPieceAlert, handle_read_piece, handle_block_finished, handle_hash_failed,
}
use nuvio_engine.Torrent.StreamBridge.Streams.{
  stop_stream, remove_torrent, clear_schedules, close, shutdown,
}
use nuvio_engine.Torrent.StreamBridge.Registering.{Registration, register_stream}
use nuvio_engine.Torrent.StreamBridge.Poll.{enqueue, enqueue_end, poll}
use nuvio_engine.Torrent.StreamBridge.Kept.Removing.{
  remove_torrent-Keeps, register_stream-Keeps, clear_schedules-Keeps, cancel_demands-Keeps,
  drop_all_waiters-Keeps,
}

-- What follows the loop over the waiters.
close-Keeps :
    (library : Library) (s : Bridge)
    → Keeps
        (drop_all_waiters (codes "engine is shutting down") (record s { shutting_down = true }))
        (close library s)
unfolding close
close-Keeps library s =
    let dropped : Bridge =
      drop_all_waiters (codes "engine is shutting down") (record s { shutting_down = true }) in
    let idle : Bridge = record dropped { commands = [] } in
    let cleared = clear_schedules library dropped.current_schedules idle in
    let emptied : Bridge = record cleared {
      current_schedules = [];
      requested_reads = [];
      partial_blocks = [];
      anchors = [];
      last_ready_pieces = [];
      piece_cache = clear cleared.piece_cache;
    } in
    Keeps-trans dropped idle _ (Keeps-same dropped idle refl refl) (
      Keeps-trans idle cleared _ (clear_schedules-Keeps library dropped.current_schedules idle) (
        Keeps-trans cleared emptied _ (Keeps-same cleared emptied refl refl) (
          Keeps-trans emptied _ _ (cancel_demands-Keeps cleared.active_demands emptied)
            (Keeps-same _ _ refl refl))))

drop_all-Keeps :
    (s : Bridge)
    → Keeps s
        (drop_all_waiters (codes "engine is shutting down") (record s { shutting_down = true }))
drop_all-Keeps s =
    Keeps-trans s (record s { shutting_down = true }) _ (Keeps-same s _ refl refl)
      (drop_all_waiters-Keeps (codes "engine is shutting down") (record s { shutting_down = true }))

drop_all-settled :
    (s : Bridge) (w : ℕ)
    → Held (drop_all_waiters (codes "engine is shutting down") s) w
    → settled ((drop_all_waiters (codes "engine is shutting down") s).waiters w) ≡ true
unfolding drop_all_waiters lookup
drop_all-settled s w (inl r) = cc (r.1.1)
drop_all-settled s w (inr e) = e

enqueue-Keeps : (command : HttpCommand) (s : Bridge) → Keeps s (enqueue command s).0
unfolding enqueue
enqueue-Keeps command s =
    by_if (λ (p : Bridge × Bool). Keeps s p.0)
      (s.shutting_down || leb maximum_http_commands (length s.commands)) (Keeps-same s s refl refl)
      (Keeps-same s _ refl refl)

shutdown-Keeps : (library : Library) (s : Bridge) → Keeps s (shutdown library s)
unfolding shutdown
shutdown-Keeps library s =
    by_if (Keeps s) s.shutting_down (Keeps-same s s refl refl)
      (Keeps-trans s _ _ (drop_all-Keeps s) (close-Keeps library s))

-- After a shutdown nobody waits: where the bridge was not shut down before, every waiter that was
-- in the table is settled, and so is every one that was settled.
pub shutdown-settled :
    (library : Library) (s : Bridge) (w : ℕ)
    → s.shutting_down ≡ false
    → Held s w
    → settled ((shutdown library s).waiters w) ≡ true
unfolding shutdown
shutdown-settled library s w open_before h =
    subst (λ b. settled ((if b then s else close library s).waiters w) ≡ true) (sym open_before)
      (Grows-settled _ (close library s).waiters w (close-Keeps library s).grows (
        drop_all-settled (record s { shutting_down = true }) w
          (Keeps-Held s _ (drop_all-Keeps s) w h)))

-- A step of the bridge, or a worker that gives up waiting.
pub data Step : Type 0 where
  polled : Library → ℕ → Step
  read : ReadPieceAlert → Step
  block_finished : Library → ℕ → PieceKey → ℕ → Step
  hash_failed : PieceKey → Step
  stopped : Library → ℕ → Bytes → Step
  removed : Library → ℕ → Bytes → Step
  registered : Library → ℕ → Registration → Step
  enqueued : HttpCommand → Step
  demand_ended : ℕ → Step
  abandoned : ℕ → Step
  shut_down : Library → Step

-- The lambda `abandon` of `serve_piece`.
unfoldable pub abandon : ℕ → Bridge → Bridge
unfolding modify
abandon w s = record s { waiters = modify w (λ x. record x { cancelled = true }) s.waiters }

unfoldable pub step : Step → Bridge → Bridge
unfolding poll handle_read_piece handle_block_finished handle_hash_failed stop_stream remove_torrent
    register_stream enqueue enqueue_end abandon shutdown
step (polled library now) s = poll library now s
step (read alert) s = handle_read_piece alert s
step (block_finished library now key block) s = handle_block_finished library now key block s
step (hash_failed key) s = handle_hash_failed key s
step (stopped library now stream_id) s = (stop_stream library now stream_id s).1
step (removed library now id) s = remove_torrent library now id s
step (registered library now r) s = (register_stream library now r s).0
step (enqueued command) s = (enqueue command s).0
step (demand_ended demand_id) s = enqueue_end demand_id s
step (abandoned w) s = abandon w s
step (shut_down library) s = shutdown library s

unfoldable pub run : List Step → Bridge → Bridge
unfolding step
run [] s = s
run (next ∷ steps) s = run steps (step next s)

-- A waiter that is done keeps its data and its error.
abbrev pub SameAnswer : PieceWaiter → PieceWaiter → Type 0
SameAnswer v w = (w.done ≡ v.done) × (w.bytes ≡ v.bytes) × (w.error ≡ v.error)

-- What a step does to a waiter.
record Follows (s t : Bridge) (w : ℕ) : Type 0 where
  held : Held s w → Held t w
  answer : (s.waiters w).done ≡ true → SameAnswer (s.waiters w) (t.waiters w)

done-settled : (v : PieceWaiter) → v.done ≡ true → settled v ≡ true
unfolding settled
done-settled v e = ground (arith, e)

Keeps-Follows : (s t : Bridge) (w : ℕ) → Keeps s t → Follows s t w
Keeps-Follows s t w k = record {
  held = Keeps-Held s t k w;
  answer = λ e.
      let same = k.grows w (done-settled (s.waiters w) e) in
      (ap (λ v. v.done) same, ap (λ v. v.bytes) same, ap (λ v. v.error) same);
}

abandon-Follows : (v w : ℕ) (s : Bridge) → Follows s (abandon v s) w
unfolding abandon settled modify
abandon-Follows v w s = record {
  held = λ h. still_held h;
  answer = λ e. same_answer (w == v) (s.waiters w);
}
  where
    still_settled :
        (same : Bool) (x : PieceWaiter)
        → settled x ≡ true
        → settled (if same then record x { cancelled = true } else x) ≡ true
    still_settled true x e = refl
    still_settled false x e = e

    still_held : Held s w → Held (abandon v s) w
    still_held (inl r) = inl r
    still_held (inr e) = inr (still_settled (w == v) (s.waiters w) e)

    same_answer :
        (same : Bool) (x : PieceWaiter)
        → SameAnswer x (if same then record x { cancelled = true } else x)
    same_answer true x = (refl, refl, refl)
    same_answer false x = (refl, refl, refl)

step-Follows : (next : Step) (s : Bridge) (w : ℕ) → Follows s (step next s) w
unfolding step enqueue enqueue_end
step-Follows (polled library now) s w = Keeps-Follows s _ w (poll-Keeps library now s)
step-Follows (read alert) s w = Keeps-Follows s _ w (handle_read_piece-Keeps alert s)
step-Follows (block_finished library now key block) s w =
    Keeps-Follows s _ w (handle_block_finished-Keeps library now key block s)
step-Follows (hash_failed key) s w = Keeps-Follows s _ w (handle_hash_failed-Keeps key s)
step-Follows (stopped library now stream_id) s w =
    Keeps-Follows s _ w (stop_stream-Keeps library now stream_id s)
step-Follows (removed library now id) s w =
    Keeps-Follows s _ w (remove_torrent-Keeps library now id s)
step-Follows (registered library now r) s w =
    Keeps-Follows s _ w (register_stream-Keeps library now r s)
step-Follows (enqueued command) s w = Keeps-Follows s _ w (enqueue-Keeps command s)
step-Follows (demand_ended demand_id) s w = Keeps-Follows s _ w (Keeps-same s _ refl refl)
step-Follows (abandoned v) s w = abandon-Follows v w s
step-Follows (shut_down library) s w = Keeps-Follows s _ w (shutdown-Keeps library s)

-- Nobody waits in vain for the bridge: over any run of its operations, of alerts of the torrent
-- library and of workers that give up, a waiter that stands in the table of the waiters, or is
-- settled, still stands in it or is settled, whatever the library answers or throws.
pub run-Held : (steps : List Step) (s : Bridge) (w : ℕ) → Held s w → Held (run steps s) w
unfolding run
run-Held [] s w h = h
run-Held (next ∷ steps) s w h = run-Held steps (step next s) w ((step-Follows next s w).held h)

-- An answer is final: over any run, a waiter that is done keeps its data and its error and stays done.
pub run-SameAnswer :
    (steps : List Step) (s : Bridge) (w : ℕ)
    → (s.waiters w).done ≡ true
    → SameAnswer (s.waiters w) ((run steps s).waiters w)
unfolding run
run-SameAnswer [] s w e = (refl, refl, refl)
run-SameAnswer (next ∷ steps) s w e =
    let now = (step-Follows next s w).answer e in
    let later = run-SameAnswer steps (step next s) w (now.0 ∙ e) in
    (later.0 ∙ now.0, later.1 ∙ now.1, later.2 ∙ now.2)
