-- ===== src/Torrent/StreamBridge/Kept/Throwing.antt =====
-- src/torrent/libtorrent_stream_bridge.cpp: the commands of `poll` where nothing throws out of it.
use nuvio_engine.Common.{
  ℕ, ◌≡◌, inl, inr, refl, subst, not, ◌&&◌, ◌||◌, Bool, true, false, arith, List, [], ◌∷◌, Option,
  none, some, Bytes, In, bytes_eq_instance, nat_eq,
}
use nuvio_engine.Std.UnorderedMap.{lookup, member}
use nuvio_engine.Cache.PieceCache.{key_eq_instance}
use nuvio_engine.Torrent.StreamBridge.State.{
  HttpCommand, CommandType, begin_demand, end_demand, read_piece, ActiveDemand, Bridge, Library,
}
use nuvio_engine.Torrent.StreamBridge.Kept.{Held, Keeps-Held}
use nuvio_engine.Torrent.StreamBridge.Requests.{request_throws}
use nuvio_engine.Torrent.StreamBridge.Poll.{read_throws, poll_throws, poll_command, poll_commands}
use nuvio_engine.Torrent.StreamBridge.Kept.Commands.{
  Brings, poll_command-Takes, poll_commands-Keeps,
}

-- Neither `in_session` nor `torrent_file` throws for a torrent whose handle is valid.
pub record Answers (library : Library) : Type 0 where
  pub session :
      (handle : ℕ) → library.is_valid handle ≡ true → library.session_throws handle ≡ false
  pub metadata :
      (handle : ℕ) → library.is_valid handle ≡ true → library.metadata_throws handle ≡ false

request_throws-never :
    (library : Library) (command : HttpCommand) (s : Bridge)
    → Answers library
    → request_throws library command s ≡ false
unfolding request_throws
request_throws-never library command s h = by_waiter command.waiter
  where
    valid : Bool
    valid = library.is_valid command.route.handle

    test : Bool
    test =
        not (member command.route.torrent_id s.revoked_torrents)
        && library.is_valid command.route.handle
        && (library.session_throws command.route.handle
            || (library.in_session command.route.handle
                && library.metadata_throws command.route.handle))

    silent : test ≡ false
    silent = ground (arith, h.session command.route.handle, h.metadata command.route.handle)

    by_waiter :
        (waiter : Option ℕ) → (elim waiter as (λ o. Bool) [ none ↦ false | some w ↦ test ]) ≡ false
    by_waiter none = refl
    by_waiter (some w) = silent

read_throws-never :
    (library : Library) (command : HttpCommand) (demand : Option ActiveDemand) (s : Bridge)
    → Answers library
    → read_throws library command demand s ≡ false
unfolding read_throws
read_throws-never library command none s h = refl
read_throws-never library command (some demand) s h =
    ground (arith, request_throws-never library command s h)

poll_throws-never :
    (library : Library) (command : HttpCommand) (s : Bridge)
    → Answers library
    → poll_throws library command s ≡ false
unfolding poll_throws
poll_throws-never library command s h = of_type command.type
  where
    of_type :
        (type : CommandType)
        → (elim type as (λ c. Bool) [
          | begin_demand ↦ false
          | end_demand ↦ false
          | read_piece ↦ read_throws library command (lookup command.demand_id s.active_demands) s
        ])
          ≡ false
    of_type begin_demand = refl
    of_type end_demand = refl
    of_type read_piece =
        read_throws-never library command (lookup command.demand_id s.active_demands) s h

pub poll_commands-next :
    (library : Library) (now : ℕ) (command : HttpCommand) (commands : List HttpCommand) (s : Bridge)
    (changed : List Bytes)
    → Answers library
    → poll_commands library now commands (poll_command library now command (s, changed))
      ≡ poll_commands library now (command ∷ commands) (s, changed)
unfolding poll_commands
poll_commands-next library now command commands s changed h =
    rw (poll_throws-never library command s h) refl

pub poll_commands-whole :
    (library : Library) (now : ℕ) (commands : List HttpCommand) (polled : Bridge × List Bytes)
    → Answers library
    → (poll_commands library now commands polled).1 ≡ true
unfolding poll_commands
poll_commands-whole library now [] polled h = refl
poll_commands-whole library now (command ∷ commands) (s, changed) h =
    rw (poll_throws-never library command s h)
      (poll_commands-whole library now commands (poll_command library now command (s, changed)) h)

pub poll_commands-Held :
    (library : Library) (now : ℕ) (commands : List HttpCommand) (polled : Bridge × List Bytes)
    (command : HttpCommand) (w : ℕ)
    → Answers library
    → In command commands
    → Brings w command
    → Held (poll_commands library now commands polled).0.0 w
poll_commands-Held library now [] polled command w h i b = absurd i
poll_commands-Held library now (first ∷ commands) (s, changed) command w h (inl e) b =
    let next = poll_command library now first (s, changed) in
    subst (λ (p : (Bridge × List Bytes) × Bool). Held p.0.0 w)
      (poll_commands-next library now first commands s changed h)
      (Keeps-Held next.0 _ (poll_commands-Keeps library now commands next) w
        (poll_command-Takes library now first w s changed (subst (Brings w) e b)).held)
poll_commands-Held library now (first ∷ commands) (s, changed) command w h (inr i) b =
    subst (λ (p : (Bridge × List Bytes) × Bool). Held p.0.0 w)
      (poll_commands-next library now first commands s changed h)
      (poll_commands-Held library now commands (poll_command library now first (s, changed)) command
        w h i b)
