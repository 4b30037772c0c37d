-- ===== src/Torrent/StreamBridge/Kept/Commands.antt =====
-- src/torrent/libtorrent_stream_bridge.cpp: the commands of `poll` keep the waiters, and a read's waiter is
-- taken over.
use nuvio_engine.Common.{
  ℕ, ◌≡◌, refl, sym, subst, not, ◌&&◌, Bool, false, List, [], ◌∷◌, Option, none, some, Bytes,
  bytes_eq_instance, nat_eq,
}
use nuvio_engine.Text.{codes}
use nuvio_engine.Std.UnorderedMap.{lookup, member, insert, insert_or_assign}
use nuvio_engine.Cache.PieceCache.{key_eq_instance}
use nuvio_engine.Torrent.StreamBridge.State.{
  HttpCommand, CommandType, begin_demand, end_demand, read_piece, ActiveDemand, Bridge, Library,
}
use nuvio_engine.Torrent.StreamBridge.Kept.{Keeps, Keeps-same, Keeps-trans, by_if, by_option}
use nuvio_engine.Torrent.StreamBridge.Requests.{process_waiter, process_piece_request}
use nuvio_engine.Torrent.StreamBridge.Streams.{route_is_active}
use nuvio_engine.Torrent.StreamBridge.Poll.{
  is_live, begin_command, end_command, reject_read, read_command, poll_throws, note_range,
  poll_command, poll_commands,
}
use nuvio_engine.Torrent.StreamBridge.Kept.Reading.{
  Takes, cancel_state-Keeps, Takes-after, finish-Takes, process_waiter-Takes,
}

pub reject_read-Takes : (w : ℕ) (s : Bridge) → Takes w s (reject_read (some w) s)
unfolding reject_read
reject_read-Takes w s = finish-Takes w none (codes "stream demand is no longer active") s

pub process_piece_request-Takes :
    (library : Library) (now : ℕ) (command : HttpCommand) (w : ℕ) (s : Bridge)
    → command.waiter ≡ some w
    → Takes w s (process_piece_request library now command s)
unfolding process_piece_request
process_piece_request-Takes library now command w s e =
    subst
      (λ o. Takes w s (elim o as (λ c. Bridge) [
        | none ↦ s
        | some waiter ↦ process_waiter library now command waiter s
      ]))
      (sym e) (process_waiter-Takes library now command w s)

-- A command that reads nothing keeps the waiters.
pub process_piece_request-Keeps :
    (library : Library) (now : ℕ) (command : HttpCommand) (s : Bridge)
    → Keeps s (process_piece_request library now command s)
unfolding process_piece_request
process_piece_request-Keeps library now command s =
    by_option (Keeps s) command.waiter (Keeps-same s s refl refl)
      (λ w. (process_waiter-Takes library now command w s).keeps)

pub reject_read-Keeps : (waiter : Option ℕ) (s : Bridge) → Keeps s (reject_read waiter s)
unfolding reject_read
reject_read-Keeps none s = Keeps-same s s refl refl
reject_read-Keeps (some w) s = (reject_read-Takes w s).keeps

pub ranged : HttpCommand → ActiveDemand → Bridge → Bridge
unfolding insert_or_assign
ranged command demand s = record s {
  active_demands =
      insert_or_assign command.demand_id (record demand { range = command.range }) s.active_demands;
}

-- A read whose waiter is not null.
pub read_command-Takes :
    (library : Library) (now : ℕ) (command : HttpCommand) (demand : Option ActiveDemand) (w : ℕ)
    (s : Bridge) (changed : List Bytes)
    → command.waiter ≡ some w
    → Takes w s (read_command library now command demand (s, changed)).0
unfolding read_command ranged
read_command-Takes library now command none w s changed e =
    subst (λ o. Takes w s (reject_read o s)) (sym e) (reject_read-Takes w s)
read_command-Takes library now command (some demand) w s changed e =
    let read = process_piece_request library now command (ranged command demand s) in
    by_if (λ (p : Bridge × List Bytes). Takes w s p.0) (is_live demand.state s.states)
      {x = (read, insert demand.route.torrent_id changed)}
      {y = (reject_read command.waiter s, changed)}
      (Takes-after w s (ranged command demand s) read (Keeps-same s _ refl refl)
        (process_piece_request-Takes library now command w (ranged command demand s) e))
      (subst (λ o. Takes w s (reject_read o s)) (sym e) (reject_read-Takes w s))

pub read_command-Keeps :
    (library : Library) (now : ℕ) (command : HttpCommand) (demand : Option ActiveDemand)
    (s : Bridge) (changed : List Bytes)
    → Keeps s (read_command library now command demand (s, changed)).0
unfolding read_command ranged
read_command-Keeps library now command none s changed = reject_read-Keeps command.waiter s
read_command-Keeps library now command (some demand) s changed =
    let read = process_piece_request library now command (ranged command demand s) in
    by_if (λ (p : Bridge × List Bytes). Keeps s p.0) (is_live demand.state s.states)
      {x = (read, insert demand.route.torrent_id changed)}
      {y = (reject_read command.waiter s, changed)}
      (Keeps-trans s (ranged command demand s) read (Keeps-same s _ refl refl)
        (process_piece_request-Keeps library now command (ranged command demand s)))
      (reject_read-Keeps command.waiter s)

pub begin_command-Keeps :
    (library : Library) (command : HttpCommand) (s : Bridge) (changed : List Bytes)
    → Keeps s (begin_command library command (s, changed)).0
unfolding begin_command
begin_command-Keeps library command s changed =
    by_if (λ (p : Bridge × List Bytes). Keeps s p.0)
      (not (member command.route.torrent_id s.revoked_torrents) && route_is_active command.route s)
      (Keeps-same s _ refl refl) (cancel_state-Keeps command.demand_state s)

pub end_command-Keeps :
    (demand_id : ℕ) (s : Bridge) (changed : List Bytes)
    → Keeps s (end_command demand_id (s, changed)).0
unfolding end_command
end_command-Keeps demand_id s changed =
    by_option (λ (p : Bridge × List Bytes). Keeps s p.0) (lookup demand_id s.active_demands)
      (Keeps-same s s refl refl) (λ demand. Keeps-same s _ refl refl)

-- The waiter of a read in the queue.
abbrev pub Brings : ℕ → HttpCommand → Type 0
Brings w command = (command.type ≡ read_piece) × (command.waiter ≡ some w)

pub by_type :
    (P : Bridge × List Bytes → Type 0) (type : CommandType) {x y z : Bridge × List Bytes}
    → P x
    → P y
    → P z
    → P (elim type as (λ c. Bridge × List Bytes) [
      | begin_demand ↦ x
      | end_demand ↦ y
      | read_piece ↦ z
    ])
by_type P begin_demand p q r = p
by_type P end_demand p q r = q
by_type P read_piece p q r = r

pub poll_command-Keeps :
    (library : Library) (now : ℕ) (command : HttpCommand) (s : Bridge) (changed : List Bytes)
    → Keeps s (poll_command library now command (s, changed)).0
unfolding poll_command
poll_command-Keeps library now command s changed =
    by_type (λ p. Keeps s p.0) command.type (begin_command-Keeps library command s changed)
      (end_command-Keeps command.demand_id s changed)
      (read_command-Keeps library now command (lookup command.demand_id s.active_demands) s changed)

pub poll_command-Takes :
    (library : Library) (now : ℕ) (command : HttpCommand) (w : ℕ) (s : Bridge)
    (changed : List Bytes)
    → Brings w command
    → Takes w s (poll_command library now command (s, changed)).0
unfolding poll_command
poll_command-Takes library now command w s changed (is_read, e) =
    let found = lookup command.demand_id s.active_demands in
    subst
      (λ type.
        Takes w s
          (elim type as (λ c. Bridge × List Bytes) [
            | begin_demand ↦ begin_command library command (s, changed)
            | end_demand ↦ end_command command.demand_id (s, changed)
            | read_piece ↦ read_command library now command found (s, changed)
          ]).0)
      (sym is_read) (read_command-Takes library now command found w s changed e)

note_range-Keeps :
    (command : HttpCommand) (demand : Option ActiveDemand) (s : Bridge)
    → Keeps s (note_range command demand s)
unfolding note_range
note_range-Keeps command none s = Keeps-same s s refl refl
note_range-Keeps command (some demand) s = Keeps-same s _ refl refl

pub poll_commands-Keeps :
    (library : Library) (now : ℕ) (commands : List HttpCommand) (polled : Bridge × List Bytes)
    → Keeps polled.0 (poll_commands library now commands polled).0.0
unfolding poll_commands
poll_commands-Keeps library now [] polled = Keeps-same polled.0 polled.0 refl refl
poll_commands-Keeps library now (command ∷ commands) (s, changed) =
    let demand = lookup command.demand_id s.active_demands in
    by_if (λ (p : (Bridge × List Bytes) × Bool). Keeps s p.0.0) (poll_throws library command s)
      {x = ((note_range command demand s, changed), false)}
      {y = poll_commands library now commands (poll_command library now command (s, changed))}
      (note_range-Keeps command demand s)
      (Keeps-trans s (poll_command library now command (s, changed)).0 _
        (poll_command-Keeps library now command s changed)
        (poll_commands-Keeps library now commands (poll_command library now command (s, changed))))
