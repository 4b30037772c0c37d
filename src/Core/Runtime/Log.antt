-- ===== src/Core/Runtime/Log.antt =====
-- The event queue: bounded, with consecutive sequence numbers, and no event lost without being
-- counted.
use nuvio_engine.Common.{
  ℕ, ◌+◌, ◌<◌, ◌≤◌, ◌≡◌, refl, List, [], Bytes, Option, ◌∷◌, ◌++◌, some, arith, u64_max, length,
  length-append, leb, if◌then◌else◌, Bool-cases, inl, inr, leb→le, subst,
}
use nuvio_engine.Text.{codes}
use nuvio_engine.Core.Runtime.Types.{
  Status, BackendEvent, Event, Command, Attempt, returned, failed, unknown, Backend,
}
use nuvio_engine.Core.Runtime.{
  Runtime, refuse, answer, event_code, copy_text, note_files, pop_front, event_record,
  dropped_after, push_event, poll_event,
}
use nuvio_engine.Core.Runtime.Worker.{error_event, report, dispatch, process_command}

-- The events are numbered up to the next sequence number.
abbrev pub Consecutive : List Event → ℕ → Type 0
Consecutive [] next = Unit
Consecutive (e ∷ es) next = (e.sequence + length es + 1 ≡ next) × Consecutive es next

pub record IsLogged {B : Type 0} (r : Runtime B) : Type 0 where
  pub room : 0 < r.event_capacity
  pub bounded : length r.events ≤ r.event_capacity
  pub consecutive : Consecutive r.events r.next_sequence

Consecutive-append :
    (es : List Event) (e : Event) (n : ℕ)
    → Consecutive es n
    → e.sequence ≡ n
    → Consecutive (es ++ e ∷ []) (n + 1)
Consecutive-append [] e n h p = (omega arith, tt)
Consecutive-append (d ∷ es) e n h p =
    (omega (arith, h.0, length-append es (e ∷ [])), Consecutive-append es e n h.1 p)

pop_front-Consecutive : (es : List Event) (n : ℕ) → Consecutive es n → Consecutive (pop_front es) n
unfolding pop_front
pop_front-Consecutive [] n h = h
pop_front-Consecutive (e ∷ es) n h = h.1

length-pop_front : (es : List Event) → 0 < length es → length (pop_front es) + 1 ≡ length es
unfolding pop_front
length-pop_front [] h = absurd (omega arith)
length-pop_front (e ∷ es) h = omega arith

module _ {B : Type 0} (e : BackendEvent) (r : Runtime B) where
  pushed-Consecutive :
      r.next_sequence < u64_max
      → IsLogged r
      → Consecutive (push_event e r).events (push_event e r).next_sequence
  unfolding push_event event_record
  pushed-Consecutive words h = subst (Consecutive _) (omega arith) (
      Consecutive-append _ _ r.next_sequence
        (elim (Bool-cases (leb r.event_capacity (length r.events))) [
          | inl full ↦ rw full (pop_front-Consecutive r.events r.next_sequence h.consecutive)
          | inr room ↦ rw room h.consecutive
        ])
        refl)

  length-pushed :
      IsLogged r
      → length (push_event e r).events
        ≡ (if leb r.event_capacity (length r.events) then length r.events else length r.events + 1)
  unfolding push_event
  length-pushed h = elim (Bool-cases (leb r.event_capacity (length r.events))) [
    | inl full ↦ rw full (
        omega (
          arith,
          length-append (pop_front r.events) (event_record e r ∷ []),
          length-pop_front r.events (omega (arith, leb→le _ _ full, h.room)),
        ))
    | inr room ↦ rw room (omega (arith, length-append r.events (event_record e r ∷ [])))
  ]

  -- While sequence numbers are left, an event keeps the log bounded and consecutively numbered; the
  -- events in the log, the dropped ones and the polled ones are all that were numbered.
  pub push_event-IsLogged :
      r.next_sequence < u64_max
      → r.dropped_events < u64_max
      → IsLogged r
      → IsLogged (push_event e r)
        × (length (push_event e r).events + (push_event e r).dropped_events + r.next_sequence
            ≡ length r.events + r.dropped_events + (push_event e r).next_sequence)
  unfolding push_event dropped_after
  push_event-IsLogged words drops h = (
    record {
      room = h.room;
      bounded = ground (arith, length-pushed h);
      consecutive = pushed-Consecutive words h;
    },
    ground (arith, length-pushed h),
  )

-- What a poll of a log with these events does: nothing on an empty log, which it reports; else it
-- takes the oldest event, whose number the length of the log gives.
unfoldable pub Polls : {B : Type 0} → Runtime B → List Event → Type 0
Polls r [] = poll_event r ≡ (r, refuse Status.no_event)
Polls r (first ∷ rest) =
    (poll_event r ≡ (record r { events = rest }, answer first))
    × (first.sequence + length (first ∷ rest) ≡ r.next_sequence)

polls :
    {B : Type 0} (r : Runtime B) (events : List Event)
    → r.events ≡ events
    → Consecutive events r.next_sequence
    → Polls r events
unfolding Polls poll_event
polls r [] e h = rw (e) refl
polls r (first ∷ rest) e h = (rw (e) refl, omega (arith, h.0))

-- A poll keeps the log as it is and reports `no_event` on an empty one; else it returns the oldest
-- event, whose number the length of the log gives, and removes it. The log stays well formed.
pub poll_event-IsLogged :
    {B : Type 0} (r : Runtime B) → IsLogged r → IsLogged (poll_event r).0 × Polls r r.events
unfolding poll_event
poll_event-IsLogged r h = (
  record {
    room = ground (arith, h.room);
    bounded = ground (arith, h.bounded);
    consecutive = ground (arith, h.consecutive);
  },
  polls r r.events refl h.consecutive,
)

-- One error is logged: the last event of the log is new, an error under the request id with the text cut
-- to what fits, and before it stands the log as it was, less its oldest event if it was full.
pub record LogsError {B : Type 0} (id : ℕ) (text : Bytes) (before after : Runtime B) : Type 0 where
  pub error : Event
  pub events :
      after.events
      ≡ (if leb before.event_capacity (length before.events)
          then pop_front before.events
          else before.events)
        ++ error ∷ []
  pub type : error.type ≡ 3
  pub request_id : error.request_id ≡ id
  pub message : error.message ≡ copy_text 256 text
  pub torrent_id : error.torrent_id ≡ []
  pub stream_id : error.stream_id ≡ []
  pub sequence : error.sequence ≡ before.next_sequence
  pub files : after.files ≡ before.files

-- What a command reports, as its call of the backend ends.
unfoldable pub Reports : {B : Type 0} → ℕ → Attempt (Unit {0}) → Runtime B → Runtime B → Type 0
Reports request_id (returned a) before after =
    (after.events ≡ before.events)
    × (after.next_sequence ≡ before.next_sequence)
    × (after.dropped_events ≡ before.dropped_events)
    × (after.files ≡ before.files)
Reports request_id (failed message) before after = LogsError request_id message before after
Reports request_id unknown before after =
    LogsError request_id (codes "unknown protocol backend error") before after

push_event-LogsError :
    {B : Type 0} (request_id : ℕ) (text : Bytes) (state : Option B) (r : Runtime B)
    → LogsError request_id text r
        (push_event (error_event request_id text) (record r { backend = state }))
unfolding push_event event_record error_event event_code note_files copy_text dropped_after
push_event-LogsError request_id text state r = record {
  error = event_record (error_event request_id text) r;
  events = refl;
  type = refl;
  request_id = refl;
  message = refl;
  torrent_id = refl;
  stream_id = refl;
  sequence = refl;
  files = refl;
}

report-Reports :
    {B : Type 0} (request_id : ℕ) (outcome : Attempt (Unit {0})) (state : Option B) (r : Runtime B)
    → Reports request_id outcome r (
        report request_id
          (codes "unknown protocol backend error")
          outcome
          (record r { backend = state }))
unfolding Reports report
report-Reports request_id (returned a) state r = (refl, refl, refl, refl)
report-Reports request_id (failed message) state r = push_event-LogsError request_id message state r
report-Reports request_id unknown state r =
    push_event-LogsError request_id (codes "unknown protocol backend error") state r

-- If the call of the backend for a command throws, then exactly one event is added to the log, the last:
-- an error under the command's request id, with the text of the exception if it has one, and with the
-- next sequence number. If the call returns, the log, its numbers and the files are as before.
pub process_command-Reports :
    (K : Backend) (c : Command) (s : K.State) (r : Runtime K.State)
    → Reports c.request_id (dispatch K c r.save_path s).1 r (process_command K c s r)
unfolding process_command
process_command-Reports K c s r =
    report-Reports c.request_id (dispatch K c r.save_path s).1 (some (dispatch K c r.save_path s).0)
      r
