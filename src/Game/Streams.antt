-- ===== src/Game/Streams.antt =====
-- What a recipient of a match is sent: ResetStream, snapshotLocked and ActionError of
-- server/internal/game/text_snapshot.go, with ErrorEvent.Validate of
-- server/internal/transport/v2/validate.go. Snapshot.Validate is a parameter, and so is the answer of
-- the library that makes a new epoch.
mod Moves
mod Unrepeated
mod Accepted
mod Examples
use knowoff.Prelude.{
  ℕ, ◌+◌, Bool, true, false, ◌&&◌, Option, none, some, List, [], ◌∷◌, length, modify, get_elem?,
  leb, ◌==◌, not, if◌then◌else◌,
}
use knowoff.Contract.{ErrorCode, u64}
use knowoff.Contract.Sequence.{Cursor, cursor_valid, safe}
use knowoff.Contract.Snapshot.{Snapshot}
use knowoff.Contract.Requests.{IdText, is_id}
use knowoff.Game.State.{TextState, TextMatch, Result, ok, err, GameError}
use knowoff.Game.Projection.{project}

-- The entries of `epoch` and `seq` of a seat: two slices of one length.
pub record Stream : Type 0 where
  pub epoch : List ℕ
  pub seq : ℕ

unfoldable pub reset_stream : List ℕ → List Stream → ℕ → Result (List Stream)
reset_stream fresh streams seat =
    if leb (length streams) seat
    then err GameError.unauthorized
    else ok (modify streams seat (λ r. record { epoch = fresh; seq = 0 }))

-- `code` is `none` for a code that is not known.
pub record ErrorEvent : Type 0 where
  pub version : ℕ
  pub cursor : Cursor
  pub request_id : IdText
  pub code : Option ErrorCode
  pub current_board_revision : Option ℕ

abbrev pub revision_safe : Option ℕ → Bool
revision_safe none = true
revision_safe (some revision) = safe revision

abbrev pub code_error : Option ErrorCode → Option ErrorCode
code_error none = some ErrorCode.malformed
code_error (some code) = none

-- `Validate`.
unfoldable pub event_error : ErrorEvent → Option ErrorCode
event_error e =
    if not (e.version == 2)
    then some ErrorCode.version
    else (if not (cursor_valid e.cursor)
        then some ErrorCode.malformed
        else (if not (is_id e.request_id && revision_safe e.current_board_revision)
            then some ErrorCode.malformed
            else code_error e.code))

abbrev pub next_cursor : TextState → Stream → Cursor
next_cursor s r = record {
  stream_epoch = r.epoch;
  recipient_seq = u64 (r.seq + 1);
  evidence_seq = length s.history;
}

abbrev pub error_event : TextState → IdText → Option ErrorCode → Stream → ErrorEvent
error_event s request_id code r = record {
  version = 2;
  cursor = next_cursor s r;
  request_id = request_id;
  code = code;
  current_board_revision = some s.board.revision;
}

abbrev pub bump : List Stream → ℕ → List Stream
bump streams seat = modify streams seat (λ r. record r { seq = u64 (r.seq + 1) })

-- An error that is refused does not use a sequence number up.
abbrev sent_error :
    List Stream → ℕ → ErrorEvent → Option ErrorCode → List Stream × Result ErrorEvent
sent_error streams seat e none = (bump streams seat, ok e)
sent_error streams seat e (some code) = (streams, err (GameError.rejected code))

unfoldable pub action_error_event :
    TextState → List Stream → ℕ → IdText → Option ErrorCode → List Stream × Result ErrorEvent
action_error_event s streams seat request_id code =
    if leb (length s.players) seat
    then (streams, err GameError.unauthorized)
    else (elim (get_elem? streams seat) [
      | none ↦ (streams, err GameError.index_panic)
      | some r ↦
          sent_error streams seat (error_event s request_id code r)
            (event_error (error_event s request_id code r))
    ])

-- A snapshot under the cursor of its recipient.
pub record SentSnapshot : Type 0 where
  pub cursor : Cursor
  pub snapshot : Snapshot

abbrev pub checked_snapshot : SentSnapshot → Option GameError → Result SentSnapshot
checked_snapshot sent none = ok sent
checked_snapshot sent (some e) = err e

-- A snapshot uses a sequence number up even if it is refused.
unfoldable pub snapshot_locked :
    (SentSnapshot → Option GameError)
    → Bool
    → TextMatch
    → TextState
    → List Stream
    → ℕ
    → ℕ
    → List Stream × Result SentSnapshot
snapshot_locked snapshot_error moderates m s streams seat now =
    if leb (length s.players) seat
    then (streams, err GameError.unauthorized)
    else (elim (get_elem? streams seat) [
      | none ↦ (streams, err GameError.index_panic)
      | some r ↦
          let sent : SentSnapshot = record {
            cursor = next_cursor s r;
            snapshot = project moderates m s seat now;
          } in
          (bump streams seat, checked_snapshot sent (snapshot_error sent))
    ])

-- What the server does with the streams of a match, whatever state the match is in then.
pub data StreamCommand : Type 0 where
  send_snapshot : TextState → ℕ → ℕ → StreamCommand
  send_error : TextState → ℕ → IdText → Option ErrorCode → StreamCommand
  restart : ℕ → List ℕ → StreamCommand

-- The streams after a command, and the cursor that the seat `to` gets.
abbrev pub event_cursor : Result ErrorEvent → Option Cursor
event_cursor (ok e) = some e.cursor
event_cursor (err e) = none

abbrev pub snapshot_cursor : Result SentSnapshot → Option Cursor
snapshot_cursor (ok sent) = some sent.cursor
snapshot_cursor (err e) = none

abbrev pub restarted : List Stream → Result (List Stream) → List Stream
restarted streams (ok changed) = changed
restarted streams (err e) = streams

abbrev pub only_to : ℕ → ℕ → Option Cursor → Option Cursor
only_to to seat c = if to == seat then c else none

unfoldable pub stream_step :
    (SentSnapshot → Option GameError)
    → Bool
    → TextMatch
    → ℕ
    → List Stream
    → StreamCommand
    → List Stream × Option Cursor
stream_step snapshot_error moderates m to streams (send_snapshot s seat now) =
    let (changed, r) = snapshot_locked snapshot_error moderates m s streams seat now in
    (changed, only_to to seat (snapshot_cursor r))
stream_step snapshot_error moderates m to streams (send_error s seat request_id code) =
    let (changed, r) = action_error_event s streams seat request_id code in
    (changed, only_to to seat (event_cursor r))
stream_step snapshot_error moderates m to streams (restart seat fresh) =
    (restarted streams (reset_stream fresh streams seat), none)

abbrev pub prepend : Option Cursor → List Cursor → List Cursor
prepend none cs = cs
prepend (some c) cs = c ∷ cs

-- The cursors that a seat gets in a run.
unfoldable pub cursors_to :
    (SentSnapshot → Option GameError)
    → Bool
    → TextMatch
    → ℕ
    → List Stream
    → List StreamCommand
    → List Cursor
cursors_to snapshot_error moderates m to streams [] = []
cursors_to snapshot_error moderates m to streams (c ∷ cs) =
    let (changed, sent) = stream_step snapshot_error moderates m to streams c in
    prepend sent (cursors_to snapshot_error moderates m to changed cs)

-- The epochs that a run gives to a seat.
unfoldable pub epochs_to : ℕ → List StreamCommand → List (List ℕ)
epochs_to to [] = []
epochs_to to (restart seat fresh ∷ cs) =
    let rest = epochs_to to cs in if to == seat then fresh ∷ rest else rest
epochs_to to (_ ∷ cs) = epochs_to to cs
