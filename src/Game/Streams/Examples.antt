-- ===== src/Game/Streams/Examples.antt =====
-- A run over the streams of the sample match, at which the theorems on streams are applied.
use knowoff.Prelude.{◌≡◌, true, none, some, List, [], ◌∷◌, refl, ap, get_or, arith, inl, inr}
use knowoff.Contract.{ErrorCode}
use knowoff.Contract.Sequence.{Cursor, cursor_valid, check_next, valid_identifier, identifier_rune}
use knowoff.Contract.Requests.{ident}
use knowoff.Game.State.{ok}
use knowoff.Game.Streams.{
  Stream, ErrorEvent, StreamCommand, send_snapshot, send_error, restart, bump, action_error_event,
  cursors_to, epochs_to,
}
use knowoff.Game.Streams.Unrepeated.{Distinct, Unrepeated, cursors_to-Unrepeated}
use knowoff.Game.Streams.Accepted.{UpToDate, action_error_event-check_next}
use knowoff.Game.Examples.{sample_match, sample_state}

-- The epochs "a", "b" and "c".
abbrev streams : List Stream
streams = record { epoch = b'a' ∷ []; seq = 0 } ∷ record { epoch = b'b' ∷ []; seq = 4 } ∷ []

-- Seat 1 gets a snapshot and an error, seat 0 a snapshot; then the stream of seat 1 starts again.
abbrev commands : List StreamCommand
commands =
    send_snapshot sample_state 1 1000
    ∷ send_snapshot sample_state 0 1001
    ∷ send_error sample_state 1 (ident 7) (some ErrorCode.stale_phase)
    ∷ restart 1 (b'c' ∷ [])
    ∷ send_snapshot sample_state 1 1002
    ∷ []

fresh_epochs : Distinct ((b'b' ∷ []) ∷ epochs_to 1 commands)
unfolding epochs_to
fresh_epochs = (
  λ i. elim i [
    | inl e ↦ (let first = ap (λ x. get_or x 0 0) e in omega (arith, first))
    | inr gone ↦ gone
  ],
  (λ gone. gone, tt),
)

cursors_to-Unrepeated_example :
    Unrepeated (cursors_to (λ sent. none) true sample_match 1 streams commands)
cursors_to-Unrepeated_example =
    cursors_to-Unrepeated (λ sent. none) true sample_match 1 streams
      (record { epoch = b'b' ∷ []; seq = 4 }) commands refl fresh_epochs (omega arith)

abbrev last_cursor : Cursor
last_cursor = record { stream_epoch = b'b' ∷ []; recipient_seq = 4; evidence_seq = 0 }

up_to_date : UpToDate sample_state (record { epoch = b'b' ∷ []; seq = 4 }) last_cursor
unfolding cursor_valid valid_identifier identifier_rune
up_to_date = record {
  valid = refl;
  epoch = refl;
  seq = refl;
  known = omega arith;
  one_new = omega arith;
  seq_room = omega arith;
  history_room = omega arith;
  revision_room = omega arith;
}

action_error_event-check_next_example :
    (e : ErrorEvent) × (action_error_event sample_state streams 1
        (ident 7)
        (some ErrorCode.stale_phase)
      ≡ (bump streams 1, ok e))
    × (check_next last_cursor e.cursor ≡ none)
action_error_event-check_next_example =
    action_error_event-check_next sample_state streams 1 (record { epoch = b'b' ∷ []; seq = 4 })
      last_cursor 7 ErrorCode.stale_phase (omega arith) refl up_to_date
