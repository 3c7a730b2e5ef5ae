-- ===== src/Game/Streams/Accepted.antt =====
-- Between ActionError of server/internal/game/text_snapshot.go and CheckNext of
-- server/internal/transport/v2/sequence.go, by which the recipient judges what arrives.
use knowoff.Prelude.{
  ℕ, ◌+◌, ◌≤◌, ◌<◌, true, false, ◌≡◌, none, some, List, length, get_elem?, refl, sym, ap, ◌∙◌,
  arith, leb,
}
use knowoff.Contract.{ErrorCode, u64}
use knowoff.Contract.Sequence.{Cursor, cursor_valid, check_next, max_safe_integer}
use knowoff.Contract.Sequence.Laws.{check_next-accepts}
use knowoff.Contract.Requests.{ident}
use knowoff.Game.State.{TextState, ok}
use knowoff.Game.Streams.{
  Stream, ErrorEvent, event_error, error_event, next_cursor, bump, action_error_event,
}

-- The recipient at a seat has everything that was sent, and at most one event is new since.
pub record UpToDate (s : TextState) (r : Stream) (last : Cursor) : Type 0 where
  pub valid : cursor_valid last ≡ true
  pub epoch : last.stream_epoch ≡ r.epoch
  pub seq : last.recipient_seq ≡ r.seq
  pub known : last.evidence_seq ≤ length s.history
  pub one_new : length s.history ≤ last.evidence_seq + 1
  pub seq_room : r.seq < max_safe_integer
  pub history_room : length s.history ≤ max_safe_integer
  pub revision_room : s.board.revision ≤ max_safe_integer

module _ (s : TextState) (r : Stream) (last : Cursor) (u : UpToDate s r last) where
  next_seq : u64 (r.seq + 1) ≡ r.seq + 1
  next_seq = ground (arith, u.seq_room)

  next_cursor-valid : cursor_valid (next_cursor s r) ≡ true
  unfolding cursor_valid
  next_cursor-valid =
      let v = u.valid in let e = u.epoch in ground (arith, next_seq, u.seq_room, u.history_room)

  next_cursor-accepted : check_next last (next_cursor s r) ≡ none
  next_cursor-accepted = (check_next-accepts last (next_cursor s r)).1 (
    u.valid,
    next_cursor-valid,
    record {
      epoch = sym u.epoch;
      recipient = next_seq ∙ ap (λ n. n + 1) (sym u.seq);
      evidence_low = u.known;
      evidence_high = u.one_new;
    },
  )

  error_event-valid :
      (request : ℕ) (code : ErrorCode)
      → event_error (error_event s (ident request) (some code) r) ≡ none
  unfolding event_error
  error_event-valid request code = rw next_cursor-valid (ground (arith, u.revision_room))

-- An error with a well formed request id is always sent to a seat whose recipient is up to date, and
-- the recipient accepts it as the next message, under the next sequence number of the stream.
pub action_error_event-check_next :
    (s : TextState) (streams : List Stream) (seat : ℕ) (r : Stream) (last : Cursor) (request : ℕ)
    (code : ErrorCode)
    → seat < length s.players
    → get_elem? streams seat ≡ some r
    → UpToDate s r last
    → (e : ErrorEvent) × (action_error_event s streams seat (ident request) (some code)
        ≡ (bump streams seat, ok e))
      × (check_next last e.cursor ≡ none)
unfolding action_error_event
action_error_event-check_next s streams seat r last request code playing here u =
    let in_range : leb (length s.players) seat ≡ false = ground (arith, playing) in
    (
      error_event s (ident request) (some code) r,
      rw (in_range, here, error_event-valid s r last u request code) refl,
      next_cursor-accepted s r last u,
    )
