-- ===== src/Game/Streams/Moves.antt =====
-- What one command does to the stream of one seat: the streams of
-- server/internal/game/text_snapshot.go.
use knowoff.Prelude.{
  get_elem?-modify, get_elem?-modify_other, Option-cases, ℕ, zero, suc, ◌+◌, ◌<◌, ◌≡◌, Bool, true,
  false, Option, none, some, List, [], ◌∷◌, length, get_elem?, refl, ap, ◌∙◌, ◌⊎◌, inl, inr, arith,
  leb, ◌==◌, Bool-cases,
}
use knowoff.Contract.{ErrorCode, u64}
use knowoff.Contract.Sequence.{Cursor}
use knowoff.Contract.Requests.{IdText}
use knowoff.Game.State.{TextState, TextMatch, GameError}
use knowoff.Game.Projection.{project}
use knowoff.Game.Streams.{
  Stream, SentSnapshot, only_to, snapshot_cursor, checked_snapshot, event_error, error_event,
  StreamCommand, send_snapshot, send_error, restart, next_cursor, bump, reset_stream,
  action_error_event, snapshot_locked, stream_step,
}

get_elem?-below : (xs : List Stream) (i : ℕ) (a : Stream) → get_elem? xs i ≡ some a → i < length xs
get_elem?-below [] i a h = cc
get_elem?-below (x ∷ xs) zero a h = omega arith
get_elem?-below (x ∷ xs) (suc i) a h = omega (arith, get_elem?-below xs i a h)

abbrev pub bumped : Stream → Stream
bumped r = record r { seq = u64 (r.seq + 1) }

-- What a command does to the stream of a seat and to the cursors that the seat gets.
abbrev pub Sends : ℕ → Stream → List Stream × Option Cursor → Type 0
Sends to r (changed, sent) =
    (get_elem? changed to ≡ some (bumped r))
    × ((sent ≡ none)
        ⊎ ((c : Cursor) × (sent ≡ some c)
            × (c.stream_epoch ≡ r.epoch)
            × (c.recipient_seq ≡ u64 (r.seq + 1))))

abbrev pub Waits : ℕ → Stream → List Stream × Option Cursor → Type 0
Waits to r (changed, sent) = (get_elem? changed to ≡ some r) × (sent ≡ none)

module _ (snapshot_error : SentSnapshot → Option GameError) (moderates : Bool) (m : TextMatch)
    (to : ℕ) (streams : List Stream) (r : Stream) (here : get_elem? streams to ≡ some r) where
  abbrev after : StreamCommand → List Stream × Option Cursor
  after c = stream_step snapshot_error moderates m to streams c

  bump-Sends : get_elem? (bump streams to) to ≡ some (bumped r)
  bump-Sends = get_elem?-modify (λ q. record q { seq = u64 (q.seq + 1) }) streams to r here

  other-bump : (seat : ℕ) → (to == seat) ≡ false → get_elem? (bump streams seat) to ≡ some r
  other-bump seat h =
      get_elem?-modify_other (λ q. record q { seq = u64 (q.seq + 1) }) streams to seat h ∙ here

  abbrev pub Moves : List Stream × Option Cursor → Type 0
  Moves next = Waits to r next ⊎ Sends to r next

  refused-Waits : (seat : ℕ) → Waits to r (streams, only_to to seat none)
  refused-Waits seat = (here, ground arith)

  bump-Moves :
      (s : TextState) (seat : ℕ) (q : Stream) (sent : Option Cursor)
      → get_elem? streams seat ≡ some q
      → (sent ≡ none) ⊎ (sent ≡ some (next_cursor s q))
      → Moves (bump streams seat, only_to to seat sent)
  bump-Moves s seat q sent there given = elim (Bool-cases (to == seat)) [
    | inr other ↦ inl (other-bump seat other, rw other refl)
    | inl same ↦
        let e : to ≡ seat = ground arith in
        let own : q ≡ r = ground (arith, e, here, there) in
        inr (
          rw (← e) bump-Sends,
          elim given [
            | inl refused ↦ inl (rw (same, refused) refl)
            | inr sent_it ↦ inr (
              next_cursor s q,
              rw (same, sent_it) refl,
              ap (λ x. x.epoch) own,
              ap (λ x. u64 (x.seq + 1)) own,
            )
          ],
        )
  ]

  given_snapshot :
      (x : SentSnapshot) (e : Option GameError)
      → (snapshot_cursor (checked_snapshot x e) ≡ none)
        ⊎ (snapshot_cursor (checked_snapshot x e) ≡ some x.cursor)
  given_snapshot x none = inr refl
  given_snapshot x (some e) = inl refl

  pub snapshot-Moves : (s : TextState) (seat now : ℕ) → Moves (after (send_snapshot s seat now))
  unfolding stream_step snapshot_locked
  snapshot-Moves s seat now = elim (Bool-cases (leb (length s.players) seat)) [
    | inl out ↦ rw out (inl (refused-Waits seat))
    | inr in_range ↦ elim (Option-cases (get_elem? streams seat)) [
      | inl gone ↦ rw (in_range, gone) (inl (refused-Waits seat))
      | inr (q, there) ↦
          let x : SentSnapshot = record {
            cursor = next_cursor s q;
            snapshot = project moderates m s seat now;
          } in
          rw (in_range, there)
            (bump-Moves s seat q (snapshot_cursor (checked_snapshot x (snapshot_error x))) there
              (given_snapshot x (snapshot_error x)))
    ]
  ]

  pub error-Moves :
      (s : TextState) (seat : ℕ) (request_id : IdText) (code : Option ErrorCode)
      → Moves (after (send_error s seat request_id code))
  unfolding stream_step action_error_event
  error-Moves s seat request_id code = elim (Bool-cases (leb (length s.players) seat)) [
    | inl out ↦ rw out (inl (refused-Waits seat))
    | inr in_range ↦ elim (Option-cases (get_elem? streams seat)) [
      | inl gone ↦ rw (in_range, gone) (inl (refused-Waits seat))
      | inr (q, there) ↦ elim (Option-cases (event_error (error_event s request_id code q))) [
        | inr (e, bad) ↦ rw (in_range, there, bad) (inl (refused-Waits seat))
        | inl fine ↦
            rw (in_range, there, fine)
              (bump-Moves s seat q (some (next_cursor s q)) there (inr refl))
      ]
    ]
  ]

  pub restart-other :
      (seat : ℕ) (fresh : List ℕ) → (to == seat) ≡ false → Waits to r (after (restart seat fresh))
  unfolding stream_step reset_stream
  restart-other seat fresh other = elim (Bool-cases (leb (length streams) seat)) [
    | inl out ↦ rw out (here, refl)
    | inr in_range ↦ rw in_range (
      get_elem?-modify_other (λ q. record { epoch = fresh; seq = 0 }) streams to seat other ∙ here,
      refl,
    )
  ]

  pub restart-own :
      (seat : ℕ) (fresh : List ℕ)
      → (to == seat) ≡ true
      → get_elem? (after (restart seat fresh)).0 to ≡ some (record { epoch = fresh; seq = 0 })
  unfolding stream_step reset_stream
  restart-own seat fresh same =
      let e : to ≡ seat = ground arith in
      let in_range : leb (length streams) seat ≡ false =
        ground (arith, e, get_elem?-below streams to r here) in
      rw (in_range, ← e)
        (get_elem?-modify (λ q. record { epoch = fresh; seq = 0 }) streams to r here)
