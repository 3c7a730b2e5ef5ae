-- ===== src/Game/Streams/Unrepeated.antt =====
-- No cursor of a recipient is used twice: the streams of server/internal/game/text_snapshot.go over
-- a run of snapshots, errors and restarts for any seats.
use knowoff.Prelude.{
  ℕ, suc, ◌+◌, ◌<◌, ◌^◌, ◌≡◌, Bool, true, false, Option, none, some, List, [], ◌∷◌, length,
  get_elem?, refl, sym, ◌∙◌, ◌⊎◌, inl, inr, arith, ◌==◌, if◌then◌else◌,
}
use knowoff.Contract.{u64}
use knowoff.Contract.Sequence.{Cursor}
use knowoff.Game.State.{TextMatch, GameError}
use knowoff.Game.Streams.{
  Stream, SentSnapshot, StreamCommand, send_snapshot, send_error, restart, stream_step, cursors_to,
  epochs_to, prepend,
}
use knowoff.Game.Streams.Moves.{
  bumped, Sends, Waits, snapshot-Moves, error-Moves, restart-other, restart-own,
}

abbrev pub In : List ℕ → List (List ℕ) → Type 0
In x [] = ⊥
In x (y ∷ ys) = (x ≡ y) ⊎ In x ys

-- No epoch stands twice in a list.
abbrev pub Distinct : List (List ℕ) → Type 0
Distinct [] = Unit {0}
Distinct (x ∷ xs) = ¬ In x xs × Distinct xs

abbrev pub SameCursor : Cursor → Cursor → Type 0
SameCursor c d = (c.stream_epoch ≡ d.stream_epoch) × (c.recipient_seq ≡ d.recipient_seq)

abbrev pub Absent : Cursor → List Cursor → Type 0
Absent c [] = Unit {0}
Absent c (d ∷ ds) = ¬ SameCursor c d × Absent c ds

abbrev pub Unrepeated : List Cursor → Type 0
Unrepeated [] = Unit {0}
Unrepeated (c ∷ cs) = Absent c cs × Unrepeated cs

-- A cursor that a stream gives out later, in this epoch or in one of the epochs to come.
abbrev Later : Stream → List (List ℕ) → Cursor → Type 0
Later r epochs c =
    ((c.stream_epoch ≡ r.epoch) × (r.seq < c.recipient_seq)) ⊎ In c.stream_epoch epochs

abbrev AllLater : Stream → List (List ℕ) → List Cursor → Type 0
AllLater r epochs [] = Unit {0}
AllLater r epochs (c ∷ cs) = Later r epochs c × AllLater r epochs cs

AllLater-bump :
    (r : Stream) (epochs : List (List ℕ)) (cs : List Cursor)
    → AllLater (record r { seq = r.seq + 1 }) epochs cs
    → AllLater r epochs cs
AllLater-bump r epochs [] h = tt
AllLater-bump r epochs (c ∷ cs) (inl (e, n), h) =
    (inl (e, omega (arith, n)), AllLater-bump r epochs cs h)
AllLater-bump r epochs (c ∷ cs) (inr i, h) = (inr i, AllLater-bump r epochs cs h)

AllLater-restart :
    (r : Stream) (fresh : List ℕ) (epochs : List (List ℕ)) (cs : List Cursor)
    → AllLater (record { epoch = fresh; seq = 0 }) epochs cs
    → AllLater r (fresh ∷ epochs) cs
AllLater-restart r fresh epochs [] h = tt
AllLater-restart r fresh epochs (c ∷ cs) (inl (e, n), h) =
    (inr (inl e), AllLater-restart r fresh epochs cs h)
AllLater-restart r fresh epochs (c ∷ cs) (inr i, h) =
    (inr (inr i), AllLater-restart r fresh epochs cs h)

same-In : {x y : List ℕ} → x ≡ y → (epochs : List (List ℕ)) → In x epochs → In y epochs
same-In e [] i = i
same-In e (z ∷ zs) (inl f) = inl (sym e ∙ f)
same-In e (z ∷ zs) (inr i) = inr (same-In e zs i)

-- The cursor just given out is none of the later ones.
AllLater-Absent :
    (r : Stream) (epochs : List (List ℕ)) (c : Cursor) (cs : List Cursor)
    → c.stream_epoch ≡ r.epoch
    → c.recipient_seq ≡ r.seq
    → ¬ In r.epoch epochs
    → AllLater r epochs cs
    → Absent c cs
AllLater-Absent r epochs c [] e n new h = tt
AllLater-Absent r epochs c (d ∷ ds) e n new (inl (f, k), h) =
    (λ same. omega (arith, same.1, n, k), AllLater-Absent r epochs c ds e n new h)
AllLater-Absent r epochs c (d ∷ ds) e n new (inr i, h) = (
  λ same. let g : d.stream_epoch ≡ r.epoch = sym same.0 ∙ e in new (same-In g epochs i),
  AllLater-Absent r epochs c ds e n new h,
)

-- The part of the claim that is carried along a run.
abbrev Carried : Stream → List (List ℕ) → List Cursor → Type 0
Carried r epochs cs = AllLater r epochs cs × Unrepeated cs

module _ (r : Stream) (epochs : List (List ℕ)) (new : ¬ In r.epoch epochs)
    (room : r.seq + 1 < 2 ^ 64) where
  wraps_not : u64 (r.seq + 1) ≡ r.seq + 1
  wraps_not = ground (arith, room)

  bumped-Carried : (cs : List Cursor) → Carried (bumped r) epochs cs → Carried r epochs cs
  bumped-Carried cs (later, once) = (AllLater-bump r epochs cs (rw (← wraps_not) later), once)

  sent-Carried :
      (c : Cursor) (cs : List Cursor)
      → c.stream_epoch ≡ r.epoch
      → c.recipient_seq ≡ u64 (r.seq + 1)
      → Carried (bumped r) epochs cs
      → Carried r epochs (c ∷ cs)
  sent-Carried c cs e n (later, once) = (
    (inl (e, omega (arith, n, wraps_not)), (bumped-Carried cs (later, once)).0),
    (AllLater-Absent (bumped r) epochs c cs e n new later, once),
  )

restarted-Carried :
    (b : Bool) (r : Stream) (fresh : List ℕ) (epochs : List (List ℕ)) (out : List Cursor)
    → Distinct (r.epoch ∷ (if b then fresh ∷ epochs else epochs))
    → (b ≡ true
        → Distinct (fresh ∷ epochs)
        → Carried (record { epoch = fresh; seq = 0 }) epochs out)
    → (b ≡ false → Distinct (r.epoch ∷ epochs) → Carried r epochs out)
    → Carried r (if b then fresh ∷ epochs else epochs) out
restarted-Carried true r fresh epochs out new own other =
    let (later, once) = own refl new.1 in (AllLater-restart r fresh epochs out later, once)
restarted-Carried false r fresh epochs out new own other = other refl new

module _ (snapshot_error : SentSnapshot → Option GameError) (moderates : Bool) (m : TextMatch)
    (to : ℕ) where
  restart-silent :
      (streams : List Stream) (seat : ℕ) (fresh : List ℕ)
      → (stream_step snapshot_error moderates m to streams (restart seat fresh)).1 ≡ none
  unfolding stream_step
  restart-silent streams seat fresh = refl

  abbrev cursors : List Stream → List StreamCommand → List Cursor
  cursors streams cs = cursors_to snapshot_error moderates m to streams cs

  moved-Carried :
      (streams : List Stream) (r : Stream) (epochs : List (List ℕ)) (cs : List StreamCommand)
      (next : List Stream × Option Cursor)
      → Waits to r next ⊎ Sends to r next
      → ¬ In r.epoch epochs
      → r.seq + suc (length cs) < 2 ^ 64
      → ((q : Stream)
          → q.epoch ≡ r.epoch
          → get_elem? next.0 to ≡ some q
          → q.seq + length cs < 2 ^ 64
          → Carried q epochs (cursors next.0 cs))
      → Carried r epochs (prepend next.1 (cursors next.0 cs))
  moved-Carried streams r epochs cs (changed, sent) (inl (here, quiet)) new room ih =
      rw quiet (ih r refl here (omega (arith, room)))
  moved-Carried streams r epochs cs (changed, sent) (inr (here, inl quiet)) new room ih =
      let fits : r.seq + 1 < 2 ^ 64 = omega (arith, room) in
      rw quiet (
        bumped-Carried r epochs new fits (cursors changed cs)
          (ih (bumped r) refl here (omega (arith, wraps_not r epochs new fits, room))))
  moved-Carried streams r epochs cs (changed, sent) (inr (here, inr (c, given, e, n))) new room ih =
      let fits : r.seq + 1 < 2 ^ 64 = omega (arith, room) in
      rw given (
        sent-Carried r epochs new fits c (cursors changed cs) e n
          (ih (bumped r) refl here (omega (arith, wraps_not r epochs new fits, room))))

  run-Carried :
      (streams : List Stream) (r : Stream) (cs : List StreamCommand)
      → get_elem? streams to ≡ some r
      → Distinct (r.epoch ∷ epochs_to to cs)
      → r.seq + length cs < 2 ^ 64
      → Carried r (epochs_to to cs) (cursors streams cs)
  unfolding cursors_to epochs_to
  run-Carried streams r [] here new room = (tt, tt)
  run-Carried streams r (send_snapshot s seat now ∷ cs) here new room =
      moved-Carried streams r (epochs_to to cs) cs
        (stream_step snapshot_error moderates m to streams (send_snapshot s seat now))
        (snapshot-Moves snapshot_error moderates m to streams r here s seat now) new.0 room
        (λ q e there fits.
          run-Carried
            (stream_step snapshot_error moderates m to streams (send_snapshot s seat now)).0 q cs
            there (λ i. new.0 (same-In e (epochs_to to cs) i), new.1) fits)
  run-Carried streams r (send_error s seat request_id code ∷ cs) here new room =
      moved-Carried streams r (epochs_to to cs) cs
        (stream_step snapshot_error moderates m to streams (send_error s seat request_id code))
        (error-Moves snapshot_error moderates m to streams r here s seat request_id code) new.0 room
        (λ q e there fits.
          run-Carried
            (stream_step snapshot_error moderates m to streams
              (send_error s seat request_id code)).0
            q cs there (λ i. new.0 (same-In e (epochs_to to cs) i), new.1) fits)
  run-Carried streams r (restart seat fresh ∷ cs) here new room =
      let next = stream_step snapshot_error moderates m to streams (restart seat fresh) in
      rw (restart-silent streams seat fresh) (
        restarted-Carried (to == seat) r fresh (epochs_to to cs) (cursors next.0 cs) new
          (λ same fresh_new.
            run-Carried next.0 (record { epoch = fresh; seq = 0 }) cs
              (restart-own snapshot_error moderates m to streams r here seat fresh same) fresh_new
              (omega (arith, room)))
          (λ other still_new.
            run-Carried next.0 r cs
              (restart-other snapshot_error moderates m to streams r here seat fresh other).0
              still_new (omega (arith, room))))

-- As long as a stream does not wrap around and every restart of the seat brings an epoch of its own,
-- no two messages to a seat have the same epoch and sequence number: whatever snapshots, errors and
-- restarts for whatever seats are in the run, the refused ones included.
pub cursors_to-Unrepeated :
    (snapshot_error : SentSnapshot → Option GameError) (moderates : Bool) (m : TextMatch) (to : ℕ)
    (streams : List Stream) (r : Stream) (cs : List StreamCommand)
    → get_elem? streams to ≡ some r
    → Distinct (r.epoch ∷ epochs_to to cs)
    → r.seq + length cs < 2 ^ 64
    → Unrepeated (cursors_to snapshot_error moderates m to streams cs)
cursors_to-Unrepeated snapshot_error moderates m to streams r cs here new room =
    (run-Carried snapshot_error moderates m to streams r cs here new room).1
