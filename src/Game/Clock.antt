-- ===== src/Game/Clock.antt =====
-- The next wakeup of a match: `Clock` of server/internal/game/text_snapshot.go, and what it has to
-- agree with, the work that `advance` finds at a time.
mod Wakes
pub mod Exact
use knowoff.Prelude.{
  ℕ, Bool, true, false, ◌&&◌, ◌≡◌, Option, none, some, List, [], ◌∷◌, not, ltb, if◌then◌else◌,
}
use knowoff.Contract.{Phase}
use knowoff.Game.State.{TextState, TextPlayer, TextMatch, TextPending}
use knowoff.Game.Endings.{absence_end}
use knowoff.Game.Advance.{done, advance_in, record_absences}

abbrev pub is_verdict : Phase → Bool
is_verdict Phase.verdict = true
is_verdict _ = false

abbrev pub is_result : Phase → Bool
is_result Phase.result_window = true
is_result _ = false

-- The deadline, or the time to show the result when that comes first.
unfoldable pub phase_wakeup : TextState → ℕ
phase_wakeup s =
    if is_result s.phase && (not s.result_revealed && ltb s.result_reveal_at s.deadline)
    then s.result_reveal_at
    else s.deadline

abbrev pub in_grace : TextPlayer → Bool
in_grace v = not v.connected && (not v.absent && ltb 0 v.grace_deadline)

unfoldable pub earliest_grace : ℕ → List TextPlayer → ℕ
earliest_grace next [] = next
earliest_grace next (v ∷ vs) =
    earliest_grace (if in_grace v && ltb v.grace_deadline next then v.grace_deadline else next) vs

-- `Clock`; the zero time of the verdict is `none`.
unfoldable pub match_clock : TextState → Option ℕ
match_clock s =
    if is_verdict s.phase then none else some (earliest_grace (phase_wakeup s) s.players)

-- At this time `advance` has nothing to do: nobody becomes absent, absences do not end the match,
-- and the first round of the loop finds nothing due.
pub record Idle (m : TextMatch) (p : TextPending) (now : ℕ) : Type 0 where
  pub present : record_absences m p now ≡ p
  pub populated : absence_end m p now ≡ none
  pub nothing_due : advance_in p.state.phase m p now ≡ done p
