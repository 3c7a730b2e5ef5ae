-- ===== src/Game/Advance.antt =====
-- The clock: `allReady` and `advance` of text_actions.go. The loop of `advance` runs at most twelve
-- times; past that the source reports an error, which is the empty fuel.
pub mod Bound
pub mod Absences
pub mod Ends
pub mod Total
pub mod RunsOn
use knowoff.Prelude.{
  ℕ, zero, suc, ◌+◌, Bool, true, false, ◌&&◌, ◌||◌, Option, none, some, List, [], ◌∷◌, ◌++◌, not,
  ltb, leb, any_at, if◌then◌else◌,
}
use knowoff.Contract.{Phase, Reason, Resolution}
use knowoff.Game.State.{
  TextState, TextPlayer, TextMatch, TextPending, TextAbandonEvent, Result, ok, err, GameError,
  is_active, is_bad_bargains,
}
use knowoff.Game.Turns.{enter_phase, current, next_turn, auto_pass, stranded}
use knowoff.Game.Offers.{resolve_offer}
use knowoff.Game.Ballots.{resolve_vote}
use knowoff.Game.Endings.{finalize_vote, absence_end}
use knowoff.Game.Specialty.{not_eliminated}

unfoldable pub all_ready : TextState → Bool
all_ready s = not (any_at (λ i p. is_active p && not (s.ready i)) 0 s.players)

-- Has the reconnection grace of a player run out?
abbrev pub grace_expired : ℕ → TextPlayer → Bool
grace_expired now v =
    not v.connected && (not v.absent && (ltb 0 v.grace_deadline && leb v.grace_deadline now))

abbrev pub penalized : TextMatch → ℕ → TextPlayer → Bool
penalized m now v = grace_expired now v && (m.penalize_abandon && not v.abandon_recorded)

unfoldable pub mark_absent : TextMatch → ℕ → TextPlayer → TextPlayer
mark_absent m now v =
    if grace_expired now v
    then record v { absent = true; abandon_recorded = v.abandon_recorded || m.penalize_abandon }
    else v

unfoldable pub mark_absences : TextMatch → ℕ → List TextPlayer → List TextPlayer
mark_absences m now [] = []
mark_absences m now (v ∷ vs) = mark_absent m now v ∷ mark_absences m now vs

unfoldable pub new_abandons : TextMatch → ℕ → ℕ → List TextPlayer → List TextAbandonEvent
new_abandons m now i [] = []
new_abandons m now i (v ∷ vs) =
    let rest = new_abandons m now (suc i) vs in
    if penalized m now v then record { seat = i; occurred_at = v.grace_deadline } ∷ rest else rest

pub data Progress : Type 0 where
  done : TextPending → Progress
  more : TextPending → Progress
  failed : GameError → Progress

-- The test on the result that ends each round of the loop.
abbrev pub go_on : TextPending → Progress
go_on p = elim p.state.result [ none ↦ more p | some r ↦ done p ]

abbrev pub with_state : TextPending → TextState → TextPending
with_state p s = record p { state = s }

unfoldable pub open_ballot : TextMatch → TextState → ℕ → TextState
open_ballot m s now =
    enter_phase
      (record s {
        votes = λ seat. none;
        ballot_kind = some Phase.knowoff_ballot;
        candidates = not_eliminated s;
      })
      Phase.knowoff_ballot now m.timers.knowoff_ballot_s

unfoldable pub advance_play : TextMatch → TextPending → ℕ → Progress
advance_play m p now =
    if stranded m p.state
    then more (with_state p (auto_pass m p.state Reason.no_recipient now))
    else (if leb p.state.deadline now
        then go_on (with_state p (auto_pass m p.state Reason.timeout now))
        else done p)

abbrev pub finalized : Result TextPending → Progress
finalized (ok p) = go_on p
finalized (err e) = failed e

abbrev pub reveal_result : TextState → ℕ → TextState
reveal_result s now = record s { result_revealed = s.result_revealed || leb s.result_reveal_at now }

abbrev pub closing : TextState → ℕ → Bool
closing s now = leb s.deadline now || all_ready s

-- One round of the loop.
unfoldable pub advance_in : Phase → TextMatch → TextPending → ℕ → Progress
advance_in Phase.round_start m p now =
    if leb p.state.deadline now then go_on (with_state p (next_turn m p.state now)) else done p
advance_in Phase.play m p now = advance_play m p now
advance_in Phase.trade_response m p now =
    if leb p.state.deadline now
    then go_on (with_state p (resolve_offer m p.state none Resolution.timed_out Reason.timeout now))
    else done p
advance_in Phase.discussion m p now =
    if closing p.state now then go_on (with_state p (open_ballot m p.state now)) else done p
advance_in Phase.knowoff_ballot m p now =
    if closing p.state now then go_on (resolve_vote m p now) else done p
advance_in Phase.runoff m p now =
    if closing p.state now then go_on (resolve_vote m p now) else done p
advance_in Phase.result_window m p now =
    let shown = with_state p (reveal_result p.state now) in
    if closing p.state now then finalized (finalize_vote m shown now) else done shown
advance_in Phase.verdict m p now = done p

unfoldable pub advance_loop : ℕ → TextMatch → TextPending → ℕ → Result TextPending
advance_loop zero m p now = err GameError.transition_bound
advance_loop (suc steps) m p now = elim (advance_in p.state.phase m p now) [
  | done q ↦ ok q
  | more q ↦ advance_loop steps m q now
  | failed e ↦ err e
]

unfoldable pub record_absences : TextMatch → TextPending → ℕ → TextPending
record_absences m p now = record p {
  state = record p.state { players = mark_absences m now p.state.players };
  abandons = p.abandons ++ new_abandons m now 0 p.state.players;
}

unfoldable pub advance : TextMatch → TextPending → ℕ → Result TextPending
advance m p now = elim p.state.result [
  | some r ↦ ok p
  | none ↦
      let counted = record_absences m p now in
      elim (absence_end m counted now) [
        | some ended ↦ ok ended
        | none ↦ advance_loop 12 m counted now
      ]
]
