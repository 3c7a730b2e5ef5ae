-- ===== src/Game/Connections.antt =====
-- Players who come and go: the transition of SetConnected in
-- server/internal/game/text_match.go.
use knowoff.Prelude.{
  ℕ, ◌+◌, Bool, true, false, ◌&&◌, ◌||◌, Option, none, some, length, not, ltb, leb, ◌==◌,
  if◌then◌else◌,
}
use knowoff.Contract.{Reason, Resolution, PendingOffer}
use knowoff.Game.State.{
  TextState, TextPlayer, TextMatch, TextPending, Result, ok, err, GameError, player_at, ◌>>=◌,
}
use knowoff.Game.Turns.{set_player, auto_pass}
use knowoff.Game.Offers.{resolve_offer}
use knowoff.Game.Specialty.{on_turn}
use knowoff.Game.Advance.{advance, with_state}
use knowoff.Game.Actions.{takes_ready}
use knowoff.Game.Votes.{is_voting, put}

-- A grace that ran out is an occurrence, even if the player comes back before the timer.
abbrev pub overdue : TextPlayer → ℕ → Bool
overdue v now = not v.connected && (ltb 0 v.grace_deadline && leb v.grace_deadline now)

abbrev pub connect_player : TextMatch → Bool → ℕ → TextPlayer → TextPlayer
connect_player m true now v = record v { connected = true; absent = false; grace_deadline = 0 }
connect_player m false now v = record v { connected = false; grace_deadline = now + m.grace_ms }

abbrev pub is_party : Option PendingOffer → ℕ → Bool
is_party none seat = false
is_party (some o) seat = (seat == o.proposer_seat) || (seat == o.recipient_seat)

-- A party to the open trade cancels it by coming or going.
unfoldable pub cancel_trade : TextMatch → TextState → ℕ → ℕ → TextState
cancel_trade m s seat now =
    if is_party s.pending_offer seat
    then resolve_offer m s none Resolution.cancel Reason.disconnect now
    else s

unfoldable pub skip_own_turn : TextMatch → TextState → ℕ → ℕ → TextState
skip_own_turn m s seat now = if on_turn s seat then auto_pass m s Reason.disconnect now else s

-- A player who leaves takes back the vote and holds nobody up.
unfoldable pub release_seat : TextState → ℕ → TextState
release_seat s seat = if (player_at s seat).eliminated then s else record s {
  votes = if is_voting s.phase then put s.votes seat none else s.votes;
  ready = if takes_ready s.phase then put s.ready seat true else s.ready;
}

unfoldable pub leave : TextMatch → TextState → ℕ → Bool → ℕ → TextState
leave m s seat true now = s
leave m s seat false now = release_seat (skip_own_turn m s seat now) seat

abbrev pub same_bool : Bool → Bool → Bool
same_bool true b = b
same_bool false b = not b

unfoldable pub rebind : TextMatch → TextPending → ℕ → Bool → ℕ → Result TextPending
rebind m p seat connected now =
    if same_bool (player_at p.state seat).connected connected
    then ok p
    else (let bound = set_player p.state seat (connect_player m connected now) in
        advance m (with_state p (leave m (cancel_trade m bound seat now) seat connected now)) now)

unfoldable pub set_connected : TextMatch → TextPending → ℕ → Bool → ℕ → Result TextPending
set_connected m p seat connected now =
    if leb (length p.state.players) seat
    then err GameError.unauthorized
    else (if connected && overdue (player_at p.state seat) now
        then (advance m p now >>= λ q. rebind m q seat connected now)
        else rebind m p seat connected now)
