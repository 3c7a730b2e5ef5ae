-- ===== src/Game/Votes.antt =====
-- Votes and pokes: the vote of act, and poke, in server/internal/game/text_actions.go.
use knowoff.Prelude.{
  ℕ, ◌+◌, Bool, true, false, ◌&&◌, ◌||◌, Option, none, some, [], ◌∷◌, length, not, any, leb, ◌==◌,
  if◌then◌else◌, elem,
}
use knowoff.Contract.{Phase, Reason, EventKind, PublicAction, PendingOffer}
use knowoff.Game.State.{TextState, PokeGroup, PokeKey, Result, ok, err, GameError, player_at, ◌>>=◌}
use knowoff.Game.Turns.{event, current, set_player}
use knowoff.Game.Specialty.{is_seat}

abbrev pub is_voting : Phase → Bool
is_voting Phase.knowoff_ballot = true
is_voting Phase.runoff = true
is_voting _ = false

abbrev pub is_runoff : Phase → Bool
is_runoff Phase.runoff = true
is_runoff _ = false

abbrev pub with_target : ℕ → PublicAction → PublicAction
with_target target e = record e { target_seat = some target }

-- A function of the seat changed at one seat.
abbrev pub put {ℓ} : {A : Type ℓ} → (ℕ → A) → ℕ → A → ℕ → A
put f seat v k = if seat == k then v else f k

unfoldable pub cast_vote : TextState → ℕ → ℕ → ℕ → Result TextState
cast_vote s seat target now =
    if not (is_voting s.phase)
    then err GameError.invalid_action
    else (if leb (length s.players) target || ((target == seat) || (player_at s target).eliminated)
        then err GameError.unauthorized
        else (if is_runoff s.phase && not (elem target s.candidates)
            then err GameError.invalid_action
            else ok (
                event (record s { votes = put s.votes seat (some target) }) (some seat)
                  EventKind.vote_event Reason.player now s.board.revision [] (with_target target))))

abbrev pub same_group : PokeGroup → PokeGroup → Bool
same_group PokeGroup.play_group PokeGroup.play_group = true
same_group PokeGroup.discussion_group PokeGroup.discussion_group = true
same_group PokeGroup.voting_group PokeGroup.voting_group = true
same_group _ _ = false

abbrev pub same_key : PokeKey → PokeKey → Bool
same_key a b =
    same_group a.group b.group && ((a.from_seat == b.from_seat) && (a.to_seat == b.to_seat))

abbrev pub awaits : Option PendingOffer → ℕ → Bool
awaits none target = false
awaits (some o) target = o.recipient_seat == target

-- The group that a poke counts in, if the phase and the target's duty allow it.
unfoldable pub poke_group : Phase → TextState → ℕ → Result PokeGroup
poke_group Phase.play s target =
    if is_seat (current s) target then ok PokeGroup.play_group else err GameError.unauthorized
poke_group Phase.trade_response s target =
    if awaits s.pending_offer target then ok PokeGroup.play_group else err GameError.unauthorized
poke_group Phase.discussion s target =
    if s.ready target then err GameError.unauthorized else ok PokeGroup.discussion_group
poke_group Phase.knowoff_ballot s target = ok PokeGroup.voting_group
poke_group Phase.runoff s target = ok PokeGroup.voting_group
poke_group _ s target = err GameError.invalid_action

unfoldable pub poke_in : TextState → ℕ → ℕ → ℕ → PokeGroup → Result TextState
poke_in s seat target now group =
    let key : PokeKey = record { group = group; from_seat = seat; to_seat = target } in
    if any (same_key key) s.poked
    then err GameError.invalid_action
    else ok (
        event
          (record (set_player s seat (λ p. record p { pokes = p.pokes + 1 })) {
            poked = key ∷ s.poked;
          })
          (some seat) EventKind.poke_event Reason.player now s.board.revision []
          (with_target target))

unfoldable pub poke : TextState → ℕ → ℕ → ℕ → Result TextState
poke s seat target now =
    if leb (length s.players) target
      || ((target == seat)
          || ((player_at s target).eliminated || not (player_at s target).connected))
    then err GameError.unauthorized
    else (poke_group s.phase s target >>= poke_in s seat target now)
