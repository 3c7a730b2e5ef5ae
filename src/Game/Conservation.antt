-- ===== src/Game/Conservation.antt =====
-- Where the cards are: CheckConservation and validateState of server/internal/game/text_snapshot.go.
-- Snapshot.Validate, which is asked of every seat's projection at the end, is a parameter. Each copy
-- id is one key of the registry, as in the map of the source.
mod Places
mod Located
pub mod Conserved
use Prim.Native.String.{String}
use text.Mathlib.Text.{◌==◌ as str_eq}
use knowoff.Prelude.{
  ℕ, zero, suc, ◌+◌, Bool, true, false, ◌&&◌, ◌||◌, Option, none, some, List, [], ◌∷◌, ◌++◌, length,
  not, ltb, leb, ◌==◌, if◌then◌else◌, elem, lookup, map,
}
use knowoff.Contract.{Card, BoardCard, EventKind, ErrorCode, PublicAction, PendingOffer}
use knowoff.Contract.Snapshot.{Snapshot}
use knowoff.Game.State.{
  TextState, TextPlayer, TextCopy, TextMatch, Zone, GameError, is_bad_bargains,
}
use knowoff.Game.Projection.{project}

abbrev pub zone_rank : Zone → ℕ
zone_rank Zone.no_zone = 0
zone_rank Zone.in_hand = 1
zone_rank Zone.in_reserve = 2
zone_rank Zone.on_board = 3
zone_rank Zone.spent = 4

abbrev pub same_owner : Option ℕ → Option ℕ → Bool
same_owner none none = true
same_owner (some a) (some b) = a == b
same_owner _ _ = false

abbrev pub same_card : Card → Card → Bool
same_card a b =
    (a.copy_id == b.copy_id)
    && (str_eq a.content.content_id b.content.content_id
        && ((a.content.revision == b.content.revision) && str_eq a.content.text b.content.text))

abbrev is_seed : EventKind → Bool
is_seed EventKind.seed_event = true
is_seed _ = false

-- The cards that came in with the seeds of the rounds.
unfoldable pub seeded : List PublicAction → ℕ
seeded [] = 0
seeded (e ∷ es) = (if is_seed e.kind then length e.cards else 0) + seeded es

abbrev pub stands : Option TextCopy → Zone → Option ℕ → Bool
stands none zone owner = false
stands (some c) zone owner = (zone_rank c.zone == zone_rank zone) && same_owner c.owner owner

-- `check`: the copy is where the registry says, and has not been met before. The ids met by now.
unfoldable pub check_copy : TextState → Zone → Option ℕ → List ℕ → ℕ → Option (List ℕ)
check_copy s zone owner seen id =
    if not (elem id seen) && stands (lookup id s.copies) zone owner then some (id ∷ seen) else none

abbrev pub and_then : Option (List ℕ) → (List ℕ → Option (List ℕ)) → Option (List ℕ)
and_then none f = none
and_then (some seen) f = f seen

unfoldable pub check_copies : TextState → Zone → Option ℕ → List ℕ → List ℕ → Option (List ℕ)
check_copies s zone owner seen [] = some seen
check_copies s zone owner seen (id ∷ ids) =
    and_then (check_copy s zone owner seen id) (λ met. check_copies s zone owner met ids)

unfoldable pub check_players : TextState → ℕ → List TextPlayer → List ℕ → Option (List ℕ)
check_players s seat [] seen = some seen
check_players s seat (p ∷ ps) seen =
    and_then (check_copies s Zone.in_hand (some seat) seen p.hand) λ met.
      and_then (check_copies s Zone.in_reserve (some seat) met p.reserve)
        λ all_met. check_players s (suc seat) ps all_met

abbrev pub board_owner : TextMatch → BoardCard → Option ℕ
board_owner m b = if is_bad_bargains m.mode_id then b.seat else none

unfoldable pub check_board : TextMatch → TextState → List BoardCard → List ℕ → Option (List ℕ)
check_board m s [] seen = some seen
check_board m s (b ∷ bs) seen =
    and_then (check_copy s Zone.on_board (board_owner m b) seen b.card.copy_id) (check_board m s bs)

abbrev known_card : Option Card → Card → Bool
known_card none c = false
known_card (some original) c = same_card original c

abbrev in_offer : Option PendingOffer → ℕ → Bool
in_offer none id = false
in_offer (some o) id = (id == o.offered_copy_id) || (id == o.requested_copy_id)

-- The checks of one entry of the registry.
unfoldable pub copy_fits : TextMatch → TextState → List ℕ → ℕ → TextCopy → Bool
copy_fits m s seen id c =
    known_card (lookup id m.all_copies) c.card
    && ((if zone_rank c.zone == zone_rank Zone.spent
          then not (elem id seen) && (same_owner c.owner none && not c.reserved)
          else elem id seen)
        && (not c.reserved || in_offer s.pending_offer id))

-- How many copies are reserved, if every entry fits.
unfoldable pub check_registry : TextMatch → TextState → List ℕ → List (ℕ × TextCopy) → Option ℕ
check_registry m s seen [] = some 0
check_registry m s seen ((id, c) ∷ rest) =
    let reserved = check_registry m s seen rest in
    if copy_fits m s seen id c
    then (elim reserved [ none ↦ none | some n ↦ some (if c.reserved then suc n else n) ])
    else none

abbrev reserves_fit : Option PendingOffer → Option ℕ → Bool
reserves_fit offer none = false
reserves_fit none (some n) = n == 0
reserves_fit (some o) (some n) = n == 2

abbrev registry_fits : TextMatch → TextState → Option (List ℕ) → Bool
registry_fits m s none = false
registry_fits m s (some seen) = reserves_fit s.pending_offer (check_registry m s seen s.copies)

-- The snapshots of the seats from `seat` on.
unfoldable pub check_snapshots :
    (Snapshot → Option GameError)
    → Bool
    → TextMatch
    → TextState
    → ℕ
    → ℕ
    → List TextPlayer
    → Option GameError
check_snapshots snapshot_error moderates m s now seat [] = none
check_snapshots snapshot_error moderates m s now seat (p ∷ ps) =
    let rest = check_snapshots snapshot_error moderates m s now (suc seat) ps in
    elim (snapshot_error (project moderates m s seat now)) [ some e ↦ some e | none ↦ rest ]

abbrev pub all_met : TextMatch → TextState → Option (List ℕ)
all_met m s = and_then (check_players s 0 s.players []) (check_board m s s.board.cards)

unfoldable pub validate_state :
    (Snapshot → Option GameError) → Bool → TextMatch → TextState → ℕ → Option GameError
unfolding check_registry
validate_state snapshot_error moderates m s now =
    if ltb m.limits.max_history_events (length s.history)
    then some (GameError.rejected ErrorCode.history_limit)
    else (if not (length s.copies == m.initial_copies + seeded s.history)
        then some GameError.copy_invariant
        else (if not (registry_fits m s (all_met m s))
            then some GameError.copy_invariant
            else check_snapshots snapshot_error moderates m s now 0 s.players))
