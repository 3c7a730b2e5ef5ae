-- ===== src/Game/Advance/Total.antt =====
-- `advance` of server/internal/game/text_actions.go on a match whose seeds are in order.
use knowoff.Prelude.{ℕ, ◌≤◌, true, ◌≡◌, length, all, refl, arith}
use knowoff.Game.State.{TextMatch, TextPending, Result, ok, err}
use knowoff.Game.Turns.Seeds.{seeds_fit}
use knowoff.Game.Advance.{advance}
use knowoff.Game.Advance.Bound.{Running, Live, Clocks}
use knowoff.Game.Advance.Ends.{Ends, advance-Ends}

-- A result that is no error.
abbrev pub Succeeds : TextMatch → Result TextPending → Type 0
Succeeds m r = (q : TextPending) × (r ≡ ok q) × Live m q.state

Ends-Succeeds :
    (m : TextMatch) (r : Result TextPending)
    → all (seeds_fit m) m.seeds ≡ true
    → Ends m r
    → Succeeds m r
Ends-Succeeds m (ok q) fit live = (q, refl, live)
Ends-Succeeds m (err e) fit (refused, unfit) = ground (arith, fit, unfit)

-- In a match of at most three rounds with positive turn and runoff clocks, each round with as many
-- seeds as its mode needs and no text twice among them, `advance` never fails: a running match goes on
-- running, or gets its result.
pub advance-Succeeds :
    (m : TextMatch) (p : TextPending) (now : ℕ)
    → Clocks m
    → length m.seeds ≤ 3
    → all (seeds_fit m) m.seeds ≡ true
    → Running m p.state
    → Succeeds m (advance m p now)
advance-Succeeds m p now clocks size fit run =
    Ends-Succeeds m (advance m p now) fit (advance-Ends m p now clocks size run)
