-- ===== src/Game/Advance/RunsOn.antt =====
-- Steps that leave a running match running, if they are taken: how they are put together.
use knowoff.Prelude.{ℕ, Bool, true, false, ◌≡◌, if◌then◌else◌}
use knowoff.Game.State.{TextState, TextMatch, Result, ok, err, GameError}
use knowoff.Game.Turns.{next_turn}
use knowoff.Game.Turns.Settles.{next_turn-Arrives}
use knowoff.Game.Advance.Bound.{Live, Clocks, Arrives-Live}

abbrev pub RunsOn : TextMatch → Result TextState → Type 0
RunsOn m r = (t : TextState) → r ≡ ok t → Live m t

module _ (m : TextMatch) where
  pub ok-RunsOn : (s : TextState) → Live m s → RunsOn m (ok s)
  ok-RunsOn s run t h = let e : s ≡ t = cc in rw (← e) run

  pub err-RunsOn : (e : GameError) → RunsOn m (err e)
  err-RunsOn e t h = cc

  pub if-RunsOn :
      (b : Bool) (x y : Result TextState) → RunsOn m x → RunsOn m y → RunsOn m (if b then x else y)
  if-RunsOn true x y hx hy = hx
  if-RunsOn false x y hx hy = hy

  pub next_turn-Live : Clocks m → (s : TextState) (now : ℕ) → Live m s → Live m (next_turn m s now)
  next_turn-Live clocks s now run =
      Arrives-Live m now s (next_turn m s now) run (next_turn-Arrives m s now clocks.turn)
