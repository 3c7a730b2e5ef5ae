-- ===== src/Game/Advance/Absences.antt =====
-- Abandonment: the first loop of `advance` in server/internal/game/text_actions.go.
use knowoff.Prelude.{◌≡◌, List, [], ◌∷◌, ◌++◌, refl, ap}
use knowoff.Game.State.{TextAbandonEvent}

pub append_nil : (xs : List TextAbandonEvent) → xs ++ [] ≡ xs
append_nil [] = refl
append_nil (x ∷ xs) = ap (λ r. x ∷ r) (append_nil xs)
