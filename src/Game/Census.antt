-- ===== src/Game/Census.antt =====
-- Where the cards of a match are: how often a copy occurs in the hands, in the reserves and on the
-- board of the state of server/internal/game/text_match.go.
pub mod Draws
pub mod Trades
mod Examples
use knowoff.Prelude.{
  ℕ, zero, suc, ◌+◌, ◌≤◌, ◌<◌, Bool, true, false, ◌≡◌, Option, none, some, List, [], ◌∷◌, ◌++◌, map,
  get_elem?, modify, count, take, drop, count-append, take-append-drop, ◌==◌, if◌then◌else◌, refl,
  sym, ap, ◌∙◌, arith,
}
use knowoff.Contract.{BoardCard}
use knowoff.Game.State.{TextState, TextPlayer}
use knowoff.Game.Turns.{remove_copy}

-- The occurrences of a copy with one player.
abbrev pub held : ℕ → TextPlayer → ℕ
held id p = count id p.hand + count id p.reserve

abbrev pub total : ℕ → List TextPlayer → ℕ
total id [] = 0
total id (p ∷ ps) = held id p + total id ps

abbrev pub board_ids : List BoardCard → List ℕ
board_ids cards = map (λ b. b.card.copy_id) cards

abbrev pub census : TextState → ℕ → ℕ
census s id = total id s.players + count id (board_ids s.board.cards)

abbrev pub one_if : ℕ → ℕ → ℕ
one_if a id = if a == id then 1 else 0

pub total-modify :
    (id : ℕ) (f : TextPlayer → TextPlayer) (ps : List TextPlayer) (i : ℕ) (p : TextPlayer)
    → get_elem? ps i ≡ some p
    → total id (modify ps i f) + held id p ≡ total id ps + held id (f p)
unfolding modify
total-modify id f [] i p h = cc
total-modify id f (q ∷ ps) zero p h = let e : q ≡ p = cc in rw (e) (omega arith)
total-modify id f (q ∷ ps) (suc i) p h = omega (arith, total-modify id f ps i p h)

pub count-remove_copy :
    (ids : List ℕ) (gone id : ℕ)
    → 1 ≤ count gone ids
    → count id (remove_copy ids gone) + one_if gone id ≡ count id ids
unfolding count remove_copy
count-remove_copy [] gone id h = elim h [ ]
count-remove_copy (v ∷ ids) gone id h = ground (arith, count-remove_copy ids gone id)

pub count-take-drop :
    (id n : ℕ) (xs : List ℕ) → count id (take n xs) + count id (drop n xs) ≡ count id xs
count-take-drop id n xs =
    sym (count-append id (take n xs) (drop n xs)) ∙ ap (count id) (take-append-drop n xs)

pub count_one : (id gone : ℕ) → count id (gone ∷ []) ≡ one_if gone id
unfolding count
count_one id gone = ground arith
