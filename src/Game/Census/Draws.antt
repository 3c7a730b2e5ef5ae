-- ===== src/Game/Census/Draws.antt =====
-- Drawing and playing keep the cards: `draw`, `respond` and `place` of `act` in
-- server/internal/game/text_actions.go.
use knowoff.Prelude.{
  get_elem?-modify, ℕ, zero, suc, ◌+◌, ◌≤◌, ◌≡◌, Option, none, some, List, [], ◌∷◌, ◌++◌, get_elem?,
  modify, count, take, drop, count-append, refl, ap, ◌∙◌, arith, get_or,
}
use knowoff.Contract.{BoardCard, EventKind}
use knowoff.Game.State.{TextState, TextPlayer, TextMatch, TextCopy, ok, player_at, zero_player}
use knowoff.Game.Turns.{set_player, set_copy, event, remove_copy, bump_revision}
use knowoff.Game.Offers.{spend}
use knowoff.Game.Actions.{take_one, take_reserve, draw, put_down, pay_draw}
use knowoff.Game.Census.{
  total, census, board_ids, one_if, total-modify, count-remove_copy, count-take-drop, count_one,
}

module _ (seat id : ℕ) where
  take_one-total :
      (s : TextState) (p : TextPlayer) (card : ℕ)
      → get_elem? s.players seat ≡ some p
      → total id (take_one s seat card).players ≡ total id s.players + one_if card id
  unfolding take_one set_player set_copy
  take_one-total s p card h = omega (
    arith,
    total-modify id (λ q. record q { hand = q.hand ++ card ∷ [] }) s.players seat p h,
    count-append id p.hand (card ∷ []),
    count_one id card,
  )

  -- The player after cards were taken, with the reserve as it was.
  record Took (s t : TextState) (reserve cards : List ℕ) : Type 0 where
    player : TextPlayer
    found : get_elem? t.players seat ≡ some player
    reserved : player.reserve ≡ reserve
    counted : total id t.players ≡ total id s.players + count id cards
    board : t.board ≡ s.board

  take_reserve-Took :
      (s : TextState) (p : TextPlayer) (cards : List ℕ)
      → get_elem? s.players seat ≡ some p
      → Took s (take_reserve s seat cards) p.reserve cards
  unfolding take_reserve take_one set_player set_copy count
  take_reserve-Took s p [] h = record {
    player = p;
    found = h;
    reserved = refl;
    counted = omega arith;
    board = refl;
  }
  take_reserve-Took s p (card ∷ cards) h =
      let add : TextPlayer → TextPlayer = λ q. record q { hand = q.hand ++ card ∷ [] } in
      let rest =
        take_reserve-Took (take_one s seat card) (add p) cards
          (get_elem?-modify add s.players seat p h) in
      record {
        player = rest.player;
        found = rest.found;
        reserved = rest.reserved;
        counted = rest.counted ∙ ground (arith, take_one-total s p card h);
        board = rest.board;
      }

  get_or-some :
      (ps : List TextPlayer) (i : ℕ) (p : TextPlayer)
      → get_elem? ps i ≡ some p
      → get_or ps i zero_player ≡ p
  get_or-some [] i p h = cc
  get_or-some (q ∷ ps) zero p h = cc
  get_or-some (q ∷ ps) (suc i) p h = get_or-some ps i p h

  paid-total :
      (m : TextMatch) (s : TextState) (p : TextPlayer) (n : ℕ)
      → get_elem? s.players seat ≡ some p
      → total id (modify (take_reserve s seat (take n p.reserve)).players seat (pay_draw m n))
        ≡ total id s.players
  paid-total m s p n h =
      let taken = take_reserve-Took s p (take n p.reserve) h in
      omega (
        arith,
        total-modify id (pay_draw m n) (take_reserve s seat (take n p.reserve)).players seat
            taken.player taken.found,
        taken.counted,
        count-take-drop id n p.reserve,
        ap (λ r. count id r) taken.reserved,
        ap (λ r. count id (drop n r)) taken.reserved,
      )

  -- What a draw leaves on the table.
  draw-ok :
      (m : TextMatch) (s t : TextState) (n now : ℕ)
      → draw m s seat n now ≡ ok t
      → (t.players
          ≡ modify
              (take_reserve s seat (take n (player_at s seat).reserve)).players
              seat
              (pay_draw m n))
        × (t.board ≡ (take_reserve s seat (take n (player_at s seat).reserve)).board)
  unfolding draw set_player event
  draw-ok m s t n now e = (ground arith, ground arith)

  -- When a seat of the table draws, every card is as often in the hands, in the reserves and on the
  -- board as before.
  pub draw-census :
      (m : TextMatch) (s t : TextState) (p : TextPlayer) (n now : ℕ)
      → get_elem? s.players seat ≡ some p
      → draw m s seat n now ≡ ok t
      → census t id ≡ census s id
  draw-census m s t p n now h e =
      let (players, board) = draw-ok m s t n now e in
      let own = get_or-some s.players seat p h in
      let taken = take_reserve-Took s p (take n p.reserve) h in
      rw (players, board, own, taken.board) (omega (arith, paid-total m s p n h))

  spend-total :
      (s : TextState) (p : TextPlayer) (c : TextCopy) (owner : Option ℕ)
      → get_elem? s.players seat ≡ some p
      → 1 ≤ count c.card.copy_id p.hand
      → total id (spend s seat c owner).players + one_if c.card.copy_id id ≡ total id s.players
  unfolding spend set_player set_copy
  spend-total s p c owner h own = omega (
    arith,
    total-modify id (λ q. record q { hand = remove_copy q.hand c.card.copy_id }) s.players seat p h,
    count-remove_copy p.hand c.card.copy_id id own,
  )

  board_ids-append :
      (cards more : List BoardCard) → board_ids (cards ++ more) ≡ board_ids cards ++ board_ids more
  board_ids-append [] more = refl
  board_ids-append (b ∷ cards) more = ap (λ r. b.card.copy_id ∷ r) (board_ids-append cards more)

  -- When a card of the hand is put on the board as a response or a placed card, every card is as
  -- often in the hands, in the reserves and on the board as before.
  pub put_down-census :
      (s : TextState) (p : TextPlayer) (c : TextCopy) (kind : EventKind) (rating : Option ℕ)
      (now : ℕ)
      → get_elem? s.players seat ≡ some p
      → 1 ≤ count c.card.copy_id p.hand
      → census (put_down s seat c kind rating now) id ≡ census s id
  unfolding put_down event bump_revision spend set_copy set_player
  put_down-census s p c kind rating now h own = omega (
    arith,
    spend-total s p c none h own,
    ap (λ r. count id r) (board_ids-append s.board.cards _),
    count-append id (board_ids s.board.cards) (c.card.copy_id ∷ []),
    count_one id c.card.copy_id,
  )
