-- ===== src/Game/Conservation/Conserved.antt =====
-- What an accepted state says of its cards: each has one place, the one that the registry names.
use knowoff.Prelude.{
  ℕ, ◌+◌, ◌<◌, ◌≤◌, ◌≡◌, ◌≢◌, refl, sym, ◌∙◌, Bool, true, false, Option, none, some, List, [], ◌∷◌,
  ◌==◌, arith, ◌⊎◌, inl, inr, Bool-cases, Option-cases, elem, count, lookup,
}
use knowoff.Contract.{BoardCard}
use knowoff.Contract.Snapshot.{Snapshot}
use knowoff.Game.State.{TextState, TextCopy, TextMatch, Zone, GameError, player_at}
use knowoff.Game.Conservation.{
  stands, check_copy, check_players, board_owner, check_board, copy_fits, check_registry, all_met,
  registry_fits, validate_state, zone_rank,
}
use knowoff.Game.Conservation.Places.{
  held_ids, board_ids, placed_ids, elem-count_zero, elem-count_pos, count-elem_pos, elem-append,
  Meets, Meets-none, Meets-append, check_copy-some, check_copy-Meets, and_then-some,
}
use knowoff.Game.Conservation.Located.{
  check_players-Meets, check_players-hand, check_players-reserve, held_by,
}

module _ (m : TextMatch) (s : TextState) where
  check_board-Meets :
      (bs : List BoardCard) (seen met : List ℕ)
      → check_board m s bs seen ≡ some met
      → Meets (board_ids bs) seen met
  check_board-Meets [] seen met h =
      let same : seen ≡ met = unfold check_board in cc in rw (← same) (Meets-none seen)
  check_board-Meets (b ∷ bs) seen met h =
      let (between, first, rest) =
        and_then-some s (check_copy s Zone.on_board (board_owner m b) seen b.card.copy_id)
          (check_board m s bs) met (unfold check_board in h) in
      Meets-append (b.card.copy_id ∷ []) (board_ids bs) seen between met
        (check_copy-Meets s Zone.on_board (board_owner m b) seen between b.card.copy_id first)
        (check_board-Meets bs between met rest)

  -- A card of the board stands on the board.
  check_board-stands :
      (bs : List BoardCard) (seen met : List ℕ)
      → check_board m s bs seen ≡ some met
      → (x : ℕ) → elem x (board_ids bs) ≡ true
      → (owner : Option ℕ) × (stands (lookup x s.copies) Zone.on_board owner ≡ true)
  check_board-stands [] seen met h x e = absurd (ground arith)
  check_board-stands (b ∷ bs) seen met h x e =
      let (between, first, rest) =
        and_then-some s (check_copy s Zone.on_board (board_owner m b) seen b.card.copy_id)
          (check_board m s bs) met (unfold check_board in h) in
      let c = check_copy-some s Zone.on_board (board_owner m b) seen between b.card.copy_id first in
      elim (Bool-cases (b.card.copy_id == x)) [
        | inl same ↦
            let e' : b.card.copy_id ≡ x = ground arith in (board_owner m b, rw (← e') (c.1))
        | inr other ↦ check_board-stands bs between met rest x (ground arith)
      ]

  -- Every entry of the registry has been checked.
  check_registry-fits :
      (seen : List ℕ) (copies : List (ℕ × TextCopy)) {n : ℕ}
      → check_registry m s seen copies ≡ some n
      → (id : ℕ) (c : TextCopy) → lookup id copies ≡ some c
      → copy_fits m s seen id c ≡ true
  unfolding check_registry lookup
  check_registry-fits seen [] h id c e = absurd (ground arith)
  check_registry-fits seen ((key, entry) ∷ rest) h id c e =
      elim (Option-cases (check_registry m s seen rest)) [
        | inl bad ↦ absurd (ground arith)
        | inr (n, good) ↦ ground (arith, check_registry-fits seen rest good id c)
      ]

  record AllMet (met : List ℕ) : Type 0 where
    after_players : List ℕ
    players : check_players s 0 s.players [] ≡ some after_players
    board : check_board m s s.board.cards after_players ≡ some met
    reserved : ℕ
    registry : check_registry m s met s.copies ≡ some reserved

  registry_fits-some :
      (found : Option (List ℕ))
      → registry_fits m s found ≡ true
      → (met : List ℕ) × (found ≡ some met) × ((n : ℕ) × (check_registry m s met s.copies ≡ some n))
  registry_fits-some none h = absurd (ground arith)
  registry_fits-some (some met) h = elim (Option-cases (check_registry m s met s.copies)) [
    | inl bad ↦ absurd (ground arith)
    | inr good ↦ (met, refl, good)
  ]

  validate_state-registry :
      (snapshot_error : Snapshot → Option GameError) (moderates : Bool) (now : ℕ)
      → validate_state snapshot_error moderates m s now ≡ none
      → registry_fits m s (all_met m s) ≡ true
  unfolding validate_state
  validate_state-registry snapshot_error moderates now h = ground arith

  validate_state-AllMet :
      (snapshot_error : Snapshot → Option GameError) (moderates : Bool) (now : ℕ)
      → validate_state snapshot_error moderates m s now ≡ none
      → (met : List ℕ) × AllMet met
  validate_state-AllMet snapshot_error moderates now h =
      let (met, found, registry) =
        registry_fits-some (all_met m s) (validate_state-registry snapshot_error moderates now h) in
      let (after_players, players, board) =
        and_then-some s (check_players s 0 s.players []) (check_board m s s.board.cards) met
          found in
      (
        met,
        record {
          after_players = after_players;
          players = players;
          board = board;
          reserved = registry.0;
          registry = registry.1;
        },
      )

  check-Meets : {met : List ℕ} → AllMet met → Meets (placed_ids s) [] met
  check-Meets {met} a =
      Meets-append (held_ids s.players) (board_ids s.board.cards) [] a.after_players met
        (check_players-Meets s 0 s.players [] a.after_players a.players)
        (check_board-Meets s.board.cards a.after_players met a.board)

  -- A state whose cards are in order. `count` says how often an id stands in the hands, in the
  -- reserves and on the board together.
  pub record Conserved : Type 0 where
    pub spent :
        (id : ℕ) (c : TextCopy)
        → lookup id s.copies ≡ some c
        → c.zone ≡ Zone.spent
        → count id (placed_ids s) ≡ 0
    pub one_place :
        (id : ℕ) (c : TextCopy)
        → lookup id s.copies ≡ some c
        → c.zone ≢ Zone.spent
        → count id (placed_ids s) ≡ 1
    pub at_most_once : (id : ℕ) → count id (placed_ids s) ≤ 1
    pub in_hand :
        (seat id : ℕ)
        → elem id (player_at s seat).hand ≡ true
        → stands (lookup id s.copies) Zone.in_hand (some seat) ≡ true
    pub in_reserve :
        (seat id : ℕ)
        → elem id (player_at s seat).reserve ≡ true
        → stands (lookup id s.copies) Zone.in_reserve (some seat) ≡ true
    pub holds :
        (id seat : ℕ)
        → stands (lookup id s.copies) Zone.in_hand (some seat) ≡ true
        → elem id (player_at s seat).hand ≡ true

  met_zero : {met : List ℕ} → AllMet met → (x : ℕ) → count x met ≡ count x (placed_ids s)
  unfolding count
  met_zero a x = omega (arith, (check-Meets a).counts x)

  zone-spent : (z : Zone) → z ≢ Zone.spent → (zone_rank z == zone_rank Zone.spent) ≡ false
  zone-spent Zone.no_zone n = refl
  zone-spent Zone.in_hand n = refl
  zone-spent Zone.in_reserve n = refl
  zone-spent Zone.on_board n = refl
  zone-spent Zone.spent n = absurd (n refl)

  met_when_spent :
      (met : List ℕ) (id : ℕ) (c : TextCopy)
      → copy_fits m s met id c ≡ true
      → c.zone ≡ Zone.spent
      → elem id met ≡ false
  unfolding copy_fits
  met_when_spent met id c h z = ground arith

  met_when_placed :
      (met : List ℕ) (id : ℕ) (c : TextCopy)
      → copy_fits m s met id c ≡ true
      → c.zone ≢ Zone.spent
      → elem id met ≡ true
  unfolding copy_fits
  met_when_placed met id c h z = ground (arith, zone-spent c.zone z)

  stands_once :
      (c : Option TextCopy) (k seat : ℕ)
      → stands c Zone.in_hand (some k) ≡ true
      → stands c Zone.in_hand (some seat) ≡ true
      → k ≡ seat
  stands_once none k seat a b = absurd (ground arith)
  stands_once (some c) k seat a b = elim (Option-cases c.owner) [
    | inl nobody ↦ absurd (ground arith)
    | inr (owner, e) ↦ ground arith
  ]

  stands_apart :
      (c : Option TextCopy) (zone : Zone) (owner seat : Option ℕ)
      → (zone_rank Zone.in_hand == zone_rank zone) ≡ false
      → stands c zone owner ≡ true
      → stands c Zone.in_hand seat ≡ true
      → ⊥
  stands_apart none zone owner seat d a b = ground arith
  stands_apart (some c) zone owner seat d a b = ground arith

  -- A copy that stands in a hand has a place, so it is in that hand.
  hand_of :
      {met : List ℕ}
      → AllMet met
      → (id seat : ℕ) → elem id (placed_ids s) ≡ true
      → stands (lookup id s.copies) Zone.in_hand (some seat) ≡ true
      → elem id (player_at s seat).hand ≡ true
  hand_of {met} a id seat placed stood = elim (Bool-cases (elem id (held_ids s.players))) [
    | inr off ↦
        let board =
          check_board-stands s.board.cards a.after_players met a.board id
            (ground (arith, elem-append id (held_ids s.players) (board_ids s.board.cards))) in
        absurd
          (stands_apart (lookup id s.copies) Zone.on_board board.0 (some seat) refl board.1 stood)
    | inl held ↦ let h = held_by id s.players held in holder a id seat h.0 stood h.1
  ]
    where
      holder :
          AllMet met
          → (id seat k : ℕ) → stands (lookup id s.copies) Zone.in_hand (some seat) ≡ true
          → (elem id (player_at s k).hand ≡ true) ⊎ (elem id (player_at s k).reserve ≡ true)
          → elem id (player_at s seat).hand ≡ true
      holder a id seat k stood (inl hand) =
          let there = check_players-hand s 0 k s.players [] a.after_players a.players id hand in
          let none_added : 0 + k ≡ k = omega arith in
          let same : k ≡ seat =
            stands_once (lookup id s.copies) k seat (rw none_added at there) stood in
          rw (← same) hand
      holder a id seat k stood (inr reserve) =
          let there =
            check_players-reserve s 0 k s.players [] a.after_players a.players id reserve in
          absurd (
            stands_apart (lookup id s.copies) Zone.in_reserve (some (0 + k)) (some seat) refl there
              stood)

  placed_once : {met : List ℕ} → AllMet met → (x : ℕ) → count x (placed_ids s) ≤ 1
  placed_once a x =
      omega (arith, met_zero a x, (check-Meets a).once (λ y. unfold count in omega arith) x)

  spent_nowhere :
      {met : List ℕ}
      → AllMet met
      → (id : ℕ) (c : TextCopy) → lookup id s.copies ≡ some c
      → c.zone ≡ Zone.spent
      → count id (placed_ids s) ≡ 0
  spent_nowhere {met} a id c e z =
      let off = met_when_spent met id c (check_registry-fits met s.copies a.registry id c e) z in
      sym (met_zero a id) ∙ elem-count_zero id met off

  placed_somewhere :
      {met : List ℕ}
      → AllMet met
      → (id : ℕ) (c : TextCopy) → lookup id s.copies ≡ some c
      → c.zone ≢ Zone.spent
      → 0 < count id (placed_ids s)
  placed_somewhere {met} a id c e z =
      let on = met_when_placed met id c (check_registry-fits met s.copies a.registry id c e) z in
      omega (arith, met_zero a id, elem-count_pos id met on)

  stands-in_hand :
      (found : Option TextCopy) (owner : Option ℕ)
      → stands found Zone.in_hand owner ≡ true
      → (c : TextCopy) × (found ≡ some c) × (c.zone ≢ Zone.spent)
  stands-in_hand none owner h = absurd (ground arith)
  stands-in_hand (some c) owner h = (c, refl, λ z. ground arith)

  -- If the state is accepted, every copy of the registry that is not spent stands exactly once in
  -- the hands, in the reserves and on the board together, and a spent one nowhere; no id stands
  -- twice; a card of a hand or of a reserve is one that the registry places there for that seat; and a
  -- card that the registry places in a seat's hand is in it.
  pub validate_state-Conserved :
      (snapshot_error : Snapshot → Option GameError) (moderates : Bool) (now : ℕ)
      → validate_state snapshot_error moderates m s now ≡ none
      → Conserved
  validate_state-Conserved snapshot_error moderates now h =
      let (met, a) = validate_state-AllMet snapshot_error moderates now h in
      record {
        spent = spent_nowhere a;
        one_place = λ id c e z. omega (arith, placed_once a id, placed_somewhere a id c e z);
        at_most_once = placed_once a;
        in_hand = λ seat id e.
            let there = check_players-hand s 0 seat s.players [] a.after_players a.players id e in
            let start : 0 + seat ≡ seat = omega arith in rw start at there;
        in_reserve = λ seat id e.
            let there =
              check_players-reserve s 0 seat s.players [] a.after_players a.players id e in
            let start : 0 + seat ≡ seat = omega arith in rw start at there;
        holds = λ id seat e.
            let (c, found, alive) = stands-in_hand (lookup id s.copies) (some seat) e in
            hand_of a id seat
              (count-elem_pos id (placed_ids s) (placed_somewhere a id c found alive)) e;
      }
