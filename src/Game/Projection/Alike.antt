-- ===== src/Game/Projection/Alike.antt =====
-- When two matches look the same to a seat: what the projections of
-- server/internal/game/text_snapshot.go may depend on.
use knowoff.Prelude.{
  ℕ, ◌-◌, ◌<◌, ◌≡◌, Bool, true, false, Option, none, some, List, [], ◌∷◌, length, get_elem?, map,
  take,
}
use knowoff.Contract.{Phase, Card, Role, BallotResult}
use knowoff.Game.State.{TextState, TextPlayer, TextMatch, copy_at, player_at}
use knowoff.Game.Projection.{veiled}

-- What everybody may know of a player.
pub record PublicAlike (p q : TextPlayer) : Type 0 where
  pub connected : p.connected ≡ q.connected
  pub eliminated : p.eliminated ≡ q.eliminated
  pub role : p.eliminated ≡ true → p.role ≡ q.role

abbrev pub AllAlike : List TextPlayer → List TextPlayer → Type 0
AllAlike [] [] = Unit
AllAlike (p ∷ ps) (q ∷ qs) = PublicAlike p q × AllAlike ps qs
AllAlike _ _ = ⊥

abbrev pub hand_cards : TextState → ℕ → List Card
hand_cards s seat = map (λ id. (copy_at s id).card) (player_at s seat).hand

-- What a seat knows of itself: the cards of its hand, but of its reserve only the number.
pub record OwnAlike (s t : TextState) (seat now : ℕ) : Type 0 where
  pub role : (player_at s seat).role ≡ (player_at t seat).role
  pub connected : (player_at s seat).connected ≡ (player_at t seat).connected
  pub eliminated : (player_at s seat).eliminated ≡ (player_at t seat).eliminated
  pub points : veiled s now ≡ false → (player_at s seat).points ≡ (player_at t seat).points
  pub points_before :
      veiled s now ≡ true
      → (player_at s seat).points_before_result ≡ (player_at t seat).points_before_result
  pub specialty :
      (player_at s seat).eliminated ≡ false
      → (player_at s seat).specialty ≡ (player_at t seat).specialty
  pub free_draws :
      (player_at s seat).eliminated ≡ false
      → (player_at s seat).free_draws ≡ (player_at t seat).free_draws
  pub reveal_used :
      (player_at s seat).eliminated ≡ false
      → (player_at s seat).reveal_used ≡ (player_at t seat).reveal_used
  pub reveal_until :
      (player_at s seat).eliminated ≡ false
      → (player_at s seat).reveal_until ≡ (player_at t seat).reveal_until
  pub hand : (player_at s seat).eliminated ≡ false → hand_cards s seat ≡ hand_cards t seat
  pub reserve :
      (player_at s seat).eliminated ≡ false
      → length (player_at s seat).reserve ≡ length (player_at t seat).reserve

-- The role of a called ballot is known only once it has been revealed.
abbrev pub ResultAlike : Bool → Option BallotResult → Option BallotResult → Type 0
ResultAlike hidden none none = Unit
ResultAlike hidden (some a) (some b) =
    (a.outcome ≡ b.outcome)
    × (a.seat ≡ b.seat)
    × (hidden ≡ false → a.revealed_role ≡ b.revealed_role)
ResultAlike hidden _ _ = ⊥

-- What is open to all at the table.
pub record TableAlike (s t : TextState) (now : ℕ) : Type 0 where
  pub round : s.round ≡ t.round
  pub turn : s.turn ≡ t.turn
  pub order : s.order ≡ t.order
  pub phase : s.phase ≡ t.phase
  pub phase_id : s.phase_id ≡ t.phase_id
  pub phase_serial : s.phase_serial ≡ t.phase_serial
  pub deadline : s.deadline ≡ t.deadline
  pub result_reveal_at : s.result_reveal_at ≡ t.result_reveal_at
  pub board : s.board ≡ t.board
  pub history : s.history ≡ t.history
  pub pending_offer : s.pending_offer ≡ t.pending_offer
  pub reveal_target : s.reveal_target ≡ t.reveal_target
  pub shuffle_used : s.shuffle_used ≡ t.shuffle_used
  pub revote_used : s.revote_used ≡ t.revote_used
  pub ready : s.ready ≡ t.ready
  pub votes : s.votes ≡ t.votes
  pub ballot_kind : s.ballot_kind ≡ t.ballot_kind
  pub candidates : s.candidates ≡ t.candidates
  pub ballot_result : ResultAlike (veiled s now) s.ballot_result t.ballot_result
  pub result : s.phase ≡ Phase.verdict → s.result ≡ t.result
  pub players : AllAlike s.players t.players

-- Two matches that a seat need not tell apart at a time: what it may know is the same in both. The
-- cards of a reveal are known to who is looking at them, the prompt of the round to a nower who is
-- in, and the prompts of all rounds to everybody at the end.
pub record ViewAlike (m m' : TextMatch) (s t : TextState) (seat now : ℕ) : Type 0 where
  pub mode : m.mode_id ≡ m'.mode_id
  pub timers : m.timers ≡ m'.timers
  pub table : TableAlike s t now
  pub own : OwnAlike s t seat now
  pub reveal_cards :
      (player_at s seat).eliminated ≡ false
      → now < (player_at s seat).reveal_until
      → s.reveal_cards ≡ t.reveal_cards
  pub prompt :
      (player_at s seat).role ≡ Role.nower
      → (player_at s seat).eliminated ≡ false
      → get_elem? m.nowns (s.round - 1) ≡ get_elem? m'.nowns (s.round - 1)
  pub prompts : s.phase ≡ Phase.verdict → take s.round m.nowns ≡ take s.round m'.nowns
