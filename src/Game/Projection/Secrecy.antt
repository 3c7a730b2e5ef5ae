-- ===== src/Game/Projection/Secrecy.antt =====
-- What a seat is shown does not depend on what is hidden from it.
use knowoff.Prelude.{
  ℕ, zero, suc, ◌≡◌, refl, sym, ap, ◌∙◌, Bool, true, false, ◌&&◌, Option, none, some, List, [], ◌∷◌,
  length, get_or, map, not, ltb, if◌then◌else◌, arith, inl, inr, Bool-cases, seats_where, ltb→lt,
}
use knowoff.Prelude.Int.{pos_part}
use knowoff.Contract.{Phase, Role, BallotResult}
use knowoff.Game.Clock.{is_verdict}
use knowoff.Game.State.{TextState, TextPlayer, TextMatch, copy_at, player_at, zero_player}
use knowoff.Game.Turns.{current}
use knowoff.Game.Projection.{
  project, private_state, capabilities, held_capability, phase_capabilities, public_seats,
  public_seat, ready_seats, votes_cast_from, shown_result, shown_reveal, shown_ballot, veiled,
  target_in,
}
use knowoff.Game.Projection.Alike.{PublicAlike, AllAlike, ResultAlike, ViewAlike}

AllAlike-at :
    (ps qs : List TextPlayer) (i : ℕ)
    → AllAlike ps qs
    → PublicAlike (get_or ps i zero_player) (get_or qs i zero_player)
AllAlike-at [] [] i a = record { connected = refl; eliminated = refl; role = λ h. refl }
AllAlike-at [] (q ∷ qs) i a = absurd a
AllAlike-at (p ∷ ps) [] i a = absurd a
AllAlike-at (p ∷ ps) (q ∷ qs) zero a = a.0
AllAlike-at (p ∷ ps) (q ∷ qs) (suc i) a = AllAlike-at ps qs i a.1

public_seat-PublicAlike :
    (i : ℕ) (p q : TextPlayer) → PublicAlike p q → public_seat i p ≡ public_seat i q
public_seat-PublicAlike i p q a = elim (Bool-cases p.eliminated) [
  | inl out ↦ ground (arith, a.role out)
  | inr still ↦ ground arith
]

public_seats-AllAlike :
    (i : ℕ) (ps qs : List TextPlayer) → AllAlike ps qs → public_seats i ps ≡ public_seats i qs
unfolding public_seats
public_seats-AllAlike i [] [] a = refl
public_seats-AllAlike i [] (q ∷ qs) a = absurd a
public_seats-AllAlike i (p ∷ ps) [] a = absurd a
public_seats-AllAlike i (p ∷ ps) (q ∷ qs) a =
    rw (public_seat-PublicAlike i p q a.0, public_seats-AllAlike (suc i) ps qs a.1)

ready-AllAlike :
    (ready : ℕ → Bool) (i : ℕ) (ps qs : List TextPlayer)
    → AllAlike ps qs
    → seats_where (λ k p. ready k && (not p.eliminated && p.connected)) i ps
      ≡ seats_where (λ k p. ready k && (not p.eliminated && p.connected)) i qs
ready-AllAlike ready i [] [] a = refl
ready-AllAlike ready i [] (q ∷ qs) a = absurd a
ready-AllAlike ready i (p ∷ ps) [] a = absurd a
ready-AllAlike ready i (p ∷ ps) (q ∷ qs) a =
    ground (arith, ready-AllAlike ready (suc i) ps qs a.1, a.0.connected, a.0.eliminated)

votes_cast-AllAlike :
    (votes : ℕ → Option ℕ) (i : ℕ) (ps qs : List TextPlayer)
    → AllAlike ps qs
    → votes_cast_from votes i ps ≡ votes_cast_from votes i qs
unfolding votes_cast_from
votes_cast-AllAlike votes i [] [] a = refl
votes_cast-AllAlike votes i [] (q ∷ qs) a = absurd a
votes_cast-AllAlike votes i (p ∷ ps) [] a = absurd a
votes_cast-AllAlike votes i (p ∷ ps) (q ∷ qs) a =
    ground (arith, votes_cast-AllAlike votes (suc i) ps qs a.1)

shown_result-ResultAlike :
    (hidden : Bool) (a b : Option BallotResult)
    → ResultAlike hidden a b
    → shown_result hidden a ≡ shown_result hidden b
shown_result-ResultAlike hidden none none h = refl
shown_result-ResultAlike hidden none (some b) h = absurd h
shown_result-ResultAlike hidden (some a) none h = absurd h
shown_result-ResultAlike true (some a) (some b) h = ground arith
shown_result-ResultAlike false (some a) (some b) h = ground (arith, h.2 refl)

is_verdict-eq : (phase : Phase) → is_verdict phase ≡ true → phase ≡ Phase.verdict
is_verdict-eq phase h = ground arith

length-map_card :
    (s : TextState) (ids : List ℕ) → length (map (λ id. (copy_at s id).card) ids) ≡ length ids
length-map_card s [] = refl
length-map_card s (id ∷ ids) = ap suc (length-map_card s ids)

module _ (m m' : TextMatch) (s t : TextState) (seat now : ℕ) (v : ViewAlike m m' s t seat now) where
  open v use {table, own}

  hand_length :
      (player_at s seat).eliminated ≡ false
      → length (player_at s seat).hand ≡ length (player_at t seat).hand
  hand_length still =
      sym (length-map_card s (player_at s seat).hand)
      ∙ ap length (own.hand still)
      ∙ length-map_card t (player_at t seat).hand

  current_alike : current s ≡ current t
  unfolding current
  current_alike = ground (arith, table.turn, table.order)

  target_alike : (k : ℕ) → (player_at s k).eliminated ≡ (player_at t k).eliminated
  target_alike k = (AllAlike-at s.players t.players k table.players).eliminated

  held_alike :
      (player_at s seat).eliminated ≡ false
      → held_capability m s (player_at s seat) now ≡ held_capability m' t (player_at t seat) now
  unfolding held_capability
  held_alike still =
      ground (arith, v.timers, own.specialty still, own.reserve still, own.free_draws still)

  phase_alike :
      (player_at s seat).eliminated ≡ false
      → phase_capabilities m s (player_at s seat) seat
        ≡ phase_capabilities m' t (player_at t seat) seat
  unfolding phase_capabilities
  phase_alike still =
      ground
        (arith, v.mode, own.reserve still, own.free_draws still, hand_length still, current_alike)

  in_alike : (o : Option ℕ) → target_in s o ≡ target_in t o
  in_alike none = refl
  in_alike (some k) = rw (target_alike k)

  target_in_alike : target_in s s.reveal_target ≡ target_in t t.reveal_target
  target_in_alike = in_alike s.reveal_target ∙ ap (target_in t) table.reveal_target

  shown_reveal_alike : shown_reveal s (player_at s seat) now ≡ shown_reveal t (player_at t seat) now
  unfolding shown_reveal
  shown_reveal_alike = elim (Bool-cases (player_at s seat).eliminated) [
    | inl out ↦ ground (arith, own.eliminated)
    | inr still ↦ elim (Bool-cases (ltb now (player_at s seat).reveal_until)) [
      | inl open_view ↦ ground (
        arith,
        target_in_alike,
        own.connected,
        own.reveal_until still,
        v.reveal_cards still (omega (arith, ltb→lt now (player_at s seat).reveal_until open_view)),
      )
      | inr shut ↦ ground (arith, own.reveal_until still)
    ]
  ]

  capabilities_alike :
      (moderates : Bool)
      → capabilities moderates m s (player_at s seat) seat now
        ≡ capabilities moderates m' t (player_at t seat) seat now
  unfolding capabilities
  capabilities_alike moderates = elim (Bool-cases (player_at s seat).eliminated) [
    | inl out ↦ ground (arith, own.eliminated)
    | inr still ↦ ground (
      arith,
      own.connected,
      own.eliminated,
      own.role,
      own.specialty still,
      own.reveal_used still,
      target_in_alike,
      held_alike still,
      phase_alike still,
      current_alike,
    )
  ]

  veiled_alike : veiled s now ≡ veiled t now
  veiled_alike = ground (arith, table.phase, table.result_reveal_at)

  points_alike :
      pos_part (
        if veiled s now then (player_at s seat).points_before_result else (player_at s seat).points)
      ≡ pos_part (
          if veiled t now
          then (player_at t seat).points_before_result
          else (player_at t seat).points)
  points_alike = elim (Bool-cases (veiled s now)) [
    | inl hidden ↦ rw (sym veiled_alike ∙ hidden, hidden, own.points_before hidden)
    | inr seen ↦ rw (sym veiled_alike ∙ seen, seen, own.points seen)
  ]

  private_state_alike :
      (moderates : Bool)
      → private_state moderates m s (player_at s seat) seat now
        ≡ private_state moderates m' t (player_at t seat) seat now
  unfolding private_state
  private_state_alike moderates = elim (Bool-cases (player_at s seat).eliminated) [
    | inl out ↦ ground (
      arith,
      own.eliminated,
      own.role,
      shown_reveal_alike,
      points_alike,
      capabilities_alike moderates,
    )
    | inr still ↦ ground (
      arith,
      own.eliminated,
      own.role,
      own.specialty still,
      own.free_draws still,
      own.hand still,
      own.reserve still,
      shown_reveal_alike,
      points_alike,
      capabilities_alike moderates,
      (λ (h : (player_at s seat).role ≡ Role.nower). v.prompt h still),
    )
  ]

  shown_ballot_alike : shown_ballot s now ≡ shown_ballot t now
  unfolding shown_ballot
  shown_ballot_alike =
      let cast =
        votes_cast-AllAlike s.votes 0 s.players t.players table.players
        ∙ ap (λ vs. votes_cast_from vs 0 t.players) table.votes in
      let result =
        shown_result-ResultAlike (veiled s now) s.ballot_result t.ballot_result table.ballot_result
        ∙ ap (λ h. shown_result h t.ballot_result) veiled_alike in
      ground (arith, cast, result, table.phase, table.ballot_kind, table.candidates)

  ready_seats_alike : ready_seats s ≡ ready_seats t
  unfolding ready_seats
  ready_seats_alike =
      ready-AllAlike s.ready 0 s.players t.players table.players
      ∙ ap
          (λ (ready : ℕ → Bool).
            seats_where (λ k p. ready k && (not p.eliminated && p.connected)) 0 t.players)
          table.ready

  -- Two matches that a seat need not tell apart are shown to it alike: no role of a player who is in,
  -- no role of a ballot not yet revealed, no hand, reserve, specialty, score or free draw of another
  -- seat, no card of its own reserve, no prompt that it is not to know, no seed of a later round and
  -- no random seed makes a difference.
  pub project-ViewAlike :
      (moderates : Bool) → project moderates m s seat now ≡ project moderates m' t seat now
  unfolding project
  project-ViewAlike moderates =
      let shown = public_seats-AllAlike 0 s.players t.players table.players in
      elim (Bool-cases (is_verdict s.phase)) [
        | inl over ↦ ground (
          arith,
          shown,
          ready_seats_alike,
          shown_ballot_alike,
          private_state_alike moderates,
          current_alike,
          v.prompts (is_verdict-eq s.phase over),
          table.result (is_verdict-eq s.phase over),
        )
        | inr going ↦ ground (
          arith,
          shown,
          ready_seats_alike,
          shown_ballot_alike,
          private_state_alike moderates,
          current_alike,
        )
      ]
