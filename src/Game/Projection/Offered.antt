-- ===== src/Game/Projection/Offered.antt =====
-- The actions that a snapshot offers pass the checks that Snapshot.Validate makes of them.
use knowoff.Prelude.{
  ℕ, ◌<◌, ◌≡◌, Bool, true, false, ◌&&◌, ◌||◌, none, some, List, [], length, not, if◌then◌else◌,
  arith, inl, inr, Bool-cases, all,
}
use mathlib.Core.Path.{fun_ext}
use knowoff.Contract.{ModeId, Phase}
use knowoff.Contract.Snapshot.{
  ActionKind, capability, kind_fits, wants_turn, is_current, no_seat, capability_fits,
  capabilities_valid,
}
use knowoff.Game.State.{TextState, TextPlayer, TextMatch, player_at, is_nower, is_donower}
use knowoff.Game.Turns.{current}
use knowoff.Game.Specialty.{on_turn}
use knowoff.Game.Projection.{
  project, private_state, capabilities, held_capability, phase_capabilities, under_way, target_in,
  mode_kind, has_current, votes_now, is_shuffle_card, is_revote_card,
}
use knowoff.Game.Projection.Capabilities.{
  all-append, recipient_lem, all-with_extras, distinct-capabilities, turn_part,
}

mode_kind-capability : (mode : ModeId) → capability (mode_kind mode) mode Phase.play ≡ true
unfolding capability
mode_kind-capability mode = ground arith

-- The checks of one kind at a recipient who is in and connected.
module _ (moderates : Bool) (m : TextMatch) (s : TextState) (p : TextPlayer) (seat now : ℕ)
    (still : p.eliminated ≡ false) where
  abbrev fits : ActionKind → Bool
  fits k =
      capability k m.mode_id s.phase
      && (kind_fits (private_state moderates m s p seat now)
            (if under_way s.phase then s.reveal_target else none) k
          && (not (wants_turn k)
              || is_current (if has_current s.phase then some (current s) else none) seat))

  fits_chat : (moderates && under_way s.phase) ≡ true → fits ActionKind.chat_kind ≡ true
  unfolding capability kind_fits
  fits_chat h = ground arith

  fits_view :
      (target_in s s.reveal_target && (not p.reveal_used && under_way s.phase)) ≡ true
      → fits ActionKind.view_reveal_kind ≡ true
  unfolding capability kind_fits
  fits_view h = ground arith

  fits_shuffle :
      (is_shuffle_card p.specialty
          && (is_donower p.role && (not s.shuffle_used && has_current s.phase)))
        ≡ true
      → fits ActionKind.shuffle_kind ≡ true
  unfolding capability kind_fits private_state
  fits_shuffle h = ground arith

  fits_revote :
      (is_revote_card p.specialty && (is_nower p.role && (not s.revote_used && votes_now s.phase)))
        ≡ true
      → fits ActionKind.revote_kind ≡ true
  unfolding capability kind_fits private_state
  fits_revote h = ground arith

  all-held : all fits (if on_turn s seat then held_capability m s p now else []) ≡ true
  unfolding capability kind_fits private_state held_capability
  all-held = ground arith

  all-phase :
      (s.phase ≡ Phase.trade_response → m.mode_id ≡ ModeId.bad_bargains)
      → all fits (phase_capabilities m s p seat) ≡ true
  unfolding capability kind_fits private_state phase_capabilities
  all-phase trades = ground (arith, mode_kind-capability m.mode_id, trades)

  all-fits :
      (s.phase ≡ Phase.trade_response → m.mode_id ≡ ModeId.bad_bargains)
      → all fits (capabilities moderates m s p seat now) ≡ true
  unfolding capabilities
  all-fits trades = elim (Bool-cases (p.connected && not p.eliminated)) [
    | inr gone ↦ rw gone
    | inl in_game ↦ rw in_game (
        all-with_extras fits (moderates && under_way s.phase)
          (target_in s s.reveal_target && (not p.reveal_used && under_way s.phase))
          (is_shuffle_card p.specialty
            && (is_donower p.role && (not s.shuffle_used && has_current s.phase)))
          (is_revote_card p.specialty
            && (is_nower p.role && (not s.revote_used && votes_now s.phase)))
          (turn_part m s p seat now) fits_chat fits_view fits_shuffle fits_revote
          (all-append fits (if on_turn s seat then held_capability m s p now else [])
            (phase_capabilities m s p seat) all-held (all-phase trades)))
  ]

all-same :
    (p q : ActionKind → Bool) (ks : List ActionKind)
    → ((k : ActionKind) → p k ≡ q k)
    → all p ks ≡ true
    → all q ks ≡ true
all-same p q ks e h = rw (← fun_ext e) h

-- A seat that is gone is offered nothing.
none_offered :
    (moderates : Bool) (m : TextMatch) (s : TextState) (p : TextPlayer) (seat now : ℕ)
    → (p.connected && not p.eliminated) ≡ false
    → capabilities moderates m s p seat now ≡ []
unfolding capabilities
none_offered moderates m s p seat now h = rw h

projected_fits :
    (moderates : Bool) (m : TextMatch) (s : TextState) (seat now : ℕ) (k : ActionKind)
    → seat < length s.players
    → (still : (player_at s seat).eliminated ≡ false) → (player_at s seat).connected ≡ true
    → fits moderates m s (player_at s seat) seat now still k
      ≡ capability_fits m.mode_id (project moderates m s seat now) k
unfolding project capability_fits private_state
projected_fits moderates m s seat now k h still here =
    ground (arith, recipient_lem 0 seat s.players no_seat h)

offered_fits :
    (moderates : Bool) (m : TextMatch) (s : TextState) (seat now : ℕ)
    → seat < length s.players
    → (s.phase ≡ Phase.trade_response → m.mode_id ≡ ModeId.bad_bargains)
    → all
        (capability_fits m.mode_id (project moderates m s seat now))
        (capabilities moderates m s (player_at s seat) seat now)
      ≡ true
offered_fits moderates m s seat now h trades =
    elim (Bool-cases ((player_at s seat).connected && not (player_at s seat).eliminated)) [
      | inr gone ↦ rw (none_offered moderates m s (player_at s seat) seat now gone)
      | inl in_game ↦
          let still : (player_at s seat).eliminated ≡ false = ground arith in
          let here : (player_at s seat).connected ≡ true = ground arith in
          all-same (fits moderates m s (player_at s seat) seat now still)
            (capability_fits m.mode_id (project moderates m s seat now))
            (capabilities moderates m s (player_at s seat) seat now)
            (λ k. projected_fits moderates m s seat now k h still here)
            (all-fits moderates m s (player_at s seat) seat now still trades)
    ]

valid_parts :
    (moderates : Bool) (m : TextMatch) (s : TextState) (seat now : ℕ)
    → all
        (capability_fits m.mode_id (project moderates m s seat now))
        (capabilities moderates m s (player_at s seat) seat now)
      ≡ true
    → capabilities_valid m.mode_id (project moderates m s seat now) ≡ true
unfolding capabilities_valid project private_state
valid_parts moderates m s seat now h =
    rw (h, distinct-capabilities m s (player_at s seat) seat now moderates)

-- In a state in which no answer to a trade is awaited, or whose mode is Bad Bargains, what a seat of
-- the table is offered passes the checks that are made of a snapshot before it is sent: each kind
-- fits the mode and the phase, the seat's card and role, its reserve and its draws, and the seat on
-- turn; a seat that is out or gone is offered nothing, and nothing is offered twice.
pub project-capabilities_valid :
    (moderates : Bool) (m : TextMatch) (s : TextState) (seat now : ℕ)
    → seat < length s.players
    → (s.phase ≡ Phase.trade_response → m.mode_id ≡ ModeId.bad_bargains)
    → capabilities_valid m.mode_id (project moderates m s seat now) ≡ true
project-capabilities_valid moderates m s seat now h trades =
    valid_parts moderates m s seat now (offered_fits moderates m s seat now h trades)
