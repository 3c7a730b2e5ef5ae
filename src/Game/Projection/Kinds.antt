-- ===== src/Game/Projection/Kinds.antt =====
-- What an accepted action says of its kind: the seat was offered it.
use knowoff.Prelude.{ℕ, ◌<◌, ◌≡◌, Bool, true, ◌&&◌, some, List, length, not, arith}
use knowoff.Contract.{Action}
use knowoff.Contract.Snapshot.{ActionKind, capability}
use knowoff.Contract.Requests.Forms.{kind_of}
use knowoff.Game.State.{TextState, TextPlayer, TextMatch, ok, player_at}
use knowoff.Game.Votes.{cast_vote}
use knowoff.Game.Specialty.{
  specialty, turn_specialty, play_reveal, play_free_card, play_shuffle, play_revote, view_reveal,
}
use knowoff.Game.Actions.{turn_action, draw, answer_offer, played_copy}
use knowoff.Game.Projection.{capabilities, held_capability, phase_capabilities}
use knowoff.Game.Projection.Parts.{
  Has, chat_part, view_part, held_part, phase_part, shuffle_part, revote_part,
}

module _ (moderates : Bool) (m : TextMatch) (s t : TextState) (seat now : ℕ)
    (here : ((player_at s seat).connected && not (player_at s seat).eliminated) ≡ true) where
  abbrev pub own : TextPlayer
  own = player_at s seat

  abbrev pub shown : List ActionKind
  shown = capabilities moderates m s own seat now

  pub pass_offered : specialty m s seat Action.pass now ≡ ok t → Has ActionKind.pass_kind shown
  unfolding specialty held_capability
  pass_offered h =
      held_part moderates m s own seat now here ActionKind.pass_kind (ground arith) (ground arith)

  pub reveal_offered :
      (target : ℕ)
      → specialty m s seat (Action.reveal target) now ≡ ok t
      → Has ActionKind.reveal_kind shown
  unfolding specialty held_capability turn_specialty play_reveal
  reveal_offered target h =
      held_part moderates m s own seat now here ActionKind.reveal_kind (ground arith) (ground arith)

  pub free_card_offered :
      specialty m s seat Action.free_card now ≡ ok t → Has ActionKind.free_card_kind shown
  unfolding specialty held_capability turn_specialty play_free_card
  free_card_offered h =
      held_part moderates m s own seat now here ActionKind.free_card_kind (ground arith)
        (ground arith)

  pub view_offered :
      specialty m s seat Action.view_reveal now ≡ ok t
      → capability ActionKind.view_reveal_kind m.mode_id s.phase ≡ true
      → Has ActionKind.view_reveal_kind shown
  unfolding specialty view_reveal capability
  view_offered h c = view_part moderates m s own seat now here (ground arith)

  pub shuffle_offered :
      specialty m s seat Action.shuffle now ≡ ok t
      → capability ActionKind.shuffle_kind m.mode_id s.phase ≡ true
      → Has ActionKind.shuffle_kind shown
  unfolding specialty play_shuffle capability
  shuffle_offered h c = shuffle_part moderates m s own seat now here (ground arith)

  pub revote_offered :
      specialty m s seat Action.revote now ≡ ok t
      → capability ActionKind.revote_kind m.mode_id s.phase ≡ true
      → Has ActionKind.revote_kind shown
  unfolding specialty play_revote capability
  revote_offered h c = revote_part moderates m s own seat now here (ground arith)

  pub draw_offered :
      (count : ℕ)
      → turn_action m s seat (Action.draw count) now ≡ ok t
      → 0 < count
      → Has ActionKind.draw_kind shown
  unfolding turn_action draw phase_capabilities
  draw_offered count h pos =
      phase_part moderates m s own seat now here ActionKind.draw_kind (ground arith)

  pub played_offered :
      (a : Action)
      → turn_action m s seat a now ≡ ok t
      → (id : ℕ) → played_copy a ≡ some id
      → capability (kind_of a) m.mode_id s.phase ≡ true
      → 0 < length own.hand
      → Has (kind_of a) shown
  unfolding turn_action phase_capabilities capability
  played_offered (Action.respond id) h _ e c hand =
      phase_part moderates m s own seat now here ActionKind.respond_kind (ground arith)
  played_offered (Action.place id rating) h _ e c hand =
      phase_part moderates m s own seat now here ActionKind.place_kind (ground arith)
  played_offered (Action.replace id slot) h _ e c hand =
      phase_part moderates m s own seat now here ActionKind.replace_kind (ground arith)
  played_offered (Action.offer id target copy) h _ e c hand =
      phase_part moderates m s own seat now here ActionKind.offer_kind (ground arith)
  played_offered (Action.top id target) h _ e c hand =
      phase_part moderates m s own seat now here ActionKind.top_kind (ground arith)
  played_offered a h id e c hand = absurd (ground arith)

  pub answer_offered :
      (offer : ℕ) (accepts : Bool)
      → answer_offer m s seat offer accepts now ≡ ok t
      → capability ActionKind.resolve_offer_kind m.mode_id s.phase ≡ true
      → Has ActionKind.resolve_offer_kind shown
  unfolding answer_offer capability phase_capabilities
  answer_offered offer accepts h c =
      phase_part moderates m s own seat now here ActionKind.resolve_offer_kind (ground arith)

  pub vote_offered :
      (target : ℕ) → cast_vote s seat target now ≡ ok t → Has ActionKind.vote_kind shown
  unfolding cast_vote phase_capabilities
  vote_offered target h =
      phase_part moderates m s own seat now here ActionKind.vote_kind (ground arith)

  pub poke_offered :
      capability ActionKind.poke_kind m.mode_id s.phase ≡ true → Has ActionKind.poke_kind shown
  unfolding capability phase_capabilities
  poke_offered c = phase_part moderates m s own seat now here ActionKind.poke_kind (ground arith)

  pub ready_offered :
      capability ActionKind.ready_kind m.mode_id s.phase ≡ true → Has ActionKind.ready_kind shown
  unfolding capability phase_capabilities
  ready_offered c = phase_part moderates m s own seat now here ActionKind.ready_kind (ground arith)

  pub chat_offered :
      moderates ≡ true
      → capability ActionKind.chat_kind m.mode_id s.phase ≡ true
      → Has ActionKind.chat_kind shown
  unfolding capability
  chat_offered on c = chat_part moderates m s own seat now here (ground arith)
