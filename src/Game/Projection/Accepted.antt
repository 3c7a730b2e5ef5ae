-- ===== src/Game/Projection/Accepted.antt =====
-- Every action that the match accepts is one that the seat was offered.
use Prim.Native.String.{String}
use knowoff.Prelude.{
  ℕ, ◌<◌, ◌≡◌, refl, Bool, true, false, ◌&&◌, some, List, [], ◌∷◌, length, elem, lookup,
  Option-cases, not, ltb, if◌then◌else◌, arith, inl, inr,
}
use knowoff.Contract.{Action, Limits}
use knowoff.Contract.Snapshot.{capability}
use knowoff.Contract.Requests.Forms.{kind_of, ranges_fit}
use knowoff.Game.State.{
  TextState, TextMatch, TextPending, TextCopy, Zone, Result, ok, err, GameError, player_at, ◌>>=◌,
}
use knowoff.Game.Votes.{cast_vote}
use knowoff.Game.Specialty.{on_turn, specialty}
use knowoff.Game.Actions.{
  act, turn_action, answer_offer, played_copy, updated, play_owned, play_card,
}
use knowoff.Game.Projection.{project, private_state, capabilities}
use knowoff.Game.Offers.{owned}
use knowoff.Game.Conservation.{stands}
use knowoff.Game.Conservation.Conserved.{Conserved}
use knowoff.Game.Projection.Parts.{Has}
use knowoff.Game.Projection.Kinds.{
  pass_offered, reveal_offered, free_card_offered, view_offered, shuffle_offered, revote_offered,
  draw_offered, played_offered, answer_offered, vote_offered, poke_offered, ready_offered,
  chat_offered,
}

drawn_some :
    (language_valid : String → Bool) (l : Limits) (n : ℕ)
    → ranges_fit language_valid l (Action.draw n) ≡ true
    → 0 < n
unfolding ranges_fit
drawn_some language_valid l n h = ground arith

updated-ok :
    (p : TextPending) (r : Result TextState) (q : TextPending)
    → updated p r ≡ ok q
    → (t : TextState) × (r ≡ ok t)
updated-ok p (ok t) q h = (t, refl)
updated-ok p (err e) q h = absurd (ground arith)

abbrev is_chat : Action → Bool
is_chat (Action.chat phrase text locale) = true
is_chat _ = false

-- An action that a request may ask for now: its kind fits the mode and the phase, its numbers are in
-- range, and a chat has a moderator.
pub record Askable (moderates : Bool) (language_valid : String → Bool) (m : TextMatch)
    (s : TextState) (a : Action) : Type 0 where
  pub fits : capability (kind_of a) m.mode_id s.phase ≡ true
  pub ranges : ranges_fit language_valid m.limits a ≡ true
  pub moderated : is_chat a ≡ true → moderates ≡ true

owned-stands :
    (s : TextState) (seat id : ℕ) (c : TextCopy)
    → owned s seat id ≡ ok c
    → stands (lookup id s.copies) Zone.in_hand (some seat) ≡ true
unfolding owned
owned-stands s seat id c h = elim (Option-cases (lookup id s.copies)) [
  | inl missing ↦ absurd (ground arith)
  | inr (found, e) ↦ elim (Option-cases found.owner) [
    | inl nobody ↦ absurd (ground arith)
    | inr (owner, e') ↦ ground arith
  ]
]

bound :
    {A : Type 0} (r : Result TextCopy) (f : TextCopy → Result A) (t : A)
    → (r >>= f) ≡ ok t
    → (c : TextCopy) × (r ≡ ok c)
bound (ok c) f t h = (c, refl)
bound (err e) f t h = absurd (ground arith)

after_tests :
    (on busy : Bool) (r : Result TextState) (t : TextState)
    → (if on
        then (if busy then err GameError.invalid_action else r)
        else err GameError.unauthorized)
      ≡ ok t
    → r ≡ ok t
after_tests on busy r t h = ground arith

played-play_owned :
    (m : TextMatch) (s t : TextState) (seat now : ℕ) (a : Action) (id : ℕ)
    → played_copy a ≡ some id
    → turn_action m s seat a now ≡ ok t
    → play_owned m s seat (some id) a now ≡ ok t
unfolding turn_action
played-play_owned m s t seat now (Action.respond card) id e h =
    let same : card ≡ id = cc in
    rw (← same) (
      after_tests (on_turn s seat) (ltb 0 (player_at s seat).free_draws)
        (play_owned m s seat (some card) (Action.respond card) now) t h)
played-play_owned m s t seat now (Action.place card rating) id e h =
    let same : card ≡ id = cc in
    rw (← same) (
      after_tests (on_turn s seat) (ltb 0 (player_at s seat).free_draws)
        (play_owned m s seat (some card) (Action.place card rating) now) t h)
played-play_owned m s t seat now (Action.replace card slot) id e h =
    let same : card ≡ id = cc in
    rw (← same) (
      after_tests (on_turn s seat) (ltb 0 (player_at s seat).free_draws)
        (play_owned m s seat (some card) (Action.replace card slot) now) t h)
played-play_owned m s t seat now (Action.offer card target copy) id e h =
    let same : card ≡ id = cc in
    rw (← same) (
      after_tests (on_turn s seat) (ltb 0 (player_at s seat).free_draws)
        (play_owned m s seat (some card) (Action.offer card target copy) now) t h)
played-play_owned m s t seat now (Action.top card target) id e h =
    let same : card ≡ id = cc in
    rw (← same) (
      after_tests (on_turn s seat) (ltb 0 (player_at s seat).free_draws)
        (play_owned m s seat (some card) (Action.top card target) now) t h)
played-play_owned m s t seat now a id e h = absurd (ground arith)

-- A card that is played has been found in the hand.
played-owned :
    (m : TextMatch) (s t : TextState) (seat now : ℕ) (a : Action) (id : ℕ)
    → played_copy a ≡ some id
    → turn_action m s seat a now ≡ ok t
    → (c : TextCopy) × (owned s seat id ≡ ok c)
played-owned m s t seat now a id e h =
    bound (owned s seat id) (λ c. play_card m s seat c a now) t
      (played-play_owned m s t seat now a id e h)

elem-length : (x : ℕ) (xs : List ℕ) → elem x xs ≡ true → 0 < length xs
elem-length x [] h = absurd (ground arith)
elem-length x (y ∷ ys) h = omega arith

module _ (moderates : Bool) (language_valid : String → Bool) (m : TextMatch) (p q : TextPending)
    (seat now : ℕ) (conserved : Conserved m p.state)
    (here : ((player_at p.state seat).connected && not (player_at p.state seat).eliminated)
      ≡ true) where
  abbrev Offered : Action → Type 0
  Offered a = Has (kind_of a) (capabilities moderates m p.state (player_at p.state seat) seat now)

  card-Offered :
      (a : Action) (id : ℕ)
      → played_copy a ≡ some id
      → Askable moderates language_valid m p.state a
      → updated p (turn_action m p.state seat a now) ≡ ok q
      → Offered a
  card-Offered a id e k h =
      let r = updated-ok p (turn_action m p.state seat a now) q h in
      let c = played-owned m p.state r.0 seat now a id e r.1 in
      let hand = conserved.holds id seat (owned-stands p.state seat id c.0 c.1) in
      played_offered moderates m p.state r.0 seat now here a r.1 id e k.fits
        (elem-length id (player_at p.state seat).hand hand)

  act-Offered :
      (a : Action)
      → Askable moderates language_valid m p.state a
      → act m p seat a now ≡ ok q
      → Offered a
  unfolding act
  act-Offered Action.ready k h = ready_offered moderates m p.state p.state seat now here k.fits
  act-Offered (Action.respond id) k h = card-Offered (Action.respond id) id refl k h
  act-Offered (Action.place id rating) k h = card-Offered (Action.place id rating) id refl k h
  act-Offered (Action.replace id slot) k h = card-Offered (Action.replace id slot) id refl k h
  act-Offered (Action.offer id target copy) k h =
      card-Offered (Action.offer id target copy) id refl k h
  act-Offered (Action.top id target) k h = card-Offered (Action.top id target) id refl k h
  act-Offered Action.pass k h =
      let r = updated-ok p (specialty m p.state seat Action.pass now) q h in
      pass_offered moderates m p.state r.0 seat now here r.1
  act-Offered Action.view_reveal k h =
      let r = updated-ok p (specialty m p.state seat Action.view_reveal now) q h in
      view_offered moderates m p.state r.0 seat now here r.1 k.fits
  act-Offered Action.free_card k h =
      let r = updated-ok p (specialty m p.state seat Action.free_card now) q h in
      free_card_offered moderates m p.state r.0 seat now here r.1
  act-Offered Action.shuffle k h =
      let r = updated-ok p (specialty m p.state seat Action.shuffle now) q h in
      shuffle_offered moderates m p.state r.0 seat now here r.1 k.fits
  act-Offered Action.revote k h =
      let r = updated-ok p (specialty m p.state seat Action.revote now) q h in
      revote_offered moderates m p.state r.0 seat now here r.1 k.fits
  act-Offered (Action.reveal target) k h =
      let r = updated-ok p (specialty m p.state seat (Action.reveal target) now) q h in
      reveal_offered moderates m p.state r.0 seat now here target r.1
  act-Offered (Action.draw n) k h =
      let r = updated-ok p (turn_action m p.state seat (Action.draw n) now) q h in
      draw_offered moderates m p.state r.0 seat now here n r.1
        (drawn_some language_valid m.limits n k.ranges)
  act-Offered (Action.resolve_offer id accepts) k h =
      let r = updated-ok p (answer_offer m p.state seat id accepts now) q h in
      answer_offered moderates m p.state r.0 seat now here id accepts r.1 k.fits
  act-Offered (Action.vote target) k h =
      let r = updated-ok p (cast_vote p.state seat target now) q h in
      vote_offered moderates m p.state r.0 seat now here target r.1
  act-Offered (Action.poke target) k h =
      poke_offered moderates m p.state p.state seat now here k.fits
  act-Offered (Action.chat phrase text locale) k h =
      chat_offered moderates m p.state p.state seat now here (k.moderated refl) k.fits

-- Over a state whose cards are in order, an accepted action of a seat that is connected and in, as a
-- request may ask for it, is of a kind that the seat's snapshot of that moment offers.
pub act-Has :
    (moderates : Bool) (language_valid : String → Bool) (m : TextMatch) (p q : TextPending)
    (seat now : ℕ) (a : Action)
    → Conserved m p.state
    → (player_at p.state seat).connected ≡ true
    → (player_at p.state seat).eliminated ≡ false
    → Askable moderates language_valid m p.state a
    → act m p seat a now ≡ ok q
    → Has (kind_of a) (project moderates m p.state seat now).private.capabilities
unfolding project private_state
act-Has moderates language_valid m p q seat now a conserved on still k h =
    act-Offered moderates language_valid m p q seat now conserved (rw (on, still)) a k h
