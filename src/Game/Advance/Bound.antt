-- ===== src/Game/Advance/Bound.antt =====
-- The loop of `advance` ends within its twelve rounds, whatever the state of a running match.
use knowoff.Prelude.{
  ℕ, suc, ◌+◌, ◌*◌, ◌≤◌, ◌<◌, true, false, ◌&&◌, ◌≡◌, ◌≢◌, none, some, List, [], ◌∷◌, length, not,
  leb, any_at, refl, ◌∙◌, ◌⊎◌, inl, inr, arith, Bool-cases,
}
use knowoff.Contract.{Phase, Reason, Resolution, PendingOffer}
use knowoff.Game.State.{TextState, TextMatch, TextPending, TextPlayer, is_active}
use knowoff.Game.Turns.{current, auto_pass, next_turn, stranded, enter_phase}
use knowoff.Game.Turns.Settles.{Keeps, AtPlay, Arrives, next_turn-Arrives, auto_pass-Arrives}
use knowoff.Game.Turns.Seeds.{RoundError}
use knowoff.Game.Offers.{resolve_offer}
use knowoff.Game.Offers.Settles.{resolve_offer-Arrives}
use knowoff.Game.Ballots.Settles.{HasResult}
use knowoff.Game.Advance.{
  all_ready, Progress, done, more, failed, go_on, with_state, open_ballot, advance_play, advance_in,
  closing,
}

-- A match without a result, between two events: votes are left, each with seeds for its round, and
-- the phase has what it waits for.
pub record Running (m : TextMatch) (s : TextState) : Type 0 where
  pub undecided : s.result ≡ none
  pub votes_left : 1 ≤ s.remaining_votes
  pub begun : 1 ≤ s.round
  pub schedule : s.round + s.remaining_votes ≡ suc (length m.seeds)
  pub not_over : s.phase ≢ Phase.verdict
  pub seat_on_turn : s.phase ≡ Phase.play → (seat : ℕ) × (current s ≡ some seat)
  pub offer_open : s.phase ≡ Phase.trade_response → (o : PendingOffer) × (s.pending_offer ≡ some o)

abbrev pub Live : TextMatch → TextState → Type 0
Live m s = HasResult s ⊎ Running m s

-- The clocks that must not stand still.
pub record Clocks (m : TextMatch) : Type 0 where
  pub turn : 0 < m.timers.play_turn
  pub runoff : 0 < m.timers.knowoff_runoff

-- How many rounds of the loop are left at most, and three.
abbrev pub rank : Phase → ℕ
rank Phase.round_start = 3
rank Phase.play = 3
rank Phase.trade_response = 3
rank Phase.discussion = 2
rank Phase.knowoff_ballot = 1
rank Phase.runoff = 1
rank Phase.result_window = 0
rank Phase.verdict = 0

abbrev pub left : TextState → ℕ
left s = 4 * s.remaining_votes + rank s.phase

pub rank-lt : {x y a b : Phase} → x ≡ a → y ≡ b → rank b < rank a → rank y < rank x
rank-lt p q h = rw (p, q) h

abbrev pub Quiet : TextMatch → ℕ → TextPending → Type 0
Quiet m now q = advance_in q.state.phase m q now ≡ done q

-- What a round of the loop may do.
abbrev pub Good : TextMatch → ℕ → TextPending → Progress → Type 0
Good m now p (done q) = Live m q.state
Good m now p (more q) =
    Running m q.state × ((left q.state < left p.state) ⊎ (Quiet m now q × (5 ≤ left p.state)))
Good m now p (failed e) = RoundError m e

pub go_on-more : (p : TextPending) → p.state.result ≡ none → go_on p ≡ more p
go_on-more p h = ground arith

pub go_on-done : (p : TextPending) → HasResult p.state → go_on p ≡ done p
go_on-done p (r, h) = ground arith

AtPlay-Quiet : (m : TextMatch) (now : ℕ) (p : TextPending) → AtPlay m now p.state → Quiet m now p
unfolding advance_in advance_play
AtPlay-Quiet m now p a = ground arith

-- Not every player is ready where one can act and none has said so.
pub unready :
    (s : TextState) (i : ℕ) (ps : List TextPlayer)
    → ((seat : ℕ) → s.ready seat ≡ false)
    → any_at (λ k p. is_active p) i ps ≡ true
    → any_at (λ k p. is_active p && not (s.ready k)) i ps ≡ true
unready s i [] h a = cc
unready s i (p ∷ ps) h a = ground (arith, h i, unready s (suc i) ps h)

pub runoff-Quiet :
    (m : TextMatch) (now : ℕ) (p : TextPending)
    → p.state.phase ≡ Phase.runoff
    → now < p.state.deadline
    → all_ready p.state ≡ false
    → Quiet m now p
unfolding advance_in
runoff-Quiet m now p e h r = ground arith

-- After a turn or a trade the match runs on.
pub Arrives-Running :
    (m : TextMatch) (now : ℕ) (s t : TextState) → Running m s → Arrives m now s t → Running m t
Arrives-Running m now s t run (keeps, inl talk) = record {
  undecided = keeps.result ∙ run.undecided;
  votes_left = omega (arith, keeps.remaining_votes, run.votes_left);
  begun = omega (arith, keeps.round, run.begun);
  schedule = omega (arith, keeps.remaining_votes, keeps.round, run.schedule);
  not_over = λ e. cc;
  seat_on_turn = λ e. cc;
  offer_open = λ e. cc;
}
Arrives-Running m now s t run (keeps, inr play) = record {
  undecided = keeps.result ∙ run.undecided;
  votes_left = omega (arith, keeps.remaining_votes, run.votes_left);
  begun = omega (arith, keeps.round, run.begun);
  schedule = omega (arith, keeps.remaining_votes, keeps.round, run.schedule);
  not_over = λ e. cc (play.phase);
  seat_on_turn = λ e. play.on_turn;
  offer_open = λ e. cc (play.phase);
}

pub Arrives-Live :
    (m : TextMatch) (now : ℕ) (s t : TextState) → Live m s → Arrives m now s t → Live m t
Arrives-Live m now s t (inl (r, e)) arrives = inl (r, arrives.0.result ∙ e)
Arrives-Live m now s t (inr run) arrives = inr (Arrives-Running m now s t run arrives)

module _ (m : TextMatch) (now : ℕ) (p : TextPending) (run : Running m p.state) where
  arrived-Good :
      (t : TextState)
      → rank p.state.phase ≡ 3
      → Arrives m now p.state t
      → Good m now p (more (with_state p t))
  arrived-Good t early (keeps, inl talk) = (
    Arrives-Running m now p.state t run (keeps, inl talk),
    inl (ground (arith, keeps.remaining_votes, early, talk)),
  )
  arrived-Good t early (keeps, inr play) = (
    Arrives-Running m now p.state t run (keeps, inr play),
    inr (AtPlay-Quiet m now (with_state p t) play, omega (arith, early, run.votes_left)),
  )

  -- The same for a round that checks the result afterwards.
  arrived_on-Good :
      (t : TextState)
      → rank p.state.phase ≡ 3
      → Arrives m now p.state t
      → Good m now p (go_on (with_state p t))
  arrived_on-Good t early a =
      rw (go_on-more (with_state p t) (a.0.result ∙ run.undecided)) (arrived-Good t early a)

  pub staying-Running :
      (t : TextState)
      → Keeps p.state t
      → t.phase ≢ Phase.verdict
      → t.phase ≢ Phase.play
      → t.phase ≢ Phase.trade_response
      → Running m t
  staying-Running t keeps over play trade = record {
    undecided = keeps.result ∙ run.undecided;
    votes_left = omega (arith, keeps.remaining_votes, run.votes_left);
    begun = omega (arith, keeps.round, run.begun);
    schedule = omega (arith, keeps.remaining_votes, keeps.round, run.schedule);
    not_over = over;
    seat_on_turn = λ e. absurd (play e);
    offer_open = λ e. absurd (trade e);
  }

  -- A step to a later phase of the same ballot.
  pub later-Good :
      (q : TextPending)
      → Keeps p.state q.state
      → rank q.state.phase < rank p.state.phase
      → q.state.phase ≢ Phase.verdict
      → q.state.phase ≢ Phase.play
      → q.state.phase ≢ Phase.trade_response
      → Good m now p (go_on q)
  later-Good q keeps lower over play trade = rw (go_on-more q (keeps.result ∙ run.undecided)) (
    staying-Running q.state keeps over play trade,
    inl (omega (arith, keeps.remaining_votes, lower)),
  )

  -- Nothing is due.
  pub waits : Live m p.state
  waits = inr run

  pub round_start-Good :
      0 < m.timers.play_turn
      → p.state.phase ≡ Phase.round_start
      → Good m now p (advance_in Phase.round_start m p now)
  unfolding advance_in
  round_start-Good h e = elim (Bool-cases (leb p.state.deadline now)) [
    | inr early ↦ rw early waits
    | inl due ↦
        rw due (
          arrived_on-Good (next_turn m p.state now) (rw e refl) (next_turn-Arrives m p.state now h))
  ]

  pub play-Good :
      0 < m.timers.play_turn
      → p.state.phase ≡ Phase.play
      → Good m now p (advance_in Phase.play m p now)
  unfolding advance_in advance_play
  play-Good h e =
      let (seat, here) = run.seat_on_turn e in
      elim (Bool-cases (stranded m p.state)) [
        | inl alone ↦ rw alone (
            arrived-Good (auto_pass m p.state Reason.no_recipient now) (rw e refl)
              (auto_pass-Arrives m p.state Reason.no_recipient now seat h here))
        | inr company ↦ elim (Bool-cases (leb p.state.deadline now)) [
          | inr early ↦ rw (company, early) waits
          | inl due ↦
              rw (company, due)
                (arrived_on-Good (auto_pass m p.state Reason.timeout now) (rw e refl)
                  (auto_pass-Arrives m p.state Reason.timeout now seat h here))
        ]
      ]

  pub trade_response-Good :
      0 < m.timers.play_turn
      → p.state.phase ≡ Phase.trade_response
      → Good m now p (advance_in Phase.trade_response m p now)
  unfolding advance_in
  trade_response-Good h e = elim (Bool-cases (leb p.state.deadline now)) [
    | inr early ↦ rw early waits
    | inl due ↦
        let (o, open_offer) = run.offer_open e in
        rw due (
          arrived_on-Good (resolve_offer m p.state none Resolution.timed_out Reason.timeout now)
            (rw e refl)
            (resolve_offer-Arrives m p.state o none Resolution.timed_out Reason.timeout now h
              open_offer refl))
  ]

  open_ballot-Keeps :
      Keeps p.state (open_ballot m p.state now)
      × ((open_ballot m p.state now).phase ≡ Phase.knowoff_ballot)
  unfolding open_ballot enter_phase
  open_ballot-Keeps = (record { result = refl; remaining_votes = refl; round = refl }, refl)

  pub discussion-Good :
      p.state.phase ≡ Phase.discussion → Good m now p (advance_in Phase.discussion m p now)
  unfolding advance_in
  discussion-Good e = elim (Bool-cases (closing p.state now)) [
    | inr early ↦ rw early waits
    | inl due ↦
        let (keeps, phase) = open_ballot-Keeps in
        rw due (
          later-Good (with_state p (open_ballot m p.state now)) keeps
            (rank-lt e phase (omega arith)) (λ x. cc phase) (λ x. cc phase) (λ x. cc phase))
  ]
