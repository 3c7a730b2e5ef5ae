-- ===== src/Game/Actions/Order.antt =====
-- Every player action leaves a running match running, or with a result.
use knowoff.Prelude.{
  ℕ, ◌≤◌, Bool, true, ◌≡◌, Option, none, some, [], length, refl, inl, inr, arith, Option-cases,
  Bool-cases, ◌&&◌, ◌==◌, if◌then◌else◌, lookup,
}
use knowoff.Contract.{Action, Reason, PendingOffer, EventKind}
use knowoff.Game.State.{
  TextState, TextCopy, TextMatch, TextPending, TextResult, Result, ok, err, GameError, ◌>>=◌,
}
use knowoff.Game.Turns.{plain, event, set_copy, bump_revision, enter_phase, next_turn}
use knowoff.Game.Offers.{resolve_offer, owned}
use knowoff.Game.Offers.Settles.{resolve_offer-Arrives}
use knowoff.Game.Advance.{advance, with_state}
use knowoff.Game.Advance.Bound.{Live, Clocks, Arrives-Live}
use knowoff.Game.Advance.Ends.{Ends, advance-Ends}
use knowoff.Game.Advance.RunsOn.{RunsOn, ok-RunsOn, err-RunsOn, if-RunsOn, next_turn-Live}
use knowoff.Game.Specialty.Order.{specialty-RunsOn}
use knowoff.Game.Specialty.{specialty, is_specialty_action}
use knowoff.Game.Actions.{
  takes_ready, resolution_of, put_down, replace_card, top_card, make_offer, offer_trade, offer_for,
  played_copy, play_card, turn_action, answer_offer, set_ready, say, act, then_next, on_turn_action,
  play_owned, updated,
}
use knowoff.Game.Votes.{put}
use knowoff.Game.Actions.Stays.{
  Stays, Stays-Live, cast_vote-Stays, poke-Stays, say-Stays, draw-Stays, put_down-Stays,
  replace_card-Stays, top_card-Stays,
}

advance_settled :
    (m : TextMatch) (p : TextPending) (now : ℕ) (r : TextResult)
    → p.state.result ≡ some r
    → advance m p now ≡ ok p
unfolding advance
advance_settled m p now r e = simp (advance, e)

module _ (m : TextMatch) (clocks : Clocks m) where
  then_next-Live : (now : ℕ) (r : Result TextState) → RunsOn m r → RunsOn m (then_next m now r)
  then_next-Live now (err e) f t h = cc
  then_next-Live now (ok s) f t h =
      let e : next_turn m s now ≡ t = cc in rw (← e) (next_turn-Live m clocks s now (f s refl))

  make_offer-Live :
      (s : TextState) (seat : ℕ) (c : TextCopy) (target : ℕ) (requested : TextCopy) (now : ℕ)
      → Live m s
      → Live m (make_offer m s seat c target requested now)
  unfolding make_offer enter_phase event bump_revision set_copy
  make_offer-Live s seat c target requested now (inl (r, e)) = inl (r, e)
  make_offer-Live s seat c target requested now (inr run) = inr (record {
    undecided = run.undecided;
    votes_left = run.votes_left;
    begun = run.begun;
    schedule = run.schedule;
    not_over = λ e. cc;
    seat_on_turn = λ e. cc;
    offer_open = λ e. (_, refl);
  })

  offer_for-Live :
      (s : TextState) (seat : ℕ) (c : TextCopy) (target : ℕ) (o : Option TextCopy) (now : ℕ)
      → Live m s
      → RunsOn m (offer_for m s seat c target o now)
  unfolding offer_for
  offer_for-Live s seat c target none now run = err-RunsOn m GameError.stale_revision
  offer_for-Live s seat c target (some r) now run =
      let made = make_offer m s seat c target r now in
      if-RunsOn m _ (ok made) (err GameError.stale_revision)
        (ok-RunsOn m made (make_offer-Live s seat c target r now run))
        (err-RunsOn m GameError.stale_revision)

  offer_trade-Live :
      (s : TextState) (seat : ℕ) (c : TextCopy) (target copy now : ℕ)
      → Live m s
      → RunsOn m (offer_trade m s seat c target copy now)
  unfolding offer_trade
  offer_trade-Live s seat c target copy now run =
      if-RunsOn m _ (err GameError.unauthorized)
        (offer_for m s seat c target (lookup copy s.copies) now)
        (err-RunsOn m GameError.unauthorized)
        (offer_for-Live s seat c target (lookup copy s.copies) now run)

  play_card-Live :
      (s : TextState) (seat : ℕ) (c : TextCopy) (a : Action) (now : ℕ)
      → Live m s
      → RunsOn m (play_card m s seat c a now)
  unfolding play_card
  play_card-Live s seat c (Action.respond id) now run =
      let put = put_down s seat c EventKind.respond_event none now in
      then_next-Live now (ok put) (
        ok-RunsOn m put
          (Stays-Live m s put run (put_down-Stays s seat c EventKind.respond_event none now)))
  play_card-Live s seat c (Action.place id rating) now run =
      let put = put_down s seat c EventKind.place_event (some rating) now in
      then_next-Live now (ok put) (
        ok-RunsOn m put (
          Stays-Live m s put run (put_down-Stays s seat c EventKind.place_event (some rating) now)))
  play_card-Live s seat c (Action.replace id slot) now run =
      then_next-Live now (replace_card s seat c slot now)
        (λ t h. Stays-Live m s t run (replace_card-Stays s t seat c slot now h))
  play_card-Live s seat c (Action.top id target) now run =
      then_next-Live now (top_card s seat c target now)
        (λ t h. Stays-Live m s t run (top_card-Stays s t seat c target now h))
  play_card-Live s seat c (Action.offer id target copy) now run =
      offer_trade-Live s seat c target copy now run
  play_card-Live s seat c _ now run = λ t h. cc

  play_owned-Live :
      (s : TextState) (seat : ℕ) (o : Option ℕ) (a : Action) (now : ℕ)
      → Live m s
      → RunsOn m (play_owned m s seat o a now)
  play_owned-Live s seat none a now run = err-RunsOn m GameError.invalid_action
  play_owned-Live s seat (some id) a now run = bound-RunsOn (owned s seat id)
    where
      bound-RunsOn : (r : Result TextCopy) → RunsOn m (r >>= λ c. play_card m s seat c a now)
      bound-RunsOn (ok c) = play_card-Live s seat c a now run
      bound-RunsOn (err e) = λ t h. cc

  on_turn_action-Live :
      (s : TextState) (seat : ℕ) (a : Action) (now : ℕ)
      → Live m s
      → RunsOn m (on_turn_action m s seat a now)
  on_turn_action-Live s seat (Action.draw count) now run =
      λ t h. Stays-Live m s t run (draw-Stays m s t seat count now h)
  on_turn_action-Live s seat a now run =
      if-RunsOn m _ (err GameError.invalid_action) (play_owned m s seat (played_copy a) a now)
        (err-RunsOn m GameError.invalid_action) (play_owned-Live s seat (played_copy a) a now run)

  turn_action-Live :
      (s : TextState) (seat : ℕ) (a : Action) (now : ℕ)
      → Live m s
      → RunsOn m (turn_action m s seat a now)
  unfolding turn_action
  turn_action-Live s seat a now run =
      if-RunsOn m _ (on_turn_action m s seat a now) (err GameError.unauthorized)
        (on_turn_action-Live s seat a now run) (err-RunsOn m GameError.unauthorized)

  answer_offer-none :
      (s : TextState) (seat offer_id : ℕ) (accepts : Bool) (now : ℕ)
      → s.pending_offer ≡ none
      → answer_offer m s seat offer_id accepts now ≡ err GameError.unauthorized
  unfolding answer_offer
  answer_offer-none s seat offer_id accepts now e = simp (answer_offer, e)

  answer_offer-some :
      (s : TextState) (o : PendingOffer) (seat offer_id : ℕ) (accepts : Bool) (now : ℕ)
      → s.pending_offer ≡ some o
      → answer_offer m s seat offer_id accepts now ≡ (
          if (o.offer_id == offer_id) && (o.recipient_seat == seat)
          then ok (resolve_offer m s (some seat) (resolution_of accepts) Reason.player now)
          else err GameError.unauthorized)
  unfolding answer_offer
  answer_offer-some s o seat offer_id accepts now e = simp (answer_offer, e)

  answer_offer-RunsOn :
      (s : TextState) (seat offer_id : ℕ) (accepts : Bool) (now : ℕ)
      → Live m s
      → RunsOn m (answer_offer m s seat offer_id accepts now)
  answer_offer-RunsOn s seat offer_id accepts now run = elim (Option-cases s.pending_offer) [
    | inl e ↦
        rw (answer_offer-none s seat offer_id accepts now e) (err-RunsOn m GameError.unauthorized)
    | inr (o, e) ↦
        let resolved = resolve_offer m s (some seat) (resolution_of accepts) Reason.player now in
        rw (answer_offer-some s o seat offer_id accepts now e) (
          if-RunsOn m _ (ok resolved) (err GameError.unauthorized)
            (ok-RunsOn m resolved (
              Arrives-Live m now s resolved run (
                resolve_offer-Arrives m s o (some seat) (resolution_of accepts) Reason.player now
                  clocks.turn e refl)))
            (err-RunsOn m GameError.unauthorized))
  ]

  updated-Live :
      (p q : TextPending) (r : Result TextState) → RunsOn m r → updated p r ≡ ok q → Live m q.state
  updated-Live p q (ok s) f h = let e : with_state p s ≡ q = cc in rw (← e) (f s refl)
  updated-Live p q (err e) f h = cc

  pub Ends-Live : (r : Result TextPending) (q : TextPending) → Ends m r → r ≡ ok q → Live m q.state
  Ends-Live (ok p) q h e = let same : p ≡ q = cc in rw (← same) h
  Ends-Live (err x) q h e = cc

  marked-Stays :
      (s : TextState) (seat now : ℕ)
      → Stays s (
          event
            (record s { ready = put s.ready seat true })
            (some seat)
            EventKind.ready_event
            Reason.player
            now
            s.board.revision
            []
            plain)
  unfolding event
  marked-Stays s seat now = ground arith

  pub advance-Live :
      (p q : TextPending) (now : ℕ)
      → length m.seeds ≤ 3
      → Live m p.state
      → advance m p now ≡ ok q
      → Live m q.state
  advance-Live p q now size (inr run) h =
      Ends-Live (advance m p now) q (advance-Ends m p now clocks size run) h
  advance-Live p q now size (inl (r, e)) h = inl (r, ground (arith, advance_settled m p now r e))

  set_ready-Live :
      (p q : TextPending) (seat now : ℕ)
      → length m.seeds ≤ 3
      → Live m p.state
      → set_ready m p seat now ≡ ok q
      → Live m q.state
  unfolding set_ready
  set_ready-Live p q seat now size run h = elim (Bool-cases (takes_ready p.state.phase)) [
    | inr late ↦ cc (rw (late, set_ready) at h)
    | inl open_phase ↦
        advance-Live _ q now size (Stays-Live m p.state _ run (marked-Stays p.state seat now))
          (rw (open_phase, set_ready) at h)
  ]

  -- In a match of at most three rounds with positive turn and runoff clocks, an accepted action
  -- leaves the match in order if it was so: it has a result, or it is running with votes left and
  -- seeds for each, a seat on turn in the play phase, and an open offer while one is answered.
  pub act-Live :
      (p q : TextPending) (seat : ℕ) (a : Action) (now : ℕ)
      → length m.seeds ≤ 3
      → Live m p.state
      → act m p seat a now ≡ ok q
      → Live m q.state
  unfolding act
  act-Live p q seat (Action.resolve_offer id accepts) now size run h =
      updated-Live p q _ (answer_offer-RunsOn p.state seat id accepts now run) h
  act-Live p q seat Action.ready now size run h = set_ready-Live p q seat now size run h
  act-Live p q seat (Action.vote target) now size run h =
      updated-Live p q _
        (λ t k. Stays-Live m p.state t run (cast_vote-Stays p.state t seat target now k)) h
  act-Live p q seat (Action.poke target) now size run h =
      updated-Live p q _
        (λ t k. Stays-Live m p.state t run (poke-Stays p.state t seat target now k)) h
  act-Live p q seat (Action.chat phrase text locale) now size run h =
      let said = say p.state seat phrase text locale now in
      updated-Live p q (ok said)
        (ok-RunsOn m said
          (Stays-Live m p.state said run (say-Stays p.state seat phrase text locale now)))
        h
  act-Live p q seat a now size run h =
      updated-Live p q _
        (if-RunsOn m (is_specialty_action a) (specialty m p.state seat a now)
          (turn_action m p.state seat a now) (specialty-RunsOn m clocks p.state seat a now run)
          (turn_action-Live p.state seat a now run))
        h
