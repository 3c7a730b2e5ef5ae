-- ===== src/Game/Session/Order.antt =====
-- Connections, the clock and the committed match: every transition keeps the match in order.
use knowoff.Prelude.{
  ℕ, ◌≤◌, Bool, true, false, ◌&&◌, ◌≡◌, Option, none, some, length, refl, ◌∙◌, ◌⊎◌, inl, inr, arith,
  Bool-cases, leb,
}
use knowoff.Contract.{Reason, Resolution, PendingOffer}
use knowoff.Game.State.{TextState, TextMatch, TextPending, Result, ok, err, player_at, ◌>>=◌}
use knowoff.Game.Turns.{current, set_player}
use knowoff.Game.Turns.Settles.{Arrives, auto_pass-Arrives}
use knowoff.Game.Offers.Settles.{resolve_offer-Arrives}
use knowoff.Game.Advance.{advance, with_state}
use knowoff.Game.Advance.Bound.{Live, Clocks, Arrives-Running}
use knowoff.Game.Actions.Stays.{Stays, Stays-refl, Stays-Running}
use knowoff.Game.Actions.Order.{advance-Live}
use knowoff.Game.Specialty.{on_turn}
use knowoff.Game.Connections.{
  cancel_trade, skip_own_turn, release_seat, leave, rebind, set_connected, is_party, connect_player,
  overdue, same_bool,
}

-- One move of the match: nothing that matters to its order, or a change of turn.
abbrev Moves : TextMatch → ℕ → TextState → TextState → Type 0
Moves m now s t = Stays s t ⊎ Arrives m now s t

Moves-Live : (m : TextMatch) (now : ℕ) (s t : TextState) → Moves m now s t → Live m s → Live m t
Moves-Live m now s t (inl k) (inr run) = inr (Stays-Running m s t run k)
Moves-Live m now s t (inr a) (inr run) = inr (Arrives-Running m now s t run a)
Moves-Live m now s t (inl k) (inl (r, e)) = inl (r, k.keeps.result ∙ e)
Moves-Live m now s t (inr a) (inl (r, e)) = inl (r, a.0.result ∙ e)

connected-Stays :
    (m : TextMatch) (s : TextState) (seat : ℕ) (connected : Bool) (now : ℕ)
    → Stays s (set_player s seat (connect_player m connected now))
unfolding set_player
connected-Stays m s seat connected now = ground arith

party_offer :
    (o : Option PendingOffer) (seat : ℕ)
    → is_party o seat ≡ true
    → (p : PendingOffer) × (o ≡ some p)
party_offer none seat h = cc
party_offer (some p) seat h = (p, refl)

on_turn-current : (s : TextState) (seat : ℕ) → on_turn s seat ≡ true → current s ≡ some seat
on_turn-current s seat h = ground arith

module _ (m : TextMatch) (clocks : Clocks m) (now : ℕ) where
  cancel_trade-Moves : (s : TextState) (seat : ℕ) → Moves m now s (cancel_trade m s seat now)
  unfolding cancel_trade
  cancel_trade-Moves s seat = elim (Bool-cases (is_party s.pending_offer seat)) [
    | inr no_party ↦ rw (no_party) (inl (Stays-refl s))
    | inl party ↦
        let (o, e) = party_offer s.pending_offer seat party in
        rw (party) (
          inr (
            resolve_offer-Arrives m s o none Resolution.cancel Reason.disconnect now clocks.turn e
              refl))
  ]

  skip_own_turn-Moves : (s : TextState) (seat : ℕ) → Moves m now s (skip_own_turn m s seat now)
  unfolding skip_own_turn
  skip_own_turn-Moves s seat = elim (Bool-cases (on_turn s seat)) [
    | inr other ↦ rw other (inl (Stays-refl s))
    | inl own ↦ rw own (
        inr (
          auto_pass-Arrives m s Reason.disconnect now seat clocks.turn
            (on_turn-current s seat own)))
  ]

  release_seat-Stays : (s : TextState) (seat : ℕ) → Stays s (release_seat s seat)
  unfolding release_seat
  release_seat-Stays s seat = ground arith

  leave-Live :
      (s : TextState) (seat : ℕ) (connected : Bool)
      → Live m s
      → Live m (leave m s seat connected now)
  unfolding leave
  leave-Live s seat true live = live
  leave-Live s seat false live =
      let skipped = skip_own_turn m s seat now in
      Moves-Live m now skipped (release_seat skipped seat) (inl (release_seat-Stays skipped seat))
        (Moves-Live m now s skipped (skip_own_turn-Moves s seat) live)

  rebind-Live :
      (p q : TextPending) (seat : ℕ) (connected : Bool)
      → length m.seeds ≤ 3
      → Live m p.state
      → rebind m p seat connected now ≡ ok q
      → Live m q.state
  unfolding rebind
  rebind-Live p q seat connected size live h =
      elim (Bool-cases (same_bool (player_at p.state seat).connected connected)) [
        | inl same ↦ let e : p ≡ q = cc (rw (same, rebind) at h) in rw (← e) live
        | inr other ↦
            let bound = set_player p.state seat (connect_player m connected now) in
            let freed = cancel_trade m bound seat now in
            advance-Live m clocks (with_state p (leave m freed seat connected now)) q now size
              (leave-Live freed seat connected (
                Moves-Live m now bound freed (cancel_trade-Moves bound seat) (
                  Moves-Live m now p.state bound
                    (inl (connected-Stays m p.state seat connected now)) live)))
              (rw (other, rebind) at h)
      ]

  chained-Live :
      (r : Result TextPending) (q : TextPending) (seat : ℕ) (connected : Bool)
      → length m.seeds ≤ 3
      → ((p : TextPending) → r ≡ ok p → Live m p.state)
      → (r >>= λ p. rebind m p seat connected now) ≡ ok q
      → Live m q.state
  chained-Live (ok p) q seat connected size live h =
      rebind-Live p q seat connected size (live p refl) h
  chained-Live (err e) q seat connected size live h = cc

  -- In a match of at most three rounds with positive turn and runoff clocks, a connection that is
  -- accepted, made or lost, leaves the match in order if it was so: it has a result or is running.
  pub set_connected-Live :
      (p q : TextPending) (seat : ℕ) (connected : Bool)
      → length m.seeds ≤ 3
      → Live m p.state
      → set_connected m p seat connected now ≡ ok q
      → Live m q.state
  unfolding set_connected
  set_connected-Live p q seat connected size live h =
      elim (Bool-cases (leb (length p.state.players) seat)) [
        | inl outside ↦ cc (rw (outside, set_connected) at h)
        | inr inside ↦ elim (Bool-cases (connected && overdue (player_at p.state seat) now)) [
          | inl late ↦
              chained-Live (advance m p now) q seat connected size
                (λ x e. advance-Live m clocks p x now size live e) (rw (inside, late) at h)
          | inr timely ↦ rebind-Live p q seat connected size live (rw (inside, timely) at h)
        ]
      ]
