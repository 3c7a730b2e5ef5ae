-- ===== src/Game/Offers/Settles.antt =====
-- Where `resolveOffer` leaves the match.
use knowoff.Prelude.{ℕ, ◌<◌, false, ◌≡◌, Option, some, refl, inl, inr, Option-cases}
use knowoff.Contract.{Reason, Resolution, PendingOffer}
use knowoff.Game.State.{TextState, TextMatch}
use knowoff.Game.Turns.{event, set_copy, set_player, bump_revision}
use knowoff.Game.Turns.Settles.{Keeps, Keeps-refl, Keeps-trans, Arrives, next_turn-Arrives}
use knowoff.Game.Offers.{settle_offer, exchange, resolve_offer, is_forced}

pub settle_offer-Keeps :
    (s : TextState) (o : PendingOffer) (seat : Option ℕ) (resolution : Resolution) (reason : Reason)
    (now : ℕ)
    → Keeps s (settle_offer s o seat resolution reason now)
unfolding settle_offer exchange event set_copy set_player bump_revision
settle_offer-Keeps s o seat Resolution.accept reason now = record {
  result = refl;
  remaining_votes = refl;
  round = refl;
}
settle_offer-Keeps s o seat _ reason now = record {
  result = refl;
  remaining_votes = refl;
  round = refl;
}

-- With a positive turn length, resolving the open offer by no forced transition leads on to the
-- discussion or to a turn that can be played; result, votes left and round stay.
pub resolve_offer-Arrives :
    (m : TextMatch) (s : TextState) (o : PendingOffer) (seat : Option ℕ) (resolution : Resolution)
    (reason : Reason) (now : ℕ)
    → 0 < m.timers.play_turn
    → s.pending_offer ≡ some o
    → is_forced reason ≡ false
    → Arrives m now s (resolve_offer m s seat resolution reason now)
unfolding resolve_offer
resolve_offer-Arrives m s o seat resolution reason now h e u =
    let settled = settle_offer s o seat resolution reason now in
    let next = next_turn-Arrives m settled now h in
    simp (resolve_offer, e, u)
      (Keeps-trans (settle_offer-Keeps s o seat resolution reason now) next.0, next.1)

pub resolve_offer_forced-Keeps :
    (m : TextMatch) (s : TextState) (seat : Option ℕ) (resolution : Resolution) (now : ℕ)
    → Keeps s (resolve_offer m s seat resolution Reason.forced_transition now)
unfolding resolve_offer
resolve_offer_forced-Keeps m s seat resolution now = elim (Option-cases s.pending_offer) [
  | inl e ↦ simp (resolve_offer, e) (Keeps-refl s)
  | inr (o, e) ↦
      simp (resolve_offer, e) (settle_offer-Keeps s o seat resolution Reason.forced_transition now)
]
