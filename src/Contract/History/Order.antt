-- ===== src/Contract/History/Order.antt =====
-- What the loop of validateHistory establishes, and that any stretch of a valid history is valid.
use knowoff.Prelude.{
  ℕ, suc, ◌+◌, ◌^◌, ◌<◌, ◌≡◌, refl, true, false, Option, none, some, List, [], ◌∷◌, ◌++◌, length,
  elem, arith,
}
use knowoff.Contract.{PublicAction, Limits, u64}
use knowoff.Contract.Events.{event_valid}
use knowoff.Contract.History.{Codec, check_events, follows}

-- An event passes the loop at index `i`.
pub record EventFits (c : Codec) (l : Limits) (from i : ℕ) (seen : List ℕ)
    (before : Option PublicAction) (e : PublicAction) : Type 0 where
  pub valid : event_valid c.language_valid e l ≡ true
  pub placed : e.evidence_seq ≡ u64 (from + i)
  pub unseen : elem e.event_id seen ≡ false
  pub ordered : follows before e ≡ true

module _ (c : Codec) (l : Limits) where
  pub check_events-EventFits :
      (from i : ℕ) (seen : List ℕ) (before : Option PublicAction) (e : PublicAction)
      (es : List PublicAction)
      → check_events c l from i seen before (e ∷ es) ≡ none
      → EventFits c l from i seen before e
        × (check_events c l from (suc i) (e.event_id ∷ seen) (some e) es ≡ none)
  unfolding check_events
  check_events-EventFits from i seen before e es h = (
    record {
      valid = ground arith;
      placed = ground arith;
      unseen = ground arith;
      ordered = ground arith;
    },
    ground arith,
  )

  pub check_events_step :
      (from i : ℕ) (seen : List ℕ) (before : Option PublicAction) (e : PublicAction)
      (es : List PublicAction)
      → EventFits c l from i seen before e
      → check_events c l from (suc i) (e.event_id ∷ seen) (some e) es ≡ none
      → check_events c l from i seen before (e ∷ es) ≡ none
  unfolding check_events
  check_events_step from i seen before e es f h = ground arith

  -- The front of a valid list of events is valid.
  pub check_events_front :
      (from i : ℕ) (seen : List ℕ) (before : Option PublicAction) (es fs : List PublicAction)
      → check_events c l from i seen before (es ++ fs) ≡ none
      → check_events c l from i seen before es ≡ none
  check_events_front from i seen before [] fs h = unfold check_events in refl
  check_events_front from i seen before (e ∷ es) fs h =
      let fits = check_events-EventFits from i seen before e (es ++ fs) h in
      check_events_step from i seen before e es fits.0
        (check_events_front from (suc i) (e.event_id ∷ seen) (some e) es fs fits.1)

-- Every id of the first list is in the second.
abbrev Within : List ℕ → List ℕ → Type 0
Within few many = (x : ℕ) → elem x many ≡ false → elem x few ≡ false

Within-cons : (few many : List ℕ) (y : ℕ) → Within few many → Within (y ∷ few) (y ∷ many)
Within-cons few many y w x h = ground (arith, w x)

module _ (c : Codec) (l : Limits) where
  EventFits-Within :
      (from i from' j : ℕ) (few many : List ℕ) (before : Option PublicAction) (e : PublicAction)
      → from + i ≡ from' + j
      → Within few many
      → EventFits c l from i many before e
      → EventFits c l from' j few before e
  EventFits-Within from i from' j few many before e same w f = record {
    valid = f.valid;
    placed = ground (arith, f.placed);
    unseen = w e.event_id f.unseen;
    ordered = f.ordered;
  }

  -- A valid list stays valid when fewer ids are known, and its places may be counted from elsewhere.
  check_events-Within :
      (from i from' j : ℕ) (few many : List ℕ) (before : Option PublicAction)
      (es : List PublicAction)
      → from + i ≡ from' + j
      → Within few many
      → check_events c l from i many before es ≡ none
      → check_events c l from' j few before es ≡ none
  check_events-Within from i from' j few many before [] same w h = unfold check_events in refl
  check_events-Within from i from' j few many before (e ∷ es) same w h =
      let fits = check_events-EventFits c l from i many before e es h in
      check_events_step c l from' j few before e es
        (EventFits-Within from i from' j few many before e same w fits.0)
        (check_events-Within from (suc i) from' (suc j) (e.event_id ∷ few) (e.event_id ∷ many)
          (some e) es (omega arith) (Within-cons few many e.event_id w) fits.1)

  -- Nothing need be known of the event before the first.
  check_events_first :
      (from i : ℕ) (seen : List ℕ) (before : Option PublicAction) (es : List PublicAction)
      → check_events c l from i seen before es ≡ none
      → check_events c l from i seen none es ≡ none
  check_events_first from i seen before [] h = unfold check_events in refl
  check_events_first from i seen before (e ∷ es) h =
      let fits = check_events-EventFits c l from i seen before e es h in
      check_events_step c l from i seen none e es
        (record {
          valid = fits.0.valid;
          placed = fits.0.placed;
          unseen = fits.0.unseen;
          ordered = refl;
        })
        fits.1

  -- A valid list that stands at index `i` is valid by itself, numbered from its own first place.
  pub check_events_alone :
      (from i : ℕ) (seen : List ℕ) (before : Option PublicAction) (es : List PublicAction)
      → check_events c l from i seen before es ≡ none
      → check_events c l (from + i) 0 [] none es ≡ none
  check_events_alone from i seen before es h =
      check_events-Within from i (from + i) 0 [] seen none es (omega arith) (λ x p. refl)
        (check_events_first from i seen before es h)

  -- What follows the front of a valid list is valid where it stands.
  pub check_events_back :
      (from i : ℕ) (seen : List ℕ) (before : Option PublicAction) (es fs : List PublicAction)
      → check_events c l from i seen before (es ++ fs) ≡ none
      → (known : List ℕ) × (last : Option PublicAction) × (check_events c l from
            (i + length es)
            known
            last
            fs
          ≡ none)
  check_events_back from i seen before [] fs h =
      (seen, before, let e : i + 0 ≡ i = omega arith in rw e h)
  check_events_back from i seen before (e ∷ es) fs h =
      let fits = check_events-EventFits c l from i seen before e (es ++ fs) h in
      let (known, last, p) =
        check_events_back from (suc i) (e.event_id ∷ seen) (some e) es fs fits.1 in
      let same : i + suc (length es) ≡ suc i + length es = omega arith in (known, last, rw same p)

-- The events are numbered on from `i + 1`, within the integers that JSON carries.
abbrev pub Numbered : ℕ → List PublicAction → Type 0
Numbered i [] = Unit
Numbered i (e ∷ es) = (e.evidence_seq ≡ suc i) × (suc i < 2 ^ 53) × Numbered (suc i) es

event_valid_safe :
    (c : Codec) (l : Limits) (e : PublicAction)
    → event_valid c.language_valid e l ≡ true
    → e.evidence_seq < 2 ^ 53
unfolding event_valid
event_valid_safe c l e h = ground arith

pub check_events-Numbered :
    (c : Codec) (l : Limits) (i : ℕ) (seen : List ℕ) (before : Option PublicAction)
    (es : List PublicAction)
    → i < 2 ^ 53
    → check_events c l 1 i seen before es ≡ none
    → Numbered i es
check_events-Numbered c l i seen before [] small h = tt
check_events-Numbered c l i seen before (e ∷ es) small h =
    let fits = check_events-EventFits c l 1 i seen before e es h in
    let seq : e.evidence_seq ≡ suc i = omega (arith, fits.0.placed) in
    let bound : suc i < 2 ^ 53 = omega (arith, seq, event_valid_safe c l e fits.0.valid) in
    (seq, bound, check_events-Numbered c l (suc i) (e.event_id ∷ seen) (some e) es bound fits.1)
