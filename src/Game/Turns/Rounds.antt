-- ===== src/Game/Turns/Rounds.antt =====
-- What `beginRound` leaves alone, and the errors that it can give.
use Prim.Native.String.{String}
use text.Mathlib.Text.{◌==◌ as str_eq}
use knowoff.Prelude.{
  ℕ, ◌+◌, ◌-◌, ◌<◌, Bool, true, false, ◌&&◌, ◌≡◌, Option, none, some, List, [], ◌∷◌, ◌++◌, length,
  get_elem?, get_elem?-some, refl, ◌∙◌, inl, inr, arith, Bool-cases, any, if◌then◌else◌, ◌==◌, ◌⊎◌,
}
use knowoff.Contract.{Phase, Card, BoardCard}
use knowoff.Game.State.{
  TextState, TextMatch, Result, ok, err, GameError, is_bad_bargains, player_at, ◌>>=◌,
}
use knowoff.Game.Turns.{enter_phase, event, set_copy, retire, bump_revision}
use knowoff.Game.Rounds.{
  retire_board, seed_budget, deal_to_board, deal_seeds, clear_round, emit_seeds, deal_round,
  begin_round,
}
use knowoff.Game.Turns.Seeds.{
  RoundError, seeds_fit, distinct_texts, deal_seeds-distinct, apart-nothing, all-get_elem?,
}
use knowoff.Game.Turns.Settles.{Keeps, Keeps-refl, Keeps-trans}

deal_to_board-Keeps :
    (m : TextMatch) (s : TextState) (i : ℕ) (c : Card) → Keeps s (deal_to_board m s i c)
unfolding deal_to_board set_copy
deal_to_board-Keeps m s i c = record { result = refl; remaining_votes = refl; round = refl }

-- A seed that is dealt, or skipped because its seat is out.
dealt-Keeps :
    (m : TextMatch) (s : TextState) (i : ℕ) (c : Card) (skip : Bool)
    → let t = if skip then s else deal_to_board m s i c in Keeps s t × (t.phase ≡ s.phase)
unfolding deal_to_board set_copy
dealt-Keeps m s i c true = (Keeps-refl s, refl)
dealt-Keeps m s i c false = (deal_to_board-Keeps m s i c, refl)

module _ (m : TextMatch) where
  deal_seeds-Keeps :
      (s : TextState) (i : ℕ) (texts : List String) (emitted seeds : List Card)
      (dealt : TextState × List Card)
      → deal_seeds m s i texts emitted seeds ≡ ok dealt
      → Keeps s dealt.0 × (dealt.0.phase ≡ s.phase)
  unfolding deal_seeds
  deal_seeds-Keeps s i texts emitted [] dealt h = ground arith
  deal_seeds-Keeps s i texts emitted (c ∷ seeds) dealt h =
      elim (Bool-cases (any (str_eq c.content.text) texts)) [
        | inl seen ↦ ground arith
        | inr new ↦
            let skip = is_bad_bargains m.mode_id && (player_at s i).eliminated in
            let first = if skip then s else deal_to_board m s i c in
            let later =
              deal_seeds-Keeps first (i + 1) (c.content.text ∷ texts)
                (if skip then emitted else emitted ++ c ∷ []) seeds dealt (ground arith) in
            let here = dealt-Keeps m s i c skip in (Keeps-trans here.0 later.0, later.1 ∙ here.1)
      ]

  deal_seeds_error :
      (s : TextState) (i : ℕ) (texts : List String) (emitted seeds : List Card) (e : GameError)
      → deal_seeds m s i texts emitted seeds ≡ err e
      → e ≡ GameError.seed_text
  unfolding deal_seeds
  deal_seeds_error s i texts emitted [] e h = cc
  deal_seeds_error s i texts emitted (c ∷ seeds) e h =
      elim (Bool-cases (any (str_eq c.content.text) texts)) [
        | inl seen ↦ ground arith
        | inr new ↦
            let skip = is_bad_bargains m.mode_id && (player_at s i).eliminated in
            deal_seeds_error (if skip then s else deal_to_board m s i c) (i + 1)
              (c.content.text ∷ texts) (if skip then emitted else emitted ++ c ∷ []) seeds e
              (ground arith)
      ]

emit_seeds-Keeps :
    (now before : ℕ) (s : TextState) (cards : List Card)
    → Keeps s (emit_seeds now before (s, cards))
      × ((emit_seeds now before (s, cards)).phase ≡ s.phase)
unfolding event
emit_seeds-Keeps now before s [] = (Keeps-refl s, refl)
emit_seeds-Keeps now before s (c ∷ cards) =
    (record { result = refl; remaining_votes = refl; round = refl }, refl)

retire_board-Keeps : (s : TextState) (bs : List BoardCard) → Keeps s (retire_board s bs)
unfolding retire_board retire set_copy
retire_board-Keeps s [] = Keeps-refl s
retire_board-Keeps s (b ∷ bs) =
    Keeps-trans (record { result = refl; remaining_votes = refl; round = refl })
      (retire_board-Keeps (retire s b.card.copy_id) bs)

opened-Keeps :
    (m : TextMatch) (s : TextState) (now : ℕ)
    → let t =
        bump_revision
          (enter_phase (clear_round m s) Phase.round_start now m.timers.round_start_countdown) in
      Keeps s t × (t.phase ≡ Phase.round_start)
unfolding bump_revision enter_phase clear_round
opened-Keeps m s now =
    let retired = retire_board-Keeps s s.board.cards in
    (
      record {
        result = retired.result;
        remaining_votes = retired.remaining_votes;
        round = retired.round;
      },
      refl,
    )

emitted-fresh :
    (now before : ℕ) (s t : TextState) (r : Result (TextState × List Card))
    → ((dealt : TextState × List Card) → r ≡ ok dealt → Keeps s dealt.0 × (dealt.0.phase ≡ s.phase))
    → (r >>= λ dealt. ok (emit_seeds now before dealt)) ≡ ok t
    → Keeps s t × (t.phase ≡ s.phase)
emitted-fresh now before s t (err e) f h = cc
emitted-fresh now before s t (ok (u, cards)) f h =
    let e : emit_seeds now before (u, cards) ≡ t = cc in
    let dealt = f (u, cards) refl in
    let told = emit_seeds-Keeps now before u cards in
    rw (← e) (Keeps-trans dealt.0 told.0, told.1 ∙ dealt.1)

deal_round-fresh :
    (m : TextMatch) (now : ℕ) (s : TextState) (seeds : Option (List Card)) (t : TextState)
    → deal_round m now s seeds ≡ ok t
    → Keeps (bump_revision s) t × (t.phase ≡ (bump_revision s).phase)
deal_round-fresh m now s none t h = cc
deal_round-fresh m now s (some seeds) t h =
    elim (Bool-cases (length seeds == seed_budget m.mode_id m.original_size)) [
      | inr off ↦ ground arith
      | inl fits ↦
          emitted-fresh now s.board.revision (bump_revision s) t
            (deal_seeds m (bump_revision s) 0 [] [] seeds)
            (deal_seeds-Keeps m (bump_revision s) 0 [] [] seeds) (rw fits at h)
    ]

-- A round that begins is in its first phase, with the votes and the round number it was given.
pub begin_round-fresh :
    (m : TextMatch) (s : TextState) (now : ℕ) (t : TextState)
    → begin_round m s now ≡ ok t
    → Keeps s t × (t.phase ≡ Phase.round_start)
unfolding begin_round
begin_round-fresh m s now t h =
    let start =
      enter_phase (clear_round m s) Phase.round_start now m.timers.round_start_countdown in
    let dealt = deal_round-fresh m now start (get_elem? m.seeds (s.round - 1)) t h in
    let opened = opened-Keeps m s now in (Keeps-trans opened.0 dealt.0, dealt.1 ∙ opened.1)

emitted_error :
    (now before : ℕ) (r : Result (TextState × List Card)) (e : GameError)
    → (r >>= λ dealt. ok (emit_seeds now before dealt)) ≡ err e
    → r ≡ err e
emitted_error now before (ok (u, cards)) e h = cc
emitted_error now before (err x) e h = cc

deal_round_error :
    (m : TextMatch) (now : ℕ) (s : TextState) (seeds : List Card) (e : GameError)
    → deal_round m now s (some seeds) ≡ err e
    → ((e ≡ GameError.seed_text) ⊎ (e ≡ GameError.seed_budget)) × (seeds_fit m seeds ≡ false)
deal_round_error m now s seeds e h =
    elim (Bool-cases (length seeds == seed_budget m.mode_id m.original_size)) [
      | inr off ↦ (ground arith, rw off)
      | inl fits ↦
          let failed =
            emitted_error now s.board.revision (deal_seeds m (bump_revision s) 0 [] [] seeds) e
              (rw fits at h) in
          (
            inl (deal_seeds_error m (bump_revision s) 0 [] [] seeds e failed),
            elim (Bool-cases (distinct_texts seeds)) [
              | inr twice ↦ rw (fits, twice)
              | inl distinct ↦ absurd (
                  deal_seeds-distinct m (bump_revision s) 0 [] [] seeds e distinct
                    (apart-nothing seeds) failed)
            ],
          )
    ]

-- If there are seeds for the round and it fails to begin, the seeds of some round are not as many
-- as the mode needs, or two of them have the same text.
pub begin_round_error :
    (m : TextMatch) (s : TextState) (now : ℕ) (e : GameError)
    → s.round - 1 < length m.seeds
    → begin_round m s now ≡ err e
    → RoundError m e
unfolding begin_round
begin_round_error m s now e h r =
    let (seeds, found) = get_elem?-some m.seeds (s.round - 1) h in
    let refused =
      deal_round_error m now
        (enter_phase (clear_round m s) Phase.round_start now m.timers.round_start_countdown) seeds e
        (rw found at r) in
    (refused.0, all-get_elem? (seeds_fit m) m.seeds (s.round - 1) seeds found refused.1)
