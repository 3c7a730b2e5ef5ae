-- ===== src/Game/VisibleText/Shown.antt =====
-- `VisibleText` of server/internal/game/text_snapshot.go looks for a text in the snapshot of a
-- seat: where it looks, and where not.
use text.Mathlib.Text.{◌==◌ as str_eq}
use mathlib.Core.Path.{subst}
use knowoff.Prelude.{
  ℕ, ◌<◌, ◌≡◌, Bool, true, false, ◌||◌, Option, none, some, List, [], ◌∷◌, length, leb, ◌==◌, refl,
  ◌∙◌, ◌⊎◌, inl, inr, arith, Bool-cases,
}
use knowoff.Contract.{TextContent, Card, BoardCard, PublicAction}
use knowoff.Contract.Snapshot.{Snapshot, BegunNown}
use knowoff.Game.State.{TextState, TextMatch, Result, ok, err, GameError}
use knowoff.Game.Projection.{project}
use knowoff.Game.VisibleText.{
  ContentRef, is_ref, hit, in_cards, in_board, in_history, in_nowns, in_nown, find_text, found,
  visible_text,
}

abbrev pub OnCards : TextContent → List Card → Type 0
OnCards c [] = ⊥
OnCards c (x ∷ xs) = (x.content ≡ c) ⊎ OnCards c xs

abbrev pub OnBoard : TextContent → List BoardCard → Type 0
OnBoard c [] = ⊥
OnBoard c (b ∷ bs) = (b.card.content ≡ c) ⊎ OnBoard c bs

abbrev pub OnHistory : TextContent → List PublicAction → Type 0
OnHistory c [] = ⊥
OnHistory c (e ∷ es) = OnCards c e.cards ⊎ OnHistory c es

abbrev pub OnNowns : TextContent → List BegunNown → Type 0
OnNowns c [] = ⊥
OnNowns c (n ∷ ns) = (n.content ≡ c) ⊎ OnNowns c ns

-- A text that can be reported: the snapshot shows it as its prompt, in the hand, on the board, in
-- the history, or among the prompts of the verdict.
abbrev pub Reportable : Snapshot → TextContent → Type 0
Reportable v c =
    (v.private.nown ≡ some c)
    ⊎ OnCards c v.private.hand
    ⊎ OnBoard c v.board.cards
    ⊎ OnHistory c v.history
    ⊎ OnNowns c v.verdict_nowns

-- What a search says about the texts of a place: it gives one of them that fits, or what comes after
-- it, and then none of them fits.
abbrev Searches :
    ContentRef → (TextContent → Type 0) → Option TextContent → Option TextContent → Type 0
Searches ref Place (some c) rest =
    (Place c × (is_ref ref c ≡ true))
    ⊎ ((rest ≡ some c) × ((d : TextContent) → Place d → is_ref ref d ≡ false))
Searches ref Place none rest = (rest ≡ none) × ((d : TextContent) → Place d → is_ref ref d ≡ false)

passes_by :
    (ref : ContentRef) (Place : TextContent → Type 0) (rest : Option TextContent)
    → ((d : TextContent) → Place d → is_ref ref d ≡ false)
    → Searches ref Place rest rest
passes_by ref Place none h = (refl, h)
passes_by ref Place (some c) h = inr (refl, h)

-- A search of two places, one after the other.
both :
    (ref : ContentRef) (Place Next : TextContent → Type 0) (out middle rest : Option TextContent)
    → Searches ref Place out middle
    → Searches ref Next middle rest
    → Searches ref (λ c. Place c ⊎ Next c) out rest
both ref Place Next none (some x) rest (gone, misses) next = cc
both ref Place Next none none rest (gone, misses) (over, misses_too) =
    (over, λ d. λ at. elim at [ inl p ↦ misses d p | inr q ↦ misses_too d q ])
both ref Place Next (some c) middle rest (inl (here, fits)) next = inl (inl here, fits)
both ref Place Next (some c) none rest (inr (gone, misses)) next = cc
both ref Place Next (some c) (some x) rest (inr (gone, misses)) (inl (here, fits)) =
    let e : x ≡ c = cc in
    inl (inr (subst (λ y. Next y) e here), subst (λ y. is_ref ref y ≡ true) e fits)
both ref Place Next (some c) (some x) rest (inr (gone, misses)) (inr (over, misses_too)) =
    inr (over ∙ gone, λ d. λ at. elim at [ inl p ↦ misses d p | inr q ↦ misses_too d q ])

one :
    (ref : ContentRef) (x : TextContent) (rest : Option TextContent)
    → Searches ref (λ c. x ≡ c) (hit ref x rest) rest
one ref x rest = elim (Bool-cases (is_ref ref x)) [
  | inl fits ↦ rw fits (inl (refl, fits))
  | inr misses ↦ rw misses (passes_by ref (λ c. x ≡ c) rest (λ d e. rw (← e) misses))
]

in_cards-Searches :
    (ref : ContentRef) (cs : List Card) (rest : Option TextContent)
    → Searches ref (λ c. OnCards c cs) (in_cards ref cs rest) rest
unfolding in_cards
in_cards-Searches ref [] rest = passes_by ref (λ c. ⊥) rest (λ d no_place. absurd no_place)
in_cards-Searches ref (x ∷ cs) rest =
    both ref (λ c. x.content ≡ c) (λ c. OnCards c cs) (hit ref x.content (in_cards ref cs rest))
      (in_cards ref cs rest) rest (one ref x.content (in_cards ref cs rest))
      (in_cards-Searches ref cs rest)

in_board-Searches :
    (ref : ContentRef) (bs : List BoardCard) (rest : Option TextContent)
    → Searches ref (λ c. OnBoard c bs) (in_board ref bs rest) rest
unfolding in_board
in_board-Searches ref [] rest = passes_by ref (λ c. ⊥) rest (λ d no_place. absurd no_place)
in_board-Searches ref (b ∷ bs) rest =
    both ref (λ c. b.card.content ≡ c) (λ c. OnBoard c bs)
      (hit ref b.card.content (in_board ref bs rest)) (in_board ref bs rest) rest
      (one ref b.card.content (in_board ref bs rest)) (in_board-Searches ref bs rest)

in_history-Searches :
    (ref : ContentRef) (es : List PublicAction) (rest : Option TextContent)
    → Searches ref (λ c. OnHistory c es) (in_history ref es rest) rest
unfolding in_history
in_history-Searches ref [] rest = passes_by ref (λ c. ⊥) rest (λ d no_place. absurd no_place)
in_history-Searches ref (e ∷ es) rest =
    both ref (λ c. OnCards c e.cards) (λ c. OnHistory c es)
      (in_cards ref e.cards (in_history ref es rest)) (in_history ref es rest) rest
      (in_cards-Searches ref e.cards (in_history ref es rest)) (in_history-Searches ref es rest)

in_nowns-Searches :
    (ref : ContentRef) (ns : List BegunNown)
    → Searches ref (λ c. OnNowns c ns) (in_nowns ref ns) none
unfolding in_nowns
in_nowns-Searches ref [] = (refl, λ d no_place. absurd no_place)
in_nowns-Searches ref (n ∷ ns) =
    both ref (λ c. n.content ≡ c) (λ c. OnNowns c ns) (hit ref n.content (in_nowns ref ns))
      (in_nowns ref ns) none (one ref n.content (in_nowns ref ns)) (in_nowns-Searches ref ns)

in_nown-Searches :
    (ref : ContentRef) (prompt rest : Option TextContent)
    → Searches ref (λ c. prompt ≡ some c) (in_nown ref prompt rest) rest
in_nown-Searches ref none rest = passes_by ref (λ c. none ≡ some c) rest (λ d h. cc)
in_nown-Searches ref (some x) rest = elim (Bool-cases (is_ref ref x)) [
  | inl fits ↦ rw fits (inl (refl, fits))
  | inr misses ↦
      rw misses
        (passes_by ref (λ c. some x ≡ some c) rest (λ d h. let e : x ≡ d = cc in rw (← e) misses))
]

find_text-Searches :
    (ref : ContentRef) (v : Snapshot) → Searches ref (Reportable v) (find_text ref v) none
find_text-Searches ref v =
    let nowns = in_nowns ref v.verdict_nowns in
    let told = in_history ref v.history nowns in
    let placed = in_board ref v.board.cards told in
    let held = in_cards ref v.private.hand placed in
    both ref (λ c. v.private.nown ≡ some c)
      (λ c.
        OnCards c v.private.hand
        ⊎ OnBoard c v.board.cards
        ⊎ OnHistory c v.history
        ⊎ OnNowns c v.verdict_nowns)
      (in_nown ref v.private.nown held) held none (in_nown-Searches ref v.private.nown held)
      (both ref (λ c. OnCards c v.private.hand)
        (λ c. OnBoard c v.board.cards ⊎ OnHistory c v.history ⊎ OnNowns c v.verdict_nowns) held
        placed none (in_cards-Searches ref v.private.hand placed)
        (both ref (λ c. OnBoard c v.board.cards)
          (λ c. OnHistory c v.history ⊎ OnNowns c v.verdict_nowns) placed told none
          (in_board-Searches ref v.board.cards told)
          (both ref (λ c. OnHistory c v.history) (λ c. OnNowns c v.verdict_nowns) told nowns none
            (in_history-Searches ref v.history nowns) (in_nowns-Searches ref v.verdict_nowns))))

-- What an answer says about a snapshot.
abbrev pub Judged : Snapshot → ContentRef → Result TextContent → Type 0
Judged v ref (ok c) = Reportable v c × (is_ref ref c ≡ true)
Judged v ref (err e) =
    (e ≡ GameError.unauthorized) × ((c : TextContent) → Reportable v c → is_ref ref c ≡ false)

found-Judged :
    (v : Snapshot) (ref : ContentRef) (out : Option TextContent)
    → Searches ref (Reportable v) out none
    → Judged v ref (found out)
found-Judged v ref none (over, misses) = (refl, misses)
found-Judged v ref (some c) (inl shown) = shown
found-Judged v ref (some c) (inr (over, misses)) = cc

-- For a seat of the table, a reference that is not empty and a projection that passes its checks:
-- the text that is resolved has the reference, and the snapshot of the seat shows it as its prompt,
-- in its hand, on the board, in the history or among the prompts of the verdict. If none is
-- resolved, the answer is that the seat is not authorized, and no text in these five places has the
-- reference. The cards of a reveal, which the snapshot of its viewer shows as well, are not among
-- them: a text that only a reveal shows is never resolved.
pub visible_text-Judged :
    (snapshot_error : Snapshot → Option GameError) (moderates : Bool) (m : TextMatch)
    (s : TextState) (seat : ℕ) (ref : ContentRef) (now : ℕ)
    → seat < length s.players
    → (str_eq ref.content_id "" || (ref.revision == 0)) ≡ false
    → snapshot_error (project moderates m s seat now) ≡ none
    → Judged
        (project moderates m s seat now)
        ref
        (visible_text snapshot_error moderates m s seat ref now)
unfolding visible_text
visible_text-Judged snapshot_error moderates m s seat ref now playing given accepted =
    let in_range : leb (length s.players) seat ≡ false = ground (arith, playing) in
    rw (in_range, given, accepted)
      (found-Judged (project moderates m s seat now) ref
        (find_text ref (project moderates m s seat now))
        (find_text-Searches ref (project moderates m s seat now)))
