-- ===== src/Game/VisibleText.antt =====
-- What a seat can report: `VisibleText` of server/internal/game/text_snapshot.go, which reads the
-- projection of the seat. Snapshot.Validate is a parameter.
pub mod Shown
use Prim.Native.String.{String}
use text.Mathlib.Text.{◌==◌ as str_eq}
use knowoff.Prelude.{
  ℕ, Bool, true, false, ◌&&◌, ◌||◌, Option, none, some, List, [], ◌∷◌, length, leb, ◌==◌,
  if◌then◌else◌,
}
use knowoff.Contract.{TextContent, Card, BoardCard, PublicAction}
use knowoff.Contract.Snapshot.{Snapshot, BegunNown}
use knowoff.Game.State.{TextState, TextMatch, Result, ok, err, GameError}
use knowoff.Game.Projection.{project}

-- A content reference: the id and the revision.
pub record ContentRef : Type 0 where
  pub content_id : String
  pub revision : ℕ

abbrev pub is_ref : ContentRef → TextContent → Bool
is_ref ref c = str_eq c.content_id ref.content_id && (c.revision == ref.revision)

-- The result of a loop that returns at its first hit; `rest` is what comes after the loop.
abbrev pub hit : ContentRef → TextContent → Option TextContent → Option TextContent
hit ref c rest = if is_ref ref c then some c else rest

unfoldable pub in_cards : ContentRef → List Card → Option TextContent → Option TextContent
in_cards ref [] rest = rest
in_cards ref (c ∷ cs) rest = hit ref c.content (in_cards ref cs rest)

unfoldable pub in_board : ContentRef → List BoardCard → Option TextContent → Option TextContent
in_board ref [] rest = rest
in_board ref (b ∷ bs) rest = hit ref b.card.content (in_board ref bs rest)

unfoldable pub in_history : ContentRef → List PublicAction → Option TextContent → Option TextContent
in_history ref [] rest = rest
in_history ref (e ∷ es) rest = in_cards ref e.cards (in_history ref es rest)

unfoldable pub in_nowns : ContentRef → List BegunNown → Option TextContent
in_nowns ref [] = none
in_nowns ref (n ∷ ns) = hit ref n.content (in_nowns ref ns)

abbrev pub in_nown : ContentRef → Option TextContent → Option TextContent → Option TextContent
in_nown ref none rest = rest
in_nown ref (some c) rest = hit ref c rest

-- The search of a snapshot, in the order of the source.
abbrev pub find_text : ContentRef → Snapshot → Option TextContent
find_text ref v = in_nown ref v.private.nown (
    in_cards ref v.private.hand
      (in_board ref v.board.cards (in_history ref v.history (in_nowns ref v.verdict_nowns))))

abbrev pub found : Option TextContent → Result TextContent
found none = err GameError.unauthorized
found (some c) = ok c

-- The contract of the match, which is given along, is left out.
unfoldable pub visible_text :
    (Snapshot → Option GameError)
    → Bool
    → TextMatch
    → TextState
    → ℕ
    → ContentRef
    → ℕ
    → Result TextContent
visible_text snapshot_error moderates m s seat ref now =
    if leb (length s.players) seat || (str_eq ref.content_id "" || (ref.revision == 0))
    then err GameError.unauthorized
    else (let v = project moderates m s seat now in
        elim (snapshot_error v) [ some e ↦ err e | none ↦ found (find_text ref v) ])
