-- ===== src/Contract/History/RoundTrip.antt =====
-- AssembleHistory undoes PaginateHistory.
use knowoff.Prelude.{
  ◌<◌, ◌≤◌, ◌≡◌, true, Option, none, some, List, [], length, arith, ◌⊎◌, inl, inr, map,
}
use knowoff.Contract.{PublicAction, Limits, ErrorCode}
use knowoff.Contract.Sequence.{limits_valid}
use knowoff.Contract.History.{
  Codec, IsCodec, HistoryPage, HistoryManifest, Checked, ok, err, validate_history, check_events,
  gather, paginate_history, assemble_history, manifest_of, with_manifest,
}
use knowoff.Contract.History.Pages.{Names, NamesValid, limits_valid-Room}
use knowoff.Contract.History.Gathering.{Gathers, Oversized, pages_of, fill_pages-Gathers}

module _ (c : Codec) (l : Limits) (n : Names) where
  validate_history-accepts :
      (es : List PublicAction)
      → validate_history c l 1 es ≡ none
      → (length es ≤ l.max_history_events) × (check_events c l 1 0 [] none es ≡ none)
  unfolding validate_history
  validate_history-accepts es h = (ground arith, ground arith)

  -- What is left of AssembleHistory once the loop has gathered all events.
  assemble_gathered :
      IsCodec c
      → limits_valid l ≡ true
      → (es : List PublicAction) (pages : List HistoryPage) → 0 < length es
      → validate_history c l 1 es ≡ none
      → length pages ≤ length es
      → 0 < length pages
      → gather c l n.match_id n.snapshot_id n.epoch (length es) 0 [] pages ≡ ok es
      → assemble_history c l
          (manifest_of c (length es) pages)
          pages
          n.match_id
          n.snapshot_id
          n.epoch
        ≡ ok es
  unfolding assemble_history manifest_of
  assemble_gathered k lv es pages pos valid few some_page g =
      let bound = (validate_history-accepts es valid).0 in
      let root = k.root_hash_fits (map (λ p. p.sha256) pages) in
      rw (lv, g) (ground (arith, valid, bound, root))

  -- What is left of PaginateHistory once its arguments are accepted.
  paginate_accepted :
      NamesValid n
      → limits_valid l ≡ true
      → (es : List PublicAction) → 0 < length es
      → validate_history c l 1 es ≡ none
      → paginate_history c l n.match_id n.snapshot_id n.epoch es
        ≡ with_manifest c (length es) (pages_of c l n (length es) 0 es)
  unfolding paginate_history
  paginate_accepted v lv es pos valid =
      rw (lv, v.match_valid, v.snapshot_valid, v.epoch_valid) (ground (arith, valid))

  assembles :
      IsCodec c
      → limits_valid l ≡ true
      → (es : List PublicAction) → 0 < length es
      → validate_history c l 1 es ≡ none
      → {outcome : Option (Checked (List HistoryPage))} → Gathers c l n 0 (length es) [] es outcome
      → ((with_manifest c (length es) outcome ≡ some (err ErrorCode.frame_too_large))
          × Oversized c l n 0 es)
        ⊎ ((manifest : HistoryManifest) × (pages : List HistoryPage) × (with_manifest c
                (length es)
                outcome
              ≡ some (ok (manifest, pages)))
            × (assemble_history c l manifest pages n.match_id n.snapshot_id n.epoch ≡ ok es))
  assembles k lv es pos valid (inl (refused, large)) = inl (rw refused, large)
  assembles k lv es pos valid (inr p) = inr (
    manifest_of c (length es) p.pages,
    p.pages,
    rw p.given,
    assemble_gathered k lv es p.pages pos valid p.few (p.some_page pos) p.gathers,
  )

  -- A valid history of some events is made into pages that, assembled with their manifest for the
  -- same match, snapshot and epoch, give exactly those events in their order. The one way to fail is
  -- that a frame is too large, and then some event of the history, alone on a page of the same match,
  -- snapshot and epoch, is longer than a frame may be. The loop never runs out of fuel.
  pub assemble_history-paginate_history :
      IsCodec c
      → NamesValid n
      → limits_valid l ≡ true
      → (es : List PublicAction) → 0 < length es
      → validate_history c l 1 es ≡ none
      → ((paginate_history c l n.match_id n.snapshot_id n.epoch es
            ≡ some (err ErrorCode.frame_too_large))
          × Oversized c l n 0 es)
        ⊎ ((manifest : HistoryManifest) × (pages : List HistoryPage) × (paginate_history c l
                n.match_id n.snapshot_id n.epoch es
              ≡ some (ok (manifest, pages)))
            × (assemble_history c l manifest pages n.match_id n.snapshot_id n.epoch ≡ ok es))
  assemble_history-paginate_history k v lv es pos valid =
      let accepts = validate_history-accepts es valid in
      rw (paginate_accepted v lv es pos valid) (
        assembles k lv es pos valid (
          fill_pages-Gathers c l n k (limits_valid-Room l lv) v (length es) 0 0 (length es) [] es []
            none (omega arith) (omega arith) (omega arith) (omega arith) accepts.1))
