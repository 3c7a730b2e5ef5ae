-- ===== src/Contract/History/Acceptance.antt =====
-- What AssembleHistory accepts, and that nothing else passes under the same manifest.
use knowoff.Prelude.{
  ℕ, suc, ◌<◌, ◌≤◌, ◌≡◌, refl, sym, ap, ◌∙◌, true, none, some, List, [], ◌∷◌, ◌++◌, length, arith,
  inl, inr, map,
}
use mathlib.Core.List.{append_assoc, append-nil}
use knowoff.Contract.{PublicAction, Limits}
use knowoff.Contract.Sequence.{limits_valid}
use knowoff.Contract.Sequence.Laws.{same_text-eq}
use knowoff.Contract.History.{
  Codec, IsCodec, HistoryPage, HistoryManifest, Checked, ok, err, page_error, page_in_limits,
  page_cursor_valid, validate_history, gather, page_belongs, paginate_history, assemble_history,
  finish_history, manifest_valid,
}
use knowoff.Contract.History.Pages.{Names, NamesValid}
use knowoff.Contract.History.RoundTrip.{assemble_history-paginate_history}

abbrev pub events_of : List HistoryPage → List PublicAction
events_of [] = []
events_of (p ∷ ps) = p.events ++ events_of ps

abbrev pub hashes_of : List HistoryPage → List ℕ
hashes_of ps = map (λ p. p.sha256) ps

module _ (c : Codec) (l : Limits) (n : Names) where
  -- A page at index `i` of the snapshot, within the limits and with the hash of its events.
  pub record PageAccepted (i : ℕ) (p : HistoryPage) : Type 0 where
    pub of_match : p.match_id ≡ n.match_id
    pub of_snapshot : p.snapshot_id ≡ n.snapshot_id
    pub of_epoch : p.stream_epoch ≡ n.epoch
    pub at_index : p.index ≡ i
    pub some_event : 0 < length p.events
    pub room : length p.events ≤ l.max_history_page_events
    pub fits : c.page_bytes p ≤ l.max_frame_bytes
    pub hashed : p.sha256 ≡ c.events_hash p.events

  abbrev pub PagesAccepted : ℕ → List HistoryPage → Type 0
  PagesAccepted i [] = Unit
  PagesAccepted i (p ∷ ps) = PageAccepted i p × PagesAccepted (suc i) ps

  -- What the page's own checks, and the loop around them, have seen.
  page_error-accepts :
      (p : HistoryPage)
      → page_error c l p ≡ none
      → (0 < length p.events)
        × (length p.events ≤ l.max_history_page_events)
        × (p.sha256 ≡ c.events_hash p.events)
  unfolding page_error page_in_limits page_cursor_valid
  page_error-accepts p h = (ground arith, ground arith, ground arith)

  page_belongs-Names :
      (p : HistoryPage) (i : ℕ)
      → page_belongs p n.match_id n.snapshot_id n.epoch i ≡ true
      → (p.match_id ≡ n.match_id)
        × (p.snapshot_id ≡ n.snapshot_id)
        × (p.stream_epoch ≡ n.epoch)
        × (p.index ≡ i)
  page_belongs-Names p i h = (
    ground (arith, same_text-eq p.match_id n.match_id),
    ground (arith, same_text-eq p.snapshot_id n.snapshot_id),
    ground (arith, same_text-eq p.stream_epoch n.epoch),
    ground arith,
  )

  record Gathered (total i : ℕ) (gathered : List PublicAction) (p : HistoryPage)
      (ps : List HistoryPage) (es : List PublicAction) : Type 0 where
    belongs : page_belongs p n.match_id n.snapshot_id n.epoch i ≡ true
    passes : page_error c l p ≡ none
    fits : c.page_bytes p ≤ l.max_frame_bytes
    goes_on :
        gather c l n.match_id n.snapshot_id n.epoch total (suc i) (gathered ++ p.events) ps ≡ ok es

  gather-Gathered :
      (total i : ℕ) (gathered : List PublicAction) (p : HistoryPage) (ps : List HistoryPage)
      (es : List PublicAction)
      → gather c l n.match_id n.snapshot_id n.epoch total i gathered (p ∷ ps) ≡ ok es
      → Gathered total i gathered p ps es
  unfolding gather
  gather-Gathered total i gathered p ps es h = record {
    belongs = ground arith;
    passes = ground arith;
    fits = ground arith;
    goes_on = ground arith;
  }

  gather-PagesAccepted :
      (total i : ℕ) (gathered : List PublicAction) (ps : List HistoryPage) (es : List PublicAction)
      → gather c l n.match_id n.snapshot_id n.epoch total i gathered ps ≡ ok es
      → PagesAccepted i ps × (es ≡ gathered ++ events_of ps)
  gather-PagesAccepted total i gathered [] es h =
      (tt, let e : gathered ≡ es = unfold gather in cc in sym e ∙ sym (append-nil gathered))
  gather-PagesAccepted total i gathered (p ∷ ps) es h =
      let g = gather-Gathered total i gathered p ps es h in
      let checks = page_error-accepts p g.passes in
      let names = page_belongs-Names p i g.belongs in
      let rest = gather-PagesAccepted total (suc i) (gathered ++ p.events) ps es g.goes_on in
      (
        (
          record {
            of_match = names.0;
            of_snapshot = names.1;
            of_epoch = names.2;
            at_index = names.3;
            some_event = checks.0;
            room = checks.1;
            fits = g.fits;
            hashed = checks.2;
          },
          rest.0,
        ),
        rest.1 ∙ append_assoc gathered p.events (events_of ps),
      )

  -- An accepted history: what its manifest, its pages and its events have in common.
  pub record Accepted (m : HistoryManifest) (ps : List HistoryPage) (es : List PublicAction)
      : Type 0 where
    pub pages : PagesAccepted 0 ps
    pub whole : es ≡ events_of ps
    pub count : length es ≡ m.total_events
    pub page_total : length ps ≡ m.page_count
    pub root : c.root_hash (hashes_of ps) ≡ m.root_sha256
    pub valid : validate_history c l 1 es ≡ none

  after_gather :
      (m : HistoryManifest) (ps : List HistoryPage) (es : List PublicAction)
      → finish_history c l m ps (ok es) ≡ ok es
      → (length es ≡ m.total_events)
        × (c.root_hash (hashes_of ps) ≡ m.root_sha256)
        × (validate_history c l 1 es ≡ none)
  unfolding finish_history
  after_gather m ps es h = (ground arith, ground arith, ground arith)

  finish_history-gathered :
      (m : HistoryManifest) (ps : List HistoryPage) (es : List PublicAction)
      (g : Checked (List PublicAction))
      → finish_history c l m ps g ≡ ok es
      → (g ≡ ok es) × (finish_history c l m ps (ok es) ≡ ok es)
  unfolding finish_history
  finish_history-gathered m ps es (err e) h = absurd (ground arith)
  finish_history-gathered m ps es (ok fs) h =
      let same : fs ≡ es = ground arith in (ap ok same, rw same at h)

  assemble_history-finish :
      (m : HistoryManifest) (ps : List HistoryPage) (es : List PublicAction)
      → assemble_history c l m ps n.match_id n.snapshot_id n.epoch ≡ ok es
      → (length ps ≡ m.page_count)
        × (finish_history c l m ps
              (gather c l n.match_id n.snapshot_id n.epoch m.total_events 0 [] ps)
            ≡ ok es)
  unfolding assemble_history manifest_valid
  assemble_history-finish m ps es h = (ground arith, ground arith)

  -- Pages that are assembled are the pages of this match, snapshot and epoch in their order, each
  -- with an event, within the limits of a page and of a frame, and with the hash of its events; the
  -- events are all those of the pages in their order, as many as the manifest says and a valid
  -- history, and the hashes of the pages have the manifest's root hash.
  pub assemble_history-Accepted :
      (m : HistoryManifest) (ps : List HistoryPage) (es : List PublicAction)
      → assemble_history c l m ps n.match_id n.snapshot_id n.epoch ≡ ok es
      → Accepted m ps es
  assemble_history-Accepted m ps es h =
      let f = assemble_history-finish m ps es h in
      let g =
        finish_history-gathered m ps es
          (gather c l n.match_id n.snapshot_id n.epoch m.total_events 0 [] ps) f.1 in
      let ends = after_gather m ps es g.1 in
      let pages = gather-PagesAccepted m.total_events 0 [] ps es g.0 in
      record {
        pages = pages.0;
        whole = pages.1;
        count = ends.0;
        page_total = f.0;
        root = ends.1;
        valid = ends.2;
      }

  -- The pages that are made of a valid history are for this match, snapshot and epoch, numbered in
  -- their order, each with an event and the hash of its events, and each within the limits of a page
  -- and of a frame.
  pub paginate_history-PagesAccepted :
      IsCodec c
      → NamesValid n
      → limits_valid l ≡ true
      → (es : List PublicAction) → 0 < length es
      → validate_history c l 1 es ≡ none
      → (manifest : HistoryManifest) (pages : List HistoryPage)
      → paginate_history c l n.match_id n.snapshot_id n.epoch es ≡ some (ok (manifest, pages))
      → PagesAccepted 0 pages
  paginate_history-PagesAccepted k v lv es pos valid manifest pages made =
      elim (assemble_history-paginate_history c l n k v lv es pos valid) [
        | inl refused ↦ absurd (ground arith)
        | inr (m, ps, made', assembled) ↦
            let same : ps ≡ pages = cc in
            rw (← same) ((assemble_history-Accepted m ps es assembled).pages)
      ]

  -- No collision of hashes between two page sets: of the events of pages at the same place, nor of
  -- the lists of page hashes.
  abbrev pub PagesTell : List HistoryPage → List HistoryPage → Type 0
  PagesTell [] qs = Unit
  PagesTell (p ∷ ps) [] = Unit
  PagesTell (p ∷ ps) (q ∷ qs) =
      (c.events_hash p.events ≡ c.events_hash q.events → p.events ≡ q.events) × PagesTell ps qs

  pub record HashesTell (ps qs : List HistoryPage) : Type 0 where
    pub by_page : PagesTell ps qs
    pub by_root :
        c.root_hash (hashes_of ps) ≡ c.root_hash (hashes_of qs) → hashes_of ps ≡ hashes_of qs

  same_events :
      (i j : ℕ) (ps qs : List HistoryPage)
      → PagesAccepted i ps
      → PagesAccepted j qs
      → PagesTell ps qs
      → hashes_of ps ≡ hashes_of qs
      → events_of ps ≡ events_of qs
  same_events i j [] [] a b t h = refl
  same_events i j [] (q ∷ qs) a b t h = absurd (ground arith)
  same_events i j (p ∷ ps) [] a b t h = absurd (ground arith)
  same_events i j (p ∷ ps) (q ∷ qs) a b t h =
      let head : p.sha256 ≡ q.sha256 = cc in
      let tail : hashes_of ps ≡ hashes_of qs = cc in
      let rest = same_events (suc i) (suc j) ps qs a.1 b.1 t.1 tail in
      let first = t.0 (sym a.0.hashed ∙ head ∙ b.0.hashed) in rw (first, rest)

  -- Two page sets that are both assembled under one manifest give the same events, unless there is
  -- a collision of hashes between them.
  pub assemble_history_unique :
      (m : HistoryManifest) (ps qs : List HistoryPage) (es fs : List PublicAction)
      → HashesTell ps qs
      → assemble_history c l m ps n.match_id n.snapshot_id n.epoch ≡ ok es
      → assemble_history c l m qs n.match_id n.snapshot_id n.epoch ≡ ok fs
      → es ≡ fs
  assemble_history_unique m ps qs es fs t h k =
      let a = assemble_history-Accepted m ps es h in
      let b = assemble_history-Accepted m qs fs k in
      let hashes = t.by_root (a.root ∙ sym b.root) in
      a.whole ∙ same_events 0 0 ps qs a.pages b.pages t.by_page hashes ∙ sym b.whole
