-- ===== src/Contract/History/Filling.antt =====
-- The inner loop of PaginateHistory: what is put on a page, and what is left.
use knowoff.Prelude.{
  ℕ, suc, ◌+◌, ◌<◌, ◌≤◌, ◌≡◌, refl, sym, ap, ◌∙◌, List, [], ◌∷◌, ◌++◌, length, length-append, ltb,
  ◌==◌, arith, ◌⊎◌, inl, inr, Bool-cases,
}
use mathlib.Core.List.{append_assoc, append-nil}
use knowoff.Contract.{PublicAction, Limits, ErrorCode}
use knowoff.Contract.History.{Codec, HistoryPage, Checked, ok, err, fill_page, with_event}
use knowoff.Contract.History.Order.{Numbered}

-- A page that is being filled: what holds of it once it has an event.
pub record IsOpen (c : Codec) (l : Limits) (page : HistoryPage) : Type 0 where
  pub room : length page.events ≤ l.max_history_page_events
  pub unhashed : page.sha256 ≡ 0
  pub fits : 0 < length page.events → c.page_bytes page ≤ l.max_frame_bytes
  pub through :
      0 < length page.events
      → suc page.through_evidence_seq ≡ page.from_evidence_seq + length page.events

-- One page is the other with `taken` put on it.
pub record Extends (page page' : HistoryPage) (taken : List PublicAction) : Type 0 where
  pub version : page'.version ≡ page.version
  pub match_id : page'.match_id ≡ page.match_id
  pub snapshot_id : page'.snapshot_id ≡ page.snapshot_id
  pub stream_epoch : page'.stream_epoch ≡ page.stream_epoch
  pub index : page'.index ≡ page.index
  pub from : page'.from_evidence_seq ≡ page.from_evidence_seq
  pub events : page'.events ≡ page.events ++ taken

-- Where the loop stops: the page filled, and the events that it leaves.
pub record Filled (c : Codec) (l : Limits) (page : HistoryPage) (es : List PublicAction)
    (page' : HistoryPage) (left : List PublicAction) : Type 0 where
  pub taken : List PublicAction
  pub split : es ≡ taken ++ left
  pub extends : Extends page page' taken
  pub is_open : IsOpen c l page'

Extends-none : (page : HistoryPage) → Extends page page []
Extends-none page = record {
  version = refl;
  match_id = refl;
  snapshot_id = refl;
  stream_epoch = refl;
  index = refl;
  from = refl;
  events = sym (append-nil page.events);
}

Extends-cons :
    (page page' : HistoryPage) (e : PublicAction) (taken : List PublicAction)
    → Extends (with_event page e) page' taken
    → Extends page page' (e ∷ taken)
Extends-cons page page' e taken x = record {
  version = x.version;
  match_id = x.match_id;
  snapshot_id = x.snapshot_id;
  stream_epoch = x.stream_epoch;
  index = x.index;
  from = x.from;
  events = x.events ∙ append_assoc page.events (e ∷ []) taken;
}

module _ (c : Codec) (l : Limits) where
  with_event-IsOpen :
      (page : HistoryPage) (e : PublicAction)
      → IsOpen c l page
      → length page.events < l.max_history_page_events
      → c.page_bytes (with_event page e) ≤ l.max_frame_bytes
      → suc e.evidence_seq ≡ page.from_evidence_seq + length page.events + 1
      → IsOpen c l (with_event page e)
  with_event-IsOpen page e o more fits next = record {
    room = omega (arith, length-append page.events (e ∷ []));
    unhashed = refl;
    fits = λ h. fits;
    through = λ h. omega (arith, length-append page.events (e ∷ []));
  }

  stops :
      (page : HistoryPage) (es : List PublicAction) → IsOpen c l page → Filled c l page es page es
  stops page es o = record { taken = []; split = refl; extends = Extends-none page; is_open = o }

  takes :
      (page page' : HistoryPage) (e : PublicAction) (es left : List PublicAction)
      → Filled c l (with_event page e) es page' left
      → Filled c l page (e ∷ es) page' left
  takes page page' e es left f = record {
    taken = e ∷ f.taken;
    split = ap (◌∷◌ e) f.split;
    extends = Extends-cons page page' e f.taken f.extends;
    is_open = f.is_open;
  }

  -- What the loop does at an event: it stops before it, refuses it, or goes on behind it.
  data Turn (page : HistoryPage) (e : PublicAction) (es : List PublicAction) : Type 0 where
    full : fill_page c l page (e ∷ es) ≡ ok (page, e ∷ es) → 0 < length page.events → Turn page e es
    refused :
        fill_page c l page (e ∷ es) ≡ err ErrorCode.frame_too_large
        → length page.events ≡ 0
        → l.max_frame_bytes < c.page_bytes (with_event page e)
        → Turn page e es
    goes_on :
        length page.events < l.max_history_page_events
        → c.page_bytes (with_event page e) ≤ l.max_frame_bytes
        → fill_page c l page (e ∷ es) ≡ fill_page c l (with_event page e) es
        → Turn page e es

  fill_page-Turn :
      (page : HistoryPage) (e : PublicAction) (es : List PublicAction)
      → 0 < l.max_history_page_events
      → Turn page e es
  unfolding fill_page
  fill_page-Turn page e es pos =
      elim (Bool-cases (ltb (length page.events) l.max_history_page_events)) [
        | inr no_room ↦ full (ground arith) (ground arith)
        | inl more ↦ elim (Bool-cases (ltb l.max_frame_bytes (c.page_bytes (with_event page e)))) [
          | inr fits ↦ goes_on (ground arith) (ground arith) (ground arith)
          | inl large ↦ elim (Bool-cases (length page.events == 0)) [
            | inl empty ↦ refused (ground arith) (ground arith) (ground arith)
            | inr some_event ↦ full (ground arith) (ground arith)
          ]
        ]
      ]

  -- The page starts where event number `i + 1` is its next.
  abbrev AtPlace : HistoryPage → ℕ → Type 0
  AtPlace page i = page.from_evidence_seq + length page.events ≡ suc i

  with_event-AtPlace :
      (page : HistoryPage) (e : PublicAction) (i : ℕ)
      → AtPlace page i
      → AtPlace (with_event page e) (suc i)
  with_event-AtPlace page e i h = omega (arith, length-append page.events (e ∷ []))

  moved :
      (page page' : HistoryPage) (es left : List PublicAction)
      → IsOpen c l page
      → ◌≡◌ {A = Checked (HistoryPage × List PublicAction)} (ok (page, es)) (ok (page', left))
      → Filled c l page es page' left
  moved page page' es left o h =
      let same_page : page ≡ page' = cc in
      let same_left : es ≡ left = cc in rw (← same_page, ← same_left) (stops page es o)

  -- What fill_page gives: the events in their order, some on the page and the others left.
  pub fill_page-Filled :
      (page page' : HistoryPage) (i : ℕ) (es left : List PublicAction)
      → 0 < l.max_history_page_events
      → Numbered i es
      → AtPlace page i
      → IsOpen c l page
      → fill_page c l page es ≡ ok (page', left)
      → Filled c l page es page' left
  fill_page-Filled page page' i [] left pos num place o h =
      moved page page' [] left o (unfold fill_page in h)
  fill_page-Filled page page' i (e ∷ es) left pos num place o h =
      elim (fill_page-Turn page e es pos) [
        | full stop _ ↦ moved page page' (e ∷ es) left o (rw stop at h)
        | refused no_page _ _ ↦ cc
        | goes_on more fits on ↦ takes page page' e es left (
            fill_page-Filled (with_event page e) page' (suc i) es left pos num.2
              (with_event-AtPlace page e i place)
              (with_event-IsOpen page e o more fits (omega (arith, num.0))) (rw on at h))
      ]

  -- A page that has an event is never refused: the loop stops instead.
  fill_page_goes_on :
      (page : HistoryPage) (es : List PublicAction)
      → 0 < l.max_history_page_events
      → 0 < length page.events
      → (r : HistoryPage × List PublicAction) × (fill_page c l page es ≡ ok r)
  fill_page_goes_on page [] pos some_event = ((page, []), unfold fill_page in refl)
  fill_page_goes_on page (e ∷ es) pos some_event = elim (fill_page-Turn page e es pos) [
    | full stop _ ↦ ((page, e ∷ es), stop)
    | refused no_page empty large ↦ absurd (omega (arith, empty, some_event))
    | goes_on more fits on ↦ rw on (
        fill_page_goes_on (with_event page e) es pos
          (omega (arith, length-append page.events (e ∷ []))))
  ]

  -- Its only error is at the first event, for which an empty page is too small.
  pub fill_page_error :
      (page : HistoryPage) (e : PublicAction) (es : List PublicAction)
      → 0 < l.max_history_page_events
      → ((fill_page c l page (e ∷ es) ≡ err ErrorCode.frame_too_large)
          × (length page.events ≡ 0)
          × (l.max_frame_bytes < c.page_bytes (with_event page e)))
        ⊎ ((r : HistoryPage × List PublicAction) × (fill_page c l page (e ∷ es) ≡ ok r))
  fill_page_error page e es pos = elim (fill_page-Turn page e es pos) [
    | full stop _ ↦ inr ((page, e ∷ es), stop)
    | refused no_page empty large ↦ inl (no_page, empty, large)
    | goes_on more fits on ↦ rw on (
        inr (
          fill_page_goes_on (with_event page e) es pos
            (omega (arith, length-append page.events (e ∷ [])))))
  ]

  -- An empty page takes at least one event.
  pub fill_page_progress :
      (page page' : HistoryPage) (i : ℕ) (e : PublicAction) (es left : List PublicAction)
      → 0 < l.max_history_page_events
      → Numbered i (e ∷ es)
      → AtPlace page i
      → IsOpen c l page
      → fill_page c l page (e ∷ es) ≡ ok (page', left)
      → 0 < length page'.events
  fill_page_progress page page' i e es left pos num place o h =
      elim (fill_page-Turn page e es pos) [
        | full stop some_event ↦ let same : page ≡ page' = cc in rw (← same) some_event
        | refused no_page _ _ ↦ cc
        | goes_on more fits on ↦
            let f =
              fill_page-Filled (with_event page e) page' (suc i) es left pos num.2
                (with_event-AtPlace page e i place)
                (with_event-IsOpen page e o more fits (omega (arith, num.0))) (rw on at h) in
            let grown : length page'.events ≡ length ((page.events ++ (e ∷ [])) ++ f.taken) =
              ap length f.extends.events in
            omega (
              arith,
              grown,
              length-append (page.events ++ (e ∷ [])) f.taken,
              length-append page.events (e ∷ []),
            )
      ]
