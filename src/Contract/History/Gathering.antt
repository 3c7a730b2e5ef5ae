-- ===== src/Contract/History/Gathering.antt =====
-- The pages of a valid history, gathered one after the other, give its events in their order.
use knowoff.Prelude.{
  ℕ, zero, suc, ◌+◌, ◌^◌, ◌<◌, ◌≤◌, ◌≡◌, refl, sym, ap, ◌∙◌, true, Option, none, some, List, [],
  ◌∷◌, ◌++◌, length, length-append, arith, ◌⊎◌, inl, inr,
}
use mathlib.Core.Path.{subst}
use mathlib.Core.List.{append_assoc, append-nil}
use knowoff.Contract.{PublicAction, Limits, ErrorCode}
use knowoff.Contract.History.{
  Codec, IsCodec, HistoryPage, Checked, ok, err, fill_page, fill_pages, sealed, add_page,
  with_event, page_error, check_events, gather, page_belongs,
}
use knowoff.Contract.History.Order.{
  Numbered, check_events-Numbered, check_events_alone, check_events_front, check_events_back,
}
use knowoff.Contract.History.Filling.{fill_page_error}
use knowoff.Contract.History.Pages.{
  Names, NamesValid, Room, start_page, Made, sealed-passes, sealed_fits, sealed-belongs,
  fill_page-Made, Numbered-last,
}

module _ (c : Codec) (l : Limits) (n : Names) where
  gather_step :
      (total i : ℕ) (gathered : List PublicAction) (page : HistoryPage) (pages : List HistoryPage)
      → page_belongs page n.match_id n.snapshot_id n.epoch i ≡ true
      → page_error c l page ≡ none
      → c.page_bytes page ≤ l.max_frame_bytes
      → length gathered + length page.events ≤ total
      → gather c l n.match_id n.snapshot_id n.epoch total i gathered (page ∷ pages)
        ≡ gather c l n.match_id n.snapshot_id n.epoch total (suc i) (gathered ++ page.events) pages
  unfolding gather
  gather_step total i gathered page pages belongs passes fits room =
      rw (belongs, passes) (ground arith)

  -- The pages made of the events `es`, and what the receiver gathers from them.
  pub record Paged (index total : ℕ) (gathered es : List PublicAction)
      (outcome : Option (Checked (List HistoryPage))) : Type 0 where
    pub pages : List HistoryPage
    pub given : outcome ≡ some (ok pages)
    pub gathers :
        gather c l n.match_id n.snapshot_id n.epoch total index gathered pages ≡ ok (gathered ++ es)
    pub few : length pages ≤ length es
    pub some_page : 0 < length es → 0 < length pages

  -- An event of the list that does not fit in a frame, even alone on its page.
  pub record Oversized (index : ℕ) (es : List PublicAction) : Type 0 where
    pub before : List PublicAction
    pub event : PublicAction
    pub behind : List PublicAction
    pub split : es ≡ before ++ (event ∷ behind)
    pub page_index : ℕ
    pub few : page_index ≤ index + length before
    pub large : l.max_frame_bytes < c.page_bytes (with_event (start_page n page_index event) event)

  Oversized-behind :
      (index : ℕ) (taken left : List PublicAction)
      → 0 < length taken
      → Oversized (suc index) left
      → Oversized index (taken ++ left)
  Oversized-behind index taken left some_event o = record {
    before = taken ++ o.before;
    event = o.event;
    behind = o.behind;
    split = ap (λ x. taken ++ x) o.split ∙ sym (append_assoc taken o.before (o.event ∷ o.behind));
    page_index = o.page_index;
    few = omega (arith, o.few, length-append taken o.before, some_event);
    large = o.large;
  }

  abbrev pub Gathers :
      ℕ → ℕ → List PublicAction → List PublicAction → Option (Checked (List HistoryPage)) → Type 0
  Gathers index total gathered es outcome =
      ((outcome ≡ some (err ErrorCode.frame_too_large)) × Oversized index es)
      ⊎ Paged index total gathered es outcome

  -- A page made of the front, before the pages of what it leaves.
  Paged-cons :
      IsCodec c
      → Room l
      → NamesValid n
      → (index i total : ℕ) (gathered taken left : List PublicAction) (page : HistoryPage)
        (rest : Option (Checked (List HistoryPage)))
      → Made c l n index i page taken
      → i + length taken < 2 ^ 53
      → index < l.max_history_events
      → length gathered + length taken ≤ total
      → check_events c l (suc i) 0 [] none taken ≡ none
      → Paged (suc index) total (gathered ++ taken) left rest
      → Paged index total gathered (taken ++ left) (add_page (sealed c page) rest)
  Paged-cons k r v index i total gathered taken left page rest m small in_range room h p = record {
    pages = sealed c page ∷ p.pages;
    given = rw p.given;
    gathers =
        gather_step total index gathered (sealed c page) p.pages
          (sealed-belongs c l n index i page taken m)
          (sealed-passes c l n index i page taken r v m small in_range h)
          (sealed_fits c l n k index i page taken m) (omega (arith, ap length m.events))
        ∙ rw (m.events) p.gathers
        ∙ ap ok (append_assoc gathered taken left);
    few = omega (arith, p.few, ap length m.events, m.some_event, length-append taken left);
    some_page = λ h. omega arith;
  }

  abbrev pub pages_of : ℕ → ℕ → List PublicAction → Option (Checked (List HistoryPage))
  pages_of fuel index es = fill_pages c l n.match_id n.snapshot_id n.epoch fuel index es

  fill_pages_step :
      (fuel index : ℕ) (e : PublicAction) (es : List PublicAction) (page : HistoryPage)
      (left : List PublicAction)
      → fill_page c l (start_page n index e) (e ∷ es) ≡ ok (page, left)
      → pages_of (suc fuel) index (e ∷ es)
        ≡ add_page (sealed c page) (pages_of fuel (suc index) left)
  unfolding fill_pages
  fill_pages_step fuel index e es page left h = rw (h, fill_pages)

  fill_pages_refused :
      (fuel index : ℕ) (e : PublicAction) (es : List PublicAction)
      → fill_page c l (start_page n index e) (e ∷ es) ≡ err ErrorCode.frame_too_large
      → pages_of (suc fuel) index (e ∷ es) ≡ some (err ErrorCode.frame_too_large)
  unfolding fill_pages
  fill_pages_refused fuel index e es h = rw (h, fill_pages)

  Gathers-cons :
      IsCodec c
      → Room l
      → NamesValid n
      → (index i total : ℕ) (gathered taken left : List PublicAction) (page : HistoryPage)
        (rest : Option (Checked (List HistoryPage)))
      → Made c l n index i page taken
      → i + length taken < 2 ^ 53
      → index < l.max_history_events
      → length gathered + length taken ≤ total
      → check_events c l (suc i) 0 [] none taken ≡ none
      → Gathers (suc index) total (gathered ++ taken) left rest
      → Gathers index total gathered (taken ++ left) (add_page (sealed c page) rest)
  Gathers-cons k r v index i total gathered taken left page rest m small in_range room h
        (inl (e, o)) =
      inl (
        rw e,
        Oversized-behind index taken left (omega (arith, m.some_event, ap length m.events)) o,
      )
  Gathers-cons k r v index i total gathered taken left page rest m small in_range room h (inr p) =
      inr (Paged-cons k r v index i total gathered taken left page rest m small in_range room h p)

  -- The outer loop, from event number `i + 1` on and behind `index` pages.
  pub fill_pages-Gathers :
      IsCodec c
      → Room l
      → NamesValid n
      → (fuel index i total : ℕ) (gathered es : List PublicAction) (seen : List ℕ)
        (before : Option PublicAction)
      → length es ≤ fuel
      → index + length es ≤ l.max_history_events
      → length gathered + length es ≤ total
      → i < 2 ^ 53
      → check_events c l 1 i seen before es ≡ none
      → Gathers index total gathered es (pages_of fuel index es)
  fill_pages-Gathers k r v fuel index i total gathered [] seen before enough few room small h =
      inr (record {
        pages = [];
        given = unfold fill_pages in refl;
        gathers = unfold gather in ap ok (sym (append-nil gathered));
        few = omega arith;
        some_page = λ p. absurd (omega arith);
      })
  fill_pages-Gathers k r v zero index i total gathered (e ∷ es) seen before enough few room small
        h =
      absurd (omega arith)
  fill_pages-Gathers k r v (suc fuel) index i total gathered (e ∷ es) seen before enough few room
        small h =
      elim (fill_page_error c l (start_page n index e) e es r.page_room) [
        | inl (refused, _, large) ↦ inl (
          fill_pages_refused fuel index e es refused,
          record {
            before = [];
            event = e;
            behind = es;
            split = refl;
            page_index = index;
            few = omega arith;
            large = large;
          },
        )
        | inr ((page, left), filled) ↦
            let num = check_events-Numbered c l i seen before (e ∷ es) small h in
            let (taken, split, made) = fill_page-Made c l n index i e es page left r num filled in
            let whole = rw split at h in
            let (known, last, after_taken) =
              check_events_back c l 1 i seen before taken left whole in
            let count : suc (length es) ≡ length taken + length left =
              ap length split ∙ length-append taken left in
            let taken_some : 0 < length taken =
              omega (arith, made.some_event, ap length made.events) in
            let fits : i + length taken < 2 ^ 53 =
              Numbered-last i taken left small (subst (Numbered i) split num) in
            let one : 1 + i ≡ suc i = omega arith in
            rw (fill_pages_step fuel index e es page left filled, split)
              (Gathers-cons k r v index i total gathered taken left page
                (pages_of fuel (suc index) left) made fits (omega arith) (omega arith)
                (rw one at (
                  check_events_alone c l 1 i seen before taken
                    (check_events_front c l 1 i seen before taken left whole)))
                (fill_pages-Gathers k r v fuel (suc index) (i + length taken) total
                  (gathered ++ taken) left known last (omega arith) (omega arith)
                  (omega (arith, length-append gathered taken)) fits after_taken))
      ]
