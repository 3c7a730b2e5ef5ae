-- ===== src/Contract/History/Pages.antt =====
-- The pages that PaginateHistory gives pass AssembleHistory's checks one by one.
use knowoff.Prelude.{
  ℕ, suc, ◌+◌, ◌^◌, ◌<◌, ◌≤◌, ◌≡◌, refl, ap, ◌∙◌, true, none, List, [], ◌∷◌, ◌++◌, length, arith,
}
use knowoff.Contract.{PublicAction, Limits}
use knowoff.Contract.Sequence.{valid_identifier, limits_valid}
use knowoff.Contract.Sequence.Laws.{same_text_refl}
use knowoff.Contract.History.{
  Codec, IsCodec, HistoryPage, ok, fill_page, unhashed_page, sealed, page_error, page_in_limits,
  page_cursor_valid, last_seq, validate_history, check_events, page_belongs, contract_version,
}
use knowoff.Contract.History.Order.{Numbered}
use knowoff.Contract.History.Filling.{IsOpen, fill_page-Filled, fill_page_progress}

-- What one call names: a match, a snapshot and an epoch.
pub record Names : Type 0 where
  pub match_id : List ℕ
  pub snapshot_id : List ℕ
  pub epoch : List ℕ

pub record NamesValid (n : Names) : Type 0 where
  pub match_valid : valid_identifier n.match_id ≡ true
  pub snapshot_valid : valid_identifier n.snapshot_id ≡ true
  pub epoch_valid : valid_identifier n.epoch ≡ true

-- The limits as the loops use them.
pub record Room (l : Limits) : Type 0 where
  pub page_room : 0 < l.max_history_page_events
  pub pages_room : l.max_history_page_events ≤ l.max_history_events

pub limits_valid-Room : (l : Limits) → limits_valid l ≡ true → Room l
unfolding limits_valid
limits_valid-Room l h = record { page_room = ground arith; pages_room = ground arith }

abbrev pub start_page : Names → ℕ → PublicAction → HistoryPage
start_page n index e = unhashed_page n.match_id n.snapshot_id n.epoch index e.evidence_seq 0 []

start_page-IsOpen :
    (c : Codec) (l : Limits) (n : Names) (index : ℕ) (e : PublicAction)
    → IsOpen c l (start_page n index e)
start_page-IsOpen c l n index e = record {
  room = omega arith;
  unhashed = refl;
  fits = λ h. absurd (omega arith);
  through = λ h. absurd (omega arith);
}

pub Numbered-last :
    (i : ℕ) (es fs : List PublicAction)
    → i < 2 ^ 53
    → Numbered i (es ++ fs)
    → i + length es < 2 ^ 53
Numbered-last i [] fs small h = omega arith
Numbered-last i (e ∷ es) fs small h = omega (arith, Numbered-last (suc i) es fs h.1 h.2)

-- A page filled from a valid history, sealed, passes every check of HistoryPage.Validate.
module _ (c : Codec) (l : Limits) (n : Names) where
  -- The page filled from event number `i + 1` on, which is `taken` of the events that start with `e`.
  pub record Made (index i : ℕ) (page : HistoryPage) (taken : List PublicAction) : Type 0 where
    pub version : page.version ≡ contract_version
    pub match_id : page.match_id ≡ n.match_id
    pub snapshot_id : page.snapshot_id ≡ n.snapshot_id
    pub stream_epoch : page.stream_epoch ≡ n.epoch
    pub at_index : page.index ≡ index
    pub from : page.from_evidence_seq ≡ suc i
    pub events : page.events ≡ taken
    pub some_event : 0 < length page.events
    pub is_open : IsOpen c l page

  sealed_cursor :
      (index i : ℕ) (page : HistoryPage) (taken : List PublicAction)
      → Made index i page taken
      → i + length taken < 2 ^ 53
      → page_cursor_valid c (sealed c page) ≡ true
  unfolding page_cursor_valid last_seq
  sealed_cursor index i page taken m small =
      let through = m.is_open.through m.some_event in
      let count : length page.events ≡ length taken = ap length m.events in
      ground (arith, through, count, m.from)

  sealed_in_limits :
      (index i : ℕ) (page : HistoryPage) (taken : List PublicAction)
      → NamesValid n
      → Made index i page taken
      → index < l.max_history_events
      → page_in_limits (sealed c page) l ≡ true
  unfolding page_in_limits
  sealed_in_limits index i page taken v m small =
      rw (m.match_id, m.snapshot_id, m.stream_epoch)
        (ground (
          arith, v.match_valid, v.snapshot_valid, v.epoch_valid, m.some_event, m.is_open.room,
          m.at_index,
        ))

  sealed_history :
      (index i : ℕ) (page : HistoryPage) (taken : List PublicAction)
      → Room l
      → Made index i page taken
      → check_events c l (suc i) 0 [] none taken ≡ none
      → validate_history c l page.from_evidence_seq page.events ≡ none
  unfolding validate_history
  sealed_history index i page taken r m h =
      rw (m.from, m.events) (ground (arith, m.is_open.room, ap length m.events))

  pub sealed-passes :
      (index i : ℕ) (page : HistoryPage) (taken : List PublicAction)
      → Room l
      → NamesValid n
      → Made index i page taken
      → i + length taken < 2 ^ 53
      → index < l.max_history_events
      → check_events c l (suc i) 0 [] none taken ≡ none
      → page_error c l (sealed c page) ≡ none
  unfolding page_error
  sealed-passes index i page taken r v m small in_range h = ground (
    arith,
    m.version,
    sealed_cursor index i page taken m small,
    sealed_in_limits index i page taken v m in_range,
    sealed_history index i page taken r m h,
  )

  pub sealed_fits :
      IsCodec c
      → (index i : ℕ) (page : HistoryPage) (taken : List PublicAction) → Made index i page taken
      → c.page_bytes (sealed c page) ≤ l.max_frame_bytes
  sealed_fits k index i page taken m =
      rw
        (k.page_bytes_hash page (c.events_hash page.events) (omega (arith, m.is_open.unhashed))
          (k.events_hash_fits page.events))
        (m.is_open.fits m.some_event)

  pub sealed-belongs :
      (index i : ℕ) (page : HistoryPage) (taken : List PublicAction)
      → Made index i page taken
      → page_belongs (sealed c page) n.match_id n.snapshot_id n.epoch index ≡ true
  sealed-belongs index i page taken m =
      rw (m.match_id, m.snapshot_id, m.stream_epoch)
        (ground (
          arith,
          m.at_index,
          same_text_refl n.match_id,
          same_text_refl n.snapshot_id,
          same_text_refl n.epoch,
        ))

  -- The first page of what is left of a valid history.
  pub fill_page-Made :
      (index i : ℕ) (e : PublicAction) (es : List PublicAction) (page : HistoryPage)
      (left : List PublicAction)
      → Room l
      → Numbered i (e ∷ es)
      → fill_page c l (start_page n index e) (e ∷ es) ≡ ok (page, left)
      → (taken : List PublicAction) × (e ∷ es ≡ taken ++ left) × Made index i page taken
  fill_page-Made index i e es page left r num h =
      let place : e.evidence_seq + 0 ≡ suc i = omega (arith, num.0) in
      let open_page = start_page-IsOpen c l n index e in
      let f =
        fill_page-Filled c l (start_page n index e) page i (e ∷ es) left r.page_room num place
          open_page h in
      (
        f.taken,
        f.split,
        record {
          version = f.extends.version;
          match_id = f.extends.match_id;
          snapshot_id = f.extends.snapshot_id;
          stream_epoch = f.extends.stream_epoch;
          at_index = f.extends.index;
          from = f.extends.from ∙ num.0;
          events = f.extends.events;
          some_event =
              fill_page_progress c l (start_page n index e) page i e es left r.page_room num place
                open_page h;
          is_open = f.is_open;
        },
      )
