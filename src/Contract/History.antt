-- ===== src/Contract/History.antt =====
-- The history of public events in bounded pages: server/internal/transport/v2/history.go. The
-- SHA-256 hashes and the length of an encoded page are those of libraries, so a `Codec` gives them;
-- a hash of 64 hexadecimal digits is the number that it writes. The copy of the pages through JSON,
-- which only detaches them from the caller's memory, gives the same pages.
mod Order
mod Filling
mod Pages
mod Gathering
mod RoundTrip
mod Acceptance
mod Examples
use Prim.Native.String.{String}
use knowoff.Prelude.{
  ℕ, zero, suc, ◌+◌, ◌-◌, ◌^◌, ◌<◌, ◌≡◌, Bool, true, false, ◌&&◌, ◌||◌, Option, none, some, List,
  [], ◌∷◌, ◌++◌, length, not, ltb, leb, ◌==◌, if◌then◌else◌, elem, map,
}
use knowoff.Contract.{PublicAction, Limits, ErrorCode, u64}
use knowoff.Contract.Sequence.{valid_identifier, safe, limits_valid, same_text}
use knowoff.Contract.Events.{event_valid}

pub data Checked {ℓ} (A : Type ℓ) : Type ℓ where
  ok : A → Checked A
  err : ErrorCode → Checked A

abbrev pub refuse_unless {ℓ} : {A : Type ℓ} → Bool → ErrorCode → Checked A → Checked A
refuse_unless true e rest = rest
refuse_unless false e rest = err e

abbrev pub passing {ℓ} : {A : Type ℓ} → Option ErrorCode → Checked A → Checked A
passing none rest = rest
passing (some e) rest = err e

pub record HistoryPage : Type 0 where
  pub version : ℕ
  pub match_id : List ℕ
  pub snapshot_id : List ℕ
  pub stream_epoch : List ℕ
  pub index : ℕ
  pub from_evidence_seq : ℕ
  pub through_evidence_seq : ℕ
  pub events : List PublicAction
  pub sha256 : ℕ

pub record HistoryManifest : Type 0 where
  pub total_events : ℕ
  pub page_count : ℕ
  pub through_evidence_seq : ℕ
  pub root_sha256 : ℕ

-- `eventsHash`, `rootHash` of the page hashes, `len(json.Marshal(page))` and ValidContentLanguage.
pub record Codec : Type 0 where
  pub events_hash : List PublicAction → ℕ
  pub root_hash : List ℕ → ℕ
  pub page_bytes : HistoryPage → ℕ
  pub language_valid : String → Bool

abbrev pub hash_limit : ℕ
hash_limit = 2 ^ 256

-- What the code relies on: a hash has 256 bits, and a page is as long with one hash as with another.
pub record IsCodec (c : Codec) : Type 0 where
  pub events_hash_fits : (es : List PublicAction) → c.events_hash es < hash_limit
  pub root_hash_fits : (hs : List ℕ) → c.root_hash hs < hash_limit
  pub page_bytes_hash :
      (p : HistoryPage) (h : ℕ)
      → p.sha256 < hash_limit
      → h < hash_limit
      → c.page_bytes (record p { sha256 = h }) ≡ c.page_bytes p

-- Where two events may stand one after the other.
unfoldable pub may_follow : PublicAction → PublicAction → Bool
may_follow before e =
    leb before.round e.round
    && (leb before.server_time_ms e.server_time_ms && leb before.after_revision e.before_revision)

abbrev pub follows : Option PublicAction → PublicAction → Bool
follows none e = true
follows (some before) e = may_follow before e

-- The loop of validateHistory at index `i`, behind the events whose ids are `seen`.
unfoldable pub check_events :
    Codec → Limits → ℕ → ℕ → List ℕ → Option PublicAction → List PublicAction → Option ErrorCode
check_events c l from i seen before [] = none
check_events c l from i seen before (e ∷ es) =
    let rest = check_events c l from (suc i) (e.event_id ∷ seen) (some e) es in
    if not (event_valid c.language_valid e l)
    then some ErrorCode.malformed
    else (if not (e.evidence_seq == u64 (from + i)) || elem e.event_id seen
        then some ErrorCode.history_integrity
        else (if not (follows before e) then some ErrorCode.history_integrity else rest))

unfoldable pub validate_history : Codec → Limits → ℕ → List PublicAction → Option ErrorCode
unfolding check_events
validate_history c l from es =
    if ltb l.max_history_events (length es)
    then some ErrorCode.history_limit
    else check_events c l from 0 [] none es

abbrev pub contract_version : ℕ
contract_version = 2

unfoldable pub page_in_limits : HistoryPage → Limits → Bool
page_in_limits p l =
    valid_identifier p.match_id
    && (valid_identifier p.snapshot_id
        && (valid_identifier p.stream_epoch
            && (ltb p.index l.max_history_events
                && (not (length p.events == 0)
                    && leb (length p.events) l.max_history_page_events))))

-- `p.FromEvidenceSeq+uint64(len(p.Events))-1`
unfoldable pub last_seq : ℕ → ℕ → ℕ
last_seq from count = u64 (u64 (from + count) + 2 ^ 64 - 1)

unfoldable pub page_cursor_valid : Codec → HistoryPage → Bool
unfolding last_seq
page_cursor_valid c p =
    not (p.from_evidence_seq == 0)
    && (safe p.from_evidence_seq
        && (safe p.through_evidence_seq
            && ((p.through_evidence_seq == last_seq p.from_evidence_seq (length p.events))
                && (p.sha256 == c.events_hash p.events))))

-- `HistoryPage.Validate`
unfoldable pub page_error : Codec → Limits → HistoryPage → Option ErrorCode
page_error c l p =
    if not (p.version == contract_version)
    then some ErrorCode.version
    else (if not (page_in_limits p l)
        then some ErrorCode.history_limit
        else (if not (page_cursor_valid c p)
            then some ErrorCode.history_integrity
            else validate_history c l p.from_evidence_seq p.events))

abbrev pub unhashed_page : List ℕ → List ℕ → List ℕ → ℕ → ℕ → ℕ → List PublicAction → HistoryPage
unhashed_page match_id snapshot_id epoch index from through es = record {
  version = contract_version;
  match_id = match_id;
  snapshot_id = snapshot_id;
  stream_epoch = epoch;
  index = index;
  from_evidence_seq = from;
  through_evidence_seq = through;
  events = es;
  sha256 = 0;
}

abbrev pub with_event : HistoryPage → PublicAction → HistoryPage
with_event page e = record page {
  events = page.events ++ (e ∷ []);
  through_evidence_seq = e.evidence_seq;
  sha256 = 0;
}

-- The inner loop: events are put on the page while it has room. The page and the events left.
unfoldable pub fill_page :
    Codec → Limits → HistoryPage → List PublicAction → Checked (HistoryPage × List PublicAction)
fill_page c l page [] = ok (page, [])
fill_page c l page (e ∷ es) =
    let rest = fill_page c l (with_event page e) es in
    if ltb (length page.events) l.max_history_page_events
    then (if ltb l.max_frame_bytes (c.page_bytes (with_event page e))
        then (if length page.events == 0 then err ErrorCode.frame_too_large else ok (page, e ∷ es))
        else rest)
    else ok (page, e ∷ es)

abbrev pub sealed : Codec → HistoryPage → HistoryPage
sealed c page = record page { sha256 = c.events_hash page.events }

abbrev pub add_page :
    HistoryPage → Option (Checked (List HistoryPage)) → Option (Checked (List HistoryPage))
add_page page none = none
add_page page (some (err e)) = some (err e)
add_page page (some (ok pages)) = some (ok (page ∷ pages))

-- The outer loop, a unit of fuel for each page; `index` pages stand before those that it gives.
unfoldable pub fill_pages :
    Codec
    → Limits
    → List ℕ
    → List ℕ
    → List ℕ
    → ℕ
    → ℕ
    → List PublicAction
    → Option (Checked (List HistoryPage))
fill_pages c l match_id snapshot_id epoch fuel index [] = some (ok [])
fill_pages c l match_id snapshot_id epoch zero index (e ∷ es) = none
fill_pages c l match_id snapshot_id epoch (suc fuel) index (e ∷ es) =
    elim (fill_page c l (unhashed_page match_id snapshot_id epoch index e.evidence_seq 0 [])
      (e ∷ es)) [
        | err code ↦ some (err code)
        | ok (page, left) ↦
            add_page (sealed c page)
              (fill_pages c l match_id snapshot_id epoch fuel (suc index) left)
      ]

unfoldable pub manifest_of : Codec → ℕ → List HistoryPage → HistoryManifest
manifest_of c total pages = record {
  total_events = total;
  page_count = length pages;
  through_evidence_seq = u64 total;
  root_sha256 = c.root_hash (map (λ p. p.sha256) pages);
}

abbrev pub with_manifest :
    Codec
    → ℕ
    → Option (Checked (List HistoryPage))
    → Option (Checked (HistoryManifest × List HistoryPage))
with_manifest c total none = none
with_manifest c total (some (err e)) = some (err e)
with_manifest c total (some (ok pages)) = some (ok (manifest_of c total pages, pages))

abbrev pub refused_pages : ErrorCode → Option (Checked (HistoryManifest × List HistoryPage))
refused_pages e = some (err e)

-- `PaginateHistory`, with fuel for as many pages as there are events.
unfoldable pub paginate_history :
    Codec
    → Limits
    → List ℕ
    → List ℕ
    → List ℕ
    → List PublicAction
    → Option (Checked (HistoryManifest × List HistoryPage))
unfolding fill_pages
paginate_history c l match_id snapshot_id epoch es =
    if not (limits_valid l)
    then refused_pages ErrorCode.malformed
    else (if not (valid_identifier match_id)
          || (not (valid_identifier snapshot_id) || not (valid_identifier epoch))
        then refused_pages ErrorCode.malformed
        else (if length es == 0
            then refused_pages ErrorCode.history_integrity
            else elim (validate_history c l 1 es) [
              | some e ↦ refused_pages e
              | none ↦
                  with_manifest c (length es)
                    (fill_pages c l match_id snapshot_id epoch (length es) 0 es)
            ]))

unfoldable pub manifest_valid : HistoryManifest → ℕ → Limits → Bool
manifest_valid m pages l =
    ltb 0 m.total_events
    && (leb m.total_events l.max_history_events
        && (ltb 0 m.page_count
            && (leb m.page_count m.total_events
                && ((pages == m.page_count)
                    && ((m.through_evidence_seq == u64 m.total_events)
                        && ltb m.root_sha256 hash_limit)))))

abbrev pub page_belongs : HistoryPage → List ℕ → List ℕ → List ℕ → ℕ → Bool
page_belongs page match_id snapshot_id epoch i =
    same_text page.match_id match_id
    && (same_text page.snapshot_id snapshot_id
        && (same_text page.stream_epoch epoch && (page.index == i)))

-- The loop of AssembleHistory at page `i`, behind `gathered` events.
unfoldable pub gather :
    Codec
    → Limits
    → List ℕ
    → List ℕ
    → List ℕ
    → ℕ
    → ℕ
    → List PublicAction
    → List HistoryPage
    → Checked (List PublicAction)
gather c l match_id snapshot_id epoch total i gathered [] = ok gathered
gather c l match_id snapshot_id epoch total i gathered (page ∷ pages) =
    let rest =
      gather c l match_id snapshot_id epoch total (suc i) (gathered ++ page.events) pages in
    refuse_unless (page_belongs page match_id snapshot_id epoch i) ErrorCode.history_integrity (
      passing (page_error c l page) (
        refuse_unless (leb (c.page_bytes page) l.max_frame_bytes) ErrorCode.frame_too_large (
          refuse_unless (leb (length gathered + length page.events) total)
            ErrorCode.history_integrity rest)))

unfoldable pub finish_history :
    Codec
    → Limits
    → HistoryManifest
    → List HistoryPage
    → Checked (List PublicAction)
    → Checked (List PublicAction)
finish_history c l m pages (err e) = err e
finish_history c l m pages (ok es) =
    refuse_unless
      ((length es == m.total_events) && (c.root_hash (map (λ p. p.sha256) pages) == m.root_sha256))
      ErrorCode.history_integrity (passing (validate_history c l 1 es) (ok es))

-- `AssembleHistory`
unfoldable pub assemble_history :
    Codec
    → Limits
    → HistoryManifest
    → List HistoryPage
    → List ℕ
    → List ℕ
    → List ℕ
    → Checked (List PublicAction)
unfolding manifest_valid gather finish_history
assemble_history c l m pages match_id snapshot_id epoch =
    refuse_unless (limits_valid l) ErrorCode.malformed (
      refuse_unless (manifest_valid m (length pages) l) ErrorCode.history_integrity (
        finish_history c l m pages
          (gather c l match_id snapshot_id epoch m.total_events 0 [] pages)))
