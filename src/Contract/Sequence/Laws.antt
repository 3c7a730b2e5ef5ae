-- ===== src/Contract/Sequence/Laws.antt =====
-- What the checks of server/internal/transport/v2/sequence.go accept.
use knowoff.Prelude.{ℕ, ◌+◌, ◌≤◌, ◌<◌, Bool, true, ◌≡◌, ◌↔◌, none, List, [], ◌∷◌, refl, ◌⊎◌, arith}
use knowoff.Contract.{Limits}
use knowoff.Contract.Sequence.{
  Cursor, cursor_valid, same_text, check_next, check_request_budget, limits_valid, max_safe_integer,
}

pub same_text-eq : (a b : List ℕ) → same_text a b ≡ true → a ≡ b
unfolding same_text
same_text-eq [] [] h = refl
same_text-eq [] (y ∷ b) h = cc
same_text-eq (x ∷ a) [] h = cc
same_text-eq (x ∷ a) (y ∷ b) h = ground (arith, same_text-eq a b)

-- Two cursors in sequence: the next message to this recipient, with at most one new event.
pub record Follows (current next : Cursor) : Type 0 where
  pub epoch : next.stream_epoch ≡ current.stream_epoch
  pub recipient : next.recipient_seq ≡ current.recipient_seq + 1
  pub evidence_low : current.evidence_seq ≤ next.evidence_seq
  pub evidence_high : next.evidence_seq ≤ current.evidence_seq + 1

cursor_valid-safe :
    (c : Cursor)
    → cursor_valid c ≡ true
    → (c.recipient_seq ≤ max_safe_integer) × (c.evidence_seq ≤ max_safe_integer)
unfolding cursor_valid
cursor_valid-safe c h = ground arith

pub same_text_refl : (a : List ℕ) → same_text a a ≡ true
unfolding same_text
same_text_refl [] = refl
same_text_refl (x ∷ a) = ground (arith, same_text_refl a)

-- A cursor is accepted exactly when both cursors are well formed and it is the next one.
pub check_next-accepts :
    (current next : Cursor)
    → (check_next current next ≡ none)
      ↔ ((cursor_valid current ≡ true) × (cursor_valid next ≡ true) × Follows current next)
unfolding check_next
check_next-accepts current next = (
  λ h. (
    ground arith,
    ground arith,
    record {
      epoch = ground (arith, same_text-eq current.stream_epoch next.stream_epoch);
      recipient = ground (arith, cursor_valid-safe current);
      evidence_low = ground arith;
      evidence_high = ground (arith, cursor_valid-safe current);
    },
  ),
  λ h. ground (arith, cursor_valid-safe current h.0, same_text_refl current.stream_epoch),
)

-- A request is admitted exactly within valid limits, as a repetition or below the seat's budget.
pub check_request_budget-accepts :
    (recorded : ℕ) (duplicate : Bool) (l : Limits)
    → (check_request_budget recorded duplicate l ≡ none)
      ↔ ((limits_valid l ≡ true) × ((duplicate ≡ true) ⊎ (recorded < l.max_requests_per_seat)))
unfolding check_request_budget
check_request_budget-accepts recorded duplicate l = (λ h. ground arith, λ h. ground arith)
