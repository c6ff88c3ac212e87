-- ===== src/Inbox/Context.antt =====
-- `review_context` of inbox_review_queue.py: what a new Evidence item is told about the review.
-- Parameters: whether `datetime.fromisoformat` reads a text, the parsed front matter of an Inbox
-- file, if it can be read, and the fingerprint of its candidate, if its content can be found.
use circled_wiki.Base.{
  String, Bool, true, not, Option, none, some, List, [], ◌∷◌, map, Value, Fields, str, object,
  at_key, if◌then◌else◌, Result, ok, err, or_raise, ◌>>=◌,
}
use circled_wiki.Protection.{Unhashable, ReceiptError, data_protection_receipt_errors}
use circled_wiki.Inbox.Model.{
  Requirement, ReviewTask, ReviewQueue, InboxError, missing_decision, candidate_unreadable,
  receipt_unhashable,
}
use circled_wiki.Inbox.Tasks.{get_inbox_review, all_settled}

pub record ContextDecision : Type 0 where
  pub reason_code : String
  pub decision : String
  pub receipt : String

pub record Context : Type 0 where
  pub queue_id : String
  pub reason_codes : List String
  pub decisions : List ContextDecision
  pub data_protection_receipt : Fields

-- A resolved requirement without a decision raises.
unfoldable pub context_decisions : List Requirement → Result InboxError (List ContextDecision)
context_decisions [] = ok []
context_decisions (r ∷ rs) = do
  d ← or_raise r.decision missing_decision
  rest ← context_decisions rs
  ok (record { reason_code = r.reason_code; decision = d.decision; receipt = d.receipt } ∷ rest)

-- `str(value)` of a checksum; the text of another value is no checksum, so no receipt covers it.
unfoldable pub checksum_text : Value → String
checksum_text (str s) = s
checksum_text v = ""

unfoldable pub context_for : String → ReviewTask → Value → Result InboxError (Option Context)
unfolding context_decisions
context_for name t (object receipt) = do
  decisions ← context_decisions t.requirements
  ok (
      some (record {
        queue_id = name;
        reason_codes = map (λ r. r.reason_code) t.requirements;
        decisions = decisions;
        data_protection_receipt = receipt;
      }))
context_for name t v = ok none

-- `if errors: return None`.
unfoldable pub if_clean :
    Result Unhashable (List ReceiptError)
    → Result InboxError (Option Context)
    → Result InboxError (Option Context)
if_clean (err e) next = err receipt_unhashable
if_clean (ok []) next = next
if_clean (ok (x ∷ xs)) next = ok none

module _ (is_iso : String → Bool) (read_inbox : String → Option Fields)
    (candidate_checksum : String → Fields → Option String) where
  unfoldable pub checked_context : String → ReviewTask → Fields → Result InboxError (Option Context)
  unfolding context_for checksum_text if_clean
  checked_context name t inbox = do
    candidate ← or_raise (candidate_checksum t.inbox_path inbox) candidate_unreadable
    if_clean
        (data_protection_receipt_errors is_iso (at_key "data_protection_receipt" inbox)
          (checksum_text (at_key "checksum" inbox)) (some candidate) true)
        (context_for name t (at_key "data_protection_receipt" inbox))

  unfoldable pub context_of : String → Option ReviewTask → Result InboxError (Option Context)
  unfolding checked_context
  context_of name none = ok none
  context_of name (some t) =
      if not (all_settled (some t)) then ok none else elim (read_inbox t.inbox_path) [
        | none ↦ ok none
        | some inbox ↦ checked_context name t inbox
      ]

  unfoldable pub review_context : ReviewQueue → String → Result InboxError (Option Context)
  unfolding context_of
  review_context queue intake_id = do
    (name, found) ← get_inbox_review is_iso queue intake_id
    context_of name found
