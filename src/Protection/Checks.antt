-- ===== src/Protection/Checks.antt =====
-- The check of a data protection receipt: `data_protection_receipt_errors` of
-- data_protection_receipt.py.
use circled_wiki.Base.{
  is_checksum, String, ℕ, Bool, true, false, not, ◌&&◌, ◌||◌, ◌+◌, Option, none, some, List, [],
  ◌∷◌, ◌++◌, map, ◌==◌, Value, Values, Fields, null, boolean, number, str, array, object, nil, cons,
  at_key, has_key, lacks_text, is_hashable, is_among, is_boolean, equals, leb, when, join,
  if◌then◌else◌, Result, ok, raise_if, ◌>>◌, ◌>>=◌,
}
use circled_wiki.Protection.Model.{
  Unhashable, unhashable, ReceiptError, not_object, schema_unsupported, source_differs,
  candidate_malformed, candidate_differs, text_empty, config_unsupported, status_invalid,
  recorded_at_invalid, scan_not_object, scan, sensitivity_not_object, decision_invalid,
  context_invalid, categories_invalid, findings_invalid, resolution_empty, awaits_user,
  status_differs, unresolved,
}
use circled_wiki.Protection.Pii.{with_offset, pii_scan_receipt_errors, probe}
use circled_wiki.Protection.Receipts.{
  sensitivity_decisions, protection_results, count_of, is_count, status_for,
}

-- `value == DATA_PROTECTION_RECEIPT_VERSION`: a Boolean is equal to the number it stands for.
unfoldable pub is_version : Value → Bool
is_version (number literal) = literal == "1" || literal == "1.0"
is_version (boolean b) = b
is_version v = false

unfoldable pub candidate_errors : Option String → Value → List ReceiptError
candidate_errors none (str c) = when (not (is_checksum c)) candidate_malformed
candidate_errors (some expected) (str c) =
    if is_checksum c then when (not (c == expected)) candidate_differs else candidate_malformed ∷ []
candidate_errors expected v = candidate_malformed ∷ []

unfoldable pub text_errors : List String → Fields → List ReceiptError
text_errors [] receipt = []
text_errors (name ∷ names) receipt =
    when (lacks_text (at_key name receipt)) (text_empty name) ++ text_errors names receipt

-- A category, a count that is no Boolean, and not the value that was masked.
unfoldable pub is_finding : Value → Bool
is_finding (object finding) =
    not (lacks_text (at_key "category" finding))
    && is_count (at_key "count" finding)
    && not (is_boolean (at_key "count" finding))
    && not (has_key "value" finding)
is_finding v = false

unfoldable pub count_or_zero : Option ℕ → ℕ
count_or_zero none = 0
count_or_zero (some n) = n

-- The loop stops at the first malformed finding; the counts before it stay added up.
unfoldable pub finding_total : Values → Bool × ℕ
unfolding is_finding count_or_zero
finding_total nil = (true, 0)
finding_total (cons (object finding) findings) =
    let rest = finding_total findings in
    let bad : Bool × ℕ = (false, 0) in
    if is_finding (object finding)
    then (rest.0, count_or_zero (count_of (at_key "count" finding)) + rest.1)
    else bad
finding_total (cons v findings) = (false, 0)

unfoldable pub all_texts : Values → Bool
all_texts nil = true
all_texts (cons v vs) = not (lacks_text v) && all_texts vs

unfoldable pub is_string : Value → Bool
is_string (str s) = true
is_string v = false

unfoldable pub is_category_list : Value → Bool
unfolding all_texts
is_category_list (array vs) = all_texts vs
is_category_list v = false

-- Whether the findings are well-formed, and their sum.
unfoldable pub findings_of : Value → Bool × ℕ
unfolding finding_total
findings_of (array vs) = finding_total vs
findings_of v = (false, 0)

unfoldable pub sensitivity_checks : Bool → Fields → List (List ReceiptError)
unfolding is_category_list findings_of is_string
sensitivity_checks require_resolved sensitivity =
    when (not (is_among sensitivity_decisions (at_key "decision" sensitivity))) decision_invalid
    ∷ when (not (is_string (at_key "context" sensitivity))) context_invalid
    ∷ when (not (is_category_list (at_key "matched_categories" sensitivity))) categories_invalid
    ∷ when (not (findings_of (at_key "agent_masked_findings" sensitivity)).0) findings_invalid
    ∷ when (lacks_text (at_key "resolution" sensitivity)) resolution_empty
    ∷ when (require_resolved && equals "awaiting_user" (at_key "decision" sensitivity)) awaits_user
    ∷ []

unfoldable pub sensitivity_errors : Bool → Value → List ReceiptError
unfolding sensitivity_checks
sensitivity_errors require_resolved (object s) = join (sensitivity_checks require_resolved s)
sensitivity_errors require_resolved v = sensitivity_not_object ∷ []

-- The nested decision, result and sum, as far as the nested values are mappings.
unfoldable pub nested : String → Value → Value
nested name (object fs) = at_key name fs
nested name v = null

unfoldable pub masked_sum : Value → ℕ
unfolding findings_of
masked_sum (object sensitivity) = (findings_of (at_key "agent_masked_findings" sensitivity)).1
masked_sum v = 0

abbrev pub receipt_texts : List String
receipt_texts = "policy_ref" ∷ "policy_config" ∷ "actor" ∷ "recorded_at" ∷ "receipt" ∷ []

module _ (is_iso : String → Bool) where
  unfoldable pub is_unread_time : Value → Bool
  is_unread_time (str s) = not (is_iso (with_offset s))
  is_unread_time v = false

  unfoldable pub scan_part : String → Value → Result Unhashable (List ReceiptError)
  scan_part checksum (object receipt) = do
    errors ← pii_scan_receipt_errors is_iso (probe (str checksum) receipt)
    ok (map scan errors)
  scan_part checksum v = ok (scan_not_object ∷ [])

  unfoldable pub protection_checks :
      Fields → String → Option String → Bool → List ReceiptError → List (List ReceiptError)
  unfolding is_version candidate_errors text_errors sensitivity_errors nested masked_sum
      is_unread_time
  protection_checks receipt checksum expected require_resolved scan_errors =
      let status = at_key "status" receipt in
      let decision = nested "decision" (at_key "sensitivity" receipt) in
      let result = nested "result" (at_key "pii_scan" receipt) in
      let total = masked_sum (at_key "sensitivity" receipt) in
      when (not (is_version (at_key "schema_version" receipt))) schema_unsupported
      ∷ when (not (equals checksum (at_key "source_checksum" receipt))) source_differs
      ∷ candidate_errors expected (at_key "candidate_checksum" receipt)
      ∷ text_errors receipt_texts receipt
      ∷ when (not (is_version (at_key "policy_config_version" receipt))) config_unsupported
      ∷ when (not (is_among protection_results status)) status_invalid
      ∷ when (is_unread_time (at_key "recorded_at" receipt)) recorded_at_invalid
      ∷ scan_errors
      ∷ sensitivity_errors require_resolved (at_key "sensitivity" receipt)
      ∷ when (not (equals (status_for decision result (leb 1 total)) status)) status_differs
      ∷ when (require_resolved && (equals "awaiting_user" status || equals "needs_review" result))
          unresolved
      ∷ []

  unfoldable pub data_protection_receipt_errors :
      Value → String → Option String → Bool → Result Unhashable (List ReceiptError)
  unfolding protection_checks scan_part nested
  data_protection_receipt_errors (object receipt) checksum expected require_resolved = do
    raise_if (not (is_hashable (at_key "status" receipt))) unhashable
    scan_errors ← scan_part checksum (at_key "pii_scan" receipt)
    raise_if (not (is_hashable (nested "decision" (at_key "sensitivity" receipt)))) unhashable
    ok (join (protection_checks receipt checksum expected require_resolved scan_errors))
  data_protection_receipt_errors v checksum expected require_resolved = ok (not_object ∷ [])
