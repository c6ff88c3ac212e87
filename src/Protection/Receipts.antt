-- ===== src/Protection/Receipts.antt =====
-- Data protection receipts of Inbox items: data_protection_receipt.py. Whether
-- `datetime.fromisoformat` reads a text is a parameter.
use Prim.Native.Nat.{◌*◌, ◌-◌}
use Prim.Native.String
use circled_wiki.Base.{
  is_checksum, starts_with, String, ℕ, Bool, true, false, not, ◌&&◌, ◌||◌, ◌+◌, Option, none, some,
  List, [], ◌∷◌, Value, Values, Fields, boolean, number, str, array, object, nil, cons, end, field,
  array_of, at_key, lacks_text, equals, contains, is_blank, strip, is_empty, sorted_set, decimal,
  codes, leb, nat_eq, if◌then◌else◌, Result, ok, err, raise_if, ◌>>◌, ◌>>=◌,
}
use circled_wiki.Protection.Model.{
  ComposeError, source_invalid, candidate_rejected, sensitivity_invalid, config_invalid,
  actor_empty, finding_invalid,
}

abbrev pub sensitivity_decisions : List String
sensitivity_decisions = "completed" ∷ "not_applicable" ∷ "awaiting_user" ∷ []

abbrev pub protection_results : List String
protection_results = "passed" ∷ "masked" ∷ "awaiting_user" ∷ []

-- The value of a literal of decimal digits.
unfoldable pub digits_value : ℕ → List ℕ → Option ℕ
digits_value n [] = some n
digits_value n (c ∷ s) =
    let rest = digits_value (n * 10 + (c - b'0')) s in
    if leb b'0' c && leb c b'9' then rest else none

-- `isinstance(value, int)` and the value, when it is not negative; a Boolean is an `int` too.
unfoldable pub count_of : Value → Option ℕ
unfolding digits_value
count_of (number literal) = digits_value 0 (codes literal)
count_of (boolean true) = some 1
count_of (boolean false) = some 0
count_of v = none

-- `isinstance(count, int) and count >= 1`.
unfoldable pub is_count : Value → Bool
unfolding count_of
is_count v = elim (count_of v) [ none ↦ false | some n ↦ leb 1 n ]

unfoldable pub stripped : Value → Value
stripped (str s) = str (strip s)
stripped v = v

-- The masked findings without the values that were masked.
unfoldable pub normalized_findings : Values → Result ComposeError Values
unfolding is_count stripped
normalized_findings nil = ok nil
normalized_findings (cons (object finding) findings) = do
  raise_if (lacks_text (at_key "category" finding) || not (is_count (at_key "count" finding)))
      finding_invalid
  rest ← normalized_findings findings
  ok (
      cons
        (object (
          field "category" (stripped (at_key "category" finding))
            (field "count" (at_key "count" finding) end)))
        rest)
normalized_findings (cons v findings) = err finding_invalid

unfoldable pub has_values : Values → Bool
has_values nil = false
has_values (cons v vs) = true

-- The status that the two nested decisions ask for.
unfoldable pub status_for : Value → Value → Bool → String
status_for decision result any_masked =
    if equals "awaiting_user" decision || equals "needs_review" result
    then "awaiting_user"
    else if equals "masked" result || any_masked
    then "masked"
    else "passed"

pub record ReceiptInput : Type 0 where
  pub source_checksum : String
  pub candidate_checksum : String
  pub pii_scan : Fields
  pub policy_ref : String
  pub policy_config : String
  pub policy_config_version : ℕ
  pub actor : String
  pub sensitivity_decision : String
  pub context : String
  pub matched_categories : List String
  pub agent_masked_findings : Values
  pub resolution : String
  pub receipt : Option String

-- `receipt or f"runtime://data-protection/{source_checksum}"`.
unfoldable pub receipt_or : Option String → String → String
receipt_or none checksum = String.◌++◌ "runtime://data-protection/" checksum
receipt_or (some r) checksum =
    if is_empty r then String.◌++◌ "runtime://data-protection/" checksum else r

unfoldable pub sensitivity_of : ReceiptInput → Values → Fields
sensitivity_of i findings = field "decision" (str i.sensitivity_decision) (
    field "context" (str i.context) (
      field "matched_categories" (array (array_of (sorted_set i.matched_categories))) (
        field "agent_masked_findings" (array findings)
          (field "resolution" (str i.resolution) end))))

unfoldable pub composed : ReceiptInput → Values → String → Fields
unfolding has_values status_for receipt_or sensitivity_of
composed i findings now = field "schema_version" (number "1") (
    field "source_checksum" (str i.source_checksum) (
      field "candidate_checksum" (str i.candidate_checksum) (
        field "policy_ref" (str i.policy_ref) (
          field "policy_config" (str i.policy_config) (
            field "policy_config_version" (number (decimal i.policy_config_version)) (
              field "actor" (str (strip i.actor)) (
                field "recorded_at" (str now) (
                  field "status"
                    (str (
                      status_for (str i.sensitivity_decision) (at_key "result" i.pii_scan)
                        (has_values findings)))
                    (field "receipt" (str (receipt_or i.receipt i.source_checksum)) (
                      field "pii_scan" (object i.pii_scan)
                        (field "sensitivity" (object (sensitivity_of i findings)) end)))))))))))

unfoldable pub build_data_protection_receipt : ReceiptInput → String → Result ComposeError Fields
unfolding normalized_findings composed
build_data_protection_receipt i now = do
  raise_if (not (starts_with i.source_checksum "sha256:")) source_invalid
  raise_if (not (is_checksum i.candidate_checksum)) candidate_rejected
  raise_if (not (contains i.sensitivity_decision sensitivity_decisions)) sensitivity_invalid
  raise_if (not (nat_eq i.policy_config_version 1)) config_invalid
  raise_if (is_blank i.actor) actor_empty
  findings ← normalized_findings i.agent_masked_findings
  ok (composed i findings now)
