-- ===== src/Inbox/ContextSamples.antt =====
-- The context of a resolved Inbox review at a concrete input.
use circled_wiki.Base.{
  read, is_checksum, is_blank, parsed, contains, canonical_uuid, String, Bool, true, ◌≡◌, refl,
  Option, some, none, [], ◌∷◌, ◌==◌, Fields, str, object, end, field, nil, number, at_key,
  is_hashable, has_key, value_eq, lacks_text, is_among, is_true, is_false, is_boolean, equals,
  array, ok,
}
use circled_wiki.Protection.{
  status_for, pii_scan_receipt_errors, probe, with_offset, data_protection_receipt_errors,
}
use circled_wiki.Inbox.Model.{Requirement, ReviewTask, ReviewQueue}
use circled_wiki.Inbox.Tasks.{get_inbox_review, all_settled}
use circled_wiki.Inbox.Reads.{IsFound}
use circled_wiki.Inbox.Context.{Context, review_context}
use circled_wiki.Inbox.Provenance.{IsProtected, review_context-IsProtected}

abbrev instant : String
instant = "2026-01-01T00:00:00+00:00"

abbrev reads : String → Bool
reads s = s == instant

abbrev checksum : String
checksum = "sha256:0123456789abcdef0123456789abcdef0123456789abcdef0123456789abcdef"

abbrev scan : Fields
scan = field "scanner" (str "s") (
    field "scanner_version" (str "1") (
      field "scanned_at" (str instant) (
        field "result" (str "passed") (
          field "reviewed_by" (str "ann")
            (field "receipt" (str "r") (field "source_checksum" (str checksum) end))))))

abbrev sensitivity : Fields
sensitivity = field "decision" (str "completed") (
    field "context" (str "") (
      field "matched_categories" (array nil)
        (field "agent_masked_findings" (array nil) (field "resolution" (str "clear") end))))

abbrev protection : Fields
protection = field "schema_version" (number "1") (
    field "source_checksum" (str checksum) (
      field "candidate_checksum" (str checksum) (
        field "policy_ref" (str "p") (
          field "policy_config" (str "c") (
            field "policy_config_version" (number "1") (
              field "actor" (str "agent") (
                field "recorded_at" (str instant) (
                  field "status" (str "passed") (
                    field "receipt" (str "r") (
                      field "pii_scan" (object scan)
                        (field "sensitivity" (object sensitivity) end)))))))))))

abbrev inbox_item : Fields
inbox_item =
    field "checksum" (str checksum) (field "data_protection_receipt" (object protection) end)

abbrev read_inbox : String → Option Fields
read_inbox path = some inbox_item

abbrev fingerprint : String → Fields → Option String
fingerprint path fields = some checksum

abbrev intake : String
intake = "inbox/123e4567-e89b-12d3-a456-426614174000"

abbrev name : String
name = "123e4567-e89b-12d3-a456-426614174000"

abbrev requirement : Requirement
requirement = record {
  reason_code = "pii_scan_required";
  requested_action = "review_data_protection";
  status = "resolved";
  decision =
      some (record { decision = "passed"; decided_by = "ann"; decided_at = "t"; receipt = "r" });
  escalation = none;
}

abbrev task : ReviewTask
task = record {
  intake_id = intake;
  inbox_path = "inbox/a.md";
  requirements = requirement ∷ [];
  created_at = "t";
  updated_at = "t";
  current = none;
  transitions = [];
  step_receipts = [];
  source_checksum = none;
  evidence_id = none;
  resolved_at = none;
}

abbrev queue : ReviewQueue
queue = (name, parsed task) ∷ []

abbrev context : Context
context = record {
  queue_id = name;
  reason_codes = "pii_scan_required" ∷ [];
  decisions = record { reason_code = "pii_scan_required"; decision = "passed"; receipt = "r" } ∷ [];
  data_protection_receipt = protection;
}

context_ok : review_context reads read_inbox fingerprint queue intake ≡ ok (some context)
unfolding review_context get_inbox_review canonical_uuid read all_settled
    data_protection_receipt_errors at_key is_hashable pii_scan_receipt_errors probe equals
    is_checksum lacks_text is_blank is_among contains with_offset is_boolean has_key is_false
    is_true value_eq status_for
context_ok = refl

review_context-IsProtected_example :
    (found : String) × (t : ReviewTask) × IsFound reads queue intake found t
    × (all_settled (some t) ≡ true)
    × IsProtected reads read_inbox fingerprint t context
review_context-IsProtected_example =
    review_context-IsProtected reads read_inbox fingerprint queue intake context context_ok
