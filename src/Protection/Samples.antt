-- ===== src/Protection/Samples.antt =====
-- Tests of the data protection receipts, and their properties at concrete inputs.
use circled_wiki.Base.{
  is_checksum, String, Bool, true, false, ◌≡◌, refl, some, none, [], ◌∷◌, ◌==◌, Fields, str, number,
  object, nil, cons, end, field, is_blank, contains, strip, strip, at_key, has_key, value_eq,
  lacks_text, is_among, is_hashable, is_true, is_false, is_boolean, equals, sorted_set, array_of,
  decimal, digit_text, Result, ok, err,
}
use circled_wiki.Protection.Model.{BuildError, ComposeError}
use circled_wiki.Protection.Pii.{
  scan_receipt, ScanInput, build_pii_scan_receipt, pii_scan_receipt_errors, probe, with_offset,
  time_or,
}
use circled_wiki.Protection.Receipts.{
  receipt_or, ReceiptInput, build_data_protection_receipt, normalized_findings,
}
use circled_wiki.Protection.Checks.{data_protection_receipt_errors}
use circled_wiki.Protection.Roundtrips.{pii_scan_roundtrip}
use circled_wiki.Protection.Soundness.{IsCleared, data_protection_receipt_errors-IsCleared}
use circled_wiki.Protection.Receipted.{counts_are_numbers, data_protection_roundtrip}

abbrev instant : String
instant = "2026-01-01T00:00:00+00:00"

abbrev reads : String → Bool
reads s = s == instant

abbrev source : String
source = "sha256:0123456789abcdef0123456789abcdef0123456789abcdef0123456789abcdef"

abbrev candidate : String
candidate = "sha256:fedcba9876543210fedcba9876543210fedcba9876543210fedcba9876543210"

abbrev scan_input : ScanInput
scan_input = record {
  scanner = " scanner ";
  scanner_version = "1";
  result = "masked";
  reviewed_by = "ann";
  receipt = "runtime://scan";
  scanned_at = some "2026-01-01T00:00:00Z";
  candidate_checksum = some candidate;
}

abbrev fields_in {ℓ} : {E : Type ℓ} → Result E Fields → Fields
fields_in (ok r) = r
fields_in (err e) = end

abbrev scan_built : Result BuildError Fields
scan_built = build_pii_scan_receipt source scan_input instant

scan_built_ok : scan_built ≡ ok (fields_in scan_built)
unfolding build_pii_scan_receipt is_blank contains is_checksum strip
scan_built_ok = refl

pii_scan_roundtrip_example :
    pii_scan_receipt_errors reads (probe (str source) (fields_in scan_built)) ≡ ok []
unfolding is_blank strip with_offset time_or
pii_scan_roundtrip_example =
    pii_scan_roundtrip reads source scan_input instant (fields_in scan_built) scan_built_ok refl
      refl

abbrev receipt_input : ReceiptInput
receipt_input = record {
  source_checksum = source;
  candidate_checksum = candidate;
  pii_scan = fields_in scan_built;
  policy_ref = "policy";
  policy_config = "policy.yaml";
  policy_config_version = 1;
  actor = "agent";
  sensitivity_decision = "completed";
  context = "";
  matched_categories = "phone" ∷ "address" ∷ [];
  agent_masked_findings =
      cons
        (object (
          field "category" (str "phone")
            (field "count" (number "2") (field "value" (str "555") end))))
        nil;
  resolution = "masked";
  receipt = none;
}

abbrev built : Result ComposeError Fields
built = build_data_protection_receipt receipt_input instant

built_ok : built ≡ ok (fields_in built)
unfolding build_data_protection_receipt normalized_findings is_blank strip contains is_checksum
    at_key lacks_text
built_ok = refl

data_protection_roundtrip_example :
    data_protection_receipt_errors reads (object (fields_in built)) source (some candidate) false
    ≡ ok []
unfolding is_blank strip with_offset counts_are_numbers at_key is_boolean receipt_or
data_protection_roundtrip_example =
    data_protection_roundtrip reads receipt_input instant (fields_in built) built_ok
      pii_scan_roundtrip_example refl refl refl refl refl refl refl refl

no_errors :
    data_protection_receipt_errors reads (object (fields_in built)) source (some candidate) true
    ≡ ok []
unfolding build_pii_scan_receipt is_blank contains is_checksum strip data_protection_receipt_errors
    build_data_protection_receipt at_key is_hashable normalized_findings has_key value_eq lacks_text
    is_among is_true is_false is_boolean equals sorted_set array_of decimal digit_text with_offset
    pii_scan_receipt_errors probe time_or scan_receipt
no_errors = refl

data_protection_receipt_errors-IsCleared_example :
    IsCleared reads source candidate (fields_in built)
data_protection_receipt_errors-IsCleared_example =
    data_protection_receipt_errors-IsCleared reads source candidate (fields_in built) no_errors
