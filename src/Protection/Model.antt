-- ===== src/Protection/Model.antt =====
-- The inconsistencies that pii.py and data_protection_receipt.py report, and the exceptions.
use circled_wiki.Base.{String}

pub data PiiError : Type 0 where
  extensions_not_object : PiiError
  scanned_not_boolean : PiiError
  masked_not_boolean : PiiError
  receipt_required_by_scanned : PiiError
  receipt_required_by_masked : PiiError
  receipt_not_object : PiiError
  field_empty : String → PiiError
  result_invalid : PiiError
  timestamp_invalid : PiiError
  checksum_invalid : PiiError
  checksum_differs : PiiError
  candidate_invalid : PiiError
  needs_scanned : PiiError
  needs_unscanned : PiiError
  masked_differs : PiiError

-- `build_pii_scan_receipt` raises one of four errors.
pub data BuildError : Type 0 where
  empty_field : BuildError
  invalid_result : BuildError
  invalid_checksum : BuildError
  invalid_candidate : BuildError

-- A value with no hash is looked up in a set.
pub data Unhashable : Type 0 where
  unhashable : Unhashable

pub data ReceiptError : Type 0 where
  not_object : ReceiptError
  schema_unsupported : ReceiptError
  source_differs : ReceiptError
  candidate_malformed : ReceiptError
  candidate_differs : ReceiptError
  text_empty : String → ReceiptError
  config_unsupported : ReceiptError
  status_invalid : ReceiptError
  recorded_at_invalid : ReceiptError
  scan_not_object : ReceiptError
  scan : PiiError → ReceiptError
  sensitivity_not_object : ReceiptError
  decision_invalid : ReceiptError
  context_invalid : ReceiptError
  categories_invalid : ReceiptError
  findings_invalid : ReceiptError
  resolution_empty : ReceiptError
  awaits_user : ReceiptError
  status_differs : ReceiptError
  unresolved : ReceiptError

-- `build_data_protection_receipt` raises one of six errors for arguments of the declared types.
pub data ComposeError : Type 0 where
  source_invalid : ComposeError
  candidate_rejected : ComposeError
  sensitivity_invalid : ComposeError
  config_invalid : ComposeError
  actor_empty : ComposeError
  finding_invalid : ComposeError
