-- ===== src/Protection/Pii.antt =====
-- PII scan receipts: pii.py. Whether `datetime.fromisoformat` reads a text is a parameter.
use Prim.Native.Char.{code}
use Prim.Native.String
use circled_wiki.Base.{
  is_checksum, when, join, boolean, has_key, String, Bool, true, false, not, ◌&&◌, ◌||◌, Option,
  none, some, List, [], ◌∷◌, ◌++◌, Value, Fields, null, str, object, end, field, at_key, value_eq,
  lacks_text, is_among, is_hashable, is_true, is_false, is_boolean, equals, contains, is_blank,
  strip, is_empty, nat_eq, if◌then◌else◌, Result, ok, raise_if, ◌>>◌, ◌>>=◌, has_key, boolean,
}
use circled_wiki.Protection.Model.{
  PiiError, BuildError, Unhashable, unhashable, extensions_not_object, scanned_not_boolean,
  masked_not_boolean, receipt_required_by_scanned, receipt_required_by_masked, receipt_not_object,
  field_empty, result_invalid, timestamp_invalid, checksum_invalid, checksum_differs,
  candidate_invalid, needs_scanned, needs_unscanned, masked_differs, empty_field, invalid_result,
  invalid_checksum, invalid_candidate,
}

abbrev pub pii_scan_results : List String
pii_scan_results = "passed" ∷ "masked" ∷ "needs_review" ∷ []

abbrev pub successful_results : List String
successful_results = "passed" ∷ "masked" ∷ []

-- `isinstance(value, str) and pattern.fullmatch(value)`.
unfoldable pub is_checksum_value : Value → Bool
is_checksum_value (str s) = is_checksum s
is_checksum_value v = false

-- `text.replace("Z", "+00:00")`.
unfoldable pub with_offset : String → String
with_offset String.[] = String.[]
with_offset (String.◌∷◌ c s) =
    let rest = with_offset s in
    if nat_eq (code c) b'Z' then String.◌++◌ "+00:00" rest else String.◌∷◌ c rest

empty_fields : List String → Fields → List PiiError
empty_fields [] receipt = []
empty_fields (name ∷ names) receipt =
    when (lacks_text (at_key name receipt)) (field_empty name) ++ empty_fields names receipt

abbrev pub receipt_fields : List String
receipt_fields =
    "scanner" ∷ "scanner_version" ∷ "scanned_at" ∷ "result" ∷ "reviewed_by" ∷ "receipt"
    ∷ "source_checksum" ∷ []

-- A text that is no checksum; a value of another type is reported as empty already.
unfoldable pub is_malformed : Value → Bool
is_malformed (str s) = not (is_checksum s)
is_malformed v = false

unfoldable pub is_null : Value → Bool
is_null null = true
is_null v = false

module _ (is_iso : String → Bool) where
  -- A text with content that `datetime.fromisoformat` does not read.
  unfoldable pub is_bad_time : Value → Bool
  is_bad_time (str s) = not (is_blank s) && not (is_iso (with_offset s))
  is_bad_time v = false

  unfoldable pub scan_checks : Value → Fields → Value → Value → List (List PiiError)
  unfolding is_bad_time empty_fields is_malformed is_null is_checksum_value
  scan_checks checksum receipt scanned masked =
      let result = at_key "result" receipt in
      let source = at_key "source_checksum" receipt in
      let candidate = at_key "candidate_checksum" receipt in
      let is_masked = equals "masked" result in
      empty_fields receipt_fields receipt
      ∷ when (not (is_among pii_scan_results result)) result_invalid
      ∷ when (is_bad_time (at_key "scanned_at" receipt)) timestamp_invalid
      ∷ when (is_malformed source) checksum_invalid
      ∷ when (not (value_eq source checksum)) checksum_differs
      ∷ when (not (is_null candidate) && not (is_checksum_value candidate)) candidate_invalid
      ∷ when (is_among successful_results result && not (is_true scanned)) needs_scanned
      ∷ when (equals "needs_review" result && not (is_false scanned)) needs_unscanned
      ∷ when (not (if is_masked then is_true masked else is_false masked)) masked_differs
      ∷ []

  unfoldable pub receipt_errors : Value → Fields → Value → Value → Result Unhashable (List PiiError)
  unfolding scan_checks
  receipt_errors checksum receipt scanned masked = do
    raise_if (not (is_hashable (at_key "result" receipt))) unhashable
    ok (join (scan_checks checksum receipt scanned masked))

  -- `extensions.get(name, False)`.
  flag : String → Fields → Value
  flag name extensions = if has_key name extensions then at_key name extensions else boolean false

  scan_errors : Value → Value → Value → Value → Result Unhashable (List PiiError)
  unfolding receipt_errors
  scan_errors checksum null scanned masked = ok (
      when (is_true scanned) receipt_required_by_scanned
      ++ when (is_true masked) receipt_required_by_masked)
  scan_errors checksum (object receipt) scanned masked =
      receipt_errors checksum receipt scanned masked
  scan_errors checksum receipt scanned masked = ok (receipt_not_object ∷ [])

  unfoldable pub pii_scan_receipt_errors : Fields → Result Unhashable (List PiiError)
  unfolding scan_errors flag
  pii_scan_receipt_errors frontmatter = elim (at_key "extensions" frontmatter) [
    | object extensions ↦
        let scanned = flag "pii_scanned" extensions in
        let masked = flag "pii_masked" extensions in
        do
          errors ←
              scan_errors (at_key "checksum" frontmatter) (at_key "pii_scan" extensions) scanned
                masked
          ok (
              when (not (is_boolean scanned)) scanned_not_boolean
              ++ (when (not (is_boolean masked)) masked_not_boolean ++ errors))
    | _ ↦ ok (extensions_not_object ∷ [])
  ]

-- The candidate checksum is an optional last field.
unfoldable pub with_candidate : Option String → Fields
with_candidate none = end
with_candidate (some checksum) = field "candidate_checksum" (str checksum) end

unfoldable pub is_bad_candidate : Option String → Bool
is_bad_candidate none = false
is_bad_candidate (some checksum) = not (is_checksum checksum)

-- `scanned_at or now`.
unfoldable pub time_or : Option String → String → String
time_or none now = now
time_or (some at) now = if is_empty at then now else at

pub record ScanInput : Type 0 where
  pub scanner : String
  pub scanner_version : String
  pub result : String
  pub reviewed_by : String
  pub receipt : String
  pub scanned_at : Option String
  pub candidate_checksum : Option String

-- The receipt, with its texts stripped.
unfoldable pub scan_receipt : String → ScanInput → String → Fields
unfolding with_candidate
scan_receipt checksum i now = field "scanner" (str (strip i.scanner)) (
    field "scanner_version" (str (strip i.scanner_version)) (
      field "scanned_at" (str (time_or i.scanned_at now)) (
        field "result" (str i.result) (
          field "reviewed_by" (str (strip i.reviewed_by)) (
            field "receipt" (str (strip i.receipt))
              (field "source_checksum" (str checksum) (with_candidate i.candidate_checksum)))))))

unfoldable pub build_pii_scan_receipt : String → ScanInput → String → Result BuildError Fields
unfolding is_bad_candidate
build_pii_scan_receipt checksum i now = do
  raise_if
      (is_blank i.scanner
        || is_blank i.scanner_version
        || is_blank i.reviewed_by
        || is_blank i.receipt)
      empty_field
  raise_if (not (contains i.result pii_scan_results)) invalid_result
  raise_if (not (is_checksum checksum)) invalid_checksum
  raise_if (is_bad_candidate i.candidate_checksum) invalid_candidate
  ok (scan_receipt checksum i now)

-- The frontmatter under which a nested receipt is checked: the flags follow its result.
unfoldable pub probe : Value → Fields → Fields
probe checksum scan =
    let result = at_key "result" scan in
    field "checksum" checksum (
      field "extensions"
        (object (
          field "pii_scan" (object scan) (
            field "pii_scanned" (boolean (is_among successful_results result))
              (field "pii_masked" (boolean (equals "masked" result)) end))))
        end)
