-- ===== src/Protection/Soundness.antt =====
-- What a data protection receipt without errors guarantees: data_protection_receipt.py and pii.py.
use circled_wiki.Base.{
  equals-true, not-false, is_checksum, is_boolean, has_key, String, Bool, true, false, not, ◌||◌,
  ◌≡◌, refl, ap, sym, ◌∙◌, inl, inr, some, List, [], ◌∷◌, ◌==◌, map, arith, eq_iff, Value, Fields,
  null, str, object, array, at_key, value_eq, is_among, is_hashable, equals, leb, when, join,
  when-eq-nil, join-eq-nil, Bool-cases, if◌then◌else◌, ok, raise_if->>-eq-ok, >>=-eq-ok, contains,
}
use circled_wiki.Protection.Model.{
  PiiError, unhashable, scan, candidate_malformed, candidate_differs,
}
use circled_wiki.Protection.Pii.{
  scan_checks, pii_scan_receipt_errors, pii_scan_results, successful_results, probe, receipt_errors,
}
use circled_wiki.Protection.Receipts.{sensitivity_decisions, status_for}
use circled_wiki.Protection.Checks.{
  protection_checks, data_protection_receipt_errors, candidate_errors, sensitivity_errors,
  sensitivity_checks, nested, masked_sum, scan_part,
}

value_eq-str : (v : Value) (s : String) → value_eq v (str s) ≡ true → v ≡ str s
unfolding value_eq
value_eq-str (str t) s e = let same : t ≡ s = ground (arith, eq_iff t s, e) in ap str same
value_eq-str null s e = absurd (cc)
value_eq-str (Value.boolean b) s e = absurd (cc)
value_eq-str (Value.number b) s e = absurd (cc)
value_eq-str (array b) s e = absurd (cc)
value_eq-str (object b) s e = absurd (cc)

candidate_inverse : (c : String) (v : Value) → candidate_errors (some c) v ≡ [] → v ≡ str c
unfolding candidate_errors
candidate_inverse c (str d) e = elim (Bool-cases (is_checksum d)) [
  | inl good ↦
      let checked : when (not (d == c)) candidate_differs ≡ [] = rw (good, candidate_errors) at e in
      let same : d == c ≡ true = not-false _ (when-eq-nil _ _ checked) in
      let equal : d ≡ c = ground (arith, eq_iff d c, same) in ap str equal
  | inr bad ↦
      let none_left : candidate_malformed ∷ [] ≡ [] = rw (bad, candidate_errors) at e in
      absurd (cc (none_left))
]
candidate_inverse c null e = absurd (cc)
candidate_inverse c (Value.boolean b) e = absurd (cc)
candidate_inverse c (Value.number b) e = absurd (cc)
candidate_inverse c (array b) e = absurd (cc)
candidate_inverse c (object b) e = absurd (cc)

abbrev decided : List String
decided = "completed" ∷ "not_applicable" ∷ []

-- Of the values that are allowed, one that is not the last is one of the first two.
but_last :
    (a b c : String) (v : Value)
    → is_among (a ∷ b ∷ c ∷ []) v ≡ true
    → equals c v ≡ false
    → is_among (a ∷ b ∷ []) v ≡ true
unfolding is_among equals contains
but_last a b c (str s) h e = ground (arith, eq_iff s a, eq_iff s b, eq_iff s c, h, e)
but_last a b c null h e = absurd (cc)
but_last a b c (Value.boolean x) h e = absurd (cc)
but_last a b c (Value.number x) h e = absurd (cc)
but_last a b c (array x) h e = absurd (cc)
but_last a b c (object x) h e = absurd (cc)

abbrev final_status : Value → Bool → String
final_status result masked = if equals "masked" result || masked then "masked" else "passed"

final :
    (d r : Value) (b : Bool)
    → equals "awaiting_user" d ≡ false
    → equals "needs_review" r ≡ false
    → status_for d r b ≡ final_status r b
unfolding status_for
final d r b e f = rw (e, f) refl

module _ (is_iso : String → Bool) (checksum : String) where
  scan_inverse :
      (receipt : Fields)
      → pii_scan_receipt_errors is_iso (probe (str checksum) receipt) ≡ ok []
      → (is_among pii_scan_results (at_key "result" receipt) ≡ true)
        × (at_key "source_checksum" receipt ≡ str checksum)
  unfolding pii_scan_receipt_errors probe at_key receipt_errors scan_checks has_key is_boolean
  scan_inverse receipt e =
      let scanned = Value.boolean (is_among successful_results (at_key "result" receipt)) in
      let masked = Value.boolean (equals "masked" (at_key "result" receipt)) in
      let (errors, e1, e2) =
        >>=-eq-ok (receipt_errors is_iso (str checksum) receipt scanned masked) _ e in
      let (_, e3) =
        raise_if->>-eq-ok (not (is_hashable (at_key "result" receipt))) unhashable _ e1 in
      let clean : join (scan_checks is_iso (str checksum) receipt scanned masked) ≡ [] =
        cc (e2, e3) in
      let checks = join-eq-nil (scan_checks is_iso (str checksum) receipt scanned masked) clean in
      (
        not-false _ (when-eq-nil _ _ checks.1.0),
        value_eq-str _ checksum (not-false _ (when-eq-nil _ _ checks.1.1.1.1.0)),
      )

  map-eq-nil : (errors : List PiiError) → map scan errors ≡ [] → errors ≡ []
  map-eq-nil [] e = refl
  map-eq-nil (x ∷ xs) e = absurd (cc)

  scan_part_inverse :
      (v : Value)
      → scan_part is_iso checksum v ≡ ok []
      → (s : Fields) × (v ≡ object s)
        × (pii_scan_receipt_errors is_iso (probe (str checksum) s) ≡ ok [])
  unfolding scan_part
  scan_part_inverse (object s) e =
      let (errors, e1, e2) =
        >>=-eq-ok (pii_scan_receipt_errors is_iso (probe (str checksum) s)) _ e in
      let clean : map scan errors ≡ [] = cc (e2) in
      let gone = map-eq-nil errors clean in (s, refl, cc (e1, gone))
  scan_part_inverse null e = absurd (cc)
  scan_part_inverse (str s) e = absurd (cc)
  scan_part_inverse (Value.boolean b) e = absurd (cc)
  scan_part_inverse (Value.number b) e = absurd (cc)
  scan_part_inverse (array b) e = absurd (cc)

  abbrev Decided : Value → Type 0
  Decided v =
      (s : Fields) × (v ≡ object s)
      × (is_among sensitivity_decisions (at_key "decision" s) ≡ true)
      × (equals "awaiting_user" (at_key "decision" s) ≡ false)

  sensitivity_inverse : (v : Value) → sensitivity_errors true v ≡ [] → Decided v
  unfolding sensitivity_errors sensitivity_checks
  sensitivity_inverse (object s) e =
      let checks = join-eq-nil (sensitivity_checks true s) e in
      (s, refl, not-false _ (when-eq-nil _ _ checks.0), when-eq-nil _ _ checks.1.1.1.1.1.0)
  sensitivity_inverse null e = absurd (cc)
  sensitivity_inverse (str s) e = absurd (cc)
  sensitivity_inverse (Value.boolean b) e = absurd (cc)
  sensitivity_inverse (Value.number b) e = absurd (cc)
  sensitivity_inverse (array b) e = absurd (cc)

  -- A receipt without errors against an Inbox checksum and a candidate, resolved.
  unfoldable pub IsCleared : String → Fields → Type 0
  IsCleared candidate r =
      (at_key "source_checksum" r ≡ str checksum)
      × (at_key "candidate_checksum" r ≡ str candidate)
      × (p : Fields) × (at_key "pii_scan" r ≡ object p)
      × (at_key "source_checksum" p ≡ str checksum)
      × (is_among successful_results (at_key "result" p) ≡ true)
      × (s : Fields) × (at_key "sensitivity" r ≡ object s)
      × (is_among decided (at_key "decision" s) ≡ true)
      × (at_key "status" r
          ≡ str (
              if equals "masked" (at_key "result" p) || leb 1 (masked_sum (object s))
              then "masked"
              else "passed"))

  -- A receipt that has no errors when it has to be resolved covers the Inbox checksum and the
  -- candidate's checksum, its scan receipt covers the Inbox checksum and passed or was masked, its
  -- sensitivity decision is completed or not applicable, and its status says whether the scan or
  -- the agent masked something.
  pub data_protection_receipt_errors-IsCleared :
      (candidate : String) (r : Fields)
      → data_protection_receipt_errors is_iso (object r) checksum (some candidate) true ≡ ok []
      → IsCleared candidate r
  unfolding data_protection_receipt_errors protection_checks IsCleared
  data_protection_receipt_errors-IsCleared candidate r e =
      let (_, e1) = raise_if->>-eq-ok (not (is_hashable (at_key "status" r))) unhashable _ e in
      let (errors, e2, e3) = >>=-eq-ok (scan_part is_iso checksum (at_key "pii_scan" r)) _ e1 in
      let (_, e4) =
        raise_if->>-eq-ok (not (is_hashable (nested "decision" (at_key "sensitivity" r))))
          unhashable _ e3 in
      let clean : join (protection_checks is_iso r checksum (some candidate) true errors) ≡ [] =
        cc (e4) in
      let checks =
        join-eq-nil (protection_checks is_iso r checksum (some candidate) true errors) clean in
      let errors_gone : errors ≡ [] = checks.1.1.1.1.1.1.1.0 in
      let (p, p_is, p_clean) = scan_part_inverse (at_key "pii_scan" r) (cc (e2, errors_gone)) in
      let (p_result, p_source) = scan_inverse p p_clean in
      let (s, s_is, s_decision, s_open) =
        sensitivity_inverse (at_key "sensitivity" r) checks.1.1.1.1.1.1.1.1.0 in
      let p_nested : nested "result" (at_key "pii_scan" r) ≡ at_key "result" p =
        ap (nested "result") p_is in
      let d_nested : nested "decision" (at_key "sensitivity" r) ≡ at_key "decision" s =
        ap (nested "decision") s_is in
      let unresolved_none = when-eq-nil _ _ checks.1.1.1.1.1.1.1.1.1.1.0 in
      let reviewed : equals "needs_review" (nested "result" (at_key "pii_scan" r)) ≡ false =
        ground (arith, unresolved_none) in
      let p_reviewed : equals "needs_review" (at_key "result" p) ≡ false =
        sym (ap (equals "needs_review") p_nested) ∙ reviewed in
      let status =
        equals-true _ (at_key "status" r)
          (not-false _ (when-eq-nil _ _ checks.1.1.1.1.1.1.1.1.1.0)) in
      let status_is : at_key "status" r
          ≡ str (
              status_for (at_key "decision" s) (at_key "result" p)
                (leb 1 (masked_sum (object s)))) =
        cc (status, p_nested, d_nested, s_is) in
      (
        equals-true checksum _ (not-false _ (when-eq-nil _ _ checks.1.0)),
        candidate_inverse candidate _ checks.1.1.0,
        p,
        p_is,
        p_source,
        but_last "passed" "masked" "needs_review" _ p_result p_reviewed,
        s,
        s_is,
        but_last "completed" "not_applicable" "awaiting_user" _ s_decision s_open,
        status_is ∙ ap str (final _ _ _ s_open p_reviewed),
      )
