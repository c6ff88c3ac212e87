-- ===== src/Protection/Receipted.antt =====
-- A built data protection receipt passes the check that reads it back: data_protection_receipt.py.
use circled_wiki.Base.{
  is_checksum, starts_with, digit_text, Option-cases, String, ℕ, Bool, true, false, not, ◌&&◌, ◌||◌,
  ◌+◌, ◌≡◌, refl, ◌∙◌, inl, inr, some, List, [], ◌∷◌, arith, eq_refl, Value, Values, Fields, null,
  str, object, array, nil, cons, end, field, array_of, at_key, has_key, lacks_text, is_boolean,
  is_hashable, is_among, equals, contains, is_blank, is_blank-strip, sorted_set, sorted_set-all,
  decimal, all, leb, nat_eq, Bool-cases, ok, raise_if->>-eq-ok, >>=-eq-ok, subst-ok,
}
use circled_wiki.Protection.Model.{
  finding_invalid, source_invalid, candidate_rejected, sensitivity_invalid, config_invalid,
  actor_empty,
}
use circled_wiki.Protection.Pii.{with_offset, pii_scan_receipt_errors, probe}
use circled_wiki.Protection.Receipts.{
  sensitivity_decisions, protection_results, count_of, is_count, stripped, normalized_findings,
  has_values, status_for, ReceiptInput, receipt_or, sensitivity_of, composed,
  build_data_protection_receipt,
}
use circled_wiki.Protection.Checks.{
  count_or_zero, is_version, candidate_errors, text_errors, is_finding, finding_total, all_texts,
  is_string, is_category_list, findings_of, sensitivity_checks, sensitivity_errors, nested,
  masked_sum, is_unread_time, scan_part, protection_checks, data_protection_receipt_errors,
}

all_texts-array_of : (xs : List String) → all_texts (array_of xs) ≡ all (λ s. not (is_blank s)) xs
unfolding all_texts array_of lacks_text
all_texts-array_of [] = refl
all_texts-array_of (x ∷ xs) = rw (all_texts-array_of xs) refl

-- No finding counts with a Boolean, which the builder takes for a number and the check refuses.
unfoldable pub counts_are_numbers : Values → Bool
counts_are_numbers nil = true
counts_are_numbers (cons (object finding) vs) =
    not (is_boolean (at_key "count" finding)) && counts_are_numbers vs
counts_are_numbers (cons v vs) = counts_are_numbers vs

lacks_text-stripped : (v : Value) → lacks_text (stripped v) ≡ lacks_text v
unfolding lacks_text stripped
lacks_text-stripped (str s) = is_blank-strip s
lacks_text-stripped null = refl
lacks_text-stripped (Value.boolean b) = refl
lacks_text-stripped (Value.number b) = refl
lacks_text-stripped (array b) = refl
lacks_text-stripped (object b) = refl

abbrev AreNormal : Values → Type 0
AreNormal ws = ((finding_total ws).0 ≡ true) × (leb 1 (finding_total ws).1 ≡ has_values ws)

sum_positive : (a b : ℕ) → leb 1 a ≡ true → leb 1 (a + b) ≡ true
sum_positive a b e = ground (arith, e)

positive_count : (v : Value) → is_count v ≡ true → leb 1 (count_or_zero (count_of v)) ≡ true
unfolding is_count count_or_zero
positive_count v e = elim (Option-cases (count_of v)) [
  | inl n ↦ let f : false ≡ true = rw (n, is_count) at e in absurd (cc (f))
  | inr (n, j) ↦ rw j (rw (j, is_count) at e)
]

abbrev normal : Value → Value → Value
normal category count = object (field "category" category (field "count" count end))

normal_step :
    (category count : Value) (ws : Values)
    → lacks_text category ≡ false
    → is_count count ≡ true
    → is_boolean count ≡ false
    → AreNormal ws
    → AreNormal (cons (normal category count) ws)
unfolding finding_total is_finding at_key has_key has_values
normal_step category count ws c n b h =
    rw (c, n, b) (rw h.0 refl, sum_positive _ (finding_total ws).1 (positive_count count n))

-- The normalized findings are well-formed, and add up to nothing only when there are none.
findings_normal :
    (vs ws : Values) → counts_are_numbers vs ≡ true → normalized_findings vs ≡ ok ws → AreNormal ws
unfolding counts_are_numbers normalized_findings finding_total has_values
findings_normal nil ws h e = subst-ok AreNormal e (refl, refl)
findings_normal (cons (object f) vs) ws h e =
    let (bad, e1) =
      raise_if->>-eq-ok (lacks_text (at_key "category" f) || not (is_count (at_key "count" f)))
        finding_invalid _ e in
    let (rest, e2, e3) = >>=-eq-ok (normalized_findings vs) _ e1 in
    let texted : lacks_text (at_key "category" f) ≡ false = ground (arith, bad) in
    let number : is_count (at_key "count" f) ≡ true = ground (arith, bad) in
    let no_flag : is_boolean (at_key "count" f) ≡ false = ground (arith, h) in
    let others : counts_are_numbers vs ≡ true = ground (arith, h) in
    subst-ok AreNormal e3 (
      normal_step (stripped (at_key "category" f)) (at_key "count" f) rest
        (lacks_text-stripped _ ∙ texted) number no_flag (findings_normal vs rest others e2))
findings_normal (cons null vs) ws h e = absurd (cc)
findings_normal (cons (str s) vs) ws h e = absurd (cc)
findings_normal (cons (Value.boolean b) vs) ws h e = absurd (cc)
findings_normal (cons (Value.number b) vs) ws h e = absurd (cc)
findings_normal (cons (array b) vs) ws h e = absurd (cc)

status_listed :
    (d r : Value) (masked : Bool) → contains (status_for d r masked) protection_results ≡ true
unfolding contains status_for
status_listed d r masked = elim (Bool-cases (equals "awaiting_user" d || equals "needs_review" r)) [
  | inl waits ↦ rw waits refl
  | inr no_wait ↦ elim (Bool-cases (equals "masked" r || masked)) [
    | inl hidden ↦ rw (no_wait, hidden) refl
    | inr plain ↦ rw (no_wait, plain) refl
  ]
]

module _ (is_iso : String → Bool) (i : ReceiptInput) (now : String) where
  scan_clean :
      pii_scan_receipt_errors is_iso (probe (str i.source_checksum) i.pii_scan) ≡ ok []
      → scan_part is_iso i.source_checksum (object i.pii_scan) ≡ ok []
  unfolding scan_part
  scan_clean e = rw e refl

  composed_valid :
      (findings : Values)
      → AreNormal findings
      → is_checksum i.candidate_checksum ≡ true
      → contains i.sensitivity_decision sensitivity_decisions ≡ true
      → i.policy_config_version ≡ 1
      → is_blank i.actor ≡ false
      → pii_scan_receipt_errors is_iso (probe (str i.source_checksum) i.pii_scan) ≡ ok []
      → is_blank i.policy_ref ≡ false
      → is_blank i.policy_config ≡ false
      → is_blank i.resolution ≡ false
      → is_blank (receipt_or i.receipt i.source_checksum) ≡ false
      → all (λ s. not (is_blank s)) i.matched_categories ≡ true
      → is_blank now ≡ false
      → is_iso (with_offset now) ≡ true
      → data_protection_receipt_errors is_iso
          (object (composed i findings now))
          i.source_checksum
          (some i.candidate_checksum)
          false
        ≡ ok []
  unfolding data_protection_receipt_errors protection_checks composed sensitivity_of at_key
      is_hashable is_version equals candidate_errors text_errors lacks_text is_unread_time
      sensitivity_errors sensitivity_checks is_string is_category_list findings_of nested masked_sum
      decimal digit_text is_among
  composed_valid findings normal sum decided version actor scanned ref config resolution receipt
        categories visible iso =
      rw (scan_clean scanned, version, eq_refl i.source_checksum)
        (rw (sum, eq_refl i.candidate_checksum)
          (rw (ref, config, is_blank-strip i.actor, actor, visible, receipt)
            (let shown : all_texts (array_of (sorted_set i.matched_categories)) ≡ true =
                all_texts-array_of (sorted_set i.matched_categories)
                ∙ sorted_set-all (λ s. not (is_blank s)) i.matched_categories categories in
              let status =
                status_for (str i.sensitivity_decision) (at_key "result" i.pii_scan)
                  (has_values findings) in
              rw
                (
                  status_listed (str i.sensitivity_decision) (at_key "result" i.pii_scan)
                      (has_values findings),
                  iso,
                  decided,
                )
                (rw (shown, normal.0, resolution, normal.1) (rw (eq_refl status) refl)))))

  -- A built data protection receipt passes its own check for the checksum and the candidate that it
  -- was built for, if the nested scan receipt is right for that checksum, the policy names, the
  -- resolution, the receipt text and the categories are not blank, no count is a Boolean, and the
  -- clock's time is one that the timestamp parser reads.
  pub data_protection_roundtrip :
      (r : Fields)
      → build_data_protection_receipt i now ≡ ok r
      → pii_scan_receipt_errors is_iso (probe (str i.source_checksum) i.pii_scan) ≡ ok []
      → is_blank i.policy_ref ≡ false
      → is_blank i.policy_config ≡ false
      → is_blank i.resolution ≡ false
      → is_blank (receipt_or i.receipt i.source_checksum) ≡ false
      → all (λ s. not (is_blank s)) i.matched_categories ≡ true
      → counts_are_numbers i.agent_masked_findings ≡ true
      → is_blank now ≡ false
      → is_iso (with_offset now) ≡ true
      → data_protection_receipt_errors is_iso
          (object r)
          i.source_checksum
          (some i.candidate_checksum)
          false
        ≡ ok []
  unfolding build_data_protection_receipt
  data_protection_roundtrip r e scanned ref config resolution receipt categories counts visible
        iso =
      let (_, e1) =
        raise_if->>-eq-ok (not (starts_with i.source_checksum "sha256:")) source_invalid _ e in
      let (sum, e2) =
        raise_if->>-eq-ok (not (is_checksum i.candidate_checksum)) candidate_rejected _ e1 in
      let (decided, e3) =
        raise_if->>-eq-ok (not (contains i.sensitivity_decision sensitivity_decisions))
          sensitivity_invalid _ e2 in
      let (version, e4) =
        raise_if->>-eq-ok (not (nat_eq i.policy_config_version 1)) config_invalid _ e3 in
      let (actor, e5) = raise_if->>-eq-ok (is_blank i.actor) actor_empty _ e4 in
      let (findings, e6, e7) = >>=-eq-ok (normalized_findings i.agent_masked_findings) _ e5 in
      subst-ok
        (λ (x : Fields).
          data_protection_receipt_errors is_iso (object x) i.source_checksum
            (some i.candidate_checksum) false
          ≡ ok [])
        e7
        (composed_valid findings (findings_normal i.agent_masked_findings findings counts e6)
          (ground (arith, sum)) (ground (arith, decided)) (ground (arith, version)) actor scanned
          ref config resolution receipt categories visible iso)
