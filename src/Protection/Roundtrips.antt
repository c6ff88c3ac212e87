-- ===== src/Protection/Roundtrips.antt =====
-- A built receipt passes the check that reads it back: pii.py and data_protection_receipt.py.
use Prim.Native.Char.{code}
use circled_wiki.Base.{
  is_checksum, ℕ, sym, Option-cases, nat_eq, has_key, Bool-cases, is_blank-start, is_space,
  after_prefix, after_prefix, String, Bool, true, false, not, ◌||◌, ◌≡◌, refl, ◌⊎◌, inl, inr, [],
  arith, eq_iff, eq_refl, Fields, str, at_key, value_eq, lacks_text, is_among, is_hashable, is_true,
  is_false, is_boolean, equals, contains, is_blank, is_blank-strip, ok, raise_if->>-eq-ok, subst-ok,
}
use circled_wiki.Protection.Model.{empty_field, invalid_result, invalid_checksum, invalid_candidate}
use circled_wiki.Protection.Pii.{
  scan_checks, receipt_errors, is_malformed, with_candidate, is_null, with_offset, is_bad_time,
  pii_scan_receipt_errors, pii_scan_results, time_or, ScanInput, scan_receipt,
  build_pii_scan_receipt, is_bad_candidate, probe, is_checksum_value,
}

abbrev IsResult : String → Type 0
IsResult r = (r ≡ "passed") ⊎ (r ≡ "masked") ⊎ (r ≡ "needs_review")

contains-IsResult : (r : String) → contains r pii_scan_results ≡ true → IsResult r
unfolding contains
contains-IsResult r e =
    ground (arith, eq_iff r "passed", eq_iff r "masked", eq_iff r "needs_review", e)

nat_eq-true : (a b : ℕ) → nat_eq a b ≡ true → a ≡ b
nat_eq-true a b e = ground (arith, e)

checksum_visible : (s : String) → is_checksum s ≡ true → is_blank s ≡ false
unfolding is_checksum after_prefix is_space
checksum_visible String.[] e = absurd (cc)
checksum_visible (String.◌∷◌ c s) e =
    let first : nat_eq 115 (code c) ≡ true = elim (Bool-cases (nat_eq 115 (code c))) [
      | inl y ↦ y
      | inr n ↦ let f : false ≡ true = rw (n, is_checksum) at e in absurd (cc (f))
    ] in
    let letter : code c ≡ 115 = sym (nat_eq-true 115 (code c) first) in
    is_blank-start c s (rw letter refl)

module _ (is_iso : String → Bool) (checksum : String) (i : ScanInput) (now : String) where
  abbrev at : String
  at = time_or i.scanned_at now

  scan_receipt_valid :
      is_blank i.scanner ≡ false
      → is_blank i.scanner_version ≡ false
      → is_blank i.reviewed_by ≡ false
      → is_blank i.receipt ≡ false
      → IsResult i.result
      → is_checksum checksum ≡ true
      → is_bad_candidate i.candidate_checksum ≡ false
      → is_blank at ≡ false
      → is_iso (with_offset at) ≡ true
      → pii_scan_receipt_errors is_iso (probe (str checksum) (scan_receipt checksum i now)) ≡ ok []
  unfolding scan_receipt scan_checks receipt_errors pii_scan_receipt_errors probe at_key value_eq
      lacks_text is_among is_hashable is_true is_false is_boolean equals contains is_checksum_value
      is_bad_time is_bad_candidate is_null with_candidate is_malformed has_key is_blank
  scan_receipt_valid a b c d r e f g h =
      rw (is_blank-strip i.scanner, a, is_blank-strip i.scanner_version, b)
        (rw (is_blank-strip i.reviewed_by, c, is_blank-strip i.receipt, d)
          (rw (checksum_visible checksum e, e, eq_refl checksum, g, h)
            (elim (Option-cases i.candidate_checksum) [
              | inl n ↦
                  rw n (elim r [
                    | inl p ↦ rw p refl
                    | inr (inl p) ↦ rw p refl
                    | inr (inr p) ↦ rw p refl
                  ])
              | inr (x, j) ↦
                  let good : is_checksum x ≡ true =
                    let shut : not (is_checksum x) ≡ false = rw j at f in ground (arith, shut) in
                  rw j (
                    rw good (elim r [
                      | inl p ↦ rw p refl
                      | inr (inl p) ↦ rw p refl
                      | inr (inr p) ↦ rw p refl
                    ]))
            ])))

  -- A built scan receipt passes the check of the frontmatter that is put around it, whatever its
  -- result is, if its time is not blank and is one that the timestamp parser reads.
  pub pii_scan_roundtrip :
      (r : Fields)
      → build_pii_scan_receipt checksum i now ≡ ok r
      → is_blank at ≡ false
      → is_iso (with_offset at) ≡ true
      → pii_scan_receipt_errors is_iso (probe (str checksum) r) ≡ ok []
  unfolding build_pii_scan_receipt
  pii_scan_roundtrip r e visible iso =
      let (texts, e1) =
        raise_if->>-eq-ok
          (is_blank i.scanner
            || is_blank i.scanner_version
            || is_blank i.reviewed_by
            || is_blank i.receipt)
          empty_field _ e in
      let (named, e2) =
        raise_if->>-eq-ok (not (contains i.result pii_scan_results)) invalid_result _ e1 in
      let (sum, e3) = raise_if->>-eq-ok (not (is_checksum checksum)) invalid_checksum _ e2 in
      let (candidate, e4) =
        raise_if->>-eq-ok (is_bad_candidate i.candidate_checksum) invalid_candidate _ e3 in
      subst-ok (λ (x : Fields). pii_scan_receipt_errors is_iso (probe (str checksum) x) ≡ ok []) e4
        (scan_receipt_valid (ground (arith, texts)) (ground (arith, texts)) (ground (arith, texts))
          (ground (arith, texts)) (contains-IsResult i.result (ground (arith, named)))
          (ground (arith, sum)) candidate visible iso)
