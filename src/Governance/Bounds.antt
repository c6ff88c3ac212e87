-- ===== src/Governance/Bounds.antt =====
-- The counts of `measure_runbook_effectiveness` in governance.py are bounded.
use Prim.Native.Nat.{suc}
use circled_wiki.Base.{
  String, ℕ, ◌+◌, ◌≤◌, Bool, true, false, not, ◌||◌, ◌≡◌, refl, ◌∙◌, inl, inr, Option, none, some,
  List, [], ◌∷◌, ◌==◌, arith, eq_iff, Value, Fields, null, boolean, number, str, array, object,
  at_key, is_hashable, equals, length, leb, Bool-cases, Option-cases, ok, >>=-eq-ok,
  raise_if->>-eq-ok, subst-ok, ◌>>◌, raise_if,
}
use circled_wiki.Governance.Metrics.{
  EvidenceFile, Metric, Revision, Revisions, unhashable_status, no_metric, one_if, counted,
  count_in, same_revision, less_revision, revision_of, has_feedback, target_of, count_payload,
  count_original, is_evidence, count_files, last_two_counted, Effectiveness,
  measure_runbook_effectiveness,
}

-- The statuses are told apart, and no count is above the total.
abbrev pub IsBounded : Metric → Type 0
IsBounded m = (m.completed + m.failed + m.needs_review ≤ m.total) × (m.with_feedback ≤ m.total)

abbrev pub AreBounded : Revisions → Type 0
AreBounded [] = Unit
AreBounded ((r, m) ∷ rest) = (IsBounded m × (1 ≤ m.total)) × AreBounded rest

abbrev pub total_sum : Revisions → ℕ
total_sum [] = 0
total_sum ((r, m) ∷ rest) = m.total + total_sum rest

one_feedback : (b : Bool) → one_if b ≤ 1
one_feedback true = omega arith
one_feedback false = omega arith

one_status :
    (v : Value)
    → one_if (equals "completed" v) + one_if (equals "failed" v) + one_if (equals "needs_review" v)
      ≤ 1
unfolding equals
one_status (str s) = elim (Bool-cases (s == "completed")) [
  | inl is_completed ↦
      let same : s ≡ "completed" = ground (arith, eq_iff s "completed", is_completed) in
      rw same (omega arith)
  | inr not_completed ↦ elim (Bool-cases (s == "failed")) [
    | inl is_failed ↦
        let same : s ≡ "failed" = ground (arith, eq_iff s "failed", is_failed) in
        rw same (omega arith)
    | inr not_failed ↦
        rw (not_completed, not_failed) (omega (arith, one_feedback (s == "needs_review")))
  ]
]
one_status null = ground arith
one_status (boolean b) = ground arith
one_status (number n) = ground arith
one_status (array vs) = ground arith
one_status (object fs) = ground arith

counted-IsBounded :
    (v : Value) (b : Bool) (m : Metric)
    → IsBounded m
    → IsBounded (counted v b m) × (1 ≤ (counted v b m).total)
unfolding counted
counted-IsBounded v b m h =
    ((omega (arith, one_status v, h.0), omega (arith, one_feedback b, h.1)), omega arith)

module _ (v : Value) (b : Bool) (r : Revision) where
  count_in-AreBounded :
      (rows : Revisions) → AreBounded rows → AreBounded (count_in (counted v b) r rows)
  unfolding count_in
  count_in-AreBounded [] h = (counted-IsBounded v b no_metric (omega arith, omega arith), tt)
  count_in-AreBounded ((q, m) ∷ rest) h = elim (Bool-cases (same_revision r q)) [
    | inl same ↦ rw same (counted-IsBounded v b m h.0.0, h.1)
    | inr other ↦ elim (Bool-cases (less_revision r q)) [
      | inl before ↦
          rw (other, before) (counted-IsBounded v b no_metric (omega arith, omega arith), h)
      | inr behind ↦ rw (other, behind) (h.0, count_in-AreBounded rest h.1)
    ]
  ]

  total_sum-count_in :
      (rows : Revisions) → total_sum (count_in (counted v b) r rows) ≡ suc (total_sum rows)
  unfolding count_in counted
  total_sum-count_in [] = omega arith
  total_sum-count_in ((q, m) ∷ rest) = elim (Bool-cases (same_revision r q)) [
    | inl same ↦ rw same (omega arith)
    | inr other ↦ elim (Bool-cases (less_revision r q)) [
      | inl before ↦ rw (other, before) (omega arith)
      | inr behind ↦ rw (other, behind) (omega (arith, total_sum-count_in rest))
    ]
  ]

-- Bounded rows, whose totals are at most a number.
abbrev pub AreWithin : Revisions → ℕ → Type 0
AreWithin rows n = AreBounded rows × (total_sum rows ≤ n)

count_payload-AreWithin :
    (id : String) (payload : Fields) (rows after : Revisions)
    → AreBounded rows
    → count_payload id payload rows ≡ ok after
    → AreWithin after (suc (total_sum rows))
unfolding count_payload
count_payload-AreWithin id payload rows after h e =
    elim (Bool-cases (
      not (equals "workflow-outcome" (at_key "type" payload))
      || not (equals id (target_of payload)))) [
        | inl skipped ↦
            subst-ok (λ (x : Revisions). AreWithin x (suc (total_sum rows))) (rw skipped at e)
              (h, omega arith)
        | inr taken ↦ elim (Option-cases (revision_of (at_key "knowledge_revision" payload))) [
          | inl none_there ↦
              subst-ok (λ (x : Revisions). AreWithin x (suc (total_sum rows)))
                (rw (taken, none_there, count_payload) at e) (h, omega arith)
          | inr (r, there) ↦
              let e1 : (raise_if (not (is_hashable (at_key "status" payload))) unhashable_status
                    >> ok (
                        count_in (counted (at_key "status" payload) (has_feedback payload)) r rows))
                  ≡ ok after =
                rw (taken, there, count_payload) at e in
              let (_, e2) =
                raise_if->>-eq-ok (not (is_hashable (at_key "status" payload))) unhashable_status _
                  e1 in
              subst-ok (λ (x : Revisions). AreWithin x (suc (total_sum rows))) e2
                (
                  count_in-AreBounded (at_key "status" payload) (has_feedback payload) r rows h,
                  omega (
                    arith,
                    total_sum-count_in (at_key "status" payload) (has_feedback payload) r rows,
                  ),
                )
        ]
      ]

count_original-AreWithin :
    (id : String) (original : Option Value) (rows after : Revisions)
    → AreBounded rows
    → count_original id original rows ≡ ok after
    → AreWithin after (suc (total_sum rows))
unfolding count_original
count_original-AreWithin id none rows after h e =
    subst-ok (λ (x : Revisions). AreWithin x (suc (total_sum rows))) e (h, omega arith)
count_original-AreWithin id (some (object payload)) rows after h e =
    count_payload-AreWithin id payload rows after h e
count_original-AreWithin id (some null) rows after h e = absurd (cc)
count_original-AreWithin id (some (str s)) rows after h e = absurd (cc)
count_original-AreWithin id (some (boolean b)) rows after h e = absurd (cc)
count_original-AreWithin id (some (number n)) rows after h e = absurd (cc)
count_original-AreWithin id (some (array vs)) rows after h e = absurd (cc)

count_files-AreWithin :
    (id : String) (files : List EvidenceFile) (rows after : Revisions)
    → AreBounded rows
    → count_files id files rows ≡ ok after
    → AreWithin after (total_sum rows + length files)
unfolding count_files
count_files-AreWithin id [] rows after h e =
    subst-ok (λ (x : Revisions). AreWithin x (total_sum rows + 0)) e (h, omega arith)
count_files-AreWithin id (f ∷ files) rows after h e = elim (Bool-cases (is_evidence f)) [
  | inl taken ↦
      let (middle, e1, e2) = >>=-eq-ok (count_original id f.original rows) _ (rw taken at e) in
      let (bounded, within) = count_original-AreWithin id f.original rows middle h e1 in
      let (bounded_after, within_after) = count_files-AreWithin id files middle after bounded e2 in
      (bounded_after, omega (arith, within, within_after))
  | inr skipped ↦
      let e1 : count_files id files rows ≡ ok after = rw skipped at e in
      let (bounded, within) = count_files-AreWithin id files rows after h e1 in
      (bounded, omega (arith, within))
]

compared : (rows : Revisions) → AreBounded rows → last_two_counted rows ≡ leb 2 (length rows)
unfolding last_two_counted
compared [] h = refl
compared (r ∷ []) h = refl
compared (r ∷ q ∷ []) h = ground (arith, h.0.1, h.1.0.1)
compared (r ∷ q ∷ p ∷ []) h = ground (arith, h.1.0.1, h.1.1.0.1)
compared (r ∷ q ∷ p ∷ x ∷ rest) h =
    let same : leb 2 (length (q ∷ p ∷ x ∷ rest)) ≡ leb 2 (length (r ∷ q ∷ p ∷ x ∷ rest)) =
      ground arith in
    compared (q ∷ p ∷ x ∷ rest) h.1 ∙ same

-- When the documents can be measured, of each revision's outcomes the completed, failed and
-- reviewed ones are together at most the total, as are those with feedback; no row is empty; all
-- totals together are at most the number of documents; and the revisions can be compared exactly
-- when there are two.
pub measure_runbook_effectiveness-AreWithin :
    (files : List EvidenceFile) (id : String) (report : Effectiveness)
    → measure_runbook_effectiveness files id ≡ ok report
    → AreWithin report.revisions (length files)
      × (report.comparable ≡ leb 2 (length report.revisions))
unfolding measure_runbook_effectiveness
measure_runbook_effectiveness-AreWithin files id report e =
    let (rows, e1, e2) = >>=-eq-ok (count_files id files []) _ e in
    let (bounded, within) = count_files-AreWithin id files [] rows tt e1 in
    subst-ok
      (λ (x : Effectiveness).
        AreWithin x.revisions (length files) × (x.comparable ≡ leb 2 (length x.revisions)))
      e2 ((bounded, omega (arith, within)), compared rows bounded)
