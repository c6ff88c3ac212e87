-- ===== src/Governance/Samples.antt =====
-- Tests of the governance metrics, and their property at a concrete input.
use circled_wiki.Base.{
  String, true, ◌≡◌, refl, some, List, [], ◌∷◌, Value, str, number, array, object, nil, end, field,
  at_key, equals, has_key, contains, is_hashable, length, leb, ok, err,
}
use circled_wiki.Protection.{digits_value}
use circled_wiki.Governance.Metrics.{
  EvidenceFile, Effectiveness, not_mapping, measure_runbook_effectiveness, from_zero,
}
use circled_wiki.Governance.Bounds.{AreWithin, measure_runbook_effectiveness-AreWithin}

abbrev outcome : String → String → Value
outcome revision status = object (
    field "type" (str "workflow-outcome") (
      field "workflow_id" (str "w")
        (field "knowledge_revision" (number revision) (field "status" (str status) end))))

abbrev evidence : Value → EvidenceFile
evidence original = record {
  parts = "knowledge" ∷ "evidence" ∷ [];
  name = "a.md";
  frontmatter = end;
  original = some original;
}

abbrev files : List EvidenceFile
files =
    evidence (outcome "2" "completed")
    ∷ evidence (outcome "1" "failed")
    ∷ evidence (outcome "2" "open")
    ∷ []

abbrev report : Effectiveness
report = record {
  workflow_id = "w";
  revisions =
      (
        from_zero 1,
        record { total = 1; completed = 0; failed = 1; needs_review = 0; with_feedback = 0 },
      )
      ∷ (
        from_zero 2,
        record { total = 2; completed = 1; failed = 0; needs_review = 0; with_feedback = 0 },
      )
      ∷ [];
  comparable = true;
}

report_ok : measure_runbook_effectiveness files "w" ≡ ok report
unfolding measure_runbook_effectiveness contains at_key equals digits_value is_hashable has_key
report_ok = refl

measure_runbook_effectiveness-AreWithin_example :
    AreWithin report.revisions (length files)
    × (report.comparable ≡ leb 2 (length report.revisions))
measure_runbook_effectiveness-AreWithin_example =
    measure_runbook_effectiveness-AreWithin files "w" report report_ok

-- A JSON list as the original of any Evidence stops the measurement.
list_stops : measure_runbook_effectiveness (evidence (array nil) ∷ []) "w" ≡ err not_mapping
unfolding measure_runbook_effectiveness contains at_key equals
list_stops = refl
