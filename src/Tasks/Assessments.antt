-- ===== src/Tasks/Assessments.antt =====
-- `TaskStore.record_refresh_decision`, `record_reference_assessment` and `confirm_revision` of
-- workflow.py.
use circled_wiki.Base.{
  ℕ, String, ◌==◌, Bool, true, false, not, ◌&&◌, ◌||◌, Option, none, some, List, [], ◌∷◌, ◌++◌,
  if◌then◌else◌, is_blank, contains, non_empty, any, all, leb, sorted_set, Result, ok, ◌>>=◌, ◌>>◌,
  raise_if, or_raise,
}
use Prim.Native.String.{◌++◌ as text_append}
use circled_wiki.Tasks.Model.{
  StepStatus, Step, is_refresh, TaskStatus, Verdict, update_required, no_change,
  insufficient_evidence, Disposition, accept, partial_accept, reject, needs_more_evidence,
  Assessment, Task, is_closed, all_done, TaskError, invalid_decision, blank_decision_field,
  evidence_ids_required, not_a_refresh, decision_closed, assessment_missing, more_evidence_needed,
  collection_incomplete, invalid_authority, invalid_recency, invalid_applicability,
  invalid_corroboration, invalid_disposition, blank_assessment_field, assessor_is_verifier,
  out_of_scope_accepted, conflicting_accepted, assessment_closed, not_a_candidate,
  invalid_conflicts, wrong_bundle, revision_not_increased, blank_revision_ref,
}
use circled_wiki.Tasks.Store.{TaskStore, modify}
use circled_wiki.Tasks.Steps.{Position, locate, is_insufficient}
use circled_wiki.Tasks.EvidenceId.{is_evidence_id}

unfoldable pub parse_verdict : String → Option Verdict
parse_verdict s =
    if s == "update_required"
    then some update_required
    else if s == "no_change"
    then some no_change
    else if s == "insufficient_evidence"
    then some insufficient_evidence
    else none

unfoldable pub parse_disposition : String → Option Disposition
parse_disposition s =
    if s == "accept"
    then some accept
    else if s == "partial_accept"
    then some partial_accept
    else if s == "reject"
    then some reject
    else if s == "needs_more_evidence"
    then some needs_more_evidence
    else none

unfoldable pub assesses : String → List Assessment → Bool
assesses e [] = false
assesses e (a ∷ rest) = a.evidence_id == e || assesses e rest

-- `candidate_ids.difference(assessments)` is empty.
unfoldable pub all_assessed : List String → List Assessment → Bool
unfolding assesses
all_assessed [] assessments = true
all_assessed (e ∷ es) assessments = assesses e assessments && all_assessed es assessments

unfoldable pub wants_more : Disposition → Bool
wants_more needs_more_evidence = true
wants_more accept = false
wants_more partial_accept = false
wants_more reject = false

-- The dictionary of assessments keeps the last one of each evidence id.
unfoldable pub any_wants_more : List Assessment → Bool
unfolding assesses wants_more
any_wants_more [] = false
any_wants_more (a ∷ rest) =
    not (assesses a.evidence_id rest) && wants_more a.disposition || any_wants_more rest

-- The guards on the candidates.
unfoldable pub check_candidates : Task → Verdict → Result TaskError (Unit {0})
unfolding all_assessed any_wants_more is_insufficient
check_candidates t verdict =
    if non_empty t.candidate_evidence_ids
    then (do
      raise_if (not (all_assessed t.candidate_evidence_ids t.reference_assessments))
          assessment_missing
      raise_if (not (is_insufficient verdict) && any_wants_more t.reference_assessments)
          more_evidence_needed)
    else ok tt

unfoldable pub verdict_text : Verdict → String
verdict_text update_required = "update_required"
verdict_text no_change = "no_change"
verdict_text insufficient_evidence = "insufficient_evidence"

-- The proposal step behind a decision.
unfoldable pub decided : Step → Verdict → String → String → String → Step
unfolding is_insufficient verdict_text
decided s verdict rationale actor now = record s {
  status = if is_insufficient verdict then StepStatus.needs_review else StepStatus.completed;
  result = text_append (verdict_text verdict) (text_append ": " rationale);
  actor = actor;
  updated_at = some now;
}

unfoldable pub decide_at : Task → Position → Verdict → String → List String → String → String → Task
unfolding decided is_insufficient sorted_set
decide_at t p verdict rationale evidence_ids actor now = record t {
  refresh_decision = some (record {
    verdict = verdict;
    rationale = rationale;
    evidence_ids = evidence_ids;
    actor = actor;
    recorded_at = now;
    assessment_evidence_ids = sorted_set t.candidate_evidence_ids;
  });
  step_states = p.prior ++ decided p.state verdict rationale actor now ∷ p.later;
  status = if is_insufficient verdict then TaskStatus.needs_review else TaskStatus.in_progress;
}

unfoldable pub decide :
    Verdict → String → List String → String → String → Task → Result TaskError Task
unfolding is_refresh is_closed check_candidates locate all_done decide_at
decide verdict rationale evidence_ids actor now t = do
  raise_if (not (is_refresh t.task_type)) not_a_refresh
  raise_if (is_closed t) decision_closed
  check_candidates t verdict
  p ← or_raise (locate "prepare-refresh-proposal" t.step_states) collection_incomplete
  raise_if (not (all_done p.prior)) collection_incomplete
  ok (decide_at t p verdict rationale evidence_ids actor now)

unfoldable pub record_refresh_decision :
    TaskStore
    → String
    → String
    → String
    → List String
    → String
    → String
    → Result TaskError (TaskStore × Task)
unfolding parse_verdict decide modify
record_refresh_decision store task_id decision rationale evidence_ids actor now = do
  verdict ← or_raise (parse_verdict decision) invalid_decision
  raise_if (is_blank rationale || is_blank actor) blank_decision_field
  raise_if (not (non_empty evidence_ids) || not (all is_evidence_id evidence_ids))
      evidence_ids_required
  modify store task_id now (decide verdict rationale evidence_ids actor now)

-- What a caller hands to `record_reference_assessment`.
pub record AssessmentRequest : Type 0 where
  pub evidence_id : String
  pub authority : String
  pub recency : String
  pub applicability : String
  pub corroboration : String
  pub disposition : String
  pub rationale : String
  pub assessed_by : String
  pub verified_by : String
  pub conflicts : List String

unfoldable pub is_accept : Disposition → Bool
is_accept accept = true
is_accept partial_accept = false
is_accept reject = false
is_accept needs_more_evidence = false

unfoldable pub is_some_accept : Disposition → Bool
is_some_accept accept = true
is_some_accept partial_accept = true
is_some_accept reject = false
is_some_accept needs_more_evidence = false

-- The guards that do not look at the task.
unfoldable pub check_assessment : AssessmentRequest → Result TaskError Disposition
unfolding parse_disposition is_accept is_some_accept
check_assessment r = do
  raise_if
      (not (
        contains r.authority
          ("primary" ∷ "official_secondary" ∷ "internal_experience" ∷ "informal" ∷ [])))
      invalid_authority
  raise_if (not (contains r.recency ("newer" ∷ "same_period" ∷ "older" ∷ "unknown" ∷ [])))
      invalid_recency
  raise_if (not (contains r.applicability ("full" ∷ "partial" ∷ "out_of_scope" ∷ [])))
      invalid_applicability
  raise_if (not (contains r.corroboration ("corroborated" ∷ "single_source" ∷ "conflicting" ∷ [])))
      invalid_corroboration
  d ← or_raise (parse_disposition r.disposition) invalid_disposition
  raise_if (is_blank r.rationale || is_blank r.assessed_by || is_blank r.verified_by)
      blank_assessment_field
  raise_if (r.assessed_by == r.verified_by) assessor_is_verifier
  raise_if (r.applicability == "out_of_scope" && is_some_accept d) out_of_scope_accepted
  raise_if (r.corroboration == "conflicting" && is_accept d) conflicting_accepted
  ok d

-- `status in {"completed", "failed"}`.
unfoldable pub is_finished : TaskStatus → Bool
is_finished TaskStatus.completed = true
is_finished TaskStatus.failed = true
is_finished TaskStatus.needs_review = false
is_finished TaskStatus.ready = false
is_finished TaskStatus.in_progress = false
is_finished TaskStatus.awaiting_outcome = false

-- The list without the assessments of one evidence id.
unfoldable pub without_assessment : String → List Assessment → List Assessment
without_assessment e [] = []
without_assessment e (a ∷ rest) =
    let others = without_assessment e rest in if a.evidence_id == e then others else a ∷ others

unfoldable pub assess : AssessmentRequest → Disposition → String → Task → Result TaskError Task
unfolding is_refresh is_closed is_finished without_assessment
assess r d now t = do
  raise_if (not (is_refresh t.task_type)) not_a_refresh
  raise_if (is_closed t || is_finished t.status) assessment_closed
  raise_if (not (contains r.evidence_id t.candidate_evidence_ids)) not_a_candidate
  raise_if (any is_blank r.conflicts) invalid_conflicts
  ok (record t {
    reference_assessments =
        without_assessment r.evidence_id t.reference_assessments
        ++ record {
          evidence_id = r.evidence_id;
          authority = r.authority;
          recency = r.recency;
          applicability = r.applicability;
          corroboration = r.corroboration;
          conflicts = r.conflicts;
          disposition = d;
          rationale = r.rationale;
          assessed_by = r.assessed_by;
          verified_by = r.verified_by;
          assessed_at = now;
        }
          ∷ [];
  })

unfoldable pub record_reference_assessment :
    TaskStore → String → AssessmentRequest → String → Result TaskError (TaskStore × Task)
unfolding check_assessment assess modify
record_reference_assessment store task_id r now = do
  d ← check_assessment r
  modify store task_id now (assess r d now)

unfoldable pub confirm : String → ℕ → String → String → Task → Result TaskError Task
unfolding is_refresh
confirm bundle_id revision revision_ref now t = do
  raise_if (not (is_refresh t.task_type)) not_a_refresh
  raise_if (not (t.workflow.bundle_id == bundle_id)) wrong_bundle
  raise_if (leb revision t.workflow.knowledge_revision) revision_not_increased
  raise_if (is_blank revision_ref) blank_revision_ref
  ok (record t {
    published_revision = some (record {
      bundle_id = bundle_id;
      knowledge_revision = revision;
      revision_ref = revision_ref;
      confirmed_at = now;
    });
  })

unfoldable pub confirm_revision :
    TaskStore → String → String → ℕ → String → String → Result TaskError (TaskStore × Task)
unfolding confirm modify
confirm_revision store task_id bundle_id revision revision_ref now =
    modify store task_id now (confirm bundle_id revision revision_ref now)
