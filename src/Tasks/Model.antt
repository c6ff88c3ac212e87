-- ===== src/Tasks/Model.antt =====
-- The data of src/circled_wiki/runtime/core/workflow.py: tasks, their steps and their refresh
-- records, with the closed vocabularies that its module constants list.
use circled_wiki.Base.{
  ℕ, String, Bool, true, false, ◌&&◌, ◌||◌, Option, List, [], ◌∷◌, Value, truthy,
}

-- WORKFLOW_STEP_KINDS of the validator.
pub data StepKind : Type 0 where
  action decision approval validation : StepKind

unfoldable pub is_approval : StepKind → Bool
is_approval approval = true
is_approval action = false
is_approval decision = false
is_approval validation = false

pub data StepStatus : Type 0 where
  pending completed failed needs_review approved rejected : StepStatus

-- `status in {"completed", "approved"}`.
unfoldable pub is_done : StepStatus → Bool
is_done completed = true
is_done approved = true
is_done pending = false
is_done failed = false
is_done needs_review = false
is_done rejected = false

-- A step of a workflow definition.
pub record StepSpec : Type 0 where
  pub id : String
  pub title : String
  pub kind : StepKind
  pub approvers : List String

-- One entry of `step_states`.
pub record Step : Type 0 where
  pub id : String
  pub title : String
  pub kind : StepKind
  pub approvers : List String
  pub status : StepStatus
  pub result : String
  pub actor : String
  pub updated_at : Option String

pub data TaskType : Type 0 where
  workflow_execution runbook_refresh : TaskType

pub data TaskStatus : Type 0 where
  ready needs_review in_progress awaiting_outcome completed failed : TaskStatus

-- An entry of `required_inputs`: an object with a text under "name", or anything else.
pub data InputSpec : Type 0 where
  named : String → InputSpec
  unnamed : InputSpec

-- REFRESH_DECISIONS.
pub data Verdict : Type 0 where
  update_required no_change insufficient_evidence : Verdict

-- REFERENCE_DISPOSITIONS.
pub data Disposition : Type 0 where
  accept partial_accept reject needs_more_evidence : Disposition

pub record RefreshDecision : Type 0 where
  pub verdict : Verdict
  pub rationale : String
  pub evidence_ids : List String
  pub actor : String
  pub recorded_at : String
  pub assessment_evidence_ids : List String

pub record Submission : Type 0 where
  pub evidence_id : String
  pub submitted_by : String
  pub note : String
  pub submitted_at : String

pub record Assessment : Type 0 where
  pub evidence_id : String
  pub authority : String
  pub recency : String
  pub applicability : String
  pub corroboration : String
  pub conflicts : List String
  pub disposition : Disposition
  pub rationale : String
  pub assessed_by : String
  pub verified_by : String
  pub assessed_at : String

pub record PublishedRevision : Type 0 where
  pub bundle_id : String
  pub knowledge_revision : ℕ
  pub revision_ref : String
  pub confirmed_at : String

pub record ArtifactProfile : Type 0 where
  pub type_name : String
  pub required_sections : List String

-- An active Runbook, as `iter_workflows` yields it.
pub record Workflow : Type 0 where
  pub bundle_id : String
  pub workflow_id : String
  pub version : String
  pub knowledge_revision : ℕ
  pub owners : List String
  pub required_inputs : List InputSpec
  pub steps : List StepSpec
  pub artifact_profile : Option ArtifactProfile
  pub links : List String
  pub stale : Bool

-- A task. What `create` copies from the workflow and no operation changes stays in `workflow`.
pub record Task : Type 0 where
  pub task_id : String
  pub task_type : TaskType
  pub workflow_id : String
  pub target_workflow_id : Option String
  pub workflow : Workflow
  pub request : String
  pub inputs : List (String × Value)
  pub deferred_inputs : Option (List (String × Value))
  pub required_inputs : List InputSpec
  pub missing_inputs : List String
  pub step_states : List Step
  pub owners : List String
  pub candidate_evidence_ids : List String
  pub reference_submissions : List Submission
  pub reference_assessments : List Assessment
  pub refresh_decision : Option RefreshDecision
  pub published_revision : Option PublishedRevision
  pub status : TaskStatus
  pub created_at : String
  pub updated_at : String
  pub outcome_evidence_id : Option String
  pub outcome_intake_id : Option String

-- `task.get("outcome_evidence_id") or task.get("outcome_intake_id")`.
unfoldable pub is_closed : Task → Bool
unfolding truthy
is_closed t = truthy t.outcome_evidence_id || truthy t.outcome_intake_id

unfoldable pub is_refresh : TaskType → Bool
is_refresh runbook_refresh = true
is_refresh workflow_execution = false

-- `all(step["status"] in {"completed", "approved"} for step in states)`.
unfoldable pub all_done : List Step → Bool
unfolding is_done
all_done [] = true
all_done (s ∷ ss) = is_done s.status && all_done ss

-- The messages of the `ValueError`s (and the `KeyError` of a nameless input) that the operations raise.
pub data TaskError : Type 0 where
  invalid_task_id task_not_found task_unreadable : TaskError
  blank_request invalid_refresh_reason : TaskError
  inputs_closed inputs_terminal input_without_name : TaskError
  invalid_step_status blank_step_field steps_closed inputs_missing : TaskError
  proposal_step_reserved step_not_found : TaskError
  approval_status_required not_an_approval_step steps_out_of_order : TaskError
  approver_not_independent no_authorized_approver approver_not_authorized : TaskError
  refresh_decision_required reviewer_not_independent : TaskError
  approver_not_owner revision_not_confirmed : TaskError
  invalid_decision blank_decision_field evidence_ids_required not_a_refresh : TaskError
  decision_closed assessment_missing more_evidence_needed collection_incomplete : TaskError
  invalid_authority invalid_recency invalid_applicability invalid_corroboration : TaskError
  invalid_disposition blank_assessment_field assessor_is_verifier : TaskError
  out_of_scope_accepted conflicting_accepted assessment_closed not_a_candidate : TaskError
  invalid_conflicts wrong_bundle revision_not_increased blank_revision_ref : TaskError
  invalid_outcome_status blank_summary outcome_not_awaited capture_failed : TaskError
  profile_unmatched sections_missing : TaskError
  artifact_unnamed availability_invalid availability_unhashable artifact_without_uri : TaskError
  decision_unstated decision_unexplained decision_unsupported : TaskError
  decision_evidence_missing action_item_incomplete invalid_due_at question_incomplete : TaskError
