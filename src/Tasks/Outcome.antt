-- ===== src/Tasks/Outcome.antt =====
-- `record_outcome` of workflow.py: the checks of its arguments, the replay of a recorded outcome, the guards on the task, and the link to the Inbox capture. `capture_document` is an
-- argument: the intake id that it returned, or what it raised.
use circled_wiki.Base.{
  String, ◌==◌, Bool, true, false, not, ◌&&◌, Option, none, some, List, if◌then◌else◌, is_blank,
  contains, non_empty, any, all, select, Result, ok, ◌>>=◌, ◌>>◌, raise_if, or_raise,
}
use circled_wiki.Tasks.Model.{
  TaskStatus, ArtifactProfile, Task, is_closed, TaskError, invalid_outcome_status, blank_summary,
  outcome_not_awaited, profile_unmatched, sections_missing,
}
use circled_wiki.Tasks.OutcomeLists.{Artifact, OutcomeLists, Lookups, check_lists, artifacts_of}
use circled_wiki.Tasks.Store.{TaskStore, read_task, update_task}

-- TERMINAL_OUTCOMES.
pub data Outcome : Type 0 where
  completed failed needs_review : Outcome

unfoldable pub parse_terminal : String → Option Outcome
parse_terminal s =
    if s == "completed"
    then some completed
    else if s == "failed"
    then some failed
    else if s == "needs_review"
    then some needs_review
    else none

unfoldable pub task_status : Outcome → TaskStatus
task_status completed = TaskStatus.completed
task_status failed = TaskStatus.failed
task_status needs_review = TaskStatus.needs_review

unfoldable pub is_completed : Outcome → Bool
is_completed completed = true
is_completed failed = false
is_completed needs_review = false

unfoldable pub is_awaiting : TaskStatus → Bool
is_awaiting TaskStatus.awaiting_outcome = true
is_awaiting TaskStatus.ready = false
is_awaiting TaskStatus.needs_review = false
is_awaiting TaskStatus.in_progress = false
is_awaiting TaskStatus.completed = false
is_awaiting TaskStatus.failed = false

unfoldable pub has_profile : String → Artifact → Bool
has_profile name a = matches a.profile
  where
    matches : Option String → Bool
    matches none = false
    matches (some p) = p == name

-- `required_sections.issubset(sections)`.
unfoldable pub covers : List String → Artifact → Bool
covers required a = all (λ s. contains s a.sections) required

unfoldable pub check_profile : Option ArtifactProfile → List Artifact → Result TaskError (Unit {0})
unfolding has_profile covers
check_profile none artifacts = ok tt
check_profile (some profile) artifacts =
    let matching = select (has_profile profile.type_name) artifacts in
    do
      raise_if (not (non_empty matching)) profile_unmatched
      raise_if
          (non_empty profile.required_sections
            && not (any (covers profile.required_sections) matching))
          sections_missing

-- The report of `record_outcome`.
pub record OutcomeReport : Type 0 where
  pub status : TaskStatus
  pub evidence_id : Option String
  pub intake_id : Option String
  pub idempotent : Bool

-- What stands between the read of the task and the capture.
unfoldable pub check_outcome : Task → Outcome → List Artifact → Result TaskError (Unit {0})
unfolding is_completed is_awaiting check_profile
check_outcome t outcome artifacts = do
  raise_if (is_completed outcome && not (is_awaiting t.status)) outcome_not_awaited
  if is_completed outcome then check_profile t.workflow.artifact_profile artifacts else ok tt

unfoldable pub close : Task → Outcome → String → Task
unfolding task_status
close t outcome intake_id = record t {
  status = task_status outcome;
  outcome_intake_id = some intake_id;
}

unfoldable pub replayed : Task → OutcomeReport
replayed t = record {
  status = t.status;
  evidence_id = t.outcome_evidence_id;
  intake_id = t.outcome_intake_id;
  idempotent = true;
}

unfoldable pub capture_outcome :
    TaskStore
    → Task
    → Outcome
    → List Artifact
    → Result TaskError String
    → String
    → Result TaskError (TaskStore × OutcomeReport)
unfolding check_outcome close update_task task_status
capture_outcome store t outcome artifacts captured now = do
  check_outcome t outcome artifacts
  intake_id ← captured
  (store', t') ← update_task store (close t outcome intake_id) now
  ok (
    store',
    record {
      status = task_status outcome;
      evidence_id = none;
      intake_id = some intake_id;
      idempotent = false;
    },
  )

unfoldable pub record_outcome :
    TaskStore
    → Lookups
    → String
    → String
    → String
    → OutcomeLists
    → Result TaskError String
    → String
    → Result TaskError (TaskStore × OutcomeReport)
unfolding parse_terminal check_lists read_task is_closed replayed capture_outcome artifacts_of
record_outcome store look task_id status summary lists captured now = do
  outcome ← or_raise (parse_terminal status) invalid_outcome_status
  raise_if (is_blank summary) blank_summary
  check_lists look lists
  t ← read_task store task_id
  if is_closed t
      then ok (store, replayed t)
      else capture_outcome store t outcome (artifacts_of lists.artifacts) captured now
