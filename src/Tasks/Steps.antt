-- ===== src/Tasks/Steps.antt =====
-- `TaskStore.record_step` of workflow.py.
use circled_wiki.Base.{
  String, ◌==◌, Bool, true, false, not, ◌&&◌, ◌||◌, Option, none, some, List, [], ◌∷◌, ◌++◌,
  if◌then◌else◌, is_blank, strip, contains, stripped_texts, non_empty, is_some, Result, ok, err,
  ◌>>=◌, ◌>>◌, raise_if, or_raise,
}
use circled_wiki.Tasks.Model.{
  StepKind, is_approval, StepStatus, Step, is_refresh, TaskStatus, Verdict, update_required,
  no_change, insufficient_evidence, RefreshDecision, Task, is_closed, all_done, TaskError,
  invalid_step_status, blank_step_field, steps_closed, inputs_missing, proposal_step_reserved,
  step_not_found, approval_status_required, not_an_approval_step, steps_out_of_order,
  approver_not_independent, no_authorized_approver, approver_not_authorized,
  refresh_decision_required, reviewer_not_independent, approver_not_owner, revision_not_confirmed,
}
use mathlib.Core.Option
use circled_wiki.Tasks.Store.{TaskStore, modify}

-- STEP_OUTCOMES.
pub data StepOutcome : Type 0 where
  completed failed needs_review approved rejected : StepOutcome

unfoldable pub parse_outcome : String → Option StepOutcome
parse_outcome status =
    if status == "completed"
    then some completed
    else if status == "failed"
    then some failed
    else if status == "needs_review"
    then some needs_review
    else if status == "approved"
    then some approved
    else if status == "rejected"
    then some rejected
    else none

unfoldable pub step_status : StepOutcome → StepStatus
step_status completed = StepStatus.completed
step_status failed = StepStatus.failed
step_status needs_review = StepStatus.needs_review
step_status approved = StepStatus.approved
step_status rejected = StepStatus.rejected

-- `status in {"approved", "rejected"}`.
unfoldable pub is_ruling : StepOutcome → Bool
is_ruling approved = true
is_ruling rejected = true
is_ruling completed = false
is_ruling failed = false
is_ruling needs_review = false

unfoldable pub is_approved : StepOutcome → Bool
is_approved approved = true
is_approved rejected = false
is_approved completed = false
is_approved failed = false
is_approved needs_review = false

-- The first step with an id, with the steps before it and those behind it.
pub record Position : Type 0 where
  pub prior : List Step
  pub state : Step
  pub later : List Step

unfoldable pub behind : Step → Position → Position
behind s p = record p { prior = s ∷ p.prior }

-- `next((i for i, step in enumerate(states) if step.get("id") == step_id), None)`.
unfoldable pub locate : String → List Step → Option Position
unfolding behind
locate step_id [] = none
locate step_id (s ∷ ss) =
    let rest = locate step_id ss in
    if s.id == step_id
    then some (record { prior = []; state = s; later = ss })
    else Option.map (behind s) rest

unfoldable pub actors : List Step → List String
actors [] = []
actors (s ∷ ss) = s.actor ∷ actors ss

-- `status in {"approved", "rejected", "needs_review"}`.
unfoldable pub is_approval_status : StepOutcome → Bool
is_approval_status approved = true
is_approval_status rejected = true
is_approval_status needs_review = true
is_approval_status completed = false
is_approval_status failed = false

-- The two guards on the step's kind.
unfoldable pub check_kind : StepKind → StepOutcome → Result TaskError (Unit {0})
unfolding is_approval is_ruling is_approval_status
check_kind kind outcome = do
  raise_if (is_approval kind && not (is_approval_status outcome)) approval_status_required
  raise_if (not (is_approval kind) && is_ruling outcome) not_an_approval_step

-- `configured if configured else task.get("owners", [])`.
unfoldable pub configured_approvers : List String → List String → List String
configured_approvers [] owners = owners
configured_approvers (a ∷ rest) owners = a ∷ rest

-- The two guards on who rules on an approval step.
unfoldable pub check_approver : Task → Position → StepOutcome → String → Result TaskError (Unit {0})
unfolding is_approval is_approved is_ruling configured_approvers actors
check_approver t p outcome actor =
    let allowed = stripped_texts (configured_approvers p.state.approvers t.owners) in
    let approval = is_approval p.state.kind in
    do
      raise_if
          (approval
            && is_approved outcome
            && contains (strip actor) (stripped_texts (actors p.prior)))
          approver_not_independent
      raise_if (approval && is_ruling outcome && not (non_empty allowed)) no_authorized_approver
      raise_if (approval && is_ruling outcome && not (contains (strip actor) allowed))
          approver_not_authorized

unfoldable pub is_insufficient : Verdict → Bool
is_insufficient insufficient_evidence = true
is_insufficient update_required = false
is_insufficient no_change = false

-- A decision to review, by another actor.
unfoldable pub check_reviewer : Option RefreshDecision → String → Result TaskError (Unit {0})
check_reviewer none actor = err refresh_decision_required
check_reviewer (some d) actor = do
  raise_if (is_insufficient d.verdict) refresh_decision_required
  raise_if (actor == d.actor) reviewer_not_independent

-- The guards of the steps of a Refresh Task.
unfoldable pub check_refresh : Task → String → String → Result TaskError (Unit {0})
unfolding is_refresh check_reviewer is_insufficient
check_refresh t step_id actor =
    if is_refresh t.task_type
    then (do
      if step_id == "independent-agent-review"
          then check_reviewer t.refresh_decision actor
          else ok tt
      raise_if (step_id == "owner-approval" && non_empty t.owners && not (contains actor t.owners))
          approver_not_owner
      raise_if (step_id == "publish-revision" && not (is_some t.published_revision))
          revision_not_confirmed)
    else ok tt

-- The task's status behind a recorded step.
unfoldable pub status_after : StepOutcome → Bool → TaskStatus
status_after failed complete = TaskStatus.failed
status_after needs_review complete = TaskStatus.needs_review
status_after rejected complete = TaskStatus.needs_review
status_after completed complete =
    if complete then TaskStatus.awaiting_outcome else TaskStatus.in_progress
status_after approved complete =
    if complete then TaskStatus.awaiting_outcome else TaskStatus.in_progress

unfoldable pub recorded : Step → StepOutcome → String → String → String → Step
unfolding step_status
recorded s outcome result actor now = record s {
  status = step_status outcome;
  result = result;
  actor = actor;
  updated_at = some now;
}

-- The guards from the task that was read up to the write.
unfoldable pub check_step : Task → Position → StepOutcome → String → Result TaskError (Unit {0})
unfolding check_kind check_approver check_refresh
check_step t p outcome actor = do
  check_kind p.state.kind outcome
  raise_if (not (all_done p.prior)) steps_out_of_order
  check_approver t p outcome actor
  check_refresh t p.state.id actor

unfoldable pub check_open : Task → String → Result TaskError (Unit {0})
unfolding is_closed is_refresh
check_open t step_id = do
  raise_if (is_closed t) steps_closed
  raise_if (non_empty t.missing_inputs) inputs_missing
  raise_if (is_refresh t.task_type && step_id == "prepare-refresh-proposal") proposal_step_reserved

unfoldable pub record_at : Task → Position → StepOutcome → String → String → String → Task
unfolding recorded status_after all_done
record_at t p outcome result actor now =
    let states = p.prior ++ recorded p.state outcome result actor now ∷ p.later in
    record t { step_states = states; status = status_after outcome (all_done states) }

unfoldable pub advance :
    String → StepOutcome → String → String → String → Task → Result TaskError Task
unfolding check_open check_step record_at locate
advance step_id outcome result actor now t = do
  check_open t step_id
  p ← or_raise (locate step_id t.step_states) step_not_found
  check_step t p outcome actor
  ok (record_at t p outcome result actor now)

unfoldable pub record_step :
    TaskStore
    → String
    → String
    → String
    → String
    → String
    → String
    → Result TaskError (TaskStore × Task)
unfolding parse_outcome advance modify
record_step store task_id step_id status result actor now = do
  outcome ← or_raise (parse_outcome status) invalid_step_status
  raise_if (is_blank result || is_blank actor) blank_step_field
  modify store task_id now (advance step_id outcome result actor now)
