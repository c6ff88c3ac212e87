-- ===== src/Tasks/Samples.antt =====
-- Tests of the task operations, and their properties at concrete inputs.
use circled_wiki.Base.{
  at_key, end, field, nil, cons, str, object, array, end, str, field, object, stripped_texts, write,
  read, contains, String, ◌≡◌, ◌≢◌, refl, true, false, none, some, List, [], ◌∷◌, All, Value,
  is_blank, strip, strip, Result, ok, err, canonical_uuid, truthy,
}
use circled_wiki.Tasks.Model.{
  Step, action, approval, StepStatus, TaskStatus, named, Workflow, Task, is_closed, all_done,
  TaskError, inputs_terminal, is_refresh, is_approval,
}
use circled_wiki.Tasks.Store.{TaskStore, read_task}
use circled_wiki.Tasks.Steps.{Position, locate, record_step}
use circled_wiki.Tasks.Creation.{new_task, create, missing_names, add_inputs}
use circled_wiki.Tasks.OutcomeLists.{OutcomeLists, Lookups, check_lists}
use circled_wiki.Tasks.Outcome.{Outcome, OutcomeReport, record_outcome, parse_terminal}
use circled_wiki.Tasks.Positions.{steps_of}
use circled_wiki.Tasks.Soundness.{IsAuthorized}
use circled_wiki.Tasks.Soundness.Reachable.{Reachable, initial, next, created, stepped}
use circled_wiki.Tasks.Completion.{IsCarriedOut, completed_outcome, record_outcome_replays}
use circled_wiki.Tasks.Approvals.{NotAmong, approval_is_independent}
use circled_wiki.Tasks.Redo.{approval_survives_redo, redone_steps}
use circled_wiki.Tasks.Inputs.{missing_inputs_are_final}

abbrev pub key : String
key = "123e4567-e89b-12d3-a456-426614174000"

abbrev pub release : Workflow
release = record {
  bundle_id = "bundle/release";
  workflow_id = "release";
  version = "1";
  knowledge_revision = 1;
  owners = "ann" ∷ [];
  required_inputs = [];
  steps =
      record { id = "draft"; title = "Draft"; kind = action; approvers = [] }
      ∷ record { id = "sign"; title = "Sign"; kind = approval; approvers = [] }
      ∷ [];
  artifact_profile = none;
  links = [];
  stale = false;
}

abbrev pub store_of : Result TaskError (TaskStore × Task) → TaskStore
store_of (ok (s, t)) = s
store_of (err e) = []

abbrev pub task_of : Result TaskError (TaskStore × Task) → Task
task_of (ok (s, t)) = t
task_of (err e) = new_task release "" [] "" ""

abbrev made : Result TaskError (TaskStore × Task)
made = create [] release "Ship it" [] key "t0"

abbrev drafted : Result TaskError (TaskStore × Task)
drafted = record_step (store_of made) key "draft" "completed" "done" "bob" "t1"

abbrev signed : Result TaskError (TaskStore × Task)
signed = record_step (store_of drafted) key "sign" "approved" "fine" "ann" "t2"

signed_awaits : (task_of signed).status ≡ TaskStatus.awaiting_outcome
unfolding create record_step canonical_uuid is_blank read write contains stripped_texts
signed_awaits = refl

made_ok : made ≡ ok (store_of made, task_of made)
unfolding create record_step canonical_uuid is_blank read write contains stripped_texts
made_ok = refl

drafted_ok : drafted ≡ ok (store_of drafted, task_of drafted)
unfolding create record_step canonical_uuid is_blank read write contains stripped_texts
drafted_ok = refl

signed_ok : signed ≡ ok (store_of signed, task_of signed)
unfolding create record_step canonical_uuid is_blank read write contains stripped_texts
signed_ok = refl

signed-Reachable : Reachable (store_of signed)
signed-Reachable =
    next
      (next (next initial (created release "Ship it" [] key "t0" (task_of made) made_ok))
        (stepped key "draft" "completed" "done" "bob" "t1" (task_of drafted) drafted_ok))
      (stepped key "sign" "approved" "fine" "ann" "t2" (task_of signed) signed_ok)

-- An outcome with one item in each list.
abbrev lookups : Lookups
lookups = record { resolves = λ id. true; is_timestamp = λ v. true }

abbrev lists : OutcomeLists
lists = record {
  artifacts = object (field "name" (str "notes") (field "availability" (str "missing") end)) ∷ [];
  decisions =
      object (
        field "decision" (str "Ship") (
          field "decided_by" (str "ann") (
            field "rationale" (str "Ready")
              (field "evidence_ids" (array (cons (str "evidence/1") nil)) end))))
      ∷ [];
  action_items =
      object (
        field "title" (str "Tell")
          (field "owner" (str "bob") (field "completion_criteria" (str "Told") end)))
      ∷ [];
  open_questions = object (field "question" (str "When?") (field "owner" (str "ann") end)) ∷ [];
}

abbrev shipped : Result TaskError (TaskStore × OutcomeReport)
shipped =
    record_outcome (store_of signed) lookups key "completed" "Shipped" lists (ok "inbox/1") "t3"

abbrev report_of : Result TaskError (TaskStore × OutcomeReport) → OutcomeReport
report_of (ok (s, r)) = r
report_of (err e) = record {
  status = TaskStatus.ready;
  evidence_id = none;
  intake_id = none;
  idempotent = true;
}

abbrev outcome_store : Result TaskError (TaskStore × OutcomeReport) → TaskStore
outcome_store (ok (s, r)) = s
outcome_store (err e) = []

shipped_ok : shipped ≡ ok (outcome_store shipped, report_of shipped)
unfolding record_outcome create record_step canonical_uuid is_blank read write contains
    stripped_texts truthy at_key
shipped_ok = refl

shipped_first : (report_of shipped).idempotent ≡ false
unfolding record_outcome create record_step canonical_uuid is_blank read write contains
    stripped_texts truthy at_key
shipped_first = refl

completed_outcome_example :
    (t : Task) × (read_task (store_of signed) key ≡ ok t)
    × All (IsCarriedOut t.owners) t.step_states
completed_outcome_example =
    completed_outcome (store_of signed) (outcome_store shipped) lookups key "Shipped" lists
      (ok "inbox/1") "t3" (report_of shipped) signed-Reachable shipped_ok shipped_first

signed_read : read_task (store_of signed) key ≡ ok (task_of signed)
unfolding read_task create record_step canonical_uuid is_blank read write contains stripped_texts
signed_read = refl

signed_open : is_closed (task_of signed) ≡ false
unfolding is_closed create record_step canonical_uuid is_blank read write contains stripped_texts
signed_open = refl

task_id_of_signed : (task_of signed).task_id ≡ key
unfolding create record_step canonical_uuid is_blank read write contains stripped_texts
task_id_of_signed = refl

record_outcome_replays_example :
    (r : OutcomeReport) × (record_outcome
        (outcome_store shipped)
        lookups
        key
        "failed"
        "Again"
        lists
        (ok "inbox/2")
        "t4"
      ≡ ok (outcome_store shipped, r))
    × (r.status ≡ (report_of shipped).status)
    × (r.intake_id ≡ (report_of shipped).intake_id)
    × (r.idempotent ≡ true)
unfolding is_blank parse_terminal truthy check_lists contains at_key
record_outcome_replays_example =
    record_outcome_replays (store_of signed) (outcome_store shipped) lookups lookups key "completed"
      "Shipped" "failed" "Again" lists lists "inbox/1" (ok "inbox/2") "t3" "t4" (report_of shipped)
      (task_of signed) Outcome.completed Outcome.failed signed_read task_id_of_signed signed_open
      refl refl refl refl shipped_ok refl refl refl

approval_is_independent_example :
    (t : Task) × (p : Position) × (read_task (store_of drafted) key ≡ ok t)
    × (steps_of p ≡ t.step_states)
    × (p.state.id ≡ "sign")
    × (p.state.kind ≡ approval)
    × (all_done p.prior ≡ true)
    × IsAuthorized "ann" p.state.approvers t.owners
    × NotAmong (strip "ann") p.prior
approval_is_independent_example =
    approval_is_independent (store_of drafted) (store_of signed) key "sign" "fine" "ann" "t2"
      (task_of signed) signed_ok

-- The two steps of the drafted task.
abbrev draft_step : Step
draft_step = record {
  id = "draft";
  title = "Draft";
  kind = action;
  approvers = [];
  status = StepStatus.completed;
  result = "done";
  actor = "bob";
  updated_at = some "t1";
}

abbrev sign_step : Step
sign_step = record {
  id = "sign";
  title = "Sign";
  kind = approval;
  approvers = [];
  status = StepStatus.pending;
  result = "";
  actor = "";
  updated_at = none;
}

abbrev draft_at : Position
draft_at = record { prior = []; state = draft_step; later = [] }

abbrev sign_at : Position
sign_at = record { prior = draft_step ∷ []; state = sign_step; later = [] }

drafted_read : read_task (store_of drafted) key ≡ ok (task_of drafted)
unfolding read_task create record_step canonical_uuid is_blank read write contains stripped_texts
drafted_read = refl

-- Ann, who approved, now becomes the actor of the step that she approved.
approval_survives_redo_example :
    (s : TaskStore) × (t : Task) × (record_step
        (store_of signed)
        key
        "draft"
        "completed"
        "rewritten"
        "ann"
        "t3"
      ≡ ok (s, t))
    × (read_task s key ≡ ok t)
    × (t.step_states ≡ redone_steps draft_at "rewritten" "ann" "t3" sign_at "fine" "ann" "t2")
    × (t.status ≡ (task_of signed).status)
unfolding is_refresh is_approval locate create record_step canonical_uuid is_blank read write
    contains stripped_texts
approval_survives_redo_example =
    approval_survives_redo (store_of drafted) (store_of signed) "sign" "draft" "fine" "rewritten"
      "ann" "ann" "t2" "t3" (task_of drafted) (task_of signed) sign_at draft_at drafted_read refl
      refl refl refl signed_ok refl refl

-- A workflow with an input that the request does not supply.
abbrev campaign : Workflow
campaign = record release { required_inputs = named "channel" ∷ [] }

abbrev waiting : Result TaskError (TaskStore × Task)
waiting = create [] campaign "Plan it" [] key "t0"

waiting_ok : waiting ≡ ok (store_of waiting, task_of waiting)
unfolding create record_step canonical_uuid is_blank read write contains stripped_texts
waiting_ok = refl

missing_inputs_are_final_example :
    ((more : List (String × Value)) (now : String)
      → add_inputs (store_of waiting) key more now ≡ err inputs_terminal)
    × ((step_id status result actor now : String) (x : TaskStore × Task)
        → record_step (store_of waiting) key step_id status result actor now ≢ ok x)
unfolding missing_names
missing_inputs_are_final_example =
    missing_inputs_are_final [] (store_of waiting) campaign "Plan it" [] key "t0" (task_of waiting)
      waiting_ok refl
