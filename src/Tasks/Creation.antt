-- ===== src/Tasks/Creation.antt =====
-- `TaskStore.create` and `add_inputs` of workflow.py. The fresh task id is an argument.
use circled_wiki.Base.{
  String, ◌==◌, Bool, true, false, Option, none, some, List, [], ◌∷◌, if◌then◌else◌, is_blank,
  non_empty, Value, is_absent, Result, ok, err, ◌>>=◌, ◌>>◌, raise_if,
}
use circled_wiki.Tasks.Model.{
  action, decision, approval, validation, is_approval, StepStatus, StepSpec, Step,
  workflow_execution, TaskStatus, InputSpec, named, unnamed, Workflow, Task, is_closed, TaskError,
  blank_request, inputs_closed, inputs_terminal, input_without_name,
}
use circled_wiki.Tasks.Store.{TaskStore, write_task, modify}

-- `REFRESH_STEPS`.
abbrev pub refresh_steps : List StepSpec
refresh_steps =
    record {
      id = "collect-current-evidence";
      title = "최신 Evidence 수집";
      kind = action;
      approvers = [];
    }
    ∷ record {
      id = "validate-current-evidence";
      title = "Evidence 최신성·접근성·출처 검증";
      kind = validation;
      approvers = [];
    }
    ∷ record {
      id = "compare-runbook";
      title = "기존 Runbook 변경점 비교";
      kind = validation;
      approvers = [];
    }
    ∷ record {
      id = "prepare-refresh-proposal";
      title = "변경·무변경·근거부족 판정";
      kind = decision;
      approvers = [];
    }
    ∷ record {
      id = "independent-agent-review";
      title = "다른 Agent의 독립 검증";
      kind = validation;
      approvers = [];
    }
    ∷ record {
      id = "validate-proposal";
      title = "OKF·Profile·보안 검증";
      kind = validation;
      approvers = [];
    }
    ∷ record { id = "owner-approval"; title = "Runbook Owner 승인"; kind = approval; approvers = [] }
    ∷ record { id = "publish-revision"; title = "새 revision 발행"; kind = action; approvers = [] }
    ∷ []

-- `approvers` is copied for approval steps alone.
unfoldable pub pending_step : StepSpec → Step
unfolding is_approval
pending_step s = record {
  id = s.id;
  title = s.title;
  kind = s.kind;
  approvers = if is_approval s.kind then s.approvers else [];
  status = StepStatus.pending;
  result = "";
  actor = "";
  updated_at = none;
}

unfoldable pub pending_steps : List StepSpec → List Step
unfolding pending_step
pending_steps [] = []
pending_steps (s ∷ ss) = pending_step s ∷ pending_steps ss

-- `inputs.get(name)`.
unfoldable pub input : String → List (String × Value) → Option Value
input name [] = none
input name ((k, v) ∷ rest) = let later = input name rest in if k == name then some v else later

-- `inputs[key] = value`, and `inputs.update(other)`.
unfoldable pub put_input : String → Value → List (String × Value) → List (String × Value)
put_input k v [] = (k, v) ∷ []
put_input k v ((j, w) ∷ rest) =
    let later = put_input k v rest in if j == k then (k, v) ∷ rest else (j, w) ∷ later

unfoldable pub update_inputs : List (String × Value) → List (String × Value) → List (String × Value)
unfolding put_input
update_inputs inputs [] = inputs
update_inputs inputs ((k, v) ∷ rest) = update_inputs (put_input k v inputs) rest

-- The names of `create`: an entry with no name is passed over.
unfoldable pub missing_names : List (String × Value) → List InputSpec → List String
unfolding input is_absent
missing_names inputs [] = []
missing_names inputs (unnamed ∷ specs) = missing_names inputs specs
missing_names inputs (named n ∷ specs) =
    let rest = missing_names inputs specs in if is_absent (input n inputs) then n ∷ rest else rest

-- The names of `add_inputs`, whose `item["name"]` raises on such an entry.
unfoldable pub still_missing :
    List (String × Value) → List InputSpec → Result TaskError (List String)
unfolding input is_absent
still_missing inputs [] = ok []
still_missing inputs (unnamed ∷ specs) = err input_without_name
still_missing inputs (named n ∷ specs) = still_missing inputs specs >>= λ rest.
    ok (if is_absent (input n inputs) then n ∷ rest else rest)

-- The task that `create` writes.
unfoldable pub new_task : Workflow → String → List (String × Value) → String → String → Task
unfolding pending_steps missing_names
new_task w request inputs fresh now =
    let missing = missing_names inputs w.required_inputs in
    record {
      task_id = fresh;
      task_type = workflow_execution;
      workflow_id = w.workflow_id;
      target_workflow_id = none;
      workflow = w;
      request = request;
      inputs = inputs;
      deferred_inputs = none;
      required_inputs = w.required_inputs;
      missing_inputs = missing;
      step_states = pending_steps w.steps;
      owners = w.owners;
      candidate_evidence_ids = [];
      reference_submissions = [];
      reference_assessments = [];
      refresh_decision = none;
      published_revision = none;
      status = if non_empty missing then TaskStatus.needs_review else TaskStatus.ready;
      created_at = now;
      updated_at = now;
      outcome_evidence_id = none;
      outcome_intake_id = none;
    }

unfoldable pub create :
    TaskStore
    → Workflow
    → String
    → List (String × Value)
    → String
    → String
    → Result TaskError (TaskStore × Task)
unfolding new_task write_task
create store w request inputs fresh now = do
  raise_if (is_blank request) blank_request
  write_task store (new_task w request inputs fresh now)

-- `task.get("status") == "needs_review"`.
unfoldable pub is_needs_review : TaskStatus → Bool
is_needs_review TaskStatus.needs_review = true
is_needs_review TaskStatus.ready = false
is_needs_review TaskStatus.in_progress = false
is_needs_review TaskStatus.awaiting_outcome = false
is_needs_review TaskStatus.completed = false
is_needs_review TaskStatus.failed = false

-- `add_inputs`, between the read and the write.
unfoldable pub supply : List (String × Value) → Task → Result TaskError Task
unfolding is_closed is_needs_review update_inputs still_missing
supply inputs t = do
  raise_if (is_closed t) inputs_closed
  raise_if (is_needs_review t.status) inputs_terminal
  missing ← still_missing (update_inputs t.inputs inputs) t.required_inputs
  ok (record t {
    inputs = update_inputs t.inputs inputs;
    missing_inputs = missing;
    status = if non_empty missing then TaskStatus.needs_review else t.status;
  })

unfoldable pub add_inputs :
    TaskStore → String → List (String × Value) → String → Result TaskError (TaskStore × Task)
unfolding supply modify
add_inputs store task_id inputs now = modify store task_id now (supply inputs)
