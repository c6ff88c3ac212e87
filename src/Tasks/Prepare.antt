-- ===== src/Tasks/Prepare.antt =====
-- The entry points of workflow.py in front of the store: `prepare_task` and
-- `prepare_runbook_refresh`, on the workflow that `get_workflow` found or the error that it raised,
-- `update_task_inputs` and `record_task_step`.
use circled_wiki.Base.{String, Bool, false, List, [], if◌then◌else◌, Value, Result, ok, err, ◌>>=◌}
use circled_wiki.Tasks.Model.{Workflow, Task, TaskError}
use circled_wiki.Tasks.Store.{TaskStore}
use circled_wiki.Tasks.Creation.{create, add_inputs}
use circled_wiki.Tasks.Steps.{record_step}
use circled_wiki.Tasks.Refresh.{RefreshRequest, create_refresh}

-- What `prepare_task` asks of `create_refresh` for a workflow whose validity has ended.
abbrev pub expired_request : String → List (String × Value) → RefreshRequest
expired_request request inputs = record {
  request = request;
  reason = "expired";
  requested_by = "system";
  deferred_inputs = inputs;
  candidate_evidence_ids = [];
  reference_note = "";
}

unfoldable pub new_execution :
    Result TaskError (TaskStore × Task) → Result TaskError (TaskStore × Task × Bool)
new_execution (err e) = err e
new_execution (ok (s, t)) = ok (s, t, false)

-- The store, the task, and whether it was there before.
unfoldable pub prepare_task :
    TaskStore
    → Result TaskError Workflow
    → String
    → List (String × Value)
    → String
    → String
    → Result TaskError (TaskStore × Task × Bool)
unfolding create create_refresh new_execution
prepare_task store found request inputs fresh now = found >>= λ w.
    if w.stale
    then create_refresh store w (expired_request request inputs) fresh now
    else new_execution (create store w request inputs fresh now)

unfoldable pub prepare_runbook_refresh :
    TaskStore
    → Result TaskError Workflow
    → RefreshRequest
    → String
    → String
    → Result TaskError (TaskStore × Task × Bool)
unfolding create_refresh
prepare_runbook_refresh store found r fresh now = do w ← found; create_refresh store w r fresh now

unfoldable pub update_task_inputs :
    TaskStore → String → List (String × Value) → String → Result TaskError (TaskStore × Task)
unfolding add_inputs
update_task_inputs store task_id inputs now = add_inputs store task_id inputs now

unfoldable pub record_task_step :
    TaskStore
    → String
    → String
    → String
    → String
    → String
    → String
    → Result TaskError (TaskStore × Task)
unfolding record_step
record_task_step store task_id step_id status result actor now =
    record_step store task_id step_id status result actor now
