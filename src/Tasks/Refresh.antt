-- ===== src/Tasks/Refresh.antt =====
-- `TaskStore.find_open_refresh` and `create_refresh` of workflow.py.
use Prim.Native.String.{◌++◌ as text_append}
use circled_wiki.Base.{
  String, ◌==◌, Bool, true, false, not, ◌&&◌, ◌||◌, Option, none, some, List, [], ◌∷◌, ◌++◌,
  if◌then◌else◌, is_blank, is_empty, contains, distinct, non_empty, Value, str, array, texts,
  array_of, parsed, unreadable, Result, ok, ◌>>=◌, ◌>>◌, raise_if,
}
use circled_wiki.Tasks.Model.{
  runbook_refresh, is_refresh, TaskStatus, Submission, Workflow, Task, is_closed, TaskError,
  blank_request, invalid_refresh_reason,
}
use circled_wiki.Tasks.Store.{TaskStore, write_task}
use circled_wiki.Tasks.Creation.{refresh_steps, pending_steps, input, put_input}

abbrev pub refresh_reasons : List String
refresh_reasons =
    "expired" ∷ "user_requested" ∷ "user_reference" ∷ "owner_requested" ∷ "source_change"
    ∷ "outcome_signal" ∷ "security_or_compliance" ∷ []

-- `status in {"completed", "failed", "needs_review"}`.
unfoldable pub is_terminal : TaskStatus → Bool
is_terminal TaskStatus.completed = true
is_terminal TaskStatus.failed = true
is_terminal TaskStatus.needs_review = true
is_terminal TaskStatus.ready = false
is_terminal TaskStatus.in_progress = false
is_terminal TaskStatus.awaiting_outcome = false

unfoldable pub targets : Option String → String → Bool
targets none workflow_id = false
targets (some w) workflow_id = w == workflow_id

unfoldable pub is_open_refresh : String → Task → Bool
unfolding is_refresh is_terminal targets is_closed
is_open_refresh workflow_id t =
    is_refresh t.task_type
    && targets t.target_workflow_id workflow_id
    && not (is_terminal t.status)
    && not (is_closed t)

-- The first open Refresh Task of a workflow; a file that does not parse is passed over.
unfoldable pub find_open_refresh : TaskStore → String → Option Task
unfolding is_open_refresh
find_open_refresh [] workflow_id = none
find_open_refresh ((k, unreadable) ∷ files) workflow_id = find_open_refresh files workflow_id
find_open_refresh ((k, parsed t) ∷ files) workflow_id =
    let rest = find_open_refresh files workflow_id in
    if is_open_refresh workflow_id t then some t else rest

-- One submission for each evidence id.
unfoldable pub submissions : List String → String → String → String → List Submission
submissions [] requested_by note now = []
submissions (e ∷ es) requested_by note now =
    record { evidence_id = e; submitted_by = requested_by; note = note; submitted_at = now }
    ∷ submissions es requested_by note now

unfoldable pub is_submitted : String → String → List Submission → Bool
is_submitted e requested_by [] = false
is_submitted e requested_by (s ∷ ss) =
    s.evidence_id == e && s.submitted_by == requested_by || is_submitted e requested_by ss

-- The loop that adds what this requester has not submitted yet.
unfoldable pub add_submissions :
    List String → String → String → String → List Submission → List Submission
unfolding is_submitted
add_submissions [] requested_by note now seen = seen
add_submissions (e ∷ es) requested_by note now seen = add_submissions es requested_by note now (
    if is_submitted e requested_by seen
    then seen
    else seen
      ++ record { evidence_id = e; submitted_by = requested_by; note = note; submitted_at = now }
        ∷ [])

-- `inputs.get("refresh_reasons", [inputs.get("refresh_reason")])`, its texts alone.
unfoldable pub known_reasons : Option Value → Option Value → List String
unfolding texts
known_reasons none (some (str s)) = s ∷ []
known_reasons none other = []
known_reasons (some (array vs)) reason = texts vs
known_reasons (some other) reason = []

unfoldable pub non_empty_texts : List String → List String
unfolding is_empty
non_empty_texts [] = []
non_empty_texts (s ∷ ss) = let rest = non_empty_texts ss in if is_empty s then rest else s ∷ rest

unfoldable pub merged_reasons : List (String × Value) → String → List (String × Value)
unfolding input put_input known_reasons non_empty_texts distinct array_of
merged_reasons inputs reason =
    put_input "refresh_reasons"
      (array (
        array_of (
          distinct (
            non_empty_texts (
              known_reasons (input "refresh_reasons" inputs) (input "refresh_reason" inputs)
              ++ reason ∷ [])))))
      inputs

-- What a second request adds to the task that is open.
unfoldable pub merge_request : Task → List String → String → String → String → String → Task
unfolding distinct add_submissions merged_reasons
merge_request t candidates reason requested_by note now = record t {
  candidate_evidence_ids = distinct (t.candidate_evidence_ids ++ candidates);
  reference_submissions = add_submissions candidates requested_by note now t.reference_submissions;
  inputs = merged_reasons t.inputs reason;
  updated_at = now;
}

-- What a caller hands to `create_refresh`.
pub record RefreshRequest : Type 0 where
  pub request : String
  pub reason : String
  pub requested_by : String
  pub deferred_inputs : List (String × Value)
  pub candidate_evidence_ids : List String
  pub reference_note : String

-- `reference_note or request`.
unfoldable pub note_of : RefreshRequest → String
unfolding is_empty
note_of r = if is_empty r.reference_note then r.request else r.reference_note

unfoldable pub refresh_task : Workflow → RefreshRequest → List String → String → String → Task
unfolding pending_steps submissions note_of
refresh_task w r candidates fresh now = record {
  task_id = fresh;
  task_type = runbook_refresh;
  workflow_id = text_append "runbook-refresh-" w.workflow_id;
  target_workflow_id = some w.workflow_id;
  workflow = w;
  request = r.request;
  inputs = ("refresh_reason", str r.reason) ∷ ("requested_by", str r.requested_by) ∷ [];
  deferred_inputs = if r.reason == "expired" then some r.deferred_inputs else none;
  required_inputs = [];
  missing_inputs = [];
  step_states = pending_steps refresh_steps;
  owners = w.owners;
  candidate_evidence_ids = candidates;
  reference_submissions = submissions candidates r.requested_by (note_of r) now;
  reference_assessments = [];
  refresh_decision = none;
  published_revision = none;
  status = TaskStatus.ready;
  created_at = now;
  updated_at = now;
  outcome_evidence_id = none;
  outcome_intake_id = none;
}

-- The reused task is written only if the request brings candidates. The result is the store, the
-- task and the flag `reused`.
unfoldable pub reuse :
    TaskStore
    → Task
    → RefreshRequest
    → List String
    → String
    → Result TaskError (TaskStore × Task × Bool)
unfolding merge_request note_of write_task
reuse store t r candidates now =
    if non_empty candidates
    then (do
      (store', t') ←
          write_task store (merge_request t candidates r.reason r.requested_by (note_of r) now)
      ok (store', t', true))
    else ok (store, t, true)

unfoldable pub create_refresh :
    TaskStore
    → Workflow
    → RefreshRequest
    → String
    → String
    → Result TaskError (TaskStore × Task × Bool)
unfolding find_open_refresh reuse refresh_task distinct write_task
create_refresh store w r fresh now = do
  raise_if (not (contains r.reason refresh_reasons)) invalid_refresh_reason
  raise_if (is_blank r.request || is_blank r.requested_by) blank_request
  let candidates = distinct r.candidate_evidence_ids
  elim (find_open_refresh store w.workflow_id) [
    | some t ↦ reuse store t r candidates now
    | none ↦ write_task store (refresh_task w r candidates fresh now) >>= λ written.
        ok (written.0, written.1, false)
  ]
