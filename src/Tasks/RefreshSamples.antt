-- ===== src/Tasks/RefreshSamples.antt =====
-- Tests of Refresh Tasks, and their properties at concrete inputs.
use circled_wiki.Base.{
  is_some, stripped_texts, write, distinct, read, contains, String, ◌≡◌, ◌≢◌, refl, Bool, true,
  false, none, some, [], ◌∷◌, is_blank, Result, ok, err, parsed, canonical_uuid,
}
use circled_wiki.Tasks.Model.{
  Workflow, Verdict, StepKind, Step, StepStatus, Task, TaskError, is_refresh, RefreshDecision,
}
use circled_wiki.Tasks.Store.{TaskStore, read_task}
use circled_wiki.Tasks.Steps.{record_step, is_insufficient}
use circled_wiki.Tasks.Creation.{new_task}
use circled_wiki.Tasks.Refresh.{RefreshRequest, find_open_refresh, create_refresh}
use circled_wiki.Tasks.EvidenceId.{sample_evidence}
use circled_wiki.Tasks.Approvals.{review_is_independent}
use circled_wiki.Tasks.Prepare.{prepare_task}
use circled_wiki.Tasks.OpenRefresh.{AgreeBeside}
use circled_wiki.Tasks.Requests.{then_request, stay, create_refresh_reuses}
use circled_wiki.Tasks.Samples.{key, release, store_of, task_of}

abbrev expired : RefreshRequest
expired = record {
  request = "Refresh";
  reason = "expired";
  requested_by = "system";
  deferred_inputs = [];
  candidate_evidence_ids = [];
  reference_note = "";
}

abbrev other_key : String
other_key = "223e4567-e89b-12d3-a456-426614174000"

abbrev asked : TaskStore → String → Result TaskError (TaskStore × Task × Bool)
asked s id = create_refresh s release expired id "t0"

abbrev asked_store : Result TaskError (TaskStore × Task × Bool) → TaskStore
asked_store (ok (s, t, b)) = s
asked_store (err e) = []

abbrev asked_task : Result TaskError (TaskStore × Task × Bool) → Task
asked_task (ok (s, t, b)) = t
asked_task (err e) = new_task release "" [] "" ""

abbrev asked_flag : Result TaskError (TaskStore × Task × Bool) → Bool
asked_flag (ok (s, t, b)) = b
asked_flag (err e) = false

abbrev first : TaskStore
first = asked_store (asked [] key)

asked_once : asked [] key ≡ ok (first, asked_task (asked [] key), false)
unfolding create_refresh is_blank canonical_uuid contains distinct write
asked_once = refl

asked_again :
    asked first other_key
    ≡ ok (
      asked_store (asked first other_key),
      asked_task (asked first other_key),
      asked_flag (asked first other_key),
    )
unfolding create_refresh is_blank canonical_uuid contains distinct write
asked_again = refl

abbrev third_key : String
third_key = "323e4567-e89b-12d3-a456-426614174000"

-- A reference that a user brings.
abbrev referenced : RefreshRequest
referenced = record expired {
  reason = "user_reference";
  candidate_evidence_ids = sample_evidence ∷ [];
}

abbrev brought : Result TaskError (TaskStore × Task × Bool)
brought = create_refresh (asked_store (asked first other_key)) release referenced third_key "t1"

brought_ok : brought ≡ ok (asked_store brought, asked_task brought, asked_flag brought)
unfolding create_refresh is_blank canonical_uuid contains distinct write
brought_ok = refl

create_refresh_reuses_example :
    (asked_flag brought ≡ true)
    × ((asked_task brought).task_id ≡ (asked_task (asked [] key)).task_id)
    × (find_open_refresh (asked_store brought) release.workflow_id ≡ some (asked_task brought))
    × (is_some (read (asked_task (asked [] key)).task_id first) ≡ true)
    × AgreeBeside (asked_task (asked [] key)).task_id first (asked_store brought)
create_refresh_reuses_example =
    create_refresh_reuses [] first (asked_store (asked first other_key)) (asked_store brought)
      release expired referenced key "t0" third_key "t1" (asked_task (asked [] key))
      (asked_task brought) false (asked_flag brought) tt asked_once
      (then_request expired other_key "t0" (asked_task (asked first other_key))
        (asked_flag (asked first other_key)) stay asked_again)
      brought_ok

-- A Refresh Task with a decision of Ann behind its proposal step, ready for the review.
abbrev proposed_step : String → StepKind → StepStatus → Step
proposed_step id kind status = record {
  id = id;
  title = id;
  kind = kind;
  approvers = [];
  status = status;
  result = "";
  actor = "";
  updated_at = none;
}

abbrev proposed : Task
proposed = record (asked_task (asked [] key)) {
  step_states =
      proposed_step "prepare-refresh-proposal" StepKind.decision StepStatus.completed
      ∷ proposed_step "independent-agent-review" StepKind.validation StepStatus.pending
      ∷ [];
  refresh_decision = some (record {
    verdict = Verdict.no_change;
    rationale = "Still right";
    evidence_ids = sample_evidence ∷ [];
    actor = "ann";
    recorded_at = "t1";
    assessment_evidence_ids = [];
  });
}

abbrev proposals : TaskStore
proposals = (key, parsed proposed) ∷ []

abbrev reviewed : Result TaskError (TaskStore × Task)
reviewed = record_step proposals key "independent-agent-review" "completed" "Agreed" "bob" "t2"

reviewed_ok : reviewed ≡ ok (store_of reviewed, task_of reviewed)
unfolding create_refresh record_step canonical_uuid is_blank read write contains stripped_texts
    distinct is_insufficient
reviewed_ok = refl

proposals_read : read_task proposals key ≡ ok proposed
unfolding read_task create_refresh canonical_uuid is_blank read write contains distinct
proposals_read = refl

review_is_independent_example :
    (d : RefreshDecision) × (proposed.refresh_decision ≡ some d)
    × (is_insufficient d.verdict ≡ false)
    × ("bob" ≢ d.actor)
unfolding is_refresh create_refresh canonical_uuid is_blank read write contains distinct
review_is_independent_example =
    review_is_independent proposals (store_of reviewed) key "completed" "Agreed" "bob" "t2" proposed
      (task_of reviewed) reviewed_ok proposals_read refl

-- The workflow when its validity has ended.
abbrev outdated : Workflow
outdated = record release { stale = true }

abbrev prepared : TaskStore → String → Result TaskError (TaskStore × Task × Bool)
prepared s id = prepare_task s (ok outdated) "Ship it" [] id "t0"

abbrev advised : Result TaskError (TaskStore × Task × Bool)
advised = create_refresh (asked_store (prepared [] key)) outdated referenced third_key "t1"
