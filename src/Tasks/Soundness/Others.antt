-- ===== src/Tasks/Soundness/Others.antt =====
-- The operations of workflow.py other than `record_step` keep a task sound.
use mathlib.Core.Path.{subst}
use circled_wiki.Base.{
  ℕ, String, ◌==◌, ◌≡◌, refl, sym, true, not, ◌||◌, List, [], ◌∷◌, arith, contains, any, is_blank,
  leb, All, All-split, All-join, Value, eq_iff, ok, >>=-eq-ok, >>-eq-ok, subst-ok,
  raise_if->>-eq-ok, or_raise->>=-eq-ok,
}
use circled_wiki.Tasks.Model.{
  decision, StepSpec, Step, TaskType, workflow_execution, runbook_refresh, Workflow, Task,
  is_refresh, is_closed, all_done, Verdict, Disposition, not_a_refresh, decision_closed,
  collection_incomplete, inputs_closed, inputs_terminal, assessment_closed, not_a_candidate,
  invalid_conflicts, wrong_bundle, revision_not_increased, blank_revision_ref,
}
use circled_wiki.Tasks.Steps.{locate}
use circled_wiki.Tasks.Positions.{locate_lem}
use circled_wiki.Tasks.Creation.{
  pending_steps, update_inputs, still_missing, is_needs_review, refresh_steps, new_task, supply,
}
use circled_wiki.Tasks.Refresh.{RefreshRequest, refresh_task, merge_request}
use circled_wiki.Tasks.Assessments.{
  decided, decide_at, decide, check_candidates, AssessmentRequest, is_finished, assess, confirm,
}
use circled_wiki.Tasks.Outcome.{Outcome, close}
use circled_wiki.Tasks.Soundness.{IsSoundStep, IsSound}

pub supply-IsSound :
    (inputs : List (String × Value)) (t t' : Task)
    → IsSound t
    → supply inputs t ≡ ok t'
    → IsSound t'
unfolding supply
supply-IsSound inputs t t' h e =
    let (_, e1) = raise_if->>-eq-ok (is_closed t) inputs_closed _ e in
    let (_, e2) = raise_if->>-eq-ok (is_needs_review t.status) inputs_terminal _ e1 in
    let (missing, _, made) =
      >>=-eq-ok (still_missing (update_inputs t.inputs inputs) t.required_inputs) _ e2 in
    subst-ok IsSound made (record { steps = h.steps; awaiting = ground (arith, h.awaiting) })

decided-IsSoundStep :
    (t : Task) (s : Step) (verdict : Verdict) (rationale actor now : String)
    → is_refresh t.task_type ≡ true
    → (s.id == "prepare-refresh-proposal") ≡ true
    → IsSoundStep t.task_type t.owners s
    → IsSoundStep t.task_type t.owners (decided s verdict rationale actor now)
unfolding decided
decided-IsSoundStep t s verdict rationale actor now refresh named h = record {
  ruled = ground (arith, h.proposal refresh named);
  authorized = ground arith;
  proposal = h.proposal;
}

pub decide-IsSound :
    (verdict : Verdict) (rationale : String) (evidence_ids : List String) (actor now : String)
    (t t' : Task)
    → IsSound t
    → decide verdict rationale evidence_ids actor now t ≡ ok t'
    → IsSound t'
unfolding decide decide_at
decide-IsSound verdict rationale evidence_ids actor now t t' h e =
    let P = IsSoundStep t.task_type t.owners in
    let (refresh, e1) = raise_if->>-eq-ok (not (is_refresh t.task_type)) not_a_refresh _ e in
    let (_, e2) = raise_if->>-eq-ok (is_closed t) decision_closed _ e1 in
    let (_, e3) = >>-eq-ok (check_candidates t verdict) _ e2 in
    let (p, found, e4) =
      or_raise->>=-eq-ok (locate "prepare-refresh-proposal" t.step_states) collection_incomplete _
        e3 in
    let (_, made) = raise_if->>-eq-ok (not (all_done p.prior)) collection_incomplete _ e4 in
    let (whole, named) = locate_lem "prepare-refresh-proposal" t.step_states p found in
    let (before, at, behind) =
      All-split P p.prior p.state p.later (subst (All P) (sym whole) h.steps) in
    let at' =
      decided-IsSoundStep t p.state verdict rationale actor now (ground arith)
        ((eq_iff p.state.id "prepare-refresh-proposal").1 named) at in
    subst-ok IsSound made (record {
      steps =
          All-join P p.prior (decided p.state verdict rationale actor now) p.later before at'
            behind;
      awaiting = ground arith;
    })

pub assess-IsSound :
    (r : AssessmentRequest) (d : Disposition) (now : String) (t t' : Task)
    → IsSound t
    → assess r d now t ≡ ok t'
    → IsSound t'
unfolding assess
assess-IsSound r d now t t' h e =
    let (_, e1) = raise_if->>-eq-ok (not (is_refresh t.task_type)) not_a_refresh _ e in
    let (_, e2) = raise_if->>-eq-ok (is_closed t || is_finished t.status) assessment_closed _ e1 in
    let (_, e3) =
      raise_if->>-eq-ok (not (contains r.evidence_id t.candidate_evidence_ids)) not_a_candidate _
        e2 in
    let (_, made) = raise_if->>-eq-ok (any is_blank r.conflicts) invalid_conflicts _ e3 in
    subst-ok IsSound made (record { steps = h.steps; awaiting = h.awaiting })

pub confirm-IsSound :
    (bundle_id : String) (revision : ℕ) (revision_ref now : String) (t t' : Task)
    → IsSound t
    → confirm bundle_id revision revision_ref now t ≡ ok t'
    → IsSound t'
unfolding confirm
confirm-IsSound bundle_id revision revision_ref now t t' h e =
    let (_, e1) = raise_if->>-eq-ok (not (is_refresh t.task_type)) not_a_refresh _ e in
    let (_, e2) = raise_if->>-eq-ok (not (t.workflow.bundle_id == bundle_id)) wrong_bundle _ e1 in
    let (_, e3) =
      raise_if->>-eq-ok (leb revision t.workflow.knowledge_revision) revision_not_increased _ e2 in
    let (_, made) = raise_if->>-eq-ok (is_blank revision_ref) blank_revision_ref _ e3 in
    subst-ok IsSound made (record { steps = h.steps; awaiting = h.awaiting })

pub close-IsSound :
    (t : Task) (outcome : Outcome) (intake_id : String)
    → IsSound t
    → IsSound (close t outcome intake_id)
unfolding close
close-IsSound t outcome intake_id h = record { steps = h.steps; awaiting = ground arith }

pub stamp-IsSound : (t : Task) (now : String) → IsSound t → IsSound (record t { updated_at = now })
stamp-IsSound t now h = record { steps = h.steps; awaiting = h.awaiting }

-- In a Refresh Task the proposal is a decision.
abbrev IsProposal : TaskType → StepSpec → Type 0
IsProposal task_type s =
    is_refresh task_type ≡ true → (s.id == "prepare-refresh-proposal") ≡ true → s.kind ≡ decision

pending_steps-IsSound :
    (task_type : TaskType) (owners : List String) (specs : List StepSpec)
    → All (IsProposal task_type) specs
    → All (IsSoundStep task_type owners) (pending_steps specs)
unfolding pending_steps
pending_steps-IsSound task_type owners [] h = tt
pending_steps-IsSound task_type owners (s ∷ specs) h = (
  record { ruled = ground arith; authorized = ground arith; proposal = h.0 },
  pending_steps-IsSound task_type owners specs h.1,
)

execution-IsProposal : (specs : List StepSpec) → All (IsProposal workflow_execution) specs
unfolding is_refresh
execution-IsProposal [] = tt
execution-IsProposal (s ∷ specs) = (λ h _. cc, execution-IsProposal specs)

refresh_steps-IsProposal : All (IsProposal runbook_refresh) refresh_steps
refresh_steps-IsProposal = (
  λ _ h. cc,
  (λ _ h. cc, (λ _ h. cc, (λ _ _. refl, (λ _ h. cc, (λ _ h. cc, (λ _ h. cc, (λ _ h. cc, tt))))))),
)

pub merge_request-IsSound :
    (t : Task) (candidates : List String) (reason requested_by note now : String)
    → IsSound t
    → IsSound (merge_request t candidates reason requested_by note now)
unfolding merge_request
merge_request-IsSound t candidates reason requested_by note now h = record {
  steps = h.steps;
  awaiting = h.awaiting;
}

pub new_task-IsSound :
    (w : Workflow) (request : String) (inputs : List (String × Value)) (fresh now : String)
    → IsSound (new_task w request inputs fresh now)
unfolding new_task
new_task-IsSound w request inputs fresh now = record {
  steps = pending_steps-IsSound workflow_execution w.owners w.steps (execution-IsProposal w.steps);
  awaiting = ground arith;
}

pub refresh_task-IsSound :
    (w : Workflow) (r : RefreshRequest) (candidates : List String) (fresh now : String)
    → IsSound (refresh_task w r candidates fresh now)
unfolding refresh_task
refresh_task-IsSound w r candidates fresh now = record {
  steps = pending_steps-IsSound runbook_refresh w.owners refresh_steps refresh_steps-IsProposal;
  awaiting = ground arith;
}
