-- ===== src/Tasks/Soundness/Reachable.antt =====
-- Every task in a store that the operations of workflow.py can reach is sound.
use circled_wiki.Base.{
  ℕ, String, ◌≡◌, Bool, not, ◌||◌, List, [], contains, distinct, non_empty, is_blank, all, Value,
  Result, ok, >>=-eq-ok, >>-eq-ok, subst-ok, raise_if->>-eq-ok, or_raise->>=-eq-ok, inl, inr,
  Bool-cases, Option-cases,
}
use circled_wiki.Tasks.Model.{
  Workflow, Task, is_closed, TaskError, blank_request, invalid_refresh_reason, invalid_step_status,
  blank_step_field, invalid_decision, blank_decision_field, evidence_ids_required,
  invalid_outcome_status, blank_summary,
}
use circled_wiki.Tasks.Store.{TaskStore, read_task, write_task, update_task}
use circled_wiki.Tasks.Steps.{parse_outcome, advance, record_step}
use circled_wiki.Tasks.Creation.{create, supply, add_inputs}
use circled_wiki.Tasks.EvidenceId.{is_evidence_id}
use circled_wiki.Tasks.Refresh.{
  RefreshRequest, note_of, refresh_reasons, find_open_refresh, merge_request, reuse, refresh_task,
  create_refresh,
}
use circled_wiki.Tasks.Assessments.{
  parse_verdict, decide, record_refresh_decision, AssessmentRequest, check_assessment, assess,
  record_reference_assessment, confirm, confirm_revision,
}
use circled_wiki.Tasks.OutcomeLists.{Artifact, OutcomeLists, Lookups, check_lists, artifacts_of}
use circled_wiki.Tasks.Outcome.{
  Outcome, parse_terminal, OutcomeReport, check_outcome, close, capture_outcome, record_outcome,
}
use circled_wiki.Tasks.Soundness.{IsSound, advance-IsSound}
use circled_wiki.Tasks.Soundness.Stores.{
  IsSoundStore, read_task-IsSound, write_task-IsSoundStore, modify-IsSoundStore,
  find_open_refresh-IsSound,
}
use circled_wiki.Tasks.Soundness.Others.{
  supply-IsSound, decide-IsSound, assess-IsSound, confirm-IsSound, close-IsSound, stamp-IsSound,
  merge_request-IsSound, new_task-IsSound, refresh_task-IsSound,
}

-- One call of an operation that changed the files.
pub data StoreStep (s s' : TaskStore) : Type 0 where
  created :
      (w : Workflow) (request : String) (inputs : List (String × Value)) (fresh now : String)
      (t : Task)
      → create s w request inputs fresh now ≡ ok (s', t)
      → StoreStep s s'
  refreshed :
      (w : Workflow) (r : RefreshRequest) (fresh now : String) (t : Task) (reused : Bool)
      → create_refresh s w r fresh now ≡ ok (s', t, reused)
      → StoreStep s s'
  supplied :
      (task_id : String) (inputs : List (String × Value)) (now : String) (t : Task)
      → add_inputs s task_id inputs now ≡ ok (s', t)
      → StoreStep s s'
  stepped :
      (task_id step_id status result actor now : String) (t : Task)
      → record_step s task_id step_id status result actor now ≡ ok (s', t)
      → StoreStep s s'
  decided :
      (task_id decision rationale : String) (ids : List String) (actor now : String) (t : Task)
      → record_refresh_decision s task_id decision rationale ids actor now ≡ ok (s', t)
      → StoreStep s s'
  assessed :
      (task_id : String) (r : AssessmentRequest) (now : String) (t : Task)
      → record_reference_assessment s task_id r now ≡ ok (s', t)
      → StoreStep s s'
  confirmed :
      (task_id bundle_id : String) (revision : ℕ) (revision_ref now : String) (t : Task)
      → confirm_revision s task_id bundle_id revision revision_ref now ≡ ok (s', t)
      → StoreStep s s'
  ended :
      (look : Lookups) (task_id status summary : String) (lists : OutcomeLists)
      (captured : Result TaskError String) (now : String) (r : OutcomeReport)
      → record_outcome s look task_id status summary lists captured now ≡ ok (s', r)
      → StoreStep s s'

pub data Reachable : TaskStore → Type 0 where
  initial : Reachable []
  next : {s s' : TaskStore} → Reachable s → StoreStep s s' → Reachable s'

create-IsSoundStore :
    (s s' : TaskStore) (w : Workflow) (request : String) (inputs : List (String × Value))
    (fresh now : String) (t : Task)
    → IsSoundStore s
    → create s w request inputs fresh now ≡ ok (s', t)
    → IsSoundStore s'
unfolding create
create-IsSoundStore s s' w request inputs fresh now t h e =
    let (_, e1) = raise_if->>-eq-ok (is_blank request) blank_request _ e in
    write_task-IsSoundStore s s' _ t h (new_task-IsSound w request inputs fresh now) e1

reuse-IsSoundStore :
    (s s' : TaskStore) (old : Task) (r : RefreshRequest) (ids : List String) (now : String)
    (t : Task) (reused : Bool)
    → IsSoundStore s
    → IsSound old
    → reuse s old r ids now ≡ ok (s', t, reused)
    → IsSoundStore s'
unfolding reuse
reuse-IsSoundStore s s' old r ids now t reused h k e = elim (Bool-cases (non_empty ids)) [
  | inl some_ids ↦
      let merged = merge_request old ids r.reason r.requested_by (note_of r) now in
      let (w, written, made) = >>=-eq-ok (write_task s merged) _ (rw some_ids at e) in
      let sound = merge_request-IsSound old ids r.reason r.requested_by (note_of r) now k in
      subst-ok (λ (x : TaskStore × Task × Bool). IsSoundStore x.0) made
        (write_task-IsSoundStore s w.0 merged w.1 h sound written)
  | inr no_ids ↦ subst-ok (λ (x : TaskStore × Task × Bool). IsSoundStore x.0) (rw no_ids at e) h
]

create_refresh-IsSoundStore :
    (s s' : TaskStore) (w : Workflow) (r : RefreshRequest) (fresh now : String) (t : Task)
    (reused : Bool)
    → IsSoundStore s
    → create_refresh s w r fresh now ≡ ok (s', t, reused)
    → IsSoundStore s'
unfolding create_refresh
create_refresh-IsSoundStore s s' w r fresh now t reused h e =
    let (_, e1) =
      raise_if->>-eq-ok (not (contains r.reason refresh_reasons)) invalid_refresh_reason _ e in
    let (_, e2) =
      raise_if->>-eq-ok (is_blank r.request || is_blank r.requested_by) blank_request _ e1 in
    let ids = distinct r.candidate_evidence_ids in
    elim (Option-cases (find_open_refresh s w.workflow_id)) [
      | inl absent ↦
          let made = refresh_task w r ids fresh now in
          let (x, written, done) = >>=-eq-ok (write_task s made) _ (rw absent at e2) in
          subst-ok (λ (y : TaskStore × Task × Bool). IsSoundStore y.0) done
            (write_task-IsSoundStore s x.0 made x.1 h (refresh_task-IsSound w r ids fresh now)
              written)
      | inr (old, present) ↦
          reuse-IsSoundStore s s' old r ids now t reused h
            (find_open_refresh-IsSound s w.workflow_id old h present) (rw present at e2)
    ]

capture_outcome-IsSoundStore :
    (s s' : TaskStore) (t : Task) (o : Outcome) (artifacts : List Artifact)
    (captured : Result TaskError String) (now : String) (r : OutcomeReport)
    → IsSoundStore s
    → IsSound t
    → capture_outcome s t o artifacts captured now ≡ ok (s', r)
    → IsSoundStore s'
unfolding capture_outcome
capture_outcome-IsSoundStore s s' t o artifacts captured now r h k e =
    let (_, e1) = >>-eq-ok (check_outcome t o artifacts) _ e in
    let (intake_id, _, e2) = >>=-eq-ok captured _ e1 in
    let closed = close t o intake_id in
    let (x, written, made) = >>=-eq-ok (update_task s closed now) _ e2 in
    let sound = stamp-IsSound closed now (close-IsSound t o intake_id k) in
    subst-ok (λ (y : TaskStore × OutcomeReport). IsSoundStore y.0) made
      (write_task-IsSoundStore s x.0 (record closed { updated_at = now }) x.1 h sound written)

record_outcome-IsSoundStore :
    (s s' : TaskStore) (look : Lookups) (task_id status summary : String) (lists : OutcomeLists)
    (captured : Result TaskError String) (now : String) (r : OutcomeReport)
    → IsSoundStore s
    → record_outcome s look task_id status summary lists captured now ≡ ok (s', r)
    → IsSoundStore s'
unfolding record_outcome
record_outcome-IsSoundStore s s' look task_id status summary lists captured now r h e =
    let (o, _, e1) = or_raise->>=-eq-ok (parse_terminal status) invalid_outcome_status _ e in
    let (_, e2) = raise_if->>-eq-ok (is_blank summary) blank_summary _ e1 in
    let (_, e2') = >>-eq-ok (check_lists look lists) _ e2 in
    let (t, was, e3) = >>=-eq-ok (read_task s task_id) _ e2' in
    let sound = read_task-IsSound s task_id t h was in
    elim (Bool-cases (is_closed t)) [
      | inl closed ↦
          subst-ok (λ (x : TaskStore × OutcomeReport). IsSoundStore x.0) (rw closed at e3) h
      | inr still_open ↦
          capture_outcome-IsSoundStore s s' t o (artifacts_of lists.artifacts) captured now r h
            sound (rw still_open at e3)
    ]

StoreStep-IsSoundStore : {s s' : TaskStore} → StoreStep s s' → IsSoundStore s → IsSoundStore s'
unfolding add_inputs record_step record_refresh_decision record_reference_assessment
    confirm_revision
StoreStep-IsSoundStore {s} {s'} (created w request inputs fresh now t e) h =
    create-IsSoundStore s s' w request inputs fresh now t h e
StoreStep-IsSoundStore {s} {s'} (refreshed w r fresh now t reused e) h =
    create_refresh-IsSoundStore s s' w r fresh now t reused h e
StoreStep-IsSoundStore {s} {s'} (supplied task_id inputs now t e) h =
    modify-IsSoundStore s s' task_id now (supply inputs) t (supply-IsSound inputs) h e
StoreStep-IsSoundStore {s} {s'} (stepped task_id step_id status result actor now t e) h =
    let (o, _, e1) = or_raise->>=-eq-ok (parse_outcome status) invalid_step_status _ e in
    let (_, e2) = raise_if->>-eq-ok (is_blank result || is_blank actor) blank_step_field _ e1 in
    modify-IsSoundStore s s' task_id now (advance step_id o result actor now) t
      (advance-IsSound step_id o result actor now) h e2
StoreStep-IsSoundStore {s} {s'} (decided task_id decision rationale ids actor now t e) h =
    let (v, _, e1) = or_raise->>=-eq-ok (parse_verdict decision) invalid_decision _ e in
    let (_, e2) =
      raise_if->>-eq-ok (is_blank rationale || is_blank actor) blank_decision_field _ e1 in
    let (_, e3) =
      raise_if->>-eq-ok (not (non_empty ids) || not (all is_evidence_id ids)) evidence_ids_required
        _ e2 in
    modify-IsSoundStore s s' task_id now (decide v rationale ids actor now) t
      (decide-IsSound v rationale ids actor now) h e3
StoreStep-IsSoundStore {s} {s'} (assessed task_id r now t e) h =
    let (d, _, e1) = >>=-eq-ok (check_assessment r) _ e in
    modify-IsSoundStore s s' task_id now (assess r d now) t (assess-IsSound r d now) h e1
StoreStep-IsSoundStore {s} {s'} (confirmed task_id bundle_id revision revision_ref now t e) h =
    modify-IsSoundStore s s' task_id now (confirm bundle_id revision revision_ref now) t
      (confirm-IsSound bundle_id revision revision_ref now) h e
StoreStep-IsSoundStore {s} {s'} (ended look task_id status summary lists captured now r e) h =
    record_outcome-IsSoundStore s s' look task_id status summary lists captured now r h e

-- Whatever the operations did, every task on file is sound.
pub Reachable-IsSoundStore : {s : TaskStore} → Reachable s → IsSoundStore s
Reachable-IsSoundStore initial = tt
Reachable-IsSoundStore (next r st) = StoreStep-IsSoundStore st (Reachable-IsSoundStore r)
