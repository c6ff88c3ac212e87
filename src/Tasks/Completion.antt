-- ===== src/Tasks/Completion.antt =====
-- What a `completed` outcome of a task vouches for, and its replay: `record_outcome` of workflow.py.
use mathlib.Core.Path.{subst}
use circled_wiki.Base.{
  String, ◌≡◌, refl, sym, true, false, not, ◌&&◌, some, List, [], ◌∷◌, inl, inr, Bool-cases, arith,
  All, is_blank, truthy, if◌then◌else◌, Result, ok, >>=-eq-ok, >>-eq-ok, subst-ok,
  raise_if->>-eq-ok,
}
use circled_wiki.Tasks.Model.{
  approval, is_done, StepStatus, Step, TaskType, TaskStatus, Task, is_closed, all_done, TaskError,
  blank_summary, outcome_not_awaited,
}
use circled_wiki.Tasks.Store.{TaskStore, read_task, update_task}
use circled_wiki.Tasks.OutcomeLists.{Artifact, OutcomeLists, Lookups, check_lists, artifacts_of}
use circled_wiki.Tasks.Outcome.{
  Outcome, completed, parse_terminal, OutcomeReport, is_awaiting, is_completed, check_outcome,
  replayed, close, capture_outcome, record_outcome,
}
use circled_wiki.Tasks.Soundness.{IsAuthorized, IsSoundStep}
use circled_wiki.Tasks.Soundness.Stores.{read_task-IsSound, read_task-write_task}
use circled_wiki.Tasks.Soundness.Reachable.{Reachable, Reachable-IsSoundStore}

-- A step that was carried out: it is done, and an approval step by the word of an approver.
pub record IsCarriedOut (owners : List String) (s : Step) : Type 0 where
  pub done : is_done s.status ≡ true
  pub ruled :
      s.kind ≡ approval → (s.status ≡ StepStatus.approved) × IsAuthorized s.actor s.approvers owners

carried_out :
    (task_type : TaskType) (owners : List String) (s : Step)
    → IsSoundStep task_type owners s
    → is_done s.status ≡ true
    → IsCarriedOut owners s
unfolding is_done
carried_out task_type owners s h d = record {
  done = d;
  ruled = ground (arith, h.ruled, h.authorized);
}

All-IsCarriedOut :
    (task_type : TaskType) (owners : List String) (steps : List Step)
    → All (IsSoundStep task_type owners) steps
    → all_done steps ≡ true
    → All (IsCarriedOut owners) steps
unfolding all_done
All-IsCarriedOut task_type owners [] h d = tt
All-IsCarriedOut task_type owners (s ∷ ss) h d = (
  carried_out task_type owners s h.0 (ground (arith, d)),
  All-IsCarriedOut task_type owners ss h.1 (ground (arith, d)),
)

awaited :
    (t : Task) (artifacts : List Artifact)
    → check_outcome t completed artifacts ≡ ok tt
    → t.status ≡ TaskStatus.awaiting_outcome
unfolding check_outcome
awaited t artifacts h =
    let (waiting, _) =
      raise_if->>-eq-ok (is_completed completed && not (is_awaiting t.status)) outcome_not_awaited _
        h in
    ground arith

not_replayed :
    (s s' : TaskStore) (t : Task) (rest : Result TaskError (TaskStore × OutcomeReport))
    (r : OutcomeReport)
    → r.idempotent ≡ false
    → (if is_closed t then ok (s, replayed t) else rest) ≡ ok (s', r)
    → is_closed t ≡ false
unfolding replayed
not_replayed s s' t rest r fresh e = elim (Bool-cases (is_closed t)) [
  | inl closed ↦ absurd (
      cc (
        fresh,
        subst-ok (λ (x : TaskStore × OutcomeReport). x.1.idempotent ≡ true) (rw closed at e) refl,
      ))
  | inr still_open ↦ still_open
]

-- In every store that the operations can reach, an outcome `completed` that is not a replay was
-- recorded for a task of which each step is done and each approval step was approved by one of its
-- configured approvers or, where it has none, by an owner.
pub completed_outcome :
    (s s' : TaskStore) (look : Lookups) (task_id summary : String) (lists : OutcomeLists)
    (captured : Result TaskError String) (now : String) (r : OutcomeReport)
    → Reachable s
    → record_outcome s look task_id "completed" summary lists captured now ≡ ok (s', r)
    → r.idempotent ≡ false
    → (t : Task) × (read_task s task_id ≡ ok t) × All (IsCarriedOut t.owners) t.step_states
unfolding record_outcome
completed_outcome s s' look task_id summary lists captured now r reach e fresh =
    let (_, e1) = raise_if->>-eq-ok (is_blank summary) blank_summary _ e in
    let (_, e1') = >>-eq-ok (check_lists look lists) _ e1 in
    let (t, was, e2) = >>=-eq-ok (read_task s task_id) _ e1' in
    let artifacts = artifacts_of lists.artifacts in
    let sound = read_task-IsSound s task_id t (Reachable-IsSoundStore reach) was in
    let still_open = not_replayed s s' t _ r fresh e2 in
    let (checked, _) = >>-eq-ok (check_outcome t completed artifacts) _ (rw still_open at e2) in
    (
      t,
      was,
      All-IsCarriedOut t.task_type t.owners t.step_states sound.steps
          (sound.awaiting (awaited t artifacts checked)),
    )

-- What the capture wrote, under the id that the task holds.
captured_lem :
    (s s' : TaskStore) (t : Task) (o : Outcome) (artifacts : List Artifact) (intake_id now : String)
    (r : OutcomeReport)
    → capture_outcome s t o artifacts (ok intake_id) now ≡ ok (s', r)
    → let u = record (close t o intake_id) { updated_at = now } in
      (read_task s' t.task_id ≡ ok u) × (r.status ≡ u.status) × (r.intake_id ≡ u.outcome_intake_id)
unfolding capture_outcome
captured_lem s s' t o artifacts intake_id now r e =
    let (_, e1) = >>-eq-ok (check_outcome t o artifacts) _ e in
    let (x, written, made) = >>=-eq-ok (update_task s (close t o intake_id) now) _ e1 in
    let u = record (close t o intake_id) { updated_at = now } in
    subst-ok
      (λ (y : TaskStore × OutcomeReport).
        (read_task y.0 t.task_id ≡ ok u)
        × (y.1.status ≡ u.status)
        × (y.1.intake_id ≡ u.outcome_intake_id))
      made (read_task-write_task s x.0 u x.1 written, refl, refl)

replay_of :
    (s : TaskStore) (look : Lookups) (task_id status summary : String) (lists : OutcomeLists)
    (captured : Result TaskError String) (now : String) (t : Task) (o : Outcome)
    → parse_terminal status ≡ some o
    → is_blank summary ≡ false
    → check_lists look lists ≡ ok tt
    → read_task s task_id ≡ ok t
    → is_closed t ≡ true
    → record_outcome s look task_id status summary lists captured now ≡ ok (s, replayed t)
unfolding record_outcome
replay_of s look task_id status summary lists captured now t o named filled listed was closed =
    simp (named, filled, listed, was, closed)

close_closes :
    (t : Task) (o : Outcome) (intake_id now : String)
    → truthy (some intake_id) ≡ true
    → is_closed (record (close t o intake_id) { updated_at = now }) ≡ true
unfolding is_closed close
close_closes t o intake_id now h = ground arith

-- Once a task holds a recorded outcome, with the non-empty intake id of its capture, a later call
-- with any valid status, a non-blank summary and lists that pass their checks changes no file and
-- repeats the status and the intake id of the first, marked as a replay.
pub record_outcome_replays :
    (s s' : TaskStore) (look look' : Lookups) (task_id status summary status' summary' : String)
    (lists lists' : OutcomeLists) (intake_id : String) (captured' : Result TaskError String)
    (now now' : String) (r : OutcomeReport) (t : Task) (o o' : Outcome)
    → read_task s task_id ≡ ok t
    → t.task_id ≡ task_id
    → is_closed t ≡ false
    → truthy (some intake_id) ≡ true
    → parse_terminal status ≡ some o
    → is_blank summary ≡ false
    → check_lists look lists ≡ ok tt
    → record_outcome s look task_id status summary lists (ok intake_id) now ≡ ok (s', r)
    → parse_terminal status' ≡ some o'
    → is_blank summary' ≡ false
    → check_lists look' lists' ≡ ok tt
    → (r' : OutcomeReport) × (record_outcome s' look' task_id status' summary' lists' captured' now'
        ≡ ok (s', r'))
      × (r'.status ≡ r.status)
      × (r'.intake_id ≡ r.intake_id)
      × (r'.idempotent ≡ true)
unfolding record_outcome
record_outcome_replays s s' look look' task_id status summary status' summary' lists lists'
      intake_id captured' now now' r t o o' was own still_open truthy_id named filled listed e
      named' filled' listed' =
    let u = record (close t o intake_id) { updated_at = now } in
    let artifacts = artifacts_of lists.artifacts in
    let e1 : capture_outcome s t o artifacts (ok intake_id) now ≡ ok (s', r) =
      simp (named, filled, listed, was, still_open) at e in
    let (is_read, same_status, same_intake) = captured_lem s s' t o artifacts intake_id now r e1 in
    (
      replayed u,
      replay_of s' look' task_id status' summary' lists' captured' now' u o' named' filled' listed'
          (subst (λ k. read_task s' k ≡ ok u) own is_read)
          (close_closes t o intake_id now truthy_id),
      unfold replayed in sym same_status,
      unfold replayed in sym same_intake,
      unfold replayed in refl,
    )
