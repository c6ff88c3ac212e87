-- ===== src/Tasks/Inputs.antt =====
-- A task that was created without a required input: `create`, `add_inputs` and `record_step` of
-- workflow.py.
use circled_wiki.Base.{
  String, ◌≡◌, ◌≢◌, true, false, ◌||◌, List, arith, is_blank, non_empty, Value, ok, err,
  raise_if->>-eq-ok, or_raise->>=-eq-ok,
}
use circled_wiki.Tasks.Model.{
  TaskStatus, Workflow, Task, is_closed, blank_request, inputs_terminal, invalid_step_status,
  blank_step_field, inputs_missing,
}
use circled_wiki.Tasks.Store.{TaskStore, read_task}
use circled_wiki.Tasks.Steps.{StepOutcome, parse_outcome, check_open, advance, record_step}
use circled_wiki.Tasks.Creation.{missing_names, new_task, create, supply, add_inputs}
use circled_wiki.Tasks.Soundness.Stores.{read_task-write_task, modify-err}

supply_terminal :
    (inputs : List (String × Value)) (t : Task)
    → is_closed t ≡ false
    → t.status ≡ TaskStatus.needs_review
    → supply inputs t ≡ err inputs_terminal
unfolding supply
supply_terminal inputs t still_open waiting = ground arith

check_open_missing :
    (t : Task) (step_id : String)
    → is_closed t ≡ false
    → non_empty t.missing_inputs ≡ true
    → check_open t step_id ≡ err inputs_missing
unfolding check_open
check_open_missing t step_id still_open missing = ground arith

advance_missing :
    (t : Task) (step_id : String) (o : StepOutcome) (result actor now : String)
    → is_closed t ≡ false
    → non_empty t.missing_inputs ≡ true
    → advance step_id o result actor now t ≡ err inputs_missing
unfolding advance
advance_missing t step_id o result actor now still_open missing =
    simp (check_open_missing t step_id still_open missing)

-- A new task that lacks an input is open and under review.
new_task_waits :
    (w : Workflow) (request : String) (inputs : List (String × Value)) (fresh now : String)
    → let t = new_task w request inputs fresh now in
      non_empty (missing_names inputs w.required_inputs) ≡ true
      → (is_closed t ≡ false)
        × (t.status ≡ TaskStatus.needs_review)
        × (non_empty t.missing_inputs ≡ true)
unfolding new_task is_closed
new_task_waits w request inputs fresh now missing = ground arith

written :
    (s s' : TaskStore) (w : Workflow) (request : String) (inputs : List (String × Value))
    (fresh now : String) (t : Task)
    → create s w request inputs fresh now ≡ ok (s', t)
    → read_task s' fresh ≡ ok (new_task w request inputs fresh now)
unfolding create new_task
written s s' w request inputs fresh now t e =
    let made = new_task w request inputs fresh now in
    let (_, e1) = raise_if->>-eq-ok (is_blank request) blank_request _ e in
    read_task-write_task s s' made t e1

no_step :
    (s : TaskStore) (t : Task) (task_id step_id status result actor now : String)
    (x : TaskStore × Task)
    → read_task s task_id ≡ ok t
    → is_closed t ≡ false
    → non_empty t.missing_inputs ≡ true
    → record_step s task_id step_id status result actor now ≢ ok x
unfolding record_step
no_step s t task_id step_id status result actor now x was still_open lacking h =
    let (o, _, h1) = or_raise->>=-eq-ok (parse_outcome status) invalid_step_status _ h in
    let (_, h2) = raise_if->>-eq-ok (is_blank result || is_blank actor) blank_step_field _ h1 in
    let raised =
      modify-err s task_id now (advance step_id o result actor now) t inputs_missing was
        (advance_missing t step_id o result actor now still_open lacking) in
    cc (raised, h2)

-- A task that `create` wrote without one of its required inputs can never be worked on: whatever
-- inputs are supplied, `add_inputs` raises that the task is terminal, and no step can be recorded.
pub missing_inputs_are_final :
    (s s' : TaskStore) (w : Workflow) (request : String) (inputs : List (String × Value))
    (fresh now : String) (t : Task)
    → create s w request inputs fresh now ≡ ok (s', t)
    → non_empty (missing_names inputs w.required_inputs) ≡ true
    → ((more : List (String × Value)) (now' : String)
        → add_inputs s' fresh more now' ≡ err inputs_terminal)
      × ((step_id status result actor now' : String) (x : TaskStore × Task)
          → record_step s' fresh step_id status result actor now' ≢ ok x)
missing_inputs_are_final s s' w request inputs fresh now t e missing =
    let was = written s s' w request inputs fresh now t e in
    let (still_open, waiting, lacking) = new_task_waits w request inputs fresh now missing in
    let made = new_task w request inputs fresh now in
    (
      λ more now'.
          unfold add_inputs in
          modify-err s' fresh now' (supply more) made inputs_terminal was
            (supply_terminal more made still_open waiting),
      λ step_id status result actor now' x.
          no_step s' made fresh step_id status result actor now' x was still_open lacking,
    )
