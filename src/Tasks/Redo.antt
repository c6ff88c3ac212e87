-- ===== src/Tasks/Redo.antt =====
-- What becomes of an approval when an earlier step is recorded again: `record_step` of workflow.py.
use mathlib.Core.Path.{subst}
use circled_wiki.Base.{
  String, ◌==◌, ◌≡◌, refl, sym, ap, ◌∙◌, true, false, ◌&&◌, ◌||◌, some, List, [], ◌∷◌, ◌++◌, inl,
  inr, Bool-cases, arith, is_blank, parsed, write, read-write, eq_refl, non_empty, ok, >>=-eq-ok,
  >>-eq-ok, raise_if->>-eq-ok, subst-ok,
}
use circled_wiki.Tasks.Model.{
  is_approval, is_done, Step, Task, is_refresh, is_closed, all_done, blank_step_field, steps_closed,
  inputs_missing,
}
use circled_wiki.Tasks.Store.{TaskStore, validate_id, found, read_task, update_task}
use circled_wiki.Tasks.Steps.{
  completed, approved, Position, behind, locate, recorded, status_after, record_at, check_step,
  check_open, advance, record_step,
}
use circled_wiki.Tasks.Positions.{steps_of, locate_lem, map-eq-some}
use circled_wiki.Tasks.Guards.{advance-Advanced}

-- The position in a longer list.
abbrev followed : Position → List Step → Position
followed q rest = record q { later = q.later ++ rest }

locate-append :
    (id : String) (xs ys : List Step) (q : Position)
    → locate id xs ≡ some q
    → locate id (xs ++ ys) ≡ some (followed q ys)
unfolding locate behind
locate-append id [] ys q e = absurd (cc)
locate-append id (x ∷ xs) ys q e = elim (Bool-cases (x.id == id)) [
  | inl same ↦
      let here : some (record { prior = []; state = x; later = xs }) ≡ some q = rw same at e in
      let at : record { prior = []; state = x; later = xs } ≡ q = cc here in
      rw same (
        subst
          (λ (z : Position).
            some (record { prior = []; state = x; later = xs ++ ys }) ≡ some (followed z ys))
          at refl)
  | inr other ↦
      let (z, there, moved) = map-eq-some x (locate id xs) (rw other at e) in
      rw other (
        rw (locate-append id xs ys z there) (
          subst (λ (v : Position). some (behind x (followed z ys)) ≡ some (followed v ys)) moved
            (unfold behind in refl)))
]

all_done-append : (xs ys : List Step) → all_done (xs ++ ys) ≡ (all_done xs && all_done ys)
unfolding all_done
all_done-append [] ys = refl
all_done-append (x ∷ xs) ys = ground (arith, all_done-append xs ys)

-- In a task of a workflow, a step that is no approval passes the guards behind done steps.
plain_step_passes :
    (t : Task) (p : Position) (actor : String)
    → is_refresh t.task_type ≡ false
    → is_approval p.state.kind ≡ false
    → all_done p.prior ≡ true
    → check_step t p completed actor ≡ ok tt
unfolding check_step
plain_step_passes t p actor executed plain before = ground arith

-- The guards on the task do not look at its steps.
still_free :
    (t u : Task) (id id' : String)
    → is_refresh t.task_type ≡ false
    → u.task_type ≡ t.task_type
    → is_closed u ≡ is_closed t
    → u.missing_inputs ≡ t.missing_inputs
    → check_open t id ≡ ok tt
    → check_open u id' ≡ ok tt
unfolding check_open
still_free t u id id' executed typed closed inputs e =
    let (open_now, e1) = raise_if->>-eq-ok (is_closed t) steps_closed _ e in
    let (supplied, _) = raise_if->>-eq-ok (non_empty t.missing_inputs) inputs_missing _ e1 in
    rw (closed, inputs, typed, open_now, supplied, executed) refl

-- What `record_step` does when its guards pass.
record_step-completed :
    (s : TaskStore) (task_id step_id result actor now : String) (t u : Task)
    → is_blank result ≡ false
    → is_blank actor ≡ false
    → read_task s task_id ≡ ok t
    → validate_id u.task_id ≡ ok tt
    → advance step_id completed result actor now t ≡ ok u
    → record_step s task_id step_id "completed" result actor now
      ≡ ok (
        write u.task_id (parsed (record u { updated_at = now })) s,
        record u { updated_at = now },
      )
unfolding record_step update_task
record_step-completed s task_id step_id result actor now t u filled named was valid moved =
    simp (filled, named, was, moved, valid)

read_task-write :
    (s : TaskStore) (id : String) (t : Task)
    → validate_id id ≡ ok tt
    → read_task (write id (parsed t) s) id ≡ ok t
unfolding read_task found
read_task-write s id t valid = rw (valid, read-write id id (parsed t) s, eq_refl id) refl

-- An approval that was recorded, with the task and the store behind it.
record Approved (s s' : TaskStore) (step_id result actor now : String) (t t' : Task) (p : Position)
    : Type 0 where
  free : check_open t step_id ≡ ok tt
  ordered : all_done p.prior ≡ true
  valid : validate_id t.task_id ≡ ok tt
  task : t' ≡ record (record_at t p approved result actor now) { updated_at = now }
  store : s' ≡ write t.task_id (parsed t') s

record_step-Approved :
    (s s' : TaskStore) (task_id step_id result actor now : String) (t t' : Task) (p : Position)
    → read_task s task_id ≡ ok t
    → locate step_id t.step_states ≡ some p
    → record_step s task_id step_id "approved" result actor now ≡ ok (s', t')
    → Approved s s' step_id result actor now t t' p
unfolding record_step update_task
record_step-Approved s s' task_id step_id result actor now t t' p was here e =
    let (_, e1) = raise_if->>-eq-ok (is_blank result || is_blank actor) blank_step_field _ e in
    let (v, was', e2) = >>=-eq-ok (read_task s task_id) _ e1 in
    let read_back : ok v ≡ ok t = sym was' ∙ was in
    let same : v ≡ t = subst-ok (λ (x : Task). v ≡ x) read_back refl in
    let (u, moved, e3) = >>=-eq-ok (advance step_id approved result actor now v) _ e2 in
    let a =
      advance-Advanced step_id approved result actor now t u
        (subst (λ (x : Task). advance step_id approved result actor now x ≡ ok u) same moved) in
    let both : some a.position ≡ some p = sym a.located ∙ here in
    let at : a.position ≡ p = cc both in
    let made : record_at t p approved result actor now ≡ u =
      subst (λ (q : Position). record_at t q approved result actor now ≡ u) at a.made in
    let named : u.task_id ≡ t.task_id =
      sym (ap (λ (x : Task). x.task_id) made) ∙ (unfold record_at in refl) in
    let (valid, written) = >>-eq-ok (validate_id u.task_id) _ e3 in
    record {
      free = a.free;
      ordered = subst (λ (q : Position). all_done q.prior ≡ true) at a.passed.ordered;
      valid = subst (λ k. validate_id k ≡ ok tt) named valid;
      task =
          subst-ok (λ (x : TaskStore × Task). x.1 ≡ record u { updated_at = now }) written refl
          ∙ ap (λ (x : Task). record x { updated_at = now }) (sym made);
      store =
          subst-ok (λ (x : TaskStore × Task). x.0 ≡ write u.task_id (parsed x.1) s) written refl
          ∙ ap (λ k. write k (parsed t') s) named;
    }

-- The steps of a task in which a step `q` was recorded again before an approval `p`.
abbrev pub redone_steps :
    Position → String → String → String → Position → String → String → String → List Step
redone_steps q result' actor' now' p result actor now =
    q.prior
    ++ recorded q.state completed result' actor' now'
      ∷ (q.later ++ recorded p.state approved result actor now ∷ p.later)

-- Steps that are done count like no steps, and so does one of them done again.
redone_is_done :
    (q : Position) (x : Step) (rest : List Step)
    → all_done (steps_of q) ≡ true
    → is_done x.status ≡ true
    → all_done (q.prior ++ x ∷ (q.later ++ rest)) ≡ all_done (steps_of q ++ rest)
unfolding all_done
redone_is_done q x rest before done = ground (
  arith,
  all_done-append q.prior (x ∷ (q.later ++ rest)),
  all_done-append q.prior (q.state ∷ q.later),
  all_done-append q.later rest,
  all_done-append (steps_of q) rest,
  before,
  done,
)

prior_is_done : (q : Position) → all_done (steps_of q) ≡ true → all_done q.prior ≡ true
prior_is_done q before = ground (arith, all_done-append q.prior (q.state ∷ q.later), before)

-- An earlier step of a stored task can be recorded again.
redo :
    (s : TaskStore) (earlier result actor now : String) (t : Task) (q : Position)
    → is_blank result ≡ false
    → is_blank actor ≡ false
    → validate_id t.task_id ≡ ok tt
    → read_task s t.task_id ≡ ok t
    → check_open t earlier ≡ ok tt
    → is_refresh t.task_type ≡ false
    → locate earlier t.step_states ≡ some q
    → is_approval q.state.kind ≡ false
    → all_done q.prior ≡ true
    → let u : Task = record (record_at t q completed result actor now) { updated_at = now } in
      (record_step s t.task_id earlier "completed" result actor now
        ≡ ok (write t.task_id (parsed u) s, u))
      × (read_task (write t.task_id (parsed u) s) t.task_id ≡ ok u)
redo s earlier result actor now t q filled named valid was free executed here plain before =
    let v = record_at t q completed result actor now in
    let moved : advance earlier completed result actor now t ≡ ok v =
      unfold advance in simp (free, here, plain_step_passes t q actor executed plain before) in
    let own : v.task_id ≡ t.task_id = unfold record_at in refl in
    (
      subst
          (λ k.
            record_step s t.task_id earlier "completed" result actor now
            ≡ ok
                (write k (parsed (record v { updated_at = now })) s, record v { updated_at = now }))
          own
          (record_step-completed s t.task_id earlier result actor now t v filled named was
            (rw own valid) moved),
      read_task-write s t.task_id (record v { updated_at = now }) valid,
    )

-- An approval that is recorded survives the redo of a step before it. In a task of a workflow, in
-- the file of its id, let `p` be the step that an actor approves and `q` a step before it that is
-- no approval. Anybody who is named, the approver included, can then record `q` as completed
-- again, with a result that is not blank: the step becomes this actor's, the approval and all
-- other steps stay as they were, and so does the status of the task, which is stored with these
-- steps. So an approver may become the actor of a step that was approved.
pub approval_survives_redo :
    (s s' : TaskStore) (step_id earlier result result' actor actor' now now' : String) (t t' : Task)
    (p q : Position)
    → read_task s t.task_id ≡ ok t
    → is_refresh t.task_type ≡ false
    → locate step_id t.step_states ≡ some p
    → locate earlier p.prior ≡ some q
    → is_approval q.state.kind ≡ false
    → record_step s t.task_id step_id "approved" result actor now ≡ ok (s', t')
    → is_blank result' ≡ false
    → is_blank actor' ≡ false
    → (s'' : TaskStore) × (t'' : Task) × (record_step s' t.task_id earlier "completed" result'
          actor' now'
        ≡ ok (s'', t''))
      × (read_task s'' t.task_id ≡ ok t'')
      × (t''.step_states ≡ redone_steps q result' actor' now' p result actor now)
      × (t''.status ≡ t'.status)
approval_survives_redo s s' step_id earlier result result' actor actor' now now' t t' p q was
      executed here before_it plain e filled named =
    let a = record_step-Approved s s' t.task_id step_id result actor now t t' p was here e in
    let rest = recorded p.state approved result actor now ∷ p.later in
    let t1 : Task = record (record_at t p approved result actor now) { updated_at = now } in
    let whole = (locate_lem earlier p.prior q before_it).0 in
    let done : all_done (steps_of q) ≡ true = ap all_done whole ∙ a.ordered in
    let q1 = followed q rest in
    let counted =
      redone_is_done q (recorded q.state completed result' actor' now') rest done
        (unfold recorded in unfold is_done in refl) in
    let behind_both : status_after completed (all_done (steps_of q ++ rest))
        ≡ status_after approved (all_done (p.prior ++ rest)) =
      unfold status_after in ap (λ xs. status_after approved (all_done (xs ++ rest))) whole in
    let u : Task = record (record_at t1 q1 completed result' actor' now') { updated_at = now' } in
    let s1 = write t.task_id (parsed t1) s in
    let stored : s' ≡ s1 = a.store ∙ ap (λ x. write t.task_id (parsed x) s) a.task in
    let (moved, left) : (record_step s1 t.task_id earlier "completed" result' actor' now'
          ≡ ok (write t.task_id (parsed u) s1, u))
        × (read_task (write t.task_id (parsed u) s1) t.task_id ≡ ok u) =
      unfold record_at in
      redo s1 earlier result' actor' now' t1 q1 filled named a.valid
        (read_task-write s t.task_id t1 a.valid)
        (still_free t t1 step_id earlier executed refl (unfold is_closed in refl) refl a.free)
        executed (locate-append earlier p.prior rest q before_it) plain (prior_is_done q done) in
    (
      write t.task_id (parsed u) s1,
      u,
      rw stored moved,
      left,
      unfold record_at in refl,
      unfold record_at in
          (ap (status_after completed) counted
            ∙ behind_both
            ∙ sym (ap (λ (x : Task). x.status) a.task)),
    )
