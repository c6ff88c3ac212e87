-- ===== src/Tasks/Requests.antt =====
-- Requests to refresh a Runbook: `create_refresh` and `prepare_task` of workflow.py.
use mathlib.Core.Path.{subst}
use circled_wiki.Base.{
  String, ◌≡◌, refl, sym, ◌∙◌, Bool, true, not, ◌||◌, some, List, inl, inr, Bool-cases,
  Option-cases, is_blank, is_some, contains, distinct, non_empty, read, eq_refl, ok, >>=-eq-ok,
  subst-ok, raise_if->>-eq-ok,
}
use circled_wiki.Tasks.Model.{Workflow, Task, blank_request, invalid_refresh_reason}
use circled_wiki.Tasks.Store.{TaskStore, write_task}
use circled_wiki.Tasks.Refresh.{
  RefreshRequest, note_of, refresh_reasons, is_open_refresh, find_open_refresh, merge_request,
  reuse, refresh_task, create_refresh,
}
use circled_wiki.Tasks.OpenRefresh.{
  IsFiled, IsOnly, AgreeBeside, Settled, found_is_open, found_is_there, write_task-Settled,
}

merged_is_open :
    (w : String) (t : Task) (ids : List String) (reason requested_by note now : String)
    → is_open_refresh w t ≡ true
    → is_open_refresh w (merge_request t ids reason requested_by note now) ≡ true
unfolding is_open_refresh merge_request
merged_is_open w t ids reason requested_by note now h = h

new_is_open :
    (w : Workflow) (r : RefreshRequest) (ids : List String) (fresh now : String)
    → is_open_refresh w.workflow_id (refresh_task w r ids fresh now) ≡ true
unfolding is_open_refresh refresh_task
new_is_open w r ids fresh now = simp eq_refl

-- What a request that reuses an open task leaves behind: the task keeps its id and the inputs that
-- wait for the end of the refresh.
abbrev Reuses : TaskStore → TaskStore → String → Task → Task → Type 0
Reuses s s' w old t =
    Settled s s' w t × (t.task_id ≡ old.task_id) × (t.deferred_inputs ≡ old.deferred_inputs)

reuse-Reuses :
    (s s' : TaskStore) (w : String) (old : Task) (r : RefreshRequest) (ids : List String)
    (now : String) (t : Task) (reused : Bool)
    → IsFiled s
    → find_open_refresh s w ≡ some old
    → reuse s old r ids now ≡ ok (s', t, reused)
    → Reuses s s' w old t × (reused ≡ true)
unfolding reuse
reuse-Reuses s s' w old r ids now t reused filed present e = elim (Bool-cases (non_empty ids)) [
  | inl some_ids ↦
      let merged = merge_request old ids r.reason r.requested_by (note_of r) now in
      let ((s1, t1), written, made) = >>=-eq-ok (write_task s merged) _ (rw some_ids at e) in
      let open_still =
        merged_is_open w old ids r.reason r.requested_by (note_of r) now
          (found_is_open s w old present) in
      let only : IsOnly s w merged.task_id =
        λ u found. unfold merge_request in cc (found, present) in
      let (settled, same) = write_task-Settled s s1 w merged t1 open_still filed only written in
      subst-ok (λ (y : TaskStore × Task × Bool). Reuses s y.0 w old y.1 × (y.2 ≡ true)) made
        (
          subst
              (λ (x : Task).
                Settled s s1 w t1
                × (x.task_id ≡ old.task_id)
                × (x.deferred_inputs ≡ old.deferred_inputs))
              same (settled, unfold merge_request in refl, unfold merge_request in refl),
          refl,
        )
  | inr no_ids ↦
      subst-ok (λ (y : TaskStore × Task × Bool). Reuses s y.0 w old y.1 × (y.2 ≡ true))
        (rw no_ids at e)
        ((record { filed = filed; found = present; beside = λ k _. refl }, refl, refl), refl)
]

-- A request that succeeds: the task that it returns is then the open one of the workflow; where
-- one was open before, it is that one.
record Requested (s s' : TaskStore) (w : String) (t : Task) (reused : Bool) : Type 0 where
  settled : Settled s s' w t
  again : (old : Task) → find_open_refresh s w ≡ some old → (reused ≡ true) × Reuses s s' w old t

create_refresh-Requested :
    (s s' : TaskStore) (w : Workflow) (r : RefreshRequest) (fresh now : String) (t : Task)
    (reused : Bool)
    → IsFiled s
    → create_refresh s w r fresh now ≡ ok (s', t, reused)
    → Requested s s' w.workflow_id t reused
unfolding create_refresh
create_refresh-Requested s s' w r fresh now t reused filed e =
    let (_, e1) =
      raise_if->>-eq-ok (not (contains r.reason refresh_reasons)) invalid_refresh_reason _ e in
    let (_, e2) =
      raise_if->>-eq-ok (is_blank r.request || is_blank r.requested_by) blank_request _ e1 in
    let ids = distinct r.candidate_evidence_ids in
    elim (Option-cases (find_open_refresh s w.workflow_id)) [
      | inl absent ↦
          let made = refresh_task w r ids fresh now in
          let ((s1, t1), written, done) = >>=-eq-ok (write_task s made) _ (rw absent at e2) in
          let (settled, _) =
            write_task-Settled s s1 w.workflow_id made t1 (new_is_open w r ids fresh now) filed
              (λ u found. absurd (cc (found, absent))) written in
          record {
            settled =
                subst-ok (λ (y : TaskStore × Task × Bool). Settled s y.0 w.workflow_id y.1) done
                  settled;
            again = λ old present. absurd (cc (present, absent));
          }
      | inr (old, present) ↦
          let (reuses, flag) =
            reuse-Reuses s s' w.workflow_id old r ids now t reused filed present
              (rw present at e2) in
          record {
            settled = reuses.0;
            again = λ u found.
                let same : old ≡ u = cc (present, found) in
                (flag, subst (λ x. Reuses s s' w.workflow_id x t) same reuses);
          }
    ]

-- Requests to refresh the workflow that succeed, one behind the other.
pub data Requests (w : Workflow) (s : TaskStore) : TaskStore → Type 0 where
  stay : Requests w s s
  then_request :
      {s' s'' : TaskStore} (r : RefreshRequest) (fresh now : String) (t : Task) (reused : Bool)
      → Requests w s s'
      → create_refresh s' w r fresh now ≡ ok (s'', t, reused)
      → Requests w s s''

-- The open task of the workflow, which is `t` at first, keeps its id and its deferred inputs, and no
-- other file is different.
record Follows (s s' : TaskStore) (w : String) (t : Task) : Type 0 where
  filed : IsFiled s'
  current : Task
  found : find_open_refresh s' w ≡ some current
  named : current.task_id ≡ t.task_id
  deferred : current.deferred_inputs ≡ t.deferred_inputs
  beside : AgreeBeside t.task_id s s'

follow :
    (s s' s'' : TaskStore) (w : Workflow) (r : RefreshRequest) (fresh now : String) (t u : Task)
    (reused : Bool)
    → Follows s s' w.workflow_id t
    → create_refresh s' w r fresh now ≡ ok (s'', u, reused)
    → (reused ≡ true)
      × (u.task_id ≡ t.task_id)
      × (u.deferred_inputs ≡ t.deferred_inputs)
      × (find_open_refresh s'' w.workflow_id ≡ some u)
      × AgreeBeside t.task_id s s''
      × IsFiled s''
follow s s' s'' w r fresh now t u reused f e =
    let step = create_refresh-Requested s' s'' w r fresh now u reused f.filed e in
    let (flag, (settled, named, deferred)) = step.again f.current f.found in
    let own : u.task_id ≡ t.task_id = named ∙ f.named in
    (
      flag,
      own,
      deferred ∙ f.deferred,
      settled.found,
      λ k other. settled.beside k (λ same. other (sym own ∙ same)) ∙ f.beside k other,
      settled.filed,
    )

Requests-Follows :
    (w : Workflow) (s s' : TaskStore) (t : Task) (s'' : TaskStore)
    → Settled s s' w.workflow_id t
    → Requests w s' s''
    → Follows s' s'' w.workflow_id t
Requests-Follows w s s' t _ h stay = record {
  filed = h.filed;
  current = t;
  found = h.found;
  named = refl;
  deferred = refl;
  beside = λ k _. refl;
}
Requests-Follows w s s' t s'' h (then_request {s' = s1} r fresh now u reused before e) =
    let (_, named, deferred, found, beside, filed) =
      follow s' s1 s'' w r fresh now t u reused (Requests-Follows w s s' t s1 h before) e in
    record {
      filed = filed;
      current = u;
      found = found;
      named = named;
      deferred = deferred;
      beside = beside;
    }

-- In a store whose tasks are in the files of their ids: after a request to refresh a workflow,
-- whether it wrote a new task or reused the open one, every further request for that workflow that
-- succeeds, also behind other such requests, reuses the task of the first. It returns that task,
-- which is then the open one of the workflow, and with it no file is added: the file of the task
-- was there, and all others are as the first request left them.
pub create_refresh_reuses :
    (s s' s'' after : TaskStore) (w : Workflow) (r r' : RefreshRequest)
    (fresh now fresh' now' : String) (t t' : Task) (reused reused' : Bool)
    → IsFiled s
    → create_refresh s w r fresh now ≡ ok (s', t, reused)
    → Requests w s' s''
    → create_refresh s'' w r' fresh' now' ≡ ok (after, t', reused')
    → (reused' ≡ true)
      × (t'.task_id ≡ t.task_id)
      × (find_open_refresh after w.workflow_id ≡ some t')
      × (is_some (read t.task_id s') ≡ true)
      × AgreeBeside t.task_id s' after
create_refresh_reuses s s' s'' after w r r' fresh now fresh' now' t t' reused reused' filed e steps
      e' =
    let h = (create_refresh-Requested s s' w r fresh now t reused filed e).settled in
    let (flag, named, _, found, beside, _) =
      follow s' s'' after w r' fresh' now' t t' reused' (Requests-Follows w s s' t s'' h steps)
        e' in
    (flag, named, found, found_is_there s' w.workflow_id t h.filed h.found, beside)
