-- ===== src/Tasks/Soundness/Stores.antt =====
-- The files of a task store, each with a sound task.
use circled_wiki.Base.{
  String, ◌≡◌, Option, none, some, [], ◌∷◌, inl, inr, Bool-cases, File, parsed, unreadable, read,
  Everywhere, Everywhere-write, Everywhere-read, read-write, eq_refl, Result, ok, err, >>=-eq-ok,
  >>-eq-ok, subst-ok,
}
use mathlib.Core.Path.{subst}
use circled_wiki.Tasks.Model.{Task, TaskError}
use circled_wiki.Tasks.Store.{TaskStore, validate_id, found, read_task, write_task, modify}
use circled_wiki.Tasks.Refresh.{is_open_refresh, find_open_refresh}
use circled_wiki.Tasks.Soundness.{IsSound}
use circled_wiki.Tasks.Soundness.Others.{stamp-IsSound}

abbrev pub IsSoundStore : TaskStore → Type 0
IsSoundStore store = Everywhere IsSound store

found-eq-ok : (o : Option (File Task)) (t : Task) → found o ≡ ok t → o ≡ some (parsed t)
unfolding found
found-eq-ok none t h = cc
found-eq-ok (some (parsed u)) t h = cc
found-eq-ok (some unreadable) t h = cc

pub read_task-eq-ok :
    (store : TaskStore) (task_id : String) (t : Task)
    → read_task store task_id ≡ ok t
    → read task_id store ≡ some (parsed t)
unfolding read_task
read_task-eq-ok store task_id t h =
    let (_, f) = >>-eq-ok (validate_id task_id) _ h in found-eq-ok (read task_id store) t f

pub read_task-IsSound :
    (store : TaskStore) (task_id : String) (t : Task)
    → IsSoundStore store
    → read_task store task_id ≡ ok t
    → IsSound t
read_task-IsSound store task_id t h e =
    Everywhere-read IsSound task_id (parsed t) store h (read_task-eq-ok store task_id t e)

pub write_task-IsSoundStore :
    (store store' : TaskStore) (t t' : Task)
    → IsSoundStore store
    → IsSound t
    → write_task store t ≡ ok (store', t')
    → IsSoundStore store'
unfolding write_task
write_task-IsSoundStore store store' t t' h s e =
    let (_, made) = >>-eq-ok (validate_id t.task_id) _ e in
    subst-ok (λ (w : TaskStore × Task). IsSoundStore w.0) made
      (Everywhere-write IsSound t.task_id (parsed t) store h s)

pub modify-IsSoundStore :
    (store store' : TaskStore) (task_id now : String) (change : Task → Result TaskError Task)
    (t' : Task)
    → ((t u : Task) → IsSound t → change t ≡ ok u → IsSound u)
    → IsSoundStore store
    → modify store task_id now change ≡ ok (store', t')
    → IsSoundStore store'
unfolding modify
modify-IsSoundStore store store' task_id now change t' keeps h e =
    let (t, r, e1) = >>=-eq-ok (read_task store task_id) _ e in
    let (u, c, e2) = >>=-eq-ok (change t) _ e1 in
    let s = keeps t u (read_task-IsSound store task_id t h r) c in
    write_task-IsSoundStore store store' (record u { updated_at = now }) t' h
      (stamp-IsSound u now s) e2

pub find_open_refresh-IsSound :
    (store : TaskStore) (workflow_id : String) (t : Task)
    → IsSoundStore store
    → find_open_refresh store workflow_id ≡ some t
    → IsSound t
unfolding find_open_refresh
find_open_refresh-IsSound [] workflow_id t h e = absurd (cc)
find_open_refresh-IsSound ((k, unreadable) ∷ files) workflow_id t h e =
    find_open_refresh-IsSound files workflow_id t h.1 e
find_open_refresh-IsSound ((k, parsed u) ∷ files) workflow_id t h e =
    elim (Bool-cases (is_open_refresh workflow_id u)) [
      | inl open_now ↦ subst IsSound (cc (open_now, e)) h.0
      | inr closed ↦ find_open_refresh-IsSound files workflow_id t h.1 (rw closed at e)
    ]

-- What was written is what the next call reads.
pub read_task-write_task :
    (store store' : TaskStore) (t t' : Task)
    → write_task store t ≡ ok (store', t')
    → read_task store' t.task_id ≡ ok t
unfolding write_task read_task found
read_task-write_task store store' t t' e =
    let (valid, made) = >>-eq-ok (validate_id t.task_id) _ e in
    subst-ok (λ (w : TaskStore × Task). read_task w.0 t.task_id ≡ ok t) made
      (simp (valid, read-write, eq_refl))

-- A change that raises makes the operation raise.
pub modify-err :
    (store : TaskStore) (task_id now : String) (change : Task → Result TaskError Task) (t : Task)
    (x : TaskError)
    → read_task store task_id ≡ ok t
    → change t ≡ err x
    → modify store task_id now change ≡ err x
unfolding modify
modify-err store task_id now change t x was raised = simp (was, raised)
