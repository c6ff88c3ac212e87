-- ===== src/Tasks/Store.antt =====
-- `TaskStore.read`, `update`, `_write` and `_validate_id` of workflow.py: the JSON files under
-- `.runtime/tasks`, by task id.
use circled_wiki.Base.{
  String, not, Option, none, some, Directory, File, parsed, unreadable, read, write, canonical_uuid,
  is_some, Result, ok, err, ◌>>=◌, ◌>>◌, raise_if,
}
use circled_wiki.Tasks.Model.{Task, TaskError, invalid_task_id, task_not_found, task_unreadable}

abbrev pub TaskStore : Type 0
TaskStore = Directory (File Task)

-- `_validate_id`: the id parses as a UUID.
unfoldable pub validate_id : String → Result TaskError (Unit {0})
validate_id task_id = raise_if (not (is_some (canonical_uuid task_id))) invalid_task_id

unfoldable pub found : Option (File Task) → Result TaskError Task
found none = err task_not_found
found (some (parsed t)) = ok t
found (some unreadable) = err task_unreadable

unfoldable pub read_task : TaskStore → String → Result TaskError Task
unfolding validate_id found
read_task store task_id = do validate_id task_id; found (read task_id store)

-- `_write`: the id is checked, and the file is replaced as a whole.
unfoldable pub write_task : TaskStore → Task → Result TaskError (TaskStore × Task)
unfolding validate_id
write_task store t = do validate_id t.task_id; ok (write t.task_id (parsed t) store, t)

-- `update`: the time stamp is set before the write.
unfoldable pub update_task : TaskStore → Task → String → Result TaskError (TaskStore × Task)
unfolding write_task
update_task store t now = write_task store (record t { updated_at = now })

-- Read, change and write back: an operation that raises leaves the files as they were.
unfoldable pub modify :
    TaskStore
    → String
    → String
    → (Task → Result TaskError Task)
    → Result TaskError (TaskStore × Task)
unfolding read_task update_task
modify store task_id now change = do
  t ← read_task store task_id
  t' ← change t
  update_task store t' now
