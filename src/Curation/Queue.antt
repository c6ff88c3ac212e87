-- ===== src/Curation/Queue.antt =====
-- The queue operations of curation_queue.py, each under the queue's lock. The time is an argument.
use circled_wiki.Base.{
  String, ◌==◌, Bool, false, not, ◌||◌, Option, none, some, List, [], ◌∷◌, ◌++◌, if◌then◌else◌,
  is_blank, is_empty, is_some, strip, File, parsed, unreadable, read, write, remove, Result, ok,
  err, ◌>>=◌, ◌>>◌, raise_if,
}
use circled_wiki.Curation.Model.{
  Contract, Current, no_blocker, blocker, QueueTask, Queue, CurationError, invalid_frontmatter,
  blank_evidence_id, blank_blocker,
}
use circled_wiki.Curation.Items.{item_name}

abbrev pub contract : Contract
contract = record { name = "curation_reconciliation"; version = 1 }

abbrev pub empty_task : QueueTask
empty_task = record {
  kind = none;
  contract = none;
  evidence_id = none;
  evidence_path = none;
  current = none;
  recheck_required = false;
  last_blocker = no_blocker;
  step_receipts = none;
  transitions = none;
}

abbrev pub queued_with : String → Current
queued_with next_action = record {
  stage = some "queued";
  status = some "pending";
  actor = some "curation-agent";
  next_action = some next_action;
}

abbrev pub queued_now : Current
queued_now = queued_with "run_configured_curation_batch"

unfoldable pub is_text : Option String → String → Bool
is_text none s = false
is_text (some t) s = t == s

-- `current.get("status") == "pending"` of a mapping that is there.
unfoldable pub is_queued : Option Current → Bool
unfolding is_text
is_queued none = false
is_queued (some c) = is_text c.status "pending"

unfoldable pub or_none {ℓ} : {A : Type ℓ} → Option (List A) → List A
or_none none = []
or_none (some xs) = xs

-- `_append_step`.
unfoldable pub append_step : QueueTask → String → Option String → String → QueueTask
unfolding or_none
append_step t outcome reason now = record t {
  step_receipts = some (
      or_none t.step_receipts
      ++ record {
        stage = "queued";
        status = "pending";
        recorded_at = now;
        outcome = some outcome;
        reason = reason;
      }
        ∷ []);
}

-- `_append_transition`.
unfoldable pub append_transition :
    QueueTask → Option Current → Current → String → String → QueueTask
unfolding or_none
append_transition t from_current to_current outcome now = record t {
  transitions = some (
      or_none t.transitions
      ++ record {
        from_current = from_current;
        to_current = to_current;
        outcome = outcome;
        recorded_at = now;
      }
        ∷ []);
}

-- The front matter that is there, or the empty mapping.
unfoldable pub stored_task : Option (File QueueTask) → Result CurationError QueueTask
stored_task none = ok empty_task
stored_task (some unreadable) = err invalid_frontmatter
stored_task (some (parsed t)) = ok t

-- A task of another Evidence is corrupted, and is replaced.
unfoldable pub is_foreign : QueueTask → String → Bool
is_foreign t id = is_other t.evidence_id
  where
    is_other : Option String → Bool
    is_other none = false
    is_other (some e) = not (e == id)

unfoldable pub queued_task : QueueTask → String → String → Bool → String → QueueTask
unfolding is_queued append_step append_transition
queued_task old id path recheck now =
    let t : QueueTask = record old {
      kind = some "contract_task";
      contract = some contract;
      evidence_id = some id;
      evidence_path = some path;
      current = some queued_now;
      recheck_required = recheck || old.recheck_required;
    } in
    if is_queued old.current
    then t
    else append_step (append_transition t old.current queued_now "queued" now) "queued" none now

-- `_enqueue_curation_work_unlocked`.
unfoldable pub enqueue_unlocked :
    Queue → String → String → Bool → String → Result CurationError (Queue × String)
unfolding stored_task is_foreign queued_task
enqueue_unlocked q id path recheck now = do
  target ← item_name id
  old ← stored_task (read target q)
  let kept = if is_foreign old id then empty_task else old
  ok (write target (parsed (queued_task kept id path recheck now)) q, target)

-- `enqueue_curation_work`, of a path under `evidence`.
unfoldable pub enqueue_curation_work :
    Queue → String → String → String → Result CurationError (Queue × String)
unfolding enqueue_unlocked
enqueue_curation_work q id path now = do
  raise_if (is_empty id) blank_evidence_id
  enqueue_unlocked q id path false now

-- `complete_curation_work` and `rollback_curation_work` have the same body.
unfoldable pub complete_curation_work : Queue → String → Result CurationError (Queue × Bool)
complete_curation_work q id = do
  target ← item_name id
  ok (remove target q, is_some (read target q))

unfoldable pub rollback_curation_work : Queue → String → Result CurationError (Queue × Bool)
rollback_curation_work q id = do
  target ← item_name id
  ok (remove target q, is_some (read target q))

unfoldable pub blocked_task : QueueTask → String → String → String → String → QueueTask
unfolding append_step append_transition
blocked_task t reason category next_action now =
    let current = queued_with (strip next_action) in
    let blocked : QueueTask = record t {
      last_blocker = blocker (record {
        reason = some (strip reason);
        reason_category = some (strip category);
        next_action = some (strip next_action);
      });
      current = some current;
    } in
    append_transition (append_step blocked "retryable_block" (some (strip reason)) now) t.current
      current "retryable_block" now

unfoldable pub record_curation_blocker :
    Queue
    → String
    → String
    → String
    → String
    → String
    → String
    → Result CurationError (Queue × String)
unfolding enqueue_unlocked stored_task blocked_task
record_curation_blocker q id path reason category next_action now = do
  raise_if (is_blank reason || is_blank category || is_blank next_action) blank_blocker
  (q', target) ← enqueue_unlocked q id path false now
  t ← stored_task (read target q')
  ok (write target (parsed (blocked_task t reason category next_action now)) q', target)
