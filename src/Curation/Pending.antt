-- ===== src/Curation/Pending.antt =====
-- What the operations of curation_queue.py leave in the queue.
use mathlib.Core.Path.{subst}
use circled_wiki.Base.{
  String, ◌==◌, ◌≡◌, refl, sym, Bool, true, false, not, ◌||◌, none, some, List, ◌∷◌, inl, inr,
  Bool-cases, arith, is_some, if◌then◌else◌, parsed, unreadable, read, write, remove, read-write,
  read-remove, eq_refl, ok, err, >>=-eq-ok, subst-ok, raise_if->>-eq-ok, is_empty,
}
use circled_wiki.Curation.Model.{QueueTask, Queue, invalid_frontmatter, blank_evidence_id}
use circled_wiki.Curation.Items.{item_name}
use circled_wiki.Curation.Queue.{
  is_text, is_queued, stored_task, queued_task, is_foreign, empty_task, enqueue_unlocked,
  enqueue_curation_work, complete_curation_work, append_step, append_transition,
}
use circled_wiki.Curation.Refresh.{
  refresh_item, refresh_items, refresh_expected, valid_task_record, readable_task,
}

-- A task that waits for the curation of this Evidence.
abbrev pub IsPending : QueueTask → String → String → Type 0
IsPending t id path =
    (t.evidence_id ≡ some id) × (t.evidence_path ≡ some path) × (is_queued t.current ≡ true)

queued_task-IsPending :
    (old : QueueTask) (id path : String) (recheck : Bool) (now : String)
    → IsPending (queued_task old id path recheck now) id path
unfolding queued_task
queued_task-IsPending old id path recheck now = elim (Bool-cases (is_queued old.current)) [
  | inl queued ↦ rw queued (refl, refl, unfold is_queued in unfold is_text in refl)
  | inr other ↦ rw other (
    unfold append_step in unfold append_transition in refl,
    unfold append_step in unfold append_transition in refl,
    unfold append_step in unfold append_transition in unfold is_queued in unfold is_text in refl,
  )
]

-- Work that is enqueued is pending in the file that the UUID of its Evidence id names, whatever
-- readable task was there before, and the other files are as they were.
pub enqueue_waits :
    (q q' : Queue) (id path now target : String)
    → enqueue_curation_work q id path now ≡ ok (q', target)
    → (item_name id ≡ ok target)
      × (t : QueueTask) × IsPending t id path
      × ((j : String) → read j q' ≡ (if target == j then some (parsed t) else read j q))
unfolding enqueue_curation_work enqueue_unlocked
enqueue_waits q q' id path now target e =
    let (_, e1) = raise_if->>-eq-ok (is_empty id) blank_evidence_id _ e in
    let (name, named, e2) = >>=-eq-ok (item_name id) _ e1 in
    let (old, _, e3) = >>=-eq-ok (stored_task (read name q)) _ e2 in
    let kept = if is_foreign old id then empty_task else old in
    let t = queued_task kept id path false now in
    let facts =
      subst-ok
        (λ (x : Queue × String).
          (item_name id ≡ ok x.1)
          × ((j : String) → read j x.0 ≡ (if x.1 == j then some (parsed t) else read j q)))
        e3 (named, λ j. read-write name j (parsed t) q) in
    (facts.0, t, queued_task-IsPending kept id path false now, facts.1)

-- Completed work leaves the queue, and no other work does. Completing it again finds nothing.
pub completed_leaves_queue :
    (q q' : Queue) (id : String) (found : Bool)
    → complete_curation_work q id ≡ ok (q', found)
    → (target : String) × (item_name id ≡ ok target)
      × (found ≡ is_some (read target q))
      × ((j : String) → read j q' ≡ (if target == j then none else read j q))
      × ((q'' : Queue) (again : Bool)
          → complete_curation_work q' id ≡ ok (q'', again)
          → again ≡ false)
unfolding complete_curation_work
completed_leaves_queue q q' id found e =
    let (target, named, e1) = >>=-eq-ok (item_name id) _ e in
    let gone : read target (remove target q) ≡ none =
      ground (arith, read-remove target target q, eq_refl target) in
    let facts =
      subst-ok
        (λ (x : Queue × Bool).
          (x.1 ≡ is_some (read target q))
          × ((j : String) → read j x.0 ≡ (if target == j then none else read j q))
          × (read target x.0 ≡ none))
        e1 (refl, λ j. read-remove target j q, gone) in
    (
      target,
      named,
      facts.0,
      facts.1,
      λ q'' again e2.
          subst-ok (λ (x : Queue × Bool). x.1 ≡ false) (rw named at e2) (rw facts.2 refl),
    )

-- A task file whose front matter does not parse stops the refresh that would repair it: where it is
-- the file of the first expected Evidence, nothing is written or removed, whatever else is expected.
pub unreadable_stops_refresh :
    (q : Queue) (id path now target : String) (rest : List (String × String))
    (targets : List String)
    → item_name id ≡ ok target
    → read target q ≡ some unreadable
    → refresh_expected ((id, path) ∷ rest) now q (ok targets) ≡ (q, err invalid_frontmatter)
unfolding refresh_expected refresh_items refresh_item readable_task enqueue_unlocked stored_task
unreadable_stops_refresh q id path now target rest targets named stored = simp (named, stored)

-- An unreceipted task: queued for this Evidence, but without its list of step receipts.
abbrev pub IsUnreceipted : QueueTask → String → String → Type 0
IsUnreceipted t id path = IsPending t id path × (t.step_receipts ≡ none)

no_receipts_invalid : (t : QueueTask) → t.step_receipts ≡ none → valid_task_record t ≡ false
unfolding valid_task_record
no_receipts_invalid t h = ground (arith, h)

requeue_misses_receipts :
    (t : QueueTask) (id path now : String)
    → IsUnreceipted t id path
    → is_foreign t id ≡ false
    → IsUnreceipted (queued_task t id path false now) id path
unfolding queued_task
requeue_misses_receipts t id path now h own =
    rw h.0.2 (unfold is_queued in unfold is_text in ((refl, refl, refl), h.1))

own_task : (t : QueueTask) (id : String) → t.evidence_id ≡ some id → is_foreign t id ≡ false
unfolding is_foreign
own_task t id h = rw h (simp eq_refl)

requeued_lem :
    (q : Queue) (id path now target : String) (t : QueueTask)
    → item_name id ≡ ok target
    → read target q ≡ some (parsed t)
    → is_foreign t id ≡ false
    → enqueue_unlocked q id path false now
      ≡ ok (write target (parsed (queued_task t id path false now)) q, target)
unfolding enqueue_unlocked stored_task
requeued_lem q id path now target t named stored own = simp (named, stored, own)

invalid_needs_repair : (x y z : Bool) → z ≡ false → (x || y || not z) ≡ true
invalid_needs_repair x y z h = ground (arith, h)

repaired_lem :
    (q q' : Queue) (id path now target name : String) (t : QueueTask)
    → valid_task_record t ≡ false
    → enqueue_unlocked q id path false now ≡ ok (q', name)
    → refresh_item q id path target now (some (parsed t))
      ≡ ok (q', record { created = 0; repaired = 1 })
unfolding refresh_item readable_task
repaired_lem q q' id path now target name t invalid written =
    rw
      (invalid_needs_repair (not (is_text t.evidence_id id)) (not (is_text t.evidence_path path))
        (valid_task_record t) invalid)
      (rw written refl)

-- The repair of an unreceipted task does not repair it: each refresh counts it as repaired, and what
-- it writes is again an unreceipted task of the same Evidence, which is no valid record. So the next
-- refresh counts it once more.
pub repair_never_ends :
    (q : Queue) (id path now target : String) (t : QueueTask)
    → item_name id ≡ ok target
    → read target q ≡ some (parsed t)
    → IsUnreceipted t id path
    → (q' : Queue) × (t' : QueueTask) × (refresh_item q id path target now (read target q)
        ≡ ok (q', record { created = 0; repaired = 1 }))
      × (read target q' ≡ some (parsed t'))
      × (valid_task_record t' ≡ false)
      × IsUnreceipted t' id path
repair_never_ends q id path now target t named stored h =
    let t' = queued_task t id path false now in
    let own = own_task t id h.0.0 in
    let again = requeue_misses_receipts t id path now h own in
    (
      write target (parsed t') q,
      t',
      subst
          (λ f.
            refresh_item q id path target now f
            ≡ ok (write target (parsed t') q, record { created = 0; repaired = 1 }))
          (sym stored)
          (repaired_lem q (write target (parsed t') q) id path now target target t
            (no_receipts_invalid t h.1) (requeued_lem q id path now target t named stored own)),
      rw (read-write target target (parsed t') q) (simp eq_refl),
      no_receipts_invalid t' again.1,
      again,
    )
