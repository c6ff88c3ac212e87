-- ===== src/Curation/Refresh.antt =====
-- `list_curation_queue` and `refresh_curation_queue` of curation_queue.py. The Evidence ids that
-- `_completed_evidence_ids` collects from valid Bundles and review cards are an argument. A refresh
-- returns its queue beside an error, since what it wrote before stays written.
use circled_wiki.Base.{
  ℕ, ◌+◌, String, ◌==◌, Bool, true, false, not, ◌&&◌, ◌||◌, Option, none, some, List, [], ◌∷◌,
  if◌then◌else◌, nat_eq, is_blank, is_some, contains, length, select, file_names, File, parsed,
  unreadable, read, write, remove, Result, ok, err, ◌>>=◌,
}
use circled_wiki.Curation.Model.{
  Contract, Current, Blocker, BlockerFields, no_blocker, malformed, blocker, QueueTask, Queue,
  EvidenceDocument, CurationError, invalid_frontmatter,
}
use circled_wiki.Curation.Items.{item_name}
use circled_wiki.Curation.Queue.{
  contract, empty_task, queued_now, is_text, is_queued, append_step, append_transition,
  enqueue_unlocked,
}

-- A row of the list.
pub record Row : Type 0 where
  pub evidence_id : String
  pub path : String
  pub queue_path : String
  pub last_blocker : Option BlockerFields

-- The blocker of a row is given where each of its fields is a text.
unfoldable pub shown_blocker : Blocker → Option BlockerFields
shown_blocker no_blocker = none
shown_blocker malformed = none
shown_blocker (blocker b) =
    if is_some b.reason && is_some b.reason_category && is_some b.next_action then some b else none

unfoldable pub row_of : String → QueueTask → Option String → Option String → Option Row
unfolding shown_blocker is_queued
row_of name t (some id) (some path) =
    if is_queued t.current
    then some (record {
      evidence_id = id;
      path = path;
      queue_path = name;
      last_blocker = shown_blocker t.last_blocker;
    })
    else none
row_of name t none path = none
row_of name t (some id) none = none

unfoldable pub add_row : Option Row → List Row → List Row
add_row none rows = rows
add_row (some row) rows = row ∷ rows

unfoldable pub list_curation_queue : Queue → Result CurationError (List Row)
unfolding row_of add_row
list_curation_queue [] = ok []
list_curation_queue ((name, unreadable) ∷ files) = err invalid_frontmatter
list_curation_queue ((name, parsed t) ∷ files) = do
  rows ← list_curation_queue files
  ok (add_row (row_of name t t.evidence_id t.evidence_path) rows)

unfoldable pub add_id : Bool → Option String → List String → List String
add_id true (some id) ids = id ∷ ids
add_id true none ids = ids
add_id false id ids = ids

-- `_recheck_evidence_ids`, which passes over files that do not parse.
unfoldable pub recheck_ids : Queue → List String
unfolding add_id
recheck_ids [] = []
recheck_ids ((name, unreadable) ∷ files) = recheck_ids files
recheck_ids ((name, parsed t) ∷ files) = add_id t.recheck_required t.evidence_id (recheck_ids files)

-- `expected[evidence_id] = path`: a later document with the id takes the place of the first.
unfoldable pub expect : String → String → List (String × String) → List (String × String)
expect id path [] = (id, path) ∷ []
expect id path ((k, p) ∷ rest) =
    let later = expect id path rest in if k == id then (id, path) ∷ rest else (k, p) ∷ later

unfoldable pub is_expected : List String → List String → EvidenceDocument → Option String → Bool
unfolding is_text
is_expected completed recheck d none = false
is_expected completed recheck d (some id) =
    not (d.name == "index.md" || d.name == "log.md")
    && is_text d.kind "evidence"
    && not (contains id completed && not (contains id recheck))

unfoldable pub expect_document :
    EvidenceDocument → Option String → List (String × String) → List (String × String)
unfolding expect
expect_document d none found = found
expect_document d (some id) found = expect id d.path found

unfoldable pub expected_evidence :
    List String
    → List String
    → List EvidenceDocument
    → List (String × String)
    → List (String × String)
unfolding is_expected expect_document
expected_evidence completed recheck [] found = found
expected_evidence completed recheck (d ∷ ds) found =
    expected_evidence completed recheck ds
      (if is_expected completed recheck d d.id then expect_document d d.id found else found)

unfoldable pub is_contract : Option Contract → Bool
is_contract none = false
is_contract (some c) = c.name == contract.name && nat_eq c.version contract.version

unfoldable pub is_queued_action : Option Current → Bool
unfolding is_text
is_queued_action none = false
is_queued_action (some c) =
    is_text c.stage "queued" && is_text c.status "pending" && is_some c.actor

-- `_valid_task_record`.
unfoldable pub valid_task_record : QueueTask → Bool
unfolding is_text is_contract is_queued_action
valid_task_record t =
    is_text t.kind "contract_task"
    && is_contract t.contract
    && is_queued_action t.current
    && is_some t.step_receipts
    && is_some t.transitions

unfoldable pub is_filled : Option String → Bool
is_filled none = false
is_filled (some s) = not (is_blank s)

-- A blocker is there, and some field of it is missing or blank.
unfoldable pub has_unusable_blocker : Blocker → Bool
unfolding is_filled
has_unusable_blocker no_blocker = false
has_unusable_blocker malformed = true
has_unusable_blocker (blocker b) =
    not (is_filled b.reason && is_filled b.reason_category && is_filled b.next_action)

unfoldable pub unblocked_task : QueueTask → String → QueueTask
unfolding append_step append_transition
unblocked_task t now =
    let u : QueueTask = record t { last_blocker = no_blocker; current = some queued_now } in
    append_transition (append_step u "blocker_repaired" none now) t.current queued_now
      "blocker_repaired" now

-- The front matter of a file that is there; `{}` where it does not parse.
unfoldable pub readable_task : File QueueTask → QueueTask
readable_task unreadable = empty_task
readable_task (parsed t) = t

pub record Counts : Type 0 where
  pub created : ℕ
  pub repaired : ℕ

-- One expected Evidence: the queue, and what is added to the counts.
unfoldable pub refresh_item :
    Queue
    → String
    → String
    → String
    → String
    → Option (File QueueTask)
    → Result CurationError (Queue × Counts)
unfolding enqueue_unlocked is_text valid_task_record has_unusable_blocker unblocked_task
    readable_task
refresh_item q id path target now none = do
  (q', name) ← enqueue_unlocked q id path false now
  ok (q', record { created = 1; repaired = 0 })
refresh_item q id path target now (some f) =
    let t = readable_task f in
    if not (is_text t.evidence_id id)
      || not (is_text t.evidence_path path)
      || not (valid_task_record t)
    then (do
      (q', name) ← enqueue_unlocked q id path false now
      ok (q', record { created = 0; repaired = 1 }))
    else if has_unusable_blocker t.last_blocker
    then ok (write target (parsed (unblocked_task t now)) q, record { created = 0; repaired = 1 })
    else ok (q, record { created = 0; repaired = 0 })

abbrev pub Refreshed : Type 0
Refreshed = Queue × Result CurationError Counts

unfoldable pub and_then :
    Queue → Result CurationError (Queue × Counts) → (Queue → Refreshed) → Refreshed
and_then q (err e) rest = (q, err e)
and_then q (ok (q', c)) rest =
    let (q'', later) = rest q' in
    (
      q'',
      later >>= λ d.
          ok (record { created = c.created + d.created; repaired = c.repaired + d.repaired }),
    )

-- The loop over the expected Evidence.
unfoldable pub refresh_items : List (String × String) → String → Queue → Refreshed
unfolding refresh_item and_then
refresh_items [] now q = (q, ok (record { created = 0; repaired = 0 }))
refresh_items ((id, path) ∷ rest) now q =
    and_then q (do target ← item_name id; refresh_item q id path target now (read target q))
      (refresh_items rest now)

-- `{_item_path(knowledge_root, evidence_id) for evidence_id in expected}`.
unfoldable pub targets_of : List (String × String) → Result CurationError (List String)
targets_of [] = ok []
targets_of ((id, path) ∷ rest) = do
  target ← item_name id
  later ← targets_of rest
  ok (target ∷ later)

unfoldable pub remove_all : List String → Queue → Queue
remove_all [] q = q
remove_all (name ∷ names) q = remove_all names (remove name q)

pub record RefreshReport : Type 0 where
  pub pending_count : ℕ
  pub created_count : ℕ
  pub repaired_count : ℕ
  pub removed_count : ℕ

-- The end of the refresh: the files that were there and are not expected go.
unfoldable pub drop_stale :
    List (String × String) → List String → Refreshed → Queue × Result CurationError RefreshReport
unfolding remove_all
drop_stale expected stale (q, err e) = (q, err e)
drop_stale expected stale (q, ok c) = (
  remove_all stale q,
  ok (record {
    pending_count = length expected;
    created_count = c.created;
    repaired_count = c.repaired;
    removed_count = length stale;
  }),
)

-- `refresh_curation_queue`, behind the scan of the knowledge directory.
unfoldable pub refresh_expected :
    List (String × String)
    → String
    → Queue
    → Result CurationError (List String)
    → Queue × Result CurationError RefreshReport
unfolding drop_stale refresh_items
refresh_expected expected now q (err e) = (q, err e)
refresh_expected expected now q (ok targets) =
    drop_stale expected (select (λ name. not (contains name targets)) (file_names q))
      (refresh_items expected now q)

unfoldable pub refresh_curation_queue :
    Queue
    → List String
    → List EvidenceDocument
    → String
    → Queue × Result CurationError RefreshReport
unfolding refresh_expected recheck_ids expected_evidence targets_of
refresh_curation_queue q completed documents now =
    let expected = expected_evidence completed (recheck_ids q) documents [] in
    refresh_expected expected now q (targets_of expected)
