-- ===== src/Inbox/Reads.antt =====
-- What `get_inbox_review` of inbox_review_queue.py finds, and finds again behind a write.
use circled_wiki.Base.{
  String, Bool, ◌≡◌, refl, inl, inr, Option, none, some, List, [], ◌∷◌, map, ◌⊎◌, null, File,
  parsed, unreadable, read, write, read-write, eq_refl, ok, >>=-eq-ok, >>-eq-ok, subst-ok,
}
use circled_wiki.Inbox.Model.{Requirement, ReviewTask, ReviewQueue}
use circled_wiki.Inbox.Tasks.{
  item_path, parse_task, scan_of, check_scan, check_scans, checked_review, get_inbox_review,
}

pub parse_task_inverse :
    (f : Option (File ReviewTask)) (t : ReviewTask)
    → parse_task f ≡ ok (some t)
    → f ≡ some (parsed t)
unfolding parse_task
parse_task_inverse none t e = absurd (cc)
parse_task_inverse (some unreadable) t e = absurd (cc)
parse_task_inverse (some (parsed s)) t e = cc (e)

abbrev task_or : ReviewTask → Option ReviewTask → ReviewTask
task_or s none = s
task_or s (some t) = t

module _ (is_iso : String → Bool) where
  abbrev pub IsFound : ReviewQueue → String → String → ReviewTask → Type 0
  IsFound queue intake_id name t =
      (item_path intake_id ≡ ok name)
      × (read name queue ≡ some (parsed t))
      × (check_scans is_iso t.requirements ≡ ok tt)

  checked_inverse :
      (n name : String) (found : Option ReviewTask) (t : ReviewTask)
      → checked_review is_iso n found ≡ ok (name, some t)
      → (n ≡ name) × (found ≡ some t) × (check_scans is_iso t.requirements ≡ ok tt)
  unfolding checked_review
  checked_inverse n name none t e = absurd (cc)
  checked_inverse n name (some s) t e =
      let (scans, e1) = >>-eq-ok (check_scans is_iso s.requirements) _ e in
      subst-ok
        (λ (x : String × Option ReviewTask).
          (n ≡ x.0) × (some s ≡ x.1) × (check_scans is_iso (task_or s x.1).requirements ≡ ok tt))
        e1 (refl, refl, scans)

  -- A task that was read has a file under the name of its id, and valid scan receipts.
  pub get_inbox_review-IsFound :
      (queue : ReviewQueue) (intake_id name : String) (t : ReviewTask)
      → get_inbox_review is_iso queue intake_id ≡ ok (name, some t)
      → IsFound queue intake_id name t
  unfolding get_inbox_review
  get_inbox_review-IsFound queue intake_id name t e =
      let (n, path, e1) = >>=-eq-ok (item_path intake_id) _ e in
      let (found, there, e2) = >>=-eq-ok (parse_task (read n queue)) _ e1 in
      let (same, is_there, scans) = checked_inverse n name found t e2 in
      let at : parse_task (read name queue) ≡ ok (some t) = cc (same, there, is_there) in
      (cc (path, same), parse_task_inverse (read name queue) t at, scans)

  pub get_inbox_review-write :
      (queue : ReviewQueue) (intake_id name : String) (t : ReviewTask)
      → item_path intake_id ≡ ok name
      → check_scans is_iso t.requirements ≡ ok tt
      → get_inbox_review is_iso (write name (parsed t) queue) intake_id ≡ ok (name, some t)
  unfolding get_inbox_review checked_review parse_task
  get_inbox_review-write queue intake_id name t path scans =
      rw path (rw (read-write name name (parsed t) queue, eq_refl name) (rw scans refl))

  pub check_scans-map :
      (f : Requirement → Requirement)
      → ((r : Requirement) → (scan_of (f r) ≡ scan_of r) ⊎ (scan_of (f r) ≡ null))
      → (rs : List Requirement) → check_scans is_iso rs ≡ ok tt
      → check_scans is_iso (map f rs) ≡ ok tt
  unfolding check_scans check_scan
  check_scans-map f keeps [] e = refl
  check_scans-map f keeps (r ∷ rs) e =
      let (here, rest) = >>-eq-ok (check_scan is_iso (scan_of r)) _ e in
      let later = check_scans-map f keeps rs rest in
      elim (keeps r) [ inl same ↦ rw (same, here) later | inr gone ↦ rw gone later ]
