-- ===== src/Inbox/Refinement.antt =====
-- The tasks of inbox_review_queue.py keep the promise of Inbox/Abstract.
use circled_wiki.Base.{
  String, Bool, false, not, ◌≡◌, refl, ap, sym, ◌∙◌, inl, inr, some, List, [], ◌∷◌, ◌++◌, ◌==◌, map,
  all, any, non_empty, Bool-cases, if◌then◌else◌,
}
use circled_wiki.Inbox.Model.{Decision, ReviewTask, Requirement}
use circled_wiki.Inbox.Contracts.{Reason, is_user_only}
use circled_wiki.Inbox.Tasks.{
  enqueued, move, add_transition, add_step, is_settled, has_status, has_reason, with_requirement,
  new_requirement, requested, all_settled,
}
use circled_wiki.Inbox.Transitions.{
  Escalated, escalated, escalated_requirement, update_first, user_decision, settle, settled,
  settled_state, resolution_status, expire, expires, expired, expired_state, retried,
  stripped_state,
}
use circled_wiki.Inbox.Abstract.{
  TaskStep, require, escalate, settle_reason, expire_decisions, advance_state, retry, apply_step,
  run, Board, mark, board_of, names, set_first, close_reason, open_expiring, is_closed_entry,
  board_step, replay, is_completable,
}

abbrev marks : List Requirement → List (String × Bool)
marks rs = map mark rs

any-marks : (c : String) (rs : List Requirement) → any (names c) (marks rs) ≡ any (has_reason c) rs
unfolding has_reason
any-marks c [] = refl
any-marks c (r ∷ rs) = rw (any-marks c rs) refl

marks-append : (rs ss : List Requirement) → marks (rs ++ ss) ≡ marks rs ++ marks ss
marks-append [] ss = refl
marks-append (r ∷ rs) ss = rw (marks-append rs ss) refl

new_requirement-is_settled :
    (c : String) (policy : Reason) → is_settled (new_requirement c policy) ≡ false
unfolding new_requirement is_settled
new_requirement-is_settled c policy = elim (Bool-cases (is_user_only c)) [
  | inl y ↦ rw y refl
  | inr n ↦ rw n refl
]

requested-waits :
    (c : String) (policy : Reason)
    → ((requested c policy).status == "awaiting_user") ≡ is_user_only c
unfolding requested
requested-waits c policy = elim (Bool-cases (is_user_only c)) [
  | inl y ↦ rw y refl
  | inr n ↦ rw n refl
]

marks-with_requirement :
    (c : String) (policy : Reason) (rs : List Requirement)
    → marks (with_requirement c policy rs)
      ≡ (if any (names c) (marks rs) then marks rs else marks rs ++ (c, false) ∷ [])
unfolding with_requirement
marks-with_requirement c policy rs = elim (Bool-cases (any (has_reason c) rs)) [
  | inl there ↦ rw (any-marks c rs, there) refl
  | inr new ↦
      rw (any-marks c rs, new, marks-append rs (new_requirement c policy ∷ []))
        (rw (new_requirement-is_settled c policy) refl)
]

marks-update_first :
    (e : Escalated) (now c : String) (rs : List Requirement)
    → marks (update_first (has_reason c) (escalated_requirement e now) rs) ≡ set_first c (marks rs)
unfolding update_first escalated_requirement set_first has_reason is_settled
marks-update_first e now c [] = refl
marks-update_first e now c (r ∷ rs) = elim (Bool-cases (r.reason_code == c)) [
  | inl hit ↦ rw hit refl
  | inr miss ↦ rw miss (rw (marks-update_first e now c rs) refl)
]

marks-settle :
    (c : String) (d : Decision) (rs : List Requirement)
    → marks (map (settle c d) rs) ≡ map (close_reason c) (marks rs)
unfolding settle has_reason is_settled
marks-settle c d [] = refl
marks-settle c d (r ∷ rs) = elim (Bool-cases (r.reason_code == c)) [
  | inl hit ↦ rw hit (rw (marks-settle c d rs) refl)
  | inr miss ↦ rw miss (rw (marks-settle c d rs) refl)
]

marks-expire : (rs : List Requirement) → marks (map expire rs) ≡ map open_expiring (marks rs)
unfolding expire expires is_settled
marks-expire [] = refl
marks-expire (r ∷ rs) = elim (Bool-cases (expires r)) [
  | inl hit ↦ rw hit (rw (marks-expire rs) refl)
  | inr miss ↦ rw miss (rw (marks-expire rs) refl)
]

all-marks : (rs : List Requirement) → all is_closed_entry (marks rs) ≡ all is_settled rs
all-marks [] = refl
all-marks (r ∷ rs) = rw (all-marks rs) refl

waits-resolution_status :
    (rs : List Requirement) → (resolution_status rs == "awaiting_user") ≡ not (all is_settled rs)
unfolding resolution_status
waits-resolution_status rs = elim (Bool-cases (all is_settled rs)) [
  | inl y ↦ rw y refl
  | inr n ↦ rw n refl
]

abbrev board : List (String × Bool) → Bool → Board
board reasons waits = record { reasons = reasons; waits = waits }

board_eq : (rs ss : List (String × Bool)) (a b : Bool) → rs ≡ ss → a ≡ b → board rs a ≡ board ss b
board_eq rs ss a b e f = rw (e, f) refl

board_of-apply_step :
    (s : TaskStep) (t : ReviewTask) → board_of (apply_step s t) ≡ board_step s (board_of t)
unfolding board_of apply_step board_step has_status move add_transition add_step enqueued escalated
    settled expired retried stripped_state user_decision settled_state expired_state requested
board_of-apply_step (require id path reason policy now) t =
    board_eq _ _ _ _ (marks-with_requirement reason policy t.requirements)
      (requested-waits reason policy)
board_of-apply_step (escalate e now) t =
    rw (marks-update_first e now "sensitivity_review_required" t.requirements) refl
board_of-apply_step (settle_reason reason d policy now) t =
    board_eq _ _ _ _ (marks-settle reason d t.requirements) (
      waits-resolution_status (map (settle reason d) t.requirements)
      ∙ sym (
          ap not (
            ap (all is_closed_entry) (sym (marks-settle reason d t.requirements))
            ∙ all-marks (map (settle reason d) t.requirements))))
board_of-apply_step (expire_decisions actor now) t = rw (marks-expire t.requirements) refl
board_of-apply_step (advance_state next outcome now) t = refl
board_of-apply_step (retry reason now) t = refl

marks-non_empty : (rs : List Requirement) → non_empty (marks rs) ≡ non_empty rs
marks-non_empty [] = refl
marks-non_empty (r ∷ rs) = refl

completable : (t : ReviewTask) → all_settled (some t) ≡ is_completable (board_of t)
unfolding all_settled is_completable board_of
completable t = rw (marks-non_empty t.requirements, all-marks t.requirements) refl

-- Whatever changes a task goes through, its reasons, whether they are resolved, and whether the user
-- is waited for are those that the promise of each change gives, and the task counts as resolved
-- exactly when the promise says that it can be completed.
pub board_of-run :
    (steps : List TaskStep) (t : ReviewTask)
    → (board_of (run steps t) ≡ replay steps (board_of t))
      × (all_settled (some (run steps t)) ≡ is_completable (replay steps (board_of t)))
unfolding run replay
board_of-run [] t = (refl, completable t)
board_of-run (s ∷ ss) t =
    let (same, counts) = board_of-run ss (apply_step s t) in
    let step = ap (replay ss) (board_of-apply_step s t) in
    (same ∙ step, counts ∙ ap is_completable step)
