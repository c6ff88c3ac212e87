-- ===== src/Inbox/Abstract.antt =====
-- What the tasks of inbox_review_queue.py promise, without their histories, receipts and texts:
-- which reasons are resolved, and whether the user is waited for.
use circled_wiki.Base.{
  String, Bool, true, false, not, ◌&&◌, List, [], ◌∷◌, ◌++◌, ◌==◌, map, all, any, non_empty,
  contains, strip, if◌then◌else◌,
}
use circled_wiki.Inbox.Model.{ReviewState, Decision, ReviewTask, Requirement}
use circled_wiki.Inbox.Contracts.{Reason, is_user_only}
use circled_wiki.Inbox.Tasks.{enqueued, move, is_settled, has_status}
use circled_wiki.Inbox.Transitions.{Escalated, escalated, settled, expired, retried, stripped_state}

-- A change of one task, with what the code's function for it takes.
pub data TaskStep : Type 0 where
  require : String → String → String → Reason → String → TaskStep
  escalate : Escalated → String → TaskStep
  settle_reason : String → Decision → Reason → String → TaskStep
  expire_decisions : String → String → TaskStep
  advance_state : ReviewState → String → String → TaskStep
  retry : String → String → TaskStep

unfoldable pub apply_step : TaskStep → ReviewTask → ReviewTask
unfolding enqueued escalated settled expired retried move stripped_state
apply_step (require id path reason policy now) t = enqueued t id path reason policy now
apply_step (escalate e now) t = escalated e now t
apply_step (settle_reason reason d policy now) t = settled t reason d policy now
apply_step (expire_decisions actor now) t = expired t actor now
apply_step (advance_state next outcome now) t = move t (stripped_state next) (strip outcome) now
apply_step (retry reason now) t = retried t reason now

unfoldable pub run : List TaskStep → ReviewTask → ReviewTask
unfolding apply_step
run [] t = t
run (s ∷ ss) t = run ss (apply_step s t)

-- The reasons with whether they are resolved, and whether the user is waited for.
pub record Board : Type 0 where
  pub reasons : List (String × Bool)
  pub waits : Bool

abbrev pub mark : Requirement → String × Bool
mark r = (r.reason_code, is_settled r)

unfoldable pub board_of : ReviewTask → Board
unfolding has_status
board_of t = record {
  reasons = map mark t.requirements;
  waits = has_status "awaiting_user" t.current;
}

abbrev pub names : String → String × Bool → Bool
names reason entry = entry.0 == reason

unfoldable pub set_first : String → List (String × Bool) → List (String × Bool)
set_first reason [] = []
set_first reason (entry ∷ entries) =
    let rest = set_first reason entries in
    if names reason entry then (entry.0, false) ∷ entries else entry ∷ rest

abbrev pub close_reason : String → String × Bool → String × Bool
close_reason reason entry = if names reason entry then (entry.0, true) else entry

abbrev pub open_expiring : String × Bool → String × Bool
open_expiring entry =
    if contains entry.0 (
      "sensitivity_review_required" ∷ "data_protection_required" ∷ "pii_scan_required"
      ∷ "pii_needs_review" ∷ [])
    then (entry.0, false)
    else entry

abbrev pub is_closed_entry : String × Bool → Bool
is_closed_entry entry = entry.1

-- The promise of each step.
unfoldable pub board_step : TaskStep → Board → Board
unfolding set_first
board_step (require id path reason policy now) b = record {
  reasons = if any (names reason) b.reasons then b.reasons else b.reasons ++ (reason, false) ∷ [];
  waits = is_user_only reason;
}
board_step (escalate e now) b = record {
  reasons = set_first "sensitivity_review_required" b.reasons;
  waits = true;
}
board_step (settle_reason reason d policy now) b =
    let reasons = map (close_reason reason) b.reasons in
    record { reasons = reasons; waits = not (all is_closed_entry reasons) }
board_step (expire_decisions actor now) b = record {
  reasons = map open_expiring b.reasons;
  waits = false;
}
board_step (advance_state next outcome now) b = record b {
  waits = strip next.status == "awaiting_user";
}
board_step (retry reason now) b = record b { waits = false }

unfoldable pub replay : List TaskStep → Board → Board
unfolding board_step
replay [] b = b
replay (s ∷ ss) b = replay ss (board_step s b)

-- All reasons are resolved, and there is one.
unfoldable pub is_completable : Board → Bool
is_completable b = non_empty b.reasons && all is_closed_entry b.reasons
