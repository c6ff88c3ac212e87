-- ===== src/Inbox/Transitions.antt =====
-- How the operations of inbox_review_queue.py change a task.
use circled_wiki.Base.{
  String, Bool, Option, none, some, List, [], ◌∷◌, map, Fields, object, strip, all, contains,
  if◌then◌else◌,
}
use circled_wiki.Inbox.Model.{ReviewState, Requirement, Decision, Escalation, ReviewTask}
use circled_wiki.Inbox.Contracts.{Reason}
use circled_wiki.Inbox.Tasks.{add_transition, add_step, move, has_reason, is_settled}

pub record Escalated : Type 0 where
  pub actor : String
  pub question : String
  pub missing_procedure : String
  pub safe_next_action : String
  pub facts : List String
  pub hypotheses : List String
  pub pii_scan_receipt : Fields

unfoldable pub escalation_of : Escalated → String → Escalation
escalation_of e now = record {
  question = strip e.question;
  blocked_step = "sensitivity_review";
  missing_procedure = strip e.missing_procedure;
  safe_next_action = strip e.safe_next_action;
  facts = map strip e.facts;
  hypotheses = map strip e.hypotheses;
  pii_scan = object e.pii_scan_receipt;
  escalated_by = strip e.actor;
  escalated_at = now;
}

-- The first requirement of the reason is changed in place.
unfoldable pub update_first :
    (Requirement → Bool) → (Requirement → Requirement) → List Requirement → List Requirement
update_first p f [] = []
update_first p f (r ∷ rs) = let rest = update_first p f rs in if p r then f r ∷ rs else r ∷ rest

unfoldable pub escalated_requirement : Escalated → String → Requirement → Requirement
unfolding escalation_of
escalated_requirement e now r = record r {
  status = "awaiting_user";
  escalation = some (escalation_of e now);
}

unfoldable pub user_decision : Escalated → ReviewState
user_decision e = record {
  stage = "sensitivity_review";
  status = "awaiting_user";
  actor = "user";
  next_action = strip e.safe_next_action;
}

unfoldable pub escalated : Escalated → String → ReviewTask → ReviewTask
unfolding update_first escalated_requirement user_decision move has_reason
escalated e now t =
    move
      (record t {
        requirements =
            update_first (has_reason "sensitivity_review_required") (escalated_requirement e now)
              t.requirements;
      })
      (user_decision e) "sensitivity_user_decision_required" now

-- Every requirement of the reason is resolved.
unfoldable pub settle : String → Decision → Requirement → Requirement
unfolding has_reason
settle reason d r =
    if has_reason reason r then record r { status = "resolved"; decision = some d } else r

unfoldable pub stage_or : String → Option ReviewState → String
stage_or default none = default
stage_or default (some c) = c.stage

unfoldable pub resolution_status : List Requirement → String
unfolding is_settled
resolution_status rs = if all is_settled rs then "reprocessing" else "awaiting_user"

unfoldable pub settled_state : ReviewTask → List Requirement → Reason → String → ReviewState
unfolding stage_or resolution_status
settled_state t rs policy actor = record {
  stage = stage_or "inbox_review" t.current;
  status = resolution_status rs;
  actor = actor;
  next_action = if all is_settled rs then policy.resolved_next_action else policy.requested_action;
}

unfoldable pub settled : ReviewTask → String → Decision → Reason → String → ReviewTask
unfolding settle settled_state move
settled t reason d policy now =
    let rs = map (settle reason d) t.requirements in
    move (record t { requirements = rs }) (settled_state t rs policy d.decided_by) d.decision now

unfoldable pub status_or : String → Option ReviewState → String
status_or default none = default
status_or default (some c) = c.status

-- The reasons whose decisions expire with the candidate.
unfoldable pub expires : Requirement → Bool
expires r = contains r.reason_code (
    "sensitivity_review_required" ∷ "data_protection_required" ∷ "pii_scan_required"
    ∷ "pii_needs_review" ∷ [])

unfoldable pub expire : Requirement → Requirement
unfolding expires
expire r =
    if expires r then record r { status = "pending"; decision = none; escalation = none } else r

unfoldable pub expired_state : String → ReviewState
expired_state actor = record {
  stage = "sensitivity_review";
  status = "pending";
  actor = actor;
  next_action = "review_data_protection";
}

unfoldable pub expired : ReviewTask → String → String → ReviewTask
unfolding expire expired_state move
expired t actor now =
    move (record t { requirements = map expire t.requirements }) (expired_state actor)
      "data_protection_expired" now

abbrev pub retry_state : ReviewState
retry_state = record {
  stage = "accepted";
  status = "pending";
  actor = "evidence-ingest-agent";
  next_action = "retry_evidence_ingest";
}

unfoldable pub retried : ReviewTask → String → String → ReviewTask
unfolding add_transition add_step
retried t reason now =
    add_step
      (add_transition (record t { evidence_id = none; resolved_at = none }) retry_state
        "evidence_ingest_retry" now)
      "accepted" "pending" "evidence_ingest_retry" (some reason) now

unfoldable pub stripped_state : ReviewState → ReviewState
stripped_state c = record {
  stage = strip c.stage;
  status = strip c.status;
  actor = strip c.actor;
  next_action = strip c.next_action;
}
