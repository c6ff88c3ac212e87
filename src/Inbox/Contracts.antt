-- ===== src/Inbox/Contracts.antt =====
-- The reasons for which the Inbox contract blocks a stage, and the categories of curation
-- blockers: the tables of inbox_contracts.py.
use circled_wiki.Base.{String, Bool, Option, none, some, [], ◌∷◌, ◌==◌, contains, if◌then◌else◌}

pub record Reason : Type 0 where
  pub current_stage : String
  pub requested_action : String
  pub resolved_next_action : String

unfoldable pub reason_at : String → Reason
reason_at stage = record {
  current_stage = stage;
  requested_action = "review_data_protection";
  resolved_next_action = "reprocess_inbox";
}

-- `SUPPORTED_INBOX_REVIEW_REQUIREMENTS`.
unfoldable pub supported : String → Option Reason
unfolding reason_at
supported reason =
    if reason == "sensitivity_review_required"
    then some (reason_at "sensitivity_review")
    else if contains reason
        ("pii_scan_required" ∷ "pii_needs_review" ∷ "data_protection_required" ∷ [])
    then some (reason_at "data_protection")
    else none

-- `USER_ONLY_REQUIREMENTS`.
unfoldable pub is_user_only : String → Bool
is_user_only reason = reason == "pii_needs_review"

pub record BlockerPolicy : Type 0 where
  pub category : String
  pub safe_next_action : String

-- The first category that lists the reason; the code raises for a reason without one.
unfoldable pub curation_blocker_policy : String → Option BlockerPolicy
curation_blocker_policy reason =
    if contains reason ("adapter_disabled" ∷ "adapter_command_empty" ∷ [])
    then some
        (record { category = "configuration"; safe_next_action = "configure_curation_adapter" })
    else if contains reason ("evidence_original_unavailable" ∷ [])
    then some
        (record { category = "evidence_source"; safe_next_action = "restore_evidence_original" })
    else if contains reason ("proposal_blocked" ∷ "contract_or_gate_rejected" ∷ [])
    then some (record { category = "gate"; safe_next_action = "resolve_curation_gate" })
    else if contains reason
        ("adapter_failed" ∷ "adapter_unavailable" ∷ "invalid_json" ∷ "timeout" ∷ [])
    then some (record { category = "adapter_execution"; safe_next_action = "retry_curation" })
    else none
