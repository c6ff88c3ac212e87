-- ===== src/Taxonomy/Samples.antt =====
-- A test of the taxonomy proposals, and their property at a concrete input.
use circled_wiki.Base.{
  digit_text, String, ◌≡◌, refl, Bool, true, some, [], ◌∷◌, contains, parsed, read, write, is_blank,
  strip, is_file_name, stripped_texts, sorted_set, decimal, Result, ok, err,
}
use circled_wiki.Notifications.Model.{Notification, Acknowledgement, Workspace, NotificationError}
use circled_wiki.Notifications.Operations.{
  acknowledgement, record_user_notification, require_acknowledged_user_notification,
  acknowledge_user_notification,
}
use circled_wiki.Curation.Contract.{is_safe}
use circled_wiki.Taxonomy.Proposals.{
  new_proposal, Proposal, State, Route, TaxonomyError, Proposed, proposal_at,
  record_taxonomy_change_proposal, require_reclassification_approval,
}
use circled_wiki.Taxonomy.Approvals.{reclassification_in_scope}

abbrev no_state : State
no_state = record { workspace = record { inbox = []; acknowledgements = [] }; proposals = [] }

abbrev route : Route
route = record {
  evidence_id = "evidence/1";
  domain = "sales";
  bundle_type = "guide";
  rationale = "Prices moved";
  impacted_bundle_ids = "bundle/2" ∷ "bundle/1" ∷ [];
}

abbrev proposed : Proposed
proposed =
    record_taxonomy_change_proposal no_state route
      (record { proposal = "1"; notice = "2"; impact_notice = "3" }) "t0"

abbrev notice_id : String
notice_id = "notification-3"

abbrev acknowledged_in :
    State → Result NotificationError (Workspace × Acknowledgement × Bool) → State
acknowledged_in s (err e) = s
acknowledged_in s (ok (w, a, b)) = record s { workspace = w }

abbrev after : State
after =
    acknowledged_in proposed.0
      (acknowledge_user_notification proposed.0.workspace notice_id "ann" "t1")

abbrev approval : Result TaxonomyError Proposal
approval = require_reclassification_approval after notice_id "bundle/1" "sales" "guide"

abbrev approved_in : Result TaxonomyError Proposal → Proposal
approved_in (ok p) = p
approved_in (err e) = new_proposal route "" ""

approval_ok : approval ≡ ok (approved_in approval)
unfolding record_taxonomy_change_proposal require_reclassification_approval record_user_notification
    acknowledge_user_notification acknowledgement is_safe is_blank strip contains read write
    is_file_name stripped_texts sorted_set decimal require_acknowledged_user_notification digit_text
approval_ok = refl

reclassification_in_scope_example :
    (n : Notification) × (read notice_id after.workspace.inbox ≡ some (parsed n))
    × (n.event ≡ "reclassification_ready")
    × (a : Acknowledgement) × (acknowledgement after.workspace notice_id ≡ ok (some a))
    × (proposal_at n.resource_ref after.proposals ≡ ok (approved_in approval))
    × ((approved_in approval).domain ≡ "sales")
    × ((approved_in approval).bundle_type ≡ "guide")
    × (contains "bundle/1" (approved_in approval).impacted_bundle_ids ≡ true)
reclassification_in_scope_example =
    reclassification_in_scope after notice_id "bundle/1" "sales" "guide" (approved_in approval)
      approval_ok
