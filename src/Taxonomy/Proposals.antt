-- ===== src/Taxonomy/Proposals.antt =====
-- `record_taxonomy_change_proposal` and `require_reclassification_approval` of
-- taxonomy_proposals.py, over the directory `taxonomy-proposals` and the notification inbox. The
-- fresh UUIDs and the time are arguments. Recording returns its state beside an error, since what it
-- wrote before stays written.
use Prim.Native.String.{◌++◌ as text_append}
use circled_wiki.Base.{
  String, ◌==◌, Bool, true, false, not, ◌&&◌, ◌||◌, Option, none, some, List, [], ◌∷◌, length,
  non_empty, if◌then◌else◌, is_blank, strip, stripped_texts, sorted_set, contains, decimal,
  Directory, File, parsed, unreadable, write, Result, ok, err, ◌>>=◌, ◌>>◌, raise_if,
}
use circled_wiki.Notifications.Model.{Notification, Workspace, Request, NotificationError}
use circled_wiki.Notifications.Operations.{
  record_user_notification, require_acknowledged_user_notification,
}
use circled_wiki.Curation.Contract.{is_safe}

pub record Proposal : Type 0 where
  pub proposal_id : String
  pub status : String
  pub evidence_id : String
  pub domain : String
  pub bundle_type : String
  pub rationale : String
  pub impacted_bundle_ids : List String
  pub dedupe_key : String
  pub created_at : String
  -- A notification, and whether it was reused.
  pub user_notification : Option (Notification × Bool)
  pub reclassification_notification : Option (Notification × Bool)

pub record State : Type 0 where
  pub workspace : Workspace
  pub proposals : Directory (File Proposal)

pub record Route : Type 0 where
  pub evidence_id : String
  pub domain : String
  pub bundle_type : String
  pub rationale : String
  pub impacted_bundle_ids : List String

-- The fresh UUIDs of the proposal and of its two notifications.
pub record Fresh : Type 0 where
  pub proposal : String
  pub notice : String
  pub impact_notice : String

pub data TaxonomyError : Type 0 where
  blank_argument unsafe_identifier invalid_proposal wrong_target not_impacted : TaxonomyError
  notification : NotificationError → TaxonomyError

unfoldable pub dedupe_key_of : Route → String
dedupe_key_of r = text_append "taxonomy_route:" (
    text_append r.evidence_id
      (text_append ":" (text_append r.domain (text_append ":" r.bundle_type))))

-- The loop that looks for a proposal that awaits the user.
unfoldable pub find_proposal :
    String → Directory (File Proposal) → Result TaxonomyError (Option Proposal)
find_proposal key [] = ok none
find_proposal key ((k, unreadable) ∷ files) = err invalid_proposal
find_proposal key ((k, parsed p) ∷ files) =
    let rest = find_proposal key files in
    if p.dedupe_key == key && p.status == "awaiting_user" then ok (some p) else rest

unfoldable pub proposal_name : String → String
proposal_name uuid = text_append "proposal-" uuid

-- `path.relative_to(knowledge_root.parent).as_posix()` of a proposal.
unfoldable pub resource_of : String → String
resource_of name = text_append "workspace/taxonomy-proposals/" (text_append name ".json")

unfoldable pub new_proposal : Route → String → String → Proposal
unfolding proposal_name dedupe_key_of
new_proposal r uuid now = record {
  proposal_id = proposal_name uuid;
  status = "awaiting_user";
  evidence_id = strip r.evidence_id;
  domain = r.domain;
  bundle_type = r.bundle_type;
  rationale = strip r.rationale;
  impacted_bundle_ids = sorted_set (stripped_texts r.impacted_bundle_ids);
  dedupe_key = dedupe_key_of r;
  created_at = now;
  user_notification = none;
  reclassification_notification = none;
}

unfoldable pub change_notice : Proposal → Route → Request
unfolding resource_of
change_notice p r = record {
  event = "taxonomy_change_proposed";
  priority = "action_required";
  title = "Curation taxonomy 변경 제안이 있습니다";
  summary = text_append "새 분류 경로(" (
      text_append r.domain (
        text_append "/" (
          text_append r.bundle_type (
            text_append ")에 대한 승인 검토가 필요합니다. 기존 Bundle 영향 후보는 "
              (text_append (decimal (length p.impacted_bundle_ids)) "건입니다.")))));
  next_action = "taxonomy 제안과 영향 목록을 검토한 뒤 승인하거나 보완을 요청하세요.";
  resource_ref = resource_of p.proposal_id;
  approval_required = true;
  dedupe_key = text_append "taxonomy_change_proposed:" p.dedupe_key;
  related_evidence_id = r.evidence_id;
  related_bundle_id = "";
  taxonomy_revision = "";
}

unfoldable pub impact_notice_of : Proposal → Route → Request
unfolding resource_of
impact_notice_of p r = record {
  event = "reclassification_ready";
  priority = "attention";
  title = "기존 Bundle 재분류 영향 목록이 준비되었습니다";
  summary =
      text_append "taxonomy 변경 제안에 따라 검토할 기존 Bundle이 "
        (text_append (decimal (length p.impacted_bundle_ids)) "건 있습니다.");
  next_action = "알림을 확인한 뒤, 필요한 Bundle에 대해서만 재분류를 명시적으로 요청하세요.";
  resource_ref = resource_of p.proposal_id;
  approval_required = true;
  dedupe_key = text_append "reclassification_ready:" p.dedupe_key;
  related_evidence_id = r.evidence_id;
  related_bundle_id = "";
  taxonomy_revision = "";
}

unfoldable pub put_proposal : State → Proposal → State
put_proposal s p = record s { proposals = write p.proposal_id (parsed p) s.proposals }

-- The state, and the proposal with the flag `reused`.
abbrev pub Proposed : Type 0
Proposed = State × Result TaxonomyError (Proposal × Bool)

unfoldable pub with_impact_notice :
    State → Proposal → Result NotificationError (Workspace × Notification × Bool) → Proposed
unfolding put_proposal
with_impact_notice s p (err e) = (s, err (notification e))
with_impact_notice s p (ok (w, n, reused)) =
    let q : Proposal = record p { reclassification_notification = some (n, reused) } in
    (put_proposal (record s { workspace = w }) q, ok (q, false))

unfoldable pub with_notice :
    State
    → Proposal
    → Route
    → Fresh
    → String
    → Result NotificationError (Workspace × Notification × Bool)
    → Proposed
unfolding put_proposal with_impact_notice impact_notice_of
with_notice s p r f now (err e) = (s, err (notification e))
with_notice s p r f now (ok (w, n, reused)) =
    let q : Proposal = record p { user_notification = some (n, reused) } in
    let s' = put_proposal (record s { workspace = w }) q in
    if non_empty p.impacted_bundle_ids
    then with_impact_notice s' q
        (record_user_notification w (impact_notice_of p r) f.impact_notice now)
    else (s', ok (q, false))

unfoldable pub propose :
    State → Route → Fresh → String → Result TaxonomyError (Option Proposal) → Proposed
unfolding new_proposal put_proposal with_notice change_notice
propose s r f now (err e) = (s, err e)
propose s r f now (ok (some p)) = (s, ok (p, true))
propose s r f now (ok none) =
    let p = new_proposal r f.proposal now in
    with_notice (put_proposal s p) p r f now
      (record_user_notification s.workspace (change_notice p r) f.notice now)

unfoldable pub check_route : Route → Result TaxonomyError (Unit {0})
unfolding is_safe
check_route r = do
  raise_if (is_blank r.evidence_id || is_blank r.rationale) blank_argument
  raise_if (not (is_safe r.domain) || not (is_safe r.bundle_type)) unsafe_identifier

unfoldable pub record_taxonomy_change_proposal : State → Route → Fresh → String → Proposed
unfolding check_route find_proposal propose dedupe_key_of
record_taxonomy_change_proposal s r f now =
    propose s r f now (check_route r >> find_proposal (dedupe_key_of r) s.proposals)

-- The proposal at a resource path: a path that is no file of the directory, or one that does not
-- parse, raises.
unfoldable pub proposal_at : String → Directory (File Proposal) → Result TaxonomyError Proposal
unfolding resource_of
proposal_at ref [] = err invalid_proposal
proposal_at ref ((k, f) ∷ files) =
    let rest = proposal_at ref files in if resource_of k == ref then readable f else rest
  where
    readable : File Proposal → Result TaxonomyError Proposal
    readable unreadable = err invalid_proposal
    readable (parsed p) = ok p

unfoldable pub as_taxonomy {ℓ} : {A : Type ℓ} → Result NotificationError A → Result TaxonomyError A
as_taxonomy (err e) = err (notification e)
as_taxonomy (ok a) = ok a

unfoldable pub require_reclassification_approval :
    State → String → String → String → String → Result TaxonomyError Proposal
unfolding proposal_at as_taxonomy
require_reclassification_approval s id bundle_id domain bundle_type = do
  n ← as_taxonomy (require_acknowledged_user_notification s.workspace id "reclassification_ready")
  p ← proposal_at n.resource_ref s.proposals
  raise_if (not (p.domain == domain) || not (p.bundle_type == bundle_type)) wrong_target
  raise_if (not (contains bundle_id p.impacted_bundle_ids)) not_impacted
  ok p
