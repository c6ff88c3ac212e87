-- ===== src/Taxonomy/Approvals.antt =====
-- What an approved reclassification rests on: taxonomy_proposals.py, and the acknowledgement in
-- notification_store.py.
use circled_wiki.Base.{
  String, ◌==◌, ◌≡◌, refl, true, not, ◌||◌, some, arith, contains, parsed, read, eq_iff, Result, ok,
  err, >>=-eq-ok, >>-eq-ok, subst-ok, raise_if->>-eq-ok, or_raise->>=-eq-ok,
}
use circled_wiki.Notifications.Model.{
  Notification, Acknowledgement, Workspace, NotificationError, unsupported_event,
  wrong_notification, not_acknowledged,
}
use circled_wiki.Notifications.Operations.{
  events, acknowledgement, check_id, read_json, has_id, require_acknowledged_user_notification,
}
use circled_wiki.Notifications.Answers.{read_json-eq-ok}
use circled_wiki.Taxonomy.Proposals.{
  Proposal, State, wrong_target, not_impacted, proposal_at, as_taxonomy,
  require_reclassification_approval,
}

as_taxonomy-eq-ok :
    {A : Type 0} (m : Result NotificationError A) (a : A) → as_taxonomy m ≡ ok a → m ≡ ok a
unfolding as_taxonomy
as_taxonomy-eq-ok {A} (err e) a h = absurd (cc)
as_taxonomy-eq-ok {A} (ok b) a h =
    subst-ok (λ x. ◌≡◌ {A = Result NotificationError A} (ok b) (ok x)) h refl

required_inverse :
    (w : Workspace) (id event : String) (n : Notification)
    → require_acknowledged_user_notification w id event ≡ ok n
    → (read id w.inbox ≡ some (parsed n))
      × (n.event ≡ event)
      × (a : Acknowledgement) × (acknowledgement w id ≡ ok (some a))
unfolding require_acknowledged_user_notification
required_inverse w id event n e =
    let (_, e1) = raise_if->>-eq-ok (not (contains event events)) unsupported_event _ e in
    let (_, e2) = >>-eq-ok (check_id id) _ e1 in
    let (m, stored, e3) = >>=-eq-ok (read_json (read id w.inbox)) _ e2 in
    let (right, e4) =
      raise_if->>-eq-ok (not (has_id m.notification_id id) || not (m.event == event))
        wrong_notification _ e3 in
    let (o, known, e5) = >>=-eq-ok (acknowledgement w id) _ e4 in
    let (a, given, e6) = or_raise->>=-eq-ok o not_acknowledged _ e5 in
    let same : m.event ≡ event = ground (arith, eq_iff m.event event, right) in
    let facts =
      subst-ok (λ (x : Notification). (read id w.inbox ≡ some (parsed x)) × (x.event ≡ event)) e6
        (read_json-eq-ok (read id w.inbox) m stored, same) in
    (facts.0, facts.1, a, cc (known, given))

-- A reclassification is approved only behind an acknowledgement: the notification is stored in the
-- inbox, announces a reclassification and has an acknowledgement; the proposal is the one at its
-- resource path, its route is the target that was asked for, and the Bundle is on its impact list.
pub reclassification_in_scope :
    (s : State) (id bundle_id domain bundle_type : String) (p : Proposal)
    → require_reclassification_approval s id bundle_id domain bundle_type ≡ ok p
    → (n : Notification) × (read id s.workspace.inbox ≡ some (parsed n))
      × (n.event ≡ "reclassification_ready")
      × (a : Acknowledgement) × (acknowledgement s.workspace id ≡ ok (some a))
      × (proposal_at n.resource_ref s.proposals ≡ ok p)
      × (p.domain ≡ domain)
      × (p.bundle_type ≡ bundle_type)
      × (contains bundle_id p.impacted_bundle_ids ≡ true)
unfolding require_reclassification_approval
reclassification_in_scope s id bundle_id domain bundle_type p e =
    let (n, required, e1) =
      >>=-eq-ok
        (as_taxonomy
          (require_acknowledged_user_notification s.workspace id "reclassification_ready"))
        _ e in
    let (stored, event, a, known) =
      required_inverse s.workspace id "reclassification_ready" n (as_taxonomy-eq-ok _ n required) in
    let (q, found, e2) = >>=-eq-ok (proposal_at n.resource_ref s.proposals) _ e1 in
    let (target, e3) =
      raise_if->>-eq-ok (not (q.domain == domain) || not (q.bundle_type == bundle_type))
        wrong_target _ e2 in
    let (listed, e4) =
      raise_if->>-eq-ok (not (contains bundle_id q.impacted_bundle_ids)) not_impacted _ e3 in
    let is_domain : q.domain ≡ domain = ground (arith, eq_iff q.domain domain, target) in
    let is_kind : q.bundle_type ≡ bundle_type =
      ground (arith, eq_iff q.bundle_type bundle_type, target) in
    let is_listed : contains bundle_id q.impacted_bundle_ids ≡ true = ground (arith, listed) in
    let facts =
      subst-ok
        (λ (x : Proposal).
          (proposal_at n.resource_ref s.proposals ≡ ok x)
          × (x.domain ≡ domain)
          × (x.bundle_type ≡ bundle_type)
          × (contains bundle_id x.impacted_bundle_ids ≡ true))
        e4 (found, is_domain, is_kind, is_listed) in
    (n, stored, event, a, known, facts.0, facts.1, facts.2, facts.3)
