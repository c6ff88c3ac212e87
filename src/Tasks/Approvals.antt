-- ===== src/Tasks/Approvals.antt =====
-- Who may approve a step, and what becomes of an approval: `record_step` of workflow.py.
use mathlib.Core.Path.{subst}
use circled_wiki.Base.{
  String, ◌==◌, ◌≡◌, ◌≢◌, refl, sym, ap, true, false, ◌||◌, Option, none, some, List, [], ◌∷◌, inl,
  inr, Bool-cases, arith, All, is_blank, is_blank_lem, is_empty, strip, contains, stripped_texts,
  eq_iff, ok, >>=-eq-ok, >>-eq-ok, raise_if->>-eq-ok, or_raise->>=-eq-ok,
}
use circled_wiki.Tasks.Model.{
  approval, Step, Task, is_refresh, all_done, blank_step_field, invalid_step_status,
  RefreshDecision,
}
use circled_wiki.Tasks.Store.{TaskStore, read_task}
use circled_wiki.Tasks.Steps.{
  approved, Position, actors, check_kind, check_approver, check_refresh, check_reviewer,
  is_insufficient, parse_outcome, advance, record_step,
}
use circled_wiki.Tasks.Positions.{steps_of, locate_lem}
use circled_wiki.Tasks.Guards.{Passed, advance-Advanced}
use circled_wiki.Tasks.Soundness.{IsAuthorized}

-- Nobody among the actors of these steps is the one with this name.
abbrev pub NotAmong : String → List Step → Type 0
NotAmong name steps = All (λ (s : Step). strip s.actor ≢ name) steps

NotAmong-contains :
    (name : String) (steps : List Step)
    → is_empty name ≡ false
    → contains name (stripped_texts (actors steps)) ≡ false
    → NotAmong name steps
unfolding actors stripped_texts contains
NotAmong-contains name [] filled h = tt
NotAmong-contains name (s ∷ ss) filled h = elim (Bool-cases (is_blank s.actor)) [
  | inl blank ↦ (
    λ e. cc (ap is_empty e, is_blank_lem s.actor, blank, filled),
    NotAmong-contains name ss filled (rw blank at h),
  )
  | inr actor ↦
      let h' : (name == strip s.actor || contains name (stripped_texts (actors ss))) ≡ false =
        rw actor at h in
      (
        λ e. ground (arith, eq_iff name (strip s.actor), sym e),
        NotAmong-contains name ss filled (ground arith),
      )
]

approved_at :
    (t : Task) (p : Position) (actor : String)
    → is_blank actor ≡ false
    → Passed t p approved actor
    → (p.state.kind ≡ approval)
      × IsAuthorized actor p.state.approvers t.owners
      × NotAmong (strip actor) p.prior
unfolding check_kind check_approver
approved_at t p actor filled h = (
  ground (arith, h.kind),
  ground (arith, h.kind, h.approver),
  NotAmong-contains (strip actor) p.prior (cc (is_blank_lem actor, filled))
      (ground (arith, h.kind, h.approver)),
)

-- A step is recorded as approved only if it is an approval step, every step before it is done, the
-- actor is one of its configured approvers (an owner where it has none), and the actor carried out
-- none of the steps before it.
pub approval_is_independent :
    (s s' : TaskStore) (task_id step_id result actor now : String) (t' : Task)
    → record_step s task_id step_id "approved" result actor now ≡ ok (s', t')
    → (t : Task) × (p : Position) × (read_task s task_id ≡ ok t)
      × (steps_of p ≡ t.step_states)
      × (p.state.id ≡ step_id)
      × (p.state.kind ≡ approval)
      × (all_done p.prior ≡ true)
      × IsAuthorized actor p.state.approvers t.owners
      × NotAmong (strip actor) p.prior
unfolding record_step
approval_is_independent s s' task_id step_id result actor now t' e =
    let (filled, e1) = raise_if->>-eq-ok (is_blank result || is_blank actor) blank_step_field _ e in
    let (t, was, e2) = >>=-eq-ok (read_task s task_id) _ e1 in
    let (u, moved, _) = >>=-eq-ok (advance step_id approved result actor now t) _ e2 in
    let a = advance-Advanced step_id approved result actor now t u moved in
    let p = a.position in
    let (whole, named) = locate_lem step_id t.step_states p a.located in
    let (kind, authorized, apart) = approved_at t p actor (ground arith) a.passed in
    (t, p, was, whole, named, kind, a.passed.ordered, authorized, apart)

check_reviewer-ok :
    (o : Option RefreshDecision) (actor : String)
    → check_reviewer o actor ≡ ok tt
    → (d : RefreshDecision) × (o ≡ some d) × (is_insufficient d.verdict ≡ false) × (actor ≢ d.actor)
unfolding check_reviewer
check_reviewer-ok none actor h = absurd (cc)
check_reviewer-ok (some d) actor h =
    (d, refl, ground arith, λ e. ground (arith, eq_iff actor d.actor, e))

reviewed_at :
    (t : Task) (step_id actor : String)
    → step_id ≡ "independent-agent-review"
    → is_refresh t.task_type ≡ true
    → check_refresh t step_id actor ≡ ok tt
    → (d : RefreshDecision) × (t.refresh_decision ≡ some d)
      × (is_insufficient d.verdict ≡ false)
      × (actor ≢ d.actor)
unfolding check_refresh
reviewed_at t step_id actor named refresh h =
    let h' = subst (λ k. check_refresh t k actor ≡ ok tt) named h in
    check_reviewer-ok t.refresh_decision actor
      (>>-eq-ok (check_reviewer t.refresh_decision actor) _ (rw refresh at h')).0

-- The independent review of a Refresh Task is recorded only behind a decision that is not
-- `insufficient_evidence`, and by another actor than the one that decided.
pub review_is_independent :
    (s s' : TaskStore) (task_id status result actor now : String) (t t' : Task)
    → record_step s task_id "independent-agent-review" status result actor now ≡ ok (s', t')
    → read_task s task_id ≡ ok t
    → is_refresh t.task_type ≡ true
    → (d : RefreshDecision) × (t.refresh_decision ≡ some d)
      × (is_insufficient d.verdict ≡ false)
      × (actor ≢ d.actor)
unfolding record_step
review_is_independent s s' task_id status result actor now t t' e was refresh =
    let (o, _, e0) = or_raise->>=-eq-ok (parse_outcome status) invalid_step_status _ e in
    let (_, e1) = raise_if->>-eq-ok (is_blank result || is_blank actor) blank_step_field _ e0 in
    let (u, was', e2) = >>=-eq-ok (read_task s task_id) _ e1 in
    let (v, moved, _) = >>=-eq-ok (advance "independent-agent-review" o result actor now u) _ e2 in
    let a = advance-Advanced "independent-agent-review" o result actor now u v moved in
    let (_, named) = locate_lem "independent-agent-review" u.step_states a.position a.located in
    let same : u ≡ t = cc (was, was') in
    reviewed_at t a.position.state.id actor named refresh (
      subst (λ (x : Task). check_refresh x a.position.state.id actor ≡ ok tt) same a.passed.refresh)
