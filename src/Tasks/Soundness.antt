-- ===== src/Tasks/Soundness.antt =====
-- What holds of every task between two operations of workflow.py.
pub mod Others
pub mod Stores
pub mod Reachable
use mathlib.Core.Path.{subst}
use circled_wiki.Base.{
  ℕ, String, ◌==◌, ◌≡◌, ◌≢◌, refl, sym, ap, ◌∙◌, Bool, true, false, not, ◌&&◌, ◌||◌, Option, none,
  some, List, [], ◌∷◌, ◌++◌, arith, strip, contains, stripped_texts, non_empty, All, All-split,
  All-join, Value, eq_iff, Result, ok, err, ◌>>=◌, ◌>>◌, >>-eq-ok, raise_if->>-eq-ok,
  or_raise->>=-eq-ok, if◌then◌else◌,
}
use circled_wiki.Tasks.Model.{
  StepKind, action, decision, approval, validation, is_approval, StepStatus, StepSpec, Step,
  TaskType, TaskStatus, Task, is_refresh, is_closed, all_done, Verdict, Disposition,
}
use circled_wiki.Tasks.Steps.{
  StepOutcome, is_ruling, is_approved, completed, failed, needs_review, approved, rejected,
  Position, locate, configured_approvers, check_kind, check_approver, recorded, status_after,
  record_at, advance,
}
use circled_wiki.Tasks.Positions.{steps_of, locate_lem}
use circled_wiki.Tasks.Guards.{Passed, Advanced, advance-Advanced}

-- May this actor rule on an approval step with these approvers, in a task with these owners?
abbrev pub IsAuthorized : String → List String → List String → Type 0
IsAuthorized actor approvers owners =
    contains (strip actor) (stripped_texts (configured_approvers approvers owners)) ≡ true

-- A step that counts as done was done in the way that its kind asks for.
pub record IsSoundStep (task_type : TaskType) (owners : List String) (s : Step) : Type 0 where
  pub ruled : s.kind ≡ approval → s.status ≢ StepStatus.completed
  pub authorized :
      s.status ≡ StepStatus.approved → (s.kind ≡ approval) × IsAuthorized s.actor s.approvers owners
  pub proposal :
      is_refresh task_type ≡ true → (s.id == "prepare-refresh-proposal") ≡ true → s.kind ≡ decision

pub record IsSound (t : Task) : Type 0 where
  pub steps : All (IsSoundStep t.task_type t.owners) t.step_states
  pub awaiting : t.status ≡ TaskStatus.awaiting_outcome → all_done t.step_states ≡ true

recorded-IsSoundStep :
    (t : Task) (p : Position) (outcome : StepOutcome) (result actor now : String)
    → IsSoundStep t.task_type t.owners p.state
    → Passed t p outcome actor
    → IsSoundStep t.task_type t.owners (recorded p.state outcome result actor now)
unfolding recorded check_kind check_approver
recorded-IsSoundStep t p outcome result actor now old h = record {
  ruled = ground (arith, h.kind, h.approver);
  authorized = ground (arith, h.kind, h.approver);
  proposal = old.proposal;
}

status_after-awaiting :
    (outcome : StepOutcome) (complete : Bool)
    → status_after outcome complete ≡ TaskStatus.awaiting_outcome
    → complete ≡ true
unfolding status_after
status_after-awaiting outcome complete h = ground arith

record_at-IsSound :
    (t : Task) (p : Position) (outcome : StepOutcome) (result actor now : String)
    → IsSound t
    → steps_of p ≡ t.step_states
    → Passed t p outcome actor
    → IsSound (record_at t p outcome result actor now)
unfolding record_at
record_at-IsSound t p outcome result actor now h whole passed =
    let P = IsSoundStep t.task_type t.owners in
    let (before, at, behind) =
      All-split P p.prior p.state p.later (subst (All P) (sym whole) h.steps) in
    let at' = recorded-IsSoundStep t p outcome result actor now at passed in
    record {
      steps =
          All-join P p.prior (recorded p.state outcome result actor now) p.later before at' behind;
      awaiting =
          status_after-awaiting outcome
            (all_done (p.prior ++ recorded p.state outcome result actor now ∷ p.later));
    }

pub advance-IsSound :
    (step_id : String) (outcome : StepOutcome) (result actor now : String) (t t' : Task)
    → IsSound t
    → advance step_id outcome result actor now t ≡ ok t'
    → IsSound t'
advance-IsSound step_id outcome result actor now t t' h e =
    let a = advance-Advanced step_id outcome result actor now t t' e in
    let (whole, _) = locate_lem step_id t.step_states a.position a.located in
    subst IsSound a.made (record_at-IsSound t a.position outcome result actor now h whole a.passed)
