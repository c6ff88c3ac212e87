-- ===== src/Tasks/Guards.antt =====
-- What it means that `record_step` passed its guards.
use circled_wiki.Base.{
  String, ◌≡◌, true, not, some, arith, ok, >>-eq-ok, raise_if->>-eq-ok, or_raise->>=-eq-ok,
}
use circled_wiki.Tasks.Model.{Task, all_done, steps_out_of_order, step_not_found}
use circled_wiki.Tasks.Steps.{
  StepOutcome, Position, locate, check_kind, check_approver, check_refresh, check_step, check_open,
  record_at, advance,
}

pub record Passed (t : Task) (p : Position) (outcome : StepOutcome) (actor : String) : Type 0 where
  pub kind : check_kind p.state.kind outcome ≡ ok tt
  pub ordered : all_done p.prior ≡ true
  pub approver : check_approver t p outcome actor ≡ ok tt
  pub refresh : check_refresh t p.state.id actor ≡ ok tt

pub check_step-Passed :
    (t : Task) (p : Position) (outcome : StepOutcome) (actor : String)
    → check_step t p outcome actor ≡ ok tt
    → Passed t p outcome actor
unfolding check_step
check_step-Passed t p outcome actor h =
    let (k, h1) = >>-eq-ok (check_kind p.state.kind outcome) _ h in
    let (o, h2) = raise_if->>-eq-ok (not (all_done p.prior)) steps_out_of_order _ h1 in
    let (a, r) = >>-eq-ok (check_approver t p outcome actor) _ h2 in
    record { kind = k; ordered = ground arith; approver = a; refresh = r }

-- A step that was recorded: the guards it passed, and the task behind it.
pub record Advanced (step_id : String) (outcome : StepOutcome) (result actor now : String)
    (t t' : Task) : Type 0 where
  pub position : Position
  pub located : locate step_id t.step_states ≡ some position
  pub free : check_open t step_id ≡ ok tt
  pub passed : Passed t position outcome actor
  pub made : record_at t position outcome result actor now ≡ t'

pub advance-Advanced :
    (step_id : String) (outcome : StepOutcome) (result actor now : String) (t t' : Task)
    → advance step_id outcome result actor now t ≡ ok t'
    → Advanced step_id outcome result actor now t t'
unfolding advance
advance-Advanced step_id outcome result actor now t t' h =
    let (free, h1) = >>-eq-ok (check_open t step_id) _ h in
    let (p, found, h2) = or_raise->>=-eq-ok (locate step_id t.step_states) step_not_found _ h1 in
    let (passed, made) = >>-eq-ok (check_step t p outcome actor) _ h2 in
    record {
      position = p;
      located = found;
      free = free;
      passed = check_step-Passed t p outcome actor passed;
      made = cc made;
    }
