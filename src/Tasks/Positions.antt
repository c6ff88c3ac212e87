-- ===== src/Tasks/Positions.antt =====
-- What `locate` finds: a split of the steps at the first step with the id.
use mathlib.Core.Option
use circled_wiki.Base.{
  String, ◌==◌, ◌≡◌, refl, ap, Option, none, some, List, [], ◌∷◌, ◌++◌, inl, inr, Bool-cases, arith,
  eq_iff,
}
use mathlib.Core.Path.{subst}
use circled_wiki.Tasks.Model.{Step}
use circled_wiki.Tasks.Steps.{Position, behind, locate}

-- The steps that a position splits.
abbrev pub steps_of : Position → List Step
steps_of p = p.prior ++ p.state ∷ p.later

pub map-eq-some :
    (s : Step) (o : Option Position) {p : Position}
    → Option.map (behind s) o ≡ some p
    → (q : Position) × (o ≡ some q) × (behind s q ≡ p)
unfolding behind
map-eq-some s none h = cc
map-eq-some s (some q) h = (q, refl, cc)

behind_splits :
    (s : Step) (ss : List Step) (step_id : String) (q : Position) {p : Position}
    → behind s q ≡ p
    → (steps_of q ≡ ss) × (q.state.id ≡ step_id)
    → (steps_of p ≡ s ∷ ss) × (p.state.id ≡ step_id)
behind_splits s ss step_id q e (whole, named) =
    subst (λ r. (steps_of r ≡ s ∷ ss) × (r.state.id ≡ step_id)) e
      (unfold behind in (ap (λ rest. s ∷ rest) whole, named))

pub locate_lem :
    (step_id : String) (steps : List Step) (p : Position)
    → locate step_id steps ≡ some p
    → (steps_of p ≡ steps) × (p.state.id ≡ step_id)
unfolding locate
locate_lem step_id [] p h = cc
locate_lem step_id (s ∷ ss) p h = elim (Bool-cases (s.id == step_id)) [
  | inl e ↦ ground (arith, eq_iff s.id step_id)
  | inr e ↦
      let (q, found, at) = map-eq-some s (locate step_id ss) (rw e at h) in
      behind_splits s ss step_id q at (locate_lem step_id ss q found)
]
