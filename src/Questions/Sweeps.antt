-- ===== src/Questions/Sweeps.antt =====
-- `reconcile_open_question_deliveries` of open_questions.py and the questions.
use circled_wiki.Base.{
  String, ◌≡◌, refl, ◌∙◌, List, [], ◌∷◌, inl, inr, Bool-cases, if◌then◌else◌, read, file_names,
  Result, ok, err,
}
use circled_wiki.Questions.Model.{Delivery, Runtime, QuestionError, is_pending, invalid_outbox_item}
use circled_wiki.Questions.Operations.{loaded}
use circled_wiki.Questions.Deliveries.{
  claim_slack_decision_delivery, Report, after_claim, reconcile_item, reconcile_items,
  reconcile_open_question_deliveries,
}
use circled_wiki.Questions.Claims.{claimed_is_waited_for}

-- A claim keeps the questions, also where it raises.
after_claim_keeps :
    (r : Runtime) (id now : String)
    → (after_claim r (claim_slack_decision_delivery r id now)).questions ≡ r.questions
unfolding after_claim
after_claim_keeps r id now = kept (claim_slack_decision_delivery r id now) refl
  where
    kept :
        (x : Result QuestionError (Runtime × Delivery))
        → claim_slack_decision_delivery r id now ≡ x
        → (after_claim r x).questions ≡ r.questions
    kept (err e) h = refl
    kept (ok (r', d)) h = (claimed_is_waited_for r r' id now d h).0

reconcile_item_keeps :
    (r : Runtime) (name : String) (o : Result QuestionError Delivery) (now : String)
    (rest : Runtime → Runtime × Report)
    → ((x : Runtime) → (rest x).0.questions ≡ x.questions)
    → (reconcile_item r name o now rest).0.questions ≡ r.questions
unfolding reconcile_item
reconcile_item_keeps r name (err e) now rest h = h r
reconcile_item_keeps r name (ok d) now rest h =
    h (
      if is_pending d.status
      then after_claim r (claim_slack_decision_delivery r d.delivery_id now)
      else r)
    ∙ (elim (Bool-cases (is_pending d.status)) [
      | inl pending ↦ rw pending (after_claim_keeps r d.delivery_id now)
      | inr other ↦ rw other refl
    ])

reconcile_items_keeps :
    (names : List String) (now : String) (r : Runtime)
    → (reconcile_items names now r).0.questions ≡ r.questions
unfolding reconcile_items
reconcile_items_keeps [] now r = refl
reconcile_items_keeps (name ∷ names) now r =
    reconcile_item_keeps r name (loaded (read name r.outbox) invalid_outbox_item) now
      (reconcile_items names now) (reconcile_items_keeps names now)

-- The reconciliation of the outbox changes no question.
pub reconciled_keeps :
    (r : Runtime) (now : String)
    → (reconcile_open_question_deliveries r now).0.questions ≡ r.questions
unfolding reconcile_open_question_deliveries
reconciled_keeps r now = reconcile_items_keeps (file_names r.outbox) now r
