-- ===== src/Questions/Deliveries.antt =====
-- `claim_slack_decision_delivery` and `reconcile_open_question_deliveries` of open_questions.py.
use circled_wiki.Base.{
  file_names, String, ◌==◌, Bool, false, not, ◌||◌, Option, none, some, List, [], ◌∷◌,
  if◌then◌else◌, is_blank, is_empty, is_file_name, read, Result, ok, err, ◌>>=◌, ◌>>◌, raise_if,
}
use circled_wiki.Questions.Model.{
  Link, Question, DeliveryStatus, Delivery, Runtime, QuestionError, is_waiting, is_pending,
  is_cancelled, invalid_question, invalid_outbox_item, unsafe_id, not_claimable,
  invalid_question_id,
}
use circled_wiki.Questions.Operations.{loaded, put_delivery, cancel_pending_delivery}

-- `linked.get("delivery_id") == delivery_id` of a link that is there.
unfoldable pub links_to : Option Link → String → Bool
links_to none id = false
links_to (some link) id = link.delivery_id == id

-- The claim of a pending item for the question that was read.
unfoldable pub claim_for :
    Runtime → String → Delivery → Question → String → Result QuestionError (Runtime × Delivery)
unfolding links_to is_waiting cancel_pending_delivery put_delivery
claim_for r id d q now =
    let d' : Delivery = record d {
      status = DeliveryStatus.ready_for_connector_delivery;
      claimed_at = some now;
    } in
    if not (is_waiting q.status) || not (links_to q.delivery id)
    then cancel_pending_delivery r id now "question_not_waiting_at_delivery_time"
    else ok (put_delivery r id d', d')

unfoldable pub claim_pending :
    Runtime → String → Delivery → String → Result QuestionError (Runtime × Delivery)
unfolding is_pending loaded claim_for
claim_pending r id d now = do
  raise_if (not (is_pending d.status)) not_claimable
  raise_if (is_empty d.question_id || not (is_file_name d.question_id)) invalid_question_id
  q ← loaded (read d.question_id r.questions) invalid_question
  claim_for r id d q now

unfoldable pub claim_slack_decision_delivery :
    Runtime → String → String → Result QuestionError (Runtime × Delivery)
unfolding loaded is_cancelled claim_pending
claim_slack_decision_delivery r id now = do
  raise_if (is_blank id || not (is_file_name id)) unsafe_id
  d ← loaded (read id r.outbox) invalid_outbox_item
  if is_cancelled d.status then ok (r, d) else claim_pending r id d now

-- What `reconcile_open_question_deliveries` reports; its counts are the lengths.
pub record Report : Type 0 where
  pub cancelled : List String
  pub ready : List String
  pub needs_review : List (String × QuestionError)

unfoldable pub reported : Result QuestionError (Runtime × Delivery) → String → Report → Report
unfolding is_cancelled
reported (err e) name report = record report { needs_review = (name, e) ∷ report.needs_review }
reported (ok (r, d)) name report =
    if is_cancelled d.status
    then record report { cancelled = d.delivery_id ∷ report.cancelled }
    else record report { ready = d.delivery_id ∷ report.ready }

unfoldable pub after_claim : Runtime → Result QuestionError (Runtime × Delivery) → Runtime
after_claim r (err e) = r
after_claim r (ok (r', d)) = r'

-- One turn of the loop, on what was read from the file: an error is reported, and the loop goes on.
unfoldable pub reconcile_item :
    Runtime
    → String
    → Result QuestionError Delivery
    → String
    → (Runtime → Runtime × Report)
    → Runtime × Report
unfolding is_pending claim_slack_decision_delivery reported after_claim
reconcile_item r name (err e) now rest =
    let (r', report) = rest r in (r', reported (err e) name report)
reconcile_item r name (ok d) now rest =
    let pending = is_pending d.status in
    let claim = claim_slack_decision_delivery r d.delivery_id now in
    let (r', report) = rest (if pending then after_claim r claim else r) in
    (r', if pending then reported claim name report else report)

unfoldable pub reconcile_items : List String → String → Runtime → Runtime × Report
unfolding loaded reconcile_item
reconcile_items [] now r = (r, record { cancelled = []; ready = []; needs_review = [] })
reconcile_items (name ∷ names) now r =
    reconcile_item r name (loaded (read name r.outbox) invalid_outbox_item) now
      (reconcile_items names now)

unfoldable pub reconcile_open_question_deliveries : Runtime → String → Runtime × Report
unfolding reconcile_items file_names
reconcile_open_question_deliveries r now = reconcile_items (file_names r.outbox) now r
