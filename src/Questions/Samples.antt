-- ===== src/Questions/Samples.antt =====
-- Tests of the administrator questions, and their properties at concrete inputs.
use circled_wiki.Base.{
  String, ◌≡◌, ◌≢◌, refl, none, some, [], is_blank, is_empty, strip, is_file_name, parsed, read,
  write, Result, ok, err,
}
use circled_wiki.Questions.Model.{
  QuestionStatus, Question, Delivery, Runtime, QuestionError, delivery_cancelled,
  ready_for_connector_delivery,
}
use circled_wiki.Questions.Operations.{
  record_open_question, resolve_open_question, queue_slack_decision, delivery_name,
}
use circled_wiki.Questions.Deliveries.{
  claim_slack_decision_delivery, reconcile_open_question_deliveries, Report,
}
use circled_wiki.Questions.Claims.{ClaimOutcome, claimed_is_waited_for}
use circled_wiki.Questions.Queued.{queued_is_claimed}
use circled_wiki.Questions.Finality.{
  resolved_is_not_delivered, stay, then_change, claimed, resolved_is_final,
}

abbrev nothing : Runtime
nothing = record { questions = []; outbox = [] }

abbrev no_question : Question
no_question = record {
  question_id = "";
  status = QuestionStatus.cancelled;
  asked_of = "";
  question = "";
  context = "";
  created_at = "";
  related_bundle = "";
  related_evidence = "";
  resolution = none;
  delivery = none;
}

abbrev no_delivery : Delivery
no_delivery = record {
  delivery_id = "";
  channel = "";
  recipient = "";
  question_id = "";
  status = delivery_cancelled;
  created_at = "";
  message = "";
  claimed_at = none;
  cancelled_at = none;
  cancellation_reason = none;
}

abbrev left_by {ℓ} : {A : Type ℓ} → Result QuestionError (Runtime × A) → Runtime
left_by (ok (r, a)) = r
left_by (err e) = nothing

abbrev question_of : Result QuestionError (Runtime × Question) → Question
question_of (ok (r, q)) = q
question_of (err e) = no_question

abbrev delivery_of : Result QuestionError (Runtime × Delivery) → Delivery
delivery_of (ok (r, d)) = d
delivery_of (err e) = no_delivery

abbrev asked_first : Result QuestionError (Runtime × Question)
asked_first = record_open_question nothing "Publish it?" "ann" "A new bundle" none none "1" "t0"

abbrev id_one : String
id_one = "question-1"

abbrev item_one : String
item_one = "slack-decision-7"

abbrev queued_first : Result QuestionError (Runtime × Delivery)
queued_first = queue_slack_decision (left_by asked_first) id_one "U1" "7" "t1"

queued_ok : queued_first ≡ ok (left_by queued_first, delivery_of queued_first)
unfolding record_open_question queue_slack_decision is_blank read write strip
queued_ok = refl

queued_is_claimed_example :
    (r'' : Runtime) × (d' : Delivery) × (claim_slack_decision_delivery
        (left_by queued_first)
        item_one
        "t2"
      ≡ ok (r'', d'))
    × (d'.status ≡ ready_for_connector_delivery)
    × (d'.recipient ≡ strip "U1")
    × (d'.question_id ≡ id_one)
    × (read item_one r''.outbox ≡ some (parsed d'))
unfolding delivery_name is_blank is_file_name is_empty
queued_is_claimed_example =
    queued_is_claimed (left_by asked_first) (left_by queued_first) id_one "U1" "7" "t1" "t2"
      (delivery_of queued_first) queued_ok refl refl

abbrev claimed_first : Result QuestionError (Runtime × Delivery)
claimed_first = claim_slack_decision_delivery (left_by queued_first) item_one "t2"

claimed_ok : claimed_first ≡ ok (left_by claimed_first, delivery_of claimed_first)
unfolding record_open_question queue_slack_decision claim_slack_decision_delivery is_blank read
    write strip is_file_name
claimed_ok = refl

claimed_is_waited_for_example :
    ((left_by claimed_first).questions ≡ (left_by queued_first).questions)
    × ClaimOutcome (left_by queued_first) item_one (delivery_of claimed_first)
claimed_is_waited_for_example =
    claimed_is_waited_for (left_by queued_first) (left_by claimed_first) item_one "t2"
      (delivery_of claimed_first) claimed_ok

abbrev resolved_first : Result QuestionError (Runtime × Question)
resolved_first = resolve_open_question (left_by claimed_first) id_one "Yes" "ann" "t3"

resolved_ok : resolved_first ≡ ok (left_by resolved_first, question_of resolved_first)
unfolding record_open_question queue_slack_decision claim_slack_decision_delivery
    resolve_open_question is_blank read write strip is_file_name
resolved_ok = refl

abbrev claimed_late : Result QuestionError (Runtime × Delivery)
claimed_late = claim_slack_decision_delivery (left_by resolved_first) item_one "t4"

claimed_late_ok : claimed_late ≡ ok (left_by claimed_late, delivery_of claimed_late)
unfolding record_open_question queue_slack_decision claim_slack_decision_delivery
    resolve_open_question is_blank read write strip is_file_name
claimed_late_ok = refl

abbrev claimed_again : Result QuestionError (Runtime × Delivery)
claimed_again = claim_slack_decision_delivery (left_by claimed_late) item_one "t5"

claimed_again_ok : claimed_again ≡ ok (left_by claimed_again, delivery_of claimed_again)
unfolding record_open_question queue_slack_decision claim_slack_decision_delivery
    resolve_open_question is_blank read write strip is_file_name
claimed_again_ok = refl

claimed_again_question : (delivery_of claimed_again).question_id ≡ id_one
unfolding record_open_question queue_slack_decision claim_slack_decision_delivery
    resolve_open_question is_blank read write strip is_file_name
claimed_again_question = refl

-- The item that was ready when its question was resolved, at the second claim behind it.
resolved_is_not_delivered_example : (delivery_of claimed_again).status ≡ delivery_cancelled
resolved_is_not_delivered_example =
    resolved_is_not_delivered (left_by claimed_first) (left_by resolved_first)
      (left_by claimed_late) (left_by claimed_again) id_one "Yes" "ann" "t3" item_one "t5"
      (question_of resolved_first) (delivery_of claimed_again) resolved_ok
      (then_change stay (claimed item_one "t4" (delivery_of claimed_late) claimed_late_ok))
      claimed_again_ok claimed_again_question

resolved_is_final_example :
    (read id_one (left_by claimed_late).questions ≡ some (parsed (question_of resolved_first)))
    × ((answer' actor' now' : String) (x : Runtime × Question)
        → resolve_open_question (left_by claimed_late) id_one answer' actor' now' ≢ ok x)
    × ((recipient uuid now' : String) (x : Runtime × Delivery)
        → queue_slack_decision (left_by claimed_late) id_one recipient uuid now' ≢ ok x)
resolved_is_final_example =
    resolved_is_final (left_by claimed_first) (left_by resolved_first) (left_by claimed_late) id_one
      "Yes" "ann" "t3" (question_of resolved_first) resolved_ok
      (then_change stay (claimed item_one "t4" (delivery_of claimed_late) claimed_late_ok))

-- A later sweep passes over the item: it was withdrawn before.
abbrev swept : Report
swept = (reconcile_open_question_deliveries (left_by claimed_late) "t5").1

sweep_reports_nothing : (swept.ready ≡ []) × (swept.cancelled ≡ [])
unfolding record_open_question queue_slack_decision claim_slack_decision_delivery
    resolve_open_question reconcile_open_question_deliveries is_blank read write strip is_file_name
sweep_reports_nothing = (refl, refl)
