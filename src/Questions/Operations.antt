-- ===== src/Questions/Operations.antt =====
-- `record_open_question`, `list_open_questions`, `resolve_open_question` and `queue_slack_decision`
-- of open_questions.py. The fresh UUID and the time are arguments.
use Prim.Native.String.{◌++◌ as text_append}
use circled_wiki.Base.{
  String, ◌==◌, Bool, false, not, ◌&&◌, ◌||◌, Option, none, some, List, [], ◌∷◌, if◌then◌else◌,
  is_blank, is_empty, strip, is_file_name, truthy, Directory, File, parsed, unreadable, read, write,
  Result, ok, err, ◌>>=◌, ◌>>◌, raise_if,
}
use circled_wiki.Questions.Model.{
  QuestionStatus, Link, Question, DeliveryStatus, Delivery, Runtime, QuestionError, is_unanswered,
  is_open, is_pending, blank_argument, invalid_question, not_resolvable, invalid_delivery_id,
  invalid_outbox_item, not_queueable,
}

-- A record that is read, or the error for a file that is missing or does not parse.
unfoldable pub loaded : {A : Type 0} → Option (File A) → QuestionError → Result QuestionError A
loaded none e = err e
loaded (some unreadable) e = err e
loaded (some (parsed a)) e = ok a

unfoldable pub put_question : Runtime → String → Question → Runtime
put_question r id q = record r { questions = write id (parsed q) r.questions }

unfoldable pub put_delivery : Runtime → String → Delivery → Runtime
put_delivery r id d = record r { outbox = write id (parsed d) r.outbox }

-- The write of `_cancel_pending_delivery`, on the item that was read.
unfoldable pub cancel_item : Runtime → String → Delivery → String → String → Runtime × Delivery
unfolding is_pending put_delivery
cancel_item r id d cancelled_at reason =
    let d' : Delivery = record d {
      status = DeliveryStatus.delivery_cancelled;
      cancelled_at = some cancelled_at;
      cancellation_reason = some reason;
    } in
    if is_pending d.status then (put_delivery r id d', d') else (r, d)

-- `_cancel_pending_delivery`.
unfoldable pub cancel_pending_delivery :
    Runtime → String → String → String → Result QuestionError (Runtime × Delivery)
unfolding loaded cancel_item
cancel_pending_delivery r id cancelled_at reason = do
  raise_if (is_empty id || not (is_file_name id)) invalid_delivery_id
  d ← loaded (read id r.outbox) invalid_outbox_item
  ok (cancel_item r id d cancelled_at reason)

-- `value or ""`.
unfoldable pub or_empty : Option String → String
or_empty none = ""
or_empty (some s) = s

-- `f"question-{uuid4()}"` and `f"slack-decision-{uuid4()}"`.
unfoldable pub question_name : String → String
question_name uuid = text_append "question-" uuid

unfoldable pub delivery_name : String → String
delivery_name uuid = text_append "slack-decision-" uuid

unfoldable pub record_open_question :
    Runtime
    → String
    → String
    → String
    → Option String
    → Option String
    → String
    → String
    → Result QuestionError (Runtime × Question)
unfolding put_question or_empty question_name
record_open_question r question asked_of context related_bundle related_evidence uuid now = do
  raise_if (is_blank question || is_blank asked_of || is_blank context) blank_argument
  let q : Question = record {
    question_id = question_name uuid;
    status = QuestionStatus.open_now;
    asked_of = strip asked_of;
    question = strip question;
    context = strip context;
    created_at = now;
    related_bundle = or_empty related_bundle;
    related_evidence = or_empty related_evidence;
    resolution = none;
    delivery = none;
  }
  ok (put_question r (question_name uuid) q, q)

-- `asked_of and payload.get("asked_of") != asked_of`.
unfoldable pub is_for_another : Option String → Question → Bool
is_for_another none q = false
is_for_another (some s) q = truthy (some s) && not (q.asked_of == s)

-- The loop of `list_open_questions`, which passes over files that it cannot parse.
unfoldable pub open_among : Option String → Directory (File Question) → List Question
unfolding is_unanswered is_for_another
open_among asked_of [] = []
open_among asked_of ((k, unreadable) ∷ files) = open_among asked_of files
open_among asked_of ((k, parsed q) ∷ files) =
    let rest = open_among asked_of files in
    if not (is_unanswered q.status) || is_for_another asked_of q then rest else q ∷ rest

unfoldable pub list_open_questions : Runtime → Option String → List Question
unfolding open_among
list_open_questions r asked_of = open_among asked_of r.questions

-- The delivery of a question that is resolved is withdrawn, where it goes through Slack.
unfoldable pub withdraw : Runtime → Option Link → String → Result QuestionError Runtime
unfolding cancel_pending_delivery
withdraw r none now = ok r
withdraw r (some link) now =
    if link.channel == "slack"
    then (do
      (r', d) ← cancel_pending_delivery r link.delivery_id now "question_resolved_before_delivery"
      ok r')
    else ok r

unfoldable pub resolution_of : Question → String → String → String → Question
resolution_of q answer actor now = record q {
  status = QuestionStatus.resolved;
  resolution = some (record { answer = strip answer; actor = strip actor; resolved_at = now });
}

unfoldable pub resolve_open_question :
    Runtime → String → String → String → String → Result QuestionError (Runtime × Question)
unfolding loaded is_unanswered withdraw resolution_of put_question
resolve_open_question r id answer actor now = do
  raise_if (is_blank id || is_blank answer || is_blank actor) blank_argument
  q ← loaded (read id r.questions) invalid_question
  raise_if (not (is_unanswered q.status)) not_resolvable
  r' ← withdraw r q.delivery now
  ok (put_question r' id (resolution_of q answer actor now), resolution_of q answer actor now)

unfoldable pub message_of : Question → String
message_of q =
    text_append "결정이 필요한 항목입니다.\n\n" (text_append q.question (text_append "\n\n배경: " q.context))

unfoldable pub new_delivery : Question → String → String → String → String → Delivery
unfolding delivery_name message_of
new_delivery q id recipient uuid now = record {
  delivery_id = delivery_name uuid;
  channel = "slack";
  recipient = strip recipient;
  question_id = id;
  status = DeliveryStatus.pending_connector_delivery;
  created_at = now;
  message = message_of q;
  claimed_at = none;
  cancelled_at = none;
  cancellation_reason = none;
}

unfoldable pub waiting_question : Question → String → String → String → Question
unfolding delivery_name
waiting_question q recipient uuid now = record q {
  status = QuestionStatus.waiting_for_reply;
  delivery = some (record {
    channel = "slack";
    recipient = strip recipient;
    delivery_id = delivery_name uuid;
    queued_at = now;
  });
}

-- The outbox item is written first, then the question that waits for it.
unfoldable pub queue_slack_decision :
    Runtime → String → String → String → String → Result QuestionError (Runtime × Delivery)
unfolding loaded is_open new_delivery waiting_question put_question put_delivery
queue_slack_decision r id recipient uuid now = do
  raise_if (is_blank id || is_blank recipient) blank_argument
  q ← loaded (read id r.questions) invalid_question
  raise_if (not (is_open q.status)) not_queueable
  let d = new_delivery q id recipient uuid now
  ok (
    put_question (put_delivery r (delivery_name uuid) d) id (waiting_question q recipient uuid now),
    d,
  )
