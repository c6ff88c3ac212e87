-- ===== src/Questions/Queued.antt =====
-- A decision that was queued for Slack can be claimed: `queue_slack_decision` and
-- `claim_slack_decision_delivery` of open_questions.py.
use circled_wiki.Base.{
  String, ◌≡◌, refl, true, false, not, ◌||◌, some, is_blank, is_empty, strip, is_file_name, parsed,
  read, read-write, eq_refl, ok, >>=-eq-ok, subst-ok, raise_if->>-eq-ok,
}
use circled_wiki.Questions.Model.{
  Question, Delivery, Runtime, is_waiting, is_pending, is_cancelled, is_open, invalid_question,
  ready_for_connector_delivery, blank_argument, not_queueable,
}
use circled_wiki.Questions.Operations.{
  loaded, put_question, put_delivery, delivery_name, new_delivery, waiting_question,
  queue_slack_decision,
}
use circled_wiki.Questions.Deliveries.{
  links_to, claim_for, claim_pending, claim_slack_decision_delivery,
}

-- What queueing leaves: the item in the outbox, and the question that waits for it.
queued_lem :
    (r r' : Runtime) (id recipient uuid now : String) (d : Delivery)
    → queue_slack_decision r id recipient uuid now ≡ ok (r', d)
    → (q : Question) × (d ≡ new_delivery q id recipient uuid now)
      × (read (delivery_name uuid) r'.outbox ≡ some (parsed d))
      × (read id r'.questions ≡ some (parsed (waiting_question q recipient uuid now)))
unfolding queue_slack_decision
queued_lem r r' id recipient uuid now d e =
    let (_, e1) = raise_if->>-eq-ok (is_blank id || is_blank recipient) blank_argument _ e in
    let (q, _, e2) = >>=-eq-ok (loaded (read id r.questions) invalid_question) _ e1 in
    let (_, e3) = raise_if->>-eq-ok (not (is_open q.status)) not_queueable _ e2 in
    let item = new_delivery q id recipient uuid now in
    let waiting = waiting_question q recipient uuid now in
    let facts =
      subst-ok
        (λ (x : Runtime × Delivery).
          (x.1 ≡ item)
          × (read (delivery_name uuid) x.0.outbox ≡ some (parsed x.1))
          × (read id x.0.questions ≡ some (parsed waiting)))
        e3
        (
          refl,
          unfold put_question in
              unfold put_delivery in
              rw (read-write (delivery_name uuid) (delivery_name uuid) (parsed item) r.outbox)
                (simp eq_refl),
          unfold put_question in
              unfold put_delivery in
              rw (read-write id id (parsed waiting) r.questions) (simp eq_refl),
        ) in
    (q, facts.0, facts.1, facts.2)

-- A claim with nothing in its way.
ready_lem :
    (r : Runtime) (id now : String) (d : Delivery) (q : Question)
    → (is_blank id || not (is_file_name id)) ≡ false
    → read id r.outbox ≡ some (parsed d)
    → is_cancelled d.status ≡ false
    → is_pending d.status ≡ true
    → (is_empty d.question_id || not (is_file_name d.question_id)) ≡ false
    → read d.question_id r.questions ≡ some (parsed q)
    → is_waiting q.status ≡ true
    → links_to q.delivery id ≡ true
    → let d' = record d { status = ready_for_connector_delivery; claimed_at = some now } in
      claim_slack_decision_delivery r id now ≡ ok (put_delivery r id d', d')
unfolding claim_slack_decision_delivery claim_pending claim_for loaded
ready_lem r id now d q safe stored valid pending named found waiting linked =
    simp (safe, stored, valid, pending, named, found, waiting, linked)

-- A decision on an open question that was queued under ids that are file names can be claimed: the
-- claim succeeds, and the item is then stored as ready, for the recipient and the question that
-- were given.
pub queued_is_claimed :
    (r r' : Runtime) (id recipient uuid now now' : String) (d : Delivery)
    → queue_slack_decision r id recipient uuid now ≡ ok (r', d)
    → (is_blank (delivery_name uuid) || not (is_file_name (delivery_name uuid))) ≡ false
    → (is_empty id || not (is_file_name id)) ≡ false
    → (r'' : Runtime) × (d' : Delivery) × (claim_slack_decision_delivery r'
          (delivery_name uuid)
          now'
        ≡ ok (r'', d'))
      × (d'.status ≡ ready_for_connector_delivery)
      × (d'.recipient ≡ strip recipient)
      × (d'.question_id ≡ id)
      × (read (delivery_name uuid) r''.outbox ≡ some (parsed d'))
unfolding is_cancelled is_pending is_waiting links_to
queued_is_claimed r r' id recipient uuid now now' d e safe named =
    let (q, made, stored, found) = queued_lem r r' id recipient uuid now d e in
    let item = new_delivery q id recipient uuid now in
    let claimed = record item { status = ready_for_connector_delivery; claimed_at = some now' } in
    (
      put_delivery r' (delivery_name uuid) claimed,
      claimed,
      ready_lem r' (delivery_name uuid) now' item (waiting_question q recipient uuid now) safe
          (cc (stored, made)) (unfold new_delivery in refl) (unfold new_delivery in refl)
          (unfold new_delivery in named) (unfold new_delivery in found)
          (unfold waiting_question in refl) (unfold waiting_question in simp eq_refl),
      refl,
      unfold new_delivery in refl,
      unfold new_delivery in refl,
      unfold put_delivery in
          rw (read-write (delivery_name uuid) (delivery_name uuid) (parsed claimed) r'.outbox)
            (simp eq_refl),
    )
