-- ===== src/Questions/Claims.antt =====
-- When a Slack delivery is handed to the connector: `claim_slack_decision_delivery` of
-- open_questions.py, behind `queue_slack_decision` and `resolve_open_question`.
use circled_wiki.Base.{
  String, ◌==◌, ◌≡◌, ◌⊎◌, refl, ap, true, not, ◌||◌, Option, none, some, inl, inr, Bool-cases,
  arith, is_blank, is_empty, is_file_name, File, parsed, unreadable, read, write, ok, >>=-eq-ok,
  subst-ok, raise_if->>-eq-ok,
}
use circled_wiki.Questions.Model.{
  not_resolvable, blank_argument, Link, Question, DeliveryStatus, Delivery, Runtime, QuestionError,
  is_waiting, is_pending, is_cancelled, is_unanswered, invalid_question, invalid_outbox_item,
  ready_for_connector_delivery, delivery_cancelled, unsafe_id, invalid_question_id, not_claimable,
  invalid_delivery_id,
}
use circled_wiki.Questions.Operations.{
  loaded, put_question, put_delivery, cancel_item, cancel_pending_delivery, withdraw, resolution_of,
  resolve_open_question,
}
use circled_wiki.Questions.Deliveries.{
  links_to, claim_for, claim_pending, claim_slack_decision_delivery,
}

pub loaded-eq-ok :
    {A : Type 0} (o : Option (File A)) (e : QuestionError) (a : A)
    → loaded o e ≡ ok a
    → o ≡ some (parsed a)
unfolding loaded
loaded-eq-ok none e a h = absurd (cc)
loaded-eq-ok (some unreadable) e a h = absurd (cc)
loaded-eq-ok (some (parsed b)) e a h = subst-ok (λ x. some (parsed b) ≡ some (parsed x)) h refl

cancel_item_keeps :
    (r : Runtime) (id : String) (d : Delivery) (at reason : String)
    → (cancel_item r id d at reason).0.questions ≡ r.questions
unfolding cancel_item put_delivery
cancel_item_keeps r id d at reason = elim (Bool-cases (is_pending d.status)) [
  | inl pending ↦ rw pending refl
  | inr other ↦ rw other refl
]

-- Withdrawing a delivery changes no question.
pub cancelled_keeps :
    (r r' : Runtime) (id at reason : String) (d : Delivery)
    → cancel_pending_delivery r id at reason ≡ ok (r', d)
    → r'.questions ≡ r.questions
unfolding cancel_pending_delivery
cancelled_keeps r r' id at reason d e =
    let (_, e1) =
      raise_if->>-eq-ok (is_empty id || not (is_file_name id)) invalid_delivery_id _ e in
    let (d0, _, e2) = >>=-eq-ok (loaded (read id r.outbox) invalid_outbox_item) _ e1 in
    subst-ok (λ (x : Runtime × Delivery). x.0.questions ≡ r.questions) e2
      (cancel_item_keeps r id d0 at reason)

cancelled_pending :
    (r r' : Runtime) (id at reason : String) (d0 d : Delivery)
    → read id r.outbox ≡ some (parsed d0)
    → is_pending d0.status ≡ true
    → cancel_pending_delivery r id at reason ≡ ok (r', d)
    → d.status ≡ delivery_cancelled
unfolding cancel_pending_delivery cancel_item
cancelled_pending r r' id at reason d0 d was pending e =
    let (_, e1) =
      raise_if->>-eq-ok (is_empty id || not (is_file_name id)) invalid_delivery_id _ e in
    let (d1, stored, e2) = >>=-eq-ok (loaded (read id r.outbox) invalid_outbox_item) _ e1 in
    let same : parsed d1 ≡ parsed d0 =
      cc (loaded-eq-ok (read id r.outbox) invalid_outbox_item d1 stored, was) in
    let still : is_pending d1.status ≡ true = cc (same, pending) in
    subst-ok (λ (x : Runtime × Delivery). x.1.status ≡ delivery_cancelled) e2 (rw still refl)

-- The question with this id waits for the reply to the delivery.
abbrev pub IsWaitedFor : Runtime → String → String → Type 0
IsWaitedFor r question_id id =
    (q : Question) × (read question_id r.questions ≡ some (parsed q))
    × (is_waiting q.status ≡ true)
    × (links_to q.delivery id ≡ true)

abbrev pub ClaimOutcome : Runtime → String → Delivery → Type 0
ClaimOutcome r id d =
    (d.status ≡ delivery_cancelled)
    ⊎ ((d.status ≡ ready_for_connector_delivery) × IsWaitedFor r d.question_id id)

claim_for_lem :
    (r r' : Runtime) (id now : String) (d0 d : Delivery) (q : Question)
    → read id r.outbox ≡ some (parsed d0)
    → is_pending d0.status ≡ true
    → read d0.question_id r.questions ≡ some (parsed q)
    → claim_for r id d0 q now ≡ ok (r', d)
    → (r'.questions ≡ r.questions) × ClaimOutcome r id d
unfolding claim_for
claim_for_lem r r' id now d0 d q was pending stored e =
    elim (Bool-cases (not (is_waiting q.status) || not (links_to q.delivery id))) [
      | inl stale ↦
          let e1 = rw stale at e in
          (
            cancelled_keeps r r' id now "question_not_waiting_at_delivery_time" d e1,
            inl (
                cancelled_pending r r' id now "question_not_waiting_at_delivery_time" d0 d was
                  pending e1),
          )
      | inr waits ↦
          subst-ok
            (λ (x : Runtime × Delivery). (x.0.questions ≡ r.questions) × ClaimOutcome r id x.1)
            (rw waits at e)
            (
              unfold put_delivery in refl,
              inr (refl, (q, stored, ground (arith, waits), ground (arith, waits))),
            )
    ]

cancelled_status : (s : DeliveryStatus) → is_cancelled s ≡ true → s ≡ delivery_cancelled
unfolding is_cancelled
cancelled_status DeliveryStatus.pending_connector_delivery h = absurd (cc)
cancelled_status ready_for_connector_delivery h = absurd (cc)
cancelled_status delivery_cancelled h = refl
cancelled_status (DeliveryStatus.written_by_connector s) h = absurd (cc)

-- A claim that succeeds changes no question, and it returns the item either as cancelled or as ready
-- for the connector; ready only where the item's question is stored, waits for a reply, and links to
-- this very delivery.
pub claimed_is_waited_for :
    (r r' : Runtime) (id now : String) (d : Delivery)
    → claim_slack_decision_delivery r id now ≡ ok (r', d)
    → (r'.questions ≡ r.questions) × ClaimOutcome r id d
unfolding claim_slack_decision_delivery claim_pending
claimed_is_waited_for r r' id now d e =
    let (_, e1) = raise_if->>-eq-ok (is_blank id || not (is_file_name id)) unsafe_id _ e in
    let (d0, stored, e2) = >>=-eq-ok (loaded (read id r.outbox) invalid_outbox_item) _ e1 in
    let was = loaded-eq-ok (read id r.outbox) invalid_outbox_item d0 stored in
    elim (Bool-cases (is_cancelled d0.status)) [
      | inl withdrawn ↦
          subst-ok
            (λ (x : Runtime × Delivery). (x.0.questions ≡ r.questions) × ClaimOutcome r id x.1)
            (rw withdrawn at e2) (refl, inl (cancelled_status d0.status withdrawn))
      | inr other ↦
          let (pending, e3) =
            raise_if->>-eq-ok (not (is_pending d0.status)) not_claimable _ (rw other at e2) in
          let (_, e4) =
            raise_if->>-eq-ok (is_empty d0.question_id || not (is_file_name d0.question_id))
              invalid_question_id _ e3 in
          let (q, found, e5) =
            >>=-eq-ok (loaded (read d0.question_id r.questions) invalid_question) _ e4 in
          claim_for_lem r r' id now d0 d q was (ground (arith, pending))
            (loaded-eq-ok (read d0.question_id r.questions) invalid_question q found) e5
    ]

withdraw_keeps :
    (r r' : Runtime) (o : Option Link) (now : String)
    → withdraw r o now ≡ ok r'
    → r'.questions ≡ r.questions
unfolding withdraw
withdraw_keeps r r' none now e = subst-ok (λ (x : Runtime). x.questions ≡ r.questions) e refl
withdraw_keeps r r' (some link) now e = elim (Bool-cases (link.channel == "slack")) [
  | inl slack ↦
      let reason : String = "question_resolved_before_delivery" in
      let ((r1, d), kept, e1) =
        >>=-eq-ok (cancel_pending_delivery r link.delivery_id now reason) _ (rw slack at e) in
      subst-ok (λ (x : Runtime). x.questions ≡ r.questions) e1
        (cancelled_keeps r r1 link.delivery_id now reason d kept)
  | inr other ↦ subst-ok (λ (x : Runtime). x.questions ≡ r.questions) (rw other at e) refl
]

-- What the resolution of a question writes.
pub resolved_lem :
    (r r' : Runtime) (id answer actor now : String) (q : Question)
    → resolve_open_question r id answer actor now ≡ ok (r', q)
    → (old : Question) × (read id r.questions ≡ some (parsed old))
      × (is_unanswered old.status ≡ true)
      × (q ≡ resolution_of old answer actor now)
      × (r'.questions ≡ write id (parsed q) r.questions)
unfolding resolve_open_question
resolved_lem r r' id answer actor now q e =
    let (_, e1) =
      raise_if->>-eq-ok (is_blank id || is_blank answer || is_blank actor) blank_argument _ e in
    let (old, stored, e2) = >>=-eq-ok (loaded (read id r.questions) invalid_question) _ e1 in
    let (unanswered, e3) = raise_if->>-eq-ok (not (is_unanswered old.status)) not_resolvable _ e2 in
    let (r1, withdrawn, e4) = >>=-eq-ok (withdraw r old.delivery now) _ e3 in
    (
      old,
      loaded-eq-ok (read id r.questions) invalid_question old stored,
      ground (arith, unanswered),
      subst-ok (λ (x : Runtime × Question). x.1 ≡ resolution_of old answer actor now) e4 refl,
      subst-ok (λ (x : Runtime × Question). x.0.questions ≡ write id (parsed x.1) r.questions) e4
          (unfold put_question in
            ap (write id (parsed (resolution_of old answer actor now)))
              (withdraw_keeps r r1 old.delivery now withdrawn)),
    )
