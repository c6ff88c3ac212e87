-- ===== src/Questions/Finality.antt =====
-- What happens to a question that is resolved: open_questions.py.
use mathlib.Core.Path.{subst}
use circled_wiki.Base.{
  String, ◌==◌, ◌≡◌, ◌≢◌, refl, sym, ap, ◌∙◌, true, false, not, ◌||◌, Option, none, some, inl, inr,
  Bool-cases, arith, is_blank, Directory, File, parsed, read, write, read-write, eq_iff, eq_refl,
  ok, >>=-eq-ok, subst-ok, raise_if->>-eq-ok,
}
use circled_wiki.Questions.Model.{
  QuestionStatus, Question, Delivery, Runtime, is_waiting, delivery_cancelled, is_unanswered,
  is_open, invalid_question, blank_argument, not_queueable,
}
use circled_wiki.Questions.Operations.{
  loaded, put_question, put_delivery, resolution_of, resolve_open_question, waiting_question,
  queue_slack_decision, record_open_question, question_name,
}
use circled_wiki.Questions.Sweeps.{reconciled_keeps}
use circled_wiki.Questions.Deliveries.{
  reconcile_open_question_deliveries, claim_slack_decision_delivery,
}
use circled_wiki.Questions.Claims.{loaded-eq-ok, resolved_lem, claimed_is_waited_for}

-- One operation that changes a question or a delivery. A new question's UUID is not in use.
pub data Change (r : Runtime) : Runtime → Type 0 where
  asked :
      (question asked_of context : String) (bundle evidence : Option String) (uuid now : String)
      {r' : Runtime} (q : Question)
      → read (question_name uuid) r.questions ≡ none
      → record_open_question r question asked_of context bundle evidence uuid now ≡ ok (r', q)
      → Change r r'
  queued :
      (id recipient uuid now : String) {r' : Runtime} (d : Delivery)
      → queue_slack_decision r id recipient uuid now ≡ ok (r', d)
      → Change r r'
  claimed :
      (id now : String) {r' : Runtime} (d : Delivery)
      → claim_slack_decision_delivery r id now ≡ ok (r', d)
      → Change r r'
  answered :
      (id answer actor now : String) {r' : Runtime} (q : Question)
      → resolve_open_question r id answer actor now ≡ ok (r', q)
      → Change r r'
  swept : (now : String) → Change r (reconcile_open_question_deliveries r now).0

pub data Changes (r : Runtime) : Runtime → Type 0 where
  stay : Changes r r
  then_change : {r' r'' : Runtime} → Changes r r' → Change r' r'' → Changes r r''

-- A question is stored that is neither open nor waiting.
abbrev pub IsAnswered : Runtime → String → Question → Type 0
IsAnswered r id q = (read id r.questions ≡ some (parsed q)) × (is_unanswered q.status ≡ false)

-- A write of a question whose id is another one.
kept_by_write :
    (id k : String) (q x y : Question) (m : Directory (File Question))
    → read id m ≡ some (parsed q)
    → is_unanswered q.status ≡ false
    → read k m ≡ some (parsed x)
    → is_unanswered x.status ≡ true
    → read id (write k (parsed y) m) ≡ some (parsed q)
kept_by_write id k q x y m was final other unanswered = elim (Bool-cases (k == id)) [
  | inl same ↦
      let named : k ≡ id = ground (arith, eq_iff k id, same) in
      let whole : some (parsed x) ≡ some (parsed q) =
        sym (subst (λ j. read j m ≡ some (parsed x)) named other) ∙ was in
      absurd (cc (whole, final, unanswered))
  | inr away ↦ rw (read-write k id (parsed y) m) (rw away was)
]

open_is_unanswered : (s : QuestionStatus) → is_open s ≡ true → is_unanswered s ≡ true
unfolding is_open is_unanswered
open_is_unanswered QuestionStatus.open_now h = refl
open_is_unanswered QuestionStatus.waiting_for_reply h = refl
open_is_unanswered QuestionStatus.resolved h = h
open_is_unanswered QuestionStatus.cancelled h = h

queued_writes :
    (r r' : Runtime) (id recipient uuid now : String) (d : Delivery)
    → queue_slack_decision r id recipient uuid now ≡ ok (r', d)
    → (x y : Question) × (read id r.questions ≡ some (parsed x))
      × (is_unanswered x.status ≡ true)
      × (r'.questions ≡ write id (parsed y) r.questions)
unfolding queue_slack_decision
queued_writes r r' id recipient uuid now d e =
    let (_, e1) = raise_if->>-eq-ok (is_blank id || is_blank recipient) blank_argument _ e in
    let (x, stored, e2) = >>=-eq-ok (loaded (read id r.questions) invalid_question) _ e1 in
    let (is_open_now, e3) = raise_if->>-eq-ok (not (is_open x.status)) not_queueable _ e2 in
    let y = waiting_question x recipient uuid now in
    (
      x,
      y,
      loaded-eq-ok (read id r.questions) invalid_question x stored,
      open_is_unanswered x.status (ground (arith, is_open_now)),
      subst-ok (λ (z : Runtime × Delivery). z.0.questions ≡ write id (parsed y) r.questions) e3
          (unfold put_question in unfold put_delivery in refl),
    )

asked_keeps :
    (r r' : Runtime) (question asked_of context : String) (bundle evidence : Option String)
    (uuid now id : String) (x q : Question)
    → read id r.questions ≡ some (parsed q)
    → read (question_name uuid) r.questions ≡ none
    → record_open_question r question asked_of context bundle evidence uuid now ≡ ok (r', x)
    → read id r'.questions ≡ some (parsed q)
unfolding record_open_question put_question
asked_keeps r r' question asked_of context bundle evidence uuid now id x q was fresh e =
    let (_, e1) =
      raise_if->>-eq-ok (is_blank question || is_blank asked_of || is_blank context) blank_argument
        _ e in
    subst-ok (λ (z : Runtime × Question). read id z.0.questions ≡ some (parsed q)) e1
      (elim (Bool-cases (question_name uuid == id)) [
        | inl same ↦
            let named : question_name uuid ≡ id =
              ground (arith, eq_iff (question_name uuid) id, same) in
            absurd (cc (ap (λ k. read k r.questions) named, fresh, was))
        | inr other ↦ rw (read-write (question_name uuid) id _ r.questions) (rw other was)
      ])

IsAnswered-Change :
    (r r' : Runtime) (id : String) (q : Question)
    → IsAnswered r id q
    → Change r r'
    → IsAnswered r' id q
IsAnswered-Change r r' id q h (asked question asked_of context bundle evidence uuid now x fresh e) =
    (asked_keeps r r' question asked_of context bundle evidence uuid now id x q h.0 fresh e, h.1)
IsAnswered-Change r r' id q h (queued k recipient uuid now d e) =
    let (x, y, stored, unanswered, written) = queued_writes r r' k recipient uuid now d e in
    (
      subst (λ m. read id m ≡ some (parsed q)) (sym written)
          (kept_by_write id k q x y r.questions h.0 h.1 stored unanswered),
      h.1,
    )
IsAnswered-Change r r' id q h (claimed k now d e) = (
  subst (λ m. read id m ≡ some (parsed q)) (sym (claimed_is_waited_for r r' k now d e).0) h.0,
  h.1,
)
IsAnswered-Change r r' id q h (answered k answer actor now y e) =
    let (x, stored, unanswered, _, written) = resolved_lem r r' k answer actor now y e in
    (
      subst (λ m. read id m ≡ some (parsed q)) (sym written)
          (kept_by_write id k q x y r.questions h.0 h.1 stored unanswered),
      h.1,
    )
IsAnswered-Change r _ id q h (swept now) =
    (subst (λ m. read id m ≡ some (parsed q)) (sym (reconciled_keeps r now)) h.0, h.1)

IsAnswered-Changes :
    (r r' : Runtime) (id : String) (q : Question)
    → IsAnswered r id q
    → Changes r r'
    → IsAnswered r' id q
IsAnswered-Changes r _ id q h stay = h
IsAnswered-Changes r r' id q h (then_change {r' = r1} steps step) =
    IsAnswered-Change r1 r' id q (IsAnswered-Changes r r1 id q h steps) step

answered_stays_closed :
    (r : Runtime) (id : String) (q : Question)
    → IsAnswered r id q
    → ((answer actor now : String) (x : Runtime × Question)
        → resolve_open_question r id answer actor now ≢ ok x)
      × ((recipient uuid now : String) (x : Runtime × Delivery)
          → queue_slack_decision r id recipient uuid now ≢ ok x)
answered_stays_closed r id q h = (
  λ answer actor now x e.
      let (old, stored, unanswered, _, _) = resolved_lem r x.0 id answer actor now x.1 e in
      absurd (cc (stored, h.0, unanswered, h.1)),
  λ recipient uuid now x e.
      let (old, _, stored, unanswered, _) = queued_writes r x.0 id recipient uuid now x.1 e in
      absurd (cc (stored, h.0, unanswered, h.1)),
)

resolved_IsAnswered :
    (r r' : Runtime) (id answer actor now : String) (q : Question)
    → resolve_open_question r id answer actor now ≡ ok (r', q)
    → IsAnswered r' id q
unfolding resolution_of is_unanswered
resolved_IsAnswered r r' id answer actor now q e =
    let (old, _, _, made, written) = resolved_lem r r' id answer actor now q e in
    (rw written (rw (read-write id id (parsed q) r.questions) (simp eq_refl)), rw made refl)

-- A resolution is final. Whatever questions are asked (under ids that are not in use), queued,
-- claimed, swept and resolved afterwards, in any order, the record of a resolved question stays as
-- its resolution wrote it, and it can be neither resolved again nor queued for Slack. A sweep is the
-- reconciliation of the whole outbox.
pub resolved_is_final :
    (r r' r'' : Runtime) (id answer actor now : String) (q : Question)
    → resolve_open_question r id answer actor now ≡ ok (r', q)
    → Changes r' r''
    → (read id r''.questions ≡ some (parsed q))
      × ((answer' actor' now' : String) (x : Runtime × Question)
          → resolve_open_question r'' id answer' actor' now' ≢ ok x)
      × ((recipient uuid now' : String) (x : Runtime × Delivery)
          → queue_slack_decision r'' id recipient uuid now' ≢ ok x)
resolved_is_final r r' r'' id answer actor now q e steps =
    let h =
      IsAnswered-Changes r' r'' id q (resolved_IsAnswered r r' id answer actor now q e) steps in
    let (not_again, not_queued) = answered_stays_closed r'' id q h in (h.0, not_again, not_queued)

waiting_is_unanswered : (s : QuestionStatus) → is_waiting s ≡ true → is_unanswered s ≡ true
unfolding is_waiting is_unanswered
waiting_is_unanswered QuestionStatus.open_now h = refl
waiting_is_unanswered QuestionStatus.waiting_for_reply h = refl
waiting_is_unanswered QuestionStatus.resolved h = h
waiting_is_unanswered QuestionStatus.cancelled h = h

-- Once a question is resolved, no claim hands one of its deliveries to the connector: whatever
-- questions are asked (under ids that are not in use), queued, claimed, swept and resolved in
-- between, in any order, a claim that succeeds for an item of this question returns it cancelled.
pub resolved_is_not_delivered :
    (r r' r'' s : Runtime) (question_id answer actor now id now' : String) (q : Question)
    (d : Delivery)
    → resolve_open_question r question_id answer actor now ≡ ok (r', q)
    → Changes r' r''
    → claim_slack_decision_delivery r'' id now' ≡ ok (s, d)
    → d.question_id ≡ question_id
    → d.status ≡ delivery_cancelled
resolved_is_not_delivered r r' r'' s question_id answer actor now id now' q d e steps taken named =
    elim (claimed_is_waited_for r'' s id now' d taken).1 [
      | inl withdrawn ↦ withdrawn
      | inr (_, (x, stored, waits, _)) ↦
          let (is_read, final) =
            IsAnswered-Changes r' r'' question_id q
              (resolved_IsAnswered r r' question_id answer actor now q e) steps in
          let same : some (parsed x) ≡ some (parsed q) =
            sym (subst (λ k. read k r''.questions ≡ some (parsed x)) named stored) ∙ is_read in
          absurd (cc (same, final, waiting_is_unanswered x.status waits))
    ]
