-- ===== src/Inbox/Provenance.antt =====
-- What `review_context` of inbox_review_queue.py hands to a new Evidence item.
use circled_wiki.Base.{
  end, String, Bool, true, ◌≡◌, refl, inl, inr, Option, none, some, List, [], ◌∷◌, Value, Fields,
  str, object, null, at_key, Bool-cases, Option-cases, Result, ok, err, >>=-eq-ok,
  or_raise->>=-eq-ok, subst-ok,
}
use circled_wiki.Protection.{
  Unhashable, ReceiptError, data_protection_receipt_errors, IsCleared,
  data_protection_receipt_errors-IsCleared,
}
use circled_wiki.Inbox.Model.{ReviewTask, ReviewQueue, InboxError, candidate_unreadable}
use circled_wiki.Inbox.Tasks.{get_inbox_review, all_settled}
use circled_wiki.Inbox.Reads.{IsFound, get_inbox_review-IsFound}
use circled_wiki.Inbox.Context.{
  Context, if_clean, context_decisions, checksum_text, context_for, checked_context, context_of,
  review_context,
}

abbrev receipt_or_end : Option Context → Fields
receipt_or_end none = end
receipt_or_end (some c) = c.data_protection_receipt

context_for_inverse :
    (name : String) (t : ReviewTask) (v : Value) (c : Context)
    → context_for name t v ≡ ok (some c)
    → v ≡ object c.data_protection_receipt
unfolding context_for
context_for_inverse name t (object receipt) c e =
    let (decisions, _, e1) = >>=-eq-ok (context_decisions t.requirements) _ e in
    subst-ok (λ (x : Option Context). object receipt ≡ object (receipt_or_end x)) e1 refl
context_for_inverse name t null c e = absurd (cc)
context_for_inverse name t (str s) c e = absurd (cc)
context_for_inverse name t (Value.boolean b) c e = absurd (cc)
context_for_inverse name t (Value.number b) c e = absurd (cc)
context_for_inverse name t (Value.array b) c e = absurd (cc)

if_clean_inverse :
    (m : Result Unhashable (List ReceiptError)) (next : Result InboxError (Option Context))
    (c : Context)
    → if_clean m next ≡ ok (some c)
    → (m ≡ ok []) × (next ≡ ok (some c))
unfolding if_clean
if_clean_inverse (err u) next c e = absurd (cc)
if_clean_inverse (ok []) next c e = (refl, e)
if_clean_inverse (ok (x ∷ xs)) next c e = absurd (cc)

module _ (is_iso : String → Bool) (read_inbox : String → Option Fields)
    (candidate_checksum : String → Fields → Option String) where
  -- The Inbox item of the task and its receipt, which has no errors.
  abbrev pub IsProtected : ReviewTask → Context → Type 0
  IsProtected t c =
      (inbox : Fields) × (read_inbox t.inbox_path ≡ some inbox)
      × (candidate : String) × (candidate_checksum t.inbox_path inbox ≡ some candidate)
      × (at_key "data_protection_receipt" inbox ≡ object c.data_protection_receipt)
      × IsCleared is_iso (checksum_text (at_key "checksum" inbox)) candidate
          c.data_protection_receipt

  checked_inverse :
      (name : String) (t : ReviewTask) (inbox : Fields) (c : Context)
      → read_inbox t.inbox_path ≡ some inbox
      → checked_context is_iso read_inbox candidate_checksum name t inbox ≡ ok (some c)
      → IsProtected t c
  unfolding checked_context
  checked_inverse name t inbox c there e =
      let (candidate, known, e1) =
        or_raise->>=-eq-ok (candidate_checksum t.inbox_path inbox) candidate_unreadable _ e in
      let (clean, e2) =
        if_clean_inverse
          (data_protection_receipt_errors is_iso (at_key "data_protection_receipt" inbox)
            (checksum_text (at_key "checksum" inbox)) (some candidate) true)
          (context_for name t (at_key "data_protection_receipt" inbox)) c e1 in
      let receipt = context_for_inverse name t (at_key "data_protection_receipt" inbox) c e2 in
      let checked : data_protection_receipt_errors is_iso (object c.data_protection_receipt)
            (checksum_text (at_key "checksum" inbox)) (some candidate) true
          ≡ ok [] =
        cc (clean, receipt) in
      (
        inbox,
        there,
        candidate,
        known,
        receipt,
        data_protection_receipt_errors-IsCleared is_iso (checksum_text (at_key "checksum" inbox))
            candidate c.data_protection_receipt checked,
      )

  found_context :
      (name : String) (found : Option ReviewTask) (c : Context)
      → context_of is_iso read_inbox candidate_checksum name found ≡ ok (some c)
      → (t : ReviewTask) × (found ≡ some t) × (all_settled (some t) ≡ true) × IsProtected t c
  unfolding context_of
  found_context name none c e = absurd (cc)
  found_context name (some t) c e = elim (Bool-cases (all_settled (some t))) [
    | inl settled ↦ elim (Option-cases (read_inbox t.inbox_path)) [
      | inl gone ↦
          let f : ok none ≡ ok (some c) = rw (settled, gone, context_of) at e in absurd (cc (f))
      | inr (inbox, there) ↦ (
        t,
        refl,
        settled,
        checked_inverse name t inbox c there (rw (settled, there, context_of) at e),
      )
    ]
    | inr unsettled ↦
        let f : ok none ≡ ok (some c) = rw (unsettled, context_of) at e in absurd (cc (f))
  ]

  -- A review gives a new Evidence item a context only when its task is there with every requirement
  -- resolved, and when the data protection receipt of its Inbox item covers the item's checksum and
  -- the candidate as it is now, was decided, and passed or was masked.
  pub review_context-IsProtected :
      (queue : ReviewQueue) (intake_id : String) (c : Context)
      → review_context is_iso read_inbox candidate_checksum queue intake_id ≡ ok (some c)
      → (name : String) × (t : ReviewTask) × IsFound is_iso queue intake_id name t
        × (all_settled (some t) ≡ true)
        × IsProtected t c
  unfolding review_context
  review_context-IsProtected queue intake_id c e =
      let ((name, found), got, e1) = >>=-eq-ok (get_inbox_review is_iso queue intake_id) _ e in
      let (t, is_there, settled, protected) = found_context name found c e1 in
      (
        name,
        t,
        get_inbox_review-IsFound is_iso queue intake_id name t (cc (got, is_there)),
        settled,
        protected,
      )
