-- ===== src/Tasks/OutcomeLists.antt =====
-- The list arguments of `record_outcome` of workflow.py and their checks, over JSON values. Whether
-- an id is that of an Evidence document, which the repository's lookup decides, and whether
-- `datetime.fromisoformat` reads a value as it prints are parameters.
use circled_wiki.Base.{
  String, Bool, false, not, ◌&&◌, ◌||◌, Option, none, some, List, [], ◌∷◌, is_blank, is_empty,
  contains, texts, Value, Values, Fields, null, boolean, number, str, array, object, nil, cons, end,
  field, at_key, has_key, Result, ok, err, ◌>>◌, raise_if,
}
use circled_wiki.Tasks.Model.{
  TaskError, artifact_unnamed, availability_invalid, availability_unhashable, artifact_without_uri,
  decision_unstated, decision_unexplained, decision_unsupported, decision_evidence_missing,
  action_item_incomplete, invalid_due_at, question_incomplete,
}

-- An artifact of the outcome, as the profile check reads it: `sections` is a list of texts.
pub record Artifact : Type 0 where
  pub profile : Option String
  pub sections : List String

-- `list(artifacts or [])` and the three other lists.
pub record OutcomeLists : Type 0 where
  pub artifacts : List Value
  pub decisions : List Value
  pub action_items : List Value
  pub open_questions : List Value

-- What the checks ask elsewhere.
pub record Lookups : Type 0 where
  pub resolves : Value → Bool
  pub is_timestamp : Value → Bool

-- ARTIFACT_AVAILABILITY.
abbrev pub artifact_availability : List String
artifact_availability =
    "available" ∷ "metadata_only" ∷ "temporarily_unavailable" ∷ "access_denied" ∷ "missing" ∷ []

-- `not str(item.get(k, "")).strip()`: every value but a text prints to something.
unfoldable pub says_nothing : String → Fields → Bool
says_nothing k item = elim (at_key k item) [ str s ↦ is_blank s | _ ↦ not (has_key k item) ]

-- `if due_at`.
unfoldable pub is_given : Value → Bool
is_given null = false
is_given (boolean b) = b
is_given (number literal) = not (contains literal ("0" ∷ "0.0" ∷ "-0" ∷ "-0.0" ∷ []))
is_given (str s) = not (is_empty s)
is_given (array nil) = false
is_given (array (cons v vs)) = not false
is_given (object end) = false
is_given (object (field k v fs)) = not false

-- The checks of `availability` and `uri`.
unfoldable pub check_availability : Value → Bool → Result TaskError (Unit {0})
check_availability (str availability) lacks_uri = do
  raise_if (not (contains availability artifact_availability)) availability_invalid
  raise_if (contains availability ("available" ∷ "metadata_only" ∷ []) && lacks_uri)
      artifact_without_uri
check_availability (array vs) lacks_uri = err availability_unhashable
check_availability (object fs) lacks_uri = err availability_unhashable
check_availability v lacks_uri = err availability_invalid

unfoldable pub check_artifact : Value → Result TaskError (Unit {0})
unfolding says_nothing check_availability
check_artifact (object item) =
    raise_if (says_nothing "name" item) artifact_unnamed
    >> check_availability (at_key "availability" item) (says_nothing "uri" item)
check_artifact v = err artifact_unnamed

unfoldable pub check_evidence : Lookups → Values → Result TaskError (Unit {0})
check_evidence look nil = ok tt
check_evidence look (cons id ids) =
    raise_if (not (look.resolves id)) decision_evidence_missing >> check_evidence look ids

unfoldable pub check_evidence_ids : Lookups → Value → Result TaskError (Unit {0})
unfolding check_evidence
check_evidence_ids look (array (cons id ids)) = check_evidence look (cons id ids)
check_evidence_ids look v = err decision_unsupported

unfoldable pub check_decision : Lookups → Value → Result TaskError (Unit {0})
unfolding says_nothing check_evidence_ids
check_decision look (object item) = do
  raise_if (says_nothing "decision" item) decision_unstated
  raise_if (says_nothing "decided_by" item || says_nothing "rationale" item) decision_unexplained
  check_evidence_ids look (at_key "evidence_ids" item)
check_decision look v = err decision_unstated

unfoldable pub check_action_item : Lookups → Value → Result TaskError (Unit {0})
unfolding says_nothing is_given
check_action_item look (object item) = do
  raise_if
      (says_nothing "title" item
        || says_nothing "owner" item
        || says_nothing "completion_criteria" item)
      action_item_incomplete
  raise_if (is_given (at_key "due_at" item) && not (look.is_timestamp (at_key "due_at" item)))
      invalid_due_at
check_action_item look v = err action_item_incomplete

unfoldable pub check_question : Value → Result TaskError (Unit {0})
unfolding says_nothing
check_question (object item) =
    raise_if (says_nothing "question" item || says_nothing "owner" item) question_incomplete
check_question v = err question_incomplete

unfoldable pub check_each :
    (Value → Result TaskError (Unit {0})) → List Value → Result TaskError (Unit {0})
check_each check [] = ok tt
check_each check (v ∷ vs) = check v >> check_each check vs

-- The four loops in front of the read of the task.
unfoldable pub check_lists : Lookups → OutcomeLists → Result TaskError (Unit {0})
unfolding check_each check_artifact check_decision check_action_item check_question
check_lists look lists = do
  check_each check_artifact lists.artifacts
  check_each (check_decision look) lists.decisions
  check_each (check_action_item look) lists.action_items
  check_each check_question lists.open_questions

unfoldable pub profile_of : Value → Option String
profile_of (str s) = some s
profile_of v = none

unfoldable pub sections_of : Value → List String
unfolding texts
sections_of (array vs) = texts vs
sections_of v = []

unfoldable pub artifact_of : Value → Artifact
unfolding profile_of sections_of
artifact_of (object item) = record {
  profile = profile_of (at_key "profile" item);
  sections = sections_of (at_key "sections" item);
}
artifact_of v = record { profile = none; sections = [] }

unfoldable pub artifacts_of : List Value → List Artifact
unfolding artifact_of
artifacts_of [] = []
artifacts_of (v ∷ vs) = artifact_of v ∷ artifacts_of vs
