-- ===== src/Governance/Metrics.antt =====
-- `measure_runbook_effectiveness` of governance.py. The documents, their parsed front matter and the
-- parsed JSON of their originals are the argument: an original that is missing or does not parse is
-- `none`.
use Prim.Native.Nat.{suc}
use circled_wiki.Base.{
  String, ℕ, ◌+◌, Bool, true, false, not, ◌&&◌, ◌||◌, Option, none, some, List, [], ◌∷◌, Value,
  Fields, null, boolean, number, str, array, object, nil, cons, end, field, at_key, has_key,
  is_hashable, equals, is_blank, is_empty, contains, codes, ltb, leb, nat_eq, if◌then◌else◌, Result,
  ok, err, raise_if, ◌>>◌, ◌>>=◌,
}
use circled_wiki.Protection.{digits_value}

pub record EvidenceFile : Type 0 where
  pub parts : List String
  pub name : String
  pub frontmatter : Fields
  pub original : Option Value

pub record Metric : Type 0 where
  pub total : ℕ
  pub completed : ℕ
  pub failed : ℕ
  pub needs_review : ℕ
  pub with_feedback : ℕ

-- An `int`: the number, or the number below zero.
pub data Revision : Type 0 where
  from_zero : ℕ → Revision
  below_zero : ℕ → Revision

abbrev pub Revisions : Type 0
Revisions = List (Revision × Metric)

pub data MeasureError : Type 0 where
  -- `payload.get` of an original that is no mapping.
  not_mapping : MeasureError
  -- `status in {...}` of a value without a hash.
  unhashable_status : MeasureError

-- `extensions.get("visibility") == "restricted"`.
unfoldable pub is_restricted : Fields → Bool
is_restricted frontmatter = elim (at_key "extensions" frontmatter) [
  | object extensions ↦ equals "restricted" (at_key "visibility" extensions)
  | _ ↦ false
]

unfoldable pub same_revision : Revision → Revision → Bool
same_revision (from_zero a) (from_zero b) = nat_eq a b
same_revision (below_zero a) (below_zero b) = nat_eq a b
same_revision r q = false

unfoldable pub less_revision : Revision → Revision → Bool
less_revision (from_zero a) (from_zero b) = ltb a b
less_revision (below_zero a) (below_zero b) = ltb b a
less_revision (below_zero a) (from_zero b) = true
less_revision (from_zero a) (below_zero b) = false

-- `-n`, where minus zero is zero.
unfoldable pub negated : ℕ → Revision
negated ℕ.zero = from_zero 0
negated (ℕ.suc n) = below_zero (ℕ.suc n)

signed_literal : List ℕ → Option Revision
unfolding digits_value negated
signed_literal [] = none
signed_literal (c ∷ s) =
    if nat_eq c b'-'
    then elim (digits_value 0 s) [ none ↦ none | some n ↦ some (negated n) ]
    else elim (digits_value 0 (c ∷ s)) [ none ↦ none | some n ↦ some (from_zero n) ]

-- `isinstance(value, int)` but no Boolean; a literal with a fraction or an exponent is no `int`.
unfoldable pub revision_of : Value → Option Revision
unfolding signed_literal
revision_of (number literal) = signed_literal (codes literal)
revision_of v = none

-- `bool(value)`.
unfoldable pub is_truthy : Value → Bool
is_truthy null = false
is_truthy (boolean b) = b
is_truthy (number literal) = not (contains literal ("0" ∷ "0.0" ∷ "-0" ∷ "-0.0" ∷ []))
is_truthy (str s) = not (is_empty s)
is_truthy (array nil) = false
is_truthy (array (cons v vs)) = true
is_truthy (object end) = false
is_truthy (object (field k v fs)) = true

-- `str(payload.get("feedback", "")).strip()`: every value but a text prints to something.
unfoldable pub has_feedback : Fields → Bool
has_feedback payload = elim (at_key "feedback" payload) [
  | str s ↦ not (is_blank s)
  | _ ↦ has_key "feedback" payload
]

abbrev pub no_metric : Metric
no_metric = record { total = 0; completed = 0; failed = 0; needs_review = 0; with_feedback = 0 }

abbrev pub one_if : Bool → ℕ
one_if true = 1
one_if false = 0

unfoldable pub counted : Value → Bool → Metric → Metric
counted status feedback m = record {
  total = suc m.total;
  completed = m.completed + one_if (equals "completed" status);
  failed = m.failed + one_if (equals "failed" status);
  needs_review = m.needs_review + one_if (equals "needs_review" status);
  with_feedback = m.with_feedback + one_if feedback;
}

-- The metric of a revision, in the order of `sorted(revisions)`; a new one starts at zero.
unfoldable pub count_in : (Metric → Metric) → Revision → Revisions → Revisions
unfolding same_revision less_revision
count_in f r [] = (r, f no_metric) ∷ []
count_in f r ((q, m) ∷ rest) =
    let later = count_in f r rest in
    if same_revision r q
    then (q, f m) ∷ rest
    else if less_revision r q
    then (r, f no_metric) ∷ (q, m) ∷ rest
    else (q, m) ∷ later

-- `payload.get("target_workflow_id") or payload.get("workflow_id")`.
unfoldable pub target_of : Fields → Value
unfolding is_truthy
target_of payload =
    if is_truthy (at_key "target_workflow_id" payload)
    then at_key "target_workflow_id" payload
    else at_key "workflow_id" payload

unfoldable pub count_payload : String → Fields → Revisions → Result MeasureError Revisions
unfolding target_of revision_of has_feedback counted count_in
count_payload workflow_id payload revisions =
    if not (equals "workflow-outcome" (at_key "type" payload))
      || not (equals workflow_id (target_of payload))
    then ok revisions
    else elim (revision_of (at_key "knowledge_revision" payload)) [
      | none ↦ ok revisions
      | some r ↦
          raise_if (not (is_hashable (at_key "status" payload))) unhashable_status
          >> ok (count_in (counted (at_key "status" payload) (has_feedback payload)) r revisions)
    ]

unfoldable pub is_evidence : EvidenceFile → Bool
unfolding is_restricted
is_evidence f =
    contains "evidence" f.parts
    && not (contains f.name ("index.md" ∷ "log.md" ∷ []))
    && not (is_restricted f.frontmatter)

unfoldable pub count_original : String → Option Value → Revisions → Result MeasureError Revisions
unfolding count_payload
count_original workflow_id none revisions = ok revisions
count_original workflow_id (some (object payload)) revisions =
    count_payload workflow_id payload revisions
count_original workflow_id (some v) revisions = err not_mapping

unfoldable pub count_files : String → List EvidenceFile → Revisions → Result MeasureError Revisions
unfolding is_evidence count_original
count_files workflow_id [] revisions = ok revisions
count_files workflow_id (f ∷ files) revisions = do
  after ← (if is_evidence f then count_original workflow_id f.original revisions else ok revisions)
  count_files workflow_id files after

pub record Effectiveness : Type 0 where
  pub workflow_id : String
  pub revisions : Revisions
  pub comparable : Bool

-- `all(row["total"] > 0 for row in rows[-2:])` behind `len(rows) >= 2`.
unfoldable pub last_two_counted : Revisions → Bool
last_two_counted [] = false
last_two_counted (r ∷ []) = false
last_two_counted (r ∷ q ∷ []) = leb 1 r.1.total && leb 1 q.1.total
last_two_counted (r ∷ q ∷ p ∷ rest) = last_two_counted (q ∷ p ∷ rest)

unfoldable pub measure_runbook_effectiveness :
    List EvidenceFile → String → Result MeasureError Effectiveness
unfolding count_files last_two_counted
measure_runbook_effectiveness files workflow_id = do
  revisions ← count_files workflow_id files []
  ok (record {
    workflow_id = workflow_id;
    revisions = revisions;
    comparable = last_two_counted revisions;
  })
