-- ===== src/Governance/Claims.antt =====
-- `validate_claim_support` of governance.py. Parameters: the front matter of the document with an
-- id, whether the original of an Evidence is damaged, and Python's text of a value that is no text.
use circled_wiki.Base.{
  String, ℕ, Bool, true, false, not, ◌&&◌, Option, none, some, List, [], ◌∷◌, ◌++◌, Value, Values,
  Fields, str, array, object, nil, cons, at_key, has_key, equals, is_among, is_hashable, is_blank,
  length, when, if◌then◌else◌, Result, ok, raise_if, ◌>>◌, ◌>>=◌,
}
use circled_wiki.Governance.Metrics.{is_restricted}

pub data ClaimProblem : Type 0 where
  claim_empty : ClaimProblem
  status_invalid : ClaimProblem
  ids_not_array : ClaimProblem
  requires_evidence : ClaimProblem
  does_not_resolve : ClaimProblem
  is_restricted_evidence : ClaimProblem
  not_available : ClaimProblem
  damaged : ClaimProblem

-- `status not in {...}` of a value without a hash.
pub data ClaimError : Type 0 where
  unhashable_support : ClaimError

abbrev pub support_statuses : List String
support_statuses = "verified" ∷ "limited" ∷ "inferred" ∷ "needs_review" ∷ []

abbrev pub backed_statuses : List String
backed_statuses = "verified" ∷ "limited" ∷ []

-- `str(claim.get("claim", "")).strip()`: every value but a text prints to something.
unfoldable pub states_claim : Fields → Bool
states_claim claim = elim (at_key "claim" claim) [
  | str s ↦ not (is_blank s)
  | _ ↦ has_key "claim" claim
]

-- `claim.get("evidence_ids", [])`, if it is a list.
unfoldable pub listed_evidence : Fields → Option Values
listed_evidence claim =
    if has_key "evidence_ids" claim
    then elim (at_key "evidence_ids" claim) [ array ids ↦ some ids | _ ↦ none ]
    else some nil

unfoldable pub has_none : Values → Bool
has_none nil = true
has_none (cons v vs) = false

unfoldable pub is_available : Fields → Bool
is_available frontmatter = elim (at_key "extensions" frontmatter) [
  | object extensions ↦ equals "available" (at_key "availability" extensions)
  | _ ↦ false
]

unfoldable pub is_clean : List ClaimProblem → Bool
is_clean [] = true
is_clean (x ∷ xs) = false

module _ (find_document : String → Option Fields) (is_damaged : String → Bool)
    (printed : Value → String) where
  -- `str(evidence_id)`.
  unfoldable pub id_text : Value → String
  id_text (str s) = s
  id_text v = printed v

  unfoldable pub check_document : Value → String → Option Fields → List ClaimProblem
  unfolding is_available
  check_document status id none = does_not_resolve ∷ []
  check_document status id (some evidence) =
      if not (equals "evidence" (at_key "type" evidence))
      then does_not_resolve ∷ []
      else if is_restricted evidence
      then is_restricted_evidence ∷ []
      else if equals "verified" status && not (is_available evidence)
      then not_available ∷ []
      else when (equals "verified" status && is_damaged id) damaged

  unfoldable pub check_ids : Value → Values → List ClaimProblem
  unfolding check_document id_text
  check_ids status nil = []
  check_ids status (cons v vs) =
      check_document status (id_text v) (find_document (id_text v)) ++ check_ids status vs

  unfoldable pub check_support : Value → Option Values → List ClaimProblem
  unfolding check_ids has_none
  check_support status none = ids_not_array ∷ []
  check_support status (some ids) =
      when (is_among backed_statuses status && has_none ids) requires_evidence
      ++ check_ids status ids

  unfoldable pub check_claim : Value → Result ClaimError (List ClaimProblem)
  unfolding states_claim listed_evidence check_support
  check_claim (object claim) =
      let status = at_key "support_status" claim in
      if not (states_claim claim)
      then ok (claim_empty ∷ [])
      else raise_if (not (is_hashable status)) unhashable_support
        >> ok (
            if is_among support_statuses status
            then check_support status (listed_evidence claim)
            else status_invalid ∷ [])
  check_claim v = ok (claim_empty ∷ [])

  unfoldable pub check_claims : List Value → Result ClaimError (List ClaimProblem)
  unfolding check_claim
  check_claims [] = ok []
  check_claims (claim ∷ claims) = do
    problems ← check_claim claim
    rest ← check_claims claims
    ok (problems ++ rest)

  -- Whether the claims are valid, and the problems.
  unfoldable pub validate_claim_support :
      List Value → Result ClaimError (Bool × List ClaimProblem × ℕ)
  unfolding check_claims is_clean
  validate_claim_support claims =
      check_claims claims >>= λ problems. ok (is_clean problems, problems, length claims)
