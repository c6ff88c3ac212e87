-- ===== src/Governance/ClaimSamples.antt =====
-- Valid claims at a concrete input.
use circled_wiki.Base.{
  String, Bool, true, false, ◌≡◌, refl, Option, some, none, List, [], ◌∷◌, ◌==◌, Value, Fields, str,
  array, object, nil, cons, end, field, at_key, equals, has_key, contains, is_blank, is_among,
  is_hashable, All, if◌then◌else◌, ok,
}
use circled_wiki.Governance.Metrics.{is_restricted}
use circled_wiki.Governance.Claims.{validate_claim_support}
use circled_wiki.Governance.Supported.{IsSupported, validate_claim_support-IsSupported}

abbrev document : Fields
document =
    field "type" (str "evidence")
      (field "extensions" (object (field "availability" (str "available") end)) end)

abbrev find_document : String → Option Fields
find_document id = if id == "evidence/1" then some document else none

abbrev is_damaged : String → Bool
is_damaged id = false

abbrev printed : Value → String
printed v = "?"

abbrev claims : List Value
claims =
    object (
      field "claim" (str "Prices moved") (
        field "support_status" (str "verified")
          (field "evidence_ids" (array (cons (str "evidence/1") nil)) end)))
    ∷ []

claims_ok : validate_claim_support find_document is_damaged printed claims ≡ ok (true, [], 1)
unfolding validate_claim_support at_key equals has_key contains is_blank is_among is_hashable
    is_restricted
claims_ok = refl

validate_claim_support-IsSupported_example :
    All (IsSupported find_document is_damaged printed) claims
validate_claim_support-IsSupported_example =
    validate_claim_support-IsSupported find_document is_damaged printed claims [] 1 claims_ok
