-- ===== src/Curation/ContractSamples.antt =====
-- Tests of the curation contract, and its property at a concrete input.
use Prim.Native.String.{String}
use circled_wiki.Base.{
  ◌≡◌, ◌⊎◌, refl, List, [], ◌∷◌, is_blank, is_empty, strip, contains, distinct, str, array, nil,
  cons, Result, ok,
}
use circled_wiki.Curation.Contract.{
  Payload, OutputError, CurationOutput, validate_curation_output, is_safe,
}
use circled_wiki.Curation.Grounded.{IsGrounded, IsBundle, accepted_output}

abbrev payload : Payload
payload =
    ("action", str "guide")
    ∷ ("domain", str "sales")
    ∷ ("bundle_type", str " guide ")
    ∷ ("evidence_ids", array (cons (str "evidence/2") (cons (str "evidence/1") nil)))
    ∷ ("tags", array (cons (str "pricing") nil))
    ∷ ("title", str "Prices")
    ∷ ("summary", str "How prices are set")
    ∷ ("body", str "# Prices")
    ∷ []

abbrev allowed : List String
allowed = "evidence/1" ∷ "evidence/2" ∷ []

abbrev accepted : Result OutputError CurationOutput
accepted = validate_curation_output payload allowed

abbrev output : CurationOutput
output = record {
  action = "guide";
  domain = "sales";
  bundle_type = "guide";
  title = "Prices";
  summary = "How prices are set";
  body = "# Prices";
  evidence_ids = "evidence/2" ∷ "evidence/1" ∷ [];
  rationale = "";
  limitations = "";
  existing_bundle_candidates = [];
  update_mode = "";
  base_body_checksum = "";
  replace_reason = "";
  confidence = "";
  recheck_condition = "";
  tags = "pricing" ∷ [];
  slug = "";
}

accepted_ok : accepted ≡ ok output
unfolding validate_curation_output is_blank is_empty strip contains distinct is_safe
accepted_ok = refl

accepted_output_example :
    IsGrounded output allowed × ((output.action ≡ "no_bundle") ⊎ IsBundle output)
accepted_output_example = accepted_output payload allowed output accepted_ok
