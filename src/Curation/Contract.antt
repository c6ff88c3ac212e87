-- ===== src/Curation/Contract.antt =====
-- src/circled_wiki/runtime/core/curation_contract.py: the validation of what a model returned for a
-- curation, with the Bundle types of src/circled_wiki/runtime/core/bundle_types.py. The payload is a
-- JSON object, by its fields.
use Prim.Native.Nat.{ℕ}
use Prim.Native.Char.{code}
use Prim.Native.String.{String}
use circled_wiki.Base.{
  ◌==◌, Bool, true, false, not, ◌&&◌, ◌||◌, Option, none, some, List, [], ◌∷◌, all, length,
  non_empty, is_empty, leb, nat_eq, if◌then◌else◌, is_blank, strip, Value, str, array, Values, nil,
  cons, contains, distinct, is_checksum, Result, ok, err, ◌>>=◌, ◌>>◌, raise_if,
}

-- The fields of the payload; the last of two fields with one name counts.
abbrev pub Payload : Type 0
Payload = List (String × Value)

unfoldable pub get : Payload → String → Option Value
get [] name = none
get ((k, v) ∷ rest) name = let later = get rest name in choose later (k == name) v
  where
    choose : Option Value → Bool → Value → Option Value
    choose (some w) here v = some w
    choose none true v = some v
    choose none false v = none

pub data OutputError : Type 0 where
  missing_string not_a_string not_string_array : String → OutputError
  no_allowed_evidence unknown_action unsafe_domain wrong_bundle_type : OutputError
  evidence_mismatch unknown_update_mode invalid_checksum reason_required : OutputError
  tags_required unsafe_slug slug_required : OutputError

pub record CurationOutput : Type 0 where
  pub action : String
  pub domain : String
  pub bundle_type : String
  pub title : String
  pub summary : String
  pub body : String
  pub evidence_ids : List String
  pub rationale : String
  pub limitations : String
  pub existing_bundle_candidates : List String
  pub update_mode : String
  pub base_body_checksum : String
  pub replace_reason : String
  pub confidence : String
  pub recheck_condition : String
  pub tags : List String
  pub slug : String

abbrev pub bundle_types : List String
bundle_types =
    "policy" ∷ "guide" ∷ "runbook" ∷ "manual" ∷ "decision" ∷ "spec" ∷ "reference" ∷ "report" ∷ []

unfoldable pub as_required : Option Value → String → Result OutputError String
as_required (some (str s)) name = if is_blank s then err (missing_string name) else ok (strip s)
as_required none name = err (missing_string name)
as_required (some v) name = err (missing_string name)

-- `_required_string`.
unfoldable pub required_string : Payload → String → Result OutputError String
unfolding as_required get
required_string p name = as_required (get p name) name

unfoldable pub as_optional : Option Value → String → Result OutputError String
as_optional none name = ok ""
as_optional (some (str s)) name = ok (strip s)
as_optional (some v) name = err (not_a_string name)

-- `_optional_string`.
unfoldable pub optional_string : Payload → String → Result OutputError String
unfolding as_optional get
optional_string p name = as_optional (get p name) name

unfoldable pub as_strings : Values → String → Result OutputError (List String)
as_strings nil name = ok []
as_strings (cons (str s) vs) name = do
  raise_if (is_blank s) (not_string_array name)
  later ← as_strings vs name
  ok (strip s ∷ later)
as_strings (cons v vs) name = err (not_string_array name)

-- `_string_list`.
unfoldable pub string_list : Option Value → String → Result OutputError (List String)
unfolding as_strings
string_list (some (array vs)) name = as_strings vs name
string_list none name = err (not_string_array name)
string_list (some v) name = err (not_string_array name)

-- A missing field is an empty list.
unfoldable pub or_no_items : Option Value → Option Value
or_no_items none = some (array nil)
or_no_items (some v) = some v

is_lower : ℕ → Bool
is_lower c = leb b'a' c && leb c b'z' || leb b'0' c && leb c b'9'

every_code : (ℕ → Bool) → String → Bool
every_code p String.[] = true
every_code p (String.◌∷◌ c s) = p (code c) && every_code p s

-- A full match of `[a-z0-9][a-z0-9_-]*`.
unfoldable pub is_safe : String → Bool
unfolding is_lower every_code
is_safe String.[] = false
is_safe (String.◌∷◌ c s) =
    is_lower (code c) && every_code (λ d. is_lower d || nat_eq d b'_' || nat_eq d b'-') s

unfoldable pub within : List String → List String → Bool
within xs ys = all (λ x. contains x ys) xs

-- `set(ids) != set(allowed) or len(ids) != len(set(ids))`, negated.
unfoldable pub matches_allowed : List String → List String → Bool
unfolding within
matches_allowed ids allowed =
    within ids allowed && within allowed ids && nat_eq (length ids) (length (distinct ids))

-- The three texts of an update of Bundles that are there.
pub record Update : Type 0 where
  pub update_mode : String
  pub base_body_checksum : String
  pub replace_reason : String

unfoldable pub update_of : Payload → Result OutputError Update
unfolding required_string optional_string is_checksum
update_of p = do
  mode ← required_string p "update_mode"
  raise_if (not (mode == "append" || mode == "replace_full")) unknown_update_mode
  checksum ← required_string p "base_body_checksum"
  raise_if (not (is_checksum checksum)) invalid_checksum
  reason ← optional_string p "replace_reason"
  raise_if (mode == "replace_full" && is_empty reason) reason_required
  ok (record { update_mode = mode; base_body_checksum = checksum; replace_reason = reason })

unfoldable pub update_if : Bool → Payload → Result OutputError Update
unfolding update_of
update_if true p = update_of p
update_if false p = ok (record { update_mode = ""; base_body_checksum = ""; replace_reason = "" })

unfoldable pub skipped : Payload → List String → Result OutputError CurationOutput
unfolding required_string
skipped p allowed = do
  rationale ← required_string p "rationale"
  recheck ← required_string p "recheck_condition"
  ok (record {
    action = "no_bundle";
    domain = "";
    bundle_type = "";
    title = "";
    summary = "";
    body = "";
    evidence_ids = allowed;
    rationale = rationale;
    limitations = "";
    existing_bundle_candidates = [];
    update_mode = "";
    base_body_checksum = "";
    replace_reason = "";
    confidence = "";
    recheck_condition = recheck;
    tags = [];
    slug = "";
  })

-- The texts of the output, in the order in which they are checked, behind the guards.
unfoldable pub output_of :
    Payload
    → String
    → String
    → String
    → List String
    → List String
    → Update
    → List String
    → String
    → Result OutputError CurationOutput
unfolding required_string optional_string
output_of p action domain bundle_type ids existing update tags slug = do
  title ← required_string p "title"
  summary ← required_string p "summary"
  body ← required_string p "body"
  rationale ← optional_string p "rationale"
  limitations ← optional_string p "limitations"
  confidence ← optional_string p "confidence"
  ok (record {
    action = action;
    domain = domain;
    bundle_type = bundle_type;
    title = title;
    summary = summary;
    body = body;
    evidence_ids = ids;
    rationale = rationale;
    limitations = limitations;
    existing_bundle_candidates = existing;
    update_mode = update.update_mode;
    base_body_checksum = update.base_body_checksum;
    replace_reason = update.replace_reason;
    confidence = confidence;
    recheck_condition = "";
    tags = tags;
    slug = slug;
  })

unfoldable pub bundle_output : Payload → List String → String → Result OutputError CurationOutput
unfolding required_string optional_string string_list or_no_items is_safe matches_allowed update_if
    output_of get
bundle_output p allowed action = do
  domain ← required_string p "domain"
  raise_if (not (is_safe domain)) unsafe_domain
  bundle_type ← required_string p "bundle_type"
  raise_if (not (contains bundle_type bundle_types) || not (bundle_type == action))
      wrong_bundle_type
  ids ← string_list (get p "evidence_ids") "evidence_ids"
  raise_if (not (matches_allowed ids allowed)) evidence_mismatch
  existing ←
      string_list (or_no_items (get p "existing_bundle_candidates")) "existing_bundle_candidates"
  update ← update_if (non_empty existing) p
  tags ← string_list (get p "tags") "tags"
  raise_if (not (non_empty tags)) tags_required
  slug ← optional_string p "slug"
  raise_if (not (is_empty slug) && not (is_safe slug)) unsafe_slug
  raise_if
      ((bundle_type == "manual" || bundle_type == "runbook")
        && not (non_empty existing)
        && is_empty slug)
      slug_required
  output_of p action domain bundle_type ids existing update tags slug

unfoldable pub output_for : Payload → List String → Option Value → Result OutputError CurationOutput
unfolding skipped bundle_output
output_for p allowed (some (str action)) = do
  raise_if (not (action == "no_bundle" || contains action bundle_types)) unknown_action
  if action == "no_bundle" then skipped p allowed else bundle_output p allowed action
output_for p allowed none = err unknown_action
output_for p allowed (some v) = err unknown_action

-- `validate_curation_output` of an object.
unfoldable pub validate_curation_output : Payload → List String → Result OutputError CurationOutput
unfolding output_for get
validate_curation_output p allowed = do
  raise_if (not (non_empty allowed) || not (all (λ id. not (is_empty id)) allowed))
      no_allowed_evidence
  output_for p allowed (get p "action")
