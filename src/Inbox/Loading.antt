-- ===== src/Inbox/Loading.antt =====
-- `load_inbox_contract` of inbox_contracts.py: the stages that the runtime supports.
use circled_wiki.Base.{
  String, Bool, true, false, not, ◌&&◌, ◌||◌, Option, none, some, List, [], ◌∷◌, ◌==◌, Value,
  Values, Fields, str, array, object, nil, cons, end, field, at_key, has_key, value_eq, is_hashable,
  is_among, equals, all, is_empty, if◌then◌else◌, Result, ok, raise_if, or_raise, ◌>>◌, ◌>>=◌,
}
use circled_wiki.Inbox.Registry.{
  Loaded, ContractError, stages_missing, stage_invalid, transition_unsupported, type_error,
  as_mapping, read_registered_contract,
}

pub record Stage : Type 0 where
  pub profile : String
  pub action : String
  pub next_stage : String
  pub on_blocked : Value
  pub requires : List String

-- The three constant fields of a reason.
unfoldable pub reason_object : String → Value
reason_object stage = object (
    field "current_stage" (str stage) (
      field "requested_action" (str "review_data_protection")
        (field "resolved_next_action" (str "reprocess_inbox") end)))

unfoldable pub blocked_object : Fields → Value
blocked_object reasons =
    object
      (field "task_contract" (str "inbox_reconciliation") (field "reasons" (object reasons) end))

-- `SUPPORTED_TRANSITIONS`.
unfoldable pub supported_stage : String → Option Stage
unfolding reason_object blocked_object
supported_stage name =
    if name == "pending"
    then some (record {
      profile = "inbox-inspection";
      action = "accept_ready_inbox";
      next_stage = "accepted";
      on_blocked =
          blocked_object
            (field "sensitivity_review_required" (reason_object "sensitivity_review") end);
      requires =
          "required_metadata" ∷ "provider_folder" ∷ "content_checksum" ∷ "data_protection_resolved"
          ∷ [];
    })
    else if name == "accepted"
    then some (record {
      profile = "evidence-ingest";
      action = "ingest_accepted";
      next_stage = "evidence";
      on_blocked = blocked_object (
          field "pii_scan_required" (reason_object "data_protection") (
            field "pii_needs_review" (reason_object "data_protection")
              (field "data_protection_required" (reason_object "data_protection") end)));
      requires = "accepted_inspection" ∷ "data_protection_receipt" ∷ [];
    })
    else none

-- `isinstance(value, str) and value`.
unfoldable pub is_name : Value → Bool
is_name (str s) = not (is_empty s)
is_name v = false

unfoldable pub all_hashable : Values → Bool
all_hashable nil = true
all_hashable (cons v vs) = is_hashable v && all_hashable vs

unfoldable pub values_among : List String → Values → Bool
values_among names nil = true
values_among names (cons v vs) = is_among names v && values_among names vs

unfoldable pub is_element : Values → String → Bool
is_element nil name = false
is_element (cons v vs) name = equals name v || is_element vs name

-- `set(values) == names`.
unfoldable pub same_set : List String → Values → Bool
unfolding values_among is_element
same_set names vs = values_among names vs && all (is_element vs) names

unfoldable pub list_of : Value → Option Values
list_of (array vs) = some vs
list_of v = none

unfoldable pub matches_stage : Stage → Fields → Bool
matches_stage expected definition =
    equals expected.profile (at_key "profile" definition)
    && equals expected.action (at_key "action" definition)
    && equals expected.next_stage (at_key "next_stage" definition)
    && value_eq (at_key "on_blocked" definition) expected.on_blocked

unfoldable pub check_stage : Fields → String → Stage → Result ContractError (Unit {0})
unfolding as_mapping is_name list_of matches_stage all_hashable same_set
check_stage stages name expected = do
  definition ← or_raise (as_mapping (at_key name stages)) stage_invalid
  raise_if
      (not (
        is_name (at_key "profile" definition)
        && is_name (at_key "action" definition)
        && is_name (at_key "next_stage" definition)))
      stage_invalid
  requires ← or_raise (list_of (at_key "requires" definition)) stage_invalid
  raise_if (not (matches_stage expected definition)) transition_unsupported
  raise_if (not (all_hashable requires)) type_error
  raise_if (not (same_set expected.requires requires)) transition_unsupported

unfoldable pub check_stages : Fields → List String → Result ContractError (Unit {0})
unfolding supported_stage check_stage
check_stages stages [] = ok tt
check_stages stages (name ∷ names) = do
  expected ← or_raise (supported_stage name) stages_missing
  check_stage stages name expected
  check_stages stages names

abbrev pub required_stages : List String
required_stages = "pending" ∷ "accepted" ∷ []

unfoldable pub load_inbox_contract : Loaded → (String → Loaded) → Result ContractError Fields
unfolding read_registered_contract check_stages
load_inbox_contract registry files = do
  contract ← read_registered_contract registry files "inbox_reconciliation"
  stages ← or_raise (as_mapping (at_key "stages" contract)) stages_missing
  raise_if (not (has_key "pending" stages && has_key "accepted" stages)) stages_missing
  check_stages stages required_stages
  ok contract
