-- ===== src/Inbox/ContractSamples.antt =====
-- A registered Inbox contract at a concrete input.
use circled_wiki.Base.{
  String, ◌≡◌, refl, Option, some, none, [], ◌∷◌, Value, Fields, str, number, array, object, end,
  field, array_of, at_key, has_key, value_eq, lacks_text, is_hashable, is_among, equals, contains,
  is_blank, ok,
}
use circled_wiki.Protection.{is_version}
use circled_wiki.Inbox.Registry.{Loaded, loaded}
use circled_wiki.Inbox.Loading.{Stage, supported_stage, load_inbox_contract}
use circled_wiki.Inbox.Supported.{EachSupported, load_inbox_contract-EachSupported}

abbrev metadata : String → Value
metadata name = object (
    field "name" (str name)
      (field "version" (number "1") (field "description" (str "A contract") end)))

abbrev document : String → String → String → Value → Value
document api kind name spec = object (
    field "api_version" (str api)
      (field "kind" (str kind) (field "metadata" (metadata name) (field "spec" spec end))))

abbrev registry : Loaded
registry = loaded (
    document "circled-wiki.contract-registry/v1" "reconciliation_contract_registry"
      "reconciliation_contract_registry"
      (object (
        field "contracts"
          (object (field "inbox_reconciliation" (object (field "path" (str "inbox.yaml") end)) end))
          end)))

abbrev stage_object : Option Stage → Value
stage_object none = object end
stage_object (some s) = object (
    field "profile" (str s.profile) (
      field "action" (str s.action) (
        field "next_stage" (str s.next_stage)
          (field "on_blocked" s.on_blocked (field "requires" (array (array_of s.requires)) end)))))

abbrev spec : Fields
spec =
    field "stages"
      (object (
        field "pending" (stage_object (supported_stage "pending"))
          (field "accepted" (stage_object (supported_stage "accepted")) end)))
      end

abbrev files : String → Loaded
files path = loaded (
    document "circled-wiki.reconciliation-contract/v1" "reconciliation_contract"
      "inbox_reconciliation" (object spec))

loaded_ok : load_inbox_contract registry files ≡ ok spec
unfolding load_inbox_contract supported_stage array_of equals at_key is_version lacks_text is_blank
    contains has_key value_eq is_hashable is_among
loaded_ok = refl

load_inbox_contract-EachSupported_example :
    (stages : Fields) × (at_key "stages" spec ≡ object stages)
    × EachSupported stages ("pending" ∷ "accepted" ∷ [])
load_inbox_contract-EachSupported_example =
    load_inbox_contract-EachSupported registry files spec loaded_ok
