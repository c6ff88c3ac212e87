-- ===== src/Inbox/Registry.antt =====
-- The registered contracts of inbox_contracts.py, read from parsed YAML. What the files hold is a
-- parameter: a file is missing, is no YAML, or holds a value.
use Prim.Native.Char.{code}
use Prim.Native.String
use circled_wiki.Base.{
  String, Bool, false, not, ◌&&◌, ◌||◌, Option, none, some, List, [], ◌∷◌, Value, Fields, null, str,
  object, at_key, lacks_text, equals, contains, nat_eq, is_empty, if◌then◌else◌, Result, ok, err,
  raise_if, or_raise, ◌>>◌, ◌>>=◌,
}
use circled_wiki.Protection.{is_version}

pub data Loaded : Type 0 where
  missing_file : Loaded
  invalid_yaml : Loaded
  loaded : Value → Loaded

pub data ContractError : Type 0 where
  registry_missing : ContractError
  registry_yaml : ContractError
  registry_unsupported : ContractError
  registry_metadata : ContractError
  registry_entry : ContractError
  contract_missing : ContractError
  contract_yaml : ContractError
  contract_unsupported : ContractError
  contract_metadata : ContractError
  stages_missing : ContractError
  stage_invalid : ContractError
  transition_unsupported : ContractError
  outcomes_incomplete : ContractError
  outcome_unsupported : ContractError
  -- A TypeError of the standard library: a value without a hash or without elements.
  type_error : ContractError

unfoldable pub as_mapping : Value → Option Fields
as_mapping (object fs) = some fs
as_mapping v = none

-- `mapping.get(key) if isinstance(mapping, dict) else None`.
unfoldable pub value_at : String → Value → Value
value_at key (object fs) = at_key key fs
value_at key v = null

cons_first : String → List String → List String
cons_first c [] = c ∷ []
cons_first c (s ∷ ss) = String.◌++◌ c s ∷ ss

-- The parts of a path between its separators.
unfoldable pub path_parts : String → List String
unfolding cons_first
path_parts String.[] = "" ∷ []
path_parts (String.◌∷◌ c s) =
    let rest = path_parts s in
    if nat_eq (code c) b'/' then "" ∷ rest else cons_first (String.◌∷◌ c String.[]) rest

is_absolute : String → Bool
is_absolute String.[] = false
is_absolute (String.◌∷◌ c s) = nat_eq (code c) b'/'

-- A relative path that stays in the directory of the registry.
unfoldable pub contract_file : Value → Option String
unfolding is_absolute path_parts
contract_file (str path) =
    if is_empty path || is_absolute path || contains ".." (path_parts path) then none else some path
contract_file v = none

unfoldable pub load_file : ContractError → ContractError → Loaded → Result ContractError Value
load_file missing invalid missing_file = err missing
load_file missing invalid invalid_yaml = err invalid
load_file missing invalid (loaded v) = ok v

-- The name, the version 1 and a description.
unfoldable pub has_metadata : String → Value → Bool
has_metadata name (object metadata) =
    equals name (at_key "name" metadata)
    && is_version (at_key "version" metadata)
    && not (lacks_text (at_key "description" metadata))
has_metadata name v = false

unfoldable pub is_document : String → String → Value → Bool
is_document api_version kind v =
    equals api_version (value_at "api_version" v) && equals kind (value_at "kind" v)

abbrev pub registry_api : String
registry_api = "circled-wiki.contract-registry/v1"

abbrev pub registry_kind : String
registry_kind = "reconciliation_contract_registry"

abbrev pub contract_api : String
contract_api = "circled-wiki.reconciliation-contract/v1"

abbrev pub contract_kind : String
contract_kind = "reconciliation_contract"

-- `_read_registered_contract`, with the registry and the files beside it.
unfoldable pub read_registered_contract :
    Loaded → (String → Loaded) → String → Result ContractError Fields
unfolding load_file is_document has_metadata contract_file as_mapping value_at
read_registered_contract registry files name = do
  index ← load_file registry_missing registry_yaml registry
  raise_if (not (is_document registry_api registry_kind index)) registry_unsupported
  raise_if (not (has_metadata registry_kind (value_at "metadata" index))) registry_metadata
  path ←
      or_raise
        (contract_file
          (value_at "path" (value_at name (value_at "contracts" (value_at "spec" index)))))
        registry_entry
  contract ← load_file contract_missing contract_yaml (files path)
  raise_if (not (is_document contract_api contract_kind contract)) contract_unsupported
  raise_if (not (has_metadata name (value_at "metadata" contract))) contract_metadata
  or_raise (as_mapping (value_at "spec" contract)) contract_metadata

-- `inbox_contract_path`: the installed registry, else the one of the source tree.
unfoldable pub inbox_contract_registry : Option Loaded → Option Loaded → Result ContractError Loaded
inbox_contract_registry (some installed) source_tree = ok installed
inbox_contract_registry none (some source_tree) = ok source_tree
inbox_contract_registry none none = err registry_missing
