-- ===== src/Inbox/Supported.antt =====
-- What a loaded Inbox contract of inbox_contracts.py is.
use circled_wiki.Base.{
  equals-true, not-false, and-true, String, true, not, ◌&&◌, some, List, [], ◌∷◌, Value, Values,
  Fields, null, boolean, number, str, array, object, at_key, has_key, value_eq, equals, ok, ◌>>◌,
  ◌≡◌, >>=-eq-ok, >>-eq-ok, raise_if-eq-ok, raise_if->>-eq-ok, or_raise->>=-eq-ok, subst-ok,
}
use circled_wiki.Inbox.Registry.{
  Loaded, stages_missing, stage_invalid, transition_unsupported, type_error, as_mapping,
  read_registered_contract,
}
use circled_wiki.Inbox.Loading.{
  Stage, supported_stage, is_name, all_hashable, same_set, list_of, matches_stage, check_stage,
  check_stages, required_stages, load_inbox_contract,
}

as_mapping_inverse : (v : Value) (fs : Fields) → as_mapping v ≡ some fs → v ≡ object fs
unfolding as_mapping
as_mapping_inverse (object gs) fs e = cc (e)
as_mapping_inverse null fs e = absurd (cc)
as_mapping_inverse (str s) fs e = absurd (cc)
as_mapping_inverse (boolean b) fs e = absurd (cc)
as_mapping_inverse (number s) fs e = absurd (cc)
as_mapping_inverse (array vs) fs e = absurd (cc)

-- The stage of the contract is the one that the runtime supports: its profile, action and next stage,
-- its reasons, and its requirements as a set.
abbrev pub IsSupported : Fields → String → Stage → Type 0
IsSupported stages name expected =
    (d : Fields) × (at_key name stages ≡ object d)
    × (at_key "profile" d ≡ str expected.profile)
    × (at_key "action" d ≡ str expected.action)
    × (at_key "next_stage" d ≡ str expected.next_stage)
    × (value_eq (at_key "on_blocked" d) expected.on_blocked ≡ true)
    × (vs : Values) × (list_of (at_key "requires" d) ≡ some vs)
    × (same_set expected.requires vs ≡ true)

matched_stage :
    (expected : Stage) (d : Fields)
    → matches_stage expected d ≡ true
    → (at_key "profile" d ≡ str expected.profile)
      × (at_key "action" d ≡ str expected.action)
      × (at_key "next_stage" d ≡ str expected.next_stage)
      × (value_eq (at_key "on_blocked" d) expected.on_blocked ≡ true)
unfolding matches_stage
matched_stage expected d e =
    let on_blocked = value_eq (at_key "on_blocked" d) expected.on_blocked in
    let next_stage = equals expected.next_stage (at_key "next_stage" d) in
    let actions = equals expected.action (at_key "action" d) in
    let profiles = equals expected.profile (at_key "profile" d) in
    let (e1, blocked) = and-true (profiles && actions && next_stage) on_blocked e in
    let (e2, next) = and-true (profiles && actions) next_stage e1 in
    let (profile, action) = and-true profiles actions e2 in
    (equals-true _ _ profile, equals-true _ _ action, equals-true _ _ next, blocked)

check_stage-IsSupported :
    (stages : Fields) (name : String) (expected : Stage)
    → check_stage stages name expected ≡ ok tt
    → IsSupported stages name expected
unfolding check_stage
check_stage-IsSupported stages name expected e =
    let (d, mapped, e1) = or_raise->>=-eq-ok (as_mapping (at_key name stages)) stage_invalid _ e in
    let (_, e2) =
      raise_if->>-eq-ok
        (not (
          is_name (at_key "profile" d)
          && is_name (at_key "action" d)
          && is_name (at_key "next_stage" d)))
        stage_invalid _ e1 in
    let (vs, listed, e3) = or_raise->>=-eq-ok (list_of (at_key "requires" d)) stage_invalid _ e2 in
    let (matched, e4) =
      raise_if->>-eq-ok (not (matches_stage expected d)) transition_unsupported _ e3 in
    let (_, e5) = raise_if->>-eq-ok (not (all_hashable vs)) type_error _ e4 in
    let same =
      not-false _
        (raise_if-eq-ok (not (same_set expected.requires vs)) transition_unsupported e5) in
    let (profile, action, next, blocked) =
      matched_stage expected d (not-false (matches_stage expected d) matched) in
    (d, as_mapping_inverse _ d mapped, profile, action, next, blocked, vs, listed, same)

abbrev pub EachSupported : Fields → List String → Type 0
EachSupported stages [] = Unit
EachSupported stages (name ∷ names) =
    ((expected : Stage) × (supported_stage name ≡ some expected) × IsSupported stages name expected)
    × EachSupported stages names

check_stages-EachSupported :
    (stages : Fields) (names : List String)
    → check_stages stages names ≡ ok tt
    → EachSupported stages names
unfolding check_stages
check_stages-EachSupported stages [] e = tt
check_stages-EachSupported stages (name ∷ names) e =
    let (expected, known, e1) =
      or_raise->>=-eq-ok (supported_stage name) stages_missing
        (λ x. check_stage stages name x >> check_stages stages names) e in
    let (first, rest) =
      >>-eq-ok (check_stage stages name expected) (check_stages stages names) e1 in
    (
      (expected, known, check_stage-IsSupported stages name expected first),
      check_stages-EachSupported stages names rest,
    )

-- An Inbox contract that was loaded is the one that the runtime supports: of both its stages, the
-- profile, the action and the next stage, the reasons that block it and the requirements are those
-- of the runtime's table.
pub load_inbox_contract-EachSupported :
    (registry : Loaded) (files : String → Loaded) (contract : Fields)
    → load_inbox_contract registry files ≡ ok contract
    → (stages : Fields) × (at_key "stages" contract ≡ object stages)
      × EachSupported stages ("pending" ∷ "accepted" ∷ [])
unfolding load_inbox_contract
load_inbox_contract-EachSupported registry files contract e =
    let (c, _, e1) =
      >>=-eq-ok (read_registered_contract registry files "inbox_reconciliation") _ e in
    let (stages, mapped, e2) =
      or_raise->>=-eq-ok (as_mapping (at_key "stages" c)) stages_missing _ e1 in
    let (_, e3) =
      raise_if->>-eq-ok (not (has_key "pending" stages && has_key "accepted" stages)) stages_missing
        _ e2 in
    let (checked, e4) = >>-eq-ok (check_stages stages required_stages) (ok c) e3 in
    let there : at_key "stages" contract ≡ object stages =
      subst-ok (λ (x : Fields). at_key "stages" x ≡ object stages) e4
        (as_mapping_inverse _ stages mapped) in
    (stages, there, check_stages-EachSupported stages required_stages checked)
