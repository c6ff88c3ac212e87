-- ===== src/Curation/Grounded.antt =====
-- What an accepted curation output guarantees: `validate_curation_output` of curation_contract.py.
use Prim.Native.String.{String}
use mathlib.Core.Path.{subst}
use circled_wiki.Base.{
  ◌==◌, ◌≡◌, ◌⊎◌, refl, sym, true, false, not, ◌&&◌, ◌||◌, Option, none, some, List, [], ◌∷◌, inl,
  inr, Bool-cases, arith, all, non_empty, is_empty, Value, null, boolean, number, str, array,
  object, contains, eq_iff, eq_refl, ok, >>=-eq-ok, subst-ok, raise_if->>-eq-ok,
}
use circled_wiki.Curation.Contract.{
  Payload, get, CurationOutput, Update, bundle_types, required_string, optional_string, string_list,
  or_no_items, is_safe, within, matches_allowed, update_if, skipped, output_of, bundle_output,
  output_for, validate_curation_output, unsafe_domain, wrong_bundle_type, evidence_mismatch,
  tags_required, unsafe_slug, slug_required, unknown_action, no_allowed_evidence,
}

within-weaken : (xs ys : List String) (y : String) → within xs ys ≡ true → within xs (y ∷ ys) ≡ true
unfolding within contains
within-weaken [] ys y h = refl
within-weaken (x ∷ xs) ys y h = ground (arith, within-weaken xs ys y)

within_refl : (xs : List String) → within xs xs ≡ true
unfolding within contains
within_refl [] = refl
within_refl (x ∷ xs) =
    let rest = within-weaken xs xs x (within_refl xs) in ground (arith, eq_refl x, rest)

-- The output names exactly the Evidence that was allowed, in some order.
abbrev pub IsGrounded : CurationOutput → List String → Type 0
IsGrounded o allowed =
    (within o.evidence_ids allowed ≡ true) × (within allowed o.evidence_ids ≡ true)

-- The output describes a Bundle of a known type, in a domain with a safe name, with tags, and with a
-- slug where a new manual or runbook needs one.
abbrev pub IsBundle : CurationOutput → Type 0
IsBundle o =
    (o.bundle_type ≡ o.action)
    × (contains o.bundle_type bundle_types ≡ true)
    × (is_safe o.domain ≡ true)
    × (non_empty o.tags ≡ true)
    × (((o.bundle_type == "manual" || o.bundle_type == "runbook")
          && not (non_empty o.existing_bundle_candidates)
          && is_empty o.slug)
        ≡ false)

abbrev Kept :
    String
    → String
    → String
    → List String
    → List String
    → List String
    → String
    → CurationOutput
    → Type 0
Kept action domain bundle_type ids existing tags slug o =
    (o.action ≡ action)
    × (o.domain ≡ domain)
    × (o.bundle_type ≡ bundle_type)
    × (o.evidence_ids ≡ ids)
    × (o.existing_bundle_candidates ≡ existing)
    × (o.tags ≡ tags)
    × (o.slug ≡ slug)

output_of-Kept :
    (p : Payload) (action domain bundle_type : String) (ids existing : List String) (u : Update)
    (tags : List String) (slug : String) (o : CurationOutput)
    → output_of p action domain bundle_type ids existing u tags slug ≡ ok o
    → Kept action domain bundle_type ids existing tags slug o
unfolding output_of
output_of-Kept p action domain bundle_type ids existing u tags slug o e =
    let (_, _, e1) = >>=-eq-ok (required_string p "title") _ e in
    let (_, _, e2) = >>=-eq-ok (required_string p "summary") _ e1 in
    let (_, _, e3) = >>=-eq-ok (required_string p "body") _ e2 in
    let (_, _, e4) = >>=-eq-ok (optional_string p "rationale") _ e3 in
    let (_, _, e5) = >>=-eq-ok (optional_string p "limitations") _ e4 in
    let (_, _, e6) = >>=-eq-ok (optional_string p "confidence") _ e5 in
    subst-ok (Kept action domain bundle_type ids existing tags slug) e6
      (refl, refl, refl, refl, refl, refl, refl)

skipped-IsGrounded :
    (p : Payload) (allowed : List String) (o : CurationOutput)
    → skipped p allowed ≡ ok o
    → IsGrounded o allowed × (o.action ≡ "no_bundle")
unfolding skipped
skipped-IsGrounded p allowed o e =
    let (_, _, e1) = >>=-eq-ok (required_string p "rationale") _ e in
    let (_, _, e2) = >>=-eq-ok (required_string p "recheck_condition") _ e1 in
    subst-ok (λ (x : CurationOutput). IsGrounded x allowed × (x.action ≡ "no_bundle")) e2
      ((within_refl allowed, within_refl allowed), refl)

accepted_lem :
    (action domain kind : String) (ids existing tags : List String) (slug : String)
    (allowed : List String) (o : CurationOutput)
    → Kept action domain kind ids existing tags slug o
    → not (is_safe domain) ≡ false
    → (not (contains kind bundle_types) || not (kind == action)) ≡ false
    → not (matches_allowed ids allowed) ≡ false
    → not (non_empty tags) ≡ false
    → ((kind == "manual" || kind == "runbook") && not (non_empty existing) && is_empty slug) ≡ false
    → IsGrounded o allowed × IsBundle o
unfolding matches_allowed
accepted_lem action domain kind ids existing tags slug allowed o k safe known matched tagged named =
    let same : kind ≡ action = ground (arith, eq_iff kind action, known) in
    let is_known : contains kind bundle_types ≡ true = ground (arith, known) in
    let is_tagged : non_empty tags ≡ true = ground (arith, tagged) in
    let is_named : is_safe domain ≡ true = ground (arith, safe) in
    let inside : within ids allowed ≡ true = ground (arith, matched) in
    let covered : within allowed ids ≡ true = ground (arith, matched) in
    let (is_action, is_domain, is_kind, is_ids, is_existing, is_tags, is_slug) = k in
    (
      (rw is_ids inside, rw is_ids covered),
      (
        cc (is_kind, is_action, same),
        subst (λ x. contains x bundle_types ≡ true) (sym is_kind) is_known,
        subst (λ x. is_safe x ≡ true) (sym is_domain) is_named,
        subst (λ x. non_empty x ≡ true) (sym is_tags) is_tagged,
        rw (is_kind, is_existing, is_slug) named,
      ),
    )

bundle_output-IsBundle :
    (p : Payload) (allowed : List String) (action : String) (o : CurationOutput)
    → bundle_output p allowed action ≡ ok o
    → IsGrounded o allowed × IsBundle o
unfolding bundle_output
bundle_output-IsBundle p allowed action o e =
    let (domain, _, e1) = >>=-eq-ok (required_string p "domain") _ e in
    let (safe, e2) = raise_if->>-eq-ok (not (is_safe domain)) unsafe_domain _ e1 in
    let (kind, _, e3) = >>=-eq-ok (required_string p "bundle_type") _ e2 in
    let (known, e4) =
      raise_if->>-eq-ok (not (contains kind bundle_types) || not (kind == action)) wrong_bundle_type
        _ e3 in
    let (ids, _, e5) = >>=-eq-ok (string_list (get p "evidence_ids") "evidence_ids") _ e4 in
    let (matched, e6) =
      raise_if->>-eq-ok (not (matches_allowed ids allowed)) evidence_mismatch _ e5 in
    let (existing, _, e7) =
      >>=-eq-ok
        (string_list (or_no_items (get p "existing_bundle_candidates"))
          "existing_bundle_candidates")
        _ e6 in
    let (u, _, e8) = >>=-eq-ok (update_if (non_empty existing) p) _ e7 in
    let (tags, _, e9) = >>=-eq-ok (string_list (get p "tags") "tags") _ e8 in
    let (tagged, e10) = raise_if->>-eq-ok (not (non_empty tags)) tags_required _ e9 in
    let (slug, _, e11) = >>=-eq-ok (optional_string p "slug") _ e10 in
    let (_, e12) =
      raise_if->>-eq-ok (not (is_empty slug) && not (is_safe slug)) unsafe_slug _ e11 in
    let (named, e13) =
      raise_if->>-eq-ok
        ((kind == "manual" || kind == "runbook") && not (non_empty existing) && is_empty slug)
        slug_required _ e12 in
    accepted_lem action domain kind ids existing tags slug allowed o
      (output_of-Kept p action domain kind ids existing u tags slug o e13) safe known matched tagged
      named

output_for-IsGrounded :
    (p : Payload) (allowed : List String) (v : Option Value) (o : CurationOutput)
    → output_for p allowed v ≡ ok o
    → IsGrounded o allowed × ((o.action ≡ "no_bundle") ⊎ IsBundle o)
unfolding output_for
output_for-IsGrounded p allowed (some (str action)) o e =
    let (_, e1) =
      raise_if->>-eq-ok (not (action == "no_bundle" || contains action bundle_types)) unknown_action
        _ e in
    elim (Bool-cases (action == "no_bundle")) [
      | inl none_now ↦ let h = skipped-IsGrounded p allowed o (rw none_now at e1) in (h.0, inl h.1)
      | inr bundle ↦
          let h = bundle_output-IsBundle p allowed action o (rw bundle at e1) in (h.0, inr h.1)
    ]
output_for-IsGrounded p allowed none o e = absurd (cc)
output_for-IsGrounded p allowed (some null) o e = absurd (cc)
output_for-IsGrounded p allowed (some (boolean b)) o e = absurd (cc)
output_for-IsGrounded p allowed (some (number n)) o e = absurd (cc)
output_for-IsGrounded p allowed (some (array vs)) o e = absurd (cc)
output_for-IsGrounded p allowed (some (object fs)) o e = absurd (cc)

-- An accepted output names exactly the Evidence that was allowed: no other id and none left out. It
-- either asks for no Bundle, or describes one of a known type that is the action, in a domain with a
-- safe name, with at least one tag, and with a slug where it is a new manual or runbook.
pub accepted_output :
    (p : Payload) (allowed : List String) (o : CurationOutput)
    → validate_curation_output p allowed ≡ ok o
    → IsGrounded o allowed × ((o.action ≡ "no_bundle") ⊎ IsBundle o)
unfolding validate_curation_output
accepted_output p allowed o e =
    let (_, e1) =
      raise_if->>-eq-ok (not (non_empty allowed) || not (all (λ id. not (is_empty id)) allowed))
        no_allowed_evidence _ e in
    output_for-IsGrounded p allowed (get p "action") o e1
