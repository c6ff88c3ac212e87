-- ===== src/Governance/Supported.antt =====
-- What valid claims rest on: `validate_claim_support` of governance.py.
use circled_wiki.Base.{
  String, ℕ, Bool, true, false, not, ◌&&◌, ◌≡◌, refl, inl, inr, Option, none, some, List, [], ◌∷◌,
  ◌++◌, Value, Values, Fields, null, str, array, object, nil, cons, at_key, equals, is_among,
  is_hashable, when, when-eq-nil, append-eq-nil, All, Bool-cases, if◌then◌else◌, ok, >>=-eq-ok,
  raise_if->>-eq-ok, subst-ok, ◌>>◌, raise_if,
}
use circled_wiki.Governance.Metrics.{is_restricted}
use circled_wiki.Governance.Claims.{
  ClaimProblem, unhashable_support, support_statuses, backed_statuses, states_claim,
  listed_evidence, has_none, is_available, id_text, check_document, check_ids, check_support,
  check_claim, check_claims, is_clean, validate_claim_support, status_invalid, claim_empty,
  requires_evidence, damaged, does_not_resolve, is_restricted_evidence, not_available,
}

clean_inverse : (problems : List ClaimProblem) → is_clean problems ≡ true → problems ≡ []
unfolding is_clean
clean_inverse [] e = refl
clean_inverse (x ∷ xs) e = absurd (cc)

module _ (find_document : String → Option Fields) (is_damaged : String → Bool)
    (printed : Value → String) where
  -- The id of an Evidence that may be read, and for a verified claim is available and undamaged.
  abbrev pub Backs : Value → String → Type 0
  Backs status id =
      (e : Fields) × (find_document id ≡ some e)
      × (equals "evidence" (at_key "type" e) ≡ true)
      × (is_restricted e ≡ false)
      × (equals "verified" status && not (is_available e) ≡ false)
      × (equals "verified" status && is_damaged id ≡ false)

  abbrev pub AllBack : Value → Values → Type 0
  AllBack status nil = Unit
  AllBack status (cons v vs) =
      Backs status (id_text find_document is_damaged printed v) × AllBack status vs

  abbrev pub IsSupported : Value → Type 0
  IsSupported v =
      (claim : Fields) × (v ≡ object claim)
      × (states_claim claim ≡ true)
      × (is_among support_statuses (at_key "support_status" claim) ≡ true)
      × (ids : Values) × (listed_evidence claim ≡ some ids)
      × (is_among backed_statuses (at_key "support_status" claim) && has_none ids ≡ false)
      × AllBack (at_key "support_status" claim) ids

  document-Backs :
      (status : Value) (id : String) (o : Option Fields)
      → find_document id ≡ o
      → check_document find_document is_damaged printed status id o ≡ []
      → Backs status id
  unfolding check_document
  document-Backs status id none there e = absurd (cc)
  document-Backs status id (some d) there e =
      elim (Bool-cases (equals "evidence" (at_key "type" d))) [
        | inr other ↦ let f : does_not_resolve ∷ [] ≡ [] = rw other at e in absurd (cc (f))
        | inl typed ↦ elim (Bool-cases (is_restricted d)) [
          | inl closed ↦
              let f : is_restricted_evidence ∷ [] ≡ [] = rw (typed, closed) at e in absurd (cc (f))
          | inr open_to ↦ elim (Bool-cases (equals "verified" status && not (is_available d))) [
            | inl missing ↦
                let f : not_available ∷ [] ≡ [] = rw (typed, open_to, missing) at e in
                absurd (cc (f))
            | inr available ↦
                let g : when (equals "verified" status && is_damaged id) damaged ≡ [] =
                  rw (typed, open_to, available) at e in
                (d, there, typed, open_to, available, when-eq-nil _ _ g)
          ]
        ]
      ]

  ids_back :
      (status : Value) (ids : Values)
      → check_ids find_document is_damaged printed status ids ≡ []
      → AllBack status ids
  unfolding check_ids
  ids_back status nil e = tt
  ids_back status (cons v vs) e =
      let id = id_text find_document is_damaged printed v in
      let (here, rest) =
        append-eq-nil (check_document find_document is_damaged printed status id (find_document id))
          _ e in
      (document-Backs status id (find_document id) refl here, ids_back status vs rest)

  support_inverse :
      (status : Value) (o : Option Values)
      → check_support find_document is_damaged printed status o ≡ []
      → (ids : Values) × (o ≡ some ids)
        × (is_among backed_statuses status && has_none ids ≡ false)
        × AllBack status ids
  unfolding check_support
  support_inverse status none e = absurd (cc)
  support_inverse status (some ids) e =
      let (backed, rest) =
        append-eq-nil (when (is_among backed_statuses status && has_none ids) requires_evidence) _
          e in
      (ids, refl, when-eq-nil _ _ backed, ids_back status ids rest)

  claim_inverse :
      (v : Value) → check_claim find_document is_damaged printed v ≡ ok [] → IsSupported v
  unfolding check_claim
  claim_inverse (object claim) e = elim (Bool-cases (states_claim claim)) [
    | inr silent ↦ let f : ok (claim_empty ∷ []) ≡ ok [] = rw silent at e in absurd (cc (f))
    | inl stated ↦
        let e1 : (raise_if (not (is_hashable (at_key "support_status" claim))) unhashable_support
              >> ok (
                  if is_among support_statuses (at_key "support_status" claim)
                  then check_support find_document is_damaged printed
                      (at_key "support_status" claim) (listed_evidence claim)
                  else status_invalid ∷ []))
            ≡ ok [] =
          rw stated at e in
        let (_, e2) =
          raise_if->>-eq-ok (not (is_hashable (at_key "support_status" claim))) unhashable_support _
            e1 in
        elim (Bool-cases (is_among support_statuses (at_key "support_status" claim))) [
          | inr unknown ↦
              let f : ok (status_invalid ∷ []) ≡ ok [] = rw unknown at e2 in absurd (cc (f))
          | inl known ↦
              let e3 : ok (
                    check_support find_document is_damaged printed (at_key "support_status" claim)
                      (listed_evidence claim))
                  ≡ ok [] =
                rw known at e2 in
              let (ids, listed, backed, all_back) =
                support_inverse (at_key "support_status" claim) (listed_evidence claim) (cc (e3)) in
              (claim, refl, stated, known, ids, listed, backed, all_back)
        ]
  ]
  claim_inverse null e = absurd (cc)
  claim_inverse (str s) e = absurd (cc)
  claim_inverse (Value.boolean b) e = absurd (cc)
  claim_inverse (Value.number n) e = absurd (cc)
  claim_inverse (array vs) e = absurd (cc)

  claims_inverse :
      (claims : List Value)
      → check_claims find_document is_damaged printed claims ≡ ok []
      → All IsSupported claims
  unfolding check_claims
  claims_inverse [] e = tt
  claims_inverse (v ∷ vs) e =
      let (problems, e1, e2) = >>=-eq-ok (check_claim find_document is_damaged printed v) _ e in
      let (rest, e3, e4) = >>=-eq-ok (check_claims find_document is_damaged printed vs) _ e2 in
      let both : problems ++ rest ≡ [] = cc (e4) in
      let (here, there) = append-eq-nil problems rest both in
      (claim_inverse v (cc (e1, here)), claims_inverse vs (cc (e3, there)))

  -- Claims that are valid are stated and have a known status; a verified or limited claim lists
  -- Evidence; and each Evidence that a claim lists is there, is not restricted and, for a verified
  -- claim, is available and undamaged.
  pub validate_claim_support-IsSupported :
      (claims : List Value) (problems : List ClaimProblem) (count : ℕ)
      → validate_claim_support find_document is_damaged printed claims ≡ ok (true, problems, count)
      → All IsSupported claims
  unfolding validate_claim_support
  validate_claim_support-IsSupported claims problems count e =
      let (found, e1, e2) = >>=-eq-ok (check_claims find_document is_damaged printed claims) _ e in
      let clean : is_clean found ≡ true =
        subst-ok (λ (x : Bool × List ClaimProblem × ℕ). is_clean found ≡ x.0) e2 refl in
      claims_inverse claims (cc (e1, clean_inverse found clean))
