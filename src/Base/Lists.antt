-- ===== src/Base/Lists.antt =====
-- Lists measured by native numbers, Boolean quantifiers over lists, and optional values.
use Prim.Native.Nat.{ℕ, suc, ◌+◌}
use mathlib.Core.Path.{◌≡◌, refl}
use mathlib.Core.Logic.{◌⊎◌, inl, inr}
use mathlib.Core.Bool.{Bool, true, false, ◌&&◌, ◌||◌}
use mathlib.Core.Option.{Option, none, some}
use mathlib.Core.List.{List, [], ◌∷◌, ◌++◌}
use native.Mathlib.Omega.{arith}
use circled_wiki.Base.Tests.{if◌then◌else◌}

module _ {ℓ} {A : Type ℓ} where
  abbrev pub length : List A → ℕ
  length [] = 0
  length (x ∷ xs) = suc (length xs)

  -- `all(p(x) for x in xs)` and `any(p(x) for x in xs)`.
  abbrev pub all : (A → Bool) → List A → Bool
  all p [] = true
  all p (x ∷ xs) = p x && all p xs

  abbrev pub any : (A → Bool) → List A → Bool
  any p [] = false
  any p (x ∷ xs) = p x || any p xs

  -- `[x for x in xs if p(x)]`.
  abbrev pub select : (A → Bool) → List A → List A
  select p [] = []
  select p (x ∷ xs) = let rest = select p xs in if p x then x ∷ rest else rest

  -- `next((x for x in xs if p(x)), None)`.
  abbrev pub find : (A → Bool) → List A → Option A
  find p [] = none
  find p (x ∷ xs) = let rest = find p xs in if p x then some x else rest

  -- `bool(xs)` for a list.
  abbrev pub non_empty : List A → Bool
  non_empty [] = false
  non_empty (x ∷ xs) = true

  pub length-append : (xs ys : List A) → length (xs ++ ys) ≡ length xs + length ys
  length-append [] ys = omega arith
  length-append (x ∷ xs) ys = omega (arith, length-append xs ys)

  -- A predicate of every element, by recursion.
  abbrev pub All {κ} : (A → Type κ) → List A → Type κ
  All P [] = Unit
  All P (x ∷ xs) = P x × All P xs

-- `[error]` when the test holds, and the lists of errors of a function one behind the other.
abbrev pub when {ℓ} : {E : Type ℓ} → Bool → E → List E
when true e = e ∷ []
when false e = []

abbrev pub join {ℓ} : {E : Type ℓ} → List (List E) → List E
join [] = []
join (xs ∷ xss) = xs ++ join xss

pub when-eq-nil {ℓ} : {E : Type ℓ} (b : Bool) (e : E) → when b e ≡ [] → b ≡ false
when-eq-nil true e h = absurd (cc)
when-eq-nil false e h = refl

pub append-eq-nil {ℓ} : {E : Type ℓ} (xs ys : List E) → xs ++ ys ≡ [] → (xs ≡ []) × (ys ≡ [])
append-eq-nil [] ys h = (refl, h)
append-eq-nil (x ∷ xs) ys h = absurd (cc)

-- No errors at all are no errors of each check.
pub join-eq-nil {ℓ} :
    {E : Type ℓ} (xss : List (List E)) → join xss ≡ [] → All (λ (xs : List E). xs ≡ []) xss
join-eq-nil [] h = tt
join-eq-nil (xs ∷ xss) h =
    let (here, rest) = append-eq-nil xs (join xss) h in (here, join-eq-nil xss rest)

abbrev pub is_some {ℓ} : {A : Type ℓ} → Option A → Bool
is_some none = false
is_some (some x) = true

module _ {ℓ κ} {A : Type ℓ} (P : A → Type κ) where
  -- A predicate of every element, over a list that is split at one of them.
  pub All-split :
      (xs : List A) (y : A) (ys : List A) → All P (xs ++ y ∷ ys) → All P xs × P y × All P ys
  All-split [] y ys h = (tt, h.0, h.1)
  All-split (x ∷ xs) y ys h =
      let (before, at, behind) = All-split xs y ys h.1 in ((h.0, before), at, behind)

  pub All-join :
      (xs : List A) (y : A) (ys : List A) → All P xs → P y → All P ys → All P (xs ++ y ∷ ys)
  All-join [] y ys before at behind = (at, behind)
  All-join (x ∷ xs) y ys before at behind = (before.0, All-join xs y ys before.1 at behind)

pub Option-cases {ℓ} : {A : Type ℓ} (o : Option A) → (o ≡ none) ⊎ ((a : A) × (o ≡ some a))
Option-cases none = inl refl
Option-cases (some a) = inr (a, refl)
