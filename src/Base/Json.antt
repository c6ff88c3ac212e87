-- ===== src/Base/Json.antt =====
-- JSON and YAML values, as far as the code looks into them.
use Prim.Native.String.{String, compare}
use native.Mathlib.Omega.{arith}
use mathlib.Core.Path.{◌≡◌, refl}
use mathlib.Core.Bool.{Bool, true, false, ◌||◌}
use text.Mathlib.Text.{◌==◌, is_lt}
use mathlib.Core.Option.{Option, none, some}
use mathlib.Core.List.{List, [], ◌∷◌}
use circled_wiki.Base.Strip.{is_blank, strip}
use circled_wiki.Base.Tests.{Bool-cases, if◌then◌else◌}
use circled_wiki.Base.Lists.{all}
use mathlib.Core.Logic.{inl, inr}

mutual
  pub data Value : Type 0 where
    null : Value
    boolean : Bool → Value
    -- The literal of a number.
    number : String → Value
    str : String → Value
    array : Values → Value
    object : Fields → Value

  pub data Values : Type 0 where
    nil : Values
    cons : Value → Values → Values

  pub data Fields : Type 0 where
    end : Fields
    field : String → Value → Fields → Fields

-- The texts of an array, the others dropped: `[item for item in value if isinstance(item, str)]`.
unfoldable pub texts : Values → List String
texts nil = []
texts (cons (str s) vs) = s ∷ texts vs
texts (cons v vs) = texts vs

unfoldable pub array_of : List String → Values
array_of [] = nil
array_of (s ∷ ss) = cons (str s) (array_of ss)

-- `value is None or value == ""`.
unfoldable pub is_absent : Option Value → Bool
is_absent none = true
is_absent (some null) = true
is_absent (some (str String.[])) = true
is_absent (some v) = false

-- The truth of an optional text.
unfoldable pub truthy : Option String → Bool
truthy none = false
truthy (some String.[]) = false
truthy (some s) = true

-- `[item.strip() for item in items if item.strip()]`.
unfoldable pub stripped_texts : List String → List String
stripped_texts [] = []
stripped_texts (s ∷ ss) =
    let rest = stripped_texts ss in if is_blank s then rest else strip s ∷ rest

-- `item in items`.
unfoldable pub contains : String → List String → Bool
contains a [] = false
contains a (x ∷ xs) = a == x || contains a xs

-- `list(dict.fromkeys(items))`: the first of each.
distinct_from : List String → List String → List String
unfolding contains
distinct_from seen [] = []
distinct_from seen (x ∷ xs) =
    let again = distinct_from seen xs in
    let first = distinct_from (x ∷ seen) xs in if contains x seen then again else x ∷ first

unfoldable pub distinct : List String → List String
unfolding distinct_from
distinct = distinct_from []

-- A text in its place among distinct texts in order.
insert_sorted : String → List String → List String
insert_sorted a [] = a ∷ []
insert_sorted a (x ∷ xs) =
    let rest = insert_sorted a xs in
    if a == x then x ∷ xs else if is_lt (compare a x) then a ∷ x ∷ xs else x ∷ rest

-- `sorted(set(items))`.
unfoldable pub sorted_set : List String → List String
unfolding insert_sorted
sorted_set [] = []
sorted_set (x ∷ xs) = insert_sorted x (sorted_set xs)

insert_sorted-all :
    (p : String → Bool) (a : String) (xs : List String)
    → p a ≡ true
    → all p xs ≡ true
    → all p (insert_sorted a xs) ≡ true
unfolding insert_sorted
insert_sorted-all p a [] h e = ground (arith, h)
insert_sorted-all p a (x ∷ xs) h e =
    let head : p x ≡ true = ground (arith, e) in
    let tail : all p xs ≡ true = ground (arith, e) in
    elim (Bool-cases (a == x)) [
      | inl same ↦ rw same e
      | inr other ↦ elim (Bool-cases (is_lt (compare a x))) [
        | inl before ↦ rw (other, before) (rw h e)
        | inr after ↦ rw (other, after) (rw head (insert_sorted-all p a xs h tail))
      ]
    ]

pub sorted_set-all :
    (p : String → Bool) (xs : List String) → all p xs ≡ true → all p (sorted_set xs) ≡ true
unfolding sorted_set
sorted_set-all p [] e = refl
sorted_set-all p (x ∷ xs) e =
    let head : p x ≡ true = ground (arith, e) in
    let tail : all p xs ≡ true = ground (arith, e) in
    insert_sorted-all p x (sorted_set xs) head (sorted_set-all p xs tail)
