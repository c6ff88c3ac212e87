-- ===== src/Base/Objects.antt =====
-- What the code asks of parsed JSON and YAML values: lookups in a mapping, equality, and hashing.
use Prim.Native.Nat.{ℕ, suc}
use Prim.Native.String.{String}
use mathlib.Core.Path.{◌≡◌, refl, ap}
use native.Mathlib.Omega.{arith}
use text.Mathlib.TextEquality.{eq_iff}
use mathlib.Core.Bool.{Bool, true, false, not, ◌&&◌, ◌||◌}
use mathlib.Core.List.{List}
use text.Mathlib.Text.{◌==◌}
use circled_wiki.Base.Tests.{nat_eq, if◌then◌else◌}
use circled_wiki.Base.Strip.{is_blank}
use circled_wiki.Base.Json.{
  Value, Values, Fields, null, boolean, number, str, array, object, nil, cons, end, field, contains,
}

-- `mapping.get(key)`; a missing key reads as `None`.
unfoldable pub at_key : String → Fields → Value
at_key k end = null
at_key k (field j v fs) = let rest = at_key k fs in if j == k then v else rest

-- `key in mapping`.
unfoldable pub has_key : String → Fields → Bool
has_key k end = false
has_key k (field j v fs) = j == k || has_key k fs

field_count : Fields → ℕ
field_count end = 0
field_count (field k v fs) = suc (field_count fs)

bool_eq : Bool → Bool → Bool
bool_eq true b = b
bool_eq false true = false
bool_eq false false = true

-- `a == b`. Numbers are compared by their literals, and a mapping has no order.
unfoldable mutual
  unfolding bool_eq field_count has_key at_key

  pub value_eq : Value → Value → Bool
  value_eq null null = true
  value_eq (boolean a) (boolean b) = bool_eq a b
  value_eq (number a) (number b) = a == b
  value_eq (str a) (str b) = a == b
  value_eq (array vs) (array ws) = values_eq vs ws
  value_eq (object fs) (object gs) = nat_eq (field_count fs) (field_count gs) && fields_within fs gs
  value_eq v w = false

  values_eq : Values → Values → Bool
  values_eq nil nil = true
  values_eq (cons v vs) (cons w ws) = value_eq v w && values_eq vs ws
  values_eq vs ws = false

  fields_within : Fields → Fields → Bool
  fields_within end gs = true
  fields_within (field k v fs) gs = has_key k gs && value_eq v (at_key k gs) && fields_within fs gs

-- `not isinstance(value, str) or not value.strip()`.
unfoldable pub lacks_text : Value → Bool
lacks_text (str s) = is_blank s
lacks_text v = true

-- `value in ("a", "b")`.
unfoldable pub is_among : List String → Value → Bool
is_among names (str s) = contains s names
is_among names v = false

-- A list or a mapping has no hash: `value in {"a", "b"}` raises a TypeError.
unfoldable pub is_hashable : Value → Bool
is_hashable (array vs) = false
is_hashable (object fs) = false
is_hashable v = true

-- `value is True`, `value is False`.
unfoldable pub is_true : Value → Bool
is_true (boolean b) = b
is_true v = false

unfoldable pub is_false : Value → Bool
is_false (boolean false) = true
is_false v = false

unfoldable pub is_boolean : Value → Bool
is_boolean (boolean b) = true
is_boolean v = false

-- `value == text`.
unfoldable pub equals : String → Value → Bool
equals text (str s) = s == text
equals text v = false

pub equals-true : (s : String) (v : Value) → equals s v ≡ true → v ≡ str s
unfolding equals
equals-true s (str t) e = let same : t ≡ s = ground (arith, eq_iff t s, e) in ap str same
equals-true s null e = absurd (cc)
equals-true s (boolean b) e = absurd (cc)
equals-true s (number b) e = absurd (cc)
equals-true s (array b) e = absurd (cc)
equals-true s (object b) e = absurd (cc)

pub not-false : (b : Bool) → not b ≡ false → b ≡ true
not-false b e = ground (arith, e)

pub and-true : (a b : Bool) → a && b ≡ true → (a ≡ true) × (b ≡ true)
and-true true b e = (refl, e)
and-true false b e = absurd (cc)
