-- ===== src/Base/Strip.antt =====
-- Python's `str.strip` on the code points of a text.
use Prim.Native.Nat.{ℕ}
use Prim.Native.Char.{Char, code}
use Prim.Native.String.{String}
use mathlib.Core.Path.{◌≡◌, refl}
use mathlib.Core.Bool.{Bool, true, false, ◌&&◌, ◌||◌}
use mathlib.Core.Logic.{inl, inr}
use circled_wiki.Base.Tests.{leb, nat_eq, Bool-cases, if◌then◌else◌}

-- `str.isspace` of one code point.
unfoldable pub is_space : ℕ → Bool
is_space c =
    leb 9 c && leb c 13
    || leb 28 c && leb c 32
    || nat_eq c 0x85
    || nat_eq c 0xa0
    || nat_eq c 0x1680
    || leb 0x2000 c && leb c 0x200a
    || nat_eq c 0x2028
    || nat_eq c 0x2029
    || nat_eq c 0x202f
    || nat_eq c 0x205f
    || nat_eq c 0x3000

unfoldable pub is_empty : String → Bool
is_empty String.[] = true
is_empty (String.◌∷◌ c s) = false

-- Leading white space goes.
lstrip : String → String
lstrip String.[] = String.[]
lstrip (String.◌∷◌ c s) = let rest = lstrip s in if is_space (code c) then rest else String.◌∷◌ c s

-- Trailing white space goes.
rstrip : String → String
rstrip String.[] = String.[]
rstrip (String.◌∷◌ c s) =
    let rest = rstrip s in
    if is_space (code c) && is_empty rest then String.[] else String.◌∷◌ c rest

unfoldable pub strip : String → String
unfolding is_space is_empty lstrip rstrip
strip s = rstrip (lstrip s)

-- `not s.strip()`.
unfoldable pub is_blank : String → Bool
unfolding strip
is_blank s = is_empty (strip s)

rstrip-rstrip : (s : String) → rstrip (rstrip s) ≡ rstrip s
unfolding rstrip
rstrip-rstrip String.[] = refl
rstrip-rstrip (String.◌∷◌ c s) = elim (Bool-cases (is_space (code c) && is_empty (rstrip s))) [
  | inl e ↦ rw e
  | inr e ↦ rw e (rw (rstrip-rstrip s) (rw e))
]

lstrip-strip : (s : String) → lstrip (rstrip (lstrip s)) ≡ rstrip (lstrip s)
unfolding lstrip rstrip
lstrip-strip String.[] = refl
lstrip-strip (String.◌∷◌ c s) = elim (Bool-cases (is_space (code c))) [
  | inl e ↦ rw e (lstrip-strip s)
  | inr e ↦ rw e (rw e (rw e))
]

-- Stripping twice is stripping once.
pub strip-strip : (s : String) → strip (strip s) ≡ strip s
unfolding strip
strip-strip s = rw (lstrip-strip s) (rstrip-rstrip (lstrip s))

pub is_blank_lem : (s : String) → is_blank s ≡ is_empty (strip s)
unfolding is_blank
is_blank_lem s = refl

-- A text of which something is left is left as it is by a second strip.
pub is_blank-strip : (s : String) → is_blank (strip s) ≡ is_blank s
is_blank-strip s = cc (is_blank_lem s, is_blank_lem (strip s), strip-strip s)

-- A text that starts with another character than white space is not blank.
pub is_blank-start :
    (c : Char) (s : String) → is_space (code c) ≡ false → is_blank (String.◌∷◌ c s) ≡ false
unfolding is_blank strip lstrip rstrip
is_blank-start c s e = rw e (rw e refl)
