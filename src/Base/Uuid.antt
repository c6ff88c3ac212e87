-- ===== src/Base/Uuid.antt =====
-- Python's `uuid.UUID(text)` and `str` of it: `canonical_uuid` is the 36-character form, or `none`
-- where the constructor raises. The 32 characters that the constructor counts are read as ASCII
-- hexadecimal digits; the signs, prefixes and underscores that `int` takes among them are refused.
use Prim.Native.Nat.{ℕ, zero, suc, ◌+◌, ◌-◌, ◌*◌, ◌/◌, ◌%◌, ◌^◌}
use Prim.Native.Char.{code}
use Prim.Native.String.{String, ◌++◌}
use mathlib.Core.Bool.{Bool, ◌&&◌, ◌||◌}
use mathlib.Core.Path.{◌≡◌, refl}
use mathlib.Core.Option
use mathlib.Core.Option.{Option, none, some}
use mathlib.Core.List.{List, [], ◌∷◌, reverse}
use circled_wiki.Base.Tests.{leb, nat_eq, if◌then◌else◌}
use circled_wiki.Base.Lists.{length}

-- The code points of a text.
abbrev pub codes : String → List ℕ
codes String.[] = []
codes (String.◌∷◌ c s) = code c ∷ codes s

-- `p` at the front of `s`, and what is left of `s` behind it.
unfoldable pub after_prefix : List ℕ → List ℕ → Option (List ℕ)
after_prefix [] s = some s
after_prefix (c ∷ p) [] = none
after_prefix (c ∷ p) (d ∷ s) = let rest = after_prefix p s in if nat_eq c d then rest else none

-- `s.replace(p, "")`, with as many rounds as `s` has characters.
without : ℕ → List ℕ → List ℕ → List ℕ
unfolding after_prefix
without zero p s = s
without (suc n) p [] = []
without (suc n) p (c ∷ s) =
    let here = after_prefix p (c ∷ s) in
    elim here [ none ↦ c ∷ without n p s | some rest ↦ without n p rest ]

is_brace : ℕ → Bool
is_brace c = nat_eq c b'{' || nat_eq c b'}'

drop_braces : List ℕ → List ℕ
drop_braces [] = []
drop_braces (c ∷ s) = let rest = drop_braces s in if is_brace c then rest else c ∷ s

unfoldable pub digit_value : ℕ → Option ℕ
digit_value c =
    if leb b'0' c && leb c b'9'
    then some (c - b'0')
    else if leb b'a' c && leb c b'f'
    then some (c - b'a' + 10)
    else if leb b'A' c && leb c b'F'
    then some (c - b'A' + 10)
    else none

-- `int(text, 16)` of hexadecimal digits.
hex_value : ℕ → List ℕ → Option ℕ
unfolding digit_value
hex_value n [] = some n
hex_value n (c ∷ s) = elim (digit_value c) [ none ↦ none | some d ↦ hex_value (n * 16 + d) s ]

unfoldable pub digit_text : ℕ → String
digit_text d =
    if nat_eq d 0
    then "0"
    else if nat_eq d 1
    then "1"
    else if nat_eq d 2
    then "2"
    else if nat_eq d 3
    then "3"
    else if nat_eq d 4
    then "4"
    else if nat_eq d 5
    then "5"
    else if nat_eq d 6
    then "6"
    else if nat_eq d 7
    then "7"
    else if nat_eq d 8
    then "8"
    else if nat_eq d 9
    then "9"
    else if nat_eq d 10
    then "a"
    else if nat_eq d 11
    then "b"
    else if nat_eq d 12
    then "c"
    else if nat_eq d 13
    then "d"
    else if nat_eq d 14
    then "e"
    else "f"

-- The last `k` hexadecimal digits of `n`.
hex_text : ℕ → ℕ → String
unfolding digit_text
hex_text zero n = ""
hex_text (suc k) n = hex_text k (n / 16) ++ digit_text (n % 16)

-- `str(UUID(int=n))`: five groups of 8, 4, 4, 4 and 12 digits.
grouped : ℕ → String
unfolding hex_text
grouped n =
    hex_text 8 (n / 16 ^ 24)
    ++ ("-"
        ++ (hex_text 4 (n / 16 ^ 20)
            ++ ("-"
                ++ (hex_text 4 (n / 16 ^ 16)
                    ++ ("-" ++ (hex_text 4 (n / 16 ^ 12) ++ ("-" ++ hex_text 12 n)))))))

hex_digits : String → List ℕ
unfolding without drop_braces is_brace
hex_digits text =
    let s = codes text in
    let bare = without (length s) (codes "uuid:") (without (length s) (codes "urn:") s) in
    let stripped = reverse (drop_braces (reverse (drop_braces bare))) in
    without (length s) (codes "-") stripped

unfoldable pub canonical_uuid : String → Option String
unfolding hex_digits hex_value grouped
canonical_uuid text =
    let hex = hex_digits text in
    if nat_eq (length hex) 32 then Option.map grouped (hex_value 0 hex) else none

abbrev pub sample_uuid : String
sample_uuid = "123e4567-e89b-12d3-a456-426614174000"

canonical_uuid_upper : canonical_uuid "{123E4567e89b12d3A456426614174000}" ≡ some sample_uuid
unfolding canonical_uuid
canonical_uuid_upper = refl

canonical_uuid_short : canonical_uuid "123e4567" ≡ none
unfolding canonical_uuid
canonical_uuid_short = refl
