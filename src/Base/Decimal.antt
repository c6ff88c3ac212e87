-- ===== src/Base/Decimal.antt =====
-- Python's `str` of a natural number.
use Prim.Native.Nat.{ℕ, zero, suc, ◌/◌, ◌%◌}
use Prim.Native.String.{String, ◌++◌}
use mathlib.Core.Path.{◌≡◌, refl}
use circled_wiki.Base.Tests.{ltb, if◌then◌else◌}
use circled_wiki.Base.Uuid.{digit_text}

-- A number has at most as many digits as it counts.
decimal_from : ℕ → ℕ → String
decimal_from zero n = digit_text n
decimal_from (suc k) n =
    let higher = decimal_from k (n / 10) in
    if ltb n 10 then digit_text n else higher ++ digit_text (n % 10)

unfoldable pub decimal : ℕ → String
unfolding decimal_from
decimal n = decimal_from n n

decimal_sample : decimal 120 ≡ "120"
unfolding decimal digit_text
decimal_sample = refl
