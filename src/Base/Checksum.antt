-- ===== src/Base/Checksum.antt =====
-- The texts of SHA-256 checksums: the pattern of pii.py, data_protection_receipt.py and
-- curation_contract.py.
use Prim.Native.Nat.{ℕ, zero, suc}
use Prim.Native.String.{String}
use mathlib.Core.Bool.{Bool, true, false, ◌&&◌, ◌||◌}
use mathlib.Core.Option.{none, some}
use mathlib.Core.List.{List, [], ◌∷◌}
use circled_wiki.Base.Tests.{leb}
use circled_wiki.Base.Uuid.{codes, after_prefix}

-- `[0-9a-f]{n}`, as a full match.
is_hex : ℕ → List ℕ → Bool
is_hex zero [] = true
is_hex zero (c ∷ s) = false
is_hex (suc n) [] = false
is_hex (suc n) (c ∷ s) = (leb b'0' c && leb c b'9' || leb b'a' c && leb c b'f') && is_hex n s

-- `^sha256:[0-9a-f]{64}$`, as a full match.
unfoldable pub is_checksum : String → Bool
unfolding is_hex after_prefix
is_checksum s = elim (after_prefix (codes "sha256:") (codes s)) [
  | none ↦ false
  | some digits ↦ is_hex 64 digits
]
