-- ===== src/Curation/Items.antt =====
-- `_item_path` of curation_queue.py: the file of an Evidence id is named by the UUID in the id.
use Prim.Native.Nat.{ℕ}
use Prim.Native.Char.{code}
use Prim.Native.String.{String}
use circled_wiki.Base.{
  ◌≡◌, refl, Bool, false, not, ◌||◌, nat_eq, if◌then◌else◌, is_empty, canonical_uuid, Result, ok,
  or_raise,
}
use circled_wiki.Curation.Model.{CurationError, missing_uuid}

has_code : ℕ → String → Bool
has_code c String.[] = false
has_code c (String.◌∷◌ d s) = nat_eq (code d) c || has_code c s

-- `text.rsplit(c, 1)[-1]`: what is behind the last `c`, or the whole text.
unfoldable pub after_last : ℕ → String → String
unfolding has_code
after_last c String.[] = String.[]
after_last c (String.◌∷◌ d s) =
    let rest = after_last c s in
    if has_code c s then rest else if nat_eq (code d) c then s else String.◌∷◌ d s

-- What is in front of the last `c`.
unfoldable pub before_last : ℕ → String → String
unfolding has_code
before_last c String.[] = String.[]
before_last c (String.◌∷◌ d s) =
    let rest = before_last c s in
    if has_code c s
    then String.◌∷◌ d rest
    else if nat_eq (code d) c
    then String.[]
    else String.◌∷◌ d s

-- `Path(text).stem`, of a text without a trailing separator.
unfoldable pub stem : String → String
unfolding has_code after_last before_last
stem text =
    let name = after_last b'/' text in
    if not (has_code b'.' name)
      || is_empty (before_last b'.' name)
      || is_empty (after_last b'.' name)
    then name
    else before_last b'.' name

unfoldable pub item_name : String → Result CurationError String
unfolding after_last stem
item_name evidence_id = or_raise (canonical_uuid (after_last b'_' (stem evidence_id))) missing_uuid

abbrev pub sample_id : String
sample_id = "evidence/note/2026-01-01_123e4567-e89b-12d3-a456-426614174000.md"

item_name_sample : item_name sample_id ≡ ok "123e4567-e89b-12d3-a456-426614174000"
unfolding item_name stem before_last after_last has_code canonical_uuid is_empty
item_name_sample = refl
