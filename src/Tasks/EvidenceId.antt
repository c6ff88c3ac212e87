-- ===== src/Tasks/EvidenceId.antt =====
-- The pattern `EVIDENCE_ID` of workflow.py, under `re.match`:
--   ^evidence/[a-z0-9][a-z0-9_-]*/[^/]+_[0-9a-fA-F-]{36}\.md$
use Prim.Native.Nat.{ℕ, zero, suc}
use mathlib.Core.List.{reverse}
use circled_wiki.Base.{
  String, ◌≡◌, refl, Bool, true, false, not, ◌&&◌, ◌||◌, List, [], ◌∷◌, leb, nat_eq, codes,
  non_empty, all, if◌then◌else◌, is_some, digit_value,
}

is_name_start : ℕ → Bool
is_name_start c = leb b'a' c && leb c b'z' || leb b'0' c && leb c b'9'

is_name_char : ℕ → Bool
unfolding is_name_start
is_name_char c = is_name_start c || nat_eq c b'_' || nat_eq c b'-'

is_uuid_char : ℕ → Bool
unfolding digit_value
is_uuid_char c = is_some (digit_value c) || nat_eq c b'-'

-- `[^/]+`, to the end.
is_file_stem : List ℕ → Bool
is_file_stem cs = non_empty cs && all (λ c. not (nat_eq c b'/')) cs

-- The file's name, from its last character on: the ending, 36 characters of an id, `_`, a stem.
reversed_tail : ℕ → List ℕ → Bool
unfolding is_uuid_char is_file_stem
reversed_tail zero (c ∷ cs) = nat_eq c b'_' && is_file_stem cs
reversed_tail zero [] = false
reversed_tail (suc n) [] = false
reversed_tail (suc n) (c ∷ cs) = let rest = reversed_tail n cs in is_uuid_char c && rest

reversed_name : List ℕ → Bool
unfolding reversed_tail
reversed_name (d ∷ m ∷ dot ∷ cs) =
    nat_eq d b'd' && nat_eq m b'm' && nat_eq dot b'.' && reversed_tail 36 cs
reversed_name cs = false

-- `$` matches before one newline at the end, too.
file_name : List ℕ → Bool
unfolding reversed_name
file_name (c ∷ cs) = reversed_name (if nat_eq c 10 then cs else c ∷ cs)
file_name [] = false

-- `[a-z0-9_-]*/`, and the file's name behind it.
agent_rest : List ℕ → Bool
unfolding is_name_char file_name
agent_rest [] = false
agent_rest (c ∷ cs) =
    let rest = agent_rest cs in
    let name = file_name (reverse cs) in if nat_eq c b'/' then name else is_name_char c && rest

agent : List ℕ → Bool
unfolding is_name_start agent_rest
agent [] = false
agent (c ∷ cs) = is_name_start c && agent_rest cs

after_root : List ℕ → List ℕ → Bool
unfolding agent
after_root [] s = agent s
after_root (c ∷ p) [] = false
after_root (c ∷ p) (d ∷ s) = let rest = after_root p s in nat_eq c d && rest

unfoldable pub is_evidence_id : String → Bool
unfolding after_root
is_evidence_id s = after_root (codes "evidence/") (codes s)

abbrev pub sample_evidence : String
sample_evidence = "evidence/operator/note_123e4567-e89b-12d3-a456-426614174000.md"

is_evidence_id_sample : is_evidence_id sample_evidence ≡ true
unfolding is_evidence_id
is_evidence_id_sample = refl

is_evidence_id_upper :
    is_evidence_id "evidence/Operator/note_123e4567-e89b-12d3-a456-426614174000.md" ≡ false
unfolding is_evidence_id
is_evidence_id_upper = refl
