-- ===== src/Base/Files.antt =====
-- A directory of record files, by stem, in the order in which `sorted(root.glob(...))` lists them.
-- A file that is there and cannot be parsed is a value of `V`, where the code tells it apart.
use Prim.Native.String.{String, compare}
use mathlib.Core.Path.{◌≡◌, refl, subst}
use mathlib.Core.Logic.{inl, inr}
use mathlib.Core.Option.{Option, none, some}
use mathlib.Core.List.{List, [], ◌∷◌}
use native.Mathlib.Omega.{arith}
use text.Mathlib.Text.{◌==◌, is_lt}
use text.Mathlib.TextEquality.{eq_iff}
use circled_wiki.Base.Tests.{Bool-cases, if◌then◌else◌}

-- What a record file holds: a record, or text that does not parse.
pub data File {ℓ} (A : Type ℓ) : Type ℓ where
  parsed : A → File A
  unreadable : File A

abbrev pub Directory {ℓ} : Type ℓ → Type ℓ
Directory V = List (String × V)

module _ {ℓ} {V : Type ℓ} where
  -- `path.read_text()` behind `path.is_file()`.
  unfoldable pub read : String → Directory V → Option V
  read k [] = none
  read k ((j, v) ∷ m) = let rest = read k m in if j == k then some v else rest

  -- `temporary.replace(path)`: a new file takes its place in the order.
  unfoldable pub write : String → V → Directory V → Directory V
  write k v [] = (k, v) ∷ []
  write k v ((j, w) ∷ m) =
      let rest = write k v m in
      if j == k
      then (k, v) ∷ m
      else if is_lt (compare k j)
      then (k, v) ∷ (j, w) ∷ m
      else (j, w) ∷ rest

  -- `path.unlink(missing_ok=True)`.
  unfoldable pub remove : String → Directory V → Directory V
  remove k [] = []
  remove k ((j, v) ∷ m) = let rest = remove k m in if j == k then rest else (j, v) ∷ rest

  -- The files that a loop goes over, as they were when it started.
  unfoldable pub file_names : Directory V → List String
  file_names [] = []
  file_names ((k, v) ∷ m) = k ∷ file_names m

  pub read-write :
      (k j : String) (v : V) (m : Directory V)
      → read j (write k v m) ≡ (if k == j then some v else read j m)
  unfolding read write
  read-write k j v [] = refl
  read-write k j v ((i, w) ∷ m) =
      ground (arith, eq_iff k j, eq_iff i k, eq_iff i j, read-write k j v m)

  pub read-remove :
      (k j : String) (m : Directory V) → read j (remove k m) ≡ (if k == j then none else read j m)
  unfolding read remove
  read-remove k j [] = ground arith
  read-remove k j ((i, w) ∷ m) =
      ground (arith, eq_iff k j, eq_iff i k, eq_iff i j, read-remove k j m)

module _ {ℓ κ} {A : Type ℓ} (P : A → Type κ) where
  -- A file that parses holds a record with the property.
  abbrev pub Holds : File A → Type κ
  Holds (parsed a) = P a
  Holds unreadable = Unit

  abbrev pub Everywhere : Directory (File A) → Type κ
  Everywhere [] = Unit
  Everywhere ((k, f) ∷ m) = Holds f × Everywhere m

  pub Everywhere-write :
      (k : String) (f : File A) (m : Directory (File A))
      → Everywhere m
      → Holds f
      → Everywhere (write k f m)
  unfolding write
  Everywhere-write k f [] h p = (p, tt)
  Everywhere-write k f ((j, g) ∷ m) h p = elim (Bool-cases (j == k)) [
    | inl same ↦ rw same (p, h.1)
    | inr other ↦ elim (Bool-cases (is_lt (compare k j))) [
      | inl before ↦ rw (other, before) (p, h)
      | inr after ↦ rw (other, after) (h.0, Everywhere-write k f m h.1 p)
    ]
  ]

  pub Everywhere-remove :
      (k : String) (m : Directory (File A)) → Everywhere m → Everywhere (remove k m)
  unfolding remove
  Everywhere-remove k [] h = tt
  Everywhere-remove k ((j, g) ∷ m) h = elim (Bool-cases (j == k)) [
    | inl same ↦ rw same (Everywhere-remove k m h.1)
    | inr other ↦ rw other (h.0, Everywhere-remove k m h.1)
  ]

  pub Everywhere-read :
      (k : String) (f : File A) (m : Directory (File A))
      → Everywhere m
      → read k m ≡ some f
      → Holds f
  unfolding read
  Everywhere-read k f [] h e = absurd (cc)
  Everywhere-read k f ((j, g) ∷ m) h e = elim (Bool-cases (j == k)) [
    | inl same ↦ subst Holds (cc (same, e)) h.0
    | inr other ↦ Everywhere-read k f m h.1 (rw other at e)
  ]
