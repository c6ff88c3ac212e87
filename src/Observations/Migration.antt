-- ===== src/Observations/Migration.antt =====
-- `migrate_legacy_system_issues` of observations.py. Whether the operating system refuses the move
-- of a file is a parameter, and so is whether it refuses to move it back.
use circled_wiki.Base.{
  String, ℕ, Bool, true, false, not, ◌&&◌, ◌||◌, Option, none, some, List, [], ◌∷◌, ◌++◌,
  starts_with, Directory, read, write, remove, file_names, codes, after_prefix, contains, is_some,
  length, select, non_empty, if◌then◌else◌, Result, ok, err, raise_if, ◌>>◌, ◌>>=◌,
}
use Prim.Native.String

-- The files of the two issue directories, by name, with their texts.
pub record Issues : Type 0 where
  pub legacy : Directory String
  pub workspace : Directory String

pub data MigrationError : Type 0 where
  ambiguous_reference : MigrationError
  destination_exists : MigrationError
  -- The `RuntimeError` behind a finished rollback.
  move_failed : MigrationError
  -- The `OSError` of a move back, which leaves the handler.
  rollback_failed : MigrationError

unfoldable pub occurs : List ℕ → List ℕ → Bool
unfolding after_prefix
occurs p [] = is_some (after_prefix p [])
occurs p (c ∷ s) = is_some (after_prefix p (c ∷ s)) || occurs p s

-- `p in text`.
unfoldable pub is_in : String → String → Bool
unfolding occurs
is_in p text = occurs (codes p) (codes text)

unfoldable pub ends_with : List ℕ → List ℕ → Bool
ends_with p [] = elim (after_prefix p []) [ some [] ↦ true | _ ↦ false ]
ends_with p (c ∷ s) =
    (elim (after_prefix p (c ∷ s)) [ some [] ↦ true | _ ↦ false ]) || ends_with p s

-- `glob("issue-*.md")`.
unfoldable pub is_issue_file : String → Bool
unfolding ends_with
is_issue_file name = starts_with name "issue-" && ends_with (codes ".md") (codes name)

-- The name starts with the reference, or the text names it.
unfoldable pub refers : Directory String → String → String → Bool
unfolding is_in
refers legacy reference name = starts_with name reference || (elim (read name legacy) [
  | none ↦ false
  | some text ↦ is_in (String.◌++◌ "`" (String.◌++◌ reference "`")) text
])

unfoldable pub only : List String → Option String
only (name ∷ []) = some name
only names = none

-- Each reference selects exactly one file, and a file is selected once.
unfoldable pub select_files :
    Directory String → List String → List String → List String → Result MigrationError (List String)
unfolding refers only
select_files legacy candidates [] selected = ok selected
select_files legacy candidates (reference ∷ references) selected =
    elim (only (select (refers legacy reference) candidates)) [
      | none ↦ err ambiguous_reference
      | some name ↦
          select_files legacy candidates references
            (if contains name selected then selected else selected ++ name ∷ [])
    ]

unfoldable pub candidates_of : Directory String → List String → Result MigrationError (List String)
unfolding select_files is_issue_file
candidates_of legacy references =
    let candidates = select is_issue_file (file_names legacy) in
    if non_empty references then select_files legacy candidates references [] else ok candidates

unfoldable pub check_destinations :
    Directory String → List String → Result MigrationError (Unit {0})
check_destinations workspace [] = ok tt
check_destinations workspace (name ∷ names) =
    raise_if (is_some (read name workspace)) destination_exists
    >> check_destinations workspace names

-- `destination.replace(source)`, where the destination is there and the source is not.
unfoldable pub move_back : String → Issues → Issues
move_back name s = elim (read name s.legacy) [
  | some text ↦ s
  | none ↦ elim (read name s.workspace) [
    | none ↦ s
    | some text ↦ record { legacy = write name text s.legacy; workspace = remove name s.workspace }
  ]
]

-- `destination.exists() and not source.exists()`.
unfoldable pub can_move_back : String → Issues → Bool
can_move_back name s = is_some (read name s.workspace) && not (is_some (read name s.legacy))

pub record Migration : Type 0 where
  pub applied : Bool
  pub actions : List String
  pub moved : ℕ

-- The moves, or that they failed.
unfoldable pub finished :
    List String
    → Issues × Result MigrationError (List String)
    → Issues × Result MigrationError Migration
finished names (s, err e) = (s, err e)
finished names (s, ok moved) =
    (s, ok (record { applied = true; actions = names; moved = length moved }))

-- How the handler ends.
unfoldable pub undone : {A : Type 0} → Issues × Bool → Issues × Result MigrationError A
undone (s, true) = (s, err move_failed)
undone (s, false) = (s, err rollback_failed)

module _ (refuses refuses_back : String → Bool) where
  -- `for source, destination in reversed(moved)`, the last move in front, and whether the loop was
  -- finished.
  unfoldable pub roll_back : List String → Issues → Issues × Bool
  unfolding can_move_back move_back
  roll_back [] s = (s, true)
  roll_back (name ∷ moved) s =
      let rest = roll_back moved (move_back name s) in
      if can_move_back name s && refuses_back name then (s, false) else rest

  -- The moves, with those that were made, the last in front. A source that is gone is refused too.
  unfoldable pub move_files :
      List String → Issues → List String → Issues × Result MigrationError (List String)
  unfolding roll_back undone
  move_files [] s moved = (s, ok moved)
  move_files (name ∷ names) s moved = elim (read name s.legacy) [
    | none ↦ undone (roll_back moved s)
    | some text ↦
        if refuses name
        then undone (roll_back moved s)
        else move_files names
            (record { legacy = remove name s.legacy; workspace = write name text s.workspace })
            (name ∷ moved)
  ]

  unfoldable pub planned :
      Issues → Bool → Result MigrationError (List String) → Issues × Result MigrationError Migration
  unfolding move_files finished
  planned s apply (err e) = (s, err e)
  planned s false (ok names) = (s, ok (record { applied = false; actions = names; moved = 0 }))
  planned s true (ok names) = finished names (move_files names s [])

  unfoldable pub migrate_legacy_system_issues :
      Issues → List String → Bool → Issues × Result MigrationError Migration
  unfolding candidates_of check_destinations planned
  migrate_legacy_system_issues s references apply = planned s apply (
      candidates_of s.legacy references >>= λ names.
      check_destinations s.workspace names >> ok names)
