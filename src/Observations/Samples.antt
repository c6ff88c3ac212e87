-- ===== src/Observations/Samples.antt =====
-- Tests of the migration of issue records, and its property at a concrete input.
use circled_wiki.Base.{
  String, Bool, false, true, ◌≡◌, refl, [], ◌∷◌, ◌==◌, read, write, remove, file_names,
  after_prefix, err,
}
use circled_wiki.Observations.Migration.{
  Issues, move_failed, rollback_failed, migrate_legacy_system_issues,
}
use circled_wiki.Observations.Rollback.{IsLeftBy, migrate_legacy_system_issues-IsLeftBy}

abbrev before : Issues
before = record { legacy = ("issue-a.md", "A") ∷ ("issue-b.md", "B") ∷ []; workspace = [] }

abbrev refuses_b : String → Bool
refuses_b name = name == "issue-b.md"

abbrev refuses_a : String → Bool
refuses_a name = name == "issue-a.md"

abbrev refuses_none : String → Bool
refuses_none name = false

-- The rollback is finished, and all files are back.
undone_ok :
    migrate_legacy_system_issues refuses_b refuses_none before [] true ≡ (before, err move_failed)
unfolding migrate_legacy_system_issues file_names after_prefix read write remove
undone_ok = refl

-- The first file cannot be moved back either.
abbrev after : Issues
after = record { legacy = ("issue-b.md", "B") ∷ []; workspace = ("issue-a.md", "A") ∷ [] }

stuck :
    migrate_legacy_system_issues refuses_b refuses_a before [] true ≡ (after, err rollback_failed)
unfolding migrate_legacy_system_issues file_names after_prefix read write remove
stuck = refl

migrate_legacy_system_issues-IsLeftBy_example : IsLeftBy rollback_failed before after
migrate_legacy_system_issues-IsLeftBy_example =
    migrate_legacy_system_issues-IsLeftBy refuses_b refuses_a before [] true after rollback_failed
      stuck
