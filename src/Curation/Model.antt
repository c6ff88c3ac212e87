-- ===== src/Curation/Model.antt =====
-- The front matter of the tasks of src/circled_wiki/runtime/core/curation_queue.py, as far as the
-- code looks into it. A field is a text or missing; a mapping or list of another shape
-- is missing, and so is an empty `current`.
use circled_wiki.Base.{ℕ, String, Bool, Option, List, Directory, File}

pub record Contract : Type 0 where
  pub name : String
  pub version : ℕ

pub record Current : Type 0 where
  pub stage : Option String
  pub status : Option String
  pub actor : Option String
  pub next_action : Option String

-- `last_blocker`: missing, or a mapping with these fields, or something else.
pub record BlockerFields : Type 0 where
  pub reason : Option String
  pub reason_category : Option String
  pub next_action : Option String

pub data Blocker : Type 0 where
  no_blocker malformed : Blocker
  blocker : BlockerFields → Blocker

pub record Receipt : Type 0 where
  pub stage : String
  pub status : String
  pub recorded_at : String
  pub outcome : Option String
  pub reason : Option String

pub record Transition : Type 0 where
  pub from_current : Option Current
  pub to_current : Current
  pub outcome : String
  pub recorded_at : String

-- The front matter of a task file; the empty mapping has no field.
pub record QueueTask : Type 0 where
  pub kind : Option String
  pub contract : Option Contract
  pub evidence_id : Option String
  pub evidence_path : Option String
  pub current : Option Current
  pub recheck_required : Bool
  pub last_blocker : Blocker
  pub step_receipts : Option (List Receipt)
  pub transitions : Option (List Transition)

abbrev pub Queue : Type 0
Queue = Directory (File QueueTask)

-- An Evidence document: its `type`, its `id`, its path under the knowledge root, and its name.
pub record EvidenceDocument : Type 0 where
  pub kind : Option String
  pub id : Option String
  pub path : String
  pub name : String

-- The `ValueError`s: also `FrontmatterError`, of a file whose front matter does not parse.
pub data CurationError : Type 0 where
  invalid_frontmatter missing_uuid blank_evidence_id blank_blocker : CurationError
