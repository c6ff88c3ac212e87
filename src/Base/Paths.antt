-- ===== src/Base/Paths.antt =====
-- File names: `Path(name).name == name` of a non-empty text.
use Prim.Native.Char.{code}
use Prim.Native.String.{String}
use mathlib.Core.Bool.{Bool, false, not, ◌&&◌, ◌||◌}
use text.Mathlib.Text.{◌==◌}
use circled_wiki.Base.Tests.{nat_eq}

has_slash : String → Bool
has_slash String.[] = false
has_slash (String.◌∷◌ c s) = nat_eq (code c) b'/' || has_slash s

-- A name with a separator is cut at it, and `.` is the empty path.
unfoldable pub is_file_name : String → Bool
unfolding has_slash
is_file_name s = not (has_slash s) && not (s == ".")
