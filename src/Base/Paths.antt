-- ===== src/Base/Paths.antt =====
-- Paths as the standard library takes them apart and puts them together. A path given to these ends
-- in no slash, unless it is the root.
use mathlib.Core.Bool.{Bool, false}
use mathlib.Core.List.{[], ◌∷◌, ◌++◌}
use mathlib.Core.Option.{Option, none, some}
use ig.Base.Tests.{◌==◌, if◌then◌else◌}
use ig.Base.Lists.{is_empty}
use ig.Base.Text.{Text, text, rsplit_once}

ends_in_slash : Text → Bool
ends_in_slash [] = false
ends_in_slash (c ∷ []) = c == b'/'
ends_in_slash (c ∷ d ∷ ds) = ends_in_slash (d ∷ ds)

parent_of : Text → Option (Text × Text) → Option Text
parent_of path none = if is_empty path then none else some []
parent_of path (some (head, tail)) =
    if is_empty head then (if is_empty tail then none else some (text "/")) else some head

-- `path.parent()`.
unfoldable pub parent : Text → Option Text
unfolding parent_of
parent path = parent_of path (rsplit_once b'/' path)

-- `dir.join(name)`, of a name that is relative.
unfoldable pub join : Text → Text → Text
unfolding ends_in_slash
join dir name =
    if is_empty dir then name else if ends_in_slash dir then dir ++ name else dir ++ 47 ∷ name

-- `path.is_absolute()`.
unfoldable pub is_absolute : Text → Bool
is_absolute [] = false
is_absolute (c ∷ cs) = c == b'/'
