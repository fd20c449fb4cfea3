-- ===== src/Paths.antt =====
-- The lexical path functions of Go's `path`, `path/filepath` and `strings` that the program calls.
-- A cleaned path is the list of its components, the innermost first: "/a/b" is "b" ∷ "a" ∷ [].
pub mod Safety
pub mod Targets
pub mod BaseName
use Prim.Native.Char.{Char, code}
use Prim.Native.String
use mathlib.Core.List.{foldl, reverse, tail}
use isoboot.Prelude.{String, ◌<>◌, Bool, true, false, List, [], ◌∷◌, ◌++◌}
use isoboot.Prelude.{◌==◌, string_eq, nat_eq, if◌then◌else◌}

-- Put a character before the first text of a list.
abbrev pub cons_head : Char → List String → List String
cons_head c [] = String.◌∷◌ c String.[] ∷ []
cons_head c (p ∷ ps) = String.◌∷◌ c p ∷ ps

-- `strings.Split(s, "/")`
unfoldable pub split : String → List String
unfolding nat_eq
split String.[] = "" ∷ []
split (String.◌∷◌ c s) =
    let rest = split s in if code c == b'/' then "" ∷ rest else cons_head c rest

-- An absolute path, cleaned, its components innermost first.
abbrev pub FilePath : Type 0
FilePath = List String

-- What ".." does to a cleaned path. Above the root of an absolute path there is nothing; a relative
-- path keeps its leading "..".
abbrev pub go_up : Bool → FilePath → FilePath
go_up true stack = tail stack
go_up false [] = ".." ∷ []
go_up false (top ∷ stack) = if top == ".." then ".." ∷ top ∷ stack else stack

-- One round of `path.Clean`; the flag tells whether the path is absolute.
unfoldable pub resolve : Bool → FilePath → String → FilePath
resolve rooted stack part =
    if part == ""
    then stack
    else if part == "."
    then stack
    else if part == ".."
    then go_up rooted stack
    else part ∷ stack

unfoldable pub resolve_all : Bool → FilePath → List String → FilePath
unfolding resolve
resolve_all rooted stack [] = stack
resolve_all rooted stack (part ∷ parts) = resolve_all rooted (resolve rooted stack part) parts

-- The components of all elements of a `Join`.
unfoldable pub parts_of : List String → List String
unfolding split
parts_of [] = []
parts_of (elem ∷ elems) = split elem ++ parts_of elems

-- `filepath.Join(dir, elems...)` for an absolute directory.
unfoldable pub join : FilePath → List String → FilePath
unfolding resolve_all parts_of
join dir elems = resolve_all true dir (parts_of elems)

-- `filepath.Join(elems...)` where the first element is relative.
unfoldable pub join_relative : List String → FilePath
unfolding resolve_all parts_of
join_relative elems = resolve_all false [] (parts_of elems)

-- Where a relative path leads from a directory.
unfoldable pub follow_from : FilePath → FilePath → FilePath
unfolding resolve_all
follow_from dir relative = resolve_all true dir (reverse relative)

-- `filepath.Dir`
abbrev pub dir : FilePath → FilePath
dir = tail

-- The text of an absolute path.
unfoldable pub text_of : FilePath → String
text_of [] = "/"
text_of (part ∷ []) = "/" <> part
text_of (part ∷ stack) = text_of stack <> "/" <> part

last_piece : String → List String → String
last_piece found [] = found
last_piece found (part ∷ parts) = last_piece (if part == "" then found else part) parts

-- `path.Base`: the last component that is not empty, "/" if there is none, "." for the empty path.
unfoldable pub base : String → String
unfolding split last_piece
base path = if path == "" then "." else last_piece "/" (split path)

intercalate : List String → String
intercalate [] = ""
intercalate (part ∷ []) = part
intercalate (part ∷ parts) = part <> "/" <> intercalate parts

-- `path.Join(elems...)`, as a text, for elements of which the first is neither empty nor begins
-- with a slash.
unfoldable pub join_text : List String → String
unfolding join_relative intercalate
join_text elems = intercalate (reverse (join_relative elems))
