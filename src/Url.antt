-- ===== src/Url.antt =====
-- internal/urlutil/urlutil.go: the file name that a URL ends in.
pub mod Laws
use isoboot.Prelude.{String, Option, none, some, ◌==◌, string_eq, if◌then◌else◌}
use isoboot.Paths.{base}

-- `url.Parse` of the standard library, as far as it is used here: the path of the parsed URL, or
-- none where the URL does not parse.
abbrev pub UrlPath : Type 0
UrlPath = String → Option String

abbrev file_name : String → String
file_name name =
    if name == ""
    then "artifact"
    else if name == "."
    then "artifact"
    else if name == "/"
    then "artifact"
    else if name == ".."
    then "artifact"
    else name

-- `FilenameFromURL`
unfoldable pub filename_from_url : UrlPath → String → String
filename_from_url url_path raw_url = elim (url_path raw_url) [
  | none ↦ "artifact"
  | some path ↦ file_name (base path)
]
