-- ===== src/Url/Laws.antt =====
-- What `FilenameFromURL` promises to the code that joins its result to a directory.
use text.Mathlib.TextEquality.{eq_iff}
use isoboot.Prelude.{String, ◌<>◌, ◌≡◌, refl, ◌≢◌, some, arith, subst}
use isoboot.Prelude.{inl, inr, ◌⊎◌, Option-cases}
use isoboot.Paths.{base}
use isoboot.Paths.Safety.{NoSlash, IsName}
use isoboot.Paths.BaseName.{base-NoSlash, base-append_name}
use isoboot.Url.{UrlPath, file_name, filename_from_url}

artifact-IsName : IsName "artifact"
artifact-IsName = record {
  not_empty = ground (arith, eq_iff "artifact" "");
  not_dot = ground (arith, eq_iff "artifact" ".");
  not_dots = ground (arith, eq_iff "artifact" "..");
  no_slash = omega arith;
}

file_name-cases :
    (name : String)
    → (file_name name ≡ "artifact")
      ⊎ ((file_name name ≡ name) × (name ≢ "") × (name ≢ ".") × (name ≢ "/") × (name ≢ ".."))
file_name-cases name = ground arith

IsName-ne-slash : (name : String) → IsName name → name ≢ "/"
IsName-ne-slash name h e = (subst NoSlash e h.no_slash).0 refl

file_name_of_IsName : (name : String) → IsName name → file_name name ≡ name
file_name_of_IsName name h =
    ground (arith, h.not_empty, h.not_dot, h.not_dots, IsName-ne-slash name h)

file_name-IsName : (name : String) → (name ≡ "/") ⊎ NoSlash name → IsName (file_name name)
file_name-IsName name h = elim (file_name-cases name) [
  | inl e ↦ rw e artifact-IsName
  | inr (e, not_empty, not_dot, not_slash, not_dots) ↦ rw e (record {
    not_empty = not_empty;
    not_dot = not_dot;
    not_dots = not_dots;
    no_slash = elim h [ inl p ↦ absurd (not_slash p) | inr p ↦ p ];
  })
]

-- The file name is one proper path component, whatever the URL: not empty, not "." or "..", and
-- without a slash.
pub filename_from_url-IsName :
    (url_path : UrlPath) (raw_url : String) → IsName (filename_from_url url_path raw_url)
unfolding filename_from_url
filename_from_url-IsName url_path raw_url = elim (Option-cases (url_path raw_url)) [
  | inl e ↦ rw (e, filename_from_url) artifact-IsName
  | inr (path, e) ↦ rw (e, filename_from_url) (file_name-IsName (base path) (base-NoSlash path))
]

-- A URL whose path ends in a proper component yields that component.
pub filename_from_url-last :
    (url_path : UrlPath) (raw_url d name : String)
    → url_path raw_url ≡ some (d <> ("/" <> name))
    → IsName name
    → filename_from_url url_path raw_url ≡ name
unfolding filename_from_url
filename_from_url-last url_path raw_url d name e h =
    rw (e, filename_from_url) (rw (base-append_name d name h) (file_name_of_IsName name h))
