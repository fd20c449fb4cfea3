-- ===== src/Paths/Safety.antt =====
-- Which components keep a joined path below the directory that it starts from.
use Prim.Native.Char.{Char, code}
use mathlib.Core.List.{reverse, append_assoc, reverse-cons}
use isoboot.Prelude.{String, ◌≡◌, refl, ◌∙◌, ◌≢◌, Bool, true, List, [], ◌∷◌, ◌++◌, arith}
use isoboot.Prelude.{string_eq, nat_eq, All}
use isoboot.Paths.{cons_head, split, FilePath, resolve, resolve_all, parts_of, join}

abbrev pub NoSlash : String → Type 0
NoSlash String.[] = Unit
NoSlash (String.◌∷◌ c s) = (code c ≢ b'/') × NoSlash s

-- A file name proper: it can be joined to a directory without leaving it or staying in it.
pub record IsName (part : String) : Type 0 where
  pub not_empty : part ≢ ""
  pub not_dot : part ≢ "."
  pub not_dots : part ≢ ".."
  pub no_slash : NoSlash part

cons_head-NoSlash :
    (c : Char) (parts : List String)
    → code c ≢ b'/'
    → All NoSlash parts
    → All NoSlash (cons_head c parts)
cons_head-NoSlash c [] h k = ((h, tt), tt)
cons_head-NoSlash c (p ∷ ps) h (k, ks) = ((h, k), ks)

pub split-NoSlash : (s : String) → All NoSlash (split s)
unfolding split
split-NoSlash String.[] = (tt, tt)
split-NoSlash (String.◌∷◌ c s) = ground (arith, split-NoSlash s, cons_head-NoSlash c (split s))

-- A text without a slash is its own only piece.
pub split_of_NoSlash : (s : String) → NoSlash s → split s ≡ s ∷ []
unfolding split
split_of_NoSlash String.[] h = refl
split_of_NoSlash (String.◌∷◌ c s) (h, hs) = rw (split_of_NoSlash s hs) (ground arith)

pub parts_of-IsName : (names : List String) → All IsName names → parts_of names ≡ names
unfolding parts_of
parts_of-IsName [] h = refl
parts_of-IsName (name ∷ names) (h, hs) =
    rw (split_of_NoSlash name h.no_slash, parts_of-IsName names hs)

pub resolve_of_IsName :
    (rooted : Bool) (stack : FilePath) (part : String)
    → IsName part
    → resolve rooted stack part ≡ part ∷ stack
unfolding resolve
resolve_of_IsName rooted stack part h = ground (arith, h.not_empty, h.not_dot, h.not_dots)

pub resolve_all-IsName :
    (rooted : Bool) (stack : FilePath) (names : List String)
    → All IsName names
    → resolve_all rooted stack names ≡ reverse names ++ stack
unfolding resolve_all
resolve_all-IsName rooted stack [] h = refl
resolve_all-IsName rooted stack (name ∷ names) (h, hs) =
    rw (resolve_of_IsName rooted stack name h)
      (resolve_all-IsName rooted (name ∷ stack) names hs ∙ simp (reverse-cons, append_assoc))

pub resolve_all-append :
    (rooted : Bool) (stack : FilePath) (xs ys : List String)
    → resolve_all rooted stack (xs ++ ys) ≡ resolve_all rooted (resolve_all rooted stack xs) ys
unfolding resolve_all
resolve_all-append rooted stack [] ys = refl
resolve_all-append rooted stack (x ∷ xs) ys =
    resolve_all-append rooted (resolve rooted stack x) xs ys

-- Joining proper names adds them one below the other.
pub join-IsName :
    (dir : FilePath) (names : List String)
    → All IsName names
    → join dir names ≡ reverse names ++ dir
unfolding join
join-IsName dir names h = rw (parts_of-IsName names h) (resolve_all-IsName true dir names h)
