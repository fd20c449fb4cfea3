-- ===== src/Disk/Content.antt =====
-- What each call does to the content of the regular file at a path.
use isoboot.Prelude.{
  ℕ, ◌≡◌, refl, ap, ◌∙◌, ◌⊎◌, inl, [], ◌∷◌, Option, none, some, List, arith, ◌==◌, texts_eq,
  lookup-insert, lookup-keep, not,
}
use isoboot.Paths.{FilePath}
use isoboot.Exec.{fail}
use isoboot.Exec.Ensures.{IsPreorder, Follows, Follows-check, Follows-fail}
use isoboot.Disk.State.{Disk}
use isoboot.Disk.Calls.{
  Os, serve, or_io_error, rename, rename_now, remove, remove_now, mkdir_now, mkdir_last, mkdir_all,
}
use isoboot.Disk.Schedule.{Follows-attempt}
use isoboot.Disk.Frame.{node_at, Leaves}
use isoboot.Disk.Effects.{content_of}

abbrev pub content_at : Disk → FilePath → Option (List ℕ)
content_at d path = content_of (node_at d path)

-- The call leaves the content of the regular file at the path, or that there is none.
abbrev pub SameContent : FilePath → Disk → Disk → Type 0
SameContent path d d' = content_at d' path ≡ content_at d path

pub SameContent-IsPreorder : (path : FilePath) → IsPreorder (SameContent path)
SameContent-IsPreorder path = record { same = λ d. refl; then_ = λ d e f p q. q ∙ p }

pub Leaves-SameContent :
    {A : Type 0} (path : FilePath) (m : Os A) → Leaves path m → Follows (SameContent path) m
Leaves-SameContent path m h = record { at = λ d. ap content_of (h.at d) }

-- Making directories touches no file.
mkdir_last-SameContent : (path other : FilePath) → Follows (SameContent path) (mkdir_last other)
unfolding mkdir_last
mkdir_last-SameContent path other = record { at = λ d. grind (arith, lookup-insert) }

mkdir_now-SameContent : (path other : FilePath) → Follows (SameContent path) (mkdir_now other)
unfolding mkdir_now
mkdir_now-SameContent path [] = record { at = λ d. refl }
mkdir_now-SameContent path (name ∷ up) =
    Follows-check (SameContent path) (SameContent-IsPreorder path) (mkdir_now up) fail
      (λ _. mkdir_last (name ∷ up)) (mkdir_now-SameContent path up)
      (λ e. Follows-fail (SameContent path) (SameContent-IsPreorder path) e)
      (λ _. mkdir_last-SameContent path (name ∷ up))

pub mkdir_all-SameContent : (path other : FilePath) → Follows (SameContent path) (mkdir_all other)
unfolding mkdir_all
mkdir_all-SameContent path other =
    Follows-attempt (SameContent path) (SameContent-IsPreorder path)
      (record { blind = λ d e fs h. h }) (mkdir_now other) (mkdir_now-SameContent path other)

-- Removing a path takes its content away or leaves it.
abbrev pub SameOrGone : FilePath → Disk → Disk → Type 0
SameOrGone path d d' = SameContent path d d' ⊎ (content_at d' path ≡ none)

remove_now-SameOrGone : (path : FilePath) (d : Disk) → SameOrGone path d (remove_now path d).1
unfolding remove
remove_now-SameOrGone path d = ground (arith, lookup-keep (λ p. not (p == path)) path d.nodes)

pub SameOrGone-IsPreorder : (path : FilePath) → IsPreorder (SameOrGone path)
SameOrGone-IsPreorder path = record { same = λ d. inl refl; then_ = λ d e f p q. ground arith }

pub remove-SameOrGone : (path : FilePath) → Follows (SameOrGone path) (remove path)
unfolding remove
remove-SameOrGone path =
    Follows-attempt (SameOrGone path) (SameOrGone-IsPreorder path)
      (record { blind = λ d e fs h. h }) (remove_now path)
      (record { at = remove_now-SameOrGone path })

rename_now-content :
    (old new : FilePath) (bytes : List ℕ) (d : Disk)
    → content_at d old ≡ some bytes
    → SameContent new d (rename_now old new d).1
      ⊎ (content_at (rename_now old new d).1 new ≡ some bytes)
unfolding rename
rename_now-content old new bytes d h =
    grind (arith, lookup-insert, lookup-keep (λ p. not (p == old)) new d.nodes)

-- A rename puts the content of the file at the new path, or leaves what is there.
pub rename-content :
    (old new : FilePath) (bytes : List ℕ) (d : Disk)
    → content_at d old ≡ some bytes
    → SameContent new d (rename old new d).1 ⊎ (content_at (rename old new d).1 new ≡ some bytes)
unfolding rename
rename-content old new bytes d h = by_fault d.faults
  where
    by_fault :
        (faults : List (Option ℕ))
        → SameContent new d (serve (or_io_error (rename_now old new)) faults d).1
          ⊎ (content_at (serve (or_io_error (rename_now old new)) faults d).1 new ≡ some bytes)
    by_fault [] = rename_now-content old new bytes d h
    by_fault (none ∷ rest) = rename_now-content old new bytes (record d { faults = rest }) h
    by_fault (some n ∷ rest) = inl refl
