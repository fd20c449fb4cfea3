-- ===== src/Disk/Links.antt =====
-- What the calls on symbolic links do to the link.
use isoboot.Prelude.{◌≡◌, ◌∙◌, sym, ok, some, texts_eq, lookup, lookup-insert, arith}
use isoboot.Paths.{FilePath}
use isoboot.Exec.Ensures.{Ensures}
use isoboot.Disk.State.{Disk, link}
use isoboot.Disk.Calls.{readlink, readlink_now, symlink}
use isoboot.Disk.Frame.{node_at, readlink-Leaves}
use isoboot.Disk.Effects.{Success, attempt-Success}
use isoboot.Disk.Reads.{attempt-ran}

-- A symbolic link to the target stands at the path.
abbrev pub LinkAt : FilePath → FilePath → Disk → Type 0
LinkAt path target d = node_at d path ≡ some (link target)

pub symlink-LinkAt :
    (target path : FilePath) (d : Disk)
    → Ensures (symlink target path) d (Success (LinkAt path target))
unfolding symlink
symlink-LinkAt target path d =
    attempt-Success (λ d. Unit) (LinkAt path target) (λ d fs p. tt) _
      (λ d p. grind (arith, lookup-insert)) d tt

readlink_now-LinkAt :
    (path target : FilePath) (d : Disk) → (readlink_now path d).0 ≡ ok target → LinkAt path target d
unfolding readlink_now
readlink_now-LinkAt path target d h = ground arith

pub readlink-LinkAt :
    (path target : FilePath) (d : Disk)
    → (readlink path d).0 ≡ ok target
    → LinkAt path target (readlink path d).1
unfolding readlink
readlink-LinkAt path target d h =
    let (e, same, ran) = attempt-ran (readlink_now path) target d h in
    (readlink-Leaves path path).at d
    ∙ sym (λ i. lookup path (same i))
    ∙ readlink_now-LinkAt path target e ran
