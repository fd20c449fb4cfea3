-- ===== src/Disk/Frame.antt =====
-- What each call leaves as it was at a path, whether it succeeds or fails.
use isoboot.Prelude.{
  ℕ, ◌≡◌, ◌≢◌, refl, ◌∙◌, Option, none, some, List, [], ◌∷◌, ◌==◌, texts_eq, lookup, lookup-insert,
  lookup-keep, arith, not, false,
}
use isoboot.Paths.{FilePath}
use isoboot.Exec.{fail}
use isoboot.Exec.Ensures.{IsPreorder, Follows, Follows-check, Follows-fail}
use isoboot.Disk.State.{Node, Disk, put_node, drop_nodes, is_under}
use isoboot.Disk.Schedule.{Follows-attempt, Follows-facing}
use isoboot.Disk.Calls.{
  Os, attempt, stat, open_file, read, create, create_temp, copy, chmod, rename, remove, remove_all,
  read_dir, mkdir_all, readlink, symlink, sync, copy_now, mkdir_now, mkdir_last,
}

-- What stands at a path.
abbrev pub node_at : Disk → FilePath → Option Node
node_at d path = lookup path d.nodes

-- The call leaves what stands at the path.
abbrev pub Same : FilePath → Disk → Disk → Type 0
Same path d d' = node_at d' path ≡ node_at d path

pub Same-IsPreorder : (path : FilePath) → IsPreorder (Same path)
Same-IsPreorder path = record { same = λ d. refl; then_ = λ d e f p q. q ∙ p }

abbrev pub Leaves : {A : Type 0} → FilePath → Os A → Type 0
Leaves path m = Follows (Same path) m

module _ {A : Type 0} (path : FilePath) where
  attempt-Leaves :
      (call : Os A) → ((d : Disk) → Same path d (call d).1) → Leaves path (attempt call)
  attempt-Leaves call h =
      Follows-attempt (Same path) (Same-IsPreorder path) (record { blind = λ d e fs p. p }) call
        (record { at = h })

module _ (path other : FilePath) (apart : path ≢ other) where
  put_node-Same : (node : Node) (d : Disk) → Same path d (put_node other node d)
  put_node-Same node d = ground (arith, lookup-insert path other node d.nodes)

  pub create-Leaves : Leaves path (create other)
  unfolding create
  create-Leaves = attempt-Leaves path _ λ d. grind (arith, lookup-insert)

  pub create_temp-Leaves : Leaves path (create_temp other)
  unfolding create_temp
  create_temp-Leaves = attempt-Leaves path _ λ d. grind (arith, put_node-Same)

  pub copy-Leaves : (bytes : List ℕ) → Leaves path (copy other bytes)
  unfolding copy
  copy-Leaves bytes =
      Follows-facing (Same path) (Same-IsPreorder path) (record { blind = λ d e fs p. p })
        (copy_now other bytes) copy_now-Same
    where
      copy_now-Same : (fault : Option ℕ) (d : Disk) → Same path d (copy_now other bytes fault d).1
      copy_now-Same none d = grind (arith, put_node-Same)
      copy_now-Same (some n) d = grind (arith, put_node-Same)

  pub chmod-Leaves : (mode : ℕ) → Leaves path (chmod other mode)
  unfolding chmod
  chmod-Leaves mode = attempt-Leaves path _ λ d. grind (arith, lookup-insert)

  pub symlink-Leaves : (target : FilePath) → Leaves path (symlink target other)
  unfolding symlink
  symlink-Leaves target = attempt-Leaves path _ λ d. grind (arith, put_node-Same)

  drop_nodes-Same : (d : Disk) → Same path d (drop_nodes (λ p. p == other) d)
  drop_nodes-Same d = ground (arith, lookup-keep (λ p. not (p == other)) path d.nodes)

  pub remove-Leaves : Leaves path (remove other)
  unfolding remove
  remove-Leaves = attempt-Leaves path _ λ d. ground (arith, drop_nodes-Same d)

pub rename-Leaves :
    (path old new : FilePath) → path ≢ old → path ≢ new → Leaves path (rename old new)
unfolding rename
rename-Leaves path old new h k =
    attempt-Leaves path _
      λ d. grind (arith, lookup-insert, lookup-keep (λ p. not (p == old)) path d.nodes)

pub remove_all-Leaves :
    (path root : FilePath) → is_under root path ≡ false → Leaves path (remove_all root)
unfolding remove_all
remove_all-Leaves path root h =
    attempt-Leaves path _ λ d. ground (arith, lookup-keep (λ p. not (is_under root p)) path d.nodes)

mkdir_last-Leaves : (path other : FilePath) → path ≢ other → Leaves path (mkdir_last other)
unfolding mkdir_last
mkdir_last-Leaves path other h = record { at = λ d. grind (arith, put_node-Same path other h) }

pub mkdir_now-Leaves :
    (path other : FilePath) → is_under path other ≡ false → Leaves path (mkdir_now other)
unfolding mkdir_now is_under
mkdir_now-Leaves path [] h = record { at = λ d. refl }
mkdir_now-Leaves path (name ∷ up) h =
    Follows-check (Same path) (Same-IsPreorder path) (mkdir_now up) fail
      (λ _. mkdir_last (name ∷ up)) (mkdir_now-Leaves path up (ground arith))
      (λ e. Follows-fail (Same path) (Same-IsPreorder path) e)
      (λ _. mkdir_last-Leaves path (name ∷ up) (ground arith))

pub mkdir_all-Leaves :
    (path other : FilePath) → is_under path other ≡ false → Leaves path (mkdir_all other)
unfolding mkdir_all
mkdir_all-Leaves path other h = attempt-Leaves path _ (mkdir_now-Leaves path other h).at

pub read_dir-Leaves : (path other : FilePath) → Leaves path (read_dir other)
unfolding read_dir
read_dir-Leaves path other = attempt-Leaves path _ λ d. ground arith

pub readlink-Leaves : (path other : FilePath) → Leaves path (readlink other)
unfolding readlink
readlink-Leaves path other = attempt-Leaves path _ λ d. ground arith

pub sync-Leaves : (path : FilePath) → Leaves path sync
unfolding sync
sync-Leaves path = attempt-Leaves path _ λ d. refl

pub stat-Leaves : (path other : FilePath) → Leaves path (stat other)
unfolding stat
stat-Leaves path other = attempt-Leaves path _ λ d. ground arith

pub open_file-Leaves : (path other : FilePath) → Leaves path (open_file other)
unfolding open_file
open_file-Leaves path other = attempt-Leaves path _ λ d. ground arith

pub read-Leaves : (path other : FilePath) → Leaves path (read other)
unfolding read
read-Leaves path other = attempt-Leaves path _ λ d. ground arith
