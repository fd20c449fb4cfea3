-- ===== src/Disk/Calls.antt =====
-- The calls of `os` and `io` over the file system.
use isoboot.Prelude.{
  ℕ, ◌+◌, String, ◌<>◌, Option, none, some, List, [], ◌∷◌, ◌++◌, Error, os_not_exist, os_failure,
  ok, err, ◌==◌, texts_eq, if◌then◌else◌, lookup, insert, keep, not,
}
use isoboot.Paths.{FilePath, dir, text_of}
use isoboot.Exec.{Exec, pure, fail, check}
use isoboot.Disk.State.{
  Node, file, link, directory, Disk, target_of, is_directory, put_node, drop_nodes, take, is_under,
  children,
}

abbrev pub Os : Type 0 → Type 0
Os A = Exec Disk A

-- The next entry of the schedule, handed to the call.
abbrev pub serve : {A : Type 0} → (Option ℕ → Os A) → List (Option ℕ) → Os A
serve call [] d = call none d
serve call (fault ∷ rest) d = call fault (record d { faults = rest })

abbrev pub facing : {A : Type 0} → (Option ℕ → Os A) → Os A
facing call d = serve call d.faults d

abbrev pub io_error : Error
io_error = os_failure "input/output error"

abbrev pub or_io_error : {A : Type 0} → Os A → Option ℕ → Os A
or_io_error call none d = call d
or_io_error call (some n) d = (err io_error, d)

-- A call that fails as the schedule says and has no effect then.
abbrev pub attempt : {A : Type 0} → Os A → Os A
attempt call = facing (or_io_error call)

abbrev pub missing : {A : Type 0} → String → FilePath → Os A
missing call path =
    fail (os_not_exist (call <> " " <> text_of path <> ": no such file or directory"))

abbrev modified_of : Node → ℕ
modified_of (file f) = f.modified
modified_of (directory m) = m
modified_of (link target) = 0

-- `os.Stat`: the modification time of what the path names.
unfoldable pub stat_now : FilePath → Os ℕ
stat_now path d = elim (lookup (target_of d path) d.nodes) [
  | none ↦ missing "stat" path d
  | some (link target) ↦ fail (os_failure "too many levels of symbolic links") d
  | some (file f) ↦ pure f.modified d
  | some (directory m) ↦ pure m d
]

-- `os.Open`: the real path of a file or directory that is there.
unfoldable pub open_now : FilePath → Os FilePath
open_now path d = elim (lookup (target_of d path) d.nodes) [
  | none ↦ missing "open" path d
  | some (link target) ↦ fail (os_failure "too many levels of symbolic links") d
  | some _ ↦ pure (target_of d path) d
]

-- Reading an open file to its end.
unfoldable pub read_now : FilePath → Os (List ℕ)
read_now path d = elim (lookup path d.nodes) [
  | some (file f) ↦ pure f.content d
  | _ ↦ fail (os_failure "is a directory") d
]

new_file : ℕ → FilePath → Os (Unit {0})
unfolding is_directory
new_file mode path d =
    if is_directory d.nodes (dir path)
    then (ok tt, put_node path (file (record { content = []; modified = d.clock; mode = mode })) d)
    else missing "open" path d

-- `os.Create`, for a path that is no symbolic link: an existing file is truncated.
create_now : FilePath → Os (Unit {0})
unfolding new_file
create_now path d = elim (lookup path d.nodes) [
  | none ↦ new_file 0o644 path d
  | some (file f) ↦ (ok tt, put_node path (file (record f { content = []; modified = d.clock })) d)
  | some _ ↦ fail (os_failure "cannot be created") d
]

-- `os.CreateTemp`, with the name that it picks: a name that is taken is never opened.
unfoldable pub create_temp_now : FilePath → Os (Unit {0})
unfolding new_file
create_temp_now path d = elim (lookup path d.nodes) [
  | none ↦ new_file 0o600 path d
  | some _ ↦ fail (os_failure "file exists") d
]

-- Append to a file that was opened for writing.
abbrev append_node : List ℕ → FilePath → Disk → Disk
append_node bytes path d = elim (lookup path d.nodes) [
  | some (file f) ↦
      put_node path (file (record f { content = f.content ++ bytes; modified = d.clock })) d
  | _ ↦ d
]

unfoldable pub copy_now : FilePath → List ℕ → Option ℕ → Os (Unit {0})
copy_now path bytes none d = (ok tt, append_node bytes path d)
copy_now path bytes (some n) d = (err io_error, append_node (take n bytes) path d)

-- `os.Chmod`
unfoldable pub chmod_now : FilePath → ℕ → Os (Unit {0})
chmod_now path mode d = elim (lookup path d.nodes) [
  | some (file f) ↦
      (ok tt, record d { nodes = insert path (file (record f { mode = mode })) d.nodes })
  | _ ↦ missing "chmod" path d
]

-- `os.Rename` of a file over a file, a link or nothing; the modification time moves along.
unfoldable pub rename_now : FilePath → FilePath → Os (Unit {0})
rename_now old new d = elim (lookup old d.nodes) [
  | some (file f) ↦ elim (lookup new d.nodes) [
    | some (directory m) ↦ fail (os_failure "file exists") d
    | _ ↦ (
      ok tt,
      record d {
        nodes = insert new (file f) (keep (λ p. not (p == old)) d.nodes);
        clock = d.clock + 1;
      },
    )
  ]
  | _ ↦ missing "rename" old d
]

-- `os.Remove`: a file, a link, or an empty directory.
unfoldable pub remove_now : FilePath → Os (Unit {0})
unfolding children
remove_now path d = elim (lookup path d.nodes) [
  | none ↦ missing "remove" path d
  | some (directory m) ↦ elim (children path d.nodes) [
    | [] ↦ (ok tt, drop_nodes (λ p. p == path) d)
    | _ ∷ _ ↦ fail (os_failure "directory not empty") d
  ]
  | some _ ↦ (ok tt, drop_nodes (λ p. p == path) d)
]

-- `os.ReadDir`
read_dir_now : FilePath → Os (List String)
unfolding children is_directory
read_dir_now path d =
    if is_directory d.nodes path then (ok (children path d.nodes), d) else missing "open" path d

unfoldable pub mkdir_last : FilePath → Os (Unit {0})
unfolding is_directory
mkdir_last path d = if is_directory d.nodes path then (ok tt, d) else elim (lookup path d.nodes) [
  | none ↦ (ok tt, put_node path (directory d.clock) d)
  | some _ ↦ fail (os_failure "not a directory") d
]

-- `os.MkdirAll`: the missing directories on the way, outermost first.
unfoldable pub mkdir_now : FilePath → Os (Unit {0})
unfolding mkdir_last check
mkdir_now [] = pure tt
mkdir_now (name ∷ up) = check (mkdir_now up) fail (λ _. mkdir_last (name ∷ up))

-- `os.Readlink`
unfoldable pub readlink_now : FilePath → Os FilePath
readlink_now path d = elim (lookup path d.nodes) [
  | some (link target) ↦ (ok target, d)
  | some _ ↦ fail (os_failure "invalid argument") d
  | none ↦ missing "readlink" path d
]

-- `os.Symlink`
symlink_now : FilePath → FilePath → Os (Unit {0})
unfolding is_directory
symlink_now target path d = elim (lookup path d.nodes) [
  | some _ ↦ fail (os_failure "file exists") d
  | none ↦
      if is_directory d.nodes (dir path)
      then (ok tt, put_node path (link target) d)
      else missing "symlink" path d
]

unfoldable pub stat : FilePath → Os ℕ
unfolding stat_now target_of
stat path = attempt (stat_now path)

unfoldable pub open_file : FilePath → Os FilePath
unfolding open_now target_of
open_file path = attempt (open_now path)

unfoldable pub read : FilePath → Os (List ℕ)
unfolding read_now
read path = attempt (read_now path)

unfoldable pub create : FilePath → Os (Unit {0})
unfolding create_now
create path = attempt (create_now path)

unfoldable pub create_temp : FilePath → Os (Unit {0})
unfolding create_temp_now
create_temp path = attempt (create_temp_now path)

-- `io.Copy` of bytes to a file that was opened for writing.
unfoldable pub copy : FilePath → List ℕ → Os (Unit {0})
unfolding copy_now
copy path bytes = facing (copy_now path bytes)

unfoldable pub chmod : FilePath → ℕ → Os (Unit {0})
unfolding chmod_now
chmod path mode = attempt (chmod_now path mode)

unfoldable pub rename : FilePath → FilePath → Os (Unit {0})
unfolding rename_now
rename old new = attempt (rename_now old new)

unfoldable pub remove : FilePath → Os (Unit {0})
unfolding remove_now
remove path = attempt (remove_now path)

-- `os.RemoveAll`: no error if there is nothing.
unfoldable pub remove_all : FilePath → Os (Unit {0})
unfolding is_under
remove_all path = attempt (λ d. (ok tt, drop_nodes (is_under path) d))

unfoldable pub read_dir : FilePath → Os (List String)
unfolding read_dir_now
read_dir path = attempt (read_dir_now path)

unfoldable pub mkdir_all : FilePath → Os (Unit {0})
unfolding mkdir_now
mkdir_all path = attempt (mkdir_now path)

unfoldable pub readlink : FilePath → Os FilePath
unfolding readlink_now
readlink path = attempt (readlink_now path)

unfoldable pub symlink : FilePath → FilePath → Os (Unit {0})
unfolding symlink_now
symlink target path = attempt (symlink_now target path)

-- `Sync` and `Close` of an open file, which change nothing that a later call sees.
unfoldable pub sync : Os (Unit {0})
sync = attempt (pure tt)
