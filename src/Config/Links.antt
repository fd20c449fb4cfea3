-- ===== src/Config/Links.antt =====
-- The paths inside an ISO that are accepted, and the symbolic links into the boot directory
-- (internal/controller/bootconfig_controller.go).
use isoboot.Prelude.{
  String, ◌<>◌, Bool, not, ◌&&◌, ◌==◌, string_eq, texts_eq, contains, List, [], ◌∷◌, wrap,
  if◌then◌else◌,
}
use isoboot.Paths.{FilePath, split, text_of}
use isoboot.Exec.{pure, fail, check, ignoring}
use isoboot.Disk.{Os, readlink, symlink, remove, remove_all, read_dir}

-- `isSafeISOPath`
unfoldable pub is_safe_iso_path : String → Bool
unfolding split
is_safe_iso_path p = not (p == "") && not (contains (split p) "..")

-- `ensureFileSymlink`
unfoldable pub ensure_file_symlink : FilePath → FilePath → Os (Unit {0})
ensure_file_symlink link target =
    let replace = ignoring (remove link) (symlink target link) in
    check (readlink link) (λ _. replace) λ existing. if existing == target then pure tt else replace

-- The loop of `ensureSymlink`, whose errors are dropped.
unfoldable pub remove_entries : FilePath → List String → Os (Unit {0})
remove_entries dir [] = pure tt
remove_entries dir (name ∷ names) = ignoring (remove_all (name ∷ dir)) (remove_entries dir names)

-- `ensureSymlink`
unfoldable pub ensure_symlink : FilePath → String → FilePath → Os (Unit {0})
unfolding remove_entries text_of
ensure_symlink dir filename target =
    let replace =
      check (read_dir dir) (λ e. fail (wrap ("reading dir " <> text_of dir <> ": ") e ""))
        λ names. ignoring (remove_entries dir names) (symlink target (filename ∷ dir)) in
    check (readlink (filename ∷ dir)) (λ _. replace)
      λ existing. if existing == target then pure tt else replace
