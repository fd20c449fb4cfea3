-- ===== src/Config/Frame.antt =====
-- What the work on a boot directory leaves as it is (internal/controller/bootconfig_controller.go).
use isoboot.Prelude.{
  String, ◌≡◌, ◌≢◌, true, false, List, [], ◌∷◌, ◌==◌, texts_eq, arith, ap, ◌<>◌, wrap,
}
use mathlib.Core.List.{tail}
use isoboot.Paths.{FilePath, text_of}
use isoboot.Exec.{pure, fail, check, ignoring}
use isoboot.Exec.Ensures.{IsPreorder, Follows-check, Follows-fail, Follows-pure, Follows-if}
use isoboot.Disk.{is_under, symlink, remove_all, read_dir, readlink}
use isoboot.Disk.Frame.{
  Same, Same-IsPreorder, Leaves, symlink-Leaves, remove_all-Leaves, read_dir-Leaves,
  readlink-Leaves,
}
use isoboot.Config.Links.{ensure_symlink, remove_entries}

is_under_refl : (dir : FilePath) → is_under dir dir ≡ true
unfolding is_under
is_under_refl [] = ground arith
is_under_refl (name ∷ up) = ground arith

above-outside :
    (dir up : FilePath) (top : String) → is_under dir (top ∷ up) ≡ false → is_under dir up ≡ false
unfolding is_under
above-outside dir up top h = ground arith

-- A path outside of a directory's tree is no entry of it, and in the tree of none.
pub outside-ne :
    (dir path : FilePath) (name : String) → is_under dir path ≡ false → path ≢ name ∷ dir
outside-ne dir [] name h = λ e. cc
outside-ne dir (top ∷ up) name h =
    λ e. ground (arith, above-outside dir up top h, is_under_refl dir, ap tail e)

pub is_under-entry :
    (dir path : FilePath) (name : String)
    → is_under dir path ≡ false
    → is_under (name ∷ dir) path ≡ false
unfolding is_under
is_under-entry dir [] name h = ground arith
is_under-entry dir (top ∷ up) name h = ground (
  arith,
  outside-ne dir (top ∷ up) name h,
  is_under-entry dir up name (above-outside dir up top h),
)

module _ (path dir : FilePath) (outside : is_under dir path ≡ false) where
  abbrev order : IsPreorder (Same path)
  order = Same-IsPreorder path

  pub remove_entries-Leaves : (names : List String) → Leaves path (remove_entries dir names)
  unfolding remove_entries
  remove_entries-Leaves [] = Follows-pure (Same path) order tt
  remove_entries-Leaves (name ∷ names) =
      Follows-check (Same path) order (remove_all (name ∷ dir)) _ _
        (remove_all-Leaves path (name ∷ dir) (is_under-entry dir path name outside))
        (λ e. remove_entries-Leaves names) (λ _. remove_entries-Leaves names)

  replace-Leaves : (name : String) (target : FilePath) → Leaves path (symlink target (name ∷ dir))
  replace-Leaves name target =
      symlink-Leaves path (name ∷ dir) (outside-ne dir path name outside) target

  -- `ensureSymlink` touches nothing outside of its directory.
  pub ensure_symlink-Leaves :
      (filename : String) (target : FilePath) → Leaves path (ensure_symlink dir filename target)
  unfolding ensure_symlink
  ensure_symlink-Leaves filename target =
      Follows-check (Same path) order (readlink (filename ∷ dir)) _ _
        (readlink-Leaves path (filename ∷ dir)) (λ e. replace)
        (λ existing.
          Follows-if (Same path) order (existing == target) (pure tt) _
            (Follows-pure (Same path) order tt) replace)
    where
      replace : Leaves path (
          check
            (read_dir dir)
            (λ e. fail (wrap ("reading dir " <> text_of dir <> ": ") e ""))
            (λ names. ignoring (remove_entries dir names) (symlink target (filename ∷ dir))))
      replace =
          Follows-check (Same path) order (read_dir dir) _ _ (read_dir-Leaves path dir)
            (λ e. Follows-fail (Same path) order _)
            (λ names.
              Follows-check (Same path) order (remove_entries dir names) _ _
                (remove_entries-Leaves names) (λ e. replace-Leaves filename target)
                (λ _. replace-Leaves filename target))
