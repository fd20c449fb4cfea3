-- ===== src/Config/Outside.antt =====
-- The operations on one directory of the boot tree leave everything outside of it as it is
-- (internal/controller/bootconfig_controller.go).
use isoboot.Prelude.{
  ℕ, String, ◌≡◌, ◌≢◌, false, ◌∷◌, ◌==◌, texts_eq, wrap, Error, ltb, ◌&&◌, Result,
}
use isoboot.Paths.{FilePath}
use isoboot.Exec.{pure, fail, check, ignoring, deferring}
use isoboot.Exec.Ensures.{Follows-if, Follows-deferring}
use isoboot.Disk.{
  Os, is_under, symlink, read_dir, readlink, remove, stat, open_file, read, create_temp,
}
use isoboot.Disk.Frame.{
  Same, Leaves, symlink-Leaves, read_dir-Leaves, readlink-Leaves, remove-Leaves, stat-Leaves,
  open_file-Leaves, read-Leaves, create_temp-Leaves,
}
use isoboot.Config.Links.{ensure_file_symlink, remove_entries}
use isoboot.Config.Concat.{up_to_date, write_both, rebuild, concatenate_files}
use isoboot.Config.Extract.{
  IsoReader, of_result, extract_file, extract_both, extract_from_iso, rooted,
}
use isoboot.Config.Frame.{outside-ne, remove_entries-Leaves}
use isoboot.Config.Contained.{
  order, Leaves-check, Leaves-pure, Leaves-then, up_to_date-Leaves, write_both-Leaves, fill-Leaves,
}

module _ (path dir : FilePath) (outside : is_under dir path ≡ false) where
  apart : (name : String) → path ≢ name ∷ dir
  apart name = outside-ne dir path name outside

  -- `ensureFileSymlink`
  pub ensure_file_symlink-Leaves :
      (name : String) (target : FilePath) → Leaves path (ensure_file_symlink (name ∷ dir) target)
  unfolding ensure_file_symlink
  ensure_file_symlink-Leaves name target =
      Leaves-check path (readlink (name ∷ dir)) _ _ (readlink-Leaves path (name ∷ dir))
        (λ e. replace)
        (λ existing.
          Follows-if (Same path) (order path) (existing == target) (pure tt) _ (Leaves-pure path tt)
            replace)
    where
      replace : Leaves path (ignoring (remove (name ∷ dir)) (symlink target (name ∷ dir)))
      replace =
          Leaves-check path (remove (name ∷ dir)) _ _ (remove-Leaves path (name ∷ dir) (apart name))
            (λ e. symlink-Leaves path (name ∷ dir) (apart name) target)
            (λ _. symlink-Leaves path (name ∷ dir) (apart name) target)

  -- A temporary file of the directory, and what is done with it until it is removed.
  temporary-Leaves :
      (temp : String) (note : Error → Error) (body : Os (Unit {0}))
      → Leaves path body
      → Leaves path (
          check
            (create_temp (temp ∷ dir))
            (λ e. fail (note e))
            (λ _. deferring (remove (temp ∷ dir)) body))
  temporary-Leaves temp note body h =
      Leaves-then path (create_temp (temp ∷ dir)) note _
        (create_temp-Leaves path (temp ∷ dir) (apart temp))
        (λ _.
          Follows-deferring (Same path) (order path) (remove (temp ∷ dir)) body
            (remove-Leaves path (temp ∷ dir) (apart temp)) h)

  rebuild-Leaves :
      (temp name : String) (src_a src_b : FilePath)
      → Leaves path (rebuild temp (name ∷ dir) src_a src_b)
  unfolding rebuild
  rebuild-Leaves temp name src_a src_b =
      Leaves-then path (read_dir dir) _ _ (read_dir-Leaves path dir) (λ names.
        Leaves-check path (remove_entries dir names) _ _
          (remove_entries-Leaves path dir outside names) (λ e. work) (λ _. work))
    where
      work : Leaves path (
          check
            (create_temp (temp ∷ dir))
            (λ e. fail (wrap "creating temp file: " e ""))
            (λ _.
              deferring (remove (temp ∷ dir)) (write_both (temp ∷ dir) (name ∷ dir) src_a src_b)))
      work =
          temporary-Leaves temp _ _
            (write_both-Leaves path (temp ∷ dir) (apart temp) (name ∷ dir) (apart name) src_a src_b)

  -- `concatenateFiles`
  pub concatenate_files-Leaves :
      (temp name : String) (src_a src_b : FilePath)
      → Leaves path (concatenate_files temp (name ∷ dir) src_a src_b)
  unfolding concatenate_files
  concatenate_files-Leaves temp name src_a src_b =
      Leaves-check path (stat (name ∷ dir)) _ _ (stat-Leaves path (name ∷ dir))
        (λ e. rebuild-Leaves temp name src_a src_b)
        (λ own. Leaves-then path (stat src_a) _ _ (stat-Leaves path src_a) (λ modified_a.
          Leaves-then path (stat src_b) _ _ (stat-Leaves path src_b) (λ modified_b.
            Follows-if (Same path) (order path) (ltb modified_a own && ltb modified_b own) (pure tt)
              _ (Leaves-pure path tt) (rebuild-Leaves temp name src_a src_b))))

  module _ (quote : String → String) (decimal : ℕ → String) (I : IsoReader) where
    of_result-Leaves : {A : Type 0} (r : Result A) → Leaves path (of_result r)
    of_result-Leaves r = record { at = λ d. (order path).same d }

    extract_file-Leaves :
        (temp : String) (files : I.Files) (src name : String)
        → Leaves path (extract_file quote decimal I temp files src (name ∷ dir))
    unfolding extract_file
    extract_file-Leaves temp files src name =
        Leaves-then path (of_result (I.open_entry files (rooted src))) _ _ (of_result-Leaves _)
          (λ entry. temporary-Leaves temp _ _ (
            fill-Leaves path (temp ∷ dir) (apart temp) (name ∷ dir) (apart name) quote decimal src
              entry.0 entry.1))

    extract_both-Leaves :
        (kernel_temp initrd_temp : String) (iso_path : FilePath) (kernel_path initrd_path : String)
        → Leaves path (
            extract_both quote decimal I kernel_temp initrd_temp iso_path kernel_path initrd_path
              dir)
    unfolding extract_both
    extract_both-Leaves kernel_temp initrd_temp iso_path kernel_path initrd_path =
        Leaves-then path _ _ _
          (Leaves-then path (open_file iso_path) (λ e. e) _ (open_file-Leaves path iso_path)
            (λ opened.
              Leaves-then path (read opened) (λ e. e) _ (read-Leaves path opened)
                (λ bytes. of_result-Leaves _)))
          (λ image.
            Leaves-then path (of_result (I.file_system image)) _ _ (of_result-Leaves _) (λ files.
              Leaves-then path
                (extract_file quote decimal I kernel_temp files kernel_path ("vmlinuz" ∷ dir))
                (λ e. e) _ (extract_file-Leaves kernel_temp files kernel_path "vmlinuz")
                (λ _. extract_file-Leaves initrd_temp files initrd_path "initrd")))

    -- `extractFromISO`
    pub extract_from_iso-Leaves :
        (kernel_temp initrd_temp : String) (iso_path : FilePath) (kernel_path initrd_path : String)
        → Leaves path (
            extract_from_iso quote decimal I kernel_temp initrd_temp iso_path kernel_path
              initrd_path dir)
    unfolding extract_from_iso
    extract_from_iso-Leaves kernel_temp initrd_temp iso_path kernel_path initrd_path =
        Leaves-then path (stat iso_path) _ _ (stat-Leaves path iso_path) (λ modified.
          Leaves-then path (up_to_date ("vmlinuz" ∷ dir) modified) (λ e. e) _
            (up_to_date-Leaves path ("vmlinuz" ∷ dir) modified)
            (λ kernel_done.
              Follows-if (Same path) (order path) kernel_done _ _
                (Leaves-then path (up_to_date ("initrd" ∷ dir) modified) (λ e. e) _
                  (up_to_date-Leaves path ("initrd" ∷ dir) modified)
                  (λ initrd_done.
                    Follows-if (Same path) (order path) initrd_done (pure tt) _
                      (Leaves-pure path tt)
                      (extract_both-Leaves kernel_temp initrd_temp iso_path kernel_path
                        initrd_path)))
                (extract_both-Leaves kernel_temp initrd_temp iso_path kernel_path initrd_path)))
