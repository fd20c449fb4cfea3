-- ===== src/Config/Concat.antt =====
-- `concatenateFiles` and `upToDate` (internal/controller/bootconfig_controller.go).
use isoboot.Prelude.{ℕ, String, ◌<>◌, Bool, false, ◌&&◌, ◌∷◌, ltb, wrap, if◌then◌else◌}
use isoboot.Paths.{FilePath, dir, text_of}
use isoboot.Exec.{pure, fail, check, ignoring, deferring, ◌>>=◌}
use isoboot.Disk.{
  Os, stat, open_file, read, create_temp, copy, chmod, rename, remove, read_dir, sync,
}
use isoboot.Config.Links.{remove_entries}

-- `upToDate`
unfoldable pub up_to_date : FilePath → (modified : ℕ) → Os Bool
up_to_date dst modified = check (stat dst) (λ _. pure false) λ own. pure (ltb modified own)

-- One round of the copying loop of `concatenateFiles`.
unfoldable pub append_source : (tmp src : FilePath) → Os (Unit {0})
append_source tmp src =
    check (open_file src) (λ e. fail (wrap ("opening " <> text_of src <> ": ") e ""))
      λ opened.
        check (read opened >>= λ bytes. copy tmp bytes)
          (λ e. fail (wrap ("copying " <> text_of src <> ": ") e "")) pure

-- The end of a file that is written beside its place: close, set the mode, put it in place.
unfoldable pub put_in_place : (tmp dst : FilePath) → Os (Unit {0})
put_in_place tmp dst =
    check sync (λ e. fail (wrap "closing temp file: " e ""))
      λ _.
        check (chmod tmp 0o444) (λ e. fail (wrap "setting permissions: " e ""))
          λ _. check (rename tmp dst) (λ e. fail (wrap "renaming temp file: " e "")) pure

unfoldable pub write_both : (tmp dst src_a src_b : FilePath) → Os (Unit {0})
unfolding append_source put_in_place
write_both tmp dst src_a src_b =
    append_source tmp src_a >>= λ _. append_source tmp src_b >>= λ _. put_in_place tmp dst

-- `concatenateFiles` from the removal of the old entries on; `temp` is the name that `os.CreateTemp`
-- picks.
unfoldable pub rebuild : (temp : String) (dst src_a src_b : FilePath) → Os (Unit {0})
unfolding remove_entries write_both
rebuild temp dst src_a src_b =
    let tmp = temp ∷ dir dst in
    check (read_dir (dir dst)) (λ e. fail (wrap ("reading dir " <> text_of (dir dst) <> ": ") e ""))
      λ names. ignoring (remove_entries (dir dst) names) (
        check (create_temp tmp) (λ e. fail (wrap "creating temp file: " e ""))
          λ _. deferring (remove tmp) (write_both tmp dst src_a src_b))

-- `concatenateFiles`
unfoldable pub concatenate_files : (temp : String) (dst src_a src_b : FilePath) → Os (Unit {0})
unfolding rebuild
concatenate_files temp dst src_a src_b =
    check (stat dst) (λ _. rebuild temp dst src_a src_b)
      λ own.
        check (stat src_a) (λ e. fail (wrap "stat initrd: " e ""))
          λ modified_a.
            check (stat src_b) (λ e. fail (wrap "stat firmware: " e ""))
              λ modified_b.
                if ltb modified_a own && ltb modified_b own
                then pure tt
                else rebuild temp dst src_a src_b
