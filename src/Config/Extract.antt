-- ===== src/Config/Extract.antt =====
-- `extractFromISO` and `extractFile` (internal/controller/bootconfig_controller.go).
use Prim.Native.Char.{code}
use isoboot.Prelude.{
  ℕ, ◌+◌, ◌^◌, String, ◌<>◌, Option, none, some, List, ◌∷◌, length, ltb, wrap, plain, Result, ◌==◌,
  nat_eq, if◌then◌else◌,
}
use isoboot.Paths.{FilePath, dir, text_of}
use isoboot.Exec.{pure, fail, check, deferring, ◌>>=◌}
use isoboot.Disk.{Os, take, stat, open_file, read, create_temp, copy, remove}
use isoboot.Config.Concat.{up_to_date, put_in_place}

-- github.com/diskfs/go-diskfs: an image is opened from the content of a file, it has a file system,
-- and an entry of that, when it can be opened, yields bytes and perhaps an error that ends them early.
pub record IsoReader : Type 1 where
  pub Image : Type 0
  pub Files : Type 0
  pub open_image : List ℕ → Result Image
  pub file_system : Image → Result Files
  pub open_entry : Files → String → Result (List ℕ × Option String)

-- `maxExtractedFileSize`
unfoldable pub max_extracted_file_size : ℕ
max_extracted_file_size = 2 ^ 30

-- `"/" + strings.TrimPrefix(src, "/")`
unfoldable pub rooted : String → String
unfolding nat_eq
rooted String.[] = "/"
rooted (String.◌∷◌ c s) = if code c == b'/' then String.◌∷◌ c s else "/" <> String.◌∷◌ c s

-- A value that the reader returns, as a call that leaves the disk alone.
abbrev pub of_result : {A : Type 0} → Result A → Os A
of_result r d = (r, d)

-- `io.Copy(tmp, io.LimitReader(f, limit))`: the number of bytes copied. The error that ends the
-- entry early shows only before the limit.
unfoldable pub copy_limited :
    (tmp : FilePath) (limit : ℕ) (bytes : List ℕ) (broken : Option String) → Os ℕ
copy_limited tmp limit bytes broken = check (copy tmp (take limit bytes)) fail λ _. elim broken [
  | none ↦ pure (length (take limit bytes))
  | some text ↦
      if ltb (length bytes) limit then fail (plain text) else pure (length (take limit bytes))
]

module _ (quote : String → String) (decimal : ℕ → String) where
  -- `extractFile` between the creation of the temporary file and its removal.
  unfoldable pub fill :
      (src : String) (tmp dst : FilePath) (bytes : List ℕ) (broken : Option String) → Os (Unit {0})
  unfolding copy_limited put_in_place
  fill src tmp dst bytes broken =
      check (copy_limited tmp (max_extracted_file_size + 1) bytes broken)
        (λ e. fail (wrap ("copying " <> quote src <> ": ") e ""))
        λ n.
          if ltb max_extracted_file_size n
          then fail (
              plain (
                "file "
                <> quote src
                <> " exceeds max extract size "
                <> decimal max_extracted_file_size
                <> " bytes"))
          else put_in_place tmp dst

  -- `extractFile`; `temp` is the name that `os.CreateTemp` picks.
  unfoldable pub extract_file :
      (I : IsoReader) (temp : String) → I.Files → (src : String) (dst : FilePath) → Os (Unit {0})
  unfolding fill rooted
  extract_file I temp files src dst =
      check (of_result (I.open_entry files (rooted src)))
        (λ e. fail (wrap ("opening " <> quote src <> " in iso: ") e ""))
        λ entry.
          check (create_temp (temp ∷ dir dst)) (λ e. fail (wrap "creating temp file: " e ""))
            λ _. deferring (remove (temp ∷ dir dst)) (fill src (temp ∷ dir dst) dst entry.0 entry.1)

  -- `extractFromISO` from the opening of the image on.
  unfoldable pub extract_both :
      (I : IsoReader) (kernel_temp initrd_temp : String) (iso_path : FilePath)
      (kernel_path initrd_path : String) (output_dir : FilePath)
      → Os (Unit {0})
  unfolding extract_file
  extract_both I kernel_temp initrd_temp iso_path kernel_path initrd_path output_dir =
      check
        (open_file iso_path >>= λ opened. read opened >>= λ bytes. of_result (I.open_image bytes))
        (λ e. fail (wrap ("opening iso " <> quote (text_of iso_path) <> ": ") e ""))
        λ image.
          check (of_result (I.file_system image)) (λ e. fail (wrap "reading iso filesystem: " e ""))
            λ files. extract_file I kernel_temp files kernel_path ("vmlinuz" ∷ output_dir) >>= λ _.
              extract_file I initrd_temp files initrd_path ("initrd" ∷ output_dir)

  -- `extractFromISO`
  unfoldable pub extract_from_iso :
      (I : IsoReader) (kernel_temp initrd_temp : String) (iso_path : FilePath)
      (kernel_path initrd_path : String) (output_dir : FilePath)
      → Os (Unit {0})
  unfolding extract_both up_to_date
  extract_from_iso I kernel_temp initrd_temp iso_path kernel_path initrd_path output_dir =
      let work =
        extract_both I kernel_temp initrd_temp iso_path kernel_path initrd_path output_dir in
      check (stat iso_path)
        (λ e. fail (wrap ("stat iso " <> quote (text_of iso_path) <> ": ") e ""))
        λ modified. check (up_to_date ("vmlinuz" ∷ output_dir) modified) fail λ kernel_done.
          if kernel_done
          then (check (up_to_date ("initrd" ∷ output_dir) modified) fail
              λ initrd_done. if initrd_done then pure tt else work)
          else work
