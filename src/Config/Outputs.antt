-- ===== src/Config/Outputs.antt =====
-- What `extractFromISO` leaves in the boot directory (internal/controller/bootconfig_controller.go).
use mathlib.Core.Option.{some-injective}
use text.Mathlib.TextEquality.{eq_iff}
use isoboot.Prelude.{
  ℕ, ◌<◌, String, ◌≡◌, ◌≢◌, refl, ◌∙◌, ap, sym, Bool, true, false, List, ◌∷◌, Result, ok, ◌⊎◌, inl,
  inr, ltb, if◌then◌else◌, arith,
}
use isoboot.Paths.{FilePath}
use isoboot.Exec.{pure, fail, check, ◌>>=◌}
use isoboot.Exec.Ensures.{Ensures, Ensures-check, Follows-deferring}
use isoboot.Disk.{Disk, stat, stat_now, open_file, read, create_temp, remove}
use isoboot.Disk.Frame.{
  Same, Leaves, stat-Leaves, open_file-Leaves, read-Leaves, create_temp-Leaves, remove-Leaves,
}
use isoboot.Disk.Content.{content_at}
use isoboot.Disk.Effects.{Holds}
use isoboot.Disk.Reads.{
  open_file-target, read-content, target_of-Holds, attempt-ran, stat-SameNodes,
}
use isoboot.Config.Concat.{up_to_date}
use isoboot.Config.Extract.{
  IsoReader, of_result, extract_file, extract_both, extract_from_iso, rooted,
}
use isoboot.Config.Contained.{order, Leaves-then, fill-Leaves}
use isoboot.Config.Written.{Leaves-Holds}
use isoboot.Config.Concatenated.{Modified}
use isoboot.Config.Extracted.{Extracted, extract_file-Extracted}

-- An extraction leaves every path but its destination and its temporary file.
extract_file-Leaves :
    (path : FilePath) (temp name : String) (dir : FilePath)
    → path ≢ temp ∷ dir
    → path ≢ name ∷ dir
    → (quote : String → String) (decimal : ℕ → String) (I : IsoReader) (files : I.Files)
      (src : String)
    → Leaves path (extract_file quote decimal I temp files src (name ∷ dir))
unfolding extract_file
extract_file-Leaves path temp name dir h k quote decimal I files src =
    Leaves-then path (of_result (I.open_entry files (rooted src))) _ _
      (record { at = λ d. (order path).same d })
      (λ entry.
        Leaves-then path (create_temp (temp ∷ dir)) _ _ (create_temp-Leaves path (temp ∷ dir) h)
          (λ _.
            Follows-deferring (Same path) (order path) (remove (temp ∷ dir)) _
              (remove-Leaves path (temp ∷ dir) h)
              (fill-Leaves path (temp ∷ dir) h (name ∷ dir) k quote decimal src entry.0 entry.1)))

-- The image of a regular file is that of its bytes.
open_image-content :
    (I : IsoReader) (iso_path : FilePath) (content : List ℕ) (d : Disk)
    → Holds iso_path content d
    → Ensures
        (open_file iso_path >>= λ opened. read opened >>= λ bytes. of_result (I.open_image bytes))
        d
        (λ r t. (image : I.Image) → r ≡ ok image → I.open_image content ≡ ok image)
open_image-content I iso_path content d h =
    Ensures-check (λ r t. Holds iso_path content t × ((p : FilePath) → r ≡ ok p → p ≡ iso_path))
      (record {
        holds = (
          (Leaves-Holds iso_path content (open_file iso_path) d (open_file-Leaves iso_path iso_path)
              h).holds,
          λ p e.
              open_file-target iso_path p d e
              ∙ target_of-Holds iso_path content (open_file iso_path d).1
                  (Leaves-Holds iso_path content (open_file iso_path) d
                    (open_file-Leaves iso_path iso_path) h).holds,
        );
      })
      (λ e t _. record { holds = λ image p. cc })
      (λ opened t k.
        Ensures-check (λ r u. (bytes : List ℕ) → r ≡ ok bytes → bytes ≡ content)
          (record {
            holds = λ bytes p. some-injective bytes content (
                sym (read-content opened bytes t p)
                ∙ ap (content_at (read opened t).1) (k.1 opened refl)
                ∙ (Leaves-Holds iso_path content (read opened) t (read-Leaves iso_path opened)
                    k.0).holds);
          })
          (λ e u _. record { holds = λ image p. cc })
          (λ bytes u m. record { holds = λ image p. ap I.open_image (sym (m bytes refl)) ∙ p }))

module _ (quote : String → String) (decimal : ℕ → String) (I : IsoReader)
    (kernel_temp initrd_temp : String) (iso_path : FilePath) (kernel_path initrd_path : String)
    (dir : FilePath) (kernel_fresh : kernel_temp ≢ "vmlinuz")
    (initrd_fresh : initrd_temp ≢ "initrd") (apart : initrd_temp ≢ "vmlinuz")
    (content : List ℕ) where
  -- Both entries of the image's file system stand in the directory.
  abbrev pub BothExtracted : Disk → Type 0
  BothExtracted t =
      (image : I.Image) × (files : I.Files) × (I.open_image content ≡ ok image)
      × (I.file_system image ≡ ok files)
      × Extracted quote decimal kernel_path kernel_temp "vmlinuz" dir I files t
      × Extracted quote decimal initrd_path initrd_temp "initrd" dir I files t

  extract_both-BothExtracted :
      (d : Disk)
      → Holds iso_path content d
      → Ensures
          (extract_both quote decimal I kernel_temp initrd_temp iso_path kernel_path initrd_path
            dir)
          d
          (λ r t. r ≡ ok tt → BothExtracted t)
  unfolding extract_both
  extract_both-BothExtracted d h =
      Ensures-check (λ r t. (image : I.Image) → r ≡ ok image → I.open_image content ≡ ok image)
        (open_image-content I iso_path content d h) (λ e t _. record { holds = λ p. cc })
        (λ image t opened.
          Ensures-check (λ r u. I.file_system image ≡ r) (record { holds = refl })
            (λ e u _. record { holds = λ p. cc })
            (λ files u read_files.
              Ensures-check
                (λ r v.
                  r ≡ ok tt
                  → Extracted quote decimal kernel_path kernel_temp "vmlinuz" dir I files v)
                (extract_file-Extracted quote decimal kernel_path kernel_temp "vmlinuz" dir I
                  kernel_fresh files u)
                (λ e v _. record { holds = λ p. cc })
                (λ _ v kernel. record {
                  holds = λ p.
                      let (bytes, entry, size, held) = kernel refl in
                      (
                        image,
                        files,
                        opened image refl,
                        read_files,
                        (bytes, entry, size, kept files v bytes held),
                        (extract_file-Extracted quote decimal initrd_path initrd_temp "initrd" dir I
                              initrd_fresh files v).holds
                            p,
                      );
                })))
    where
      kept :
          (files : I.Files) (v : Disk) (bytes : List ℕ)
          → Holds ("vmlinuz" ∷ dir) bytes v
          → Holds
              ("vmlinuz" ∷ dir)
              bytes
              (extract_file quote decimal I initrd_temp files initrd_path ("initrd" ∷ dir) v).1
      kept files v bytes held =
          (Leaves-Holds ("vmlinuz" ∷ dir) bytes _ v
            (extract_file-Leaves ("vmlinuz" ∷ dir) initrd_temp "initrd" dir
              (λ e. ground (arith, apart)) (λ e. ground (arith, eq_iff "vmlinuz" "initrd")) quote
              decimal I files initrd_path)
            held).holds

  -- Both files were there and newer than the image, and nothing was changed.
  abbrev pub BothCurrent : Disk → Disk → Type 0
  BothCurrent d t =
      (t.nodes ≡ d.nodes)
      × (modified : ℕ) × (kernel_modified : ℕ) × (initrd_modified : ℕ) × Modified iso_path d
          modified
      × Modified ("vmlinuz" ∷ dir) d kernel_modified
      × Modified ("initrd" ∷ dir) d initrd_modified
      × (modified < kernel_modified)
      × (modified < initrd_modified)

  abbrev Outcome : Disk → Result (Unit {0}) → Disk → Type 0
  Outcome d r t = r ≡ ok tt → BothExtracted t ⊎ BothCurrent d t

  -- The disk is as it was at first but for the schedule.
  abbrev Untouched : Disk → Disk → Type 0
  Untouched d t = Holds iso_path content t × (t.nodes ≡ d.nodes)

  work-Outcome :
      (d t : Disk)
      → Untouched d t
      → Ensures
          (extract_both quote decimal I kernel_temp initrd_temp iso_path kernel_path initrd_path
            dir)
          t
          (Outcome d)
  work-Outcome d t k = record { holds = λ p. inl ((extract_both-BothExtracted t k.0).holds p) }

  stat-Untouched :
      (path : FilePath) (d t : Disk)
      → Untouched d t
      → Ensures (stat path) t (λ r u. Untouched d u × ((m : ℕ) → r ≡ ok m → Modified path d m))
  unfolding stat
  stat-Untouched path d t k = record {
    holds = (
      (
        (Leaves-Holds iso_path content (stat path) t (stat-Leaves iso_path path) k.0).holds,
        (stat-SameNodes path).at t ∙ k.1,
      ),
      λ m p. let (e, nodes, ran) = attempt-ran (stat_now path) m t p in (e, nodes ∙ k.1, ran),
    );
  }

  -- An output that counts as current is newer.
  up_to_date-Untouched :
      (dst : FilePath) (modified : ℕ) (d t : Disk)
      → Untouched d t
      → Ensures
          (up_to_date dst modified)
          t
          (λ r u. Untouched d u × (r ≡ ok true → (own : ℕ) × Modified dst d own × (modified < own)))
  unfolding up_to_date
  up_to_date-Untouched dst modified d t k =
      Ensures-check
        {post = λ r u.
          Untouched d u × (r ≡ ok true → (own : ℕ) × Modified dst d own × (modified < own))}
        _ (stat-Untouched dst d t k) (λ e u l. record { holds = (l.0, λ p. cc) })
        (λ own u l. record { holds = (l.0, λ p. (own, l.1 own refl, newer own p)) })
    where
      newer : (own : ℕ) → ◌≡◌ {A = Result Bool} (ok (ltb modified own)) (ok true) → modified < own
      newer own p = ground arith

  -- Where the image is a regular file, an extraction that succeeds leaves two whole entries of the
  -- image's file system, at the paths that are named, as the kernel and the initrd, neither larger
  -- than the cap, unless both were already newer than the image; then nothing is changed.
  pub extract_from_iso-BothExtracted :
      (d : Disk)
      → Holds iso_path content d
      → (extract_from_iso quote decimal I kernel_temp initrd_temp iso_path kernel_path initrd_path
          dir d).0
        ≡ ok tt
      → let d' =
          (extract_from_iso quote decimal I kernel_temp initrd_temp iso_path kernel_path initrd_path
            dir d).1 in
        BothExtracted d' ⊎ BothCurrent d d'
  unfolding extract_from_iso
  extract_from_iso-BothExtracted d h p =
      (Ensures-check {post = Outcome d} _ (stat-Untouched iso_path d d (h, refl))
          (λ e t k. record { holds = λ p. cc })
          (λ modified t k.
            Ensures-check {post = Outcome d} _
              (up_to_date-Untouched ("vmlinuz" ∷ dir) modified d t k.0)
              (λ e u _. record { holds = λ p. cc })
              (λ kernel_done u l.
                decide modified kernel_done u (k.1 modified refl) l.0 (λ e. l.1 (ap ok e))))).holds
        p
    where
      decide_initrd :
          (modified : ℕ) (initrd_done : Bool) (v : Disk)
          → Untouched d v
          → (initrd_done ≡ true → BothCurrent d v)
          → Ensures
              (if initrd_done
                then pure tt
                else extract_both quote decimal I kernel_temp initrd_temp iso_path kernel_path
                    initrd_path dir)
              v
              (Outcome d)
      decide_initrd modified true v k current = record { holds = λ p. inr (current refl) }
      decide_initrd modified false v k current = work-Outcome d v k

      decide :
          (modified : ℕ) (kernel_done : Bool) (u : Disk)
          → Modified iso_path d modified
          → Untouched d u
          → (kernel_done ≡ true → (own : ℕ) × Modified ("vmlinuz" ∷ dir) d own × (modified < own))
          → Ensures
              (if kernel_done
                then (check (up_to_date ("initrd" ∷ dir) modified) fail λ initrd_done.
                    if initrd_done
                    then pure tt
                    else extract_both quote decimal I kernel_temp initrd_temp iso_path kernel_path
                        initrd_path dir)
                else extract_both quote decimal I kernel_temp initrd_temp iso_path kernel_path
                    initrd_path dir)
              u
              (Outcome d)
      decide modified false u m k kernel = work-Outcome d u k
      decide modified true u m k kernel =
          Ensures-check {post = Outcome d} _ (up_to_date-Untouched ("initrd" ∷ dir) modified d u k)
            (λ e v _. record { holds = λ p. cc })
            (λ initrd_done v l. decide_initrd modified initrd_done v l.0 (λ e.
              let (own, at_own, newer) = kernel refl in
              let (other, at_other, newer_too) = l.1 (ap ok e) in
              (l.0.1, modified, own, other, m, at_own, at_other, newer, newer_too)))
