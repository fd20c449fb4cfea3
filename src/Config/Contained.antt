-- ===== src/Config/Contained.antt =====
-- The files written for a boot directory leave everything outside of it as it is
-- (internal/controller/bootconfig_controller.go).
use isoboot.Prelude.{
  ℕ, ◌+◌, String, ◌≢◌, Option, none, some, false, List, texts_eq, plain, length, ltb, Error,
}
use isoboot.Paths.{FilePath}
use isoboot.Exec.{pure, fail, check, ◌>>=◌}
use isoboot.Exec.Ensures.{IsPreorder, Follows-check, Follows-fail, Follows-pure, Follows-if}
use isoboot.Disk.{Os, take, stat, open_file, read, copy, chmod, rename, sync}
use isoboot.Disk.Frame.{
  Same, Same-IsPreorder, Leaves, stat-Leaves, open_file-Leaves, read-Leaves, copy-Leaves,
  chmod-Leaves, rename-Leaves, sync-Leaves,
}
use isoboot.Config.Concat.{up_to_date, append_source, put_in_place, write_both}
use isoboot.Config.Extract.{copy_limited, fill, max_extracted_file_size}

module _ (path : FilePath) where
  abbrev pub order : IsPreorder (Same path)
  order = Same-IsPreorder path

  -- A call and what comes after it.
  abbrev pub Leaves-check :
      {A B : Type 0} (m : Os A) (handler : Error → Os B) (rest : A → Os B)
      → Leaves path m
      → ((e : Error) → Leaves path (handler e))
      → ((a : A) → Leaves path (rest a))
      → Leaves path (check m handler rest)
  Leaves-check m handler rest = Follows-check (Same path) order m handler rest

  pub Leaves-fail : {A : Type 0} (e : Error) → Leaves path (fail {A = A} e)
  Leaves-fail e = Follows-fail (Same path) order e

  pub Leaves-pure : {A : Type 0} (a : A) → Leaves path (pure a)
  Leaves-pure a = Follows-pure (Same path) order a

  -- A failure that is passed on, annotated or not.
  pub Leaves-then :
      {A B : Type 0} (m : Os A) (note : Error → Error) (rest : A → Os B)
      → Leaves path m
      → ((a : A) → Leaves path (rest a))
      → Leaves path (check m (λ e. fail (note e)) rest)
  Leaves-then m note rest h k = Leaves-check m _ rest h (λ e. Leaves-fail (note e)) k

  pub up_to_date-Leaves : (dst : FilePath) (modified : ℕ) → Leaves path (up_to_date dst modified)
  unfolding up_to_date
  up_to_date-Leaves dst modified =
      Leaves-check (stat dst) _ _ (stat-Leaves path dst) (λ _. Leaves-pure false)
        (λ own. Leaves-pure _)

  module _ (tmp : FilePath) (apart : path ≢ tmp) where
    pub append_source-Leaves : (src : FilePath) → Leaves path (append_source tmp src)
    unfolding append_source
    append_source-Leaves src =
        Leaves-then (open_file src) _ _ (open_file-Leaves path src) (λ opened.
          Leaves-then (read opened >>= λ bytes. copy tmp bytes) _ _
            (Leaves-then (read opened) (λ e. e) (copy tmp) (read-Leaves path opened)
              (copy-Leaves path tmp apart))
            Leaves-pure)

    pub copy_limited-Leaves :
        (limit : ℕ) (bytes : List ℕ) (broken : Option String)
        → Leaves path (copy_limited tmp limit bytes broken)
    unfolding copy_limited
    copy_limited-Leaves limit bytes none =
        Leaves-then (copy tmp (take limit bytes)) (λ e. e) _
          (copy-Leaves path tmp apart (take limit bytes)) (λ _. Leaves-pure _)
    copy_limited-Leaves limit bytes (some text) =
        Leaves-then (copy tmp (take limit bytes)) (λ e. e) _
          (copy-Leaves path tmp apart (take limit bytes))
          (λ _.
            Follows-if (Same path) order (ltb (length bytes) limit) (fail (plain text)) _
              (Leaves-fail _) (Leaves-pure _))

    module _ (dst : FilePath) (away : path ≢ dst) where
      pub put_in_place-Leaves : Leaves path (put_in_place tmp dst)
      unfolding put_in_place
      put_in_place-Leaves = Leaves-then sync _ _ (sync-Leaves path) (λ _.
          Leaves-then (chmod tmp 0o444) _ _ (chmod-Leaves path tmp apart 0o444) (λ _.
            Leaves-then (rename tmp dst) _ _ (rename-Leaves path tmp dst apart away) Leaves-pure))

      pub write_both-Leaves :
          (src_a src_b : FilePath) → Leaves path (write_both tmp dst src_a src_b)
      unfolding write_both
      write_both-Leaves src_a src_b =
          Leaves-then (append_source tmp src_a) (λ e. e) _ (append_source-Leaves src_a)
            (λ _.
              Leaves-then (append_source tmp src_b) (λ e. e) _ (append_source-Leaves src_b)
                (λ _. put_in_place-Leaves))

      pub fill-Leaves :
          (quote : String → String) (decimal : ℕ → String) (src : String) (bytes : List ℕ)
          (broken : Option String)
          → Leaves path (fill quote decimal src tmp dst bytes broken)
      unfolding fill
      fill-Leaves quote decimal src bytes broken =
          Leaves-then (copy_limited tmp (max_extracted_file_size + 1) bytes broken) _ _
            (copy_limited-Leaves (max_extracted_file_size + 1) bytes broken)
            (λ n.
              Follows-if (Same path) order (ltb max_extracted_file_size n) (fail _)
                (put_in_place tmp dst) (Leaves-fail _) put_in_place-Leaves)
