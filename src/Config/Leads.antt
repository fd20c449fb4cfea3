-- ===== src/Config/Leads.antt =====
-- Where the symbolic links of a boot directory lead (internal/controller/bootconfig_controller.go).
use isoboot.Prelude.{
  String, ◌<>◌, ◌≡◌, refl, subst, ◌∷◌, ◌==◌, texts_eq, ==-true, wrap, ok, Bool-cases, inl, inr,
}
use isoboot.Paths.{FilePath, dir, text_of}
use isoboot.Exec.{fail, check, ignoring}
use isoboot.Exec.Ensures.{Ensures, Ensures-check}
use isoboot.Disk.{Disk, symlink, read_dir}
use isoboot.Disk.Effects.{Success}
use isoboot.Disk.Links.{LinkAt, symlink-LinkAt, readlink-LinkAt}
use isoboot.Config.Links.{ensure_symlink, remove_entries}

-- After a success the link stands.
pub ensure_symlink-LinkAt :
    (dir : FilePath) (filename : String) (target : FilePath) (d : Disk)
    → Ensures (ensure_symlink dir filename target) d (Success (LinkAt (filename ∷ dir) target))
unfolding ensure_symlink
ensure_symlink-LinkAt dir filename target d =
    Ensures-check
      (λ r t. (existing : FilePath) → r ≡ ok existing → LinkAt (filename ∷ dir) existing t)
      (record { holds = λ existing p. readlink-LinkAt (filename ∷ dir) existing d p })
      (λ e t _. replace t)
      (λ existing t h. elim (Bool-cases (existing == target)) [
        | inl same ↦ rw same (record {
          holds = λ _.
              subst (λ (p : FilePath). LinkAt (filename ∷ dir) p t) (==-true existing target same)
                (h existing refl);
        })
        | inr other ↦ rw other (replace t)
      ])
  where
    replace :
        (t : Disk)
        → Ensures
            (check
              (read_dir dir)
              (λ e. fail (wrap ("reading dir " <> text_of dir <> ": ") e ""))
              (λ names. ignoring (remove_entries dir names) (symlink target (filename ∷ dir))))
            t
            (Success (LinkAt (filename ∷ dir) target))
    replace t =
        Ensures-check (λ _ _. Unit) (record { holds = tt }) (λ e u _. record { holds = λ p. cc })
          (λ names u _.
            Ensures-check (λ _ _. Unit) (record { holds = tt })
              (λ e v _. symlink-LinkAt target (filename ∷ dir) v)
              (λ _ v _. symlink-LinkAt target (filename ∷ dir) v))
