-- ===== src/Config/IsoMode.antt =====
-- Success of Mode B: the image in the boot directory is the file of an artifact that was ready
-- (internal/controller/bootconfig_controller.go, `reconcileISO`).
use isoboot.Prelude.{
  String, ◌≡◌, refl, ◌∙◌, sym, subst, true, List, [], ◌∷◌, ◌==◌, ==-true, texts_eq, ok, Bool-cases,
  inl, inr,
}
use isoboot.Paths.{FilePath, join, follow_from}
use isoboot.Paths.Safety.{IsName, join-IsName}
use isoboot.Paths.Targets.{follow_from-up}
use isoboot.Url.Laws.{filename_from_url-IsName}
use isoboot.Api.{BootArtifact, BootConfig, BootConfigIsoSpec}
use isoboot.Client.{Client}
use isoboot.Exec.{ignoring}
use isoboot.Exec.Ensures.{Ensures, Ensures-check}
use isoboot.Disk.{Disk, remove, symlink}
use isoboot.Disk.Effects.{Success}
use isoboot.Disk.Links.{LinkAt, symlink-LinkAt, readlink-LinkAt}
use isoboot.World.{Outside, World, no_requeue}
use isoboot.Artifact.{file_path}
use isoboot.Config.Links.{is_safe_iso_path, ensure_file_symlink}
use isoboot.Config.Extract.{IsoReader}
use isoboot.Config.Assemble.{file_name_of, flat_target, boot_dir, extract, reconcile_iso}
use isoboot.Config.Places.{artifacts-IsName, flat_entry-path}
use isoboot.Config.Ready.{Leads, Final, set_error-Final}
use isoboot.Config.Assembled.{
  set_ready-Final, on_disk_or-Final, with_artifact-Final, when_ready-Final,
}
use isoboot.Config.Netboot.{WasReady, HasNames}

-- After a success the link stands.
ensure_file_symlink-LinkAt :
    (link target : FilePath) (d : Disk)
    → Ensures (ensure_file_symlink link target) d (Success (LinkAt link target))
unfolding ensure_file_symlink
ensure_file_symlink-LinkAt link target d =
    Ensures-check (λ r t. (existing : FilePath) → r ≡ ok existing → LinkAt link existing t)
      (record { holds = λ existing p. readlink-LinkAt link existing d p }) (λ e t _. replace t)
      (λ existing t h. elim (Bool-cases (existing == target)) [
        | inl same ↦ rw same (record {
          holds = λ _.
              subst (λ (p : FilePath). LinkAt link p t) (==-true existing target same)
                (h existing refl);
        })
        | inr other ↦ rw other (replace t)
      ])
  where
    replace :
        (t : Disk)
        → Ensures (ignoring (remove link) (symlink target link)) t (Success (LinkAt link target))
    replace t =
        Ensures-check (λ _ _. Unit) (record { holds = tt }) (λ e v _. symlink-LinkAt target link v)
          (λ _ v _. symlink-LinkAt target link v)

-- The target leads from the boot directory to the artifact's own file.
flat_target-file_path :
    (o : Outside) (data_dir : FilePath) (name : String) (artifact : BootArtifact)
    → IsName artifact.meta.name
    → follow_from (name ∷ "boot" ∷ data_dir) (flat_target o artifact)
      ≡ file_path o data_dir artifact
unfolding flat_target file_path
flat_target-file_path o data_dir name artifact h =
    let names : List String = "artifacts" ∷ artifact.meta.name ∷ file_name_of o artifact ∷ [] in
    follow_from-up 2 (name ∷ "boot" ∷ data_dir) names named ∙ sym (join-IsName data_dir names named)
  where
    named :
        IsName "artifacts"
        × (IsName artifact.meta.name × (IsName (file_name_of o artifact) × Unit {0}))
    named = (artifacts-IsName, (h, (filename_from_url-IsName o.url_path artifact.spec.url, tt)))

-- Both paths are safe, the artifact was ready when it was read, and its image is linked.
pub record IsServed (C : Client) (o : Outside) (data_dir : FilePath) (bc : BootConfig)
    (iso : BootConfigIsoSpec) (d : Disk) : Type 0 where
  pub kernel_safe : is_safe_iso_path iso.kernel_path ≡ true
  pub initrd_safe : is_safe_iso_path iso.initrd_path ≡ true
  pub artifact : BootArtifact
  pub ready : WasReady C bc.meta.namespace iso.artifact_ref artifact
  pub leads :
      Leads
        (file_name_of o artifact ∷ bc.meta.name ∷ "boot" ∷ data_dir)
        (file_path o data_dir artifact)
        d

module _ (C : Client) (o : Outside) (I : IsoReader) (kernel_temp initrd_temp : String)
    (data_dir : FilePath) (bc : BootConfig) (named : IsName bc.meta.name) (artifacts : HasNames C)
    (iso : BootConfigIsoSpec) where
  extract-Leads :
      (artifact : BootArtifact) (w : World C)
      → IsName artifact.meta.name
      → Ensures (extract C o I kernel_temp initrd_temp data_dir bc iso artifact) w (
          Final (λ t.
            Leads
              (file_name_of o artifact ∷ bc.meta.name ∷ "boot" ∷ data_dir)
              (file_path o data_dir artifact)
              t.disk))
  unfolding extract
  extract-Leads artifact w h =
      on_disk_or-Final C o I kernel_temp initrd_temp data_dir _ bc w "creating boot dir" _ _
        (λ _ _. Unit) (record { holds = tt })
        (λ _ t _.
          on_disk_or-Final C o I kernel_temp initrd_temp data_dir _ bc t "extracting from iso" _ _
            (λ _ _. Unit) (record { holds = tt })
            (λ _ u _.
              on_disk_or-Final C o I kernel_temp initrd_temp data_dir _ bc u "creating iso symlink"
                _ _
                (Success (
                  LinkAt (join (boot_dir data_dir bc.meta.name) (file_name_of o artifact ∷ []))
                    (flat_target o artifact)))
                (ensure_file_symlink-LinkAt _ (flat_target o artifact) u.disk)
                (λ _ v k.
                  set_ready-Final C
                    (Leads (file_name_of o artifact ∷ bc.meta.name ∷ "boot" ∷ data_dir)
                      (file_path o data_dir artifact))
                    bc v (linked v.disk (k refl)))))
    where
      linked :
          (d : Disk)
          → LinkAt
              (join (boot_dir data_dir bc.meta.name) (file_name_of o artifact ∷ []))
              (flat_target o artifact)
              d
          → Leads
              (file_name_of o artifact ∷ bc.meta.name ∷ "boot" ∷ data_dir)
              (file_path o data_dir artifact)
              d
      linked d k = record {
        target = flat_target o artifact;
        stands =
            subst (λ (p : FilePath). LinkAt p (flat_target o artifact) d)
              (flat_entry-path data_dir bc.meta.name named (file_name_of o artifact)
                (filename_from_url-IsName o.url_path artifact.spec.url))
              k;
        leads = flat_target-file_path o data_dir bc.meta.name artifact h;
      }

  abbrev Goal : World C → Type 0
  Goal t = IsServed C o data_dir bc iso t.disk

  served :
      (w : World C)
      → Ensures (reconcile_iso C o I kernel_temp initrd_temp data_dir bc iso) w (Final Goal)
  unfolding reconcile_iso
  served w = elim (Bool-cases (is_safe_iso_path iso.kernel_path)) [
    | inr e ↦ rw (e, reconcile_iso) (set_error-Final C Goal bc w _)
    | inl e ↦ elim (Bool-cases (is_safe_iso_path iso.initrd_path)) [
      | inr f ↦ rw (e, f, reconcile_iso) (set_error-Final C Goal bc w _)
      | inl f ↦
          rw (e, f, reconcile_iso)
            (with_artifact-Final C o I kernel_temp initrd_temp data_dir Goal bc w "iso"
              iso.artifact_ref _
              (λ artifact t got.
                when_ready-Final C o I kernel_temp initrd_temp data_dir Goal bc t "iso"
                  iso.artifact_ref artifact _
                  (λ ready. record {
                    holds = λ p. record {
                      kernel_safe = e;
                      initrd_safe = f;
                      artifact = artifact;
                      ready = record { state = w.api; returned = got; ready = ready };
                      leads =
                          (extract-Leads artifact t (artifacts.at _ w.api artifact got)).holds p;
                    };
                  })))
    ]
  ]

  -- A reconciliation of Mode B reports success only if both paths inside the image are safe, the
  -- artifact that the configuration names was ready when it was read, and the image's link in the boot
  -- directory leads to the very file that the artifact's controller verifies.
  pub reconcile_iso-IsServed :
      (w : World C)
      → (reconcile_iso C o I kernel_temp initrd_temp data_dir bc iso w).0 ≡ ok no_requeue
      → IsServed C o data_dir bc iso
          (reconcile_iso C o I kernel_temp initrd_temp data_dir bc iso w).1.disk
  reconcile_iso-IsServed w = (served w).holds
