-- ===== src/Config/Netboot.antt =====
-- Success of Mode A: the links of the boot directory lead to the files of ready artifacts
-- (internal/controller/bootconfig_controller.go, `Reconcile`).
use isoboot.Prelude.{
  String, ◌≡◌, ◌≢◌, refl, ◌∙◌, sym, subst, Option, none, some, false, [], ◌∷◌, ok, Bool-cases, inl,
  inr, arith, texts_eq, ◌==◌, ==-true, string_eq,
}
use text.Mathlib.TextEquality.{eq_iff}
use isoboot.Paths.{FilePath, join}
use isoboot.Paths.Safety.{IsName}
use isoboot.Url.Laws.{filename_from_url-IsName}
use isoboot.Api.{
  ObjectKey, BootArtifact, BootArtifactPhase, artifact_phase_eq, BootConfig, BootConfigNetbootSpec,
}
use isoboot.Client.{Client}
use isoboot.Exec.{Exec}
use isoboot.Exec.Ensures.{Ensures, Ensures-both}
use isoboot.Disk.{Disk, is_under}
use isoboot.Disk.Frame.{Same, Leaves}
use isoboot.Disk.Effects.{Success}
use isoboot.World.{Outside, World, Requeue, no_requeue}
use isoboot.Artifact.{file_path}
use isoboot.Config.Links.{ensure_symlink}
use isoboot.Config.Concat.{concatenate_files}
use isoboot.Config.Extract.{IsoReader}
use isoboot.Config.Assemble.{
  file_name_of, artifact_path, deep_target, boot_dir, place_initrd, assemble, with_firmware,
  reconcile_netboot,
}
use isoboot.Config.Frame.{ensure_symlink-Leaves}
use isoboot.Config.Outside.{concatenate_files-Leaves}
use isoboot.Config.Leads.{ensure_symlink-LinkAt}
use isoboot.Config.Places.{sub_dir-path, entry-path, kernel-IsName, initrd-IsName}
use isoboot.Config.Siblings.{sibling-outside}
use isoboot.Config.Ready.{Leads, deep_target-file_path, Final}
use isoboot.Config.Assembled.{
  set_ready-Final, on_disk_or-Final, with_artifact-Final, when_ready-Final,
}

-- The initrd's directory is another than the kernel's.
initrd-ne-kernel : ◌≢◌ {A = String} "initrd" "kernel"
initrd-ne-kernel = ground (arith, eq_iff "initrd" "kernel")

-- The file name that an artifact is served under, in a directory of a configuration.
abbrev pub entry_of : Outside → FilePath → String → String → BootArtifact → FilePath
entry_of o data_dir name sub artifact = file_name_of o artifact ∷ sub ∷ name ∷ "boot" ∷ data_dir

-- The links that the configuration's directory holds.
abbrev pub Assembled :
    Outside
    → FilePath
    → String
    → (kernel initrd : BootArtifact) → Option BootArtifact
    → Disk
    → Type 0
Assembled o data_dir name kernel initrd firmware d =
    Leads (entry_of o data_dir name "kernel" kernel) (file_path o data_dir kernel) d
    × (firmware ≡ none
        → Leads (entry_of o data_dir name "initrd" initrd) (file_path o data_dir initrd) d)

Leads-Same :
    {link file : FilePath} (d e : Disk) → Same link d e → Leads link file d → Leads link file e
Leads-Same d e same h = record { target = h.target; stands = same ∙ h.stands; leads = h.leads }

module _ (C : Client) (o : Outside) (I : IsoReader) (kernel_temp initrd_temp : String)
    (data_dir : FilePath) (bc : BootConfig) (named : IsName bc.meta.name) where
  abbrev base_dir : FilePath
  base_dir = bc.meta.name ∷ "boot" ∷ data_dir

  link-Ensures :
      (sub : String) (artifact : BootArtifact) (d : Disk)
      → IsName sub
      → IsName artifact.meta.name
      → Ensures
          (ensure_symlink
            (join (boot_dir data_dir bc.meta.name) (sub ∷ []))
            (file_name_of o artifact)
            (deep_target o artifact))
          d
          (Success
            (Leads (entry_of o data_dir bc.meta.name sub artifact) (file_path o data_dir artifact)))
  link-Ensures sub artifact d h k =
      subst
        (λ (dir : FilePath).
          Ensures (ensure_symlink dir (file_name_of o artifact) (deep_target o artifact)) d (
            Success (
              Leads (entry_of o data_dir bc.meta.name sub artifact)
                (file_path o data_dir artifact))))
        (sym (sub_dir-path data_dir bc.meta.name named sub h))
        (record {
          holds = λ p. record {
            target = deep_target o artifact;
            stands =
                (ensure_symlink-LinkAt (sub ∷ base_dir) (file_name_of o artifact)
                    (deep_target o artifact) d).holds
                  p;
            leads = deep_target-file_path o data_dir sub bc.meta.name artifact k;
          };
        })

  module _ (kernel initrd : BootArtifact) (kernel_named : IsName kernel.meta.name)
      (initrd_named : IsName initrd.meta.name) where
    abbrev KernelLeads : Disk → Type 0
    KernelLeads =
        Leads (entry_of o data_dir bc.meta.name "kernel" kernel) (file_path o data_dir kernel)

    outside :
        is_under ("initrd" ∷ base_dir) (entry_of o data_dir bc.meta.name "kernel" kernel) ≡ false
    outside = sibling-outside "initrd" "kernel" (file_name_of o kernel) base_dir initrd-ne-kernel

    kept_by_concat :
        (firmware : BootArtifact)
        → Leaves (entry_of o data_dir bc.meta.name "kernel" kernel) (
            concatenate_files initrd_temp
              (join
                (join (boot_dir data_dir bc.meta.name) ("initrd" ∷ []))
                (file_name_of o initrd ∷ []))
              (artifact_path o data_dir initrd)
              (artifact_path o data_dir firmware))
    kept_by_concat firmware =
        subst
          (λ (dst : FilePath). Leaves (entry_of o data_dir bc.meta.name "kernel" kernel) (
            concatenate_files initrd_temp dst (artifact_path o data_dir initrd)
              (artifact_path o data_dir firmware)))
          (sym (
            entry-path data_dir bc.meta.name named "initrd" (file_name_of o initrd) initrd-IsName
              (filename_from_url-IsName o.url_path initrd.spec.url)))
          (concatenate_files-Leaves _ ("initrd" ∷ base_dir) outside initrd_temp
            (file_name_of o initrd) (artifact_path o data_dir initrd)
            (artifact_path o data_dir firmware))

    place_initrd-Assembled :
        (firmware : Option BootArtifact) (w : World C)
        → KernelLeads w.disk
        → Ensures
            (place_initrd C o I kernel_temp initrd_temp data_dir bc initrd firmware)
            w
            (Final (λ t. Assembled o data_dir bc.meta.name kernel initrd firmware t.disk))
    unfolding place_initrd
    place_initrd-Assembled (some firmware) w h =
        on_disk_or-Final C o I kernel_temp initrd_temp data_dir _ bc w
          "concatenating initrd + firmware" _ _ (λ r d. KernelLeads d)
          (record { holds = Leads-Same w.disk _ ((kept_by_concat firmware).at w.disk) h })
          (λ _ t k.
            set_ready-Final C (Assembled o data_dir bc.meta.name kernel initrd (some firmware)) bc t
              (k, λ p. absurd (cc)))
    place_initrd-Assembled none w h =
        on_disk_or-Final C o I kernel_temp initrd_temp data_dir _ bc w "creating initrd symlink" _ _
          (λ r d.
            KernelLeads d
            × Success
                (Leads (entry_of o data_dir bc.meta.name "initrd" initrd)
                  (file_path o data_dir initrd))
                r d)
          (Ensures-both _ _ (record { holds = Leads-Same w.disk _ (kept.at w.disk) h })
            (link-Ensures "initrd" initrd w.disk initrd-IsName initrd_named))
          (λ _ t k.
            set_ready-Final C (Assembled o data_dir bc.meta.name kernel initrd none) bc t
              (k.0, λ _. k.1 refl))
      where
        kept : Leaves (entry_of o data_dir bc.meta.name "kernel" kernel) (
            ensure_symlink
              (join (boot_dir data_dir bc.meta.name) ("initrd" ∷ []))
              (file_name_of o initrd)
              (deep_target o initrd))
        kept =
            subst
              (λ (dir : FilePath).
                Leaves (entry_of o data_dir bc.meta.name "kernel" kernel)
                  (ensure_symlink dir (file_name_of o initrd) (deep_target o initrd)))
              (sym (sub_dir-path data_dir bc.meta.name named "initrd" initrd-IsName))
              (ensure_symlink-Leaves _ ("initrd" ∷ base_dir) outside (file_name_of o initrd)
                (deep_target o initrd))

    assemble-Assembled :
        (firmware : Option BootArtifact) (w : World C)
        → Ensures
            (assemble C o I kernel_temp initrd_temp data_dir bc kernel initrd firmware)
            w
            (Final (λ t. Assembled o data_dir bc.meta.name kernel initrd firmware t.disk))
    unfolding assemble
    assemble-Assembled firmware w =
        on_disk_or-Final C o I kernel_temp initrd_temp data_dir _ bc w "creating kernel dir" _ _
          (λ _ _. Unit) (record { holds = tt })
          (λ _ t _.
            on_disk_or-Final C o I kernel_temp initrd_temp data_dir _ bc t "creating initrd dir" _ _
              (λ _ _. Unit) (record { holds = tt })
              (λ _ u _.
                on_disk_or-Final C o I kernel_temp initrd_temp data_dir _ bc u
                  "creating kernel symlink" _ _ (Success KernelLeads)
                  (link-Ensures "kernel" kernel u.disk kernel-IsName kernel_named)
                  (λ _ v k. place_initrd-Assembled firmware v (k refl))))

-- `Get` returned the artifact for the name, and it was ready.
pub record WasReady (C : Client) (ns name : String) (artifact : BootArtifact) : Type 0 where
  pub state : C.State
  pub returned :
      (C.get_boot_artifact (record { name = name; namespace = ns }) state).0 ≡ ok artifact
  pub ready : artifact.status.phase ≡ BootArtifactPhase.ready

-- The firmware, where the configuration names one.
abbrev pub FirmwareReady : (C : Client) → (ns name : String) → Option BootArtifact → Type 0
FirmwareReady C ns name none = name ≡ ""
FirmwareReady C ns name (some firmware) = (name ≢ "") × WasReady C ns name firmware

-- The directory of a configuration is assembled from artifacts that were ready.
pub record IsAssembled (C : Client) (o : Outside) (data_dir : FilePath) (bc : BootConfig)
    (nb : BootConfigNetbootSpec) (d : Disk) : Type 0 where
  pub kernel : BootArtifact
  pub initrd : BootArtifact
  pub firmware : Option BootArtifact
  pub kernel_ready : WasReady C bc.meta.namespace nb.kernel_ref kernel
  pub initrd_ready : WasReady C bc.meta.namespace nb.initrd_ref initrd
  pub firmware_ready : FirmwareReady C bc.meta.namespace nb.firmware_ref firmware
  pub links : Assembled o data_dir bc.meta.name kernel initrd firmware d

-- The names of the cluster's artifacts are proper components of a path.
pub record HasNames (C : Client) : Type 0 where
  pub at :
      (key : ObjectKey) (s : C.State) (artifact : BootArtifact)
      → (C.get_boot_artifact key s).0 ≡ ok artifact
      → IsName artifact.meta.name

module _ (C : Client) (o : Outside) (I : IsoReader) (kernel_temp initrd_temp : String)
    (data_dir : FilePath) (bc : BootConfig) (named : IsName bc.meta.name) (artifacts : HasNames C)
    (nb : BootConfigNetbootSpec) where
  abbrev Goal : World C → Type 0
  Goal t = IsAssembled C o data_dir bc nb t.disk

  with_firmware-Final :
      (P : World C → Type 0) (w : World C) (rest : Option BootArtifact → Exec (World C) Requeue)
      → ((firmware : Option BootArtifact) (t : World C)
          → FirmwareReady C bc.meta.namespace nb.firmware_ref firmware
          → Ensures (rest firmware) t (Final P))
      → Ensures
          (with_firmware C o I kernel_temp initrd_temp data_dir bc nb.firmware_ref rest)
          w
          (Final P)
  unfolding with_firmware
  with_firmware-Final P w rest k = elim (Bool-cases (nb.firmware_ref == "")) [
    | inl e ↦ rw e (k none w (==-true nb.firmware_ref "" e))
    | inr e ↦ rw e (
        with_artifact-Final C o I kernel_temp initrd_temp data_dir P bc w "firmware" nb.firmware_ref
          _
          (λ firmware t got.
            when_ready-Final C o I kernel_temp initrd_temp data_dir P bc t "firmware"
              nb.firmware_ref firmware _
              (λ ready.
                k (some firmware) t
                  ((λ p. ground arith), record { state = w.api; returned = got; ready = ready }))))
  ]

  -- A reconciliation of Mode A reports success only if the kernel, the initrd and the firmware that the
  -- configuration names, if it names one, were ready when they were read, the kernel's link leads from
  -- the boot directory to the very file that the artifact's controller verifies, and so does the
  -- initrd's where there is no firmware.
  pub reconcile_netboot-IsAssembled :
      (w : World C)
      → (reconcile_netboot C o I kernel_temp initrd_temp data_dir bc nb w).0 ≡ ok no_requeue
      → IsAssembled C o data_dir bc nb
          (reconcile_netboot C o I kernel_temp initrd_temp data_dir bc nb w).1.disk
  unfolding reconcile_netboot
  reconcile_netboot-IsAssembled w =
      (with_artifact-Final C o I kernel_temp initrd_temp data_dir Goal bc w "kernel" nb.kernel_ref _
        (λ kernel t got_kernel.
          with_artifact-Final C o I kernel_temp initrd_temp data_dir Goal bc t "initrd"
            nb.initrd_ref _
            (λ initrd u got_initrd.
              when_ready-Final C o I kernel_temp initrd_temp data_dir Goal bc u "kernel"
                nb.kernel_ref kernel _
                (λ kernel_ready.
                  when_ready-Final C o I kernel_temp initrd_temp data_dir Goal bc u "initrd"
                    nb.initrd_ref initrd _
                    (λ initrd_ready.
                      with_firmware-Final Goal u
                        (assemble C o I kernel_temp initrd_temp data_dir bc kernel initrd)
                        (λ firmware v firmware_ready. record {
                          holds = λ p. record {
                            kernel = kernel;
                            initrd = initrd;
                            firmware = firmware;
                            kernel_ready = record {
                              state = w.api;
                              returned = got_kernel;
                              ready = kernel_ready;
                            };
                            initrd_ready = record {
                              state = t.api;
                              returned = got_initrd;
                              ready = initrd_ready;
                            };
                            firmware_ready = firmware_ready;
                            links =
                                (assemble-Assembled C o I kernel_temp initrd_temp data_dir bc named
                                    kernel initrd (artifacts.at _ w.api kernel got_kernel)
                                    (artifacts.at _ t.api initrd got_initrd) firmware v).holds
                                  p;
                          };
                        })))))).holds
