-- ===== src/Config/Assemble.antt =====
-- `Reconcile` and `reconcileISO` of `BootConfigReconciler` (internal/controller/bootconfig_controller.go).
use isoboot.Prelude.{String, ◌<>◌, Option, none, some, not, [], ◌∷◌, ◌==◌, string_eq, if◌then◌else◌}
use isoboot.Paths.{FilePath, join, join_relative}
use isoboot.Url.{filename_from_url}
use isoboot.Errors.{error_text, is_not_found}
use isoboot.Api.{
  ObjectKey, BootArtifact, BootArtifactPhase, artifact_phase_eq, BootConfig, BootConfigNetbootSpec,
  BootConfigIsoSpec,
}
use isoboot.Client.{Client}
use isoboot.Exec.{Exec, pure, fail, check, ignoring}
use isoboot.Disk.{Os, mkdir_all, remove_all}
use isoboot.World.{Outside, World, Requeue, no_requeue, on_api, on_disk}
use isoboot.Config.{get_artifact, set_ready, set_pending, set_error}
use isoboot.Config.Links.{is_safe_iso_path, ensure_symlink, ensure_file_symlink}
use isoboot.Config.Concat.{concatenate_files}
use isoboot.Config.Extract.{IsoReader, extract_from_iso}

-- The file name of an artifact, its place in the data directory, and the place from a directory of
-- the boot tree, k levels up.
module _ (o : Outside) where
  abbrev pub file_name_of : BootArtifact → String
  file_name_of artifact = filename_from_url o.url_path artifact.spec.url

  unfoldable pub artifact_path : FilePath → BootArtifact → FilePath
  artifact_path data_dir artifact =
      join data_dir ("artifacts" ∷ artifact.meta.name ∷ file_name_of artifact ∷ [])

  -- From the directory of the kernel or of the initrd.
  unfoldable pub deep_target : BootArtifact → FilePath
  deep_target artifact =
      join_relative
        (".." ∷ ".." ∷ ".." ∷ "artifacts" ∷ artifact.meta.name ∷ file_name_of artifact ∷ [])

  -- From the boot directory.
  unfoldable pub flat_target : BootArtifact → FilePath
  flat_target artifact =
      join_relative (".." ∷ ".." ∷ "artifacts" ∷ artifact.meta.name ∷ file_name_of artifact ∷ [])

abbrev pub boot_dir : FilePath → String → FilePath
boot_dir data_dir name = join data_dir ("boot" ∷ name ∷ [])

module _ (C : Client) (o : Outside) (I : IsoReader) (kernel_temp initrd_temp : String)
    (data_dir : FilePath) where
  -- A failure of the disk is the status of the configuration.
  unfoldable pub on_disk_or :
      BootConfig
      → String
      → {A : Type 0} → Os A
      → (A → Exec (World C) Requeue)
      → Exec (World C) Requeue
  unfolding set_error
  on_disk_or bc what m rest =
      check (on_disk m) (λ e. set_error C bc (what <> ": " <> error_text e)) rest

  -- An artifact that is referred to; the status tells if it is missing.
  unfoldable pub with_artifact :
      BootConfig
      → (role name : String) → (BootArtifact → Exec (World C) Requeue)
      → Exec (World C) Requeue
  unfolding get_artifact set_error
  with_artifact bc role name rest =
      check (on_api (get_artifact C name bc.meta.namespace))
        (λ e.
          if is_not_found e
          then set_error C bc (role <> " artifact " <> o.quote name <> " not found")
          else fail e)
        rest

  -- The status waits for an artifact that is not ready.
  unfoldable pub when_ready :
      BootConfig
      → (role name : String) → BootArtifact
      → Exec (World C) Requeue
      → Exec (World C) Requeue
  unfolding set_pending
  when_ready bc role name artifact rest =
      if artifact.status.phase == BootArtifactPhase.ready
      then rest
      else set_pending C bc
          ("waiting for " <> role <> " artifact " <> o.quote name <> " to be Ready")

  -- The initrd in its directory: the artifact's file, or that with the firmware behind it.
  unfoldable pub place_initrd :
      BootConfig → (initrd : BootArtifact) → Option BootArtifact → Exec (World C) Requeue
  unfolding on_disk_or ensure_symlink concatenate_files set_ready artifact_path deep_target
  place_initrd bc initrd (some firmware) =
      on_disk_or bc "concatenating initrd + firmware"
        (concatenate_files initrd_temp
          (join (join (boot_dir data_dir bc.meta.name) ("initrd" ∷ []))
            (file_name_of o initrd ∷ []))
          (artifact_path o data_dir initrd) (artifact_path o data_dir firmware))
        (λ _. set_ready C bc)
  place_initrd bc initrd none =
      on_disk_or bc "creating initrd symlink"
        (ensure_symlink (join (boot_dir data_dir bc.meta.name) ("initrd" ∷ []))
          (file_name_of o initrd) (deep_target o initrd))
        (λ _. set_ready C bc)

  -- Mode A from "Assemble boot directory with symlinks" on.
  unfoldable pub assemble :
      BootConfig → (kernel initrd : BootArtifact) → Option BootArtifact → Exec (World C) Requeue
  unfolding on_disk_or ensure_symlink deep_target place_initrd
  assemble bc kernel initrd firmware =
      let kernel_dir = join (boot_dir data_dir bc.meta.name) ("kernel" ∷ []) in
      let initrd_dir = join (boot_dir data_dir bc.meta.name) ("initrd" ∷ []) in
      on_disk_or bc "creating kernel dir" (mkdir_all kernel_dir) λ _.
        on_disk_or bc "creating initrd dir" (mkdir_all initrd_dir) λ _.
          on_disk_or bc "creating kernel symlink"
            (ensure_symlink kernel_dir (file_name_of o kernel) (deep_target o kernel))
            λ _. place_initrd bc initrd firmware

  -- The optional firmware.
  unfoldable pub with_firmware :
      BootConfig
      → (name : String) → (Option BootArtifact → Exec (World C) Requeue)
      → Exec (World C) Requeue
  unfolding with_artifact when_ready
  with_firmware bc name rest =
      if name == ""
      then rest none
      else (with_artifact bc "firmware" name
          λ firmware. when_ready bc "firmware" name firmware (rest (some firmware)))

  -- Mode A.
  unfoldable pub reconcile_netboot : BootConfig → BootConfigNetbootSpec → Exec (World C) Requeue
  unfolding with_artifact when_ready with_firmware assemble
  reconcile_netboot bc nb = with_artifact bc "kernel" nb.kernel_ref λ kernel.
      with_artifact bc "initrd" nb.initrd_ref λ initrd.
        when_ready bc "kernel" nb.kernel_ref kernel (
          when_ready bc "initrd" nb.initrd_ref initrd
            (with_firmware bc nb.firmware_ref (assemble bc kernel initrd)))

  -- Mode B from the creation of the boot directory on.
  unfoldable pub extract : BootConfig → BootConfigIsoSpec → BootArtifact → Exec (World C) Requeue
  unfolding on_disk_or extract_from_iso ensure_file_symlink set_ready artifact_path flat_target
  extract bc iso artifact =
      let dir = boot_dir data_dir bc.meta.name in
      on_disk_or bc "creating boot dir" (mkdir_all dir) λ _.
        on_disk_or bc "extracting from iso"
          (extract_from_iso o.quote o.decimal I kernel_temp initrd_temp
            (artifact_path o data_dir artifact) iso.kernel_path iso.initrd_path dir)
          λ _.
            on_disk_or bc "creating iso symlink"
              (ensure_file_symlink (join dir (file_name_of o artifact ∷ []))
                (flat_target o artifact))
              λ _. set_ready C bc

  -- `reconcileISO`
  unfoldable pub reconcile_iso : BootConfig → BootConfigIsoSpec → Exec (World C) Requeue
  unfolding is_safe_iso_path with_artifact when_ready extract set_error
  reconcile_iso bc iso =
      if not (is_safe_iso_path iso.kernel_path)
      then set_error C bc
          ("invalid kernelPath " <> o.quote iso.kernel_path <> ": path traversal not allowed")
      else if not (is_safe_iso_path iso.initrd_path)
      then set_error C bc
          ("invalid initrdPath " <> o.quote iso.initrd_path <> ": path traversal not allowed")
      else (with_artifact bc "iso" iso.artifact_ref
          λ artifact. when_ready bc "iso" iso.artifact_ref artifact (extract bc iso artifact))

  -- `Reconcile` once the configuration is read.
  unfoldable pub reconcile_config : BootConfig → Exec (World C) Requeue
  unfolding reconcile_iso reconcile_netboot
  reconcile_config bc = elim bc.spec.iso [
    | some iso ↦ reconcile_iso bc iso
    | none ↦ elim bc.spec.netboot [ some nb ↦ reconcile_netboot bc nb | none ↦ pure no_requeue ]
  ]

  -- `Reconcile`
  unfoldable pub reconcile : ObjectKey → Exec (World C) Requeue
  unfolding reconcile_config
  reconcile key =
      check (on_api (C.get_boot_config key))
        (λ e.
          if is_not_found e
          then ignoring (on_disk (remove_all (boot_dir data_dir key.name))) (pure no_requeue)
          else fail e)
        reconcile_config
