-- ===== src/Config/Isolation.antt =====
-- What a reconciliation of a configuration leaves alone (internal/controller/bootconfig_controller.go).
use isoboot.Prelude.{
  String, ◌≡◌, refl, sym, subst, Option, none, some, Bool, true, false, not, ◌∷◌, ◌==◌, string_eq,
  Error, ok, if◌then◌else◌, Option-cases, inl, inr,
}
use isoboot.Paths.{FilePath}
use isoboot.Paths.Safety.{IsName}
use isoboot.Url.Laws.{filename_from_url-IsName}
use isoboot.Errors.{is_not_found}
use isoboot.Api.{
  ObjectKey, BootArtifact, BootArtifactPhase, artifact_phase_eq, BootConfig, BootConfigNetbootSpec,
  BootConfigIsoSpec, config_phase_eq,
}
use isoboot.Client.{Client}
use isoboot.Exec.{Exec, pure, fail, ignoring}
use isoboot.Exec.Ensures.{
  Follows, IsPreorder, Follows-check, Follows-fail, Follows-pure, Follows-if, Ensures,
  Ensures-check, onward,
}
use isoboot.Disk.{Os, is_under, remove_all}
use isoboot.Disk.Frame.{Leaves, remove_all-Leaves}
use isoboot.Disk.Content.{
  content_at, SameContent, SameContent-IsPreorder, Leaves-SameContent, mkdir_all-SameContent,
}
use isoboot.World.{Outside, World, Requeue, no_requeue, on_api, on_disk}
use isoboot.World.Frame.{OnDisk, OnDisk-IsPreorder, Follows-on_disk, Follows-on_api}
use isoboot.Config.{get_artifact}
use isoboot.Config.Links.{is_safe_iso_path, ensure_symlink, ensure_file_symlink}
use isoboot.Config.Concat.{concatenate_files}
use isoboot.Config.Extract.{IsoReader, extract_from_iso}
use isoboot.Config.Frame.{is_under-entry, ensure_symlink-Leaves}
use isoboot.Config.Outside.{
  ensure_file_symlink-Leaves, concatenate_files-Leaves, extract_from_iso-Leaves,
}
use isoboot.Config.Report.{set_ready-Follows, set_pending-Follows, set_error-Follows}
use isoboot.Config.Places.{
  boot_dir-path, sub_dir-path, entry-path, flat_entry-path, initrd-IsName, kernel-IsName,
}
use isoboot.Config.Assemble.{
  file_name_of, artifact_path, deep_target, flat_target, boot_dir, on_disk_or, with_artifact,
  when_ready, place_initrd, assemble, with_firmware, reconcile_netboot, extract, reconcile_iso,
  reconcile_config, reconcile,
}

-- Calls after which the regular file at a path has the content that it had before.
module _ (C : Client) (path : FilePath) where
  abbrev pub Keeps : World C → World C → Type 0
  Keeps = OnDisk (SameContent path)

  order : IsPreorder Keeps
  order = OnDisk-IsPreorder (SameContent path) (SameContent-IsPreorder path)

module _ (C : Client) (o : Outside) (I : IsoReader) (kernel_temp initrd_temp : String)
    (data_dir path : FilePath) where
  abbrev Work : Exec (World C) Requeue → Type 0
  Work m = Follows (Keeps C path) m

  module _ (bc : BootConfig) where
    on_disk_or-Keeps :
        (what : String) {A : Type 0} (m : Os A) (rest : A → Exec (World C) Requeue)
        → Follows (SameContent path) m
        → ((a : A) → Work (rest a))
        → Work (on_disk_or C o I kernel_temp initrd_temp data_dir bc what m rest)
    unfolding on_disk_or
    on_disk_or-Keeps what m rest h k =
        Follows-check (Keeps C path) (order C path) (on_disk m) _ rest
          (Follows-on_disk (SameContent path) m h)
          (λ e. set_error-Follows C (SameContent path) (SameContent-IsPreorder path) bc _) k

    on_disk_or-Leaves :
        (what : String) (m : Os (Unit {0})) (rest : Unit {0} → Exec (World C) Requeue)
        → Leaves path m
        → ((a : Unit {0}) → Work (rest a))
        → Work (on_disk_or C o I kernel_temp initrd_temp data_dir bc what m rest)
    on_disk_or-Leaves what m rest h k = on_disk_or-Keeps what m rest (Leaves-SameContent path m h) k

    with_artifact-Keeps :
        (role name : String) (rest : BootArtifact → Exec (World C) Requeue)
        → ((a : BootArtifact) → Work (rest a))
        → Work (with_artifact C o I kernel_temp initrd_temp data_dir bc role name rest)
    unfolding with_artifact
    with_artifact-Keeps role name rest k =
        Follows-check (Keeps C path) (order C path) (on_api (get_artifact C name bc.meta.namespace))
          _ rest
          (Follows-on_api (SameContent path) (SameContent-IsPreorder path)
            (get_artifact C name bc.meta.namespace))
          (λ e.
            Follows-if (Keeps C path) (order C path) (is_not_found e) _ (fail e)
              (set_error-Follows C (SameContent path) (SameContent-IsPreorder path) bc _)
              (Follows-fail (Keeps C path) (order C path) e))
          k

    when_ready-Keeps :
        (role name : String) (artifact : BootArtifact) (rest : Exec (World C) Requeue)
        → Work rest
        → Work (when_ready C o I kernel_temp initrd_temp data_dir bc role name artifact rest)
    unfolding when_ready
    when_ready-Keeps role name artifact rest h =
        Follows-if (Keeps C path) (order C path) (artifact.status.phase == BootArtifactPhase.ready)
          rest _ h (set_pending-Follows C (SameContent path) (SameContent-IsPreorder path) bc _)

    module _ (named : IsName bc.meta.name)
        (outside : is_under (bc.meta.name ∷ "boot" ∷ data_dir) path ≡ false) where
      inner : (name : String) → is_under (name ∷ bc.meta.name ∷ "boot" ∷ data_dir) path ≡ false
      inner name = is_under-entry (bc.meta.name ∷ "boot" ∷ data_dir) path name outside

      place_initrd-Keeps :
          (initrd : BootArtifact) (firmware : Option BootArtifact)
          → Work (place_initrd C o I kernel_temp initrd_temp data_dir bc initrd firmware)
      unfolding place_initrd
      place_initrd-Keeps initrd (some firmware) =
          on_disk_or-Leaves "concatenating initrd + firmware" _ _
            (subst
              (λ (d : FilePath). Leaves path (
                concatenate_files initrd_temp d (artifact_path o data_dir initrd)
                  (artifact_path o data_dir firmware)))
              (sym (
                entry-path data_dir bc.meta.name named "initrd" (file_name_of o initrd)
                  initrd-IsName (filename_from_url-IsName o.url_path initrd.spec.url)))
              (concatenate_files-Leaves path _ (inner "initrd") initrd_temp (file_name_of o initrd)
                (artifact_path o data_dir initrd) (artifact_path o data_dir firmware)))
            (λ _. set_ready-Follows C (SameContent path) (SameContent-IsPreorder path) bc)
      place_initrd-Keeps initrd none =
          on_disk_or-Leaves "creating initrd symlink" _ _
            (subst
              (λ (d : FilePath).
                Leaves path (ensure_symlink d (file_name_of o initrd) (deep_target o initrd)))
              (sym (sub_dir-path data_dir bc.meta.name named "initrd" initrd-IsName))
              (ensure_symlink-Leaves path _ (inner "initrd") (file_name_of o initrd)
                (deep_target o initrd)))
            (λ _. set_ready-Follows C (SameContent path) (SameContent-IsPreorder path) bc)

      assemble-Keeps :
          (kernel initrd : BootArtifact) (firmware : Option BootArtifact)
          → Work (assemble C o I kernel_temp initrd_temp data_dir bc kernel initrd firmware)
      unfolding assemble
      assemble-Keeps kernel initrd firmware =
          on_disk_or-Keeps "creating kernel dir" _ _ (mkdir_all-SameContent path _) (λ _.
            on_disk_or-Keeps "creating initrd dir" _ _ (mkdir_all-SameContent path _) (λ _.
              on_disk_or-Leaves "creating kernel symlink" _ _
                (subst
                  (λ (d : FilePath).
                    Leaves path (ensure_symlink d (file_name_of o kernel) (deep_target o kernel)))
                  (sym (sub_dir-path data_dir bc.meta.name named "kernel" kernel-IsName))
                  (ensure_symlink-Leaves path _ (inner "kernel") (file_name_of o kernel)
                    (deep_target o kernel)))
                (λ _. place_initrd-Keeps initrd firmware)))

      with_firmware-Keeps :
          (name : String) (rest : Option BootArtifact → Exec (World C) Requeue)
          → ((f : Option BootArtifact) → Work (rest f))
          → Work (with_firmware C o I kernel_temp initrd_temp data_dir bc name rest)
      unfolding with_firmware
      with_firmware-Keeps name rest h =
          Follows-if (Keeps C path) (order C path) (name == "") (rest none) _ (h none) (
            with_artifact-Keeps "firmware" name _
              (λ firmware. when_ready-Keeps "firmware" name firmware _ (h (some firmware))))

      reconcile_netboot-Keeps :
          (nb : BootConfigNetbootSpec)
          → Work (reconcile_netboot C o I kernel_temp initrd_temp data_dir bc nb)
      unfolding reconcile_netboot
      reconcile_netboot-Keeps nb = with_artifact-Keeps "kernel" nb.kernel_ref _ (λ kernel.
          with_artifact-Keeps "initrd" nb.initrd_ref _ (λ initrd.
            when_ready-Keeps "kernel" nb.kernel_ref kernel _ (
              when_ready-Keeps "initrd" nb.initrd_ref initrd _
                (with_firmware-Keeps nb.firmware_ref _ (assemble-Keeps kernel initrd)))))

      extract-Keeps :
          (iso : BootConfigIsoSpec) (artifact : BootArtifact)
          → Work (extract C o I kernel_temp initrd_temp data_dir bc iso artifact)
      unfolding extract
      extract-Keeps iso artifact =
          on_disk_or-Keeps "creating boot dir" _ _ (mkdir_all-SameContent path _) (λ _.
            on_disk_or-Leaves "extracting from iso" _ _
              (subst
                (λ (d : FilePath). Leaves path (
                  extract_from_iso o.quote o.decimal I kernel_temp initrd_temp
                    (artifact_path o data_dir artifact) iso.kernel_path iso.initrd_path d))
                (sym (boot_dir-path data_dir bc.meta.name named))
                (extract_from_iso-Leaves path _ outside o.quote o.decimal I kernel_temp initrd_temp
                  (artifact_path o data_dir artifact) iso.kernel_path iso.initrd_path))
              (λ _.
                on_disk_or-Leaves "creating iso symlink" _ _
                  (subst
                    (λ (d : FilePath). Leaves path (ensure_file_symlink d (flat_target o artifact)))
                    (sym (
                      flat_entry-path data_dir bc.meta.name named (file_name_of o artifact)
                        (filename_from_url-IsName o.url_path artifact.spec.url)))
                    (ensure_file_symlink-Leaves path _ outside (file_name_of o artifact)
                      (flat_target o artifact)))
                  (λ _. set_ready-Follows C (SameContent path) (SameContent-IsPreorder path) bc)))

      reconcile_iso-Keeps :
          (iso : BootConfigIsoSpec)
          → Work (reconcile_iso C o I kernel_temp initrd_temp data_dir bc iso)
      unfolding reconcile_iso
      reconcile_iso-Keeps iso =
          Follows-if (Keeps C path) (order C path) (not (is_safe_iso_path iso.kernel_path)) _ _
            (set_error-Follows C (SameContent path) (SameContent-IsPreorder path) bc _)
            (Follows-if (Keeps C path) (order C path) (not (is_safe_iso_path iso.initrd_path)) _ _
              (set_error-Follows C (SameContent path) (SameContent-IsPreorder path) bc _)
              (with_artifact-Keeps "iso" iso.artifact_ref _ (λ artifact.
                when_ready-Keeps "iso" iso.artifact_ref artifact _ (extract-Keeps iso artifact))))

      reconcile_config-Keeps : Work (reconcile_config C o I kernel_temp initrd_temp data_dir bc)
      unfolding reconcile_config
      reconcile_config-Keeps = elim (Option-cases bc.spec.iso) [
        | inr (iso, e) ↦ rw (e, reconcile_config) (reconcile_iso-Keeps iso)
        | inl e ↦ elim (Option-cases bc.spec.netboot) [
          | inr (nb, f) ↦ rw (e, f, reconcile_config) (reconcile_netboot-Keeps nb)
          | inl f ↦
              rw (e, f, reconcile_config) (Follows-pure (Keeps C path) (order C path) no_requeue)
        ]
      ]

-- `Get` returns the configuration that is asked for.
pub record IsKeyed (C : Client) (key : ObjectKey) : Type 0 where
  pub at :
      (s : C.State) (bc : BootConfig)
      → (C.get_boot_config key s).0 ≡ ok bc
      → bc.meta.name ≡ key.name

module _ (C : Client) (o : Outside) (I : IsoReader) (kernel_temp initrd_temp : String)
    (data_dir : FilePath) (key : ObjectKey) (keyed : IsKeyed C key) (named : IsName key.name) where
  -- A reconciliation of a configuration, whatever comes of it and also where the configuration is gone,
  -- leaves the content of every regular file outside of the configuration's own boot directory, the
  -- artifacts' files among them, and makes no regular file there.
  pub reconcile-isolated :
      (path : FilePath) (w : World C)
      → is_under (key.name ∷ "boot" ∷ data_dir) path ≡ false
      → content_at (reconcile C o I kernel_temp initrd_temp data_dir key w).1.disk path
        ≡ content_at w.disk path
  unfolding reconcile on_api
  reconcile-isolated path w outside =
      (Ensures-check {post = λ _ t. Keeps C path w t}
        (λ r t. Keeps C path w t × ((bc : BootConfig) → r ≡ ok bc → bc.meta.name ≡ key.name))
        (record { holds = (refl, keyed.at w.api) }) (λ e t h. gone (is_not_found e) e t h.0)
        (λ bc t h. onward (Keeps C path) (order C path) w t _ (found bc (h.1 bc refl)) h.0)).holds
    where
      found :
          (bc : BootConfig)
          → bc.meta.name ≡ key.name
          → Follows (Keeps C path) (reconcile_config C o I kernel_temp initrd_temp data_dir bc)
      found bc e =
          reconcile_config-Keeps C o I kernel_temp initrd_temp data_dir path bc
            (subst IsName (sym e) named)
            (subst (λ (n : String). is_under (n ∷ "boot" ∷ data_dir) path ≡ false) (sym e) outside)

      clear :
          Follows
            (Keeps C path)
            (ignoring (on_disk {C = C} (remove_all (boot_dir data_dir key.name))) (pure no_requeue))
      clear =
          Follows-check (Keeps C path) (order C path) _ _ _
            (Follows-on_disk (SameContent path) _ (
              Leaves-SameContent path _ (
                subst (λ (d : FilePath). Leaves path (remove_all d))
                  (sym (boot_dir-path data_dir key.name named))
                  (remove_all-Leaves path _ outside))))
            (λ e. Follows-pure (Keeps C path) (order C path) no_requeue)
            (λ _. Follows-pure (Keeps C path) (order C path) no_requeue)

      gone :
          (b : Bool) (e : Error) (t : World C)
          → Keeps C path w t
          → Ensures
              (if b
                then ignoring (on_disk (remove_all (boot_dir data_dir key.name))) (pure no_requeue)
                else fail e)
              t
              (λ _ u. Keeps C path w u)
      gone true e t h = onward (Keeps C path) (order C path) w t _ clear h
      gone false e t h = record { holds = h }
