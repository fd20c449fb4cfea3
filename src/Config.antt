-- ===== src/Config.antt =====
-- internal/controller/bootconfig_controller.go: `BootConfigReconciler`. This file has the reports of the
-- status and the watch on artifacts; the rest is in the modules below it.
pub mod Watch
pub mod Links
pub mod Concat
pub mod Extract
pub mod Frame
pub mod Contained
pub mod Outside
pub mod Assemble
pub mod Leads
pub mod Written
pub mod Concatenated
pub mod Extracted
pub mod Outputs
pub mod IsoMode
pub mod Directive
pub mod Places
pub mod Report
pub mod Ready
pub mod Assembled
pub mod Siblings
pub mod Netboot
pub mod Isolation
use isoboot.Prelude.{
  String, Option, none, some, Bool, false, ◌&&◌, ◌==◌, string_eq, ◌||◌, List, [], ◌∷◌, ok, err,
  wrap, if◌then◌else◌,
}
use isoboot.Api.{
  ObjectKey, BootArtifact, BootConfig, BootConfigSpec, BootConfigPhase, config_phase_eq,
}
use isoboot.Client.{Client}
use isoboot.Exec.{Exec, pure, fail, check}
use isoboot.World.{World, Requeue, no_requeue, on_api}

-- An artifact's name is one of the references of a configuration.
unfoldable pub refers_to : String → BootConfigSpec → Bool
refers_to name spec =
    elim spec.netboot [
      | some n ↦ n.kernel_ref == name || (n.initrd_ref == name || n.firmware_ref == name)
      | none ↦ false
    ]
    || elim spec.iso [ some i ↦ i.artifact_ref == name | none ↦ false ]

-- `client.ObjectKeyFromObject` of a configuration.
abbrev pub config_key : BootConfig → ObjectKey
config_key bc = record { name = bc.meta.name; namespace = bc.meta.namespace }

-- The loop of `findBootConfigsForArtifact`.
unfoldable pub requests_for : String → List BootConfig → List ObjectKey
unfolding refers_to
requests_for name [] = []
requests_for name (bc ∷ configs) =
    let rest = requests_for name configs in
    if refers_to name bc.spec then config_key bc ∷ rest else rest

module _ (C : Client) where
  -- `findBootConfigsForArtifact`
  unfoldable pub find_boot_configs_for_artifact : BootArtifact → Exec C.State (List ObjectKey)
  unfolding requests_for
  find_boot_configs_for_artifact artifact =
      check (C.list_boot_configs artifact.meta.namespace) (λ _. pure [])
        λ configs. pure (requests_for artifact.meta.name configs)

  -- `getArtifact`
  unfoldable pub get_artifact : String → String → Exec C.State BootArtifact
  get_artifact name namespace = C.get_boot_artifact (record { name = name; namespace = namespace })

  -- The status that a report leaves, and the seconds to the next reconciliation.
  unfoldable pub write_status :
      BootConfig → BootConfigPhase → String → Requeue → Exec (World C) Requeue
  write_status bc phase message requeue =
      check
        (on_api (
          C.update_config_status
            (record bc { status = record { phase = phase; message = message } })))
        (λ e. fail (wrap "updating status: " e "")) λ _. pure requeue

  -- `setReady`
  unfoldable pub set_ready : BootConfig → Exec (World C) Requeue
  unfolding write_status
  set_ready bc =
      if bc.status.phase == BootConfigPhase.ready
      then pure no_requeue
      else write_status bc BootConfigPhase.ready "" no_requeue

  -- `setPending`
  unfoldable pub set_pending : BootConfig → String → Exec (World C) Requeue
  unfolding write_status
  set_pending bc message =
      if bc.status.phase == BootConfigPhase.pending && bc.status.message == message
      then pure (record { after = 5 })
      else write_status bc BootConfigPhase.pending message (record { after = 5 })

  -- `setError`
  unfoldable pub set_error : BootConfig → String → Exec (World C) Requeue
  unfolding write_status
  set_error bc message =
      if bc.status.phase == BootConfigPhase.error && bc.status.message == message
      then pure (record { after = 10 })
      else write_status bc BootConfigPhase.error message (record { after = 10 })
