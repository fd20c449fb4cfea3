-- ===== src/Provision.antt =====
-- internal/controller/provision_controller.go: `ProvisionReconciler`.
pub mod Settled
use isoboot.Prelude.{Option, none, some, ◌==◌, if◌then◌else◌}
use isoboot.Errors.{is_not_found}
use isoboot.Api.{ObjectKey, Provision, ProvisionPhase, provision_phase_eq}
use isoboot.Client.{Client}
use isoboot.Exec.{Exec, pure, fail, check}
use isoboot.World.{Requeue, no_requeue}

-- The status that `Reconcile` writes, if it writes one.
unfoldable pub initialise : Provision → Option Provision
initialise provision =
    if provision.status.phase == ProvisionPhase.unset
    then some
        (record provision { status = record provision.status { phase = ProvisionPhase.pending } })
    else none

-- `Reconcile`
unfoldable pub reconcile : (C : Client) → ObjectKey → Exec C.State Requeue
unfolding initialise
reconcile C key =
    check (C.get_provision key) (λ e. if is_not_found e then pure no_requeue else fail e)
      λ provision. elim (initialise provision) [
        | some changed ↦ check (C.update_provision_status changed) fail (λ _. pure no_requeue)
        | none ↦ pure no_requeue
      ]
