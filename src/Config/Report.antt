-- ===== src/Config/Report.antt =====
-- Writing the status of a configuration leaves the disk alone (internal/controller/bootconfig_controller.go).
use isoboot.Prelude.{String, ◌==◌, string_eq}
use isoboot.Api.{BootConfig, BootConfigPhase, config_phase_eq}
use isoboot.Client.{Client}
use isoboot.Exec.{pure}
use isoboot.Exec.Ensures.{
  Follows, IsPreorder, Follows-check, Follows-fail, Follows-pure, Follows-if,
}
use isoboot.Disk.{Disk}
use isoboot.World.{Requeue, no_requeue, on_api}
use isoboot.World.Frame.{OnDisk, OnDisk-IsPreorder, Follows-on_api}
use isoboot.Config.{write_status, set_ready, set_pending, set_error}

module _ (C : Client) (R : Disk → Disk → Type 0) (p : IsPreorder R) (bc : BootConfig) where
  order : IsPreorder (OnDisk {C = C} R)
  order = OnDisk-IsPreorder R p

  write_status-Follows :
      (phase : BootConfigPhase) (message : String) (requeue : Requeue)
      → Follows (OnDisk {C = C} R) (write_status C bc phase message requeue)
  unfolding write_status
  write_status-Follows phase message requeue =
      Follows-check (OnDisk R) order (on_api (C.update_config_status _)) _ _
        (Follows-on_api R p (C.update_config_status _)) (λ e. Follows-fail (OnDisk R) order _)
        (λ _. Follows-pure (OnDisk R) order requeue)

  pub set_ready-Follows : Follows (OnDisk {C = C} R) (set_ready C bc)
  unfolding set_ready
  set_ready-Follows =
      Follows-if (OnDisk R) order (bc.status.phase == BootConfigPhase.ready) (pure no_requeue) _
        (Follows-pure (OnDisk R) order no_requeue)
        (write_status-Follows BootConfigPhase.ready "" no_requeue)

  pub set_pending-Follows :
      (message : String) → Follows (OnDisk {C = C} R) (set_pending C bc message)
  unfolding set_pending
  set_pending-Follows message =
      Follows-if (OnDisk R) order _ (pure _) _ (Follows-pure (OnDisk R) order _)
        (write_status-Follows BootConfigPhase.pending message _)

  pub set_error-Follows : (message : String) → Follows (OnDisk {C = C} R) (set_error C bc message)
  unfolding set_error
  set_error-Follows message =
      Follows-if (OnDisk R) order _ (pure _) _ (Follows-pure (OnDisk R) order _)
        (write_status-Follows BootConfigPhase.error message _)
