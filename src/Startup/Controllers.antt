-- ===== src/Startup/Controllers.antt =====
-- `main` of cmd/main.go, with `SetupIndexers` (internal/controller/indexers.go) and the methods
-- `SetupWithManager` of the three reconcilers (internal/controller).
use isoboot.Prelude.{[], ◌∷◌}
use isoboot.Exec.{Exec, ◌>>=◌}
use isoboot.Indexers.{provision_phase_field, provision_machine_ref_field, machine_spec_mac_field}
use isoboot.Startup.{
  boot_artifact, boot_config, machine, provision, new_manager, index_field, complete,
  add_healthz_check, add_readyz_check, start, Runtime, Program, exit, or_exit,
}
use isoboot.Startup.Options.{Flags, manager_options}

module _ (R : Runtime) where
  -- `SetupIndexers`
  unfoldable pub setup_indexers : Exec R.State (Unit {0})
  setup_indexers = R.issue (index_field provision provision_phase_field) >>= λ _.
      R.issue (index_field provision provision_machine_ref_field) >>= λ _.
      R.issue (index_field machine machine_spec_mac_field)

  -- `SetupWithManager` of the three reconcilers.
  unfoldable pub setup_boot_artifacts : Exec R.State (Unit {0})
  setup_boot_artifacts =
      R.issue
        (complete (record { reconciles = boot_artifact; watches = []; named = "bootartifact" }))

  unfoldable pub setup_boot_configs : Exec R.State (Unit {0})
  setup_boot_configs = R.issue (
      complete
        (record { reconciles = boot_config; watches = boot_artifact ∷ []; named = "bootconfig" }))

  unfoldable pub setup_provisions : Exec R.State (Unit {0})
  setup_provisions =
      R.issue (complete (record { reconciles = provision; watches = []; named = "provision" }))

  -- `main` behind the flags.
  unfoldable pub run_controllers : Flags → Program R.State
  unfolding manager_options setup_indexers setup_boot_artifacts setup_boot_configs setup_provisions
      or_exit
  run_controllers flags = or_exit (R.issue (new_manager (manager_options flags))) (
      or_exit setup_indexers (
        or_exit setup_boot_artifacts (
          or_exit setup_boot_configs (
            or_exit setup_provisions (
              or_exit (R.issue (add_healthz_check "healthz")) (
                or_exit (R.issue (add_readyz_check "readyz"))
                  (or_exit (R.issue start) (exit 0))))))))
