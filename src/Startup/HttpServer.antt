-- ===== src/Startup/HttpServer.antt =====
-- `main` of cmd/httpd/main.go.
use isoboot.Prelude.{String, false, [], ◌∷◌}
use isoboot.Startup.{
  Call, new_manager, start_in_background, wait_for_cache_sync, listen_in_background, shut_down,
  manager_failed, server_failed, signalled, Runtime, Program, or_exit,
}
use isoboot.Startup.Options.{ManagerOptions, no_certificates}
use isoboot.Startup.Controllers.{setup_indexers}

-- The options of the manager: no metrics, and a cache for machines and provisions alone.
unfoldable pub server_options : ManagerOptions
server_options = record {
  metrics = record {
    bind_address = "0";
    secure_serving = false;
    tls_opts = [];
    authenticates = false;
    certificates = no_certificates;
  };
  webhook = record { tls_opts = []; certificates = no_certificates };
  probe_address = "";
  leader_election = false;
  leader_election_id = "";
  uncached = "BootArtifact" ∷ "BootConfig" ∷ "ProvisionAutomation" ∷ "ConfigMap" ∷ "Secret" ∷ [];
}

module _ (R : Runtime) where
  -- The end of `main`: `select`, and the shutdown, whose error is logged only.
  unfoldable pub finish : Program R.State
  finish s =
      let (event, s') = R.await s in
      elim event [
        | manager_failed e ↦ (1, s')
        | server_failed e ↦ (1, s')
        | signalled ↦ (0, (R.issue shut_down s').1)
      ]

  -- `go`: the start of a goroutine, which does not fail.
  abbrev pub go : Call → Program R.State → Program R.State
  go call rest s = rest (R.issue call s).1

  -- `main` behind the flags; goroutines are begun in order.
  unfoldable pub run_server : (listen_addr : String) → Program R.State
  unfolding server_options setup_indexers finish or_exit
  run_server listen_addr = or_exit (R.issue (new_manager server_options)) (
      or_exit (setup_indexers R) (
        go start_in_background
          (or_exit (R.issue wait_for_cache_sync) (go (listen_in_background listen_addr) finish))))
