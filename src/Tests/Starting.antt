-- ===== src/Tests/Starting.antt =====
-- Runs of the start of the two programs.
use isoboot.Prelude.{false, true, [], ◌∷◌, ◌≡◌, plain}
use isoboot.Startup.{Event, signalled, manager_failed}
use isoboot.Startup.Options.{TlsConfig, default_flags, manager_options}
use isoboot.Startup.Controllers.{run_controllers}
use isoboot.Startup.HttpServer.{run_server}
use isoboot.Startup.Recorder.{begin, recorder, outcome}
use isoboot.Startup.Order.{
  Makes, controllers_calls, server_calls, end_code, end_calls, run_controllers-outcome,
  run_server-outcome,
}
use isoboot.Startup.Protocols.{Given, configured, manager_options-protocols}
use isoboot.Prelude.{if◌then◌else◌}

run_controllers-outcome_example :
    Makes
      (run_controllers recorder default_flags)
      (begin (false ∷ false ∷ true ∷ []) signalled)
      (outcome 0 [] (controllers_calls default_flags) (false ∷ false ∷ true ∷ []))
run_controllers-outcome_example =
    run_controllers-outcome default_flags (false ∷ false ∷ true ∷ []) signalled

abbrev broken : Event
broken = manager_failed (plain "no cluster")

run_server-outcome_example :
    Makes
      (run_server recorder ":8080")
      (begin [] broken)
      (outcome (end_code broken) (end_calls broken) (server_calls ":8080") [])
run_server-outcome_example = run_server-outcome ":8080" [] broken

abbrev both_protocols : TlsConfig
both_protocols = record { next_protos = "h2" ∷ "http/1.1" ∷ [] }

manager_options-protocols_example :
    let options = manager_options default_flags in
    let protocols =
      if default_flags.enable_http2 then both_protocols.next_protos else "http/1.1" ∷ [] in
    ((configured options.metrics.tls_opts both_protocols).next_protos ≡ protocols)
    × ((configured options.webhook.tls_opts both_protocols).next_protos ≡ protocols)
    × (options.metrics.authenticates ≡ options.metrics.secure_serving)
    × Given default_flags.metrics_cert_path default_flags.metrics_cert_name
        default_flags.metrics_cert_key options.metrics.certificates
    × Given default_flags.webhook_cert_path default_flags.webhook_cert_name
        default_flags.webhook_cert_key options.webhook.certificates
manager_options-protocols_example = manager_options-protocols default_flags both_protocols
