-- ===== src/Startup/Options.antt =====
-- The flags of cmd/main.go and the options that they become.
use isoboot.Prelude.{String, Bool, true, false, not, List, [], ◌∷◌, ◌==◌, string_eq, if◌then◌else◌}

-- The variables of `main` that flags set. Those of the logger are left out.
pub record Flags : Type 0 where
  pub data_dir : String
  pub metrics_addr : String
  pub probe_addr : String
  pub enable_leader_election : Bool
  pub secure_metrics : Bool
  pub webhook_cert_path : String
  pub webhook_cert_name : String
  pub webhook_cert_key : String
  pub metrics_cert_path : String
  pub metrics_cert_name : String
  pub metrics_cert_key : String
  pub enable_http2 : Bool

-- The values where no flag is given.
unfoldable pub default_flags : Flags
default_flags = record {
  data_dir = "/data/isoboot";
  metrics_addr = "0";
  probe_addr = ":8081";
  enable_leader_election = false;
  secure_metrics = true;
  webhook_cert_path = "";
  webhook_cert_name = "tls.crt";
  webhook_cert_key = "tls.key";
  metrics_cert_path = "";
  metrics_cert_name = "tls.crt";
  metrics_cert_key = "tls.key";
  enable_http2 = false;
}

-- The part of `tls.Config` that the options set.
pub record TlsConfig : Type 0 where
  pub next_protos : List String

abbrev pub TlsOption : Type 0
TlsOption = TlsConfig → TlsConfig

-- `disableHTTP2`
unfoldable pub disable_http2 : TlsOption
disable_http2 c = record c { next_protos = "http/1.1" ∷ [] }

-- `tlsOpts`
unfoldable pub tls_opts : Flags → List TlsOption
unfolding disable_http2
tls_opts flags = if not flags.enable_http2 then disable_http2 ∷ [] else []

-- A directory of certificates with the two names, all empty where none is given.
pub record Certificates : Type 0 where
  pub dir : String
  pub name : String
  pub key : String

abbrev pub no_certificates : Certificates
no_certificates = record { dir = ""; name = ""; key = "" }

unfoldable pub certificates : (path name key : String) → Certificates
certificates path name key =
    if path == "" then no_certificates else record { dir = path; name = name; key = key }

pub record WebhookOptions : Type 0 where
  pub tls_opts : List TlsOption
  pub certificates : Certificates

pub record MetricsOptions : Type 0 where
  pub bind_address : String
  pub secure_serving : Bool
  pub tls_opts : List TlsOption
  -- `FilterProvider` is `filters.WithAuthenticationAndAuthorization`.
  pub authenticates : Bool
  pub certificates : Certificates

-- `ctrl.Options`; the schemes are left out.
pub record ManagerOptions : Type 0 where
  pub metrics : MetricsOptions
  pub webhook : WebhookOptions
  pub probe_address : String
  pub leader_election : Bool
  pub leader_election_id : String
  -- The types that are read from the API server and not from a cache.
  pub uncached : List String

unfoldable pub webhook_options : Flags → WebhookOptions
unfolding tls_opts certificates
webhook_options flags = record {
  tls_opts = tls_opts flags;
  certificates =
      certificates flags.webhook_cert_path flags.webhook_cert_name flags.webhook_cert_key;
}

unfoldable pub metrics_options : Flags → MetricsOptions
unfolding tls_opts certificates
metrics_options flags = record {
  bind_address = flags.metrics_addr;
  secure_serving = flags.secure_metrics;
  tls_opts = tls_opts flags;
  authenticates = flags.secure_metrics;
  certificates =
      certificates flags.metrics_cert_path flags.metrics_cert_name flags.metrics_cert_key;
}

-- The options of cmd/main.go.
unfoldable pub manager_options : Flags → ManagerOptions
unfolding webhook_options metrics_options
manager_options flags = record {
  metrics = metrics_options flags;
  webhook = webhook_options flags;
  probe_address = flags.probe_addr;
  leader_election = flags.enable_leader_election;
  leader_election_id = "423af48d.isoboot.github.io";
  uncached = [];
}
