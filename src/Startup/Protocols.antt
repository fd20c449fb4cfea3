-- ===== src/Startup/Protocols.antt =====
-- What the options of cmd/main.go make of the two servers of the manager.
use isoboot.Prelude.{
  String, ◌≡◌, refl, ◌⊎◌, ◌≢◌, List, [], ◌∷◌, arith, if◌then◌else◌, string_eq, inl, inr,
}
use isoboot.Startup.Options.{
  Flags, TlsConfig, TlsOption, disable_http2, tls_opts, Certificates, no_certificates, certificates,
  manager_options, metrics_options, webhook_options,
}

-- The options are applied one after the other to the configuration that a server begins with.
pub configured : List TlsOption → TlsConfig → TlsConfig
configured [] c = c
configured (option ∷ options) c = configured options (option c)

tls_opts-configured :
    (flags : Flags) (c : TlsConfig)
    → (configured (tls_opts flags) c).next_protos
      ≡ (if flags.enable_http2 then c.next_protos else "http/1.1" ∷ [])
unfolding tls_opts configured disable_http2
tls_opts-configured flags c = ground arith

-- A server's certificates: the three values that were given, or none at all where no directory was.
abbrev pub Given : (path name key : String) → Certificates → Type 0
Given path name key c =
    ((path ≡ "") × (c ≡ no_certificates))
    ⊎ ((path ≢ "") × (c ≡ record { dir = path; name = name; key = key }))

certificates-Given : (path name key : String) → Given path name key (certificates path name key)
unfolding certificates
certificates-Given path name key = elim (string_eq.dec path "") [
  | yes e ↦ inl (e, ground (arith, e))
  | no n ↦ inr (n, ground (arith, n))
]

-- Whatever the flags, both servers of the manager offer HTTP/1.1 alone, unless HTTP/2 is enabled, then
-- what they begin with; the metrics are authenticated exactly where they are served securely; and each
-- server has the certificates that were given for it, if any.
pub manager_options-protocols :
    (flags : Flags) (c : TlsConfig)
    → let options = manager_options flags in
      let protocols = if flags.enable_http2 then c.next_protos else "http/1.1" ∷ [] in
      ((configured options.metrics.tls_opts c).next_protos ≡ protocols)
      × ((configured options.webhook.tls_opts c).next_protos ≡ protocols)
      × (options.metrics.authenticates ≡ options.metrics.secure_serving)
      × Given flags.metrics_cert_path flags.metrics_cert_name flags.metrics_cert_key
          options.metrics.certificates
      × Given flags.webhook_cert_path flags.webhook_cert_name flags.webhook_cert_key
          options.webhook.certificates
unfolding manager_options metrics_options webhook_options
manager_options-protocols flags c = (
  tls_opts-configured flags c,
  tls_opts-configured flags c,
  refl,
  certificates-Given flags.metrics_cert_path flags.metrics_cert_name flags.metrics_cert_key,
  certificates-Given flags.webhook_cert_path flags.webhook_cert_name flags.webhook_cert_key,
)
