-- ===== src/Server/Boot/Address.antt =====
-- The address of the proxy in the kernel arguments (cmd/httpd/main.go).
use isoboot.Prelude.{String, ◌<>◌, ◌≡◌, ◌≢◌, ◌⊎◌, refl}
use isoboot.Server.Http.{Request}
use isoboot.Server.Hosts.{resolve_host}
use isoboot.Server.Hosts.Ports.{
  IsPlain, told_host, resolve_host-forwarded_port, split_host_port-port,
}
use isoboot.Server.Boot.{node_ip}

-- The address that the proxy's URL names is the host that was told, without a port of its own or the
-- one that was put behind it, for a name or an IPv4 address behind a proxy that forwards a port.
pub node_ip-resolve_host :
    (r : Request) (host port : String)
    → IsPlain host
    → host ≢ ""
    → r.header "X-Forwarded-Port" ≢ ""
    → IsPlain port
    → IsPlain (r.header "X-Forwarded-Port")
    → (told_host r ≡ host) ⊎ (told_host r ≡ host <> (":" <> port))
    → node_ip (resolve_host r) ≡ host
unfolding node_ip
node_ip-resolve_host r host port h n f k l told =
    rw
      (
        resolve_host-forwarded_port r host port h n f k told,
        split_host_port-port host (r.header "X-Forwarded-Port") h l,
        node_ip,
      )
      refl
