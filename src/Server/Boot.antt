-- ===== src/Server/Boot.antt =====
-- `conditionalBootHandler` (cmd/httpd/main.go).
pub mod Lookup
pub mod Address
use Prim.Native.String.{len}
use isoboot.Prelude.{
  ℕ, String, ◌<>◌, Option, none, some, Bool, not, List, [], ◌∷◌, Result, ok, err, Error, ◌==◌,
  string_eq, if◌then◌else◌,
}
use isoboot.Exec.{Exec}
use isoboot.Errors.{error_text, is_duplicate_error}
use isoboot.Httpd.Boot.{BootDirective, KernelArgsData, ArgumentTemplates, render_kernel_args}
use isoboot.Server.Http.{Request, Response, text_plain, http_error}
use isoboot.Server.Hosts.{split_host_port, resolve_host}
use isoboot.Server.Names.{mac_matches}

-- The answer 200 with a text and its length.
unfoldable pub answer_text : (decimal : ℕ → String) → String → Response
answer_text decimal body = record {
  status = 200;
  headers = text_plain ∷ ("Content-Length", decimal (len body)) ∷ [];
  body = body;
}

-- The address without its port, if it has one.
unfoldable pub node_ip : String → String
unfolding split_host_port
node_ip host = elim (split_host_port host) [ none ↦ host | some (h, _) ↦ h ]

-- The data of the kernel arguments.
unfoldable pub args_data : (proxy_port host : String) → BootDirective → KernelArgsData
unfolding node_ip
args_data proxy_port host directive = record {
  provision_automation_base_url =
      "http://" <> host <> "/dynamic/automation/" <> directive.provision_name;
  proxy_url = if proxy_port == "" then "" else "http://" <> node_ip host <> ":" <> proxy_port;
  update_phase_url = "http://" <> host <> "/dynamic/status";
  provision_name = directive.provision_name;
  iso_url =
      if directive.iso_path == ""
      then ""
      else "http://" <> host <> "/static/" <> directive.iso_path;
}

-- The kernel's arguments, rendered unless there are none.
unfoldable pub rendered_args :
    ArgumentTemplates → (proxy_port : String) → Request → BootDirective → Result String
unfolding args_data render_kernel_args resolve_host
rendered_args T proxy_port r directive =
    if directive.kernel_args == ""
    then ok ""
    else render_kernel_args T directive.kernel_args
        (args_data proxy_port (resolve_host r) directive)

-- The script for iPXE.
unfoldable pub boot_script : BootDirective → (args : String) → String
boot_script directive args =
    let kernel_line = "kernel /static/" <> directive.kernel_path in
    let line = if args == "" then kernel_line else kernel_line <> " " <> args in
    "#!ipxe\n" <> line <> "\ninitrd /static/" <> directive.initrd_path <> "\nboot\n"

-- The answer to a lookup that failed.
unfoldable pub boot_error : Error → Response
unfolding is_duplicate_error http_error error_text
boot_error e =
    if is_duplicate_error e then http_error (error_text e) 409 else http_error "internal error" 500

module _ (T : ArgumentTemplates) (decimal : ℕ → String) (proxy_port : String) (r : Request) where
  -- The answer to a lookup that succeeded.
  unfoldable pub boot_found : Option BootDirective → Response
  unfolding rendered_args boot_script answer_text http_error
  boot_found none = http_error "no pending provision for MAC" 404
  boot_found (some directive) = elim (rendered_args T proxy_port r directive) [
    | err e ↦ http_error "internal error" 500
    | ok args ↦ answer_text decimal (boot_script directive args)
  ]

  unfoldable pub boot_answer : Result (Option BootDirective) → Response
  unfolding boot_found boot_error
  boot_answer (err e) = boot_error e
  boot_answer (ok found) = boot_found found

  -- `conditionalBootHandler`
  unfoldable pub conditional_boot :
      {S : Type 0} → (get_directive : String → Exec S (Option BootDirective)) → S → Response × S
  unfolding boot_answer http_error
  conditional_boot get_directive s =
      let mac = r.query "mac" in
      if mac == ""
      then (http_error "missing required parameter: mac" 400, s)
      else if not (mac_matches mac)
      then (http_error "invalid mac address format" 400, s)
      else (let (found, s') = get_directive mac s in (boot_answer found, s'))
