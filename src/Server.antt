-- ===== src/Server.antt =====
-- cmd/httpd/main.go: the HTTP server. The parsing of requests and the choice of a pattern belong to
-- net/http; the choice is written out here for the four patterns.
pub mod Http
pub mod Hosts
pub mod Names
pub mod Boot
pub mod Automation
pub mod Status
pub mod Safe
use isoboot.Prelude.{ℕ, String, List, [], ◌∷◌, ◌==◌, string_eq, if◌then◌else◌}
use isoboot.Url.{UrlPath}
use isoboot.Client.{Client}
use isoboot.Httpd.Provision.{update_provision_phase}
use isoboot.Httpd.Boot.{ArgumentTemplates, boot_directive_for_mac}
use isoboot.Httpd.Automation.{Templates, render_automation_file}
use isoboot.Server.Http.{Request, Response, http_error}
use isoboot.Server.Boot.{conditional_boot}
use isoboot.Server.Automation.{automation_file}
use isoboot.Server.Status.{update_status, healthz}

-- The four patterns, and what the multiplexer answers itself.
pub data Route : Type 0 where
  boot_route status_route health_route : Route
  automation_route : (provision_name file_name : String) → Route
  wrong_method : Route
  no_route : Route

-- A pattern for GET matches HEAD too.
abbrev pub for_get : String → Route → Route
for_get method route =
    if method == "GET" then route else if method == "HEAD" then route else wrong_method

unfoldable pub route_of : (method : String) → (segments : List String) → Route
route_of method (one ∷ []) =
    if one == "conditional-boot"
    then for_get method boot_route
    else if one == "status"
    then if method == "POST" then status_route else wrong_method
    else if one == "healthz"
    then for_get method health_route
    else no_route
route_of method (one ∷ provision_name ∷ file_name ∷ []) =
    if one == "automation"
    then for_get method (automation_route provision_name file_name)
    else no_route
route_of method _ = no_route

module _ (C : Client) (url_path : UrlPath) (quote : String → String) (decimal : ℕ → String)
    (arguments : ArgumentTemplates) (templates : Templates) (ns proxy_port : String) where
  -- The handlers as `main` puts them together.
  unfoldable pub dispatch : Route → (now : ℕ) → Request → C.State → Response × C.State
  unfolding conditional_boot automation_file update_status healthz http_error
  dispatch boot_route now r s =
      conditional_boot arguments decimal proxy_port r (boot_directive_for_mac C url_path quote ns) s
  dispatch status_route now r s = update_status (update_provision_phase C quote now ns) r s
  dispatch health_route now r s = (healthz decimal, s)
  dispatch (automation_route provision_name file_name) now r s =
      automation_file decimal (render_automation_file C quote templates ns) provision_name file_name
        r s
  dispatch wrong_method now r s = (http_error "Method Not Allowed" 405, s)
  dispatch no_route now r s = (http_error "404 page not found" 404, s)

  -- The answer of the server to a request.
  unfoldable pub serve : (now : ℕ) → Request → C.State → Response × C.State
  unfolding route_of dispatch
  serve now r s = dispatch (route_of r.method r.segments) now r s
