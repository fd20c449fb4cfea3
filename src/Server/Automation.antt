-- ===== src/Server/Automation.antt =====
-- `automationFileHandler` (cmd/httpd/main.go).
use isoboot.Prelude.{ℕ, String, ◌<>◌, not, Result, ok, err, ◌==◌, string_eq, if◌then◌else◌}
use isoboot.Exec.{Exec}
use isoboot.Errors.{is_automation_not_found}
use isoboot.Server.Http.{Request, Response, http_error}
use isoboot.Server.Hosts.{resolve_host}
use isoboot.Server.Names.{is_valid_name}
use isoboot.Server.Boot.{answer_text}

unfoldable pub file_answer : (decimal : ℕ → String) → Result String → Response
unfolding answer_text http_error is_automation_not_found
file_answer decimal (ok body) = answer_text decimal body
file_answer decimal (err e) =
    if is_automation_not_found e
    then http_error "not found" 404
    else http_error "internal error" 500

-- `automationFileHandler`, with the provision's name and the file's name from the path.
unfoldable pub automation_file :
    {S : Type 0} (decimal : ℕ → String)
    (render_file : (provision_name file_name status_url : String) → Exec S String)
    (provision_name file_name : String)
    → Request
    → S
    → Response × S
unfolding file_answer resolve_host http_error
automation_file decimal render_file provision_name file_name r s =
    if not (is_valid_name provision_name)
    then (http_error "invalid provision name" 400, s)
    else if file_name == ""
    then (http_error "missing file name" 400, s)
    else (let (rendered, s') =
          render_file provision_name file_name ("http://" <> resolve_host r <> "/dynamic/status")
            s in
        (file_answer decimal rendered, s'))
