-- ===== src/Server/Status.antt =====
-- `updateStatusHandler` and `healthzHandler` (cmd/httpd/main.go).
pub mod Plan
pub mod Phases
use isoboot.Prelude.{
  ℕ, String, Option, none, some, Bool, not, List, [], ◌∷◌, Dict, lookup, Error, Result, ok, err,
  ◌==◌, string_eq, if◌then◌else◌,
}
use isoboot.Exec.{Exec}
use isoboot.Errors.{error_text, is_provision_not_found, is_provision_phase_error}
use isoboot.Api.{ProvisionPhase, in_progress, complete}
use isoboot.Server.Http.{Request, Response, text_plain, http_error}
use isoboot.Server.Names.{is_valid_name}
use isoboot.Server.Boot.{answer_text}

-- `allowedPhases`: the phase and the message of each value of the parameter.
unfoldable pub allowed_phases : Dict String (ProvisionPhase × String)
allowed_phases =
    ("InProgress", (in_progress, "Installation in progress"))
    ∷ ("Complete", (complete, "Installation complete"))
    ∷ []

unfoldable pub update_error : Error → Response
unfolding is_provision_not_found is_provision_phase_error error_text http_error
update_error e =
    if is_provision_not_found e
    then http_error "provision not found" 404
    else if is_provision_phase_error e
    then http_error (error_text e) 409
    else http_error "internal error" 500

unfoldable pub update_answer : Result (Unit {0}) → Response
unfolding update_error
update_answer (ok done) = record { status = 200; headers = text_plain ∷ []; body = "OK" }
update_answer (err e) = update_error e

-- `updateStatusHandler`
unfoldable pub update_status :
    {S : Type 0}
    (update : (provision_name : String) → ProvisionPhase → (message : String) → Exec S (Unit {0}))
    → Request
    → S
    → Response × S
unfolding update_answer allowed_phases lookup http_error
update_status update r s =
    let provision_name = r.form_value "provisionName" in
    if provision_name == ""
    then (http_error "missing required parameter: provisionName" 400, s)
    else if not (is_valid_name provision_name)
    then (http_error "invalid provision name" 400, s)
    else elim (lookup (r.form_value "phase") allowed_phases) [
      | none ↦ (http_error "invalid phase: must be InProgress or Complete" 400, s)
      | some (phase, message) ↦
          let (updated, s') = update provision_name phase message s in (update_answer updated, s')
    ]

-- `healthzHandler`
unfoldable pub healthz : (decimal : ℕ → String) → Response
unfolding answer_text
healthz decimal = answer_text decimal "OK"
