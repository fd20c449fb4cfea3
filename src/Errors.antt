-- ===== src/Errors.antt =====
-- Errors: the text of one, and the tests that walk its chain of wrapped errors
-- (internal/httpd/boot.go, provision.go, automation.go; `errors.Is`, `apierrors`, `client.IgnoreNotFound`).
use isoboot.Prelude.{
  String, ◌<>◌, Bool, true, false, ◌||◌, Error, api_not_found, api_conflict, api_failure,
  os_not_exist, os_failure, multiple_machines, multiple_provisions, invalid_phase_transition,
  file_not_found, plain, wrap,
}

-- `err.Error()`
unfoldable pub error_text : Error → String
error_text (api_not_found t) = t
error_text (api_conflict t) = t
error_text (api_failure t) = t
error_text (os_not_exist t) = t
error_text (os_failure t) = t
error_text multiple_machines = "multiple machines"
error_text multiple_provisions = "multiple pending provisions"
error_text invalid_phase_transition = "invalid phase transition"
error_text file_not_found = "file not found"
error_text (plain t) = t
error_text (wrap before e after) = before <> error_text e <> after

-- `apierrors.IsNotFound`
unfoldable pub is_not_found : Error → Bool
is_not_found (wrap before e after) = is_not_found e
is_not_found (api_not_found t) = true
is_not_found _ = false

-- `apierrors.IsConflict`
unfoldable pub is_conflict : Error → Bool
is_conflict (wrap before e after) = is_conflict e
is_conflict (api_conflict t) = true
is_conflict _ = false

-- `os.IsNotExist`, which does not look into wrapped errors.
unfoldable pub is_not_exist : Error → Bool
is_not_exist (os_not_exist t) = true
is_not_exist _ = false

-- `IsDuplicateError`
unfoldable pub is_duplicate_error : Error → Bool
is_duplicate_error (wrap before e after) = is_duplicate_error e
is_duplicate_error multiple_machines = true
is_duplicate_error multiple_provisions = true
is_duplicate_error _ = false

-- `errors.Is(err, ErrInvalidPhaseTransition)`
unfoldable pub is_invalid_transition : Error → Bool
is_invalid_transition (wrap before e after) = is_invalid_transition e
is_invalid_transition invalid_phase_transition = true
is_invalid_transition _ = false

-- `errors.Is(err, ErrFileNotFound)`
unfoldable pub is_file_not_found : Error → Bool
is_file_not_found (wrap before e after) = is_file_not_found e
is_file_not_found file_not_found = true
is_file_not_found _ = false

-- `IsProvisionNotFound`
unfoldable pub is_provision_not_found : Error → Bool
unfolding is_not_found
is_provision_not_found e = is_not_found e

-- `IsProvisionPhaseError`
unfoldable pub is_provision_phase_error : Error → Bool
unfolding is_invalid_transition is_conflict
is_provision_phase_error e = is_invalid_transition e || is_conflict e

-- `IsAutomationNotFound`
unfoldable pub is_automation_not_found : Error → Bool
unfolding is_not_found is_file_not_found
is_automation_not_found e = is_not_found e || is_file_not_found e
