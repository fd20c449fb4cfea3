-- ===== src/Lifecycle.antt =====
-- The life of one Provision on the API server while the reconciler (internal/controller/
-- provision_controller.go) and the status handler (internal/httpd/provision.go) update it, each
-- between a read and a write that others may come between, and reads may be of old versions.
pub mod Invariant
pub mod Refinement
pub mod Progress
use isoboot.Prelude.{
  ℕ, ◌+◌, String, Option, none, some, Bool, List, [], ◌∷◌, ◌≡◌, ◌⊎◌, ◌==◌, nat_eq, Result, ok, err,
  if◌then◌else◌, lookup,
}
use isoboot.Api.{Provision, ProvisionSpec, ProvisionPhase, provision_phase_eq}
use isoboot.Provision.{initialise}
use isoboot.Httpd.Provision.{valid_transitions, advance}

-- The stored version, the older ones, and the copies that somebody has read and may still use.
pub record Server : Type 0 where
  pub current : Provision
  pub past : List Provision
  pub held : List Provision

-- What a caller wants to write: the first phase, or the phase that a machine reports.
pub data Intent : Type 0 where
  start : Intent
  report : (now : ℕ) (target : ProvisionPhase) (message : String) → Intent

abbrev pub to_option : Result Provision → Option Provision
to_option (ok p) = some p
to_option (err e) = none

-- What `UpdateProvisionPhase` submits after the read, if it submits anything.
unfoldable pub reported :
    (now : ℕ) (target : ProvisionPhase) (message : String) → Provision → Option Provision
unfolding advance valid_transitions lookup
reported now target message provision = elim (lookup target valid_transitions) [
  | none ↦ none
  | some source ↦ to_option (advance now source target message provision)
]

-- The object that a caller submits after the read: the code of the Provision controller, or that of
-- the server. It is put together from the code, so it says nothing of which phases may follow one
-- another.
unfoldable pub plan : Intent → Provision → Option Provision
unfolding initialise reported
plan start provision = initialise provision
plan (report now target message) provision = reported now target message provision

abbrev pub version : Provision → ℕ
version p = p.meta.resource_version

-- The stored object one version later.
abbrev pub bump : Provision → Provision
bump p = record p { meta = record p.meta { resource_version = version p + 1 } }

-- `Status().Update` on the server: the status alone is taken, and only from a copy of the current
-- version; any other copy is a conflict.
unfoldable pub accept : Provision → Server → Option Server
accept submitted s =
    if version submitted == version s.current
    then some (record s {
      current = record (bump s.current) { status = submitted.status };
      past = s.current ∷ s.past;
    })
    else none

abbrev pub Among : Provision → List Provision → Type 0
Among p [] = ⊥
Among p (q ∷ qs) = (p ≡ q) ⊎ Among p qs

pub data Step : Server → Server → Type 0 where
  -- A read, from the server or from a cache that lags behind.
  read :
      (s : Server) (p : Provision)
      → Among p (s.current ∷ s.past)
      → Step s (record s { held = p ∷ s.held })
  -- A write that the server accepts.
  write :
      (s : Server) {t : Server} (intent : Intent) (p submitted : Provision)
      → Among p s.held
      → plan intent p ≡ some submitted
      → accept submitted s ≡ some t
      → Step s t
  -- A user edits the specification.
  edit :
      (s : Server) (spec : ProvisionSpec)
      → Step s (record s {
        current = record (bump s.current) { spec = spec };
        past = s.current ∷ s.past;
      })

pub data Reach (s : Server) : Server → Type 0 where
  here : Reach s s
  next : {t u : Server} → Reach s t → Step t u → Reach s u
