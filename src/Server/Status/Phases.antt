-- ===== src/Server/Status/Phases.antt =====
-- The phases that a machine may report: `allowedPhases` (cmd/httpd/main.go) beside `validTransitions`
-- (internal/httpd/provision.go).
use isoboot.Prelude.{ℕ, String, some, ◌≡◌, refl, ◌⊎◌, inl, inr, lookup, string_eq, arith}
use isoboot.Api.{Provision, ProvisionPhase, in_progress, complete, provision_phase_eq}
use isoboot.Lifecycle.{report, plan}
use isoboot.Server.Status.{allowed_phases}

-- A report by its name: the phase that it asks for and the message, and the phase that must come before.
pub data Asks : (name : String) (before phase : ProvisionPhase) (message : String) → Type 0 where
  begins :
      {name message : String} {before phase : ProvisionPhase}
      → name ≡ "InProgress"
      → before ≡ ProvisionPhase.pending
      → phase ≡ in_progress
      → message ≡ "Installation in progress"
      → Asks name before phase message
  ends :
      {name message : String} {before phase : ProvisionPhase}
      → name ≡ "Complete"
      → before ≡ in_progress
      → phase ≡ complete
      → message ≡ "Installation complete"
      → Asks name before phase message

-- A provision in a new phase, and the same in all else.
abbrev pub moved : (now : ℕ) → ProvisionPhase → (message : String) → Provision → Provision
moved now phase message p = record p {
  status = record p.status { phase = phase; message = message; last_updated = some now };
}

pub planned-moved :
    (now : ℕ) (phase : ProvisionPhase) (message : String) (p q : Provision)
    → plan (report now phase message) p ≡ some q
    → q ≡ moved now phase message p
unfolding plan
planned-moved now in_progress message p q h = ground arith
planned-moved now complete message p q h = ground arith
planned-moved now _ message p q h = absurd (ground arith)

planned-before :
    (now : ℕ) (phase : ProvisionPhase) (message : String) (p q : Provision)
    → plan (report now phase message) p ≡ some q
    → ((phase ≡ in_progress) × (p.status.phase ≡ ProvisionPhase.pending))
      ⊎ ((phase ≡ complete) × (p.status.phase ≡ in_progress))
unfolding plan
planned-before now in_progress message p q h = inl (refl, ground arith)
planned-before now complete message p q h = inr (refl, ground arith)
planned-before now _ message p q h = absurd (ground arith)

allowed-cases :
    (name : String) (phase : ProvisionPhase) (message : String)
    → lookup name allowed_phases ≡ some (phase, message)
    → ((name ≡ "InProgress") × (phase ≡ in_progress) × (message ≡ "Installation in progress"))
      ⊎ ((name ≡ "Complete") × (phase ≡ complete) × (message ≡ "Installation complete"))
unfolding allowed_phases lookup
allowed-cases name phase message h = elim (string_eq.dec name "InProgress") [
  | yes e ↦ inl (e, ground arith, ground arith)
  | no f ↦ elim (string_eq.dec name "Complete") [
    | yes e ↦ inr (e, ground arith, ground arith)
    | no g ↦ absurd (ground arith)
  ]
]

pub allowed-Asks :
    (name : String) (phase : ProvisionPhase) (message : String) (now : ℕ) (p q : Provision)
    → lookup name allowed_phases ≡ some (phase, message)
    → plan (report now phase message) p ≡ some q
    → Asks name p.status.phase phase message
allowed-Asks name phase message now p q h k = elim (allowed-cases name phase message h) [
  | inl (e, f, g) ↦ elim (planned-before now phase message p q k) [
    | inl (_, before) ↦ begins e before f g
    | inr (f', _) ↦ absurd (cc)
  ]
  | inr (e, f, g) ↦ elim (planned-before now phase message p q k) [
    | inl (f', _) ↦ absurd (cc)
    | inr (_, before) ↦ ends e before f g
  ]
]
