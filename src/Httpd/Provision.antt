-- ===== src/Httpd/Provision.antt =====
-- internal/httpd/provision.go: phase transitions, and the pending provision of a MAC address.
use isoboot.Prelude.{
  ℕ, String, ◌<>◌, Option, none, some, List, [], ◌∷◌, Dict, lookup, ◌==◌, Result, ok, err,
  if◌then◌else◌, wrap, invalid_phase_transition, multiple_machines, multiple_provisions,
}
use isoboot.Api.{
  Provision, ProvisionPhase, in_progress, complete, Machine, phase_text, provision_phase_eq,
}
use isoboot.Client.{Client}
use isoboot.Indexers.{provision_phase_field, provision_machine_ref_field, machine_spec_mac_field}
use isoboot.Exec.{Exec, pure, fail, check}

-- `validTransitions`: each target phase with its source phase.
unfoldable pub valid_transitions : Dict ProvisionPhase ProvisionPhase
valid_transitions = (in_progress, ProvisionPhase.pending) ∷ (complete, in_progress) ∷ []

-- `UpdateProvisionPhase` between the read and the write: the check of the phase, the new status.
unfoldable pub advance :
    (now : ℕ) (source target : ProvisionPhase) (message : String) → Provision → Result Provision
unfolding phase_text
advance now source target message provision =
    if provision.status.phase == source
    then ok (record provision {
      status = record provision.status {
        phase = target;
        message = message;
        last_updated = some now;
      };
    })
    else err (
        wrap "" invalid_phase_transition (
          ": cannot transition from "
          <> phase_text provision.status.phase
          <> " to "
          <> phase_text target))

module _ (C : Client) where
  unfoldable pub submit : Result Provision → Exec C.State (Unit {0})
  submit (ok provision) = C.update_provision_status provision
  submit (err e) = fail e

  -- `UpdateProvisionPhase`
  unfoldable pub update_provision_phase :
      (quote : String → String) (now : ℕ) (ns name : String) (target : ProvisionPhase)
      (message : String)
      → Exec C.State (Unit {0})
  unfolding valid_transitions lookup submit advance
  update_provision_phase quote now ns name target message = elim (lookup target valid_transitions) [
    | none ↦
        fail (wrap "" invalid_phase_transition (": cannot transition to " <> phase_text target))
    | some source ↦
        check (C.get_provision (record { name = name; namespace = ns }))
          (λ e. fail (wrap ("getting provision " <> quote name <> ": ") e ""))
          λ provision. submit (advance now source target message provision)
  ]

  -- The second `switch` of `PendingProvisionForMAC`.
  unfoldable pub only_provision : String → List Provision → Exec C.State (Option Provision)
  only_provision mac [] = pure none
  only_provision mac (p ∷ []) = pure (some p)
  only_provision mac (p ∷ _ ∷ _) = fail (wrap "" multiple_provisions (" for MAC " <> mac))

  -- The first `switch`, and the list of the machine's pending provisions.
  unfoldable pub only_machine : String → String → List Machine → Exec C.State (Option Provision)
  unfolding only_provision phase_text
  only_machine ns mac [] = pure none
  only_machine ns mac (m ∷ []) =
      check
        (C.list_provisions ns (
          (provision_machine_ref_field, m.meta.name)
          ∷ (provision_phase_field, phase_text ProvisionPhase.pending)
          ∷ []))
        (λ e. fail (wrap "listing provisions: " e "")) λ provisions. only_provision mac provisions
  only_machine ns mac (m ∷ _ ∷ _) = fail (wrap "" multiple_machines (" with MAC " <> mac))

  -- `PendingProvisionForMAC`
  unfoldable pub pending_provision_for_mac : String → String → Exec C.State (Option Provision)
  unfolding only_machine
  pending_provision_for_mac ns mac =
      check (C.list_machines ns ((machine_spec_mac_field, mac) ∷ []))
        (λ e. fail (wrap "listing machines: " e "")) λ machines. only_machine ns mac machines
