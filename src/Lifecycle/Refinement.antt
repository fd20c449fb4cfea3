-- ===== src/Lifecycle/Refinement.antt =====
-- What `UpdateProvisionPhase` does with a provision that it has read.
use isoboot.Prelude.{
  ℕ, String, none, some, ◌≡◌, refl, ◌⊎◌, inl, inr, Error, Result, ok, err, true, false, arith,
  lookup, Option-cases, Bool-cases, ◌==◌, ◌<>◌, wrap, invalid_phase_transition,
}
use isoboot.Api.{Provision, ProvisionPhase, provision_phase_eq, phase_text}
use isoboot.Client.{Client}
use isoboot.Exec.{check}
use isoboot.Errors.{is_provision_phase_error, is_invalid_transition, is_not_found}
use isoboot.Httpd.Provision.{valid_transitions, advance, submit, update_provision_phase}
use isoboot.Lifecycle.{report, plan}

-- The call ends with an error that `IsProvisionPhaseError` knows and that is not one of a missing object,
-- and writes nothing: the state is the
-- one before the read, or the one after it.
abbrev pub Refused : {S : Type 0} → Result (Unit {0}) × S → S → S → Type 0
Refused {S} result before after =
    (e : Error) × (result.0 ≡ err e)
    × (is_provision_phase_error e ≡ true)
    × (is_not_found e ≡ false)
    × ((result.1 ≡ before) ⊎ (result.1 ≡ after))

advance-cases :
    (now : ℕ) (source target : ProvisionPhase) (message : String) (p : Provision)
    → ((q : Provision) × (advance now source target message p ≡ ok q))
      ⊎ ((e : Error) × (advance now source target message p ≡ err e)
          × (is_invalid_transition e ≡ true)
          × (is_not_found e ≡ false))
unfolding advance is_invalid_transition is_not_found
advance-cases now source target message p = elim (Bool-cases (p.status.phase == source)) [
  | inl h ↦ inl (
    record p {
      status = record p.status { phase = target; message = message; last_updated = some now };
    },
    ground arith,
  )
  | inr h ↦ inr (
    wrap "" invalid_phase_transition
        (": cannot transition from " <> phase_text p.status.phase <> " to " <> phase_text target),
    ground arith,
    refl,
    refl,
  )
]

module _ (C : Client) (quote : String → String) (now : ℕ) (ns name : String)
    (message : String) where
  -- `UpdateProvisionPhase` on a provision that is read: it submits the planned object, or it refuses
  -- with a phase error and writes nothing.
  pub update_provision_phase-plan :
      (target : ProvisionPhase) (p : Provision) (s s' : C.State)
      → C.get_provision (record { name = name; namespace = ns }) s ≡ (ok p, s')
      → ((q : Provision) × (plan (report now target message) p ≡ some q)
          × (update_provision_phase C quote now ns name target message s
              ≡ C.update_provision_status q s'))
        ⊎ ((plan (report now target message) p ≡ none)
            × Refused (update_provision_phase C quote now ns name target message s) s s')
  unfolding plan update_provision_phase check submit is_provision_phase_error is_invalid_transition
      is_not_found lookup valid_transitions
  update_provision_phase-plan target p s s' e =
      elim (Option-cases (lookup target valid_transitions)) [
        | inl h ↦ inr (
          ground arith,
          (
            wrap "" invalid_phase_transition (": cannot transition to " <> phase_text target),
            ground arith,
            refl,
            refl,
            inl (ground arith),
          ),
        )
        | inr (source, h) ↦ elim (advance-cases now source target message p) [
          | inl (q, k) ↦ inl (q, ground arith, ground arith)
          | inr (f, k, refused, found) ↦
              inr (ground arith, (f, ground arith, ground arith, found, inr (ground arith)))
        ]
      ]
