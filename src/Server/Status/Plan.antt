-- ===== src/Server/Status/Plan.antt =====
-- What a report of a machine comes to: `updateStatusHandler` (cmd/httpd/main.go) on top of
-- `UpdateProvisionPhase` (internal/httpd/provision.go).
use isoboot.Prelude.{
  ℕ, String, none, some, ◌≡◌, ◌≢◌, refl, ◌∙◌, ap, sym, ◌⊎◌, inl, inr, true, false, Error, Result,
  ok, err, lookup, string_eq, arith, Result-cases, Bool-cases, Option-cases,
}
use isoboot.Api.{Provision, ProvisionPhase, provision_phase_eq}
use isoboot.Client.{Client}
use isoboot.Exec.{Exec, check}
use isoboot.Errors.{is_not_found, is_provision_not_found, is_provision_phase_error}
use isoboot.Httpd.Provision.{valid_transitions, update_provision_phase}
use isoboot.Lifecycle.{report, plan}
use isoboot.Lifecycle.Refinement.{update_provision_phase-plan}
use isoboot.Server.Http.{Request, Response, http_error}
use isoboot.Server.Names.{is_valid_name}
use isoboot.Server.Status.Phases.{Asks, moved, planned-moved, allowed-Asks}
use isoboot.Server.Status.{allowed_phases, update_error, update_answer, update_status}

-- A request that passes the handler's own tests: its provision, its phase and the message for that.
pub record IsReport (r : Request) (phase : ProvisionPhase) (message : String) : Type 0 where
  pub named : r.form_value "provisionName" ≢ ""
  pub valid : is_valid_name (r.form_value "provisionName") ≡ true
  pub allowed : lookup (r.form_value "phase") allowed_phases ≡ some (phase, message)

module _ {S : Type 0} (update : String → ProvisionPhase → String → Exec S (Unit {0})) where
  -- The handler's answer is made from the result of the update.
  update_status-answer :
      (r : Request) (phase : ProvisionPhase) (message : String) (s : S)
      → IsReport r phase message
      → let done = update (r.form_value "provisionName") phase message s in
        update_status update r s ≡ (update_answer done.0, done.1)
  unfolding update_status
  update_status-answer r phase message s h = ground (arith, h.named, h.valid, h.allowed)

update_error-status : (e : Error) → (update_error e).status ≢ 200
unfolding update_error http_error
update_error-status e h = ground arith

update_error-refused :
    (e : Error)
    → is_provision_phase_error e ≡ true
    → is_not_found e ≡ false
    → (update_error e).status ≡ 409
unfolding update_error http_error is_provision_not_found
update_error-refused e h k = ground arith

answered-ok :
    {S : Type 0} (result : Result (Unit {0}) × S)
    → (update_answer result.0).status ≡ 200
    → result ≡ (ok tt, result.1)
unfolding update_answer
answered-ok (ok tt, s) h = refl
answered-ok (err e, s) h = absurd (update_error-status e h)

module _ {S : Type 0} (update : String → ProvisionPhase → String → Exec S (Unit {0})) where
  -- Only a request that passes the tests, and whose update succeeds, is answered with 200.
  update_status-ok :
      (r : Request) (s : S)
      → (update_status update r s).0.status ≡ 200
      → (phase : ProvisionPhase) × (message : String) × IsReport r phase message
        × (update (r.form_value "provisionName") phase message s
            ≡ (ok tt, (update_status update r s).1))
  unfolding update_status http_error
  update_status-ok r s h = elim (string_eq.dec (r.form_value "provisionName") "") [
    | yes e ↦ absurd (ground arith)
    | no named ↦ elim (Bool-cases (is_valid_name (r.form_value "provisionName"))) [
      | inr e ↦ absurd (ground arith)
      | inl valid ↦ elim (Option-cases (lookup (r.form_value "phase") allowed_phases)) [
        | inl e ↦ absurd (ground arith)
        | inr ((phase, message), e) ↦
            let accepted : IsReport r phase message = record {
              named = named;
              valid = valid;
              allowed = e;
            } in
            let same = update_status-answer update r phase message s accepted in
            (
              phase,
              message,
              accepted,
              answered-ok (update (r.form_value "provisionName") phase message s)
                    (sym (ap (λ (d : Response × S). d.0.status) same) ∙ h)
                  ∙ ap (λ (t : S). (ok tt, t)) (sym (ap (λ (d : Response × S). d.1) same)),
            )
      ]
    ]
  ]

module _ (C : Client) (quote : String → String) (now : ℕ) (ns : String) (r : Request) where
  -- An update that succeeds has read the provision.
  update_provision_phase-read :
      (phase : ProvisionPhase) (message name : String) (s t : C.State)
      → update_provision_phase C quote now ns name phase message s ≡ (ok tt, t)
      → (p : Provision) × (s' : C.State) × (C.get_provision
            (record { name = name; namespace = ns })
            s
          ≡ (ok p, s'))
  unfolding update_provision_phase check
  update_provision_phase-read phase message name s t h =
      elim (Option-cases (lookup phase valid_transitions)) [
        | inl e ↦ absurd (ground arith)
        | inr (source, e) ↦
            elim (Result-cases (C.get_provision (record { name = name; namespace = ns }) s).0) [
              | inl (p, k) ↦
                  (p, (C.get_provision (record { name = name; namespace = ns }) s).1, ground arith)
              | inr (f, k) ↦ absurd (ground arith)
            ]
      ]

  abbrev pub answer : C.State → Response × C.State
  answer s = update_status (update_provision_phase C quote now ns) r s

  -- A report on a provision that is read: where the plan of the provision's life yields an object, the
  -- handler submits it and answers by the result; otherwise the answer is 409 and nothing is written.
  pub update_status-plan :
      (phase : ProvisionPhase) (message : String) (p : Provision) (s s' : C.State)
      → IsReport r phase message
      → C.get_provision (record { name = r.form_value "provisionName"; namespace = ns }) s
        ≡ (ok p, s')
      → ((q : Provision) × (plan (report now phase message) p ≡ some q)
          × (answer s ≡ (
            update_answer (C.update_provision_status q s').0,
            (C.update_provision_status q s').1,
          )))
        ⊎ ((plan (report now phase message) p ≡ none)
            × ((answer s).0.status ≡ 409)
            × (((answer s).1 ≡ s) ⊎ ((answer s).1 ≡ s')))
  unfolding update_answer
  update_status-plan phase message p s s' h e =
      elim (update_provision_phase-plan C quote now ns (r.form_value "provisionName") message phase
        p s s' e) [
          | inl (q, planned, submitted) ↦ inl (
            q,
            planned,
            update_status-answer (update_provision_phase C quote now ns) r phase message s h
                ∙ ap (λ (d : Result (Unit {0}) × C.State). (update_answer d.0, d.1)) submitted,
          )
          | inr (none_planned, (f, failed, phase_error, found, kept)) ↦
              let same =
                update_status-answer (update_provision_phase C quote now ns) r phase message s h in
              let state = ap (λ (d : Response × C.State). d.1) same in
              inr (
                none_planned,
                ap (λ (d : Response × C.State). d.0.status) same
                    ∙ ap (λ (d : Result (Unit {0})). (update_answer d).status) failed
                    ∙ update_error-refused f phase_error found,
                elim kept [ inl k ↦ inl (state ∙ k) | inr k ↦ inr (state ∙ k) ],
              )
        ]

  -- The handler answers 200 only if the request names a provision and asks for one of the two phases
  -- by its name, the provision was read in the phase before that one, and the client took the
  -- provision as it was read but for the new phase, the message for it and the time.
  pub update_status-accepted :
      (s : C.State)
      → (answer s).0.status ≡ 200
      → (phase : ProvisionPhase) × (message : String) × (p : Provision) × (s' : C.State)
        × (r.form_value "provisionName" ≢ "")
        × (is_valid_name (r.form_value "provisionName") ≡ true)
        × (C.get_provision (record { name = r.form_value "provisionName"; namespace = ns }) s
            ≡ (ok p, s'))
        × Asks (r.form_value "phase") p.status.phase phase message
        × (C.update_provision_status (moved now phase message p) s' ≡ (ok tt, (answer s).1))
  update_status-accepted s h =
      let (phase, message, accepted, done) =
        update_status-ok (update_provision_phase C quote now ns) r s h in
      let (p, s', found) =
        update_provision_phase-read phase message (r.form_value "provisionName") s (answer s).1
          done in
      elim (update_provision_phase-plan C quote now ns (r.form_value "provisionName") message phase
        p s s' found) [
          | inl (q, planned, submitted) ↦ (
            phase,
            message,
            p,
            s',
            accepted.named,
            accepted.valid,
            found,
            allowed-Asks (r.form_value "phase") phase message now p q accepted.allowed planned,
            ap (λ (x : Provision). C.update_provision_status x s')
                  (sym (planned-moved now phase message p q planned))
                ∙ (sym submitted ∙ done),
          )
          | inr (_, (f, failed, _, _, _)) ↦ absurd (ground (arith, failed, done))
        ]
