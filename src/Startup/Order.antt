-- ===== src/Startup/Order.antt =====
-- The order in which the two programs start their parts.
use mathlib.Core.Path.{fun_ext}
use mathlib.Core.List.{append_assoc, append-nil}
use isoboot.Prelude.{
  ℕ, String, ◌≡◌, refl, ◌∙◌, ap, sym, subst, Bool, true, false, List, [], ◌∷◌, ◌++◌, Result, ok,
  err, Bool-cases, inl, inr,
}
use isoboot.Exec.{Exec, check, ◌>>=◌}
use isoboot.Indexers.{provision_phase_field, provision_machine_ref_field, machine_spec_mac_field}
use isoboot.Startup.{
  boot_artifact, boot_config, machine, provision, Call, new_manager, index_field, complete,
  add_healthz_check, add_readyz_check, start, start_in_background, wait_for_cache_sync,
  listen_in_background, shut_down, signalled, manager_failed, server_failed, Runtime, Event,
  Program, exit, exit_on_error, or_exit,
}
use isoboot.Startup.Options.{Flags, manager_options}
use isoboot.Startup.Controllers.{setup_indexers, run_controllers}
use isoboot.Startup.HttpServer.{server_options, finish, run_server}
use isoboot.Startup.Recorder.{Log, begin, fallible, issue, take_fault, logged, recorder, outcome}

module _ {S : Type 0} where
  exit_on_error-then :
      (r : Result (Unit {0})) (n : Exec S (Unit {0})) (rest : Program S) (s : S)
      → or_exit (λ t. isoboot.Exec.branch r isoboot.Exec.fail (λ _. n) t) rest s
        ≡ exit_on_error r (or_exit n rest) s
  unfolding or_exit
  exit_on_error-then (ok a) n rest s = refl
  exit_on_error-then (err e) n rest s = refl

  or_exit-then :
      (m n : Exec S (Unit {0})) (rest : Program S)
      → or_exit (m >>= λ _. n) rest ≡ or_exit m (or_exit n rest)
  unfolding or_exit check
  or_exit-then m n rest = fun_ext λ s. exit_on_error-then (m s).0 n rest (m s).1

module _ (R : Runtime) where
  -- The calls in order, the first error ends it.
  run_all : List Call → Program R.State → Program R.State
  run_all [] rest = rest
  run_all (call ∷ calls) rest = or_exit (R.issue call) (run_all calls rest)

  abbrev index_calls : List Call
  index_calls =
      index_field provision provision_phase_field
      ∷ index_field provision provision_machine_ref_field
      ∷ index_field machine machine_spec_mac_field
      ∷ []

  setup_indexers-run_all :
      (rest : Program R.State) → or_exit (setup_indexers R) rest ≡ run_all index_calls rest
  unfolding setup_indexers run_all
  setup_indexers-run_all rest =
      or_exit-then (R.issue (index_field provision provision_phase_field)) _ rest
      ∙ ap (or_exit (R.issue (index_field provision provision_phase_field)))
          (or_exit-then _ (R.issue (index_field machine machine_spec_mac_field)) rest)

-- A rest that ends with the code after the last calls.
abbrev Ends : Program Log → ℕ → List Call → Event → Type 0
Ends rest code last event =
    (log : Log)
    → log.event ≡ event
    → ((rest log).0 ≡ code) × ((rest log).1.calls ≡ log.calls ++ last)

abbrev As : ℕ × Log → List Call → ℕ × List Call → Type 0
As run before (code, made) = (run.0 ≡ code) × (run.1.calls ≡ before ++ made)

-- A call that is served, before calls that come out as they should whatever is left of the schedule.
module _ (rest : Program Log) (call : Call) (log : Log) (later : List Bool → ℕ × List Call)
    (h : (faults : List Bool)
      → As
          (rest (logged call (record log { faults = faults })))
          (log.calls ++ call ∷ [])
          (later faults)) where
  onward :
      (faults : List Bool)
      → As
          (rest (logged call (record log { faults = faults })))
          log.calls
          ((later faults).0, call ∷ (later faults).1)
  onward faults = ((h faults).0, (h faults).1 ∙ append_assoc log.calls (call ∷ []) (later faults).1)

  served :
      (faults : List Bool)
      → As (or_exit (take_fault faults call) rest log) log.calls (elim faults [
        | [] ↦ ((later []).0, call ∷ (later []).1)
        | true ∷ left ↦ (1, call ∷ [])
        | false ∷ left ↦ ((later left).0, call ∷ (later left).1)
      ])
  unfolding or_exit take_fault
  served [] = onward []
  served (true ∷ faults) = (refl, refl)
  served (false ∷ faults) = onward faults

run_all-outcome :
    (rest : Program Log) (code : ℕ) (last : List Call) (event : Event)
    → Ends rest code last event
    → (calls : List Call) (log : Log) → log.event ≡ event
    → As (run_all recorder calls rest log) log.calls (outcome code last calls log.faults)
unfolding run_all outcome or_exit issue
run_all-outcome rest code last event h [] log e = h log e
run_all-outcome rest code last event h (call ∷ calls) log e = elim (Bool-cases (fallible call)) [
  | inr free ↦
      rw (free, outcome)
        (onward (run_all recorder calls rest) call log (outcome code last calls)
          (λ faults.
            run_all-outcome rest code last event h calls
              (logged call (record log { faults = faults })) e)
          log.faults)
  | inl checked ↦
      rw (checked, outcome)
        (served (run_all recorder calls rest) call log (outcome code last calls)
          (λ faults.
            run_all-outcome rest code last event h calls
              (logged call (record log { faults = faults })) e)
          log.faults)
]

-- The parts of the two programs, in the order in which they are started.
abbrev pub controllers_calls : Flags → List Call
controllers_calls flags =
    new_manager (manager_options flags)
    ∷ index_field provision provision_phase_field
    ∷ index_field provision provision_machine_ref_field
    ∷ index_field machine machine_spec_mac_field
    ∷ complete (record { reconciles = boot_artifact; watches = []; named = "bootartifact" })
    ∷ complete
        (record { reconciles = boot_config; watches = boot_artifact ∷ []; named = "bootconfig" })
    ∷ complete (record { reconciles = provision; watches = []; named = "provision" })
    ∷ add_healthz_check "healthz"
    ∷ add_readyz_check "readyz"
    ∷ start
    ∷ []

abbrev pub server_calls : String → List Call
server_calls listen_addr =
    new_manager server_options
    ∷ index_field provision provision_phase_field
    ∷ index_field provision provision_machine_ref_field
    ∷ index_field machine machine_spec_mac_field
    ∷ start_in_background
    ∷ wait_for_cache_sync
    ∷ listen_in_background listen_addr
    ∷ []

-- The end of the server, by the event: the code, and the call that it still makes.
abbrev pub end_code : Event → ℕ
end_code signalled = 0
end_code _ = 1

abbrev pub end_calls : Event → List Call
end_calls signalled = shut_down ∷ []
end_calls _ = []

run_controllers-run_all :
    (R : Runtime) (flags : Flags)
    → run_controllers R flags ≡ run_all R (controllers_calls flags) (exit 0)
unfolding run_controllers run_all
run_controllers-run_all R flags =
    ap (or_exit (R.issue (new_manager (manager_options flags)))) (setup_indexers-run_all R _)

exit-Ends : (event : Event) → Ends (exit 0) 0 [] event
exit-Ends event log e = (refl, sym (append-nil log.calls))

-- A program exits with the code and has made the calls.
abbrev pub Makes : Program Log → Log → ℕ × List Call → Type 0
Makes program log (code, made) = ((program log).0 ≡ code) × ((program log).1.calls ≡ made)

-- cmd/main.go makes its calls in one order, whatever the flags: it goes on to the next, and at last to
-- the start of the manager, only while all succeed, and exits with 0 only if the manager ends without
-- an error; at the first failure it exits with 1 and makes no further call.
pub run_controllers-outcome :
    (flags : Flags) (faults : List Bool) (event : Event)
    → Makes
        (run_controllers recorder flags)
        (begin faults event)
        (outcome 0 [] (controllers_calls flags) faults)
run_controllers-outcome flags faults event =
    subst
      (λ (p : Program Log).
        Makes p (begin faults event) (outcome 0 [] (controllers_calls flags) faults))
      (sym (run_controllers-run_all recorder flags))
      (run_all-outcome (exit 0) 0 [] event (exit-Ends event) (controllers_calls flags)
        (begin faults event) refl)

finish-Ends : (event : Event) → Ends (finish recorder) (end_code event) (end_calls event) event
unfolding finish issue fallible
finish-Ends signalled log e = rw (e, finish) (refl, refl)
finish-Ends (manager_failed f) log e = rw (e, finish) (refl, sym (append-nil log.calls))
finish-Ends (server_failed f) log e = rw (e, finish) (refl, sym (append-nil log.calls))

run_server-run_all :
    (listen_addr : String)
    → run_server recorder listen_addr
      ≡ run_all recorder (server_calls listen_addr) (finish recorder)
unfolding run_server run_all or_exit issue fallible
run_server-run_all listen_addr =
    ap (or_exit (issue (new_manager server_options))) (setup_indexers-run_all recorder _)

-- cmd/httpd/main.go begins to listen only once the indexes are set up, the manager runs and the cache
-- is in step; at a failure before that it exits with 1 and makes no further call. Then it waits, exits
-- with 1 where the manager or the server fails, and shuts the server down and exits with 0 where a
-- signal comes.
pub run_server-outcome :
    (listen_addr : String) (faults : List Bool) (event : Event)
    → Makes
        (run_server recorder listen_addr)
        (begin faults event)
        (outcome (end_code event) (end_calls event) (server_calls listen_addr) faults)
run_server-outcome listen_addr faults event =
    subst
      (λ (p : Program Log).
        Makes p (begin faults event)
          (outcome (end_code event) (end_calls event) (server_calls listen_addr) faults))
      (sym (run_server-run_all listen_addr))
      (run_all-outcome (finish recorder) (end_code event) (end_calls event) event
        (finish-Ends event) (server_calls listen_addr) (begin faults event) refl)
