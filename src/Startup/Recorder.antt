-- ===== src/Startup/Recorder.antt =====
-- The libraries as a log: which calls were made, and which of them fail.
use isoboot.Prelude.{ℕ, Bool, true, false, List, [], ◌∷◌, ◌++◌, plain, ok, err, if◌then◌else◌}
use isoboot.Exec.{Exec}
use isoboot.Startup.{Call, start_in_background, listen_in_background, shut_down, Event, Runtime}

-- The calls so far, the schedule of failures, and the event that ends the wait.
pub record Log : Type 0 where
  pub calls : List Call
  pub faults : List Bool
  pub event : Event

abbrev pub begin : List Bool → Event → Log
begin faults event = record { calls = []; faults = faults; event = event }

abbrev pub logged : Call → Log → Log
logged call log = record log { calls = log.calls ++ call ∷ [] }

-- The next entry of the schedule: false, or none, is a success.
unfoldable pub take_fault : List Bool → Call → Exec Log (Unit {0})
take_fault [] call log = (ok tt, logged call (record log { faults = [] }))
take_fault (false ∷ faults) call log = (ok tt, logged call (record log { faults = faults }))
take_fault (true ∷ faults) call log =
    (err (plain "failed"), logged call (record log { faults = faults }))

-- The calls that only begin something, and the last one, whose error is dropped, count as never failing.
unfoldable pub fallible : Call → Bool
fallible start_in_background = false
fallible (listen_in_background address) = false
fallible shut_down = false
fallible _ = true

unfoldable pub issue : Call → Exec Log (Unit {0})
unfolding fallible take_fault
issue call log = if fallible call then take_fault log.faults call log else (ok tt, logged call log)

abbrev pub recorder : Runtime
recorder = record { State = Log; issue = issue; await = λ log. (log.event, log) }

-- What a program exits with and logs that makes the calls in order, stops with 1 at the first that
-- fails, and otherwise ends with the code and the last calls.
unfoldable pub outcome : ℕ → List Call → List Call → List Bool → ℕ × List Call
unfolding fallible
outcome code last [] faults = (code, last)
outcome code last (call ∷ calls) faults =
    if fallible call
    then elim faults [
      | [] ↦ let (c, made) = outcome code last calls [] in (c, call ∷ made)
      | true ∷ rest ↦ (1, call ∷ [])
      | false ∷ rest ↦ let (c, made) = outcome code last calls rest in (c, call ∷ made)
    ]
    else (let (c, made) = outcome code last calls faults in (c, call ∷ made))
