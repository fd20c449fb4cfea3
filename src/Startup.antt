-- ===== src/Startup.antt =====
-- The start of the two programs, cmd/main.go and cmd/httpd/main.go: the calls of controller-runtime and
-- net/http that they make one after the other, and how each ends the process.
pub mod Options
pub mod Controllers
pub mod HttpServer
pub mod Recorder
pub mod Order
pub mod Protocols
use isoboot.Prelude.{ℕ, String, List, Error, Result, ok, err}
use isoboot.Exec.{Exec}
use isoboot.Startup.Options.{ManagerOptions}

-- The resources that are indexed, reconciled or watched.
pub data Kind : Type 0 where
  boot_artifact boot_config machine provision : Kind

-- What a builder of a controller is told: `For`, `Watches` and `Named`.
pub record Registration : Type 0 where
  pub reconciles : Kind
  pub watches : List Kind
  pub named : String

pub data Call : Type 0 where
  new_manager : ManagerOptions → Call
  index_field : Kind → String → Call
  complete : Registration → Call
  add_healthz_check add_readyz_check : String → Call
  -- `mgr.Start`, until the manager ends.
  start : Call
  -- `mgr.Start` in a goroutine, with its error on a channel.
  start_in_background : Call
  wait_for_cache_sync : Call
  -- `srv.ListenAndServe` in a goroutine, with its error on a channel.
  listen_in_background : (address : String) → Call
  shut_down : Call

-- What `select` receives: an error of the manager or of the server, or a signal.
pub data Event : Type 0 where
  manager_failed server_failed : Error → Event
  signalled : Event

-- The libraries, with a state of their own: each call may fail, and the wait ends with an event.
pub record Runtime : Type 1 where
  pub State : Type 0
  pub issue : Call → Exec State (Unit {0})
  pub await : State → Event × State

-- A program as a function to the status that it exits with.
abbrev pub Program : Type 0 → Type 0
Program S = S → ℕ × S

abbrev pub exit : {S : Type 0} → ℕ → Program S
exit code s = (code, s)

abbrev pub exit_on_error : {S A : Type 0} → Result A → Program S → Program S
exit_on_error (ok a) rest s = rest s
exit_on_error (err e) rest s = exit 1 s

-- `if err := m(); err != nil { ...; os.Exit(1) }`
unfoldable pub or_exit : {S A : Type 0} → Exec S A → Program S → Program S
or_exit m rest s = let (r, s') = m s in exit_on_error r rest s'
