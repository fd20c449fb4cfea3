-- ===== src/Artifact/Status.antt =====
-- The parts of `BootArtifactReconciler` that report: the digests, the status of a ready and of a failed
-- artifact, and the backoff (internal/controller/bootartifact_controller.go).
use isoboot.Prelude.{
  ℕ, ◌+◌, ◌*◌, ◌%◌, ◌^◌, min, String, Option, none, some, Bool, true, false, List, plain, wrap,
  if◌then◌else◌, ltb,
}
use isoboot.Api.{BootArtifact, BootArtifactPhase}
use isoboot.Client.{Client}
use isoboot.Exec.{Exec, pure, fail, check, annotate}
use isoboot.World.{Outside, World, Requeue, on_api}

-- `expectedHash`
unfoldable pub expected_hash : BootArtifact → String
expected_hash artifact = elim artifact.spec.sha256 [
  | some digest ↦ digest
  | none ↦ elim artifact.spec.sha512 [ some digest ↦ digest | none ↦ "" ]
]

abbrev pub is_some : Option String → Bool
is_some (some s) = true
is_some none = false

abbrev pub int32_mod : ℕ
int32_mod = 2 ^ 32

abbrev pub int32_sign : ℕ
int32_sign = 2 ^ 31

-- The count after a failure, an int32 that wraps.
unfoldable pub next_count : ℕ → ℕ
next_count n = (n + 1) % int32_mod

-- `time.Duration(1<<min(n, 6)) * 5 * time.Second` in seconds; the shift by a negative count panics.
unfoldable pub backoff : ℕ → Option ℕ
backoff n = if ltb n int32_sign then some (2 ^ min n 6 * 5) else none

-- The choice of the hash function.
unfoldable pub digest : Outside → Bool → List ℕ → String
digest o true bytes = o.sha256 bytes
digest o false bytes = o.sha512 bytes

module _ (C : Client) (o : Outside) where
  -- `setReady`
  unfoldable pub set_ready : BootArtifact → Exec (World C) (Unit {0})
  unfolding annotate
  set_ready artifact = annotate "updating status: " (
      on_api (
        C.update_artifact_status (record artifact {
          status = record {
            phase = BootArtifactPhase.ready;
            message = "";
            failure_count = 0;
            last_failure_time = none;
            last_checked = some o.now;
          };
        })))

  -- The result of `setFailure`; controller-runtime turns a panic into an error.
  unfoldable pub requeue_of : Option ℕ → Exec (World C) Requeue
  requeue_of (some seconds) = pure (record { after = seconds })
  requeue_of none = fail (plain "panic: runtime error: negative shift amount [recovered]")

  -- `setFailure`
  unfoldable pub set_failure : BootArtifact → String → Exec (World C) Requeue
  unfolding requeue_of next_count backoff
  set_failure artifact message =
      let count = next_count artifact.status.failure_count in
      check
        (on_api (
          C.update_artifact_status (record artifact {
            status = record artifact.status {
              phase = BootArtifactPhase.error;
              message = message;
              failure_count = count;
              last_failure_time = some o.now;
            };
          })))
        (λ e. fail (wrap "updating status: " e "")) λ _. requeue_of (backoff count)
