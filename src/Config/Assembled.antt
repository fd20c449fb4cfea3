-- ===== src/Config/Assembled.antt =====
-- What stands in the boot directory of a configuration after a reconciliation that reports success
-- (internal/controller/bootconfig_controller.go).
use isoboot.Prelude.{
  String, ◌≡◌, refl, Bool, true, false, Error, ok, Bool-cases, inl, inr, texts_eq, if◌then◌else◌,
  ◌==◌, Result, ==-true, string_eq, ◌<>◌,
}
use isoboot.Paths.{FilePath}
use isoboot.Errors.{is_not_found}
use isoboot.Api.{BootArtifact, BootArtifactPhase, artifact_phase_eq, BootConfig}
use isoboot.Client.{Client}
use isoboot.Exec.{Exec, fail}
use isoboot.Exec.Ensures.{Ensures, Ensures-check, IsPreorder}
use isoboot.Disk.{Disk, Os}
use isoboot.World.{Outside, World, Requeue, on_api}
use isoboot.World.Frame.{Ensures-on_disk}
use isoboot.Config.{get_artifact, set_ready, set_error}
use isoboot.Config.Extract.{IsoReader}
use isoboot.Config.Assemble.{on_disk_or, with_artifact, when_ready}
use isoboot.Config.Report.{set_ready-Follows}
use isoboot.Config.Ready.{Final, set_error-Final, set_pending-Final}

-- A fact about the disk that the status does not touch.
module _ (C : Client) (P : Disk → Type 0) where
  implication : IsPreorder (λ (d e : Disk). P d → P e)
  implication = record { same = λ d h. h; then_ = λ d e f h k p. k (h p) }

  pub set_ready-Final :
      (bc : BootConfig) (w : World C)
      → P w.disk
      → Ensures (set_ready C bc) w (Final (λ t. P t.disk))
  set_ready-Final bc w h = record {
    holds = λ _. (set_ready-Follows C (λ d e. P d → P e) implication bc).at w h;
  }

module _ (C : Client) (o : Outside) (I : IsoReader) (kernel_temp initrd_temp : String)
    (data_dir : FilePath) (P : World C → Type 0) (bc : BootConfig) (w : World C) where
  pub on_disk_or-Final :
      (what : String) {A : Type 0} (m : Os A) (rest : A → Exec (World C) Requeue)
      (mid : Result A → Disk → Type 0)
      → Ensures m w.disk mid
      → ((a : A) (t : World C) → mid (ok a) t.disk → Ensures (rest a) t (Final P))
      → Ensures (on_disk_or C o I kernel_temp initrd_temp data_dir bc what m rest) w (Final P)
  unfolding on_disk_or
  on_disk_or-Final what m rest mid h k =
      Ensures-check (λ r t. mid r t.disk) (Ensures-on_disk m w mid h)
        (λ e t _. set_error-Final C P bc t _) k

  pub with_artifact-Final :
      (role name : String) (rest : BootArtifact → Exec (World C) Requeue)
      → ((a : BootArtifact) (t : World C)
          → (C.get_boot_artifact (record { name = name; namespace = bc.meta.namespace }) w.api).0
            ≡ ok a
          → Ensures (rest a) t (Final P))
      → Ensures (with_artifact C o I kernel_temp initrd_temp data_dir bc role name rest) w (Final P)
  unfolding with_artifact get_artifact on_api
  with_artifact-Final role name rest k =
      Ensures-check
        (λ r t.
          (C.get_boot_artifact (record { name = name; namespace = bc.meta.namespace }) w.api).0 ≡ r)
        (record { holds = refl }) (λ e t _. missing (is_not_found e) e t) k
    where
      missing :
          (b : Bool) (e : Error) (t : World C)
          → Ensures
              (if b
                then set_error C bc (role <> " artifact " <> o.quote name <> " not found")
                else fail e)
              t
              (Final P)
      missing true e t = set_error-Final C P bc t _
      missing false e t = record { holds = λ p. cc }

  pub when_ready-Final :
      (role name : String) (artifact : BootArtifact) (rest : Exec (World C) Requeue)
      → (artifact.status.phase ≡ BootArtifactPhase.ready → Ensures rest w (Final P))
      → Ensures
          (when_ready C o I kernel_temp initrd_temp data_dir bc role name artifact rest)
          w
          (Final P)
  unfolding when_ready
  when_ready-Final role name artifact rest k =
      elim (Bool-cases (artifact.status.phase == BootArtifactPhase.ready)) [
        | inl e ↦ rw e (k (==-true artifact.status.phase BootArtifactPhase.ready e))
        | inr e ↦ rw e (set_pending-Final C P bc w _)
      ]
