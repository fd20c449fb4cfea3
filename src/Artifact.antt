-- ===== src/Artifact.antt =====
-- internal/controller/bootartifact_controller.go: `BootArtifactReconciler`.
pub mod Status
pub mod Download
pub mod Steps
pub mod Integrity
pub mod Files
pub mod Success
pub mod Verify
pub mod Backoff
pub mod Delivery
pub mod Completion
pub mod Progress
pub mod Rest
use isoboot.Prelude.{String, ◌<>◌, Bool, true, false, List, [], ◌∷◌, wrap, ◌==◌, if◌then◌else◌}
use isoboot.Paths.{FilePath, join}
use isoboot.Url.{filename_from_url}
use isoboot.Hash.{equal_fold}
use isoboot.Errors.{error_text, is_not_found, is_not_exist}
use isoboot.Api.{ObjectKey, BootArtifact, BootArtifactPhase, artifact_phase_eq}
use isoboot.Client.{Client}
use isoboot.Exec.{Exec, pure, fail, check, ignoring, ◌>>=◌}
use isoboot.Disk.{Os, stat, open_file, read, remove}
use isoboot.World.{Outside, World, Requeue, no_requeue, on_api, on_disk, record_event}
use isoboot.Artifact.Status.{expected_hash, is_some, digest, set_ready, set_failure}
use isoboot.Artifact.Download.{download}

module _ (o : Outside) where
  -- `hashFile`
  unfoldable pub hash_file : FilePath → Bool → Os String
  unfolding digest
  hash_file path use_sha256 = do
    opened ← open_file path
    bytes ← read opened
    pure (digest o use_sha256 bytes)

  -- `filePath`
  unfoldable pub file_path : FilePath → BootArtifact → FilePath
  file_path data_dir artifact =
      join data_dir
        ("artifacts" ∷ artifact.meta.name ∷ filename_from_url o.url_path artifact.spec.url ∷ [])

module _ (C : Client) (o : Outside) where
  -- `verifyExisting`
  unfoldable pub verify_existing : BootArtifact → FilePath → Exec (World C) Bool
  unfolding hash_file set_ready expected_hash
  verify_existing artifact path =
      check (on_disk (hash_file o path (is_some artifact.spec.sha256)))
        (λ e. if is_not_exist e then pure false else fail (wrap "hashing existing file: " e ""))
        λ computed.
          if equal_fold computed (expected_hash artifact)
          then if artifact.status.phase == BootArtifactPhase.ready
            then pure true
            else (set_ready C o artifact >>= λ _. pure true)
          else (ignoring
              (record_event o.has_recorder (
                "Existing file hash mismatch: expected "
                <> expected_hash artifact
                <> " got "
                <> computed
                <> ", re-downloading"))
              (ignoring (on_disk (remove path)) (pure false)))

module _ (C : Client) (o : Outside) (data_dir : FilePath) where
  -- `Reconcile` once the artifact is read.
  unfoldable pub reconcile_found : BootArtifact → Exec (World C) Requeue
  unfolding verify_existing download file_path
  reconcile_found artifact =
      let path = file_path o data_dir artifact in
      check (on_disk (stat path))
        (λ e.
          if is_not_exist e
          then download C o artifact path
          else set_failure C o artifact ("stat file: " <> error_text e))
        λ _.
          check (verify_existing C o artifact path) fail
            λ valid. if valid then pure no_requeue else download C o artifact path

  -- `Reconcile`
  unfoldable pub reconcile : ObjectKey → Exec (World C) Requeue
  unfolding reconcile_found
  reconcile key =
      check (on_api (C.get_boot_artifact key))
        (λ e. if is_not_found e then pure no_requeue else fail e)
        λ artifact. reconcile_found artifact
