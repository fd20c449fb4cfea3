-- ===== src/Artifact/Download.antt =====
-- `download` of `BootArtifactReconciler` (internal/controller/bootartifact_controller.go).
use isoboot.Prelude.{
  ℕ, String, ◌<>◌, Option, none, some, Bool, false, not, List, [], ◌∷◌, length, plain, wrap, ◌==◌,
  nat_eq, if◌then◌else◌,
}
use isoboot.Paths.{FilePath, dir}
use isoboot.Hash.{equal_fold}
use isoboot.Errors.{error_text}
use isoboot.Api.{ObjectKey, BootArtifact, BootArtifactPhase}
use isoboot.Client.{Client}
use isoboot.Exec.{Exec, pure, fail, check, deferring, ◌>>=◌}
use isoboot.Disk.{Os, open_file, create, copy, rename, remove, mkdir_all, sync}
use isoboot.World.{
  bad_request, no_response, response, Outside, World, Requeue, no_requeue, on_api, on_disk,
}
use isoboot.Artifact.Status.{expected_hash, is_some, digest, set_ready, set_failure}

-- `filePath + ".tmp"`
unfoldable pub tmp_path : FilePath → FilePath
tmp_path [] = ".tmp" ∷ []
tmp_path (name ∷ up) = (name <> ".tmp") ∷ up

-- `client.ObjectKeyFromObject`
abbrev pub key_of : BootArtifact → ObjectKey
key_of artifact = record { name = artifact.meta.name; namespace = artifact.meta.namespace }

-- `syncDir`
unfoldable pub sync_dir : FilePath → Os (Unit {0})
sync_dir path = open_file path >>= λ _. sync

-- Reading the body into the temporary file; the number of bytes written.
unfoldable pub receive : FilePath → List ℕ → Option String → Os ℕ
receive path body broken = copy path body >>= λ _. elim broken [
  | none ↦ pure (length body)
  | some text ↦ fail (plain text)
]

-- `resp.ContentLength >= 0 && written != resp.ContentLength`
unfoldable pub length_differs : Option ℕ → ℕ → Bool
length_differs none written = false
length_differs (some expected) written = not (written == expected)

module _ (C : Client) (o : Outside) where
  abbrev pub decimal_or_none : Option ℕ → String
  decimal_or_none none = "-1"
  decimal_or_none (some n) = o.decimal n

  -- `download` from the comparison of the hashes on.
  unfoldable pub accept : BootArtifact → FilePath → List ℕ → Exec (World C) Requeue
  unfolding set_ready set_failure digest expected_hash sync_dir tmp_path
  accept artifact path body =
      let computed = digest o (is_some artifact.spec.sha256) body in
      if equal_fold computed (expected_hash artifact)
      then (check (on_disk (rename (tmp_path path) path))
          (λ e. set_failure C o artifact ("renaming file: " <> error_text e))
          λ _.
            check (on_disk (sync_dir (dir path)))
              (λ e. set_failure C o artifact ("syncing directory: " <> error_text e))
              λ _. set_ready C o artifact >>= λ _. pure no_requeue)
      else set_failure C o artifact
          ("hash mismatch: expected " <> expected_hash artifact <> " got " <> computed)

  -- `download` from the creation of the temporary file on.
  unfoldable pub store :
      BootArtifact → FilePath → Option ℕ → List ℕ → Option String → Exec (World C) Requeue
  unfolding accept receive length_differs
  store artifact path content_length body broken =
      check (on_disk (create (tmp_path path)))
        (λ e. set_failure C o artifact ("creating temp file: " <> error_text e))
        λ _.
          check (on_disk (receive (tmp_path path) body broken))
            (λ e. set_failure C o artifact ("writing file: " <> error_text e))
            λ written.
              if length_differs content_length written
              then set_failure C o artifact (
                  "Content-Length mismatch: expected "
                  <> decimal_or_none content_length
                  <> " bytes, got "
                  <> o.decimal written)
              else (check (on_disk sync)
                  (λ e. set_failure C o artifact ("syncing temp file: " <> error_text e))
                  λ _.
                    check (on_disk sync)
                      (λ e. set_failure C o artifact ("closing temp file: " <> error_text e))
                      λ _. accept artifact path body)

  -- `download` from the request on.
  unfoldable pub request : BootArtifact → FilePath → Exec (World C) Requeue
  unfolding store
  request artifact path = elim (o.fetch artifact.spec.url) [
    | bad_request text ↦ set_failure C o artifact ("creating request: " <> text)
    | no_response text ↦ set_failure C o artifact ("download failed: " <> text)
    | response status content_length body broken ↦
        if status == 200
        then store artifact path content_length body broken
        else set_failure C o artifact ("download failed: HTTP " <> o.decimal status)
  ]

  -- `download`
  unfoldable pub download : BootArtifact → FilePath → Exec (World C) Requeue
  unfolding request
  download artifact path =
      check
        (on_api (
          C.update_artifact_status (record artifact {
            status = record artifact.status {
              phase = BootArtifactPhase.downloading;
              message = "Downloading";
            };
          })))
        (λ e. fail (wrap "updating status: " e ""))
        λ _.
          check (on_api (C.get_boot_artifact (key_of artifact)))
            (λ e. fail (wrap "re-fetching artifact: " e ""))
            λ fresh.
              check (on_disk (mkdir_all (dir path)))
                (λ e. set_failure C o fresh ("creating directory: " <> error_text e))
                λ _. deferring (on_disk (remove (tmp_path path))) (request fresh path)
