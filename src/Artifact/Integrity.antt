-- ===== src/Artifact/Integrity.antt =====
-- What a reconciliation of an artifact does to the files, for any relation between disks that the
-- single calls keep.
use isoboot.Prelude.{
  ℕ, ◌≡◌, refl, Bool, true, false, List, Error, ok, Bool-cases, inl, inr, if◌then◌else◌, ◌<>◌, ◌==◌,
  nat_eq,
}
use isoboot.Paths.{FilePath}
use isoboot.Errors.{error_text, is_not_exist}
use isoboot.Api.{BootArtifact}
use isoboot.Client.{Client}
use isoboot.Exec.{pure, ignoring}
use isoboot.Exec.Ensures.{
  Ensures, Ensures-check, Follows, Follows-check, Follows-fail, Follows-pure, Follows-if,
  IsPreorder, onward, onward_from, Ensures-deferring,
}
use isoboot.Disk.{Disk, remove}
use isoboot.World.{
  Outside, World, on_api, on_disk, no_requeue, bad_request, no_response, response, Fetch,
}
use isoboot.World.Frame.{
  OnDisk, OnDisk-IsPreorder, Follows-on_disk, Follows-on_api, Follows-record_event,
}
use isoboot.Artifact.Status.{set_failure}
use isoboot.Artifact.Download.{key_of, request, download}
use isoboot.Artifact.Steps.{
  Verified, Allows, set_failure-Follows, set_ready-Follows, report-Ensures, store-Ensures,
}
use isoboot.Artifact.{hash_file, file_path, verify_existing, reconcile_found}

module _ (C : Client) (o : Outside) (R : Disk → Disk → Type 0) (path : FilePath)
    (good : List ℕ → Type 0) (allows : Allows R path good) where
  W-order : IsPreorder (OnDisk {C = C} R)
  W-order = OnDisk-IsPreorder R allows.order

  request-Ensures :
      (artifact : BootArtifact) (w : World C)
      → ((body : List ℕ) → Verified o artifact body → good body)
      → Ensures (request C o artifact path) w (λ _ t. OnDisk R w t)
  unfolding request
  request-Ensures artifact w g = answer (o.fetch artifact.spec.url) refl
    where
      answer :
          (reply : Fetch)
          → o.fetch artifact.spec.url ≡ reply
          → Ensures (request C o artifact path) w (λ _ t. OnDisk R w t)
      answer (bad_request text) e =
          rw (e, request) (report-Ensures C o R path good allows w w artifact _ (W-order.same w))
      answer (no_response text) e =
          rw (e, request) (report-Ensures C o R path good allows w w artifact _ (W-order.same w))
      answer (response status content_length body broken) e =
          rw (e, request)
            (elim (Bool-cases (status == 200)) [
              | inl fine ↦ rw fine (
                  store-Ensures C o R path good allows artifact content_length body broken w
                    (g body))
              | inr other ↦
                  rw other (report-Ensures C o R path good allows w w artifact _ (W-order.same w))
            ])

  -- The specification that is read again has digests of good bytes only.
  abbrev pub Trusted : BootArtifact → Type 0
  Trusted artifact =
      (s : C.State) (fresh : BootArtifact)
      → (C.get_boot_artifact (key_of artifact) s).0 ≡ ok fresh
      → (body : List ℕ) → Verified o fresh body
      → good body

  download-Ensures :
      (artifact : BootArtifact) (w : World C)
      → Trusted artifact
      → Ensures (download C o artifact path) w (λ _ t. OnDisk R w t)
  unfolding download on_api
  download-Ensures artifact w trusted =
      Ensures-check (λ _ t. OnDisk R w t)
        (onward _ W-order w w _ (Follows-on_api R allows.order _) (W-order.same w))
        (λ e t h. onward _ W-order w t _ (Follows-fail _ W-order _) h)
        λ _ t h.
          Ensures-check
            (λ r u.
              OnDisk R w u
              × ((fresh : BootArtifact)
                  → r ≡ ok fresh
                  → (body : List ℕ) → Verified o fresh body
                  → good body))
            (record { holds = (h, trusted t.api) })
            (λ e u k. onward _ W-order w u _ (Follows-fail _ W-order _) k.0)
            λ fresh u k.
              Ensures-check (λ _ t. OnDisk R w t)
                (onward _ W-order w u _ (Follows-on_disk R _ allows.makes) k.0)
                (λ e v m. report-Ensures C o R path good allows w v fresh _ m)
                λ _ v m.
                  onward_from _ W-order w v _
                    (Ensures-deferring _ W-order _ _ (Follows-on_disk R _ allows.cleans)
                      (request-Ensures fresh v (k.1 fresh refl)))
                    m

  hash_file-Follows : (use_sha256 : Bool) → Follows R (hash_file o path use_sha256)
  unfolding hash_file
  hash_file-Follows use_sha256 =
      Follows-check R allows.order _ _ _ (allows.opens path) (λ e. Follows-fail R allows.order e)
        λ opened.
          Follows-check R allows.order _ _ _ (allows.reads opened)
            (λ e. Follows-fail R allows.order e) (λ bytes. Follows-pure R allows.order _)

  verify_existing-Follows :
      (artifact : BootArtifact) → Follows (OnDisk {C = C} R) (verify_existing C o artifact path)
  unfolding verify_existing
  verify_existing-Follows artifact =
      Follows-check _ W-order _ _ _ (Follows-on_disk R _ (hash_file-Follows _))
        (λ e. Follows-if _ W-order _ _ _ (Follows-pure _ W-order _) (Follows-fail _ W-order _))
        λ computed.
          Follows-if _ W-order _ _ _
            (Follows-if _ W-order _ _ _ (Follows-pure _ W-order _) (
              Follows-check _ W-order _ _ _ (set_ready-Follows o R allows.order artifact)
                (λ e. Follows-fail _ W-order e) (λ _. Follows-pure _ W-order _)))
            (Follows-check _ W-order _ _ _ (Follows-record_event R allows.order _ _) (λ _. drop_it)
              (λ _. drop_it))
    where
      drop_it : Follows (OnDisk {C = C} R) (ignoring (on_disk {C = C} (remove path)) (pure false))
      drop_it =
          Follows-check _ W-order _ _ _ (Follows-on_disk R _ allows.removes)
            (λ _. Follows-pure _ W-order _) (λ _. Follows-pure _ W-order _)

module _ (C : Client) (o : Outside) (data_dir : FilePath) (R : Disk → Disk → Type 0)
    (good : List ℕ → Type 0) (artifact : BootArtifact)
    (allows : Allows R (file_path o data_dir artifact) good) where
  -- What the single calls keep, `Reconcile` keeps from the read of the artifact on.
  pub reconcile_found-Ensures :
      (w : World C)
      → Trusted C o R (file_path o data_dir artifact) good allows artifact
      → Ensures (reconcile_found C o data_dir artifact) w (λ _ t. OnDisk R w t)
  unfolding reconcile_found
  reconcile_found-Ensures w trusted =
      Ensures-check (λ _ t. OnDisk R w t)
        (onward _ order w w _ (Follows-on_disk R _ allows.stats) (order.same w))
        (λ e t h. missing (is_not_exist e) e t h)
        λ _ t h.
          Ensures-check (λ _ u. OnDisk R w u)
            (onward _ order w t _ (verify_existing-Follows C o R _ good allows artifact) h)
            (λ e u k. onward _ order w u _ (Follows-fail _ order _) k)
            (λ valid u k. settled valid u k)
    where
      order : IsPreorder (OnDisk {C = C} R)
      order = OnDisk-IsPreorder R allows.order

      fetched :
          (t : World C)
          → OnDisk R w t
          → Ensures (download C o artifact (file_path o data_dir artifact)) t (λ _ u. OnDisk R w u)
      fetched t h =
          onward_from _ order w t _ (download-Ensures C o R _ good allows artifact t trusted) h

      missing :
          (gone : Bool) (e : Error) (t : World C)
          → OnDisk R w t
          → Ensures
              (if gone
                then download C o artifact (file_path o data_dir artifact)
                else set_failure C o artifact ("stat file: " <> error_text e))
              t
              (λ _ u. OnDisk R w u)
      missing true e t h = fetched t h
      missing false e t h = onward _ order w t _ (set_failure-Follows o R allows.order artifact _) h

      settled :
          (valid : Bool) (t : World C)
          → OnDisk R w t
          → Ensures
              (if valid
                then pure no_requeue
                else download C o artifact (file_path o data_dir artifact))
              t
              (λ _ u. OnDisk R w u)
      settled true t h = onward _ order w t _ (Follows-pure _ order _) h
      settled false t h = fetched t h
