-- ===== src/Artifact/Delivery.antt =====
-- A reconciliation that reports success leaves a verified file, downloaded or found on the disk.
use isoboot.Prelude.{
  String, ◌≡◌, refl, ◌∙◌, ap, sym, subst, Bool, true, false, Result, ok, if◌then◌else◌,
}
use isoboot.Paths.{FilePath}
use isoboot.Errors.{is_not_exist}
use isoboot.Api.{ObjectKey, BootArtifact, artifact_phase_eq}
use isoboot.Client.{Client}
use isoboot.Exec.{pure, deferring}
use isoboot.Exec.Ensures.{Ensures, Ensures-check}
use isoboot.Disk.{remove}
use isoboot.Disk.Content.{content_at}
use isoboot.Disk.Reads.{target_of-Holds}
use isoboot.World.{Outside, World, Requeue, no_requeue, on_api, on_disk}
use isoboot.Artifact.Status.{set_failure}
use isoboot.Artifact.Download.{tmp_path, key_of, request, download}
use isoboot.Artifact.{file_path, reconcile_found, reconcile}
use isoboot.Artifact.Verify.{IsDelivered, verify_existing-Report}
use isoboot.Artifact.Files.{IsStable, same_spec-Verified, file_path_of_spec}
use isoboot.Artifact.Success.{set_failure-Final, cleaned-Final, Delivered}

module _ (C : Client) (o : Outside) (data_dir : FilePath) (wanted : BootArtifact)
    (stable : IsStable C wanted) where
  abbrev own_path : FilePath
  own_path = file_path o data_dir wanted

  abbrev Success : Result Requeue → World C → Type 0
  Success r t = r ≡ ok no_requeue → IsDelivered o wanted own_path t.disk

  Delivered-IsDelivered :
      (fresh : BootArtifact) (t : World C)
      → fresh.spec ≡ wanted.spec
      → Delivered C o own_path fresh t
      → IsDelivered o wanted own_path t.disk
  Delivered-IsDelivered fresh t e (bytes, at, v) = record {
    bytes = bytes;
    content = ap (content_at t.disk) (target_of-Holds own_path bytes t.disk at) ∙ at;
    verified = same_spec-Verified C o data_dir wanted stable fresh bytes e v;
  }

  download-Success :
      (artifact : BootArtifact) (w : World C)
      → key_of artifact ≡ key_of wanted
      → Ensures (download C o artifact own_path) w Success
  unfolding download on_api
  download-Success artifact w same =
      Ensures-check (λ _ _. Unit) (record { holds = tt }) (λ e t _. record { holds = λ p. cc })
        λ _ t _.
          Ensures-check (λ r u. (fresh : BootArtifact) → r ≡ ok fresh → fresh.spec ≡ wanted.spec)
            (record {
              holds = λ fresh p.
                  (stable.at t.api fresh (
                    subst (λ (k : ObjectKey). (C.get_boot_artifact k t.api).0 ≡ ok fresh) same
                      p)).2;
            })
            (λ e u _. record { holds = λ p. cc })
            λ fresh u h.
              Ensures-check (λ _ _. Unit) (record { holds = tt })
                (λ e v _. set_failure-Final C o _ fresh _ v)
                λ _ v _. record {
                  holds = λ p.
                      Delivered-IsDelivered fresh
                        (deferring (on_disk (remove (tmp_path own_path)))
                          (request C o fresh own_path) v).1
                        (h fresh refl) ((cleaned-Final C o own_path fresh v).holds p);
                }

  Report-Success :
      (found : BootArtifact) (t : World C)
      → found.spec ≡ wanted.spec
      → IsDelivered o found own_path t.disk
      → IsDelivered o wanted own_path t.disk
  Report-Success found t e d = record {
    bytes = d.bytes;
    content = d.content;
    verified = same_spec-Verified C o data_dir wanted stable found d.bytes e d.verified;
  }

  missing-Success :
      (gone : Bool) (found : BootArtifact) (message : String) (w : World C)
      → key_of found ≡ key_of wanted
      → Ensures
          (if gone then download C o found own_path else set_failure C o found message)
          w
          Success
  missing-Success true found message w same = download-Success found w same
  missing-Success false found message w same = set_failure-Final C o _ found message w

  settled-Success :
      (valid : Bool) (found : BootArtifact) (w : World C)
      → key_of found ≡ key_of wanted
      → (valid ≡ true → IsDelivered o wanted own_path w.disk)
      → Ensures (if valid then pure no_requeue else download C o found own_path) w Success
  settled-Success true found w same h = record { holds = λ p. h refl }
  settled-Success false found w same h = download-Success found w same

  reconcile_found-Success :
      (found : BootArtifact) (w : World C)
      → file_path o data_dir found ≡ own_path
      → key_of found ≡ key_of wanted
      → found.spec ≡ wanted.spec
      → Ensures (reconcile_found C o data_dir found) w Success
  unfolding reconcile_found
  reconcile_found-Success found w path same spec =
      rw (path, reconcile_found)
        (Ensures-check (λ _ _. Unit) (record { holds = tt })
          (λ e t _. missing-Success (is_not_exist e) found _ t same)
          λ _ t _.
            Ensures-check (λ r u. r ≡ ok true → IsDelivered o found own_path u.disk)
              (verify_existing-Report C o own_path found t) (λ e u _. record { holds = λ p. cc })
              (λ valid u h.
                settled-Success valid found u same
                  (λ v. Report-Success found u spec (h (ap ok v)))))

  -- A reconciliation of an artifact that is there, and whose specification is not edited meanwhile,
  -- reports success (no error and no request to come again) only if opening the artifact's path then
  -- reads bytes with the digest that the specification names.
  pub reconcile-IsDelivered :
      (found : BootArtifact) (w : World C)
      → (C.get_boot_artifact (key_of wanted) w.api).0 ≡ ok found
      → (reconcile C o data_dir (key_of wanted) w).0 ≡ ok no_requeue
      → IsDelivered o wanted
          (file_path o data_dir wanted)
          (reconcile C o data_dir (key_of wanted) w).1.disk
  unfolding reconcile on_api
  reconcile-IsDelivered found w there =
      (Ensures-check {post = Success} (λ r t. r ≡ (C.get_boot_artifact (key_of wanted) w.api).0)
        (record { holds = refl }) (λ e t h. absurd (cc))
        (λ a t h.
          let (name, namespace, spec) = stable.at w.api a (sym h) in
          reconcile_found-Success a t (file_path_of_spec C o data_dir wanted stable a name spec)
            (λ i. record { name = name i; namespace = namespace i }) spec)).holds
