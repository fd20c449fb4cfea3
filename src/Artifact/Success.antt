-- ===== src/Artifact/Success.antt =====
-- What a reconciliation that reports success leaves on the disk.
use native.Mathlib.Nat.{pow-suc}
use isoboot.Prelude.{
  ℕ, zero, suc, ◌^◌, ◌<◌, min, String, ◌<>◌, ◌≡◌, refl, ◌≢◌, ◌∙◌, ap, sym, Option, none, some, Bool,
  true, false, List, [], Result, ok, err, Bool-cases, inl, inr, if◌then◌else◌, ◌==◌, nat_eq, arith,
}
use isoboot.Paths.{FilePath, dir}
use isoboot.Hash.{equal_fold}
use isoboot.Errors.{error_text}
use isoboot.Api.{BootArtifact, artifact_phase_eq}
use isoboot.Client.{Client}
use isoboot.Exec.{check, deferring}
use isoboot.Exec.Ensures.{Ensures, Ensures-check, Follows-check, Follows-fail}
use isoboot.Disk.{Os, sync, remove}
use isoboot.Disk.Effects.{content_of, Holds, Success, create-Holds, rename-Holds}
use isoboot.Disk.Frame.{sync-Leaves, open_file-Leaves, remove-Leaves, Leaves, Same, Same-IsPreorder}
use isoboot.World.{
  Outside, World, Requeue, no_requeue, on_disk, Fetch, bad_request, no_response, response,
}
use isoboot.World.Frame.{Ensures-on_disk}
use isoboot.Artifact.Status.{
  expected_hash, is_some, digest, set_ready, set_failure, requeue_of, backoff,
}
use isoboot.Artifact.Download.{tmp_path, sync_dir, length_differs, accept, store, request}
use isoboot.Artifact.Steps.{Verified, receive-Holds, set_ready-Follows}
use isoboot.Artifact.Files.{tmp_path-ne}

pow2_pos : (k : ℕ) → 0 < 2 ^ k
pow2_pos zero = omega arith
pow2_pos (suc k) = omega (arith, pow-suc 2 k, pow2_pos k)

-- The backoff is never zero.
backoff-ne-zero : (n : ℕ) → backoff n ≢ some 0
unfolding backoff
backoff-ne-zero n e = ground (arith, pow2_pos (min n 6))

abbrev after_of : Result Requeue → Option ℕ
after_of (ok r) = some r.after
after_of (err e) = none

module _ (C : Client) (o : Outside) where
  -- What holds of the final state if the call reports success.
  abbrev pub Final : (World C → Type 0) → Result Requeue → World C → Type 0
  Final P r t = r ≡ ok no_requeue → P t

  requeue_of-ne :
      (seconds : Option ℕ) (w : World C)
      → seconds ≢ some 0
      → (requeue_of C o seconds w).0 ≢ ok no_requeue
  unfolding requeue_of
  requeue_of-ne none w h e = cc
  requeue_of-ne (some n) w h e = h (ap after_of e)

  -- A failure is never reported as a success.
  pub set_failure-Final :
      (P : World C → Type 0) (artifact : BootArtifact) (message : String) (w : World C)
      → Ensures (set_failure C o artifact message) w (Final P)
  unfolding set_failure
  set_failure-Final P artifact message w =
      Ensures-check (λ _ _. Unit) (record { holds = tt }) (λ e t _. record { holds = λ p. cc })
        (λ _ t _. record { holds = λ p. absurd (requeue_of-ne _ t (backoff-ne-zero _) p) })

  module _ (path : FilePath) where
    abbrev pub At : (FilePath) → List ℕ → World C → Type 0
    At p bytes w = Holds p bytes w.disk

    -- The file holds bytes with the digest of the artifact.
    abbrev pub Delivered : BootArtifact → World C → Type 0
    Delivered artifact t = (bytes : List ℕ) × At path bytes t × Verified o artifact bytes

    keeps :
        {A : Type 0} (m : Os A) (bytes : List ℕ) (w : World C)
        → Leaves path m
        → At path bytes w
        → Ensures (on_disk {C = C} m) w (λ _ t. At path bytes t)
    keeps m bytes w h k =
        Ensures-on_disk m w (λ _ d. Holds path bytes d)
          (record { holds = ap content_of (h.at w.disk) ∙ k })

    sync_dir-Leaves : (other : FilePath) → Leaves path (sync_dir other)
    unfolding sync_dir
    sync_dir-Leaves other =
        Follows-check (Same path) (Same-IsPreorder path) _ _ _ (open_file-Leaves path other)
          (λ e. Follows-fail (Same path) (Same-IsPreorder path) e) (λ _. sync-Leaves path)

    pub set_ready-At :
        (artifact : BootArtifact) (bytes : List ℕ) (w : World C)
        → At path bytes w
        → Ensures (set_ready C o artifact) w (λ _ t. At path bytes t)
    set_ready-At artifact bytes w h = record {
      holds =
          ap content_of ((set_ready-Follows o (Same path) (Same-IsPreorder path) artifact).at w)
          ∙ h;
    }

    accept-Final :
        (artifact : BootArtifact) (body : List ℕ) (w : World C)
        → At (tmp_path path) body w
        → Ensures (accept C o artifact path body) w (Final (Delivered artifact))
    unfolding accept
    accept-Final artifact body w h =
        elim (Bool-cases
          (equal_fold (digest o (is_some artifact.spec.sha256) body) (expected_hash artifact))) [
            | inr e ↦ rw (e, accept) (set_failure-Final _ artifact _ w)
            | inl e ↦
                rw (e, accept)
                  (Ensures-check (λ r t. r ≡ ok tt → At path body t)
                    (Ensures-on_disk _ w (Success (Holds path body))
                      (rename-Holds (tmp_path path) path body w.disk h))
                    (λ x t _. set_failure-Final _ artifact _ t)
                    λ _ t k.
                      Ensures-check (λ _ u. At path body u)
                        (keeps _ body t (sync_dir-Leaves (dir path)) (k refl))
                        (λ x u _. set_failure-Final _ artifact _ u)
                        λ _ u m.
                          Ensures-check (λ _ v. At path body v) (set_ready-At artifact body u m)
                            (λ x v _. record { holds = λ p. cc })
                            (λ _ v n. record { holds = λ p. (body, n, e) }))
          ]

    sync-Staged :
        (body : List ℕ) (w : World C)
        → At (tmp_path path) body w
        → Ensures (on_disk {C = C} sync) w (λ _ t. At (tmp_path path) body t)
    sync-Staged body w h =
        Ensures-on_disk sync w (λ _ d. Holds (tmp_path path) body d)
          (record { holds = ap content_of ((sync-Leaves (tmp_path path)).at w.disk) ∙ h })

    store_rest-Final :
        (artifact : BootArtifact) (body : List ℕ) (differs : Bool) (message : String) (w : World C)
        → At (tmp_path path) body w
        → Ensures
            (if differs
              then set_failure C o artifact message
              else check
                  (on_disk sync)
                  (λ e. set_failure C o artifact ("syncing temp file: " <> error_text e))
                  (λ _.
                    check
                      (on_disk sync)
                      (λ e. set_failure C o artifact ("closing temp file: " <> error_text e))
                      (λ _. accept C o artifact path body)))
            w
            (Final (Delivered artifact))
    store_rest-Final artifact body true message w h = set_failure-Final _ artifact message w
    store_rest-Final artifact body false message w h =
        Ensures-check (λ _ t. At (tmp_path path) body t) (sync-Staged body w h)
          (λ e t _. set_failure-Final _ artifact _ t)
          λ _ t k.
            Ensures-check (λ _ u. At (tmp_path path) body u) (sync-Staged body t k)
              (λ e u _. set_failure-Final _ artifact _ u) (λ _ u m. accept-Final artifact body u m)

    store-Final :
        (artifact : BootArtifact) (content_length : Option ℕ) (body : List ℕ)
        (broken : Option String) (w : World C)
        → Ensures
            (store C o artifact path content_length body broken)
            w
            (Final (Delivered artifact))
    unfolding store
    store-Final artifact content_length body broken w =
        Ensures-check (λ r t. r ≡ ok tt → At (tmp_path path) [] t)
          (Ensures-on_disk _ w (Success (Holds (tmp_path path) [])) (create-Holds _ w.disk))
          (λ e t _. set_failure-Final _ artifact _ t)
          λ _ t h.
            Ensures-check (λ r u. (n : ℕ) → r ≡ ok n → At (tmp_path path) body u)
              (Ensures-on_disk _ t (λ r d. (n : ℕ) → r ≡ ok n → Holds (tmp_path path) body d)
                (receive-Holds (tmp_path path) body broken t.disk (h refl)))
              (λ e u _. set_failure-Final _ artifact _ u)
              (λ written u k.
                store_rest-Final artifact body (length_differs content_length written) _ u
                  (k written refl))

    request-Final :
        (artifact : BootArtifact) (w : World C)
        → Ensures (request C o artifact path) w (Final (Delivered artifact))
    unfolding request
    request-Final artifact w = answer (o.fetch artifact.spec.url) refl
      where
        answer :
            (reply : Fetch)
            → o.fetch artifact.spec.url ≡ reply
            → Ensures (request C o artifact path) w (Final (Delivered artifact))
        answer (bad_request text) e = rw (e, request) (set_failure-Final _ artifact _ w)
        answer (no_response text) e = rw (e, request) (set_failure-Final _ artifact _ w)
        answer (response status content_length body broken) e =
            rw (e, request)
              (elim (Bool-cases (status == 200)) [
                | inl fine ↦ rw fine (store-Final artifact content_length body broken w)
                | inr other ↦ rw other (set_failure-Final _ artifact _ w)
              ])

    -- The deferred removal of the temporary file leaves the delivered file.
    pub cleaned-Final :
        (artifact : BootArtifact) (w : World C)
        → Ensures
            (deferring (on_disk {C = C} (remove (tmp_path path))) (request C o artifact path))
            w
            (Final (Delivered artifact))
    unfolding deferring on_disk
    cleaned-Final artifact w = record {
      holds = λ p.
          let (bytes, at, v) = (request-Final artifact w).holds p in
          (
            bytes,
            ap content_of
                  ((remove-Leaves path (tmp_path path) (λ e. tmp_path-ne path (sym e))).at _)
                ∙ at,
            v,
          );
    }
