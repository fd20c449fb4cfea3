-- ===== src/Artifact/Rest.antt =====
-- A reconciliation of an artifact that is ready and whole does nothing
-- (internal/controller/bootartifact_controller.go).
use mathlib.Core.Option.{some-injective}
use isoboot.Prelude.{
  ℕ, String, ◌≡◌, refl, ◌∙◌, ap, sym, subst, some, Bool, true, List, Result, ok, err, ◌==◌, ==_refl,
  lookup, texts_eq,
}
use isoboot.Paths.{FilePath}
use isoboot.Hash.{equal_fold}
use isoboot.Api.{BootArtifact, BootArtifactPhase, artifact_phase_eq, ObjectKey}
use isoboot.Client.{Client}
use isoboot.Exec.Ensures.{Ensures, Ensures-check}
use isoboot.Disk.{Disk, read}
use isoboot.Disk.Frame.{node_at}
use isoboot.Disk.Content.{content_at}
use isoboot.Disk.Effects.{Holds}
use isoboot.Disk.Reads.{
  SameNodes, stat-SameNodes, open_file-SameNodes, read-SameNodes, read-content,
  content_at-SameNodes,
}
use isoboot.Disk.Quiet.{
  Holds-IsFile, Quiet, IsFile, Passes, Opens, stat-file, open_file-Opens, read-Passes,
}
use isoboot.World.{Outside, World, no_requeue, on_disk, on_api}
use isoboot.Artifact.{hash_file, file_path, verify_existing, reconcile_found, reconcile}
use isoboot.Artifact.Status.{digest, expected_hash, is_some}
use isoboot.Artifact.Steps.{Verified}

-- A regular file is hashed whole.
hash_file-digest :
    (o : Outside) (path : FilePath) (use_sha256 : Bool) (bytes : List ℕ) (d : Disk)
    → Quiet d
    → IsFile path d
    → Holds path bytes d
    → Ensures
        (hash_file o path use_sha256)
        d
        (λ r t. (r ≡ ok (digest o use_sha256 bytes)) × SameNodes d t)
unfolding hash_file
hash_file-digest o path use_sha256 bytes d q (f, e) h =
    Ensures-check (λ r t. Opens path r t × SameNodes d t)
      (record {
        holds = ((open_file-Opens path d q (f, e)).holds, (open_file-SameNodes path).at d);
      })
      (λ x t k. absurd (cc))
      (λ p t k.
        Ensures-check (λ r u. (r ≡ ok bytes) × SameNodes d u)
          (record { holds = (reads p t (ok-path k.0.0) k.0.1 k.1, (read-SameNodes p).at t ∙ k.1) })
          (λ x u l. absurd (cc))
          (λ all u l. record { holds = (ap (λ (r : Result (List ℕ)). hashed r) l.0, l.1) }))
  where
    hashed : Result (List ℕ) → Result String
    hashed (ok all) = ok (digest o use_sha256 all)
    hashed (err x) = err x

    ok-path : {p : FilePath} → ◌≡◌ {A = Result FilePath} (ok p) (ok path) → p ≡ path
    ok-path same = cc

    reads : (p : FilePath) (t : Disk) → p ≡ path → Quiet t → SameNodes d t → (read p t).0 ≡ ok bytes
    reads p t same qt nodes =
        let held : content_at t p ≡ some bytes =
          ap (content_at t) same ∙ content_at-SameNodes path d t nodes ∙ h in
        let ((all, got), _) =
          (read-Passes p t qt (f, ap (node_at t) same ∙ (λ i. lookup path (nodes i)) ∙ e)).holds in
        got
        ∙ ap (λ (xs : List ℕ). ok xs)
            (some-injective all bytes (
              sym (read-content p all t got)
              ∙ content_at-SameNodes p t (read p t).1 ((read-SameNodes p).at t)
              ∙ held))

-- The same files, the same events, and the cluster in the given state.
abbrev pub Untouched : {C : Client} → World C → C.State → World C → Type 0
Untouched w api t = (t.disk.nodes ≡ w.disk.nodes) × (t.events ≡ w.events) × (t.api ≡ api)

module _ (C : Client) (o : Outside) (data_dir : FilePath) (a : BootArtifact) (bytes : List ℕ)
    (ready : a.status.phase ≡ BootArtifactPhase.ready) (verified : Verified o a bytes) where
  abbrev path : FilePath
  path = file_path o data_dir a

  -- The file is there, and no call fails.
  abbrev pub Whole : World C → Type 0
  Whole w = Quiet w.disk × Holds path bytes w.disk

  verify_existing-rest :
      (w : World C)
      → Whole w
      → Ensures (verify_existing C o a path) w (λ r t. (r ≡ ok true) × Untouched w w.api t)
  unfolding verify_existing on_disk
  verify_existing-rest w (q, h) =
      Ensures-check {post = λ r t. (r ≡ ok true) × Untouched w w.api t}
        (λ r t. (r ≡ ok (digest o (is_some a.spec.sha256) bytes)) × Untouched w w.api t)
        (record {
          holds =
              let (same, nodes) =
                (hash_file-digest o path (is_some a.spec.sha256) bytes w.disk q
                  (Holds-IsFile path bytes w.disk h) h).holds in
              (same, (nodes, refl, refl));
        })
        (λ x t k. absurd (cc))
        (λ computed t k.
          rw (accepted computed (same_digest k.0), is_ready) (record { holds = (refl, k.1) }))
    where
      same_digest : {x y : String} → ◌≡◌ {A = Result String} (ok x) (ok y) → x ≡ y
      same_digest e = cc

      accepted :
          (computed : String)
          → computed ≡ digest o (is_some a.spec.sha256) bytes
          → equal_fold computed (expected_hash a) ≡ true
      accepted computed e =
          subst (λ (x : String). equal_fold x (expected_hash a) ≡ true) (sym e) verified

      is_ready : (a.status.phase == BootArtifactPhase.ready) ≡ true
      is_ready =
          ap (λ (p : BootArtifactPhase). p == BootArtifactPhase.ready) ready
          ∙ ==_refl BootArtifactPhase.ready

  reconcile_found-rest :
      (w : World C)
      → Whole w
      → Ensures
          (reconcile_found C o data_dir a)
          w
          (λ r t. (r ≡ ok no_requeue) × Untouched w w.api t)
  unfolding reconcile_found on_disk
  reconcile_found-rest w (q, h) =
      Ensures-check {post = λ r t. (r ≡ ok no_requeue) × Untouched w w.api t}
        (λ r t. Passes r t.disk × Untouched w w.api t)
        (record {
          holds = (
            (stat-file path w.disk q (Holds-IsFile path bytes w.disk h)).holds,
            ((stat-SameNodes path).at w.disk, refl, refl),
          );
        })
        (λ x t k. absurd (cc))
        (λ _ t k.
          Ensures-check {post = λ r u. (r ≡ ok no_requeue) × Untouched w w.api u}
            (λ r u. (r ≡ ok true) × Untouched t t.api u)
            (verify_existing-rest t (k.0.1, content_at-SameNodes path w.disk t.disk k.1.0 ∙ h))
            (λ x u l. absurd (cc))
            (λ valid u l.
              rw (valid_true l.0)
                (record { holds = (refl, (l.1.0 ∙ k.1.0, l.1.1 ∙ k.1.1, l.1.2 ∙ k.1.2)) })))
    where
      valid_true : {b : Bool} → ◌≡◌ {A = Result Bool} (ok b) (ok true) → b ≡ true
      valid_true e = cc

  -- Where an artifact is Ready, its file holds bytes with its digest and no call of the operating system
  -- fails, a reconciliation succeeds and does nothing: no file is changed, no event recorded, no status
  -- written and nothing downloaded.
  pub reconcile-rest :
      (key : ObjectKey) (w : World C)
      → (C.get_boot_artifact key w.api).0 ≡ ok a
      → Whole w
      → let done = reconcile C o data_dir key w in
        (done.0 ≡ ok no_requeue) × Untouched w (C.get_boot_artifact key w.api).1 done.1
  unfolding reconcile on_api
  reconcile-rest key w there whole =
      (Ensures-check
        {post = λ r t. (r ≡ ok no_requeue) × Untouched w (C.get_boot_artifact key w.api).1 t}
        (λ r t.
          (r ≡ ok a)
          × (t.disk ≡ w.disk)
          × (t.events ≡ w.events)
          × (t.api ≡ (C.get_boot_artifact key w.api).1))
        (record { holds = (there, refl, refl, refl) }) (λ x t k. absurd (cc))
        (λ b t k. rw (same_artifact k.0) (record {
          holds =
              let (done, (nodes, events, api)) =
                (reconcile_found-rest t
                  (subst (λ (d : Disk). Quiet d × Holds path bytes d) (sym k.1) whole)).holds in
              (done, (nodes ∙ ap (λ (d : Disk). d.nodes) k.1, events ∙ k.2, api ∙ k.3));
        }))).holds
    where
      same_artifact : {b : BootArtifact} → ◌≡◌ {A = Result BootArtifact} (ok b) (ok a) → b ≡ a
      same_artifact e = cc
