-- ===== src/Artifact/Progress.antt =====
-- A reconciliation of an artifact comes to its end where nothing is in its way, whether its file is
-- missing, whole or damaged (internal/controller/bootartifact_controller.go).
use isoboot.Prelude.{
  String, ◌<>◌, ◌≡◌, refl, ◌∙◌, ap, sym, subst, ◌⊎◌, inl, inr, Option, none, some, Bool, true,
  false, [], ◌∷◌, length, Error, Result, ok, err, if◌then◌else◌, ◌==◌, arith, Bool-cases, lookup,
  texts_eq,
}
use isoboot.Paths.{FilePath, dir}
use isoboot.Paths.Safety.{IsName, join-IsName}
use isoboot.Url.Laws.{filename_from_url-IsName}
use isoboot.Url.{filename_from_url}
use isoboot.Config.Places.{artifacts-IsName}
use isoboot.Errors.{error_text, is_not_exist}
use isoboot.Hash.{equal_fold}
use isoboot.Api.{BootArtifact, BootArtifactPhase, artifact_phase_eq}
use isoboot.Client.{Client}
use isoboot.Exec.{Exec, pure, fail, check, ignoring, ◌>>=◌}
use isoboot.Exec.Ensures.{Ensures, Ensures-check}
use isoboot.Disk.{Disk, Node, File, file, stat, read, remove}
use isoboot.Disk.Frame.{node_at, Same, remove-Leaves}
use isoboot.Disk.Reads.{SameNodes, stat-SameNodes, open_file-SameNodes, read-SameNodes}
use isoboot.Disk.Quiet.{
  Quiet, OpenWay-Same, IsFile, Passes, Opens, stat-file, stat-IsMissing, IsMissing, open_file-Opens,
  read-Passes, remove-Quiet, remove-frees,
}
use isoboot.World.{Outside, World, Requeue, no_requeue, on_disk, on_api, record_event}
use isoboot.World.Frame.{Ensures-on_disk}
use isoboot.Artifact.{hash_file, file_path, verify_existing, reconcile_found, reconcile}
use isoboot.Artifact.Status.{set_ready, set_failure, expected_hash, is_some}
use isoboot.Artifact.Download.{key_of, tmp_path, download}
use isoboot.Artifact.Files.{IsStable, tmp_path-ne, file_path_of_spec}
use isoboot.Artifact.Verify.{IsDelivered}
use isoboot.Artifact.Delivery.{reconcile-IsDelivered}
use isoboot.Artifact.Completion.{
  Ok, IsServing, IsOffered, HasRoom, Completes, download-Completes, set_ready-Ok,
}

-- Room is a matter of what stands at the paths.
HasRoom-Same :
    (path : FilePath) (d t : Disk)
    → Quiet t
    → ((p : FilePath) → Same p d t)
    → HasRoom path d
    → HasRoom path t
HasRoom-Same path d t q h (_, way, f, g) = (
  q,
  OpenWay-Same (dir path) d t (λ p _. h p) way,
  subst (λ (n : Option Node). (n ≡ none) ⊎ ((k : File) × (n ≡ some (file k)))) (sym (h path)) f,
  subst (λ (n : Option Node). (n ≡ none) ⊎ ((k : File) × (n ≡ some (file k))))
      (sym (h (tmp_path path))) g,
)

Same_of_SameNodes : (d t : Disk) → SameNodes d t → (p : FilePath) → Same p d t
Same_of_SameNodes d t h p = λ i. lookup p (h i)

-- A file that is removed leaves room for another.
remove-HasRoom :
    (base name : String) (up : FilePath) (d : Disk)
    → IsFile (base ∷ name ∷ up) d
    → HasRoom (base ∷ name ∷ up) d
    → HasRoom (base ∷ name ∷ up) (remove (base ∷ name ∷ up) d).1
remove-HasRoom base name up d found (q, way, f, g) =
    let own : FilePath = base ∷ name ∷ up in
    (
      remove-Quiet own d q,
      OpenWay-Same (name ∷ up) d (remove own d).1
          (λ p short. (remove-Leaves p own (λ e. absurd (omega (arith, ap length e, short)))).at d)
          way,
      inl (remove-frees own d q found),
      subst (λ (n : Option Node). (n ≡ none) ⊎ ((k : File) × (n ≡ some (file k))))
          (sym ((remove-Leaves (tmp_path own) own (tmp_path-ne own)).at d)) g,
    )

-- A file is hashed without a change of the disk.
hash_file-Ok :
    (o : Outside) (path : FilePath) (use_sha256 : Bool) (d : Disk)
    → Quiet d
    → IsFile path d
    → Ensures (hash_file o path use_sha256) d (λ r t. Ok r × Quiet t × SameNodes d t)
unfolding hash_file
hash_file-Ok o path use_sha256 d q (f, e) =
    Ensures-check (λ r t. Opens path r t × SameNodes d t)
      (record {
        holds = ((open_file-Opens path d q (f, e)).holds, (open_file-SameNodes path).at d);
      })
      (λ x t k. absurd (cc))
      (λ p t k.
        Ensures-check (λ r u. Passes r u × SameNodes d u)
          (record {
            holds =
                ((reads p t k.0.1 (file_at p t k.0.0 k.1)).holds, (read-SameNodes p).at t ∙ k.1);
          })
          (λ x u l. absurd (cc)) (λ bytes u l. record { holds = ((_, refl), l.0.1, l.1) }))
  where
    reads : (p : FilePath) (t : Disk) → Quiet t → IsFile p t → Ensures (read p) t Passes
    reads p t h k = read-Passes p t h k

    ok-path : {p : FilePath} → ◌≡◌ {A = Result FilePath} (ok p) (ok path) → p ≡ path
    ok-path same = cc

    file_at :
        (p : FilePath) (t : Disk)
        → ◌≡◌ {A = Result FilePath} (ok p) (ok path)
        → SameNodes d t
        → IsFile p t
    file_at p t same nodes =
        (f, ap (node_at t) (ok-path same) ∙ Same_of_SameNodes d t nodes path ∙ e)

-- Either the file is the artifact's, or there is room for it.
abbrev Settled : {C : Client} → FilePath → Result Bool → World C → Type 0
Settled path (ok true) t = Unit
Settled path (ok false) t = HasRoom path t.disk
Settled path (err e) t = ⊥

module _ (C : Client) (o : Outside) (wanted : BootArtifact) (serving : IsServing C wanted)
    (stable : IsStable C wanted) (offered : IsOffered o wanted) (base name : String)
    (up : FilePath) where
  abbrev own : FilePath
  own = base ∷ name ∷ up

  whole-Settled :
      (artifact : BootArtifact) (w : World C)
      → Ensures
          (if artifact.status.phase == BootArtifactPhase.ready
            then pure true
            else (set_ready C o artifact >>= λ _. pure true))
          w
          (Settled own)
  whole-Settled artifact w = elim (Bool-cases (artifact.status.phase == BootArtifactPhase.ready)) [
    | inl e ↦ rw e (record { holds = tt })
    | inr e ↦ rw e (
        Ensures-check (λ r t. r ≡ ok tt) (set_ready-Ok C o wanted serving base name up artifact w)
          (λ x t k. absurd (cc)) (λ _ t k. record { holds = tt }))
  ]

  damaged-Settled :
      (text : String) (w : World C)
      → IsFile own w.disk
      → HasRoom own w.disk
      → Ensures
          (ignoring
            (record_event o.has_recorder text)
            (ignoring (on_disk (remove own)) (pure false)))
          w
          (Settled own)
  unfolding record_event on_disk
  damaged-Settled text w f h =
      Ensures-check (λ r t. IsFile own t.disk × HasRoom own t.disk) (record { holds = (f, h) })
        (λ x t k. cleared t k) (λ _ t k. cleared t k)
    where
      cleared :
          (t : World C)
          → IsFile own t.disk × HasRoom own t.disk
          → Ensures (ignoring (on_disk (remove own)) (pure false)) t (Settled own)
      cleared t (f, h) =
          Ensures-check (λ r u. HasRoom own u.disk)
            (record { holds = remove-HasRoom base name up t.disk f h })
            (λ x u k. record { holds = k }) (λ _ u k. record { holds = k })

  verify_existing-Settled :
      (artifact : BootArtifact) (w : World C)
      → IsFile own w.disk
      → HasRoom own w.disk
      → Ensures (verify_existing C o artifact own) w (Settled own)
  unfolding verify_existing
  verify_existing-Settled artifact w (f, e) room =
      Ensures-check (λ r t. Ok r × Quiet t.disk × SameNodes w.disk t.disk)
        (Ensures-on_disk _ w (λ r d. Ok r × Quiet d × SameNodes w.disk d)
          (hash_file-Ok o own (is_some artifact.spec.sha256) w.disk room.0 (f, e)))
        (λ x t k. absurd (cc))
        (λ computed t k. elim (Bool-cases (equal_fold computed (expected_hash artifact))) [
          | inl same ↦ rw same (whole-Settled artifact t)
          | inr other ↦ rw other (
              damaged-Settled _ t (f, Same_of_SameNodes w.disk t.disk k.2 own ∙ e)
                (HasRoom-Same own w.disk t.disk k.1 (Same_of_SameNodes w.disk t.disk k.2) room))
        ])

  settled-Completes :
      (artifact : BootArtifact) (valid : Bool) (w : World C)
      → key_of artifact ≡ key_of wanted
      → Settled own (ok valid) w
      → Ensures (if valid then pure no_requeue else download C o artifact own) w Completes
  settled-Completes artifact true w same h = record { holds = refl }
  settled-Completes artifact false w same h =
      download-Completes C o wanted serving stable offered base name up artifact w same h

  -- `Reconcile` once the artifact is read, at its path.
  abbrev reconcile_at : BootArtifact → Exec (World C) Requeue
  reconcile_at artifact =
      check (on_disk (stat own))
        (λ e.
          if is_not_exist e
          then download C o artifact own
          else set_failure C o artifact ("stat file: " <> error_text e))
        (λ _.
          check (verify_existing C o artifact own) fail
            (λ valid. if valid then pure no_requeue else download C o artifact own))

  missing-Completes :
      (artifact : BootArtifact) (w : World C)
      → key_of artifact ≡ key_of wanted
      → HasRoom own w.disk
      → node_at w.disk own ≡ none
      → Ensures (reconcile_at artifact) w Completes
  missing-Completes artifact w same room e =
      Ensures-check (λ r t. IsMissing w.disk r t.disk)
        (Ensures-on_disk _ w (IsMissing w.disk) (stat-IsMissing own w.disk room.0 e))
        (λ x t k. rw (k.0) (
          download-Completes C o wanted serving stable offered base name up artifact t same
            (subst (HasRoom own) (sym k.1) room)))
        (λ _ t k. absurd k)

  present-Completes :
      (artifact : BootArtifact) (w : World C)
      → key_of artifact ≡ key_of wanted
      → HasRoom own w.disk
      → IsFile own w.disk
      → Ensures (reconcile_at artifact) w Completes
  present-Completes artifact w same room (f, e) =
      Ensures-check (λ r t. Passes r t.disk × SameNodes w.disk t.disk)
        (Ensures-on_disk _ w (λ r d. Passes r d × SameNodes w.disk d)
          (record {
            holds = ((stat-file own w.disk room.0 (f, e)).holds, (stat-SameNodes own).at w.disk);
          }))
        (λ x t k. absurd (cc))
        (λ _ t k.
          Ensures-check (Settled own)
            (verify_existing-Settled artifact t (f, Same_of_SameNodes w.disk t.disk k.1 own ∙ e)
              (HasRoom-Same own w.disk t.disk k.0.1 (Same_of_SameNodes w.disk t.disk k.1) room))
            (λ x u l. absurd l) (λ valid u l. settled-Completes artifact valid u same l))

module _ (C : Client) (o : Outside) (data_dir : FilePath) (wanted : BootArtifact)
    (serving : IsServing C wanted) (stable : IsStable C wanted) (offered : IsOffered o wanted)
    (named : IsName wanted.meta.name) where
  file_path-place :
      file_path o data_dir wanted
      ≡ filename_from_url o.url_path wanted.spec.url ∷ wanted.meta.name ∷ "artifacts" ∷ data_dir
  unfolding file_path
  file_path-place =
      join-IsName data_dir
        ("artifacts" ∷ wanted.meta.name ∷ filename_from_url o.url_path wanted.spec.url ∷ [])
        (artifacts-IsName, (named, (filename_from_url-IsName o.url_path wanted.spec.url, tt)))

  abbrev place : FilePath
  place = filename_from_url o.url_path wanted.spec.url ∷ wanted.meta.name ∷ "artifacts" ∷ data_dir

  found :
      (a : BootArtifact) (t : World C)
      → file_path o data_dir a ≡ place
      → key_of a ≡ key_of wanted
      → HasRoom place t.disk
      → Ensures (reconcile_found C o data_dir a) t Completes
  unfolding reconcile_found
  found a t path same room =
      rw (path, reconcile_found)
        (elim room.2 [
          | inl e ↦
              missing-Completes C o wanted serving stable offered
                (filename_from_url o.url_path wanted.spec.url) wanted.meta.name
                ("artifacts" ∷ data_dir) a t same room e
          | inr f ↦
              present-Completes C o wanted serving stable offered
                (filename_from_url o.url_path wanted.spec.url) wanted.meta.name
                ("artifacts" ∷ data_dir) a t same room f
        ])

  reconcile-Completes :
      (w : World C)
      → HasRoom (file_path o data_dir wanted) w.disk
      → (reconcile C o data_dir (key_of wanted) w).0 ≡ ok no_requeue
  unfolding reconcile on_api
  reconcile-Completes w room =
      (Ensures-check {post = Completes}
        (λ r t. (r ≡ (C.get_boot_artifact (key_of wanted) w.api).0) × (t.disk ≡ w.disk))
        (record { holds = (refl, refl) }) (λ e t k. absurd (ne_err (serving.gets w.api) k.0))
        (λ a t k.
          let (same_name, namespace, spec) = stable.at w.api a (sym k.0) in
          found a t
            (file_path_of_spec C o data_dir wanted stable a same_name spec ∙ file_path-place)
            (λ i. record { name = same_name i; namespace = namespace i })
            (subst (λ (d : Disk). HasRoom place d) (sym k.1)
              (subst (λ (p : FilePath). HasRoom p w.disk) file_path-place room)))).holds
    where
      ne_err : {r : Result BootArtifact} {e : Error} → Ok r → err e ≡ r → ⊥
      ne_err (a, p) q = cc

  -- Where the API server takes every status, the artifact's specification is not edited meanwhile, the
  -- HTTP server sends the whole body with the right digest, no call of the operating system fails, and
  -- there is room for the file, a reconciliation comes to its end with success, whether the file was
  -- missing, whole or damaged, and opening the artifact's path then reads bytes with the digest that
  -- the specification names.
  pub reconcile-delivers :
      (w : World C)
      → HasRoom (file_path o data_dir wanted) w.disk
      → ((reconcile C o data_dir (key_of wanted) w).0 ≡ ok no_requeue)
        × IsDelivered o wanted
            (file_path o data_dir wanted)
            (reconcile C o data_dir (key_of wanted) w).1.disk
  reconcile-delivers w room =
      let (found, there) = serving.gets w.api in
      (
        reconcile-Completes w room,
        reconcile-IsDelivered C o data_dir wanted stable found w there (reconcile-Completes w room),
      )
