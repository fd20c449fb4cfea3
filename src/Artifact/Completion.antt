-- ===== src/Artifact/Completion.antt =====
-- A reconciliation completes where nothing is in its way: the API server takes every status, the HTTP
-- server sends the right bytes, and no call of the operating system fails.
use isoboot.Prelude.{
  ℕ, String, ◌<>◌, ◌≡◌, ◌≢◌, refl, ◌∙◌, ap, sym, subst, ◌⊎◌, Option, none, some, false, List, [],
  ◌∷◌, length, Error, Result, ok, err, nat_eq, arith,
}
use isoboot.Paths.{FilePath, dir}
use isoboot.Errors.{error_text}
use isoboot.Api.{BootArtifact, BootArtifactSpec, ObjectKey, artifact_phase_eq}
use isoboot.Client.{Client}
use isoboot.Exec.{check, deferring, annotate}
use isoboot.Exec.Ensures.{Ensures, Ensures-check}
use isoboot.Disk.{Disk, Os, Node, File, file, directory, create, copy, rename, sync, mkdir_all}
use isoboot.Disk.Frame.{
  Leaves, create-Leaves, copy-Leaves, rename-Leaves, sync-Leaves, mkdir_all-Leaves,
}
use isoboot.Disk.Effects.{Holds, content_of, create-Holds, copy-Holds}
use isoboot.Disk.Quiet.{
  Quiet, Holds-IsFile, OpenWay, mkdir_all-Made, IsDirectory, IsFree, Passes, sync-Passes,
  create-Passes, copy-Passes, rename-Passes, open_directory-Opens, Opens,
}
use isoboot.World.{Outside, World, Requeue, no_requeue, on_disk, on_api, response}
use isoboot.World.Frame.{Ensures-on_disk}
use isoboot.Artifact.Status.{set_ready, set_failure, expected_hash}
use isoboot.Artifact.Download.{
  key_of, tmp_path, sync_dir, receive, length_differs, accept, store, request, download,
}
use isoboot.Artifact.Steps.{Verified}
use isoboot.Artifact.Files.{IsStable, tmp_path-ne}
use isoboot.Disk.Tree.{below-false}

abbrev pub Ok : {A : Type 0} → Result A → Type 0
Ok r = (a : _) × (r ≡ ok a)

module _ (base name : String) (up : FilePath) where
  abbrev path : FilePath
  path = base ∷ name ∷ up

  abbrev place : FilePath
  place = name ∷ up

  abbrev tmp : FilePath
  tmp = tmp_path path

  -- The directory is there and the file's place is free.
  abbrev Ground : Disk → Type 0
  Ground d = Quiet d × IsDirectory place d × IsFree path d

  place-ne : place ≢ path
  place-ne e = absurd (omega (arith, ap length e))

  place-ne_tmp : place ≢ tmp
  unfolding tmp_path
  place-ne_tmp e = absurd (omega (arith, ap length e))

  -- A call that succeeds and leaves both.
  keep-Ground :
      {A : Type 0} (m : Os A) (d : Disk)
      → Leaves place m
      → Leaves path m
      → Ensures m d Passes
      → Ground d
      → Ensures m d (λ r t. Ok r × Ground t)
  keep-Ground m d h k p (q, l, f) = record {
    holds = (
      p.holds.0,
      (
        p.holds.1,
        subst (λ (n : Option Node). (m : ℕ) × (n ≡ some (directory m))) (sym (h.at d)) l,
        subst (λ (n : Option Node). (n ≡ none) ⊎ ((g : File) × (n ≡ some (file g)))) (sym (k.at d))
            f,
      ),
    );
  }

  -- The temporary file has the bytes.
  abbrev Staged : List ℕ → Disk → Type 0
  Staged bytes d = Ground d × Holds tmp bytes d

  create-Staged :
      (d : Disk) → Ground d → IsFree tmp d → Ensures (create tmp) d (λ r t. Ok r × Staged [] t)
  unfolding tmp_path
  create-Staged d g f =
      let kept =
        keep-Ground (create tmp) d (create-Leaves place tmp place-ne_tmp)
          (create-Leaves path tmp (λ e. tmp_path-ne path (sym e))) (create-Passes tmp d g.0 f g.1)
          g in
      let (_, same) = kept.holds.0 in
      record { holds = (kept.holds.0, (kept.holds.1, (create-Holds tmp d).holds same)) }

  copy-Staged :
      (body : List ℕ) (d : Disk)
      → Staged [] d
      → Ensures (copy tmp body) d (λ r t. Ok r × Staged body t)
  copy-Staged body d (g, h) =
      let kept =
        keep-Ground (copy tmp body) d (copy-Leaves place tmp place-ne_tmp body)
          (copy-Leaves path tmp (λ e. tmp_path-ne path (sym e)) body) (copy-Passes tmp body d g.0)
          g in
      let (_, same) = kept.holds.0 in
      record { holds = (kept.holds.0, (kept.holds.1, (copy-Holds tmp body [] d h).holds same)) }

  receive-Staged :
      (body : List ℕ) (d : Disk)
      → Staged [] d
      → Ensures (receive tmp body none) d (λ r t. (r ≡ ok (length body)) × Staged body t)
  unfolding receive
  receive-Staged body d h =
      Ensures-check (λ r t. Ok r × Staged body t) (copy-Staged body d h) (λ e t (k, _). absurd (cc))
        (λ _ t (_, k). record { holds = (refl, k) })

  sync-Staged :
      (body : List ℕ) (d : Disk) → Staged body d → Ensures sync d (λ r t. Ok r × Staged body t)
  sync-Staged body d (g, h) =
      let kept = keep-Ground sync d (sync-Leaves place) (sync-Leaves path) (sync-Passes d g.0) g in
      record { holds = (kept.holds.0, (kept.holds.1, ap content_of ((sync-Leaves tmp).at d) ∙ h)) }

  -- After the rename the directory is still there.
  rename-Passes_place :
      (body : List ℕ) (d : Disk)
      → Staged body d
      → Ensures (rename tmp path) d (λ r t. Ok r × Quiet t × IsDirectory place t)
  rename-Passes_place body d (g, h) =
      let passed = rename-Passes tmp path d g.0 (Holds-IsFile tmp body d h) g.2 in
      record {
        holds = (
          passed.holds.0,
          passed.holds.1,
          subst (λ (n : Option Node). (m : ℕ) × (n ≡ some (directory m)))
              (sym ((rename-Leaves place tmp path place-ne_tmp place-ne).at d)) g.1,
        );
      }

  sync_dir-Ok :
      (d : Disk) → Quiet d → IsDirectory place d → Ensures (sync_dir place) d (λ r t. Ok r)
  unfolding sync_dir
  sync_dir-Ok d q l =
      Ensures-check (Opens place) (open_directory-Opens place d q l) (λ e t k. absurd (cc))
        (λ p t k. record { holds = (sync-Passes t k.1).holds.0 })

-- The API server has the artifact, and takes every status of it.
pub record IsServing (C : Client) (wanted : BootArtifact) : Type 0 where
  pub gets : (s : C.State) → Ok (C.get_boot_artifact (key_of wanted) s).0
  pub takes : (a : BootArtifact) (s : C.State) → (C.update_artifact_status a s).0 ≡ ok tt

-- The HTTP server sends the whole body, with the right digest and length.
pub record IsOffered (o : Outside) (wanted : BootArtifact) : Type 0 where
  pub content_length : Option ℕ
  pub body : List ℕ
  pub sent : o.fetch wanted.spec.url ≡ response 200 content_length body none
  pub fits : length_differs content_length (length body) ≡ false
  pub verified : Verified o wanted body

abbrev pub Completes : {C : Client} → Result Requeue → World C → Type 0
Completes r t = r ≡ ok no_requeue

module _ (C : Client) (o : Outside) (wanted : BootArtifact) (serving : IsServing C wanted)
    (base name : String) (up : FilePath) where
  pub set_ready-Ok :
      (artifact : BootArtifact) (w : World C)
      → Ensures (set_ready C o artifact) w (λ r t. r ≡ ok tt)
  unfolding set_ready annotate on_api
  set_ready-Ok artifact w =
      Ensures-check (λ r t. r ≡ ok tt) (record { holds = serving.takes _ w.api })
        (λ e t k. absurd (cc)) (λ a t k. record { holds = refl })

  accept-Completes :
      (artifact : BootArtifact) (body : List ℕ) (w : World C)
      → Verified o artifact body
      → Staged base name up body w.disk
      → Ensures (accept C o artifact (base ∷ name ∷ up) body) w Completes
  unfolding accept
  accept-Completes artifact body w v h =
      rw (v, accept)
        (Ensures-check (λ r t. Ok r × Quiet t.disk × IsDirectory (name ∷ up) t.disk)
          (Ensures-on_disk _ w (λ r d. Ok r × Quiet d × IsDirectory (name ∷ up) d)
            (rename-Passes_place base name up body w.disk h))
          (λ e t k. absurd (cc))
          (λ _ t k.
            Ensures-check (λ r u. Ok r)
              (Ensures-on_disk _ t (λ r d. Ok r) (sync_dir-Ok base name up t.disk k.1 k.2))
              (λ e u l. absurd (cc))
              (λ _ u l.
                Ensures-check (λ r v. r ≡ ok tt) (set_ready-Ok artifact u) (λ e v m. absurd (cc))
                  (λ _ v m. record { holds = refl }))))

  store-Completes :
      (artifact : BootArtifact) (n : Option ℕ) (body : List ℕ) (w : World C)
      → Verified o artifact body
      → length_differs n (length body) ≡ false
      → Ground base name up w.disk
      → IsFree (tmp_path (base ∷ name ∷ up)) w.disk
      → Ensures (store C o artifact (base ∷ name ∷ up) n body none) w Completes
  unfolding store
  store-Completes artifact n body w good fits g f =
      Ensures-check (λ r t. Ok r × Staged base name up [] t.disk)
        (Ensures-on_disk _ w (λ r d. Ok r × Staged base name up [] d)
          (create-Staged base name up w.disk g f))
        (λ e t k. absurd (cc))
        (λ _ t k.
          Ensures-check (λ r u. (r ≡ ok (length body)) × Staged base name up body u.disk)
            (Ensures-on_disk _ t (λ r d. (r ≡ ok (length body)) × Staged base name up body d)
              (receive-Staged base name up body t.disk k.1))
            (λ e u l. absurd (cc)) (λ written u l. rw (differs written l.0) (synced u l.1)))
    where
      same_length :
          (written : ℕ) → ◌≡◌ {A = Result ℕ} (ok written) (ok (length body)) → length body ≡ written
      same_length written e = cc

      differs :
          (written : ℕ)
          → ◌≡◌ {A = Result ℕ} (ok written) (ok (length body))
          → length_differs n written ≡ false
      differs written e = subst (λ (k : ℕ). length_differs n k ≡ false) (same_length written e) fits

      sync_on :
          (u : World C)
          → Staged base name up body u.disk
          → Ensures (on_disk {C = C} sync) u (λ r t. Ok r × Staged base name up body t.disk)
      sync_on u l =
          Ensures-on_disk sync u (λ r d. Ok r × Staged base name up body d)
            (sync-Staged base name up body u.disk l)

      synced :
          (u : World C)
          → Staged base name up body u.disk
          → Ensures
              (check
                (on_disk sync)
                (λ e. set_failure C o artifact ("syncing temp file: " <> error_text e))
                (λ _.
                  check
                    (on_disk sync)
                    (λ e. set_failure C o artifact ("closing temp file: " <> error_text e))
                    (λ _. accept C o artifact (base ∷ name ∷ up) body)))
              u
              Completes
      synced u l =
          Ensures-check _ (sync_on u l) (λ e v m. absurd (cc))
            (λ _ v m.
              Ensures-check _ (sync_on v m.1) (λ e x q. absurd (cc))
                (λ _ x q. accept-Completes artifact body x good q.1))

-- A file can be put at the path: the way up to it is open, and neither it nor its temporary file is a
-- directory or a link; and no call fails.
abbrev pub HasRoom : FilePath → Disk → Type 0
HasRoom path d = Quiet d × OpenWay (dir path) d × IsFree path d × IsFree (tmp_path path) d

module _ (C : Client) (o : Outside) (wanted : BootArtifact) (serving : IsServing C wanted)
    (stable : IsStable C wanted) (offered : IsOffered o wanted) (base name : String)
    (up : FilePath) where
  abbrev own : FilePath
  own = base ∷ name ∷ up

  request-Completes :
      (artifact : BootArtifact) (w : World C)
      → artifact.spec ≡ wanted.spec
      → Ground base name up w.disk
      → IsFree (tmp_path own) w.disk
      → Ensures (request C o artifact own) w Completes
  unfolding request expected_hash nat_eq
  request-Completes artifact w spec g f =
      rw (ap (λ (s : BootArtifactSpec). o.fetch s.url) spec ∙ offered.sent, request)
        (store-Completes C o wanted serving base name up artifact offered.content_length
          offered.body w
          (subst (λ (s : BootArtifactSpec). Verified o (record artifact { spec = s }) offered.body)
            (sym spec) offered.verified)
          offered.fits g f)

  mkdir-Ground :
      (d : Disk)
      → HasRoom own d
      → Ensures
          (mkdir_all (name ∷ up))
          d
          (λ r t. Ok r × Ground base name up t × IsFree (tmp_path own) t)
  unfolding tmp_path
  mkdir-Ground d (q, way, f, g) =
      let made = (mkdir_all-Made name up d q way).holds in
      record {
        holds = (
          (tt, made.0),
          (
            made.1,
            made.2,
            subst (λ (n : Option Node). (n ≡ none) ⊎ ((g : File) × (n ≡ some (file g))))
                (sym (
                  (mkdir_all-Leaves own (name ∷ up) (below-false own (name ∷ up) (omega arith))).at
                    d))
                f,
          ),
          subst (λ (n : Option Node). (n ≡ none) ⊎ ((g : File) × (n ≡ some (file g))))
              (sym (
                (mkdir_all-Leaves (tmp_path own) (name ∷ up)
                    (below-false (tmp_path own) (name ∷ up) (omega arith))).at
                  d))
              g,
        );
      }

  pub download-Completes :
      (artifact : BootArtifact) (w : World C)
      → key_of artifact ≡ key_of wanted
      → HasRoom own w.disk
      → Ensures (download C o artifact own) w Completes
  unfolding download on_api deferring
  download-Completes artifact w same room =
      Ensures-check (λ r t. (r ≡ ok tt) × HasRoom own t.disk)
        (record { holds = (serving.takes _ w.api, room) }) (λ e t k. absurd (cc))
        (λ _ t k.
          Ensures-check
            (λ r u. (r ≡ (C.get_boot_artifact (key_of wanted) t.api).0) × HasRoom own u.disk)
            (record {
              holds = (ap (λ (key : ObjectKey). (C.get_boot_artifact key t.api).0) same, k.1);
            })
            (λ e u l. absurd (ne_err (serving.gets t.api) l.0))
            (λ fresh u l.
              Ensures-check
                (λ r v. Ok r × Ground base name up v.disk × IsFree (tmp_path own) v.disk)
                (Ensures-on_disk _ u (λ r d. Ok r × Ground base name up d × IsFree (tmp_path own) d)
                  (mkdir-Ground u.disk l.1))
                (λ e v m. absurd (cc))
                (λ _ v m. record {
                  holds =
                      (request-Completes fresh v (stable.at t.api fresh (sym l.0)).2 m.1 m.2).holds;
                })))
    where
      ne_err : {r : Result BootArtifact} {e : Error} → Ok r → err e ≡ r → ⊥
      ne_err (a, p) q = cc
