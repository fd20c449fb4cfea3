-- ===== src/Artifact/Steps.antt =====
-- The steps of a download and what they do to the files, for any relation between disks that the
-- single calls keep.
use isoboot.Prelude.{
  ℕ, String, ◌≡◌, refl, ◌∙◌, ap, [], Option, none, some, Bool, true, false, List, Result, ok,
  Bool-cases, inl, inr, if◌then◌else◌, ◌<>◌, nat_eq,
}
use isoboot.Paths.{FilePath, dir}
use isoboot.Hash.{equal_fold}
use isoboot.Errors.{error_text}
use isoboot.Api.{BootArtifact}
use isoboot.Client.{Client}
use isoboot.Exec.{pure, fail, check}
use isoboot.Exec.Ensures.{
  Ensures, Ensures-check, Follows, Follows-check, Follows-fail, Follows-pure, IsPreorder, onward,
  onward_from, Ensures-both,
}
use isoboot.Disk.{Disk, stat, open_file, read, create, copy, rename, remove, mkdir_all, sync}
use isoboot.Disk.Effects.{content_of, Holds, Success, create-Holds, copy-Holds}
use isoboot.Disk.Frame.{sync-Leaves}
use isoboot.World.{Outside, World, on_disk, no_requeue}
use isoboot.World.Frame.{
  OnDisk, OnDisk-IsPreorder, Follows-on_disk, Follows-on_api, Ensures-on_disk,
}
use isoboot.Artifact.Status.{expected_hash, is_some, digest, set_ready, set_failure, requeue_of}
use isoboot.Artifact.Download.{tmp_path, sync_dir, receive, length_differs, accept, store}

-- The bytes have the digest that the specification names.
abbrev pub Verified : Outside → BootArtifact → List ℕ → Type 0
Verified o artifact bytes =
    equal_fold (digest o (is_some artifact.spec.sha256) bytes) (expected_hash artifact) ≡ true

-- The relation allows every call that a reconciliation makes, the rename only of good bytes.
pub record Allows (R : Disk → Disk → Type 0) (path : FilePath) (good : List ℕ → Type 0)
    : Type 0 where
  pub order : IsPreorder R
  pub stats : Follows R (stat path)
  pub opens : (other : FilePath) → Follows R (open_file other)
  pub reads : (other : FilePath) → Follows R (read other)
  pub makes : Follows R (mkdir_all (dir path))
  pub creates : Follows R (create (tmp_path path))
  pub copies : (bytes : List ℕ) → Follows R (copy (tmp_path path) bytes)
  pub syncs : Follows R sync
  pub removes : Follows R (remove path)
  pub cleans : Follows R (remove (tmp_path path))
  pub renames :
      (bytes : List ℕ) (d : Disk)
      → Holds (tmp_path path) bytes d
      → good bytes
      → R d (rename (tmp_path path) path d).1

module _ {C : Client} (o : Outside) (R : Disk → Disk → Type 0) (p : IsPreorder R) where
  order : IsPreorder (OnDisk {C = C} R)
  order = OnDisk-IsPreorder R p

  requeue_of-Follows : (seconds : Option ℕ) → Follows (OnDisk {C = C} R) (requeue_of C o seconds)
  unfolding requeue_of
  requeue_of-Follows none = Follows-fail _ order _
  requeue_of-Follows (some n) = Follows-pure _ order _

  -- Reports do not touch the disk.
  pub set_failure-Follows :
      (artifact : BootArtifact) (message : String)
      → Follows (OnDisk {C = C} R) (set_failure C o artifact message)
  unfolding set_failure
  set_failure-Follows artifact message =
      Follows-check _ order _ _ _ (Follows-on_api R p _) (λ e. Follows-fail _ order _)
        (λ _. requeue_of-Follows _)

  pub set_ready-Follows :
      (artifact : BootArtifact) → Follows (OnDisk {C = C} R) (set_ready C o artifact)
  unfolding set_ready
  set_ready-Follows artifact =
      Follows-check _ order _ _ _ (Follows-on_api R p _) (λ e. Follows-fail _ order _)
        (λ _. Follows-pure _ order _)

pub receive-Holds :
    (path : FilePath) (body : List ℕ) (broken : Option String) (d : Disk)
    → Holds path [] d
    → Ensures (receive path body broken) d (λ r t. (n : ℕ) → r ≡ ok n → Holds path body t)
unfolding receive
receive-Holds path body none d h =
    Ensures-check (Success (Holds path body)) (copy-Holds path body [] d h)
      (λ e t m. record { holds = λ n q. cc }) (λ _ t m. record { holds = λ n q. m refl })
receive-Holds path body (some text) d h =
    Ensures-check (Success (Holds path body)) (copy-Holds path body [] d h)
      (λ e t m. record { holds = λ n q. cc }) (λ _ t m. record { holds = λ n q. cc })

module _ (C : Client) (o : Outside) (R : Disk → Disk → Type 0) (path : FilePath)
    (good : List ℕ → Type 0) (allows : Allows R path good) where
  abbrev pub W : Type 0
  W = World C

  pub W-order : IsPreorder (OnDisk {C = C} R)
  W-order = OnDisk-IsPreorder R allows.order

  abbrev pub Kept : {A : Type 0} → W → Result A → W → Type 0
  Kept w r t = OnDisk R w t

  pub report-Ensures :
      (w t : W) (artifact : BootArtifact) (message : String)
      → OnDisk R w t
      → Ensures (set_failure C o artifact message) t (Kept w)
  report-Ensures w t artifact message h =
      onward _ W-order w t _ (set_failure-Follows o R allows.order artifact message) h

  sync_dir-Follows : (other : FilePath) → Follows R (sync_dir other)
  unfolding sync_dir
  sync_dir-Follows other =
      Follows-check R allows.order _ _ _ (allows.opens other) (λ e. Follows-fail R allows.order e)
        (λ _. allows.syncs)

  finish-Follows :
      (artifact : BootArtifact)
      → Follows (OnDisk {C = C} R) (check (set_ready C o artifact) fail (λ _. pure no_requeue))
  finish-Follows artifact =
      Follows-check _ W-order _ _ _ (set_ready-Follows o R allows.order artifact)
        (λ e. Follows-fail _ W-order e) (λ _. Follows-pure _ W-order _)

  settle-Follows :
      (artifact : BootArtifact)
      → Follows (OnDisk {C = C} R) (
          check
            (on_disk (sync_dir (dir path)))
            (λ e. set_failure C o artifact ("syncing directory: " <> error_text e))
            (λ _. check (set_ready C o artifact) fail (λ _. pure no_requeue)))
  settle-Follows artifact =
      Follows-check _ W-order _ _ _ (Follows-on_disk R _ (sync_dir-Follows _))
        (λ e. set_failure-Follows o R allows.order artifact _) (λ _. finish-Follows artifact)

  rename-Ensures :
      (body : List ℕ) (w : W)
      → Holds (tmp_path path) body w.disk
      → good body
      → Ensures (on_disk (rename (tmp_path path) path)) w (Kept w)
  rename-Ensures body w h g =
      Ensures-on_disk _ w (λ _ d. R w.disk d) (record { holds = allows.renames body w.disk h g })

  accept-Ensures :
      (artifact : BootArtifact) (body : List ℕ) (w : W)
      → Holds (tmp_path path) body w.disk
      → (Verified o artifact body → good body)
      → Ensures (accept C o artifact path body) w (Kept w)
  unfolding accept
  accept-Ensures artifact body w h g =
      elim (Bool-cases
        (equal_fold (digest o (is_some artifact.spec.sha256) body) (expected_hash artifact))) [
          | inl e ↦
              rw (e, accept)
                (Ensures-check (Kept w) (rename-Ensures body w h (g e))
                  (λ e' t k. report-Ensures w t artifact _ k)
                  (λ _ t k. onward _ W-order w t _ (settle-Follows artifact) k))
          | inr e ↦ rw (e, accept) (report-Ensures w w artifact _ (W-order.same w))
        ]

  receive-Follows :
      (body : List ℕ) (broken : Option String) → Follows R (receive (tmp_path path) body broken)
  unfolding receive
  receive-Follows body none =
      Follows-check R allows.order _ _ _ (allows.copies body) (λ e. Follows-fail R allows.order e)
        (λ _. Follows-pure R allows.order _)
  receive-Follows body (some text) =
      Follows-check R allows.order _ _ _ (allows.copies body) (λ e. Follows-fail R allows.order e)
        (λ _. Follows-fail R allows.order _)

  -- The temporary file holds all that was received.
  abbrev Staged : List ℕ → W → Type 0
  Staged body w = Holds (tmp_path path) body w.disk

  sync-Staged :
      (body : List ℕ) (w t : W)
      → OnDisk R w t
      → Staged body t
      → Ensures (on_disk {C = C} sync) t (λ _ u. OnDisk R w u × Staged body u)
  sync-Staged body w t h k =
      Ensures-both _ _ (onward _ W-order w t _ (Follows-on_disk R sync allows.syncs) h) (
        Ensures-on_disk _ t (λ _ d. Holds (tmp_path path) body d)
          (record { holds = ap content_of ((sync-Leaves (tmp_path path)).at t.disk) ∙ k }))

  close-Ensures :
      (artifact : BootArtifact) (body : List ℕ) (w t : W)
      → (Verified o artifact body → good body)
      → OnDisk R w t × Staged body t
      → Ensures
          (check
            (on_disk sync)
            (λ e. set_failure C o artifact ("closing temp file: " <> error_text e))
            (λ _. accept C o artifact path body))
          t
          (Kept w)
  close-Ensures artifact body w t g (h, k) =
      Ensures-check _ (sync-Staged body w t h k) (λ e u m. report-Ensures w u artifact _ m.0)
        (λ _ u m. onward_from _ W-order w u _ (accept-Ensures artifact body u m.1 g) m.0)

  store_rest-Ensures :
      (artifact : BootArtifact) (body : List ℕ) (differs : Bool) (message : String) (w t : W)
      → (Verified o artifact body → good body)
      → OnDisk R w t × Staged body t
      → Ensures
          (if differs
            then set_failure C o artifact message
            else check
                (on_disk sync)
                (λ e. set_failure C o artifact ("syncing temp file: " <> error_text e))
                (λ _.
                  check
                    (on_disk sync)
                    (λ e. set_failure C o artifact ("closing temp file: " <> error_text e))
                    (λ _. accept C o artifact path body)))
          t
          (Kept w)
  store_rest-Ensures artifact body true message w t g (h, k) = report-Ensures w t artifact message h
  store_rest-Ensures artifact body false message w t g (h, k) =
      Ensures-check _ (sync-Staged body w t h k) (λ e u m. report-Ensures w u artifact _ m.0)
        (λ _ u m. close-Ensures artifact body w u g m)

  receive-Staged :
      (body : List ℕ) (broken : Option String) (w t : W)
      → OnDisk R w t
      → Staged [] t
      → Ensures
          (on_disk {C = C} (receive (tmp_path path) body broken))
          t
          (λ r u. OnDisk R w u × ((n : ℕ) → r ≡ ok n → Staged body u))
  receive-Staged body broken w t h k =
      Ensures-both _ _
        (onward _ W-order w t _ (Follows-on_disk R _ (receive-Follows body broken)) h)
        (Ensures-on_disk _ t (λ r d. (n : ℕ) → r ≡ ok n → Holds (tmp_path path) body d)
          (receive-Holds (tmp_path path) body broken t.disk k))

  pub store-Ensures :
      (artifact : BootArtifact) (content_length : Option ℕ) (body : List ℕ) (broken : Option String)
      (w : W)
      → (Verified o artifact body → good body)
      → Ensures (store C o artifact path content_length body broken) w (Kept w)
  unfolding store
  store-Ensures artifact content_length body broken w g =
      Ensures-check (λ r t. OnDisk R w t × (r ≡ ok tt → Staged [] t))
        (Ensures-both _ _
          (onward _ W-order w w _ (Follows-on_disk R _ allows.creates) (W-order.same w))
          (Ensures-on_disk _ w (Success (Holds (tmp_path path) [])) (create-Holds _ w.disk)))
        (λ e t m. report-Ensures w t artifact _ m.0)
        λ _ t m.
          Ensures-check _ (receive-Staged body broken w t m.0 (m.1 refl))
            (λ e u n. report-Ensures w u artifact _ n.0)
            (λ written u n.
              store_rest-Ensures artifact body (length_differs content_length written) _ w u g
                (n.0, n.1 written refl))
