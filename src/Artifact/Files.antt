-- ===== src/Artifact/Files.antt =====
-- Which files a reconciliation of an artifact may change, and to what.
use Prim.Native.String.{count}
use text.Mathlib.TextLemmas.{length-append}
use isoboot.Prelude.{
  ℕ, String, ◌<>◌, ◌≡◌, refl, ◌≢◌, ◌∙◌, sym, ap, some, List, [], ◌∷◌, ok, ◌⊎◌, inl, inr, arith,
  subst, Error, Bool, true, false, if◌then◌else◌,
}
use isoboot.Paths.{FilePath, dir, join}
use isoboot.Url.{filename_from_url}
use isoboot.Api.{ObjectKey, BootArtifact}
use isoboot.Client.{Client}
use isoboot.Errors.{is_not_found}
use isoboot.Exec.{Exec, pure, fail}
use isoboot.Exec.Ensures.{onward_from, Ensures, Ensures-check, Follows, IsPreorder}
use isoboot.Disk.{Disk, remove, rename}
use isoboot.Disk.Frame.{
  Leaves, stat-Leaves, open_file-Leaves, read-Leaves, create-Leaves, copy-Leaves, sync-Leaves,
  remove-Leaves, rename-Leaves,
}
use isoboot.Disk.Content.{
  content_at, SameContent, SameContent-IsPreorder, Leaves-SameContent, mkdir_all-SameContent,
  SameOrGone, remove-SameOrGone, rename-content,
}
use isoboot.World.{Outside, World, on_api, no_requeue}
use isoboot.World.Frame.{OnDisk, OnDisk-IsPreorder}
use isoboot.Artifact.Download.{tmp_path, key_of}
use isoboot.Artifact.Status.{expected_hash}
use isoboot.Artifact.{file_path, reconcile_found, reconcile}
use isoboot.Artifact.Steps.{Verified, Allows}
use isoboot.Artifact.Integrity.{reconcile_found-Ensures}

tmp_name-ne : (name : String) → name <> ".tmp" ≢ name
tmp_name-ne name e = absurd (omega (arith, length-append name ".tmp", ap count e))

-- The temporary file has a path of its own.
pub tmp_path-ne : (path : FilePath) → tmp_path path ≢ path
unfolding tmp_path
tmp_path-ne [] e = cc
tmp_path-ne (name ∷ up) e = tmp_name-ne name (cc)

-- A file that is neither the artifact's nor its temporary file keeps its content.
other_file :
    (path other : FilePath)
    → other ≢ path
    → other ≢ tmp_path path
    → Allows (SameContent other) path (λ _. Unit)
other_file path other h k = record {
  order = SameContent-IsPreorder other;
  stats = Leaves-SameContent other _ (stat-Leaves other path);
  opens = λ p. Leaves-SameContent other _ (open_file-Leaves other p);
  reads = λ p. Leaves-SameContent other _ (read-Leaves other p);
  makes = mkdir_all-SameContent other (dir path);
  creates = Leaves-SameContent other _ (create-Leaves other _ k);
  copies = λ bytes. Leaves-SameContent other _ (copy-Leaves other _ k bytes);
  syncs = Leaves-SameContent other _ (sync-Leaves other);
  removes = Leaves-SameContent other _ (remove-Leaves other _ h);
  cleans = Leaves-SameContent other _ (remove-Leaves other _ k);
  renames = λ bytes d _ _. (Leaves-SameContent other _ (rename-Leaves other _ _ k h)).at d;
}

-- The content stays, or what stands there afterwards is good.
abbrev pub Sound : (List ℕ → Type 0) → FilePath → Disk → Disk → Type 0
Sound good path d d' =
    SameContent path d d' ⊎ ((bytes : List ℕ) → content_at d' path ≡ some bytes → good bytes)

Sound-then :
    (good : List ℕ → Type 0) (path : FilePath) (d e f : Disk)
    → Sound good path d e
    → Sound good path e f
    → Sound good path d f
Sound-then good path d e f h (inr k) = inr k
Sound-then good path d e f (inl h) (inl k) = inl (k ∙ h)
Sound-then good path d e f (inr h) (inl k) = inr (λ bytes p. h bytes (sym k ∙ p))

SameContent-Sound :
    {A : Type 0} (good : List ℕ → Type 0) (path : FilePath) (m : Exec Disk A)
    → Follows (SameContent path) m
    → Follows (Sound good path) m
SameContent-Sound good path m h = record { at = λ d. inl (h.at d) }

SameOrGone-Sound :
    (good : List ℕ → Type 0) (path : FilePath) (d d' : Disk)
    → SameOrGone path d d'
    → Sound good path d d'
SameOrGone-Sound good path d d' (inl h) = inl h
SameOrGone-Sound good path d d' (inr h) = inr (λ bytes p. cc)

rename-Sound :
    (good : List ℕ → Type 0) (path : FilePath) (bytes : List ℕ) (d : Disk)
    → good bytes
    → SameContent path d (rename (tmp_path path) path d).1
      ⊎ (content_at (rename (tmp_path path) path d).1 path ≡ some bytes)
    → Sound good path d (rename (tmp_path path) path d).1
rename-Sound good path bytes d g (inl h) = inl h
rename-Sound good path bytes d g (inr h) = inr (λ found p. subst good (cc) g)

remove-Sound : (good : List ℕ → Type 0) (path : FilePath) → Follows (Sound good path) (remove path)
remove-Sound good path = record {
  at = λ d. SameOrGone-Sound good path d (remove path d).1 ((remove-SameOrGone path).at d);
}

own_file : (path : FilePath) (good : List ℕ → Type 0) → Allows (Sound good path) path good
own_file path good = record {
  order = record { same = λ d. inl refl; then_ = Sound-then good path };
  stats = leaves (stat-Leaves path path);
  opens = λ p. leaves (open_file-Leaves path p);
  reads = λ p. leaves (read-Leaves path p);
  makes = SameContent-Sound good path _ (mkdir_all-SameContent path (dir path));
  creates = leaves (create-Leaves path _ apart);
  copies = λ bytes. leaves (copy-Leaves path _ apart bytes);
  syncs = leaves (sync-Leaves path);
  removes = remove-Sound good path;
  cleans = leaves (remove-Leaves path _ apart);
  renames = λ bytes d h g.
      rename-Sound good path bytes d g (rename-content (tmp_path path) path bytes d h);
}
  where
    apart : path ≢ tmp_path path
    apart e = tmp_path-ne path (sym e)

    leaves : {A : Type 0} {m : Exec Disk A} → Leaves path m → Follows (Sound good path) m
    leaves {m} h = SameContent-Sound good path m (Leaves-SameContent path m h)

-- The object that `Get` returns is the one asked for, and nobody edits its specification meanwhile.
pub record IsStable (C : Client) (wanted : BootArtifact) : Type 0 where
  pub at :
      (s : C.State) (found : BootArtifact)
      → (C.get_boot_artifact (key_of wanted) s).0 ≡ ok found
      → (found.meta.name ≡ wanted.meta.name)
        × (found.meta.namespace ≡ wanted.meta.namespace)
        × (found.spec ≡ wanted.spec)

module _ (C : Client) (o : Outside) (data_dir : FilePath) (wanted : BootArtifact)
    (stable : IsStable C wanted) where
  pub same_spec-Verified :
      (found : BootArtifact) (bytes : List ℕ)
      → found.spec ≡ wanted.spec
      → Verified o found bytes
      → Verified o wanted bytes
  unfolding expected_hash
  same_spec-Verified found bytes e h =
      subst (λ spec. Verified o (record wanted { spec = spec }) bytes) e h

  pub file_path_of_spec :
      (found : BootArtifact)
      → found.meta.name ≡ wanted.meta.name
      → found.spec ≡ wanted.spec
      → file_path o data_dir found ≡ file_path o data_dir wanted
  unfolding file_path
  file_path_of_spec found e f =
      λ i. join data_dir ("artifacts" ∷ e i ∷ filename_from_url o.url_path (f i).url ∷ [])

  module _ (R : Disk → Disk → Type 0) (good : List ℕ → Type 0)
      (allows : Allows R (file_path o data_dir wanted) good)
      (enough : (bytes : List ℕ) → Verified o wanted bytes → good bytes) where
    found-Ensures :
        (found : BootArtifact) (w : World C)
        → found.meta.name ≡ wanted.meta.name
        → found.meta.namespace ≡ wanted.meta.namespace
        → found.spec ≡ wanted.spec
        → Ensures (reconcile_found C o data_dir found) w (λ _ t. OnDisk R w t)
    found-Ensures found w e f g =
        reconcile_found-Ensures C o data_dir R good found
          (subst (λ path. Allows R path good) (sym (file_path_of_spec found e g)) allows) w
          λ s fresh p body v.
            enough body (same_spec-Verified fresh body ((stable.at s fresh (again s p)).2) v)
      where
        again :
            (s : C.State) {fresh : BootArtifact}
            → (C.get_boot_artifact (key_of found) s).0 ≡ ok fresh
            → (C.get_boot_artifact (key_of wanted) s).0 ≡ ok fresh
        again s {fresh} p =
            subst (λ (k : ObjectKey). (C.get_boot_artifact k s).0 ≡ ok fresh)
              (λ i. record { name = e i; namespace = f i }) p

    reconcile-Ensures :
        (w : World C) → Ensures (reconcile C o data_dir (key_of wanted)) w (λ _ t. OnDisk R w t)
    unfolding reconcile on_api
    reconcile-Ensures w =
        Ensures-check
          (λ r t.
            OnDisk R w t
            × ((found : BootArtifact)
                → r ≡ ok found
                → (found.meta.name ≡ wanted.meta.name)
                  × (found.meta.namespace ≡ wanted.meta.namespace)
                  × (found.spec ≡ wanted.spec)))
          (record { holds = (allows.order.same w.disk, stable.at w.api) })
          (λ e t h. gone (is_not_found e) e t h.0)
          λ found t h.
            let (name, namespace, spec) = h.1 found refl in
            onward_from _ order w t _ (found-Ensures found t name namespace spec) h.0
      where
        order : IsPreorder (OnDisk {C = C} R)
        order = OnDisk-IsPreorder R allows.order

        gone :
            (b : Bool) (e : Error) (t : World C)
            → OnDisk R w t
            → Ensures (if b then pure no_requeue else fail e) t (λ _ u. OnDisk R w u)
        gone true e t h = record { holds = h }
        gone false e t h = record { holds = h }

  -- After a reconciliation of an artifact whose specification is not edited meanwhile, its file has
  -- the content that it had before, or it is gone, or its content has the digest that the
  -- specification names. This holds whatever fails on the way: the API, the download, any call of the
  -- operating system.
  pub reconcile-Sound :
      (w : World C)
      → let w' = (reconcile C o data_dir (key_of wanted) w).1 in
        Sound (Verified o wanted) (file_path o data_dir wanted) w.disk w'.disk
  reconcile-Sound w =
      (reconcile-Ensures (Sound (Verified o wanted) (file_path o data_dir wanted))
        (Verified o wanted) (own_file (file_path o data_dir wanted) (Verified o wanted))
        (λ bytes v. v) w).holds

  -- Such a reconciliation changes the content of no other regular file than the artifact's and its
  -- temporary file, and makes no other.
  pub reconcile-other_files :
      (other : FilePath) (w : World C)
      → other ≢ file_path o data_dir wanted
      → other ≢ tmp_path (file_path o data_dir wanted)
      → content_at (reconcile C o data_dir (key_of wanted) w).1.disk other ≡ content_at w.disk other
  reconcile-other_files other w h k =
      (reconcile-Ensures (SameContent other) (λ _. Unit)
        (other_file (file_path o data_dir wanted) other h k) (λ bytes v. tt) w).holds
