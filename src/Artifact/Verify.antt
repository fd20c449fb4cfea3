-- ===== src/Artifact/Verify.antt =====
-- What `verifyExisting` promises about a file that it accepts.
use isoboot.Prelude.{
  ℕ, String, ◌≡◌, refl, ◌∙◌, ap, sym, subst, some, Bool, true, false, List, Error, wrap, Result, ok,
  Bool-cases, inl, inr, if◌then◌else◌,
}
use isoboot.Paths.{FilePath}
use isoboot.Hash.{equal_fold}
use isoboot.Errors.{is_not_exist}
use isoboot.Api.{BootArtifact, artifact_phase_eq}
use isoboot.Client.{Client}
use isoboot.Exec.{Exec, pure, fail, check, ignoring}
use isoboot.Exec.Ensures.{IsPreorder, Ensures, Ensures-check}
use isoboot.Disk.{Disk, target_of}
use isoboot.Disk.Content.{content_at}
use isoboot.Disk.Reads.{
  SameNodes, read-SameNodes, open_file-target, read-content, target_of-SameNodes,
}
use isoboot.World.{Outside, World}
use isoboot.World.Frame.{Ensures-on_disk}
use isoboot.Artifact.Status.{expected_hash, is_some, digest, set_ready}
use isoboot.Artifact.{hash_file, verify_existing}
use isoboot.Artifact.Steps.{Verified, set_ready-Follows}

-- The same disk.
abbrev Unchanged : Disk → Disk → Type 0
Unchanged d e = e ≡ d

Unchanged-IsPreorder : IsPreorder Unchanged
Unchanged-IsPreorder = record { same = λ d. refl; then_ = λ d e f p q. q ∙ p }

-- What an open of the path reads is verified.
pub record IsDelivered (o : Outside) (artifact : BootArtifact) (path : FilePath) (d : Disk)
    : Type 0 where
  pub bytes : List ℕ
  pub content : content_at d (target_of d path) ≡ some bytes
  pub verified : Verified o artifact bytes

-- The content that the path leads to has the hash.
abbrev Hashed : Outside → FilePath → Bool → String → Disk → Type 0
Hashed o path use_sha256 computed d =
    (bytes : List ℕ) × (content_at d (target_of d path) ≡ some bytes)
    × (digest o use_sha256 bytes ≡ computed)

hash_file-Hashed :
    (o : Outside) (path : FilePath) (use_sha256 : Bool) (d : Disk)
    → Ensures
        (hash_file o path use_sha256)
        d
        (λ r t. (computed : String) → r ≡ ok computed → Hashed o path use_sha256 computed t)
unfolding hash_file
hash_file-Hashed o path use_sha256 d =
    Ensures-check (λ r t. (p : FilePath) → r ≡ ok p → p ≡ target_of t path)
      (record { holds = λ p h. open_file-target path p d h })
      (λ e t _. record { holds = λ c h. cc })
      λ opened t h.
        Ensures-check
          (λ r u.
            SameNodes t u × ((bytes : List ℕ) → r ≡ ok bytes → content_at u opened ≡ some bytes))
          (record {
            holds = ((read-SameNodes opened).at t, λ bytes p. read-content opened bytes t p);
          })
          (λ e u _. record { holds = λ c p. cc })
          (λ bytes u k. record {
            holds = λ c p. (
              bytes,
              ap (content_at u) (target_of-SameNodes path t u k.0 ∙ sym (h opened refl))
                  ∙ k.1 bytes refl,
              cc,
            );
          })

module _ (C : Client) (o : Outside) (path : FilePath) where
  abbrev pub Report : BootArtifact → Result Bool → World C → Type 0
  Report artifact r t = r ≡ ok true → IsDelivered o artifact path t.disk

  Hashed-IsDelivered :
      (artifact : BootArtifact) (computed : String) (d : Disk)
      → Hashed o path (is_some artifact.spec.sha256) computed d
      → equal_fold computed (expected_hash artifact) ≡ true
      → IsDelivered o artifact path d
  Hashed-IsDelivered artifact computed d (bytes, content, e) h = record {
    bytes = bytes;
    content = content;
    verified = rw e h;
  }

  set_ready-Report :
      (artifact : BootArtifact) (w : World C)
      → IsDelivered o artifact path w.disk
      → Ensures (check (set_ready C o artifact) fail (λ _. pure true)) w (Report artifact)
  set_ready-Report artifact w h =
      Ensures-check (λ _ t. t.disk ≡ w.disk)
        (record { holds = (set_ready-Follows o Unchanged Unchanged-IsPreorder artifact).at w })
        (λ e t _. record { holds = λ p. cc })
        (λ _ t k. record { holds = λ p. subst (IsDelivered o artifact path) (sym k) h })

  ready-Report :
      (artifact : BootArtifact) (already : Bool) (w : World C)
      → IsDelivered o artifact path w.disk
      → Ensures
          (if already then pure true else check (set_ready C o artifact) fail (λ _. pure true))
          w
          (Report artifact)
  ready-Report artifact true w h = record { holds = λ p. h }
  ready-Report artifact false w h = set_ready-Report artifact w h

  unread-Report :
      (artifact : BootArtifact) (gone : Bool) (e : Error) (w : World C)
      → Ensures
          (if gone then pure false else fail (wrap "hashing existing file: " e ""))
          w
          (Report artifact)
  unread-Report artifact true e w = record { holds = λ p. cc }
  unread-Report artifact false e w = record { holds = λ p. cc }

  stale-Report :
      (artifact : BootArtifact) (m : Exec (World C) (Unit {0})) (rest : Exec (World C) Bool)
      (w : World C)
      → ((t : World C) → Ensures rest t (Report artifact))
      → Ensures (ignoring m rest) w (Report artifact)
  stale-Report artifact m rest w h =
      Ensures-check (λ _ _. Unit) (record { holds = tt }) (λ _ t _. h t) (λ _ t _. h t)

  -- `verifyExisting` answers true only for a file that it has verified.
  pub verify_existing-Report :
      (artifact : BootArtifact) (w : World C)
      → Ensures (verify_existing C o artifact path) w (Report artifact)
  unfolding verify_existing
  verify_existing-Report artifact w =
      Ensures-check
        (λ r t. (c : String) → r ≡ ok c → Hashed o path (is_some artifact.spec.sha256) c t.disk)
        (Ensures-on_disk _ w
          (λ r d. (c : String) → r ≡ ok c → Hashed o path (is_some artifact.spec.sha256) c d)
          (hash_file-Hashed o path (is_some artifact.spec.sha256) w.disk))
        (λ e t _. unread-Report artifact (is_not_exist e) e t)
        λ computed t h. elim (Bool-cases (equal_fold computed (expected_hash artifact))) [
          | inl e ↦ rw e (
              ready-Report artifact _ t
                (Hashed-IsDelivered artifact computed t.disk (h computed refl) e))
          | inr e ↦ rw e (
              stale-Report artifact _ _ t
                λ u. stale-Report artifact _ _ u λ v. record { holds = λ p. cc })
        ]
