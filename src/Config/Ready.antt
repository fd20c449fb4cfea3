-- ===== src/Config/Ready.antt =====
-- What a reconciliation of a configuration without firmware or with it has done when it reports success
-- (internal/controller/bootconfig_controller.go).
use isoboot.Prelude.{
  ◌<◌, ℕ, String, ◌≡◌, ◌≢◌, ◌∙◌, sym, List, [], ◌∷◌, ◌==◌, string_eq, Result, ok, Bool-cases, inl,
  inr, arith, ◌&&◌,
}
use isoboot.Paths.{FilePath, dir, follow_from}
use isoboot.Paths.Safety.{IsName, join-IsName}
use isoboot.Paths.Targets.{follow_from-up}
use isoboot.Url.Laws.{filename_from_url-IsName}
use isoboot.Api.{BootArtifact, artifact_phase_eq, BootConfig, BootConfigPhase, config_phase_eq}
use isoboot.Client.{Client}
use isoboot.Exec.Ensures.{Ensures, Ensures-check}
use isoboot.Disk.{Disk}
use isoboot.Disk.Links.{LinkAt}
use isoboot.World.{Outside, World, Requeue, no_requeue}
use isoboot.Artifact.{file_path}
use isoboot.Config.{write_status, set_pending, set_error}
use isoboot.Config.Assemble.{file_name_of, deep_target}
use isoboot.Config.Places.{artifacts-IsName}

-- A symbolic link stands at one path and leads to the other.
pub record Leads (link file : FilePath) (d : Disk) : Type 0 where
  pub target : FilePath
  pub stands : LinkAt link target d
  pub leads : follow_from (dir link) target ≡ file

-- The targets lead from the directory of the kernel or the initrd to the artifact's own file, where
-- its controller puts it.
pub deep_target-file_path :
    (o : Outside) (data_dir : FilePath) (sub name : String) (artifact : BootArtifact)
    → IsName artifact.meta.name
    → follow_from (sub ∷ name ∷ "boot" ∷ data_dir) (deep_target o artifact)
      ≡ file_path o data_dir artifact
unfolding deep_target file_path
deep_target-file_path o data_dir sub name artifact h =
    let names : List String = "artifacts" ∷ artifact.meta.name ∷ file_name_of o artifact ∷ [] in
    follow_from-up 3 (sub ∷ name ∷ "boot" ∷ data_dir) names (named)
    ∙ sym (join-IsName data_dir names (named))
  where
    named :
        IsName "artifacts"
        × (IsName artifact.meta.name × (IsName (file_name_of o artifact) × Unit {0}))
    named = (artifacts-IsName, (h, (filename_from_url-IsName o.url_path artifact.spec.url, tt)))

-- What a report of success implies.
abbrev pub Final : {C : Client} → (World C → Type 0) → Result Requeue → World C → Type 0
Final P r t = r ≡ ok no_requeue → P t

after-ne : (n : ℕ) → 0 < n → ◌≢◌ {A = Result Requeue} (ok (record { after = n })) (ok no_requeue)
after-ne n h e = ground arith

module _ (C : Client) (P : World C → Type 0) (bc : BootConfig) (w : World C) where
  write_status-Final :
      (phase : BootConfigPhase) (message : String) (n : ℕ)
      → 0 < n
      → Ensures (write_status C bc phase message (record { after = n })) w (Final P)
  unfolding write_status
  write_status-Final phase message n h =
      Ensures-check (λ _ _. Unit) (record { holds = tt }) (λ e t _. record { holds = λ p. cc })
        (λ _ t _. record { holds = λ p. absurd (after-ne n h p) })

  -- The other reports are none of success.
  pub set_error-Final : (message : String) → Ensures (set_error C bc message) w (Final P)
  unfolding set_error
  set_error-Final message =
      elim (Bool-cases (bc.status.phase == BootConfigPhase.error && bc.status.message == message)) [
        | inl e ↦ rw e (record { holds = λ p. absurd (after-ne 10 (omega arith) p) })
        | inr e ↦ rw e (write_status-Final BootConfigPhase.error message 10 (omega arith))
      ]

  pub set_pending-Final : (message : String) → Ensures (set_pending C bc message) w (Final P)
  unfolding set_pending
  set_pending-Final message =
      elim (Bool-cases
        (bc.status.phase == BootConfigPhase.pending && bc.status.message == message)) [
          | inl e ↦ rw e (record { holds = λ p. absurd (after-ne 5 (omega arith) p) })
          | inr e ↦ rw e (write_status-Final BootConfigPhase.pending message 5 (omega arith))
        ]
