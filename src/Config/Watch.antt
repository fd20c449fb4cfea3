-- ===== src/Config/Watch.antt =====
-- Which configurations a change of an artifact brings back
-- (internal/controller/bootconfig_controller.go, `findBootConfigsForArtifact`).
use isoboot.Prelude.{
  String, some, none, true, false, List, [], ◌∷◌, ◌≡◌, refl, ◌⊎◌, inl, inr, ◌↔◌, ◌||◌, ◌==◌,
  string_eq, ok, arith, Bool-cases, Option-cases,
}
use isoboot.Api.{
  ObjectKey, BootArtifact, BootConfig, BootConfigSpec, BootConfigNetbootSpec, BootConfigIsoSpec,
}
use isoboot.Client.{Client}
use isoboot.Exec.{check}
use isoboot.Config.{refers_to, config_key, requests_for, find_boot_configs_for_artifact}

-- One of the references of the specification is the name.
pub data Refers (name : String) (spec : BootConfigSpec) : Type 0 where
  kernel :
      (n : BootConfigNetbootSpec) → spec.netboot ≡ some n → n.kernel_ref ≡ name → Refers name spec
  initrd :
      (n : BootConfigNetbootSpec) → spec.netboot ≡ some n → n.initrd_ref ≡ name → Refers name spec
  firmware :
      (n : BootConfigNetbootSpec) → spec.netboot ≡ some n → n.firmware_ref ≡ name → Refers name spec
  iso : (i : BootConfigIsoSpec) → spec.iso ≡ some i → i.artifact_ref ≡ name → Refers name spec

-- A request for the key comes from a configuration of the list that refers to the artifact.
abbrev pub Wanted : String → ObjectKey → List BootConfig → Type 0
Wanted name key [] = ⊥
Wanted name key (bc ∷ configs) =
    ((key ≡ config_key bc) × Refers name bc.spec) ⊎ Wanted name key configs

abbrev pub Requested : ObjectKey → List ObjectKey → Type 0
Requested key [] = ⊥
Requested key (k ∷ keys) = (key ≡ k) ⊎ Requested key keys

Refers-refers_to :
    (name : String) (spec : BootConfigSpec) → Refers name spec → refers_to name spec ≡ true
unfolding refers_to
Refers-refers_to name spec (kernel n e f) = ground arith
Refers-refers_to name spec (initrd n e f) = ground arith
Refers-refers_to name spec (firmware n e f) = ground arith
Refers-refers_to name spec (iso i e f) = ground arith

iso-Refers :
    (name : String) (spec : BootConfigSpec)
    → elim spec.iso [ some i ↦ i.artifact_ref == name | none ↦ false ] ≡ true
    → Refers name spec
iso-Refers name spec h = elim (Option-cases spec.iso) [
  | inl e ↦ absurd (ground arith)
  | inr (i, e) ↦ iso i e (ground arith)
]

netboot-Refers :
    (name : String) (spec : BootConfigSpec) (n : BootConfigNetbootSpec)
    → spec.netboot ≡ some n
    → (n.kernel_ref == name || (n.initrd_ref == name || n.firmware_ref == name)) ≡ true
    → Refers name spec
netboot-Refers name spec n e h = elim (Bool-cases (n.kernel_ref == name)) [
  | inl k ↦ kernel n e (ground arith)
  | inr k ↦ elim (Bool-cases (n.initrd_ref == name)) [
    | inl l ↦ initrd n e (ground arith)
    | inr l ↦ firmware n e (ground arith)
  ]
]

refers_to-Refers :
    (name : String) (spec : BootConfigSpec) → refers_to name spec ≡ true → Refers name spec
unfolding refers_to
refers_to-Refers name spec h =
    elim (Bool-cases (elim spec.iso [ some i ↦ i.artifact_ref == name | none ↦ false ])) [
      | inl k ↦ iso-Refers name spec k
      | inr k ↦ elim (Option-cases spec.netboot) [
        | inl e ↦ absurd (ground arith)
        | inr (n, e) ↦ netboot-Refers name spec n e (ground arith)
      ]
    ]

-- The loop yields exactly the requests that are wanted.
requests_for-Wanted :
    (name : String) (key : ObjectKey) (configs : List BootConfig)
    → Requested key (requests_for name configs) ↔ Wanted name key configs
unfolding requests_for
requests_for-Wanted name key [] = (λ h. h, λ h. h)
requests_for-Wanted name key (bc ∷ configs) = elim (Bool-cases (refers_to name bc.spec)) [
  | inl h ↦ rw h (
    (λ r. elim r [
      | inl e ↦ inl (e, refers_to-Refers name bc.spec h)
      | inr k ↦ inr ((requests_for-Wanted name key configs).0 k)
    ]),
    (λ w. elim w [ inl (e, _) ↦ inl e | inr k ↦ inr ((requests_for-Wanted name key configs).1 k) ]),
  )
  | inr h ↦ rw h (
    (λ r. inr ((requests_for-Wanted name key configs).0 r)),
    (λ w. elim w [
      | inl (_, r) ↦ absurd (ground (arith, Refers-refers_to name bc.spec r))
      | inr k ↦ (requests_for-Wanted name key configs).1 k
    ]),
  )
]

-- Where the configurations of the artifact's namespace can be listed, a request is made for exactly
-- those that refer to the artifact, as kernel, initrd, firmware or ISO.
pub find_boot_configs_for_artifact-Wanted :
    (C : Client) (artifact : BootArtifact) (configs : List BootConfig) (s s' : C.State)
    → C.list_boot_configs artifact.meta.namespace s ≡ (ok configs, s')
    → (keys : List ObjectKey) × (find_boot_configs_for_artifact C artifact s ≡ (ok keys, s'))
      × ((key : ObjectKey) → Requested key keys ↔ Wanted artifact.meta.name key configs)
unfolding find_boot_configs_for_artifact check
find_boot_configs_for_artifact-Wanted C artifact configs s s' e = (
  requests_for artifact.meta.name configs,
  rw e refl,
  λ key. requests_for-Wanted artifact.meta.name key configs,
)
