-- ===== src/Config/Directive.antt =====
-- The paths of a boot directive (internal/httpd/boot.go) are entries of the boot directory that the
-- BootConfig controller makes (internal/controller/bootconfig_controller.go).
use isoboot.Prelude.{String, ◌≡◌, refl, ◌∙◌, subst, Option, some, [], ◌∷◌, ok, Result}
use isoboot.Paths.{FilePath, join, join_text}
use isoboot.Paths.Safety.{IsName}
use isoboot.Paths.BaseName.{join-join_text}
use isoboot.Url.Laws.{filename_from_url-IsName}
use isoboot.Api.{BootArtifact, BootConfig, BootConfigNetbootSpec, Provision}
use isoboot.Client.{Client}
use isoboot.Exec.Ensures.{Ensures, Ensures-check}
use isoboot.World.{Outside}
use isoboot.Httpd.Boot.{BootDirective, get_artifact, netboot_directive}
use isoboot.Config.Assemble.{file_name_of}
use isoboot.Config.Places.{kernel-IsName, initrd-IsName}
use isoboot.Config.Netboot.{entry_of}

module _ (o : Outside) (data_dir : FilePath) (name : String) (named : IsName name) where
  -- A path of a directive, below the directory that is served.
  directive-path :
      (sub : String) (artifact : BootArtifact)
      → IsName sub
      → join ("boot" ∷ data_dir) (join_text (name ∷ sub ∷ file_name_of o artifact ∷ []) ∷ [])
        ≡ entry_of o data_dir name sub artifact
  directive-path sub artifact h =
      join-join_text ("boot" ∷ data_dir) name sub (file_name_of o artifact)
        (named, (h, (filename_from_url-IsName o.url_path artifact.spec.url, tt)))

-- The artifact is read under its name, and the path leads to its entry below the directory that is
-- served.
abbrev pub Names :
    (C : Client) → Outside → FilePath → BootConfig → (ns ref sub path : String) → Type 0
Names C o data_dir bc ns ref sub path =
    (artifact : BootArtifact) × (s : C.State) × ((C.get_boot_artifact
        (record { name = ref; namespace = ns }) s).0
      ≡ ok artifact)
    × (join ("boot" ∷ data_dir) (path ∷ []) ≡ entry_of o data_dir bc.meta.name sub artifact)

directive-injective :
    {d e : BootDirective}
    → ◌≡◌ {A = Result (Option BootDirective)} (ok (some d)) (ok (some e))
    → d ≡ e
directive-injective p = cc

module _ (C : Client) (o : Outside) (data_dir : FilePath) (bc : BootConfig)
    (named : IsName bc.meta.name) (ns : String) (p : Provision) (nb : BootConfigNetbootSpec) where
  -- Both paths of a directive name entries of artifacts.
  abbrev pub NamesBoth : BootDirective → Type 0
  NamesBoth d =
      Names C o data_dir bc ns nb.kernel_ref "kernel" d.kernel_path
      × Names C o data_dir bc ns nb.initrd_ref "initrd" d.initrd_path

  abbrev Directs : Result (Option BootDirective) → C.State → Type 0
  Directs r t = (d : BootDirective) → r ≡ ok (some d) → NamesBoth d

  get_artifact-Ensures :
      (role ref : String) (s : C.State)
      → Ensures (get_artifact C o.url_path o.quote role ns ref) s (λ r t.
        (a : BootArtifact)
        → r ≡ ok a
        → (C.get_boot_artifact (record { name = ref; namespace = ns }) s).0 ≡ ok a)
  unfolding get_artifact
  get_artifact-Ensures role ref s =
      Ensures-check (λ r t. (C.get_boot_artifact (record { name = ref; namespace = ns }) s).0 ≡ r)
        (record { holds = refl }) (λ e t _. record { holds = λ a p. cc })
        (λ a t q. record { holds = λ b p. q ∙ p })

  directs : (s : C.State) → Ensures (netboot_directive C o.url_path o.quote ns p bc nb) s Directs
  unfolding netboot_directive
  directs s =
      Ensures-check _ (get_artifact-Ensures "kernel" nb.kernel_ref s)
        (λ e t _. record { holds = λ d p. cc })
        (λ kernel t k.
          Ensures-check _ (get_artifact-Ensures "initrd" nb.initrd_ref t)
            (λ e u _. record { holds = λ d p. cc })
            (λ initrd u l. record {
              holds = λ d p. subst NamesBoth (directive-injective p) (
                (
                  kernel,
                  s,
                  k kernel refl,
                  directive-path o data_dir bc.meta.name named "kernel" kernel kernel-IsName,
                ),
                (
                  initrd,
                  t,
                  l initrd refl,
                  directive-path o data_dir bc.meta.name named "initrd" initrd initrd-IsName,
                ),
              );
            }))

  -- A directive of Mode A that is answered names, below the directory that is served, the entries of the
  -- kernel's and of the initrd's artifact: their file names, where the configuration's assembled
  -- directory has them.
  pub netboot_directive-NamesBoth :
      (s : C.State) (d : BootDirective)
      → (netboot_directive C o.url_path o.quote ns p bc nb s).0 ≡ ok (some d)
      → NamesBoth d
  netboot_directive-NamesBoth s d h = (directs s).holds d h
