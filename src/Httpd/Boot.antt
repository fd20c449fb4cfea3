-- ===== src/Httpd/Boot.antt =====
-- internal/httpd/boot.go: the boot directive of a MAC address.
use isoboot.Prelude.{String, ◌<>◌, Option, none, some, [], ◌∷◌, plain, wrap, Result, ok, err}
use isoboot.Paths.{join_text}
use isoboot.Url.{UrlPath, filename_from_url}
use isoboot.Api.{Provision, BootConfig, BootConfigNetbootSpec, BootConfigIsoSpec, BootArtifact}
use isoboot.Client.{Client}
use isoboot.Exec.{Exec, pure, fail, check}
use isoboot.Httpd.Provision.{pending_provision_for_mac}

pub record BootDirective : Type 0 where
  pub kernel_path : String
  pub kernel_args : String
  pub initrd_path : String
  pub iso_path : String
  pub provision_name : String

-- `KernelArgsData`
pub record KernelArgsData : Type 0 where
  pub provision_automation_base_url : String
  pub proxy_url : String
  pub update_phase_url : String
  pub provision_name : String
  pub iso_url : String

module _ (C : Client) (url_path : UrlPath) (quote : String → String) where
  -- `c.Get` of an artifact, with the annotation that names its role.
  unfoldable pub get_artifact : String → String → String → Exec C.State BootArtifact
  get_artifact role ns name =
      check (C.get_boot_artifact (record { name = name; namespace = ns }))
        (λ e. fail (wrap ("getting " <> role <> " artifact " <> quote name <> ": ") e "")) pure

  -- Mode B: kernel and initrd have fixed names.
  unfoldable pub iso_directive :
      String → Provision → BootConfig → BootConfigIsoSpec → Exec C.State (Option BootDirective)
  unfolding get_artifact
  iso_directive ns provision bc iso =
      check (get_artifact "iso" ns iso.artifact_ref) fail λ artifact. pure (
        some (record {
          kernel_path = join_text (bc.meta.name ∷ "vmlinuz" ∷ []);
          kernel_args = bc.spec.kernel_args;
          initrd_path = join_text (bc.meta.name ∷ "initrd" ∷ []);
          iso_path = join_text (bc.meta.name ∷ filename_from_url url_path artifact.spec.url ∷ []);
          provision_name = provision.meta.name;
        }))

  -- Mode A: the file names of the artifacts.
  unfoldable pub netboot_directive :
      String → Provision → BootConfig → BootConfigNetbootSpec → Exec C.State (Option BootDirective)
  unfolding get_artifact
  netboot_directive ns provision bc netboot =
      check (get_artifact "kernel" ns netboot.kernel_ref) fail λ kernel.
        check (get_artifact "initrd" ns netboot.initrd_ref) fail λ initrd. pure (
          some (record {
            kernel_path =
                join_text
                  (bc.meta.name ∷ "kernel" ∷ filename_from_url url_path kernel.spec.url ∷ []);
            kernel_args = bc.spec.kernel_args;
            initrd_path =
                join_text
                  (bc.meta.name ∷ "initrd" ∷ filename_from_url url_path initrd.spec.url ∷ []);
            iso_path = "";
            provision_name = provision.meta.name;
          }))

  -- The choice of the mode.
  unfoldable pub directive_of :
      String → Provision → BootConfig → Exec C.State (Option BootDirective)
  unfolding iso_directive netboot_directive
  directive_of ns provision bc = elim bc.spec.iso [
    | some iso ↦ iso_directive ns provision bc iso
    | none ↦ elim bc.spec.netboot [
      | some netboot ↦ netboot_directive ns provision bc netboot
      | none ↦ fail (plain ("boot config " <> quote bc.meta.name <> " has neither netboot nor iso"))
    ]
  ]

  unfoldable pub directive_for : String → Option Provision → Exec C.State (Option BootDirective)
  unfolding directive_of
  directive_for ns none = pure none
  directive_for ns (some provision) =
      check (C.get_boot_config (record { name = provision.spec.boot_config_ref; namespace = ns }))
        (λ e.
          fail (wrap ("getting boot config " <> quote provision.spec.boot_config_ref <> ": ") e ""))
        λ bc. directive_of ns provision bc

  -- `BootDirectiveForMAC`
  unfoldable pub boot_directive_for_mac : String → String → Exec C.State (Option BootDirective)
  unfolding pending_provision_for_mac directive_for
  boot_directive_for_mac ns mac =
      check (pending_provision_for_mac C ns mac) fail λ provision. directive_for ns provision

-- text/template with the option missingkey=error, on the data of kernel arguments.
pub record ArgumentTemplates : Type 1 where
  pub Template : Type 0
  pub parse : String → Result Template
  pub execute : Template → KernelArgsData → Result String

-- `RenderKernelArgs`
unfoldable pub render_kernel_args : ArgumentTemplates → String → KernelArgsData → Result String
render_kernel_args T args values = elim (T.parse args) [
  | err e ↦ err (wrap "parsing kernel args template: " e "")
  | ok template ↦ elim (T.execute template values) [
    | err e ↦ err (wrap "executing kernel args template: " e "")
    | ok text ↦ ok text
  ]
]
