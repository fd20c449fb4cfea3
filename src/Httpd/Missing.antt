-- ===== src/Httpd/Missing.antt =====
-- Which missing objects `RenderAutomationFile` (internal/httpd/automation.go) reports as not found.
use isoboot.Prelude.{
  String, some, List, ◌∷◌, ◌≡◌, refl, Error, wrap, ◌<>◌, ok, err, true, lookup, string_eq, arith,
}
use isoboot.Api.{Provision, ProvisionAutomation}
use isoboot.Client.{Client}
use isoboot.Exec.{check}
use isoboot.Errors.{is_not_found, is_automation_not_found}
use isoboot.Httpd.Automation.{
  Templates, render_automation_file, build_template_data, merge_config_maps,
}

module _ (C : Client) (quote : String → String) (T : Templates) where
  -- Where the provision, its automation and the file are there, and the first of the provision's config
  -- maps is not, the error counts as not found too.
  pub render_automation_file-missing_config_map :
      (ns provision_name file_name status_url content config_map : String)
      (config_maps : List String) (provision : Provision) (automation : ProvisionAutomation)
      (missing : Error) (s t u v : C.State)
      → C.get_provision (record { name = provision_name; namespace = ns }) s ≡ (ok provision, t)
      → C.get_provision_automation
          (record { name = provision.spec.provision_automation_ref; namespace = ns })
          t
        ≡ (ok automation, u)
      → lookup file_name automation.spec.files ≡ some content
      → provision.spec.config_maps ≡ config_map ∷ config_maps
      → C.get_config_map (record { name = config_map; namespace = ns }) u ≡ (err missing, v)
      → is_not_found missing ≡ true
      → (e : Error) × (render_automation_file C quote T ns provision_name file_name status_url s
          ≡ (err e, v))
        × (is_automation_not_found e ≡ true)
  unfolding render_automation_file check build_template_data merge_config_maps
      is_automation_not_found
  render_automation_file-missing_config_map ns provision_name file_name status_url content
        config_map config_maps provision automation missing s t u v p q r h k m =
      (wrap ("getting configmap " <> quote config_map <> ": ") missing "", grind arith, rw m refl)
