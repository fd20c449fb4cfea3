-- ===== src/Httpd/Automation.antt =====
-- internal/httpd/automation.go: the files of a provision automation, rendered.
use isoboot.Prelude.{
  String, ◌<>◌, none, some, List, [], ◌∷◌, Dict, lookup, insert, Result, ok, err, string_eq, wrap,
  file_not_found,
}
use isoboot.Api.{Provision}
use isoboot.Client.{Client}
use isoboot.Exec.{Exec, pure, fail, check}

pub record TemplateData : Type 0 where
  pub config_maps : Dict String String
  pub secrets : Dict String String
  pub update_phase_url : String
  pub provision_name : String

-- text/template with the option missingkey=error: a template, parsed, and its execution on data.
pub record Templates : Type 1 where
  pub Template : Type 0
  pub parse : String → Result Template
  pub execute : Template → TemplateData → Result String

-- `maps.Copy(dst, src)`, and the loop over a secret's data: the source's entry wins.
unfoldable pub copy_into : Dict String String → Dict String String → Dict String String
unfolding insert
copy_into dst [] = dst
copy_into dst ((k, v) ∷ src) = copy_into (insert k v dst) src

module _ (C : Client) (quote : String → String) where
  -- The loop over the names of config maps.
  unfoldable pub merge_config_maps :
      String → List String → Dict String String → Exec C.State (Dict String String)
  unfolding copy_into
  merge_config_maps ns [] merged = pure merged
  merge_config_maps ns (name ∷ names) merged =
      check (C.get_config_map (record { name = name; namespace = ns }))
        (λ e. fail (wrap ("getting configmap " <> quote name <> ": ") e ""))
        λ cm. merge_config_maps ns names (copy_into merged cm.data_)

  -- The loop over the names of secrets.
  unfoldable pub merge_secrets :
      String → List String → Dict String String → Exec C.State (Dict String String)
  unfolding copy_into
  merge_secrets ns [] merged = pure merged
  merge_secrets ns (name ∷ names) merged =
      check (C.get_secret (record { name = name; namespace = ns }))
        (λ e. fail (wrap ("getting secret " <> quote name <> ": ") e ""))
        λ secret. merge_secrets ns names (copy_into merged secret.data_)

  -- `buildTemplateData`
  unfoldable pub build_template_data : String → Provision → Exec C.State TemplateData
  unfolding merge_config_maps merge_secrets
  build_template_data ns provision =
      check (merge_config_maps ns provision.spec.config_maps []) fail λ config_maps.
        check (merge_secrets ns provision.spec.secrets []) fail λ secrets. pure (record {
          config_maps = config_maps;
          secrets = secrets;
          update_phase_url = "";
          provision_name = "";
        })

  -- The parse and the execution of the template.
  unfoldable pub render : Templates → String → String → TemplateData → Exec C.State String
  render T file_name content data_ = elim (T.parse content) [
    | err e ↦ fail (wrap ("parsing template " <> quote file_name <> ": ") e "")
    | ok template ↦ elim (T.execute template data_) [
      | err e ↦ fail (wrap ("executing template " <> quote file_name <> ": ") e "")
      | ok text ↦ pure text
    ]
  ]

  -- `RenderAutomationFile`
  unfoldable pub render_automation_file :
      Templates → String → String → String → String → Exec C.State String
  unfolding build_template_data render lookup
  render_automation_file T ns provision_name file_name status_url =
      check (C.get_provision (record { name = provision_name; namespace = ns }))
        (λ e. fail (wrap ("getting provision " <> quote provision_name <> ": ") e ""))
        λ provision.
          check
            (C.get_provision_automation
              (record { name = provision.spec.provision_automation_ref; namespace = ns }))
            (λ e. fail (
              wrap
                ("getting provision automation "
                  <> quote provision.spec.provision_automation_ref
                  <> ": ")
                e ""))
            λ automation. elim (lookup file_name automation.spec.files) [
              | none ↦ fail (
                  wrap "" file_not_found (
                    ": "
                    <> quote file_name
                    <> " in provision automation "
                    <> quote automation.meta.name))
              | some content ↦ check (build_template_data ns provision) fail λ data_.
                  render T file_name content (record data_ {
                    update_phase_url = status_url;
                    provision_name = provision_name;
                  })
            ]
