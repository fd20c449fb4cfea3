-- ===== src/Httpd/Reads.antt =====
-- The lookups of internal/httpd, as calls that only read from the cluster.
use isoboot.Prelude.{
  String, Option, none, some, List, [], ◌∷◌, Dict, lookup, Error, Result, ok, err, string_eq,
}
use isoboot.Url.{UrlPath}
use isoboot.Api.{
  ObjectKey, Provision, Machine, BootConfig, BootConfigNetbootSpec, BootConfigIsoSpec,
}
use isoboot.Client.{Client, MatchingFields}
use isoboot.Exec.{Exec, pure, fail, check}
use isoboot.Exec.Ensures.{Follows, IsPreorder, Follows-pure, Follows-fail, Follows-check}
use isoboot.Httpd.Provision.{pending_provision_for_mac, only_machine, only_provision}
use isoboot.Httpd.Boot.{
  get_artifact, iso_directive, netboot_directive, directive_of, directive_for,
  boot_directive_for_mac,
}
use isoboot.Httpd.Automation.{
  Templates, TemplateData, merge_config_maps, merge_secrets, build_template_data, render,
  render_automation_file,
}

-- What every read of the cluster leaves as it was.
pub record ReadsFollow (C : Client) (R : C.State → C.State → Type 0) : Type 0 where
  pub order : IsPreorder R
  pub boot_artifacts : (key : ObjectKey) → Follows R (C.get_boot_artifact key)
  pub boot_configs : (key : ObjectKey) → Follows R (C.get_boot_config key)
  pub provisions : (key : ObjectKey) → Follows R (C.get_provision key)
  pub automations : (key : ObjectKey) → Follows R (C.get_provision_automation key)
  pub config_maps : (key : ObjectKey) → Follows R (C.get_config_map key)
  pub secrets : (key : ObjectKey) → Follows R (C.get_secret key)
  pub machine_lists :
      (ns : String) (fields : MatchingFields) → Follows R (C.list_machines ns fields)
  pub provision_lists :
      (ns : String) (fields : MatchingFields) → Follows R (C.list_provisions ns fields)

module _ (C : Client) (R : C.State → C.State → Type 0) (reads : ReadsFollow C R) where
  -- A call, with its error passed on, and the rest.
  reading :
      {A B : Type 0} (m : Exec C.State A) (note : Error → Exec C.State B)
      (rest : A → Exec C.State B)
      → Follows R m
      → ((e : Error) → Follows R (note e))
      → ((a : A) → Follows R (rest a))
      → Follows R (check m note rest)
  reading m note rest h n k = Follows-check R reads.order m note rest h n k

  choosing :
      {A B : Type 0} (o : Option A) (m : Exec C.State B) (k : A → Exec C.State B)
      → Follows R m
      → ((a : A) → Follows R (k a))
      → Follows R (elim o [ none ↦ m | some a ↦ k a ])
  choosing none m k hm hk = hm
  choosing (some a) m k hm hk = hk a

  done : {A : Type 0} (a : A) → Follows R (pure {S = C.State} a)
  done a = Follows-pure R reads.order a

  failed : {A : Type 0} (e : Error) → Follows R (fail {S = C.State} {A = A} e)
  failed e = Follows-fail R reads.order e

  only_provision-Follows :
      (mac : String) (found : List Provision) → Follows R (only_provision C mac found)
  unfolding only_provision
  only_provision-Follows mac [] = done none
  only_provision-Follows mac (p ∷ []) = done (some p)
  only_provision-Follows mac (p ∷ q ∷ ps) = failed _

  only_machine-Follows :
      (ns mac : String) (found : List Machine) → Follows R (only_machine C ns mac found)
  unfolding only_machine
  only_machine-Follows ns mac [] = done none
  only_machine-Follows ns mac (m ∷ []) =
      reading _ _ _ (reads.provision_lists ns _) (λ e. failed _) (only_provision-Follows mac)
  only_machine-Follows ns mac (m ∷ n ∷ ms) = failed _

  pending_provision_for_mac-Follows :
      (ns mac : String) → Follows R (pending_provision_for_mac C ns mac)
  unfolding pending_provision_for_mac
  pending_provision_for_mac-Follows ns mac =
      reading _ _ _ (reads.machine_lists ns _) (λ e. failed _) (only_machine-Follows ns mac)

  module _ (url_path : UrlPath) (quote : String → String) (ns : String) where
    get_artifact-Follows :
        (role name : String) → Follows R (get_artifact C url_path quote role ns name)
    unfolding get_artifact
    get_artifact-Follows role name = reading _ _ _ (reads.boot_artifacts _) (λ e. failed _) done

    iso_directive-Follows :
        (p : Provision) (bc : BootConfig) (iso : BootConfigIsoSpec)
        → Follows R (iso_directive C url_path quote ns p bc iso)
    unfolding iso_directive
    iso_directive-Follows p bc iso =
        reading _ _ _ (get_artifact-Follows "iso" iso.artifact_ref) failed (λ a. done _)

    netboot_directive-Follows :
        (p : Provision) (bc : BootConfig) (netboot : BootConfigNetbootSpec)
        → Follows R (netboot_directive C url_path quote ns p bc netboot)
    unfolding netboot_directive
    netboot_directive-Follows p bc netboot =
        reading _ _ _ (get_artifact-Follows "kernel" netboot.kernel_ref) failed (λ kernel.
          reading _ _ _ (get_artifact-Follows "initrd" netboot.initrd_ref) failed (λ a. done _))

    directive_of-Follows :
        (p : Provision) (bc : BootConfig) → Follows R (directive_of C url_path quote ns p bc)
    unfolding directive_of
    directive_of-Follows p bc =
        choosing bc.spec.iso _ _
          (choosing bc.spec.netboot _ _ (failed _) (netboot_directive-Follows p bc))
          (iso_directive-Follows p bc)

    directive_for-Follows :
        (found : Option Provision) → Follows R (directive_for C url_path quote ns found)
    unfolding directive_for
    directive_for-Follows none = done none
    directive_for-Follows (some p) =
        reading _ _ _ (reads.boot_configs _) (λ e. failed _) (directive_of-Follows p)

    pub boot_directive_for_mac-Follows :
        (mac : String) → Follows R (boot_directive_for_mac C url_path quote ns mac)
    unfolding boot_directive_for_mac
    boot_directive_for_mac-Follows mac =
        reading _ _ _ (pending_provision_for_mac-Follows ns mac) failed directive_for-Follows

  module _ (quote : String → String) (ns : String) where
    merge_config_maps-Follows :
        (names : List String) (merged : Dict String String)
        → Follows R (merge_config_maps C quote ns names merged)
    unfolding merge_config_maps
    merge_config_maps-Follows [] merged = done merged
    merge_config_maps-Follows (name ∷ names) merged =
        reading _ _ _ (reads.config_maps _) (λ e. failed _)
          (λ cm. merge_config_maps-Follows names _)

    merge_secrets-Follows :
        (names : List String) (merged : Dict String String)
        → Follows R (merge_secrets C quote ns names merged)
    unfolding merge_secrets
    merge_secrets-Follows [] merged = done merged
    merge_secrets-Follows (name ∷ names) merged =
        reading _ _ _ (reads.secrets _) (λ e. failed _) (λ secret. merge_secrets-Follows names _)

    build_template_data-Follows : (p : Provision) → Follows R (build_template_data C quote ns p)
    unfolding build_template_data
    build_template_data-Follows p =
        reading _ _ _ (merge_config_maps-Follows p.spec.config_maps []) failed (λ config_maps.
          reading _ _ _ (merge_secrets-Follows p.spec.secrets []) failed (λ secrets. done _))

    -- A result of the template library, answered or noted.
    noting :
        {A B : Type 0} (r : Result A) (note : Error → Exec C.State B) (k : A → Exec C.State B)
        → ((e : Error) → Follows R (note e))
        → ((a : A) → Follows R (k a))
        → Follows R (elim r [ err e ↦ note e | ok a ↦ k a ])
    noting (err e) note k hn hk = hn e
    noting (ok a) note k hn hk = hk a

    render-Follows :
        (T : Templates) (file_name content : String) (values : TemplateData)
        → Follows R (render C quote T file_name content values)
    unfolding render
    render-Follows T file_name content values =
        noting (T.parse content) _ _ (λ e. failed _)
          (λ template. noting (T.execute template values) _ _ (λ e. failed _) done)

    pub render_automation_file-Follows :
        (T : Templates) (provision_name file_name status_url : String)
        → Follows R (render_automation_file C quote T ns provision_name file_name status_url)
    unfolding render_automation_file
    render_automation_file-Follows T provision_name file_name status_url =
        reading _ _ _ (reads.provisions _) (λ e. failed _)
          (λ p.
            reading _ _ _ (reads.automations _) (λ e. failed _)
              (λ automation.
                choosing (lookup file_name automation.spec.files) _ _ (failed _) (λ content.
                  reading _ _ _ (build_template_data-Follows p) failed
                    (λ values. render-Follows T file_name content _))))
