-- ===== src/Client.antt =====
-- `client.Client` of controller-runtime, which is not part of the program: the calls that the program
-- makes, over a state that stands for the cluster and the local cache. Any call may change the state,
-- since others use the cluster too, and may answer with an error of the API.
use isoboot.Prelude.{String, List}
use isoboot.Api.{
  ObjectKey, BootArtifact, BootConfig, Provision, Machine, ProvisionAutomation, ConfigMap, Secret,
}
use isoboot.Exec.{Exec}

-- `client.MatchingFields`: index names and the values wanted.
abbrev pub MatchingFields : Type 0
MatchingFields = List (String × String)

pub record Client : Type 1 where
  pub State : Type 0
  pub get_boot_artifact : ObjectKey → Exec State BootArtifact
  pub get_boot_config : ObjectKey → Exec State BootConfig
  pub get_provision : ObjectKey → Exec State Provision
  pub get_provision_automation : ObjectKey → Exec State ProvisionAutomation
  pub get_config_map : ObjectKey → Exec State ConfigMap
  pub get_secret : ObjectKey → Exec State Secret
  pub list_machines : String → MatchingFields → Exec State (List Machine)
  pub list_provisions : String → MatchingFields → Exec State (List Provision)
  pub list_boot_configs : String → Exec State (List BootConfig)
  -- `Status().Update`
  pub update_artifact_status : BootArtifact → Exec State (Unit {0})
  pub update_config_status : BootConfig → Exec State (Unit {0})
  pub update_provision_status : Provision → Exec State (Unit {0})
