-- ===== src/Api.antt =====
-- api/v1alpha1: the custom resources, field by field, with the Kubernetes types that they refer to.
-- Phases are strings in Go; the API server admits the listed values and the empty one, which is
-- `unset` here. An empty reference is the empty text, a nil pointer is `none`.
use isoboot.Prelude.{ℕ, String, Option, List, Dict, Eq}

-- `metav1.ObjectMeta`, as far as the program reads it, with the version that the API server checks
-- on an update.
pub record ObjectMeta : Type 0 where
  pub name : String
  pub namespace : String
  pub resource_version : ℕ

-- `client.ObjectKey`
pub record ObjectKey : Type 0 where
  pub name : String
  pub namespace : String

pub record BootArtifactSpec : Type 0 where
  pub url : String
  pub sha256 : Option String
  pub sha512 : Option String

pub data BootArtifactPhase : Type 0 where
  unset pending downloading ready error : BootArtifactPhase

-- `failure_count` is an int32 as its bit pattern; times are seconds.
pub record BootArtifactStatus : Type 0 where
  pub phase : BootArtifactPhase
  pub message : String
  pub failure_count : ℕ
  pub last_failure_time : Option ℕ
  pub last_checked : Option ℕ

pub record BootArtifact : Type 0 where
  pub meta : ObjectMeta
  pub spec : BootArtifactSpec
  pub status : BootArtifactStatus

pub record BootConfigIsoSpec : Type 0 where
  pub artifact_ref : String
  pub kernel_path : String
  pub initrd_path : String

pub record BootConfigNetbootSpec : Type 0 where
  pub kernel_ref : String
  pub initrd_ref : String
  pub firmware_ref : String

pub record BootConfigSpec : Type 0 where
  pub netboot : Option BootConfigNetbootSpec
  pub iso : Option BootConfigIsoSpec
  pub kernel_args : String

pub data BootConfigPhase : Type 0 where
  unset pending ready error : BootConfigPhase

pub record BootConfigStatus : Type 0 where
  pub phase : BootConfigPhase
  pub message : String

pub record BootConfig : Type 0 where
  pub meta : ObjectMeta
  pub spec : BootConfigSpec
  pub status : BootConfigStatus

pub record ProvisionSpec : Type 0 where
  pub machine_ref : String
  pub boot_config_ref : String
  pub provision_automation_ref : String
  pub config_maps : List String
  pub secrets : List String

pub data ProvisionPhase : Type 0 where
  unset pending waiting_for_boot_source in_progress complete failed config_error : ProvisionPhase

pub record ProvisionStatus : Type 0 where
  pub phase : ProvisionPhase
  pub message : String
  pub last_updated : Option ℕ
  pub ip : String

pub record Provision : Type 0 where
  pub meta : ObjectMeta
  pub spec : ProvisionSpec
  pub status : ProvisionStatus

pub record MachineSpec : Type 0 where
  pub mac : String

pub record Machine : Type 0 where
  pub meta : ObjectMeta
  pub spec : MachineSpec

pub record ProvisionAutomationSpec : Type 0 where
  pub files : Dict String String

pub record ProvisionAutomation : Type 0 where
  pub meta : ObjectMeta
  pub spec : ProvisionAutomationSpec

-- `corev1.ConfigMap` and `corev1.Secret`: their data. A secret's value is given as the text that
-- Go's conversion of its bytes makes.
pub record ConfigMap : Type 0 where
  pub meta : ObjectMeta
  pub data_ : Dict String String

pub record Secret : Type 0 where
  pub meta : ObjectMeta
  pub data_ : Dict String String

-- The phases as the strings that they are in Go.
unfoldable pub phase_text : ProvisionPhase → String
phase_text ProvisionPhase.unset = ""
phase_text ProvisionPhase.pending = "Pending"
phase_text waiting_for_boot_source = "WaitingForBootSource"
phase_text in_progress = "InProgress"
phase_text complete = "Complete"
phase_text failed = "Failed"
phase_text config_error = "ConfigError"

pub BootArtifactPhase-discrete : Discrete BootArtifactPhase
BootArtifactPhase-discrete = hlevel

pub BootConfigPhase-discrete : Discrete BootConfigPhase
BootConfigPhase-discrete = hlevel

pub ProvisionPhase-discrete : Discrete ProvisionPhase
ProvisionPhase-discrete = hlevel

instance unfoldable pub artifact_phase_eq : Eq BootArtifactPhase
unfolding BootArtifactPhase-discrete
artifact_phase_eq = record { dec = BootArtifactPhase-discrete }

instance unfoldable pub config_phase_eq : Eq BootConfigPhase
unfolding BootConfigPhase-discrete
config_phase_eq = record { dec = BootConfigPhase-discrete }

instance unfoldable pub provision_phase_eq : Eq ProvisionPhase
unfolding ProvisionPhase-discrete
provision_phase_eq = record { dec = ProvisionPhase-discrete }
