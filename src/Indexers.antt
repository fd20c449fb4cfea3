-- ===== src/Indexers.antt =====
-- internal/controller/indexers.go: the field indexes of the cache, and the lists that they select.
use isoboot.Prelude.{
  String, none, some, Bool, true, false, ◌&&◌, List, [], ◌∷◌, Dict, lookup, contains, ◌==◌,
  string_eq, if◌then◌else◌,
}
use isoboot.Api.{Provision, Machine, phase_text}

-- `ProvisionPhaseField`, `ProvisionMachineRefField`, `MachineSpecMACField`
abbrev pub provision_phase_field : String
provision_phase_field = "status.phase"

abbrev pub provision_machine_ref_field : String
provision_machine_ref_field = "spec.machineRef"

abbrev pub machine_spec_mac_field : String
machine_spec_mac_field = "spec.mac"

-- The three index functions: no entry for an empty value.
unfoldable pub index_phase : Provision → List String
index_phase p = if phase_text p.status.phase == "" then [] else phase_text p.status.phase ∷ []

unfoldable pub index_machine_ref : Provision → List String
index_machine_ref p = if p.spec.machine_ref == "" then [] else p.spec.machine_ref ∷ []

unfoldable pub index_mac : Machine → List String
index_mac m = if m.spec.mac == "" then [] else m.spec.mac ∷ []

-- `SetupIndexers`: the indexes by field name.
unfoldable pub provision_indexes : Dict String (Provision → List String)
unfolding index_phase index_machine_ref
provision_indexes =
    (provision_phase_field, index_phase) ∷ (provision_machine_ref_field, index_machine_ref) ∷ []

unfoldable pub machine_indexes : Dict String (Machine → List String)
unfolding index_mac
machine_indexes = (machine_spec_mac_field, index_mac) ∷ []

-- An object is listed if every wanted value is an entry of its index; a field without an index
-- selects nothing.
unfoldable pub matches :
    {A : Type 0} → Dict String (A → List String) → List (String × String) → A → Bool
unfolding lookup
matches indexes [] a = true
matches indexes ((field, value) ∷ fields) a =
    let rest = matches indexes fields a in
    elim (lookup field indexes) [ none ↦ false | some index ↦ contains (index a) value && rest ]
