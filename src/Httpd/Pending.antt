-- ===== src/Httpd/Pending.antt =====
-- What `PendingProvisionForMAC` (internal/httpd/provision.go) finds, said without the indexes of
-- internal/controller/indexers.go.
use text.Mathlib.TextEquality.{eq_iff}
use isoboot.Prelude.{
  String, ◌<>◌, Option, none, some, Bool, not, ◌&&◌, List, [], ◌∷◌, ◌≡◌, refl, ◌==◌, Result, ok,
  err, wrap, multiple_machines, multiple_provisions, select, lookup, arith, string_eq,
}
use isoboot.Api.{
  Provision, ProvisionPhase, Machine, phase_text, provision_phase_eq, waiting_for_boot_source,
  in_progress, complete, failed, config_error,
}
use isoboot.Client.{Client, MatchingFields}
use isoboot.Exec.{check}
use isoboot.Indexers.{
  provision_indexes, machine_indexes, matches, index_phase, index_machine_ref, index_mac,
  provision_phase_field, provision_machine_ref_field, machine_spec_mac_field,
}
use isoboot.Httpd.Provision.{pending_provision_for_mac, only_machine, only_provision}

-- The lists of the cache, served through the indexes: what the documentation of `client.List` says of
-- `MatchingFields`.
pub record IsIndexed (C : Client) (ns : String) (s : C.State) (machines : List Machine)
    (provisions : List Provision) : Type 0 where
  pub lists_machines :
      (fields : MatchingFields)
      → C.list_machines ns fields s ≡ (ok (select (matches machine_indexes fields) machines), s)
  pub lists_provisions :
      (fields : MatchingFields)
      → C.list_provisions ns fields s
        ≡ (ok (select (matches provision_indexes fields) provisions), s)

-- An empty value is never found.
abbrev pub has_mac : String → Machine → Bool
has_mac mac m = not (mac == "") && m.spec.mac == mac

abbrev pub waits_for : String → Provision → Bool
waits_for name p =
    not (name == "") && (p.spec.machine_ref == name && p.status.phase == ProvisionPhase.pending)

-- The one pending provision of the one machine; none where there is none, an error where there are two.
abbrev pub sole_provision : String → List Provision → Result (Option Provision)
sole_provision mac [] = ok none
sole_provision mac (p ∷ []) = ok (some p)
sole_provision mac (p ∷ _ ∷ _) = err (wrap "" multiple_provisions (" for MAC " <> mac))

abbrev pub pending_for : String → List Machine → List Provision → Result (Option Provision)
pending_for mac [] provisions = ok none
pending_for mac (m ∷ []) provisions = sole_provision mac (select (waits_for m.meta.name) provisions)
pending_for mac (m ∷ _ ∷ _) provisions = err (wrap "" multiple_machines (" with MAC " <> mac))

select-ext :
    {A : Type 0} (f g : A → Bool)
    → ((a : A) → f a ≡ g a)
    → (xs : List A) → select f xs ≡ select g xs
select-ext f g h [] = refl
select-ext f g h (x ∷ xs) = rw (h x, select-ext f g h xs) refl

phase_text-pending :
    (phase : ProvisionPhase) → (phase_text phase == "Pending") ≡ (phase == ProvisionPhase.pending)
unfolding phase_text
phase_text-pending ProvisionPhase.unset = ground (arith, eq_iff "" "Pending")
phase_text-pending ProvisionPhase.pending = ground arith
phase_text-pending waiting_for_boot_source = ground (arith, eq_iff "WaitingForBootSource" "Pending")
phase_text-pending in_progress = ground (arith, eq_iff "InProgress" "Pending")
phase_text-pending complete = ground (arith, eq_iff "Complete" "Pending")
phase_text-pending failed = ground (arith, eq_iff "Failed" "Pending")
phase_text-pending config_error = ground (arith, eq_iff "ConfigError" "Pending")

matches_mac :
    (mac : String) (m : Machine)
    → matches machine_indexes ((machine_spec_mac_field, mac) ∷ []) m ≡ has_mac mac m
unfolding matches machine_indexes index_mac lookup
matches_mac mac m = ground arith

matches_provision :
    (name : String) (p : Provision)
    → matches provision_indexes
        ((provision_machine_ref_field, name) ∷ (provision_phase_field, "Pending") ∷ [])
        p
      ≡ waits_for name p
unfolding matches provision_indexes index_machine_ref index_phase lookup
matches_provision name p = ground (
  arith,
  phase_text-pending p.status.phase,
  eq_iff provision_machine_ref_field provision_phase_field,
  eq_iff "" "Pending",
)

only_provision-sole :
    (C : Client) (mac : String) (s : C.State) (provisions : List Provision)
    → only_provision C mac provisions s ≡ (sole_provision mac provisions, s)
unfolding only_provision
only_provision-sole C mac s [] = refl
only_provision-sole C mac s (p ∷ []) = refl
only_provision-sole C mac s (p ∷ q ∷ ps) = refl

only_machine-pending_for :
    (C : Client) (ns mac : String) (s : C.State) (machines : List Machine)
    (provisions : List Provision)
    → IsIndexed C ns s machines provisions
    → (found : List Machine) → only_machine C ns mac found s ≡ (pending_for mac found provisions, s)
unfolding only_machine check phase_text
only_machine-pending_for C ns mac s machines provisions indexed [] = refl
only_machine-pending_for C ns mac s machines provisions indexed (m ∷ []) =
    rw
      (
        indexed.lists_provisions
            ((provision_machine_ref_field, m.meta.name) ∷ (provision_phase_field, "Pending") ∷ []),
        select-ext
            (matches provision_indexes (
              (provision_machine_ref_field, m.meta.name) ∷ (provision_phase_field, "Pending") ∷ []))
            (waits_for m.meta.name) (matches_provision m.meta.name) provisions,
      )
      (only_provision-sole C mac s (select (waits_for m.meta.name) provisions))
only_machine-pending_for C ns mac s machines provisions indexed (m ∷ n ∷ ms) = refl

-- `PendingProvisionForMAC` over indexed lists answers with the one pending provision of the one
-- machine that has the address: none where there is no such machine or no such provision, an error
-- where there are two, and never anything for an empty address or an empty name.
pub pending_provision_for_mac-pending_for :
    (C : Client) (ns mac : String) (s : C.State) (machines : List Machine)
    (provisions : List Provision)
    → IsIndexed C ns s machines provisions
    → pending_provision_for_mac C ns mac s
      ≡ (pending_for mac (select (has_mac mac) machines) provisions, s)
unfolding pending_provision_for_mac check
pending_provision_for_mac-pending_for C ns mac s machines provisions indexed =
    rw
      (
        indexed.lists_machines ((machine_spec_mac_field, mac) ∷ []),
        select-ext (matches machine_indexes ((machine_spec_mac_field, mac) ∷ [])) (has_mac mac)
            (matches_mac mac) machines,
      )
      (only_machine-pending_for C ns mac s machines provisions indexed
        (select (has_mac mac) machines))
