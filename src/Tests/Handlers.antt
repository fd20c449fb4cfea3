-- ===== src/Tests/Handlers.antt =====
-- Requests to the HTTP server, and the theorems on its handlers at work on them.
use text.Mathlib.TextEquality.{eq_iff}
use Prim.Native.String.{len}
use isoboot.Prelude.{
  ℕ, String, ◌<>◌, ◌≡◌, ◌≢◌, refl, ◌∙◌, ◌+◌, api_not_found, ◌⊎◌, inl, inr, Bool, true, false, none,
  some, List, [], ◌∷◌, ok, err, arith, select, ◌≤◌, ◌==◌, string_eq, if◌then◌else◌,
}
use isoboot.Paths.Safety.{IsName}
use isoboot.Api.{Machine, Provision, ProvisionPhase, in_progress}
use isoboot.Client.{Client}
use isoboot.Exec.{Exec, pure, fail}
use isoboot.Indexers.{matches, machine_indexes, provision_indexes}
use isoboot.Httpd.Provision.{update_provision_phase}
use isoboot.Httpd.Boot.{ArgumentTemplates, boot_directive_for_mac}
use isoboot.Httpd.Pending.{IsIndexed, has_mac, pending_for}
use isoboot.Lifecycle.{report, plan}
use isoboot.Server.Http.{Request, Response}
use isoboot.Server.Hosts.{resolve_host}
use isoboot.Server.Hosts.Ports.{IsPlain, resolve_host-forwarded_port, resolve_host-bracketed}
use isoboot.Prelude.{◌↔◌}
use isoboot.Server.Names.{is_valid_name, mac_matches, name_matches}
use isoboot.Server.Names.Regexp.{Matches, mac_regexp, name_regexp, patterns-Matches}
use isoboot.Server.Names.Laws.{is_valid_name-IsName}
use isoboot.Server.Boot.{node_ip, conditional_boot}
use isoboot.Server.Boot.Address.{node_ip-resolve_host}
use isoboot.Server.Boot.Lookup.{Answers, conditional_boot-Answers}
use isoboot.Server.Status.{update_answer, update_status}
use isoboot.Server.Status.Phases.{Asks, moved}
use isoboot.Server.Status.Plan.{IsReport, update_status-accepted, update_status-plan}
use isoboot.Exec.Ensures.{Follows}
use isoboot.Httpd.Reads.{ReadsFollow}
use isoboot.Server.{serve}
use isoboot.Server.Safe.{serve-Follows}
use isoboot.Tests.{lab, literal, mirror, machine, initialised, indexed}

is_valid_name-IsName_example : IsName "node-1.lab" × (len "node-1.lab" ≤ 253)
unfolding is_valid_name isoboot.Server.Names.name_matches isoboot.Server.Names.name_rest
    isoboot.Server.Names.is_alphanumeric isoboot.Server.Names.is_name_char isoboot.Prelude.nat_eq
    native.Mathlib.Decide.ℕ_discrete
is_valid_name-IsName_example = is_valid_name-IsName "node-1.lab" refl

-- A report that the installation has begun.
abbrev begun : Request
begun = record {
  method = "POST";
  segments = "status" ∷ [];
  host = "boot";
  header = λ _. "";
  query = λ _. "";
  form_value = λ name. if name == "phase" then "InProgress" else "node";
}

begun-IsReport : IsReport begun in_progress "Installation in progress"
unfolding is_valid_name isoboot.Server.Names.name_matches isoboot.Server.Names.name_rest
    isoboot.Server.Names.is_alphanumeric isoboot.Server.Names.is_name_char isoboot.Prelude.nat_eq
    native.Mathlib.Decide.ℕ_discrete string_eq isoboot.Prelude.lookup
    isoboot.Server.Status.allowed_phases
begun-IsReport = record { named = ground (arith, eq_iff "node" ""); valid = refl; allowed = refl }

abbrev begun_answer : Response × Unit {0}
begun_answer = update_status (update_provision_phase indexed (λ t. t) 5 "lab") begun tt

begun-accepted : begun_answer.0.status ≡ 200
unfolding update_status string_eq is_valid_name update_provision_phase
    isoboot.Api.provision_phase_eq isoboot.Exec.check
begun-accepted = refl

update_status-accepted_example :
    (phase : ProvisionPhase) × (message : String) × (p : Provision) × (s : Unit {0})
    × (begun.form_value "provisionName" ≢ "")
    × (is_valid_name (begun.form_value "provisionName") ≡ true)
    × (indexed.get_provision (record { name = "node"; namespace = "lab" }) tt ≡ (ok p, s))
    × Asks (begun.form_value "phase") p.status.phase phase message
    × (indexed.update_provision_status (moved 5 phase message p) s ≡ (ok tt, begun_answer.1))
update_status-accepted_example =
    update_status-accepted indexed (λ t. t) 5 "lab" begun tt begun-accepted

update_status-plan_example :
    ((q : Provision) × (plan (report 5 in_progress "Installation in progress") initialised ≡ some q)
      × (begun_answer ≡ (
        update_answer (indexed.update_provision_status q tt).0,
        (indexed.update_provision_status q tt).1,
      )))
    ⊎ ((plan (report 5 in_progress "Installation in progress") initialised ≡ none)
        × (begun_answer.0.status ≡ 409)
        × ((begun_answer.1 ≡ tt) ⊎ (begun_answer.1 ≡ tt)))
update_status-plan_example =
    update_status-plan indexed (λ t. t) 5 "lab" begun in_progress "Installation in progress"
      initialised tt tt begun-IsReport refl

-- A machine that asks what to boot, and its cluster.
abbrev asking : Request
asking = record begun {
  method = "GET";
  segments = "conditional-boot" ∷ [];
  query = λ _. "aa-bb-cc-dd-ee-ff";
}

abbrev board : Machine
board = record machine { spec = record { mac = "aa-bb-cc-dd-ee-ff" } }

abbrev rack : Client
rack = record lab {
  list_machines = λ _ fields. pure (select (matches machine_indexes fields) (board ∷ []));
  list_provisions = λ _ fields. pure (select (matches provision_indexes fields) (initialised ∷ []));
}

rack-IsIndexed : IsIndexed rack "lab" tt (board ∷ []) (initialised ∷ [])
rack-IsIndexed = record { lists_machines = λ fields. refl; lists_provisions = λ fields. refl }

-- Templates that are texts without actions.
abbrev literal_arguments : ArgumentTemplates
literal_arguments = record {
  Template = String;
  parse = λ text. ok text;
  execute = λ text _. ok text;
}

abbrev asked_answer : Response × Unit {0}
asked_answer =
    conditional_boot literal_arguments mirror.decimal "3128" asking
      (boot_directive_for_mac rack mirror.url_path (λ t. t) "lab") tt

conditional_boot-Answers_example :
    ((mac_matches "aa-bb-cc-dd-ee-ff" ≡ false)
      × (asked_answer.0.status ≡ 400)
      × (asked_answer.1 ≡ tt))
    ⊎ ((mac_matches "aa-bb-cc-dd-ee-ff" ≡ true)
        × Answers
            (pending_for "aa-bb-cc-dd-ee-ff"
              (select (has_mac "aa-bb-cc-dd-ee-ff") (board ∷ []))
              (initialised ∷ []))
            asked_answer
            tt)
conditional_boot-Answers_example =
    conditional_boot-Answers rack mirror.url_path (λ t. t) "lab" literal_arguments mirror.decimal
      "3128" asking tt (board ∷ []) (initialised ∷ []) rack-IsIndexed

-- Behind a proxy that forwards a port.
abbrev forwarded : String → Request
forwarded told = record begun {
  header = λ name. if name == "X-Forwarded-Port" then "8443" else "";
  host = told;
}

boot_host-IsPlain : IsPlain "boot"
unfolding isoboot.Server.Hosts.has_byte isoboot.Prelude.nat_eq native.Mathlib.Decide.ℕ_discrete
boot_host-IsPlain = record { no_colon = refl; no_open = refl; no_close = refl }

port-IsPlain : IsPlain "8080"
unfolding isoboot.Server.Hosts.has_byte isoboot.Prelude.nat_eq native.Mathlib.Decide.ℕ_discrete
port-IsPlain = record { no_colon = refl; no_open = refl; no_close = refl }

forwarded_port-IsPlain : IsPlain "8443"
unfolding isoboot.Server.Hosts.has_byte isoboot.Prelude.nat_eq native.Mathlib.Decide.ℕ_discrete
forwarded_port-IsPlain = record { no_colon = refl; no_open = refl; no_close = refl }

node_ip-resolve_host_example : node_ip (resolve_host (forwarded "boot:8080")) ≡ "boot"
unfolding string_eq
node_ip-resolve_host_example =
    node_ip-resolve_host (forwarded "boot:8080") "boot" "8080" boot_host-IsPlain
      (ground (arith, eq_iff "boot" "")) (ground (arith, eq_iff "8443" "")) port-IsPlain
      forwarded_port-IsPlain (inr refl)

resolve_host-forwarded_port_example :
    resolve_host (forwarded "boot:8080") ≡ "boot" <> (":" <> "8443")
unfolding string_eq
resolve_host-forwarded_port_example =
    resolve_host-forwarded_port (forwarded "boot:8080") "boot" "8080" boot_host-IsPlain
      (ground (arith, eq_iff "boot" "")) (ground (arith, eq_iff "8443" "")) port-IsPlain (inr refl)

resolve_host-bracketed_example :
    resolve_host (forwarded "[fd00::1]") ≡ "[" <> (("[" <> ("fd00::1" <> "]")) <> ("]:" <> "8443"))
unfolding isoboot.Server.Hosts.has_byte string_eq isoboot.Prelude.nat_eq
    native.Mathlib.Decide.ℕ_discrete
resolve_host-bracketed_example =
    resolve_host-bracketed (forwarded "[fd00::1]") "fd00::1" refl refl refl
      (ground (arith, eq_iff "8443" "")) refl

patterns-Matches_example :
    ((mac_matches "52-54-00-12-34-56" ≡ true) ↔ Matches (mac_regexp 5) "52-54-00-12-34-56")
    × ((name_matches "52-54-00-12-34-56" ≡ true) ↔ Matches name_regexp "52-54-00-12-34-56")
patterns-Matches_example = patterns-Matches "52-54-00-12-34-56"

-- A cluster whose state counts the updates of provisions.
abbrev counted : Client
counted = record {
  State = ℕ;
  get_boot_artifact = λ _. fail (api_not_found "");
  get_boot_config = λ _. fail (api_not_found "");
  get_provision = λ _. pure initialised;
  get_provision_automation = λ _. fail (api_not_found "");
  get_config_map = λ _. fail (api_not_found "");
  get_secret = λ _. fail (api_not_found "");
  list_machines = λ _ fields. pure (select (matches machine_indexes fields) (board ∷ []));
  list_provisions = λ _ fields. pure (select (matches provision_indexes fields) (initialised ∷ []));
  list_boot_configs = λ _. pure [];
  update_artifact_status = λ _. pure tt;
  update_config_status = λ _. pure tt;
  update_provision_status = λ _ n. (ok tt, n + 1);
}

abbrev Unchanged : ℕ → ℕ → Type 0
Unchanged m n = n ≡ m

unchanged : {A : Type 0} (r : Exec ℕ A) → ((n : ℕ) → (r n).1 ≡ n) → Follows Unchanged r
unchanged r h = record { at = h }

counted-ReadsFollow : ReadsFollow counted Unchanged
counted-ReadsFollow = record {
  order = record { same = λ n. refl; then_ = λ l m n p q. q ∙ p };
  boot_artifacts = λ key. unchanged _ (λ n. refl);
  boot_configs = λ key. unchanged _ (λ n. refl);
  provisions = λ key. unchanged _ (λ n. refl);
  automations = λ key. unchanged _ (λ n. refl);
  config_maps = λ key. unchanged _ (λ n. refl);
  secrets = λ key. unchanged _ (λ n. refl);
  machine_lists = λ ns fields. unchanged _ (λ n. refl);
  provision_lists = λ ns fields. unchanged _ (λ n. refl);
}

serve-Follows_example :
    (serve counted mirror.url_path
      (λ t. t)
      mirror.decimal
      literal_arguments
      literal
      "lab"
      "3128"
      5
      asking
      7).1
    ≡ 7
serve-Follows_example =
    serve-Follows counted mirror.url_path (λ t. t) mirror.decimal literal_arguments literal "lab"
      "3128" Unchanged counted-ReadsFollow 5 asking 7 (ground (arith, eq_iff "GET" "POST"))
