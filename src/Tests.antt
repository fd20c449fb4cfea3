-- ===== src/Tests.antt =====
-- A small cluster, a data directory and a server for the tests, and the theorems at work on them.
mod Handlers
mod Booting
mod Starting
use isoboot.Prelude.{
  ℕ, String, ◌≡◌, refl, ◌≢◌, Option, none, some, List, [], ◌∷◌, ok, inl, api_not_found, arith, ◌⊎◌,
  select, err, true, Error, lookup, string_eq,
}
use text.Mathlib.TextEquality.{eq_iff}
use isoboot.Paths.{FilePath}
use isoboot.Paths.Safety.{IsName}
use isoboot.Url.{filename_from_url}
use isoboot.Url.Laws.{filename_from_url-IsName, filename_from_url-last}
use isoboot.Api.{
  ObjectMeta, BootArtifact, BootArtifactPhase, ObjectKey, Machine, ProvisionAutomation, Provision,
  ProvisionPhase, in_progress, complete,
}
use isoboot.Client.{Client}
use isoboot.Exec.{pure, fail, check}
use isoboot.Disk.{Disk}
use isoboot.Disk.Content.{content_at}
use isoboot.World.{Outside, World, response, no_requeue}
use isoboot.Artifact.{file_path, reconcile}
use isoboot.Artifact.Download.{key_of, tmp_path}
use isoboot.Artifact.Steps.{Verified}
use isoboot.Artifact.Verify.{IsDelivered}
use isoboot.Artifact.Completion.{IsServing, IsOffered, HasRoom}
use isoboot.Artifact.Progress.{reconcile-delivers}
use isoboot.Artifact.Files.{IsStable, Sound, reconcile-Sound, reconcile-other_files}
use isoboot.Artifact.Delivery.{reconcile-IsDelivered}
use isoboot.Lifecycle.{Server, Reach, here, next, read, write, start, report, plan}
use isoboot.Provision
use isoboot.Prelude.{◌↔◌, ◌≤◌, ◌+◌}
use isoboot.Api.{BootConfig, BootConfigPhase}
use isoboot.Config.{find_boot_configs_for_artifact}
use isoboot.Config.Watch.{Requested, Wanted, find_boot_configs_for_artifact-Wanted}
use isoboot.Indexers.{matches, machine_indexes, provision_indexes}
use isoboot.Httpd.Provision.{pending_provision_for_mac, update_provision_phase}
use isoboot.Httpd.Pending.{IsIndexed, has_mac, pending_for, pending_provision_for_mac-pending_for}
use isoboot.Httpd.Automation.{Templates, render_automation_file}
use isoboot.Httpd.Missing.{render_automation_file-missing_config_map}
use isoboot.Errors.{is_automation_not_found}
use isoboot.Artifact.Status.{int32_sign}
use isoboot.Artifact.Backoff.{
  Reported, IsBackoff, IsPanic, set_failure-bounds, set_failure-overflow,
}
use isoboot.Lifecycle.Refinement.{Refused, update_provision_phase-plan}
use isoboot.Lifecycle.{bump}
use isoboot.Lifecycle.Progress.{progress, writes, Reach-writes}
use isoboot.Lifecycle.Invariant.{created, Chain, Reach-Chain, Reach-complete}

abbrev pub meta : String → ObjectMeta
meta name = record { name = name; namespace = "lab"; resource_version = 1 }

abbrev pub image : BootArtifact
image = record {
  meta = meta "debian";
  spec = record { url = "http://mirror/debian/linux"; sha256 = some "AB"; sha512 = none };
  status = record {
    phase = BootArtifactPhase.unset;
    message = "";
    failure_count = 0;
    last_failure_time = none;
    last_checked = none;
  };
}

-- A cluster with the one artifact; it accepts every status.
abbrev pub lab : Client
lab = record {
  State = Unit {0};
  get_boot_artifact = λ _. pure image;
  get_boot_config = λ _. fail (api_not_found "");
  get_provision = λ _. fail (api_not_found "");
  get_provision_automation = λ _. fail (api_not_found "");
  get_config_map = λ _. fail (api_not_found "");
  get_secret = λ _. fail (api_not_found "");
  list_machines = λ _ _. pure [];
  list_provisions = λ _ _. pure [];
  list_boot_configs = λ _. pure [];
  update_artifact_status = λ _. pure tt;
  update_config_status = λ _. pure tt;
  update_provision_status = λ _. pure tt;
}

abbrev pub mirror : Outside
mirror = record {
  url_path = λ _. some "/debian/linux";
  sha256 = λ _. "ab";
  sha512 = λ _. "cd";
  quote = λ text. text;
  decimal = λ _. "0";
  fetch = λ _. response 200 (some 2) (7 ∷ 8 ∷ []) none;
  now = 100;
  has_recorder = true;
}

abbrev pub data_dir : FilePath
data_dir = "data" ∷ []

abbrev world : World lab
world = record { api = tt; disk = record { nodes = []; clock = 0; faults = [] }; events = [] }

image-IsStable : IsStable lab image
image-IsStable = record { at = λ s found e. (cc, cc, cc) }

reconcile-succeeds : (reconcile lab mirror data_dir (key_of image) world).0 ≡ ok no_requeue
unfolding reconcile isoboot.Exec.check isoboot.World.on_api isoboot.World.on_disk isoboot.Disk.stat
    isoboot.Prelude.lookup isoboot.Errors.is_not_exist isoboot.Disk.mkdir_all isoboot.Paths.join
    filename_from_url isoboot.Prelude.string_eq isoboot.Paths.base isoboot.Prelude.insert
    isoboot.Prelude.texts_eq isoboot.Exec.deferring isoboot.Disk.create isoboot.Disk.copy
    isoboot.Disk.sync isoboot.Api.artifact_phase_eq isoboot.Artifact.Download.accept
    isoboot.Artifact.Download.download isoboot.Artifact.Download.length_differs
    isoboot.Artifact.Download.receive isoboot.Artifact.Download.request
    isoboot.Artifact.Download.store isoboot.Artifact.Download.sync_dir tmp_path
    isoboot.Artifact.Status.digest isoboot.Artifact.Status.expected_hash
    isoboot.Artifact.Status.set_failure isoboot.Artifact.Status.set_ready file_path
    isoboot.Artifact.hash_file isoboot.Artifact.reconcile_found isoboot.Artifact.verify_existing
    isoboot.Disk.copy_now isoboot.Disk.mkdir_last isoboot.Disk.mkdir_now isoboot.Disk.open_file
    isoboot.Disk.open_now isoboot.Disk.read isoboot.Disk.read_now isoboot.Disk.remove
    isoboot.Disk.remove_now isoboot.Disk.rename isoboot.Disk.rename_now isoboot.Disk.stat_now
    isoboot.Disk.children isoboot.Disk.is_directory isoboot.Disk.real_path isoboot.Disk.target_of
    isoboot.Errors.error_text isoboot.Errors.is_not_found isoboot.Exec.annotate
    isoboot.Hash.equal_fold isoboot.Hash.to_lower isoboot.Paths.follow_from isoboot.Paths.parts_of
    isoboot.Paths.resolve isoboot.Paths.resolve_all isoboot.Paths.split isoboot.Paths.text_of
    isoboot.Prelude.nat_eq isoboot.Prelude.keep native.Mathlib.Decide.ℕ_discrete
reconcile-succeeds = refl

reconcile-Sound_example :
    Sound
      (Verified mirror image)
      (file_path mirror data_dir image)
      world.disk
      (reconcile lab mirror data_dir (key_of image) world).1.disk
reconcile-Sound_example = reconcile-Sound lab mirror data_dir image image-IsStable world

reconcile-IsDelivered_example :
    IsDelivered mirror image
      (file_path mirror data_dir image)
      (reconcile lab mirror data_dir (key_of image) world).1.disk
reconcile-IsDelivered_example =
    reconcile-IsDelivered lab mirror data_dir image image-IsStable image world refl
      reconcile-succeeds

image-IsServing : IsServing lab image
image-IsServing = record { gets = λ s. (image, refl); takes = λ a s. refl }

image-IsOffered : IsOffered mirror image
unfolding isoboot.Artifact.Download.length_differs isoboot.Prelude.nat_eq isoboot.Hash.equal_fold
    isoboot.Artifact.Status.digest isoboot.Artifact.Status.expected_hash
image-IsOffered = record {
  content_length = some 2;
  body = 7 ∷ 8 ∷ [];
  sent = refl;
  fits = refl;
  verified = refl;
}

world-HasRoom : HasRoom (file_path mirror data_dir image) world.disk
unfolding isoboot.Disk.Quiet.OpenWay isoboot.Prelude.lookup tmp_path file_path filename_from_url
    isoboot.Paths.join isoboot.Paths.base isoboot.Paths.parts_of isoboot.Paths.resolve
    isoboot.Paths.resolve_all isoboot.Paths.split isoboot.Paths.text_of isoboot.Prelude.string_eq
    isoboot.Prelude.nat_eq native.Mathlib.Decide.ℕ_discrete
world-HasRoom = (refl, (((tt, inl refl), inl refl), inl refl), inl refl, inl refl)

pub debian-IsName : IsName "debian"
debian-IsName = record {
  not_empty = ground (arith, eq_iff "debian" "");
  not_dot = ground (arith, eq_iff "debian" ".");
  not_dots = ground (arith, eq_iff "debian" "..");
  no_slash = omega arith;
}

reconcile-delivers_example :
    ((reconcile lab mirror data_dir (key_of image) world).0 ≡ ok no_requeue)
    × IsDelivered mirror image
        (file_path mirror data_dir image)
        (reconcile lab mirror data_dir (key_of image) world).1.disk
reconcile-delivers_example =
    reconcile-delivers lab mirror data_dir image image-IsServing image-IsStable image-IsOffered
      debian-IsName world world-HasRoom

abbrev pub other_path : FilePath
other_path = "vmlinuz" ∷ "old" ∷ "data" ∷ []

other_path-ne : other_path ≢ file_path mirror data_dir image
unfolding file_path filename_from_url isoboot.Paths.join isoboot.Paths.base isoboot.Paths.parts_of
    isoboot.Paths.resolve isoboot.Paths.resolve_all isoboot.Paths.split isoboot.Paths.text_of
    isoboot.Prelude.string_eq isoboot.Prelude.nat_eq native.Mathlib.Decide.ℕ_discrete
other_path-ne e = cc

other_path-ne_tmp : other_path ≢ tmp_path (file_path mirror data_dir image)
unfolding tmp_path file_path filename_from_url isoboot.Paths.join isoboot.Paths.base
    isoboot.Paths.parts_of isoboot.Paths.resolve isoboot.Paths.resolve_all isoboot.Paths.split
    isoboot.Paths.text_of isoboot.Prelude.string_eq isoboot.Prelude.nat_eq
    native.Mathlib.Decide.ℕ_discrete
other_path-ne_tmp e = cc

reconcile-other_files_example :
    content_at (reconcile lab mirror data_dir (key_of image) world).1.disk other_path
    ≡ content_at world.disk other_path
reconcile-other_files_example =
    reconcile-other_files lab mirror data_dir image image-IsStable other_path world other_path-ne
      other_path-ne_tmp

filename_from_url-IsName_example :
    IsName (filename_from_url mirror.url_path "http://mirror/debian/linux")
filename_from_url-IsName_example =
    filename_from_url-IsName mirror.url_path "http://mirror/debian/linux"

linux-IsName : IsName "linux"
linux-IsName = record {
  not_empty = ground (arith, eq_iff "linux" "");
  not_dot = ground (arith, eq_iff "linux" ".");
  not_dots = ground (arith, eq_iff "linux" "..");
  no_slash = omega arith;
}

filename_from_url-last_example :
    filename_from_url mirror.url_path "http://mirror/debian/linux" ≡ "linux"
filename_from_url-last_example =
    filename_from_url-last mirror.url_path "http://mirror/debian/linux" "/debian" "linux" refl
      linux-IsName

-- A provision as it is created, and its versions after the reconciler and the machine's reports.
abbrev pub provision : Provision
provision = record {
  meta = meta "node";
  spec = record {
    machine_ref = "m";
    boot_config_ref = "b";
    provision_automation_ref = "a";
    config_maps = [];
    secrets = [];
  };
  status = record { phase = ProvisionPhase.unset; message = ""; last_updated = none; ip = "" };
}

abbrev at_phase : ℕ → ProvisionPhase → Provision
at_phase n phase = record provision {
  meta = record provision.meta { resource_version = n };
  status = record { phase = phase; message = "ok"; last_updated = some 5; ip = "" };
}

abbrev pub initialised : Provision
initialised = record provision {
  meta = record provision.meta { resource_version = 2 };
  status = record provision.status { phase = ProvisionPhase.pending };
}

abbrev stored : Provision → List Provision → List Provision → Server
stored current past held = record { current = current; past = past; held = held }

abbrev pending_server : Server
pending_server = stored initialised (provision ∷ []) (initialised ∷ provision ∷ [])

abbrev pending_server_unread : Server
pending_server_unread = stored initialised (provision ∷ []) (provision ∷ [])

pending_server-Reach : Reach (created provision) pending_server
unfolding isoboot.Lifecycle.plan isoboot.Lifecycle.accept isoboot.Provision.initialise
    isoboot.Api.provision_phase_eq native.Mathlib.Decide.ℕ_discrete isoboot.Prelude.nat_eq
pending_server-Reach =
    next
      (next (next here (read (created provision) provision (inl refl))) (
        write (stored provision [] (provision ∷ [])) {t = pending_server_unread} start provision
          (record provision { status = record provision.status { phase = ProvisionPhase.pending } })
          (inl refl) (ground arith) (ground arith)))
      (read pending_server_unread initialised (inl refl))

Reach-Chain_example : Chain pending_server.current pending_server.past
Reach-Chain_example = Reach-Chain provision pending_server pending_server-Reach

Reach-writes_example :
    (writes pending_server-Reach ≤ 3)
    × (progress provision.status.phase + writes pending_server-Reach
        ≡ progress pending_server.current.status.phase)
Reach-writes_example = Reach-writes provision pending_server pending_server-Reach

abbrev done : Provision
done = at_phase 1 complete

Reach-complete_example : done.status.phase ≡ complete
Reach-complete_example =
    Reach-complete done (created done) (stored done [] (done ∷ [])) here
      (next here (read (created done) done (inl refl))) refl

-- The failures of a new artifact, and of one whose count has reached the largest int32.
set_failure-bounds_example : Reported lab mirror image "HTTP 404" world 1 (IsBackoff 1)
set_failure-bounds_example = set_failure-bounds lab mirror image "HTTP 404" world (omega arith)

abbrev worn : BootArtifact
worn = record image { status = record image.status { failure_count = 2147483647 } }

set_failure-overflow_example : Reported lab mirror worn "HTTP 404" world int32_sign IsPanic
set_failure-overflow_example = set_failure-overflow lab mirror worn "HTTP 404" world (omega arith)

-- A cluster with one machine and one pending provision for it.
abbrev pub machine : Machine
machine = record { meta = meta "m"; spec = record { mac = "aa-bb" } }

abbrev pub indexed : Client
indexed = record lab {
  get_provision = λ _. pure initialised;
  list_machines = λ _ fields. pure (select (matches machine_indexes fields) (machine ∷ []));
  list_provisions = λ _ fields. pure (select (matches provision_indexes fields) (initialised ∷ []));
}

indexed-IsIndexed : IsIndexed indexed "lab" tt (machine ∷ []) (initialised ∷ [])
indexed-IsIndexed = record { lists_machines = λ fields. refl; lists_provisions = λ fields. refl }

pending_provision_for_mac-pending_for_example :
    pending_provision_for_mac indexed "lab" "aa-bb" tt
    ≡ (pending_for "aa-bb" (select (has_mac "aa-bb") (machine ∷ [])) (initialised ∷ []), tt)
pending_provision_for_mac-pending_for_example =
    pending_provision_for_mac-pending_for indexed "lab" "aa-bb" tt (machine ∷ []) (initialised ∷ [])
      indexed-IsIndexed

abbrev lab_key : ObjectKey
lab_key = record { name = "node"; namespace = "lab" }

update_provision_phase-plan_example :
    ((q : Provision) × (plan (report 5 in_progress "ok") initialised ≡ some q)
      × (update_provision_phase indexed (λ t. t) 5 "lab" "node" in_progress "ok" tt
          ≡ indexed.update_provision_status q tt))
    ⊎ ((plan (report 5 in_progress "ok") initialised ≡ none)
        × Refused
            (update_provision_phase indexed (λ t. t) 5 "lab" "node" in_progress "ok" tt)
            tt
            tt)
update_provision_phase-plan_example =
    update_provision_phase-plan indexed (λ t. t) 5 "lab" "node" "ok" in_progress initialised tt tt
      refl

-- A cluster that stores one Provision, and counts its versions.
abbrev single : Client
single = record {
  State = Provision;
  get_boot_artifact = λ _. fail (api_not_found "");
  get_boot_config = λ _. fail (api_not_found "");
  get_provision = λ _ s. (ok s, s);
  get_provision_automation = λ _. fail (api_not_found "");
  get_config_map = λ _. fail (api_not_found "");
  get_secret = λ _. fail (api_not_found "");
  list_machines = λ _ _. pure [];
  list_provisions = λ _ _. pure [];
  list_boot_configs = λ _. pure [];
  update_artifact_status = λ _. pure tt;
  update_config_status = λ _. pure tt;
  update_provision_status = λ q s. (ok tt, record (bump s) { status = q.status });
}

-- A provision whose config map is not there.
abbrev served : Provision
served = record initialised { spec = record provision.spec { config_maps = "settings" ∷ [] } }

abbrev automation : ProvisionAutomation
automation = record { meta = meta "a"; spec = record { files = ("preseed", "text") ∷ [] } }

abbrev without_settings : Client
without_settings = record lab {
  get_provision = λ _. pure served;
  get_provision_automation = λ _. pure automation;
}

-- Templates that are texts without actions.
abbrev pub literal : Templates
literal = record { Template = String; parse = λ text. ok text; execute = λ text _. ok text }

render_automation_file-missing_config_map_example :
    (e : Error) × (render_automation_file without_settings
        (λ t. t)
        literal
        "lab"
        "node"
        "preseed"
        "url"
        tt
      ≡ (err e, tt))
    × (is_automation_not_found e ≡ true)
unfolding lookup string_eq isoboot.Errors.is_not_found
render_automation_file-missing_config_map_example =
    render_automation_file-missing_config_map without_settings (λ t. t) literal "lab" "node"
      "preseed" "url" "text" "settings" [] served automation (api_not_found "") tt tt tt tt refl
      refl refl refl refl refl

-- A configuration that boots the artifact's image, and one that does not.
abbrev config : String → String → BootConfig
config name ref = record {
  meta = meta name;
  spec = record {
    netboot = none;
    iso = some (record { artifact_ref = ref; kernel_path = "k"; initrd_path = "i" });
    kernel_args = "";
  };
  status = record { phase = BootConfigPhase.unset; message = "" };
}

abbrev configs : List BootConfig
configs = config "a" "debian" ∷ config "b" "alpine" ∷ []

abbrev watched : Client
watched = record lab { list_boot_configs = λ _. pure configs }

find_boot_configs_for_artifact-Wanted_example :
    (keys : List ObjectKey) × (find_boot_configs_for_artifact watched image tt ≡ (ok keys, tt))
    × ((key : ObjectKey) → Requested key keys ↔ Wanted "debian" key configs)
find_boot_configs_for_artifact-Wanted_example =
    find_boot_configs_for_artifact-Wanted watched image configs tt tt refl
