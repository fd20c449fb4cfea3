-- ===== src/Tests/Booting.antt =====
-- A boot directory with its artifacts, and the theorems on the BootConfig controller at work on it.
use text.Mathlib.TextEquality.{eq_iff}
use isoboot.Prelude.{
  ◌==◌, string_eq, if◌then◌else◌, ℕ, String, ◌≡◌, ◌≢◌, refl, ◌⊎◌, Option, none, some, List, [], ◌∷◌,
  ◌++◌, Result, ok, err, plain, arith, false, texts_eq, subst,
}
use isoboot.Paths.Safety.{IsName}
use isoboot.Api.{
  BootConfigIsoSpec, ObjectKey, BootArtifact, BootArtifactPhase, BootConfig, BootConfigNetbootSpec,
  BootConfigPhase,
}
use isoboot.Client.{Client}
use isoboot.Exec.{pure}
use isoboot.Disk.{Disk, is_under, File, Node, file, directory}
use isoboot.Disk.Content.{content_at}
use isoboot.Disk.Effects.{Holds}
use isoboot.World.{World, no_requeue}
use isoboot.Artifact.Steps.{Verified}
use isoboot.Artifact.Rest.{Untouched, Whole, reconcile-rest}
use isoboot.Config.Concat.{concatenate_files}
use isoboot.Config.Concatenated.{UpToDate, concatenate_files-Holds}
use isoboot.Paths.{FilePath, join_text}
use isoboot.Url.{filename_from_url}
use isoboot.Httpd.Boot.{BootDirective, netboot_directive}
use isoboot.Config.Directive.{NamesBoth, netboot_directive-NamesBoth}
use isoboot.Config.Extract.{IsoReader, extract_from_iso}
use isoboot.Config.IsoMode.{IsServed, reconcile_iso-IsServed}
use isoboot.Config.Outputs.{BothExtracted, BothCurrent, extract_from_iso-BothExtracted}
use isoboot.Config.Assemble.{reconcile_netboot, reconcile_iso, reconcile}
use isoboot.Config.Netboot.{HasNames, IsAssembled, reconcile_netboot-IsAssembled}
use isoboot.Config.Isolation.{IsKeyed, reconcile-isolated}
use isoboot.Tests.{debian-IsName, meta, image, lab, mirror, data_dir, other_path, provision}

-- Two files, and an empty directory for their concatenation.
abbrev plain_file : List ℕ → Node
plain_file bytes = file (record { content = bytes; modified = 1; mode = 420 })

abbrev initrd_dir : FilePath
initrd_dir = "initrd" ∷ "node" ∷ "boot" ∷ "data" ∷ []

abbrev initrd_file : FilePath
initrd_file = "linux" ∷ "debian" ∷ "artifacts" ∷ "data" ∷ []

abbrev firmware_file : FilePath
firmware_file = "firmware" ∷ "extra" ∷ "artifacts" ∷ "data" ∷ []

abbrev two_files : Disk
two_files = record {
  nodes =
      (initrd_file, plain_file (7 ∷ 8 ∷ []))
      ∷ (firmware_file, plain_file (9 ∷ []))
      ∷ (initrd_dir, directory 1)
      ∷ [];
  clock = 2;
  faults = [];
}

abbrev concatenated : Result (Unit {0}) × Disk
concatenated = concatenate_files "temp" ("linux" ∷ initrd_dir) initrd_file firmware_file two_files

concatenated-succeeds : concatenated.0 ≡ ok tt
unfolding concatenate_files isoboot.Exec.check isoboot.Disk.stat isoboot.Prelude.lookup
    isoboot.Prelude.texts_eq isoboot.Disk.read_dir isoboot.Disk.create_temp isoboot.Exec.deferring
    isoboot.Disk.open_file isoboot.Prelude.insert isoboot.Disk.read isoboot.Disk.copy
    isoboot.Disk.sync isoboot.Disk.chmod isoboot.Disk.rename
concatenated-succeeds = refl

temp-ne : ◌≢◌ {A = String} "temp" "linux"
temp-ne = ground (arith, eq_iff "temp" "linux")

initrd_file-away : is_under initrd_dir initrd_file ≡ false
unfolding is_under texts_eq
initrd_file-away = refl

firmware_file-away : is_under initrd_dir firmware_file ≡ false
unfolding is_under texts_eq
firmware_file-away = refl

concatenate_files-Holds_example :
    Holds ("linux" ∷ initrd_dir) (7 ∷ 8 ∷ 9 ∷ []) concatenated.1
    ⊎ UpToDate "temp" "linux" initrd_dir initrd_file firmware_file
        (7 ∷ 8 ∷ [])
        (9 ∷ [])
        temp-ne
        initrd_file-away
        firmware_file-away
        two_files
        concatenated.1
unfolding isoboot.Prelude.lookup texts_eq
concatenate_files-Holds_example =
    concatenate_files-Holds "temp" "linux" initrd_dir initrd_file firmware_file (7 ∷ 8 ∷ [])
      (9 ∷ []) temp-ne initrd_file-away firmware_file-away two_files (refl, refl)
      concatenated-succeeds

-- A cluster with one artifact that is ready, and a configuration that boots it.
abbrev ready_image : BootArtifact
ready_image = record image { status = record image.status { phase = BootArtifactPhase.ready } }

abbrev netboot : BootConfigNetbootSpec
netboot = record { kernel_ref = "debian"; initrd_ref = "debian"; firmware_ref = "" }

abbrev booted : BootConfig
booted = record {
  meta = meta "node";
  spec = record { netboot = some netboot; iso = none; kernel_args = "" };
  status = record { phase = BootConfigPhase.unset; message = "" };
}

abbrev stocked : Client
stocked = record lab {
  get_boot_artifact = λ _. pure ready_image;
  get_boot_config = λ _. pure booted;
}

abbrev stocked_world : World stocked
stocked_world = record {
  api = tt;
  disk = record { nodes = []; clock = 0; faults = [] };
  events = [];
}

-- No image can be opened.
abbrev no_reader : IsoReader
no_reader = record {
  Image = Unit {0};
  Files = Unit {0};
  open_image = λ _. err (plain "no image");
  file_system = λ _. ok tt;
  open_entry = λ _ _. ok ([], none);
}

node-IsName : IsName "node"
node-IsName = record {
  not_empty = ground (arith, eq_iff "node" "");
  not_dot = ground (arith, eq_iff "node" ".");
  not_dots = ground (arith, eq_iff "node" "..");
  no_slash = omega arith;
}

ok-image :
    {a : BootArtifact} → ◌≡◌ {A = Result BootArtifact} (ok ready_image) (ok a) → ready_image ≡ a
ok-image e = cc

ready_image-Verified : Verified mirror ready_image (7 ∷ 8 ∷ [])
unfolding isoboot.Hash.equal_fold isoboot.Artifact.Status.digest
    isoboot.Artifact.Status.expected_hash
ready_image-Verified = refl

stocked-HasNames : HasNames stocked
stocked-HasNames = record {
  at = λ key s artifact e.
      subst (λ (a : BootArtifact). IsName a.meta.name) (ok-image e) debian-IsName;
}

abbrev booted_world : World stocked
booted_world =
    (reconcile_netboot stocked mirror no_reader "k" "i" data_dir booted netboot stocked_world).1

netboot-succeeds :
    (reconcile_netboot stocked mirror no_reader "k" "i" data_dir booted netboot stocked_world).0
    ≡ ok no_requeue
unfolding reconcile_netboot isoboot.Exec.check isoboot.World.on_api isoboot.Api.artifact_phase_eq
    isoboot.Prelude.string_eq isoboot.World.on_disk isoboot.Disk.mkdir_all isoboot.Paths.join
    isoboot.Prelude.lookup isoboot.Prelude.insert isoboot.Prelude.texts_eq isoboot.Disk.readlink
    isoboot.Url.filename_from_url isoboot.Paths.base isoboot.Disk.read_dir isoboot.Disk.symlink
    isoboot.Api.config_phase_eq
netboot-succeeds = refl

reconcile_netboot-IsAssembled_example :
    IsAssembled stocked mirror data_dir booted netboot booted_world.disk
reconcile_netboot-IsAssembled_example =
    reconcile_netboot-IsAssembled stocked mirror no_reader "k" "i" data_dir booted node-IsName
      stocked-HasNames netboot stocked_world netboot-succeeds

abbrev node_key : ObjectKey
node_key = record { name = "node"; namespace = "lab" }

stocked-IsKeyed : IsKeyed stocked node_key
stocked-IsKeyed = record { at = λ s bc e. cc }

other_path-away : is_under ("node" ∷ "boot" ∷ data_dir) other_path ≡ false
unfolding is_under texts_eq
other_path-away = refl

reconcile-isolated_example :
    content_at
      (reconcile stocked mirror no_reader "k" "i" data_dir node_key stocked_world).1.disk
      other_path
    ≡ content_at stocked_world.disk other_path
reconcile-isolated_example =
    reconcile-isolated stocked mirror no_reader "k" "i" data_dir node_key stocked-IsKeyed
      node-IsName other_path stocked_world other_path-away

-- An image with two entries, in a disk with a boot directory.
abbrev reader : IsoReader
reader = record no_reader {
  open_image = λ _. ok tt;
  open_entry = λ _ path. ok (if path == "/k" then 1 ∷ [] else 2 ∷ 3 ∷ [], none);
}

abbrev iso_file : FilePath
iso_file = "node.iso" ∷ "node" ∷ "artifacts" ∷ "data" ∷ []

abbrev node_dir : FilePath
node_dir = "node" ∷ "boot" ∷ "data" ∷ []

abbrev with_image : Disk
with_image = record two_files {
  nodes = (iso_file, plain_file (5 ∷ [])) ∷ (node_dir, directory 1) ∷ [];
}

abbrev extracted : Result (Unit {0}) × Disk
extracted =
    extract_from_iso mirror.quote mirror.decimal reader "tk" "ti" iso_file "k" "i" node_dir
      with_image

extracted-succeeds : extracted.0 ≡ ok tt
unfolding extract_from_iso isoboot.Exec.check isoboot.Disk.stat isoboot.Prelude.lookup texts_eq
    isoboot.Disk.open_file isoboot.Disk.read isoboot.Disk.create_temp isoboot.Exec.deferring
    isoboot.Disk.copy isoboot.Config.Extract.max_extracted_file_size isoboot.Disk.sync
    isoboot.Prelude.insert isoboot.Disk.chmod isoboot.Disk.rename isoboot.Disk.remove
    isoboot.Prelude.keep
extracted-succeeds = refl

tk-ne : ◌≢◌ {A = String} "tk" "vmlinuz"
tk-ne = ground (arith, eq_iff "tk" "vmlinuz")

ti-ne : ◌≢◌ {A = String} "ti" "initrd"
ti-ne = ground (arith, eq_iff "ti" "initrd")

ti-ne_kernel : ◌≢◌ {A = String} "ti" "vmlinuz"
ti-ne_kernel = ground (arith, eq_iff "ti" "vmlinuz")

extract_from_iso-BothExtracted_example :
    BothExtracted mirror.quote mirror.decimal reader "tk" "ti" iso_file "k" "i" node_dir tk-ne ti-ne
      ti-ne_kernel
      (5 ∷ [])
      extracted.1
    ⊎ BothCurrent mirror.quote mirror.decimal reader "tk" "ti" iso_file "k" "i" node_dir tk-ne ti-ne
        ti-ne_kernel
        (5 ∷ [])
        with_image
        extracted.1
unfolding isoboot.Prelude.lookup texts_eq
extract_from_iso-BothExtracted_example =
    extract_from_iso-BothExtracted mirror.quote mirror.decimal reader "tk" "ti" iso_file "k" "i"
      node_dir tk-ne ti-ne ti-ne_kernel (5 ∷ []) with_image refl extracted-succeeds

-- The same cluster, with a configuration that takes the kernel and the initrd from the image.
abbrev iso_spec : BootConfigIsoSpec
iso_spec = record { artifact_ref = "debian"; kernel_path = "k"; initrd_path = "i" }

abbrev iso_world : World stocked
iso_world = record stocked_world {
  disk = record two_files { nodes = (initrd_file, plain_file (5 ∷ [])) ∷ [] };
}

iso-succeeds :
    (reconcile_iso stocked mirror reader "tk" "ti" data_dir booted iso_spec iso_world).0
    ≡ ok no_requeue
unfolding reconcile_iso string_eq isoboot.Exec.check isoboot.World.on_api
    isoboot.Api.artifact_phase_eq isoboot.World.on_disk isoboot.Disk.mkdir_all isoboot.Paths.join
    isoboot.Prelude.lookup texts_eq isoboot.Prelude.insert isoboot.Disk.stat
    isoboot.Url.filename_from_url isoboot.Paths.base isoboot.Disk.open_file isoboot.Disk.read
    isoboot.Disk.create_temp isoboot.Exec.deferring isoboot.Disk.copy
    isoboot.Config.Extract.max_extracted_file_size isoboot.Disk.sync isoboot.Disk.chmod
    isoboot.Disk.rename isoboot.Disk.remove isoboot.Prelude.keep isoboot.Disk.readlink
    isoboot.Disk.symlink isoboot.Api.config_phase_eq
iso-succeeds = refl

reconcile_iso-IsServed_example :
    IsServed stocked mirror data_dir booted iso_spec
      (reconcile_iso stocked mirror reader "tk" "ti" data_dir booted iso_spec iso_world).1.disk
reconcile_iso-IsServed_example =
    reconcile_iso-IsServed stocked mirror reader "tk" "ti" data_dir booted node-IsName
      stocked-HasNames iso_spec iso_world iso-succeeds

-- The directive of the configuration.
abbrev directive : BootDirective
directive = record {
  kernel_path =
      join_text ("node" ∷ "kernel" ∷ filename_from_url mirror.url_path ready_image.spec.url ∷ []);
  kernel_args = "";
  initrd_path =
      join_text ("node" ∷ "initrd" ∷ filename_from_url mirror.url_path ready_image.spec.url ∷ []);
  iso_path = "";
  provision_name = "node";
}

directive-answered :
    (netboot_directive stocked mirror.url_path mirror.quote "lab" provision booted netboot tt).0
    ≡ ok (some directive)
unfolding netboot_directive isoboot.Exec.check isoboot.Httpd.Boot.get_artifact
directive-answered = refl

netboot_directive-NamesBoth_example :
    NamesBoth stocked mirror data_dir booted node-IsName "lab" provision netboot directive
netboot_directive-NamesBoth_example =
    netboot_directive-NamesBoth stocked mirror data_dir booted node-IsName "lab" provision netboot
      tt directive directive-answered

-- The artifact's file, whole, in the same cluster.
abbrev whole_world : World stocked
whole_world = record stocked_world { disk = two_files }

whole_world-Whole :
    Whole stocked mirror data_dir ready_image (7 ∷ 8 ∷ []) refl ready_image-Verified whole_world
unfolding isoboot.Artifact.file_path isoboot.Paths.join filename_from_url isoboot.Prelude.lookup
    texts_eq isoboot.Paths.base
whole_world-Whole = (refl, refl)

reconcile-rest_example :
    let done = isoboot.Artifact.reconcile stocked mirror data_dir node_key whole_world in
    (done.0 ≡ ok no_requeue) × Untouched whole_world tt done.1
reconcile-rest_example =
    reconcile-rest stocked mirror data_dir ready_image (7 ∷ 8 ∷ []) refl ready_image-Verified
      node_key whole_world refl whole_world-Whole
