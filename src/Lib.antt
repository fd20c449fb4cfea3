-- ===== src/Lib.antt =====
-- isoboot: a Kubernetes controller and an HTTP server that boot machines over the network.
--
-- The program. A BootArtifact names a URL and a digest; its controller downloads the file below the
-- data directory and verifies it. A BootConfig puts verified artifacts together into a directory that
-- is served. A Machine has a MAC address; a Provision says what a machine boots, and moves from phase
-- to phase: its controller gives it the first phase, and the machine reports the others to the HTTP
-- server, which also answers a booting machine with the directive of its one pending Provision and
-- with rendered automation files.
--
-- Which file models what:
--   Api          api/v1alpha1: the resources as records, the phases as data types.
--   Client       the calls of controller-runtime's client that the program makes, as a record over
--                a state of its own; nothing is assumed of it but where a theorem says so.
--   Errors       errors as values that wrap one another, and the tests that walk the chain.
--   Exec         Go functions with an error result, as functions from a state to a result and a state.
--   Paths        path.Base, path.Join and filepath.Join on components, kept with the last one first, and
--                where a relative symbolic link leads.
--   Disk         the operating system's files: a table from paths to files, links and directories, with
--                a clock and a list that makes any call fail that it says, so that theorems on all
--                disks cover all failures.
--   Url          internal/urlutil/urlutil.go.
--   Hash         strings.EqualFold on ASCII digests.
--   World        the state of a reconciler (cluster, disk, events), and the outside: the HTTP answer, the
--                digests, url.Parse, the time.
--   Artifact     internal/controller/bootartifact_controller.go. `Reconcile` is `reconcile`,
--                `verifyExisting` is `verify_existing`, `download` is `download`, `request`, `store` and
--                `accept` one after the other, `setReady` and `setFailure` are in Artifact/Status.
--   Config       internal/controller/bootconfig_controller.go. `Reconcile`, `reconcileISO` are in
--                Config/Assemble, `ensureSymlink` and `ensureFileSymlink` in Config/Links,
--                `concatenateFiles` and `upToDate` in Config/Concat, `extractFromISO` and `extractFile` in
--                Config/Extract, the reports of the status and the watch on artifacts in Config itself.
--   Indexers     internal/controller/indexers.go.
--   Provision    internal/controller/provision_controller.go; what it brings a Provision to is in
--                Provision/Settled.
--   Httpd        internal/httpd: provision.go, boot.go and automation.go. That the directives of boot.go
--                name what the controller makes is in Config/Directive; the lookups as calls that only
--                read are in Httpd/Reads.
--   Server       cmd/httpd/main.go: the handlers, as functions from a request and a state to an answer
--                and a state (Server/Boot, Server/Automation, Server/Status), `resolveHost` (Server/Hosts),
--                the patterns for addresses and names (Server/Names; what their operators mean is in
--                Server/Names/Regexp), the choice of a handler (Server).
--   Lifecycle    the updates of one Provision by the controller, the server and users, in any order,
--                against an API server that refuses an update made from an old version.
--   Startup      cmd/main.go, the end of cmd/httpd/main.go, and the methods `SetupWithManager`: flags and
--                options (Startup/Options), the calls that the two programs make one after the other
--                (Startup/Controllers, Startup/HttpServer), over libraries that are a parameter; a log
--                of the calls stands for them in Startup/Recorder.
--   Tests        test data, and each theorem on it.
--
-- Bounds. Symbolic links are followed forty times, as Linux does. The failure count of an artifact is an
-- int32 that wraps; a backoff is in seconds. Contents are lists of bytes in full. No function here
-- needs other fuel.
--
-- Not modelled. The parsing of flags, the registration of schemes, logging, and the timeouts of the
-- server; the generated code of api/v1alpha1; the charts. Goroutines begin in the order of the
-- program, and what comes of them is one event at the end. The reader of ISO images
-- and the names that os.CreateTemp picks are parameters; an image is read when it is opened, and its
-- answers depend on its bytes only. Requests are parsed by net/http; the host is an ASCII text.
-- The reading of a body and its hashing are one call here, a write that ends early leaves a part of
-- the body; file descriptors are paths, since no other process renames files below the data
-- directory.
pub mod Prelude
pub mod Paths
pub mod Url
pub mod Exec
pub mod Disk
pub mod Api
pub mod Client
pub mod Errors
pub mod Hash
pub mod World
pub mod Artifact
pub mod Config
pub mod Indexers
pub mod Httpd
pub mod Provision
pub mod Lifecycle
pub mod Server
pub mod Startup
mod Tests
