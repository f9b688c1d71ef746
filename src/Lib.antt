-- ===== src/Lib.antt =====
-- The repository has two large parts that decide something. The first serves language models on a home
-- fleet: Python services decide which request may use which graphics card. The second tidies media
-- libraries and keeps a ledger of what it may delete.
--
-- Each machine has a registry of models (models.json); presets change a model's arguments and
-- geometry (shared/modelctl.py). In front of one backend stands either the admission server
-- (shared/admission/server.py), which counts requests by role, or the fixed-profile gateway
-- (shared/serving/gateway.py), which also changes the loaded profile and takes operator actions.
--
-- Files:
-- - Prelude and its children: shared names, tests on numbers, lists, dictionaries in insertion order, and
--   exceptions as values.
-- - Roles: the roles of a request.
-- - Registry, Registry/Removal, Registry/Effective: effective_models and fleet_capacity of shared/modelctl.py.
-- - Selection, Selection/Options: selection, save_selection, selection_options, is_experimental and
--   model_aliases of shared/modelctl.py.
-- - Switch, Switch/Written, Switch/Rollback: switch of shared/modelctl.py.
-- - Stream, Stream/Detection: the watch for the end of a streamed answer in both servers' handlers.
-- - Admission and its children: class Admission, the credentials of create_app and the admin requests of the
--   handler. Inspect is Admission.inspect; Bounds, Quarantine, Trace and Keys are about what the operations
--   guarantee, alone and over histories.
-- - Gateway and its children: class Coordinator. Reserve is reserve, activation and the handler's `finally`;
--   Control is control and _control; Trace has the histories; Clients is role.
-- - Shared and its children: class SharedCoordinator of shared/serving/shared_gateway.py, where several
--   backends share one card and requests share a backend's context, and fit_context of
--   shared/serving/headroom.py. Load has the loading and unloading of backends, Reserve the requests.
-- - Ledger and its children: the journal of media/core/ledger.py (the library tools of the same repository)
--   and remove of media/core/fsx.py. Authority is about deletions, Resume about rows that are
--   claimed; Runs has the table of runs.
-- - Names and its children: media/core/names.py. Clean is sanitise, Unique is unique (Fresh is about the
--   names it finds, Full and Total about when it finds one, Numbers about the digits), Paths is within and
--   relpath_under. unique_names is the naming loop of media/run.py.
-- - Gate and its children: media/core/gate.py. Paths is check_paths, RunDir is claim_run_dir, Mounts is fstype.
-- - Audiobooks and its children: media/audiolib. Catalog is catalog.py, Fetch is runner.py, and Jobs, with Start
--   and Settle, is controller.py.
-- - Encoder and its children: rtx5080/encoder. Sources and Tally read the disk, Start is start with its handler,
--   Teardown is teardown.py, Settle is status and cancel of controller.py.
-- - The modules named Examples hold runs on small concrete inputs.
--
-- How the model is made: an operation that holds the lock is a function from the state to a result and the
-- new state. `reserve` of the gateway lets the lock go while a profile loads, so it is two functions. What
-- comes from outside (the backend's answers, the clock, the service manager, `shlex.split`, `int`, SHA-256)
-- is an argument, as is `os.path.realpath`. Histories are data types of steps, so that any interleaving and
-- any answers are covered.
-- Texts whose characters matter are lists of code points (Prelude/Texts); Unicode's normal form and case are
-- parameters, and so is what a real path is. The removal of a flag (Registry.remove_while) runs on fuel, the
-- length of the list; each round shortens the list. The search of `unique` runs on the numbers that are left up
-- to 9999, where the source gives up; a claim of a run directory has 200 attempts, a fetch six, and the wait of
-- a cancellation as many polls as fit before its deadline. A teardown is given the answers of the service
-- manager; a call that fails is taken not to have been carried out, and neither is a write of a file that fails.
-- The entries of a fetch job are taken to have different destinations. Numbers that JSON may give another type
-- or sign are natural numbers. A request's session, title, location, kind and start time, which are only
-- shown, are left out, as are the forwarding of bytes, logging, and the rendering of configuration files.
--
-- Not modelled: the image controller of the same card (rtx5080/image-generation), the one-off programs over a
-- private library (media/music, media/photos, media/video and most of media/run.py), the model downloads
-- (shared/model_tools), the scraping of catalogs, and the benchmarks; most of these call programs, disks
-- and networks.
pub mod Prelude
pub mod Roles
pub mod Registry
pub mod Selection
pub mod Stream
pub mod Admission
pub mod Gateway
pub mod Shared
pub mod Ledger
pub mod Switch
pub mod Names
pub mod Gate
pub mod Audiobooks
pub mod Encoder
