-- ===== src/Lib.antt =====
-- AI-Lab serves several local models from one card. A request names a model; the gateway decides
-- when it runs, which models leave the card for it and what it may use. Around the gateway stand
-- the clients and their sessions, the subscription models of vendors, the background builds, the
-- alarms of the card and what the pages read of all this.
--
-- The parts, their files and the code they model:
-- - Admission (ai_lab/gateway/admission/parts.py, planning.py, scheduler.py): `Admission.Parts` has
--   the waiting requests and the state of the queue, `Planning` the methods of `Planner`,
--   `Scheduler` those of `Scheduler` and the loop of `_pump`, `System` every interleaving of them as
--   a step relation, since each method holds the one lock. A request is told by its number. What
--   `still_wanted` answers, how a load ends and who must make room are functions the steps are given.
--   `Admission.Lease` is `Lease.release` of ai_lab/gateway/state.py and `Gateway.finished` of core.py.
-- - Gateway (ai_lab/gateway/core.py, control.py): the gateway over the scheduler, the loader and the
--   book: adoption, forced stops, the switch and what the buttons are told.
-- - Loading (ai_lab/gateway/loading.py, card_operations.py): the sweep and the load of a model. The
--   card's operations are an interface with a law for an `unload` that says it is `ok`.
-- - Eviction (ai_lab/gateway/eviction.py): the models that leave, which the scheduler asks for.
-- - Replaced (ai_lab/gateway/admission/replaced.py): what took a model off, told to its calls.
-- - Budget (ai_lab/budget.py and ai_lab/gateway/resources.py): memory pools, which eviction reads.
-- - Quiet (ai_lab/gateway/resources.py): the waits for a stopped model's memory.
-- - Health (ai_lab/gateway/progress.py, restart.py): whether an engine still works, and its restart.
-- - Clients (ai_lab/clients/): `Books` has sessions, presence, registry and power, `Security` the
--   switches and the password, `Door` who is calling, `Access` all calls of the object over them.
-- - Providers (ai_lab/providers/): `Gate` is gate.py, `Failures` errors.py, `Pool` the loop of pool.py,
--   `Usage` usage.py.
-- - Placement (ai_lab/cpu_models/placement.py, server.py): where an embeddings model answers, on the
--   card or on the processor, and how it makes way for the card's own models.
-- - Lane (ai_lab/cpu_models/lane.py): the queue of one embeddings model, each step of its requests and
--   stops on its own.
-- - CpuModels (ai_lab/cpu_models/settings.py): the section of the embeddings models, read and checked.
-- - Config (ai_lab/config/validation.py): `Rules` has the rules on options by engine, `Validation` the
--   report and the chain of checkers.
-- - AnswerCap (ai_lab/api/answer_cap.py): the length limit that the gateway adds.
-- - Uploads (ai_lab/uploads.py): what an image is and whether it is too large.
-- - Downloads (ai_lab/downloads/transfers.py and the records of huggingface.py): `Files` has listings,
--   paths and folders, `Fetch` the fetching of files into the working folder, `Publish` the check, the
--   move into place and a whole download, `Queue` the manager and its worker as a step relation,
--   `Listing` the models of a listing (huggingface.py) and the bundles (bundles.py). The
--   library of models is what the catalog sees of the disk, the working folder hidden. The network and
--   SHA-256 are parameters; a cancel is told by how often the flag is looked at before it is set.
-- - Catalog (ai_lab/catalog/naming.py): what the names of model files say, which downloads and the
--   catalog share.
-- - Alarms (ai_lab/gpu_health/alarms.py): what is sent, held back and written down.
-- - Builds (ai_lab/builds/background_job.py): one task at a time, apart from changes of versions.
-- - Events (ai_lab/events.py) and Journal (ai_lab/runtime/journal.py): what watchers read.
-- Common has the tests on numbers, lists, dictionaries in their order of insertion, keys compared by
-- `==`, and the lemmas the parts share.
--
-- Times are whole numbers of a unit and memory is in whole megabytes; subtraction stops at zero where
-- the source takes a maximum with zero. Fuel: `pump` takes two rounds more than requests wait and may
-- come while its loads run, since each round but the last takes one off or ends; `plan_loop` takes one more than the queue is
-- long; the attempts of a provider are at most its retries, its waits and one; the scan of a JPEG
-- moves on in each round, so its length is enough; the waits for a quiet card end when the clock, which
-- gains in each round, is past the deadline.
--
-- Not modelled: the engines and the systems they run on, the network, files and pages, the vendored
-- code, the names of the catalogue, the configuration's file, the files of the catalog and the
-- statistics of the card's health.
mod Common
pub mod Admission
pub mod Eviction
pub mod Budget
pub mod Replaced
pub mod Clients
pub mod Events
pub mod Placement
pub mod AnswerCap
pub mod Health
pub mod Quiet
pub mod Alarms
pub mod Uploads
pub mod Providers
pub mod Builds
pub mod Journal
pub mod Downloads
pub mod Loading
pub mod Gateway
pub mod Config
pub mod CpuModels
pub mod Catalog
pub mod Lane
