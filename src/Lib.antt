-- ===== src/Lib.antt =====
-- Signalattice: the governance of promoted models, the experiment registry's job queue, the
-- retention of its artifacts, the shadow campaigns, the admission control of the local service and
-- the time-series splitter, modelled from the Python package src/quant_platform.
--
-- The parts and where they are modelled (paths of the program from the repository's root):
--   governance/lane.py        Governance/Lane.antt    lane keys, lane heads, the two state machines
--   governance/store.py       Governance/Store.antt   the event chain of each lane and its head
--   tracking/registry.py      Tracking/Registry.antt  the durable job queue
--   tracking/retention.py     Tracking/Retention.antt the deletion of artifacts that no run links
--   service/admission.py      Service/Admission.antt  token buckets and concurrency counters
--   shadow/contracts.py       Shadow.antt             shadow campaigns: states, forecasts, batches
--   shadow/store.py           Shadow/Store.antt       and the tables that hold them
--   governance/comparison.py  Promotion/Cohorts.antt  pairing a challenger with the champion
--   governance/inference.py   Promotion/Holm.antt     the correction of a family of p-values
--   governance/gates.py       Promotion/Gates.antt    the gates, the recommendation (Decisions)
--   models/splits.py          Models/Splits.antt      walk-forward and expanding folds
-- under src/quant_platform/. A promotion compares the forecasts and outcomes of shadow campaigns, and
-- retention reads the rows of the job queue; the other parts do not call each other. `Prelude` holds
-- the names that all modules share: tests on the native numbers, lists over them, a result with an
-- error and its do blocks.
--
-- Governance. `Store` is the state of the three tables of _MIGRATION_3 (tracking/migrations.py), as
-- functions from a lane's identity, with the unique index of chain digests as a list
-- (Store/Tables). A method that writes is a function from the tables to a result: an error, after
-- which the transaction is rolled back and the tables are those before it, or the new tables
-- (Store/Operations: _append_locked, append_event, register_lane; Store/Head: apply_assignment,
-- freeze, verify_chain, rebuild_head, replay_head). Each method runs in one IMMEDIATE transaction
-- of SQLite, so concurrent callers are sequences of calls (`run` of Store/Lifecycle). The checks
-- and the trigger of the schema are tests of `insert_event` and `write_head`; the triggers that
-- forbid updates and deletions are the absence of such operations. SHA-256, the JSON encoder and
-- decoder, `str`, `str.strip` and the size of a text in UTF-8 are a parameter (Runtime), of which a
-- theorem assumes at most that digests have 64 characters and that the payloads of a history are
-- read back from their JSON texts (IsReloaded of Store/Lifecycle), which json does for objects whose
-- keys are texts; where a collision of SHA-256 matters, the
-- conclusion exhibits it. Instants are microseconds. Store/Appends, Chain, Written, Moves and
-- Projecting hold what a successful transaction did; the others hold the theorems.
--
-- Registry. `Registry` holds the jobs in the order of their sequence, each with its lifecycle
-- events, and the terminal runs (Registry/Operations). Registry/Rows has what an operation does to
-- one row, Registry/Expiry the recovery of expired leases, Registry/Queue the methods over the tables
-- (submit, claim, heartbeat, request_cancel, acknowledge_cancel, complete, fail), each one transaction that returns the tables
-- that it commits or an error, and Registry/Choice which job a claim takes, Registry/Completion the
-- end of an attempt, Registry/Recovery what a batch of recovery leaves. The instant, the fresh
-- identifier and the lease token of a call are arguments, and the keyed digest of a token is a
-- parameter. Laws names what the writes of a row keep of a property of rows, Keeping, Methods and
-- Attempts follow such a property through the methods, and Histories through sequences of calls.
-- Capacity, Endings and Sound are the laws of the accounting of a job's events, Fencing those of an
-- attempt that is superseded, Readable and ReadableRows those of the checks on a row that is read;
-- Ended, Reclaiming and Once are about the leases of a superseded attempt, Recovering about the
-- success of recovery.
-- Artifact links, event details and the readers are left out, and so are the CHECKs of the tables: the checks of JobSnapshot on a row that is read
-- are modelled (check_job).
--
-- Retention. RetentionTables holds the rows of the artifacts, their links to runs, the signed plans and
-- the tombstones, and the job queue's rows, of which it reads whether one is running
-- (Retention/Tables, with the triggers of _MIGRATION_1 as tests of the inserts, and with
-- register_artifact and the links of _insert_terminal_run). Planning has plan, Authority the checks of
-- a signed plan, Comparing and Staging the transactions of stage, Executing those of execute; Runs is
-- a small monad for a method that runs alone and may raise after it has changed something, in which
-- Intents and Execution have load_plan, execute and resume. The artifact store is an interface
-- (ArtifactStore), of which no theorem assumes anything; SHA-256, the HMAC and the JSON text of a plan
-- are a parameter (Authority). Interleaving is the step relation in which deletions, registrations,
-- links, the queue and any change of the store interleave. Evidence, Tombstoning, Condemning and
-- Transactions hold what each transaction keeps, Signing what `create` establishes, and Bounds, Reads, Confirmed, Finished and Deletions the theorems.
--
-- Admission. The controller's lock makes each method one step, with the clock's instant as an
-- argument (Service/Admission: try_acquire, release, begin_shutdown, snapshot). The floats are a
-- parameter (Admission/Arithmetic), of which no theorem assumes anything: Counters holds what a
-- step does to the two counters, Histories the sequences of calls, Accounting the requests held.
--
-- Shadow campaigns. Shadow.antt and Shadow/Records have the checks of the records' constructors; the
-- floats, SHA-256 and the JSON encoder and decoder are a parameter (Shadow/Runtime), of which a
-- theorem assumes at most that a distribution is read back from its JSON text. A method of ShadowStore reads on connections of its own and then writes in one
-- transaction, so each is the composition of the functions that read and the one that writes
-- (Shadow/Store: campaign_state, transition, append_outcome; Shadow/Sealing: create_campaign,
-- seal_batch). Lifecycle runs whole methods one after the other, as a single caller does (Paths,
-- Freezing); Interleaving is the step relation in which other callers write between a read and the
-- write that follows it (Keeping, Opinions, Outcomes,
-- Reopening). Closing is about the end of a campaign, Reading, Loading, RoundTrip, Revisions and
-- Histories about the readers. Facts and Inserts hold what a transaction that succeeded did.
--
-- Promotion. build_paired_cohort pairs the forecasts of two campaigns and scores them
-- (Promotion/Keys, Cohorts, Scores), evaluate_gates, recommend and authorize_apply decide (Gates,
-- Decisions), and holm_adjust corrects the p-values (Holm). Floats are a parameter; StepDown assumes
-- of them that the values that are not NaN are totally ordered (OrderLaws), the other theorems
-- nothing. The texts for a reader are formatted by the runtime. A dictionary is the list of its
-- items, and the keys of one instant and symbol that the program takes from a set without order are
-- in the order of the champion's forecasts. Pairing, Accounting, Verdicts and
-- Promoting hold the theorems.
--
-- Splitter. `split` is the list of folds that the generator yields when it is taken to its end
-- (Models/Splits); sizes are natural numbers, and the test that skips a turn is written without
-- subtraction, as the program's `first_test_pos` may be negative. Masks, Gaps, Order and Count hold
-- the lemmas on row masks, the gap, the order and the number of the folds.
--
-- Not modelled: the connections and the encoding of instants of the stores, the bootstrap tests of a
-- promotion and its monitoring, the registry's readers, the content store's use of the file system, the reports on shadow
-- campaigns, the HTTP interface, and the numeric code over numpy and pandas.
pub mod Prelude
pub mod Governance
pub mod Service
pub mod Models
pub mod Tracking
pub mod Shadow
pub mod Promotion
