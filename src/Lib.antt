-- ===== src/Lib.antt =====
-- A model of debot4 v6 (src/debot4/v6): the durable queue of narrative jobs with its worker and its
-- priorities, the decision to enter a position, the gate that it rests on, the egress pool of the X
-- client, the append-only ledger with its one-hour outcomes, the hard gates of the strategy, and the
-- stores of the monitors.
--
-- How the parts interact. Collectors enqueue payloads with a priority (narrative/job_priority.py) into the
-- queue (narrative/job_queue.py); a worker (narrative/worker.py) claims a job, researches it, and
-- acknowledges it or reports a failure. A research result, a dossier, a valuation and the current wave go
-- through the gate (narrative/gate.py); the gate's decision and that of the execution boundary are what
-- `authorize_entry` (narrative/entry.py) commits an entry on. The ledger (ledger/) records candidates,
-- signals, KOL evidence, decisions, simulated buys and what is observed of the chain, each in a
-- transaction that only appends, and settles a buy one hour after its entry block. Signals, contracts and
-- quotes of a pair go through the hard gates of strategy.py, and ranked boards through the quality gate of
-- narrative/market_signal.py. The X client reaches its service through the egress pool (x/egress.py), and
-- its monitors keep cursors in files (narrative/monitor_state.py, market_state.py).
--
-- The files. Paths of the source are below src/debot4/v6.
--   Base        numbers, lists, texts, exceptions as values, lists of reasons
--   Queue       narrative/job_queue*.py: Identity, Row (the table), Codec (encode_job_input of
--               job_payloads.py, and job_from_row), Payloads (the inputs and their dictionaries), Sql
--               (the statements), Changes (the body of each transaction), Service (the methods), Requests
--               (a history of calls); Priority: job_priority.py; Worker: worker.py. Proofs: Validity,
--               Distinct, Order, Tables, Claiming, Settling, Enqueueing, Repricing, Invariant,
--               Preservation, Reading, Contract, Settlements, Exclusion
--   Entry       narrative/entry.py, entry_models.py: Models, Rules, Authorization. Proofs: Fresh, Commit
--   Gate        narrative/gate.py and what it calls: Domain, Dossier, Readiness, Wave, Rules, Evidence.
--               Proofs: FreshWave, Confirmed, Bound, Passing, Evidence
--   Egress      x/egress.py: Pool. Proofs: Failover
--   Ledger      ledger/: Schema (the rows), Columns (keys and comparison), Codec (codec.py), Transaction
--               (database.py), Reads (the queries), Checks (what a method checks before its transaction),
--               Recording (the transactions, with the constraints of schema.py), Settlement and Outcomes,
--               Finalize (outcomes.py), Service (the methods), Requests (a history of calls).
--               Proofs: Keeps, Inversion and Effects (a relation that every insertion keeps, every method
--               and every history keeps), Appending, Growth, History, AsOf, Transacting, WriteOnce, Keys,
--               Grounded, Keeping, Selecting, Causality, Grounding, Sealed, Due,
--               Repeating, Chain, Settled
--   Market      Quote: `_amount_out` of market/quote.py, with its bounds; Gates: strategy.py;
--               Anomaly and Selection: narrative/market_signal.py. Proofs: Passing, Stages,
--               Qualifying, Selected
--   Stores      narrative/monitor_state.py, market_state.py: Checkpoints
--   Examples    the theorems at concrete inputs
--
-- Conventions. Instants and durations are microseconds, as natural numbers; ISO texts of UTC instants are
-- compared as the instants. A method of an object is a function of its state that returns or raises, and
-- leaves a state. A transaction that raises is rolled back. Clock readings, drawn lease tokens, digests
-- (canonical_sha256), str.casefold and str.lower, the rounding, quotients and differences of Decimals, the
-- answers of outside services and the success of a write to the disk are arguments. Amounts are natural
-- numbers in one unit. The walk to the entry block runs on fuel, one more than the number of the head's
-- block: each parent's number is one less.
--
-- Not modelled: clients of outside services, parsers of their documents, the files' modes and replacement,
-- schema migration, dashboards and wiring, the ledger's listings, the decoding of payloads,
-- the polling of boards, investigations, and of the quotes all but `_amount_out`.
pub mod Base
pub mod Queue
pub mod Entry
pub mod Gate
pub mod Egress
pub mod Ledger
pub mod Market
pub mod Stores
pub mod Examples
