-- ===== src/Lib.antt =====
-- A model of the Safe Transaction Service (safe_transaction_service/, Python): how blocks are scanned,
-- how decoded calls become the state of the Safes, how a reorganisation is found and undone, how
-- notifications reach the message broker, and how the analytics are filled for the first time and
-- catch up day by day.
--
-- The program. Indexers scan the chain for elements (events or traces) of monitored addresses and store
-- them with their blocks; a checker keeps them from processing an element twice. A processor turns
-- the decoded internal transactions of a Safe, oldest first, into its last status, its history
-- and the rows of transactions and confirmations. A service compares stored blocks with the chain, and
-- on a difference drops the blocks and moves the indexing positions back. An hourly sweeper computes
-- the days of the analytics once the indexers are past them. Notifications go through a pool of broker
-- connections, and wait in an outbox when the broker does not confirm them. On a fresh database a tick
-- takes the analytics through stages, one after the other: the days before today in chunks, which hand
-- off to each other, then the balances.
--
-- Common       Boolean tests on numbers, the conditional, lists, signed integers, and calls that
--              return or raise over a state that stays as they left it (Common/Result).
-- Indexer      history/indexers/ethereum_indexer.py, `EthereumIndexer`: Database is the table of
--              monitored addresses, Window the choice of the blocks to scan, Limit
--              `auto_adjust_block_limit`, Process `process_addresses`, Start the loops of `start`.
--              The subclass (`find_relevant_elements`, `process_elements`) and other writers to the
--              table are parameters. The loops run on fuel: as many rounds as the current block
--              number plus one, since a round that goes on moves past one block or more.
-- Cache        history/indexers/element_already_processed_checker.py and `FixedSizeDict` of
--              utils/utils.py: Dict is the ordered dictionary, Processed the checker, Keys the bytes
--              of a key.
-- Reorg        history/services/reorg_service.py: Database has the tables, Check `check_reorgs` with the
--              paginator as a parameter, Recover `recover_from_reorg`.
-- SafeTx       history/indexers/tx_processor.py, `SafeTxProcessor`, with the managers of
--              history/models.py and the signals of history/signals.py that it triggers: Types has the
--              calls and the rows, Logs the failure events, Queries the managers, Binding the
--              confirmations and their signal, Last the cached last statuses, Execution and Callers the
--              calls that store transactions, Process `__process_decoded_transaction` and both entry
--              points. A status that came out of the cache is shared with it: `assign_status` is an
--              assignment to such an object. The hash of a transaction, the signatures in it, the
--              node and the versions of master copies are parameters (`Env`).
-- Catchup      analytics/catchup/ and analytics/conf.py: Settings has `get_catchup_settings`, States the
--              rows of state.py, Gate `ensure_day_settled`, Day `compute_day`, Sweep
--              `_catch_up_days`, Stuck the watchdog of the unprocessed calls. The computation of a
--              day is a parameter (`Upsert`).
-- Events       events/services/queue_service.py: Broker is one connection with its confirmations, Queue the
--              pool and `send_event`, Outbox the messages not sent yet. The client library is a parameter
--              (`Pika`), with the hypothesis that a publish which returns was confirmed (Confirms).
-- Backfill     analytics/tasks_shards.py, the backfill of days: Manifest has the run and its chunks, Chain the
--              start, the dispatch and the hand-off, Worker the tasks that a worker runs. The split of the days
--              runs on fuel, the number of days, since a chunk has one day or more; a run is drained by as
--              many chords as it has chunks.
-- Bootstrap    analytics/bootstrap/: Rows is bookkeeping.py, Check the gate on the indexer, Tick the task's choice of
--              a stage, with a stage as a record of its methods, Report the page of the state, Daily the
--              stage of the days over Backfill. A tick runs at one point in time.
-- Native       analytics/tasks_shards.py, the backfill of native balances, with the queries of analytics/tasks.py:
--              Rollup has the pages of Safes and the rows, Chunk the run and its chunk task.
-- Transfers    the id of a transfer, from history/serializers.py through the patterns of history/helpers.py to
--              history/views.py: Text has the text of numbers, Ids the id and the view. A number is written
--              with fuel, itself plus one, since a digit less is a tenth of it. `int` has the limit of 4300 digits.
--
-- Paths in this list are below safe_transaction_service/. The files that a line does not name prove
-- theorems on the ones that it names; each Examples file has runs on concrete data.
--
-- Not modelled: the REST API beyond the ids of transfers, the decoding of logs, traces and ABIs, the
-- account abstraction service (the processor's call of it is recorded), balances, tokens, messages,
-- the SQL of the analytics, the snapshots and expiry of the catch-up, the native and ERC-20 stages of the
-- bootstrap, keys that expire in Redis, leases of locks, the eager mode of Celery, logging, and
-- timestamps of rows. Numbers of the program are natural numbers, or signed ones where a difference can be below zero; Python's integers do not
-- overflow, and the bounds of database columns are not modelled. A query runs at one point in time;
-- other writers appear only where a file says so.
pub mod Common
pub mod Cache
pub mod Indexer
pub mod Reorg
pub mod SafeTx
pub mod Catchup
pub mod Events
pub mod Bootstrap
pub mod Backfill
pub mod Native
pub mod Transfers
