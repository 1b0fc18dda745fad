-- ===== src/Lib.antt =====
-- The indexer of this repository reads blocks and the virtual chain from a kaspa node and writes them to
-- PostgreSQL. Its parts run side by side: one fetches blocks, one writes blocks and one transactions,
-- one follows the virtual chain, one decides which block a restart may begin at, and one prunes old
-- rows. This library models the parts whose own logic decides what the database holds.
--
-- Prelude       lists, Boolean tests, machine words, signed integers and their casts. The program is
--               built with overflow checks and aborts on a panic, so `none` of an Option chain is an
--               abort, and arithmetic on u64 that overflows is one.
-- Cli           cli/src/cli_args.rs: `is_disabled`, `is_excluded`, and the resolution of the pruning
--               options. The command line itself is parsed by clap.
-- Models        database/src/models: the rows of the tables.
-- Checkpoint    indexer/src/checkpoint.rs: `process_checkpoints`. `step` is a round of the loop that
--               pops a message, `run` the rounds up to a shutdown. Each round carries what the clock
--               showed and whether the database accepted the write.
-- Database      database/src. Schema is `create_schema`, `drop_schema` and `execute_ddl` with the scripts
--               of database/migrations/schema as lists of statements, of which only those that write the
--               schema's version are told apart; what the others do, and which of all fails, is the
--               argument `Postgres`. Split is
--               `split_statements` of database/src/query/misc.rs, for ASCII text. Retry is
--               `retry_on_deadlock`. Delete is database/src/query/delete.rs over tables that are lists of
--               rows; the DELETE statement is an argument, and the law that PostgreSQL documents for it
--               is the record `IsDelete`.
--               Client is the client's calls of these, which start again after a deadlock; each attempt has
--               statements of its own.
--               Insert is database/src/query/insert.rs with common.rs: a statement taken apart into its
--               table, columns, placeholders and bound values. Batches holds the functions that sort rows and
--               cut them into statements, which stand in process_blocks.rs, process_transactions.rs
--               and accept_transactions.rs of the indexer. Vars is the table that holds the checkpoints, with
--               database/src/query/upsert.rs, `select_var` and indexer/src/vars.rs.
-- Mapping       mapping/src: from the node's values to rows. Rpc holds what the code reads of the
--               values of the kaspa crates, Blocks and Transactions the functions of blocks.rs and of the first
--               half of transactions.rs, Optional those for the virtual chain's transactions, whose
--               fields may be missing, and Mapper the `KaspaDbMapper` that the options make.
-- Processing    Blocks is indexer/src/blocks/process_blocks.rs and Transactions is
--               indexer/src/transactions/process_transactions.rs: `step` is a round of the loop for what
--               the queue gave, `process_blocks` and `process_transactions` the rounds up to a
--               shutdown, with the accepted statements and the reports as events. An insertion that
--               fails is a panic. The cache of transaction ids is an argument. Saved puts both, and the
--               checkpoint processor, beside each other: their events interleave in any way.
-- VirtualChain  indexer/src/virtual_chain/process_virtual_chain.rs: how far the virtual chain is followed behind
--               its tip. `tip_step` is what the loop does with the history of reorgs at a response, and
--               `tip_run` the responses that arrive. Accept is accept_transactions.rs, add_chain_blocks.rs
--               and remove_chain_blocks.rs beside it, and Responses is the loop of
--               process_virtual_chain.rs that uses all of these and writes a checkpoint: its statements and its
--               checkpoints are actions in their order, up to a panic if there is one.
-- Fetch         What is asked of the node. Blocks is indexer/src/blocks/fetch_blocks.rs: `step` is an answer of
--               the node, and an arrival a block of it with the turns of the two loops that push it. The
--               `push` of a queue is an argument with the law `IsBounded`, the cache of hashes one with
--               `Exact` or `Recalls`. Chain is indexer/src/virtual_chain/fetch_virtual_chain.rs. Whole puts
--               the fetcher in front of the processors of Processing.Saved.
-- Start         indexer/src/main.rs: the wait for the node, the checkpoints from which the program starts, the
--               first metrics and the tasks. `KaspaHash::from_str`, `hex::encode` and the node are arguments.
--               Resume puts a run of the processors, the table of Database.Vars and the next start together.
-- Node          kaspad/src/manager.rs: for which node a client is made.
-- Signal        signal/src/signal_handler.rs: what the signals do, in their order.
-- Prune         indexer/src/prune.rs: `prune` is one run, made of its five steps in order. It uses the
--               functions of Database.Client as the code does.
-- Metrics       indexer/src/web/model/metrics.rs with indexer/src/settings.rs and database/src/models/query: the
--               metrics and their first values. `update_metrics` of web/endpoint/metrics.rs takes what the
--               system and the database answer as arguments. Writes are the turns of the tasks that share them.
-- Health        indexer/src/web/endpoint/health.rs and web/model/health.rs: the states in the health report,
--               from the metrics and the node's answer, and the code of the response.
--
-- The loops of database/src/query/delete.rs have fuel; one round more than the table has rows is
-- enough. `split_statements` has its script's length as fuel, and `none` would say that it was not. Every
-- other loop is a recursion on the list that it goes through, or on the three attempts of
-- `retry_on_deadlock`.
--
-- Not modelled: the web server, the texts and times in the metrics and the health report, the pool of
-- connections and the scheduling of tasks, which are glue over other crates; the selects for the metrics.
pub mod Prelude
pub mod Cli
pub mod Checkpoint
pub mod Database
pub mod Models
pub mod Mapping
pub mod VirtualChain
pub mod Fetch
pub mod Health
pub mod Metrics
pub mod Start
pub mod Processing
pub mod Prune
pub mod Signal
pub mod Node
