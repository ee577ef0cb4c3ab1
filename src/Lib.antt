-- ===== src/Lib.antt =====
-- WikiPeople: cached attribution of Wikipedia articles.
--
-- The service answers a gadget's question who wrote a page. A web process (`src/wikipeople/app.py`)
-- serves stored results and puts a job into a queue where it has none; a worker claims jobs, counts
-- the tokens or the edits of a page and stores the ranking; further jobs keep the tables of opted-out
-- pages and of blocked accounts, and queue articles that nobody has asked for. All of them meet in
-- six tables, whose only writer is the class `Repository` (`src/wikipeople/repository.py`). This library models the tables, that class, the
-- policy and the rankings, the handlers of the web process, the worker, the backfill, the jobs on
-- opt-outs, standings and popular pages, the clients of the upstream services over a transport, and
-- the migration into another database.
--
-- Files, and the code that they model:
--   Models       src/wikipeople/models.py: a record for each table, and `Database` of all
--   Errors       src/wikipeople/errors.py: exceptions as values, computations that may raise
--   Policy       src/wikipeople/policy.py: `should_highlight_contributor` and what it asks;
--                Policy/Words the pattern searches, Policy/Standing `is_nameable_account`
--   Attribution  src/wikipeople/attribution.py: `count_tokens`, `select_contributors`,
--                `select_top_editors`
--   Repository   src/wikipeople/repository.py: Queue (`enqueue`, `claim`, `complete`, `supersede`,
--                `fail`, `revive`), Results (`save_result` and the reads), Cleanup, OptOut
--                (`is_opted_out`, `replace_optout`), Standing (`standing_for`,
--                `replace_standing`), Wikis (`active_wikis`), State (`get_state`, `set_state`),
--                Counts (`stats`, `optout_counts`, `standing_counts`); Steps is the relation of all
--                writing calls, with a condition on what is saved
--   Sites        src/wikipeople/sites.py: `SiteResolver`
--   Config       src/wikipeople/config.py: `Settings` and `max_visible_block_seconds_for`;
--                Config/Environment `from_env` and what it calls
--   Upstream     src/wikipeople/clients.py: the values and the methods that the jobs call, as an
--                interface
--   Clients      src/wikipeople/clients.py: `_request` and `_action` over a transport;
--                Clients/Pages, Clients/Titles, Clients/Accounts and Clients/Walks the methods of
--                `MediaWikiClient`, with Clients/CentralAuth for all wikis, Clients/Tokens
--                `WikiWhoClient`, Clients/Views `AnalyticsClient`, Clients/Wired the clients as the
--                services of Upstream
--   Migrate      src/wikipeople/migrate.py: `migrate`, `copy_table`, `occupied_tables`, `main`
--   Worker       src/wikipeople/worker.py: `run_once`, `process`, `attribute`, `run_forever`
--   Replica      src/wikipeople/replica.py: `LengthCursor`, `pages_by_descending_length`
--   Backfill     src/wikipeople/backfill.py: `backfill_by_length`, `backfill_by_title`
--   Jobs         Jobs/OptOut src/wikipeople/optout.py, Jobs/Standing src/wikipeople/standing.py:
--                `sync_wiki` of each, and what it reads; Jobs/Prewarm src/wikipeople/prewarm.py
--   Api          src/wikipeople/app.py: `_if_none_match`; Api/Handlers `page_attribution`,
--                `page_attribution_by_freshness` and what they call; Api/Statistics `index`, `health`
--                and `stats`
--   Processes    the runs of all of these on the tables that the others leave
--   Json         the values of `json.loads` and what the clients do with them
--   Batches      `_batched`, and the batches of a stream of rows
--   Texts        the methods of Python's `str` that several parts call
--   Base         lists, rows, texts and tallies that all parts share
--   Tests        the theorems at concrete inputs
--
-- A module's children prove what its definitions do: Queue/Claim, Queue/Retry, Queue/Enqueue,
-- Queue/Valid, Results/Valid, Cleanup/Keeps, OptOut/Replace, Standing/Excluded, Attribution/Tally,
-- Attribution/Ranking, Attribution/Editors, Steps/Tables,
-- Steps/Consistent, Standing/Replace, Standing/Named,
-- State/Lookup, Worker/Names, Worker/Acts, Worker/Settles, Replica/Cursor, Replica/Walk,
-- Replica/Complete, Backfill/Progress, Backfill/Runs, Backfill/Acts, Jobs/Articles, Jobs/Entries,
-- Jobs/Accounts, Jobs/Bounds, Jobs/Acts, Jobs/Days,
-- Jobs/Together, Jobs/Frames, Processes/Stored,
-- OptOut/Keys, Standing/Keys, Api/Standings, Api/Serving, Api/Replies, Api/Waiting, Api/Latest,
-- Api/Refusals, Api/Sound, Counts/Totals, Config/Overrides, Clients/Cache, Clients/Paging,
-- Clients/Categories,
-- Clients/History, Clients/Followed, Clients/Walked, Clients/Whole, Clients/Keys, Clients/Gone,
-- Migrate/Tables,
-- Migrate/Copies, Migrate/Returns.
--
-- Conventions. An operation is a function of the tables that returns the tables after its
-- transaction. A table is the list of its rows, in the order in which the engine breaks ties, and
-- ids come from counters. A time is a number of microseconds since the first `datetime`, and a
-- difference that would lie before it is that first one. Every reading of `utcnow()` is an argument,
-- so no theorem assumes that the clock runs evenly. Each transaction is one step; the insertion that
-- loses a race is the separate operation `enqueue_conflict`. Recursion is on the rows, tokens or
-- characters, and a loop of rounds or batches has the list of its clocks, so there is no fuel there. Two loops of the
-- clients end with the answers only, and have a bound on their requests, `max_rounds`: it is enough
-- where it exceeds the limit of members or reaches the budget of revisions, if every answer that
-- continues has an entry, and beyond it the model raises an exception of its own, `out_of_rounds`.
-- Lengths of blocks in settings are integers; other settings of seconds and counts are natural
-- numbers. `max(0, a - b)` is the subtraction that stops at 0.
--
-- The numbers of JSON are integers, an object has no key twice, and a number that is natural in the
-- answers of the services or in the settings raises `negative_number` where it is negative. A
-- revision whose `userid` is negative counts for nobody, as one of 0 does.
--
-- Parameters stand for what the code calls: `Unicode` for Python's character tables, `Shares` for
-- the floating-point quotients and their rounding, `GlobalGroupLookup` for the request to
-- CentralAuth, the records `MediaWiki` and `WikiWho` for the methods of the clients, which may raise
-- and change a state of their own, `ReplicaClient.page` for the replica's table during a run,
-- `Http` and `WikiWhoClient.stream` for the transport of httpx, which answers or raises, `loads` for
-- `json.loads` of bytes, `Python` and `Reader` for `repr`, `fromisoformat` and the quoting of URLs,
-- `Engine.accepts` for what a database refuses to insert, `digest` for the hash of the JSON of a body, and the checks of the web framework: a handler is
-- given a positive revision.
--
-- Not modelled: signals, sleeping, logging and the parsing of arguments; the construction of engine,
-- sessions, transports and web application; the four settings that are floats; the gadget in the
-- browser.
pub mod Base
pub mod Models
pub mod Errors
pub mod Policy
pub mod Attribution
pub mod Repository
pub mod Sites
pub mod Config
pub mod Texts
pub mod Batches
pub mod Json
pub mod Upstream
pub mod Clients
pub mod Migrate
pub mod Replica
pub mod Backfill
pub mod Jobs
pub mod Worker
pub mod Api
pub mod Processes
pub mod Tests
