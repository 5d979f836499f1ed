-- ===== src/Lib.antt =====
-- websearch-mcpserver-dashboard: a web search server that spreads a query over search engines and
-- paid search APIs, merges what they return, and shows the health of its sources on a dashboard.
-- This library models the parts that carry that logic, as they are written in Go under pkg/ and
-- mcp/.
--
-- Prelude holds the shared helpers: Boolean tests, lists measured by native numbers, texts and sets
-- of texts, the deduplication loop, and counters modulo a length. Go lists what is taken from Go's
-- standard library as parameters. Core is pkg/search/core/inf.go, with Go's float64 as a parameter.
--
-- KeyPool is pkg/search/provider/keypool.go: the API keys of one provider, each with the time until
-- which it is out of use, and a round-robin counter. State holds the methods, Valid the shape that
-- they keep; Create, Rotation, Recovery, Next, Marking and Outcome prove what they do. The counter
-- is a uint64; theorems about a scan ask that it does not wrap during the call.
--
-- ApiPool is pkg/search/apipool/apipool.go: Types and Retry hold one provider's run, Rotate the
-- choice of a start and the fallback from provider to provider. The engine is an interface,
-- Ending.IsKeyed, that the engines of Provider (pkg/search/provider) fill (Request), all but that of
-- Doubao, which refuses some queries before it takes a key: DoubaoSearch holds what it keeps to
-- instead, and DoubaoLoop what the loop does then. The retry loop has no counter in the source; the
-- model gives it fuel, and one more than the calls that it can make, which is the number of keys and
-- two, is enough. Each reading of the clock is numbered, so that time may pass between any two steps
-- of a run. One search at a time is modelled.
--
-- Hybrid is pkg/search/hybrid/hybrid.go: the merge of what several engines return at once, and the
-- round robin over engines. State holds mergeResults, over the list of what arrives on its channel,
-- and RoundRobin holds DistributeResults and roundRobinByNames: a bucket with its index is the list
-- of its results still to come, so a pass needs no index, and as every pass but the last takes a
-- result, one round more than the limit is fuel enough. Fair and Distribute prove what the round
-- robin hands out, Failed and Merge what the merge answers, and Best what is cut off. The two sorts
-- and the enhancement (pkg/search/enhance) are parameters, and sizes are natural numbers, as the
-- source treats those below 1 like 0; the ceiling of a quotient is taken over them. An index is that
-- of an engine, as SearchRaw sends it.
--
-- Antirobot is a part of pkg/antirobot. Results is the deduplication of types.go, Searcher the
-- searcher of searcher.go with the adapters of pkg/search/adapter that search with it, and
-- FirstAnswer says whose results these return. Of limiter.go, Limiter holds the sliding-window
-- limiter, whose clock is an argument, History what the limits say of the whole log of allowed
-- requests, and Bounds what follows for any second and any minute. Durations saturate in Go after
-- 292 years; the model has no such end.
--
-- Suspension is pkg/telemetry/suspension.go: Policy holds the pause policy, its Normalize and
-- EvaluateSuspension, and Laws what they keep to. The map of pauses is a function to options, and
-- the product that makes a duration of milliseconds wraps as an int64 does.
--
-- Cache is pkg/cache/sqlite.go: Table holds the SQL statements as functions on the list of rows,
-- Methods the methods, with statements that may fail. Keys and Steps are about every table that the
-- methods reach, View about the map that the table stands for, and Hits about what Lookup returns.
-- The row that SQLite picks among several with one query is a parameter, as are the functions of
-- encoding/json.
--
-- Enhance is pkg/search/enhance: Aggregate holds the results gathered by URL, Floor and Mmr the
-- choice among them, Pipeline the whole of EnhanceResultsMMR, and Academic that of papers, which are
-- gathered by DOI and by URL. FloorBounds, Choice, OneUrl, Joined and Restored hold the proofs.
-- MMR's loop is on fuel, of which the number of results is enough, since each round takes one. The
-- scores of texts, domains, dates, citations and journals are functions that the pipelines are
-- given.
--
-- Telemetry is a part of pkg/telemetry. Of store.go, Health holds the loop over the latest calls of
-- a source, with its status and its pause, Percentile the 95th percentile of their times, Store the
-- transaction of Record over the two tables, Cleanup, and the totals of a day, and Recent the list
-- of recent events; of errorkind.go, ErrorKind holds the classification. Source joins the query of a
-- source to its health. Streak, State, Pause, Totals and Days hold the proofs. A transaction that
-- does not commit leaves the tables as they were.
--
-- Modes is the choice of engines: Config holds the part of pkg/config/config.go that it reads, Pages
-- the page engines that are enabled, Build the builders of pkg/search/mode/factory.go, and Group
-- NewFromConfig of pkg/search/factory.go. An engine is described (Types) by the constructor that
-- makes it, so that a nil pointer in an interface is a value of its own. Usable and Order hold the
-- proofs.
--
-- Dashboard is sources.go of pkg/dashboard: Sources joins the sources to what telemetry observed of
-- them under each of their names, Catalog lists the sources of the web by mode, keys and switches,
-- and Summary holds the academic sources, the counts and the overview. Running says which engines a
-- search of Modes runs, Agree, AgreeOne and AgreePool compare it with the catalog mode by mode, and
-- Active joins them; Shown, Verdict and Counted hold the other proofs. The sort of the kinds of
-- error is an argument, and the times are numbers for the texts of which the order is the same.
--
-- Engines is a part of pkg/search/engine: Session holds what the page engines remember of failures
-- and requests, with a duration as a word of 64 bits, Blocked the blocked sites, Simple one search
-- of Bing, Baidu and Google, and Duck one of DuckDuckGo with its cooldown. The site's reply and the
-- readings of the clock are arguments. Backoff, Cooldown and Polite hold the proofs.
--
-- Tools is the tool smartsearch of mcp/: WebSearch holds its handler doWebSearch from the lookup in
-- the cache to the recorded events, Finish the texts that answer, Enrich the pages of the first
-- results, Filter that of a single engine's results, Fetch the fetch of one page, and Security the
-- checks of mcp/security.go before it. An engine, a summarizer and a page are the answers that they
-- give during one call; the goroutines of the pages each write their own result, so they are run in
-- order, and the summary that is made in the background is a task that the call returns. Cases is
-- the one case split on which Again, Kept, Repeated and Answers rest; Fetched, Bounded and Safe hold
-- the other proofs. An int that the agent passes may be negative, and its products do not overflow.
--
-- Not modelled: HTTP, SQLite, the browser, the operating system and the protocol library are outside
-- of the program. The HTML parsers of the page engines, the quota cache, the academic clients, the
-- page fetchers, the dashboard's handlers and quotas, the other tools and the commands are left out:
-- most of their code is input and output.
pub mod Prelude
pub mod Go
pub mod Core
pub mod KeyPool
pub mod ApiPool
pub mod Provider
pub mod Hybrid
pub mod Antirobot
pub mod Suspension
pub mod Cache
pub mod Enhance
pub mod Telemetry
pub mod Modes
pub mod Dashboard
pub mod Engines
pub mod Tools
