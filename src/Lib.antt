-- ===== src/Lib.antt =====
-- The lead scraper: a search of Google Maps finds businesses, each is given the website of its
-- Maps entry, the social profiles that its homepage or a web search shows, and the best URL of each
-- platform. Shallow models of the program's parts, translated from the Python source.
--
-- Parts, and the files that model them (paths from the repository's root):
--
--   app/pipeline/orchestrator.py
--     Pipeline.Streaming: `_stream_enrichment_social_selection` as a step relation. A step is what
--     one coroutine does between two awaits that may suspend it, so every interleaving of the
--     feeder, the two pools of workers and the body that joins them is a run. Pipeline.Selecting:
--     what is done for one lead (`_candidates_from_lead`, the selection, the counts).
--     Pipeline.Stages: the whole-batch stages, with progress.py and metrics.py beside it.
--     Pipeline.Streaming.Exact compares the counts, Pipeline.Streaming.Staged the leads.
--     Pipeline.Run: `run`, with its start-ups, its stages and its clean-up.
--   app/discovery/google_maps
--     Discovery.Scroll: `ScrollEngine`. Discovery.Cards: `CardExtractor`, and the stages that
--     collect and deduplicate. Discovery.Run: the four stages of pipeline.py as one run, with
--     maps_navigator.py and `Pipeline.run_one` of app/pipeline/base.py. Discovery.BrowserPool:
--     `BrowserContextPool`. Discovery.BrowserManager: `BrowserManager`, with a browser that may go
--     away. Leads: the place identifiers and `deduplicate_leads`, with the records of
--     app/models/domain.py and the enrichment cache.
--   app/enrichment/google_maps
--     Enrichment: `enrich_one`, `DetailPanelNavigator`, `WebsiteExtractor`, `EnrichmentMetrics`.
--     Normalizers: the website validator, and app/normalizers/url_normalizer.py.
--   app/enrichment/social
--     Social.Links, Social.Fallback, Social.Discovery, Social.Normalizer, Social.Confidence: the
--     modules link_extractor and dedup, search_fallback, batch, url_normalizer and confidence.
--     Social.Fetchers: html_fetcher and browser_html_fetcher.
--   app/providers/duckduckgo.py
--     Providers, from the answer of the HTTP session and the links that the HTML parser finds.
--   app/selection
--     Selection: candidates, scores, deduplication and the engine, in a file each.
--   app/network
--     Network.CircuitBreaker, Network.RateLimiter, Network.Retry, Network.Metrics,
--     Network.UserAgent, and Network.Session, which composes them in `request`.
--     Network.Singleton: the one session of the process, its start and its shutdown, as a step
--     relation.
--   app/api/v1/endpoints/search.py
--     Api: the endpoint over Pipeline.Run, with app/schemas and app/validators/search_validator.py.
--   app/utils/retry.py
--     Network.RetryAsync: the decorator `retry_async`, compared with the retry policy.
--   app/utils/async_helper.py
--     Gather: `gather_with_concurrency` as a step relation, and `run_with_timeout`.
--   app/config
--     Settings: the numbers of settings.py with the ranges that they are checked for; the constants
--     that they default to in Settings.Defaults.
--   app/cache/memory_cache.py
--     Cache, with the contract it implements in Cache.Refinement and Cache.History.
--   app/utils/url_helper.py
--     Url.Helper, on Url, Url.Query and Url.Query.Percent, which model what it and the other
--     modules use of urllib.parse.
--   app/exceptions
--     Exceptions: the classes, the status codes, and the three ways in which a coroutine ends.
--
-- Base holds what the modules share. Coroutine is the state and exception monad in which the code
-- that awaits is written: a coroutine takes the world and returns an outcome (a value, an exception
-- or a cancellation) and the world. Coroutine.Keeps has one rule for each way to build one.
--
-- Times are readings of the clock in whole ticks, and tokens and scores are whole numbers. A text is
-- the list of its code points; letters are folded for ASCII only. The browser, the HTML parser, the
-- JSON decoder, the HTTP library, the clock and the random draws are parameters. A body under an
-- asyncio lock is one function. Loops on fuel: the poll loop of scrolling has one round more than
-- the timeout has ticks, which is enough as each round waits at least one; `retry_async`
-- has a round for each attempt; the rate limiter in a session has two rounds, which is enough for a
-- caller alone, as its sleep lasts as long as asked unless the task is cancelled in it. Each is
-- shown to be enough below.
--
-- In the code that is written as a Coroutine a call of a library, a sleep or the closing of a context
-- may also be cancelled. Two conventions: a start of Playwright that does not return
-- leaves no process behind, and a start of the browser pool ends with what its gathered calls end in,
-- so that a cancellation of that start itself is left out.
--
-- Not modelled: routing, the event loop of the browser, logging, benchmarks and system metrics; the
-- configuration of the HTTP client; the workers of the batches; the metrics of a social batch; the
-- search providers that are stubs; the DNS cache; the snapshots that round to decimals; random user
-- agents.
pub mod Api
pub mod Base
pub mod Exceptions
pub mod Coroutine
pub mod Text
pub mod Url
pub mod Normalizers
pub mod Social
pub mod Selection
pub mod Network
pub mod Cache
pub mod Gather
pub mod Leads
pub mod Discovery
pub mod Enrichment
pub mod Pipeline
pub mod Providers
pub mod Settings
pub mod Tests
