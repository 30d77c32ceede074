-- ===== src/Lib.antt =====
-- Newzyfy finds articles through the channels of publishers (feeds, sitemaps, pages), queues their
-- URLs in a frontier, fetches and extracts them, and stores each article with its versions, claims
-- and the event it belongs to. What happens is told to other systems through a transactional outbox.
-- The program is the Python package backend/src/newsintel; this library models its core over
-- explicit tables.
--
-- The parts, and the files that model them:
--   Acquisition       application/acquisition/service.py over infrastructure/db/acquisition_repositories.py,
--                     with domain/acquisition. Service creates publishers and channels, Observation is
--                     observe_discovery, Rows has the tables and queries, Frontier the priority of a URL.
--                     Known, Repeats, Counted and Channels hold proofs: what an observation leaves,
--                     what happens when it is made again, how many candidates it adds, which channels stay.
--   Filter            domain/acquisition/article_filter.py: which URLs are admitted, and why not. Urls writes
--                     out the tests on the text of a URL, with their regular expressions.
--   Articles          application/articles/processing.py over
--                     infrastructure/db/article_processing_repository.py, with the rows of
--                     infrastructure/db/models.py. Types and Rows are the data; Leases hands out candidates;
--                     Stages, Persist, Versions and Success are the transactions of a job; World and Process
--                     put them together as ArticleProcessor.process. Leasing, Keeps, Persisted, Failed,
--                     Settled, Outcome, Contents and Claimed hold the proofs. Recent loads the
--                     references for event matching, and makes the analysis that the transactions call.
--   Polling           application/acquisition/polling.py over infrastructure/db/polling_repository.py.
--                     Interval is the policy, Channels the transactions, Payload, Service and Poll the poll
--                     of one channel; Leasing, Limits, Admitted and Outcome hold the proofs.
--   Fetcher           adapters/http/safe_fetcher.py: the GET that follows redirects itself. Safety relates it
--                     to its runs, Results reads off them what is requested and returned.
--   Sources           application/sources/service.py with adapters/collectors/source_discovery.py.
--                     Endpoints, Links and Collect find the endpoints of a website, Slugs and Fresh name a
--                     publisher, Discover stores it; Service has the other operations and Views the
--                     counts they answer with. Distinct, Effects, Conflict and Repeated hold proofs.
--   Cleanup           maintenance/cleanup_old_jobs.py, with LIKE in Cleanup/Like and the proofs in Settling.
--   Html              adapters/extractors/article_html.py: the article of a page. Attributes, Tags and
--                     Parser are the HTML parser, Structured the JSON-LD, Values the single values, Paragraphs the
--                     visible text, Quality and Warnings the scores, Choice and Article put them together;
--                     Balance, Hidden, Accepted, Selected and Verdict hold proofs. Articles takes an extractor as a
--                     field of World: extract_article_html is one.
--   Feeds             adapters/collectors/feeds.py and, in Feeds/Links, adapters/collectors/sitemaps.py with
--                     the links to hubs; Alternate and Entries hold the proofs. Polling takes the parsers as parameters.
--   Queries           application/articles/query_service.py: the views and, in Queries/Service, the queries;
--                     Latest shows what is read after a job has stored a version.
--   Links             domain/acquisition/change_detection.py: the comparison of two sets of links.
--   Events            domain/events/assignment.py: the event that an article is assigned to; Terms, Matching and
--                     Similarity: the candidates that domain/events/matching.py finds for it.
--   Claims            domain/intelligence/claims.py: the claims of a text, and what is shown of them.
--   Outbox            contracts/events.py, workers/outbox.py and the insert of the repositories: events,
--                     their relay (Outbox/Relay), what it delivers and how it makes progress.
--   Backoff, Time     retry_at_for_attempt, database_retry_delay, instants and rounding.
--   Prelude, Text     shared names: lists, sorting, tables with keys, Boolean tests, texts.
--   Scenarios         concrete data, tests and examples.
-- (Paths are below backend/src/newsintel.) The poller leases channels, reads what they publish and
-- hands it to the acquisition service, which fills the table url_candidates; the article worker
-- leases rows of it, processes them and writes articles and outbox rows; the relay moves outbox rows
-- to the consumers' inbox.
--
-- How state is modelled: a transaction is a function from the tables to the tables; one that raises
-- leaves them as they were. A table is a list of records in the order of insertion, with lookups,
-- WHERE, ORDER BY and LIMIT written out, and ON CONFLICT DO NOTHING as a test before the insert; the
-- unique constraint on the claims of a version, which the code can break, raises. `next_id` stands
-- for uuid7: every identifier is drawn from it once. FOR UPDATE SKIP LOCKED is a predicate that says
-- which rows others hold. A job (Articles/Process) is an action on the database that returns or
-- raises; the clock at each call, what the fetcher, the snapshot store and the extractor return, and
-- at which transactions the database fails, are one record (World) over which the theorems are
-- general.
--
-- Numbers: an instant is a count of microseconds. Floats are exact multiples: features in
-- millionths, scores in hundred-millionths (a quotient of two counts is taken down to a millionth),
-- the quality of an extraction in ten-thousandths, priority factors in hundredths, the jitter ratio
-- in thousandths; NaN and rounding errors of floats are not modelled. The loops of _slugify and
-- _unique_slug run on fuel: as many rounds as the text is long, and one more than there are slugs.
-- The rounds of a fetch are counted by its limit. All other loops go over finite lists.
--
-- Parameters: the path of a URL and what else its tests ask of the library (outside Filter/Urls the
-- tests themselves are taken as parameters), canonicalize_url and normalize_domain, what regular
-- expressions find in a text (that of attributes is written out), random.uniform, the HTTP client
-- and name resolution, urllib.parse, the events of HTMLParser, the tree of ElementTree, json.loads,
-- trafilatura, sha256, the parsers of datetimes, and what Unicode says of a character. Not modelled:
-- the loops of the workers, which run several jobs at once, the HTTP layer of the API and its
-- constant page, configuration, migrations, logging; fields that hold settings or explanations only
-- (channel configuration, assignment features, priority components).
pub mod Prelude
pub mod Time
pub mod Backoff
pub mod Outbox
pub mod Text
pub mod Events
pub mod Filter
pub mod Articles
pub mod Acquisition
pub mod Polling
pub mod Feeds
pub mod Fetcher
pub mod Html
pub mod Queries
pub mod Cleanup
pub mod Sources
pub mod Links
pub mod Claims
pub mod Scenarios
