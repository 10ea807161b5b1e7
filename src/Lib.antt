-- ===== src/Lib.antt =====
-- Daily Firehose: a Django application that collects feeds, shows each reader what is unread, and
-- delivers saved articles to a Linkding server. This library models the parts that hold its
-- behaviour, and proves what makes them correct. Times count microseconds, dates count days.
--
-- Refresh models `feeds/services.py` from `refresh_feed` down, with `Feed` and `Article` of
-- `feeds/models.py`. Feed has the rows; Outcome has `RefreshResult` with the checks of its
-- constructor; Fence has the generation that says which attempt owns a feed, the retry delay, and
-- what success and failure write; Entry has `_entry_article_url` and the time of an entry; Plan has
-- `_plan_article_reconciliation`; Apply has `_apply_article_reconciliation` on a table with its
-- column limits and its two unique constraints; Run has `refresh_feed`; Cycle has `iter_refresh_active_feeds`, `RefreshTally`
-- of `feeds/commands.py` and the counts of the worker. The fetch of a document, the feed parser,
-- the clocks and the commits of other processes between two transactions are the fields of `Env`.
--
-- Fetch models `feeds/feed_fetch.py`, the transport of a feed's document. Wire has what is sent and
-- received, the libraries as the fields of `Env`, and calls that may raise; Target has the checks
-- of a URL and of the addresses that its host resolves to; Body has the bounded read of a response;
-- Follow has the policy, one round and the loop of redirects; Refreshed puts this fetch in the
-- place of Refresh's parameter; Discovery has `discover_feed_metadata` of `feeds/services.py`,
-- which fetches candidate after candidate.
--
-- Opml models the OPML part of `feeds/services.py`. Opml itself has `_parse_opml`, with `visit` on
-- a tree of elements; Import has `import_opml` on the table of feeds, and Export has `export_opml`.
-- The XML and URL parsers, the validation of a model's fields and the Unicode text functions are
-- the fields of `Env`.
--
-- Delivery models the second half of `feeds/services.py`, from `save_article` down, with
-- `SavedArticle` and `LinkdingDelivery` of `feeds/models.py`. Row has the tables and their check
-- constraints; Backoff has the retry delay; Json and Remote have what is read of a response, of an
-- exception and of the HTTP and URL libraries, which are the fields of `Env`; Exchange has the
-- classification of errors, the identity of URLs, the lookup and the creation of a bookmark;
-- Attempt has one delivery attempt and its outcome on the rows; Save has `save_article`; Drain has
-- the claim of a due delivery and `deliver_pending_saved_articles`, where other workers act between
-- any two deliveries.
--
-- Jobs models `feeds/jobs.py` with `JobRun` of `feeds/models.py`. Ownership has the claim of a job,
-- the heartbeat and the end of a run as functions on the table; Health has what the status page reads. Worker models one cycle of
-- `feeds/management/commands/run_refresh_worker.py`, which claims the job, counts what Refresh
-- yields and ends its run, while other processes change the table. The worker drains Delivery between two cycles, outside the claim.
--
-- Reading models `feeds/queries.py` and `feeds/commands.py`, with the read states and bulk markers
-- of `feeds/models.py`. It reads the articles that Refresh writes. Row has the tables, the
-- validation of a marker and its constraint; Dates has the bounds of a week; Query has the read
-- test and a page of unread articles; Command has the three commands that mark articles read. The
-- conversion of a time to a local date is a parameter.
--
-- Monitor models `scripts/postgres_backup_monitor.py`: the severity of the newest receipt, and the
-- notification state of the repeated check.
--
-- Newsletter models `import_postmark_newsletter` of `feeds/services.py`: the rows and the feed,
-- what is read of a message (Message), and the import itself (Receive) on the tables of issues,
-- articles and feeds, with the commits of other processes around its transaction.
--
-- Receiver models `retention_partition` of `scripts/postgres_backup_receiver.py`: which of the
-- stored backups are kept. The calendar's functions are a parameter.
--
-- Common has the Boolean tests, list, option and text functions, results with their bind, and the
-- doubling delay that both retry schedules share.
--
-- Bounds and fuel. A loop over rows, entries, writes or feeds is a recursion on its list, and none
-- of the code modelled needs fuel: the loop of redirects recurs on the redirects that are left, and
-- the walk over an OPML document on the tree. The retries of one delivery are counted in rounds,
-- and as many rounds as there are attempts left are enough. Numbers are unbounded: Python's are,
-- and the columns of counters are far wider than the counts. The retry exponent's bound of sixteen
-- is part of the model. A difference of two times that the code cuts at 0 is a difference that
-- stops at 0.
--
-- Not modelled: logging and metrics; the nesting of exceptions in a broken stream, which is two
-- Booleans of its event; the rows of categories that an OPML import creates, and its locks; the
-- JSON and HTML adapters (`feeds/api.py`, `feeds/views.py`), which parse, check permission and call
-- what is modelled; how a discovery finds its candidates in a page; the recommendations, whose
-- scores are floating-point; and the rest of the scripts that make, send, receive and restore a
-- backup, which are file and process handling.
pub mod Common
pub mod Delivery
pub mod Receiver
pub mod Refresh
pub mod Jobs
pub mod Reading
pub mod Monitor
pub mod Newsletter
pub mod Opml
pub mod Worker
pub mod Fetch
