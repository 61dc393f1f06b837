-- ===== src/Lib.antt =====
-- Docket Yard: a verification library for its Python code.
--
-- The program keeps a public record of a regulator's dockets. A capture walk pages the Board's tables
-- into a store; passes over the stored documents write assertions into it, in batches; and a fleet of
-- machines reads the pages that need reading, from one queue that leases them out; their readings are
-- loaded as the text of the pages. People follow a docket by mail, and reviewers sign in by a mailed
-- link. This library models those parts, as functions from a state to a state and an answer, and time
-- is an argument of a call.
--
-- Prelude: names passed on, tests on numbers and text, lists, and SQL over a list of rows (WHERE,
-- UPDATE, DELETE, ORDER BY). A condition that SQL leaves NULL is false, as to a WHERE.
--
-- Fleet, tools/fleet:
--   Rows, Passes      pagequeue.py SCHEMA, STATES and PASSES, with the names taken from
--                     tools/rmi-ai-machine/ocr_wave.py: a record for each table's row
--   Lease             pagequeue.py Queue: register, _reap and reap, claimable, claim, extend, release
--   Answers           Queue: done and fail, and cmd_fail, which fails a page by hand
--   Documents         Queue: seed, pages_held, known, collectable, pages_of, mark_collected, producers
--   Seeds             seed_pass, _decide and seed_from_list: what a pass owes, from the route files or
--                     from a page list
--   Machine           the calls of Queue as the steps of one machine, in any order, at any times; each
--                     is one transaction, so the interleavings are the sequences of steps. Its Ticket is
--                     the queue as one page meets it: the states of a page and their moves
--   Stopping          stopping.py: signals, the stop file, and the pages given back
--   Blob              pagequeue.py RemoteQueue.blob_into; the node's answer is a parameter
--   LeaseLoop         leaseloop.py, what the two readers share; the node is a parameter
--
-- Capture, src/docketyard/capture/walk.py:
--   Slice             capture_slice, SliceResult and _reconciles. A reply of the endpoint is what the
--                     parse and the filter assertion make of it; an exception of the client ends the
--                     slice without a result. The fuel is two rounds more than the pages asked for:
--                     one for the retry with a fresh nonce and one that finds no page left
--   Months            slice keys, the days they name, and month_slices. A month is a number of months,
--                     and a key or a criterion is the value that its text names
--   Prefixes          docket_prefix_slices and walk_dockets
--   Walk              reconcile_empty_month, record_slice, slice_status, walk, walk_observations. What
--                     the client does for each slice stands beside it. The nearest done month is
--                     looked for twelve steps, as the code does; the time stamp of a row is left out
--
-- Batches, src/docketyard/store/batches.py: _chunk, under_lock, _apply, _with_retries and run. What a
-- document does to the store, and what BEGIN and the commit meet, is a parameter for each batch and
-- attempt; the recursion is on the attempts that are left.
--
-- Assertions: src/docketyard/store/supersede.py over any table, and paginate_document of
-- src/docketyard/text/paginate.py, which writes by it; and route_document of
-- src/docketyard/text/route.py. An instant is a number, in the order of the texts that name it.
--
-- Readings, src/docketyard/text/load.py: the readings of pages.
--   Pins              pins, pinned, declare_producer and repoint_producer
--   Rows              a reading, and a record for a row of each table that it is loaded into. A real
--                     number is the text that names it
--   Pages             _live and _load_page, with leave and enter of src/docketyard/store/page_index.py.
--                     The live rows are those at the start of the load, as `_live` takes them once
--   Load              load_reading; its exception Unreadable is a value of the answer. The digest of a
--                     file and the displayed text are parameters
--
-- Accounts: the tables by which people are known. A random token is an argument of the call that mints
-- it, a time is a number of seconds, and an exception, which rolls back, is none.
--   SignIn            src/docketyard/citator/signin.py
--   Follows           src/docketyard/alerts/subscriptions.py: the tables and the shared statements
--   Subscriptions     the calls of that file, and in Calls their sequences, with the events that are
--                     observed between them, and in Build src/docketyard/alerts/build.py: the events
--                     that are owed, the alerts that they go into, and the marks that move; which
--                     events match a docket or a party is an argument
--
-- Not modelled: HTTP, files, the SQLite engine and its WAL; the parsers of the Board's pages; the web
-- tier and its templates; the citator's grammars; the readers' models; deployment scripts. They are
-- I/O, presentation or other people's programs, and where the modelled code calls them their answers
-- are parameters. The parsers of reading files, the collection of readings into files and the
-- delivery of alerts are not modelled.
pub mod Prelude
pub mod Fleet
pub mod Capture
pub mod Batches
pub mod Assertions
pub mod Readings
pub mod Accounts
