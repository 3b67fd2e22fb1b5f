-- ===== src/Lib.antt =====
-- plaklet, a task executor for the kloset backup engine: it reads one payload from stdin, runs one
-- operation, and streams replies on stdout, the last of which says whether the job failed.
--
-- The parts, and the files that model them:
--   Base           the names, lists, maps, texts and machine integers that all share
--   Errors         Go's errors as data, with their texts
--   Protocol       protocol.go and report.go: payloads, replies and reports (Messages, Reports);
--                  protocolOf and params (Configurations); indexedList of plaklet.go (IndexedLists)
--   State          state.go: the streamed state and processed (Types), Equal (Equality)
--   Sampler        resources.go, network.go, latency.go: the series that halve themselves when they
--                  are full (Buffer, and one file each); Spacing and Series hold the proofs
--   Listener       listener.go: event types (Kinds), updateState (Update), the recent paths
--                  (RecentPaths), the goroutine and State() (Handler); the other files are proofs
--   Plugin         plugin/ and pkgplugin.go: the registry (Registry), the hooks of the package
--                  backend and pluginFor (Hooks), processes and their connections (Connection)
--   Locate         locate.go and prune.go: the options that a task's config selects snapshots by
--   Job            the monad that operations run in: it keeps the world of the libraries and lists
--                  which values are opened and closed and what is sent (Monad; ensureClose is
--                  `ensuring`, a plain deferred Close is `closing`, a nil dereference `panic`);
--                  Effects, Balance and Outcomes hold its rules
--   Operations     one file for each operation, named for it (Probe is test.go, Remove is rm.go,
--                  Inventories is inventory.go), over the actions of kloset, the SDK and the fs
--                  connectors (Env); kloset.go is Connectors, dispatch of plaklet.go is Dispatch;
--                  Closing, Verdicts, Copies, Held, Keys, Removals and Listings are proofs
--   Executor       plaklet.go: terminalError (Terminal), StateSampler (Sampling), Main and
--                  CancelOnSignal (Main); Endings, Runs and Replies are proofs
--   Tests          the theorems at concrete inputs, in a small environment
--
-- How they interact: Main loads packages, whose hooks fill the plugin registry; it decodes the
-- payload and dispatches it, with the listener folding kloset's events into the state and the
-- sampler sending that state; when all have ended, terminalError turns what only the events or the
-- report know into the verdict. An operation is an action `Job K → Result A × Job K` on a machine K,
-- which has the libraries' world, the values that must be closed with their Close, and the one reason
-- for which an operation can panic: the nil encryption of openrepo, behind which the deferred closes
-- still run. The world is of any type, so a theorem about an operation holds whatever the libraries
-- do. An inventory plugin lists step by step, and learns at each whether it has been cancelled.
--
-- Choices. A uint64 and an int64 wrap, written out; a float64 is its bit pattern and its
-- conversions are parameters; a time is a number of nanoseconds. A Go map is an association list. The
-- one loop on fuel is indexedList, with one round more than the map has entries. Concurrency: events,
-- ticks and registry calls are lists in the order of their mutex; the replies of the operation and of
-- what runs beside it are two lists that mix freely; the pool of rm is the sequence of its
-- deletions, in an order that is a parameter.
--
-- Not modelled: the text of JSON and of the errors of libraries; contexts, deadlines and
-- the cancellation that a signal makes the libraries see; names and state refreshers of snapshots;
-- what GOMAXPROCS is set to; cmd/plaklet and logging, which only wrap.
pub mod Base
pub mod Sampler
pub mod State
pub mod Errors
pub mod Plugin
pub mod Protocol
pub mod Listener
pub mod Tests
pub mod Job
pub mod Locate
pub mod Operations
pub mod Executor
