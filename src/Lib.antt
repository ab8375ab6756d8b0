-- ===== src/Lib.antt =====
-- Effect Frame: a verification library of its actor core, its queries, its hosts and its route data.
--
-- An actor is a behavior behind a mailbox. A client submits commands under its own command IDs; the
-- mailbox admits each ID once, the engine commits the commands one by one, and every commit has a
-- revision. A client may show a predicted state before the commit arrives, and keeps asking for the exact
-- result of a command until it has one. A query cache keeps what a client read, marks it stale while a
-- command may change it, reads again after the command settled, and forgets it when the principal
-- changes. A host finds the contract or query that a request names, asks its policy, and only then opens
-- the actor or reads the query; its reply to a committed command carries the queries that the command made
-- stale, read again. A route prints and parses the data of a view in a URL.
--
-- Which file models which part of packages/effect-frame/src (paths without packages/ start there):
--   Vocabulary   actor/engine-types.ts, actor/vocabulary.ts, actor/contract.ts and actor/query.ts: committed
--                values, revisions, receipts, addresses and keys.
--   Behavior     actor/behavior.ts, actor/behavior-rules.ts, actor/set-value.ts: what an author supplies.
--   Mailbox      actor/mailbox-store.ts: appendToLog, commitToLog and the operations over them. Settle
--                relates the index that commitToLog writes at to a search by ID; Valid is the
--                well-formed log; History runs any calls; Order runs the turns of an engine; Retry,
--                Fifo, Stable and Refines prove from these.
--   Store        packages/host-durable-object/src/storage-store.ts and interop.ts: the same operations over
--                the SQL storage of a Durable Object. The statements are the fields of Sql, and Tables states
--                what SQL promises of them. Rows relates rows to entries, Asks and Same compare the answers with
--                the memory's, Arms is about the alarm.
--   Display      actor/provisional.ts: membership, rebuild, offer, reoffer and the five events. Moves
--                splits an event into single moves; Coherent, Truth, Exact and Account prove, and Serial relates the mailbox.
--   Engine       actor/durable-engine.ts: openDurable, the worker (processNext and below), sendEncoded,
--                awaitReceipt and callEncoded. It uses Mailbox for its store and Behavior for its
--                turns. A commit in the store and its publication are two steps, so that a submission
--                or a restart may fall between them.
--   Local        actor/local-engine.ts: the in-process engine, its steps ending where it may suspend or be
--                interrupted. Turns is where each admission is.
--   Owner        actor/command-owner.ts: the retained records of one reference. Records follows one
--                record, Heard the answers that it waited for, Sound the owner, Ends the length of a
--                sequence.
--   Route        router/path.ts and router/codec.ts: path matching and printing, search records.
--   Reorder      view/runtime.ts: inPlace, the keys of a keyed list that a reorder leaves in place. Search
--                is its binary search, Tails and Longest its patience sorting, Stable the keys that stay.
--   Traversal    router/traversal.ts: the source of held traversals of one location.
--   Query        actor/query.ts and actor/query-client.ts: Query has one entry (makeSlot) and its fibers,
--                Cache the entries and open commands of one client, Follow is followQuery and Document is
--                makeDocument. Laws names what can happen to an entry and Histories lifts a property of
--                one entry to every history; Shown and Isolated are such properties, and
--                Document.Landing and Document.Ended are about the seeds of a streamed page.
--   Policy       actor/policy.ts, actor/principal.ts: the rules and their combinations (Rules), and the names
--                that a host resolves (Missing).
--   Serving      actor/query-host.ts: implementQuery and implementBatchedQuery, and in Requests make's
--                batch, get and dependents. Writes is about the map of results, Groups, Whole, Runs, Sorted and Placed
--                follow the groups of a request, Answers describes each key's answer by itself, Batch and
--                Pointwise compare.
--   Host         actor/host.ts: build, and in Transport the requests and the wake. It uses Policy for its
--                rules and Serving for its queries. Histories and Replays follow one instance, Stale and Refreshes the
--                reply to a command, Builds the resolution of names.
--   Canonical    actor/canonical-json.ts: the sort of an object's fields at every depth. Insert is about two
--                fields, Stable about the canonical text.
--   Base         shared names, lists by Boolean tests and case lemmas.
--
-- A stateful operation is a function from the state to its answer and the next state; concurrency is a
-- list of events, each one atomic step of the source, in any order. A defect (`die`) is `none`, or a
-- flag on the engine. Revisions, admissions, times and hashes are native numbers; JavaScript's are exact
-- below 2^53, and no bound is modelled. Texts are native strings, compared as the source compares them.
-- Only Reorder runs on fuel: the binary search has as many rounds as there are tails and the walk back as
-- many as there are positions, and the theorem of Stable says what both produce. The recursion of
-- Display.offer is on the list of its pending commands, and lists and events drive the rest.
--
-- Parameters, since their code is not in the repository: the SQL storage of a Durable Object, the
-- author's behaviors, codecs, handlers and policies, the hash of a payload, `Equal.equals`, the retry
-- schedule of the Effect library, the percent codec of the platform, how a number is written in a key,
-- and JSON's parser, printer, order of texts and construction of objects. The theorems that need them
-- say what they rely on.
--
-- Not modelled: streams and early wakes of waiting readers (they only look again sooner), scopes and
-- fibers beyond the steps named, delays and their jitter, log lines and inspection; in Owner the adoption
-- of a new record is one step with its insertion; in Route the split and join of a path at its slashes,
-- template parsing and the reflection on Schemas; in Query the encoding of keys and values, batched reads
-- and inspection; in Serving the defects of handlers and their concurrency; in Host the stream of changes,
-- timeouts and the codecs of actor/implement.ts. References, placement, HTTP, forms, the router's
-- navigation and the rest of the view runtime are not modelled.
pub mod Base
pub mod Vocabulary
pub mod Mailbox
pub mod Display
pub mod Behavior
pub mod Engine
pub mod Owner
pub mod Route
pub mod Local
pub mod Query
pub mod Store
pub mod Canonical
pub mod Traversal
pub mod Policy
pub mod Serving
pub mod Host
pub mod Reorder
