-- ===== src/Lib.antt =====
-- go-syncstorage: a Firefox Sync 1.5 storage server in Go.
--
-- The program. A request passes authentication, a cache and a handler that picks the pool of its
-- user (web/syncPoolHandler.go); the pool (web/syncPoolHandler_elements.go) opens one SQLite
-- database for each user and keeps the recently used ones; a handler of that user
-- (web/syncUserHandler.go) calls the storage (syncstorage/), which owns the tables BSO,
-- Collections, Batches and KeyValues. Tokens that tell who a user is are made and checked in
-- token/.
--
-- Shared modules. Prelude has the library names, Boolean tests, lists over native numbers, Go's
-- 64-bit int with its wrap-around (Prelude/Int), byte strings (Prelude/Text) with Go's test for
-- UTF-8 (Prelude/Utf8) and maps by text (Prelude/Assoc). Strconv is Go's strconv.Itoa and
-- ParseInt.
--
-- The storage, syncstorage/*.go, is Storage and its children. Storage/Checks is utils.go;
-- Storage/Data has the tables of schemas.go and the structs; Storage/Driver is what the code asks
-- of database/sql and the clock: an operation is a function from a World to a result and a World,
-- and the World says which call of the driver fails and what the clock shows, both arbitrary. A
-- transaction restores the tables on Rollback, and on a Commit that fails. Storage/Keys, Bso,
-- Erase, Collections, Search, Info and Batch have one definition for each method of DB and each
-- private helper, in the order of db.go and db_batch.go; their children hold the lemmas.
-- Storage/Open is OpenWithConfig, which makes the schemas or migrates, and Storage/Usage the page
-- counts, which SQLite answers as it likes. Storage/Operation makes the writing methods steps of a
-- history; its children prove what holds of every history. DB's mutex makes the methods run one
-- after the other, so that a history is a list. Timestamps, sizes and ids are natural numbers;
-- TTLs, sort indexes, limits and offsets are Go ints.
--
-- Tokens, token/token.go, are Token: HKDF, HMAC, base64 and JSON are the fields of a record, and
-- what their documents promise is a second record, a hypothesis. A call may panic.
--
-- The web layer, web/*.go, is Web. In front stand Web/Hawk, which is HawkHandler with its checks
-- in their order, over a record for the library hawk, with the nonces in Web/Nonce over a record
-- for Bloom filters; Web/Cache, which is CacheHandler over a record for bigcache and one for the
-- handler behind it; and Web/Weave, the writer that adds X-Weave-Timestamp. Web/Pool is the pool
-- with its map of elements, its list from the most to the least recently used one and the map from
-- users to nodes of that list, and Web/Pool/Steps its getElement cut where it gives up the lock;
-- Web/PoolHandler is the handler with the retries of a request while its user's handler is being
-- closed; Web/UserHandler has the sleep before each change of a user's data and the search for a
-- collection by name, Web/TidyUp the purging of a database when it is opened, and Web/Crypto the
-- check of bodies that stands before the routes that write. Web/Log is the writer that remembers
-- what the log needs. Config has the checks of config/config.go and the limits that server.go
-- makes of the values.
--
-- The routes of a user call the storage: a handler is a function from a World to what it answers
-- and a World (Web/Reply), and the driver may fail at any of its calls. Web/BsoRoutes has GET and
-- PUT of a BSO, Web/Deletes the deletions, Web/Listing the search of a collection, Web/Post the
-- POST to one and its older way, Web/PostBatch with Web/BatchParts the uploads in batches,
-- Web/InfoRoutes the information on a user's collections. Web/Body and Web/Lines read the bodies
-- of requests, over a record for encoding/json, and Web/Accept the header Accept. Web/ReadOnly and
-- Web/Guarded have the predicates on handlers that their proofs share, and the children of each
-- route what is proved of it. Web/NotModified is the treatment of X-If-Modified-Since and X-If-
-- Unmodified-Since; Web/BatchId is the text form of batch numbers; Web/Http has requests, error
-- responses and, as a parameter, floating point. What concurrent requests do to a pool during a
-- sleep is a parameter too; that a handler is stopped and then taken out in two steps is kept.
--
-- Bounds. Twenty digits are enough for 64-bit numbers in Strconv, and one round for each byte of a
-- text in Web/Lines; no other definition has fuel: loops are recursions on lists or on the number
-- of attempts left.
--
-- Not modelled: the JSON that is printed, and the bodies of the information routes beyond what
-- they tell; the text of the log, profiling, the reading of the environment and the wiring of the
-- handlers. SQL statements are the list operations that they denote; without ORDER BY the rows
-- stand newest first.
pub mod Prelude
pub mod Strconv
pub mod Config
pub mod Storage
pub mod Token
pub mod Web
pub mod Tests
