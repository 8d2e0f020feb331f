-- ===== src/Lib.antt =====
-- Confide file transfer: transactions of files between the users of servers that trust each other.
--
-- A user creates a transaction for a target user, uploads files into it and commits it; from then on
-- it cannot change. The target downloads the files, or, for a user of another server, the forwarder
-- pushes the transaction to that server, which receives it as a transaction of its own. The
-- retention sweep deletes what has expired, and administrators may delete earlier or extend. All of
-- these go through one service, which keeps an index of the transactions over a file store and logs
-- business events. Requests come over HTTP: a router picks the handler, and an authenticator says
-- who is calling, by password (slowed down by a limiter), by session token or by peer token.
--
-- The files:
--   Base            the shared names: results as in src/lib/common/error.hpp, texts as lists of
--                   bytes, association lists for `std::unordered_map`, a sort for
--                   `std::ranges::sort`, integers.
--   Common          src/lib/common: base64.cpp (Base64), sha256.cpp (Digest, the hex form), id.cpp
--                   (Ids), path_sanitizer.cpp (Paths), time.cpp (Times, TimeArgs). Json has the values of
--                   boost::json, Numbers has std::from_chars.
--   Storage         src/lib/storage: the operations of `FileStore` that the service calls
--                   (storage.hpp, Interface), and what they do on a file system: storage.cpp and
--                   impl/documents.cpp (Store), impl/upload.cpp (Uploads).
--   Transaction     src/lib/transaction: transaction.cpp (Types, Files), state_machine.cpp (States),
--                   codec.cpp (Codec), repository.cpp (Repository), service.cpp (Service: Core, Access, Sending,
--                   Uploading, Committing, Removing, Reading). Service/History runs sequences of
--                   calls, Persistence starts a server again on what is on its disk.
--   Auth            src/lib/auth: session_store.cpp (Sessions), login_limiter.cpp (Limiter),
--                   password.cpp (Passwords), local_directory.cpp (LocalDirectory),
--                   authenticator.cpp (Authenticator).
--   Net, Api        src/lib/net/url.cpp (Net/Urls, Net/ServerUrls), src/lib/api: router.cpp (Api/Urls, Api/Router),
--                   http.cpp (Api/Http), json.cpp (Api/Json), handlers.cpp (Api/Handlers),
--                   admin_handlers.cpp and auth_handlers.cpp (Api/AdminHandlers), the tables of
--                   routes (Api/Routes), server/dispatch.cpp (Api/Dispatch). Api/Context is what
--                   they share: requests, responses and the state.
--   Forwarder       src/lib/forwarder/forwarder.cpp: the queue, the waits, and one push, also to a
--                   second server of this model (Delivery).
--   Retention       src/lib/retention/scheduler.cpp: one sweep.
--   Tests           concrete runs, with a file store in memory.
--
-- State and operations. A state is a record (`Server`, `Guard`, `Dict Session`, a queue), and an
-- operation of the source is the function of its name from the arguments and the state to the result
-- and the state after it, also where it fails. CFD_TRY is the bind of the result. The clock, random
-- bytes and digests are arguments. A mutex that an operation holds makes it one step, so that
-- interleavings of threads are the sequences of steps (`Service.History.run`); `PendingUpload.finish`
-- is a step of its own, since the lock is not held while a file arrives.
--
-- Parameters, for code that is not in this model, or that its clients see by its contract alone:
-- the file store (Storage/Interface), with the laws `KeepsDocuments` and `KeepsUploads` where a
-- property needs them; the file system below it (Storage/FileSystem), with `FileSystemLaws`;
-- json::parse and json::serialize of boost (`JsonText`, with the law that a text is read back); the
-- user directory; SHA-256 and PBKDF2; the exceptions that reach the dispatcher; the HTTP client and
-- the peer behind it (`Remote`); what is read from a connection (`Request`).
--
-- Bounds. A time is a natural number, the seconds since the start of the year 0, so that 1970 is
-- 62167219200; a size is a natural number; `total_bytes` wraps at 2 ^ 64, the file count of an
-- event and the counters of the limiter and the forwarder at 2 ^ 32. Every loop is structural
-- recursion on the list or the count that bounds it, or, for the years, the months and the decimal
-- digits of a number, on a count that the theorems on them show to be enough.
--
-- Not modelled: `list_files` and `stat` of the file store, configuration files, LDAP, the sockets
-- and coroutines of the server, the client, threads and condition variables, the text of the logs, and the command line programs. The detail of an error, which is a text for people,
-- is no part of an error here; the answers of the API (Api/Context) say where the API gives one of
-- its own instead.
pub mod Base
pub mod Common
pub mod Storage
pub mod Transaction
pub mod Net
pub mod Api
pub mod Auth
pub mod Forwarder
pub mod Retention
pub mod Tests
