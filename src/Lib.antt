-- ===== src/Lib.antt =====
-- The core of the bridge framework's daemon and of the crates that it stands on, with what makes
-- each part correct.
--
-- The program is a development daemon. Its HTTP and TCP front ends, the command line and the
-- clients parse a request and call one of the components below; a component keeps its state in
-- memory, behind a lock, and does not call the others, except that a transaction of the registry
-- (daemon/src/transactions.rs) is committed to the store (db/src/lib.rs), that the tokens of
-- daemon/src/auth.rs and the signed URLs of daemon/src/storage.rs stand on the keyed digest of
-- daemon/src/staticfiles.rs, and that the storage joins its paths there.
--
-- Which file models which part:
--   Db and its children: db/src/lib.rs, the store of namespaces, `Db`, with its entries (Db/Entries),
--     operations of a transaction (Db/TxOp) and transactions (Db/Transaction). Db/View describes what
--     a write does to a lookup, and the other children state what holds of reads, counts and commits.
--   Glob: what a pattern means. Glob/Table: `glob_match` of db/src/lib.rs, which fills a table;
--     Glob/Backtrack: `glob_match` and `glob_rec` of daemon/src/cache.rs, which go back.
--   Transactions: daemon/src/transactions.rs, in Transactions/Manager `TransactionManager` and in
--     Transactions/Registry `TxRegistry` and `apply_op`. Transactions/Replay says what its operations
--     mean for the entries of the store, and the other children state what holds of both layers.
--   Deploy: daemon/src/deploy.rs, `Status` and `DeployRegistry`.
--   PubSub: daemon/src/pubsub.rs, `Broker` with the fields of `BrokerInner`.
--   Cache: daemon/src/cache.rs, `CacheRegistry`, its keyspaces and the eviction.
--   Services: daemon/src/registry.rs, `Service` and `ServiceRegistry`.
--   Cron: daemon/src/cron.rs, the parser of expressions, `Job` and `Scheduler`.
--   Shutdown: daemon/src/shutdown.rs, `ShutdownCoordinator`.
--   Protocol: protocol/src/lib.rs, its words and the percent encoding; Protocol/Command: `Command`;
--     Protocol/Parser: `parse_command`, with the arms for two words in Protocol/Spaced and those for
--     one in Protocol/Hyphenated. Protocol/Lines and Spellings state what holds of lines.
--   WebSocket: daemon/src/websocket.rs, its frames, and in WebSocket/Hub `WsHub`. WebSocket/Bits,
--     Masks, Frames, Incremental and Rooms state what holds of them.
--   Cli: cli/src/main.rs, `build_command`. Cli/Meaning says what a command asks for, and Cli/Agrees and
--     Cli/Auth compare it with what the daemon reads.
--   MiniRedis: miniredis/src/lib.rs, the embedded Redis. MiniRedis/Texts, Lists and Hashes: the
--     operations of `Store`; MiniRedis/Patterns: `glob`; MiniRedis/Dispatch: `dispatch` with the arms
--     of `dispatch_inner`, one function for each group of commands. The other children state what
--     holds of pushes, counters, patterns and errors.
--   Digest: `sha256_bytes` and `hmac_sha256` of daemon/src/staticfiles.rs, over bytes. Digest/Padding
--     and Width state what holds of the padding and of the length of a digest.
--   Auth: daemon/src/auth.rs. Auth/Base64: base64url; Auth/Claims: `JwtClaims` and its JSON; Auth/Scan:
--     `scan_flat_object` and `from_json`; Auth/Jwt: `jwt_sign` and `jwt_verify`; Auth/Registry:
--     `AuthRegistry`. Auth/Sound says what is accepted, Auth/Signed what becomes of a signed token,
--     and the other children are the laws of the parts.
--   Storage: daemon/src/storage.rs with `safe_join` of daemon/src/staticfiles.rs, over a disk of files
--     and folders. Storage/Signing: the signed URLs. Storage/Paths and Stored state what holds of paths
--     and objects.
--   Base: lists, maps, texts, numerals and the laws that the components share.
-- A function has the name of its source function, except where two types of one file have a
-- function of one name, or the name is taken: `mode_as_str` is `DaemonMode::as_str`, `is_registered`
-- is `ServiceRegistry::contains`.
--
-- How the source is read:
--   A hash map is the list of its entries in the order in which it iterates; that order is the
--   source's to choose, and no statement depends on it but where it is said (the matcher of the
--   oldest entry takes the first of equals). A method on shared state is one step, as it is under
--   the lock; `Transaction::commit` of the store, which takes the lock for each operation, is the
--   sequence of those steps. A reading of the clock is an argument: one for each reading that the
--   source makes, and a sequence of them for a loop. A number of 64 bits is unbounded where it
--   counts calls, and saturates or wraps where the source says so: the deadline of an entry of the
--   cache, the count of attempts of a message. The sums that give the expiry of a token, of a session
--   and of a signed URL wrap, as in a release build; an instant of the store has no greatest, where the
--   source panics. An error message is a constructor, with the word that it repeats or without it. The
--   rendering of JSON is left out. `to_lowercase` and `to_uppercase` are exact as far as a word of ASCII is compared
--   with the result. The texts of the protocol are lists of code points.
--   `parse::<u32>`, `from_str_radix` and `from_utf8` follow the documentation of the standard
--   library. The addition of `i64` wraps, as in a release build. An instant of the embedded Redis is a
--   number of milliseconds without a greatest. What panics is an outcome of its own. A cleanup
--   handler is code of the application and a field of the model.
--
-- Loops: most are structural. The eviction of the cache runs on as much fuel as the keyspace has
-- entries, and each turn removes one. The backtracking matcher runs on as much fuel as the pattern
-- has characters, and each turn reads one at least. A numeral has fewer digits than its number has
-- units, which is its fuel. The padding of a message takes fewer than 64 rounds, and the compression
-- one for each block. The scanner of claims takes a character at least in each round, so that the
-- number of characters and one more is enough.
--
-- Not modelled: the front ends and everything that is input, output, rendering, processes or
-- floating point, such as the token bucket of daemon/src/ratelimit.rs; the clients and the user
-- interface; of protocol/src/lib.rs the rendering of responses; the RESP codec and the
-- accept loop of miniredis/src/lib.rs; the opening handshake of daemon/src/websocket.rs; of daemon/src/staticfiles.rs the
-- mounts and the serving of files. The disk under the storage has no faults of its own and no limit on
-- the length of names.
pub mod Base
pub mod Glob
pub mod Db
pub mod Transactions
pub mod Deploy
pub mod PubSub
pub mod Cache
pub mod Services
pub mod Cron
pub mod Shutdown
pub mod Protocol
pub mod MiniRedis
pub mod Cli
pub mod WebSocket
pub mod Digest
pub mod Auth
pub mod Storage
