-- ===== src/Lib.antt =====
-- mizzle, a library for git servers with pluggable storage: a model of its storage backends, its
-- protocol parsers and its push handling, and proofs about them.
--
-- A client's request is packet lines. mizzle-proto parses them under limits; the server (mizzle)
-- asks the application's access policy, stores the pack and updates refs through a storage backend,
-- or answers from one. The database backends keep refs, objects and the commit graph in TiKV or in
-- SQLite.
--
-- Base        Bytes, numbers in bytes, UTF-8, results, object ids. An `ObjectId` is a number below
--             2 ^ 160, 0 the null id. How ids are written in bytes and in hex is gix's: the records
--             `OidCodec` and `OidHex`, with what gix documents.
-- Refs        Ref updates, and the contract of `StorageBackend::update_refs` in
--             mizzle/src/backend/mod.rs as a function on maps from names to ids.
-- Kv.Keys     mizzle/src/backend/kv/keys.rs, function by function.
-- Kv.Refs     mizzle/src/backend/kv/refs.rs and txn.rs, over Kv.Store, an interface of a TiKV
--             transaction with its get, put, delete and scan. Whether a commit goes through is an
--             argument. A read for update is of what is committed, not of the transaction's own
--             writes.
-- Kv.Repos    mizzle/src/backend/kv/mod.rs: `init_repo` and `open`. Clients' steps are a relation
--             on stores: an `init_repo`, whose fast path and whose transaction's start read any
--             store, or an `update_refs`. A plain `get` of a transaction reads the store in which it
--             started, and `get_for_update` the one that its commit finds.
-- Kv.Graph    mizzle/src/backend/kv/graph.rs: the ancestor test, push kinds and
--             `reachable_excluding`. `fetch_parents` is a parameter. The loops take fuel, one unit a
--             round; the theorems ask for as much as the number of commits, which is enough since no
--             commit enters the queue twice.
-- Sql.Refs    mizzle/src/backend/sql/refs.rs, over Sql.Table, an interface of the refs table.
-- Parity      The two database backends compared.
-- Proto       mizzle-proto/src. The reader of gix-packetline is the list of what it yields; the body
--             of a push is its bytes. `read_updates` takes fuel, one unit a line; the length of the
--             body and one more are enough since each line takes four bytes at least.
-- Server      mizzle/src/serve.rs, receive.rs, fetch.rs and ls_refs.rs: ref snapshots,
--             advertisements, the routing of requests in both protocols, and a push from request to
--             `post_receive`, over Server.Policy, the interfaces of a backend and of a policy.
--             Server.Fetch has the replies to a fetch, over `PackSource`, Server.Ssh and
--             Server.Upload the sessions over SSH, whose loop over commands takes fuel, one unit a
--             command. A spawned task runs at the end of its request, the temporary file for the
--             pack can be written, and writes to the client succeed.
-- Auth        mizzle/src/auth.rs, auth_types.rs and sigverify.rs: the queries of a policy on a push,
--             each with its cell or cache, and the payloads of signatures. A panic is `none`. The
--             keys of the policy are computed when they are asked for, not kept.
--             `find_line_start` takes fuel, one unit a match, for which the length of the bytes and
--             one more are enough.
-- Lfs         mizzle-proto/src/lfs.rs and mizzle/src/lfs: object ids, pointer blobs, the batch
--             handler and the transfer endpoints, over Lfs.Store, the interface of an LFS store.
--             JSON is serde's. Printing a size takes fuel, one unit a digit; 20 are enough for a
--             `u64`.
-- Tests       Instances of the interfaces, and the theorems at concrete inputs.
--
-- Strings are their UTF-8 bytes; messages of errors are named by constructors. A `HashSet` is a list
-- of its items.
--
-- Not modelled: the file-system backends, the SQL graph, object storage and pack building
-- (mizzle/src/backend, pack.rs, pack_reuse.rs, bitmap.rs), the inspection of packs (inspect.rs),
-- the LFS store on disk (mizzle/src/lfs/fs.rs), the HTTP and SSH front ends
-- (mizzle/src/servers) and the sniffer. Logging has no model.
pub mod Base
pub mod Refs
pub mod Kv
pub mod Sql
pub mod Parity
pub mod Proto
pub mod Server
pub mod Auth
pub mod Lfs
pub mod Tests
