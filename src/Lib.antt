-- ===== src/Lib.antt =====
-- Verification of beyond/kv, a key-value store: its storage engine (crates/engine) and the commands
-- of its protocol (crates/proto).
--
-- The program. A shard keeps, for each namespace, a log (crates/engine/src/log): records are
-- appended to an active file, an index in memory says where the live record of each key stands, and
-- sealed files end in a footer that lists their live entries. Large values go to a store of blobs
-- by content hash (value_store.rs). On start the index is rebuilt from footers and records
-- (log/recover.rs). A cache in memory (cache.rs) stands before the log; store.rs opens namespaces and
-- has the operations on keys, each of which goes to the log, then the cache, then the watchers.
-- Commands arrive as RESP arrays and are parsed by crates/proto/src/command.rs.
--
-- The files.
--   Prelude           numbers, tests, lists, Rust's Result, byte strings, maps with byte-string keys
--   Engine/Record     log/record.rs: parse_header, verify_crc, encode_into
--   Engine/Index      log/index.rs: NsIndex, its maps and scan; Valid is its invariant
--   Engine/File       log/file.rs: LogFile, append, reads, truncate_to
--   Engine/Footer     log/file.rs: FooterEntry, write_footer, read_footer
--   Engine/Recover    log/recover.rs: apply_record, replay_active; Open has open_namespace
--   Engine/Values     value_store.rs: put, unref, collect_garbage, sweep_orphans; Counts has the counts
--                     of blobs, Release what unref and collect_garbage do with them
--   Engine/Log        log/mod.rs: State (NamespaceLog, the clock, rotation), Write (put_full,
--                     put_full_cond), Delete (tombstone, tombstone_cond, ttl_update), Read
--                     (read_value); Tracks relates the index in memory to the bytes of the active
--                     file, and Crash says that the writes keep that relation; Revisions says what
--                     a write leaves in the index, ReadBack what is read of it; Seal has sync and
--                     the seal on shutdown, Flush has flush
--   Engine/Cache      cache.rs: MemCache; Remove has the removals, Valid the invariant
--   Engine/Watch      watch.rs: WatchRegistry; Capacity is about its limit, Subscriptions about
--                     the senders of each key, Delivery about notify
--   Engine/Store      store.rs and types.rs: a Shard is the log of one namespace with the cache and
--                     the notices to watchers, and Shards has the whole ShardStore with ensure_ns;
--                     Names (is_valid_ns_name, cache_key), Reads (get, getex, ttl, exists), Writes
--                     (set, setnx, setxx, setrev, getset, incr), Deletes (del, delrev, getdel,
--                     expire, persist), Glob (glob_match, with a
--                     grammar of its classes in Classes) and Scan
--                     (scan and a client that follows its cursors), Flush (flush_db); Ensures
--                     has the rules for conditions before and after a method, Coherent the
--                     agreement of cache and index, and ReadBack a set followed by a get
--   Proto/Integer     crates/proto/src/command.rs: atoi_u64, atoi_i64
--   Proto/Command     crates/proto/src/command.rs: Options and Parse have the parsers of arguments,
--                     Table the match on the name and the commands with options,
--                     WellFormed what every parsed command satisfies, Requests the round trip
--   Tests             runs on small inputs, and the properties at those inputs
--
-- State and faults. A method that changes its object takes the object and returns it with a result;
-- what was changed before an error stays changed. The clock and the answers of the kernel are
-- arguments: a write puts all of its bytes on disk, or stops after some of them and fails, which
-- leaves a torn record in a poisoned file. The methods run one after the other; the locks of the
-- program (write stripes, the reclaim lock, the stripes of blob files) order them and are not
-- modelled. The checksum CRC-64/NVME and the hash BLAKE3 are parameters: a checksum is a u64, and a
-- hash has 32 bytes. The library of JSON (what it prints is not empty) and the
-- channels of the watchers are parameters as well. What incr uses of the standard library, str::parse,
-- checked_add and to_string, stands in Engine/Store/Integer.
--
-- Numbers are natural numbers; a u64 or u32 that the code lets wrap is written with its modulus, and
-- a little-endian word has its bytes written out. Sums of sizes in memory are taken to fit a usize.
--
-- Loops on fuel. The replay of a file takes the length of the file and one more, since a record is
-- never empty; the parser of a footer takes the length of its body and one more, since an entry is
-- never empty; the second phase of an eviction takes the number of entries that were accessed and of
-- slots of Main, and one more, since each turn drops a slot or clears an access; the loop that
-- evicts takes the number of entries; the printer of a decimal takes the number and one more;
-- glob_match takes the product of the lengths of key and of both, with one more each, since a turn
-- shortens the pattern or the key, or moves the last star; a client of scan takes more than it is
-- to collect. incr makes 64 rounds, as the source does.
--
-- Interleavings. An operation of the store runs to its end before the next one, but for ensure_ns,
-- in which other tasks may do anything that keeps the store sound while a file is opened. The clock
-- is read once for an operation, and once for each round of incr.
--
-- Not modelled: put_many, scan_since, bulk_read and reclaim; of store.rs mget, mset,
-- watch_subscribe and what goes over all namespaces; the server (crates/server), the benchmarks
-- and the TypeScript SDK; buffer pools, file names and fsync.
pub mod Prelude
pub mod Engine
pub mod Proto
mod Tests
