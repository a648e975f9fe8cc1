-- ===== src/Tests/SealTests.antt =====
-- The seal on shutdown: crates/engine/src/log/mod.rs and recover.rs.
use kv.Prelude.{
  ◌+◌, ◌^◌, ◌<◌, ◌≡◌, refl, true, false, [], ◌∷◌, none, arith, Bytes, length, All, ok, bytes_eq,
  bytes_lt, bytes_lt,
}
use kv.Prelude.ByteMap
use kv.Engine.Index
use kv.Engine.Index.{NsIndex, IndexEntry}
use kv.Engine.File.{open_file, append, write_at, read_exact}
use kv.Engine.Record.{encode_into, fits_u32, record_bytes, header_tail}
use kv.Prelude.{to_le, from_le}
use kv.Engine.Footer.{write_footer, trailer, read_footer, read_entries, parse_entries, parse_entry}
use kv.Engine.Log.State.{next_tstamp, remove_file}
use kv.Engine.Footer.{no_footer_faults, encode_entries, encode_entry}
use kv.Engine.Footer.RoundTrip.{EntryFits}
use kv.Engine.Recover.Open.{OpenedFiles, load_highest, open_namespace, FromFooter}
use kv.Engine.Log.State.{NamespaceLog, active_footer, footer_of}
use kv.Engine.Log.Seal.{seal_active_for_shutdown, seal_active_for_shutdown-Opened}
use kv.Prelude.{◌++◌, ◌>>=◌, is_some}
use kv.Engine.Log.State.{rotate_active}
use kv.Engine.Log.Write.{put_full}
use kv.Engine.Log.Delete.{tombstone_key}
use kv.Tests.{deps, env, crc, log0, key, value}

-- The index of two files: a key in the active file, which has an expiry time, and one in file 0.
abbrev index2 : NsIndex
index2 = record {
  map =
      (97 ∷ [], record { record_offset = 0; record_size = 40; file_id = 1; tstamp_ms = 5 })
      ∷ (98 ∷ [], record { record_offset = 0; record_size = 41; file_id = 0; tstamp_ms = 4 })
      ∷ [];
  ttl = (97 ∷ [], 9) ∷ [];
  valsep = [];
  live_count = 2;
}

abbrev log2 : NamespaceLog
log2 = record log0 { index = index2; active = open_file 1 value; unsynced_bytes = 2 }

footer-fits : All EntryFits (active_footer log2)
unfolding footer_of ByteMap.get bytes_eq
footer-fits = (
  record {
    key = omega arith;
    offset = omega arith;
    size = omega arith;
    expires = omega arith;
    tstamp = omega arith;
    hash = tt;
  },
  tt,
)

small_file : length log2.active.bytes + length (encode_entries (active_footer log2)) + 24 < 2 ^ 64
unfolding footer_of ByteMap.get bytes_eq encode_entries encode_entry
small_file = omega arith

index2-IsSorted : ByteMap.Order.IsSorted index2.map
unfolding bytes_lt
index2-IsSorted = ((refl, tt), (tt, tt))

seal_active_for_shutdown-Opened_example :
    let (log', r) = seal_active_for_shutdown crc false no_footer_faults log2 in
    (r ≡ ok tt)
    × (o : OpenedFiles) × (load_highest crc Index.empty [] log'.active ≡ ok o)
    × (o.sealed ≡ log'.active ∷ [])
    × (o.active.file_id ≡ 2)
    × (o.active.bytes ≡ [])
    × ((k : Bytes) → FromFooter index2 1 Index.empty index2.map o.index k)
seal_active_for_shutdown-Opened_example =
    seal_active_for_shutdown-Opened crc log2 Index.empty []
      (record { healthy = refl; at_end = refl }) footer-fits small_file index2-IsSorted
      (omega arith)

-- A key that is put, whose file is rotated away, and which is deleted in the next file, which is
-- then sealed.
abbrev deleted_log : NamespaceLog
deleted_log =
    let put = (put_full deps env log0 key value [] none).0 in
    let rotated = (rotate_active crc env put).0 in
    let deleted = (tombstone_key deps env rotated key).0 in
    (seal_active_for_shutdown crc false no_footer_faults deleted).0

-- The key is not in memory, and it is back after a clean restart.
deleted_key_in_memory : Index.get deleted_log.index key ≡ none
unfolding put_full next_tstamp encode_into fits_u32 append write_at record_bytes to_le header_tail
    Index.insert Index.set_valsep Index.remove ByteMap.insert ByteMap.put ByteMap.get ByteMap.remove
    bytes_eq rotate_active write_footer encode_entries encode_entry trailer footer_of tombstone_key
    seal_active_for_shutdown
deleted_key_in_memory = refl

deleted_key_returns :
    (open_namespace crc (deleted_log.sealed ++ deleted_log.active ∷ []) >>= λ o.
    ok (is_some (Index.get o.index key)))
    ≡ ok true
unfolding put_full next_tstamp encode_into fits_u32 append write_at record_bytes to_le header_tail
    Index.insert Index.set_valsep Index.remove ByteMap.insert ByteMap.put ByteMap.get ByteMap.remove
    bytes_eq rotate_active write_footer encode_entries encode_entry trailer footer_of tombstone_key
    seal_active_for_shutdown open_namespace read_footer read_exact from_le parse_entries parse_entry
    remove_file read_entries
deleted_key_returns = refl
