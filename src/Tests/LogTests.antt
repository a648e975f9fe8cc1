-- ===== src/Tests/LogTests.antt =====
-- The log: crates/engine/src/log/mod.rs and recover.rs.
use kv.Prelude.{
  ◌^◌, ◌<◌, ◌≡◌, refl, true, [], ◌∷◌, ◌++◌, none, some, arith, length, take, to_le, bytes_eq,
  is_some, ok, err, is_ok,
}
use kv.Engine.Error.{io}
use kv.Engine.Record.{fits_u32, encode_into, record_bytes, header_tail}
use kv.Engine.Index
use kv.Prelude.ByteMap
use kv.Engine.Index.Valid.{IsValid}
use kv.Engine.File.{LogFile, open_file, append}
use kv.Engine.Recover.{replay_active}
use kv.Engine.Recover.Records.{LogRecord, RecordFits, IsTorn, torn, encoded, length-encoded}
use kv.Engine.Recover.Replay.{log_bytes, replayed, replay_active-log}
use kv.Engine.Log.State.{NamespaceLog, next_tstamp}
use kv.Engine.Log.Write.{put_full, put_full_cond, key_absent}
use kv.Engine.Log.Delete.{tombstone_key, ttl_update_key}
use kv.Engine.Log.Tracks.{Recovers, recovers, Agrees, Recovers-replay_active}
use kv.Engine.Log.Tracks.Records.{put_record}
use kv.Engine.Log.Crash.Puts.{HasRoom, put_full-Recovers, put_full_cond-Recovers}
use kv.Engine.Log.Crash.Markers.{tombstone_key-Recovers, ttl_update_key-Recovers}
use kv.Engine.Log.Revisions.{Wrote, put_full-Wrote, Decided, put_full_cond-Decided}
use kv.Prelude.{ok_or, ◌>>=◌}
use kv.Engine.File.Append.{IsWritable}
use kv.Engine.Log.Read.{read_value}
use kv.Engine.Log.ReadBack.{put_full-Reads}
use kv.Tests.{crc, deps, env, full_disk, log0, key, value}

abbrev record1 : LogRecord
record1 = put_record 5 key value [] none none

record1-fits : RecordFits record1
unfolding fits_u32
record1-fits = record { tstamp = omega arith; expires = omega arith; size = refl }

nothing-IsTorn : IsTorn crc []
nothing-IsTorn = torn record1 0 record1-fits (omega (arith, length-encoded crc record1)) refl

log0-Recovers : Recovers crc Index.empty log0.index log0.active
unfolding ByteMap.get
log0-Recovers = recovers [] [] (record {
  bytes = refl;
  fits = tt;
  stop = nothing-IsTorn;
  agrees = record {
    map = refl;
    ttl = refl;
    live_count = refl;
    valsep = λ k h e. e;
    within = λ k h. refl;
  };
  clean = λ h. refl;
  at_end = λ h. refl;
})

clock_below : next_tstamp 3 5 < 2 ^ 64
unfolding next_tstamp
clock_below = omega arith

log0-HasRoom : HasRoom log0 5 key value [] none
log0-HasRoom = record { clock = clock_below; expiry = omega arith; room = omega arith }

put_runs : (put_full deps env log0 key value [] none).1 ≡ ok 5
unfolding put_full next_tstamp encode_into fits_u32 append record_bytes to_le header_tail
put_runs = refl

put_fails : (put_full deps full_disk log0 key value [] none).1 ≡ err io
unfolding put_full encode_into fits_u32 append
put_fails = refl

put_full-Recovers_example :
    let (log', _) = put_full deps full_disk log0 key value [] none in
    Recovers crc Index.empty log'.index log'.active
put_full-Recovers_example =
    put_full-Recovers deps full_disk Index.empty key value [] none log0 log0-HasRoom log0-Recovers

put_full_cond-Recovers_example :
    let (log', _) = put_full_cond deps env log0 key value [] none key_absent 5 in
    Recovers crc Index.empty log'.index log'.active
put_full_cond-Recovers_example =
    put_full_cond-Recovers deps env Index.empty key value [] none log0 log0-HasRoom log0-Recovers
      key_absent 5

put_full-Wrote_example :
    Wrote deps env log0 key value [] none (omega arith) (put_full deps env log0 key value [] none)
put_full-Wrote_example = put_full-Wrote deps env log0 key value [] none (omega arith)

put_full_cond-Decided_example :
    Decided deps env log0 key value [] none
      (omega arith)
      key_absent
      5
      (put_full_cond deps env log0 key value [] none key_absent 5)
put_full_cond-Decided_example =
    put_full_cond-Decided deps env log0 key value [] none (omega arith) key_absent 5

-- A log that holds the key.
abbrev log1 : NamespaceLog
log1 = (put_full deps env log0 key value [] none).0

log1-Recovers : Recovers crc Index.empty log1.index log1.active
log1-Recovers =
    put_full-Recovers deps env Index.empty key value [] none log0 log0-HasRoom log0-Recovers

log1-IsValid : IsValid log1.index
unfolding put_full next_tstamp encode_into fits_u32 append record_bytes to_le header_tail
    Index.insert Index.set_valsep ByteMap.insert ByteMap.put ByteMap.get bytes_eq
log1-IsValid = record {
  map_sorted = (tt, tt);
  ttl_sorted = tt;
  valsep_sorted = tt;
  counted = refl;
  ttl_within = λ k h. refl;
  valsep_within = λ k h. refl;
}

log1-clock : next_tstamp log1.last_tstamp env.now < 2 ^ 64
unfolding put_full next_tstamp encode_into fits_u32 append record_bytes to_le header_tail
    Index.insert Index.set_valsep ByteMap.insert ByteMap.put ByteMap.get bytes_eq
log1-clock = omega arith

log1-holds : is_some (Index.get log1.index key) ≡ true
unfolding put_full next_tstamp encode_into fits_u32 append record_bytes to_le header_tail
    Index.insert Index.set_valsep ByteMap.insert ByteMap.put ByteMap.get bytes_eq
log1-holds = refl

tombstone_runs : is_ok (tombstone_key deps env log1 key).1 ≡ true
unfolding put_full next_tstamp encode_into fits_u32 append record_bytes to_le header_tail
    Index.insert Index.set_valsep ByteMap.insert ByteMap.put ByteMap.get bytes_eq tombstone_key
    Index.remove ByteMap.remove
tombstone_runs = refl

tombstone_key-Recovers_example :
    let (log', _) = tombstone_key deps env log1 key in
    Recovers crc Index.empty log'.index log'.active
tombstone_key-Recovers_example =
    tombstone_key-Recovers deps env Index.empty key log1 log1-clock log1-IsValid log1-Recovers
      tombstone_runs

ttl_update_key-Recovers_example :
    let (log', _) = ttl_update_key deps env log1 key (some 9) in
    Recovers crc Index.empty log'.index log'.active
ttl_update_key-Recovers_example =
    ttl_update_key-Recovers deps env Index.empty key log1 (some 9) log1-clock (omega arith)
      log1-holds log1-Recovers

Recovers-replay_active_example :
    Agrees
      (replay_active crc (open_file log1.active.file_id log1.active.bytes) Index.empty).0
      log1.index
Recovers-replay_active_example =
    Recovers-replay_active crc Index.empty log1.index log1.active log1-Recovers

-- A file with a record, and ten bytes of another.
abbrev torn_file : LogFile
torn_file = open_file 1 (log_bytes crc (record1 ∷ []) ++ take 10 (encoded crc record1))

ten_bytes-IsTorn : IsTorn crc (take 10 (encoded crc record1))
ten_bytes-IsTorn = torn record1 10 record1-fits (omega (arith, length-encoded crc record1)) refl

replay_active-log_example :
    ((replay_active crc torn_file Index.empty).0 ≡ replayed crc 1 0 Index.empty (record1 ∷ []))
    × ((replay_active crc torn_file Index.empty).1.bytes ≡ log_bytes crc (record1 ∷ []))
    × ((replay_active crc torn_file Index.empty).1.write_offset
        ≡ length (log_bytes crc (record1 ∷ [])))
replay_active-log_example =
    replay_active-log crc (record1 ∷ []) (take 10 (encoded crc record1)) torn_file Index.empty refl
      refl (record1-fits, tt) ten_bytes-IsTorn

log0-IsWritable : IsWritable log0.active
log0-IsWritable = record { healthy = refl; at_end = refl }

put_full-Reads_example :
    let (log', result) = put_full deps env log0 key value [] none in
    (result ≡ ok (next_tstamp log0.last_tstamp env.now))
    × ((ok_or (Index.get log'.index key) io >>= read_value deps log') ≡ ok (value, []))
put_full-Reads_example =
    put_full-Reads deps env log0 key value [] none refl refl log0-IsWritable log0-HasRoom
      record1-fits.size refl
