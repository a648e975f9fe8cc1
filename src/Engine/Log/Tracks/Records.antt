-- ===== src/Engine/Log/Tracks/Records.antt =====
-- What each kind of record does to the index on replay: crates/engine/src/log/recover.rs,
-- apply_record.
use kv.Prelude.{
  ℕ, ◌+◌, ◌≡◌, ◌∙◌, true, false, [], ◌++◌, Option, none, some, arith, length, take, is_some, ltb,
  le→ltb_false, take-append, drop-append, take-append_of, Bytes,
}
use kv.Engine.Record.{Crc, tombstone, ttl_update, record_len}
use kv.Engine.Record.RoundTrip.{sizes}
use kv.Engine.Index
use kv.Engine.Index.{NsIndex, IndexEntry}
use kv.Engine.Recover.{apply_record}
use kv.Engine.Recover.Records.{LogRecord, RecordFits, header, body, length-body}
use kv.Engine.Log.Write.{expiry_flags, expiry_ms, sep_flags, stored_value}

-- The records that the methods of the log write.
abbrev pub put_record : ℕ → Bytes → Bytes → Bytes → Option ℕ → Option Bytes → LogRecord
put_record t key value metadata expires sep_hash = record {
  tstamp_ms = t;
  flags = expiry_flags expires + sep_flags sep_hash;
  expires_at_ms = expiry_ms expires;
  key = key;
  value = stored_value sep_hash value;
  metadata = metadata;
}

abbrev pub tombstone_record : ℕ → Bytes → LogRecord
tombstone_record t key = record {
  tstamp_ms = t;
  flags = tombstone;
  expires_at_ms = 0;
  key = key;
  value = [];
  metadata = [];
}

abbrev pub ttl_record : ℕ → Bytes → Option ℕ → LogRecord
ttl_record t key expires = record {
  tstamp_ms = t;
  flags = ttl_update + expiry_flags expires;
  expires_at_ms = expiry_ms expires;
  key = key;
  value = [];
  metadata = [];
}

abbrev pub HashFits : Option Bytes → Type 0
HashFits none = Unit
HashFits (some h) = length h ≡ 16

-- Replay sets a hash, and never takes one out.
abbrev pub set_some : NsIndex → Bytes → Option Bytes → NsIndex
set_some index key none = index
set_some index key (some h) = Index.set_valsep index key (some h)

module _ (c : Crc) (index : NsIndex) (id offset t : ℕ) (key : Bytes) where
  body_key : (r : LogRecord) → r.key ≡ key → take (length r.key) (body r) ≡ key
  body_key r e = take-append r.key (r.value ++ r.metadata) ∙ e

  key-le-body : (r : LogRecord) → ltb (length (body r)) (length r.key) ≡ false
  key-le-body r = le→ltb_false _ _ (omega (arith, length-body c r))

  pub apply-put :
      (value metadata : Bytes) (expires : Option ℕ) (sep_hash : Option Bytes)
      → let r = put_record t key value metadata expires sep_hash in
        RecordFits r
        → HashFits sep_hash
        → apply_record index id offset (header c r) (body r)
          ≡ set_some
              (Index.insert index key
                (record {
                  record_offset = offset;
                  record_size = record_len (header c r);
                  file_id = id;
                  tstamp_ms = t;
                })
                expires)
              key
              sep_hash
  unfolding apply_record
  apply-put value metadata none none fits hf = ground (
    arith,
    key-le-body (put_record t key value metadata none none),
    take-append key (value ++ metadata),
    sizes c t 2 0 key value metadata fits,
  )
  apply-put value metadata (some ms) none fits hf = ground (
    arith,
    key-le-body (put_record t key value metadata (some ms) none),
    take-append key (value ++ metadata),
    sizes c t 0 ms key value metadata fits,
  )
  apply-put value metadata none (some h) fits hf = ground (
    arith,
    key-le-body (put_record t key value metadata none (some h)),
    take-append key (h ++ metadata),
    drop-append key (h ++ metadata),
    take-append_of 16 h metadata hf,
    length-body c (put_record t key value metadata none (some h)),
    sizes c t 10 0 key h metadata fits,
  )
  apply-put value metadata (some ms) (some h) fits hf = ground (
    arith,
    key-le-body (put_record t key value metadata (some ms) (some h)),
    take-append key (h ++ metadata),
    drop-append key (h ++ metadata),
    take-append_of 16 h metadata hf,
    length-body c (put_record t key value metadata (some ms) (some h)),
    sizes c t 8 ms key h metadata fits,
  )

  pub apply-tombstone :
      RecordFits (tombstone_record t key)
      → apply_record index id offset
          (header c (tombstone_record t key))
          (body (tombstone_record t key))
        ≡ (Index.remove index key).0
  unfolding apply_record
  apply-tombstone fits = ground (arith, key-le-body (tombstone_record t key), take-append key [])

  pub apply-ttl :
      (expires : Option ℕ)
      → RecordFits (ttl_record t key expires)
      → is_some (Index.get index key) ≡ true
      → apply_record index id offset
          (header c (ttl_record t key expires))
          (body (ttl_record t key expires))
        ≡ Index.set_ttl index key expires
  unfolding apply_record
  apply-ttl none fits held = ground (arith, key-le-body (ttl_record t key none), take-append key [])
  apply-ttl (some ms) fits held =
      ground (arith, key-le-body (ttl_record t key (some ms)), take-append key [])
