-- ===== src/Engine/Log/Read.antt =====
-- The reads of crates/engine/src/log/mod.rs.
use kv.Prelude.{
  ℕ, ◌+◌, ltb, ◌==◌, if◌then◌else◌, length, take, drop, Bytes, bytes_eq, ok, err, ok_or, ◌>>=◌,
  ◌>>◌,
}
use kv.Engine.Error.{Result, bad_record}
use kv.Engine.Record.{Crc, has_flag, value_sep, header_len, parse_header, verify_crc}
use kv.Engine.Index.{IndexEntry}
use kv.Engine.File.{read_exact}
use kv.Engine.Values
use kv.Engine.Values.{content_hash}
use kv.Engine.Log.State.{NamespaceLog, Deps, locate_file}

unfoldable pub read_record : NamespaceLog → IndexEntry → Result Bytes
unfolding locate_file
read_record log entry = do
  file ← ok_or (locate_file log entry.file_id) (bad_record entry.record_offset)
  read_exact file entry.record_offset entry.record_size

-- The value field, the metadata and the flags of a record.
unfoldable pub extract_value_meta : Crc → Bytes → Result (Bytes × Bytes × ℕ)
extract_value_meta c bytes = do
  hdr ← parse_header (take header_len bytes) 0
  let key_end = header_len + hdr.key_size
  let val_end = key_end + hdr.val_size
  let meta_end = val_end + hdr.meta_size
  if ltb (length bytes) meta_end then err (bad_record 0) else do
    verify_crc c hdr (take header_len bytes) (drop header_len (take meta_end bytes)) 0
    ok (drop key_end (take val_end bytes), drop val_end (take meta_end bytes), hdr.flags)

unfoldable pub deref : Deps → NamespaceLog → Bytes → ℕ → Result Bytes
deref d log value flags =
    if has_flag flags value_sep
    then (if length value == 16
        then (do
          bytes ← Values.get log.values value
          if bytes_eq (content_hash d.blake3 bytes) value then ok bytes else err (bad_record 0))
        else err (bad_record 0))
    else ok value

unfoldable pub read_value : Deps → NamespaceLog → IndexEntry → Result (Bytes × Bytes)
unfolding read_record extract_value_meta deref
read_value d log entry = do
  bytes ← read_record log entry
  (value, metadata, flags) ← extract_value_meta d.crc bytes
  v ← deref d log value flags
  ok (v, metadata)
