-- ===== src/Engine/Recover.antt =====
-- crates/engine/src/log/recover.rs: rebuilding the index of a namespace from the bytes of its files.
pub mod Records
pub mod Replay
pub mod Open
use kv.Prelude.{
  ℕ, zero, suc, ◌+◌, ◌-◌, ◌≤◌, Bool, true, false, ◌&&◌, List, [], ◌∷◌, Option, none, some, ltb, leb,
  ◌==◌, if◌then◌else◌, is_some, length, take, drop, Bytes, ok, err,
}
use kv.Engine.Error.{EngineError, Result}
use kv.Engine.Record.{
  Crc, RecordHeader, has_flag, tombstone, no_expiry, ttl_update, value_sep, header_len, u32_max,
  body_len, record_len, parse_header, verify_crc,
}
use kv.Engine.Index
use kv.Engine.Index.{NsIndex, IndexEntry}
use kv.Engine.File.{LogFile, read_at, truncate_to}

-- `if hdr.flags & NO_EXPIRY != 0 { None } else { Some(hdr.expires_at_ms) }`
abbrev pub expiry_of : RecordHeader → Option ℕ
expiry_of hdr = if has_flag hdr.flags no_expiry then none else some hdr.expires_at_ms

-- The sidecar entry of a record with a separated value.
unfoldable pub apply_valsep : NsIndex → RecordHeader → Bytes → Bytes → NsIndex
apply_valsep index hdr body key =
    if has_flag hdr.flags value_sep
    then (let vend = hdr.key_size + hdr.val_size in
        if (hdr.val_size == 16) && leb vend (length body)
        then Index.set_valsep index key (some (take 16 (drop hdr.key_size body)))
        else index)
    else index

unfoldable pub apply_record : NsIndex → ℕ → ℕ → RecordHeader → Bytes → NsIndex
unfolding apply_valsep
apply_record index file_id offset hdr body =
    if ltb (length body) hdr.key_size
    then index
    else (let key = take hdr.key_size body in
        if has_flag hdr.flags tombstone
        then (Index.remove index key).0
        else if has_flag hdr.flags ttl_update
        then (if is_some (Index.get index key)
            then Index.set_ttl index key (expiry_of hdr)
            else index)
        else if leb (record_len hdr) u32_max
        then (let entry : IndexEntry = record {
          record_offset = offset;
          record_size = record_len hdr;
          file_id = file_id;
          tstamp_ms = hdr.tstamp_ms;
        } in
            apply_valsep (Index.insert index key entry (expiry_of hdr)) hdr body key)
        else index)

-- What one round of the loop reads at an offset: nothing, if the scan stops there.
unfoldable pub read_record : Crc → LogFile → ℕ → Option (RecordHeader × Bytes)
read_record c file offset =
    let header_buf = read_at file offset header_len in
    if ltb (length header_buf) header_len then none else elim (parse_header header_buf offset) [
      | err _ ↦ none
      | ok hdr ↦
          let body = read_at file (offset + header_len) (body_len hdr) in
          if ltb (length body) (body_len hdr)
          then none
          else elim (verify_crc c hdr header_buf body offset) [
            | err _ ↦ none
            | ok _ ↦ some (hdr, body)
          ]
    ]

-- The loop over the records of a file, on fuel: the index, and the last good boundary.
unfoldable pub replay_loop : Crc → ℕ → LogFile → ℕ → NsIndex → NsIndex × ℕ
replay_loop c zero file offset index = (index, offset)
replay_loop c (suc fuel) file offset index =
    if ltb offset (length file.bytes)
    then elim (read_record c file offset) [
      | none ↦ (index, offset)
      | some (hdr, body) ↦
          replay_loop c fuel file (offset + record_len hdr)
            (apply_record index file.file_id offset hdr body)
    ]
    else (index, offset)

-- A record is never empty, so the length of the file is fuel enough.
abbrev pub loop_fuel : LogFile → ℕ
loop_fuel file = suc (length file.bytes)

-- A sealed file without a footer: its records are scanned, and the file stays as it is.
unfoldable pub rebuild_from_records : Crc → LogFile → NsIndex → NsIndex
unfolding replay_loop
rebuild_from_records c file index = (replay_loop c (loop_fuel file) file 0 index).0

-- The active file is cut at the last good boundary.
unfoldable pub replay_active : Crc → LogFile → NsIndex → NsIndex × LogFile
unfolding replay_loop
replay_active c file index =
    let (index', last_good) = replay_loop c (loop_fuel file) file 0 index in
    (index', if ltb last_good (length file.bytes) then truncate_to file last_good else file)
