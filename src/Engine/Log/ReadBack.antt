-- ===== src/Engine/Log/ReadBack.antt =====
-- What read_value of crates/engine/src/log/mod.rs reads of a record that was appended.
use kv.Prelude.{
  ℕ, ◌+◌, ◌≡◌, refl, ap, ◌∙◌, sym, false, ◌++◌, [], none, length, take, drop, take-append_of,
  drop-append_of, take_of_length-le, length-append, Bytes, ok, arith, bytes_eq_iff, subst, leb,
  some, ◌%◌, ◌^◌, true, Option, ok_or, ◌>>=◌,
}
use mathlib.Core.List.{append_assoc, append-nil}
use kv.Engine.Record.{Crc, has_flag, value_sep, record_bytes, fits_u32, encode_into}
use kv.Engine.Record.RoundTrip.{
  Fits, header_bytes, length-header_bytes, record_bytes-split, parse-header_bytes,
  verify-header_bytes,
}
use kv.Engine.File.{LogFile, append}
use kv.Engine.File.Append.{IsWritable, append_ok, read_exact-split}
use kv.Engine.Log.State.{NamespaceLog, Deps, Env, next_tstamp}
use kv.Engine.Error.{io}
use kv.Engine.Index
use kv.Engine.Index.{IndexEntry, NsIndex}
use kv.Prelude.ByteMap.{get-insert}
use kv.Engine.Log.Write.{
  separates, maybe_separate, append_record, commit, put_full, expiry_flags, expiry_ms, sep_flags,
  insert_entry, unref_hash,
}
use kv.Engine.Log.Crash.Puts.{HasRoom}
use kv.Engine.Log.Read.{read_record, extract_value_meta, read_value}

module _ (c : Crc) (t f x : ℕ) (key value metadata : Bytes) where
  abbrev head : Bytes
  head = header_bytes c t f x key value metadata

  abbrev whole : Bytes
  whole = record_bytes c t f x key value metadata

  -- The parts of a record that the reader cuts out.
  whole_header : take 37 whole ≡ head
  whole_header =
      ap (take 37) (record_bytes-split c t f x key value metadata)
      ∙ take-append_of 37 head (key ++ (value ++ metadata))
          (length-header_bytes c t f x key value metadata)

  whole_payload : drop 37 whole ≡ key ++ (value ++ metadata)
  whole_payload =
      ap (drop 37) (record_bytes-split c t f x key value metadata)
      ∙ drop-append_of 37 head (key ++ (value ++ metadata))
          (length-header_bytes c t f x key value metadata)

  abbrev front : Bytes
  front = head ++ key

  length-front : length front ≡ 37 + length key
  length-front =
      omega (arith, length-append head key, length-header_bytes c t f x key value metadata)

  length-front_value : length (front ++ value) ≡ 37 + length key + length value
  length-front_value = omega (arith, length-append front value, length-front)

  whole-split : whole ≡ (front ++ value) ++ metadata
  whole-split =
      record_bytes-split c t f x key value metadata
      ∙ sym (append_assoc head key (value ++ metadata))
      ∙ sym (append_assoc front value metadata)

  length-whole : length whole ≡ 37 + length key + length value + length metadata
  length-whole =
      ap length whole-split
      ∙ omega (arith, length-append (front ++ value) metadata, length-front_value)

  whole_value : drop (37 + length key) (take (37 + length key + length value) whole) ≡ value
  whole_value =
      ap (λ (b : Bytes). drop (37 + length key) (take (37 + length key + length value) b))
        whole-split
      ∙ ap (drop (37 + length key)) (
          take-append_of (37 + length key + length value) (front ++ value) metadata
            length-front_value)
      ∙ drop-append_of (37 + length key) front value length-front

  whole_metadata : drop (37 + length key + length value) whole ≡ metadata
  whole_metadata =
      ap (drop (37 + length key + length value)) whole-split
      ∙ drop-append_of (37 + length key + length value) (front ++ value) metadata length-front_value

  extract_value_meta-record_bytes :
      Fits t x key value metadata → extract_value_meta c whole ≡ ok (value, metadata, f)
  unfolding extract_value_meta
  extract_value_meta-record_bytes h = ground (
    arith,
    whole_header,
    whole_payload,
    whole_value,
    whole_metadata,
    length-whole,
    take_of_length-le (37 + length key + length value + length metadata) whole
        (omega (arith, length-whole)),
    parse-header_bytes c t f x key value metadata h 0,
    verify-header_bytes c t f x key value metadata 0,
  )

-- A record that stands at the end of the active file is read whole.
read_record-append :
    (log : NamespaceLog) (buf : Bytes) (t : ℕ)
    → IsWritable log.active
    → read_record
        (record log {
          active = record log.active {
            bytes = log.active.bytes ++ buf;
            write_offset = log.active.write_offset + length buf;
          };
        })
        (record {
          record_offset = log.active.write_offset;
          record_size = length buf;
          file_id = log.active.file_id;
          tstamp_ms = t;
        })
      ≡ ok buf
unfolding read_record
read_record-append log buf t w =
    let file : LogFile = record log.active {
      bytes = log.active.bytes ++ buf;
      write_offset = log.active.write_offset + length buf;
    } in
    ground (
      arith,
      w.at_end,
      read_exact-split file log.active.bytes buf []
          (ap (λ b. log.active.bytes ++ b) (sym (append-nil buf))),
    )

module _ (d : Deps) (log : NamespaceLog) (t f x : ℕ) (key value metadata : Bytes) where
  -- Read_value returns the value and the metadata of a record that was appended to the active file
  -- without a fault: it finds the file, reads the record whole, and its header and checksum pass.
  -- Conditions: the handle is healthy and stands at the end of its file, the numbers and the sizes
  -- of the record fit their words, and its flags say that the value is not separated.
  read_value-append :
      IsWritable log.active
      → Fits t x key value metadata
      → has_flag f value_sep ≡ false
      → let buf = record_bytes d.crc t f x key value metadata in
        let (active, _) = append none log.active buf in
        read_value d
          (record log { active = active })
          (record {
            record_offset = log.active.write_offset;
            record_size = length buf;
            file_id = log.active.file_id;
            tstamp_ms = t;
          })
        ≡ ok (value, metadata)
  unfolding read_value
  read_value-append w h plain =
      let buf = record_bytes d.crc t f x key value metadata in
      rw
        (
          append_ok log.active buf w,
          read_record-append log buf t w,
          extract_value_meta-record_bytes d.crc t f x key value metadata h,
          plain,
        )
        refl

whole_u32 :
    (c : Crc) (t f x : ℕ) (key value metadata : Bytes)
    → fits_u32 key value metadata ≡ true
    → length (record_bytes c t f x key value metadata) % 2 ^ 32
      ≡ length (record_bytes c t f x key value metadata)
unfolding fits_u32
whole_u32 c t f x key value metadata h = ground (arith, h, length-whole c t f x key value metadata)

insert_entry-get :
    (index : NsIndex) (key : Bytes) (entry : IndexEntry) (expires : Option ℕ) (h : Option Bytes)
    → Index.get (insert_entry index key entry expires h) key ≡ some entry
unfolding Index.insert Index.set_valsep
insert_entry-get index key entry expires h =
    ground (arith, get-insert key key entry index.map, bytes_eq_iff key key)

plain_flags : (o : Option ℕ) → has_flag (expiry_flags o + sep_flags none) value_sep ≡ false
plain_flags none = refl
plain_flags (some ms) = refl

module _ (d : Deps) (env : Env) (log : NamespaceLog) (key value metadata : Bytes)
    (expires : Option ℕ) where
  -- put_full returns the next revision, and read_value of the entry that the index then has for
  -- the key returns the value and the metadata that were put. Conditions: the log is not frozen,
  -- the value is below the threshold of separation, the handle is healthy and stands at the end of
  -- its file, the revision and the expiry fit a u64, the file has room, so that no rotation is
  -- due, the record fits a u32, and the write reaches the disk.
  pub put_full-Reads :
      log.is_frozen ≡ false
      → separates log value ≡ false
      → IsWritable log.active
      → HasRoom log env.now key value metadata expires
      → fits_u32 key value metadata ≡ true
      → env.append ≡ none
      → let (log', result) = put_full d env log key value metadata expires in
        (result ≡ ok (next_tstamp log.last_tstamp env.now))
        × ((ok_or (Index.get log'.index key) io >>= read_value d log') ≡ ok (value, metadata))
  unfolding put_full maybe_separate encode_into append_record
  put_full-Reads live plain w room size whole_write =
      let t = next_tstamp log.last_tstamp env.now in
      let f = expiry_flags expires + sep_flags none in
      let x = expiry_ms expires in
      let buf = record_bytes d.crc t f x key value metadata in
      let log3 : NamespaceLog = record log {
        last_tstamp = t;
        active = record log.active {
          bytes = log.active.bytes ++ buf;
          write_offset = log.active.write_offset + length buf;
        };
      } in
      let steps : put_full d env log key value metadata expires
          ≡ commit d env log3 key expires none t (length buf % 2 ^ 32) log.active.write_offset =
        rw (live, plain, size, whole_write, append_ok log.active buf w) refl in
      let size_of = length-whole d.crc t f x key value metadata in
      let entry : IndexEntry = record {
        record_offset = log.active.write_offset;
        record_size = length buf % 2 ^ 32;
        file_id = log.active.file_id;
        tstamp_ms = t;
      } in
      let log4 : NamespaceLog = record log {
        last_tstamp = t;
        unsynced_bytes = log.unsynced_bytes + length buf % 2 ^ 32;
        index = insert_entry log.index key entry expires none;
        values = unref_hash (Index.valsep_of log.index key) log.values;
      } in
      let whole_size : length buf % 2 ^ 32 ≡ length buf =
        whole_u32 d.crc t f x key value metadata size in
      let stays : leb log.config.rotate_threshold (log.active.write_offset + length buf) ≡ false =
        ground (arith, room.room, size_of) in
      let back : read_value d (record log4 { active = log3.active })
            (record entry { record_size = length buf })
          ≡ ok (value, metadata) =
        rw⁻¹ (ap (λ r. r.0) (append_ok log.active buf w)) (
          read_value-append d log4 t f x key value metadata w
            (record { tstamp = room.clock; expires = room.expiry; size = size })
            (plain_flags expires)) in
      let found : Index.get log4.index key ≡ some entry =
        insert_entry-get log.index key entry expires none in
      let done : commit d env log3 key expires none t (length buf % 2 ^ 32) log.active.write_offset
          ≡ (record log4 { active = log3.active }, ok t) =
        rw (commit, stays) refl in
      rw (steps, done)
        (
          refl,
          rw found (
              subst
                (λ n.
                  read_value d (record log4 { active = log3.active })
                    (record entry { record_size = n })
                  ≡ ok (value, metadata))
                (sym whole_size) back),
        )
