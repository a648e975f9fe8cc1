-- ===== src/Engine/Log/Write.antt =====
-- The writes of crates/engine/src/log/mod.rs: put_full and put_full_cond.
use kv.Prelude.{
  ℕ, ◌+◌, ◌^◌, ◌%◌, Bool, false, not, [], Option, none, some, leb, ◌==◌, is_some, if◌then◌else◌,
  length, Bytes, ok, err, and_then,
}
use kv.Engine.Error.{Result}
use kv.Engine.Record.{no_expiry, value_sep, encode_into}
use kv.Engine.Index
use kv.Engine.Index.{NsIndex, IndexEntry}
use kv.Engine.File.{LogFile, append}
use kv.Engine.Values
use kv.Engine.Values.{ValueStore}
use kv.Engine.Log.State.{
  NamespaceLog, Env, Deps, begin_write, next_tstamp, ticked, rotate_active, rotate_if_full,
}

pub data WriteCondition : Type 0 where
  key_absent : WriteCondition
  key_present : WriteCondition
  revision : ℕ → WriteCondition

-- `WriteCondition::check`
unfoldable pub check : WriteCondition → Option ℕ → Bool
check key_absent current_rev = not (is_some current_rev)
check key_present current_rev = is_some current_rev
check (revision rev) none = false
check (revision rev) (some r) = r == rev

unfoldable pub live_rev : NsIndex → Bytes → ℕ → Option ℕ
live_rev idx key now =
    if Index.is_expired idx key now
    then none
    else elim (Index.get idx key) [ none ↦ none | some e ↦ some e.tstamp_ms ]

-- The flags and the expiry word of a record.
abbrev pub expiry_flags : Option ℕ → ℕ
expiry_flags none = no_expiry
expiry_flags (some ms) = 0

abbrev pub expiry_ms : Option ℕ → ℕ
expiry_ms none = 0
expiry_ms (some ms) = ms

abbrev pub separates : NamespaceLog → Bytes → Bool
separates log value = leb log.config.value_sep_threshold (length value)

-- `maybe_separate`: the hash of a value that is large enough, which then is in the store.
unfoldable pub maybe_separate :
    Deps → Env → NamespaceLog → Bytes → NamespaceLog × Result (Option Bytes)
maybe_separate d env log value =
    if separates log value
    then (let (values, stored) = Values.put d.blake3 env.blob log.values value in
        and_then {A = Bytes} (record log { values = values }, stored) λ h log1. (log1, ok (some h)))
    else (log, ok none)

abbrev pub sep_flags : Option Bytes → ℕ
sep_flags none = 0
sep_flags (some h) = value_sep

abbrev pub stored_value : Option Bytes → Bytes → Bytes
stored_value none value = value
stored_value (some h) value = h

abbrev pub unref_hash : Option Bytes → ValueStore → ValueStore
unref_hash none vs = vs
unref_hash (some h) vs = Values.unref vs h

-- `apply_valsep_insert`, without the old hash that it returns
abbrev pub insert_entry : NsIndex → Bytes → IndexEntry → Option ℕ → Option Bytes → NsIndex
insert_entry index key entry expires sep_hash =
    Index.set_valsep (Index.insert index key entry expires) key sep_hash

-- After the append: the index entry, the reference of the old blob, and a rotation if it is due.
unfoldable pub commit :
    Deps
    → Env
    → NamespaceLog
    → Bytes
    → Option ℕ
    → Option Bytes
    → ℕ
    → ℕ
    → ℕ
    → NamespaceLog × Result ℕ
unfolding rotate_active
commit d env log key expires sep_hash tstamp record_size offset =
    let entry : IndexEntry = record {
      record_offset = offset;
      record_size = record_size;
      file_id = log.active.file_id;
      tstamp_ms = tstamp;
    } in
    let log1 : NamespaceLog = record log {
      unsynced_bytes = log.unsynced_bytes + record_size;
      index = insert_entry log.index key entry expires sep_hash;
      values = unref_hash (Index.valsep_of log.index key) log.values;
    } in
    and_then {A = Unit {0}} (rotate_if_full d.crc env log1) λ _ log2. (log2, ok tstamp)

-- What is left of a failed append: the reference of the new blob is dropped.
abbrev pub appended : NamespaceLog → Option Bytes → LogFile × Result ℕ → NamespaceLog × Result ℕ
appended log sep_hash (active, ok offset) = (record log { active = active }, ok offset)
appended log sep_hash (active, err e) =
    (record log { active = active; values = unref_hash sep_hash log.values }, err e)

unfoldable pub append_record : Env → NamespaceLog → Option Bytes → Bytes → NamespaceLog × Result ℕ
append_record env log sep_hash buf = appended log sep_hash (append env.append log.active buf)

-- The body that `put_full` and `put_full_cond` share.
unfoldable pub write_record :
    Deps → Env → NamespaceLog → Bytes → Bytes → Bytes → Option ℕ → NamespaceLog × Result ℕ
unfolding commit append_record maybe_separate
write_record d env log key value metadata expires =
    let tstamp = next_tstamp log.last_tstamp env.now in
    and_then {A = Option Bytes} (maybe_separate d env (ticked log env.now) value) λ sep_hash log1.
      let flags = expiry_flags expires + sep_flags sep_hash in
      let encoded =
        encode_into d.crc [] tstamp flags (expiry_ms expires) key (stored_value sep_hash value)
          metadata in
      and_then {A = Bytes} (log1, encoded)
        λ buf log2.
          and_then {A = ℕ} (append_record env log2 sep_hash buf) λ offset log3.
            commit d env log3 key expires sep_hash tstamp (length buf % 2 ^ 32) offset

unfoldable pub put_full :
    Deps → Env → NamespaceLog → Bytes → Bytes → Bytes → Option ℕ → NamespaceLog × Result ℕ
unfolding write_record
put_full d env log key value metadata expires =
    begin_write log (write_record d env log key value metadata expires)

-- `now` is the caller's reading of the clock, for the expiry of the key.
unfoldable pub put_full_cond :
    Deps
    → Env
    → NamespaceLog
    → Bytes
    → Bytes
    → Bytes
    → Option ℕ
    → WriteCondition
    → ℕ
    → NamespaceLog × Result (Option ℕ)
unfolding write_record
put_full_cond d env log key value metadata expires cond now = begin_write log (
    if check cond (live_rev log.index key now)
    then (and_then {A = ℕ} (write_record d env log key value metadata expires)
        λ t log1. (log1, ok (some t)))
    else (log, ok none))
