-- ===== src/Engine/Log/State.antt =====
-- The state of crates/engine/src/log/mod.rs, its clock, and the rotation of the active file.
use kv.Prelude.{
  ℕ, ◌+◌, ◌^◌, ◌%◌, Bool, List, [], ◌∷◌, Option, none, some, ltb, leb, ◌==◌, if◌then◌else◌, ok, err,
  and_then,
}
use kv.Prelude.ByteMap.{ByteMap}
use kv.Engine.Error.{Result, io, frozen, capacity_exceeded}
use kv.Engine.Record.{Crc, u32_max}
use kv.Engine.Index
use kv.Engine.Index.{NsIndex, IndexEntry}
use kv.Engine.File.{LogFile, Fault, open_file}
use kv.Engine.Footer.{FooterEntry, FooterFaults, write_footer}
use kv.Engine.Values.{ValueStore, Blake3}

pub record LogConfig : Type 0 where
  pub rotate_threshold : ℕ
  pub fanout : ℕ
  pub value_sep_threshold : ℕ

-- `sealed` holds the sealed files in no order that matters; `is_frozen` is the field `frozen`.
pub record NamespaceLog : Type 0 where
  pub values : ValueStore
  pub index : NsIndex
  pub sealed : List LogFile
  pub active : LogFile
  pub config : LogConfig
  pub unsynced_bytes : ℕ
  pub last_tstamp : ℕ
  pub is_frozen : Bool

-- What a method meets outside: the clock, and the kernel's answers to its writes.
pub record Env : Type 0 where
  pub now : ℕ
  pub blob : Fault
  pub append : Fault
  pub footer : FooterFaults
  pub open_fails : Bool

-- What the engine is built on.
pub record Deps : Type 0 where
  pub crc : Crc
  pub blake3 : Blake3

-- `begin_write`: the guard that it returns counts writes in flight, of which there is one.
abbrev pub begin_write :
    {A : Type 0} → NamespaceLog → NamespaceLog × Result A → NamespaceLog × Result A
begin_write log write = if log.is_frozen then (log, err frozen) else write

-- The next revision: the clock, or one more than the last.
unfoldable pub next_tstamp : ℕ → ℕ → ℕ
next_tstamp last now = if ltb last now then now else (last + 1) % 2 ^ 64

abbrev pub ticked : NamespaceLog → ℕ → NamespaceLog
ticked log now = record log { last_tstamp = next_tstamp log.last_tstamp now }

-- The lookup in the map of sealed files.
unfoldable pub find_file : List LogFile → ℕ → Option LogFile
find_file [] id = none
find_file (f ∷ fs) id = if f.file_id == id then some f else find_file fs id

unfoldable pub remove_file : ℕ → List LogFile → List LogFile
remove_file id [] = []
remove_file id (f ∷ fs) = let rest = remove_file id fs in if f.file_id == id then rest else f ∷ rest

-- `sealed.insert(file_id, file)`
abbrev pub insert_file : LogFile → List LogFile → List LogFile
insert_file f fs = f ∷ remove_file f.file_id fs

unfoldable pub locate_file : NamespaceLog → ℕ → Option LogFile
unfolding find_file
locate_file log file_id =
    if log.active.file_id == file_id then some log.active else find_file log.sealed file_id

unfoldable pub max_id : ℕ → List LogFile → ℕ
max_id m [] = m
max_id m (f ∷ fs) = max_id (if ltb m f.file_id then f.file_id else m) fs

-- One more than every file id, as a u32.
unfoldable pub next_file_id : NamespaceLog → Result ℕ
unfolding max_id
next_file_id log =
    let m = max_id log.active.file_id log.sealed in
    if ltb m u32_max then ok (m + 1) else err capacity_exceeded

-- The footer of a file: the entries of the index that point into it.
unfoldable pub footer_of : NsIndex → ℕ → ByteMap IndexEntry → List FooterEntry
footer_of index file_id [] = []
footer_of index file_id ((k, e) ∷ m) =
    let rest = footer_of index file_id m in
    let entry : FooterEntry = record {
      key = k;
      record_offset = e.record_offset;
      record_size = e.record_size;
      expires_at_ms = Index.ttl_of index k;
      tstamp_ms = e.tstamp_ms;
      value_hash = Index.valsep_of index k;
    } in
    if e.file_id == file_id then entry ∷ rest else rest

abbrev pub active_footer : NamespaceLog → List FooterEntry
active_footer log = footer_of log.index log.active.file_id log.index.map

-- `rotate_active_inner`: an error after the footer leaves the old file active.
unfoldable pub rotate_active : Crc → Env → NamespaceLog → NamespaceLog × Result (Unit {0})
unfolding next_file_id footer_of
rotate_active c env log =
    let (old_active, written) = write_footer c env.footer log.active (active_footer log) in
    and_then {A = Unit {0}} (record log { active = old_active }, written)
      λ _ log1.
        and_then {A = ℕ} (log1, next_file_id log1)
          λ next_id log2.
            let log3 : NamespaceLog = record log2 {
              sealed = insert_file log2.active log2.sealed;
            } in
            if env.open_fails
            then (log3, err io)
            else (record log3 { active = open_file next_id []; unsynced_bytes = 0 }, ok tt)

abbrev pub rotate_if_full : Crc → Env → NamespaceLog → NamespaceLog × Result (Unit {0})
rotate_if_full c env log =
    if leb log.config.rotate_threshold log.active.write_offset
    then rotate_active c env log
    else (log, ok tt)
