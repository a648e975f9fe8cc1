-- ===== src/Engine/File.antt =====
-- crates/engine/src/log/file.rs: a log file, as the bytes on disk and the state of its handle.
-- The kernel's answer to a write is an argument: `none` if all of it reached the disk, `some n` if
-- `write_all_at` failed, which it does only while bytes are left to write. Reads do not fail.
pub mod Append
use kv.Prelude.{
  ℕ, ◌+◌, ◌-◌, Bool, true, false, ◌++◌, Option, none, some, if◌then◌else◌, length, take, drop,
  Bytes, slice, ok, err, replicate,
}
use Prim.Native.Nat.{min}
use kv.Engine.Error.{Result, io}

pub record LogFile : Type 0 where
  pub file_id : ℕ
  pub bytes : Bytes
  pub write_offset : ℕ
  pub poisoned : Bool

abbrev pub Fault : Type 0
Fault = Option ℕ

-- `open_rw` and `open_ro` on a file with these bytes
abbrev pub open_file : ℕ → Bytes → LogFile
open_file file_id bytes = record {
  file_id = file_id;
  bytes = bytes;
  write_offset = length bytes;
  poisoned = false;
}

-- `write_all_at`: the file grows with zeros up to the offset.
unfoldable pub write_at : Bytes → ℕ → Bytes → Bytes
write_at bytes off buf =
    take off (bytes ++ replicate (off - length bytes) 0) ++ (buf ++ drop (off + length buf) bytes)

-- What a failed write leaves: `n` bytes, and never the whole buffer.
abbrev pub part : ℕ → Bytes → Bytes
part n buf = take (min n (length buf - 1)) buf

-- The offset is reserved before the write; a failed write poisons the file.
unfoldable pub append : Fault → LogFile → Bytes → LogFile × Result ℕ
unfolding write_at
append fault f buf = if f.poisoned then (f, err io) else (elim fault [
  | none ↦ (
    record f {
      bytes = write_at f.bytes f.write_offset buf;
      write_offset = f.write_offset + length buf;
    },
    ok f.write_offset,
  )
  | some n ↦ (
    record f {
      bytes = write_at f.bytes f.write_offset (part n buf);
      write_offset = f.write_offset + length buf;
      poisoned = true;
    },
    err io,
  )
])

-- At most `size` bytes: a read that meets the end of the file is short.
abbrev pub read_at : LogFile → ℕ → ℕ → Bytes
read_at f off size = take size (drop off f.bytes)

unfoldable pub read_exact : LogFile → ℕ → ℕ → Result Bytes
read_exact f off size = elim (slice f.bytes off size) [ some b ↦ ok b | none ↦ err io ]

unfoldable pub truncate_to : LogFile → ℕ → LogFile
truncate_to f size = record f { bytes = take size f.bytes; write_offset = size }
