-- ===== src/Engine/File/Append.antt =====
-- Appends at the end of a file: crates/engine/src/log/file.rs.
use mathlib.Core.List.{append-nil}
use kv.Prelude.{
  ℕ, ◌+◌, ◌≡◌, refl, ap, ◌∙◌, false, true, ◌++◌, none, some, arith, length, take, drop, take-append,
  drop-append, length-append, drop_of_length-le, Bytes, ok, err,
}
use kv.Engine.Error.{io}
use kv.Engine.File.{LogFile, Fault, part, append, write_at, read_exact}

-- A handle that may write, at the end of its file.
pub record IsWritable (f : LogFile) : Type 0 where
  pub healthy : f.poisoned ≡ false
  pub at_end : f.write_offset ≡ length f.bytes

pub write_at_end : (bytes buf : Bytes) → write_at bytes (length bytes) buf ≡ bytes ++ buf
unfolding write_at
write_at_end bytes buf =
    rw (take-append, drop_of_length-le (length bytes + length buf) bytes (omega arith), append-nil)

module _ (f : LogFile) (buf : Bytes) (w : IsWritable f) where
  pub append_ok : append none f buf ≡ (
    record f { bytes = f.bytes ++ buf; write_offset = f.write_offset + length buf },
    ok f.write_offset,
  )
  unfolding append
  append_ok = rw w.healthy (rw (w.at_end, write_at_end) refl)

  pub append_fails :
      (n : ℕ)
      → append (some n) f buf ≡ (
        record f {
          bytes = f.bytes ++ part n buf;
          write_offset = f.write_offset + length buf;
          poisoned = true;
        },
        err io,
      )
  unfolding append
  append_fails n = rw w.healthy (rw (w.at_end, write_at_end) refl)

  -- A fault or none: the two outcomes on a healthy handle.
  pub data Appended (fault : Fault) : Type 0 where
    done :
        append fault f buf ≡ (
          record f { bytes = f.bytes ++ buf; write_offset = f.write_offset + length buf },
          ok f.write_offset,
        )
        → Appended fault
    failed :
        (n : ℕ)
        → append fault f buf ≡ (
          record f {
            bytes = f.bytes ++ part n buf;
            write_offset = f.write_offset + length buf;
            poisoned = true;
          },
          err io,
        )
        → Appended fault

  pub append-Appended : (fault : Fault) → Appended fault
  append-Appended none = done append_ok
  append-Appended (some n) = failed n (append_fails n)

-- A poisoned handle writes nothing.
pub append_poisoned :
    (fault : Fault) (f : LogFile) (buf : Bytes)
    → f.poisoned ≡ true
    → append fault f buf ≡ (f, err io)
unfolding append
append_poisoned fault f buf h = rw h

-- A part of the file is read exactly.
pub read_exact-split :
    (f : LogFile) (pre mid post : Bytes)
    → f.bytes ≡ pre ++ (mid ++ post)
    → read_exact f (length pre) (length mid) ≡ ok mid
unfolding read_exact
read_exact-split f pre mid post e =
    let read : take (length mid) (drop (length pre) f.bytes) ≡ mid =
      ap (λ (b : Bytes). take (length mid) (drop (length pre) b)) e
      ∙ ap (take (length mid)) (drop-append pre (mid ++ post))
      ∙ take-append mid post in
    let size : length f.bytes ≡ length pre + (length mid + length post) =
      ap (λ (b : Bytes). length b) e
      ∙ length-append pre (mid ++ post)
      ∙ ap (λ (n : ℕ). length pre + n) (length-append mid post) in
    ground (arith, read, size)
