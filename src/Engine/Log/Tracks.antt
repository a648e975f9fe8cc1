-- ===== src/Engine/Log/Tracks.antt =====
-- The index of a log against the bytes of its active file: what their replay by
-- crates/engine/src/log/recover.rs gives after a crash.
pub mod Records
pub mod Steps
use mathlib.Core.List.{append_assoc, append-nil}
use kv.Prelude.{
  ℕ, ◌+◌, ◌≡◌, refl, ap, sym, ◌∙◌, false, List, [], ◌∷◌, ◌++◌, Option, none, some, All, arith,
  length, length-append, is_some, Bytes,
}
use kv.Prelude.ByteMap
use kv.Prelude.ByteMap.{map_laws}
use kv.Engine.Record.{Crc}
use kv.Engine.Index.{NsIndex, get, valsep_of}
use kv.Engine.File.{LogFile, open_file}
use kv.Engine.Recover.{replay_active, apply_record}
use kv.Engine.Recover.Records.{LogRecord, RecordFits, IsTorn, encoded, header, body}
use kv.Engine.Recover.Replay.{log_bytes, replayed, replay_active-log}

-- A recovered index and the one that was in memory: the same entries, expiry times and count, no
-- content hash of the memory is missing, and no key has a content hash but the keys with an entry.
pub record Agrees (recovered memory : NsIndex) : Type 0 where
  pub map : recovered.map ≡ memory.map
  pub ttl : recovered.ttl ≡ memory.ttl
  pub live_count : recovered.live_count ≡ memory.live_count
  pub valsep : (k h : Bytes) → valsep_of memory k ≡ some h → valsep_of recovered k ≡ some h
  pub within : (k : Bytes) → is_some (get recovered k) ≡ false → valsep_of recovered k ≡ none

-- The active file holds records that fit their words and perhaps a torn one behind them; replayed
-- over the index `base` that the sealed files gave, they give an index that agrees. A torn record
-- stands only in a poisoned file, and a handle that is not poisoned stands at the end of its file.
pub record Tracks (c : Crc) (base index : NsIndex) (active : LogFile) (rs : List LogRecord)
    (t : Bytes) : Type 0 where
  pub bytes : active.bytes ≡ log_bytes c rs ++ t
  pub fits : All RecordFits rs
  pub stop : IsTorn c t
  pub agrees : Agrees (replayed c active.file_id 0 base rs) index
  pub clean : active.poisoned ≡ false → t ≡ []
  pub at_end : active.poisoned ≡ false → active.write_offset ≡ length active.bytes

pub data Recovers (c : Crc) (base index : NsIndex) (active : LogFile) : Type 0 where
  recovers :
      (rs : List LogRecord) (t : Bytes)
      → Tracks c base index active rs t
      → Recovers c base index active

-- Opening the bytes of the active file again and replaying them gives the entries, expiry times
-- and count of the index in memory, every content hash that it has, and none for a key without an
-- entry. Condition: the active file tracks the index.
pub Recovers-replay_active :
    (c : Crc) (base index : NsIndex) (active : LogFile)
    → Recovers c base index active
    → Agrees (replay_active c (open_file active.file_id active.bytes) base).0 index
Recovers-replay_active c base index active (recovers rs t w) =
    rw
      ((replay_active-log c rs t (open_file active.file_id active.bytes) base w.bytes refl w.fits
        w.stop).0)
      w.agrees

pub log_bytes-push :
    (c : Crc) (rs : List LogRecord) (r : LogRecord)
    → log_bytes c (rs ++ r ∷ []) ≡ log_bytes c rs ++ encoded c r
log_bytes-push c [] r = append-nil (encoded c r)
log_bytes-push c (s ∷ rs) r =
    ap (λ b. encoded c s ++ b) (log_bytes-push c rs r)
    ∙ sym (append_assoc (encoded c s) (log_bytes c rs) (encoded c r))

pub replayed-push :
    (c : Crc) (id off : ℕ) (base : NsIndex) (rs : List LogRecord) (r : LogRecord)
    → replayed c id off base (rs ++ r ∷ [])
      ≡ apply_record
          (replayed c id off base rs)
          id
          (off + length (log_bytes c rs))
          (header c r)
          (body r)
replayed-push c id off base [] r =
    ap (λ o. apply_record base id o (header c r) (body r)) (omega arith)
replayed-push c id off base (s ∷ rs) r =
    replayed-push c id (off + length (encoded c s)) (apply_record base id off (header c s) (body s))
      rs r
    ∙ ap (λ o. apply_record (replayed c id off base (s ∷ rs)) id o (header c r) (body r))
        (omega (arith, length-append (encoded c s) (log_bytes c rs)))

pub All-push {ℓ κ} :
    {A : Type ℓ} (P : A → Type κ) (xs : List A) (x : A) → All P xs → P x → All P (xs ++ x ∷ [])
All-push P [] x h p = (p, tt)
All-push P (y ∷ xs) x h p = (h.0, All-push P xs x h.1 p)
