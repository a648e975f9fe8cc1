-- ===== src/Engine/Recover/Replay.antt =====
-- Replaying a file that holds records, and perhaps a torn one at its end:
-- crates/engine/src/log/recover.rs, replay_active.
use mathlib.Core.List.{append_assoc}
use mathlib.Core.Path.{ap₂}
use kv.Prelude.{
  ℕ, zero, suc, ◌+◌, ◌≤◌, ◌<◌, ◌≡◌, refl, sym, ap, ◌∙◌, List, [], ◌∷◌, ◌++◌, arith, lt→ltb, All,
  length, take, length-append, take-append, take_of_length-le, Bytes,
}
use kv.Engine.Record.{Crc, record_len}
use kv.Engine.Index.{NsIndex}
use kv.Engine.File.{LogFile, truncate_to}
use kv.Engine.Recover.{apply_record, replay_loop, replay_active, loop_fuel}
use kv.Engine.Recover.Records.{
  LogRecord, RecordFits, encoded, header, body, IsTorn, length-body, length-encoded,
  read_record-encoded, read_record-IsTorn,
}

abbrev pub log_bytes : Crc → List LogRecord → Bytes
log_bytes c [] = []
log_bytes c (r ∷ rs) = encoded c r ++ log_bytes c rs

-- The records applied in order, each at the offset where it stands.
abbrev pub replayed : Crc → ℕ → ℕ → NsIndex → List LogRecord → NsIndex
replayed c file_id offset index [] = index
replayed c file_id offset index (r ∷ rs) =
    replayed c file_id (offset + length (encoded c r))
      (apply_record index file_id offset (header c r) (body r)) rs

pub length-le-log_bytes : (c : Crc) (rs : List LogRecord) → length rs ≤ length (log_bytes c rs)
length-le-log_bytes c [] = omega arith
length-le-log_bytes c (r ∷ rs) = omega (
  arith,
  length-append (encoded c r) (log_bytes c rs),
  length-encoded c r,
  length-le-log_bytes c rs,
)

-- The loop reads every record and stops at the torn one.
replay_loop-log :
    (c : Crc) (fuel : ℕ) (rs : List LogRecord) (pre t : Bytes) (file : LogFile) (index : NsIndex)
    → file.bytes ≡ pre ++ (log_bytes c rs ++ t)
    → All RecordFits rs
    → IsTorn c t
    → length rs < fuel
    → replay_loop c fuel file (length pre) index
      ≡ (replayed c file.file_id (length pre) index rs, length pre + length (log_bytes c rs))
unfolding replay_loop
replay_loop-log c zero rs pre t file index e fits tt' h = elim h [ ]
replay_loop-log c (suc fuel) [] pre t file index e fits stop h =
    ground (arith, read_record-IsTorn c t pre file stop e)
replay_loop-log c (suc fuel) (r ∷ rs) pre t file index e fits stop h =
    let post : Bytes = log_bytes c rs ++ t in
    let e' : file.bytes ≡ pre ++ (encoded c r ++ post) =
      e ∙ ap (λ b. pre ++ b) (append_assoc (encoded c r) (log_bytes c rs) t) in
    let next : file.bytes ≡ (pre ++ encoded c r) ++ post =
      e' ∙ sym (append_assoc pre (encoded c r) post) in
    let here : length pre + record_len (header c r) ≡ length (pre ++ encoded c r) =
      omega (arith, length-append pre (encoded c r), length-encoded c r, length-body c r) in
    let below : length pre < length file.bytes = omega (
      arith,
      ap (λ (b : Bytes). length b) e',
      length-append pre (encoded c r ++ post),
      length-append (encoded c r) post,
      length-encoded c r,
    ) in
    let rest =
      replay_loop-log c fuel rs (pre ++ encoded c r) t file
        (apply_record index file.file_id (length pre) (header c r) (body r)) next fits.1 stop
        (omega arith) in
    rw (lt→ltb _ _ below, read_record-encoded c r pre post file e' fits.0, here)
      (rest
        ∙ ap₂
            (λ (o n : ℕ). (
              replayed c file.file_id o
                  (apply_record index file.file_id (length pre) (header c r) (body r)) rs,
              n,
            ))
            (length-append pre (encoded c r))
            (omega (
              arith,
              length-append pre (encoded c r),
              length-append (encoded c r) (log_bytes c rs),
            )))

module _ (c : Crc) (rs : List LogRecord) (t : Bytes) (file : LogFile) (index : NsIndex) where
  -- Replaying a file that holds whole records and then fewer bytes than a record applies exactly
  -- the whole records, in order, each at its offset, and cuts the file behind the last of them.
  -- Conditions: the records fit their words and the handle stands at the end of the file.
  pub replay_active-log :
      file.bytes ≡ log_bytes c rs ++ t
      → file.write_offset ≡ length file.bytes
      → All RecordFits rs
      → IsTorn c t
      → ((replay_active c file index).0 ≡ replayed c file.file_id 0 index rs)
        × ((replay_active c file index).1.bytes ≡ log_bytes c rs)
        × ((replay_active c file index).1.write_offset ≡ length (log_bytes c rs))
  unfolding replay_active truncate_to
  replay_active-log e w fits stop =
      let enough : length rs < loop_fuel file = omega (
        arith,
        ap (λ (b : Bytes). length b) e,
        length-append (log_bytes c rs) t,
        length-le-log_bytes c rs,
      ) in
      let whole : replay_loop c (loop_fuel file) file 0 index
          ≡ (replayed c file.file_id 0 index rs, 0 + length (log_bytes c rs)) =
        replay_loop-log c (loop_fuel file) rs [] t file index e fits stop enough in
      let cut : take (length (log_bytes c rs)) file.bytes ≡ log_bytes c rs =
        ap (take (length (log_bytes c rs))) e ∙ take-append (log_bytes c rs) t in
      let zero_add : 0 + length (log_bytes c rs) ≡ length (log_bytes c rs) = omega arith in
      rw (whole, zero_add)
        (
          refl,
          ground (arith, cut, take_of_length-le (length (log_bytes c rs)) file.bytes),
          ground (arith, ap (λ (b : Bytes). length b) e, length-append (log_bytes c rs) t),
        )
