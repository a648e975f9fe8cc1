-- ===== src/Engine/Log/Crash.antt =====
-- The appends of crates/engine/src/log/mod.rs keep the active file in step with the index.
pub mod Puts
pub mod Markers
use mathlib.Core.List.{append_assoc, append-nil}
use Prim.Native.Nat.{min}
use kv.Prelude.{
  ℕ, ◌+◌, ◌-◌, ◌<◌, ◌≤◌, ◌≡◌, refl, ap, sym, ◌∙◌, true, false, inl, inr, Bool-cases, List, [], ◌∷◌,
  ◌++◌, Option, none, some, arith, length, length-append, Bytes, ok, err,
}
use kv.Engine.Error.{io}
use kv.Engine.Record.{Crc}
use kv.Engine.Index.{NsIndex}
use kv.Engine.File.{LogFile, Fault, part, append}
use kv.Engine.File.Append.{IsWritable, Appended, done, failed, append-Appended, append_poisoned}
use kv.Engine.Recover.{apply_record}
use kv.Engine.Recover.Records.{
  LogRecord, RecordFits, IsTorn, torn, encoded, header, body, length-encoded,
}
use kv.Engine.Recover.Replay.{log_bytes, replayed}
use kv.Engine.Log.Tracks.{
  Agrees, Tracks, Recovers, recovers, log_bytes-push, replayed-push, All-push,
}

module _ (c : Crc) (base index : NsIndex) (f : LogFile) (r : LogRecord) where
  -- The record is in the file, and any index that follows it is rebuilt; or it is refused, and the
  -- index is rebuilt as it was.
  pub data Outcome (fault : Fault) : Type 0 where
    refused :
        (f' : LogFile)
        → append fault f (encoded c r) ≡ (f', err io)
        → Recovers c base index f'
        → Outcome fault
    written :
        (f' : LogFile) (off : ℕ)
        → append fault f (encoded c r) ≡ (f', ok off)
        → f'.file_id ≡ f.file_id
        → f'.write_offset ≡ f.write_offset + length (encoded c r)
        → ((index' : NsIndex)
            → ((a : NsIndex)
                → Agrees a index
                → Agrees (apply_record a f.file_id off (header c r) (body r)) index')
            → Recovers c base index' f')
        → Outcome fault

  module _ (rs : List LogRecord) (t : Bytes) (w : Tracks c base index f rs t) (fits : RecordFits r)
      (ok' : f.poisoned ≡ false) where
    whole : f.bytes ≡ log_bytes c rs
    whole = w.bytes ∙ ap (λ b. log_bytes c rs ++ b) (w.clean ok') ∙ append-nil (log_bytes c rs)

    part-IsTorn : (n : ℕ) → IsTorn c (part n (encoded c r))
    part-IsTorn n =
        torn r (min n (length (encoded c r) - 1)) fits (omega (arith, length-encoded c r)) refl

    pushed : f.bytes ++ encoded c r ≡ log_bytes c (rs ++ r ∷ []) ++ []
    pushed =
        ap (λ b. b ++ encoded c r) whole
        ∙ sym (log_bytes-push c rs r)
        ∙ sym (append-nil (log_bytes c (rs ++ r ∷ [])))

    replay_at :
        replayed c f.file_id 0 base (rs ++ r ∷ [])
        ≡ apply_record
            (replayed c f.file_id 0 base rs)
            f.file_id
            f.write_offset
            (header c r)
            (body r)
    replay_at =
        replayed-push c f.file_id 0 base rs r
        ∙ ap (λ o. apply_record (replayed c f.file_id 0 base rs) f.file_id o (header c r) (body r))
            (omega (arith, w.at_end ok', ap (λ (b : Bytes). length b) whole))

    healthy-Outcome : (fault : Fault) → Outcome fault
    healthy-Outcome fault =
        elim (append-Appended f (encoded c r) (record { healthy = ok'; at_end = w.at_end ok' })
          fault) [
            | done e ↦ written _ f.write_offset e refl refl λ index' follow.
                recovers (rs ++ r ∷ []) [] (record {
                  bytes = pushed;
                  fits = All-push RecordFits rs r w.fits fits;
                  stop = rw (sym (w.clean ok')) w.stop;
                  agrees = rw replay_at (follow (replayed c f.file_id 0 base rs) w.agrees);
                  clean = λ _. refl;
                  at_end = λ _. omega (arith, w.at_end ok', length-append f.bytes (encoded c r));
                })
            | failed n e ↦ refused _ e (
                recovers rs (part n (encoded c r)) (record {
                  bytes = ap (λ b. b ++ part n (encoded c r)) whole;
                  fits = w.fits;
                  stop = part-IsTorn n;
                  agrees = w.agrees;
                  clean = λ p. cc;
                  at_end = λ p. cc;
                }))
          ]

  pub append-Outcome : RecordFits r → Recovers c base index f → (fault : Fault) → Outcome fault
  append-Outcome fits (recovers rs t w) fault = elim (Bool-cases f.poisoned) [
    | inl bad ↦ refused f (append_poisoned fault f (encoded c r) bad) (recovers rs t w)
    | inr ok' ↦ healthy-Outcome rs t w fits ok' fault
  ]
