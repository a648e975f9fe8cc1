-- ===== src/Engine/Log/Crash/Puts.antt =====
-- put_full and put_full_cond of crates/engine/src/log/mod.rs, against what a replay after a crash gives.
use kv.Prelude.{
  ℕ, ◌+◌, ◌^◌, ◌%◌, ◌<◌, ◌≤◌, ◌≡◌, refl, ap, sym, subst, ◌∙◌, inl, inr, Bool-cases, [], Option,
  none, some, arith, length, length-take, lt→leb_false, leb, Bytes, ok, err, and_then,
  and_then_elim, if_elim,
}
use kv.Engine.Error.{EngineError, io, frozen, Result}
use kv.Engine.Record.{encode_into, fits_u32, record_len}
use kv.Engine.Index.{NsIndex}
use kv.Engine.Values
use kv.Engine.Values.{ValueStore, content_hash}
use kv.Engine.File.{LogFile, append}
use kv.Engine.Recover.Records.{RecordFits, encoded, header, length-encoded, length-body}
use kv.Engine.Log.State.{NamespaceLog, Env, Deps, next_tstamp, ticked}
use kv.Engine.Log.Write.{
  WriteCondition, check, live_rev, expiry_ms, stored_value, unref_hash, insert_entry,
  maybe_separate, append_record, appended, commit, write_record, put_full, put_full_cond,
}
use kv.Engine.Log.Tracks.{Recovers}
use kv.Engine.Log.Tracks.Records.{put_record, HashFits, apply-put}
use kv.Engine.Log.Tracks.Steps.{Agrees-put}
use kv.Engine.Log.Crash.{refused, written, append-Outcome}

-- What `maybe_separate` does: only the value store changes.
pub data Separated (d : Deps) (env : Env) (log : NamespaceLog) (value : Bytes) : Type 0 where
  blob_error :
      (vs : ValueStore) (e : EngineError)
      → maybe_separate d env log value ≡ (record log { values = vs }, err e)
      → Separated d env log value
  stored :
      (vs : ValueStore) (h : Option Bytes)
      → maybe_separate d env log value ≡ (record log { values = vs }, ok h)
      → HashFits h
      → length (stored_value h value) ≤ length value + 16
      → Separated d env log value

module _ (d : Deps) (env : Env) (log : NamespaceLog) (value : Bytes) where
  put-result :
      (vs : ValueStore)
      → (r : Result Bytes) → ((b : Bytes) → r ≡ ok b → length b ≡ 16)
      → maybe_separate d env log value
        ≡ and_then {A = Bytes} (record log { values = vs }, r) (λ h log1. (log1, ok (some h)))
      → Separated d env log value
  put-result vs (ok b) h e = stored vs (some b) e (h b refl) (omega (arith, h b refl))
  put-result vs (err x) h e = blob_error vs x e

  length-content_hash : length (content_hash d.blake3 value) ≡ 16
  unfolding content_hash
  length-content_hash =
      omega (arith, length-take 16 (d.blake3.hash value), d.blake3.length-hash value)

  put-ok :
      (b : Bytes)
      → (Values.put d.blake3 env.blob log.values value).1 ≡ ok b
      → b ≡ content_hash d.blake3 value
  unfolding Values.put
  put-ok b h = ground (arith, h)

  pub maybe_separate-Separated : Separated d env log value
  unfolding maybe_separate
  maybe_separate-Separated = elim (Bool-cases (leb log.config.value_sep_threshold (length value))) [
    | inl big ↦
        let (vs, r) = Values.put d.blake3 env.blob log.values value in
        put-result vs r (λ b h. ap (λ (x : Bytes). length x) (put-ok b h) ∙ length-content_hash)
          (rw big refl)
    | inr small ↦ stored log.values none (rw small refl) tt (omega arith)
  ]

module _ (env : Env) (log : NamespaceLog) (h : Option Bytes) (buf : Bytes) (f' : LogFile) where
  append_err :
      append env.append log.active buf ≡ (f', err io)
      → append_record env log h buf
        ≡ (record log { active = f'; values = unref_hash h log.values }, err io)
  unfolding append_record
  append_err e = ap (appended log h) e

  append_done :
      (off : ℕ)
      → append env.append log.active buf ≡ (f', ok off)
      → append_record env log h buf ≡ (record log { active = f' }, ok off)
  unfolding append_record
  append_done off e = ap (appended log h) e

-- The record fits the active file without a rotation, and the numbers fit their words.
pub record HasRoom (log : NamespaceLog) (now : ℕ) (key value metadata : Bytes) (expires : Option ℕ)
    : Type 0 where
  pub clock : next_tstamp log.last_tstamp now < 2 ^ 64
  pub expiry : expiry_ms expires < 2 ^ 64
  pub room :
      log.active.write_offset + (53 + length key + length value + length metadata)
      < log.config.rotate_threshold

module _ (d : Deps) (env : Env) (base : NsIndex) (key value metadata : Bytes)
    (expires : Option ℕ) where
  -- The active file that the call left tracks the index that it left.
  abbrev Recovering : {A : Type 0} → NamespaceLog × Result A → Type 0
  Recovering (log, _) = Recovers d.crc base log.index log.active

  commit-Recovers :
      (log : NamespaceLog) (h : Option Bytes) (t size off id : ℕ)
      → log.active.write_offset < log.config.rotate_threshold
      → log.active.file_id ≡ id
      → Recovers d.crc base
          (insert_entry log.index key
            (record { record_offset = off; record_size = size; file_id = id; tstamp_ms = t })
            expires
            h)
          log.active
      → Recovering (commit d env log key expires h t size off)
  unfolding commit
  commit-Recovers log h t size off id room same r = rw (lt→leb_false _ _ room) (
      subst
        (λ i.
          Recovers d.crc base
            (insert_entry log.index key
              (record { record_offset = off; record_size = size; file_id = i; tstamp_ms = t })
              expires h)
            log.active)
        (sym same) r)

  module _ (log : NamespaceLog) (room : HasRoom log env.now key value metadata expires)
      (r : Recovers d.crc base log.index log.active) where
    abbrev t : ℕ
    t = next_tstamp log.last_tstamp env.now

    module _ (vs : ValueStore) (h : Option Bytes) (fits_hash : HashFits h)
        (short : length (stored_value h value) ≤ length value + 16) where
      abbrev log1 : NamespaceLog
      log1 = record (ticked log env.now) { values = vs }

      abbrev rec_bytes : Bytes
      rec_bytes = encoded d.crc (put_record t key value metadata expires h)

      small :
          RecordFits (put_record t key value metadata expires h)
          → length rec_bytes % 2 ^ 32
            ≡ record_len (header d.crc (put_record t key value metadata expires h))
      unfolding fits_u32
      small fits = ground (
        arith,
        fits.size,
        length-encoded d.crc (put_record t key value metadata expires h),
        length-body d.crc (put_record t key value metadata expires h),
      )

      rest-Recovers :
          RecordFits (put_record t key value metadata expires h)
          → Recovering (
              and_then {A = ℕ} (append_record env log1 h rec_bytes) (λ offset log3.
                commit d env log3 key expires h t (length rec_bytes % 2 ^ 32) offset))
      rest-Recovers fits =
          let p = put_record t key value metadata expires h in
          elim (append-Outcome d.crc base log.index log.active p fits r env.append) [
            | refused f' e keep ↦ rw (append_err env log1 h rec_bytes f' e) keep
            | written f' off e same grows follow ↦ rw (append_done env log1 h rec_bytes f' off e) (
                commit-Recovers (record log1 { active = f' }) h t (length rec_bytes % 2 ^ 32) off
                  log.active.file_id
                  (omega (arith, grows, room.room, length-encoded d.crc p, length-body d.crc p))
                  same
                  (rw (small fits) (
                    follow _ λ a agrees.
                      rw
                        (apply-put d.crc a log.active.file_id off t key value metadata expires h
                          fits fits_hash)
                        (Agrees-put a log.index agrees key _ expires h))))
          ]

      encode-Recovers : Recovering (
          and_then {A = Bytes}
            (
              log1,
              encode_into d.crc [] t
                  (put_record t key value metadata expires h).flags
                  (expiry_ms expires)
                  key
                  (stored_value h value)
                  metadata,
            )
            (λ buf log2.
              and_then {A = ℕ}
                (append_record env log2 h buf)
                λ offset log3. commit d env log3 key expires h t (length buf % 2 ^ 32) offset))
      unfolding encode_into
      encode-Recovers = elim (Bool-cases (fits_u32 key (stored_value h value) metadata)) [
        | inl fits ↦
            rw fits
              (rest-Recovers (record { tstamp = room.clock; expires = room.expiry; size = fits }))
        | inr large ↦ rw large r
      ]

    write_record-Recovers : Recovering (write_record d env log key value metadata expires)
    unfolding write_record
    write_record-Recovers = elim (maybe_separate-Separated d env (ticked log env.now) value) [
      | blob_error vs x e ↦ rw e r
      | stored vs h e fits_hash short ↦ rw e (encode-Recovers vs h fits_hash short)
    ]

    -- put_full, whatever it returns (a frozen log, a blob that is not written, a record that is
    -- too large, a failed or refused append, or success), keeps that the active file tracks the
    -- index: it holds whole records that fit their words and perhaps a torn one behind them, a
    -- torn one only if it is poisoned; a handle that is not poisoned stands at the end of the
    -- file; and replaying its records over the index of the sealed files gives the entries, expiry
    -- times and count of the index in memory, every content hash that it has, and none for a key
    -- without an entry (for a key with an entry it may give a content hash where memory has none).
    -- Conditions: it did so before, the revision and the expiry fit a u64, and the file has room,
    -- so that no rotation is due.
    pub put_full-Recovers :
        let (log', _) = put_full d env log key value metadata expires in
        Recovers d.crc base log'.index log'.active
    unfolding put_full
    put_full-Recovers =
        if_elim Recovering log.is_frozen (log, err frozen)
          (write_record d env log key value metadata expires) (λ _. r) (λ _. write_record-Recovers)

    -- put_full_cond, whatever its condition and whatever it returns, keeps that the active file
    -- tracks the index: it holds whole records that fit their words and perhaps a torn one behind
    -- them, a torn one only if it is poisoned; a handle that is not poisoned stands at the end of
    -- the file; and replaying its records over the index of the sealed files gives the entries,
    -- expiry times and count of the index in memory, every content hash that it has, and none for
    -- a key without an entry (for a key with an entry it may give a content hash where memory has
    -- none). Conditions: it did so before, the revision and the expiry fit a u64, and no rotation
    -- is due.
    pub put_full_cond-Recovers :
        (cond : WriteCondition) (now : ℕ)
        → let (log', _) = put_full_cond d env log key value metadata expires cond now in
          Recovers d.crc base log'.index log'.active
    unfolding put_full_cond
    put_full_cond-Recovers cond now =
        let write = write_record d env log key value metadata expires in
        let wrapped = and_then {A = ℕ} write λ t log1. (log1, ok (some t)) in
        if_elim Recovering log.is_frozen (log, err frozen) _ (λ _. r)
          λ _.
            if_elim Recovering (check cond (live_rev log.index key now)) wrapped (log, ok none)
              (λ _.
                and_then_elim Recovering write (λ t log1. (log1, ok (some t)))
                  (λ s e h. subst Recovering h write_record-Recovers)
                  (λ s a h. subst Recovering h write_record-Recovers))
              (λ _. r)
