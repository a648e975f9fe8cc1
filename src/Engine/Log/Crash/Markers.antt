-- ===== src/Engine/Log/Crash/Markers.antt =====
-- Tombstones and TTL updates of crates/engine/src/log/mod.rs, against what a replay after a crash gives.
use kv.Prelude.{
  ℕ, ◌+◌, ◌^◌, ◌<◌, ◌≡◌, refl, ap, ◌∙◌, if_elim, true, false, inl, inr, Bool-cases, [], Option,
  none, arith, is_some, length, Bytes, ok, err, is_ok,
}
use kv.Prelude.ByteMap
use kv.Engine.Error.{Result, io, frozen, bad_record}
use kv.Engine.Record.{ttl_update, tombstone, encode_into, fits_u32}
use kv.Engine.Index
use kv.Engine.Index.{NsIndex}
use kv.Engine.Index.Valid.{IsValid}
use kv.Engine.File.{LogFile, append}
use kv.Engine.Recover.Records.{LogRecord, RecordFits, encoded}
use kv.Engine.Log.State.{NamespaceLog, Env, Deps, next_tstamp, ticked}
use kv.Engine.Log.Write.{expiry_ms, expiry_flags}
use kv.Engine.Log.Delete.{append_marker, drop_key, tombstone_key, ttl_update_key}
use kv.Engine.Log.Tracks.{Recovers, recovers}
use kv.Engine.Log.Tracks.Records.{tombstone_record, ttl_record, apply-tombstone, apply-ttl}
use kv.Engine.Log.Tracks.Steps.{Agrees-remove, Agrees-absent, Agrees-ttl}
use kv.Engine.Log.Crash.{refused, written, append-Outcome}

module _ (d : Deps) (env : Env) (base : NsIndex) (key : Bytes) where
  -- The active file that the call left tracks the index that it left.
  abbrev Recovering : {A : Type 0} → NamespaceLog × Result A → Type 0
  Recovering (log, _) = Recovers d.crc base log.index log.active

  module _ (log : NamespaceLog) (t flags expires : ℕ) where
    abbrev marker : LogRecord
    marker = record {
      tstamp_ms = t;
      flags = flags;
      expires_at_ms = expires;
      key = key;
      value = [];
      metadata = [];
    }

    append_marker-large :
        fits_u32 key [] [] ≡ false
        → append_marker d env log t flags expires key ≡ (log, err (bad_record 0))
    unfolding append_marker encode_into
    append_marker-large h = rw h refl

    append_marker-err :
        (f' : LogFile)
        → fits_u32 key [] [] ≡ true
        → append env.append log.active (encoded d.crc marker) ≡ (f', err io)
        → append_marker d env log t flags expires key ≡ (record log { active = f' }, err io)
    unfolding append_marker encode_into
    append_marker-err f' h e = rw h (rw e refl)

    append_marker-ok :
        (f' : LogFile) (off : ℕ)
        → fits_u32 key [] [] ≡ true
        → append env.append log.active (encoded d.crc marker) ≡ (f', ok off)
        → append_marker d env log t flags expires key ≡ (
          record log {
            active = f';
            unsynced_bytes = log.unsynced_bytes + length (encoded d.crc marker);
          },
          ok tt,
        )
    unfolding append_marker encode_into
    append_marker-ok f' off h e = rw h (rw e refl)

  -- Ttl_update of a key that the index holds, whatever it returns, keeps that the active file
  -- tracks the index: it holds whole records that fit their words and perhaps a torn one behind
  -- them, a torn one only if it is poisoned; a handle that is not poisoned stands at the end of
  -- the file; and replaying its records over the index of the sealed files gives the entries,
  -- expiry times and count of the index in memory, every content hash that it has, and none for a
  -- key without an entry (for a key with an entry it may give a content hash where memory has
  -- none). Conditions: it did so before, the revision and the expiry fit a u64.
  pub ttl_update_key-Recovers :
      (log : NamespaceLog) (expires : Option ℕ)
      → next_tstamp log.last_tstamp env.now < 2 ^ 64
      → expiry_ms expires < 2 ^ 64
      → is_some (Index.get log.index key) ≡ true
      → Recovers d.crc base log.index log.active
      → let (log', _) = ttl_update_key d env log key expires in
        Recovers d.crc base log'.index log'.active
  unfolding ttl_update_key
  ttl_update_key-Recovers log expires clock expiry held r =
      let t = next_tstamp log.last_tstamp env.now in
      let flags = ttl_update + expiry_flags expires in
      let log1 = ticked log env.now in
      if_elim Recovering log.is_frozen (log, err frozen) _ (λ _. r)
        λ _. elim (Bool-cases (fits_u32 key [] [])) [
          | inr large ↦ rw (append_marker-large log1 t flags (expiry_ms expires) large) r
          | inl size ↦
              let fits : RecordFits (ttl_record t key expires) = record {
                tstamp = clock;
                expires = expiry;
                size = size;
              } in
              elim (append-Outcome d.crc base log.index log.active (ttl_record t key expires) fits r
                env.append) [
                  | refused f' e keep ↦
                      rw (append_marker-err log1 t flags (expiry_ms expires) f' size e) keep
                  | written f' off e same grows follow ↦
                      rw (append_marker-ok log1 t flags (expiry_ms expires) f' off size e) (
                        follow _ λ a agrees.
                          rw
                            (apply-ttl d.crc a log.active.file_id off t key expires fits
                              (ap (λ m. is_some (ByteMap.get key m)) agrees.map ∙ held))
                            (Agrees-ttl a log.index agrees key expires))
                ]
        ]

  absent :
      (index : NsIndex) → (Index.remove index key).1 ≡ false → is_some (Index.get index key) ≡ false
  unfolding Index.remove
  absent index h = h

  -- A tombstone that does not fail, of a key that is there or not, keeps that the active file
  -- tracks the index: it holds whole records that fit their words and perhaps a torn one behind
  -- them, a torn one only if it is poisoned; a handle that is not poisoned stands at the end of
  -- the file; and replaying its records over the index of the sealed files gives the entries,
  -- expiry times and count of the index in memory, every content hash that it has, and none for a
  -- key without an entry (for a key with an entry it may give a content hash where memory has
  -- none). Conditions: it did so before, the revision fits a u64 and the index is valid.
  pub tombstone_key-Recovers :
      (log : NamespaceLog)
      → next_tstamp log.last_tstamp env.now < 2 ^ 64
      → IsValid log.index
      → Recovers d.crc base log.index log.active
      → is_ok (tombstone_key d env log key).1 ≡ true
      → let (log', _) = tombstone_key d env log key in Recovers d.crc base log'.index log'.active
  unfolding tombstone_key drop_key
  tombstone_key-Recovers log clock valid r =
      let removed : NamespaceLog = record log { index = (Index.remove log.index key).0 } in
      let Kept : NamespaceLog × Result (Option ℕ) → Type 0 = λ o. is_ok o.1 ≡ true → Recovering o in
      let log1 = ticked removed env.now in
      let t = next_tstamp removed.last_tstamp env.now in
      if_elim Kept log.is_frozen (log, err frozen) _ (λ _ _. r)
        λ _.
          if_elim Kept (Index.remove log.index key).1 (drop_key d env log key) (removed, ok none)
            (λ _. elim (Bool-cases (fits_u32 key [] [])) [
              | inr large ↦ rw (append_marker-large log1 t tombstone 0 large) (λ bad. cc)
              | inl size ↦
                  let fits : RecordFits (tombstone_record t key) = record {
                    tstamp = clock;
                    expires = omega arith;
                    size = size;
                  } in
                  elim (append-Outcome d.crc base log.index log.active (tombstone_record t key) fits
                    r env.append) [
                      | refused f' e keep ↦
                          rw (append_marker-err log1 t tombstone 0 f' size e) (λ bad. cc)
                      | written f' off e same grows follow ↦
                          rw (append_marker-ok log1 t tombstone 0 f' off size e) λ _.
                            follow _ λ a agrees.
                              rw (apply-tombstone d.crc a log.active.file_id off t key fits)
                                (Agrees-remove a log.index agrees key)
                    ]
            ])
            (λ gone _. elim r [
              | recovers rs t w ↦ recovers rs t (record {
                bytes = w.bytes;
                fits = w.fits;
                stop = w.stop;
                agrees =
                    Agrees-absent _ log.index w.agrees key (absent log.index gone)
                      (valid.ttl_within key (absent log.index gone));
                clean = w.clean;
                at_end = w.at_end;
              })
            ])
