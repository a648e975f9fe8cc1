-- ===== src/Engine/Log/Seal.antt =====
-- crates/engine/src/log/mod.rs: fsync, the seal on shutdown, and going on after a seal. The hook
-- that makes a seal fail in tests is not modelled.
use kv.Prelude.{
  ℕ, ◌+◌, ◌^◌, ◌<◌, ◌≡◌, refl, ap, Bool, false, List, [], ◌∷◌, ◌++◌, All, ltb, lt→ltb, ◌==◌,
  if◌then◌else◌, if_elim, length, Bytes, ok, err, and_then,
}
use kv.Prelude.ByteMap.Order.{IsSorted}
use kv.Engine.Error.{Result, io}
use kv.Engine.Record.{Crc, u32_max}
use kv.Engine.Index.{NsIndex}
use kv.Engine.File.{LogFile, open_file}
use kv.Engine.File.Append.{IsWritable}
use kv.Engine.Footer.{FooterFaults, no_footer_faults, write_footer, encode_entries}
use kv.Engine.Footer.RoundTrip.{EntryFits}
use kv.Engine.Footer.Sealed.{read_footer-write_footer, write_footer-sealed}
use kv.Engine.Values
use kv.Engine.Recover.Open.{
  OpenedFiles, load_highest, apply_footer_entries, FromFooter, apply-footer_of,
}
use kv.Engine.Log.State.{NamespaceLog, Env, active_footer, next_file_id, insert_file}

-- `sync`: an fsync if there is something to sync, and then the garbage. `sync_fails` is the kernel's
-- answer to the fsync.
unfoldable pub sync : Bool → NamespaceLog → NamespaceLog × Result (Unit {0})
sync sync_fails log =
    let collected : NamespaceLog = record log {
      unsynced_bytes = 0;
      values = Values.collect_garbage log.values;
    } in
    if ltb 0 log.unsynced_bytes
    then (if sync_fails then (log, err io) else (collected, ok tt))
    else (record log { values = Values.collect_garbage log.values }, ok tt)

-- The footer of the active file, without a rotation.
abbrev pub seal_footer : Crc → FooterFaults → NamespaceLog → NamespaceLog × Result (Unit {0})
seal_footer c faults log =
    let (active, written) = write_footer c faults log.active (active_footer log) in
    (record log { active = active }, written)

unfoldable pub seal_active_for_shutdown :
    Crc → Bool → FooterFaults → NamespaceLog → NamespaceLog × Result (Unit {0})
seal_active_for_shutdown c sync_fails faults log =
    if log.unsynced_bytes == 0
    then seal_footer c faults log
    else if sync_fails
    then (log, err io)
    else seal_footer c faults (record log { unsynced_bytes = 0 })

unfoldable pub reopen_active_after_seal : Env → NamespaceLog → NamespaceLog × Result (Unit {0})
unfolding next_file_id
reopen_active_after_seal env log =
    and_then {A = ℕ} (log, next_file_id log)
      λ next_id log1.
        let log2 : NamespaceLog = record log1 { sealed = insert_file log1.active log1.sealed } in
        if env.open_fails
        then (log2, err io)
        else (record log2 { active = open_file next_id []; unsynced_bytes = 0 }, ok tt)

module _ (c : Crc) (log : NamespaceLog) (base : NsIndex) (sealed : List LogFile) where
  -- The seal succeeds, the file then opens as the last of the sealed ones with a new empty file
  -- behind it, and every key of the sealed file is back.
  abbrev Opened : NamespaceLog × Result (Unit {0}) → Type 0
  Opened (log', r) =
      (r ≡ ok tt)
      × (o : OpenedFiles) × (load_highest c base sealed log'.active ≡ ok o)
      × (o.sealed ≡ sealed ++ log'.active ∷ [])
      × (o.active.file_id ≡ log.active.file_id + 1)
      × (o.active.bytes ≡ [])
      × ((k : Bytes) → FromFooter log.index log.active.file_id base log.index.map o.index k)

  module _ (w : IsWritable log.active) (fits : All EntryFits (active_footer log))
      (small : length log.active.bytes + length (encode_entries (active_footer log)) + 24 < 2 ^ 64)
      (s : IsSorted log.index.map) (below : log.active.file_id < u32_max) where
    abbrev opened : OpenedFiles
    opened = record {
      sealed = sealed ++ (write_footer c no_footer_faults log.active (active_footer log)).0 ∷ [];
      active = open_file (log.active.file_id + 1) [];
      index = apply_footer_entries base log.active.file_id (active_footer log);
    }

    same_id :
        (write_footer c no_footer_faults log.active (active_footer log)).0.file_id
        ≡ log.active.file_id
    same_id = ap (λ o. o.0.file_id) (write_footer-sealed c log.active (active_footer log) w)

    loads :
        load_highest c base sealed
          (write_footer c no_footer_faults log.active (active_footer log)).0
        ≡ ok opened
    unfolding load_highest
    loads =
        rw ((read_footer-write_footer c log.active (active_footer log) w fits small).1)
          (rw (same_id, lt→ltb _ _ below) refl)

    seal_footer-Opened : Opened (seal_footer c no_footer_faults log)
    seal_footer-Opened = (
      (read_footer-write_footer c log.active (active_footer log) w fits small).0,
      opened,
      loads,
      refl,
      refl,
      refl,
      λ k. apply-footer_of log.index log.active.file_id log.index.map s base k,
    )

    -- A seal on shutdown without a fault succeeds; load_highest then puts the sealed file behind
    -- the older sealed ones and opens an empty active file with the next id, and every key has the
    -- entry, expiry and content hash that the index had for it if it stood in that file, and else
    -- those of the index of the older files. Conditions: the handle is healthy, the entries fit
    -- their words, the sealed file is shorter than 2^64 bytes, the index is sorted, and there is a
    -- next file id.
    pub seal_active_for_shutdown-Opened :
        let (log', r) = seal_active_for_shutdown c false no_footer_faults log in
        (r ≡ ok tt)
        × (o : OpenedFiles) × (load_highest c base sealed log'.active ≡ ok o)
        × (o.sealed ≡ sealed ++ log'.active ∷ [])
        × (o.active.file_id ≡ log.active.file_id + 1)
        × (o.active.bytes ≡ [])
        × ((k : Bytes) → FromFooter log.index log.active.file_id base log.index.map o.index k)
    unfolding seal_active_for_shutdown
    seal_active_for_shutdown-Opened =
        if_elim Opened (log.unsynced_bytes == 0) (seal_footer c no_footer_faults log) _
          (λ _. seal_footer-Opened) (λ _. seal_footer-Opened)
