-- ===== src/Engine/Log/Revisions.antt =====
-- What a write of crates/engine/src/log/mod.rs that succeeds leaves in the index, and its revision.
use kv.Prelude.{
  ℕ, ◌+◌, ◌^◌, ◌%◌, ◌<◌, ◌≡◌, refl, sym, ap, subst, inl, inr, Bool-cases, ◌∙◌, Bool, true, false,
  [], Option, none, some, arith, length, leb, if◌then◌else◌, if_elim, Bytes, bytes_eq, ok, err,
  and_then, and_then_elim, then_elim,
}
use kv.Prelude.ByteMap.{get-insert, get-put}
use kv.Engine.Error.{Result, frozen}
use kv.Engine.Record.{Crc, encode_into}
use kv.Engine.Index
use kv.Engine.Index.{NsIndex, IndexEntry}
use kv.Engine.File.{LogFile, append}
use kv.Engine.Footer.{write_footer}
use kv.Engine.Log.State.{
  NamespaceLog, Env, Deps, next_tstamp, ticked, rotate_active, rotate_if_full, active_footer,
  next_file_id,
}
use kv.Engine.Log.Write.{
  WriteCondition, check, live_rev, expiry_ms, expiry_flags, sep_flags, stored_value, insert_entry,
  unref_hash, append_record, appended, commit, write_record, put_full, put_full_cond,
}
use kv.Engine.Log.Crash.Puts.{blob_error, stored, maybe_separate-Separated}

-- The clock of a log moves forward, below the end of a u64.
pub next_tstamp-grows : (last now : ℕ) → last + 1 < 2 ^ 64 → last < next_tstamp last now
unfolding next_tstamp
next_tstamp-grows last now h = ground arith

abbrev pub revision_of : NsIndex → Bytes → Option ℕ
revision_of index k = elim (Index.get index k) [ none ↦ none | some e ↦ some e.tstamp_ms ]

abbrev pub SameIndex : {A : Type 0} → NamespaceLog → NamespaceLog × Result A → Type 0
SameIndex log (log', _) = (log'.index ≡ log.index) × (log'.last_tstamp ≡ log.last_tstamp)

-- A rotation, whatever it returns, leaves the index and the clock alone.
rotate_active-SameIndex :
    (c : Crc) (env : Env) (log : NamespaceLog) → SameIndex log (rotate_active c env log)
unfolding rotate_active
rotate_active-SameIndex c env log =
    let (old_active, written) = write_footer c env.footer log.active (active_footer log) in
    let log1 : NamespaceLog = record log { active = old_active } in
    then_elim {A = Unit {0}} (SameIndex log) log1 written _ (λ e h. (refl, refl))
      λ a h.
        then_elim {A = ℕ} (SameIndex log) log1 (next_file_id log1) _ (λ e h'. (refl, refl))
          λ id h'.
            if_elim (SameIndex log) env.open_fails _ _ (λ _. (refl, refl)) (λ _. (refl, refl))

pub rotate_if_full-SameIndex :
    (c : Crc) (env : Env) (log : NamespaceLog) → SameIndex log (rotate_if_full c env log)
rotate_if_full-SameIndex c env log =
    if_elim (SameIndex log) (leb log.config.rotate_threshold log.active.write_offset) _ (log, ok tt)
      (λ _. rotate_active-SameIndex c env log) (λ _. (refl, refl))

pub append_record-SameIndex :
    (env : Env) (log : NamespaceLog) (h : Option Bytes) (buf : Bytes)
    → SameIndex log (append_record env log h buf)
unfolding append_record
append_record-SameIndex env log h buf = either (append env.append log.active buf)
  where
    either : (r : LogFile × Result ℕ) → SameIndex log (appended log h r)
    either (f, ok off) = (refl, refl)
    either (f, err e) = (refl, refl)

module _ (index : NsIndex) (key : Bytes) (entry : IndexEntry) (expires : Option ℕ)
    (h : Option Bytes) (k : Bytes) where
  pub insert_entry-revision :
      revision_of (insert_entry index key entry expires h) k
      ≡ (if bytes_eq k key then some entry.tstamp_ms else revision_of index k)
  unfolding Index.insert Index.set_valsep
  insert_entry-revision = ground (arith, get-insert k key entry index.map)

  pub insert_entry-ttl :
      Index.ttl_of (insert_entry index key entry expires h) k
      ≡ (if bytes_eq k key then expires else Index.ttl_of index k)
  unfolding Index.insert Index.set_valsep
  insert_entry-ttl = get-put k key expires index.ttl

module _ (d : Deps) (env : Env) (log : NamespaceLog) (key value metadata : Bytes)
    (expires : Option ℕ) (room : log.last_tstamp + 1 < 2 ^ 64) where
  -- A write that returns `ok t`: the revision is above the last one, the key has it and its expiry, and every
  -- other key is as it was.
  abbrev pub Wrote : NamespaceLog × Result ℕ → Type 0
  Wrote (log', err e) = Unit
  Wrote (log', ok t) =
      (log.last_tstamp < t)
      × (log'.last_tstamp ≡ t)
      × ((k : Bytes)
          → revision_of log'.index k ≡ (if bytes_eq k key then some t else revision_of log.index k))
      × ((k : Bytes)
          → Index.ttl_of log'.index k
            ≡ (if bytes_eq k key then expires else Index.ttl_of log.index k))

  abbrev t : ℕ
  t = next_tstamp log.last_tstamp env.now

  commit-Wrote :
      (log3 : NamespaceLog) (h : Option Bytes) (size off : ℕ)
      → log3.index ≡ log.index
      → log3.last_tstamp ≡ t
      → Wrote (commit d env log3 key expires h t size off)
  unfolding commit
  commit-Wrote log3 h size off same clock =
      let entry : IndexEntry = record {
        record_offset = off;
        record_size = size;
        file_id = log3.active.file_id;
        tstamp_ms = t;
      } in
      let log4 : NamespaceLog = record log3 {
        unsynced_bytes = log3.unsynced_bytes + size;
        index = insert_entry log3.index key entry expires h;
        values = unref_hash (Index.valsep_of log3.index key) log3.values;
      } in
      and_then_elim {A = Unit {0}} Wrote (rotate_if_full d.crc env log4) _ (λ s e y. tt)
        λ s a y.
          let (index, last) = subst (SameIndex log4) y (rotate_if_full-SameIndex d.crc env log4) in
          (
            next_tstamp-grows log.last_tstamp env.now room,
            last ∙ clock,
            λ k.
                ap (λ i. revision_of i k) index
                ∙ insert_entry-revision log3.index key entry expires h k
                ∙ ap (λ (i : NsIndex). if bytes_eq k key then some t else revision_of i k) same,
            λ k.
                ap (λ (i : NsIndex). Index.ttl_of i k) index
                ∙ insert_entry-ttl log3.index key entry expires h k
                ∙ ap (λ (i : NsIndex). if bytes_eq k key then expires else Index.ttl_of i k) same,
          )

  -- The theorem's body, after `begin_write`.
  write_record-Wrote : Wrote (write_record d env log key value metadata expires)
  unfolding write_record
  write_record-Wrote = elim (maybe_separate-Separated d env (ticked log env.now) value) [
    | blob_error vs e h ↦ rw h tt
    | stored vs sh h fits short ↦
        let log1 : NamespaceLog = record (ticked log env.now) { values = vs } in
        rw h (
          then_elim {A = Bytes} Wrote log1
            (encode_into d.crc [] t (expiry_flags expires + sep_flags sh) (expiry_ms expires) key
              (stored_value sh value) metadata)
            _ (λ e x. tt)
            λ buf x.
              and_then_elim {A = ℕ} Wrote (append_record env log1 sh buf) _ (λ s e y. tt)
                λ s off y.
                  let same = subst (SameIndex log1) y (append_record-SameIndex env log1 sh buf) in
                  commit-Wrote s sh (length buf % 2 ^ 32) off same.0 same.1)
  ]

  -- When put_full returns `ok t`, t is above the last revision and becomes it, the key has
  -- revision t and the given expiry, and every other key has the revision and expiry that it had,
  -- also if the file is rotated. Condition: the last revision is not the end of a u64.
  pub put_full-Wrote : Wrote (put_full d env log key value metadata expires)
  unfolding put_full
  put_full-Wrote =
      if_elim Wrote log.is_frozen (log, err frozen) _ (λ _. tt) (λ _. write_record-Wrote)

  -- The outcomes of a conditional write that do not fail.
  abbrev Outcome : WriteCondition → ℕ → NamespaceLog × Result (Option ℕ) → Type 0
  Outcome cond now (log', err e) = Unit
  Outcome cond now (log', ok none) =
      (check cond (live_rev log.index key now) ≡ false) × (log' ≡ log)
  Outcome cond now (log', ok (some t)) =
      (check cond (live_rev log.index key now) ≡ true) × Wrote (log', ok t)

  -- The log and the result of put_full, as those of a conditional write.
  abbrev pub as_some : NamespaceLog × Result ℕ → NamespaceLog × Result (Option ℕ)
  as_some (log', ok t) = (log', ok (some t))
  as_some (log', err e) = (log', err e)

  -- What a conditional write makes of the log, errors included, by its condition.
  abbrev pub Decided : WriteCondition → ℕ → NamespaceLog × Result (Option ℕ) → Type 0
  Decided cond now r =
      (r ≡ (
        if check cond (live_rev log.index key now)
        then as_some (put_full d env log key value metadata expires)
        else (log, if log.is_frozen then err frozen else ok none)))
      × Outcome cond now r

  then_some : (r : NamespaceLog × Result ℕ) → and_then r (λ t log1. (log1, ok (some t))) ≡ as_some r
  then_some (log', ok t) = refl
  then_some (log', err e) = refl

  put_full_cond-met :
      (cond : WriteCondition) (now : ℕ)
      → check cond (live_rev log.index key now) ≡ true
      → put_full_cond d env log key value metadata expires cond now
        ≡ as_some (put_full d env log key value metadata expires)
  unfolding put_full_cond put_full
  put_full_cond-met cond now yes' = rw yes' (either log.is_frozen)
    where
      either :
          (b : Bool)
          → (if b
              then (log, err frozen)
              else and_then
                  (write_record d env log key value metadata expires)
                  (λ t log1. (log1, ok (some t))))
            ≡ as_some
                (if b then (log, err frozen) else write_record d env log key value metadata expires)
      either true = refl
      either false = then_some (write_record d env log key value metadata expires)

  put_full_cond-failed :
      (cond : WriteCondition) (now : ℕ)
      → check cond (live_rev log.index key now) ≡ false
      → put_full_cond d env log key value metadata expires cond now
        ≡ (log, if log.is_frozen then err frozen else ok none)
  unfolding put_full_cond
  put_full_cond-failed cond now no' = rw no' (either log.is_frozen)
    where
      either :
          (b : Bool)
          → ◌≡◌ {A = NamespaceLog × Result (Option ℕ)}
              (if b then (log, err frozen) else (log, ok none))
              (log, if b then err frozen else ok none)
      either true = refl
      either false = refl

  put_full_cond-Outcome :
      (cond : WriteCondition) (now : ℕ)
      → Outcome cond now (put_full_cond d env log key value metadata expires cond now)
  unfolding put_full_cond
  put_full_cond-Outcome cond now =
      if_elim (Outcome cond now) log.is_frozen (log, err frozen) _ (λ _. tt)
        λ _.
          if_elim (Outcome cond now) (check cond (live_rev log.index key now)) _ (log, ok none)
            (λ yes'.
              and_then_elim {A = ℕ} (Outcome cond now)
                (write_record d env log key value metadata expires) _ (λ s e y. tt)
                λ s t y. (yes', subst Wrote y write_record-Wrote))
            (λ no'. (no', refl))

  -- If its condition holds of the live revision of the key, put_full_cond leaves the log that
  -- put_full leaves and has its result, errors included; if the condition fails, the log is as it
  -- was and the result is `ok none`, or an error if the log is frozen. So `ok none` means that the
  -- condition fails and the log has not changed, and `ok (some t)` that it holds, t is above the
  -- last revision and becomes it, the key has revision t and the given expiry, and every other key
  -- those that it had. Condition: the last revision is not the end of a u64.
  pub put_full_cond-Decided :
      (cond : WriteCondition) (now : ℕ)
      → Decided cond now (put_full_cond d env log key value metadata expires cond now)
  put_full_cond-Decided cond now = (
    elim (Bool-cases (check cond (live_rev log.index key now))) [
      | inl yes' ↦ put_full_cond-met cond now yes' ∙ sym (rw yes' refl)
      | inr no' ↦ put_full_cond-failed cond now no' ∙ sym (rw no' refl)
    ],
    put_full_cond-Outcome cond now,
  )
