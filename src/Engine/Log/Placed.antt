-- ===== src/Engine/Log/Placed.antt =====
-- What the writes of crates/engine/src/log/mod.rs leave in the index, also when they fail.
use kv.Prelude.{
  ℕ, ◌+◌, ◌^◌, ◌%◌, ◌≡◌, refl, ap, sym, subst, ◌∙◌, true, false, [], Option, none, some, arith,
  length, if_elim, Bytes, bytes_eq, bytes_eq_refl, ok, err, and_then_elim, then_elim,
}
use kv.Prelude.ByteMap.{get-put, get-remove}
use kv.Engine.Error.{EngineError, Result, frozen}
use kv.Engine.Record.{encode_into, tombstone, ttl_update}
use kv.Engine.Index
use kv.Engine.Index.{NsIndex, IndexEntry}
use kv.Engine.File.{append}
use kv.Engine.Log.State.{NamespaceLog, Env, Deps, next_tstamp, ticked, rotate_if_full}
use kv.Engine.Log.Write.{
  WriteCondition, check, live_rev, expiry_ms, expiry_flags, sep_flags, stored_value, insert_entry,
  unref_hash, append_record, commit, write_record, put_full, put_full_cond,
}
use kv.Engine.Log.Delete.{
  append_marker, drop_key, tombstone_key, tombstone_cond, ttl_update_key, rev_is,
}
use kv.Engine.Log.Crash.Puts.{blob_error, stored, maybe_separate-Separated}
use kv.Engine.Log.Revisions.{
  revision_of, SameIndex, rotate_if_full-SameIndex, append_record-SameIndex, insert_entry-revision,
  insert_entry-ttl,
}

-- Every key but `key` has the revision and the expiry that it had.
abbrev pub Elsewhere : Bytes → NsIndex → NsIndex → Type 0
Elsewhere key idx idx' =
    (k : Bytes)
    → bytes_eq k key ≡ false
    → (revision_of idx' k ≡ revision_of idx k) × (Index.ttl_of idx' k ≡ Index.ttl_of idx k)

abbrev pub Has : NsIndex → Bytes → Option ℕ → Option ℕ → Type 0
Has idx key rev expires = (revision_of idx key ≡ rev) × (Index.ttl_of idx key ≡ expires)

Elsewhere-of_eq : (key : Bytes) (idx idx' : NsIndex) → idx' ≡ idx → Elsewhere key idx idx'
Elsewhere-of_eq key idx idx' e k other =
    (ap (λ i. revision_of i k) e, ap (λ (i : NsIndex). Index.ttl_of i k) e)

module _ (idx : NsIndex) (key : Bytes) (expires : Option ℕ) where
  insert_entry-Elsewhere :
      (entry : IndexEntry) (h : Option Bytes)
      → Elsewhere key idx (insert_entry idx key entry expires h)
  insert_entry-Elsewhere entry h k other = (
    insert_entry-revision idx key entry expires h k ∙ rw other refl,
    insert_entry-ttl idx key entry expires h k ∙ rw other refl,
  )

  insert_entry-Has :
      (entry : IndexEntry) (h : Option Bytes)
      → Has (insert_entry idx key entry expires h) key (some entry.tstamp_ms) expires
  insert_entry-Has entry h = (
    insert_entry-revision idx key entry expires h key ∙ rw (bytes_eq_refl key) refl,
    insert_entry-ttl idx key entry expires h key ∙ rw (bytes_eq_refl key) refl,
  )

module _ (d : Deps) (env : Env) (log : NamespaceLog) (key : Bytes) where
  abbrev t : ℕ
  t = next_tstamp log.last_tstamp env.now

  -- A write that returns `ok t` gives the key that revision and the expiry; one that fails may have
  -- changed the key alone.
  abbrev pub Placed : Option ℕ → NamespaceLog × Result ℕ → Type 0
  Placed expires (log', err e) = Elsewhere key log.index log'.index
  Placed expires (log', ok t) =
      Elsewhere key log.index log'.index × Has log'.index key (some t) expires

  module _ (value metadata : Bytes) (expires : Option ℕ) where
    commit-Placed :
        (log3 : NamespaceLog) (h : Option Bytes) (size off : ℕ)
        → log3.index ≡ log.index
        → Placed expires (commit d env log3 key expires h t size off)
    unfolding commit
    commit-Placed log3 h size off same =
        let entry : IndexEntry = record {
          record_offset = off;
          record_size = size;
          file_id = log3.active.file_id;
          tstamp_ms = t;
        } in
        let log4 : NamespaceLog = record log3 {
          unsynced_bytes = log3.unsynced_bytes + size;
          index = insert_entry log3.index key entry expires h;
          values = unref_hash (Index.valsep_of log3.index key) log3.values;
        } in
        let kept : (s : NamespaceLog) (r : Result (Unit {0}))
            → SameIndex log4 (s, r)
            → Elsewhere key log.index s.index =
          λ s r i.
            subst (λ (j : NsIndex). Elsewhere key j s.index) same
              (subst (Elsewhere key log3.index) (sym i.0)
                (insert_entry-Elsewhere log3.index key expires entry h)) in
        and_then_elim {A = Unit {0}} (Placed expires) (rotate_if_full d.crc env log4) _
          (λ s e y.
            kept s (err e) (subst (SameIndex log4) y (rotate_if_full-SameIndex d.crc env log4)))
          λ s a y.
            let i = subst (SameIndex log4) y (rotate_if_full-SameIndex d.crc env log4) in
            (
              kept s (ok a) i,
              subst (λ (j : NsIndex). Has j key (some t) expires) (sym i.0)
                  (insert_entry-Has log3.index key expires entry h),
            )

    write_record-Placed : Placed expires (write_record d env log key value metadata expires)
    unfolding write_record
    write_record-Placed = elim (maybe_separate-Separated d env (ticked log env.now) value) [
      | blob_error vs e h ↦ rw h (λ k other. (refl, refl))
      | stored vs sh h fits short ↦
          let log1 : NamespaceLog = record (ticked log env.now) { values = vs } in
          rw h (
            then_elim {A = Bytes} (Placed expires) log1
              (encode_into d.crc [] t (expiry_flags expires + sep_flags sh) (expiry_ms expires) key
                (stored_value sh value) metadata)
              _ (λ e x k other. (refl, refl))
              λ buf x.
                and_then_elim {A = ℕ} (Placed expires) (append_record env log1 sh buf) _
                  (λ s e y.
                    let same = subst (SameIndex log1) y (append_record-SameIndex env log1 sh buf) in
                    Elsewhere-of_eq key log.index s.index same.0)
                  λ s off y.
                    let same = subst (SameIndex log1) y (append_record-SameIndex env log1 sh buf) in
                    commit-Placed s sh (length buf % 2 ^ 32) off same.0)
    ]

    pub put_full-Placed : Placed expires (put_full d env log key value metadata expires)
    unfolding put_full
    put_full-Placed =
        if_elim (Placed expires) log.is_frozen (log, err frozen) _ (λ _ k other. (refl, refl))
          (λ _. write_record-Placed)

    -- A conditional write that returns `ok none` changes nothing.
    abbrev pub PlacedIf : WriteCondition → ℕ → NamespaceLog × Result (Option ℕ) → Type 0
    PlacedIf cond now (log', err e) = Elsewhere key log.index log'.index
    PlacedIf cond now (log', ok none) =
        (log' ≡ log) × (check cond (live_rev log.index key now) ≡ false)
    PlacedIf cond now (log', ok (some t)) =
        Placed expires (log', ok t) × (check cond (live_rev log.index key now) ≡ true)

    pub put_full_cond-PlacedIf :
        (cond : WriteCondition) (now : ℕ)
        → PlacedIf cond now (put_full_cond d env log key value metadata expires cond now)
    unfolding put_full_cond
    put_full_cond-PlacedIf cond now =
        if_elim (PlacedIf cond now) log.is_frozen (log, err frozen) _ (λ _ k other. (refl, refl))
          λ _.
            if_elim (PlacedIf cond now) (check cond (live_rev log.index key now)) _ (log, ok none)
              (λ holds.
                and_then_elim {A = ℕ} (PlacedIf cond now)
                  (write_record d env log key value metadata expires) _
                  (λ s e y. subst (Placed expires) y write_record-Placed)
                  λ s t y. (subst (Placed expires) y write_record-Placed, holds))
              (λ fails. (refl, fails))

  append_marker-SameIndex :
      (log1 : NamespaceLog) (tstamp flags expires : ℕ)
      → SameIndex log1 (append_marker d env log1 tstamp flags expires key)
  unfolding append_marker
  append_marker-SameIndex log1 tstamp flags expires =
      then_elim {A = Bytes} (SameIndex log1) log1
        (encode_into d.crc [] tstamp flags expires key [] []) _ (λ e x. (refl, refl))
        λ buf x.
          let (active, appended) = append env.append log1.active buf in
          then_elim {A = ℕ} (SameIndex log1) (record log1 { active = active }) appended _
            (λ e y. (refl, refl)) (λ off y. (refl, refl))

  abbrev removed : NsIndex
  removed = (Index.remove log.index key).0

  removed-Elsewhere : Elsewhere key log.index removed
  unfolding Index.remove
  removed-Elsewhere k other =
      ground (arith, other, get-remove k key log.index.map, get-remove k key log.index.ttl)

  removed-Has : Has removed key none none
  unfolding Index.remove
  removed-Has =
      ground (
        arith,
        bytes_eq_refl key,
        get-remove key key log.index.map,
        get-remove key key log.index.ttl,
      )

  -- A deletion that succeeds with a revision, or finds no key: the key is gone.
  abbrev pub Dropped : NamespaceLog × Result (Option ℕ) → Type 0
  Dropped (log', err e) = Elsewhere key log.index log'.index
  Dropped (log', ok r) = Elsewhere key log.index log'.index × Has log'.index key none none

  drop_key_elim :
      (P : NamespaceLog × Result (Option ℕ) → Type 0)
      → ((s : NamespaceLog) (e : EngineError) → Elsewhere key log.index s.index → P (s, err e))
      → ((s : NamespaceLog) (r : ℕ)
          → Elsewhere key log.index s.index × Has s.index key none none
          → P (s, ok (some r)))
      → P (drop_key d env log key)
  unfolding drop_key
  drop_key_elim P bad good =
      let log1 : NamespaceLog = ticked (record log { index = removed }) env.now in
      and_then_elim {A = Unit {0}} P (append_marker d env log1 t tombstone 0 key) _
        (λ s e y.
          let i = subst (SameIndex log1) y (append_marker-SameIndex log1 t tombstone 0) in
          bad s e (subst (Elsewhere key log.index) (sym i.0) removed-Elsewhere))
        λ s a y.
          let i = subst (SameIndex log1) y (append_marker-SameIndex log1 t tombstone 0) in
          good (record s { values = unref_hash (Index.valsep_of log.index key) s.values }) t
            (
              subst (Elsewhere key log.index) (sym i.0) removed-Elsewhere,
              subst (λ (j : NsIndex). Has j key none none) (sym i.0) removed-Has,
            )

  pub tombstone_key-Dropped : Dropped (tombstone_key d env log key)
  unfolding tombstone_key
  tombstone_key-Dropped =
      if_elim Dropped log.is_frozen (log, err frozen) _ (λ _ k other. (refl, refl))
        λ _.
          if_elim Dropped (Index.remove log.index key).1 _ _
            (λ _. drop_key_elim Dropped (λ s e x. x) (λ s r x. x))
            (λ _. (removed-Elsewhere, removed-Has))

  abbrev pub DroppedIf : NamespaceLog × Result (Option ℕ) → Type 0
  DroppedIf (log', err e) = Elsewhere key log.index log'.index
  DroppedIf (log', ok none) = log' ≡ log
  DroppedIf (log', ok (some r)) = Dropped (log', ok (some r))

  pub tombstone_cond-DroppedIf :
      (expected_rev now : ℕ) → DroppedIf (tombstone_cond d env log key expected_rev now)
  unfolding tombstone_cond
  tombstone_cond-DroppedIf expected_rev now =
      if_elim DroppedIf log.is_frozen (log, err frozen) _ (λ _ k other. (refl, refl))
        λ _.
          if_elim DroppedIf (rev_is (live_rev log.index key now) expected_rev) _ _
            (λ _. drop_key_elim DroppedIf (λ s e x. x) (λ s r x. x)) (λ _. refl)

  set_ttl-Expires :
      (expires : Option ℕ)
      → Elsewhere key log.index (Index.set_ttl log.index key expires)
        × Has (Index.set_ttl log.index key expires) key (revision_of log.index key) expires
  unfolding Index.set_ttl
  set_ttl-Expires expires = (
    λ k other. (refl, get-put k key expires log.index.ttl ∙ rw other refl),
    (refl, get-put key key expires log.index.ttl ∙ rw (bytes_eq_refl key) refl),
  )

  -- A change of expiry keeps the revision in the index.
  abbrev pub Expires : Option ℕ → NamespaceLog × Result ℕ → Type 0
  Expires expires (log', err e) = log'.index ≡ log.index
  Expires expires (log', ok r) =
      Elsewhere key log.index log'.index × Has log'.index key (revision_of log.index key) expires

  pub ttl_update_key-Expires :
      (expires : Option ℕ) → Expires expires (ttl_update_key d env log key expires)
  unfolding ttl_update_key
  ttl_update_key-Expires expires =
      let flags = ttl_update + expiry_flags expires in
      let log1 : NamespaceLog = ticked log env.now in
      if_elim (Expires expires) log.is_frozen (log, err frozen) _ (λ _. refl)
        λ _.
          and_then_elim {A = Unit {0}} (Expires expires)
            (append_marker d env log1 t flags (expiry_ms expires) key) _
            (λ s e y.
              (subst (SameIndex log1) y
                (append_marker-SameIndex log1 t flags (expiry_ms expires))).0)
            λ s a y.
              let i =
                subst (SameIndex log1) y
                  (append_marker-SameIndex log1 t flags (expiry_ms expires)) in
              subst
                (λ (j : NsIndex).
                  Elsewhere key log.index (Index.set_ttl j key expires)
                  × Has (Index.set_ttl j key expires) key (revision_of log.index key) expires)
                (sym i.0) (set_ttl-Expires expires)
