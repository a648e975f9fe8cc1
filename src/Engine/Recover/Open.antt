-- ===== src/Engine/Recover/Open.antt =====
-- crates/engine/src/log/recover.rs: opening a namespace from its data files, in the order of their
-- ids. The file handles and the directory are not modelled; a file that was created is empty.
use kv.Prelude.{
  ℕ, ◌+◌, ◌≡◌, refl, ap, sym, subst, Bool, true, false, List, [], ◌∷◌, ◌++◌, Option, none, some,
  ltb, ◌==◌, if◌then◌else◌, ok, err, ◌>>=◌, Bytes, bytes_eq, arith, inl, inr, Bool-cases, if_elim,
  eq_of_bytes_eq, eq_of_==,
}
use kv.Prelude.ByteMap
use kv.Prelude.ByteMap.{ByteMap, get-insert, get-put}
use kv.Prelude.ByteMap.Order.{Below, IsSorted, get-Below}
use kv.Engine.Error.{Result, bad_record}
use kv.Engine.Record.{Crc, u32_max}
use kv.Engine.Index
use kv.Engine.Index.{NsIndex, IndexEntry}
use kv.Engine.File.{LogFile, open_file}
use kv.Engine.Footer.{FooterEntry, read_footer}
use kv.Engine.Recover.{rebuild_from_records, replay_active}
use kv.Engine.Log.State.{footer_of}

-- One round of `apply_footer_entries`.
abbrev pub apply_footer_entry : NsIndex → ℕ → FooterEntry → NsIndex
apply_footer_entry index file_id e =
    let entry : IndexEntry = record {
      record_offset = e.record_offset;
      record_size = e.record_size;
      file_id = file_id;
      tstamp_ms = e.tstamp_ms;
    } in
    Index.set_valsep (Index.insert index e.key entry e.expires_at_ms) e.key e.value_hash

unfoldable pub apply_footer_entries : NsIndex → ℕ → List FooterEntry → NsIndex
apply_footer_entries index file_id [] = index
apply_footer_entries index file_id (e ∷ es) =
    apply_footer_entries (apply_footer_entry index file_id e) file_id es

-- A file below the highest: its footer, or its records if it has none.
unfoldable pub load_sealed : Crc → NsIndex → LogFile → Result NsIndex
unfolding apply_footer_entries
load_sealed c index f = do
  footer ← read_footer c f
  elim footer [
    | some entries ↦ ok (apply_footer_entries index f.file_id entries)
    | none ↦ ok (rebuild_from_records c f index)
  ]

pub record OpenedFiles : Type 0 where
  pub sealed : List LogFile
  pub active : LogFile
  pub index : NsIndex

-- The highest file: a footer says that it was sealed on shutdown, and a new file becomes active.
unfoldable pub load_highest : Crc → NsIndex → List LogFile → LogFile → Result OpenedFiles
unfolding apply_footer_entries
load_highest c index sealed f = do
  footer ← read_footer c f
  elim footer [
    | some entries ↦
        if ltb f.file_id u32_max
        then ok (record {
          sealed = sealed ++ f ∷ [];
          active = open_file (f.file_id + 1) [];
          index = apply_footer_entries index f.file_id entries;
        })
        else err (bad_record 0)
    | none ↦
        let (index', active) = replay_active c f index in
        ok (record { sealed = sealed; active = active; index = index' })
  ]

unfoldable pub load_files :
    Crc → NsIndex → List LogFile → LogFile → List LogFile → Result OpenedFiles
unfolding load_sealed load_highest
load_files c index sealed f [] = load_highest c index sealed f
load_files c index sealed f (g ∷ fs) = do
  index' ← load_sealed c index f
  load_files c index' (sealed ++ f ∷ []) g fs

unfoldable pub open_namespace : Crc → List LogFile → Result OpenedFiles
unfolding load_files
open_namespace c [] = ok (record { sealed = []; active = open_file 0 []; index = Index.empty })
open_namespace c (f ∷ fs) = load_files c Index.empty [] f fs

module _ (index : NsIndex) (id : ℕ) where
  -- What the footer of a file says of a key: its entry, expiry and hash if it stands in the file,
  -- and else what the index had before.
  abbrev pub FromFooter : NsIndex → ByteMap IndexEntry → NsIndex → Bytes → Type 0
  FromFooter base m after k =
      let here = elim (ByteMap.get k m) as (λ _. Bool) [
        | none ↦ false
        | some e ↦ e.file_id == id
      ] in
      (Index.get after k ≡ (if here then ByteMap.get k m else Index.get base k))
      × (Index.ttl_of after k ≡ (if here then Index.ttl_of index k else Index.ttl_of base k))
      × (Index.valsep_of after k
          ≡ (if here then Index.valsep_of index k else Index.valsep_of base k))

  module _ (base : NsIndex) (en : FooterEntry) (k : Bytes) where
    get-apply : Index.get (apply_footer_entry base id en) k ≡ (
        if bytes_eq k en.key
        then some (record {
          record_offset = en.record_offset;
          record_size = en.record_size;
          file_id = id;
          tstamp_ms = en.tstamp_ms;
        })
        else Index.get base k)
    unfolding Index.insert Index.set_valsep
    get-apply = get-insert k en.key _ base.map

    ttl_of-apply :
        Index.ttl_of (apply_footer_entry base id en) k
        ≡ (if bytes_eq k en.key then en.expires_at_ms else Index.ttl_of base k)
    unfolding Index.insert Index.set_valsep
    ttl_of-apply = get-put k en.key en.expires_at_ms base.ttl

    valsep_of-apply :
        Index.valsep_of (apply_footer_entry base id en) k
        ≡ (if bytes_eq k en.key then en.value_hash else Index.valsep_of base k)
    unfolding Index.insert Index.set_valsep
    valsep_of-apply = get-put k en.key en.value_hash base.valsep

  abbrev entry_of : Bytes → IndexEntry → FooterEntry
  entry_of j e = record {
    key = j;
    record_offset = e.record_offset;
    record_size = e.record_size;
    expires_at_ms = Index.ttl_of index j;
    tstamp_ms = e.tstamp_ms;
    value_hash = Index.valsep_of index j;
  }

  same_entry :
      (e : IndexEntry)
      → (e.file_id == id) ≡ true
      → ◌≡◌ {A = Option IndexEntry}
          (some (record {
            record_offset = e.record_offset;
            record_size = e.record_size;
            file_id = id;
            tstamp_ms = e.tstamp_ms;
          }))
          (some e)
  same_entry e h =
      ap
        (λ i. some (record {
          record_offset = e.record_offset;
          record_size = e.record_size;
          file_id = i;
          tstamp_ms = e.tstamp_ms;
        }))
        (sym (eq_of_== e.file_id id h))

  module _ (j : Bytes) (e : IndexEntry) (m : ByteMap IndexEntry) (s : IsSorted ((j, e) ∷ m))
      (base after : NsIndex) (k : Bytes) where
    in_file :
        (e.file_id == id) ≡ true
        → FromFooter (apply_footer_entry base id (entry_of j e)) m after k
        → FromFooter base ((j, e) ∷ m) after k
    unfolding ByteMap.get
    in_file here (g, t, v) = elim (Bool-cases (bytes_eq k j)) [
      | inl same ↦
          let gone : ByteMap.get k m ≡ none =
            get-Below k m (subst (λ x. Below x m) (sym (eq_of_bytes_eq k j same)) s.0) in
          (
            ground (arith, here, same, gone, g, get-apply base (entry_of j e) k, same_entry e here),
            ground (
              arith,
              here,
              same,
              gone,
              t,
              ttl_of-apply base (entry_of j e) k,
              ap (Index.ttl_of index) (eq_of_bytes_eq k j same),
            ),
            ground (
              arith,
              here,
              same,
              gone,
              v,
              valsep_of-apply base (entry_of j e) k,
              ap (Index.valsep_of index) (eq_of_bytes_eq k j same),
            ),
          )
      | inr other ↦ (
        ground (arith, other, g, get-apply base (entry_of j e) k),
        ground (arith, other, t, ttl_of-apply base (entry_of j e) k),
        ground (arith, other, v, valsep_of-apply base (entry_of j e) k),
      )
    ]

    elsewhere :
        (e.file_id == id) ≡ false → FromFooter base m after k → FromFooter base ((j, e) ∷ m) after k
    unfolding ByteMap.get
    elsewhere there (g, t, v) = elim (Bool-cases (bytes_eq k j)) [
      | inl same ↦
          let gone : ByteMap.get k m ≡ none =
            get-Below k m (subst (λ x. Below x m) (sym (eq_of_bytes_eq k j same)) s.0) in
          (
            ground (arith, there, same, gone, g),
            ground (arith, there, same, gone, t),
            ground (arith, there, same, gone, v),
          )
      | inr other ↦ (ground (arith, other, g), ground (arith, other, t), ground (arith, other, v))
    ]

  -- A footer that is applied brings back what it says of every key, and leaves the other keys.
  pub apply-footer_of :
      (m : ByteMap IndexEntry)
      → IsSorted m
      → (base : NsIndex) (k : Bytes)
      → FromFooter base m (apply_footer_entries base id (footer_of index id m)) k
  unfolding apply_footer_entries footer_of ByteMap.get
  apply-footer_of [] s base k = (refl, refl, refl)
  apply-footer_of ((j, e) ∷ m) s base k =
      let rest = footer_of index id m in
      if_elim (λ es. FromFooter base ((j, e) ∷ m) (apply_footer_entries base id es) k)
        (e.file_id == id) (entry_of j e ∷ rest) rest
        (λ here.
          in_file j e m s base
            (apply_footer_entries (apply_footer_entry base id (entry_of j e)) id rest) k here
            (apply-footer_of m s.1 (apply_footer_entry base id (entry_of j e)) k))
        (λ there.
          elsewhere j e m s base (apply_footer_entries base id rest) k there
            (apply-footer_of m s.1 base k))
