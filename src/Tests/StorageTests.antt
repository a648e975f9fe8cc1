-- ===== src/Tests/StorageTests.antt =====
-- The index, footers, records and blobs: crates/engine/src.
use kv.Prelude.{
  ◌+◌, ◌^◌, ◌<◌, ◌≡◌, refl, true, [], ◌∷◌, none, some, arith, length, bytes_eq, bytes_lt, ok,
}
use kv.Prelude.ByteMap
use kv.Engine.Index
use kv.Engine.Index.{NsIndex, IndexEntry}
use kv.Engine.Index.Scan.{scan_all, scan_all-remaining, remaining}
use kv.Engine.Index.Scan.Keys.{live_keys}
use kv.Engine.File.{open_file}
use kv.Engine.Footer.{FooterEntry, write_footer, read_footer, no_footer_faults}
use kv.Engine.Footer.{encode_entries, encode_entry}
use kv.Engine.Footer.RoundTrip.{EntryFits}
use kv.Engine.Footer.Sealed.{read_footer-write_footer}
use kv.Engine.Values
use kv.Engine.Values.{ValueStore, content_hash}
use kv.Engine.Values.Counts.{Backed, put-Backed, collect_garbage-Backed}
use kv.Engine.Values.Release.{Queued, Released, unref-Released}
use kv.Tests.{crc, blake3, key, value}

abbrev entry1 : IndexEntry
entry1 = record { record_offset = 0; record_size = 40; file_id = 1; tstamp_ms = 5 }

-- Two keys, of which one has an expiry time.
abbrev index2 : NsIndex
index2 = record {
  map = (97 ∷ [], entry1) ∷ (98 ∷ [], entry1) ∷ [];
  ttl = (98 ∷ [], 9) ∷ [];
  valsep = [];
  live_count = 2;
}

index2-IsSorted : ByteMap.Order.IsSorted index2.map
unfolding bytes_lt
index2-IsSorted = ((refl, tt), (tt, tt))

few : length (remaining index2 none 3 (λ k. true)) < 5
unfolding Index.yields ByteMap.get bytes_eq live_keys
few = omega arith

scan_all-remaining_example :
    scan_all 5 index2 none 1 3 (λ k. true) ≡ remaining index2 none 3 (λ k. true)
scan_all-remaining_example = scan_all-remaining 5 index2 none 1 3 (λ k. true) index2-IsSorted few

abbrev footer_entry : FooterEntry
footer_entry = record {
  key = key;
  record_offset = 0;
  record_size = 40;
  expires_at_ms = some 9;
  tstamp_ms = 5;
  value_hash = none;
}

footer_entry-fits : EntryFits footer_entry
footer_entry-fits = record {
  key = omega arith;
  offset = omega arith;
  size = omega arith;
  expires = omega arith;
  tstamp = omega arith;
  hash = tt;
}

small_footer :
    length (open_file 1 value).bytes + length (encode_entries (footer_entry ∷ [])) + 24 < 2 ^ 64
unfolding encode_entries encode_entry
small_footer = omega arith

read_footer-write_footer_example :
    ((write_footer crc no_footer_faults (open_file 1 value) (footer_entry ∷ [])).1 ≡ ok tt)
    × (read_footer crc (write_footer crc no_footer_faults (open_file 1 value) (footer_entry ∷ [])).0
        ≡ ok (some (footer_entry ∷ [])))
read_footer-write_footer_example =
    read_footer-write_footer crc (open_file 1 value) (footer_entry ∷ [])
      (record { healthy = refl; at_end = refl }) (footer_entry-fits, tt) small_footer

-- A store of no blob.
empty-Backed : Backed blake3 Values.empty
unfolding Values.refcount ByteMap.get
empty-Backed h counted = elim counted [ ]

abbrev store1 : ValueStore
store1 = (Values.put blake3 none Values.empty value).0

store1-Backed : Backed blake3 store1
store1-Backed = put-Backed blake3 Values.empty value empty-Backed none

put-Backed_example : Backed blake3 (Values.put blake3 (some 1) Values.empty value).0
put-Backed_example = put-Backed blake3 Values.empty value empty-Backed (some 1)

-- Its one blob has a reference.
store1-Queued : Queued store1.pending_delete store1
unfolding Values.put ByteMap.insert ByteMap.get bytes_eq
store1-Queued k b found zero' = ground arith

unref-Released_example :
    Released blake3 store1
      (content_hash blake3 value)
      (Values.unref store1 (content_hash blake3 value))
unref-Released_example =
    unref-Released blake3 store1 (content_hash blake3 value) store1-Backed store1-Queued

-- The same store without the reference.
abbrev store2 : ValueStore
store2 = Values.unref store1 (content_hash blake3 value)

queued-Backed : Backed blake3 (record store1 { pending_delete = content_hash blake3 value ∷ [] })
unfolding Values.refcount
queued-Backed = store1-Backed

collect_garbage-Backed_example :
    Backed blake3
      (Values.collect_garbage (record store1 { pending_delete = content_hash blake3 value ∷ [] }))
collect_garbage-Backed_example =
    collect_garbage-Backed blake3
      (record store1 { pending_delete = content_hash blake3 value ∷ [] }) queued-Backed
