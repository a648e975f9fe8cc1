-- ===== src/Engine/Index/Scan.antt =====
-- Pages of a scan: crates/engine/src/log/index.rs, NsIndex::scan.
pub mod Keys
use mathlib.Core.List.{append-nil, append_assoc}
use kv.Prelude.{
  ℕ, zero, suc, ◌+◌, ◌-◌, ◌≤◌, ◌<◌, ◌≡◌, refl, sym, ap, ◌∙◌, inl, inr, Bool, true, false, List, [],
  ◌∷◌, ◌++◌, Option, none, some, arith, leb, if◌then◌else◌, length, take, drop, length-take,
  length-drop, take-append-drop, take-nil, take_of_length-le, Bytes, bytes_lt, Bool-cases,
  Option-cases, length-append, tests,
}
use kv.Prelude.ByteMap.{ByteMap}
use kv.Prelude.ByteMap.Order.{IsSorted}
use kv.Engine.Index.{NsIndex, IndexEntry, yields, range_after, scan_loop, last, scan}
use Keys.{
  above, after, live_keys, live_keys-range_after, live_keys-Ascending, Ascending, after-Ascending,
  after-last, last-some,
}

take_step : (n a : ℕ) → a < n → n - a ≡ suc (n - (a + 1))
take_step n a h = omega arith

length_push : (acc : List Bytes) (k : Bytes) → length (acc ++ k ∷ []) ≡ length acc + 1
length_push acc k = omega (arith, length-append acc (k ∷ []))

-- The loop of a page collects the first keys to be yielded, up to the count.
scan_loop-eq :
    (keep : Bytes → Bool) (count : ℕ) (m : ByteMap IndexEntry) (acc : List Bytes)
    → length acc < count
    → scan_loop keep count m acc ≡ acc ++ take (count - length acc) (live_keys keep m)
unfolding scan_loop live_keys
scan_loop-eq keep count [] acc h = rw (take-nil, append-nil)
scan_loop-eq keep count ((k, e) ∷ m) acc h = elim (Bool-cases (keep k)) [
  | inr skipped ↦ rw skipped (scan_loop-eq keep count m acc h)
  | inl kept ↦ elim (Bool-cases (leb count (length (acc ++ k ∷ [])))) [
    | inl full ↦
        let one : count - length acc ≡ suc 0 = omega (tests, length_push acc k) in
        rw (kept, full, one) refl
    | inr room ↦
        let push : List Bytes = acc ++ k ∷ [] in
        let less : length push < count = ground (arith) in
        let more : count - length acc ≡ suc (count - length push) =
          omega (arith, length_push acc k) in
        rw (kept, room, more)
          (scan_loop-eq keep count m push less
            ∙ append_assoc acc (k ∷ []) (take (count - length push) (live_keys keep m)))
  ]
]

-- The keys that a scan with a filter is to visit from a cursor on.
abbrev pub remaining : NsIndex → Option Bytes → ℕ → (Bytes → Bool) → List Bytes
remaining idx cursor now_ms filter = after cursor (live_keys (yields idx now_ms filter) idx.map)

abbrev at_least_one : ℕ → ℕ
at_least_one count = if leb count 0 then 1 else count

minus_zero : (n : ℕ) → n - 0 ≡ n
minus_zero n = omega arith

-- A page is the first keys of what remains; its cursor is its last key, if the page is full.
pub scan-page :
    (idx : NsIndex) (cursor : Option Bytes) (count now_ms : ℕ) (filter : Bytes → Bool)
    → let page = take (at_least_one count) (remaining idx cursor now_ms filter) in
      scan idx cursor count now_ms filter
      ≡ (page, if leb (at_least_one count) (length page) then last page else none)
unfolding scan
scan-page idx cursor count now_ms filter =
    rw
      (scan_loop-eq (yields idx now_ms filter) (at_least_one count) (range_after cursor idx.map) []
        (ground arith))
      (rw (live_keys-range_after (yields idx now_ms filter) cursor idx.map, minus_zero) refl)

abbrev pub follow : List Bytes × Option Bytes → (Bytes → List Bytes) → List Bytes
follow (page, none) rest = page
follow (page, some k) rest = page ++ rest k

-- A client that follows the cursors until there is none, and collects the keys.
unfoldable pub scan_all : ℕ → NsIndex → Option Bytes → ℕ → ℕ → (Bytes → Bool) → List Bytes
scan_all zero idx cursor count now_ms filter = []
scan_all (suc fuel) idx cursor count now_ms filter =
    follow (scan idx cursor count now_ms filter)
      (λ k. scan_all fuel idx (some k) count now_ms filter)

-- A client that follows the cursors of scan with any count collects every live key that passes the
-- filter behind the cursor, once and in order, and stops. Conditions: the map is sorted, and the
-- fuel of the client exceeds the number of those keys.
pub scan_all-remaining :
    (fuel : ℕ) (idx : NsIndex) (cursor : Option Bytes) (count now_ms : ℕ) (filter : Bytes → Bool)
    → IsSorted idx.map
    → length (remaining idx cursor now_ms filter) < fuel
    → scan_all fuel idx cursor count now_ms filter ≡ remaining idx cursor now_ms filter
unfolding scan_all
scan_all-remaining zero idx cursor count now_ms filter s h = elim h [ ]
scan_all-remaining (suc fuel) idx cursor count now_ms filter s h =
    let n : ℕ = at_least_one count in
    let ks : List Bytes = remaining idx cursor now_ms filter in
    let all : List Bytes = live_keys (yields idx now_ms filter) idx.map in
    let page : List Bytes = take n ks in
    let positive : 1 ≤ n = ground arith in
    elim (Bool-cases (leb n (length page))) [
      | inr short ↦
          rw (scan-page idx cursor count now_ms filter, short)
            (take_of_length-le n ks (omega (tests, length-take n ks)))
      | inl full ↦
          let (k, found) = last-some page (omega tests) in
          let rest : above k all ≡ drop n ks =
            after-last cursor k n all (live_keys-Ascending _ idx.map s) found in
          rw (scan-page idx cursor count now_ms filter, full, found)
            (rw
              (
                scan_all-remaining fuel idx (some k) count now_ms filter s
                    (rw rest (omega (tests, length-drop n ks, length-take n ks))),
                rest,
              )
              (take-append-drop n ks))
    ]
