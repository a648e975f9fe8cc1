-- ===== src/Tests/ScanTests.antt =====
-- Patterns and pages: crates/engine/src/store.rs.
use kv.Prelude.{
  ℕ, ◌≡◌, ◌<◌, refl, true, false, [], ◌∷◌, some, Bytes, arith, length, bytes_eq, bytes_lt, All,
}
use kv.Engine.Index
use kv.Engine.Index.{NsIndex, IndexEntry, yields, range_after, scan_loop, last}
use kv.Engine.Index.Scan.{remaining}
use kv.Engine.Index.Scan.Keys.{live_keys}
use kv.Engine.Store.Glob.{glob_match, turn, only_stars}
use kv.Engine.Store.Glob.Spec.{Matches, star_take, star_skip, literal, done, glob_match-Matches}
use kv.Engine.Store.Glob.Ends.{Returns, glob_match-Returns}
use kv.Engine.Store.Scan.{scan_pages, passes, resume_after}
use kv.Engine.Store.Scan.Pages.{Described, scan_pages-remaining}

-- `a[b-d]*z` and a key that it describes
abbrev pattern : Bytes
pattern = 97 ∷ 91 ∷ 98 ∷ 45 ∷ 100 ∷ 93 ∷ 42 ∷ 122 ∷ []

abbrev described : Bytes
described = 97 ∷ 99 ∷ 122 ∷ 120 ∷ 122 ∷ []

glob_runs : glob_match pattern described ≡ some true
unfolding glob_match bytes_eq turn only_stars
glob_runs = refl

glob_match-Matches_example : Matches pattern described
glob_match-Matches_example = glob_match-Matches pattern described glob_runs

glob_match-Returns_example : Returns (glob_match pattern described)
glob_match-Returns_example = glob_match-Returns pattern described

-- The key `*ba` ends in `a`, but `*a` does not accept it: the star of the pattern is taken for the
-- star of the key.
star_key :
    (glob_match (42 ∷ 97 ∷ []) (42 ∷ 98 ∷ 97 ∷ []) ≡ some false)
    × Matches (42 ∷ 97 ∷ []) (42 ∷ 98 ∷ 97 ∷ [])
unfolding glob_match bytes_eq turn
star_key = (refl, star_take (star_take (star_skip (literal refl done))))

abbrev entry_at : ℕ → IndexEntry
entry_at n = record { record_offset = n; record_size = 40; file_id = 1; tstamp_ms = n }

-- The keys `a`, `b` and `ba`.
abbrev index3 : NsIndex
index3 = record Index.empty {
  map = (97 ∷ [], entry_at 1) ∷ (98 ∷ [], entry_at 2) ∷ (98 ∷ 97 ∷ [], entry_at 3) ∷ [];
}

abbrev b_star : Bytes
b_star = 98 ∷ 42 ∷ []

few : length (remaining index3 (resume_after (48 ∷ [])) 5 (passes (some b_star))) < 3
unfolding live_keys resume_after yields glob_match bytes_eq
few = omega arith

scan_pages-remaining_example :
    (scan_pages 3 index3 (48 ∷ []) (some b_star) 1 5
      ≡ remaining index3 (resume_after (48 ∷ [])) 5 (passes (some b_star)))
    × All (Described (some b_star)) (scan_pages 3 index3 (48 ∷ []) (some b_star) 1 5)
unfolding bytes_lt
scan_pages-remaining_example =
    scan_pages-remaining index3 (some b_star) 1 5 3 (48 ∷ [])
      (((refl, (refl, tt)), ((refl, tt), (tt, tt)))) few

scan_runs : scan_pages 3 index3 (48 ∷ []) (some b_star) 1 5 ≡ (98 ∷ []) ∷ (98 ∷ 97 ∷ []) ∷ []
unfolding scan_pages Index.scan bytes_lt bytes_eq
scan_runs = refl
