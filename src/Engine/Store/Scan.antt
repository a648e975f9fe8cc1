-- ===== src/Engine/Store/Scan.antt =====
-- `scan` of crates/engine/src/store.rs, its cursors, and a client that follows them.
pub mod Pages
use kv.Prelude.{
  ℕ, zero, suc, ◌≡◌, ◌<◌, refl, ap, ◌∙◌, Bool, true, false, List, [], ◌∷◌, ◌++◌, Option, none, some,
  leb, ◌==◌, if◌then◌else◌, length, Bytes, bytes_eq, bytes_eq_iff, arith, All,
}
use kv.Engine.Index
use kv.Engine.Index.{NsIndex}
use kv.Engine.Store.{Shard}
use kv.Engine.Store.Glob.{glob_match}

pub record ScanPage : Type 0 where
  pub next_cursor : Bytes
  pub keys : List Bytes

-- A cursor that is no cursor starts anew.
unfoldable pub resume_after : Bytes → Option Bytes
unfolding bytes_eq
resume_after [] = none
resume_after (c ∷ key) =
    if bytes_eq (c ∷ key) (b'0' ∷ []) then none else if c == 1 then some key else none

abbrev pub next_cursor : Option Bytes → Bytes
next_cursor none = b'0' ∷ []
next_cursor (some k) = 1 ∷ k

abbrev pub answers : Option Bool → Bool
answers (some b) = b
answers none = false

-- `pat.is_none_or(|p| glob_match(p, k))`
abbrev pub passes : Option Bytes → Bytes → Bool
passes none k = true
passes (some p) k = answers (glob_match p k)

abbrev pub page_of : List Bytes × Option Bytes → ScanPage
page_of (keys, last_key) = record { next_cursor = next_cursor last_key; keys = keys }

unfoldable pub scan : NsIndex → Bytes → Option Bytes → ℕ → ℕ → ScanPage
unfolding resume_after glob_match
scan idx cursor pattern count now =
    page_of (Index.scan idx (resume_after cursor) count now (passes pattern))

-- A client that asks for pages until the cursor is `0`.
abbrev pub more : ScanPage → (Bytes → List Bytes) → List Bytes
more page rest =
    let further = page.keys ++ rest page.next_cursor in
    if bytes_eq page.next_cursor (b'0' ∷ []) then page.keys else further

unfoldable pub scan_pages : ℕ → NsIndex → Bytes → Option Bytes → ℕ → ℕ → List Bytes
unfolding scan
scan_pages zero idx cursor pattern count now = []
scan_pages (suc fuel) idx cursor pattern count now =
    more (scan idx cursor pattern count now) (λ c. scan_pages fuel idx c pattern count now)
