-- ===== src/Engine/Footer/RoundTrip.antt =====
-- Reading the footer that was written: crates/engine/src/log/file.rs.
use mathlib.Core.List.{append_assoc, append-nil}
use kv.Prelude.{
  ℕ, zero, suc, ◌+◌, ◌-◌, ◌^◌, ◌%◌, ◌<◌, ◌≤◌, ◌≡◌, refl, sym, ap, ap₂, subst, Option-cases, inl,
  inr, ◌∙◌, ◌>>=◌, ==_refl, List, [], ◌∷◌, ◌++◌, Option, none, some, All, arith, le→ltb_false,
  length, take, drop, length-append, take-append_of, drop-append_add, drop-append, take-append,
  if◌then◌else◌, ◌==◌, Bytes, to_le, from_le, from_le-to_le, ok,
}
use kv.Engine.Record.{Crc}
use kv.Engine.File.{LogFile, read_exact}
use kv.Engine.File.Append.{read_exact-split}
use kv.Engine.Footer.{
  FooterEntry, encode_entry, parse_key, parse_entry, encode_entries, parse_entries, expiry_word,
  expiry_flag, hash_bytes, word, byte, footer_magic, trailer, read_entries, read_footer,
}

abbrev HashFits : Option Bytes → Type 0
HashFits none = Unit
HashFits (some h) = length h ≡ 16

-- Numbers that fit their words, and a hash of 16 bytes.
pub record EntryFits (e : FooterEntry) : Type 0 where
  pub key : length e.key < 2 ^ 32
  pub offset : e.record_offset < 2 ^ 64
  pub size : e.record_size < 2 ^ 32
  pub expires : expiry_word e.expires_at_ms < 2 ^ 64
  pub tstamp : e.tstamp_ms < 2 ^ 64
  pub hash : HashFits e.value_hash

-- The 33 bytes before the hash flag.
abbrev prefix : FooterEntry → Bytes
prefix e =
    to_le 4 (length e.key % 2 ^ 32)
    ++ (to_le 8 e.record_offset
        ++ (to_le 4 e.record_size
            ++ (to_le 8 (expiry_word e.expires_at_ms)
                ++ (expiry_flag e.expires_at_ms ∷ to_le 8 e.tstamp_ms))))

key_size : (n : ℕ) → n < 2 ^ 32 → from_le (to_le 4 (n % 2 ^ 32)) ≡ n
key_size n h = from_le-to_le 4 (n % 2 ^ 32) (omega arith) ∙ omega arith

-- The fixed words of an entry, and its key behind the cursor.
record Words (e : FooterEntry) (buf : Bytes) (cursor : ℕ) : Type 0 where
  key_size : word buf 0 4 ≡ length e.key
  offset : word buf 4 8 ≡ e.record_offset
  size : word buf 12 4 ≡ e.record_size
  expires : word buf 16 8 ≡ expiry_word e.expires_at_ms
  has_expiry : byte buf 24 ≡ expiry_flag e.expires_at_ms
  tstamp : word buf 25 8 ≡ e.tstamp_ms
  key : take (length e.key) (drop cursor buf) ≡ e.key
  room : cursor + length e.key ≤ length buf

expiry_back : (o : Option ℕ) → (if expiry_flag o == 0 then none else some (expiry_word o)) ≡ o
expiry_back none = refl
expiry_back (some ms) = refl

parse_key-Words :
    (e : FooterEntry) (buf : Bytes) (cursor : ℕ)
    → Words e buf cursor
    → parse_key buf cursor e.value_hash ≡ some (e, cursor + length e.key)
unfolding parse_key
parse_key-Words e buf cursor w = rw (
  w.key_size,
  w.offset,
  w.size,
  w.expires,
  w.has_expiry,
  w.tstamp,
  w.key,
  expiry_back,
  le→ltb_false (length buf) (cursor + length e.key) w.room,
)

prefix-Words :
    (e : FooterEntry) (rest post : Bytes) (cursor : ℕ)
    → EntryFits e
    → length rest + 33 ≡ cursor
    → Words e (prefix e ++ (rest ++ (e.key ++ post))) cursor
unfolding to_le
prefix-Words e rest post cursor fits at =
    let at' : cursor ≡ length (prefix e) + length rest = omega arith in
    record {
      key_size = key_size (length e.key) fits.key;
      offset = from_le-to_le 8 e.record_offset fits.offset;
      size = from_le-to_le 4 e.record_size fits.size;
      expires = from_le-to_le 8 (expiry_word e.expires_at_ms) fits.expires;
      has_expiry = refl;
      tstamp = from_le-to_le 8 e.tstamp_ms fits.tstamp;
      key =
          ap (λ (n : ℕ). take (length e.key) (drop n (prefix e ++ (rest ++ (e.key ++ post))))) at'
          ∙ ap (take (length e.key)) (
              drop-append_add (prefix e) (rest ++ (e.key ++ post)) (length rest)
              ∙ drop-append rest (e.key ++ post))
          ∙ take-append e.key post;
      room = omega (
        arith,
        length-append (prefix e) (rest ++ (e.key ++ post)),
        length-append rest (e.key ++ post),
        length-append e.key post,
      );
    }

encode_entry-prefix :
    (e : FooterEntry) (post : Bytes)
    → encode_entry e ++ post ≡ prefix e ++ (hash_bytes e.value_hash ++ (e.key ++ post))
unfolding encode_entry
encode_entry-prefix e post =
    ap (λ (b : Bytes). prefix e ++ b) (append_assoc (hash_bytes e.value_hash) e.key post)

length-encode_entry :
    (e : FooterEntry)
    → length (encode_entry e) ≡ 33 + length (hash_bytes e.value_hash) + length e.key
unfolding encode_entry
length-encode_entry e = omega (arith, length-append (hash_bytes e.value_hash) e.key)

parse_entry-inline :
    (buf : Bytes) → byte buf 33 ≡ 0 → 34 ≤ length buf → parse_entry buf ≡ parse_key buf 34 none
unfolding parse_entry
parse_entry-inline buf b l = rw (b, le→ltb_false (length buf) 34 l)

parse_entry-hashed :
    (buf h : Bytes)
    → byte buf 33 ≡ 1
    → 50 ≤ length buf
    → take 16 (drop 34 buf) ≡ h
    → parse_entry buf ≡ parse_key buf 50 (some h)
unfolding parse_entry
parse_entry-hashed buf h b l t =
    rw (b, le→ltb_false (length buf) 34 (omega arith), le→ltb_false (length buf) 50 l, t)

module _ (e : FooterEntry) (post : Bytes) (fits : EntryFits e) where
  abbrev entry_buf : Bytes
  entry_buf = prefix e ++ (hash_bytes e.value_hash ++ (e.key ++ post))

  length-entry_buf : length (encode_entry e) ≤ length entry_buf
  unfolding to_le
  length-entry_buf = omega (
    arith,
    length-encode_entry e,
    length-append (hash_bytes e.value_hash) (e.key ++ post),
    length-append e.key post,
  )

  parse_entry-none : e.value_hash ≡ none → parse_entry entry_buf ≡ some (e, length (encode_entry e))
  unfolding to_le
  parse_entry-none eq =
      let one : length (hash_bytes e.value_hash) ≡ 1 = ap (λ o. length (hash_bytes o)) eq in
      parse_entry-inline entry_buf
        (ap (λ o. byte (prefix e ++ (hash_bytes o ++ (e.key ++ post))) 33) eq)
        (omega (arith, length-entry_buf, length-encode_entry e))
      ∙ ap (parse_key entry_buf 34) (sym eq)
      ∙ parse_key-Words e entry_buf 34
          (prefix-Words e (hash_bytes e.value_hash) post 34 fits (omega arith))
      ∙ ap (λ (n : ℕ). some (e, n)) (omega (arith, length-encode_entry e))

  parse_entry-some :
      (h : Bytes)
      → e.value_hash ≡ some h
      → parse_entry entry_buf ≡ some (e, length (encode_entry e))
  unfolding to_le
  parse_entry-some h eq =
      let wide : length h ≡ 16 = subst HashFits eq fits.hash in
      let size : length (hash_bytes e.value_hash) ≡ suc (length h) =
        ap (λ o. length (hash_bytes o)) eq in
      parse_entry-hashed entry_buf h
        (ap (λ o. byte (prefix e ++ (hash_bytes o ++ (e.key ++ post))) 33) eq)
        (omega (arith, length-entry_buf, length-encode_entry e))
        (ap (λ o. take 16 (drop 34 (prefix e ++ (hash_bytes o ++ (e.key ++ post))))) eq
          ∙ take-append_of 16 h (e.key ++ post) wide)
      ∙ ap (parse_key entry_buf 50) (sym eq)
      ∙ parse_key-Words e entry_buf 50
          (prefix-Words e (hash_bytes e.value_hash) post 50 fits (omega arith))
      ∙ ap (λ (n : ℕ). some (e, n)) (omega (arith, length-encode_entry e))

-- What was written for an entry is read back, whatever follows it.
pub parse_entry-encode_entry :
    (e : FooterEntry) (post : Bytes)
    → EntryFits e
    → parse_entry (encode_entry e ++ post) ≡ some (e, length (encode_entry e))
parse_entry-encode_entry e post fits =
    rw (encode_entry-prefix e post) (elim (Option-cases e.value_hash) [
      | inl eq ↦ parse_entry-none e post fits eq
      | inr (h, eq) ↦ parse_entry-some e post fits h eq
    ])

parse_entries-step :
    (fuel : ℕ) (buf : Bytes) (at used : ℕ) (e : FooterEntry)
    → 1 ≤ length buf
    → parse_entry buf ≡ some (e, used)
    → parse_entries (suc fuel) buf at
      ≡ (parse_entries fuel (drop used buf) (at + used) >>= λ rest. ok (e ∷ rest))
unfolding parse_entries
parse_entries-step fuel [] at used e h p = absurd (omega arith)
parse_entries-step fuel (b ∷ bs) at used e h p = rw (p, parse_entries) refl

-- The loop reads the entries in their order, and ends with the body.
pub parse_entries-encode_entries :
    (fuel : ℕ) (es : List FooterEntry) (at : ℕ)
    → All EntryFits es
    → length es < fuel
    → parse_entries fuel (encode_entries es) at ≡ ok es
unfolding encode_entries
parse_entries-encode_entries zero es at fits h = elim h [ ]
parse_entries-encode_entries (suc fuel) [] at fits h = unfold parse_entries in refl
parse_entries-encode_entries (suc fuel) (e ∷ es) at fits h =
    let used : ℕ = length (encode_entry e) in
    let long : 1 ≤ length (encode_entry e ++ encode_entries es) =
      omega (arith, length-append (encode_entry e) (encode_entries es), length-encode_entry e) in
    parse_entries-step fuel (encode_entry e ++ encode_entries es) at used e long
      (parse_entry-encode_entry e (encode_entries es) fits.0)
    ∙ rw
        (
          drop-append (encode_entry e) (encode_entries es),
          parse_entries-encode_entries fuel es (at + used) fits.1 (omega arith),
        )
        refl

length-le-encode_entries : (es : List FooterEntry) → length es ≤ length (encode_entries es)
unfolding encode_entries
length-le-encode_entries [] = omega arith
length-le-encode_entries (e ∷ es) = omega (
  arith,
  length-append (encode_entry e) (encode_entries es),
  length-encode_entry e,
  length-le-encode_entries es,
)

pub length-trailer : (c : Crc) (body : Bytes) → length (trailer c body) ≡ 24
unfolding trailer to_le
length-trailer c body = refl

trailer-words :
    (c : Crc) (body : Bytes)
    → length body < 2 ^ 64
    → (word (trailer c body) 0 8 ≡ length body)
      × (word (trailer c body) 8 8 ≡ c.checksum body)
      × (word (trailer c body) 16 8 ≡ footer_magic)
unfolding trailer to_le
trailer-words c body h = (
  from_le-to_le 8 (length body) h,
  from_le-to_le 8 (c.checksum body) (c.checksum-lt body),
  from_le-to_le 8 footer_magic (omega arith),
)

module _ (c : Crc) (es : List FooterEntry) (pre : Bytes) (f : LogFile) where
  abbrev sealed_bytes : Bytes
  sealed_bytes = pre ++ (encode_entries es ++ trailer c (encode_entries es))

  length-sealed_bytes : length sealed_bytes ≡ length pre + length (encode_entries es) + 24
  unfolding trailer to_le
  length-sealed_bytes = omega (
    arith,
    length-append pre (encode_entries es ++ trailer c (encode_entries es)),
    length-append (encode_entries es) (trailer c (encode_entries es)),
  )

  read_entries-sealed :
      f.bytes ≡ sealed_bytes
      → All EntryFits es
      → read_entries c f (length pre) (length (encode_entries es)) (c.checksum (encode_entries es))
        ≡ ok (some es)
  unfolding read_entries
  read_entries-sealed e fits =
      rw (read_exact-split f pre (encode_entries es) (trailer c (encode_entries es)) e) (
        rw (==_refl (c.checksum (encode_entries es))) (
          rw
            (parse_entries-encode_entries (suc (length (encode_entries es))) es (length pre) fits
              (omega (arith, length-le-encode_entries es)))
            refl))

  -- The footer of a sealed file is read back, whatever records stand before it.
  pub read_footer-sealed :
      f.bytes ≡ sealed_bytes
      → All EntryFits es
      → length f.bytes < 2 ^ 64
      → read_footer c f ≡ ok (some es)
  unfolding read_footer
  read_footer-sealed e fits small =
      let n : ℕ = length (encode_entries es) in
      let size : length f.bytes ≡ length pre + n + 24 =
        ap (λ (b : Bytes). length b) e ∙ length-sealed_bytes in
      let back : length f.bytes - 24 - n ≡ length pre = omega arith in
      let start : length f.bytes - 24 ≡ length pre + n = omega arith in
      let split : f.bytes ≡ (pre ++ encode_entries es) ++ (trailer c (encode_entries es) ++ []) =
        e
        ∙ sym (append_assoc pre (encode_entries es) (trailer c (encode_entries es)))
        ∙ ap (λ (b : Bytes). (pre ++ encode_entries es) ++ b)
            (sym (append-nil (trailer c (encode_entries es)))) in
      let tail : read_exact f (length f.bytes - 24) 24 ≡ ok (trailer c (encode_entries es)) =
        ap₂ (λ (o w : ℕ). read_exact f o w) (start ∙ sym (length-append pre (encode_entries es)))
          (sym (length-trailer c (encode_entries es)))
        ∙ read_exact-split f (pre ++ encode_entries es) (trailer c (encode_entries es)) [] split in
      let words = trailer-words c (encode_entries es) (omega arith) in
      rw (le→ltb_false (length f.bytes) 24 (omega arith), tail)
        (rw (words.0, words.1, words.2)
          (rw (le→ltb_false (length f.bytes - 24) n (omega arith), back)
            (read_entries-sealed e fits)))
