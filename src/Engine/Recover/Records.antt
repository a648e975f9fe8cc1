-- ===== src/Engine/Recover/Records.antt =====
-- Log records as data, their bytes, and reading them back from a file.
use mathlib.Core.List.{append_assoc}
use kv.Prelude.{
  ℕ, ◌+◌, ◌-◌, ◌≤◌, ◌<◌, ltb, Bool-cases, inl, inr, take-append_add, length-take, ◌≡◌, ap, ◌∙◌,
  true, ◌++◌, none, some, arith, tests, length, take, drop, length-append, take-append_of,
  drop-append, drop-append_of, drop-append_add, Bytes, lt→ltb,
}
use kv.Engine.Record.{Crc, RecordHeader, header_len, record_bytes, body_len}
use kv.Engine.Record.RoundTrip.{
  Fits, header_of, header_bytes, record_bytes-split, length-header_bytes, parse-header_bytes,
  verify-header_bytes,
}
use kv.Engine.File.{LogFile, read_at}
use kv.Engine.Recover.{read_record}

-- The arguments of one call of `encode_into`.
pub record LogRecord : Type 0 where
  pub tstamp_ms : ℕ
  pub flags : ℕ
  pub expires_at_ms : ℕ
  pub key : Bytes
  pub value : Bytes
  pub metadata : Bytes

abbrev pub RecordFits : LogRecord → Type 0
RecordFits r = Fits r.tstamp_ms r.expires_at_ms r.key r.value r.metadata

abbrev pub encoded : Crc → LogRecord → Bytes
encoded c r = record_bytes c r.tstamp_ms r.flags r.expires_at_ms r.key r.value r.metadata

abbrev pub header : Crc → LogRecord → RecordHeader
header c r = header_of c r.tstamp_ms r.flags r.expires_at_ms r.key r.value r.metadata

abbrev head : Crc → LogRecord → Bytes
head c r = header_bytes c r.tstamp_ms r.flags r.expires_at_ms r.key r.value r.metadata

abbrev pub body : LogRecord → Bytes
body r = r.key ++ (r.value ++ r.metadata)

module _ (c : Crc) (r : LogRecord) where
  encoded-split : encoded c r ≡ head c r ++ body r
  encoded-split = record_bytes-split c r.tstamp_ms r.flags r.expires_at_ms r.key r.value r.metadata

  length-head : length (head c r) ≡ 37
  length-head = length-header_bytes c r.tstamp_ms r.flags r.expires_at_ms r.key r.value r.metadata

  pub length-body : length (body r) ≡ length r.key + length r.value + length r.metadata
  length-body =
      omega (arith, length-append r.key (r.value ++ r.metadata), length-append r.value r.metadata)

  pub length-encoded : length (encoded c r) ≡ 37 + length (body r)
  length-encoded =
      ap length encoded-split ∙ omega (arith, length-append (head c r) (body r), length-head)

  module _ (pre post : Bytes) where
    drop-header : drop (length pre + 37) (pre ++ (encoded c r ++ post)) ≡ body r ++ post
    drop-header =
        drop-append_add pre (encoded c r ++ post) 37
        ∙ ap (λ b. drop 37 (b ++ post)) encoded-split
        ∙ ap (drop 37) (append_assoc (head c r) (body r) post)
        ∙ drop-append_of 37 (head c r) (body r ++ post) length-head

    take-header : take 37 (drop (length pre) (pre ++ (encoded c r ++ post))) ≡ head c r
    take-header =
        ap (take 37) (drop-append pre (encoded c r ++ post))
        ∙ ap (λ b. take 37 (b ++ post)) encoded-split
        ∙ ap (take 37) (append_assoc (head c r) (body r) post)
        ∙ take-append_of 37 (head c r) (body r ++ post) length-head

    -- A record is read back from where it stands, whatever stands before and after it.
    pub read_record-encoded :
        (file : LogFile)
        → file.bytes ≡ pre ++ (encoded c r ++ post)
        → RecordFits r
        → read_record c file (length pre) ≡ some (header c r, body r)
    unfolding read_record
    read_record-encoded file e fits = ground (
      arith,
      ap (λ (b : Bytes). take 37 (drop (length pre) b)) e ∙ take-header,
      ap (λ (b : Bytes). take (body_len (header c r)) (drop (length pre + 37) b)) e
          ∙ ap (take (body_len (header c r))) drop-header
          ∙ take-append_of (body_len (header c r)) (body r) post length-body,
      length-head,
      length-body,
      parse-header_bytes c r.tstamp_ms r.flags r.expires_at_ms r.key r.value r.metadata fits
          (length pre),
      verify-header_bytes c r.tstamp_ms r.flags r.expires_at_ms r.key r.value r.metadata
          (length pre),
    )

-- What a write that failed part of the way leaves at the end of a file: fewer bytes than a record.
pub data IsTorn (c : Crc) (t : Bytes) : Type 0 where
  torn :
      (r : LogRecord) (n : ℕ)
      → RecordFits r
      → n < length (encoded c r)
      → t ≡ take n (encoded c r)
      → IsTorn c t

module _ (c : Crc) (r : LogRecord) (pre : Bytes) (n : ℕ) (file : LogFile) where
  short_header :
      n < 37 → file.bytes ≡ pre ++ take n (encoded c r) → read_record c file (length pre) ≡ none
  unfolding read_record
  short_header h e =
      let read : read_at file (length pre) header_len ≡ take 37 (take n (encoded c r)) =
        ap (λ (b : Bytes). take 37 (drop (length pre) b)) e
        ∙ ap (take 37) (drop-append pre (take n (encoded c r))) in
      let short : ltb (length (read_at file (length pre) header_len)) header_len ≡ true =
        lt→ltb _ _ (
          omega (
            arith,
            ap (λ (b : Bytes). length b) read,
            length-take 37 (take n (encoded c r)),
            length-take n (encoded c r),
          )) in
      rw short

  long_prefix : 37 ≤ n → take n (encoded c r) ≡ head c r ++ take (n - 37) (body r)
  long_prefix h =
      let split : n ≡ length (head c r) + (n - 37) = omega (arith, length-head c r) in
      ap (λ (k : ℕ). take k (encoded c r)) split
      ∙ ap (take (length (head c r) + (n - 37))) (encoded-split c r)
      ∙ take-append_add (head c r) (body r) (n - 37)

  short_body :
      37 ≤ n
      → n < length (encoded c r)
      → RecordFits r
      → file.bytes ≡ pre ++ take n (encoded c r)
      → read_record c file (length pre) ≡ none
  unfolding read_record
  short_body h l fits e =
      let rest : Bytes = take (n - 37) (body r) in
      let e' : file.bytes ≡ pre ++ (head c r ++ rest) = e ∙ ap (λ b. pre ++ b) (long_prefix h) in
      ground (
        arith,
        ap (λ (b : Bytes). take 37 (drop (length pre) b)) e'
            ∙ ap (take 37) (drop-append pre (head c r ++ rest))
            ∙ take-append_of 37 (head c r) rest (length-head c r),
        ap (λ (b : Bytes). take (body_len (header c r)) (drop (length pre + 37) b)) e'
            ∙ ap (take (body_len (header c r))) (
                drop-append_add pre (head c r ++ rest) 37
                ∙ drop-append_of 37 (head c r) rest (length-head c r)),
        length-take (body_len (header c r)) rest,
        length-take (n - 37) (body r),
        length-head c r,
        length-body c r,
        length-encoded c r,
        parse-header_bytes c r.tstamp_ms r.flags r.expires_at_ms r.key r.value r.metadata fits
            (length pre),
      )

-- A torn record is not read.
pub read_record-IsTorn :
    (c : Crc) (t pre : Bytes) (file : LogFile)
    → IsTorn c t
    → file.bytes ≡ pre ++ t
    → read_record c file (length pre) ≡ none
read_record-IsTorn c t pre file (torn r n fits l cut) e =
    let e' : file.bytes ≡ pre ++ take n (encoded c r) = e ∙ ap (λ b. pre ++ b) cut in
    elim (Bool-cases (ltb n 37)) [
      | inl short ↦ short_header c r pre n file (omega tests) e'
      | inr long ↦ short_body c r pre n file (omega tests) l fits e'
    ]
